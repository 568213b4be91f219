-- ===== src/Scheduler/Willing.antt =====
-- src/server.c: `start_event` and `free_and_close` on an event that was never started.
use vlbi_streamer.Base.{
  ◌<◌, ◌≡◌, refl, ap, ◌∙◌, some, aborted, Bool, true, false, ◌==◌, if◌then◌else◌, ok, inl, inr,
  Bool-cases, arith,
}
use vlbi_streamer.FileRegistry.{Files}
use vlbi_streamer.Scheduler.{
  Event, World, Host, Configured, running, shutdown_thread, divisor, with_num_elems, strike,
  configure, run, start_event, remove_from_cfgsched, give_up, join, free_and_close, with_call,
  is_done,
}
use vlbi_streamer.Scheduler.Standing.{IsUnstarted, IsStarted, IsWilling}

run-IsStarted :
    (host : Host) (ev : Event) (w : World)
    → IsWilling host
    → 0 < divisor ev.opt
    → (ev' : Event) × (run host (w, ev, true) ≡ ok (w, ev', true)) × IsStarted ev'
unfolding run
run-IsStarted host ev w willing positive =
    let nonzero : (divisor ev.opt == 0) ≡ false = ground arith in
    let ready = record ev { opt = with_num_elems ev.opt; status = running } in
    let (t, created) = willing.creates ready in
    (
      record ready { pt = some t },
      rw (nonzero, created) refl,
      record { thread = t; threaded = refl; active = refl },
    )

configured :
    (host : Host) (ev : Event) (w : World)
    → IsWilling host
    → ev.w_localsocket ≡ false
    → (w' : World) × (ev' : Event) × (configure host ev w ≡ (w', ev', true)) × (0 < divisor ev'.opt)
unfolding configure
configured host ev w willing remote = go (host.init_cfg w.files ev) refl
  where
    go :
        (r : Files × Configured × Bool)
        → host.init_cfg w.files ev ≡ r
        → (w' : World) × (ev' : Event) × (configure host ev w ≡ (w', ev', true))
          × (0 < divisor ev'.opt)
    go (files, cfg, done) h =
        let (fine, positive) = willing.configures w.files files ev cfg.fi cfg.opt done h in
        (
          record w { files = files },
          record ev { fi = cfg.fi; opt = cfg.opt },
          simp (remote, h, fine),
          positive,
        )

-- On a willing host an event of the state file is started.
pub start_event-IsStarted :
    (host : Host) (ev : Event) (w : World)
    → IsWilling host
    → ev.w_localsocket ≡ false
    → (w' : World) × (ev' : Event) × (start_event host ev w ≡ ok (w', ev', true)) × IsStarted ev'
unfolding start_event
start_event-IsStarted host ev w willing remote =
    let (w', ev', done, positive) = configured host ev w willing remote in
    let (ev'', runs, fine) = run-IsStarted host ev' w' willing positive in
    (w', ev'', rw (done, runs) refl, fine)

remove_from_cfgsched-named :
    (host : Host) (ev : Event) (w : World)
    → IsUnstarted ev
    → (w' : World) × (remove_from_cfgsched host ev w ≡ ok w')
unfolding remove_from_cfgsched
remove_from_cfgsched-named host ev w h = elim (Bool-cases host.flock) [
  | inl locked ↦ (record w { statefile = strike host w.statefile h.id }, simp (locked, h.named))
  | inr failed ↦ (w, rw failed refl)
]

-- The close of an event that was never started does not come back: `assert(fi)` fails.
give_up-unstarted :
    (host : Host) (ev : Event) (w : World) → IsUnstarted ev → give_up host ev w ≡ aborted
unfolding give_up
give_up-unstarted host ev w h =
    let (w', removed) = remove_from_cfgsched-named host ev w h in
    elim (Bool-cases (ev.socketnumber == 0)) [
      | inl zeroed ↦ simp (zeroed, removed, h.unindexed)
      | inr other ↦ simp (other, h.unindexed)
    ]

pub free_and_close-unstarted :
    (host : Host) (ev : Event) (w : World) → IsUnstarted ev → free_and_close host ev w ≡ aborted
unfolding free_and_close join
free_and_close-unstarted host ev w h =
    let told = if is_done ev.status then w else with_call (shutdown_thread ev.pt) w in
    ap (join host ev told) h.threadless ∙ give_up-unstarted host ev told h
