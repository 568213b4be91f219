-- ===== src/Scheduler/Main/Rounds.antt =====
-- src/server.c: what the rounds of the loop keep while the state file and the local socket are quiet.
use vlbi_streamer.Base.{
  ℕ, ◌≡◌, refl, ap, ◌∙◌, List, [], ◌∷◌, ◌++◌, Bool, true, false, not, Bool-cases, inl, inr, map,
  All, length, ok, ◌>>=◌, Ensures, Ensures-bind, Ensures-map, Ensures-if, arith,
}
use mathlib.Core.Path.{subst, sym}
use vlbi_streamer.ResourceTree.{Listed}
use vlbi_streamer.ResourceTree.Placement.{occurs}
use vlbi_streamer.Scheduler.{Event, Status, Schedule, Host, is_over}
use vlbi_streamer.Scheduler.Standing.{IsSchedule, IsWilling}
use vlbi_streamer.Scheduler.Starting.{waits, expired, due, start_scheduled}
use vlbi_streamer.Scheduler.Starting.Liveness.{
  those, addresses, addresses-append, start_scheduled-Launched,
}
use vlbi_streamer.Scheduler.Starting.SinglePass.{AllWait}
use vlbi_streamer.Scheduler.Starting.Invariant.{AllLeft, start_scheduled-AllLeft}
use vlbi_streamer.Scheduler.Finishing.{check_finished}
use vlbi_streamer.Scheduler.Finishing.Survivors.{
  survivors, AllRun, Finished, check_finished-Finished, check_finished_none,
}
use vlbi_streamer.Scheduler.Main.{
  Input, with_status, progress, stop_if, on_statefile, serve_poll, round, rounds,
}
use vlbi_streamer.Timer.{Timespec}

-- Nothing to read at the state file and the local socket.
pub record IsQuiet (i : Input) : Type 0 where
  pub no_failure : i.poll_failed ≡ false
  pub no_change : i.statefile_read ≡ false
  pub no_session : i.local_activity ≡ false

occurs-with_status :
    (a : ℕ) (statuses : ℕ → Status) (l : List (Listed Event))
    → occurs a (map (with_status statuses) l) ≡ occurs a l
occurs-with_status a statuses [] = refl
occurs-with_status a statuses (le ∷ l) = omega (arith, occurs-with_status a statuses l)

length-with_status :
    (statuses : ℕ → Status) (l : List (Listed Event))
    → length (map (with_status statuses) l) ≡ length l
length-with_status statuses [] = refl
length-with_status statuses (le ∷ l) = omega (arith, length-with_status statuses l)

-- The waiting events are not due, and the schedule is in order, whatever the threads do.
AllLeft-progress :
    (now : Timespec) (statuses : ℕ → Status) (d : Schedule)
    → AllLeft now d
    → AllLeft now (progress statuses d)
AllLeft-progress now statuses d (s, w) = (
  record {
    unique = λ a. omega (arith, s.unique a, occurs-with_status a statuses d.br.busylist);
    scheduled = s.scheduled;
    counted = omega (arith, s.counted, length-with_status statuses d.br.busylist);
    unstarted = s.unstarted;
    unloaded = s.unloaded;
  },
  w,
)

AllRun-survivors : (l : List (Listed Event)) → AllRun (survivors l)
AllRun-survivors [] = tt
AllRun-survivors (le ∷ l) = elim (Bool-cases (is_over le.entity.status)) [
  | inl over ↦ rw over (AllRun-survivors l)
  | inr runs ↦ rw runs (runs, AllRun-survivors l)
]

-- What a round leaves.
pub record Settled (now : Timespec) (d : Schedule) : Type 0 where
  pub in_order : IsSchedule d
  pub waiting : AllWait now d.br.freelist
  pub running : AllRun d.br.busylist

Settled-stop_if :
    (now : Timespec) (b : Bool) (d : Schedule) → Settled now d → Settled now (stop_if b d)
Settled-stop_if now true d h = record {
  in_order = record {
    unique = h.in_order.unique;
    scheduled = h.in_order.scheduled;
    counted = h.in_order.counted;
    unstarted = h.in_order.unstarted;
    unloaded = h.in_order.unloaded;
  };
  waiting = h.waiting;
  running = h.running;
}
Settled-stop_if now false d h = h

AllLeft-stop_if :
    (now : Timespec) (b : Bool) (d : Schedule) → AllLeft now d → AllLeft now (stop_if b d)
AllLeft-stop_if now true d (s, w) = (
  record {
    unique = s.unique;
    scheduled = s.scheduled;
    counted = s.counted;
    unstarted = s.unstarted;
    unloaded = s.unloaded;
  },
  w,
)
AllLeft-stop_if now false d h = h

serve_poll-quiet :
    (host : Host) (i : Input) (d : Schedule)
    → IsQuiet i
    → serve_poll host i d ≡ ok (stop_if i.statefile_error d)
unfolding serve_poll on_statefile
serve_poll-quiet host i d q = simp (q.no_failure, q.no_change, q.no_session)

finish-Settled :
    (host : Host) (now : Timespec) (d : Schedule)
    → AllLeft now d
    → Ensures (Settled now) (check_finished host d)
finish-Settled host now d (s, w) =
    Ensures-map (Finished d (survivors d.br.busylist)) (Settled now) (check_finished host d)
      (check_finished-Finished host d s)
      (λ d' f. record {
        in_order = f.in_order;
        waiting = subst (AllWait now) (sym f.waiting) w;
        running = subst AllRun (sym f.left_busy) (AllRun-survivors d.br.busylist);
      })

-- One quiet round.
pub round-Settled :
    (host : Host) (i : Input) (d : Schedule)
    → IsQuiet i
    → IsSchedule d
    → Ensures (Settled i.now) (round host i d)
unfolding round
round-Settled host i d q s =
    Ensures-bind (AllLeft i.now) (Settled i.now) (start_scheduled host i.now i.tick d) _
      (start_scheduled-AllLeft host i.now i.tick d s)
      (λ d1 left.
        let d2 = stop_if i.statefile_error (progress i.statuses d1) in
        rw (serve_poll-quiet host i (progress i.statuses d1) q) (
          Ensures-bind (Settled i.now) (Settled i.now) (check_finished host d2) _
            (finish-Settled host i.now d2 (
              AllLeft-stop_if i.now i.statefile_error (progress i.statuses d1)
                (AllLeft-progress i.now i.statuses d1 left)))
            (λ d3 h. Settled-stop_if i.now (not i.memory_alive) d3 h)))

-- Over any number of rounds of the main loop in which the state file and the local socket are
-- quiet, the schedule stays in order whenever the rounds return, whatever the host answers and the
-- streamer threads set the statuses to.
pub rounds-IsSchedule :
    (host : Host) (inputs : List Input) (d : Schedule)
    → All IsQuiet inputs
    → IsSchedule d
    → Ensures IsSchedule (rounds host inputs d)
unfolding rounds
rounds-IsSchedule host [] d q s = s
rounds-IsSchedule host (i ∷ inputs) d (q, qs) s =
    Ensures-if IsSchedule (not d.is_running) (ok d) (round host i d >>= λ d'. rounds host inputs d')
      (λ _. s)
      (λ _.
        Ensures-bind (Settled i.now) IsSchedule (round host i d) (λ d'. rounds host inputs d')
          (round-Settled host i d q s) (λ d' h. rounds-IsSchedule host inputs d' qs h.in_order))

AllRun-with_status :
    (statuses : ℕ → Status) (l : List (Listed Event))
    → ((a : ℕ) → is_over (statuses a) ≡ false)
    → AllRun (map (with_status statuses) l)
AllRun-with_status statuses [] h = tt
AllRun-with_status statuses (le ∷ l) h = (h le.self, AllRun-with_status statuses l h)

addresses-with_status :
    (statuses : ℕ → Status) (l : List (Listed Event))
    → addresses (map (with_status statuses) l) ≡ addresses l
addresses-with_status statuses [] = refl
addresses-with_status statuses (le ∷ l) = ap (λ t. le.self ∷ t) (addresses-with_status statuses l)

-- What a round starts.
pub record Ran (now : Timespec) (d d' : Schedule) : Type 0 where
  pub waiting : d'.br.freelist ≡ those waits now d.br.freelist
  pub running :
      addresses d'.br.busylist ≡ addresses d.br.busylist ++ addresses (those due now d.br.freelist)

Ran-stop_if :
    (now : Timespec) (b : Bool) (d d' : Schedule) → Ran now d d' → Ran now d (stop_if b d')
Ran-stop_if now true d d' r = record { waiting = r.waiting; running = r.running }
Ran-stop_if now false d d' r = r

AllRun-stop_if : (b : Bool) (d : Schedule) → AllRun d.br.busylist → AllRun (stop_if b d).br.busylist
AllRun-stop_if true d h = h
AllRun-stop_if false d h = h

-- A round of the main loop starts every event whose time has come: it returns, the events that are
-- not due go on waiting in their order, and the due ones are running behind those that ran before,
-- in their order. Every start succeeds on the host, no waiting event is too old, no running event
-- is over, and the state file and the local socket are quiet.
pub round-Ran :
    (host : Host) (i : Input) (d : Schedule)
    → IsQuiet i
    → IsWilling host
    → ((a : ℕ) → is_over (i.statuses a) ≡ false)
    → IsSchedule d
    → those expired i.now d.br.freelist ≡ []
    → (d' : Schedule) × (round host i d ≡ ok d') × Ran i.now d d'
unfolding round
round-Ran host i d q willing going s x =
    let (d1, runs, t) =
      start_scheduled-Launched host i.now i.tick d willing (λ a. omega (arith, s.unique a))
        s.unstarted x in
    let p = progress i.statuses d1 in
    let d2 = stop_if i.statefile_error p in
    let none_over : AllRun p.br.busylist = AllRun-with_status i.statuses d1.br.busylist going in
    let kept : check_finished host d2 ≡ ok d2 =
      check_finished_none host d2 (AllRun-stop_if i.statefile_error p none_over) in
    let r : Ran i.now d p = record {
      waiting = t.kept;
      running =
          addresses-with_status i.statuses d1.br.busylist
          ∙ ap addresses t.joined
          ∙ addresses-append d.br.busylist t.new
          ∙ ap (λ l. addresses d.br.busylist ++ l) t.in_order;
    } in
    (
      stop_if (not i.memory_alive) d2,
      rw runs (rw (serve_poll-quiet host i p q) (rw kept refl)),
      Ran-stop_if i.now (not i.memory_alive) d d2 (Ran-stop_if i.now i.statefile_error d p r),
    )
