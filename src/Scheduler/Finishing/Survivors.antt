-- ===== src/Scheduler/Finishing/Survivors.antt =====
-- src/server.c: what `check_finished` leaves of the running events.
use mathlib.Core.List.{append_assoc, append-nil}
use mathlib.Core.Path.{subst}
use vlbi_streamer.Base.{
  ℕ, ◌+◌, ◌≤◌, ◌≡◌, ◌≢◌, ◌⊎◌, refl, sym, ◌∙◌, ap, List, [], ◌∷◌, ◌++◌, true, false, ◌==◌,
  if◌then◌else◌, Bool-cases, inl, inr, none, some, ok, faulted, ◌>>=◌, All, length, length-rest,
  Ensures, Ensures-any, Ensures-bind, Ensures-map, arith,
}
use vlbi_streamer.ResourceTree.{Listed}
use vlbi_streamer.ResourceTree.Placement.{at, occurs}
use vlbi_streamer.ResourceTree.Splits.{occurs-before, occurs-rest}
use vlbi_streamer.Scheduler.{
  Event, Schedule, World, Host, decrement, is_over, free_and_close, join, give_up,
  remove_from_cfgsched, with_call, is_done, shutdown_thread,
}
use vlbi_streamer.Scheduler.Standing.{IsSchedule}
use vlbi_streamer.Scheduler.Removal.{unbusied, remove_event-running}
use vlbi_streamer.Scheduler.Finishing.{no_time, one_less, finish_one, finish_loop, check_finished}

-- The events that are not over, in order.
abbrev pub survivors : List (Listed Event) → List (Listed Event)
survivors [] = []
survivors (le ∷ l) = if is_over le.entity.status then survivors l else le ∷ survivors l

abbrev pub AllRun : List (Listed Event) → Type 0
AllRun l = All (λ le. is_over le.entity.status ≡ false) l

-- What a pass over running events leaves: the waiting events, and these running ones.
pub record Finished (d : Schedule) (left : List (Listed Event)) (d' : Schedule) : Type 0 where
  pub in_order : IsSchedule d'
  pub waiting : d'.br.freelist ≡ d.br.freelist
  pub left_busy : d'.br.busylist ≡ left
  pub reset : (d' ≡ d) ⊎ ((d'.n_running ≢ 0) ⊎ (d'.lasttick ≡ no_time))

removed-Finished :
    (d : Schedule) (before after : List (Listed Event)) (le : Listed Event) (w : World)
    → IsSchedule d
    → d.br.busylist ≡ before ++ le ∷ after
    → Finished d (before ++ after) (one_less (unbusied d (before ++ after) w))
removed-Finished d before after le w s e =
    let len : length d.br.busylist ≡ length (before ++ after) + 1 =
      rw e (length-rest before after le) in
    record {
      in_order = record {
        unique = λ a.
            let o : occurs a d.br.busylist ≡ occurs a (before ++ after) + at a le =
              rw e (occurs-rest a before after le) in
            omega (arith, s.unique a);
        scheduled = s.scheduled;
        counted = omega (arith, s.counted);
        unstarted = s.unstarted;
        unloaded = s.unloaded;
      };
      waiting = refl;
      left_busy = refl;
      reset = elim (Bool-cases (decrement d.n_running == 0)) [
        | inl zeroed ↦ inr (inr (rw zeroed refl))
        | inr more ↦ inr (inl (λ e. ground (arith, e)))
      ];
    }

chain :
    (d d' d'' : Schedule) (l l' : List (Listed Event))
    → Finished d l d'
    → Finished d' l' d''
    → Finished d l' d''
chain d d' d'' l l' f g = record {
  in_order = g.in_order;
  waiting = g.waiting ∙ f.waiting;
  left_busy = g.left_busy;
  reset = elim g.reset [
    | inl same ↦
        subst (λ t. (t ≡ d) ⊎ ((t.n_running ≢ 0) ⊎ (t.lasttick ≡ no_time))) (sym same) f.reset
    | inr r ↦ inr r
  ];
}

finish_one-removed :
    (host : Host) (d : Schedule) (before after : List (Listed Event)) (le : Listed Event)
    → IsSchedule d
    → d.br.busylist ≡ before ++ le ∷ after
    → is_over le.entity.status ≡ true
    → finish_one host d le
      ≡ (free_and_close host le.entity d.world >>= λ w. ok (unbusied d (before ++ after) w))
        >>= λ d'. ok (one_less d')
unfolding finish_one
finish_one-removed host d before after le s e h =
    let twice : occurs le.self (before ++ le ∷ after) ≤ 1 =
      subst (λ l. occurs le.self l ≤ 1) e (omega (arith, s.unique le.self)) in
    let o = occurs-before before after le twice in
    let here : occurs le.self d.br.busylist ≡ occurs le.self (before ++ after) + at le.self le =
      rw e (occurs-rest le.self before after le) in
    let one : at le.self le ≡ 1 = ground arith in
    let f : occurs le.self d.br.freelist ≡ 0 = omega (arith, s.unique le.self) in
    rw h (rw (remove_event-running host d before after le e o f) refl)

finish_one-Finished :
    (host : Host) (d : Schedule) (before after : List (Listed Event)) (le : Listed Event)
    → IsSchedule d
    → d.br.busylist ≡ before ++ le ∷ after
    → is_over le.entity.status ≡ true
    → Ensures (Finished d (before ++ after)) (finish_one host d le)
finish_one-Finished host d before after le s e h =
    rw (finish_one-removed host d before after le s e h) (
      Ensures-bind (λ d'. Finished d (before ++ after) (one_less d')) (Finished d (before ++ after))
        (free_and_close host le.entity d.world >>= λ w. ok (unbusied d (before ++ after) w))
        (λ d'. ok (one_less d'))
        (Ensures-bind (λ _. Unit {0}) (λ d'. Finished d (before ++ after) (one_less d'))
          (free_and_close host le.entity d.world) (λ w. ok (unbusied d (before ++ after) w))
          (Ensures-any (λ _. Unit {0}) (free_and_close host le.entity d.world) (λ _. tt))
          (λ w _. removed-Finished d before after le w s e))
        (λ d' f. f))

finish_one-kept :
    (host : Host) (d : Schedule) (le : Listed Event)
    → is_over le.entity.status ≡ false
    → finish_one host d le ≡ ok d
unfolding finish_one
finish_one-kept host d le h = rw h refl

finish_loop-Finished :
    (host : Host) (d : Schedule) (before after : List (Listed Event))
    → IsSchedule d
    → d.br.busylist ≡ before ++ after
    → Ensures (Finished d (before ++ survivors after)) (finish_loop host d after)
unfolding finish_loop
finish_loop-Finished host d before [] s e = record {
  in_order = s;
  waiting = refl;
  left_busy = e;
  reset = inl refl;
}
finish_loop-Finished host d before (le ∷ after) s e = elim (Bool-cases (is_over le.entity.status)) [
  | inl over ↦ rw over (
      Ensures-bind (Finished d (before ++ after)) (Finished d (before ++ survivors after))
        (finish_one host d le) (λ d'. finish_loop host d' after)
        (finish_one-Finished host d before after le s e over)
        (λ d' f.
          Ensures-map (Finished d' (before ++ survivors after))
            (Finished d (before ++ survivors after)) (finish_loop host d' after)
            (finish_loop-Finished host d' before after f.in_order f.left_busy)
            (λ d'' g. chain d d' d'' (before ++ after) (before ++ survivors after) f g)))
  | inr runs ↦ rw (finish_one-kept host d le runs) (
      rw runs (
        subst (λ l. Ensures (Finished d l) (finish_loop host d after))
          (append_assoc before (le ∷ []) (survivors after))
          (finish_loop-Finished host d (before ++ le ∷ []) after s
            (e ∙ sym (append_assoc before (le ∷ []) after)))))
]

-- When check_finished returns, exactly the running events that are over are gone from the busy
-- list, the others and the waiting events are as they were, the schedule is in order again, and
-- unless nothing changes, lasttick is zero if n_running is. The schedule is in order before.
pub check_finished-Finished :
    (host : Host) (d : Schedule)
    → IsSchedule d
    → Ensures (Finished d (survivors d.br.busylist)) (check_finished host d)
unfolding check_finished
check_finished-Finished host d s = finish_loop-Finished host d [] d.br.busylist s refl

-- A local session: it has no name in the state file and no file index, and yet no socket number.
pub record IsSession (ev : Event) : Type 0 where
  pub thread : ℕ
  pub nameless : ev.idstring ≡ none
  pub numberless : ev.socketnumber ≡ 0
  pub threaded : ev.pt ≡ some thread

free_and_close-session :
    (host : Host) (ev : Event) (w : World)
    → host.flock ≡ true
    → ((t : ℕ) → host.pthread_join t ≡ true)
    → IsSession ev
    → free_and_close host ev w ≡ faulted
unfolding free_and_close join give_up remove_from_cfgsched
free_and_close-session host ev w lock joins h =
    let told = if is_done ev.status then w else with_call (shutdown_thread ev.pt) w in
    ap (join host ev told) h.threaded ∙ simp (joins h.thread, h.numberless, lock, h.nameless)

finish_loop-skips :
    (host : Host) (d : Schedule) (before after : List (Listed Event))
    → AllRun before
    → finish_loop host d (before ++ after) ≡ finish_loop host d after
unfolding finish_loop
finish_loop-skips host d [] after h = refl
finish_loop-skips host d (le ∷ before) after h =
    rw (finish_one-kept host d le h.0) (finish_loop-skips host d before after h.1)

finish_one-faulted :
    (host : Host) (d : Schedule) (before after : List (Listed Event)) (le : Listed Event)
    → IsSchedule d
    → d.br.busylist ≡ before ++ le ∷ after
    → is_over le.entity.status ≡ true
    → free_and_close host le.entity d.world ≡ faulted
    → finish_one host d le ≡ faulted
finish_one-faulted host d before after le s e h f =
    finish_one-removed host d before after le s e h ∙ rw f refl

-- The end of a local session is a fault: when the first running event that is over has neither a
-- name nor a socket number, check_finished reads the name, which was never set, to strike it off
-- the state file. The lock is given, pthread_join succeeds, and the schedule is in order.
pub session_end_faults :
    (host : Host) (d : Schedule) (before after : List (Listed Event)) (le : Listed Event)
    → host.flock ≡ true
    → ((t : ℕ) → host.pthread_join t ≡ true)
    → IsSchedule d
    → d.br.busylist ≡ before ++ le ∷ after
    → AllRun before
    → is_over le.entity.status ≡ true
    → IsSession le.entity
    → check_finished host d ≡ faulted
unfolding check_finished finish_loop
session_end_faults host d before after le lock joins s e runs over session =
    ap (finish_loop host d) e
    ∙ finish_loop-skips host d before (le ∷ after) runs
    ∙ rw
        (finish_one-faulted host d before after le s e over
          (free_and_close-session host le.entity d.world lock joins session))
        refl

pub check_finished_none :
    (host : Host) (d : Schedule) → AllRun d.br.busylist → check_finished host d ≡ ok d
unfolding check_finished finish_loop
check_finished_none host d h =
    ap (finish_loop host d) (sym (append-nil d.br.busylist))
    ∙ finish_loop-skips host d d.br.busylist [] h
