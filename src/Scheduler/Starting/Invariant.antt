-- ===== src/Scheduler/Starting/Invariant.antt =====
-- src/server.c: what `start_scheduled` keeps of the schedule.
use mathlib.Core.List.{append_assoc, append-nil}
use mathlib.Core.Path.{subst}
use vlbi_streamer.Base.{
  ◌+◌, ◌≤◌, ◌≡◌, refl, sym, ◌∙◌, ap, List, [], ◌∷◌, ◌++◌, Bool, true, false, ok, aborted,
  All-append, All-split, length, length-append, length-rest, Ensures, Ensures-any, Ensures-bind,
  arith,
}
use vlbi_streamer.ResourceTree.{Listed}
use vlbi_streamer.ResourceTree.Placement.{at, occurs}
use vlbi_streamer.ResourceTree.Splits.{occurs-append, occurs-before, occurs-rest}
use vlbi_streamer.Scheduler.{Event, Schedule, World, Host, start_event, free_and_close}
use vlbi_streamer.Scheduler.Standing.{IsUnstarted, IsSchedule, AllUnstarted}
use vlbi_streamer.Scheduler.Removal.{freed, remove_event-unstarted}
use vlbi_streamer.Scheduler.Starting.{
  Verdict, waits, expired, due, verdict, timed, launch, settle_start, start_scheduled,
}
use vlbi_streamer.Scheduler.Starting.Moves.{
  started, launching, settle_start-done, settle_start-failed,
}
use vlbi_streamer.Scheduler.Starting.SinglePass.{
  look, single_pass, AllWait, start_scheduled-single_pass,
}
use vlbi_streamer.Timer.{Timespec}

-- The schedule is in order, with this free list.
abbrev Stands : List (Listed Event) → Schedule → Type 0
Stands l d = IsSchedule d × (d.br.freelist ≡ l)

AllUnstarted-rest :
    (before after : List (Listed Event)) (le : Listed Event)
    → AllUnstarted (before ++ le ∷ after)
    → IsUnstarted le.entity × AllUnstarted (before ++ after)
AllUnstarted-rest before after le h =
    let P = λ (g : Listed Event). IsUnstarted g.entity in
    let (l, r) = All-split P before (le ∷ after) h in (r.0, All-append P before after l r.1)

freed-Stands :
    (host : Host) (now tick : Timespec) (d : Schedule) (before after : List (Listed Event))
    (le : Listed Event) (w : World)
    → IsSchedule d
    → d.br.freelist ≡ before ++ le ∷ after
    → Stands (before ++ after) (freed (launching host now tick d) (before ++ after) w)
freed-Stands host now tick d before after le w s e =
    let len : length d.br.freelist ≡ length (before ++ after) + 1 =
      rw e (length-rest before after le) in
    (
      record {
        unique = λ a.
            let o : occurs a d.br.freelist ≡ occurs a (before ++ after) + at a le =
              rw e (occurs-rest a before after le) in
            omega (arith, s.unique a);
        scheduled = omega (arith, s.scheduled);
        counted = s.counted;
        unstarted = (AllUnstarted-rest before after le (subst AllUnstarted e s.unstarted)).1;
        unloaded = s.unloaded;
      },
      refl,
    )

started-Stands :
    (host : Host) (now tick : Timespec) (d : Schedule) (before after : List (Listed Event))
    (le : Listed Event) (w : World) (ev : Event)
    → IsSchedule d
    → d.br.freelist ≡ before ++ le ∷ after
    → Stands (before ++ after) (started (launching host now tick d) (before ++ after) le w ev)
started-Stands host now tick d before after le w ev s e =
    let le' = record le { entity = ev } in
    let len : length d.br.freelist ≡ length (before ++ after) + 1 =
      rw e (length-rest before after le) in
    (
      record {
        unique = λ a.
            let o : occurs a d.br.freelist ≡ occurs a (before ++ after) + at a le =
              rw e (occurs-rest a before after le) in
            omega (arith, s.unique a, occurs-append a d.br.busylist (le' ∷ []));
        scheduled = omega (arith, s.scheduled);
        counted = omega (arith, s.counted, length-append d.br.busylist (le' ∷ []));
        unstarted = (AllUnstarted-rest before after le (subst AllUnstarted e s.unstarted)).1;
        unloaded = s.unloaded;
      },
      refl,
    )

settle_start-Stands :
    (host : Host) (now tick : Timespec) (d : Schedule) (before after : List (Listed Event))
    (le : Listed Event) (r : World × Event × Bool)
    → IsSchedule d
    → d.br.freelist ≡ before ++ le ∷ after
    → occurs le.self before ≡ 0
    → Ensures
        (Stands (before ++ after))
        (settle_start host now tick (launching host now tick d) le r)
settle_start-Stands host now tick d before after le (w, ev, true) s e o =
    rw (settle_start-done host now tick (launching host now tick d) before after le w ev e o)
      (started-Stands host now tick d before after le w ev s e)
settle_start-Stands host now tick d before after le (w, ev, false) s e o =
    rw (settle_start-failed host now tick (launching host now tick d) before after le w ev e o) (
      Ensures-bind (λ _. Unit {0}) (Stands (before ++ after)) (free_and_close host ev w)
        (λ w'. ok (freed (launching host now tick d) (before ++ after) w'))
        (Ensures-any (λ _. Unit {0}) (free_and_close host ev w) (λ _. tt))
        (λ w' _. freed-Stands host now tick d before after le w' s e))

launch-Stands :
    (host : Host) (now tick : Timespec) (d : Schedule) (before after : List (Listed Event))
    (le : Listed Event)
    → IsSchedule d
    → d.br.freelist ≡ before ++ le ∷ after
    → occurs le.self before ≡ 0
    → Ensures (Stands (before ++ after)) (launch host now tick d le)
unfolding launch
launch-Stands host now tick d before after le s e o =
    let o' = start_event host (timed host now tick le.entity) d.world in
    Ensures-bind (λ _. Unit {0}) (Stands (before ++ after)) o'
      (settle_start host now tick (launching host now tick d) le)
      (Ensures-any (λ _. Unit {0}) o' (λ _. tt))
      (λ r _. settle_start-Stands host now tick d before after le r s e o)

-- What the calls leave: a schedule in order, whose waiting events are not due yet.
abbrev pub AllLeft : Timespec → Schedule → Type 0
AllLeft now d = IsSchedule d × AllWait now d.br.freelist

single_pass-AllLeft :
    (host : Host) (now tick : Timespec) (d : Schedule) (before after : List (Listed Event))
    → IsSchedule d
    → d.br.freelist ≡ before ++ after
    → AllWait now before
    → Ensures (AllLeft now) (single_pass host now tick d after)
unfolding single_pass look
single_pass-AllLeft host now tick d before [] s e w =
    (s, subst (AllWait now) (sym (e ∙ append-nil before)) w)
single_pass-AllLeft host now tick d before (le ∷ after) s e w =
    go (verdict now le.entity) refl (λ bf d'. single_pass-AllLeft host now tick d' bf after)
  where
    fresh : occurs le.self before ≡ 0
    fresh =
        occurs-before before after le
          (subst (λ l. occurs le.self l ≤ 1) e (omega (arith, s.unique le.self)))

    go :
        (v : Verdict)
        → verdict now le.entity ≡ v
        → ((bf : List (Listed Event)) (d' : Schedule)
            → IsSchedule d'
            → d'.br.freelist ≡ bf ++ after
            → AllWait now bf
            → Ensures (AllLeft now) (single_pass host now tick d' after))
        → Ensures (AllLeft now) (single_pass host now tick d (le ∷ after))
    go waits h rest =
        rw (h, look)
          (rest (before ++ le ∷ []) d s (e ∙ sym (append_assoc before (le ∷ []) after))
            (All-append (λ g. verdict now g.entity ≡ waits) before (le ∷ []) w (h, tt)))
    go expired h rest =
        rw (h, look)
          (rw
            (remove_event-unstarted host d before after le
              (AllUnstarted-rest before after le (subst AllUnstarted e s.unstarted)).0 e fresh)
            tt)
    go due h rest =
        rw (h, look)
          (Ensures-bind (Stands (before ++ after)) (AllLeft now) (launch host now tick d le)
            (λ d'. single_pass host now tick d' after)
            (launch-Stands host now tick d before after le s e fresh)
            (λ d' st. rest before d' st.0 st.1 w))

-- Whatever the host answers, when start_scheduled returns, the schedule is in order: each address
-- is listed once, n_scheduled and n_running are the lengths of the free and the busy list modulo
-- 2^32, and no waiting event was ever started; and no event that is due or too old is left waiting.
-- The schedule is in order before.
pub start_scheduled-AllLeft :
    (host : Host) (now tick : Timespec) (d : Schedule)
    → IsSchedule d
    → Ensures (AllLeft now) (start_scheduled host now tick d)
start_scheduled-AllLeft host now tick d s =
    rw (start_scheduled-single_pass host now tick d (λ a. omega (arith, s.unique a)))
      (single_pass-AllLeft host now tick d [] d.br.freelist s refl tt)

skip_waiting :
    (host : Host) (now tick : Timespec) (d : Schedule) (before after : List (Listed Event))
    → AllWait now before
    → single_pass host now tick d (before ++ after) ≡ single_pass host now tick d after
unfolding single_pass look
skip_waiting host now tick d [] after w = refl
skip_waiting host now tick d (le ∷ before) after w =
    rw (w.0, look) (skip_waiting host now tick d before after w.1)

-- A recording request that is too old stops the daemon: when the first event that does not go on
-- waiting is too old, start_scheduled aborts instead of removing it. The schedule is in order.
pub expired_aborts :
    (host : Host) (now tick : Timespec) (d : Schedule) (before after : List (Listed Event))
    (le : Listed Event)
    → IsSchedule d
    → d.br.freelist ≡ before ++ le ∷ after
    → AllWait now before
    → verdict now le.entity ≡ expired
    → start_scheduled host now tick d ≡ aborted
unfolding single_pass look
expired_aborts host now tick d before after le s e w h =
    let fresh : occurs le.self before ≡ 0 =
      occurs-before before after le
        (subst (λ l. occurs le.self l ≤ 1) e (omega (arith, s.unique le.self))) in
    let removal =
      remove_event-unstarted host d before after le
        (AllUnstarted-rest before after le (subst AllUnstarted e s.unstarted)).0 e fresh in
    start_scheduled-single_pass host now tick d (λ a. omega (arith, s.unique a))
    ∙ ap (single_pass host now tick d) e
    ∙ skip_waiting host now tick d before (le ∷ after) w
    ∙ rw (h, look) (rw removal refl)
