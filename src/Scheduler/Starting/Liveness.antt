-- ===== src/Scheduler/Starting/Liveness.antt =====
-- src/server.c: on a willing host every event whose time has come is started.
use mathlib.Core.List.{append_assoc, append-nil}
use vlbi_streamer.Base.{
  ℕ, ◌≡◌, refl, sym, ◌∙◌, ap, List, [], ◌∷◌, ◌++◌, Bool, true, false, if◌then◌else◌, ok, arith,
}
use mathlib.Core.Path.{subst}
use vlbi_streamer.ResourceTree.{Listed}
use vlbi_streamer.ResourceTree.Placement.{occurs}
use vlbi_streamer.ResourceTree.Splits.{occurs-before}
use vlbi_streamer.Scheduler.{Event, Schedule, World, Host}
use vlbi_streamer.Scheduler.Standing.{IsStarted, IsWilling, AllUnstarted, AllStarted}
use vlbi_streamer.Scheduler.Willing.{start_event-IsStarted}
use vlbi_streamer.Scheduler.Starting.{
  Verdict, waits, expired, due, verdict, timed, launch, start_scheduled,
}
use vlbi_streamer.Scheduler.Starting.Moves.{started, launching, settle_start-done}
use vlbi_streamer.Scheduler.Starting.SinglePass.{
  look, single_pass, IsUnique, IsUnique-rest, start_scheduled-single_pass,
}
use vlbi_streamer.Timer.{Timespec}

abbrev pub has_verdict : Verdict → Verdict → Bool
has_verdict waits waits = true
has_verdict expired expired = true
has_verdict due due = true
has_verdict _ _ = false

-- The events of a verdict, in order.
abbrev pub those : Verdict → Timespec → List (Listed Event) → List (Listed Event)
those v now [] = []
those v now (le ∷ l) =
    if has_verdict v (verdict now le.entity) then le ∷ those v now l else those v now l

-- The addresses of the elements.
abbrev pub addresses : List (Listed Event) → List ℕ
addresses [] = []
addresses (le ∷ l) = le.self ∷ addresses l

pub addresses-append : (l r : List (Listed Event)) → addresses (l ++ r) ≡ addresses l ++ addresses r
addresses-append [] r = refl
addresses-append (le ∷ l) r = ap (λ t. le.self ∷ t) (addresses-append l r)

timed-remote :
    (host : Host) (now tick : Timespec) (ev : Event)
    → (timed host now tick ev).w_localsocket ≡ ev.w_localsocket
timed-remote host now tick ev = ground arith

launch-started :
    (host : Host) (now tick : Timespec) (d : Schedule) (before after : List (Listed Event))
    (le : Listed Event)
    → IsWilling host
    → le.entity.w_localsocket ≡ false
    → d.br.freelist ≡ before ++ le ∷ after
    → occurs le.self before ≡ 0
    → (w : World) × (ev : Event) × (launch host now tick d le
        ≡ ok (started (launching host now tick d) (before ++ after) le w ev))
      × IsStarted ev
unfolding launch
launch-started host now tick d before after le willing remote e o =
    let (w, ev, runs, fine) =
      start_event-IsStarted host (timed host now tick le.entity) d.world willing
        (timed-remote host now tick le.entity ∙ remote) in
    (
      w,
      ev,
      rw runs
          (settle_start-done host now tick (launching host now tick d) before after le w ev e o),
      fine,
    )

-- What a pass over `after` makes of the schedule.
pub record Launched (now : Timespec) (before after : List (Listed Event)) (d d' : Schedule)
    : Type 0 where
  pub new : List (Listed Event)
  pub kept : d'.br.freelist ≡ before ++ those waits now after
  pub joined : d'.br.busylist ≡ d.br.busylist ++ new
  pub in_order : addresses new ≡ addresses (those due now after)
  pub active : AllStarted new

wait_more :
    (now : Timespec) (before after : List (Listed Event)) (le : Listed Event) (d d' : Schedule)
    → verdict now le.entity ≡ waits
    → Launched now (before ++ le ∷ []) after d d'
    → Launched now before (le ∷ after) d d'
wait_more now before after le d d' h s = record {
  new = s.new;
  kept = s.kept ∙ rw h (append_assoc before (le ∷ []) (those waits now after));
  joined = s.joined;
  in_order = rw h s.in_order;
  active = s.active;
}

start_more :
    (now : Timespec) (before after : List (Listed Event)) (le : Listed Event) (d0 d d' : Schedule)
    (w : World) (ev : Event)
    → verdict now le.entity ≡ due
    → IsStarted ev
    → d.br.busylist ≡ d0.br.busylist
    → Launched now before after (started d (before ++ after) le w ev) d'
    → Launched now before (le ∷ after) d0 d'
start_more now before after le d0 d d' w ev h fine same s =
    let le' = record le { entity = ev } in
    record {
      new = le' ∷ s.new;
      kept = rw h s.kept;
      joined = s.joined ∙ rw same (append_assoc d0.br.busylist (le' ∷ []) s.new);
      in_order = rw h (ap (λ t. le.self ∷ t) s.in_order);
      active = (fine, s.active);
    }

pub single_pass-Launched :
    (host : Host) (now tick : Timespec) (d : Schedule) (before after : List (Listed Event))
    → IsWilling host
    → d.br.freelist ≡ before ++ after
    → IsUnique (before ++ after)
    → AllUnstarted after
    → those expired now after ≡ []
    → (d' : Schedule) × (single_pass host now tick d after ≡ ok d') × Launched now before after d d'
unfolding single_pass look
single_pass-Launched host now tick d before [] willing e u f x = (
  d,
  refl,
  record {
    new = [];
    kept = e;
    joined = sym (append-nil d.br.busylist);
    in_order = refl;
    active = tt;
  },
)
single_pass-Launched host now tick d before (le ∷ after) willing e u f x =
    go (verdict now le.entity) refl
      (λ bf d'. single_pass-Launched host now tick d' bf after willing)
  where
    go :
        (v : Verdict)
        → verdict now le.entity ≡ v
        → ((bf : List (Listed Event)) (d1 : Schedule)
            → d1.br.freelist ≡ bf ++ after
            → IsUnique (bf ++ after)
            → AllUnstarted after
            → those expired now after ≡ []
            → (d' : Schedule) × (single_pass host now tick d1 after ≡ ok d')
              × Launched now bf after d1 d')
        → (d' : Schedule) × (single_pass host now tick d (le ∷ after) ≡ ok d')
          × Launched now before (le ∷ after) d d'
    go waits h rest =
        let joined = sym (append_assoc before (le ∷ []) after) in
        let (d', runs, s) =
          rest (before ++ le ∷ []) d (e ∙ joined) (subst IsUnique joined u) f.1 (rw h at x) in
        (d', rw (h, look) runs, wait_more now before after le d d' h s)
    go expired h rest = let no : le ∷ those expired now after ≡ [] = rw h at x in cc
    go due h rest =
        let (w, ev, launched, fine) =
          launch-started host now tick d before after le willing f.0.remote e
            (occurs-before before after le (u le.self)) in
        let d1 = started (launching host now tick d) (before ++ after) le w ev in
        let (d', runs, s) = rest before d1 refl (IsUnique-rest before after le u) f.1 (rw h at x) in
        (
          d',
          rw (h, look) (rw launched runs),
          start_more now before after le d (launching host now tick d) d' w ev h fine refl s,
        )

-- On a willing host with no event that is too old, start_scheduled returns, and all due events run.
pub start_scheduled-Launched :
    (host : Host) (now tick : Timespec) (d : Schedule)
    → IsWilling host
    → IsUnique d.br.freelist
    → AllUnstarted d.br.freelist
    → those expired now d.br.freelist ≡ []
    → (d' : Schedule) × (start_scheduled host now tick d ≡ ok d')
      × Launched now [] d.br.freelist d d'
start_scheduled-Launched host now tick d willing u f x =
    let (d', runs, s) = single_pass-Launched host now tick d [] d.br.freelist willing refl u f x in
    (d', start_scheduled-single_pass host now tick d u ∙ runs, s)
