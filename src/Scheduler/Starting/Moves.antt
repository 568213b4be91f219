-- ===== src/Scheduler/Starting/Moves.antt =====
-- src/server.c: where an event is behind its start.
use vlbi_streamer.Base.{
  ◌≡◌, refl, List, [], ◌∷◌, ◌++◌, Bool, true, false, ok, ◌>>=◌, Ensures, Ensures-any, Ensures-bind,
}
use vlbi_streamer.ResourceTree.{Listed, free, update, change_branch}
use vlbi_streamer.ResourceTree.Placement.{occurs, add_to_next-none}
use vlbi_streamer.ResourceTree.Splits.{unlink-append, assign-append}
use vlbi_streamer.Scheduler.{
  Event, Schedule, World, Host, increment, decrement, free_and_close, start_event,
}
use vlbi_streamer.Scheduler.Removal.{freed, remove_event-waiting}
use vlbi_streamer.Scheduler.Starting.{timed, ticking, settle_start, launch}
use vlbi_streamer.Timer.{Timespec}

-- The schedule at the call of `start_event`.
abbrev pub launching : Host → Timespec → Timespec → Schedule → Schedule
launching host now tick d = record d {
  lasttick = ticking host now tick d.lasttick;
  n_scheduled = decrement d.n_scheduled;
}

-- The schedule behind a successful start.
abbrev pub started : Schedule → List (Listed Event) → Listed Event → World → Event → Schedule
started d l le w ev = record d {
  br = record (d.br) { freelist = l; busylist = d.br.busylist ++ record le { entity = ev } ∷ [] };
  n_running = increment d.n_running;
  world = w;
}

pub settle_start-done :
    (host : Host) (now tick : Timespec) (d : Schedule) (before after : List (Listed Event))
    (le : Listed Event) (w : World) (ev : Event)
    → d.br.freelist ≡ before ++ le ∷ after
    → occurs le.self before ≡ 0
    → settle_start host now tick d le (w, ev, true) ≡ ok (started d (before ++ after) le w ev)
unfolding settle_start update change_branch
settle_start-done host now tick d before after le w ev e o =
    let le' = record le { entity = ev } in
    rw
      (
        e,
        assign-append before after le le' refl o,
        unlink-append before after le' o,
        add_to_next-none d.br.busylist le',
      )
      refl

pub settle_start-failed :
    (host : Host) (now tick : Timespec) (d : Schedule) (before after : List (Listed Event))
    (le : Listed Event) (w : World) (ev : Event)
    → d.br.freelist ≡ before ++ le ∷ after
    → occurs le.self before ≡ 0
    → settle_start host now tick d le (w, ev, false)
      ≡ free_and_close host ev w >>= λ w'. ok (freed d (before ++ after) w')
unfolding settle_start update
settle_start-failed host now tick d before after le w ev e o =
    let le' = record le { entity = ev } in
    let d' = record d { br = update d.br free le'; world = w } in
    let at_le : d'.br.freelist ≡ before ++ le' ∷ after =
      rw (e, assign-append before after le le' refl o) refl in
    remove_event-waiting host d' before after le' at_le o

settle_start-leaves :
    (host : Host) (now tick : Timespec) (d : Schedule) (before after : List (Listed Event))
    (le : Listed Event) (r : World × Event × Bool)
    → d.br.freelist ≡ before ++ le ∷ after
    → occurs le.self before ≡ 0
    → Ensures (λ d'. d'.br.freelist ≡ before ++ after) (settle_start host now tick d le r)
settle_start-leaves host now tick d before after le (w, ev, true) e o =
    rw (settle_start-done host now tick d before after le w ev e o) refl
settle_start-leaves host now tick d before after le (w, ev, false) e o =
    rw (settle_start-failed host now tick d before after le w ev e o) (
      Ensures-bind (λ _. Unit {0}) (λ d'. d'.br.freelist ≡ before ++ after)
        (free_and_close host ev w) (λ w'. ok (freed d (before ++ after) w'))
        (Ensures-any (λ _. Unit {0}) (free_and_close host ev w) (λ _. tt)) (λ w' _. refl))

-- Whatever comes of a start, the event is off the free list, and nothing else is.
pub launch-leaves :
    (host : Host) (now tick : Timespec) (d : Schedule) (before after : List (Listed Event))
    (le : Listed Event)
    → d.br.freelist ≡ before ++ le ∷ after
    → occurs le.self before ≡ 0
    → Ensures (λ d'. d'.br.freelist ≡ before ++ after) (launch host now tick d le)
unfolding launch
launch-leaves host now tick d before after le e o =
    let d' = record d {
      lasttick = ticking host now tick d.lasttick;
      n_scheduled = decrement d.n_scheduled;
    } in
    let o' = start_event host (timed host now tick le.entity) d.world in
    Ensures-bind (λ _. Unit {0}) (λ d''. d''.br.freelist ≡ before ++ after) o'
      (settle_start host now tick d' le) (Ensures-any (λ _. Unit {0}) o' (λ _. tt))
      (λ r _. settle_start-leaves host now tick d' before after le r e o)
