-- ===== src/Scheduler/Removal.antt =====
-- src/server.c: where an event is behind its removal.
use vlbi_streamer.Base.{
  ℕ, aborted, ◌≡◌, refl, ◌∙◌, List, ◌∷◌, ◌++◌, none, some, ok, ◌>>=◌, or_fault,
}
use vlbi_streamer.ResourceTree.{
  Listed, Place, free, busy, list_at, with_list, find, unlink, locate, remove_from_branch,
}
use vlbi_streamer.ResourceTree.Placement.{occurs}
use vlbi_streamer.ResourceTree.Splits.{find-append, find-none, unlink-append}
use vlbi_streamer.Scheduler.{Event, Schedule, World, Host, free_and_close, remove_event}
use vlbi_streamer.Scheduler.Standing.{IsUnstarted}
use vlbi_streamer.Scheduler.Willing.{free_and_close-unstarted}

-- The schedule with other lists, and another world.
abbrev pub freed : Schedule → List (Listed Event) → World → Schedule
freed d l w = record d { br = record (d.br) { freelist = l }; world = w }

pub remove_event-located :
    (host : Host) (d : Schedule) (a : ℕ) (p : Place) (le : Listed Event)
    → locate d.br a ≡ some (p, le)
    → remove_event host d a
      ≡ free_and_close host le.entity d.world >>= λ w.
          ok (record d { br = with_list p (unlink (list_at p d.br) a) d.br; world = w })
unfolding remove_event remove_from_branch
remove_event-located host d a p le h = rw (h, or_fault) refl

pub remove_event-waiting :
    (host : Host) (d : Schedule) (before after : List (Listed Event)) (le : Listed Event)
    → d.br.freelist ≡ before ++ le ∷ after
    → occurs le.self before ≡ 0
    → remove_event host d le.self
      ≡ free_and_close host le.entity d.world >>= λ w. ok (freed d (before ++ after) w)
unfolding locate
remove_event-waiting host d before after le e o =
    let found : find d.br.freelist le.self ≡ some le = rw e (find-append before after le o) in
    let at_free : locate d.br le.self ≡ some (free, le) = rw (found, locate) refl in
    let cut : unlink d.br.freelist le.self ≡ before ++ after =
      rw e (unlink-append before after le o) in
    remove_event-located host d le.self free le at_free ∙ rw cut refl

abbrev pub unbusied : Schedule → List (Listed Event) → World → Schedule
unbusied d l w = record d { br = record (d.br) { busylist = l }; world = w }

pub remove_event-running :
    (host : Host) (d : Schedule) (before after : List (Listed Event)) (le : Listed Event)
    → d.br.busylist ≡ before ++ le ∷ after
    → occurs le.self before ≡ 0
    → occurs le.self d.br.freelist ≡ 0
    → remove_event host d le.self
      ≡ free_and_close host le.entity d.world >>= λ w. ok (unbusied d (before ++ after) w)
unfolding locate
remove_event-running host d before after le e o f =
    let absent : find d.br.freelist le.self ≡ none = find-none d.br.freelist le.self f in
    let found : find d.br.busylist le.self ≡ some le = rw e (find-append before after le o) in
    let at_busy : locate d.br le.self ≡ some (busy, le) = rw (locate, absent, found) refl in
    let cut : unlink d.br.busylist le.self ≡ before ++ after =
      rw e (unlink-append before after le o) in
    remove_event-located host d le.self busy le at_busy ∙ rw cut refl

-- An event that was never started is not removed.
pub remove_event-unstarted :
    (host : Host) (d : Schedule) (before after : List (Listed Event)) (le : Listed Event)
    → IsUnstarted le.entity
    → d.br.freelist ≡ before ++ le ∷ after
    → occurs le.self before ≡ 0
    → remove_event host d le.self ≡ aborted
remove_event-unstarted host d before after le idle e o =
    remove_event-waiting host d before after le e o
    ∙ rw (free_and_close-unstarted host le.entity d.world idle) refl
