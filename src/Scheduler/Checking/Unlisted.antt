-- ===== src/Scheduler/Checking/Unlisted.antt =====
-- src/server.c: `check_schedule` when a request that was never started is gone from the state file.
use mathlib.Core.Path.{subst}
use vlbi_streamer.Base.{
  ℕ, suc, ◌+◌, ◌≤◌, ◌≡◌, refl, sym, ◌∙◌, ap, List, [], ◌∷◌, ◌++◌, some, true, false, not, ◌||◌,
  Bool-cases, ◌⊎◌, inl, inr, aborted, map, All, All-split, length, arith,
}
use vlbi_streamer.ResourceTree.{Listed, free, loop_and_check, get_from_all}
use vlbi_streamer.ResourceTree.Placement.{occurs}
use vlbi_streamer.ResourceTree.Splits.{occurs-before}
use vlbi_streamer.Scheduler.{Event, Setting, Schedule, Host, is_running_status, decrement}
use vlbi_streamer.Scheduler.Standing.{IsUnstarted, IsSchedule, AllUnstarted}
use vlbi_streamer.Scheduler.Removal.{remove_event-unstarted}
use vlbi_streamer.Scheduler.Checking.{cancel, sweep, check_schedule}
use vlbi_streamer.Scheduler.Checking.Names.{mark, in_file, mark-found}
use vlbi_streamer.Scheduler.Checking.Taking.{IsListed, IsRequest, GivesFresh}
use vlbi_streamer.Scheduler.Checking.TakingAll.{AllFound, map-append, take_settings-TookAll}

-- The first event of a list without a mark.
pub loop_and_check-cases :
    (l : List (Listed Event))
    → AllFound l
      ⊎ ((before after : List (Listed Event)) × (le : Listed Event) × (l ≡ before ++ le ∷ after)
          × (loop_and_check (λ ev. not ev.found) l ≡ some le))
unfolding loop_and_check
loop_and_check-cases [] = inl tt
loop_and_check-cases (le ∷ l) = elim (Bool-cases le.entity.found) [
  | inr miss ↦ inr ([], l, le, refl, simp miss)
  | inl hit ↦ elim (loop_and_check-cases l) [
    | inl all ↦ inl (hit, all)
    | inr (before, after, g, e, wanted) ↦
        inr (le ∷ before, after, g, ap (λ t. le ∷ t) e, simp (hit, wanted))
  ]
]

cancel-unstarted :
    (host : Host) (d : Schedule) (before after : List (Listed Event)) (le : Listed Event)
    → IsSchedule d
    → d.br.freelist ≡ before ++ le ∷ after
    → cancel host d free le ≡ aborted
unfolding cancel
cancel-unstarted host d before after le s e =
    let idle =
      (All-split (λ g. IsUnstarted g.entity) before (le ∷ after)
        (subst AllUnstarted e s.unstarted)).1.0 in
    let fresh =
      occurs-before before after le
        (subst (λ l. occurs le.self l ≤ 1) e (omega (arith, s.unique le.self))) in
    let d' = record d { n_scheduled = decrement d.n_scheduled } in
    let still : is_running_status le.entity.status ≡ false = ap is_running_status idle.idle in
    simp (still) (remove_event-unstarted host d' before after le idle e fresh)

pub sweep-unstarted :
    (host : Host) (fuel : ℕ) (d : Schedule) (before after : List (Listed Event)) (le : Listed Event)
    → IsSchedule d
    → d.br.freelist ≡ before ++ le ∷ after
    → loop_and_check (λ ev. not ev.found) d.br.freelist ≡ some le
    → sweep host (suc fuel) d ≡ aborted
unfolding sweep get_from_all
sweep-unstarted host fuel d before after le s e wanted =
    let first : get_from_all (λ ev. not ev.found) d.br ≡ some (free, le) =
      rw (wanted, get_from_all) refl in
    rw (first, sweep) (rw (cancel-unstarted host d before after le s e) refl)

stays_unmarked :
    (file : List Setting) (before after l new : List (Listed Event)) (le : Listed Event)
    → l ≡ before ++ le ∷ after
    → in_file file le ≡ false
    → le.entity.found ≡ false
    → ¬ AllFound (map (mark file) l ++ new)
stays_unmarked file before after l new le e off unmarked all =
    let P = λ (g : Listed Event). g.entity.found ≡ true in
    let marks : AllFound (map (mark file) before ++ mark file le ∷ map (mark file) after) =
      subst AllFound (ap (map (mark file)) e ∙ map-append (mark file) before (le ∷ after))
        (All-split P (map (mark file) l) new all).0 in
    let hit =
      (All-split P (map (mark file) before) (mark file le ∷ map (mark file) after) marks).1.0 in
    let miss : (mark file le).entity.found ≡ false =
      mark-found file le ∙ ap (λ b. b || le.entity.found) off ∙ unmarked in
    let no : true ≡ false = sym hit ∙ miss in cc

-- Taking a request off the state file before it was started stops the daemon: check_schedule
-- aborts, at the assertion of afi_disassociate, since no file index is set before the start. All
-- names of the schedule are different and the schedule is in order, the request waits without a
-- mark, and the settings of the file are requests that are fine.
pub unlisted_aborts :
    (host : Host) (d : Schedule) (before after : List (Listed Event)) (le : Listed Event)
    → GivesFresh host
    → All (IsRequest host) d.world.statefile
    → IsListed d
    → d.br.freelist ≡ before ++ le ∷ after
    → in_file d.world.statefile le ≡ false
    → le.entity.found ≡ false
    → check_schedule host d ≡ aborted
unfolding check_schedule
unlisted_aborts host d before after le fresh q h e off unmarked =
    let file = d.world.statefile in
    let (d1, taken, t) = take_settings-TookAll host file d fresh q h in
    let n = length d1.br.freelist + length d1.br.busylist + length d1.br.loadedlist in
    let e1 : n + 1 ≡ suc n = omega arith in
    let lost : sweep host (suc n) d1 ≡ aborted = elim (loop_and_check-cases d1.br.freelist) [
      | inr (bf, af, g, split, wanted) ↦
          sweep-unstarted host n d1 bf af g t.list_kept.in_order split wanted
      | inl all ↦ absurd (
          stays_unmarked file before after d.br.freelist t.new le e off unmarked
            (subst AllFound t.waiting all))
    ] in
    rw taken (rw e1 (rw lost refl))
