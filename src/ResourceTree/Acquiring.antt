-- ===== src/ResourceTree/Acquiring.antt =====
-- The calls of resourcetree.c that hand an entity to a caller, and may put the caller to sleep.
-- What a sleeper finds when it wakes is an argument.
use vlbi_streamer.Base.{
  ℕ, zero, suc, List, [], ◌∷◌, Option, none, some, Bool, not, ◌&&◌, ◌==◌, if◌then◌else◌, Outcome,
  ok, aborted,
}
use vlbi_streamer.ResourceTree.{
  Listed, Callbacks, Branch, Place, free, busy, loaded, add_safely, is_empty, change_branch, update,
  get_from_all, released, loop_and_check,
}

-- What one call of `get_free` comes to: NULL, the branch after the call with the entity that was
-- handed out and what its `acquire` answered, or a sleep on `busysignal`.
pub data Got (E : Type 0) : Type 0 where
  nothing : Got E
  got : Branch E → Listed E → Option ℕ → Got E
  asleep : Got E

module _ {E : Type 0} where
  -- The `while` over the free list, or its first element if there is no `check`.
  unfoldable pub first_fit : Option (E → Bool) → List (Listed E) → Option (Listed E)
  first_fit fits [] = none
  first_fit none (e ∷ l) = some e
  first_fit (some fits) (e ∷ l) = if fits e.entity then some e else first_fit (some fits) l

  -- `mutex_free_set_busy` and the call of `acquire`, which may change the entity.
  unfoldable pub hand_out : Option (E → E × ℕ) → Branch E → Listed E → Got E
  unfolding change_branch update
  hand_out none br e = got (change_branch br free busy e) e none
  hand_out (some acquire) br e =
      let (entity, ret) = acquire e.entity in
      let e' = record e { entity = entity } in
      got (update (change_branch br free busy e) busy e') e' (some ret)

  -- One round of the loop of `get_free`.
  unfoldable pub attempt : Callbacks E → Branch E → Got E
  unfolding first_fit hand_out
  attempt cb br = elim (first_fit cb.fits br.freelist) [
    | some e ↦ hand_out cb.acquire br e
    | none ↦ if is_empty br.busylist && is_empty br.loadedlist then nothing else asleep
  ]

  -- `get_free`, over the states of the branch that it finds at each wake-up, each with whether the
  -- caller should still run. `asleep` says that it sleeps after the last of them.
  unfoldable pub get_free : Callbacks E → Bool → Branch E → List (Bool × Branch E) → Got E
  get_free cb quit_if_stopped br [] = attempt cb br
  get_free cb quit_if_stopped br ((running, next) ∷ later) = elim (attempt cb br) [
    | nothing ↦ nothing
    | got br' e ret ↦ got br' e ret
    | asleep ↦
        if quit_if_stopped && not running then nothing else get_free cb quit_if_stopped next later
  ]

-- How `get_specific` and `get_loaded` begin: NULL, an entity at once, or a ticket in its queue.
pub data Entry (E : Type 0) : Type 0 where
  absent : Entry E
  taken : Branch E → Listed E → Entry E
  queued : Branch E → Listed E → ℕ → Entry E

module _ {E : Type 0} where
  -- The queueing of both calls, under `waitlock`.
  unfoldable pub join_queue : Branch E → Place → Listed E → Entry E
  unfolding update
  join_queue br p e =
      let e' = record e { waiters_head = add_safely e.waiters_head } in
      queued (update br p e') e' e'.waiters_head

  unfoldable pub specific_from : Branch E → Place → Listed E → Entry E
  unfolding change_branch join_queue
  specific_from br free e = taken (change_branch br free busy e) e
  specific_from br p e = join_queue br p e

  -- `get_specific`, up to its wait.
  unfoldable pub get_specific : (E → Bool) → Branch E → Entry E
  unfolding get_from_all specific_from
  get_specific wanted br = elim (get_from_all wanted br) [
    | none ↦ absent
    | some (p, e) ↦ specific_from br p e
  ]

  loaded_from : Branch E → Place → Listed E → Outcome (Entry E)
  unfolding change_branch join_queue
  loaded_from br free e = aborted
  loaded_from br busy e = ok (join_queue br busy e)
  loaded_from br loaded e = ok (taken (change_branch br loaded busy e) e)

  -- `get_loaded`, up to its wait: it asserts that the entity is not free.
  pub get_loaded : (E → Bool) → Branch E → Outcome (Entry E)
  unfolding get_from_all loaded_from
  get_loaded wanted br = elim (get_from_all wanted br) [
    | none ↦ ok absent
    | some (p, e) ↦ loaded_from br p e
  ]

  -- The test of the waiting loops.
  unfoldable pub is_turn : ℕ → Listed E → Bool
  is_turn ticket e = e.waiters_bottom == ticket

  -- The second loop of `block_until_free`: every loaded entity that is wanted goes to the free list
  -- and is released. The number bounds the rounds.
  pub release_loaded : ℕ → Callbacks E → (E → Bool) → Branch E → Option (Branch E)
  unfolding loop_and_check change_branch update
  release_loaded zero cb wanted br = none
  release_loaded (suc rounds) cb wanted br = elim (loop_and_check wanted br.loadedlist) [
    | none ↦ some br
    | some e ↦
        release_loaded rounds cb wanted
          (update (change_branch br loaded free e) free (released cb e))
  ]
