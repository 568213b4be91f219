-- ===== src/ResourceTree.antt =====
-- src/resourcetree.c: a branch keeps its entities in three lists, free, busy and loaded. An entity
-- is known by the address of its `struct listed_entity`, `self`; the `child` and `father` pointers
-- of a list are the order of the elements, and `current_branch` is the list that an entity is in.
mod Tests
pub mod Placement
pub mod Conservation
pub mod Acquiring
pub mod GetFree
pub mod Picking
pub mod Reuse
pub mod Operations
pub mod Splits
pub mod Tickets
use vlbi_streamer.Base.{
  ℕ, suc, ◌+◌, List, [], ◌∷◌, ◌++◌, Option, none, some, Bool, true, false, not, ◌&&◌, ◌==◌,
  if◌then◌else◌, length, Outcome, ok, aborted, faulted, ◌>>=◌, ◌>>◌, check, or_fault,
}

-- `struct listed_entity`: the two counters of its queue of waiters, and the entity itself.
pub record Listed (E : Type 0) : Type 0 where
  pub self : ℕ
  pub waiters_head : ℕ
  pub waiters_bottom : ℕ
  pub entity : E

-- The function pointers of the entities of one branch, at the `opt` of the call. A `check` that
-- answers `true` is the return of 0: the entity is fit.
pub record Callbacks (E : Type 0) : Type 0 where
  pub acquire : Option (E → E × ℕ)
  pub fits : Option (E → Bool)
  pub release : Option (E → E)

-- `struct entity_list_branch`
pub record Branch (E : Type 0) : Type 0 where
  pub freelist : List (Listed E)
  pub busylist : List (Listed E)
  pub loadedlist : List (Listed E)

pub data Place : Type 0 where
  free busy loaded : Place

abbrev pub same_place : Place → Place → Bool
same_place free free = true
same_place busy busy = true
same_place loaded loaded = true
same_place _ _ = false

-- `ADD_SAFELY_INT16T`
abbrev pub add_safely : ℕ → ℕ
add_safely x = if x == 32767 then 0 else x + 1

module _ {E : Type 0} where
  abbrev pub list_at : Place → Branch E → List (Listed E)
  list_at free br = br.freelist
  list_at busy br = br.busylist
  list_at loaded br = br.loadedlist

  abbrev pub with_list : Place → List (Listed E) → Branch E → Branch E
  with_list free l br = record br { freelist = l }
  with_list busy l br = record br { busylist = l }
  with_list loaded l br = record br { loadedlist = l }

  -- `add_to_next`: before the first element that `compare` puts behind the new one, else at the end.
  unfoldable pub add_to_next : List (Listed E) → Listed E → Option (E → E → Bool) → List (Listed E)
  add_to_next [] toadd compare = toadd ∷ []
  add_to_next (root ∷ rest) toadd none = root ∷ add_to_next rest toadd none
  add_to_next (root ∷ rest) toadd (some compare) =
      if compare toadd.entity root.entity
      then toadd ∷ root ∷ rest
      else root ∷ add_to_next rest toadd (some compare)

  -- `add_to_entlist`
  unfoldable pub add_to_entlist : Branch E → Listed E → Branch E
  unfolding add_to_next
  add_to_entlist br en = record br { freelist = add_to_next br.freelist en none }

  unfoldable pub find : List (Listed E) → ℕ → Option (Listed E)
  find [] a = none
  find (e ∷ l) a = if e.self == a then some e else find l a

  -- The unlinking of an element from its neighbours.
  unfoldable pub unlink : List (Listed E) → ℕ → List (Listed E)
  unlink [] a = []
  unlink (e ∷ l) a = if e.self == a then l else e ∷ unlink l a

  -- A write through a pointer to an element.
  unfoldable pub assign : List (Listed E) → Listed E → List (Listed E)
  assign [] e' = []
  assign (e ∷ l) e' = if e.self == e'.self then e' ∷ l else e ∷ assign l e'

  -- Where an entity is, and what its `struct listed_entity` holds.
  unfoldable pub locate : Branch E → ℕ → Option (Place × Listed E)
  unfolding find
  locate br a = elim (find br.freelist a) [
    | some e ↦ some (free, e)
    | none ↦ elim (find br.busylist a) [
      | some e ↦ some (busy, e)
      | none ↦ elim (find br.loadedlist a) [ some e ↦ some (loaded, e) | none ↦ none ]
    ]
  ]

  unfoldable pub update : Branch E → Place → Listed E → Branch E
  unfolding assign
  update br p e = with_list p (assign (list_at p br) e) br

  -- `mutex_free_change_branch` for an entity that is in the list `from`.
  unfoldable pub change_branch : Branch E → Place → Place → Listed E → Branch E
  unfolding unlink add_to_next
  change_branch br from to e =
      if same_place from to
      then br
      else (let br' = with_list from (unlink (list_at from br) e.self) br in
          with_list to (add_to_next (list_at to br') e none) br')

  -- `set_busy`
  pub set_busy : Branch E → ℕ → Outcome (Branch E)
  unfolding locate change_branch
  set_busy br a = do (p, e) ← or_fault (locate br a); ok (change_branch br p busy e)

  abbrev pub is_awaited : Listed E → Bool
  is_awaited e = not (e.waiters_bottom == e.waiters_head)

  abbrev pub released : Callbacks E → Listed E → Listed E
  released cb e = elim cb.release [ none ↦ e | some f ↦ record e { entity = f e.entity } ]

  -- The queue moves on by one ticket, and the waiter that holds it goes on with the entity.
  abbrev pub serve : Listed E → Listed E
  serve e = record e { waiters_bottom = add_safely e.waiters_bottom }

  -- `set_free`
  unfoldable pub set_free : Callbacks E → Branch E → ℕ → Outcome (Branch E)
  unfolding locate change_branch update
  set_free cb br a = do
    (p, e) ← or_fault (locate br a)
    let e' = released cb e
    let br' = update br p e'
    ok (if is_awaited e' then update br' p (serve e') else change_branch br' p free e')

  -- `set_loaded`
  unfoldable pub set_loaded : Branch E → ℕ → Outcome (Branch E)
  unfolding locate change_branch update
  set_loaded br a = do
    (p, e) ← or_fault (locate br a)
    ok (if is_awaited e then update br p (serve e) else change_branch br p loaded e)

  -- `remove_from_branch`, with the `free` of the entity that follows it.
  unfoldable pub remove_from_branch : Branch E → ℕ → Outcome (Branch E)
  unfolding locate unlink
  remove_from_branch br a = do
    (p, e) ← or_fault (locate br a)
    ok (with_list p (unlink (list_at p br) a) br)

  -- `loop_and_check`, for a question to `identify`.
  unfoldable pub loop_and_check : (E → Bool) → List (Listed E) → Option (Listed E)
  loop_and_check wanted [] = none
  loop_and_check wanted (e ∷ l) = if wanted e.entity then some e else loop_and_check wanted l

  -- `get_from_all`, with `*wherefrom`.
  unfoldable pub get_from_all : (E → Bool) → Branch E → Option (Place × Listed E)
  get_from_all wanted br = elim (loop_and_check wanted br.freelist) [
    | some e ↦ some (free, e)
    | none ↦ elim (loop_and_check wanted br.busylist) [
      | some e ↦ some (busy, e)
      | none ↦ elim (loop_and_check wanted br.loadedlist) [
        | some e ↦ some (loaded, e)
        | none ↦ none
      ]
    ]
  ]

  -- `print_br_stats`: the three numbers that it prints.
  pub print_br_stats : Branch E → ℕ × ℕ × ℕ
  print_br_stats br = (length br.freelist, length br.busylist, length br.loadedlist)

  abbrev pub is_empty : List (Listed E) → Bool
  is_empty [] = true
  is_empty (e ∷ l) = false

  -- `check_if_alive` and `check_if_free`; `false` is the return of -1.
  pub check_if_alive : Branch E → Bool
  check_if_alive br = not (is_empty br.freelist && is_empty br.busylist && is_empty br.loadedlist)

  pub check_if_free : Branch E → Bool
  check_if_free br = not (is_empty br.freelist)
