-- ===== src/ResourceTree/Conservation.antt =====
-- src/resourcetree.c: how often the calls list each address.
use vlbi_streamer.Base.{
  ℕ, ◌+◌, ◌≡◌, refl, ◌∙◌, List, [], ◌∷◌, none, some, inl, inr, Bool-cases, ok, or_fault, arith,
}
use vlbi_streamer.ResourceTree.{
  Listed, Callbacks, Branch, Place, free, busy, loaded, list_at, find, unlink, assign, add_to_next,
  locate, update, change_branch, set_busy, set_free, set_loaded, released, serve, is_awaited,
}
use vlbi_streamer.ResourceTree.Placement.{
  at, occurs, total, find-self, find_itself, occurs-unlink, occurs-assign, occurs-add_to_next,
  locate-find,
}

module _ {E : Type 0} where
  -- What is unlinked from one list and added to another.
  moved :
      (from to : List (Listed E)) (a : ℕ) (e g : Listed E)
      → find from e.self ≡ some g
      → occurs a (unlink from e.self) + occurs a (add_to_next to e none)
        ≡ occurs a from + occurs a to
  moved from to a e g h =
      let same : at a g ≡ at a e = ground (arith, find-self from e.self g h) in
      omega (arith, occurs-unlink from e.self a g h, occurs-add_to_next to a e none)

  pub total-change_branch :
      (br : Branch E) (from to : Place) (a : ℕ) (e g : Listed E)
      → find (list_at from br) e.self ≡ some g
      → total a (change_branch br from to e) ≡ total a br
  unfolding change_branch
  total-change_branch br free free a e g h = refl
  total-change_branch br free busy a e g h = omega (arith, moved br.freelist br.busylist a e g h)
  total-change_branch br free loaded a e g h =
      omega (arith, moved br.freelist br.loadedlist a e g h)
  total-change_branch br busy free a e g h = omega (arith, moved br.busylist br.freelist a e g h)
  total-change_branch br busy busy a e g h = refl
  total-change_branch br busy loaded a e g h =
      omega (arith, moved br.busylist br.loadedlist a e g h)
  total-change_branch br loaded free a e g h =
      omega (arith, moved br.loadedlist br.freelist a e g h)
  total-change_branch br loaded busy a e g h =
      omega (arith, moved br.loadedlist br.busylist a e g h)
  total-change_branch br loaded loaded a e g h = refl

  pub total-update :
      (br : Branch E) (p : Place) (a : ℕ) (e : Listed E) → total a (update br p e) ≡ total a br
  unfolding update
  total-update br free a e = omega (arith, occurs-assign br.freelist a e)
  total-update br busy a e = omega (arith, occurs-assign br.busylist a e)
  total-update br loaded a e = omega (arith, occurs-assign br.loadedlist a e)

  -- A write to an entity leaves it where it is found.
  find-assign :
      (l : List (Listed E)) (s : ℕ) (e g : Listed E)
      → find l s ≡ some g
      → e.self ≡ s
      → find (assign l e) s ≡ some e
  unfolding find assign
  find-assign [] s e g h n = cc
  find-assign (x ∷ l) s e g h n = ground (arith, find-assign l s e g)

  pub find-update :
      (br : Branch E) (p : Place) (s : ℕ) (e g : Listed E)
      → find (list_at p br) s ≡ some g
      → e.self ≡ s
      → find (list_at p (update br p e)) s ≡ some e
  unfolding update
  find-update br free s e g h n = find-assign br.freelist s e g h n
  find-update br busy s e g h n = find-assign br.busylist s e g h n
  find-update br loaded s e g h n = find-assign br.loadedlist s e g h n

  released-self : (cb : Callbacks E) (e : Listed E) → (released cb e).self ≡ e.self
  released-self cb e = ground arith

  -- set_busy of an entity of the branch returns, and every address is listed as often as before.
  pub set_busy-total :
      (br : Branch E) (s : ℕ) (p : Place) (e : Listed E)
      → locate br s ≡ some (p, e)
      → (br' : Branch E) × (set_busy br s ≡ ok br') × ((a : ℕ) → total a br' ≡ total a br)
  unfolding set_busy
  set_busy-total br s p e h =
      let at_p = locate-find br s p e h in
      (
        change_branch br p busy e,
        rw (h, or_fault),
        λ a. total-change_branch br p busy a e e (find_itself (list_at p br) s e at_p),
      )

  -- set_free of an entity of the branch returns, and every address is listed as often as before.
  pub set_free-total :
      (cb : Callbacks E) (br : Branch E) (s : ℕ) (p : Place) (e : Listed E)
      → locate br s ≡ some (p, e)
      → (br' : Branch E) × (set_free cb br s ≡ ok br') × ((a : ℕ) → total a br' ≡ total a br)
  unfolding set_free
  set_free-total cb br s p e h =
      let at_p = locate-find br s p e h in
      let named = find-self (list_at p br) s e at_p in
      let e' = released cb e in
      let named' : e'.self ≡ s = released-self cb e ∙ named in
      let br1 = update br p e' in
      let at_1 : find (list_at p br1) e'.self ≡ some e' =
        rw named' (find-update br p s e' e at_p named') in
      elim (Bool-cases (is_awaited e')) [
        | inl waiting ↦ (
          update br1 p (serve e'),
          rw (h, or_fault) (rw waiting),
          λ a. total-update br1 p a (serve e') ∙ total-update br p a e',
        )
        | inr alone ↦ (
          change_branch br1 p free e',
          rw (h, or_fault) (rw alone),
          λ a. total-change_branch br1 p free a e' e' at_1 ∙ total-update br p a e',
        )
      ]

  -- set_loaded of an entity of the branch returns, and every address is listed as often as before.
  pub set_loaded-total :
      (br : Branch E) (s : ℕ) (p : Place) (e : Listed E)
      → locate br s ≡ some (p, e)
      → (br' : Branch E) × (set_loaded br s ≡ ok br') × ((a : ℕ) → total a br' ≡ total a br)
  unfolding set_loaded
  set_loaded-total br s p e h =
      let at_p = locate-find br s p e h in
      elim (Bool-cases (is_awaited e)) [
        | inl waiting ↦ (
          update br p (serve e),
          rw (h, or_fault) (rw waiting),
          λ a. total-update br p a (serve e),
        )
        | inr alone ↦ (
          change_branch br p loaded e,
          rw (h, or_fault) (rw alone),
          λ a. total-change_branch br p loaded a e e (find_itself (list_at p br) s e at_p),
        )
      ]
