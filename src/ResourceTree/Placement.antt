-- ===== src/ResourceTree/Placement.antt =====
-- Finding, unlinking and adding in one list, and how often an address stands in it.
use mathlib.Core.Path.{subst, sym}
use vlbi_streamer.Base.{
  ℕ, ◌+◌, ◌≡◌, refl, List, [], ◌∷◌, ◌++◌, Option, none, some, Bool, if◌then◌else◌, ◌==◌, arith,
}
use vlbi_streamer.ResourceTree.{
  Listed, Branch, Place, free, busy, loaded, list_at, find, unlink, assign, add_to_next, locate,
}

module _ {E : Type 0} where
  abbrev pub at : ℕ → Listed E → ℕ
  at a e = if e.self == a then 1 else 0

  abbrev pub occurs : ℕ → List (Listed E) → ℕ
  occurs a [] = 0
  occurs a (e ∷ l) = at a e + occurs a l

  -- How often an address stands in the lists of a branch.
  abbrev pub total : ℕ → Branch E → ℕ
  total a br = occurs a br.freelist + occurs a br.busylist + occurs a br.loadedlist

  pub find-self : (l : List (Listed E)) (a : ℕ) (e : Listed E) → find l a ≡ some e → e.self ≡ a
  unfolding find
  find-self [] a e h = cc
  find-self (g ∷ l) a e h = ground (arith, find-self l a e)

  pub find_itself :
      (l : List (Listed E)) (a : ℕ) (e : Listed E) → find l a ≡ some e → find l e.self ≡ some e
  find_itself l a e h = subst (λ s. find l s ≡ some e) (sym (find-self l a e h)) h

  pub occurs-unlink :
      (l : List (Listed E)) (s a : ℕ) (e : Listed E)
      → find l s ≡ some e
      → occurs a (unlink l s) + at a e ≡ occurs a l
  unfolding find unlink
  occurs-unlink [] s a e h = cc
  occurs-unlink (g ∷ l) s a e h = ground (arith, occurs-unlink l s a e)

  pub occurs-assign :
      (l : List (Listed E)) (a : ℕ) (e : Listed E) → occurs a (assign l e) ≡ occurs a l
  unfolding assign
  occurs-assign [] a e = refl
  occurs-assign (g ∷ l) a e = ground (arith, occurs-assign l a e)

  -- With no `compare` an element goes to the end.
  pub add_to_next-none : (l : List (Listed E)) (e : Listed E) → add_to_next l e none ≡ l ++ e ∷ []
  unfolding add_to_next
  add_to_next-none [] e = refl
  add_to_next-none (g ∷ l) e = rw (add_to_next-none l e)

  pub occurs-add_to_next :
      (l : List (Listed E)) (a : ℕ) (e : Listed E) (compare : Option (E → E → Bool))
      → occurs a (add_to_next l e compare) ≡ occurs a l + at a e
  unfolding add_to_next
  occurs-add_to_next [] a e compare = omega arith
  occurs-add_to_next (g ∷ l) a e none = omega (arith, occurs-add_to_next l a e none)
  occurs-add_to_next (g ∷ l) a e (some compare) =
      ground (arith, occurs-add_to_next l a e (some compare))

  pub locate-find :
      (br : Branch E) (a : ℕ) (p : Place) (e : Listed E)
      → locate br a ≡ some (p, e)
      → find (list_at p br) a ≡ some e
  unfolding locate
  locate-find br a free e h = ground arith
  locate-find br a busy e h = ground arith
  locate-find br a loaded e h = ground arith
