-- ===== src/ResourceTree/Splits.antt =====
-- src/resourcetree.c: finding, unlinking and writing at a known place of a list.
use vlbi_streamer.Base.{ℕ, ◌+◌, ◌≤◌, ◌≡◌, refl, List, [], ◌∷◌, ◌++◌, none, some, arith}
use vlbi_streamer.ResourceTree.{Listed, find, unlink, assign}
use vlbi_streamer.ResourceTree.Placement.{at, occurs}

module _ {E : Type 0} where
  pub occurs-append : (a : ℕ) (l r : List (Listed E)) → occurs a (l ++ r) ≡ occurs a l + occurs a r
  occurs-append a [] r = omega arith
  occurs-append a (e ∷ l) r = omega (arith, occurs-append a l r)

  pub at-self : (e : Listed E) → at e.self e ≡ 1
  at-self e = ground arith

  -- In a list that repeats no address, nothing in front of an element has its address.
  pub occurs-before :
      (before after : List (Listed E)) (e : Listed E)
      → occurs e.self (before ++ e ∷ after) ≤ 1
      → occurs e.self before ≡ 0
  occurs-before before after e h = omega (arith, occurs-append e.self before (e ∷ after), at-self e)

  pub find-append :
      (before after : List (Listed E)) (e : Listed E)
      → occurs e.self before ≡ 0
      → find (before ++ e ∷ after) e.self ≡ some e
  unfolding find
  find-append [] after e h = ground arith
  find-append (g ∷ before) after e h = ground (arith, find-append before after e)

  pub unlink-append :
      (before after : List (Listed E)) (e : Listed E)
      → occurs e.self before ≡ 0
      → unlink (before ++ e ∷ after) e.self ≡ before ++ after
  unfolding unlink
  unlink-append [] after e h = ground arith
  unlink-append (g ∷ before) after e h = ground (arith, unlink-append before after e)

  pub assign-append :
      (before after : List (Listed E)) (e e' : Listed E)
      → e'.self ≡ e.self
      → occurs e.self before ≡ 0
      → assign (before ++ e ∷ after) e' ≡ before ++ e' ∷ after
  unfolding assign
  assign-append [] after e e' s h = ground arith
  assign-append (g ∷ before) after e e' s h = ground (arith, assign-append before after e e')

  pub find-none : (l : List (Listed E)) (a : ℕ) → occurs a l ≡ 0 → find l a ≡ none
  unfolding find
  find-none [] a h = refl
  find-none (e ∷ l) a h = ground (arith, find-none l a)

  pub occurs-rest :
      (a : ℕ) (before after : List (Listed E)) (e : Listed E)
      → occurs a (before ++ e ∷ after) ≡ occurs a (before ++ after) + at a e
  occurs-rest a before after e =
      omega (arith, occurs-append a before (e ∷ after), occurs-append a before after)
