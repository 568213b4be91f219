-- ===== src/ResourceTree/Picking.antt =====
-- src/resourcetree.c: `get_free` by the only caller that uses a branch.
use vlbi_streamer.Base.{
  ℕ, ◌≤◌, ◌≡◌, refl, List, [], ◌∷◌, ◌++◌, Option, none, some, Bool, false, ◌⊎◌, inl, inr, All, ◌∙◌,
  ap,
}
use mathlib.Core.Path.{subst}
use vlbi_streamer.ResourceTree.{
  Listed, Callbacks, Branch, free, busy, change_branch, unlink, add_to_next,
}
use vlbi_streamer.ResourceTree.Placement.{occurs}
use vlbi_streamer.ResourceTree.Splits.{unlink-append, occurs-before}
use vlbi_streamer.ResourceTree.Acquiring.{nothing, got, first_fit, hand_out, attempt, get_free}
use vlbi_streamer.ResourceTree.GetFree.{IsFirst, Fits, first_fit_lem}

module _ {E : Type 0} where
  abbrev pub with_check : (E → Bool) → Callbacks E
  with_check fits = record { acquire = none; fits = some fits; release = none }

  -- Nothing is busy or loaded, and no address is listed twice.
  pub record IsIdle (br : Branch E) : Type 0 where
    pub none_busy : br.busylist ≡ []
    pub none_loaded : br.loadedlist ≡ []
    pub distinct : (a : ℕ) → occurs a br.freelist ≤ 1

  abbrev pub holding : List (Listed E) → Listed E → Branch E
  holding l e = record { freelist = l; busylist = e ∷ []; loadedlist = [] }

  pub taken_out :
      (fits : E → Bool) (br : Branch E) (e : Listed E) (i : IsIdle br)
      (f : IsFirst (some fits) br.freelist e)
      → change_branch br free busy e ≡ holding (f.before ++ f.after) e
  unfolding change_branch add_to_next
  taken_out fits br e i f =
      let split : occurs e.self (f.before ++ e ∷ f.after) ≤ 1 =
        subst (λ l. occurs e.self l ≤ 1) f.split (i.distinct e.self) in
      let out =
        ap (λ l. unlink l e.self) f.split
        ∙ unlink-append f.before f.after e (occurs-before f.before f.after e split) in
      rw (i.none_busy, i.none_loaded, out)

  -- The branch is left to its caller: `get_free` returns NULL, or the first fit entity.
  pub get_free-cases :
      (fits : E → Bool) (br : Branch E)
      → IsIdle br
      → (All (λ g. fits g.entity ≡ false) br.freelist
          × (get_free (with_check fits) false br [] ≡ nothing))
        ⊎ ((e : Listed E) × (f : IsFirst (some fits) br.freelist e) × (get_free
                (with_check fits)
                false
                br
                []
              ≡ got (holding (f.before ++ f.after) e) e none))
  unfolding get_free attempt hand_out
  get_free-cases fits br i =
      go (first_fit (some fits) br.freelist) refl (first_fit_lem (some fits) br.freelist)
    where
      go :
          (o : Option (Listed E))
          → first_fit (some fits) br.freelist ≡ o
          → Fits (some fits) br.freelist o
          → (All (λ g. fits g.entity ≡ false) br.freelist
              × (get_free (with_check fits) false br [] ≡ nothing))
            ⊎ ((e : Listed E) × (f : IsFirst (some fits) br.freelist e) × (get_free
                    (with_check fits)
                    false
                    br
                    []
                  ≡ got (holding (f.before ++ f.after) e) e none))
      go none h a = inl (a, rw (h, attempt) (rw (i.none_busy, i.none_loaded)))
      go (some e) h f =
          inr (e, f, rw (h, attempt) (ap (λ b. got b e none) (taken_out fits br e i f)))
