-- ===== src/ResourceTree/Reuse.antt =====
-- src/resourcetree.c: `get_free` after `set_free`.
use vlbi_streamer.Base.{
  ℕ, ◌≡◌, refl, ◌∙◌, [], ◌∷◌, Option, none, some, Bool, true, false, ok, or_fault, arith,
}
use vlbi_streamer.ResourceTree.{
  Listed, Callbacks, Branch, free, busy, locate, update, change_branch, set_free, released,
  is_awaited,
}
use vlbi_streamer.ResourceTree.Placement.{find-self, add_to_next-none, locate-find}
use vlbi_streamer.ResourceTree.Acquiring.{got, first_fit, hand_out, attempt, get_free}
use vlbi_streamer.ResourceTree.GetFree.{is_fit}

module _ {E : Type 0} where
  first_fit-single :
      (fits : Option (E → Bool)) (e : Listed E)
      → is_fit fits e ≡ true
      → first_fit fits (e ∷ []) ≡ some e
  unfolding first_fit
  first_fit-single none e h = refl
  first_fit-single (some fits) e h = rw h

  hand_out_self :
      (acquire : Option (E → E × ℕ)) (br : Branch E) (e : Listed E)
      → (br' : Branch E) × (g : Listed E) × (ret : Option ℕ) × (hand_out acquire br e
          ≡ got br' g ret)
        × (g.self ≡ e.self)
  unfolding hand_out
  hand_out_self none br e = (_, _, _, refl, refl)
  hand_out_self (some acquire) br e = (_, _, _, refl, refl)

  attempt_single :
      (cb : Callbacks E) (br : Branch E) (e : Listed E)
      → br.freelist ≡ e ∷ []
      → is_fit cb.fits e ≡ true
      → (br' : Branch E) × (g : Listed E) × (ret : Option ℕ) × (attempt cb br ≡ got br' g ret)
        × (g.self ≡ e.self)
  unfolding attempt
  attempt_single cb br e h fit =
      let (br', g, ret, r, n) = hand_out_self cb.acquire br e in
      let found : first_fit cb.fits br.freelist ≡ some e = rw h (first_fit-single cb.fits e fit) in
      (br', g, ret, rw (found, attempt) r, n)

-- A busy entity that is set free with nobody in its queue is what the next get_free hands out, if
-- no other is free and it is fit.
pub get_free-set_free :
    {E : Type 0} (cb : Callbacks E) (br : Branch E) (s : ℕ) (e : Listed E)
    → locate br s ≡ some (busy, e)
    → br.freelist ≡ []
    → is_awaited (released cb e) ≡ false
    → is_fit cb.fits (released cb e) ≡ true
    → (br1 : Branch E) × (br2 : Branch E) × (g : Listed E) × (ret : Option ℕ) × (set_free cb br s
        ≡ ok br1)
      × (get_free cb false br1 [] ≡ got br2 g ret)
      × (g.self ≡ s)
unfolding set_free get_free change_branch update
get_free-set_free cb br s e h none_free alone fit =
    let e' = released cb e in
    let br1 = change_branch (update br busy e') busy free e' in
    let single : br1.freelist ≡ e' ∷ [] = rw none_free (add_to_next-none [] e') in
    let (br2, g, ret, r, n) = attempt_single cb br1 e' single fit in
    let same : e'.self ≡ e.self = ground arith in
    (
      br1,
      br2,
      g,
      ret,
      rw (h, or_fault) (rw alone),
      r,
      n ∙ same ∙ find-self br.busylist s e (locate-find br s busy e h),
    )
