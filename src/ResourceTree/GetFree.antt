-- ===== src/ResourceTree/GetFree.antt =====
-- What `get_free` hands out, when it returns NULL, and when it sleeps.
use vlbi_streamer.Base.{
  ℕ, ◌+◌, ◌≡◌, ◌≢◌, refl, ◌∙◌, ap, List, [], ◌∷◌, ◌++◌, Option, none, some, Bool, true, false, ◌==◌,
  ◌⊎◌, inl, inr, Bool-cases, All, arith,
}
use vlbi_streamer.ResourceTree.{
  Listed, Callbacks, Branch, free, busy, find, update, change_branch, is_empty,
}
use vlbi_streamer.ResourceTree.Placement.{
  at, occurs, find-self, occurs-unlink, occurs-assign, occurs-add_to_next,
}
use vlbi_streamer.ResourceTree.Acquiring.{
  Got, nothing, got, asleep, first_fit, hand_out, attempt, get_free,
}

module _ {E : Type 0} where
  -- What `check` says of an entity; without a `check` every entity is fit.
  abbrev pub is_fit : Option (E → Bool) → Listed E → Bool
  is_fit none e = true
  is_fit (some fits) e = fits e.entity

  abbrev pub NoneFit : Callbacks E → List (Listed E) → Type 0
  NoneFit cb l = All (λ e. is_fit cb.fits e ≡ false) l

  -- The first fit element of a list.
  pub record IsFirst (fits : Option (E → Bool)) (l : List (Listed E)) (e : Listed E) : Type 0 where
    pub before : List (Listed E)
    pub after : List (Listed E)
    pub split : l ≡ before ++ e ∷ after
    pub passed : All (λ g. is_fit fits g ≡ false) before
    pub fit : is_fit fits e ≡ true

  abbrev pub Fits : Option (E → Bool) → List (Listed E) → Option (Listed E) → Type 0
  Fits fits l none = All (λ e. is_fit fits e ≡ false) l
  Fits fits l (some e) = IsFirst fits l e

  first_fit-some :
      (fits : E → Bool) (l : List (Listed E)) → Fits (some fits) l (first_fit (some fits) l)
  unfolding first_fit
  first_fit-some fits [] = tt
  first_fit-some fits (g ∷ l) = elim (Bool-cases (fits g.entity)) [
    | inl hit ↦ rw hit (record { before = []; after = l; split = refl; passed = tt; fit = hit })
    | inr miss ↦ rw miss (next (first_fit (some fits) l) miss (first_fit-some fits l))
  ]
    where
      next :
          (o : Option (Listed E))
          → fits g.entity ≡ false
          → Fits (some fits) l o
          → Fits (some fits) (g ∷ l) o
      next none miss h = (miss, h)
      next (some e) miss h = record {
        before = g ∷ h.before;
        after = h.after;
        split = ap (λ t. g ∷ t) h.split;
        passed = (miss, h.passed);
        fit = h.fit;
      }

  pub first_fit_lem :
      (fits : Option (E → Bool)) (l : List (Listed E)) → Fits fits l (first_fit fits l)
  unfolding first_fit
  first_fit_lem none [] = tt
  first_fit_lem none (g ∷ l) = record {
    before = [];
    after = l;
    split = refl;
    passed = tt;
    fit = refl;
  }
  first_fit_lem (some fits) l = first_fit-some fits l

  -- One entry goes from the free list to the busy list, and nothing else moves.
  pub record Moved (br br' : Branch E) (e : Listed E) : Type 0 where
    pub left : (a : ℕ) → occurs a br'.freelist + at a e ≡ occurs a br.freelist
    pub joined : (a : ℕ) → occurs a br'.busylist ≡ occurs a br.busylist + at a e
    pub kept : br'.loadedlist ≡ br.loadedlist

  -- What one round of `get_free` may come to.
  abbrev pub Attempted : Callbacks E → Branch E → Got E → Type 0
  Attempted cb br nothing = NoneFit cb br.freelist × (br.busylist ≡ []) × (br.loadedlist ≡ [])
  Attempted cb br (got br' e ret) =
      (first : Listed E) × IsFirst cb.fits br.freelist first
      × (e.self ≡ first.self)
      × Moved br br' first
  Attempted cb br asleep = NoneFit cb br.freelist × ((br.busylist ≢ []) ⊎ (br.loadedlist ≢ []))

  find-first :
      (before after : List (Listed E)) (e : Listed E)
      → (g : Listed E) × (find (before ++ e ∷ after) e.self ≡ some g)
  unfolding find
  find-first [] after e = (e, ground arith)
  find-first (x ∷ before) after e =
      let (g, h) = find-first before after e in
      elim (Bool-cases (x.self == e.self)) [ inl hit ↦ (x, rw hit) | inr miss ↦ (g, rw miss h) ]

  Moved-change_branch :
      (br : Branch E) (e g : Listed E)
      → find br.freelist e.self ≡ some g
      → Moved br (change_branch br free busy e) e
  unfolding change_branch
  Moved-change_branch br e g h = record {
    left = λ a.
        let same : at a g ≡ at a e = ground (arith, find-self br.freelist e.self g h) in
        omega (arith, occurs-unlink br.freelist e.self a g h);
    joined = λ a. occurs-add_to_next br.busylist a e none;
    kept = refl;
  }

  Moved-update :
      (br br' : Branch E) (e e' : Listed E) → Moved br br' e → Moved br (update br' busy e') e
  unfolding update
  Moved-update br br' e e' m = record {
    left = m.left;
    joined = λ a. occurs-assign br'.busylist a e' ∙ m.joined a;
    kept = m.kept;
  }

  hand_out-Attempted :
      (cb : Callbacks E) (acquire : Option (E → E × ℕ)) (br : Branch E) (e : Listed E)
      → IsFirst cb.fits br.freelist e
      → Attempted cb br (hand_out acquire br e)
  unfolding hand_out
  hand_out-Attempted cb none br e f =
      let (g, h) = find-first f.before f.after e in
      (e, f, refl, Moved-change_branch br e g (rw f.split h))
  hand_out-Attempted cb (some acquire) br e f =
      let (g, h) = find-first f.before f.after e in
      (e, f, refl, Moved-update br _ e _ (Moved-change_branch br e g (rw f.split h)))

  empty_cases :
      (l : List (Listed E)) → ((is_empty l ≡ true) × (l ≡ [])) ⊎ ((is_empty l ≡ false) × (l ≢ []))
  empty_cases [] = inl (refl, refl)
  empty_cases (e ∷ l) = inr (refl, λ h. cc)

  -- One round: it hands out the first fit entity of the free list, which becomes busy; with none it
  -- returns NULL exactly if no entity is busy or loaded, and else it sleeps.
  pub attempt-Attempted : (cb : Callbacks E) (br : Branch E) → Attempted cb br (attempt cb br)
  unfolding attempt
  attempt-Attempted cb br =
      go (first_fit cb.fits br.freelist) refl (first_fit_lem cb.fits br.freelist)
    where
      go :
          (o : Option (Listed E))
          → first_fit cb.fits br.freelist ≡ o
          → Fits cb.fits br.freelist o
          → Attempted cb br (attempt cb br)
      go (some e) h f = rw (h, attempt) (hand_out-Attempted cb cb.acquire br e f)
      go none h f =
          rw (h, attempt)
            (elim (empty_cases br.busylist) [
              | inr (b, ne) ↦ rw b (f, inl ne)
              | inl (b, e) ↦ elim (empty_cases br.loadedlist) [
                | inr (l, ne) ↦ rw (b, l) (f, inr ne)
                | inl (l, e') ↦ rw (b, l) (f, e, e')
              ]
            ])

  -- The states of the branch that a call sees.
  abbrev pub Seen : Branch E → Branch E → List (Bool × Branch E) → Type 0
  Seen st br [] = st ≡ br
  Seen st br ((_, next) ∷ later) = (st ≡ br) ⊎ Seen st next later

  -- A call of get_free that is not to give up comes, in one of the states that it sees, to this:
  -- the first fit entity of the free list is handed out and is busy instead of free; or none is fit
  -- and it returns NULL, with no entity busy or loaded; or none is fit and it sleeps, with one busy
  -- or loaded.
  pub get_free-Attempted :
      (cb : Callbacks E) (br : Branch E) (later : List (Bool × Branch E))
      → (st : Branch E) × Seen st br later × Attempted cb st (get_free cb false br later)
  unfolding get_free
  get_free-Attempted cb br [] = (br, refl, attempt-Attempted cb br)
  get_free-Attempted cb br ((running, next) ∷ later) =
      go (attempt cb br) refl (attempt-Attempted cb br) (get_free-Attempted cb next later)
    where
      go :
          (r : Got E)
          → attempt cb br ≡ r
          → Attempted cb br r
          → ((st : Branch E) × Seen st next later × Attempted cb st (get_free cb false next later))
          → (st : Branch E) × Seen st br ((running, next) ∷ later)
            × Attempted cb st (get_free cb false br ((running, next) ∷ later))
      go nothing h here rest = (br, inl refl, rw (h, get_free) here)
      go (got br' e ret) h here rest = (br, inl refl, rw (h, get_free) here)
      go asleep h here (st, seen, later_on) = (st, inr seen, rw (h, get_free) later_on)
