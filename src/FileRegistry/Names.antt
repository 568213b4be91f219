-- ===== src/FileRegistry/Names.antt =====
-- The list of indexes of src/active_file_index.c as a finite map from names: its well-formedness,
-- and searching after a write, an unlinking and an addition.
use text.Mathlib.Text.{◌==◌ as str_eq}
use text.Mathlib.TextEquality.{eq_iff}
use Prim.Native.String.{String}
use mathlib.Core.Path.{subst}
use mathlib.Core.Option.{some-injective}
use vlbi_streamer.Base.{
  ℕ, ◌<◌, ◌≡◌, ◌≢◌, refl, sym, ◌∙◌, ap, inl, inr, [], ◌∷◌, ◌++◌, none, some, true, false,
  if◌then◌else◌, ◌==◌, ==_iff, Bool-cases, All, All-map, arith,
}
use vlbi_streamer.FileIndex.{FileIndex}
use vlbi_streamer.FileRegistry.{Files, add_to_list, unlink, assign, find_by_name}

abbrev pub Apart : FileIndex → FileIndex → Type 0
Apart fi gi = (fi.filename ≢ gi.filename) × (fi.addr ≢ gi.addr)

abbrev pub IsRegistry : Files → Type 0
IsRegistry [] = Unit
IsRegistry (fi ∷ files) = (0 < fi.associations) × All (Apart fi) files × IsRegistry files

module _ (P : FileIndex → Type 0) where
  pub All-find_by_name :
      (files : Files) (name : String) (fi : FileIndex)
      → All P files
      → find_by_name files name ≡ some fi
      → P fi
  unfolding find_by_name
  All-find_by_name [] name fi all e = cc
  All-find_by_name (g ∷ files) name fi all e = elim (Bool-cases (str_eq g.filename name)) [
    | inl hit ↦ subst P (some-injective _ _ (rw hit at e)) all.0
    | inr miss ↦ All-find_by_name files name fi all.1 (rw miss at e)
  ]

  pub All-assign :
      (files : Files) (a : ℕ) (fi : FileIndex) → All P files → P fi → All P (assign files a fi)
  unfolding assign
  All-assign [] a fi all p = tt
  All-assign (g ∷ files) a fi all p = elim (Bool-cases (g.addr == a)) [
    | inl hit ↦ rw hit (p, all.1)
    | inr miss ↦ rw miss (all.0, All-assign files a fi all.1 p)
  ]

  pub All-unlink : (files : Files) (a : ℕ) → All P files → All P (unlink files a)
  unfolding unlink
  All-unlink [] a all = tt
  All-unlink (g ∷ files) a all = elim (Bool-cases (g.addr == a)) [
    | inl hit ↦ rw hit all.1
    | inr miss ↦ rw miss (all.0, All-unlink files a all.1)
  ]

  pub All-add_to_list :
      (files : Files) (fi : FileIndex) → All P files → P fi → All P (files ++ fi ∷ [])
  All-add_to_list [] fi all p = (p, tt)
  All-add_to_list (g ∷ files) fi all p = (all.0, All-add_to_list files fi all.1 p)

-- The index found has the name.
pub find_by_name-name :
    (files : Files) (name : String) (fi : FileIndex)
    → find_by_name files name ≡ some fi
    → fi.filename ≡ name
unfolding find_by_name
find_by_name-name [] name fi e = cc
find_by_name-name (g ∷ files) name fi e =
    ground (arith, eq_iff g.filename name, find_by_name-name files name fi)

-- An index with the name of an entry and its address stays apart from all others.
Apart-same :
    (fi fi' g : FileIndex)
    → fi'.filename ≡ fi.filename
    → fi'.addr ≡ fi.addr
    → Apart g fi
    → Apart g fi'
Apart-same fi fi' g n a ap = (λ e. ap.0 (e ∙ n), λ e. ap.1 (e ∙ a))

Apart-left :
    (g g' h : FileIndex) → g'.filename ≡ g.filename → g'.addr ≡ g.addr → Apart g h → Apart g' h
Apart-left g g' h n a ap = (λ e. ap.0 (sym n ∙ e), λ e. ap.1 (sym a ∙ e))

Apart-sym : (g h : FileIndex) → Apart g h → Apart h g
Apart-sym g h ap = (λ e. ap.0 (sym e), λ e. ap.1 (sym e))

-- A write through the pointer that a search returned is an update of the map at that name.
pub find_by_name-assign :
    (files : Files) (name j : String) (fi fi' : FileIndex)
    → IsRegistry files
    → find_by_name files name ≡ some fi
    → fi'.filename ≡ name
    → find_by_name (assign files fi.addr fi') j
      ≡ (if str_eq name j then some fi' else find_by_name files j)
unfolding find_by_name assign
find_by_name-assign [] name j fi fi' r e n = cc
find_by_name-assign (g ∷ files) name j fi fi' r e n = elim (Bool-cases (str_eq g.filename name)) [
  | inl hit ↦ ground (arith, eq_iff g.filename name)
  | inr miss ↦
      let e' : find_by_name files name ≡ some fi = rw miss at e in
      let apart : Apart g fi = All-find_by_name (Apart g) files name fi r.1 e' in
      ground (
        arith,
        apart.1,
        find_by_name-assign files name j fi fi' r.2 e' n,
        eq_iff g.filename name,
        eq_iff g.filename j,
        eq_iff name j,
      )
]

pub assign-IsRegistry :
    (files : Files) (name : String) (fi fi' : FileIndex)
    → IsRegistry files
    → find_by_name files name ≡ some fi
    → fi'.filename ≡ fi.filename
    → fi'.addr ≡ fi.addr
    → 0 < fi'.associations
    → IsRegistry (assign files fi.addr fi')
unfolding find_by_name assign
assign-IsRegistry [] name fi fi' r e n a p = cc
assign-IsRegistry (g ∷ files) name fi fi' r e n a p = elim (Bool-cases (str_eq g.filename name)) [
  | inl hit ↦
      let same : g ≡ fi = some-injective _ _ (rw hit at e) in
      let here : (g.addr == fi.addr) ≡ true =
        (==_iff _ _).1 (ap (λ (x : FileIndex). x.addr) same) in
      rw here (
        p,
        All-map (Apart g) (Apart fi')
            (λ h.
              Apart-left g fi' h (n ∙ ap (λ (x : FileIndex). x.filename) (sym same))
                (a ∙ ap (λ (x : FileIndex). x.addr) (sym same)))
            files r.1,
        r.2,
      )
  | inr miss ↦
      let e' : find_by_name files name ≡ some fi = rw miss at e in
      let apart : Apart g fi = All-find_by_name (Apart g) files name fi r.1 e' in
      let there : (g.addr == fi.addr) ≡ false = ground (arith, apart.1) in
      rw there (
        r.0,
        All-assign (Apart g) files fi.addr fi' r.1 (Apart-same fi fi' g n a apart),
        assign-IsRegistry files name fi fi' r.2 e' n a p,
      )
]

-- A name that every entry lacks is not found.
find_by_name-absent :
    (files : Files) (name : String)
    → All (λ g. name ≢ g.filename) files
    → find_by_name files name ≡ none
unfolding find_by_name
find_by_name-absent [] name h = refl
find_by_name-absent (g ∷ files) name h =
    ground (arith, h.0, eq_iff g.filename name, find_by_name-absent files name h.1)

-- Closing an index takes its name out of the map.
pub find_by_name-unlink :
    (files : Files) (name j : String) (fi : FileIndex)
    → IsRegistry files
    → find_by_name files name ≡ some fi
    → find_by_name (unlink files fi.addr) j ≡ (if str_eq name j then none else find_by_name files j)
unfolding find_by_name unlink
find_by_name-unlink [] name j fi r e = cc
find_by_name-unlink (g ∷ files) name j fi r e = elim (Bool-cases (str_eq g.filename name)) [
  | inl hit ↦
      let same : g ≡ fi = some-injective _ _ (rw hit at e) in
      let gone : find_by_name files g.filename ≡ none =
        find_by_name-absent files g.filename
          (All-map (Apart g) (λ h. g.filename ≢ h.filename) (λ h a. a.0) files r.1) in
      ground (arith, same, gone, eq_iff g.filename name, eq_iff g.filename j, eq_iff name j)
  | inr miss ↦
      let e' : find_by_name files name ≡ some fi = rw miss at e in
      let apart : Apart g fi = All-find_by_name (Apart g) files name fi r.1 e' in
      ground (
        arith,
        apart.1,
        find_by_name-unlink files name j fi r.2 e',
        eq_iff g.filename name,
        eq_iff g.filename j,
        eq_iff name j,
      )
]

pub unlink-IsRegistry : (files : Files) (a : ℕ) → IsRegistry files → IsRegistry (unlink files a)
unfolding unlink
unlink-IsRegistry [] a r = tt
unlink-IsRegistry (g ∷ files) a r = elim (Bool-cases (g.addr == a)) [
  | inl hit ↦ rw hit r.2
  | inr miss ↦ rw miss (r.0, All-unlink (Apart g) files a r.1, unlink-IsRegistry files a r.2)
]

-- A name that is not found is the name of no entry.
absent_of_find :
    (files : Files) (name : String)
    → find_by_name files name ≡ none
    → All (λ g. name ≢ g.filename) files
unfolding find_by_name
absent_of_find [] name e = tt
absent_of_find (g ∷ files) name e = elim (Bool-cases (str_eq g.filename name)) [
  | inl hit ↦ let clash : some g ≡ none = rw hit at e in cc
  | inr miss ↦
      ((λ n. ground (arith, eq_iff g.filename name)), absent_of_find files name (rw miss at e))
]

-- A new index under a name that the list lacks, at an address that no entry has.
pub add_to_list-IsRegistry :
    (files : Files) (fi : FileIndex)
    → IsRegistry files
    → find_by_name files fi.filename ≡ none
    → All (λ g. fi.addr ≢ g.addr) files
    → 0 < fi.associations
    → IsRegistry (add_to_list files fi)
unfolding add_to_list
add_to_list-IsRegistry files fi r e a p = go files r (absent_of_find files fi.filename e) a
  where
    go :
        (files : Files)
        → IsRegistry files
        → All (λ g. fi.filename ≢ g.filename) files
        → All (λ g. fi.addr ≢ g.addr) files
        → IsRegistry (files ++ fi ∷ [])
    go [] r e a = (p, tt, tt)
    go (g ∷ files) r e a = (
      r.0,
      All-add_to_list (Apart g) files fi r.1 (λ n. e.0 (sym n), λ n. a.0 (sym n)),
      go files r.2 e.1 a.1,
    )

pub find_by_name-add_to_list :
    (files : Files) (fi : FileIndex) (j : String)
    → find_by_name files fi.filename ≡ none
    → find_by_name (add_to_list files fi) j
      ≡ (if str_eq fi.filename j then some fi else find_by_name files j)
unfolding add_to_list find_by_name
find_by_name-add_to_list [] fi j e = refl
find_by_name-add_to_list (g ∷ files) fi j e = ground (
  arith,
  find_by_name-add_to_list files fi j,
  eq_iff g.filename fi.filename,
  eq_iff g.filename j,
  eq_iff fi.filename j,
)
