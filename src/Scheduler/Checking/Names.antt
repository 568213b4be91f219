-- ===== src/Scheduler/Checking/Names.antt =====
-- src/server.c: how often the schedule has a name, and the marks of the events that were found.
use Prim.Native.String.{String}
use text.Mathlib.Text.{◌==◌ as str_eq}
use vlbi_streamer.Base.{
  ℕ, ◌+◌, ◌≡◌, refl, ◌∙◌, ap, List, [], ◌∷◌, ◌++◌, Option, none, some, Bool, true, false, ◌||◌,
  if◌then◌else◌, Bool-cases, ◌⊎◌, inl, inr, ok, map, All, arith,
}
use vlbi_streamer.ResourceTree.{Listed}
use vlbi_streamer.ResourceTree.Placement.{occurs}
use vlbi_streamer.Scheduler.{Event, Setting}
use vlbi_streamer.Scheduler.Checking.{find_by_idstring, marked}

abbrev pub is_named : String → Listed Event → Bool
is_named name le = elim le.entity.idstring [ none ↦ false | some id ↦ str_eq name id ]

-- How many events of a list have a name.
abbrev pub named : String → List (Listed Event) → ℕ
named name [] = 0
named name (le ∷ l) = (if is_named name le then 1 else 0) + named name l

abbrev pub IsNamed : Listed Event → Type 0
IsNamed le = (id : String) × (le.entity.idstring ≡ some id)

abbrev pub mark_one : String → Listed Event → Listed Event
mark_one name le = if is_named name le then marked true le else le

-- The marks that a list of settings sets on an event.
abbrev pub mark : List Setting → Listed Event → Listed Event
mark [] le = le
mark (s ∷ settings) le = mark settings (mark_one s.name le)

-- A setting of the list has the name of the event.
abbrev pub in_file : List Setting → Listed Event → Bool
in_file [] le = false
in_file (s ∷ settings) le = is_named s.name le || in_file settings le

pub named-append :
    (name : String) (l r : List (Listed Event)) → named name (l ++ r) ≡ named name l + named name r
named-append name [] r = omega arith
named-append name (le ∷ l) r = omega (arith, named-append name l r)

pub named-mark_one :
    (j name : String) (l : List (Listed Event)) → named j (map (mark_one name) l) ≡ named j l
named-mark_one j name [] = refl
named-mark_one j name (le ∷ l) = ground (arith, named-mark_one j name l)

pub occurs-mark_one :
    (a : ℕ) (name : String) (l : List (Listed Event))
    → occurs a (map (mark_one name) l) ≡ occurs a l
occurs-mark_one a name [] = refl
occurs-mark_one a name (le ∷ l) = ground (arith, occurs-mark_one a name l)

pub mark_one-absent :
    (name : String) (l : List (Listed Event)) → named name l ≡ 0 → map (mark_one name) l ≡ l
mark_one-absent name [] h = refl
mark_one-absent name (le ∷ l) h = elim (Bool-cases (is_named name le)) [
  | inl hit ↦ absurd (ground arith)
  | inr miss ↦ simp (miss, mark_one-absent name l (ground arith))
]

pub is_named_lem :
    (name id : String) (le : Listed Event)
    → le.entity.idstring ≡ some id
    → is_named name le ≡ str_eq name id
is_named_lem name id le e =
    ap (λ (o : Option String). elim o as (λ _. Bool) [ none ↦ false | some i ↦ str_eq name i ]) e

pub mark_one-hit :
    (name : String) (le : Listed Event)
    → is_named name le ≡ true
    → mark_one name le ≡ marked true le
mark_one-hit name le h = ap (λ b. if b then marked true le else le) h

pub mark_one-miss :
    (name : String) (le : Listed Event) → is_named name le ≡ false → mark_one name le ≡ le
mark_one-miss name le h = ap (λ b. if b then marked true le else le) h

in_file-marked :
    (settings : List Setting) (le : Listed Event)
    → in_file settings (marked true le) ≡ in_file settings le
in_file-marked [] le = refl
in_file-marked (s ∷ settings) le = ap (λ b. is_named s.name le || b) (in_file-marked settings le)

or-true : (b : Bool) → (b || true) ≡ true
or-true true = refl
or-true false = refl

pub mark-found :
    (settings : List Setting) (le : Listed Event)
    → (mark settings le).entity.found ≡ (in_file settings le || le.entity.found)
mark-found [] le = refl
mark-found (s ∷ settings) le = elim (Bool-cases (is_named s.name le)) [
  | inl hit ↦
      ap (λ g. (mark settings g).entity.found) (mark_one-hit s.name le hit)
      ∙ mark-found settings (marked true le)
      ∙ or-true (in_file settings (marked true le))
      ∙ rw hit refl
  | inr miss ↦
      ap (λ g. (mark settings g).entity.found) (mark_one-miss s.name le miss)
      ∙ mark-found settings le
      ∙ rw miss refl
]

-- The search by name: the first event of that name, or none has it.
pub find_by_idstring-cases :
    (name : String) (l : List (Listed Event))
    → All IsNamed l
    → ((find_by_idstring l name ≡ ok none) × (named name l ≡ 0))
      ⊎ ((before after : List (Listed Event)) × (le : Listed Event) × (l ≡ before ++ le ∷ after)
          × (find_by_idstring l name ≡ ok (some le))
          × (named name before ≡ 0)
          × (is_named name le ≡ true))
unfolding find_by_idstring
find_by_idstring-cases name [] h = inl (refl, refl)
find_by_idstring-cases name (le ∷ l) ((id, e), hs) = elim (Bool-cases (str_eq name id)) [
  | inl hit ↦ inr ([], l, le, refl, simp (e, hit), refl, is_named_lem name id le e ∙ hit)
  | inr miss ↦ elim (find_by_idstring-cases name l hs) [
    | inl (gone, zeroed) ↦ inl (simp (e, miss, gone), ground (arith, zeroed, e, miss))
    | inr (before, after, g, split, found, zeroed, hit) ↦ inr (
      le ∷ before,
      after,
      g,
      ap (λ t. le ∷ t) split,
      simp (e, miss, found),
      ground (arith, zeroed, e, miss),
      hit,
    )
  ]
]
