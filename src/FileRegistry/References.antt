-- ===== src/FileRegistry/References.antt =====
-- `associations` as a reference count by name: what each call does to the count of every name.
use Prim.Native.String.{String}
use text.Mathlib.Text.{◌==◌ as str_eq}
use text.Mathlib.TextPositions.{eq_refl}
use vlbi_streamer.Base.{
  ℕ, ◌+◌, ◌%◌, ◌^◌, ◌<◌, ◌≡◌, ◌≢◌, refl, ◌∙◌, ◌⊎◌, inl, inr, [], ◌∷◌, Option, none, some, true,
  ◌&&◌, if◌then◌else◌, Bool-cases, Option-cases, All, arith,
}
use vlbi_streamer.FileIndex.{FileIndex, AfiStatus}
use vlbi_streamer.FileRegistry.{
  Files, Memory, afi_add, afi_get, rejoin, new_index, add_to_list, assign, find_by_name, associated,
}
use vlbi_streamer.FileRegistry.Names.{
  IsRegistry, All-find_by_name, find_by_name-name, find_by_name-assign, assign-IsRegistry,
  add_to_list-IsRegistry, find_by_name-add_to_list,
}

abbrev count_of : Option FileIndex → ℕ
count_of none = 0
count_of (some fi) = fi.associations

-- How many hold the index of a name; 0 if there is none.
unfoldable pub refs : Files → String → ℕ
refs files name = count_of (find_by_name files name)

-- Every name but one keeps its count.
abbrev pub Counts : Files → Files → String → ℕ → Type 0
Counts files files' name n =
    (j : String) → refs files' j ≡ (if str_eq name j then n else refs files j)

pub assign-Counts :
    (files : Files) (name : String) (fi fi' : FileIndex)
    → IsRegistry files
    → find_by_name files name ≡ some fi
    → fi'.filename ≡ name
    → Counts files (assign files fi.addr fi') name fi'.associations
unfolding refs
assign-Counts files name fi fi' r e n j =
    ground (arith, find_by_name-assign files name j fi fi' r e n)

find_self :
    (files : Files) (name : String) (fi fi' : FileIndex)
    → IsRegistry files
    → find_by_name files name ≡ some fi
    → fi'.filename ≡ name
    → find_by_name (assign files fi.addr fi') name ≡ some fi'
find_self files name fi fi' r e n =
    ground (arith, find_by_name-assign files name name fi fi' r e n, eq_refl name)

-- `calloc` returns memory that no live index occupies.
abbrev pub IsFresh : Option ℕ → Files → Type 0
IsFresh none files = Unit
IsFresh (some a) files = All (λ g. a ≢ g.addr) files

-- What a call that takes one more hold of `name` comes to.
abbrev pub Joined : Files → String → Files × Option FileIndex → Type 0
Joined files name (files', none) = files' ≡ files
Joined files name (files', some fi) =
    IsRegistry files'
    × (find_by_name files' name ≡ some fi)
    × Counts files files' name (refs files name + 1)

rejoin_keeps :
    (fi fi' : FileIndex) (status : AfiStatus)
    → rejoin fi status ≡ some fi'
    → (fi'.filename ≡ fi.filename)
      × (fi'.addr ≡ fi.addr)
      × (fi'.associations ≡ (fi.associations + 1) % 2 ^ 64)
unfolding rejoin
rejoin_keeps fi fi' status e = ground arith

assign-Joined :
    (files : Files) (name : String) (fi fi' : FileIndex)
    → IsRegistry files
    → find_by_name files name ≡ some fi
    → refs files name + 1 < 2 ^ 64
    → fi'.filename ≡ fi.filename
    → fi'.addr ≡ fi.addr
    → fi'.associations ≡ (fi.associations + 1) % 2 ^ 64
    → Joined files name (assign files fi.addr fi', some fi')
unfolding refs
assign-Joined files name fi fi' r e small n a c =
    let named : fi'.filename ≡ name = n ∙ find_by_name-name files name fi e in
    let held : fi'.associations ≡ count_of (find_by_name files name) + 1 = ground arith in
    (
      assign-IsRegistry files name fi fi' r e n a (omega arith),
      find_self files name fi fi' r e named,
      λ j. ground (arith, assign-Counts files name fi fi' r e named j),
    )

new_index-Joined :
    (files : Files) (name : String) (a n_files : ℕ) (status : AfiStatus) (packet_size : ℕ)
    → IsRegistry files
    → find_by_name files name ≡ none
    → All (λ g. a ≢ g.addr) files
    → let fi = new_index a name n_files status packet_size in
      Joined files name (add_to_list files fi, some fi)
unfolding refs new_index
new_index-Joined files name a n_files status packet_size r e fresh =
    let fi = new_index a name n_files status packet_size in
    let at = λ (j : String). find_by_name-add_to_list files fi j e in
    (
      add_to_list-IsRegistry files fi r e fresh (omega arith),
      ground (arith, at name, eq_refl name),
      λ j. ground (arith, at j, e),
    )

-- Either afi_add returns NULL and the list is as it was, or the list is a registry again that has
-- the returned index under the name, with one holder more, and all other counts as before. Before
-- the call the list is a registry, calloc gives an address that no index has, and the count of the
-- name can grow.
pub afi_add-Joined :
    (memory : Memory) (files : Files) (name : String) (n_files : ℕ) (status : AfiStatus)
    (packet_size : ℕ)
    → IsRegistry files
    → IsFresh memory.index_at files
    → refs files name + 1 < 2 ^ 64
    → Joined files name (afi_add memory files name n_files status packet_size)
unfolding afi_add
afi_add-Joined memory files name n_files status packet_size r fresh small =
    elim (Option-cases (find_by_name files name)) [
      | inr (fi, e) ↦ elim (Option-cases (rejoin fi status)) [
        | inl refused ↦ rw (e, refused, afi_add) refl
        | inr (fi', joined) ↦
            let (n, a, c) = rejoin_keeps fi fi' status joined in
            rw (e, joined, afi_add) (assign-Joined files name fi fi' r e small n a c)
      ]
      | inl e ↦ elim (Option-cases memory.index_at) [
        | inl failed ↦ rw (e, failed, afi_add) refl
        | inr (a, given) ↦ elim (Bool-cases (memory.name_copied && memory.files_given)) [
          | inl fine ↦
              rw (e, given, fine, afi_add)
                (new_index-Joined files name a n_files status packet_size r e (rw given at fresh))
          | inr failed ↦ rw (e, given, failed, afi_add) refl
        ]
      ]
    ]

pub held_everywhere : (files : Files) → IsRegistry files → All (λ g. 0 < g.associations) files
held_everywhere [] r = tt
held_everywhere (g ∷ files) r = (r.0, held_everywhere files r.2)

-- A second recording under a name that is being recorded is refused, and changes nothing.
pub afi_add_second_recording :
    (memory : Memory) (files : Files) (name : String) (n_files packet_size : ℕ) (fi : FileIndex)
    (status : AfiStatus)
    → find_by_name files name ≡ some fi
    → fi.status.record_bit ≡ true
    → status.record_bit ≡ true
    → afi_add memory files name n_files status packet_size ≡ (files, none)
unfolding afi_add rejoin
afi_add_second_recording memory files name n_files packet_size fi status e held asked =
    ground (arith, e)

-- On a registry, afi_get with associate takes one more hold of a name that somebody holds, and
-- returns NULL for any other name. The count of the name can grow.
pub afi_get-Joined :
    (files : Files) (name : String)
    → IsRegistry files
    → refs files name + 1 < 2 ^ 64
    → Joined files name (afi_get files name true)
      × ((refs files name ≡ 0) × ((afi_get files name true).1 ≡ none)
          ⊎ (0 < refs files name) × (fi : FileIndex) × ((afi_get files name true).1 ≡ some fi))
unfolding afi_get
afi_get-Joined files name r small = elim (Option-cases (find_by_name files name)) [
  | inl e ↦ rw (e, afi_get) (refl, inl (unfold refs in rw e, refl))
  | inr (fi, e) ↦
      let held : 0 < refs files name =
        unfold refs in
        rw e
          (All-find_by_name (λ g. 0 < g.associations) files name fi (held_everywhere files r) e) in
      rw (e, afi_get)
        (
          assign-Joined files name fi (associated fi) r e small refl refl refl,
          inr (held, associated fi, refl),
        )
]
