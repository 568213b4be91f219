-- ===== src/FileRegistry/Releases.antt =====
-- `afi_disassociate`: how a holder leaves, and what the last one closes.
use Prim.Native.String.{String}
use text.Mathlib.TextEquality.{eq_iff}
use text.Mathlib.TextPositions.{eq_refl}
use vlbi_streamer.Base.{
  ℕ, ◌-◌, ◌<◌, ◌≡◌, refl, ◌⊎◌, inl, inr, [], ◌∷◌, none, some, true, false, if◌then◌else◌, ◌==◌,
  Bool-cases, ok, aborted, arith,
}
use vlbi_streamer.FileIndex.{FileIndex, AfiStatus}
use vlbi_streamer.FileRegistry.{
  Files, afi_disassociate, leave, unlink, deref, assign, find_by_name, close_file_index,
  remove_from_list,
}
use native.Mathlib.Decide.{dec_lt}
use mathlib.Core.Path.{subst}
use vlbi_streamer.FileRegistry.References.{refs, Counts, assign-Counts, held_everywhere}
use vlbi_streamer.FileRegistry.Names.{
  Apart, IsRegistry, All-find_by_name, assign-IsRegistry, find_by_name-unlink, unlink-IsRegistry,
}

deref-find :
    (files : Files) (a : ℕ) (fi : FileIndex)
    → IsRegistry files
    → deref files a ≡ some fi
    → (find_by_name files fi.filename ≡ some fi) × (fi.addr ≡ a)
unfolding deref find_by_name
deref-find [] a fi r e = cc
deref-find (g ∷ files) a fi r e = elim (Bool-cases (g.addr == a)) [
  | inl hit ↦ ground (arith, eq_refl g.filename)
  | inr miss ↦
      let (at, addr) = deref-find files a fi r.2 (rw miss at e) in
      let apart : Apart g fi = All-find_by_name (Apart g) files fi.filename fi r.1 at in
      ground (arith, at, addr, apart.0, eq_iff g.filename fi.filename)
]

unlink-assign :
    (files : Files) (a : ℕ) (fi : FileIndex)
    → fi.addr ≡ a
    → unlink (assign files a fi) a ≡ unlink files a
unfolding unlink assign
unlink-assign [] a fi e = refl
unlink-assign (g ∷ files) a fi e = elim (Bool-cases (g.addr == a)) [
  | inl hit ↦ ground arith
  | inr miss ↦ ground (arith, unlink-assign files a fi e)
]

remove_from_list-unlink :
    (files : Files) (a : ℕ) (fi : FileIndex)
    → deref files a ≡ some fi
    → remove_from_list files a ≡ ok (unlink files a)
unfolding remove_from_list unlink deref
remove_from_list-unlink [] a fi e = cc
remove_from_list-unlink (g ∷ files) a fi e = ground arith

pub deref-assign :
    (files : Files) (a : ℕ) (fi fi' : FileIndex)
    → deref files a ≡ some fi
    → fi'.addr ≡ a
    → deref (assign files a fi') a ≡ some fi'
unfolding deref assign
deref-assign [] a fi fi' e h = cc
deref-assign (g ∷ files) a fi fi' e h = ground (arith, deref-assign files a fi fi')

close_last :
    (files : Files) (a : ℕ) (fi : FileIndex) (type : AfiStatus)
    → deref files a ≡ some fi
    → fi.addr ≡ a
    → fi.associations ≡ 1
    → afi_disassociate files a type ≡ ok (unlink files a, true)
unfolding afi_disassociate close_file_index
close_last files a fi type e h one =
    let fi' = record fi { associations = fi.associations - 1 } in
    ground (
      arith,
      e,
      remove_from_list-unlink (assign files a fi') a fi' (deref-assign files a fi fi' e h),
      unlink-assign files a fi' h,
    )

-- The index that stays in the list when one of several holders leaves.
abbrev left_behind : FileIndex → AfiStatus → FileIndex
left_behind fi type = record fi {
  status = record {
    record_bit = if type.record_bit then false else fi.status.record_bit;
    send_bit = fi.status.send_bit;
  };
  associations = fi.associations - 1;
}

-- A holder that leaves as the recorder was one: the assertion of `afi_disassociate`.
abbrev pub MayLeave : FileIndex → AfiStatus → Type 0
MayLeave fi type = (type.record_bit ≡ false) ⊎ (fi.status.record_bit ≡ true)

leave_early :
    (files : Files) (a : ℕ) (fi : FileIndex) (type : AfiStatus)
    → deref files a ≡ some fi
    → 1 < fi.associations
    → MayLeave fi type
    → afi_disassociate files a type ≡ ok (assign files a (left_behind fi type), true)
unfolding afi_disassociate leave
leave_early files a fi type e many held = ground (arith, e)

-- On an index of a registry, afi_disassociate returns 0, takes one holder off the count of the
-- index and leaves all other counts; the list stays a registry. The last holder takes the index off
-- the list. Only a holder of a recording index leaves as its recorder.
pub afi_disassociate_lem :
    (files : Files) (a : ℕ) (fi : FileIndex) (type : AfiStatus)
    → IsRegistry files
    → deref files a ≡ some fi
    → MayLeave fi type
    → (files' : Files) × (afi_disassociate files a type ≡ ok (files', true))
      × IsRegistry files'
      × Counts files files' fi.filename (fi.associations - 1)
      × ((1 < fi.associations) ⊎ (find_by_name files' fi.filename ≡ none))
unfolding refs
afi_disassociate_lem files a fi type r e held =
    let (named, at) = deref-find files a fi r e in
    let some_hold =
      All-find_by_name (λ g. 0 < g.associations) files fi.filename fi (held_everywhere files r)
        named in
    elim (dec_lt 1 fi.associations) [
      | yes many ↦
          let fi' = left_behind fi type in
          (
            assign files a fi',
            leave_early files a fi type e many held,
            subst (λ b. IsRegistry (assign files b fi')) at
                (assign-IsRegistry files fi.filename fi fi' r named refl refl (omega arith)),
            subst (λ b. Counts files (assign files b fi') fi.filename fi'.associations) at
                (assign-Counts files fi.filename fi fi' r named refl),
            inl many,
          )
      | no last ↦
          let gone = λ (j : String). find_by_name-unlink files fi.filename j fi r named in
          (
            unlink files a,
            close_last files a fi type e at (omega (arith, some_hold)),
            unlink-IsRegistry files a r,
            λ j. ground (arith, at, gone j),
            inr (ground (arith, at, gone fi.filename, eq_refl fi.filename)),
          )
    ]

-- With a holder that records where nobody does, the call stops at its assertion.
pub afi_disassociate_aborts :
    (files : Files) (a : ℕ) (fi : FileIndex) (type : AfiStatus)
    → deref files a ≡ some fi
    → 1 < fi.associations
    → type.record_bit ≡ true
    → fi.status.record_bit ≡ false
    → afi_disassociate files a type ≡ aborted
unfolding afi_disassociate leave
afi_disassociate_aborts files a fi type e many asked idle = ground (arith, e)
