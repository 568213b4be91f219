-- ===== src/FileIndex/Marking.antt =====
-- The calls that mark files as found or missing, and the queries that read the marks.
use native.Mathlib.Decide.{ℕ_discrete}
use vlbi_streamer.Base.{
  ℕ, zero, suc, ◌≤◌, ◌<◌, ◌≡◌, ◌≢◌, refl, ◌∙◌, inl, inr, ◌⊎◌, get_elem?_out, true, false, Option,
  none, some, List, [], ◌∷◌, if◌then◌else◌, ltb, length, get_elem?, get_elem?_in, set, ok, aborted,
  faulted, arith,
}
use vlbi_streamer.FileIndex.{
  FileIndex, FileHolder, FhStatus, UpdateAction, minus_one, for_each_file, over_files, lose_disk,
  mark_recid_missing, found_on, afi_single_all_found, afi_set_found, afi_get_disk_id, lost,
  afi_set_all_missing, afi_is_missing, store_file, and_action, afi_update_fh,
}
use vlbi_streamer.FileIndex.Validity.{IsValid}

-- Option.map at a file's entry, for the files below `n` alone.
abbrev pub changed : (FileHolder → FileHolder) → ℕ → ℕ → Option FileHolder → Option FileHolder
changed f n i none = none
changed f n i (some fh) = some (if ltb i n then f fh else fh)

-- The loop changes the entries below its bound and no others.
for_each_file_lem :
    (f : FileHolder → FileHolder) (n : ℕ) (files : List FileHolder)
    → n ≤ length files
    → (files' : List FileHolder) × (for_each_file f n files ≡ ok files')
      × (length files' ≡ length files)
      × ((i : ℕ) → get_elem? files' i ≡ changed f n i (get_elem? files i))
unfolding for_each_file
for_each_file_lem f zero files h = (files, refl, refl, λ i. ground arith)
for_each_file_lem f (suc n) [] h = absurd (omega arith)
for_each_file_lem f (suc n) (fh ∷ files) h =
    let (rest, e, len, at) = for_each_file_lem f n files (omega arith) in
    (f fh ∷ rest, rw e, omega (arith, len), each rest at)
  where
    each :
        (rest : List FileHolder)
        → ((i : ℕ) → get_elem? rest i ≡ changed f n i (get_elem? files i))
        → (i : ℕ) → get_elem? (f fh ∷ rest) i ≡ changed f (suc n) i (get_elem? (fh ∷ files) i)
    each rest at zero = ground arith
    each rest at (suc i) = ground (arith, at i)

-- An index after a loop over its files that changes each of them by `f`.
pub record Looped (fi fi' : FileIndex) (f : FileHolder → FileHolder) : Type 0 where
  pub valid : IsValid fi'
  pub each : (i : ℕ) → get_elem? fi'.files i ≡ changed f fi.n_files i (get_elem? fi.files i)
  pub count : fi'.n_files ≡ fi.n_files

over_files-Looped :
    (f : FileHolder → FileHolder) (fi : FileIndex)
    → IsValid fi
    → (fi' : FileIndex) × (over_files f fi ≡ ok fi') × Looped fi fi' f
unfolding over_files
over_files-Looped f fi v =
    let (files, e, len, at) =
      for_each_file_lem f fi.n_files fi.files (omega (arith, v.room, v.counted)) in
    (
      record fi { files = files },
      rw e,
      record {
        valid = record {
          room = omega (arith, len, v.room);
          counted = v.counted;
          nonempty = v.nonempty;
          small = v.small;
        };
        each = at;
        count = refl;
      },
    )

pub afi_is_missing_at :
    (fi : FileIndex) (i : ℕ) (fh : FileHolder)
    → i ≤ fi.n_files
    → get_elem? fi.files i ≡ some fh
    → afi_is_missing fi i ≡ ok fh.status.missing
unfolding afi_is_missing
afi_is_missing_at fi i fh h e = ground arith

module _ (fi : FileIndex) (i : ℕ) (v : IsValid fi) (h : i < fi.n_files) where
  entry_at : (fh : FileHolder) × (get_elem? fi.files i ≡ some fh)
  entry_at = get_elem?_in fi.files i (omega (arith, v.room, v.counted))

  -- After afi_set_all_missing on a valid index every file that it counts reads as missing.
  pub afi_is_missing-afi_set_all_missing :
      (fi' : FileIndex) × (afi_set_all_missing fi ≡ ok fi') × (afi_is_missing fi' i ≡ ok true)
  unfolding afi_set_all_missing lost
  afi_is_missing-afi_set_all_missing =
      let (fi', e, l) = over_files-Looped lost fi v in
      let (fh, at) = entry_at in
      (
        fi',
        e,
        afi_is_missing_at fi' i (lost fh) (omega (arith, l.count)) (ground (arith, l.each i, at)),
      )

  -- After afi_single_all_found on a valid index no file that it counts reads as missing.
  pub afi_is_missing-afi_single_all_found :
      (disk_id : ℕ)
      → (fi' : FileIndex) × (afi_single_all_found fi disk_id ≡ ok fi')
        × (afi_is_missing fi' i ≡ ok false)
  unfolding afi_single_all_found found_on
  afi_is_missing-afi_single_all_found disk_id =
      let (fi', e, l) = over_files-Looped (found_on disk_id) fi v in
      let (fh, at) = entry_at in
      (
        fi',
        e,
        afi_is_missing_at fi' i (found_on disk_id fh) (omega (arith, l.count))
              (ground (arith, l.each i, at))
            ∙ ground arith,
      )

-- What is known of an entry after its disk `recid` is lost: one that lay there is marked and has no
-- disk any more, and any other is as it was.
abbrev pub DiskLost : ℕ → FileHolder → FileHolder → Type 0
DiskLost recid fh fh' =
    (fh.diskid ≡ recid)
      × (fh'.diskid ≡ minus_one)
      × (fh'.status.missing ≡ true)
      × (fh'.status.on_disk ≡ false)
      × (fh'.status.busy ≡ fh.status.busy)
    ⊎ (fh.diskid ≢ recid) × (fh' ≡ fh)

lose_disk-DiskLost : (recid : ℕ) (fh : FileHolder) → DiskLost recid fh (lose_disk recid fh)
unfolding lose_disk
lose_disk-DiskLost recid fh = elim (ℕ_discrete fh.diskid recid) [
  | yes e ↦ inl (e, ground arith, ground arith, ground arith, ground arith)
  | no ne ↦ inr (ne, ground arith)
]

-- afi_mark_recid_missing on a valid index leaves it valid. A file that lay on the disk has no disk
-- any more, is missing and not on disk; any other is as it was; afi_is_missing says of the file
-- what its mark is.
pub mark_recid_missing_lem :
    (fi : FileIndex) (recid i : ℕ)
    → IsValid fi
    → i < fi.n_files
    → (fi' : FileIndex) × (fh : FileHolder) × (fh' : FileHolder) × (mark_recid_missing fi recid
        ≡ ok fi')
      × IsValid fi'
      × (get_elem? fi.files i ≡ some fh)
      × (get_elem? fi'.files i ≡ some fh')
      × DiskLost recid fh fh'
      × (afi_is_missing fi' i ≡ ok fh'.status.missing)
unfolding mark_recid_missing
mark_recid_missing_lem fi recid i v h =
    let (fi', e, l) = over_files-Looped (lose_disk recid) fi v in
    let (fh, at) = entry_at fi i v h in
    let at' : get_elem? fi'.files i ≡ some (lose_disk recid fh) = ground (arith, l.each i, at) in
    (
      fi',
      fh,
      lose_disk recid fh,
      e,
      l.valid,
      at,
      at',
      lose_disk-DiskLost recid fh,
      afi_is_missing_at fi' i (lose_disk recid fh) (omega (arith, l.count)) at',
    )

-- The inverted assertions: for every file that the index counts, afi_set_found and afi_get_disk_id
-- abort.
pub found_calls_abort :
    (fi : FileIndex) (file disk_id : ℕ)
    → file < fi.n_files
    → (afi_set_found fi file disk_id ≡ aborted) × (afi_get_disk_id fi file ≡ aborted)
unfolding afi_set_found afi_get_disk_id
found_calls_abort fi file disk_id h = (ground arith, ground arith)

-- In a valid index that is full, afi_is_missing lets the number one past the last file through its
-- assertion, and reads outside the array.
pub afi_is_missing_past_end :
    (fi : FileIndex)
    → IsValid fi
    → fi.n_files ≡ fi.allocated_files
    → afi_is_missing fi fi.n_files ≡ faulted
unfolding afi_is_missing
afi_is_missing_past_end fi v e =
    ground (arith, v.room, get_elem?_out fi.files fi.n_files (omega (arith, v.room)))

-- `afi_update_fh` changes the status bits of one file and nothing else.
pub afi_update_fh_at :
    (fi : FileIndex) (filenum : ℕ) (status : FhStatus) (action : UpdateAction) (fh : FileHolder)
    → get_elem? fi.files filenum ≡ some fh
    → filenum < length fi.files
    → afi_update_fh fi filenum status action
      ≡ ok (record fi { files = set fi.files filenum (and_action fh status action) })
unfolding afi_update_fh store_file
afi_update_fh_at fi filenum status action fh e h = ground arith
