-- ===== src/FileIndex/Recording.antt =====
-- The marks that recording a file leaves: src/simplebuffer.c adds it with FH_INMEM | FH_BUSY, and
-- after the write takes FH_BUSY away and adds FH_ONDISK.
use vlbi_streamer.Base.{
  ℕ, ◌≤◌, ◌<◌, ◌≡◌, refl, Bool, true, false, Option, some, List, ◌∷◌, length, get_elem?, set,
  get_elem?-set_self, ◌∙◌, lt-of-get_elem?, length-set, Outcome, ok, ◌>>=◌, arith,
}
use vlbi_streamer.FileIndex.{
  FileIndex, FileHolder, fh_inmem, fh_busy, fh_ondisk, add_to_status, del_from_status, and_action,
  add_flags, afi_add_file, afi_update_fh, afi_is_missing,
}
use vlbi_streamer.FileIndex.Validity.{IsValid}
use vlbi_streamer.FileIndex.Growth.{afi_add_file-in_room}
use vlbi_streamer.FileIndex.Marking.{afi_update_fh_at, afi_is_missing_at}
use vlbi_streamer.FileIndex.Waiting.{afi_wait_on_file, afi_wait_on_file_at}

-- The calls of `write_buffer` before a recording write, and of `sbuf_simple_write_loop` after it.
pub begin_recording : Option (ℕ → FileHolder) → FileIndex → ℕ → ℕ → Outcome (FileIndex × Bool)
begin_recording realloc fi id diskid =
    afi_add_file realloc fi id diskid (add_flags fh_inmem fh_busy)

pub end_recording : FileIndex → ℕ → Outcome FileIndex
end_recording fi id = do
  fi' ← afi_update_fh fi id fh_busy del_from_status
  afi_update_fh fi' id fh_ondisk add_to_status

-- FH_INMEM has the bits of FH_ONDISK and FH_MISSING: as soon as the recording of a file begins that
-- a valid index has room for, a reader that waits for the file is let through, although nothing has
-- been written.
pub wait_let_through :
    (realloc : Option (ℕ → FileHolder)) (fi : FileIndex) (id diskid : ℕ) (later : List FileIndex)
    → IsValid fi
    → id < fi.allocated_files
    → (fi' : FileIndex) × (begin_recording realloc fi id diskid ≡ ok (fi', true))
      × (afi_wait_on_file (fi' ∷ later) id ≡ ok (some true))
unfolding begin_recording
wait_let_through realloc fi id diskid later v h =
    let (fi', e, a) = afi_add_file-in_room realloc fi id diskid _ v h in
    (fi', e, afi_wait_on_file_at fi' later id _ a.entry refl)

end_recording_lem :
    (fi : FileIndex) (id : ℕ) (fh : FileHolder)
    → id < length fi.files
    → get_elem? fi.files id ≡ some fh
    → (fi' : FileIndex) × (end_recording fi id ≡ ok fi')
      × (fi'.n_files ≡ fi.n_files)
      × (fi'.addr ≡ fi.addr)
      × (get_elem? fi'.files id
          ≡ some (and_action (and_action fh fh_busy del_from_status) fh_ondisk add_to_status))
unfolding end_recording
end_recording_lem fi id fh h e =
    let fh1 = and_action fh fh_busy del_from_status in
    let files1 = set fi.files id fh1 in
    let len : id < length files1 = omega (arith, length-set fi.files id fh1) in
    let fh2 = and_action fh1 fh_ondisk add_to_status in
    (
      record fi { files = set files1 id fh2 },
      rw (afi_update_fh_at fi id fh_busy del_from_status fh e h) (
          afi_update_fh_at (record fi { files = files1 }) id fh_ondisk add_to_status fh1
            (get_elem?-set_self fi.files id fh1 h) len),
      refl,
      refl,
      get_elem?-set_self files1 id fh2 len,
    )

-- The FH_MISSING bit of FH_INMEM is never taken away: a file that a valid index had room for, at
-- most one past the files counted, and that was recorded without an error is on the disk and not
-- busy, and still reads as missing.
pub recorded_reads_missing :
    (realloc : Option (ℕ → FileHolder)) (fi : FileIndex) (id diskid : ℕ)
    → IsValid fi
    → id ≤ fi.n_files
    → id < fi.allocated_files
    → (fi1 : FileIndex) × (fi2 : FileIndex) × (fh : FileHolder) × (begin_recording realloc fi id
          diskid
        ≡ ok (fi1, true))
      × (end_recording fi1 id ≡ ok fi2)
      × (get_elem? fi2.files id ≡ some fh)
      × (fh.diskid ≡ diskid)
      × (fh.status.on_disk ≡ true)
      × (fh.status.busy ≡ false)
      × (afi_is_missing fi2 id ≡ ok true)
unfolding begin_recording and_action
recorded_reads_missing realloc fi id diskid v le h =
    let (fi1, e, a) = afi_add_file-in_room realloc fi id diskid _ v h in
    let (fi2, r, n, address, at) =
      end_recording_lem fi1 id _ (lt-of-get_elem? _ id _ a.entry) a.entry in
    let bound : id ≤ fi2.n_files = ground (arith, n, a.count) in
    (fi1, fi2, _, e, r, at, refl, refl, refl, afi_is_missing_at fi2 id _ bound at)

-- What the marks of a recording leave in its index.
pub record IsMarked (fi fi1 fi2 : FileIndex) (id diskid : ℕ) (fh : FileHolder) : Type 0 where
  pub address_during : fi1.addr ≡ fi.addr
  pub address_after : fi2.addr ≡ fi.addr
  pub ends : end_recording fi1 id ≡ ok fi2
  pub entry : get_elem? fi2.files id ≡ some fh
  pub disk : fh.diskid ≡ diskid
  pub on_disk : fh.status.on_disk ≡ true
  pub not_busy : fh.status.busy ≡ false

-- In a valid index with room for the file, both calls succeed.
pub recording-IsMarked :
    (realloc : Option (ℕ → FileHolder)) (fi : FileIndex) (id diskid : ℕ)
    → IsValid fi
    → id < fi.allocated_files
    → (fi1 : FileIndex) × (fi2 : FileIndex) × (fh : FileHolder) × (begin_recording realloc fi id
          diskid
        ≡ ok (fi1, true))
      × IsMarked fi fi1 fi2 id diskid fh
unfolding begin_recording and_action
recording-IsMarked realloc fi id diskid v h =
    let (fi1, e, a) = afi_add_file-in_room realloc fi id diskid _ v h in
    let (fi2, r, n, address, at) =
      end_recording_lem fi1 id _ (lt-of-get_elem? _ id _ a.entry) a.entry in
    (
      fi1,
      fi2,
      _,
      e,
      record {
        address_during = a.address;
        address_after = address ∙ a.address;
        ends = r;
        entry = at;
        disk = refl;
        on_disk = refl;
        not_busy = refl;
      },
    )
