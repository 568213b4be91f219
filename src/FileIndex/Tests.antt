-- ===== src/FileIndex/Tests.antt =====
-- A file index with room for four files, and what the theorems on file indexes say of it.
use vlbi_streamer.Base.{
  ℕ, ◌<◌, ◌≡◌, refl, ◌⊎◌, [], ◌∷◌, none, some, true, false, get_elem?, ok, faulted, arith,
}
use vlbi_streamer.FileIndex.{
  FileHolder, FileIndex, afi_add_file, afi_is_missing, fh_busy, fh_ondisk,
}
use vlbi_streamer.FileIndex.Waiting.{afi_wait_on_file}
use vlbi_streamer.FileIndex.Validity.{IsValid}
use vlbi_streamer.FileIndex.Doubling.{Grown}
use vlbi_streamer.FileIndex.Growth.{Stores, afi_add_file-enlarges}
use vlbi_streamer.FileIndex.Recording.{
  begin_recording, end_recording, recorded_reads_missing, wait_let_through,
}

abbrev pub held : FileHolder
held = record { diskid = 3; status = fh_ondisk }

abbrev pub two_files : FileIndex
two_files = record {
  addr = 1;
  status = record { record_bit = true; send_bit = false };
  filename = "a";
  associations = 1;
  packet_size = 100;
  files = held ∷ held ∷ held ∷ held ∷ [];
  n_packets = 0;
  n_files = 2;
  allocated_files = 4;
}

abbrev full : FileIndex
full = record two_files { n_files = 4 }

two_files-IsValid : IsValid two_files
two_files-IsValid = record {
  room = refl;
  counted = omega arith;
  nonempty = omega arith;
  small = omega arith;
}

full-IsValid : IsValid full
full-IsValid = record {
  room = refl;
  counted = omega arith;
  nonempty = omega arith;
  small = omega arith;
}

afi_add_file-enlarges_example :
    (n : ℕ) × Grown two_files.allocated_files 8 n
    × ((n ≡ 8) × (afi_add_file (some (λ j. held)) two_files 8 5 fh_busy ≡ faulted)
        ⊎ (8 < n)
          × Stores
              (afi_add_file (some (λ j. held)) two_files 8 5 fh_busy)
              two_files
              8
              (record { diskid = 5; status = fh_busy }))
afi_add_file-enlarges_example =
    afi_add_file-enlarges (λ j. held) two_files 8 5 fh_busy two_files-IsValid (omega arith)
      (omega arith)

recorded_reads_missing_example :
    (fi1 : FileIndex) × (fi2 : FileIndex) × (fh : FileHolder) × (begin_recording none two_files 2 5
      ≡ ok (fi1, true))
    × (end_recording fi1 2 ≡ ok fi2)
    × (get_elem? fi2.files 2 ≡ some fh)
    × (fh.diskid ≡ 5)
    × (fh.status.on_disk ≡ true)
    × (fh.status.busy ≡ false)
    × (afi_is_missing fi2 2 ≡ ok true)
recorded_reads_missing_example =
    recorded_reads_missing none two_files 2 5 two_files-IsValid (omega arith) (omega arith)

wait_let_through_example :
    (fi' : FileIndex) × (begin_recording none two_files 2 5 ≡ ok (fi', true))
    × (afi_wait_on_file (fi' ∷ []) 2 ≡ ok (some true))
wait_let_through_example = wait_let_through none two_files 2 5 [] two_files-IsValid (omega arith)
