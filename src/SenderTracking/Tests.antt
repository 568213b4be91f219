-- ===== src/SenderTracking/Tests.antt =====
-- A sender of two files, the first of them missing, and what the theorems on skipping say of it.
use vlbi_streamer.Base.{suc, ◌≤◌, ◌<◌, ◌≡◌, refl, ◌⊎◌, [], ◌∷◌, true, false, ok, arith}
use vlbi_streamer.FileIndex.{FileIndex, afi_is_missing, fh_missing}
use vlbi_streamer.FileIndex.Validity.{IsValid}
use vlbi_streamer.FileIndex.Marking.{afi_is_missing_at}
use vlbi_streamer.FileIndex.Tests.{held, two_files}
use vlbi_streamer.SenderTracking.{SenderTracking, skip_loaded, skip_missing, target}
use vlbi_streamer.SenderTracking.Skipping.{skip_missing_lem}

abbrev lost_first : FileIndex
lost_first = record two_files {
  files = record { diskid = 3; status = fh_missing } ∷ held ∷ held ∷ held ∷ [];
}

abbrev tracking : SenderTracking
tracking = record {
  allocated_to_load = 1;
  files_sent = 0;
  files_skipped = 0;
  files_loaded = 0;
  packets_loaded = 0;
  packets_sent = 0;
  files_in_loading = 0;
  n_packets_probed = 20;
  n_files_probed = 2;
  status_probed = record { record_bit = true; send_bit = false };
}

lost_first-IsValid : IsValid lost_first
lost_first-IsValid = record {
  room = refl;
  counted = omega arith;
  nonempty = omega arith;
  small = omega arith;
}

second_found : afi_is_missing lost_first 1 ≡ ok false
second_found = afi_is_missing_at lost_first 1 held (omega arith) refl

skip_missing_lem_example :
    (st' : SenderTracking) × (skip_missing (suc 3) 10 lost_first skip_loaded tracking ≡ ok st')
    × (target skip_loaded tracking ≤ target skip_loaded st')
    × ((target skip_loaded st' ≤ 0) ⊎ (afi_is_missing lost_first 0 ≡ ok true))
    × ((tracking.n_files_probed < target skip_loaded st')
        ⊎ (afi_is_missing lost_first (target skip_loaded st') ≡ ok false))
skip_missing_lem_example =
    skip_missing_lem 3 10 0 lost_first skip_loaded tracking lost_first-IsValid (omega arith)
      (omega arith) (omega arith) (omega arith)
