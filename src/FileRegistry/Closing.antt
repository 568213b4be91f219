-- ===== src/FileRegistry/Closing.antt =====
-- `afi_close`.
use vlbi_streamer.Base.{◌≡◌, refl, [], ◌∷◌, faulted, arith}
use vlbi_streamer.FileIndex.{FileIndex}
use vlbi_streamer.FileRegistry.{Files, afi_close, close_file_index, remove_from_list}

-- afi_close takes each index off the list before it closes it, so that closing the last one
-- searches an empty list for it and reads through NULL: with any index left the call faults.
pub afi_close-faulted : (fi : FileIndex) (files : Files) → afi_close (fi ∷ files) ≡ faulted
unfolding afi_close close_file_index remove_from_list
afi_close-faulted fi [] = refl
afi_close-faulted fi (next ∷ files) = ground (arith, afi_close-faulted next files)
