-- ===== src/FileIndex/Validity.antt =====
-- The representation invariant of `struct file_index`.
use vlbi_streamer.Base.{◌^◌, ◌≤◌, ◌<◌, ◌≡◌, length}
use vlbi_streamer.FileIndex.{FileIndex}

-- `allocated_files` is the room of the array, and the files counted lie within it.
pub record IsValid (fi : FileIndex) : Type 0 where
  pub room : length fi.files ≡ fi.allocated_files
  pub counted : fi.n_files ≤ fi.allocated_files
  pub nonempty : 0 < fi.allocated_files
  pub small : fi.allocated_files ≤ 2 ^ 63
