-- ===== src/Writers/Tests.antt =====
-- A session that records, disks that can and cannot open files, and what they answer.
use vlbi_streamer.Base.{◌≡◌, refl, some, none, true, false, not, ◌&&◌, pos, negsuc, ℕ}
use vlbi_streamer.Writers.{
  Session, Recorder, Disk, Answers, usable, is_zero, is_enospc, common_open_new_file,
  common_open_file, init_directory, lacks_directory, open_or_create, settle_open, note_size,
  note_offset, eexist,
}

abbrev pub session : Session
session = record {
  filename = "a";
  readmode = false;
  write_to_single_file = false;
  singlefile_fd = pos 0;
  next_fd_id_to_write = 0;
  hd_failures = 0;
  diskids = 2;
  buf_num_elems = 4;
  packet_size = 1;
  element_offset = 0;
  offset_onwrite = 0;
}

abbrev pub recorder : ℕ → Recorder
recorder n = record {
  id = n;
  status = usable;
  curfilename = none;
  fd = pos 0;
  offset = 0;
  filesize = 0;
  has_opt = false;
  file_seqnum = 0;
  r_flags_write = false;
  w_flags_write = true;
}

abbrev pub broken_disk : Disk
broken_disk = record {
  stat = λ name. none;
  open_file = λ name create. negsuc 0;
  size = λ name. none;
}

abbrev pub good_disk : Disk
good_disk = record { stat = λ name. none; open_file = λ name create. pos 5; size = λ name. none }

abbrev pub answers_of : Disk → Answers
answers_of d = record {
  before = d;
  after = d;
  mkdir = λ n name. some eexist;
  directory = λ n name. none;
}

pub broken_fails :
    (s : Session) (r : Recorder) (n : ℕ)
    → s.write_to_single_file ≡ false
    → s.readmode ≡ false
    → (is_zero (common_open_new_file (answers_of broken_disk) s r n).0 ≡ false)
      × (is_enospc (common_open_new_file (answers_of broken_disk) s r n).0 ≡ false)
unfolding common_open_new_file open_or_create common_open_file init_directory lacks_directory
    settle_open
broken_fails s r n single rd =
    let no_single : (s.write_to_single_file && not (is_zero s.singlefile_fd)) ≡ false = rw single in
    rw (no_single, rd) (refl, refl)

pub good_opens :
    (s : Session) (r : Recorder) (n : ℕ)
    → s.write_to_single_file ≡ false
    → s.readmode ≡ false
    → is_zero (common_open_new_file (answers_of good_disk) s r n).0 ≡ true
unfolding common_open_new_file open_or_create common_open_file settle_open note_size note_offset
good_opens s r n single rd =
    let no_single : (s.write_to_single_file && not (is_zero s.singlefile_fd)) ≡ false = rw single in
    rw (no_single, single, rd)
