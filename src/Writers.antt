-- ===== src/Writers.antt =====
-- src/common_wrt.c: the recording entities, each of which writes the files of one disk. The system
-- calls are a parameter, and `errno` is part of their answer.

pub mod Tests
pub mod Opening
pub mod Filled
pub mod Releasing
pub mod Breaking
use Prim.Native.Nat.{bit_and}
use Prim.Native.String.{String}
use vlbi_streamer.Base.{
  ℕ, suc, ◌+◌, ◌-◌, ◌*◌, ◌%◌, ◌^◌, List, [], ◌∷◌, Option, none, some, Bool, true, false, not, ◌&&◌,
  ◌||◌, ◌==◌, if◌then◌else◌, Outcome, ok, faulted, ◌>>=◌, ◌>>◌, check, or_fault, or_diverge, ltb,
  leb, ℤ, pos, negsuc,
}
use vlbi_streamer.FileIndex.{FileIndex, int_of_size}
use vlbi_streamer.FileRegistry.{Files, afi_mark_recid_missing}
use vlbi_streamer.ResourceTree.{
  Listed, Callbacks, Branch, set_free, remove_from_branch, add_to_entlist, locate, update,
}

-- What `sprintf` makes of ROOTDIRS, the number of a disk and the name of a recording: the path of a
-- single file, and that of a numbered one.
pub data FileName : Type 0 where
  continuous : ℕ → String → FileName
  numbered : ℕ → String → ℕ → FileName

-- RECSTATUS_OK, RECSTATUS_FULL and RECSTATUS_ERROR
pub data RecStatus : Type 0 where
  usable full erroneous : RecStatus

-- `struct recording_entity` with its `struct common_io_info`. `has_opt` tells that `opt` is not NULL,
-- and the two flags that what `get_r_flags` and `get_w_flags` return has O_WRONLY or O_RDWR.
pub record Recorder : Type 0 where
  pub id : ℕ
  pub status : RecStatus
  pub curfilename : Option FileName
  pub fd : ℤ
  pub offset : ℕ
  pub filesize : ℕ
  pub has_opt : Bool
  pub file_seqnum : ℕ
  pub r_flags_write : Bool
  pub w_flags_write : Bool

-- What a recording entity uses of `struct opt_s`; 0 stands for no `singlefile_fd`.
pub record Session : Type 0 where
  pub filename : String
  pub readmode : Bool
  pub write_to_single_file : Bool
  pub singlefile_fd : ℤ
  pub next_fd_id_to_write : ℕ
  pub hd_failures : ℕ
  pub diskids : ℕ
  pub buf_num_elems : ℕ
  pub packet_size : ℕ
  pub element_offset : ℕ
  pub offset_onwrite : ℕ

-- The answers of `stat` (an `errno`, or `none` for success), of `open`, and the size in the answer of
-- the `stat` that asks for it.
pub record Disk : Type 0 where
  pub stat : FileName → Option ℕ
  pub open_file : FileName → Bool → ℤ
  pub size : FileName → Option ℕ

-- The answers in one call of `acquire`: before the directory is made and after it, those of `mkdir` (an
-- `errno`, or `none` for success), and of `stat` on a directory: whether it is one.
pub record Answers : Type 0 where
  pub before : Disk
  pub after : Disk
  pub mkdir : ℕ → String → Option ℕ
  pub directory : ℕ → String → Option Bool

abbrev pub enoent : ℕ
enoent = 2

abbrev pub eacces : ℕ
eacces = 13

abbrev pub eexist : ℕ
eexist = 17

abbrev pub enotdir : ℕ
enotdir = 20

abbrev pub enospc : ℕ
enospc = 28

abbrev pub is_zero : ℤ → Bool
is_zero (pos n) = n == 0
is_zero (negsuc n) = false

-- `err & (ENOTDIR | ENOENT)`; the bits of a negative number are those of its complement, turned.
pub lacks_directory : ℤ → Bool
lacks_directory (pos n) = not (bit_and n 22 == 0)
lacks_directory (negsuc n) = not (bit_and n 22 == 22)

-- The end of `common_open_file` with what `open` returned.
abbrev pub opened : ℤ → ℤ × Option ℤ
opened (pos n) = (pos 0, some (pos n))
opened (negsuc n) = (negsuc n, some (negsuc n))

-- `common_open_file` with the `fallosize` 0, which every caller gives. It returns its result, and
-- what it writes to `*fd`.
pub common_open_file : Disk → Bool → FileName → ℤ × Option ℤ
common_open_file d writes name = elim (d.stat name) [
  | none ↦ opened (d.open_file name false)
  | some e ↦
      if e == enoent
      then (if writes then opened (d.open_file name true) else (pos eacces, none))
      else if e == enotdir
      then (pos enotdir, none)
      else (negsuc 0, none)
]

-- `init_directory`, for a `malloc` that succeeds. For reading the `errno` of `stat` is not looked at.
pub init_directory : Answers → Session → Recorder → ℤ
init_directory a s r =
    if s.readmode
    then elim (a.directory r.id s.filename) [
      | none ↦ negsuc 0
      | some b ↦ if b then pos 0 else negsuc 0
    ]
    else elim (a.mkdir r.id s.filename) [
      | none ↦ pos 0
      | some e ↦ if e == eexist then pos 0 else pos e
    ]

abbrev pub with_fd : Recorder → Option ℤ → Recorder
with_fd r none = r
with_fd r (some fd) = record r { fd = fd }

-- The opening of the file in `common_open_new_file`, with the second try behind `init_directory`.
pub open_or_create : Answers → Session → Recorder → Bool → FileName → ℤ × Recorder
unfolding common_open_file init_directory lacks_directory
open_or_create a s r writes name =
    let (err, fd) = common_open_file a.before writes name in
    let r1 = with_fd r fd in
    if is_zero err
    then (pos 0, r1)
    else if lacks_directory err && not s.readmode
    then (let err' = init_directory a s r1 in
        if is_zero err'
        then (let (err'', fd') = common_open_file a.after writes name in (err'', with_fd r1 fd'))
        else (err', r1))
    else (err, r1)

-- A `size_t` product of an element count and the bytes of an element without its header.
abbrev pub elements_size : ℕ → ℕ → ℕ → ℕ
elements_size n size header = n * (size + (2 ^ 64 - header)) % 2 ^ 64

-- The sizes that are noted behind the opening.
pub note_size : Answers → Session → Recorder → FileName → ℤ × Session × Recorder
note_size a s r name =
    if s.write_to_single_file
    then (
      pos 0,
      record s { singlefile_fd = r.fd },
      record r {
        filesize =
            elements_size s.buf_num_elems s.packet_size
              (if s.readmode then s.offset_onwrite else s.element_offset);
      },
    )
    else if s.readmode
    then elim (a.after.size name) [
      | none ↦ (negsuc 0, s, r)
      | some n ↦ (pos 0, s, record r { filesize = n })
    ]
    else (pos 0, s, r)

pub note_offset : Session → Recorder → Recorder
note_offset s r = record r {
  offset =
      if s.write_to_single_file
      then elements_size s.buf_num_elems s.packet_size s.element_offset * r.file_seqnum % 2 ^ 64
      else 0;
}

abbrev pub file_name : Session → Recorder → ℕ → FileName
file_name s r seqnum =
    if s.write_to_single_file then continuous r.id s.filename else numbered r.id s.filename seqnum

-- What follows the opening in `common_open_new_file`.
pub settle_open : Answers → Session → FileName → ℤ × Recorder → ℤ × Session × Recorder
unfolding note_size note_offset
settle_open a s name (err, r) =
    if is_zero err
    then (let (err', s', r') = note_size a s r name in
        if is_zero err' then (pos 0, s', note_offset s' r') else (err', s', r'))
    else (err, s, r)

abbrev pub addressed : Session → Recorder → ℕ → Recorder
addressed s r seqnum = record r {
  has_opt = true;
  file_seqnum = seqnum;
  curfilename = some (file_name s r seqnum);
}

-- `common_open_new_file`, the `acquire` of a recording entity, for a caller that gives a number.
pub common_open_new_file : Answers → Session → Recorder → ℕ → ℤ × Session × Recorder
unfolding settle_open
common_open_new_file a s r seqnum =
    let name = file_name s r seqnum in
    let writes = if s.readmode then r.r_flags_write else r.w_flags_write in
    if s.write_to_single_file && not (is_zero s.singlefile_fd)
    then (pos 0, s, note_offset s (record (addressed s r seqnum) { fd = s.singlefile_fd }))
    else settle_open a s name (open_or_create a s (addressed s r seqnum) writes name)

-- A read through the pointer `opt`.
abbrev pub not_null : Bool → Outcome (Unit {0})
not_null true = ok tt
not_null false = faulted

-- `common_finish_file`, the `release` of a recording entity. That `close` and `lseek` fail is only
-- reported.
unfoldable pub common_finish_file : Session → Recorder → Outcome (Session × Recorder)
common_finish_file s r = do
  not_null r.has_opt
  let s' =
      if s.write_to_single_file
      then record s { next_fd_id_to_write = (s.next_fd_id_to_write + 1) % 2 ^ 64 }
      else s
  ok (s', record r { curfilename = none; has_opt = false })

-- `check_if_suitable`, the `check` of a recording entity: `true` is the return of 0.
unfoldable pub check_if_suitable : Session → Recorder → Bool
check_if_suitable s r = elim r.status [ usable ↦ true | full ↦ s.readmode | erroneous ↦ false ]

-- `common_identify` for CHECK_BY_SEQ, which asks for the number of a disk.
pub common_identify : ℕ → Recorder → Bool
common_identify n r = r.id == int_of_size n

-- The callbacks by which a branch of recording entities picks one. `acquire` and `release` change
-- the options too, and are called by the two functions below.
abbrev pub picking : Session → Callbacks Recorder
picking s = record { acquire = none; fits = some (check_if_suitable s); release = none }

-- `set_free` on a recording entity: `release`, and then the list or the next waiter.
pub free_recorder : Session → Branch Recorder → ℕ → Outcome (Session × Branch Recorder)
free_recorder s br a = do
  (p, e) ← or_fault (locate br a)
  (s', r') ← common_finish_file s e.entity
  br' ← set_free (picking s) (update br p (record e { entity = r' })) a
  ok (s', br')

abbrev pub is_enospc : ℤ → Bool
is_enospc (pos n) = n == enospc
is_enospc (negsuc n) = false

-- What a broken reader does to the index of its recording.
pub lose_files : Session → Files → Recorder → Outcome Files
lose_files s files r =
    if s.readmode
    then (do (files', found) ← afi_mark_recid_missing files s.filename r.id; ok files')
    else ok files

-- `handle_error` on a recording entity of a branch.
pub handle_error :
    Session
    → Branch Recorder
    → Files
    → Listed Recorder
    → ℤ
    → Outcome (Session × Branch Recorder × Files)
unfolding free_recorder lose_files
handle_error s br files e errornum = do
  not_null e.entity.has_opt
  if is_enospc errornum
      then (do
        (p, e') ← or_fault (locate br e.self)
        let filled = record e' { entity = record (e'.entity) { status = full } }
        (s', br') ← free_recorder s (update br p filled) e.self
        ok (s', br', files))
      else (do
        let s' = record s { hd_failures = (s.hd_failures + 1) % 2 ^ 32 }
        files' ← lose_files s files e.entity
        br' ← remove_from_branch br e.self
        ok (s', br', files'))

-- `common_w_init`, for a `malloc` that returns the address `a`.
pub common_w_init : Session → Branch Recorder → ℕ → Bool → Bool → Session × Branch Recorder
common_w_init s br a r_flags_write w_flags_write =
    let r : Recorder = record {
      id = s.diskids;
      status = usable;
      curfilename = none;
      fd = pos 0;
      offset = 0;
      filesize = 0;
      has_opt = true;
      file_seqnum = 0;
      r_flags_write = r_flags_write;
      w_flags_write = w_flags_write;
    } in
    (
      record s { diskids = (s.diskids + 1) % 2 ^ 32 },
      add_to_entlist br (record { self = a; waiters_head = 0; waiters_bottom = 0; entity = r }),
    )
