-- ===== src/FileIndex.antt =====
-- src/active_file_index.c: one `struct file_index` and the calls that work inside it.
pub mod Tests
pub mod Waiting
pub mod Validity
pub mod Doubling
pub mod Growth
pub mod Marking
pub mod Recording
use vlbi_streamer.Base.{
  ℕ, zero, suc, ◌+◌, ◌-◌, ◌*◌, ◌/◌, ◌%◌, ◌^◌, List, [], ◌∷◌, ◌++◌, Option, none, some, Bool, true,
  false, not, ◌&&◌, ◌||◌, ltb, leb, ◌==◌, if◌then◌else◌, length, get_elem?, set, take, tabulate,
  Outcome, ok, faulted, ◌>>=◌, ◌>>◌, check, or_fault, or_diverge,
}
use Prim.Native.String.{String}

-- The three bits of a file's `int status` that the program gives a meaning to.
pub record FhStatus : Type 0 where
  pub on_disk : Bool  -- bit 0
  pub missing : Bool  -- bit 1
  pub busy : Bool  -- bit 2

-- `afi_fh_status`. FH_INMEM is 3, so it has the bits of FH_ONDISK and of FH_MISSING.
abbrev pub fh_none : FhStatus
fh_none = record { on_disk = false; missing = false; busy = false }

abbrev pub fh_ondisk : FhStatus
fh_ondisk = record { on_disk = true; missing = false; busy = false }

abbrev pub fh_missing : FhStatus
fh_missing = record { on_disk = false; missing = true; busy = false }

abbrev pub fh_inmem : FhStatus
fh_inmem = record { on_disk = true; missing = true; busy = false }

abbrev pub fh_busy : FhStatus
fh_busy = record { on_disk = false; missing = false; busy = true }

-- `a | b`
abbrev pub add_flags : FhStatus → FhStatus → FhStatus
add_flags a b = record {
  on_disk = a.on_disk || b.on_disk;
  missing = a.missing || b.missing;
  busy = a.busy || b.busy;
}

-- `a & ~b`
abbrev pub del_flags : FhStatus → FhStatus → FhStatus
del_flags a b = record {
  on_disk = a.on_disk && not b.on_disk;
  missing = a.missing && not b.missing;
  busy = a.busy && not b.busy;
}

-- `afi_file_status`: bit 0 is AFI_RECORD and bit 1 is AFI_SEND.
pub record AfiStatus : Type 0 where
  pub record_bit : Bool
  pub send_bit : Bool

-- A C `int` is its 32-bit pattern, and a `size_t` a number below 2 ^ 64.
abbrev pub minus_one : ℕ
minus_one = 2 ^ 32 - 1

abbrev pub int_of_size : ℕ → ℕ
int_of_size n = n % 2 ^ 32

-- The conversion of an `int` to `size_t` keeps the sign.
abbrev pub size_of_int : ℕ → ℕ
size_of_int w = if ltb w (2 ^ 31) then w else w + 2 ^ 64 - 2 ^ 32

-- `struct fileholder`
pub record FileHolder : Type 0 where
  pub diskid : ℕ
  pub status : FhStatus

-- `struct file_index` without its locks and its `next`; `addr` stands for its address.
-- `files` is the allocated array, so its length is the room that there really is.
pub record FileIndex : Type 0 where
  pub addr : ℕ
  pub status : AfiStatus
  pub filename : String
  pub associations : ℕ
  pub packet_size : ℕ
  pub files : List FileHolder
  pub n_packets : ℕ
  pub n_files : ℕ
  pub allocated_files : ℕ

-- `while (fi->allocated_files < id) fi->allocated_files = fi->allocated_files << 1;`
pub grow : ℕ → ℕ → ℕ → Option ℕ
grow zero alloc id = none
grow (suc fuel) alloc id =
    let rest = grow fuel ((alloc * 2) % 2 ^ 64) id in if ltb alloc id then rest else some alloc

-- A `long unsigned` is doubled 64 times before only zeros are left.
abbrev pub grow_fuel : ℕ
grow_fuel = 65

-- `fi->files[i] = v`
pub store_file : List FileHolder → ℕ → FileHolder → Outcome (List FileHolder)
store_file files i v = if ltb i (length files) then ok (set files i v) else faulted

-- `sizeof(struct fileholder)`: two ints.
abbrev pub fileholder_size : ℕ
fileholder_size = 8

-- How many cells `realloc` gives for `n`: the count of bytes is a `size_t`, which wraps.
abbrev pub cells_of : ℕ → ℕ
cells_of n = n * fileholder_size % 2 ^ 64 / fileholder_size

pub reserve : Option (ℕ → FileHolder) → FileIndex → ℕ → Outcome (FileIndex × Bool)
reserve realloc fi id = do
  n ← or_diverge (grow grow_fuel fi.allocated_files id)
  elim realloc [
    | none ↦ ok (record fi { allocated_files = n }, false)
    | some junk ↦
        let old = length fi.files in
        let cells = cells_of n in
        let files = take cells fi.files ++ tabulate junk old (cells - old) in
        ok (record fi { allocated_files = n; files = files }, true)
  ]

pub store_added : FileIndex → ℕ → ℕ → FhStatus → Outcome (FileIndex × Bool)
store_added fi id diskid status = do
  let n = if ltb id fi.n_files then fi.n_files else (fi.n_files + 1) % 2 ^ 64
  files ← store_file fi.files id (record { diskid = diskid; status = status })
  ok (record fi { n_files = n; files = files }, true)

-- `add_file_mutexfree`, and so `afi_add_file` under the write lock. `realloc` is what the
-- allocator answers: `none` on failure, else what the new cells hold. `false` is the return of -1.
pub afi_add_file :
    Option (ℕ → FileHolder) → FileIndex → ℕ → ℕ → FhStatus → Outcome (FileIndex × Bool)
afi_add_file realloc fi id diskid status =
    if ltb fi.allocated_files id
    then (do
      (fi', done) ← reserve realloc fi id
      if done then store_added fi' id diskid status else ok (fi', false))
    else store_added fi id diskid status

pub data UpdateAction : Type 0 where
  add_to_status del_from_status : UpdateAction

-- `and_action`, without its default case, which only prints.
pub and_action : FileHolder → FhStatus → UpdateAction → FileHolder
and_action fh status add_to_status = record fh { status = add_flags fh.status status }
and_action fh status del_from_status = record fh { status = del_flags fh.status status }

-- `afi_update_fh`
pub afi_update_fh : FileIndex → ℕ → FhStatus → UpdateAction → Outcome FileIndex
unfolding and_action store_file
afi_update_fh fi filenum status action = do
  fh ← or_fault (get_elem? fi.files filenum)
  files ← store_file fi.files filenum (and_action fh status action)
  ok (record fi { files = files })

-- `update_fileholder`
pub update_fileholder : FileIndex → ℕ → FhStatus → UpdateAction → ℕ → Outcome FileIndex
unfolding and_action store_file
update_fileholder fi filenum status action recid = do
  fh ← or_fault (get_elem? fi.files filenum)
  files ← store_file fi.files filenum (record (and_action fh status action) { diskid = recid })
  ok (record fi { files = files })

-- `for (i = 0; i < n; i++)` over the array, with a body that changes `files[i]` alone.
pub for_each_file : (FileHolder → FileHolder) → ℕ → List FileHolder → Outcome (List FileHolder)
for_each_file f zero files = ok files
for_each_file f (suc n) [] = faulted
for_each_file f (suc n) (fh ∷ files) = do rest ← for_each_file f n files; ok (f fh ∷ rest)

pub over_files : (FileHolder → FileHolder) → FileIndex → Outcome FileIndex
unfolding for_each_file
over_files f fi = do files ← for_each_file f fi.n_files fi.files; ok (record fi { files = files })

pub lose_disk : ℕ → FileHolder → FileHolder
lose_disk recid fh =
    if fh.diskid == recid
    then record {
      diskid = minus_one;
      status = add_flags (del_flags fh.status fh_ondisk) fh_missing;
    }
    else fh

-- The loop of `afi_mark_recid_missing`; the look-up by name is in
-- `FileRegistry`.
pub mark_recid_missing : FileIndex → ℕ → Outcome FileIndex
unfolding over_files lose_disk
mark_recid_missing fi recid = over_files (lose_disk recid) fi

pub found_on : ℕ → FileHolder → FileHolder
found_on disk_id fh = record {
  diskid = int_of_size disk_id;
  status = add_flags (del_flags fh.status fh_missing) fh_ondisk;
}

pub afi_single_all_found : FileIndex → ℕ → Outcome FileIndex
unfolding over_files found_on
afi_single_all_found fi disk_id = over_files (found_on disk_id) fi

-- The assertion is `fi->n_files <= file`, as the source has it.
pub afi_set_found : FileIndex → ℕ → ℕ → Outcome FileIndex
unfolding found_on store_file
afi_set_found fi file disk_id = do
  check (leb fi.n_files file)
  fh ← or_fault (get_elem? fi.files file)
  files ← store_file fi.files file (found_on disk_id fh)
  ok (record fi { files = files })

-- The assertion is `fi->n_files <= file` here too.
pub afi_get_disk_id : FileIndex → ℕ → Outcome ℕ
afi_get_disk_id fi file = do
  check (leb fi.n_files file)
  fh ← or_fault (get_elem? fi.files file)
  ok (size_of_int fh.diskid)

pub lost : FileHolder → FileHolder
lost fh = record { diskid = minus_one; status = fh_missing }

pub afi_set_all_missing : FileIndex → Outcome FileIndex
unfolding over_files lost
afi_set_all_missing fi = over_files lost fi

-- The assertion is `file_id <= fi->n_files`.
pub afi_is_missing : FileIndex → ℕ → Outcome Bool
afi_is_missing fi file_id = do
  check (leb file_id fi.n_files)
  fh ← or_fault (get_elem? fi.files file_id)
  ok fh.status.missing

pub afi_add_to_packets : FileIndex → ℕ → FileIndex × ℕ
afi_add_to_packets fi n =
    let total = (fi.n_packets + n) % 2 ^ 64 in (record fi { n_packets = total }, total)

pub afi_get_n_files : FileIndex → ℕ
afi_get_n_files fi = fi.n_files

pub afi_get_n_packets : FileIndex → ℕ
afi_get_n_packets fi = fi.n_packets

pub afi_get_packet_size : FileIndex → ℕ
afi_get_packet_size fi = fi.packet_size

pub afi_get_status : FileIndex → AfiStatus
afi_get_status fi = fi.status

pub afi_get_filename : FileIndex → String
afi_get_filename fi = fi.filename

-- `afi_update_metadata`, for a caller that gives all three pointers.
pub afi_update_metadata : FileIndex → ℕ × ℕ × AfiStatus
afi_update_metadata fi = (fi.n_files, fi.n_packets, fi.status)
