-- ===== src/FileRegistry.antt =====
-- src/active_file_index.c: the global list of file indexes, searched by name. A pointer to an
-- index is the `addr` of the entry; the calls made under `mainlock` are one step each.
mod Tests
pub mod Names
pub mod References
pub mod Releases
pub mod Closing
use Prim.Native.String.{String}
use text.Mathlib.Text.{◌==◌ as str_eq}
use vlbi_streamer.Base.{
  ℕ, ◌+◌, ◌-◌, ◌%◌, ◌^◌, List, [], ◌∷◌, ◌++◌, Option, none, some, Bool, true, false, not, ◌&&◌,
  ◌||◌, ltb, ◌==◌, if◌then◌else◌, tabulate, Outcome, ok, faulted, ◌>>=◌, ◌>>◌, check, or_fault,
}
use vlbi_streamer.FileIndex.{
  FileIndex, FileHolder, AfiStatus, FhStatus, UpdateAction, fh_none, mark_recid_missing,
  afi_update_fh,
}

-- `files`, first to last along `next`.
abbrev pub Files : Type 0
Files = List FileIndex

-- `afi_init`
pub afi_init : Files
afi_init = []

-- `add_to_list_mutex_free`: the new index goes to the end.
pub add_to_list : Files → FileIndex → Files
add_to_list files fi = files ++ fi ∷ []

-- The search of `remove_from_list_mutex_free` behind the first entry. An index that is not found
-- is only reported.
pub unlink : Files → ℕ → Files
unlink [] a = []
unlink (fi ∷ files) a = if fi.addr == a then files else fi ∷ unlink files a

-- `remove_from_list_mutex_free`. On an empty list the source reads `iter->next` through NULL.
pub remove_from_list : Files → ℕ → Outcome Files
unfolding unlink
remove_from_list [] a = faulted
remove_from_list (fi ∷ files) a = if fi.addr == a then ok files else ok (fi ∷ unlink files a)

-- The entry that a pointer leads to.
unfoldable pub deref : Files → ℕ → Option FileIndex
deref [] a = none
deref (fi ∷ files) a = if fi.addr == a then some fi else deref files a

-- A write through a pointer.
pub assign : Files → ℕ → FileIndex → Files
assign [] a fi' = []
assign (fi ∷ files) a fi' = if fi.addr == a then fi' ∷ files else fi ∷ assign files a fi'

-- `close_file_index_mutex_free`; `false` is the return of -1.
pub close_file_index : Files → FileIndex → Outcome (Files × Bool)
unfolding remove_from_list
close_file_index files fi = do
  rest ← remove_from_list files fi.addr
  ok (rest, fi.associations == 0)

-- The loop of `afi_close`, which takes the first entry off the list before it closes it. The
-- number is what is added to `retval` below 0.
pub afi_close : Files → Outcome ℕ
unfolding close_file_index
afi_close [] = ok 0
afi_close (fi ∷ files) =
    let rest = afi_close files in
    do (files', done) ← close_file_index files fi; n ← rest; ok (if done then n else n + 1)

pub find_by_name : Files → String → Option FileIndex
find_by_name [] name = none
find_by_name (fi ∷ files) name =
    if str_eq fi.filename name then some fi else find_by_name files name

-- `fi->associations++` at a `size_t`.
abbrev pub associated : FileIndex → FileIndex
associated fi = record fi { associations = (fi.associations + 1) % 2 ^ 64 }

-- `afi_get`: the list after the call, and the index that it returns.
pub afi_get : Files → String → Bool → Files × Option FileIndex
unfolding assign find_by_name
afi_get files name associate = elim (find_by_name files name) [
  | none ↦ (files, none)
  | some fi ↦
      let fi' = if associate then associated fi else fi in (assign files fi.addr fi', some fi')
]

-- What the allocator answers to one `afi_add`.
pub record Memory : Type 0 where
  pub index_at : Option ℕ  -- `calloc` of the index: an address, or NULL
  pub name_copied : Bool  -- `strdup`
  pub files_given : Bool  -- `calloc` of the file array

abbrev pub initial_size : ℕ
initial_size = 128

abbrev pub zero_file : FileHolder
zero_file = record { diskid = 0; status = fh_none }

abbrev pub allocation : ℕ → ℕ
allocation n_files = if n_files == 0 then initial_size else n_files

pub new_index : ℕ → String → ℕ → AfiStatus → ℕ → FileIndex
new_index a name n_files status packet_size = record {
  addr = a;
  status = status;
  filename = name;
  associations = 1;
  packet_size = packet_size;
  files = tabulate (λ _. zero_file) 0 (allocation n_files);
  n_packets = 0;
  n_files = n_files;
  allocated_files = allocation n_files;
}

-- The path of `afi_add` for a name that the list has; `none` is the refusal of a second recording.
pub rejoin : FileIndex → AfiStatus → Option FileIndex
rejoin fi status =
    if status.record_bit
    then (if fi.status.record_bit
        then none
        else some (associated (record fi { status = record (fi.status) { record_bit = true } })))
    else if status.send_bit
    then some (associated (record fi { status = record (fi.status) { send_bit = true } }))
    else some (associated fi)

-- `afi_add`: the list after the call, and the index that it returns (`none` for NULL).
pub afi_add : Memory → Files → String → ℕ → AfiStatus → ℕ → Files × Option FileIndex
unfolding find_by_name rejoin assign new_index add_to_list
afi_add memory files name n_files status packet_size = elim (find_by_name files name) [
  | some fi ↦ elim (rejoin fi status) [
    | none ↦ (files, none)
    | some fi' ↦ (assign files fi.addr fi', some fi')
  ]
  | none ↦ elim memory.index_at [
    | none ↦ (files, none)
    | some a ↦
        if memory.name_copied && memory.files_given
        then (let fi = new_index a name n_files status packet_size in
            (add_to_list files fi, some fi))
        else (files, none)
  ]
]

-- The part of `afi_disassociate` behind the decrement, when others still hold the index.
pub leave : FileIndex → AfiStatus → Outcome FileIndex
leave fi type =
    if type.record_bit
    then (do
      check fi.status.record_bit
      ok (record fi { status = record (fi.status) { record_bit = false } }))
    else ok fi

-- `afi_disassociate` on a pointer: the list after the call, and whether it returns 0.
pub afi_disassociate : Files → ℕ → AfiStatus → Outcome (Files × Bool)
unfolding deref assign close_file_index leave
afi_disassociate files a type = do
  fi ← or_fault (deref files a)
  check (ltb 0 fi.associations)
  let fi' = record fi { associations = fi.associations - 1 }
  if fi'.associations == 0
      then close_file_index (assign files a fi') fi'
      else (do left ← leave fi' type; ok (assign files a left, true))

-- `afi_mark_recid_missing`; `false` is the return of -1.
pub afi_mark_recid_missing : Files → String → ℕ → Outcome (Files × Bool)
unfolding find_by_name assign
afi_mark_recid_missing files name recid = elim (find_by_name files name) [
  | none ↦ ok (files, false)
  | some fi ↦ do fi' ← mark_recid_missing fi recid; ok (assign files fi.addr fi', true)
]

-- `afi_update_fh_wname`
pub afi_update_fh_wname : Files → String → ℕ → FhStatus → UpdateAction → Outcome (Files × Bool)
unfolding find_by_name assign
afi_update_fh_wname files name filenum status action = elim (find_by_name files name) [
  | none ↦ ok (files, false)
  | some fi ↦ do fi' ← afi_update_fh fi filenum status action; ok (assign files fi.addr fi', true)
]
