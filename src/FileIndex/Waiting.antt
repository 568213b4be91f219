-- ===== src/FileIndex/Waiting.antt =====
-- The waits of active_file_index.c. A waiter drops the lock and takes it again, so it sees the
-- index in a sequence of states; that sequence is an argument, and `none` says that the caller
-- still waits after the last of them.
use vlbi_streamer.Base.{
  ℕ, ◌<◌, ◌≡◌, refl, List, [], ◌∷◌, Option, none, some, Bool, true, false, not, ◌&&◌, ◌||◌, ◌++◌,
  All, leb, if◌then◌else◌, get_elem?, Outcome, ok, aborted, ◌>>=◌, ◌>>◌, check, or_fault, arith,
}
use vlbi_streamer.FileIndex.{FileIndex, FileHolder}

-- `afi_wait_on_file`: `some true` is the return of 0, `some false` that of -1. What
-- `mutex_free_afi_wait_on_update` returns is not looked at.
pub afi_wait_on_file : List FileIndex → ℕ → Outcome (Option Bool)
afi_wait_on_file [] fileid = ok none
afi_wait_on_file (fi ∷ later) fileid =
    let rest = afi_wait_on_file later fileid in
    do
      fh ← or_fault (get_elem? fi.files fileid)
      if fh.status.on_disk
          then ok (some true)
          else if fh.status.missing
          then ok (some false)
          else rest

-- `mutex_free_afi_wait_on_update`, with the answer of `pthread_cond_wait`.
pub afi_wait_on_update : Bool → FileIndex → Bool
afi_wait_on_update woken fi = if fi.status.record_bit then woken else false

-- What `afi_start_loading` returns: 0, 1 and -1.
pub data Loading : Type 0 where
  load skip failed : Loading

-- The inner `while`. The source keeps the pointer `fh` across the waits; it is read here as
-- `files[file_id]` of the state at hand, which is the same while the array is not moved.
pub wait_while_busy : FileIndex → List FileIndex → ℕ → Outcome (Option Loading)
wait_while_busy fi [] file_id = do
  fh ← or_fault (get_elem? fi.files file_id)
  if fh.status.busy && not fh.status.on_disk
      then (if fi.status.record_bit then ok none else ok (some failed))
      else ok (some load)
wait_while_busy fi (next ∷ later) file_id =
    let rest = wait_while_busy next later file_id in
    do
      fh ← or_fault (get_elem? fi.files file_id)
      if fh.status.busy && not fh.status.on_disk
          then (if fi.status.record_bit then rest else ok (some failed))
          else ok (some load)

-- The condition variable is taken to wake the caller without an error.
pub afi_start_loading : FileIndex → List FileIndex → ℕ → Bool → Outcome (Option Loading)
unfolding wait_while_busy
afi_start_loading fi later file_id in_loading = do
  check (leb fi.n_files file_id)
  fh ← or_fault (get_elem? fi.files file_id)
  if fh.status.on_disk
      then ok (some load)
      else if fh.status.busy && not in_loading
      then wait_while_busy fi later file_id
      else ok (some skip)

-- A waiter whose file is on disk in the first state that it sees does not wait.
pub afi_wait_on_file_at :
    (fi : FileIndex) (later : List FileIndex) (id : ℕ) (fh : FileHolder)
    → get_elem? fi.files id ≡ some fh
    → fh.status.on_disk ≡ true
    → afi_wait_on_file (fi ∷ later) id ≡ ok (some true)
unfolding afi_wait_on_file
afi_wait_on_file_at fi later id fh e h = ground arith

-- The states in which a waiter goes on waiting.
abbrev pub StillBusy : ℕ → FileIndex → Type 0
StillBusy id fi =
    (fh : FileHolder) × (get_elem? fi.files id ≡ some fh)
    × (fh.status.on_disk ≡ false)
    × (fh.status.missing ≡ false)

-- A waiter wakes in the first state in which its file is on disk or missing, and returns 0 exactly
-- if it is on disk there; through the states before, in which it is neither, it waits.
pub afi_wait_on_file_lem :
    (before later : List FileIndex) (fi : FileIndex) (id : ℕ) (fh : FileHolder)
    → All (StillBusy id) before
    → get_elem? fi.files id ≡ some fh
    → fh.status.on_disk || fh.status.missing ≡ true
    → (afi_wait_on_file before id ≡ ok none)
      × (afi_wait_on_file (before ++ fi ∷ later) id ≡ ok (some fh.status.on_disk))
unfolding afi_wait_on_file
afi_wait_on_file_lem [] later fi id fh b e h = (refl, ground arith)
afi_wait_on_file_lem (first ∷ before) later fi id fh ((fh', e', d, m), b) e h =
    let (none_yet, then_done) = afi_wait_on_file_lem before later fi id fh b e h in
    (ground (arith, none_yet), ground (arith, then_done))

pub afi_start_loading_aborts :
    (fi : FileIndex) (later : List FileIndex) (file_id : ℕ) (in_loading : Bool)
    → file_id < fi.n_files
    → afi_start_loading fi later file_id in_loading ≡ aborted
unfolding afi_start_loading
afi_start_loading_aborts fi later file_id in_loading h = ground arith
