-- ===== src/SenderTracking.antt =====
-- src/common_filehandling.c: which files a sender has loaded and sent.
mod Tests
pub mod Skipping
use vlbi_streamer.Base.{
  ℕ, zero, suc, ◌+◌, ◌-◌, ◌*◌, ◌%◌, ◌^◌, List, [], ◌∷◌, Option, none, some, Bool, true, false, not,
  ◌&&◌, ◌||◌, ltb, ◌==◌, if◌then◌else◌, Outcome, ok, diverged, ◌>>=◌,
}
use vlbi_streamer.FileIndex.{
  FileIndex, AfiStatus, afi_is_missing, afi_update_metadata, afi_get_n_files,
}
use vlbi_streamer.FileIndex.Waiting.{Loading, load, skip, failed, afi_start_loading}

-- `struct sender_tracking`, without its times and its packet counters.
pub record SenderTracking : Type 0 where
  pub allocated_to_load : ℕ
  pub files_sent : ℕ
  pub files_skipped : ℕ
  pub files_loaded : ℕ
  pub packets_loaded : ℕ
  pub packets_sent : ℕ
  pub files_in_loading : ℕ
  pub n_packets_probed : ℕ
  pub n_files_probed : ℕ
  pub status_probed : AfiStatus

-- SKIP_LOADED and SKIP_SENT
pub data Lors : Type 0 where
  skip_loaded skip_sent : Lors

-- `*target`
abbrev pub target : Lors → SenderTracking → ℕ
target skip_loaded st = st.files_loaded
target skip_sent st = st.files_sent

abbrev pub min : ℕ → ℕ → ℕ
min x y = if ltb x y then x else y

-- What is missing of `b` to `a`, of unsigned 64-bit numbers.
abbrev pub remaining : ℕ → ℕ → ℕ
remaining a b = (a + (2 ^ 64 - b)) % 2 ^ 64

-- The body of the loop. The source takes the number of files for that of packets here.
pub skip_one : ℕ → FileIndex → Lors → SenderTracking → SenderTracking
skip_one buf_num_elems fi skip_loaded st =
    let nuf = min (remaining (afi_get_n_files fi) st.packets_loaded) buf_num_elems in
    record st {
      files_loaded = st.files_loaded + 1;
      packets_loaded = (st.packets_loaded + nuf) % 2 ^ 64;
    }
skip_one buf_num_elems fi skip_sent st =
    let nuf = min (remaining (afi_get_n_files fi) st.packets_loaded) buf_num_elems in
    record st {
      files_skipped = st.files_skipped + 1;
      files_sent = st.files_sent + 1;
      packets_sent = (st.packets_sent + nuf) % 2 ^ 64;
    }

-- `skip_missing`, on fuel.
pub skip_missing : ℕ → ℕ → FileIndex → Lors → SenderTracking → Outcome SenderTracking
unfolding skip_one
skip_missing zero buf_num_elems fi lors st = diverged
skip_missing (suc fuel) buf_num_elems fi lors st =
    let rest = skip_missing fuel buf_num_elems fi lors (skip_one buf_num_elems fi lors st) in
    if ltb st.n_files_probed (target lors st)
    then ok st
    else (do missing ← afi_is_missing fi (target lors st); if missing then rest else ok st)

-- What `start_loading` comes to: a request for a number of packets, DONTRYLOADNOMORE, an error, or
-- a wait that goes on.
pub data Started : Type 0 where
  requested : ℕ → Started
  dont_try_load_no_more error waiting : Started

abbrev pub probed : FileIndex → SenderTracking → SenderTracking
probed fi st = record st {
  n_files_probed = fi.n_files;
  n_packets_probed = fi.n_packets;
  status_probed = fi.status;
}

-- `init_sender_tracking`
pub init_sender_tracking : FileIndex → SenderTracking
init_sender_tracking fi = record {
  allocated_to_load = 0;
  files_sent = 0;
  files_skipped = 0;
  files_loaded = 0;
  packets_loaded = 0;
  packets_sent = 0;
  files_in_loading = 0;
  n_packets_probed = fi.n_packets;
  n_files_probed = fi.n_files;
  status_probed = fi.status;
}

-- The part of `start_loading` behind `afi_start_loading`. `has_be` tells whether the caller has a
-- buffer, and `is_free` whether the branch has a free one; the caller has `allocated_to_load > 0`.
pub request : ℕ → Bool → Bool → FileIndex → SenderTracking → SenderTracking × Started
request buf_num_elems has_be is_free fi st =
    let st1 = probed fi st in
    let nuf = min (remaining st1.n_packets_probed st1.packets_loaded) buf_num_elems in
    if nuf == 0 || (not has_be && not is_free && not (st1.files_in_loading == 0))
    then (st1, dont_try_load_no_more)
    else (
      record st1 {
        allocated_to_load = if has_be then st1.allocated_to_load else st1.allocated_to_load - 1;
        files_in_loading = st1.files_in_loading + 1;
        packets_loaded = (st1.packets_loaded + nuf) % 2 ^ 64;
        files_loaded = st1.files_loaded + 1;
      },
      requested nuf,
    )

-- `start_loading`; `later` are the states of the index that its wait sees, and the metadata is
-- that of the first state.
pub start_loading :
    ℕ
    → ℕ
    → Bool
    → Bool
    → FileIndex
    → List FileIndex
    → SenderTracking
    → Outcome (SenderTracking × Started)
unfolding skip_missing request
start_loading fuel buf_num_elems has_be is_free fi later st = do
  st1 ← skip_missing fuel buf_num_elems fi skip_loaded st
  if st1.files_loaded == st1.n_files_probed then ok (st1, dont_try_load_no_more) else (do
    answer ← afi_start_loading fi later st1.files_loaded (ltb 0 st1.files_in_loading)
    ok (elim answer [
      | none ↦ (st1, waiting)
      | some load ↦ request buf_num_elems has_be is_free fi st1
      | some skip ↦ (st1, dont_try_load_no_more)
      | some failed ↦ (st1, error)
    ]))

-- `should_i_be_running`, with STATUS_RUNNING of `opt`.
pub should_i_be_running : Bool → SenderTracking → Bool
should_i_be_running running st =
    running && (ltb st.packets_sent st.n_packets_probed || not (st.files_sent == st.n_files_probed))
