-- ===== src/BufferWorker/Serving.antt =====
-- src/simplebuffer.c: a whole request to record, from the wake-up on.
use vlbi_streamer.Base.{
  ℕ, ◌+◌, ◌-◌, ◌%◌, ◌^◌, ◌≤◌, ◌<◌, ◌≡◌, refl, ◌∙◌, ap, List, ◌∷◌, ◌++◌, All, true, false, length,
  leb, ◌==◌, ok, arith,
}
use vlbi_streamer.FileIndex.{FileIndex, int_of_size, size_of_int}
use vlbi_streamer.ResourceTree.{Branch, remove_from_branch}
use vlbi_streamer.BufferWriter.{Writing}
use vlbi_streamer.BufferWriter.Async.{Polling}
use vlbi_streamer.Writers.{Recorder}
use vlbi_streamer.Writers.Releasing.{suitable}
use vlbi_streamer.BufferWorker.{World, Round, Setup, serve_request, write_until_done}
use vlbi_streamer.BufferWorker.Failing.{IsRecording, Refuses}
use vlbi_streamer.BufferWorker.Exhausting.{Stopped, write_until_done-Stopped}
use vlbi_streamer.BufferWorker.Recorded.{Writes, Accepts, IsReady, Recorded}
use vlbi_streamer.BufferWorker.Surviving.{IsOurs, recording_survives}

small_count : (n : ℕ) → n < 2 ^ 31 → size_of_int (int_of_size n) ≡ n
small_count n h = ground arith

large_count :
    (n : ℕ) → 2 ^ 31 ≤ n → n < 2 ^ 32 → size_of_int (int_of_size n) ≡ n + (2 ^ 64 - 2 ^ 32)
large_count n h h' = ground arith

module _ (be64toh : ℕ → ℕ) (setup : Setup) (write : Writing Recorder)
    (poll : Polling Recorder) where
  begun :
      (w : World) (hs : List Round)
      → 0 < w.be.diff
      → w.be.diff ≤ setup.bufsize_without_offset
      → w.be.diff < 2 ^ 32
      → serve_request be64toh setup write poll hs w
        ≡ write_until_done be64toh setup write poll (size_of_int (int_of_size w.be.diff)) hs w
  unfolding serve_request
  begun w hs some_bytes fits small =
      let left : (w.be.diff == 0) ≡ false = ground arith in
      let asserted : leb (w.be.diff % 2 ^ 32) setup.bufsize_without_offset ≡ true = ground arith in
      rw (left, asserted)

  -- A request to record is served as soon as one recording entity works: after any number of
  -- attempts whose recording entity cannot open its file, fewer than there are suitable ones, and
  -- an attempt with one that can, serve_request returns with all bytes written from the start of
  -- the buffer on, the buffer free and not ready, no recording entity busy, and the file in its
  -- index on disk and not busy. The buffer has between 1 and 2^31 - 1 bytes and fits its memory,
  -- the recording goes to numbered files, synchronously and with write granuality and no direct
  -- I/O, the writes move something each and are given enough rounds, the branch of the recording
  -- entities is left to this thread with nobody waiting for them and numbers below n_drives, no
  -- refusal is that of a full disk, and the valid index has room for the file.
  pub serve_request-Recorded :
      (w : World) (fails : List Round) (h : Round) (later : List Round) (fi : FileIndex)
      (buffers : Branch (Unit {0}))
      → IsRecording w
      → 0 < w.be.diff
      → w.be.diff ≤ setup.bufsize_without_offset
      → w.be.diff < 2 ^ 31
      → All (Refuses w.fileid) fails
      → length fails < suitable w.session w.disks.freelist
      → Writes write
      → Accepts setup w.fileid w.be.diff w.session h
      → IsReady be64toh setup write poll w fi buffers
      → All (IsOurs setup) w.disks.freelist
      → (w' : World) × (serve_request be64toh setup write poll (fails ++ h ∷ later) w ≡ ok w')
        × Recorded w.be.diff w w'
  serve_request-Recorded w fails h later fi buffers i some_bytes fits small all left wr a ready
        ours =
      let (w', r, done) =
        recording_survives be64toh setup write poll w.be.diff w fails h later fi buffers i refl all
          left wr a ready ours in
      (
        w',
        begun w (fails ++ h ∷ later) some_bytes fits (omega arith)
            ∙ ap (λ n. write_until_done be64toh setup write poll n (fails ++ h ∷ later) w)
                (small_count w.be.diff small)
            ∙ r,
        done,
      )

  stopped :
      (w : World) (hs : List Round) (buffers : Branch (Unit {0}))
      → IsRecording w
      → 0 < w.be.diff
      → w.be.diff ≤ setup.bufsize_without_offset
      → w.be.diff < 2 ^ 32
      → remove_from_branch w.buffers w.self ≡ ok buffers
      → All (Refuses w.fileid) hs
      → length w.disks.freelist < length hs
      → (w' : World) × (serve_request be64toh setup write poll hs w ≡ ok w')
        × Stopped (size_of_int (int_of_size w.be.diff)) w w'
  stopped w hs buffers i some_bytes fits small rem all enough =
      let (w', r, st) =
        write_until_done-Stopped be64toh setup write poll (size_of_int (int_of_size w.be.diff)) w hs
          buffers i rem all enough in
      (w', begun w hs some_bytes fits small ∙ r, st)

  -- A request to record for which no recording entity can open its file ends all the same, after at
  -- most one attempt more than there are recording entities: the buffer is removed from its branch,
  -- the thread ends, the buffer has all its bytes, no suitable recording entity is left, and no
  -- file index has changed. The buffer has between 1 and 2^31 - 1 bytes and fits its memory, the
  -- recording goes to numbered files, the branch of the recording entities is left to this thread,
  -- and no refusal is that of a full disk.
  pub serve_request-Stopped :
      (w : World) (hs : List Round) (buffers : Branch (Unit {0}))
      → IsRecording w
      → 0 < w.be.diff
      → w.be.diff ≤ setup.bufsize_without_offset
      → w.be.diff < 2 ^ 31
      → remove_from_branch w.buffers w.self ≡ ok buffers
      → All (Refuses w.fileid) hs
      → length w.disks.freelist < length hs
      → (w' : World) × (serve_request be64toh setup write poll hs w ≡ ok w')
        × Stopped w.be.diff w w'
  serve_request-Stopped w hs buffers i some_bytes fits small rem all enough =
      let (w', r, st) = stopped w hs buffers i some_bytes fits (omega arith) rem all enough in
      (
        w',
        r,
        record {
          ended = st.ended;
          removed = st.removed;
          files_kept = st.files_kept;
          bytes_kept = st.bytes_kept ∙ small_count w.be.diff small;
          unserved = st.unserved;
          exhausted = st.exhausted;
        },
      )

  -- When every attempt to record a buffer of 2^31 to 2^32 - 1 bytes is refused, serve_request
  -- returns with 2^64 - 2^32 bytes more to write than the buffer has, since the count goes through
  -- an int. The conditions are those of serve_request-Stopped, for these sizes.
  pub large_buffer_miscounted :
      (w : World) (hs : List Round) (buffers : Branch (Unit {0}))
      → IsRecording w
      → 2 ^ 31 ≤ w.be.diff
      → w.be.diff ≤ setup.bufsize_without_offset
      → w.be.diff < 2 ^ 32
      → remove_from_branch w.buffers w.self ≡ ok buffers
      → All (Refuses w.fileid) hs
      → length w.disks.freelist < length hs
      → (w' : World) × (serve_request be64toh setup write poll hs w ≡ ok w')
        × (w'.be.diff ≡ w.be.diff + (2 ^ 64 - 2 ^ 32))
  large_buffer_miscounted w hs buffers i large fits small rem all enough =
      let (w', r, st) = stopped w hs buffers i (omega arith) fits small rem all enough in
      (w', r, st.bytes_kept ∙ large_count w.be.diff large small)
