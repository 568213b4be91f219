-- ===== src/BufferWorker/Exhausting.antt =====
-- src/simplebuffer.c: a recording for which no recording entity can open its file.
use vlbi_streamer.Base.{
  ℕ, ◌<◌, ◌≡◌, refl, ◌∙◌, ap, List, [], ◌∷◌, ◌++◌, false, inl, inr, All, length, length-rest, none,
  ok, negsuc, arith,
}
use vlbi_streamer.ResourceTree.{Listed, Branch, remove_from_branch}
use vlbi_streamer.ResourceTree.Acquiring.{nothing, get_free}
use vlbi_streamer.ResourceTree.Placement.{occurs}
use vlbi_streamer.ResourceTree.Picking.{get_free-cases}
use vlbi_streamer.ResourceTree.Splits.{occurs-rest}
use vlbi_streamer.BufferWriter.{Writing}
use vlbi_streamer.BufferWriter.Async.{Polling}
use vlbi_streamer.Writers.{Recorder, check_if_suitable, picking}
use vlbi_streamer.BufferWorker.{World, Round, Setup, get_for_recording, write_until_done}
use vlbi_streamer.BufferWorker.Failing.{
  IsRecording, Refuses, after_failure, refused_round, get_recorder_numbered, write_buffer_refused,
  restore_recording,
}

-- The thread has ended: the buffer is out of its branch with its bytes, no recording entity is left that
-- is suitable, and the file indexes are as they were.
pub record Stopped (savedif : ℕ) (w w' : World) : Type 0 where
  pub ended : w'.is_running ≡ false
  pub removed : remove_from_branch w.buffers w.self ≡ ok w'.buffers
  pub files_kept : w'.files ≡ w.files
  pub bytes_kept : w'.be.diff ≡ savedif
  pub unserved : w'.be.recer ≡ none
  pub exhausted : All (λ g. check_if_suitable w'.session g.entity ≡ false) w'.disks.freelist

pub IsRecording-after_failure :
    (savedif : ℕ) (w : World) (before after : List (Listed Recorder)) (e : Listed Recorder)
    → IsRecording w
    → w.disks.freelist ≡ before ++ e ∷ after
    → IsRecording (after_failure savedif w (before ++ after))
IsRecording-after_failure savedif w before after e i split = record {
  recording = i.recording;
  numbered = i.numbered;
  pointed = i.pointed;
  running = i.running;
  unserved = refl;
  from_start = refl;
  alone = record {
    none_busy = refl;
    none_loaded = refl;
    distinct =
        λ a. omega (arith, occurs-rest a before after e, ap (occurs a) split, i.alone.distinct a);
  };
}

module _ (be64toh : ℕ → ℕ) (setup : Setup) (write : Writing Recorder)
    (poll : Polling Recorder) where
  last_round :
      (savedif : ℕ) (w : World) (h : Round) (hs : List Round) (buffers : Branch (Unit {0}))
      → IsRecording w
      → h.wakes ≡ []
      → All (λ g. check_if_suitable w.session g.entity ≡ false) w.disks.freelist
      → get_free (picking w.session) false w.disks [] ≡ nothing
      → remove_from_branch w.buffers w.self ≡ ok buffers
      → (w' : World) × (write_until_done be64toh setup write poll savedif (h ∷ hs) w ≡ ok w')
        × Stopped savedif w w'
  unfolding write_until_done
  last_round savedif w h hs buffers i awake unfit g rem =
      let g' : get_free (picking w.session) false w.disks h.wakes ≡ nothing =
        ap (get_free (picking w.session) false w.disks) awake ∙ g in
      let w1 = record w { is_running = false; buffers = buffers } in
      let none_left : get_for_recording be64toh setup h w ≡ ok (negsuc 0, w1) =
        unfold get_for_recording in rw (g', get_for_recording, rem) in
      let failed =
        write_buffer_refused be64toh setup write poll h w w1 i.unserved
          (get_recorder_numbered be64toh setup write poll h w i.numbered i.recording ∙ none_left) in
      (
        record w1 { be = record (w1.be) { diff = savedif; bufoffset = 0 } },
        rw (failed, restore_recording be64toh setup write poll savedif w1 i.pointed i.recording),
        record {
          ended = refl;
          removed = rem;
          files_kept = refl;
          bytes_kept = refl;
          unserved = i.unserved;
          exhausted = unfit;
        },
      )

  pub write_until_done-Stopped :
      (savedif : ℕ) (w : World) (hs : List Round) (buffers : Branch (Unit {0}))
      → IsRecording w
      → remove_from_branch w.buffers w.self ≡ ok buffers
      → All (Refuses w.fileid) hs
      → length w.disks.freelist < length hs
      → (w' : World) × (write_until_done be64toh setup write poll savedif hs w ≡ ok w')
        × Stopped savedif w w'
  write_until_done-Stopped savedif w [] buffers i rem all enough = absurd (omega arith)
  write_until_done-Stopped savedif w (h ∷ hs) buffers i rem (no_file, all) enough =
      elim (get_free-cases (check_if_suitable w.session) w.disks i.alone) [
        | inl (unfit, g) ↦ last_round savedif w h hs buffers i no_file.awake unfit g rem
        | inr (e, f, g) ↦
            let w1 = after_failure savedif w (f.before ++ f.after) in
            let (w', r, st) =
              write_until_done-Stopped savedif w1 hs buffers
                (IsRecording-after_failure savedif w f.before f.after e i f.split) rem all
                (omega (arith, length-rest f.before f.after e, ap length f.split)) in
            (
              w',
              refused_round be64toh setup write poll savedif w h hs e i f g no_file ∙ r,
              record {
                ended = st.ended;
                removed = st.removed;
                files_kept = st.files_kept;
                bytes_kept = st.bytes_kept;
                unserved = st.unserved;
                exhausted = st.exhausted;
              },
            )
      ]
