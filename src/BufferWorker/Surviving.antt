-- ===== src/BufferWorker/Surviving.antt =====
-- src/simplebuffer.c: a recording that tries its recording entities one after the other.
use mathlib.Core.Path.{subst, sym}
use vlbi_streamer.Base.{
  ◌<◌, ◌≡◌, refl, ◌∙◌, ap, List, [], ◌∷◌, ◌++◌, true, false, inl, inr, All, All-split, All-append,
  length, ltb, ok, ℕ, arith,
}
use vlbi_streamer.FileIndex.{FileIndex}
use vlbi_streamer.ResourceTree.{Listed, Branch, is_awaited}
use vlbi_streamer.ResourceTree.Picking.{get_free-cases}
use vlbi_streamer.BufferWriter.{Writing}
use vlbi_streamer.BufferWriter.Async.{Polling}
use vlbi_streamer.Writers.{Recorder, Session, check_if_suitable}
use vlbi_streamer.Writers.Breaking.{failed_once}
use vlbi_streamer.Writers.Releasing.{suitable, suitable-rest, suitable-failed_once, suitable-none}
use vlbi_streamer.BufferWorker.{World, Round, Setup, write_until_done}
use vlbi_streamer.BufferWorker.Failing.{IsRecording, Refuses, after_failure, refused_round}
use vlbi_streamer.BufferWorker.Exhausting.{IsRecording-after_failure}
use vlbi_streamer.BufferWorker.Recorded.{Writes, Accepts, IsReady, Recorded, successful_round}

-- Nobody waits for a recording entity, and it is one of the drives.
abbrev pub IsOurs : Setup → Listed Recorder → Type 0
IsOurs setup g = (is_awaited g ≡ false) × (ltb g.entity.id setup.n_drives ≡ true)

Accepts-failed_once :
    (setup : Setup) (fileid bytes : ℕ) (s : Session) (h : Round)
    → Accepts setup fileid bytes s h
    → Accepts setup fileid bytes (failed_once s) h
Accepts-failed_once setup fileid bytes s h a = record {
  awake = a.awake;
  opens = a.opens;
  synchronous = a.synchronous;
  granular = a.granular;
  buffered = a.buffered;
  positive = a.positive;
  enough = a.enough;
  small = a.small;
}

module _ (be64toh : ℕ → ℕ) (setup : Setup) (write : Writing Recorder)
    (poll : Polling Recorder) where
  first_works :
      (savedif : ℕ) (w : World) (h : Round) (later : List Round) (fi : FileIndex)
      (buffers : Branch (Unit {0}))
      → IsRecording w
      → w.be.diff ≡ savedif
      → 0 < suitable w.session w.disks.freelist
      → Writes write
      → Accepts setup w.fileid savedif w.session h
      → IsReady be64toh setup write poll w fi buffers
      → All (IsOurs setup) w.disks.freelist
      → (w' : World) × (write_until_done be64toh setup write poll savedif (h ∷ later) w ≡ ok w')
        × Recorded savedif w w'
  first_works savedif w h later fi buffers i whole some_left wr a ready ours =
      elim (get_free-cases (check_if_suitable w.session) w.disks i.alone) [
        | inl (unfit, g) ↦ absurd (omega (arith, suitable-none w.session w.disks.freelist unfit))
        | inr (e, f, g) ↦
            let mine =
              (All-split (IsOurs setup) f.before (e ∷ f.after)
                (subst (All (IsOurs setup)) f.split ours)).1.0 in
            successful_round be64toh setup write poll savedif w h later e fi buffers i f g whole wr
              (subst (λ d. Accepts setup w.fileid d w.session h) (sym whole) a) ready mine.0 mine.1
      ]

  pub recording_survives :
      (savedif : ℕ) (w : World) (fails : List Round) (h : Round) (later : List Round)
      (fi : FileIndex) (buffers : Branch (Unit {0}))
      → IsRecording w
      → w.be.diff ≡ savedif
      → All (Refuses w.fileid) fails
      → length fails < suitable w.session w.disks.freelist
      → Writes write
      → Accepts setup w.fileid savedif w.session h
      → IsReady be64toh setup write poll w fi buffers
      → All (IsOurs setup) w.disks.freelist
      → (w' : World) × (write_until_done be64toh setup write poll savedif (fails ++ h ∷ later) w
          ≡ ok w')
        × Recorded savedif w w'
  recording_survives savedif w [] h later fi buffers i whole none_fail left wr a ready ours =
      first_works savedif w h later fi buffers i whole (omega arith) wr a ready ours
  recording_survives savedif w (k ∷ fails) h later fi buffers i whole (no_file, all) left wr a ready
        ours =
      elim (get_free-cases (check_if_suitable w.session) w.disks i.alone) [
        | inl (unfit, g) ↦ absurd (omega (arith, suitable-none w.session w.disks.freelist unfit))
        | inr (e, f, g) ↦
            let rest = f.before ++ f.after in
            let w1 = after_failure savedif w rest in
            let split =
              All-split (IsOurs setup) f.before (e ∷ f.after)
                (subst (All (IsOurs setup)) f.split ours) in
            let fewer : length fails < suitable w1.session w1.disks.freelist = omega (
              arith,
              suitable-failed_once w.session rest,
              suitable-rest w.session f.before f.after e f.fit,
              ap (suitable w.session) f.split,
            ) in
            let ready1 : IsReady be64toh setup write poll w1 fi buffers = record {
              at_index = ready.at_index;
              at_address = ready.at_address;
              valid = ready.valid;
              room = ready.room;
              freeing = ready.freeing;
            } in
            let (w', r, done) =
              recording_survives savedif w1 fails h later fi buffers
                (IsRecording-after_failure savedif w f.before f.after e i f.split) refl all fewer wr
                (Accepts-failed_once setup w.fileid savedif w.session h a) ready1
                (All-append (IsOurs setup) f.before f.after split.0 split.1.1) in
            (
              w',
              refused_round be64toh setup write poll savedif w k (fails ++ h ∷ later) e i f g
                    no_file
                  ∙ r,
              record {
                runs = done.runs;
                idle_again = done.idle_again;
                nothing_left = done.nothing_left;
                all_written = done.all_written;
                unserved = done.unserved;
                freed = done.freed;
                none_busy = done.none_busy;
                index = done.index;
                entry = done.entry;
                indexed = done.indexed;
                entered = done.entered;
                on_disk = done.on_disk;
                not_busy = done.not_busy;
              },
            )
      ]
