-- ===== src/BufferWorker/Failing.antt =====
-- src/simplebuffer.c with src/common_wrt.c: an attempt to record whose recording entity cannot open its
-- file.
use vlbi_streamer.Base.{
  ℕ, ◌≡◌, refl, ◌∙◌, ap, List, [], ◌∷◌, ◌++◌, none, some, true, false, Outcome, ok, ◌==◌, ℤ, negsuc,
  arith,
}
use vlbi_streamer.ResourceTree.{Listed, update, assign}
use vlbi_streamer.ResourceTree.Acquiring.{got, get_free}
use vlbi_streamer.ResourceTree.Placement.{occurs}
use vlbi_streamer.ResourceTree.GetFree.{IsFirst}
use vlbi_streamer.ResourceTree.Picking.{IsIdle, holding}
use vlbi_streamer.ResourceTree.Splits.{occurs-rest, at-self}
use vlbi_streamer.BufferWriter.{Writing, is_none}
use vlbi_streamer.BufferWriter.Async.{Polling}
use vlbi_streamer.Writers.{
  Recorder, Session, is_zero, is_enospc, check_if_suitable, common_open_new_file, picking,
}
use vlbi_streamer.Writers.Breaking.{idle, failed_once, handle_error_broken}
use vlbi_streamer.Writers.Opening.{common_open_new_file-IsUsed}
use vlbi_streamer.BufferWorker.{
  World, Round, Setup, acquire_recorder, close_recer, get_for_recording, get_recorder, write_buffer,
  restore, write_until_done, settle_acquired, start_recording,
}

-- A buffer to be recorded to numbered files, with no recording entity yet; its branch of recording
-- entities is left to its thread.
pub record IsRecording (w : World) : Type 0 where
  pub recording : w.session.readmode ≡ false
  pub numbered : w.session.write_to_single_file ≡ false
  pub pointed : w.has_opt ≡ true
  pub running : w.is_running ≡ true
  pub unserved : w.be.recer ≡ none
  pub from_start : w.be.bufoffset ≡ 0
  pub alone : IsIdle w.disks

-- A round in which no recording entity can open its file, for a reason other than a full disk.
pub record Refuses (fileid : ℕ) (h : Round) : Type 0 where
  pub awake : h.wakes ≡ []
  pub fails :
      (s : Session) (r : Recorder)
      → s.write_to_single_file ≡ false
      → s.readmode ≡ false
      → (is_zero (common_open_new_file h.answers s r fileid).0 ≡ false)
        × (is_enospc (common_open_new_file h.answers s r fileid).0 ≡ false)

abbrev pub without_recer : World → List (Listed Recorder) → World
without_recer w rest = record w {
  session = failed_once w.session;
  disks = idle rest;
  be = record (w.be) { recer = none };
}

close_broken :
    (w : World) (rest : List (Listed Recorder)) (e : Listed Recorder) (errornum : ℤ)
    → w.session.readmode ≡ false
    → w.has_opt ≡ true
    → w.disks ≡ holding rest e
    → w.be.recer ≡ some e
    → occurs e.self rest ≡ 0
    → e.entity.has_opt ≡ true
    → is_enospc errornum ≡ false
    → close_recer w errornum ≡ ok (without_recer w rest)
unfolding close_recer
close_broken w rest e errornum rd p d r free_of has err =
    rw (r, d, handle_error_broken w.session rest w.files e errornum free_of has rd err, p, rd)

settle_failed :
    (start : World → Outcome World) (ret : ℤ) (w w' : World)
    → is_zero ret ≡ false
    → close_recer w ret ≡ ok w'
    → settle_acquired start (ret, w) ≡ ok (negsuc 0, w')
unfolding settle_acquired
settle_failed start ret w w' z c = rw (z, c)

-- The world after an `acquire` that left the options alone.
abbrev pub with_recer : World → List (Listed Recorder) → Listed Recorder → World
with_recer w rest e = record w { disks = holding rest e; be = record (w.be) { recer = some e } }

abbrev pub reopened : Round → World → Listed Recorder → Listed Recorder
reopened h w e = record e {
  entity = (common_open_new_file h.answers w.session e.entity w.fileid).2;
}

pub acquired :
    (h : Round) (w : World) (rest : List (Listed Recorder)) (e : Listed Recorder)
    → w.session.write_to_single_file ≡ false
    → w.session.readmode ≡ false
    → acquire_recorder h (record w { disks = holding rest e }) e ≡ (
      (common_open_new_file h.answers w.session e.entity w.fileid).0,
      with_recer w rest (reopened h w e),
    )
unfolding acquire_recorder update assign
acquired h w rest e single rd =
    let (same, used) =
      common_open_new_file-IsUsed h.answers w.session e.entity w.fileid single rd in
    let hit : (e.self == e.self) ≡ true = ground arith in rw (same, hit)

pub apart :
    (w : World) (e : Listed Recorder)
    → IsIdle w.disks
    → (before after : List (Listed Recorder)) → w.disks.freelist ≡ before ++ e ∷ after
    → occurs e.self (before ++ after) ≡ 0
apart w e i before after split = omega (
  arith,
  occurs-rest e.self before after e,
  at-self e,
  ap (occurs e.self) split,
  i.distinct e.self,
)

module _ (be64toh : ℕ → ℕ) (setup : Setup) where
  get_refused :
      (savedif : ℕ) (w : World) (h : Round) (e : Listed Recorder) (i : IsRecording w)
      (f : IsFirst (some (check_if_suitable w.session)) w.disks.freelist e)
      → get_free (picking w.session) false w.disks [] ≡ got (holding (f.before ++ f.after) e) e none
      → Refuses w.fileid h
      → get_for_recording be64toh setup h w ≡ ok (negsuc 0, without_recer w (f.before ++ f.after))
  unfolding get_for_recording
  get_refused savedif w h e i f g refuses =
      let rest = f.before ++ f.after in
      let (fails, code) = refuses.fails w.session e.entity i.numbered i.recording in
      let (same, used) =
        common_open_new_file-IsUsed h.answers w.session e.entity w.fileid i.numbered i.recording in
      let g' : get_free (picking w.session) false w.disks h.wakes ≡ got (holding rest e) e none =
        ap (get_free (picking w.session) false w.disks) refuses.awake ∙ g in
      let away : occurs e.self rest ≡ 0 =
        omega (arith, apart w e i.alone f.before f.after f.split) in
      let closed =
        close_broken (with_recer w rest (reopened h w e)) rest (reopened h w e)
          (common_open_new_file h.answers w.session e.entity w.fileid).0 i.recording i.pointed refl
          refl away used.pointed code in
      rw (
        g',
        get_for_recording,
        acquired h w rest e i.numbered i.recording,
        settle_failed (λ w'. start_recording be64toh setup h w' e) _ _ _ fails closed,
      )

-- The world at the next attempt.
abbrev pub after_failure : ℕ → World → List (Listed Recorder) → World
after_failure savedif w rest = record w {
  session = failed_once w.session;
  disks = idle rest;
  be = record (w.be) { recer = none; diff = savedif; bufoffset = 0 };
}

module _ (be64toh : ℕ → ℕ) (setup : Setup) (write : Writing Recorder)
    (poll : Polling Recorder) where
  pub get_recorder_numbered :
      (h : Round) (w : World)
      → w.session.write_to_single_file ≡ false
      → w.session.readmode ≡ false
      → get_recorder be64toh setup h w ≡ get_for_recording be64toh setup h w
  unfolding get_recorder
  get_recorder_numbered h w single rd = rw (single, rd)

  pub write_buffer_refused :
      (h : Round) (w w' : World)
      → w.be.recer ≡ none
      → get_recorder be64toh setup h w ≡ ok (negsuc 0, w')
      → write_buffer be64toh setup write poll h w ≡ ok (negsuc 0, w')
  unfolding write_buffer
  write_buffer_refused h w w' un g =
      let none_yet : is_none w.be.recer ≡ true = ap is_none un in rw (none_yet, g)

  pub restore_recording :
      (savedif : ℕ) (w : World)
      → w.has_opt ≡ true
      → w.session.readmode ≡ false
      → restore be64toh setup write poll savedif w
        ≡ ok (record w { be = record (w.be) { diff = savedif; bufoffset = 0 } })
  unfolding restore
  restore_recording savedif w p rd = rw (p, rd)

  -- An attempt whose recording entity is refused is followed by the next, without that entity.
  pub refused_round :
      (savedif : ℕ) (w : World) (h : Round) (hs : List Round) (e : Listed Recorder)
      (i : IsRecording w) (f : IsFirst (some (check_if_suitable w.session)) w.disks.freelist e)
      → get_free (picking w.session) false w.disks [] ≡ got (holding (f.before ++ f.after) e) e none
      → Refuses w.fileid h
      → write_until_done be64toh setup write poll savedif (h ∷ hs) w
        ≡ write_until_done be64toh setup write poll savedif hs
            (after_failure savedif w (f.before ++ f.after))
  unfolding write_until_done
  refused_round savedif w h hs e i f g refuses =
      let w1 = without_recer w (f.before ++ f.after) in
      let failed = write_buffer_refused h w w1 i.unserved (
        get_recorder_numbered h w i.numbered i.recording
        ∙ get_refused be64toh setup savedif w h e i f g refuses) in
      rw (failed, restore_recording savedif w1 i.pointed i.recording, i.running, i.recording)
