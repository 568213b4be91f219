-- ===== src/BufferWorker/Recorded.antt =====
-- src/simplebuffer.c: an attempt to record that gets a recording entity which works.
use vlbi_streamer.Base.{
  ℕ, ◌^◌, ◌≤◌, ◌<◌, ◌≡◌, refl, ◌∙◌, ap, List, [], ◌∷◌, ◌++◌, none, some, true, false, Bool-cases,
  Option-cases, inl, inr, ok, Ensures, Ensures-bind, ltb, pos, get_elem?, arith,
}
use mathlib.Core.Path.{subst}
use vlbi_streamer.FileIndex.{FileIndex, FileHolder}
use vlbi_streamer.FileIndex.Validity.{IsValid}
use vlbi_streamer.FileIndex.Recording.{begin_recording, end_recording, recording-IsMarked}
use vlbi_streamer.FileRegistry.{deref, assign}
use vlbi_streamer.FileRegistry.Releases.{deref-assign}
use vlbi_streamer.HoleFiller.{Header, check_and_fill}
use vlbi_streamer.ResourceTree.{Listed, Branch, busy, update, set_free, is_awaited}
use vlbi_streamer.ResourceTree.Acquiring.{got, get_free}
use vlbi_streamer.ResourceTree.Placement.{occurs}
use vlbi_streamer.ResourceTree.GetFree.{IsFirst}
use vlbi_streamer.ResourceTree.Picking.{holding}
use vlbi_streamer.BufferWriter.{BufferEntity, Writing, limit, is_none}
use vlbi_streamer.BufferWriter.Async.{Polling}
use vlbi_streamer.BufferWriter.Keeping.{Held, sbuf_sync_loop-keeps}
use vlbi_streamer.BufferWriter.Looping.{Progresses, sbuf_sync_loop_complete}
use vlbi_streamer.Writers.{
  Recorder, Session, is_zero, check_if_suitable, common_open_new_file, picking,
}
use vlbi_streamer.Writers.Breaking.{idle}
use vlbi_streamer.Writers.Opening.{common_open_new_file-IsUsed}
use vlbi_streamer.Writers.Releasing.{finished, free_recorder_held, update_held}
use vlbi_streamer.BufferWorker.{
  World, Round, Setup, no_callbacks, opts_of, through, on_index, start_recording, settle_acquired,
  get_for_recording, write_out, write_buffer, finished_write, finish_request, free_buffer,
  sbuf_release, write_until_done,
}
use vlbi_streamer.BufferWorker.Failing.{
  IsRecording, acquired, with_recer, reopened, apart, get_recorder_numbered,
}

-- A writer that makes progress, and does not touch the options of its recording entity.
pub record Writes (write : Writing Recorder) : Type 0 where
  pub progresses : Progresses write
  pub keeps :
      (r : Recorder) (start count : ℕ)
      → Ensures (λ x. x.1.has_opt ≡ r.has_opt) (write r start count)

-- A round in which every recording entity can open its file, and the options by which it writes.
pub record Accepts (setup : Setup) (fileid bytes : ℕ) (session : Session) (h : Round) : Type 0 where
  pub awake : h.wakes ≡ []
  pub opens :
      (s : Session) (r : Recorder)
      → s.write_to_single_file ≡ false
      → s.readmode ≡ false
      → is_zero (common_open_new_file h.answers s r fileid).0 ≡ true
  pub synchronous : setup.async_write ≡ false
  pub granular : setup.opts.granuality ≡ true
  pub buffered : setup.opts.directio ≡ false
  pub positive : 0 < limit (opts_of session setup.opts)
  pub enough : bytes ≤ h.fuel
  pub small : bytes < 2 ^ 64

-- What stays of a recording entity while it writes.
abbrev pub InUse : Listed Recorder → Listed Recorder → Type 0
InUse e g = (g.self ≡ e.self) × (g.entity.has_opt ≡ true) × (is_awaited g ≡ false)

through-Progresses : (write : Writing Recorder) → Progresses write → Progresses (through write)
unfolding Progresses
through-Progresses write p e start count h =
    let (k, r, done, le) = p e.entity start count h in (k, record e { entity = r }, rw done, le)

through-keeps :
    (write : Writing Recorder) (e g : Listed Recorder) (start count : ℕ)
    → Writes write
    → InUse e g
    → Ensures (λ x. InUse e x.1) (through write g start count)
through-keeps write e g start count wr (self, has, alone) =
    Ensures-bind (λ x. x.1.has_opt ≡ g.entity.has_opt) (λ x. InUse e x.1)
      (write g.entity start count) (λ x. ok (x.0, record g { entity = x.1 }))
      (wr.keeps g.entity start count) (λ x k. (self, k ∙ has, alone))

module _ (be64toh : ℕ → ℕ) (setup : Setup) where
  started :
      (h : Round) (w : World) (e : Listed Recorder) (fi fi1 : FileIndex)
      → deref w.files w.fi ≡ some fi
      → begin_recording h.realloc fi w.fileid e.entity.id ≡ ok (fi1, true)
      → ltb e.entity.id setup.n_drives ≡ true
      → (p : ℕ → Header) × (start_recording be64toh setup h w e
          ≡ ok (record w { files = assign w.files w.fi fi1; packets = p }))
  unfolding start_recording on_index
  started h w e fi fi1 d b lt = elim (Bool-cases setup.datatype_unknown) [
    | inl y ↦ (w.packets, rw (d, b, lt, y))
    | inr n ↦
        elim (Option-cases (check_and_fill be64toh h.memory w.fileid setup.fill_opts w.packets)) [
          | inl z ↦ (w.packets, rw (d, b, lt, n, z))
          | inr (r, z) ↦ (r.0, rw (d, b, lt, n, z))
        ]
  ]

  get_accepted :
      (savedif : ℕ) (w : World) (h : Round) (e : Listed Recorder) (fi fi1 : FileIndex)
      (i : IsRecording w) (f : IsFirst (some (check_if_suitable w.session)) w.disks.freelist e)
      → get_free (picking w.session) false w.disks [] ≡ got (holding (f.before ++ f.after) e) e none
      → Accepts setup w.fileid w.be.diff w.session h
      → deref w.files w.fi ≡ some fi
      → begin_recording h.realloc fi w.fileid e.entity.id ≡ ok (fi1, true)
      → ltb e.entity.id setup.n_drives ≡ true
      → (p : ℕ → Header) × (get_for_recording be64toh setup h w
          ≡ ok (
            pos 0,
            record (with_recer w (f.before ++ f.after) (reopened h w e)) {
              files = assign w.files w.fi fi1;
              packets = p;
            },
          ))
  unfolding get_for_recording settle_acquired
  get_accepted savedif w h e fi fi1 i f g a d b lt =
      let rest = f.before ++ f.after in
      let g' : get_free (picking w.session) false w.disks h.wakes ≡ got (holding rest e) e none =
        ap (get_free (picking w.session) false w.disks) a.awake ∙ g in
      let (p, st) = started h (with_recer w rest (reopened h w e)) e fi fi1 d b lt in
      (
        p,
        rw (
          g',
          get_for_recording,
          acquired h w rest e i.numbered i.recording,
          settle_acquired,
          a.opens w.session e.entity i.numbered i.recording,
          st,
        ),
      )

finish_held :
    (w : World) (be : BufferEntity (Listed Recorder)) (rest : List (Listed Recorder))
    (e g : Listed Recorder)
    → w.disks ≡ holding rest e
    → be.recer ≡ some g
    → w.session.write_to_single_file ≡ false
    → occurs e.self rest ≡ 0
    → InUse e g
    → finished_write w be
      ≡ ok (
        pos 0,
        record w { disks = idle (rest ++ finished g ∷ []); be = record be { recer = none } },
      )
unfolding finished_write
finish_held w be rest e g d held single away (self, has, alone) =
    let away' : occurs g.self rest ≡ 0 = rw self away in
    let updated : update w.disks busy g ≡ holding rest g =
      ap (λ b. update b busy g) d ∙ update_held rest e g self in
    let freed = free_recorder_held w.session rest g single away' has alone in
    rw (held, updated, freed)

-- What is left by a recording that succeeded: all bytes were written, the buffer is free and not ready,
-- the recording entity is free again, and the file is on its disk and not busy.
pub record Recorded (savedif : ℕ) (w w' : World) : Type 0 where
  pub runs : w'.is_running ≡ true
  pub idle_again : w'.be.ready_to_act ≡ false
  pub nothing_left : w'.be.diff ≡ 0
  pub all_written : w'.be.bufoffset ≡ savedif
  pub unserved : w'.be.recer ≡ none
  pub freed : set_free no_callbacks w.buffers w.self ≡ ok w'.buffers
  pub none_busy : w'.disks.busylist ≡ []
  pub index : FileIndex
  pub entry : FileHolder
  pub indexed : deref w'.files w.fi ≡ some index
  pub entered : get_elem? index.files w.fileid ≡ some entry
  pub on_disk : entry.status.on_disk ≡ true
  pub not_busy : entry.status.busy ≡ false

module _ (be64toh : ℕ → ℕ) (setup : Setup) (write : Writing Recorder)
    (poll : Polling Recorder) where
  -- The rest of `write_buffer` with a recording entity that works.
  written_out :
      (savedif : ℕ) (h : Round) (w : World) (rest : List (Listed Recorder)) (e : Listed Recorder)
      → Writes write
      → Accepts setup w.fileid w.be.diff w.session h
      → w.session.write_to_single_file ≡ false
      → w.disks ≡ holding rest e
      → w.be.recer ≡ some e
      → w.be.diff ≡ savedif
      → w.be.bufoffset ≡ 0
      → occurs e.self rest ≡ 0
      → e.entity.has_opt ≡ true
      → is_awaited e ≡ false
      → (be : BufferEntity (Listed Recorder)) × (l : List (Listed Recorder)) × (write_out be64toh
            setup write poll h w
          ≡ ok (pos 0, record w { disks = idle l; be = record be { recer = none } }))
        × (be.diff ≡ 0)
        × (be.bufoffset ≡ savedif)
  unfolding write_out
  written_out savedif h w rest e wr a single d r whole start away has alone =
      let o = opts_of w.session setup.opts in
      let (be, g, done, held, none_left, at) =
        sbuf_sync_loop_complete (through write) o h.fuel w.be e
          (through-Progresses write wr.progresses) r a.granular a.buffered a.positive a.enough
          a.small in
      let mine : Held (InUse e) w.be.recer = rw r (refl, has, alone) in
      let kept =
        sbuf_sync_loop-keeps (InUse e) (through write) o
          (λ q st c u. through-keeps write e q st c wr u) h.fuel w.be mine in
      let at_end : Held (InUse e) be.recer =
        subst (Ensures (λ x. Held (InUse e) x.1.recer)) done kept in
      let used : InUse e g = subst (Held (InUse e)) held at_end in
      (
        be,
        rest ++ finished g ∷ [],
        rw (a.synchronous, done) (finish_held w be rest e g d held single away used),
        none_left,
        omega (arith, at),
      )

  served : World → FileIndex → Branch (Unit {0}) → World
  served w fi buffers =
      let w' = sbuf_release (record w { files = assign w.files w.fi fi }) in
      record w' { buffers = buffers; be = record (w'.be) { ready_to_act = false } }

  finish_recorded :
      (w : World) (fi1 fi2 : FileIndex) (buffers : Branch (Unit {0}))
      → w.session.readmode ≡ false
      → w.has_opt ≡ true
      → deref w.files w.fi ≡ some fi1
      → end_recording fi1 w.fileid ≡ ok fi2
      → set_free no_callbacks w.buffers w.self ≡ ok buffers
      → finish_request be64toh setup write poll w ≡ ok (served w fi2 buffers)
  unfolding finish_request on_index free_buffer served
  finish_recorded w fi1 fi2 buffers rd p d e fr = rw (p, rd, d, e, fr)

  -- What the buffer and its options have to be for a recording.
  pub record IsReady (w : World) (fi : FileIndex) (buffers : Branch (Unit {0})) : Type 0 where
    pub at_index : deref w.files w.fi ≡ some fi
    pub at_address : fi.addr ≡ w.fi
    pub valid : IsValid fi
    pub room : w.fileid < fi.allocated_files
    pub freeing : set_free no_callbacks w.buffers w.self ≡ ok buffers

  pub successful_round :
      (savedif : ℕ) (w : World) (h : Round) (hs : List Round) (e : Listed Recorder) (fi : FileIndex)
      (buffers : Branch (Unit {0})) (i : IsRecording w)
      (f : IsFirst (some (check_if_suitable w.session)) w.disks.freelist e)
      → get_free (picking w.session) false w.disks [] ≡ got (holding (f.before ++ f.after) e) e none
      → w.be.diff ≡ savedif
      → Writes write
      → Accepts setup w.fileid w.be.diff w.session h
      → IsReady w fi buffers
      → is_awaited e ≡ false
      → ltb e.entity.id setup.n_drives ≡ true
      → (w' : World) × (write_until_done be64toh setup write poll savedif (h ∷ hs) w ≡ ok w')
        × Recorded savedif w w'
  unfolding write_until_done write_buffer sbuf_release served
  successful_round savedif w h hs e fi buffers i f g whole wr a ready alone lt =
      let rest = f.before ++ f.after in
      let (fi1, fi2, fh, begun, m) =
        recording-IsMarked h.realloc fi w.fileid e.entity.id ready.valid ready.room in
      let (p, got_one) =
        get_accepted be64toh setup savedif w h e fi fi1 i f g a ready.at_index begun lt in
      let w1 = record (with_recer w rest (reopened h w e)) {
        files = assign w.files w.fi fi1;
        packets = p;
      } in
      let (same, used) =
        common_open_new_file-IsUsed h.answers w.session e.entity w.fileid i.numbered i.recording in
      let (be, l, out, none_left, at) =
        written_out savedif h w1 rest (reopened h w e) wr a i.numbered refl refl whole i.from_start
          (apart w e i.alone f.before f.after f.split) used.pointed alone in
      let w2 = record w1 { disks = idle l; be = record be { recer = none } } in
      let at1 =
        deref-assign w.files w.fi fi fi1 ready.at_index (m.address_during ∙ ready.at_address) in
      let finishes =
        finish_recorded w2 fi1 fi2 buffers i.recording i.pointed at1 m.ends ready.freeing in
      let none_yet : is_none w.be.recer ≡ true = ap is_none i.unserved in
      let gets =
        get_recorder_numbered be64toh setup write poll h w i.numbered i.recording ∙ got_one in
      (
        served w2 fi2 buffers,
        rw (none_yet, gets, out, finishes),
        record {
          runs = i.running;
          idle_again = refl;
          nothing_left = refl;
          all_written = at;
          unserved = refl;
          freed = ready.freeing;
          none_busy = refl;
          index = fi2;
          entry = fh;
          indexed =
              deref-assign (assign w.files w.fi fi1) w.fi fi1 fi2 at1
                (m.address_after ∙ ready.at_address);
          entered = m.entry;
          on_disk = m.on_disk;
          not_busy = m.not_busy;
        },
      )
