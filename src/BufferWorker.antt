-- ===== src/BufferWorker.antt =====
-- src/simplebuffer.c: the thread of a buffer. It waits until the buffer is made ready, gets a
-- recording entity and writes the buffer, or reads it, until that succeeds.
mod Tests
pub mod Failing
pub mod Turns
pub mod Serving
pub mod Surviving
pub mod Recorded
pub mod Handshake
pub mod Locking
pub mod Exhausting
use vlbi_streamer.Base.{
  ℕ, zero, suc, ◌+◌, ◌-◌, ◌*◌, ◌%◌, ◌^◌, List, [], ◌∷◌, Option, none, some, Bool, true, false, not,
  ◌&&◌, ◌||◌, ◌==◌, if◌then◌else◌, Outcome, ok, aborted, faulted, diverged, ◌>>=◌, ◌>>◌, check,
  or_fault, ltb, leb, ℤ, pos, negsuc,
}
use vlbi_streamer.FileIndex.{
  FileIndex, FileHolder, fh_inmem, add_to_status, int_of_size, size_of_int, afi_update_fh,
  afi_get_disk_id,
}
use vlbi_streamer.FileIndex.Recording.{begin_recording, end_recording}
use vlbi_streamer.FileIndex.Waiting.{afi_wait_on_file}
use vlbi_streamer.FileRegistry.{Files, deref, assign}
use vlbi_streamer.HoleFiller.{Header, check_and_fill}
use vlbi_streamer.HoleFiller
use vlbi_streamer.ResourceTree.{
  Listed, Callbacks, Branch, busy, update, locate, set_free, set_loaded, remove_from_branch,
}
use vlbi_streamer.ResourceTree.Acquiring.{
  Got, nothing, got, asleep, get_free, Entry, absent, taken, queued, get_specific,
}
use vlbi_streamer.BufferWriter.Async.{Polling, sbuf_async_loop}
use vlbi_streamer.BufferWriter.{Opts, BufferEntity, Writing, sbuf_sync_loop, is_none}
use vlbi_streamer.Writers.{
  Recorder, Session, Answers, common_open_new_file, common_identify, picking, free_recorder,
  handle_error, not_null, is_zero,
}

-- What the thread uses of `struct opt_s`, next to what its recording entities use.
pub record Setup : Type 0 where
  pub opts : Opts
  pub fill_opts : HoleFiller.Opts
  pub datatype_unknown : Bool
  pub n_drives : ℕ
  pub bufsize_without_offset : ℕ
  pub async_write : Bool

-- The options with the two branches and the file indexes, and the buffer: `self` is its address in the
-- branch of the buffers, `fi` that of its file index, `be` its `struct buffer_entity` and
-- `struct simplebuf`, `has_opt` tells that `sbuf->opt` is not NULL, and `packets` are its bytes.
pub record World : Type 0 where
  pub session : Session
  pub disks : Branch Recorder
  pub buffers : Branch (Unit {0})
  pub files : Files
  pub self : ℕ
  pub fi : ℕ
  pub fileid : ℕ
  pub is_running : Bool
  pub has_opt : Bool
  pub be : BufferEntity (Listed Recorder)
  pub packets : ℕ → Header

-- What one attempt meets: the values of `next_fd_id_to_write` that it sees while it waits for its
-- turn, the states of the branch and of the file index at its wake-ups, the answers of the system and
-- of the allocator, and the memory of a header. `granted` is what it finds when its ticket for a certain
-- recording entity comes up, and `fuel` bounds the writes.
pub record Round : Type 0 where
  pub turns : List ℕ
  pub wakes : List (Bool × Branch Recorder)
  pub indexes : List FileIndex
  pub answers : Answers
  pub realloc : Option (ℕ → FileHolder)
  pub memory : Option Header
  pub granted : Option (Branch Recorder × Listed Recorder)
  pub fuel : ℕ

abbrev pub no_callbacks : Callbacks (Unit {0})
no_callbacks = record { acquire = none; fits = none; release = none }

-- `sbuf_release`, without the rx-ring.
pub sbuf_release : World → World
sbuf_release w = record w { has_opt = false; be = record (w.be) { diff = 0 } }

-- `set_free` on the buffer, through `sbuf->opt->membranch`.
pub free_buffer : World → Outcome World
free_buffer w = do
  not_null w.has_opt
  buffers ← set_free no_callbacks w.buffers w.self
  ok (record (sbuf_release w) { buffers = buffers })

-- `sbuf_acquire`, without the rx-ring.
pub sbuf_acquire : World → ℕ → ℕ → World
sbuf_acquire w fi fileid = record w {
  has_opt = true;
  fi = fi;
  fileid = fileid;
  be = record (w.be) { diff = 0; bufoffset = 0 };
}

-- `close_recer`
pub close_recer : World → ℤ → Outcome World
close_recer w errornum = do
  e ← or_fault w.be.recer
  (s, disks, files) ← handle_error w.session w.disks w.files e errornum
  let w1 = record w { session = s; disks = disks; files = files }
  not_null w1.has_opt
  w2 ←
      if s.readmode
      then (do w' ← free_buffer w1; ok (record w' { be = record (w'.be) { ready_to_act = false } }))
      else ok w1
  ok (record w2 { be = record (w2.be) { recer = none } })

-- A call on the file index that `sbuf->fi` leads to.
pub on_index : World → (FileIndex → Outcome FileIndex) → Outcome World
on_index w f = do
  fi ← or_fault (deref w.files w.fi)
  fi' ← f fi
  ok (record w { files = assign w.files w.fi fi' })

-- The wait for the turn of a file, `while (next_fd_id_to_write < fileid)`. A wait that outlasts the
-- values does not end.
unfoldable pub wait_for_turn : ℕ → ℕ → List ℕ → Outcome ℕ
wait_for_turn fileid next [] = if ltb next fileid then diverged else ok next
wait_for_turn fileid next (n ∷ later) =
    let rest = wait_for_turn fileid n later in if ltb next fileid then rest else ok next

-- `acquire` on a recording entity that is busy.
pub acquire_recorder : Round → World → Listed Recorder → ℤ × World
acquire_recorder h w e =
    let (ret, s, r) = common_open_new_file h.answers w.session e.entity w.fileid in
    let e' = record e { entity = r } in
    (
      ret,
      record w {
        session = s;
        disks = update w.disks busy e';
        be = record (w.be) { recer = some e' };
      },
    )

-- The end of the getting of a recording entity: what follows when its `acquire` returned 0.
pub settle_acquired : (World → Outcome World) → ℤ × World → Outcome (ℤ × World)
settle_acquired start (ret, w) =
    if is_zero ret
    then (do w' ← start w; ok (pos 0, w'))
    else (do w' ← close_recer w ret; ok (negsuc 0, w'))

-- A reader takes the size of its file.
pub start_reading : World → Outcome World
start_reading w = do
  e ← or_fault w.be.recer
  ok (
      if w.session.write_to_single_file
      then w
      else record w { be = record (w.be) { diff = e.entity.filesize } })

-- A reading gets the recording entity of the disk that has the file. `negsuc 0` is the return of -1.
pub get_for_reading : Round → World → Outcome (ℤ × World)
get_for_reading h w = do
  waited ← afi_wait_on_file h.indexes w.fileid
  elim waited [
    | none ↦ diverged
    | some false ↦ ok (negsuc 0, w)
    | some true ↦ do
      fi ← or_fault (deref w.files w.fi)
      disk_id ← afi_get_disk_id fi w.fileid
      elim (get_specific (common_identify disk_id) w.disks) [
        | absent ↦ ok (negsuc 0, w)
        | taken disks e ↦
            settle_acquired start_reading (acquire_recorder h (record w { disks = disks }) e)
        | queued disks e ticket ↦ elim h.granted [
          | none ↦ diverged
          | some (disks', e') ↦
              settle_acquired start_reading (acquire_recorder h (record w { disks = disks' }) e')
        ]
      ]
  ]

-- The options of the writing loops.
abbrev pub opts_of : Session → Opts → Opts
opts_of s o = record o { readmode = s.readmode; write_to_single_file = s.write_to_single_file }

-- A `write` on the entity of an element of a branch.
abbrev pub through : Writing Recorder → Writing (Listed Recorder)
through write e start count = do
  (ret, r) ← write e.entity start count
  ok (ret, record e { entity = r })

abbrev pub polled : Polling Recorder → Polling (Listed Recorder)
polled poll e = let (ret, r) = poll e.entity in (ret, record e { entity = r })

-- The end of `write_buffer` after a loop that failed. A `close_recer` in the loop is its last step; its
-- calls on the two branches are made up for here.
pub failed_write : World → BufferEntity (Listed Recorder) → ℤ → Outcome (ℤ × World)
failed_write w be ret = do
  w' ← elim be.recer [
    | some e ↦ close_recer (record w { be = be }) ret
    | none ↦ elim be.handled [
      | none ↦ ok (record w { be = be })
      | some errornum ↦
          close_recer
            (record w {
              be = record be {
                recer = w.be.recer;
                ready_to_act = w.be.ready_to_act;
                handled = none;
              };
            })
            errornum
    ]
  ]
  ok (negsuc 0, w')

-- The end of `write_buffer` after a loop that returned 0.
pub finished_write : World → BufferEntity (Listed Recorder) → Outcome (ℤ × World)
finished_write w be = elim be.recer [
  | none ↦ ok (pos 0, record w { be = be })
  | some e ↦ do
    (s, disks) ← free_recorder w.session (update w.disks busy e) e.self
    ok (pos 0, record w { session = s; disks = disks; be = record be { recer = none } })
]

module _ (be64toh : ℕ → ℕ) (setup : Setup) where
  -- What a recording does with the recording entity that it got.
  pub start_recording : Round → World → Listed Recorder → Outcome World
  start_recording h w e = do
    w1 ←
        on_index w
          (λ fi. do (fi', added) ← begin_recording h.realloc fi w.fileid e.entity.id; ok fi')
    let w2 =
        if setup.datatype_unknown
        then w1
        else elim (check_and_fill be64toh h.memory w1.fileid setup.fill_opts w1.packets) [
          | none ↦ w1
          | some (packets, errors) ↦ record w1 { packets = packets }
        ]
    check (ltb e.entity.id setup.n_drives)
    ok w2

  -- A recording gets any free entity. `negsuc 0` is the return of -1.
  pub get_for_recording : Round → World → Outcome (ℤ × World)
  get_for_recording h w = elim (get_free (picking w.session) false w.disks h.wakes) [
    | asleep ↦ diverged
    | nothing ↦ do
      buffers ← remove_from_branch w.buffers w.self
      ok (negsuc 0, record w { is_running = false; buffers = buffers })
    | got disks e ret ↦
        settle_acquired (λ w'. start_recording h w' e)
          (acquire_recorder h (record w { disks = disks }) e)
  ]

  -- The first part of `write_buffer`.
  pub get_recorder : Round → World → Outcome (ℤ × World)
  get_recorder h w = do
    next ←
        if w.session.write_to_single_file
        then wait_for_turn w.fileid w.session.next_fd_id_to_write h.turns
        else ok w.session.next_fd_id_to_write
    let w' = record w { session = record (w.session) { next_fd_id_to_write = next } }
    if w.session.readmode then get_for_reading h w' else get_for_recording h w'

  module _ (write : Writing Recorder) (poll : Polling Recorder) where
    -- The rest of `write_buffer`.
    pub write_out : Round → World → Outcome (ℤ × World)
    write_out h w = do
      let o = opts_of w.session setup.opts
      (ret, be) ←
          if setup.async_write
          then sbuf_async_loop (polled poll) (through write) o h.fuel w.be
          else sbuf_sync_loop (through write) o h.fuel w.be
      elim ret [ pos n ↦ finished_write w be | negsuc e ↦ failed_write w be (negsuc e) ]

    pub write_buffer : Round → World → Outcome (ℤ × World)
    write_buffer h w = do
      (ret, w') ← if is_none w.be.recer then get_recorder h w else ok (pos 0, w)
      if is_zero ret then write_out h w' else ok (ret, w')

    -- What follows a write or a read that succeeded.
    pub finish_request : World → Outcome World
    finish_request w = do
      not_null w.has_opt
      w' ←
          if w.session.readmode
          then (do
            w1 ← on_index w (λ fi. afi_update_fh fi w.fileid fh_inmem add_to_status)
            buffers ← set_loaded w1.buffers w1.self
            ok (record w1 { buffers = buffers }))
          else (do w1 ← on_index w (λ fi. end_recording fi w.fileid); free_buffer w1)
      ok (record w' { be = record (w'.be) { ready_to_act = false } })

    -- What follows one that failed: the buffer is whole again, and a reader gives it up.
    pub restore : ℕ → World → Outcome World
    restore savedif w = do
      let w1 = record w { be = record (w.be) { diff = savedif; bufoffset = 0 } }
      not_null w1.has_opt
      if w1.session.readmode
          then (do
            let w2 = record w1 { be = record (w1.be) { ready_to_act = false } }
            w3 ← free_buffer w2
            ok (record w3 { be = record (w3.be) { diff = 0 } }))
          else ok w1

    -- `while (ret != 0 && running)`, with what each round meets; it does not end if it outlasts them.
    pub write_until_done : ℕ → List Round → World → Outcome World
    write_until_done savedif [] w = diverged
    write_until_done savedif (h ∷ hs) w = do
      (ret, w1) ← write_buffer h w
      elim (is_zero ret) [
        | true ↦ finish_request w1
        | false ↦ do
          w2 ← restore savedif w1
          elim (w2.is_running && not w2.session.readmode) [
            | true ↦ write_until_done savedif hs w2
            | false ↦ ok w2
          ]
      ]

    -- What `sbuf_simple_write_loop` does when it is woken; `savedif` is an `int`.
    pub serve_request : List Round → World → Outcome World
    serve_request hs w = if w.be.diff == 0 then ok w else (do
      check (leb (w.be.diff % 2 ^ 32) setup.bufsize_without_offset)
      write_until_done (size_of_int (int_of_size w.be.diff)) hs w)
