-- ===== src/BufferWorker/Tests.antt =====
-- A full buffer with two recording entities, and what the theorems on its thread say of it.
use vlbi_streamer.Base.{
  ℕ, ◌+◌, ◌-◌, ◌^◌, ◌≤◌, ◌≡◌, ◌≢◌, refl, inl, [], ◌∷◌, ◌++◌, none, some, true, false, ok, pos,
  arith, ap,
}
use vlbi_streamer.FileIndex.Tests.{two_files}
use vlbi_streamer.FileRegistry.{deref}
use vlbi_streamer.HoleFiller.{Header, mark5bnet}
use vlbi_streamer.ResourceTree.{Branch, Listed, remove_from_branch, set_free}
use vlbi_streamer.ResourceTree.Placement.{occurs}
use vlbi_streamer.ResourceTree.Picking.{holding}
use vlbi_streamer.BufferWriter.{Writing, limit}
use vlbi_streamer.BufferWriter.Async.{Polling}
use vlbi_streamer.BufferWriter.Looping.{Progresses}
use vlbi_streamer.Writers.{Disk, Recorder, Session, check_if_suitable, enospc, handle_error}
use vlbi_streamer.Writers.Tests.{
  answers_of, broken_disk, broken_fails, good_disk, good_opens, recorder, session,
}
use vlbi_streamer.Writers.Releasing.{suitable}
use vlbi_streamer.BufferWorker.{Round, Setup, World, serve_request, wait_for_turn}
use vlbi_streamer.BufferWorker.Failing.{IsRecording, Refuses}
use vlbi_streamer.BufferWorker.Exhausting.{Stopped}
use vlbi_streamer.BufferWorker.Recorded.{Accepts, IsReady, Recorded, Writes}
use vlbi_streamer.BufferWorker.Serving.{
  large_buffer_miscounted, serve_request-Recorded, serve_request-Stopped,
}
use vlbi_streamer.BufferWorker.Handshake.{
  Handshake, Reach, Step, WorkerAt, asleep, away, give_back, go_ready, handshake_start, here,
  lock_again, lock_ready, lock_top, make_ready, nobody, put_bytes, relock, sleep, top, unlock, wake,
  worker, written,
}
use vlbi_streamer.BufferWorker.Locking.{
  IsExclusive, Reach-IsExclusive, missed_request, request_in_time,
}
use vlbi_streamer.BufferWorker.Turns.{IsInTurn, TurnReach, TurnReach-IsInTurn, Turns, here, pass}
use vlbi_streamer.Writers.Breaking.{idle}
use vlbi_streamer.Writers.Filled.{IsFilled, handle_error-IsFilled}

abbrev setup : Setup
setup = record {
  opts = record {
    granuality = true;
    writev = false;
    directio = false;
    do_w_stuff_every = 4;
    packet_size = 1;
    bufsize = 4294967295;
    write_to_single_file = false;
    readmode = false;
    is_running = true;
  };
  fill_opts = record {
    datatype = mark5bnet;
    buf_num_elems = 4;
    first_packet = none;
    n_packets = none;
  };
  datatype_unknown = false;
  n_drives = 2;
  bufsize_without_offset = 4294967295;
  async_write = false;
}

abbrev idle_entry : ℕ → Listed Recorder
idle_entry n = record { self = 70 + n; waiters_head = 0; waiters_bottom = 0; entity = recorder n }

abbrev buffer : Listed (Unit {0})
buffer = record { self = 9; waiters_head = 0; waiters_bottom = 0; entity = tt }

abbrev zeros : Header
zeros = record { first = 0; second = 0; others = 0 }

-- A full buffer of four bytes and two idle recording entities.
abbrev requested : World
requested = record {
  session = session;
  disks = record { freelist = idle_entry 0 ∷ idle_entry 1 ∷ []; busylist = []; loadedlist = [] };
  buffers = record { freelist = []; busylist = buffer ∷ []; loadedlist = [] };
  files = two_files ∷ [];
  self = 9;
  fi = 1;
  fileid = 2;
  is_running = true;
  has_opt = true;
  be = record {
    diff = 4;
    asyncdiff = 0;
    bufoffset = 0;
    recer = none;
    ready_to_act = true;
    is_free = false;
    handled = none;
  };
  packets = λ i. zeros;
}

abbrev large : World
large = record requested { be = record (requested.be) { diff = 2147483648 } }

abbrev freed : Branch (Unit {0})
freed = record { freelist = buffer ∷ []; busylist = []; loadedlist = [] }

abbrev no_buffer : Branch (Unit {0})
no_buffer = record { freelist = []; busylist = []; loadedlist = [] }

abbrev round_with : Disk → Round
round_with d = record {
  turns = [];
  wakes = [];
  indexes = [];
  answers = answers_of d;
  realloc = none;
  memory = some zeros;
  granted = none;
  fuel = 9;
}

abbrev refusing : Round
refusing = round_with broken_disk

abbrev accepting : Round
accepting = round_with good_disk

abbrev write_all : Writing Recorder
write_all r start count = ok (pos count, r)

abbrev no_completions : Polling Recorder
no_completions r = (pos 0, r)

write_all-Writes : Writes write_all
unfolding Progresses
write_all-Writes = record {
  progresses =
      λ r start count h. (count - 1, r, ap (λ n. ok (pos n, r)) (omega arith), omega arith);
  keeps = λ r start count. refl;
}

two_apart : (a : ℕ) → occurs a (idle_entry 0 ∷ idle_entry 1 ∷ []) ≤ 1
two_apart a = ground arith

requested-IsRecording : IsRecording requested
requested-IsRecording = record {
  recording = refl;
  numbered = refl;
  pointed = refl;
  running = refl;
  unserved = refl;
  from_start = refl;
  alone = record { none_busy = refl; none_loaded = refl; distinct = two_apart };
}

large-IsRecording : IsRecording large
large-IsRecording = record {
  recording = refl;
  numbered = refl;
  pointed = refl;
  running = refl;
  unserved = refl;
  from_start = refl;
  alone = record { none_busy = refl; none_loaded = refl; distinct = two_apart };
}

refusing-Refuses : Refuses 2 refusing
refusing-Refuses = record { awake = refl; fails = λ s r single rd. broken_fails s r 2 single rd }

accepting-Accepts : Accepts setup 2 4 session accepting
unfolding limit
accepting-Accepts = record {
  awake = refl;
  opens = λ s r single rd. good_opens s r 2 single rd;
  synchronous = refl;
  granular = refl;
  buffered = refl;
  positive = omega arith;
  enough = omega arith;
  small = omega arith;
}

requested-IsReady : IsReady (λ n. n) setup write_all no_completions requested two_files freed
unfolding deref set_free
requested-IsReady = record {
  at_index = refl;
  at_address = refl;
  valid = record {
    room = refl;
    counted = omega arith;
    nonempty = omega arith;
    small = omega arith;
  };
  room = omega arith;
  freeing = refl;
}

-- A request while the thread is at the top of its loop, and one while it is asleep.
abbrev requested_early : Handshake
requested_early = record handshake_start { ready_to_act = true; has_bytes = true; is_free = false }

abbrev requested_asleep : Handshake
requested_asleep = record requested_early { worker_at = asleep }

abbrev opened_entry : Listed Recorder
opened_entry = record (idle_entry 0) { entity = record (recorder 0) { has_opt = true } }

-- Nothing was written yet of a single file, and its first part is being written.
abbrev nothing_written : Turns
nothing_written = record {
  session = record session { write_to_single_file = true };
  writing = [];
  written = [];
}

abbrev first_writing : Turns
first_writing = record nothing_written { writing = 0 ∷ [] }

nothing_written-IsInTurn : IsInTurn nothing_written
nothing_written-IsInTurn = record { single = refl; in_order = refl; alone = inl refl }

first_writing-TurnReach : TurnReach nothing_written first_writing
unfolding wait_for_turn
first_writing-TurnReach = TurnReach.next TurnReach.here (pass 0 (omega arith) tt tt refl refl)

handshake_start-IsExclusive : IsExclusive handshake_start
handshake_start-IsExclusive = record { worker_side = refl; caller_side = refl; given_up = refl }

-- A request that was served, before the UNLOCK at its end.
abbrev request_served : Handshake
request_served = record {
  holder = worker;
  ready_to_act = true;
  is_running = true;
  has_bytes = false;
  is_free = true;
  worker_at = WorkerAt.freed;
  caller_at = away;
}

request_served-Reach : Reach handshake_start request_served
request_served-Reach =
    let waits =
      Reach.next (Reach.next Reach.here (lock_top refl refl refl refl))
        (sleep refl refl refl refl) in
    let filled = Reach.next (Reach.next waits (Step.take refl refl refl)) (put_bytes refl refl) in
    let readied =
      Reach.next (Reach.next filled (lock_ready refl refl refl)) (make_ready refl refl) in
    let woke =
      Reach.next (Reach.next (Reach.next readied (wake refl refl)) (relock refl refl refl))
        (unlock refl refl) in
    let served = Reach.next (Reach.next woke (go_ready refl refl refl)) (written refl refl refl) in
    Reach.next (Reach.next served (lock_again refl refl refl)) (give_back refl refl)

serve_request-Recorded_example :
    (w' : World) × (serve_request
        (λ n. n)
        setup
        write_all
        no_completions
        ((refusing ∷ []) ++ accepting ∷ [])
        requested
      ≡ ok w')
    × Recorded requested.be.diff requested w'
unfolding suitable check_if_suitable set_free
serve_request-Recorded_example =
    serve_request-Recorded (λ n. n) setup write_all no_completions requested (refusing ∷ [])
      accepting [] two_files freed requested-IsRecording (omega arith) (omega arith) (omega arith)
      (refusing-Refuses, tt) (omega arith) write_all-Writes accepting-Accepts requested-IsReady
      ((refl, refl), ((refl, refl), tt))

serve_request-Stopped_example :
    (w' : World) × (serve_request
        (λ n. n)
        setup
        write_all
        no_completions
        (refusing ∷ refusing ∷ refusing ∷ [])
        requested
      ≡ ok w')
    × Stopped requested.be.diff requested w'
unfolding remove_from_branch
serve_request-Stopped_example =
    serve_request-Stopped (λ n. n) setup write_all no_completions requested
      (refusing ∷ refusing ∷ refusing ∷ []) no_buffer requested-IsRecording (omega arith)
      (omega arith) (omega arith) refl
      (refusing-Refuses, (refusing-Refuses, (refusing-Refuses, tt))) (omega arith)

large_buffer_miscounted_example :
    (w' : World) × (serve_request
        (λ n. n)
        setup
        write_all
        no_completions
        (refusing ∷ refusing ∷ refusing ∷ [])
        large
      ≡ ok w')
    × (w'.be.diff ≡ large.be.diff + (2 ^ 64 - 2 ^ 32))
unfolding remove_from_branch
large_buffer_miscounted_example =
    large_buffer_miscounted (λ n. n) setup write_all no_completions large
      (refusing ∷ refusing ∷ refusing ∷ []) no_buffer large-IsRecording (omega arith) (omega arith)
      (omega arith) refl (refusing-Refuses, (refusing-Refuses, (refusing-Refuses, tt)))
      (omega arith)

missed_request_example :
    (requested_early.is_free ≡ false)
    × (requested_early.ready_to_act ≡ true)
    × (requested_early.has_bytes ≡ true)
    × (requested_early.worker_at ≢ asleep)
missed_request_example =
    missed_request requested_early requested_early refl refl refl refl refl here

request_in_time_example :
    (t : Handshake) × Reach requested_asleep t
    × (t.is_free ≡ true)
    × (t.ready_to_act ≡ false)
    × (t.has_bytes ≡ false)
    × (t.worker_at ≡ top)
    × (t.holder ≡ nobody)
request_in_time_example = request_in_time requested_asleep refl refl refl refl

Reach-IsExclusive_example : IsExclusive request_served
Reach-IsExclusive_example = Reach-IsExclusive handshake_start-IsExclusive request_served-Reach

TurnReach-IsInTurn_example : IsInTurn first_writing
TurnReach-IsInTurn_example = TurnReach-IsInTurn nothing_written-IsInTurn first_writing-TurnReach

handle_error-IsFilled_example :
    (s' : Session) × (g : Listed Recorder) × (handle_error session
        (holding (idle_entry 1 ∷ []) opened_entry)
        (two_files ∷ [])
        opened_entry
        (pos enospc)
      ≡ ok (s', idle ((idle_entry 1 ∷ []) ++ g ∷ []), (two_files ∷ [])))
    × IsFilled session s' opened_entry g
handle_error-IsFilled_example =
    handle_error-IsFilled session (idle_entry 1 ∷ []) (two_files ∷ []) opened_entry refl refl refl
