-- ===== src/Scheduler.antt =====
-- src/server.c: the schedule of the daemon. An event waits on the free list of a branch of
-- src/resourcetree.c and runs on its busy list. `malloc` is taken to succeed; the statistics and
-- the queue of a single file's writers, which an event only allocates and frees, are left out.
mod Tests
pub mod Starting
pub mod Finishing
pub mod Checking
pub mod Standing
pub mod Willing
pub mod Removal
pub mod Closing
pub mod Main
use Prim.Native.String.{String}
use text.Mathlib.Text.{◌==◌ as str_eq}
use vlbi_streamer.Base.{
  ℕ, zero, suc, ◌+◌, ◌*◌, ◌/◌, ◌%◌, ◌^◌, List, [], ◌∷◌, ◌++◌, Option, none, some, Bool, true, false,
  not, ◌&&◌, ◌||◌, ◌==◌, if◌then◌else◌, length, Outcome, ok, aborted, faulted, diverged, ◌>>=◌,
  or_fault, pos, int_leb, int_ltb,
}
use vlbi_streamer.FileIndex.{AfiStatus}
use vlbi_streamer.FileRegistry.{Files, afi_disassociate}
use vlbi_streamer.ResourceTree.{
  Listed, Branch, free, busy, update, change_branch, remove_from_branch, locate,
}
use vlbi_streamer.Timer.{Timespec, negated, get_sec_diff}

-- The `STATUS_` values.
pub data Status : Type 0 where
  not_started running stopped finished error cancelled : Status

-- The options of `struct opt_s` that the daemon reads.
pub record Options : Type 0 where
  pub readmode : Bool
  pub starting_time : Timespec
  pub time : ℕ
  pub filesize : ℕ
  pub packet_size : ℕ
  pub offset_onwrite : ℕ
  pub buf_num_elems : ℕ

-- `struct scheduled_event`. An `idstring` that is not set is an indeterminate pointer; `fi` and
-- `pt` are `none` for NULL and 0.
pub record Event : Type 0 where
  pub idstring : Option String
  pub opt : Options
  pub w_localsocket : Bool
  pub status : Status
  pub fi : Option ℕ
  pub pt : Option ℕ
  pub found : Bool
  pub socketnumber : ℕ

-- An entry of the state file: its name, and what `set_from_root` makes of the options by it.
pub record Setting : Type 0 where
  pub name : String
  pub set_from_root : Options → Option Options

-- The calls on threads, in order.
pub data Call : Type 0 where
  shutdown_thread : Option ℕ → Call
  pthread_join : ℕ → Call

-- What the daemon shares with others: the file indexes, the state file, and the threads.
pub record World : Type 0 where
  pub files : Files
  pub statefile : List Setting
  pub calls : List Call

-- `struct schedule`, with the world and the flag `running`. An `int` is its 32-bit pattern.
pub record Schedule : Type 0 where
  pub br : Branch Event
  pub lasttick : Timespec
  pub n_scheduled : ℕ
  pub n_running : ℕ
  pub world : World
  pub is_running : Bool

-- What `init_cfg` leaves in the options.
pub record Configured : Type 0 where
  pub fi : Option ℕ
  pub opt : Options

-- What the system and the configuration answer. `true` is success.
pub record Host : Type 0 where
  pub init_cfg : Files → Event → Files × Configured × Bool
  pub pthread_create : Event → Option ℕ
  pub pthread_join : ℕ → Bool
  pub flock : Bool
  pub config_write_file : List Setting → Bool
  pub malloc : Branch Event → ℕ
  pub default_opt : Options

abbrev pub increment : ℕ → ℕ
increment n = (n + 1) % 2 ^ 32

abbrev pub decrement : ℕ → ℕ
decrement n = (n + 4294967295) % 2 ^ 32

abbrev pub to_send : AfiStatus
to_send = record { send_bit = true; record_bit = false }

abbrev pub to_record : AfiStatus
to_record = record { send_bit = false; record_bit = true }

abbrev pub without : List Setting → String → List Setting
without [] name = []
without (s ∷ l) name = if str_eq s.name name then l else s ∷ without l name

abbrev pub has : List Setting → String → Bool
has [] name = false
has (s ∷ l) name = if str_eq s.name name then true else has l name

abbrev pub is_running_status : Status → Bool
is_running_status running = true
is_running_status _ = false

-- `STATUS_FINISHED`, `STATUS_ERROR` or `STATUS_STOPPED`: the thread need not be told to stop.
abbrev pub is_done : Status → Bool
is_done finished = true
is_done error = true
is_done stopped = true
is_done _ = false

abbrev pub is_over : Status → Bool
is_over cancelled = true
is_over s = is_done s

-- `assert(fi)` of `afi_disassociate`
abbrev pub asserted {ℓ} : {A : Type ℓ} → Option A → Outcome A
asserted (some a) = ok a
asserted none = aborted

abbrev pub with_call : Call → World → World
with_call c w = record w { calls = w.calls ++ c ∷ [] }

abbrev pub divisor : Options → ℕ
divisor opt =
    if opt.readmode && not (opt.offset_onwrite == 0)
    then opt.packet_size + opt.offset_onwrite
    else opt.packet_size

abbrev pub with_num_elems : Options → Options
with_num_elems opt = record opt { buf_num_elems = opt.filesize / divisor opt % 2 ^ 32 }

module _ (host : Host) where
  -- The state file without a setting, if it has it and can be written.
  abbrev pub strike : List Setting → String → List Setting
  strike settings name =
      let rest = without settings name in
      if has settings name && host.config_write_file rest then rest else settings

  -- `remove_from_cfgsched`
  pub remove_from_cfgsched : Event → World → Outcome World
  remove_from_cfgsched ev w =
      if host.flock
      then (do name ← or_fault ev.idstring; ok (record w { statefile = strike w.statefile name }))
      else ok w

  -- The end of `free_and_close`, behind the join.
  pub give_up : Event → World → Outcome World
  give_up ev w = do
    w' ← (if ev.socketnumber == 0 then remove_from_cfgsched ev w else ok w)
    fi ← asserted ev.fi
    (files, _) ← afi_disassociate w'.files fi (if ev.opt.readmode then to_send else to_record)
    ok (record w' { files = files })

  -- The part of `free_and_close` behind the messages: only a thread that was created is joined.
  pub join : Event → World → Option ℕ → Outcome World
  join ev w none = give_up ev w
  join ev w (some t) =
      let joined = with_call (pthread_join t) w in
      if host.pthread_join t then give_up ev joined else ok joined

  -- `free_and_close`
  pub free_and_close : Event → World → Outcome World
  free_and_close ev w =
      join ev (if is_done ev.status then w else with_call (shutdown_thread ev.pt) w) ev.pt

  -- `remove_from_branch` with its call of `close`.
  pub remove_event : Schedule → ℕ → Outcome Schedule
  remove_event d a = do
    (p, le) ← or_fault (locate d.br a)
    br ← remove_from_branch d.br a
    w ← free_and_close le.entity d.world
    ok (record d { br = br; world = w })

  -- The call of `init_cfg`
  pub configure : Event → World → World × Event × Bool
  configure ev w =
      if ev.w_localsocket
      then (w, ev, true)
      else (let (files, cfg, done) = host.init_cfg w.files ev in
          (record w { files = files }, record ev { fi = cfg.fi; opt = cfg.opt }, done))

  -- The rest of `start_event`. A packet size of 0 is a division by 0.
  pub run : World × Event × Bool → Outcome (World × Event × Bool)
  run (w, ev, false) = ok (w, ev, false)
  run (w, ev, true) =
      if divisor ev.opt == 0
      then faulted
      else (let ready = record ev { opt = with_num_elems ev.opt; status = running } in
          elim (host.pthread_create ready) [
            | none ↦ ok (w, ready, false)
            | some t ↦ ok (w, record ready { pt = some t }, true)
          ])

  -- `start_event`
  pub start_event : Event → World → Outcome (World × Event × Bool)
  start_event ev w = run (configure ev w)
