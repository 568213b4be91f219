-- ===== src/Scheduler/Tests.antt =====
-- A day with two waiting events and a running one, and what the theorems on schedules say of it.
use Prim.Native.String.{String}
use text.Mathlib.Text.{◌==◌ as str_eq}
use text.Mathlib.TextEquality.{eq_iff}
use mathlib.Core.Path.{subst}
use vlbi_streamer.Base.{
  ℕ, ◌+◌, ◌<◌, ◌≡◌, refl, inr, List, [], ◌∷◌, Option, none, some, Bool, true, false, length, ok,
  aborted, faulted, All, arith, sym, ap, Ensures,
}
use vlbi_streamer.FileIndex.{FileIndex}
use vlbi_streamer.FileIndex.Tests.{two_files}
use vlbi_streamer.FileRegistry.{Files, deref}
use vlbi_streamer.FileRegistry.Names.{IsRegistry}
use vlbi_streamer.ResourceTree.{Listed}
use vlbi_streamer.ResourceTree.Placement.{occurs}
use vlbi_streamer.Timer.{Timespec, get_sec_diff}
use vlbi_streamer.Scheduler.{
  Configured, Event, Host, Options, Schedule, Setting, Status, World, cancelled, divisor, finished,
  free_and_close, not_started, running, to_record,
}
use vlbi_streamer.Scheduler.Standing.{IsSchedule, IsUnstarted, IsWilling}
use vlbi_streamer.Scheduler.Closing.{Closed, IsHolder, free_and_close-Closed}
use vlbi_streamer.Scheduler.Starting.{start_scheduled, verdict}
use vlbi_streamer.Scheduler.Starting.SinglePass.{single_pass, start_scheduled-single_pass}
use vlbi_streamer.Scheduler.Starting.Invariant.{AllLeft, expired_aborts, start_scheduled-AllLeft}
use vlbi_streamer.Scheduler.Finishing.{check_finished}
use vlbi_streamer.Scheduler.Finishing.Survivors.{
  Finished, IsSession, check_finished-Finished, session_end_faults, survivors,
}
use vlbi_streamer.Scheduler.Checking.{add_local, check_schedule}
use vlbi_streamer.Scheduler.Checking.Taking.{GivesFresh, IsListed, IsRequest}
use vlbi_streamer.Scheduler.Checking.Syncing.{Synced, check_schedule-Synced}
use vlbi_streamer.Scheduler.Checking.Unlisted.{unlisted_aborts}
use vlbi_streamer.Scheduler.Checking.Following.{check_schedule_follows}
use vlbi_streamer.Scheduler.Checking.Sessions.{SessionJoined, add_local-Joined}
use vlbi_streamer.Scheduler.Main.{Input, round, rounds}
use vlbi_streamer.Scheduler.Main.Rounds.{IsQuiet, Ran, round-Ran, rounds-IsSchedule}

abbrev plain_opt : Options
plain_opt = record {
  readmode = false;
  starting_time = record { tv_sec = 0; tv_nsec = 0 };
  time = 5;
  filesize = 1000;
  packet_size = 100;
  offset_onwrite = 0;
  buf_num_elems = 0;
}

-- An address above all that are listed.
abbrev sum_of : List (Listed Event) → ℕ
sum_of [] = 0
sum_of (le ∷ l) = le.self + sum_of l

abbrev willing_host : Host
willing_host = record {
  init_cfg = λ files ev. (files, record { fi = some 7; opt = plain_opt }, true);
  pthread_create = λ ev. some 1;
  pthread_join = λ t. true;
  flock = true;
  config_write_file = λ l. true;
  malloc = λ br. sum_of br.freelist + sum_of br.busylist + sum_of br.loadedlist + 1;
  default_opt = plain_opt;
}

occurs-sum_of : (a : ℕ) (l : List (Listed Event)) → sum_of l < a → occurs a l ≡ 0
occurs-sum_of a [] h = refl
occurs-sum_of a (le ∷ l) h = ground (arith, occurs-sum_of a l)

willing_host-GivesFresh : GivesFresh willing_host
willing_host-GivesFresh br =
    let a = sum_of br.freelist + sum_of br.busylist + sum_of br.loadedlist + 1 in
    omega (
      arith,
      occurs-sum_of a br.freelist (omega arith),
      occurs-sum_of a br.busylist (omega arith),
      occurs-sum_of a br.loadedlist (omega arith),
    )

willing_host-IsWilling : IsWilling willing_host
willing_host-IsWilling = record {
  configures = λ files files' ev fi opt done e. (
    sym (ap (λ (r : Files × Configured × Bool). r.2) e),
    subst (λ o. 0 < divisor o) (ap (λ (r : Files × Configured × Bool). r.1.opt) e) (omega arith),
  );
  creates = λ ev. (1, refl);
}

abbrev noon : Timespec
noon = record { tv_sec = 1000; tv_nsec = 0 }

abbrev starting : ℕ → Options
starting sec = record plain_opt { starting_time = record { tv_sec = sec; tv_nsec = 0 } }

abbrev waiting_entry : ℕ → String → ℕ → Listed Event
waiting_entry a name sec = record {
  self = a;
  waiters_head = 0;
  waiters_bottom = 0;
  entity = record {
    idstring = some name;
    opt = starting sec;
    w_localsocket = false;
    status = not_started;
    fi = none;
    pt = none;
    found = false;
    socketnumber = 0;
  };
}

abbrev running_entry : ℕ → Option String → Status → Listed Event
running_entry a name status = record {
  self = a;
  waiters_head = 0;
  waiters_bottom = 0;
  entity = record {
    idstring = name;
    opt = plain_opt;
    w_localsocket = false;
    status = status;
    fi = some 7;
    pt = some 1;
    found = false;
    socketnumber = 0;
  };
}

abbrev listed_late : Listed Event
listed_late = waiting_entry 1 "late" 5000

abbrev listed_now : Listed Event
listed_now = waiting_entry 2 "now" 0

abbrev listed_old : Listed Event
listed_old = waiting_entry 4 "old" 10

abbrev ended_entry : Listed Event
ended_entry = running_entry 5 none finished

abbrev setting : String → Setting
setting name = record { name = name; set_from_root = λ opt. some plain_opt }

abbrev schedule_of : List (Listed Event) → List (Listed Event) → List Setting → Schedule
schedule_of waiting active file = record {
  br = record { freelist = waiting; busylist = active; loadedlist = [] };
  lasttick = noon;
  n_scheduled = length waiting;
  n_running = length active;
  world = record { files = []; statefile = file; calls = [] };
  is_running = true;
}

abbrev recorded : FileIndex
recorded = record two_files { addr = 7; status = to_record; associations = 1 }

-- With the file index of the running events, and its number of holders.
abbrev indexed : ℕ → Schedule → Schedule
indexed holders d = record d {
  world = record (d.world) { files = record recorded { associations = holders } ∷ [] };
}

-- Two events wait, one runs, and the state file has one more.
abbrev day : Schedule
day =
    schedule_of (listed_late ∷ listed_now ∷ []) (running_entry 3 (some "runs") running ∷ [])
      (setting "now" ∷ setting "new" ∷ setting "late" ∷ setting "runs" ∷ [])

abbrev day_off : Schedule
day_off = schedule_of (listed_late ∷ listed_now ∷ []) [] (setting "late" ∷ [])

abbrev late_day : Schedule
late_day = schedule_of (listed_late ∷ listed_old ∷ []) [] []

-- A cancelled event with a file index of its own.
abbrev other_entry : Listed Event
other_entry = record (running_entry 3 (some "c") cancelled) {
  entity = record ((running_entry 3 (some "c") cancelled).entity) { fi = some 8 };
}

abbrev evening : Schedule
evening =
    record (schedule_of []
      (running_entry 1 (some "a") finished ∷ running_entry 2 (some "b") running ∷ other_entry ∷ [])
      (setting "a" ∷ setting "b" ∷ setting "c" ∷ [])) {
        world = record {
          files =
              record recorded { associations = 2 }
              ∷ record recorded { addr = 8; filename = "c" }
              ∷ [];
          statefile = setting "a" ∷ setting "b" ∷ setting "c" ∷ [];
          calls = [];
        };
      }

abbrev after_session : Schedule
after_session = schedule_of [] (ended_entry ∷ []) []

waiting_entry-IsUnstarted :
    (a : ℕ) (name : String) (sec : ℕ) → IsUnstarted (waiting_entry a name sec).entity
waiting_entry-IsUnstarted a name sec = record {
  id = name;
  named = refl;
  remote = refl;
  idle = refl;
  unindexed = refl;
  threadless = refl;
}

day-IsSchedule : IsSchedule day
day-IsSchedule = record {
  unique = λ a. ground arith;
  scheduled = refl;
  counted = refl;
  unstarted = (waiting_entry-IsUnstarted 1 "late" 5000, (waiting_entry-IsUnstarted 2 "now" 0, tt));
  unloaded = refl;
}

day-IsListed : IsListed day
day-IsListed = record {
  in_order = day-IsSchedule;
  busy_named = (("runs", refl), tt);
  distinct = λ name. ground (
    arith,
    eq_iff name "late",
    eq_iff name "now",
    eq_iff name "runs",
    eq_iff "late" "now",
    eq_iff "late" "runs",
    eq_iff "now" "runs",
  );
}

-- The running event is gone from the state file.
abbrev day_gone : Schedule
day_gone = indexed 1 (
    schedule_of (listed_late ∷ listed_now ∷ []) (running_entry 3 (some "runs") running ∷ [])
      (setting "late" ∷ setting "now" ∷ []))

day_gone-IsListed : IsListed day_gone
day_gone-IsListed = record {
  in_order = record {
    unique = day-IsSchedule.unique;
    scheduled = refl;
    counted = refl;
    unstarted = day-IsSchedule.unstarted;
    unloaded = refl;
  };
  busy_named = day-IsListed.busy_named;
  distinct = day-IsListed.distinct;
}

day_off-IsListed : IsListed day_off
day_off-IsListed = record {
  in_order = record {
    unique = λ a. ground arith;
    scheduled = refl;
    counted = refl;
    unstarted =
        (waiting_entry-IsUnstarted 1 "late" 5000, (waiting_entry-IsUnstarted 2 "now" 0, tt));
    unloaded = refl;
  };
  busy_named = tt;
  distinct = λ name. ground (arith, eq_iff name "late", eq_iff name "now", eq_iff "late" "now");
}

late_day-IsSchedule : IsSchedule late_day
late_day-IsSchedule = record {
  unique = λ a. ground arith;
  scheduled = refl;
  counted = refl;
  unstarted = (waiting_entry-IsUnstarted 1 "late" 5000, (waiting_entry-IsUnstarted 4 "old" 10, tt));
  unloaded = refl;
}

evening-IsSchedule : IsSchedule evening
evening-IsSchedule = record {
  unique = λ a. ground arith;
  scheduled = refl;
  counted = refl;
  unstarted = tt;
  unloaded = refl;
}

after_session-IsSchedule : IsSchedule after_session
after_session-IsSchedule = record {
  unique = λ a. ground arith;
  scheduled = refl;
  counted = refl;
  unstarted = tt;
  unloaded = refl;
}

ended_entry-IsSession : IsSession ended_entry.entity
ended_entry-IsSession = record { thread = 1; nameless = refl; numberless = refl; threaded = refl }

fine_setting :
    (name : String) → str_eq name "shutdown" ≡ false → IsRequest willing_host (setting name)
fine_setting name h = record { opt = plain_opt; no_command = h; fine = refl }

abbrev AllFine : Type 0
AllFine = All (IsRequest willing_host) day.world.statefile

all_fine : AllFine
all_fine = (
  fine_setting "now" refl,
  (fine_setting "new" refl, (fine_setting "late" refl, (fine_setting "runs" refl, tt))),
)

abbrev quiet_input : Input
quiet_input = record {
  now = noon;
  tick = noon;
  poll_failed = false;
  statefile_read = false;
  statefile_error = false;
  local_activity = false;
  accepted = false;
  statuses = λ a. running;
  memory_alive = true;
}

quiet_input-IsQuiet : IsQuiet quiet_input
quiet_input-IsQuiet = record { no_failure = refl; no_change = refl; no_session = refl }

-- A recording under way, with its index.
abbrev recording_event : Event
recording_event = record ((running_entry 3 (some "a") running).entity) { fi = some 7 }

abbrev registry : Files
registry = recorded ∷ []

registry-IsRegistry : IsRegistry registry
registry-IsRegistry = (omega arith, tt, tt)

abbrev world_now : World
world_now = record { files = registry; statefile = setting "a" ∷ []; calls = [] }

recording_event-IsHolder : IsHolder world_now.files recording_event
unfolding deref
recording_event-IsHolder = record {
  id = "a";
  thread = 1;
  index = 7;
  fi = recorded;
  named = refl;
  threaded = refl;
  indexed = refl;
  present = refl;
  leaves = inr refl;
}

check_schedule-Synced_example :
    (d' : Schedule) × (check_schedule willing_host day ≡ ok d') × Synced day d'
check_schedule-Synced_example =
    check_schedule-Synced willing_host day willing_host-GivesFresh all_fine day-IsListed
      (refl, (refl, tt)) (refl, tt)

check_schedule_follows_example : Ensures (Synced day_gone) (check_schedule willing_host day_gone)
check_schedule_follows_example =
    check_schedule_follows willing_host day_gone willing_host-GivesFresh
      (fine_setting "late" refl, (fine_setting "now" refl, tt)) day_gone-IsListed (refl, (refl, tt))
      (refl, tt) (refl, tt)

round-Ran_example :
    (d' : Schedule) × (round willing_host quiet_input day ≡ ok d') × Ran quiet_input.now day d'
unfolding verdict get_sec_diff
round-Ran_example =
    round-Ran willing_host quiet_input day quiet_input-IsQuiet willing_host-IsWilling (λ a. refl)
      day-IsSchedule refl

start_scheduled-single_pass_example :
    start_scheduled willing_host noon noon day
    ≡ single_pass willing_host noon noon day day.br.freelist
start_scheduled-single_pass_example =
    start_scheduled-single_pass willing_host noon noon day (λ a. ground arith)

start_scheduled-AllLeft_example :
    Ensures (AllLeft noon) (start_scheduled willing_host noon noon day)
start_scheduled-AllLeft_example = start_scheduled-AllLeft willing_host noon noon day day-IsSchedule

check_finished-Finished_example :
    Ensures (Finished evening (survivors evening.br.busylist)) (check_finished willing_host evening)
check_finished-Finished_example = check_finished-Finished willing_host evening evening-IsSchedule

free_and_close-Closed_example :
    (w' : World) × (free_and_close willing_host recording_event world_now ≡ ok w')
    × Closed willing_host recording_event world_now recording_event-IsHolder w'
free_and_close-Closed_example =
    free_and_close-Closed willing_host recording_event world_now recording_event-IsHolder
      registry-IsRegistry refl

rounds-IsSchedule_example :
    Ensures IsSchedule (rounds willing_host (quiet_input ∷ quiet_input ∷ []) day)
rounds-IsSchedule_example =
    rounds-IsSchedule willing_host (quiet_input ∷ quiet_input ∷ []) day
      (quiet_input-IsQuiet, (quiet_input-IsQuiet, tt)) day-IsSchedule

unlisted_aborts_example : check_schedule willing_host day_off ≡ aborted
unlisted_aborts_example =
    unlisted_aborts willing_host day_off (listed_late ∷ []) [] listed_now willing_host-GivesFresh
      ((record { opt = plain_opt; no_command = refl; fine = refl }), tt) day_off-IsListed refl refl
      refl

expired_aborts_example : start_scheduled willing_host noon noon late_day ≡ aborted
unfolding verdict get_sec_diff
expired_aborts_example =
    expired_aborts willing_host noon noon late_day (listed_late ∷ []) [] listed_old
      late_day-IsSchedule refl (refl, tt) refl

add_local-Joined_example :
    (d' : Schedule) × (add_local willing_host day ≡ ok (d', true)) × SessionJoined day d'
add_local-Joined_example =
    add_local-Joined willing_host day willing_host-IsWilling willing_host-GivesFresh (omega arith)

session_end_faults_example : check_finished willing_host after_session ≡ faulted
session_end_faults_example =
    session_end_faults willing_host after_session [] [] ended_entry refl (λ t. refl)
      after_session-IsSchedule refl tt refl ended_entry-IsSession
