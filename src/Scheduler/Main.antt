-- ===== src/Scheduler/Main.antt =====
-- src/server.c: the loop of `main`, round by round. What `poll` reports, the clock, and what the
-- streamer threads do meanwhile are the input of a round; the statistics are only printed.
pub mod Rounds
use vlbi_streamer.Base.{
  ℕ, List, [], ◌∷◌, Bool, true, false, not, ◌&&◌, ◌||◌, if◌then◌else◌, map, Outcome, ok, ◌>>=◌,
}
use vlbi_streamer.ResourceTree.{Listed}
use vlbi_streamer.Scheduler.{Event, Status, Schedule, Host}
use vlbi_streamer.Scheduler.Starting.{start_scheduled}
use vlbi_streamer.Scheduler.Checking.{check_schedule, add_local}
use vlbi_streamer.Scheduler.Finishing.{check_finished}
use vlbi_streamer.Timer.{Timespec}

-- The input of a round.
pub record Input : Type 0 where
  pub now : Timespec
  pub tick : Timespec
  pub poll_failed : Bool
  pub statefile_read : Bool  -- POLLIN at the state file
  pub statefile_error : Bool  -- POLLERR there
  pub local_activity : Bool  -- POLLIN at the local socket
  pub accepted : Bool  -- `accept4` gives a socket
  pub statuses : ℕ → Status  -- what the threads set the status of each running event to
  pub memory_alive : Bool  -- `check_if_alive` of the memory branch

abbrev pub with_status : (ℕ → Status) → Listed Event → Listed Event
with_status statuses le = record le { entity = record (le.entity) { status = statuses le.self } }

-- The streamer threads write the status of their events.
abbrev pub progress : (ℕ → Status) → Schedule → Schedule
progress statuses d = record d {
  br = record (d.br) { busylist = map (with_status statuses) d.br.busylist };
}

abbrev pub stop_if : Bool → Schedule → Schedule
stop_if b d = if b then record d { is_running = false } else d

module _ (host : Host) where
  -- `handle_localsocket`; its result is only reported.
  pub handle_localsocket : Bool → Schedule → Outcome Schedule
  handle_localsocket accepted d =
      if accepted then (do (d', done) ← add_local host d; ok d') else ok d

  pub on_statefile : Input → Schedule → Outcome Schedule
  on_statefile i d =
      if i.statefile_read then check_schedule host d else ok (stop_if i.statefile_error d)

  -- What a round does on the report of `poll`.
  pub serve_poll : Input → Schedule → Outcome Schedule
  serve_poll i d = if i.poll_failed then ok (stop_if true d) else (do
    d1 ← on_statefile i d
    if i.local_activity then handle_localsocket i.accepted d1 else ok d1)

  -- One round of the loop.
  pub round : Input → Schedule → Outcome Schedule
  round i d = do
    d1 ← start_scheduled host i.now i.tick d
    d2 ← serve_poll i (progress i.statuses d1)
    d3 ← check_finished host d2
    ok (stop_if (not i.memory_alive) d3)

  -- The loop, for as many rounds as there is input.
  pub rounds : List Input → Schedule → Outcome Schedule
  rounds [] d = ok d
  rounds (i ∷ inputs) d = if not d.is_running then ok d else (round i d >>= λ d'. rounds inputs d')
