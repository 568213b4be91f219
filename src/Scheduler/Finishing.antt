-- ===== src/Scheduler/Finishing.antt =====
-- src/server.c: `check_finished`, and the end of `main`.
pub mod Survivors
use vlbi_streamer.Base.{ℕ, List, [], ◌∷◌, Bool, ◌==◌, if◌then◌else◌, Outcome, ok, ◌>>=◌}
use vlbi_streamer.ResourceTree.{Listed}
use vlbi_streamer.Scheduler.{Event, Schedule, Host, decrement, is_over, remove_event}
use vlbi_streamer.Timer.{Timespec}

abbrev pub no_time : Timespec
no_time = record { tv_sec = 0; tv_nsec = 0 }

-- An event less is running; `lasttick` is reset behind the last one.
abbrev pub one_less : Schedule → Schedule
one_less d =
    let n = decrement d.n_running in
    record d { n_running = n; lasttick = if n == 0 then no_time else d.lasttick }

module _ (host : Host) where
  pub finish_one : Schedule → Listed Event → Outcome Schedule
  finish_one d le =
      if is_over le.entity.status
      then (do d' ← remove_event host d le.self; ok (one_less d'))
      else ok d

  pub finish_loop : Schedule → List (Listed Event) → Outcome Schedule
  finish_loop d [] = ok d
  finish_loop d (le ∷ les) = finish_one d le >>= λ d'. finish_loop d' les

  -- `check_finished`
  pub check_finished : Schedule → Outcome Schedule
  check_finished d = finish_loop d d.br.busylist

  pub close_loop : Schedule → List (Listed Event) → Outcome Schedule
  close_loop d [] = ok d
  close_loop d (le ∷ les) = remove_event host d le.self >>= λ d'. close_loop d' les

  -- The loop of `main` over the running events when the daemon ends.
  pub close_running : Schedule → Outcome Schedule
  close_running d = close_loop d d.br.busylist
