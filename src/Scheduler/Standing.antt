-- ===== src/Scheduler/Standing.antt =====
-- What holds of the schedule between the calls of the main loop.
use vlbi_streamer.Base.{
  ℕ, ◌%◌, ◌^◌, ◌≤◌, ◌<◌, ◌≡◌, List, [], Option, none, some, Bool, true, false, length, All,
}
use Prim.Native.String.{String}
use vlbi_streamer.FileRegistry.{Files}
use vlbi_streamer.ResourceTree.{Listed}
use vlbi_streamer.ResourceTree.Placement.{total}
use vlbi_streamer.Scheduler.{Event, Schedule, Host, Options, not_started, running, divisor}

-- An event of the state file that was never started. No file index is set before the start.
pub record IsUnstarted (ev : Event) : Type 0 where
  pub id : String
  pub named : ev.idstring ≡ some id
  pub remote : ev.w_localsocket ≡ false
  pub idle : ev.status ≡ not_started
  pub unindexed : ev.fi ≡ none
  pub threadless : ev.pt ≡ none

-- An event whose thread was started.
pub record IsStarted (ev : Event) : Type 0 where
  pub thread : ℕ
  pub threaded : ev.pt ≡ some thread
  pub active : ev.status ≡ running

abbrev pub AllUnstarted : List (Listed Event) → Type 0
AllUnstarted l = All (λ le. IsUnstarted le.entity) l

abbrev pub AllStarted : List (Listed Event) → Type 0
AllStarted l = All (λ le. IsStarted le.entity) l

pub record IsSchedule (d : Schedule) : Type 0 where
  pub unique : (a : ℕ) → total a d.br ≤ 1
  pub scheduled : d.n_scheduled ≡ length d.br.freelist % 2 ^ 32
  pub counted : d.n_running ≡ length d.br.busylist % 2 ^ 32
  pub unstarted : AllUnstarted d.br.freelist
  pub unloaded : d.br.loadedlist ≡ []

-- A host on which every event can be started.
pub record IsWilling (host : Host) : Type 0 where
  pub configures :
      (files files' : Files) (ev : Event) (fi : Option ℕ) (opt : Options) (done : Bool)
      → host.init_cfg files ev ≡ (files', record { fi = fi; opt = opt }, done)
      → (done ≡ true) × (0 < divisor opt)
  pub creates : (ev : Event) → (t : ℕ) × (host.pthread_create ev ≡ some t)
