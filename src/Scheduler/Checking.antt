-- ===== src/Scheduler/Checking.antt =====
-- src/server.c: `check_schedule`, which takes the state file over, and `add_recording`.
pub mod Names
pub mod Taking
pub mod Keeping
pub mod TakingAll
pub mod Zeroing
pub mod Syncing
pub mod Unlisted
pub mod Sessions
pub mod Cancelling
pub mod Following
use Prim.Native.String.{String}
use text.Mathlib.Text.{◌==◌ as str_eq}
use vlbi_streamer.Base.{
  ℕ, zero, suc, ◌+◌, List, [], ◌∷◌, Option, none, some, Bool, true, false, not, ◌&&◌, if◌then◌else◌,
  length, Outcome, ok, diverged, ◌>>=◌, or_fault,
}
use vlbi_streamer.ResourceTree.{
  Listed, Branch, Place, free, busy, loaded, add_to_entlist, update, change_branch, get_from_all,
}
use vlbi_streamer.Scheduler.{
  Event, Schedule, World, Host, Options, Setting, Status, not_started, cancelled, increment,
  decrement, is_running_status, has, without, start_event, remove_event, free_and_close,
}

-- `loop_and_check` for CHECK_BY_IDSTRING, with the `strcmp` of `sched_identify`.
pub find_by_idstring : List (Listed Event) → String → Outcome (Option (Listed Event))
find_by_idstring [] name = ok none
find_by_idstring (le ∷ les) name =
    let later = find_by_idstring les name in
    or_fault le.entity.idstring >>= λ id. if str_eq name id then ok (some le) else later

-- `get_from_all` for CHECK_BY_IDSTRING
pub get_by_idstring : Branch Event → String → Outcome (Option (Place × Listed Event))
get_by_idstring br name = do
  waiting ← find_by_idstring br.freelist name
  elim waiting [
    | some le ↦ ok (some (free, le))
    | none ↦ do
      started ← find_by_idstring br.busylist name
      elim started [
        | some le ↦ ok (some (busy, le))
        | none ↦ do
          held ← find_by_idstring br.loadedlist name
          elim held [ some le ↦ ok (some (loaded, le)) | none ↦ ok none ]
      ]
  ]

abbrev pub marked : Bool → Listed Event → Listed Event
marked b le = record le { entity = record (le.entity) { found = b } }

abbrev pub mark_all : Bool → List (Listed Event) → List (Listed Event)
mark_all b [] = []
mark_all b (le ∷ les) = marked b le ∷ mark_all b les

-- `zerofound`
pub zerofound : Schedule → Schedule
zerofound d = record d {
  br = record (d.br) {
    freelist = mark_all false d.br.freelist;
    busylist = mark_all false d.br.busylist;
  };
}

module _ (host : Host) where
  -- The event that `add_recording` allocates, with the default options.
  abbrev pub new_event : Event
  new_event = record {
    idstring = none;
    opt = host.default_opt;
    w_localsocket = false;
    status = not_started;
    fi = none;
    pt = none;
    found = true;
    socketnumber = 0;
  }

  -- The command `shutdown` of `add_recording`. `false` is the return of -1.
  pub shut_down : Schedule → Schedule × Bool
  shut_down d =
      let rest = without d.world.statefile "shutdown" in
      if not (has d.world.statefile "shutdown")
      then (d, false)
      else if host.config_write_file rest
      then (record d { world = record (d.world) { statefile = rest }; is_running = false }, true)
      else (d, false)

  abbrev pub listed : Schedule → Event → Listed Event
  listed d ev = record {
    self = host.malloc d.br;
    waiters_head = 0;
    waiters_bottom = 0;
    entity = ev;
  }

  -- `add_recording` for a setting of the state file.
  pub add_recording : Schedule → Setting → Outcome (Schedule × Bool)
  add_recording d s =
      if str_eq s.name "shutdown"
      then ok (shut_down d)
      else (let ev = record new_event { idstring = some s.name } in
          elim (s.set_from_root host.default_opt) [
            | none ↦ do w ← free_and_close host ev d.world; ok (record d { world = w }, true)
            | some opt ↦ ok (
              record d {
                br = add_to_entlist d.br (listed d (record ev { opt = opt }));
                n_scheduled = increment d.n_scheduled;
              },
              true,
            )
          ])

  -- `add_recording` for a local socket: the event is started at once, and is never counted as
  -- scheduled.
  pub add_local : Schedule → Outcome (Schedule × Bool)
  add_local d =
      let opt = record (host.default_opt) { readmode = true } in
      let le = listed d (record new_event { opt = opt; w_localsocket = true }) in
      let br = add_to_entlist d.br le in
      do
        (w, ev, done) ← start_event host le.entity d.world
        let le' = record le { entity = ev }
        let br' = update br free le'
        if done
            then ok (
              record d {
                br = change_branch br' free busy le';
                n_running = increment d.n_running;
                world = w;
              },
              true,
            )
            else (do
              d' ← remove_event host (record d { br = br'; world = w }) le.self
              ok (d', true))

  -- One setting of the state file. The result of `add_recording` is only reported.
  pub take_setting : Schedule → Setting → Outcome Schedule
  take_setting d s = do
    known ← get_by_idstring d.br s.name
    elim known [
      | some (p, le) ↦ ok (record d { br = update d.br p (marked true le) })
      | none ↦ do (d', fine) ← add_recording d s; ok d'
    ]

  pub take_settings : Schedule → List Setting → Outcome Schedule
  take_settings d [] = ok d
  take_settings d (s ∷ l) = take_setting d s >>= λ d'. take_settings d' l

  -- The removal of an event that the state file does not name.
  pub cancel : Schedule → Place → Listed Event → Outcome Schedule
  cancel d p le =
      let d' =
        if is_running_status le.entity.status
        then record d {
          br = update d.br p (record le { entity = record (le.entity) { status = cancelled } });
          n_running = decrement d.n_running;
        }
        else record d { n_scheduled = decrement d.n_scheduled } in
      remove_event host d' le.self

  -- The second loop of `check_schedule`
  pub sweep : ℕ → Schedule → Outcome Schedule
  sweep zero d = diverged
  sweep (suc fuel) d = elim (get_from_all (λ ev. not ev.found) d.br) [
    | none ↦ ok d
    | some (p, le) ↦ cancel d p le >>= λ d'. sweep fuel d'
  ]

  -- `check_schedule`. The settings are those of the file as it is read, in one piece.
  pub check_schedule : Schedule → Outcome Schedule
  check_schedule d = do
    d' ← take_settings d d.world.statefile
    let n = length d'.br.freelist + length d'.br.busylist + length d'.br.loadedlist
    d'' ← sweep (n + 1) d'
    ok (zerofound d'')
