-- ===== src/Scheduler/Starting.antt =====
-- src/server.c: `start_scheduled`, the look for events whose time has come.
pub mod Moves
pub mod SinglePass
pub mod Liveness
pub mod Invariant
use vlbi_streamer.Base.{
  ℕ, zero, suc, ◌+◌, List, [], ◌∷◌, Bool, true, false, not, ◌&&◌, ◌||◌, ◌==◌, if◌then◌else◌, length,
  Outcome, ok, diverged, ◌>>=◌, pos, int_leb, int_ltb,
}
use vlbi_streamer.ResourceTree.{Listed, free, busy, update, change_branch}
use vlbi_streamer.Scheduler.{
  Event, Schedule, World, Host, increment, decrement, start_event, remove_event,
}
use vlbi_streamer.Timer.{Timespec, negated, get_sec_diff}

-- `SECS_TO_START_IN_ADVANCE`
abbrev pub secs_to_start_in_advance : ℕ
secs_to_start_in_advance = 1

-- What `start_scheduled` does with an event.
pub data Verdict : Type 0 where
  waits expired due : Verdict

unfoldable pub verdict : Timespec → Event → Verdict
verdict now ev =
    let tdif = get_sec_diff now ev.opt.starting_time in
    let at_once = ev.opt.starting_time.tv_sec == 0 in
    if at_once || int_leb tdif (pos secs_to_start_in_advance)
    then (if not at_once && not ev.opt.readmode && int_ltb tdif (negated ev.opt.time)
        then expired
        else due)
    else waits

module _ (host : Host) (now tick : Timespec) where
  -- An event that starts at once gets the time of the start.
  abbrev pub timed : Event → Event
  timed ev =
      if ev.opt.starting_time.tv_sec == 0
      then record ev {
        opt = record (ev.opt) {
          starting_time = record (ev.opt.starting_time) { tv_sec = now.tv_sec };
        };
      }
      else ev

  abbrev pub ticking : Timespec → Timespec
  ticking last = if last.tv_sec == 0 then tick else last

  -- What follows `start_event`.
  pub settle_start : Schedule → Listed Event → World × Event × Bool → Outcome Schedule
  settle_start d le (w, ev, done) =
      let le' = record le { entity = ev } in
      let br = update d.br free le' in
      if done
      then ok (record d {
        br = change_branch br free busy le';
        n_running = increment d.n_running;
        world = w;
      })
      else remove_event host (record d { br = br; world = w }) le.self

  -- The start of an event of the free list, up to the reset of the search.
  pub launch : Schedule → Listed Event → Outcome Schedule
  launch d le =
      let d' = record d { lasttick = ticking d.lasttick; n_scheduled = decrement d.n_scheduled } in
      start_event host (timed le.entity) d.world >>= settle_start d' le

  -- The loop of `start_scheduled`; a pointer into the free list is the list from there on.
  pub start_loop : ℕ → Schedule → List (Listed Event) → Outcome Schedule
  start_loop zero d les = diverged
  start_loop (suc fuel) d [] = ok d
  start_loop (suc fuel) d (le ∷ les) = elim (verdict now le.entity) [
    | waits ↦ start_loop fuel d les
    | expired ↦ remove_event host d le.self >>= λ d'. start_loop fuel d' les
    | due ↦ launch d le >>= λ d'. start_loop fuel d' d'.br.freelist
  ]

  -- One step for each element that is passed, and `k` for each of `n` that are taken.
  abbrev pub budget : ℕ → ℕ → ℕ
  budget k zero = 1
  budget k (suc n) = k + budget k n

  -- `start_scheduled`
  pub start_scheduled : Schedule → Outcome Schedule
  start_scheduled d = let n = length d.br.freelist in start_loop (budget (n + 1) n) d d.br.freelist
