-- ===== src/Scheduler/Checking/Sessions.antt =====
-- src/server.c: `add_recording` for a local socket.
use mathlib.Core.List.{append-nil}
use vlbi_streamer.Base.{ℕ, ◌<◌, ◌≡◌, refl, [], ◌∷◌, ◌++◌, some, true, false, ◌==◌, ok, arith}
use vlbi_streamer.ResourceTree.{Listed, add_to_entlist, update, change_branch}
use vlbi_streamer.ResourceTree.Placement.{occurs, add_to_next-none}
use vlbi_streamer.ResourceTree.Splits.{assign-append, unlink-append}
use vlbi_streamer.Scheduler.{
  Event, Options, Schedule, World, Host, increment, divisor, with_num_elems, configure, run,
  start_event, running,
}
use vlbi_streamer.Scheduler.Standing.{IsWilling}
use vlbi_streamer.Scheduler.Finishing.Survivors.{IsSession}
use vlbi_streamer.Scheduler.Checking.{new_event, listed, add_local}
use vlbi_streamer.Scheduler.Checking.Taking.{GivesFresh}

-- The options of a session.
abbrev pub session_opt : Host → Options
session_opt host = record (host.default_opt) { readmode = true }

abbrev session_event : Host → Event
session_event host = record (new_event host) { opt = session_opt host; w_localsocket = true }

abbrev running_session : Host → ℕ → Event
running_session host t = record (session_event host) {
  opt = with_num_elems (session_opt host);
  status = running;
  pt = some t;
}

-- What a session adds to the schedule.
pub record SessionJoined (d d' : Schedule) : Type 0 where
  pub le : Listed Event
  pub waiting : d'.br.freelist ≡ d.br.freelist
  pub joined : d'.br.busylist ≡ d.br.busylist ++ le ∷ []
  pub counted : d'.n_running ≡ increment d.n_running
  pub active : le.entity.status ≡ running
  pub session : IsSession le.entity

start_session :
    (host : Host) (w : World)
    → IsWilling host
    → 0 < divisor (session_opt host)
    → (t : ℕ) × (start_event host (session_event host) w ≡ ok (w, running_session host t, true))
unfolding start_event configure run
start_session host w willing positive =
    let nonzero : (divisor (session_opt host) == 0) ≡ false = ground arith in
    let (t, created) =
      willing.creates (record (session_event host) {
        opt = with_num_elems (session_opt host);
        status = running;
      }) in
    (t, rw (nonzero, created) refl)

-- A local session starts at once: add_recording for a local socket returns, with one event more at
-- the end of the busy list, running, counted in n_running, and with neither a name nor a socket
-- number. Every start succeeds on the host, malloc gives addresses that no event has, and the
-- packet size of the default options is not 0.
pub add_local-Joined :
    (host : Host) (d : Schedule)
    → IsWilling host
    → GivesFresh host
    → 0 < divisor (session_opt host)
    → (d' : Schedule) × (add_local host d ≡ ok (d', true)) × SessionJoined d d'
unfolding add_local add_to_entlist update change_branch
add_local-Joined host d willing fresh positive =
    let (t, runs) = start_session host d.world willing positive in
    let le = listed host d (session_event host) in
    let le' = record le { entity = running_session host t } in
    let absent : occurs le.self d.br.freelist ≡ 0 = omega (arith, fresh d.br) in
    (
      record d {
        br = record (d.br) { busylist = d.br.busylist ++ le' ∷ [] };
        n_running = increment d.n_running;
      },
      simp (
        runs,
        add_to_next-none d.br.freelist le,
        assign-append d.br.freelist [] le le' refl absent,
        unlink-append d.br.freelist [] le' absent,
        append-nil d.br.freelist,
        add_to_next-none d.br.busylist le',
      ),
      record {
        le = le';
        waiting = refl;
        joined = refl;
        counted = refl;
        active = refl;
        session = record { thread = t; nameless = refl; numberless = refl; threaded = refl };
      },
    )
