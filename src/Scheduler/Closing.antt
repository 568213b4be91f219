-- ===== src/Scheduler/Closing.antt =====
-- src/server.c: `free_and_close` on an event that was started, down to its file index.
use Prim.Native.String.{String}
use mathlib.Core.List.{append_assoc}
use vlbi_streamer.Base.{
  ℕ, ◌-◌, ◌≡◌, refl, ap, ◌∙◌, List, [], ◌∷◌, ◌++◌, some, Bool, true, ◌==◌, ◌&&◌, if◌then◌else◌, ok,
  inl, inr, Bool-cases,
}
use vlbi_streamer.FileIndex.{FileIndex, AfiStatus}
use vlbi_streamer.FileRegistry.{Files, deref, afi_disassociate}
use vlbi_streamer.FileRegistry.Names.{IsRegistry}
use vlbi_streamer.FileRegistry.References.{Counts}
use vlbi_streamer.FileRegistry.Releases.{MayLeave, afi_disassociate_lem}
use vlbi_streamer.Scheduler.{
  Event, World, Host, Setting, Call, shutdown_thread, pthread_join, strike, remove_from_cfgsched,
  give_up, join, free_and_close, with_call, is_done, to_send, to_record,
}

-- What an event holds of its file index.
abbrev pub hold : Event → AfiStatus
hold ev = if ev.opt.readmode then to_send else to_record

-- A thread that is not done is told to stop before it is joined.
abbrev pub last_calls : Event → ℕ → List Call
last_calls ev t =
    if is_done ev.status
    then pthread_join t ∷ []
    else shutdown_thread (some t) ∷ pthread_join t ∷ []

-- An event whose thread was created for a recording that the list of indexes has.
pub record IsHolder (files : Files) (ev : Event) : Type 0 where
  pub id : String
  pub thread : ℕ
  pub index : ℕ
  pub fi : FileIndex
  pub named : ev.idstring ≡ some id
  pub threaded : ev.pt ≡ some thread
  pub indexed : ev.fi ≡ some index
  pub present : deref files index ≡ some fi
  pub leaves : MayLeave fi (hold ev)

-- What is left of the state file.
abbrev pub settings_left : Host → Event → String → List Setting → List Setting
settings_left host ev id settings =
    if host.flock && ev.socketnumber == 0 then strike host settings id else settings

-- What the close of such an event makes of the world.
pub record Closed (host : Host) (ev : Event) (w : World) (h : IsHolder w.files ev) (w' : World)
    : Type 0 where
  pub registered : IsRegistry w'.files
  pub left_index : Counts w.files w'.files (h.fi.filename) (h.fi.associations - 1)
  pub struck : w'.statefile ≡ settings_left host ev h.id w.statefile
  pub joined : w'.calls ≡ w.calls ++ last_calls ev h.thread

give_up-struck :
    (host : Host) (ev : Event) (w : World) (id : String) (a : ℕ) (files : Files) (b : Bool)
    → ev.idstring ≡ some id
    → ev.fi ≡ some a
    → afi_disassociate w.files a (hold ev) ≡ ok (files, b)
    → give_up host ev w
      ≡ ok (record w { files = files; statefile = settings_left host ev id w.statefile })
unfolding give_up remove_from_cfgsched
give_up-struck host ev w id a files b named indexed gone =
    elim (Bool-cases (ev.socketnumber == 0)) [
      | inl zeroed ↦ elim (Bool-cases host.flock) [
        | inl locked ↦ simp (zeroed, locked, named, indexed, gone)
        | inr failed ↦ simp (zeroed, failed, named, indexed, gone)
      ]
      | inr other ↦ elim (Bool-cases host.flock) [
        | inl locked ↦ simp (other, locked, named, indexed, gone)
        | inr failed ↦ simp (other, failed, named, indexed, gone)
      ]
    ]

told_calls :
    (ev : Event) (w : World) (t : ℕ)
    → ev.pt ≡ some t
    → with_call
        (pthread_join t)
        (if is_done ev.status then w else with_call (shutdown_thread ev.pt) w)
      ≡ record w { calls = w.calls ++ last_calls ev t }
told_calls ev w t h = elim (Bool-cases (is_done ev.status)) [
  | inl done ↦ simp done
  | inr going ↦ simp (going, h, append_assoc)
]

-- free_and_close of a started event returns: its thread is joined, and told to stop before that
-- unless it is done already; its name is struck off the state file, if the lock is given, the event
-- has no socket number and the file can be written; and the file index of the recording has one
-- holder less, and all others as many as before. The list of indexes is a registry that has the
-- index of the event, a recorder leaves a recording index, and pthread_join succeeds.
pub free_and_close-Closed :
    (host : Host) (ev : Event) (w : World) (h : IsHolder w.files ev)
    → IsRegistry w.files
    → host.pthread_join h.thread ≡ true
    → (w' : World) × (free_and_close host ev w ≡ ok w') × Closed host ev w h w'
unfolding free_and_close join
free_and_close-Closed host ev w h r joins =
    let (files, gone, registered, counts, _) =
      afi_disassociate_lem w.files h.index h.fi (hold ev) r h.present h.leaves in
    let told = if is_done ev.status then w else with_call (shutdown_thread ev.pt) w in
    let w1 = record w { calls = w.calls ++ last_calls ev h.thread } in
    (
      record w1 { files = files; statefile = settings_left host ev h.id w.statefile },
      ap (join host ev told) h.threaded
          ∙ simp (joins, told_calls ev w h.thread h.threaded)
              (give_up-struck host ev w1 h.id h.index files true h.named h.indexed gone),
      record { registered = registered; left_index = counts; struck = refl; joined = refl },
    )
