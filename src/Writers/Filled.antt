-- ===== src/Writers/Filled.antt =====
-- src/common_wrt.c: `handle_error` on a recording entity whose disk is full.
use vlbi_streamer.Base.{
  ◌+◌, ◌%◌, ◌^◌, ◌≡◌, refl, ap, List, [], ◌∷◌, ◌++◌, true, false, Bool-cases, inl, inr, ok,
  if◌then◌else◌, pos,
}
use vlbi_streamer.FileRegistry.{Files}
use vlbi_streamer.ResourceTree.{Listed, is_awaited}
use vlbi_streamer.ResourceTree.Placement.{occurs}
use vlbi_streamer.ResourceTree.Picking.{holding}
use vlbi_streamer.Writers.{
  Recorder, Session, full, enospc, check_if_suitable, common_finish_file, free_recorder,
  handle_error, not_null,
}
use vlbi_streamer.Writers.Breaking.{idle, locate_held}
use vlbi_streamer.Writers.Releasing.{finished, update_held, set_free_held}

abbrev pub filled : Listed Recorder → Listed Recorder
filled e = record e { entity = record (e.entity) { status = full } }

-- The options after the turn of a single file was handed on.
abbrev pub turned : Session → Session
turned s =
    if s.write_to_single_file
    then record s { next_fd_id_to_write = (s.next_fd_id_to_write + 1) % 2 ^ 64 }
    else s

free_turned :
    (s : Session) (l : List (Listed Recorder)) (e : Listed Recorder)
    → occurs e.self l ≡ 0
    → e.entity.has_opt ≡ true
    → is_awaited e ≡ false
    → free_recorder s (holding l e) e.self ≡ ok (turned s, idle (l ++ finished e ∷ []))
unfolding free_recorder common_finish_file
free_turned s l e away has alone =
    let opened : not_null e.entity.has_opt ≡ ok tt = ap not_null has in
    rw (
      locate_held l e away,
      opened,
      update_held l e (finished e) refl,
      set_free_held s l (finished e) away alone,
    )

-- What a full disk leaves.
pub record IsFilled (s s' : Session) (e g : Listed Recorder) : Type 0 where
  pub same : g.self ≡ e.self
  pub closed : g.entity.has_opt ≡ false
  pub suitable : check_if_suitable s' g.entity ≡ s.readmode
  pub failures : s'.hd_failures ≡ s.hd_failures
  pub turn : s'.next_fd_id_to_write ≡ (
      if s.write_to_single_file
      then (s.next_fd_id_to_write + 1) % 2 ^ 64
      else s.next_fd_id_to_write)

-- A recording entity whose disk is full is not removed: handle_error puts it at the end of the free
-- list, closed, marks it so that it is suitable for reading only, and counts no failure; but its
-- release hands on the turn of a single file, though nothing was written. It is held and open, and
-- nobody waits for it.
pub handle_error-IsFilled :
    (s : Session) (l : List (Listed Recorder)) (files : Files) (e : Listed Recorder)
    → occurs e.self l ≡ 0
    → e.entity.has_opt ≡ true
    → is_awaited e ≡ false
    → (s' : Session) × (g : Listed Recorder) × (handle_error s (holding l e) files e (pos enospc)
        ≡ ok (s', idle (l ++ g ∷ []), files))
      × IsFilled s s' e g
unfolding handle_error check_if_suitable
handle_error-IsFilled s l files e away has alone =
    let opened : not_null e.entity.has_opt ≡ ok tt = ap not_null has in
    let done = free_turned s l (filled e) away has alone in
    let g = finished (filled e) in
    (
      turned s,
      g,
      rw (opened, locate_held l e away, update_held l e (filled e) refl, done),
      elim (Bool-cases s.write_to_single_file) [
        | inl y ↦
            rw y
              (record { same = refl; closed = refl; suitable = refl; failures = refl; turn = refl })
        | inr n ↦
            rw n
              (record { same = refl; closed = refl; suitable = refl; failures = refl; turn = refl })
      ],
    )
