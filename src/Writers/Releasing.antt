-- ===== src/Writers/Releasing.antt =====
-- src/common_wrt.c: a recording entity that has done its work, and which of them are left.
use vlbi_streamer.Base.{
  ℕ, suc, ◌+◌, ◌≡◌, refl, List, [], ◌∷◌, ◌++◌, none, true, false, All, ok, ap, ◌%◌, ◌^◌,
  if◌then◌else◌, ◌==◌, arith,
}
use vlbi_streamer.ResourceTree.{
  Listed, busy, unlink, update, assign, change_branch, set_free, is_awaited,
}
use vlbi_streamer.ResourceTree.Placement.{occurs, add_to_next-none}
use vlbi_streamer.ResourceTree.Picking.{holding}
use vlbi_streamer.Writers.{
  not_null, Recorder, Session, picking, check_if_suitable, common_finish_file, free_recorder,
}
use vlbi_streamer.Writers.Breaking.{idle, locate_held, failed_once}

abbrev pub finished : Listed Recorder → Listed Recorder
finished e = record e { entity = record (e.entity) { curfilename = none; has_opt = false } }

pub update_held :
    (l : List (Listed Recorder)) (e e' : Listed Recorder)
    → e'.self ≡ e.self
    → update (holding l e) busy e' ≡ holding l e'
unfolding update assign
update_held l e e' h = let hit : (e.self == e'.self) ≡ true = ground arith in rw hit

pub set_free_held :
    (s : Session) (l : List (Listed Recorder)) (e : Listed Recorder)
    → occurs e.self l ≡ 0
    → is_awaited e ≡ false
    → set_free (picking s) (holding l e) e.self ≡ ok (idle (l ++ e ∷ []))
unfolding set_free change_branch unlink
set_free_held s l e away alone = rw (locate_held l e away) (ground (arith, add_to_next-none l e))

common_finish_file_numbered :
    (s : Session) (e : Listed Recorder)
    → s.write_to_single_file ≡ false
    → e.entity.has_opt ≡ true
    → common_finish_file s e.entity ≡ ok (s, (finished e).entity)
unfolding common_finish_file
common_finish_file_numbered s e single has =
    let opened : not_null e.entity.has_opt ≡ ok tt = ap not_null has in
    let same : (if s.write_to_single_file
          then record s { next_fd_id_to_write = (s.next_fd_id_to_write + 1) % 2 ^ 64 }
          else s)
        ≡ s =
      ground arith in
    rw (opened, same)

-- A held recording entity that nobody waits for goes to the end of the free list.
pub free_recorder_held :
    (s : Session) (l : List (Listed Recorder)) (e : Listed Recorder)
    → s.write_to_single_file ≡ false
    → occurs e.self l ≡ 0
    → e.entity.has_opt ≡ true
    → is_awaited e ≡ false
    → free_recorder s (holding l e) e.self ≡ ok (s, idle (l ++ finished e ∷ []))
unfolding free_recorder
free_recorder_held s l e single away has alone = rw (
  locate_held l e away,
  common_finish_file_numbered s e single has,
  update_held l e (finished e) refl,
  set_free_held s l (finished e) away alone,
)

-- How many recording entities of a list are suitable.
unfoldable pub suitable : Session → List (Listed Recorder) → ℕ
suitable s [] = 0
suitable s (e ∷ l) = if check_if_suitable s e.entity then suc (suitable s l) else suitable s l

pub suitable-rest :
    (s : Session) (before after : List (Listed Recorder)) (e : Listed Recorder)
    → check_if_suitable s e.entity ≡ true
    → suitable s (before ++ e ∷ after) ≡ suitable s (before ++ after) + 1
unfolding suitable
suitable-rest s [] after e h = ground arith
suitable-rest s (g ∷ before) after e h = ground (arith, suitable-rest s before after e)

pub suitable-failed_once :
    (s : Session) (l : List (Listed Recorder)) → suitable (failed_once s) l ≡ suitable s l
unfolding suitable check_if_suitable
suitable-failed_once s [] = refl
suitable-failed_once s (e ∷ l) = rw (suitable-failed_once s l)

pub suitable-none :
    (s : Session) (l : List (Listed Recorder))
    → All (λ g. check_if_suitable s g.entity ≡ false) l
    → suitable s l ≡ 0
unfolding suitable
suitable-none s [] h = refl
suitable-none s (e ∷ l) (no_e, h) = rw no_e (suitable-none s l h)
