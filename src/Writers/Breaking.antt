-- ===== src/Writers/Breaking.antt =====
-- src/common_wrt.c: `handle_error` on a recording entity that is broken.
use vlbi_streamer.Base.{◌+◌, ◌%◌, ◌^◌, ◌≡◌, List, [], some, false, true, ok, ℤ, arith}
use vlbi_streamer.FileRegistry.{Files}
use vlbi_streamer.ResourceTree.{Listed, Branch, busy, find, locate, unlink, remove_from_branch}
use vlbi_streamer.ResourceTree.Placement.{occurs}
use vlbi_streamer.ResourceTree.Picking.{holding}
use vlbi_streamer.ResourceTree.Splits.{find-none}
use vlbi_streamer.Writers.{Recorder, Session, is_enospc, handle_error, lose_files}

abbrev pub idle : List (Listed Recorder) → Branch Recorder
idle l = record { freelist = l; busylist = []; loadedlist = [] }

abbrev pub failed_once : Session → Session
failed_once s = record s { hd_failures = (s.hd_failures + 1) % 2 ^ 32 }

pub locate_held :
    (l : List (Listed Recorder)) (e : Listed Recorder)
    → occurs e.self l ≡ 0
    → locate (holding l e) e.self ≡ some (busy, e)
unfolding locate find
locate_held l e h = rw (find-none l e.self h) (ground arith)

-- A recording entity that is broken leaves its branch.
pub handle_error_broken :
    (s : Session) (l : List (Listed Recorder)) (files : Files) (e : Listed Recorder) (errornum : ℤ)
    → occurs e.self l ≡ 0
    → e.entity.has_opt ≡ true
    → s.readmode ≡ false
    → is_enospc errornum ≡ false
    → handle_error s (holding l e) files e errornum ≡ ok (failed_once s, idle l, files)
unfolding handle_error lose_files remove_from_branch unlink
handle_error_broken s l files e errornum free_of has rd err =
    rw (has, err, rd, locate_held l e free_of) (ground arith)
