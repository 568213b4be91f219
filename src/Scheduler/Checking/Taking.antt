-- ===== src/Scheduler/Checking/Taking.antt =====
-- src/server.c: what one setting of the state file makes of the schedule.
use Prim.Native.String.{String}
use text.Mathlib.Text.{◌==◌ as str_eq}
use mathlib.Core.Path.{subst}
use vlbi_streamer.Base.{
  ℕ, ◌+◌, ◌≤◌, ◌≡◌, refl, sym, ◌∙◌, ap, List, [], ◌∷◌, ◌++◌, none, some, true, false, ◌⊎◌, inl, inr,
  ok, map, All, arith,
}
use vlbi_streamer.ResourceTree.{Listed, Branch, assign, update, add_to_entlist}
use vlbi_streamer.ResourceTree.Placement.{occurs, total, add_to_next-none}
use vlbi_streamer.ResourceTree.Splits.{occurs-before, assign-append}
use vlbi_streamer.Scheduler.{Event, Setting, Options, Schedule, Host, increment}
use vlbi_streamer.Scheduler.Standing.{IsSchedule, AllUnstarted}
use vlbi_streamer.Scheduler.Checking.{
  find_by_idstring, get_by_idstring, marked, new_event, listed, add_recording, take_setting,
}
use vlbi_streamer.Scheduler.Checking.Names.{
  is_named, named, IsNamed, mark_one, named-append, mark_one-absent, mark_one-hit, mark_one-miss,
}

-- How many events have a name, waiting or running.
abbrev pub scheduled : String → Schedule → ℕ
scheduled name d = named name d.br.freelist + named name d.br.busylist

-- A schedule in order of which every event has a name of its own.
pub record IsListed (d : Schedule) : Type 0 where
  pub in_order : IsSchedule d
  pub busy_named : All IsNamed d.br.busylist
  pub distinct : (name : String) → scheduled name d ≤ 1

-- A setting that asks for an event, with options that are fine.
pub record IsRequest (host : Host) (s : Setting) : Type 0 where
  pub opt : Options
  pub no_command : str_eq s.name "shutdown" ≡ false
  pub fine : s.set_from_root host.default_opt ≡ some opt

-- `malloc` gives an address that no event has.
abbrev pub GivesFresh : Host → Type 0
GivesFresh host = (br : Branch Event) → total (host.malloc br) br ≡ 0

-- The schedule with the marks of a name.
abbrev pub with_marks : String → Schedule → Schedule
with_marks name d = record d {
  br = record (d.br) {
    freelist = map (mark_one name) d.br.freelist;
    busylist = map (mark_one name) d.br.busylist;
  };
}

-- The event of a new request.
abbrev pub requested : Host → Schedule → Setting → Options → Listed Event
requested host d s opt =
    listed host d (record (new_event host) { idstring = some s.name; opt = opt })

-- The schedule with a new request at the end.
abbrev pub with_request : Host → Setting → Options → Schedule → Schedule
with_request host s opt d = record d {
  br = record (d.br) { freelist = d.br.freelist ++ requested host d s opt ∷ [] };
  n_scheduled = increment d.n_scheduled;
}

pub AllNamed-unstarted : (l : List (Listed Event)) → AllUnstarted l → All IsNamed l
AllNamed-unstarted [] h = tt
AllNamed-unstarted (le ∷ l) (h, hs) = ((h.id, h.named), AllNamed-unstarted l hs)

named-head :
    (name : String) (le : Listed Event) (l : List (Listed Event))
    → named name (le ∷ l) ≡ 0
    → is_named name le ≡ false
named-head name le l h = ground (arith, h)

mark_split :
    (name : String) (before after : List (Listed Event)) (le : Listed Event)
    → named name (before ++ le ∷ after) ≤ 1
    → named name before ≡ 0
    → is_named name le ≡ true
    → map (mark_one name) (before ++ le ∷ after) ≡ before ++ marked true le ∷ after
mark_split name [] after le h z hit =
    let rest : named name after ≡ 0 = ground (arith, hit) in
    simp (mark_one-absent name after rest) (ap (λ g. g ∷ after) (mark_one-hit name le hit))
mark_split name (g ∷ before) after le h z hit =
    let miss : is_named name g ≡ false = named-head name g before z in
    ap (λ x. x ∷ map (mark_one name) (before ++ le ∷ after)) (mark_one-miss name g miss)
    ∙ ap (λ l. g ∷ l) (mark_split name before after le (ground (arith, h)) (ground (arith, z)) hit)

-- The write of the mark through the pointer that the search gives.
assign-marked :
    (name : String) (l before after : List (Listed Event)) (le : Listed Event)
    → l ≡ before ++ le ∷ after
    → ((a : ℕ) → occurs a l ≤ 1)
    → named name l ≤ 1
    → named name before ≡ 0
    → is_named name le ≡ true
    → assign l (marked true le) ≡ map (mark_one name) l
assign-marked name l before after le e u once z hit =
    let fresh = occurs-before before after le (subst (λ t. occurs le.self t ≤ 1) e (u le.self)) in
    ap (λ t. assign t (marked true le)) e
    ∙ assign-append before after le (marked true le) refl fresh
    ∙ sym (mark_split name before after le (subst (λ t. named name t ≤ 1) e once) z hit)
    ∙ ap (map (mark_one name)) (sym e)

pub named-present :
    (name : String) (l before after : List (Listed Event)) (le : Listed Event)
    → l ≡ before ++ le ∷ after
    → is_named name le ≡ true
    → 1 ≤ named name l
named-present name l before after le e hit =
    ground (arith, hit, named-append name before (le ∷ after), ap (named name) e)

-- A setting whose name an event has marks the event.
pub take_setting-known :
    (host : Host) (d : Schedule) (s : Setting)
    → IsListed d
    → (before after : List (Listed Event)) (le : Listed Event)
    → ((d.br.freelist ≡ before ++ le ∷ after)
        × (find_by_idstring d.br.freelist s.name ≡ ok (some le)))
      ⊎ ((find_by_idstring d.br.freelist s.name ≡ ok none)
          × (d.br.busylist ≡ before ++ le ∷ after)
          × (find_by_idstring d.br.busylist s.name ≡ ok (some le)))
    → named s.name before ≡ 0
    → is_named s.name le ≡ true
    → take_setting host d s ≡ ok (with_marks s.name d)
unfolding take_setting get_by_idstring update
take_setting-known host d s h before after le (inl (e, found)) z hit =
    let here : 1 ≤ named s.name d.br.freelist =
      named-present s.name d.br.freelist before after le e hit in
    let other : named s.name d.br.busylist ≡ 0 = omega (arith, h.distinct s.name) in
    simp (
      found,
      assign-marked s.name d.br.freelist before after le e (λ a. omega (arith, h.in_order.unique a))
          (omega (arith, h.distinct s.name)) z hit,
      mark_one-absent s.name d.br.busylist other,
    )
take_setting-known host d s h before after le (inr (gone, e, found)) z hit =
    let here : 1 ≤ named s.name d.br.busylist =
      named-present s.name d.br.busylist before after le e hit in
    let other : named s.name d.br.freelist ≡ 0 = omega (arith, h.distinct s.name) in
    simp (
      gone,
      found,
      assign-marked s.name d.br.busylist before after le e (λ a. omega (arith, h.in_order.unique a))
          (omega (arith, h.distinct s.name)) z hit,
      mark_one-absent s.name d.br.freelist other,
    )

pub take_setting-new :
    (host : Host) (d : Schedule) (s : Setting) (q : IsRequest host s)
    → d.br.loadedlist ≡ []
    → find_by_idstring d.br.freelist s.name ≡ ok none
    → find_by_idstring d.br.busylist s.name ≡ ok none
    → take_setting host d s ≡ ok (with_request host s q.opt d)
unfolding take_setting get_by_idstring add_recording add_to_entlist find_by_idstring
take_setting-new host d s q empty f b =
    simp
      (f, b, empty, q.no_command, q.fine, add_to_next-none d.br.freelist (requested host d s q.opt))
