-- ===== src/Scheduler/Checking/Syncing.antt =====
-- src/server.c: `check_schedule` against the state file as a set of names.
use Prim.Native.String.{String}
use text.Mathlib.Text.{◌==◌ as str_eq}
use text.Mathlib.TextEquality.{eq_iff}
use mathlib.Core.Path.{subst}
use vlbi_streamer.Base.{
  ℕ, suc, ◌+◌, ◌≡◌, refl, sym, ◌∙◌, ap, List, [], ◌∷◌, Option, none, some, Bool, true, false, not,
  ◌||◌, if◌then◌else◌, Bool-cases, inl, inr, ok, map, All, All-append, length, arith,
}
use vlbi_streamer.ResourceTree.{Listed, Branch, loop_and_check, get_from_all}
use vlbi_streamer.Scheduler.{Event, Setting, Schedule, Host}
use vlbi_streamer.Scheduler.Checking.{zerofound, sweep, check_schedule}
use vlbi_streamer.Scheduler.Checking.Names.{
  is_named, named, mark, in_file, mark-found, is_named_lem,
}
use vlbi_streamer.Scheduler.Checking.Taking.{scheduled, IsListed, IsRequest, GivesFresh}
use vlbi_streamer.Scheduler.Checking.TakingAll.{lists, AllFound, or-true, take_settings-TookAll}
use vlbi_streamer.Scheduler.Checking.Zeroing.{scheduled-zerofound, IsListed-zerofound}

AllFound-in_file :
    (settings : List Setting) (l : List (Listed Event))
    → All (λ le. in_file settings le ≡ true) l
    → AllFound (map (mark settings) l)
AllFound-in_file settings [] h = tt
AllFound-in_file settings (le ∷ l) (h, hs) =
    (mark-found settings le ∙ ap (λ b. b || le.entity.found) h, AllFound-in_file settings l hs)

pub loop_and_check-AllFound :
    (l : List (Listed Event)) → AllFound l → loop_and_check (λ ev. not ev.found) l ≡ none
unfolding loop_and_check
loop_and_check-AllFound [] h = refl
loop_and_check-AllFound (le ∷ l) (h, hs) = simp (h, loop_and_check-AllFound l hs)

nothing_wanted :
    (br : Branch Event)
    → AllFound br.freelist
    → AllFound br.busylist
    → br.loadedlist ≡ []
    → get_from_all (λ ev. not ev.found) br ≡ none
unfolding get_from_all
nothing_wanted br f b e =
    let l : AllFound br.loadedlist = subst AllFound (sym e) tt in
    rw
      (
        loop_and_check-AllFound br.freelist f,
        loop_and_check-AllFound br.busylist b,
        loop_and_check-AllFound br.loadedlist l,
        get_from_all,
      )
      refl

pub sweep-AllFound :
    (host : Host) (fuel : ℕ) (d : Schedule)
    → AllFound d.br.freelist
    → AllFound d.br.busylist
    → d.br.loadedlist ≡ []
    → sweep host (suc fuel) d ≡ ok d
unfolding sweep
sweep-AllFound host fuel d f b e = rw (nothing_wanted d.br f b e, sweep) refl

pub is_named-idstring :
    (j : String) (le : Listed Event)
    → is_named j le ≡ true
    → (id : String) × (le.entity.idstring ≡ some id) × (id ≡ j)
is_named-idstring j le h = go le.entity.idstring refl
  where
    go :
        (o : Option String)
        → le.entity.idstring ≡ o
        → (id : String) × (le.entity.idstring ≡ some id) × (id ≡ j)
    go none e =
        let no : false ≡ true =
          ap (λ (o : Option String). elim o as (λ _. Bool) [ none ↦ false | some i ↦ str_eq j i ])
            (sym e)
          ∙ h in
        cc
    go (some id) e = (id, e, sym ((eq_iff j id).0 (sym (is_named_lem j id le e) ∙ h)))

in_file-lists :
    (settings : List Setting) (j : String) (le : Listed Event)
    → is_named j le ≡ true
    → in_file settings le ≡ true
    → lists j settings ≡ true
in_file-lists [] j le h f = f
in_file-lists (s ∷ settings) j le h f = elim (Bool-cases (is_named s.name le)) [
  | inl hit ↦
      let (id, e, same) = is_named-idstring s.name le hit in
      let (id', e', same') = is_named-idstring j le h in
      let equal : j ≡ s.name = cc in ap (λ b. b || lists j settings) ((eq_iff j s.name).1 equal)
  | inr miss ↦
      or-true (str_eq j s.name) (lists j settings)
        (in_file-lists settings j le h (ap (λ b. b || in_file settings le) (sym miss) ∙ f))
]

-- No event of a name that the state file does not have.
pub named-unlisted :
    (settings : List Setting) (j : String) (l : List (Listed Event))
    → All (λ le. in_file settings le ≡ true) l
    → lists j settings ≡ false
    → named j l ≡ 0
named-unlisted settings j [] h off = refl
named-unlisted settings j (le ∷ l) (h, hs) off = elim (Bool-cases (is_named j le)) [
  | inl hit ↦ let on : lists j settings ≡ true = in_file-lists settings j le hit h in cc
  | inr miss ↦ ground (arith, miss, named-unlisted settings j l hs off)
]

-- What check_schedule makes of the schedule.
pub record Synced (d d' : Schedule) : Type 0 where
  pub list_kept : IsListed d'
  pub exact : (j : String) → scheduled j d' ≡ (if lists j d.world.statefile then 1 else 0)

exactly :
    (d : Schedule) (j : String)
    → All (λ le. in_file d.world.statefile le ≡ true) d.br.freelist
    → All (λ le. in_file d.world.statefile le ≡ true) d.br.busylist
    → (if lists j d.world.statefile then 1 else scheduled j d)
      ≡ (if lists j d.world.statefile then 1 else 0)
exactly d j f b = elim (Bool-cases (lists j d.world.statefile)) [
  | inl on ↦ simp on
  | inr off ↦ ground (
    arith,
    off,
    named-unlisted d.world.statefile j d.br.freelist f off,
    named-unlisted d.world.statefile j d.br.busylist b off,
  )
]

-- The schedule implements the state file as a set of names: check_schedule returns, each name of
-- the state file then has exactly one event, waiting or running, and no other name has one; the new
-- schedule has one event for each address, its counters are the lengths of its lists, and its
-- waiting events were never started. The schedule is in order before, all its events are in the
-- state file, all settings of the file are requests that are fine, and malloc gives addresses that
-- no event has.
pub check_schedule-Synced :
    (host : Host) (d : Schedule)
    → GivesFresh host
    → All (IsRequest host) d.world.statefile
    → IsListed d
    → All (λ le. in_file d.world.statefile le ≡ true) d.br.freelist
    → All (λ le. in_file d.world.statefile le ≡ true) d.br.busylist
    → (d' : Schedule) × (check_schedule host d ≡ ok d') × Synced d d'
unfolding check_schedule
check_schedule-Synced host d fresh q h f b =
    let file = d.world.statefile in
    let (d1, taken, t) = take_settings-TookAll host file d fresh q h in
    let f1 : AllFound d1.br.freelist = subst AllFound (sym t.waiting) (
      All-append (λ le. le.entity.found ≡ true) (map (mark file) d.br.freelist) t.new
        (AllFound-in_file file d.br.freelist f) t.found) in
    let b1 : AllFound d1.br.busylist =
      subst AllFound (sym t.running) (AllFound-in_file file d.br.busylist b) in
    let n = length d1.br.freelist + length d1.br.busylist + length d1.br.loadedlist in
    let e : n + 1 ≡ suc n = omega arith in
    (
      zerofound d1,
      rw taken (rw e (rw (sweep-AllFound host n d1 f1 b1 t.list_kept.in_order.unloaded) refl)),
      record {
        list_kept = IsListed-zerofound d1 t.list_kept;
        exact = λ j. scheduled-zerofound j d1 ∙ t.counted j ∙ exactly d j f b;
      },
    )
