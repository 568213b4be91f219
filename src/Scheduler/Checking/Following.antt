-- ===== src/Scheduler/Checking/Following.antt =====
-- src/server.c: `check_schedule` follows the state file, whatever the host answers.
use Prim.Native.String.{String}
use text.Mathlib.Text.{◌==◌ as str_eq}
use text.Mathlib.TextPositions.{eq_refl}
use mathlib.Core.Path.{subst}
use vlbi_streamer.Base.{
  ◌+◌, ◌≡◌, refl, sym, ◌∙◌, ap, List, [], ◌∷◌, Bool, true, false, ◌||◌, Option, none, some,
  if◌then◌else◌, Bool-cases, inl, inr, ok, map, All, All-append, All-split, length, Ensures,
  Ensures-bind, arith,
}
use vlbi_streamer.ResourceTree.{Listed}
use vlbi_streamer.Scheduler.{Event, Setting, Schedule, Host}
use vlbi_streamer.Scheduler.Checking.{marked, zerofound, sweep, check_schedule}
use vlbi_streamer.Scheduler.Checking.Names.{
  is_named, is_named_lem, IsNamed, named, mark_one, mark, in_file, mark-found, named-append,
  named-mark_one,
}
use vlbi_streamer.Scheduler.Checking.Taking.{
  scheduled, IsListed, IsRequest, GivesFresh, AllNamed-unstarted,
}
use vlbi_streamer.Scheduler.Checking.Syncing.{Synced, named-unlisted}
use vlbi_streamer.Scheduler.Checking.TakingAll.{
  lists, AllFound, TookAll, take_settings-TookAll, map_twice, map_nothing,
}
use vlbi_streamer.Scheduler.Checking.Zeroing.{IsListed-zerofound, scheduled-zerofound}
use vlbi_streamer.Scheduler.Checking.Cancelling.{
  AllExact, AllActive, Sweeping, Swept, lists-in_file, sweep-Swept,
}

-- What a mark leaves alone.
kept_one :
    (name : String) (le : Listed Event)
    → ((mark_one name le).entity.idstring ≡ le.entity.idstring)
      × ((mark_one name le).entity.status ≡ le.entity.status)
kept_one name le = go (is_named name le)
  where
    go :
        (b : Bool)
        → let g = if b then marked true le else le in
          (g.entity.idstring ≡ le.entity.idstring) × (g.entity.status ≡ le.entity.status)
    go true = (refl, refl)
    go false = (refl, refl)

kept_by_mark :
    (file : List Setting) (le : Listed Event)
    → ((mark file le).entity.idstring ≡ le.entity.idstring)
      × ((mark file le).entity.status ≡ le.entity.status)
kept_by_mark [] le = (refl, refl)
kept_by_mark (s ∷ file) le =
    let (i, t) = kept_by_mark file (mark_one s.name le) in
    let (i', t') = kept_one s.name le in (i ∙ i', t ∙ t')

in_file-same :
    (file : List Setting) (g le : Listed Event)
    → g.entity.idstring ≡ le.entity.idstring
    → in_file file g ≡ in_file file le
in_file-same [] g le e = refl
in_file-same (s ∷ file) g le e =
    ap
      (λ (o : Option String).
        (elim o as (λ _. Bool) [ none ↦ false | some i ↦ str_eq s.name i ]) || in_file file g)
      e
    ∙ ap (λ b. is_named s.name le || b) (in_file-same file g le e)

named-mark :
    (j : String) (file : List Setting) (l : List (Listed Event))
    → named j (map (mark file) l) ≡ named j l
named-mark j [] l = ap (named j) (map_nothing l)
named-mark j (s ∷ file) l =
    ap (named j) (sym (map_twice s file l))
    ∙ named-mark j file (map (mark_one s.name) l)
    ∙ named-mark_one j s.name l

AllExact-mark :
    (file : List Setting) (l : List (Listed Event))
    → All (λ le. le.entity.found ≡ false) l
    → AllExact file (map (mark file) l)
AllExact-mark file [] h = tt
AllExact-mark file (le ∷ l) (h, hs) = (
  mark-found file le
      ∙ ap (λ b. in_file file le || b) h
      ∙ or-false (in_file file le)
      ∙ sym (in_file-same file (mark file le) le (kept_by_mark file le).0),
  AllExact-mark file l hs,
)
  where
    or-false : (b : Bool) → (b || false) ≡ b
    or-false true = refl
    or-false false = refl

AllActive-mark :
    (file : List Setting) (l : List (Listed Event)) → AllActive l → AllActive (map (mark file) l)
AllActive-mark file [] h = tt
AllActive-mark file (le ∷ l) (h, hs) = ((kept_by_mark file le).1 ∙ h, AllActive-mark file l hs)

-- The new events are those of names that the state file has.
AllExact-new :
    (file : List Setting) (l : List (Listed Event))
    → AllFound l
    → All (λ le. (id : String) × (le.entity.idstring ≡ some id)) l
    → ((j : String) → lists j file ≡ false → named j l ≡ 0)
    → AllExact file l
AllExact-new file [] f n h = tt
AllExact-new file (le ∷ l) (f, fs) ((id, e), ns) h =
    let here : is_named id le ≡ true = is_named_lem id id le e ∙ eq_refl id in
    (
      elim (Bool-cases (lists id file)) [
        | inl on ↦ f ∙ sym (lists-in_file file id le here on)
        | inr off ↦ absurd (ground (arith, here, h id off))
      ],
      AllExact-new file l fs ns (λ j off. omega (arith, h j off)),
    )

TookAll-Sweeping :
    (d d' : Schedule) (file : List Setting)
    → All (λ le. le.entity.found ≡ false) d.br.freelist
    → All (λ le. le.entity.found ≡ false) d.br.busylist
    → AllActive d.br.busylist
    → TookAll d file d'
    → Sweeping file d'
TookAll-Sweeping d d' file f b a t =
    let P = λ (g : Listed Event). g.entity.found ≡ in_file file g in
    let names = All-split IsNamed (map (mark file) d.br.freelist) t.new (
      subst (All IsNamed) t.waiting
        (AllNamed-unstarted d'.br.freelist t.list_kept.in_order.unstarted)) in
    let fresh : AllExact file t.new = AllExact-new file t.new t.found names.1 (λ j off.
      let total = ap (named j) t.waiting ∙ named-append j (map (mark file) d.br.freelist) t.new in
      ground (
        arith,
        t.counted j,
        off,
        total,
        named-mark j file d.br.freelist,
        ap (named j) t.running,
        named-mark j file d.br.busylist,
      )) in
    record {
      list_kept = t.list_kept;
      exact_free = subst (All P) (sym t.waiting) (
          All-append P (map (mark file) d.br.freelist) t.new (AllExact-mark file d.br.freelist f)
            fresh);
      exact_busy = subst (All P) (sym t.running) (AllExact-mark file d.br.busylist b);
      active = subst AllActive (sym t.running) (AllActive-mark file d.br.busylist a);
      complete = λ j on. ground (arith, t.counted j, on);
    }

in_file-AllFound :
    (file : List Setting) (l : List (Listed Event))
    → AllExact file l
    → AllFound l
    → All (λ le. in_file file le ≡ true) l
in_file-AllFound file [] e f = tt
in_file-AllFound file (le ∷ l) (e, es) (f, fs) = (sym e ∙ f, in_file-AllFound file l es fs)

Swept-Synced : (d d' : Schedule) → Swept d.world.statefile d' → Synced d (zerofound d')
Swept-Synced d d' (s, f, b) = record {
  list_kept = IsListed-zerofound d' s.list_kept;
  exact = λ j. scheduled-zerofound j d' ∙ exactly j;
}
  where
    exactly : (j : String) → scheduled j d' ≡ (if lists j d.world.statefile then 1 else 0)
    exactly j = elim (Bool-cases (lists j d.world.statefile)) [
      | inl on ↦ rw on (s.complete j on)
      | inr off ↦ ground (
        arith,
        off,
        named-unlisted d.world.statefile j d'.br.freelist
            (in_file-AllFound d.world.statefile d'.br.freelist s.exact_free f) off,
        named-unlisted d.world.statefile j d'.br.busylist
            (in_file-AllFound d.world.statefile d'.br.busylist s.exact_busy b) off,
      )
    ]

-- Whatever the host answers, when check_schedule returns, each name of the state file has exactly
-- one event, waiting or running, and no other name has one; the new schedule has one event for each
-- address, its counters are the lengths of its lists, and its waiting events were never started.
-- The schedule is in order before, with different names and no marks, no running event is over, all
-- settings of the file are requests that are fine, and malloc gives addresses that no event has.
pub check_schedule_follows :
    (host : Host) (d : Schedule)
    → GivesFresh host
    → All (IsRequest host) d.world.statefile
    → IsListed d
    → All (λ le. le.entity.found ≡ false) d.br.freelist
    → All (λ le. le.entity.found ≡ false) d.br.busylist
    → AllActive d.br.busylist
    → Ensures (Synced d) (check_schedule host d)
unfolding check_schedule
check_schedule_follows host d fresh q h f b a =
    let file = d.world.statefile in
    let (d1, taken, t) = take_settings-TookAll host file d fresh q h in
    let n = length d1.br.freelist + length d1.br.busylist + length d1.br.loadedlist + 1 in
    rw taken (
      Ensures-bind (Swept file) (Synced d) (sweep host n d1) (λ d2. ok (zerofound d2))
        (sweep-Swept host file n d1 (TookAll-Sweeping d d1 file f b a t))
        (λ d2 s. Swept-Synced d d2 s))
