-- ===== src/Scheduler/Checking/Keeping.antt =====
-- src/server.c: what a setting of the state file keeps of the schedule, and which names it has then.
use Prim.Native.String.{String}
use text.Mathlib.Text.{◌==◌ as str_eq}
use text.Mathlib.TextEquality.{eq_iff}
use mathlib.Core.List.{append-nil}
use mathlib.Core.Path.{subst}
use vlbi_streamer.Base.{
  ◌+◌, ◌≡◌, refl, sym, List, [], ◌∷◌, ◌++◌, Bool, true, false, ◌==◌, if◌then◌else◌, Bool-cases, inl,
  inr, ok, map, All, All-append, length, length-append, arith,
}
use vlbi_streamer.ResourceTree.{Listed}
use vlbi_streamer.ResourceTree.Placement.{total}
use vlbi_streamer.ResourceTree.Splits.{occurs-append}
use vlbi_streamer.Scheduler.{Event, Setting, Options, Schedule, Host}
use vlbi_streamer.Scheduler.Standing.{IsUnstarted, IsSchedule}
use vlbi_streamer.Scheduler.Checking.{marked, take_setting}
use vlbi_streamer.Scheduler.Checking.Names.{
  is_named, named, IsNamed, mark_one, mark_one-absent, named-append, named-mark_one,
  occurs-mark_one, find_by_idstring-cases,
}
use vlbi_streamer.Scheduler.Checking.Taking.{
  scheduled, IsListed, IsRequest, GivesFresh, with_marks, requested, with_request,
  AllNamed-unstarted, named-present, take_setting-known, take_setting-new,
}

length-mark_one :
    (name : String) (l : List (Listed Event)) → length (map (mark_one name) l) ≡ length l
length-mark_one name [] = refl
length-mark_one name (le ∷ l) = omega (arith, length-mark_one name l)

-- What does not look at the mark is kept.
IsUnstarted-marked :
    (le : Listed Event) → IsUnstarted le.entity → IsUnstarted (marked true le).entity
IsUnstarted-marked le h = record {
  id = h.id;
  named = h.named;
  remote = h.remote;
  idle = h.idle;
  unindexed = h.unindexed;
  threadless = h.threadless;
}

IsUnstarted-mark_one :
    (name : String) (le : Listed Event)
    → IsUnstarted le.entity
    → IsUnstarted (mark_one name le).entity
IsUnstarted-mark_one name le h = go (is_named name le)
  where
    go : (b : Bool) → IsUnstarted (if b then marked true le else le).entity
    go true = IsUnstarted-marked le h
    go false = h

IsNamed-mark_one : (name : String) (le : Listed Event) → IsNamed le → IsNamed (mark_one name le)
IsNamed-mark_one name le h = go (is_named name le)
  where
    go : (b : Bool) → IsNamed (if b then marked true le else le)
    go true = h
    go false = h

All-mark_one :
    (P : Listed Event → Type 0) (name : String)
    → ((le : Listed Event) → P le → P (mark_one name le))
    → (l : List (Listed Event)) → All P l
    → All P (map (mark_one name) l)
All-mark_one P name keeps [] h = tt
All-mark_one P name keeps (le ∷ l) h = (keeps le h.0, All-mark_one P name keeps l h.1)

pub scheduled-marks :
    (j name : String) (d : Schedule) → scheduled j (with_marks name d) ≡ scheduled j d
scheduled-marks j name d =
    omega (arith, named-mark_one j name d.br.freelist, named-mark_one j name d.br.busylist)

IsSchedule-marks : (name : String) (d : Schedule) → IsSchedule d → IsSchedule (with_marks name d)
IsSchedule-marks name d s = record {
  unique = λ a. omega (
    arith,
    s.unique a,
    occurs-mark_one a name d.br.freelist,
    occurs-mark_one a name d.br.busylist,
  );
  scheduled = omega (arith, s.scheduled, length-mark_one name d.br.freelist);
  counted = omega (arith, s.counted, length-mark_one name d.br.busylist);
  unstarted =
      All-mark_one (λ le. IsUnstarted le.entity) name (IsUnstarted-mark_one name) d.br.freelist
        s.unstarted;
  unloaded = s.unloaded;
}

IsListed-marks : (name : String) (d : Schedule) → IsListed d → IsListed (with_marks name d)
IsListed-marks name d h = record {
  in_order = IsSchedule-marks name d h.in_order;
  busy_named = All-mark_one IsNamed name (IsNamed-mark_one name) d.br.busylist h.busy_named;
  distinct = λ j. omega (arith, h.distinct j, scheduled-marks j name d);
}

pub scheduled-requested :
    (host : Host) (s : Setting) (opt : Options) (j : String) (d : Schedule)
    → scheduled j (with_request host s opt d) ≡ scheduled j d + (if str_eq j s.name then 1 else 0)
scheduled-requested host s opt j d =
    omega (arith, named-append j d.br.freelist (requested host d s opt ∷ []))

IsSchedule-requested :
    (host : Host) (s : Setting) (opt : Options) (d : Schedule)
    → GivesFresh host
    → IsSchedule d
    → IsSchedule (with_request host s opt d)
IsSchedule-requested host s opt d fresh h =
    let le = requested host d s opt in
    record {
      unique = λ a.
          let o = occurs-append a d.br.freelist (le ∷ []) in
          elim (Bool-cases (le.self == a)) [
            | inl same ↦
                let e : le.self ≡ a = ground arith in
                let none_yet : total a d.br ≡ 0 = subst (λ x. total x d.br ≡ 0) e (fresh d.br) in
                ground (arith, o)
            | inr other ↦ ground (arith, o, h.unique a)
          ];
      scheduled = omega (arith, h.scheduled, length-append d.br.freelist (le ∷ []));
      counted = h.counted;
      unstarted =
          All-append (λ g. IsUnstarted g.entity) d.br.freelist (le ∷ []) h.unstarted
            (
              record {
                id = s.name;
                named = refl;
                remote = refl;
                idle = refl;
                unindexed = refl;
                threadless = refl;
              },
              tt,
            );
      unloaded = h.unloaded;
    }

IsListed-requested :
    (host : Host) (s : Setting) (opt : Options) (d : Schedule)
    → GivesFresh host
    → scheduled s.name d ≡ 0
    → IsListed d
    → IsListed (with_request host s opt d)
IsListed-requested host s opt d fresh absent h = record {
  in_order = IsSchedule-requested host s opt d fresh h.in_order;
  busy_named = h.busy_named;
  distinct = λ j. elim (Bool-cases (str_eq j s.name)) [
    | inl same ↦
        let e : j ≡ s.name = (eq_iff j s.name).0 same in
        let none_yet : scheduled j d ≡ 0 = subst (λ x. scheduled x d ≡ 0) (sym e) absent in
        ground (arith, scheduled-requested host s opt j d)
    | inr other ↦ ground (arith, scheduled-requested host s opt j d, h.distinct j)
  ];
}

-- What a setting makes of the schedule: it marks the events of its name, and adds one if there is
-- none.
pub record Took (d : Schedule) (s : Setting) (d' : Schedule) : Type 0 where
  pub new : List (Listed Event)
  pub waiting : d'.br.freelist ≡ map (mark_one s.name) d.br.freelist ++ new
  pub running : d'.br.busylist ≡ map (mark_one s.name) d.br.busylist
  pub found : All (λ le. le.entity.found ≡ true) new
  pub list_kept : IsListed d'
  pub counted : (j : String) → scheduled j d' ≡ (if str_eq j s.name then 1 else scheduled j d)

Took-marks :
    (d : Schedule) (s : Setting)
    → IsListed d
    → scheduled s.name d ≡ 1
    → Took d s (with_marks s.name d)
Took-marks d s h known = record {
  new = [];
  waiting = sym (append-nil (map (mark_one s.name) d.br.freelist));
  running = refl;
  found = tt;
  list_kept = IsListed-marks s.name d h;
  counted = λ j. elim (Bool-cases (str_eq j s.name)) [
    | inl same ↦
        let here : scheduled j d ≡ 1 =
          subst (λ x. scheduled x d ≡ 1) (sym ((eq_iff j s.name).0 same)) known in
        ground (arith, scheduled-marks j s.name d)
    | inr other ↦ ground (arith, scheduled-marks j s.name d)
  ];
}

Took-requested :
    (host : Host) (d : Schedule) (s : Setting) (opt : Options)
    → GivesFresh host
    → IsListed d
    → named s.name d.br.freelist ≡ 0
    → named s.name d.br.busylist ≡ 0
    → Took d s (with_request host s opt d)
Took-requested host d s opt fresh h f b =
    let absent : scheduled s.name d ≡ 0 = omega arith in
    record {
      new = requested host d s opt ∷ [];
      waiting = rw (mark_one-absent s.name d.br.freelist f) refl;
      running = sym (mark_one-absent s.name d.br.busylist b);
      found = (refl, tt);
      list_kept = IsListed-requested host s opt d fresh absent h;
      counted = λ j. elim (Bool-cases (str_eq j s.name)) [
        | inl same ↦
            let none_yet : scheduled j d ≡ 0 =
              subst (λ x. scheduled x d ≡ 0) (sym ((eq_iff j s.name).0 same)) absent in
            ground (arith, scheduled-requested host s opt j d)
        | inr other ↦ ground (arith, scheduled-requested host s opt j d)
      ];
    }

pub take_setting-Took :
    (host : Host) (d : Schedule) (s : Setting)
    → GivesFresh host
    → IsRequest host s
    → IsListed d
    → (d' : Schedule) × (take_setting host d s ≡ ok d') × Took d s d'
take_setting-Took host d s fresh q h =
    elim (find_by_idstring-cases s.name d.br.freelist
      (AllNamed-unstarted d.br.freelist h.in_order.unstarted)) [
        | inr (before, after, le, e, found, z, hit) ↦
            let here = named-present s.name d.br.freelist before after le e hit in
            (
              with_marks s.name d,
              take_setting-known host d s h before after le (inl (e, found)) z hit,
              Took-marks d s h (omega (arith, h.distinct s.name)),
            )
        | inl (gone, f) ↦ elim (find_by_idstring-cases s.name d.br.busylist h.busy_named) [
          | inr (before, after, le, e, found, z, hit) ↦
              let here = named-present s.name d.br.busylist before after le e hit in
              (
                with_marks s.name d,
                take_setting-known host d s h before after le (inr (gone, e, found)) z hit,
                Took-marks d s h (omega (arith, h.distinct s.name)),
              )
          | inl (gone_too, b) ↦ (
            with_request host s q.opt d,
            take_setting-new host d s q h.in_order.unloaded gone gone_too,
            Took-requested host d s q.opt fresh h f b,
          )
        ]
      ]
