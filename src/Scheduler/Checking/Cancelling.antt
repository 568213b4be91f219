-- ===== src/Scheduler/Checking/Cancelling.antt =====
-- src/server.c: `check_schedule` when running events are gone from the state file.
use Prim.Native.String.{String}
use text.Mathlib.Text.{◌==◌ as str_eq}
use text.Mathlib.TextEquality.{eq_iff}
use mathlib.Core.Path.{subst}
use vlbi_streamer.Base.{
  ℕ, zero, suc, ◌+◌, ◌≤◌, ◌≡◌, refl, sym, ◌∙◌, ap, List, [], ◌∷◌, ◌++◌, some, true, false, not,
  ◌||◌, if◌then◌else◌, Bool-cases, inl, inr, ok, All, All-append, All-split, length, length-rest,
  Ensures, Ensures-bind, Ensures-any, arith,
}
use vlbi_streamer.ResourceTree.{Listed, busy, assign, update, loop_and_check, get_from_all}
use vlbi_streamer.ResourceTree.Placement.{at, occurs}
use vlbi_streamer.ResourceTree.Splits.{occurs-before, occurs-rest, assign-append}
use vlbi_streamer.Scheduler.{
  Event, Setting, Schedule, World, Host, running, cancelled, decrement, free_and_close,
  is_running_status, remove_event,
}
use vlbi_streamer.Scheduler.Removal.{unbusied, remove_event-running}
use vlbi_streamer.Scheduler.Checking.{cancel, sweep}
use vlbi_streamer.Scheduler.Checking.Names.{is_named, named, IsNamed, in_file, named-append}
use vlbi_streamer.Scheduler.Checking.Taking.{scheduled, IsListed}
use vlbi_streamer.Scheduler.Checking.Syncing.{sweep-AllFound, loop_and_check-AllFound}
use vlbi_streamer.Scheduler.Checking.TakingAll.{lists, AllFound, or-true}
use vlbi_streamer.Scheduler.Checking.Unlisted.{loop_and_check-cases, sweep-unstarted}

-- The mark says whether the state file has the event.
abbrev pub AllExact : List Setting → List (Listed Event) → Type 0
AllExact file l = All (λ le. le.entity.found ≡ in_file file le) l

abbrev pub AllActive : List (Listed Event) → Type 0
AllActive l = All (λ le. le.entity.status ≡ running) l

-- What holds between the removals.
pub record Sweeping (file : List Setting) (d : Schedule) : Type 0 where
  pub list_kept : IsListed d
  pub exact_free : AllExact file d.br.freelist
  pub exact_busy : AllExact file d.br.busylist
  pub active : AllActive d.br.busylist
  pub complete : (j : String) → lists j file ≡ true → scheduled j d ≡ 1

pub lists-in_file :
    (file : List Setting) (j : String) (le : Listed Event)
    → is_named j le ≡ true
    → lists j file ≡ true
    → in_file file le ≡ true
lists-in_file [] j le h f = f
lists-in_file (s ∷ file) j le h f = elim (Bool-cases (str_eq j s.name)) [
  | inl hit ↦
      let same : j ≡ s.name = (eq_iff j s.name).0 hit in
      ap (λ b. b || in_file file le) (subst (λ x. is_named x le ≡ true) same h)
  | inr miss ↦
      or-true (is_named s.name le) (in_file file le)
        (lists-in_file file j le h (ap (λ b. b || lists j file) (sym miss) ∙ f))
]

named-rest :
    (j : String) (before after : List (Listed Event)) (le : Listed Event)
    → named j (before ++ le ∷ after) ≡ named j (before ++ after) + (if is_named j le then 1 else 0)
named-rest j before after le =
    omega (arith, named-append j before (le ∷ after), named-append j before after)

All-rest :
    (P : Listed Event → Type 0) (before after : List (Listed Event)) (le : Listed Event)
    → All P (before ++ le ∷ after)
    → P le × All P (before ++ after)
All-rest P before after le h =
    let (l, r) = All-split P before (le ∷ after) h in (r.0, All-append P before after l r.1)

-- The schedule without a running event.
abbrev dropped : Schedule → List (Listed Event) → World → Schedule
dropped d l w = unbusied (record d { n_running = decrement d.n_running }) l w

dropped-Sweeping :
    (file : List Setting) (d : Schedule) (before after : List (Listed Event)) (le : Listed Event)
    (w : World)
    → Sweeping file d
    → d.br.busylist ≡ before ++ le ∷ after
    → le.entity.found ≡ false
    → Sweeping file (dropped d (before ++ after) w)
dropped-Sweeping file d before after le w s e miss =
    let len : length d.br.busylist ≡ length (before ++ after) + 1 =
      rw e (length-rest before after le) in
    let P = λ (g : Listed Event). g.entity.found ≡ in_file file g in
    let exact = All-rest P before after le (subst (All P) e s.exact_busy) in
    let names = λ (j : String). ap (named j) e ∙ named-rest j before after le in
    record {
      list_kept = record {
        in_order = record {
          unique = λ a.
              let o : occurs a d.br.busylist ≡ occurs a (before ++ after) + at a le =
                rw e (occurs-rest a before after le) in
              omega (arith, s.list_kept.in_order.unique a);
          scheduled = s.list_kept.in_order.scheduled;
          counted = omega (arith, s.list_kept.in_order.counted);
          unstarted = s.list_kept.in_order.unstarted;
          unloaded = s.list_kept.in_order.unloaded;
        };
        busy_named =
            (All-rest IsNamed before after le (subst (All IsNamed) e s.list_kept.busy_named)).1;
        distinct = λ j. omega (arith, s.list_kept.distinct j, names j);
      };
      exact_free = s.exact_free;
      exact_busy = exact.1;
      active =
          (All-rest (λ g. g.entity.status ≡ running) before after le
            (subst AllActive e s.active)).1;
      complete = λ j on. elim (Bool-cases (is_named j le)) [
        | inl hit ↦
            let stays : in_file file le ≡ true = lists-in_file file j le hit on in
            let no : false ≡ true = sym miss ∙ exact.0 ∙ stays in cc
        | inr other ↦ ground (arith, s.complete j on, names j)
      ];
    }

cancel-Sweeping :
    (host : Host) (file : List Setting) (d : Schedule) (before after : List (Listed Event))
    (le : Listed Event)
    → Sweeping file d
    → d.br.busylist ≡ before ++ le ∷ after
    → le.entity.found ≡ false
    → Ensures (Sweeping file) (cancel host d busy le)
unfolding cancel update
cancel-Sweeping host file d before after le s e miss =
    let le' = record le { entity = record (le.entity) { status = cancelled } } in
    let runs : is_running_status le.entity.status ≡ true =
      ap is_running_status
        (All-rest (λ g. g.entity.status ≡ running) before after le
          (subst AllActive e s.active)).0 in
    let once : occurs le.self (before ++ le ∷ after) ≤ 1 =
      subst (λ l. occurs le.self l ≤ 1) e (omega (arith, s.list_kept.in_order.unique le.self)) in
    let o = occurs-before before after le once in
    let here : occurs le.self d.br.busylist ≡ occurs le.self (before ++ after) + at le.self le =
      rw e (occurs-rest le.self before after le) in
    let one : at le.self le ≡ 1 = ground arith in
    let f : occurs le.self d.br.freelist ≡ 0 = omega (arith, s.list_kept.in_order.unique le.self) in
    let d' = record d {
      br = record (d.br) { busylist = assign d.br.busylist le' };
      n_running = decrement d.n_running;
    } in
    let e' : d'.br.busylist ≡ before ++ le' ∷ after =
      ap (λ l. assign l le') e ∙ assign-append before after le le' refl o in
    let gone = remove_event-running host d' before after le' e' o f in
    let closed = free_and_close host le'.entity d.world in
    let start : cancel host d busy le ≡ remove_event host d' le.self =
      ap
        (λ b.
          remove_event host (if b then d' else record d { n_scheduled = decrement d.n_scheduled })
            le.self)
        runs in
    subst (Ensures (Sweeping file)) (sym (start ∙ gone)) (
      Ensures-bind (λ _. Unit {0}) (Sweeping file) closed (λ w. ok (dropped d (before ++ after) w))
        (Ensures-any (λ _. Unit {0}) closed (λ _. tt))
        (λ w _. dropped-Sweeping file d before after le w s e miss))

-- Nothing is left that the state file does not have.
abbrev pub Swept : List Setting → Schedule → Type 0
Swept file d = Sweeping file d × AllFound d.br.freelist × AllFound d.br.busylist

loop_and_check-miss :
    (l : List (Listed Event)) (le : Listed Event)
    → loop_and_check (λ ev. not ev.found) l ≡ some le
    → le.entity.found ≡ false
unfolding loop_and_check
loop_and_check-miss [] le h = cc
loop_and_check-miss (g ∷ l) le h = elim (Bool-cases g.entity.found) [
  | inl hit ↦ loop_and_check-miss l le (simp hit at h)
  | inr miss ↦
      let same : some g ≡ some le = simp miss at h in
      let e : g ≡ le = cc in ap (λ x. x.entity.found) (sym e) ∙ miss
]

pub sweep-Swept :
    (host : Host) (file : List Setting) (fuel : ℕ) (d : Schedule)
    → Sweeping file d
    → Ensures (Swept file) (sweep host fuel d)
unfolding sweep get_from_all
sweep-Swept host file zero d s = tt
sweep-Swept host file (suc fuel) d s = elim (loop_and_check-cases d.br.freelist) [
  | inr (before, after, le, e, wanted) ↦
      subst (Ensures (Swept file))
        (sym (sweep-unstarted host fuel d before after le s.list_kept.in_order e wanted)) tt
  | inl f ↦ elim (loop_and_check-cases d.br.busylist) [
    | inl b ↦
        subst (Ensures (Swept file))
          (sym (sweep-AllFound host fuel d f b s.list_kept.in_order.unloaded)) (s, f, b)
    | inr (before, after, le, e, wanted) ↦
        let first : get_from_all (λ ev. not ev.found) d.br ≡ some (busy, le) =
          rw (loop_and_check-AllFound d.br.freelist f, wanted, get_from_all) refl in
        rw (first, sweep)
          (Ensures-bind (Sweeping file) (Swept file) (cancel host d busy le)
            (λ d'. sweep host fuel d')
            (cancel-Sweeping host file d before after le s e
              (loop_and_check-miss d.br.busylist le wanted))
            (λ d' s'. sweep-Swept host file fuel d' s'))
  ]
]
