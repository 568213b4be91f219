-- ===== src/Scheduler/Starting/SinglePass.antt =====
-- src/server.c: `start_scheduled` goes back to the head of the list after each start; here it is
-- compared with one pass over the list.
use mathlib.Core.List.{append_assoc}
use mathlib.Core.Path.{subst}
use vlbi_streamer.Base.{
  ℕ, zero, suc, ◌+◌, ◌-◌, ◌≤◌, ◌<◌, ◌≡◌, refl, sym, ◌∙◌, ap, List, [], ◌∷◌, ◌++◌, Outcome, ok,
  ◌>>=◌, length, length-append, Ensures, Ensures-any, Ensures-bind, bind_cong, All, All-append,
  arith,
}
use vlbi_streamer.ResourceTree.{Listed}
use vlbi_streamer.ResourceTree.Placement.{occurs}
use vlbi_streamer.ResourceTree.Splits.{occurs-append, occurs-before}
use vlbi_streamer.Scheduler.{Event, Schedule, Host, free_and_close, remove_event}
use vlbi_streamer.Scheduler.Removal.{freed, remove_event-waiting}
use vlbi_streamer.Scheduler.Starting.{
  Verdict, waits, expired, due, verdict, launch, start_loop, budget, start_scheduled,
}
use vlbi_streamer.Scheduler.Starting.Moves.{launch-leaves}
use vlbi_streamer.Timer.{Timespec}

-- One look at an event, which takes it off the free list if it is due or too old.
unfoldable pub look : Host → Timespec → Timespec → Schedule → Listed Event → Outcome Schedule
look host now tick d le = elim (verdict now le.entity) [
  | waits ↦ ok d
  | expired ↦ remove_event host d le.self
  | due ↦ launch host now tick d le
]

-- Each event is looked at once.
unfoldable pub single_pass :
    Host → Timespec → Timespec → Schedule → List (Listed Event) → Outcome Schedule
single_pass host now tick d [] = ok d
single_pass host now tick d (le ∷ les) =
    look host now tick d le >>= λ d'. single_pass host now tick d' les

abbrev pub IsUnique : List (Listed Event) → Type 0
IsUnique l = (a : ℕ) → occurs a l ≤ 1

abbrev pub AllWait : Timespec → List (Listed Event) → Type 0
AllWait now l = All (λ le. verdict now le.entity ≡ waits) l

pub IsUnique-rest :
    (before after : List (Listed Event)) (le : Listed Event)
    → IsUnique (before ++ le ∷ after)
    → IsUnique (before ++ after)
IsUnique-rest before after le u a =
    omega (arith, u a, occurs-append a before (le ∷ after), occurs-append a before after)

-- Events that wait are passed.
skip :
    (host : Host) (now tick : Timespec) (d : Schedule) (before after : List (Listed Event)) (m : ℕ)
    → AllWait now before
    → start_loop host now tick (length before + m) d (before ++ after)
      ≡ start_loop host now tick m d after
unfolding start_loop
skip host now tick d [] after m h = let e : 0 + m ≡ m = omega arith in rw e refl
skip host now tick d (le ∷ before) after m h =
    let e : suc (length before) + m ≡ suc (length before + m) = omega arith in
    rw e (rw (h.0, start_loop) (skip host now tick d before after m h.1))

remove_event-leaves :
    (host : Host) (d : Schedule) (before after : List (Listed Event)) (le : Listed Event)
    → d.br.freelist ≡ before ++ le ∷ after
    → occurs le.self before ≡ 0
    → Ensures (λ d'. d'.br.freelist ≡ before ++ after) (remove_event host d le.self)
remove_event-leaves host d before after le e o =
    rw (remove_event-waiting host d before after le e o) (
      Ensures-bind (λ _. Unit {0}) (λ d'. d'.br.freelist ≡ before ++ after)
        (free_and_close host le.entity d.world) (λ w. ok (freed d (before ++ after) w))
        (Ensures-any (λ _. Unit {0}) (free_and_close host le.entity d.world) (λ _. tt))
        (λ w _. refl))

-- What is left of the list, behind events that wait.
abbrev Agrees : Host → Timespec → Timespec → ℕ → List (Listed Event) → Type 0
Agrees host now tick k after =
    (fuel : ℕ) (before : List (Listed Event)) (d : Schedule)
    → d.br.freelist ≡ before ++ after
    → IsUnique (before ++ after)
    → AllWait now before
    → length before + length after < k
    → budget host now tick k (length after) ≤ fuel
    → start_loop host now tick fuel d after ≡ single_pass host now tick d after

relaunch :
    (host : Host) (now tick : Timespec) (k fuel : ℕ) (before after : List (Listed Event))
    (d : Schedule)
    → Agrees host now tick k after
    → d.br.freelist ≡ before ++ after
    → IsUnique (before ++ after)
    → AllWait now before
    → length before + length after < k
    → length before + budget host now tick k (length after) ≤ fuel
    → start_loop host now tick fuel d d.br.freelist ≡ single_pass host now tick d after
relaunch host now tick k fuel before after d rest e u w b f =
    let m = fuel - length before in
    let split : fuel ≡ length before + m = omega arith in
    ap (start_loop host now tick fuel d) e
    ∙ ap (λ n. start_loop host now tick n d (before ++ after)) split
    ∙ skip host now tick d before after m w
    ∙ rest m before d e u w b (omega arith)

advance :
    (host : Host) (now tick : Timespec) (k : ℕ) (le : Listed Event) (after : List (Listed Event))
    → Agrees host now tick k after
    → Agrees host now tick k (le ∷ after)
unfolding start_loop single_pass look
advance host now tick k le after rest zero before d e u w b f = absurd (omega arith)
advance host now tick k le after rest (suc fuel) before d e u w b f =
    go (verdict now le.entity) refl
  where
    fresh : occurs le.self before ≡ 0
    fresh = occurs-before before after le (u le.self)

    go :
        (v : Verdict)
        → verdict now le.entity ≡ v
        → start_loop host now tick (suc fuel) d (le ∷ after)
          ≡ single_pass host now tick d (le ∷ after)
    go waits h =
        let joined = sym (append_assoc before (le ∷ []) after) in
        rw (h, start_loop, single_pass, look)
          (rest fuel (before ++ le ∷ []) d (e ∙ joined) (subst IsUnique joined u)
            (All-append (λ g. verdict now g.entity ≡ waits) before (le ∷ []) w (h, tt))
            (omega (arith, length-append before (le ∷ []))) (omega arith))
    go expired h =
        rw (h, start_loop, single_pass, look)
          (bind_cong (λ d'. d'.br.freelist ≡ before ++ after) (remove_event host d le.self)
            (λ d'. start_loop host now tick fuel d' after)
            (λ d'. single_pass host now tick d' after)
            (remove_event-leaves host d before after le e fresh)
            (λ d' e'.
              rest fuel before d' e' (IsUnique-rest before after le u) w (omega arith)
                (omega arith)))
    go due h =
        rw (h, start_loop, single_pass, look)
          (bind_cong (λ d'. d'.br.freelist ≡ before ++ after) (launch host now tick d le)
            (λ d'. start_loop host now tick fuel d' d'.br.freelist)
            (λ d'. single_pass host now tick d' after)
            (launch-leaves host now tick d before after le e fresh)
            (λ d' e'.
              relaunch host now tick k fuel before after d' rest e'
                (IsUnique-rest before after le u) w (omega arith) (omega arith)))

at_end : (host : Host) (now tick : Timespec) (k : ℕ) → Agrees host now tick k []
unfolding start_loop single_pass
at_end host now tick k zero before d e u w b f = absurd (omega arith)
at_end host now tick k (suc fuel) before d e u w b f = refl

start_loop-single_pass :
    (host : Host) (now tick : Timespec) (k : ℕ) (after : List (Listed Event))
    → Agrees host now tick k after
start_loop-single_pass host now tick k [] = at_end host now tick k
start_loop-single_pass host now tick k (le ∷ after) =
    advance host now tick k le after (start_loop-single_pass host now tick k after)

-- start_scheduled, which goes back to the head of the list after each start, comes to an end, and
-- to the same end as one pass that looks at each event once, failed starts and aborts included. No
-- address is listed twice.
pub start_scheduled-single_pass :
    (host : Host) (now tick : Timespec) (d : Schedule)
    → IsUnique d.br.freelist
    → start_scheduled host now tick d ≡ single_pass host now tick d d.br.freelist
unfolding start_scheduled
start_scheduled-single_pass host now tick d u =
    start_loop-single_pass host now tick (length d.br.freelist + 1) d.br.freelist
      (budget host now tick (length d.br.freelist + 1) (length d.br.freelist)) [] d refl u tt
      (omega arith) (omega arith)
