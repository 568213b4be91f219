-- ===== src/ResourceTree/Tickets.antt =====
-- The queue of one entity: a waiter takes the next ticket from `waiters_head`, each hand-over moves
-- `waiters_bottom` on by one, and both run from 0 to INT16_MAX and round again.
use native.Mathlib.Decide.{ℕ_discrete}
use vlbi_streamer.Base.{
  ℕ, zero, suc, ◌+◌, ◌-◌, ◌%◌, ◌≤◌, ◌<◌, ◌≡◌, ◌≢◌, refl, sym, ap, ◌++◌, ◌∙◌, some, Bool, true,
  false, ◌⊎◌, inl, inr, [], ◌∷◌, ok, or_fault, Bool-cases, arith,
}
use vlbi_streamer.ResourceTree.{
  Listed, Callbacks, Branch, free, busy, find, get_from_all, locate, update, change_branch,
  set_free, released, serve, is_awaited, add_safely, unlink, assign,
}
use vlbi_streamer.ResourceTree.Placement.{find-self, locate-find, add_to_next-none}
use vlbi_streamer.ResourceTree.Conservation.{find-update}
use vlbi_streamer.ResourceTree.Acquiring.{queued, is_turn, get_specific, specific_from, join_queue}

-- INT16_MAX + 1
abbrev pub tickets : ℕ
tickets = 32768

module _ {E : Type 0} where
  pub record InRange (e : Listed E) : Type 0 where
    pub head_in : e.waiters_head < tickets
    pub bottom_in : e.waiters_bottom < tickets

  -- How many wait.
  abbrev pub waiting : Listed E → ℕ
  waiting e = (e.waiters_head + tickets - e.waiters_bottom) % tickets

  abbrev pub queued_once : Listed E → Listed E
  queued_once e = record e { waiters_head = add_safely e.waiters_head }

  -- `n` hand-overs one after the other.
  pub serves : ℕ → Listed E → Listed E
  serves zero e = e
  serves (suc n) e = serves n (serve e)

  serve-InRange : (e : Listed E) → InRange e → InRange (serve e)
  serve-InRange e v = ground arith

  -- With counters below 32768 and room for one waiter more, joining the queue adds one waiter, and
  -- the test of set_free for waiters is true just when there are some, of whom a hand-over takes
  -- one.
  pub waiting_lem :
      (e : Listed E)
      → InRange e
      → waiting e < tickets - 1
      → (waiting (queued_once e) ≡ waiting e + 1)
        × ((is_awaited e ≡ true) × (waiting (serve e) + 1 ≡ waiting e)
            ⊎ (is_awaited e ≡ false) × (waiting e ≡ 0))
  waiting_lem e v room = (
    ground arith,
    elim (ℕ_discrete e.waiters_bottom e.waiters_head) [
      | yes same ↦ inr (ground arith, ground arith)
      | no ne ↦ inl (ground arith, ground arith)
    ],
  )

  -- The bottom after `n` hand-overs.
  serves-bottom :
      (n : ℕ) (e : Listed E)
      → InRange e
      → ((serves n e).waiters_bottom ≡ (e.waiters_bottom + n) % tickets)
  unfolding serves
  serves-bottom zero e v = omega arith
  serves-bottom (suc n) e v =
      let next : (serve e).waiters_bottom ≡ (e.waiters_bottom + 1) % tickets = ground arith in
      omega (arith, serves-bottom n (serve e) (serve-InRange e v), next)

  queued_lem :
      (wanted : E → Bool) (br : Branch E) (e : Listed E)
      → get_from_all wanted br ≡ some (busy, e)
      → get_specific wanted br
        ≡ queued (update br busy (queued_once e)) (queued_once e) (add_safely e.waiters_head)
  unfolding get_specific specific_from join_queue
  queued_lem wanted br e h = rw (get_specific, h) refl

  -- First come, first served: when get_specific finds the wanted entity busy, it queues with a
  -- ticket that the entity of the branch then counts, and that is not up after n hand-overs for any
  -- n up to the number of waiters before it, and is up after one more than that number. The
  -- counters of the entity are below 32768 and there is room for one waiter more; the entity is the
  -- first busy one at its address.
  pub turn_in_order :
      (wanted : E → Bool) (br : Branch E) (e : Listed E) (n : ℕ)
      → get_from_all wanted br ≡ some (busy, e)
      → find br.busylist e.self ≡ some e
      → InRange e
      → waiting e < tickets - 1
      → n ≤ waiting e
      → (br' : Branch E) × (e' : Listed E) × (ticket : ℕ) × (get_specific wanted br
          ≡ queued br' e' ticket)
        × (find br'.busylist e.self ≡ some e')
        × (is_turn ticket (serves n e') ≡ false)
        × (is_turn ticket (serves (waiting e + 1) e') ≡ true)
  unfolding is_turn
  turn_in_order wanted br e n h at_busy v room early =
      let v' : InRange (queued_once e) = ground arith in
      let k = waiting e in
      let ticket : add_safely e.waiters_head ≡ (e.waiters_bottom + (k + 1)) % tickets =
        ground arith in
      let first = serves-bottom n (queued_once e) v' in
      let last = serves-bottom (k + 1) (queued_once e) v' in
      let differ : (e.waiters_bottom + n) % tickets ≢ (e.waiters_bottom + (k + 1)) % tickets =
        omega arith in
      (
        update br busy (queued_once e),
        queued_once e,
        add_safely e.waiters_head,
        queued_lem wanted br e h,
        find-update br busy e.self (queued_once e) e at_busy refl,
        ground (arith, ticket, first, differ),
        ground (arith, ticket, last),
      )

-- set_free of a busy entity. With somebody in its queue the entity stays busy, its queue moves on
-- by one and the free list is as it was; with nobody it leaves the busy list and goes to the end of
-- the free list.
pub set_free_lem :
    {E : Type 0} (cb : Callbacks E) (br : Branch E) (s : ℕ) (e : Listed E)
    → locate br s ≡ some (busy, e)
    → (br' : Branch E) × (set_free cb br s ≡ ok br')
      × ((is_awaited e ≡ true)
            × (find br'.busylist s ≡ some (serve (released cb e)))
            × (br'.freelist ≡ br.freelist)
          ⊎ (is_awaited e ≡ false)
            × (br'.freelist ≡ br.freelist ++ released cb e ∷ [])
            × (br'.busylist ≡ unlink (assign br.busylist (released cb e)) s))
unfolding set_free change_branch
set_free_lem cb br s e h =
    let at_busy = locate-find br s busy e h in
    let e' = released cb e in
    let named : e'.self ≡ s = ground (arith, find-self br.busylist s e at_busy) in
    let same : is_awaited e' ≡ is_awaited e = ground arith in
    let br1 = update br busy e' in
    elim (Bool-cases (is_awaited e')) [
      | inl waiting ↦ (
        update br1 busy (serve e'),
        rw (h, or_fault) (rw waiting),
        inl (
          sym same ∙ waiting,
          find-update br1 busy s (serve e') e' (find-update br busy s e' e at_busy named) named,
          unfold update in refl,
        ),
      )
      | inr alone ↦ (
        change_branch br1 busy free e',
        rw (h, or_fault) (rw alone),
        inr (
          sym same ∙ alone,
          unfold update in add_to_next-none br.freelist e',
          unfold update in ap (unlink (assign br.busylist e')) named,
        ),
      )
    ]
