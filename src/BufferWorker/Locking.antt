-- ===== src/BufferWorker/Locking.antt =====
-- src/simplebuffer.c: what every order of the steps of the two sides keeps.
use vlbi_streamer.Base.{◌≡◌, ◌≢◌, refl, Bool, true, false, not, ◌&&◌, ◌||◌, arith}
use vlbi_streamer.BufferWorker.Handshake.{
  Holder, nobody, worker, caller, WorkerAt, top, tested, asleep, signalled, woken, retested,
  serving, finishing, locked_again, freed, ended, CallerAt, away, readying, Handshake, Step,
  lock_top, exit_loop, sleep, pass_ready, pass_stopped, wake, relock, unlock, wait_unlocked,
  go_ready, go_stopped, nothing_to_do, abandon, written, lock_again, give_back, finish, take,
  put_bytes, lock_ready, make_ready, withdraw, stop, Reach, here, next,
}

-- The places at which the thread counts on the lock.
abbrev pub in_section : WorkerAt → Bool
in_section tested = true
in_section woken = true
in_section locked_again = true
in_section freed = true
in_section _ = false

abbrev pub is_worker : Holder → Bool
is_worker worker = true
is_worker _ = false

abbrev pub is_caller : Holder → Bool
is_caller caller = true
is_caller _ = false

abbrev pub is_readying : CallerAt → Bool
is_readying readying = true
is_readying _ = false

abbrev pub is_away : CallerAt → Bool
is_away away = true
is_away _ = false

-- The places without a LOCK of their own to which the thread gets with the lock it kept.
abbrev pub keeps_lock : WorkerAt → Bool
keeps_lock top = true
keeps_lock serving = true
keeps_lock finishing = true
keeps_lock ended = true
keeps_lock _ = false

-- That the thread may have the lock.
abbrev pub may_hold : Handshake → Bool
may_hold s =
    in_section s.worker_at || (keeps_lock s.worker_at && (s.ready_to_act || not s.is_running))

-- The lock is with the side that counts on it, and is given up where it should be.
pub record IsExclusive (s : Handshake) : Type 0 where
  pub worker_side : (in_section s.worker_at && not (is_worker s.holder)) ≡ false
  pub caller_side : is_caller s.holder ≡ is_readying s.caller_at
  pub given_up : (is_worker s.holder && not (may_hold s)) ≡ false

Step-IsExclusive : (s t : Handshake) → Step s t → IsExclusive s → IsExclusive t
Step-IsExclusive s t (lock_top a b c e) x = ground arith
Step-IsExclusive s t (exit_loop a b e) x = ground arith
Step-IsExclusive s t (sleep a b c e) x = ground arith
Step-IsExclusive s t (pass_ready a b e) x = ground arith
Step-IsExclusive s t (pass_stopped a b e) x = ground arith
Step-IsExclusive s t (wake a e) x = ground arith
Step-IsExclusive s t (relock a b e) x = ground arith
Step-IsExclusive s t (unlock a e) x = ground arith
Step-IsExclusive s t (wait_unlocked a b c e) x = ground arith
Step-IsExclusive s t (go_ready a b e) x = ground arith
Step-IsExclusive s t (go_stopped a b e) x = ground arith
Step-IsExclusive s t (nothing_to_do a b e) x = ground arith
Step-IsExclusive s t (abandon a b c e) x = ground arith
Step-IsExclusive s t (written a b e) x = ground arith
Step-IsExclusive s t (lock_again a b e) x = ground arith
Step-IsExclusive s t (give_back a e) x = ground arith
Step-IsExclusive s t (finish a e) x = ground arith
Step-IsExclusive s t (take a b e) x = ground arith
Step-IsExclusive s t (put_bytes a e) x = ground arith
Step-IsExclusive s t (lock_ready a b e) x = ground arith
Step-IsExclusive s t (make_ready a e) x = ground arith
Step-IsExclusive s t (withdraw a b e) x = ground arith
Step-IsExclusive s t (stop e) x = ground arith

-- In every state that the steps of the thread and of its caller lead to, the lock is with the
-- thread wherever it counts on it, between LOCK and pthread_cond_wait or UNLOCK, and with the
-- caller exactly when it is in sbuf_set_ready_and_signal. Anywhere else the thread has the lock
-- only when the buffer is ready or the program stops, and neither in pthread_cond_wait nor behind
-- the UNLOCK that follows it. It is so at the start.
pub Reach-IsExclusive : {s t : Handshake} → IsExclusive s → Reach s t → IsExclusive t
Reach-IsExclusive x here = x
Reach-IsExclusive x (next r st) = Step-IsExclusive _ _ st (Reach-IsExclusive x r)

-- The places between the top of the loop and the second LOCK.
abbrev pub on_the_way : WorkerAt → Bool
on_the_way tested = true
on_the_way serving = true
on_the_way finishing = true
on_the_way _ = false

abbrev pub at_rest : WorkerAt → Bool
at_rest top = true
at_rest ended = true
at_rest _ = false

-- A request that the thread has, or will have, behind a LOCK with no UNLOCK.
pub record IsMissed (s : Handshake) : Type 0 where
  pub taken : s.is_free ≡ false
  pub ready : s.ready_to_act ≡ true
  pub filled : s.has_bytes ≡ true
  pub gone : is_away s.caller_at ≡ true
  pub place : (at_rest s.worker_at || (on_the_way s.worker_at && is_worker s.holder)) ≡ true

Step-IsMissed : (s t : Handshake) → Step s t → IsMissed s → IsMissed t
Step-IsMissed s t (lock_top a b c e) x = ground arith
Step-IsMissed s t (exit_loop a b e) x = ground arith
Step-IsMissed s t (sleep a b c e) x = ground arith
Step-IsMissed s t (pass_ready a b e) x = ground arith
Step-IsMissed s t (pass_stopped a b e) x = ground arith
Step-IsMissed s t (wake a e) x = ground arith
Step-IsMissed s t (relock a b e) x = ground arith
Step-IsMissed s t (unlock a e) x = ground arith
Step-IsMissed s t (wait_unlocked a b c e) x = ground arith
Step-IsMissed s t (go_ready a b e) x = ground arith
Step-IsMissed s t (go_stopped a b e) x = ground arith
Step-IsMissed s t (nothing_to_do a b e) x = ground arith
Step-IsMissed s t (abandon a b c e) x = ground arith
Step-IsMissed s t (written a b e) x = ground arith
Step-IsMissed s t (lock_again a b e) x = ground arith
Step-IsMissed s t (give_back a e) x = ground arith
Step-IsMissed s t (finish a e) x = ground arith
Step-IsMissed s t (take a b e) x = ground arith
Step-IsMissed s t (put_bytes a e) x = ground arith
Step-IsMissed s t (lock_ready a b e) x = ground arith
Step-IsMissed s t (make_ready a e) x = ground arith
Step-IsMissed s t (withdraw a b e) x = ground arith
Step-IsMissed s t (stop e) x = ground arith

Reach-IsMissed : {s t : Handshake} → IsMissed s → Reach s t → IsMissed t
Reach-IsMissed x here = x
Reach-IsMissed x (next r st) = Step-IsMissed _ _ st (Reach-IsMissed x r)

-- A full buffer that is made ready while its thread is at the top of its loop is never set free: in
-- whatever order the steps of both sides follow, the request stays as it is and the thread never
-- waits for a signal. It takes the lock, finds the buffer ready, and keeps the lock into its own
-- second LOCK.
pub missed_request :
    (s t : Handshake)
    → s.worker_at ≡ top
    → s.ready_to_act ≡ true
    → s.has_bytes ≡ true
    → s.is_free ≡ false
    → s.caller_at ≡ away
    → Reach s t
    → (t.is_free ≡ false) × (t.ready_to_act ≡ true) × (t.has_bytes ≡ true) × (t.worker_at ≢ asleep)
missed_request s t w r b f c reach =
    let m =
      Reach-IsMissed
        (record { taken = f; ready = r; filled = b; gone = ground arith; place = ground arith })
        reach in
    (m.taken, m.ready, m.filled, λ e. ground arith)

-- A full buffer that is made ready while its thread is asleep can be served from every such state
-- in which the lock is free: some steps of the thread lead to the top of its loop with the buffer
-- free and empty, not ready, and the lock free.
pub request_in_time :
    (s : Handshake)
    → s.worker_at ≡ asleep
    → s.ready_to_act ≡ true
    → s.has_bytes ≡ true
    → s.holder ≡ nobody
    → (t : Handshake) × Reach s t
      × (t.is_free ≡ true)
      × (t.ready_to_act ≡ false)
      × (t.has_bytes ≡ false)
      × (t.worker_at ≡ top)
      × (t.holder ≡ nobody)
request_in_time s w r b h =
    let s1 = record s { worker_at = signalled } in
    let s2 = record s1 { holder = worker; worker_at = woken } in
    let s3 = record s2 { holder = nobody; worker_at = retested } in
    let s4 = record s3 { worker_at = serving } in
    let s5 = record s4 { worker_at = finishing } in
    let s6 = record s5 { holder = worker; worker_at = locked_again } in
    let s7 = record s6 { is_free = true; has_bytes = false; worker_at = freed } in
    let served =
      next (next (next (next here (wake w refl)) (relock refl h refl)) (unlock refl refl))
        (go_ready refl r refl) in
    let done =
      next
        (next (next (next served (written refl b refl)) (lock_again refl refl refl))
          (give_back refl refl))
        (finish refl refl) in
    (
      record s7 { holder = nobody; ready_to_act = false; worker_at = top },
      done,
      refl,
      refl,
      refl,
      refl,
      refl,
    )
