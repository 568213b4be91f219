-- ===== src/BufferWorker/Turns.antt =====
-- src/simplebuffer.c with src/common_wrt.c: the threads that write the files of one recording into a single
-- file, in turns by `next_fd_id_to_write`.
use mathlib.Core.Path.{subst, sym, ap₂}
use vlbi_streamer.Base.{
  ℕ, zero, suc, ◌+◌, ◌%◌, ◌^◌, ◌≤◌, ◌<◌, ◌≡◌, ◌≢◌, ◌⊎◌, inl, inr, List, [], ◌∷◌, Bool-cases, true,
  All, ◌==◌, if◌then◌else◌, ok, arith,
}
use vlbi_streamer.Writers.{Recorder, Session, common_finish_file}
use vlbi_streamer.BufferWorker.{wait_for_turn}

-- The options, the numbers of the files that are being written, and of those that were, the last first.
pub record Turns : Type 0 where
  pub session : Session
  pub writing : List ℕ
  pub written : List ℕ

abbrev drop_number : ℕ → List ℕ → List ℕ
drop_number n [] = []
drop_number n (k ∷ l) = if k == n then l else k ∷ drop_number n l

abbrev Absent : ℕ → List ℕ → Type 0
Absent n l = All (λ k. k ≢ n) l

-- A thread gets past its wait, or is done with its file. A number is given to one thread alone.
pub data TurnStep (s t : Turns) : Type 0 where
  pass :
      (fileid : ℕ)
      → fileid + 1 < 2 ^ 64
      → Absent fileid s.writing
      → Absent fileid s.written
      → wait_for_turn fileid s.session.next_fd_id_to_write [] ≡ ok s.session.next_fd_id_to_write
      → t ≡ record s { writing = fileid ∷ s.writing }
      → TurnStep s t
  hand_on :
      (fileid : ℕ) (r r' : Recorder) (session : Session)
      → (Absent fileid s.writing → ⊥)
      → common_finish_file s.session r ≡ ok (session, r')
      → t ≡ record {
        session = session;
        writing = drop_number fileid s.writing;
        written = fileid ∷ s.written;
      }
      → TurnStep s t

pub data TurnReach (s : Turns) : Turns → Type 0 where
  here : TurnReach s s
  next : {t u : Turns} → TurnReach s t → TurnStep t u → TurnReach s u

abbrev pub down_from : ℕ → List ℕ
down_from zero = []
down_from (suc n) = n ∷ down_from n

-- The files that were written are those below the number whose turn it is, in order, and that file alone
-- may be in writing.
pub record IsInTurn (s : Turns) : Type 0 where
  pub single : s.session.write_to_single_file ≡ true
  pub in_order : s.written ≡ down_from s.session.next_fd_id_to_write
  pub alone :
      (s.writing ≡ [])
      ⊎ (s.writing ≡ s.session.next_fd_id_to_write ∷ [])
        × (s.session.next_fd_id_to_write + 1 < 2 ^ 64)

Absent-down_from : (n k : ℕ) → Absent k (down_from n) → n ≤ k
Absent-down_from zero k h = omega arith
Absent-down_from (suc n) k (ne, h) =
    let le = Absent-down_from n k h in
    elim (Bool-cases (n == k)) [
      | inl y ↦ absurd (ne (ground (arith, y)))
      | inr other ↦ ground (arith, other, le)
    ]

passes_le : (fileid n : ℕ) → wait_for_turn fileid n [] ≡ ok n → fileid ≤ n
unfolding wait_for_turn
passes_le fileid n h = ground arith

finish_single :
    (s s' : Session) (r r' : Recorder)
    → s.write_to_single_file ≡ true
    → common_finish_file s r ≡ ok (s', r')
    → (s'.write_to_single_file ≡ true)
      × (s'.next_fd_id_to_write ≡ (s.next_fd_id_to_write + 1) % 2 ^ 64)
unfolding common_finish_file
finish_single s s' r r' single h = ground arith

pass-IsInTurn :
    (s : Turns) (fileid : ℕ)
    → IsInTurn s
    → fileid + 1 < 2 ^ 64
    → Absent fileid s.writing
    → Absent fileid s.written
    → wait_for_turn fileid s.session.next_fd_id_to_write [] ≡ ok s.session.next_fd_id_to_write
    → IsInTurn (record s { writing = fileid ∷ s.writing })
pass-IsInTurn s fileid i small w1 w2 p =
    let n = s.session.next_fd_id_to_write in
    let low = Absent-down_from n fileid (subst (Absent fileid) i.in_order w2) in
    let same : fileid ≡ n = omega (arith, passes_le fileid n p) in
    elim i.alone [
      | inl none_yet ↦ record {
        single = i.single;
        in_order = i.in_order;
        alone = inr (ap₂ (λ a l. a ∷ l) same none_yet, omega arith);
      }
      | inr (one, _) ↦ absurd ((subst (Absent fileid) one w1).0 (sym same))
    ]

hand_on-IsInTurn :
    (s : Turns) (fileid : ℕ) (r r' : Recorder) (session : Session)
    → IsInTurn s
    → (Absent fileid s.writing → ⊥)
    → common_finish_file s.session r ≡ ok (session, r')
    → IsInTurn (record {
      session = session;
      writing = drop_number fileid s.writing;
      written = fileid ∷ s.written;
    })
hand_on-IsInTurn s fileid r r' session i mine f =
    let n = s.session.next_fd_id_to_write in
    let (single, up) = finish_single s.session session r r' i.single f in
    elim i.alone [
      | inl none_yet ↦ absurd (mine (subst (Absent fileid) (sym none_yet) tt))
      | inr (one, small) ↦ elim (Bool-cases (n == fileid)) [
        | inr other ↦ absurd (mine (subst (Absent fileid) (sym one) (ground (arith, other), tt)))
        | inl y ↦
            let same : n ≡ fileid = ground (arith, y) in
            let next_one : session.next_fd_id_to_write ≡ suc n = omega arith in
            record {
              single = single;
              in_order = rw next_one (ap₂ (λ a l. a ∷ l) (sym same) i.in_order);
              alone = inl (rw (one, y));
            }
      ]
    ]

step-IsInTurn : (s t : Turns) → TurnStep s t → IsInTurn s → IsInTurn t
step-IsInTurn s t (pass fileid small w1 w2 p e) i =
    subst IsInTurn (sym e) (pass-IsInTurn s fileid i small w1 w2 p)
step-IsInTurn s t (hand_on fileid r r' session mine f e) i =
    subst IsInTurn (sym e) (hand_on-IsInTurn s fileid r r' session i mine f)

-- The files of a recording that goes to one single file are written one at a time and in their
-- order, in whatever order their threads pass the wait of write_buffer and hand the turn on by
-- common_finish_file: the files that were written are those below next_fd_id_to_write, the last
-- first, and no file or that file alone is in writing. It is so at the start, each number below
-- 2^64 - 1 is given to one thread alone, and a thread hands the turn on only when it has written
-- its file.
pub TurnReach-IsInTurn : {s t : Turns} → IsInTurn s → TurnReach s t → IsInTurn t
TurnReach-IsInTurn i here = i
TurnReach-IsInTurn i (next r st) = step-IsInTurn _ _ st (TurnReach-IsInTurn i r)
