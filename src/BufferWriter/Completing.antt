-- ===== src/BufferWriter/Completing.antt =====
-- src/simplebuffer.c: when the loop for asynchronous writing ends.
use vlbi_streamer.Base.{
  ℕ, zero, suc, ◌+◌, ◌%◌, ◌^◌, ◌≤◌, ◌<◌, ◌≡◌, ◌≢◌, refl, ◌∙◌, ap, true, false, not, ◌&&◌,
  Bool-cases, inl, inr, some, ◌==◌, ltb, if◌then◌else◌, ok, diverged, pos, arith,
}
use vlbi_streamer.BufferWriter.{
  Opts, BufferEntity, Writing, aligned, less, limit, is_none, settle, simple_end_transaction,
  simple_write_bytes,
}
use vlbi_streamer.BufferWriter.Async.{Polling, sbuf_check, async_round, async_loop, sbuf_async_loop}
use vlbi_streamer.BufferWriter.Looping.{aligned_lem}

module _ {R : Type 0} (poll : Polling R) (write : Writing R) (o : Opts) where
  checked :
      (be : BufferEntity R) (r r' : R) (k : ℕ)
      → be.recer ≡ some r
      → poll r ≡ (pos k, r')
      → k < 2 ^ 31
      → sbuf_check poll be
        ≡ ok (pos 0, record be { recer = some r'; asyncdiff = less be.asyncdiff k })
  unfolding sbuf_check
  checked be r r' k has p small =
      let answer : (poll r).0 ≡ pos k = ap (λ x. x.0) p in
      let left : (poll r).1 ≡ r' = ap (λ x. x.1) p in
      let same : k % 2 ^ 32 ≡ k = omega arith in
      let positive : ltb k (2 ^ 31) ≡ true = ground arith in rw (has, answer, same, positive, left)

  -- A round that only asks for completions.
  asked :
      (be : BufferEntity R) (r r' : R) (k : ℕ)
      → be.recer ≡ some r
      → be.diff ≡ 0
      → poll r ≡ (pos k, r')
      → k < 2 ^ 31
      → async_round poll write o be
        ≡ ok (pos 0, record be { recer = some r'; asyncdiff = less be.asyncdiff k })
  unfolding async_round
  asked be r r' k has none_left p small =
      let z : (be.diff == 0) ≡ true = ground arith in
      let there : is_none be.recer ≡ false = ap is_none has in
      rw (z, there, checked be r r' k has p small)

  loops :
      (fuel : ℕ) (be be' : BufferEntity R)
      → 0 < be.asyncdiff
      → async_round poll write o be ≡ ok (pos 0, be')
      → async_loop poll write o (suc fuel) be ≡ async_loop poll write o fuel be'
  unfolding async_loop
  loops fuel be be' left e =
      let nz : (be.asyncdiff == 0) ≡ false = ground arith in rw (async_loop, nz, e)

  -- With nothing more to come, the loop asks for ever.
  asks_for_ever :
      (fuel : ℕ) (be : BufferEntity R) (r : R)
      → be.recer ≡ some r
      → be.diff ≡ 0
      → 0 < be.asyncdiff
      → be.asyncdiff < 2 ^ 64
      → poll r ≡ (pos 0, r)
      → async_loop poll write o fuel be ≡ diverged
  asks_for_ever zero be r has none_left left small p =
      let nz : (be.asyncdiff == 0) ≡ false = ground arith in
      unfold async_loop in rw (async_loop, nz)
  asks_for_ever (suc fuel) be r has none_left left small p =
      let be' = record be { recer = some r; asyncdiff = less be.asyncdiff 0 } in
      let same : less be.asyncdiff 0 ≡ be.asyncdiff = omega arith in
      loops fuel be be' left (asked be r r 0 has none_left p (omega arith))
      ∙ asks_for_ever fuel be' r refl none_left (omega arith) (omega arith) p

  last_is_cut :
      (n : ℕ)
      → o.directio ≡ true
      → n < limit o
      → (not (limit o == (if ltb (limit o) n then limit o else n)) && o.directio) ≡ true
  last_is_cut n direct below = ground arith

  settled :
      (be : BufferEntity R) (count rest step : ℕ) (r' : R)
      → 0 < count
      → settle o be count rest step (pos count, r')
        ≡ (pos 0, record be { diff = rest; bufoffset = be.bufoffset + step; recer = some r' })
  settled be zero rest step r' h = absurd (omega arith)
  settled be (suc k) rest step r' h = let hit : (suc k == suc k) ≡ true = ground arith in rw hit

  -- The last write of a file, whose count is made a multiple of 4096.
  last_write :
      (be : BufferEntity R) (r r' : R)
      → be.recer ≡ some r
      → o.directio ≡ true
      → o.write_to_single_file ≡ false
      → 0 < be.diff
      → be.diff < limit o
      → write r be.bufoffset (aligned be.diff) ≡ ok (pos (aligned be.diff), r')
      → simple_write_bytes write o be
        ≡ ok (
          pos 0,
          record be {
            diff = less be.diff be.diff;
            bufoffset = be.bufoffset + be.diff;
            recer = some r';
          },
        )
  unfolding simple_write_bytes simple_end_transaction
  last_write be r r' has direct single some_bytes below e =
      let nz : (be.diff == 0) ≡ false = ground arith in
      let count = if ltb (limit o) be.diff then limit o else be.diff in
      let cut : (not (limit o == count) && o.directio) ≡ true = last_is_cut be.diff direct below in
      rw (nz, cut, single, has, e)
        (ap ok (
          settled be (aligned be.diff) (less be.diff be.diff) be.diff r'
            (omega (arith, aligned_lem be.diff))))

  first_round :
      (be : BufferEntity R) (r r1 r2 : R)
      → be.recer ≡ some r
      → o.directio ≡ true
      → o.write_to_single_file ≡ false
      → 0 < be.diff
      → be.diff < limit o
      → write r be.bufoffset (aligned be.diff) ≡ ok (pos (aligned be.diff), r1)
      → poll r1 ≡ (pos (aligned be.diff), r2)
      → aligned be.diff < 2 ^ 31
      → async_round poll write o be
        ≡ ok (
          pos 0,
          record be {
            diff = less be.diff be.diff;
            bufoffset = be.bufoffset + be.diff;
            recer = some r2;
            asyncdiff = less be.asyncdiff (aligned be.diff);
          },
        )
  unfolding async_round
  first_round be r r1 r2 has direct single some_bytes below e p int =
      let nz : (be.diff == 0) ≡ false = ground arith in
      let be1 = record be {
        diff = less be.diff be.diff;
        bufoffset = be.bufoffset + be.diff;
        recer = some r1;
      } in
      rw (
        nz,
        last_write be r r1 has direct single some_bytes below e,
        checked be1 r1 r2 (aligned be.diff) refl p int,
      )

  -- An asynchronous direct write of a buffer whose last bytes are not a multiple of 4096 never
  -- ends: the write that finishes the transaction is completed with its extra bytes, which wrap the
  -- count of missing bytes below 0, and sbuf_async_loop asks for more for ever. The buffer is
  -- written at once, to a recording of several files, and the write has less than 2^31 bytes.
  pub sbuf_async_loop_overshoots :
      (fuel : ℕ) (be : BufferEntity R) (r r1 r2 : R)
      → be.recer ≡ some r
      → o.directio ≡ true
      → o.write_to_single_file ≡ false
      → be.diff % 4096 ≢ 0
      → be.diff < limit o
      → aligned be.diff < 2 ^ 31
      → write r be.bufoffset (aligned be.diff) ≡ ok (pos (aligned be.diff), r1)
      → poll r1 ≡ (pos (aligned be.diff), r2)
      → poll r2 ≡ (pos 0, r2)
      → sbuf_async_loop poll write o fuel be ≡ diverged
  unfolding sbuf_async_loop
  sbuf_async_loop_overshoots zero be r r1 r2 has direct single odd below small e p q =
      let nz : (be.diff == 0) ≡ false = ground arith in unfold async_loop in rw (async_loop, nz)
  sbuf_async_loop_overshoots (suc fuel) be r r1 r2 has direct single odd below small e p q =
      let d = be.diff in
      let start = record be { asyncdiff = d } in
      let some_bytes : 0 < d = ground arith in
      let be1 = record be {
        diff = less d d;
        bufoffset = be.bufoffset + d;
        recer = some r2;
        asyncdiff = less d (aligned d);
      } in
      let more : (0 < less d (aligned d)) × (less d (aligned d) < 2 ^ 64) =
        omega (arith, aligned_lem be.diff) in
      let none_left : less d d ≡ 0 = omega (arith, aligned_lem be.diff) in
      loops fuel start be1 some_bytes
        (first_round start r r1 r2 has direct single some_bytes below e p small)
      ∙ asks_for_ever fuel be1 r2 refl none_left more.0 more.1 q

-- The completions that are still to come for a recording entity add up to `pending`. A call may find
-- nothing complete: `polls` is how many calls it takes until all are there.
unfoldable pub Completes : {R : Type 0} → Polling R → (R → ℕ) → (R → ℕ) → Type 0
Completes {R} poll pending polls =
    (r : R)
    → (k : ℕ) × (r' : R) × (poll r ≡ (pos k, r'))
      × (k < 2 ^ 31)
      × (pending r ≡ pending r' + k)
      × (0 < pending r → polls r' < polls r)

module _ {R : Type 0} (poll : Polling R) (write : Writing R) (o : Opts) where
  -- The loop for asynchronous writing ends, once all bytes are handed in and the completions that
  -- are still to come add up to the bytes that are missing and are there after some number of
  -- calls: in at most that many rounds, of which any may find nothing complete, it returns 0 with
  -- no bytes missing and no completion to come, and the buffer's offset as it was. The count fits
  -- 64 bits, and a completion an int.
  pub async_loop_ends :
      (fuel : ℕ) (pending polls : R → ℕ) (be : BufferEntity R) (r : R)
      → Completes poll pending polls
      → be.recer ≡ some r
      → be.diff ≡ 0
      → be.asyncdiff ≡ pending r
      → be.asyncdiff < 2 ^ 64
      → polls r ≤ fuel
      → (be' : BufferEntity R) × (r' : R) × (async_loop poll write o fuel be ≡ ok (pos 0, be'))
        × (be'.recer ≡ some r')
        × (be'.asyncdiff ≡ 0)
        × (be'.diff ≡ 0)
        × (be'.bufoffset ≡ be.bufoffset)
        × (pending r' ≡ 0)
  unfolding Completes
  async_loop_ends zero pending polls be r c has none_left same small enough =
      let (k, r1, p, fits, split, moves) = c r in
      let complete : pending r ≡ 0 = grind (arith, moves) in
      let z : (be.asyncdiff == 0) ≡ true = ground arith in
      (
        be,
        r,
        unfold async_loop in rw (async_loop, z),
        has,
        omega arith,
        none_left,
        refl,
        omega arith,
      )
  async_loop_ends (suc fuel) pending polls be r c has none_left same small enough =
      elim (Bool-cases (be.asyncdiff == 0)) [
        | inl z ↦ (
          be,
          r,
          unfold async_loop in rw (async_loop, z),
          has,
          ground (arith, z),
          none_left,
          refl,
          ground (arith, z),
        )
        | inr nz ↦
            let left : 0 < be.asyncdiff = ground (arith, nz) in
            let (k, r1, p, fits, split, moves) = c r in
            let be1 = record be { recer = some r1; asyncdiff = less be.asyncdiff k } in
            let fewer : polls r1 < polls r = moves (omega arith) in
            let (be', r', done, has', z, d, b, n) =
              async_loop_ends fuel pending polls be1 r1 c refl none_left (omega arith) (omega arith)
                (omega arith) in
            (
              be',
              r',
              loops poll write o fuel be be1 left
                    (asked poll write o be r r1 k has none_left p fits)
                  ∙ done,
              has',
              z,
              d,
              b,
              n,
            )
      ]
