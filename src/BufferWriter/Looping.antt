-- ===== src/BufferWriter/Looping.antt =====
-- The loop that writes a buffer out.
use vlbi_streamer.Base.{
  ℕ, zero, suc, ◌+◌, ◌%◌, ◌^◌, ◌≤◌, ◌<◌, ◌≡◌, refl, ◌∙◌, inl, inr, Bool, true, false, not, ◌&&◌,
  Bool-cases, some, ltb, ◌==◌, if◌then◌else◌, ok, ◌>>=◌, pos, arith,
}
use vlbi_streamer.BufferWriter.{
  less, Opts, BufferEntity, Writing, aligned, limit, settle, simple_write_bytes, sbuf_sync_loop,
}

-- The count of a direct write is the least multiple of 4096 that is not below the bytes that are
-- left.
pub aligned_lem :
    (count : ℕ)
    → (aligned count % 4096 ≡ 0) × (count ≤ aligned count) × (aligned count < count + 4096)
unfolding aligned
aligned_lem count = ground arith

-- A recording entity each of whose writes moves some of the bytes that it is asked for.
unfoldable pub Progresses : {R : Type 0} → Writing R → Type 0
Progresses {R} write =
    (r : R) (start count : ℕ)
    → 0 < count
    → (k : ℕ) × (r' : R) × (write r start count ≡ ok (pos (suc k), r')) × (suc k ≤ count)

abbrev pub chunk : Opts → ℕ → ℕ
unfolding limit
chunk o diff = if ltb (limit o) diff then limit o else diff

pub chunk_lem :
    (o : Opts) (diff : ℕ) → 0 < limit o → 0 < diff → (0 < chunk o diff) × (chunk o diff ≤ diff)
unfolding limit
chunk_lem o diff lim left = ground arith

and_false : (b : Bool) → (b && false) ≡ false
and_false true = refl
and_false false = refl

module _ {R : Type 0} (write : Writing R) (o : Opts) where
  write_chunk :
      (be : BufferEntity R) (r : R)
      → be.recer ≡ some r
      → o.granuality ≡ true
      → o.directio ≡ false
      → 0 < be.diff
      → simple_write_bytes write o be ≡ (
          write r be.bufoffset (chunk o be.diff) >>= λ ret.
          ok (settle o be (chunk o be.diff) (less be.diff (chunk o be.diff)) (chunk o be.diff) ret))
  unfolding simple_write_bytes
  write_chunk be r has g d left =
      let nz : (be.diff == 0) ≡ false = ground arith in
      rw (nz, d, and_false (not (limit o == chunk o be.diff)), has, g)

  some_settled :
      (be : BufferEntity R) (r' : R) (count k : ℕ)
      → suc k ≤ count
      → count ≤ be.diff
      → be.diff < 2 ^ 64
      → (be' : BufferEntity R) × (settle o be count (less be.diff count) count (pos (suc k), r')
          ≡ (pos 0, be'))
        × (be'.recer ≡ some r')
        × (be'.diff < be.diff)
        × (be'.bufoffset + be'.diff ≡ be.bufoffset + be.diff)
  some_settled be r' count k le le' small = elim (Bool-cases (suc k == count)) [
    | inl y ↦ (
      record be { diff = less be.diff count; bufoffset = be.bufoffset + count; recer = some r' },
      rw y,
      refl,
      omega arith,
      omega arith,
    )
    | inr n ↦ (
      record be { diff = less be.diff (suc k); bufoffset = be.bufoffset + suc k; recer = some r' },
      rw n,
      refl,
      omega arith,
      omega arith,
    )
  ]

  some_written :
      (be : BufferEntity R) (r : R)
      → Progresses write
      → be.recer ≡ some r
      → o.granuality ≡ true
      → o.directio ≡ false
      → 0 < limit o
      → 0 < be.diff
      → be.diff < 2 ^ 64
      → (be' : BufferEntity R) × (r' : R) × (simple_write_bytes write o be ≡ ok (pos 0, be'))
        × (be'.recer ≡ some r')
        × (be'.diff < be.diff)
        × (be'.bufoffset + be'.diff ≡ be.bufoffset + be.diff)
  unfolding Progresses
  some_written be r p has g d lim left small =
      let (low, high) = chunk_lem o be.diff lim left in
      let (k, r', e, le) = p r be.bufoffset (chunk o be.diff) low in
      let (be', s, has', down, same) = some_settled be r' (chunk o be.diff) k le high small in
      (be', r', write_chunk be r has g d left ∙ rw (e, s), has', down, same)

  -- With a recording entity whose writes always move something, and no more than they are asked to,
  -- the loop of sbuf_sync_loop writes the whole buffer in at most as many rounds as there are
  -- bytes, and ends with nothing left and the offset behind the last byte. The build has write
  -- granuality, the limit is positive, the writer uses no direct I/O, and the count fits 64 bits.
  pub sbuf_sync_loop_complete :
      (fuel : ℕ) (be : BufferEntity R) (r : R)
      → Progresses write
      → be.recer ≡ some r
      → o.granuality ≡ true
      → o.directio ≡ false
      → 0 < limit o
      → be.diff ≤ fuel
      → be.diff < 2 ^ 64
      → (be' : BufferEntity R) × (r' : R) × (sbuf_sync_loop write o fuel be ≡ ok (pos 0, be'))
        × (be'.recer ≡ some r')
        × (be'.diff ≡ 0)
        × (be'.bufoffset ≡ be.bufoffset + be.diff)
  unfolding sbuf_sync_loop
  sbuf_sync_loop_complete zero be r p has g d lim enough small =
      let z : (be.diff == 0) ≡ true = ground arith in
      (be, r, rw (sbuf_sync_loop, z), has, omega arith, omega arith)
  sbuf_sync_loop_complete (suc fuel) be r p has g d lim enough small =
      elim (Bool-cases (be.diff == 0)) [
        | inl z ↦ (be, r, rw (sbuf_sync_loop, z), has, ground (arith, z), ground (arith, z))
        | inr nz ↦
            let (be1, r1, e, has1, down, same) =
              some_written be r p has g d lim (ground arith) small in
            let (be', r', e', has', zero_left, at) =
              sbuf_sync_loop_complete fuel be1 r1 p has1 g d lim (omega arith) (omega arith) in
            (be', r', rw (sbuf_sync_loop, nz, e, e'), has', zero_left, omega arith)
      ]
