-- ===== src/BufferWriter/Failures.antt =====
-- Failed and short writes: what becomes of the bytes that they did not write.
use vlbi_streamer.Base.{
  ℕ, zero, suc, ◌+◌, ◌-◌, ◌%◌, ◌^◌, ◌≤◌, ◌<◌, ◌≡◌, refl, ◌⊎◌, inl, inr, false, not, ◌&&◌,
  Bool-cases, none, some, ◌==◌, ok, pos, arith,
}
use vlbi_streamer.BufferWriter.{
  System, CommonIoInfo, eof, less, called, transfer, def_write, Opts, BufferEntity, Writing,
  aligned, limit, simple_end_transaction, simple_write_bytes, sbuf_sync_loop, finish_write_buffer,
}
use vlbi_streamer.BufferWriter.Looping.{chunk, chunk_lem, aligned_lem}

write_fails :
    (sys : System) (ioi : CommonIoInfo) (start count : ℕ)
    → ((start' count' : ℕ) → sys ioi.calls start' count' ≡ eof)
    → 0 < count
    → (ioi' : CommonIoInfo) × (def_write sys ioi start count ≡ ok (eof, ioi'))
      × (ioi'.bytes_exchanged ≡ ioi.bytes_exchanged)
unfolding def_write transfer
write_fails sys ioi start zero e h = absurd (omega arith)
write_fails sys ioi start (suc n) e h = elim (Bool-cases (ioi.fd == 0)) [
  | inl z ↦ (ioi, rw z, refl)
  | inr nz ↦ (called ioi start (suc n), rw (nz, transfer, e start (suc n)), refl)
]

bytes_written :
    (sys : System) (o : Opts) (be : BufferEntity CommonIoInfo) (ioi : CommonIoInfo)
    → ((start count : ℕ) → sys ioi.calls start count ≡ eof)
    → be.recer ≡ some ioi
    → o.write_to_single_file ≡ false
    → 0 < limit o
    → 0 < be.diff
    → (ioi' : CommonIoInfo) × (simple_write_bytes (def_write sys) o be
        ≡ ok (pos 0, record be { diff = 0; recer = some ioi' }))
      × (ioi'.bytes_exchanged ≡ ioi.bytes_exchanged)
unfolding simple_write_bytes simple_end_transaction
bytes_written sys o be ioi fails has single lim left =
    let nz : (be.diff == 0) ≡ false = ground arith in
    elim (Bool-cases (not (limit o == chunk o be.diff) && o.directio)) [
      | inl y ↦
          let (ioi', e, same) =
            write_fails sys ioi be.bufoffset (aligned be.diff) fails
              (omega (arith, aligned_lem be.diff)) in
          (ioi', rw (nz, y, single, has, e), same)
      | inr n ↦
          let (ioi', e, same) =
            write_fails sys ioi be.bufoffset (chunk o be.diff) fails
              (chunk_lem o be.diff lim left).0 in
          (ioi', rw (nz, n, has, e), same)
    ]

-- When the system calls on a file return -1, def_write returns EOF, and a buffer with bytes to
-- write is done at once: the result is 0, nothing is left of it, no error is handled, and the
-- recording entity is set free with not one byte more exchanged. The recording goes to several
-- files, and the limit is positive.
pub failed_write_passes :
    (sys : System) (o : Opts) (fuel : ℕ) (be : BufferEntity CommonIoInfo) (ioi : CommonIoInfo)
    → ((start count : ℕ) → sys ioi.calls start count ≡ eof)
    → be.recer ≡ some ioi
    → o.write_to_single_file ≡ false
    → 0 < limit o
    → 0 < be.diff
    → (ioi' : CommonIoInfo) × (finish_write_buffer (def_write sys) o (suc (suc fuel)) be
        ≡ ok (pos 0, some ioi', record be { diff = 0; recer = none }))
      × (ioi'.bytes_exchanged ≡ ioi.bytes_exchanged)
unfolding finish_write_buffer sbuf_sync_loop
failed_write_passes sys o fuel be ioi fails has single lim left =
    let nz : (be.diff == 0) ≡ false = ground arith in
    let (ioi', e, same) = bytes_written sys o be ioi fails has single lim left in
    (ioi', rw (sbuf_sync_loop, nz, e), same)

-- The last write of a buffer, for direct I/O and a recording to several files, when it moves at
-- least what was left. If it moves all that was asked for, the aligned count, nothing is left; if
-- it moves less, the number of bytes that are left is what the subtraction modulo 2^64 gives, so
-- that bytes beyond the buffer's own wrap it below 0. Less than 2^63 bytes were left.
pub simple_end_transaction-written :
    {R : Type 0} (write : Writing R) (o : Opts) (be : BufferEntity R) (r r' : R) (ret : ℕ)
    → be.recer ≡ some r
    → o.write_to_single_file ≡ false
    → be.diff ≤ suc ret
    → suc ret ≤ aligned be.diff
    → be.diff < 2 ^ 63
    → write r be.bufoffset (aligned be.diff) ≡ ok (pos (suc ret), r')
    → (be' : BufferEntity R) × (simple_end_transaction write o be ≡ ok (pos 0, be'))
      × ((suc ret ≡ aligned be.diff) × (be'.diff ≡ 0) × (be'.bufoffset ≡ be.bufoffset + be.diff)
          ⊎ (suc ret < aligned be.diff)
            × (be'.bufoffset ≡ be.bufoffset + suc ret)
            × (be'.diff ≡ (be.diff + 2 ^ 64 - suc ret) % 2 ^ 64))
unfolding simple_end_transaction
simple_end_transaction-written write o be r r' ret has single low high small e =
    elim (Bool-cases (suc ret == aligned be.diff)) [
      | inl y ↦ (
        record be {
          diff = less be.diff be.diff;
          bufoffset = be.bufoffset + be.diff;
          recer = some r';
        },
        rw (single, has, e, y),
        inl (ground (arith, y), omega arith, refl),
      )
      | inr n ↦ (
        record be {
          diff = less be.diff (suc ret);
          bufoffset = be.bufoffset + suc ret;
          recer = some r';
        },
        rw (single, has, e, n),
        inr (ground (arith, n), refl, omega (arith, aligned_lem be.diff)),
      )
    ]
