-- ===== src/BufferWriter/Keeping.antt =====
-- src/simplebuffer.c: what holds of a recording entity, and is kept by its writes, is kept by the loop.
use vlbi_streamer.Base.{
  ℕ, zero, suc, Option, none, some, not, ◌&&◌, Bool-cases, inl, inr, ◌==◌, if◌then◌else◌, Outcome,
  ok, ◌>>=◌, or_fault, Ensures, Ensures-bind, ltb, ◌%◌, ◌||◌, ℤ, pos, negsuc,
}
use vlbi_streamer.BufferWriter.{
  Opts, BufferEntity, Writing, settle, close_recer, simple_end_transaction, simple_write_bytes,
  sbuf_sync_loop, block_align, aligned, less, limit,
}

-- The recording entity of a buffer has it, if there is one.
abbrev pub Held : {R : Type 0} → (R → Type 0) → Option R → Type 0
Held P none = Unit
Held P (some r) = P r

module _ {R : Type 0} (P : R → Type 0) (write : Writing R) (o : Opts)
    (keeps : (r : R) (start count : ℕ) → P r → Ensures (λ x. P x.1) (write r start count)) where
  abbrev After : ℤ × BufferEntity R → Type 0
  After x = Held P (x.1.recer)

  settle-keeps :
      (be : BufferEntity R) (count rest step : ℕ) (ret : ℤ × R)
      → P ret.1
      → After (settle o be count rest step ret)
  unfolding close_recer
  settle-keeps be count rest step (negsuc zero, r) h = h
  settle-keeps be count rest step (negsuc (suc e), r) h = elim (Bool-cases o.readmode) [
    | inl y ↦ rw y tt
    | inr n ↦ rw n tt
  ]
  settle-keeps be count rest step (pos zero, r) h = h
  settle-keeps be count rest step (pos (suc ret), r) h = elim (Bool-cases (suc ret == count)) [
    | inl y ↦ rw y h
    | inr n ↦ rw n h
  ]

  write-keeps :
      (be : BufferEntity R) (q : Option R) (start count c rest step : ℕ)
      → Held P q
      → Ensures After
          (do r ← or_fault q; ret ← write r start count; ok (settle o be c rest step ret))
  write-keeps be none start count c rest step h = tt
  write-keeps be (some r) start count c rest step h =
      Ensures-bind (λ x. P x.1) After (write r start count)
        (λ ret. ok (settle o be c rest step ret)) (keeps r start count h)
        (λ ret h'. settle-keeps be c rest step ret h')

  end_transaction-keeps :
      (be : BufferEntity R) → Held P be.recer → Ensures After (simple_end_transaction write o be)
  unfolding simple_end_transaction
  end_transaction-keeps be h =
      elim (Bool-cases (
        not (o.write_to_single_file && not o.readmode)
        || (be.diff % block_align == 0 || not o.is_running))) [
          | inl g ↦ rw g (
              write-keeps be be.recer be.bufoffset (aligned be.diff) (aligned be.diff)
                (less be.diff be.diff) be.diff h)
          | inr g ↦ rw g tt
        ]

  simple_write_bytes-keeps :
      (be : BufferEntity R) → Held P be.recer → Ensures After (simple_write_bytes write o be)
  unfolding simple_write_bytes
  simple_write_bytes-keeps be h =
      let count = if ltb (limit o) be.diff then limit o else be.diff in
      elim (Bool-cases (not (be.diff == 0))) [
        | inr g ↦ rw g tt
        | inl g ↦ elim (Bool-cases (not (limit o == count) && o.directio)) [
          | inl y ↦ rw (g, y) (end_transaction-keeps be h)
          | inr n ↦
              rw (g, n)
                (write-keeps be be.recer be.bufoffset count count
                  (if o.granuality then less be.diff count else 0) count h)
        ]
      ]

  round_one :
      (ret : ℤ) (be : BufferEntity R) (rest : Outcome (ℤ × BufferEntity R))
      → Held P be.recer
      → Ensures After rest
      → Ensures After (elim ret [ negsuc e ↦ ok (negsuc 0, be) | pos k ↦ rest ])
  round_one (negsuc e) be rest h k = h
  round_one (pos n) be rest h k = k

  pub sbuf_sync_loop-keeps :
      (fuel : ℕ) (be : BufferEntity R)
      → Held P be.recer
      → Ensures After (sbuf_sync_loop write o fuel be)
  unfolding sbuf_sync_loop
  sbuf_sync_loop-keeps zero be h = elim (Bool-cases (be.diff == 0)) [
    | inl z ↦ rw (z, sbuf_sync_loop) h
    | inr n ↦ rw (n, sbuf_sync_loop) tt
  ]
  sbuf_sync_loop-keeps (suc fuel) be h = elim (Bool-cases (be.diff == 0)) [
    | inl z ↦ rw (z, sbuf_sync_loop) h
    | inr n ↦
        rw (n, sbuf_sync_loop)
          (Ensures-bind After After (simple_write_bytes write o be)
            (λ x. elim x.0 [
              | negsuc e ↦ ok (negsuc 0, x.1)
              | pos k ↦ sbuf_sync_loop write o fuel x.1
            ])
            (simple_write_bytes-keeps be h)
            (λ x held.
              round_one x.0 x.1 (sbuf_sync_loop write o fuel x.1) held
                (sbuf_sync_loop-keeps fuel x.1 held)))
  ]
