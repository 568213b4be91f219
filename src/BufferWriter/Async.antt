-- ===== src/BufferWriter/Async.antt =====
-- src/simplebuffer.c: the loop for asynchronous writing, whose writes are asked for their completion.
use vlbi_streamer.Base.{
  ℕ, zero, suc, some, Bool, true, false, ◌==◌, if◌then◌else◌, Outcome, ok, diverged, ◌>>=◌,
  or_fault, ℤ, int_of_long, pos, negsuc,
}
use vlbi_streamer.BufferWriter.{Opts, BufferEntity, Writing, less, is_none, simple_write_bytes}

-- The `check` of a recording entity, which is always called with 0: the bytes of a write that is
-- complete, or 0. It is a `long`.
abbrev pub Polling : Type 0 → Type 0
Polling R = R → ℤ × R

-- AIO_END_OF_FILE is -323.
abbrev pub is_end_of_file : ℕ → Bool
is_end_of_file e = e == 322

module _ {R : Type 0} (poll : Polling R) where
  -- `sbuf_check`, which keeps the result in an `int`; a `negsuc` is the return of -1. With `tout` it
  -- sleeps when nothing is complete, and nothing else.
  unfoldable pub sbuf_check : BufferEntity R → Outcome (ℤ × BufferEntity R)
  sbuf_check be = do
    r ← or_fault be.recer
    let (ret, r') = poll r
    let be' = record be { recer = some r' }
    ok (elim (int_of_long ret) [
      | pos n ↦ (pos 0, record be' { asyncdiff = less be.asyncdiff n })
      | negsuc e ↦
          if is_end_of_file e then (pos 0, record be' { asyncdiff = 0 }) else (negsuc 0, be')
    ])

  -- What is done in a round of the loop: `simple_write_bytes` and `sbuf_check`, or that alone.
  unfoldable pub async_round : Writing R → Opts → BufferEntity R → Outcome (ℤ × BufferEntity R)
  async_round write o be =
      if be.diff == 0 then (if is_none be.recer then ok (negsuc 0, be) else sbuf_check be) else (do
        (err, be') ← simple_write_bytes write o be
        elim err [ negsuc e ↦ ok (negsuc 0, be') | pos n ↦ sbuf_check be' ])

  -- The `while` of `sbuf_async_loop`, on fuel.
  unfoldable pub async_loop : Writing R → Opts → ℕ → BufferEntity R → Outcome (ℤ × BufferEntity R)
  async_loop write o zero be = if be.asyncdiff == 0 then ok (pos 0, be) else diverged
  async_loop write o (suc fuel) be = elim (be.asyncdiff == 0) [
    | true ↦ ok (pos 0, be)
    | false ↦ do
      (err, be') ← async_round write o be
      elim err [ negsuc e ↦ ok (negsuc 0, be') | pos n ↦ async_loop write o fuel be' ]
  ]

  unfoldable pub sbuf_async_loop :
      Writing R → Opts → ℕ → BufferEntity R → Outcome (ℤ × BufferEntity R)
  sbuf_async_loop write o fuel be = async_loop write o fuel (record be { asyncdiff = be.diff })
