-- ===== src/BufferWriter.antt =====
-- src/defwriter.c and src/simplebuffer.c: a full buffer goes to its file.
-- The system calls `write` and `read` are a parameter. Addresses are offsets into the buffer, and
-- EOF is -1.
mod Tests
pub mod Transfers
pub mod Looping
pub mod Async
pub mod Completing
pub mod Keeping
pub mod Failures
use vlbi_streamer.Base.{
  ℕ, zero, suc, ◌+◌, ◌-◌, ◌*◌, ◌/◌, ◌%◌, ◌^◌, List, [], ◌∷◌, Option, none, some, Bool, true, false,
  not, ◌&&◌, ◌||◌, ltb, leb, ◌==◌, if◌then◌else◌, Outcome, ok, diverged, ◌>>=◌, ◌>>◌, check,
  or_fault, ℤ, long_of_pattern, pos, negsuc,
}

-- What `write` or `read` returns after the calls that were made before, the last one first, for an
-- address and a count.
abbrev pub System : Type 0
System = List (ℕ × ℕ) → ℕ → ℕ → ℤ

-- `struct common_io_info`, with the calls made on its file and what is read of `struct opt_s`. The
-- counters are 64-bit patterns.
pub record CommonIoInfo : Type 0 where
  pub fd : ℕ
  pub readmode : Bool
  pub bytes_exchanged : ℕ
  pub opt_bytes_exchanged : ℕ
  pub calls : List (ℕ × ℕ)

abbrev pub eof : ℤ
eof = negsuc 0

-- Subtraction of unsigned 64-bit numbers.
abbrev pub less : ℕ → ℕ → ℕ
less a b = (a + (2 ^ 64 - b)) % 2 ^ 64

abbrev pub called : CommonIoInfo → ℕ → ℕ → CommonIoInfo
called ioi start count = record ioi { calls = (start, count) ∷ ioi.calls }

abbrev pub exchanged : CommonIoInfo → ℕ → CommonIoInfo
exchanged ioi n = record ioi {
  bytes_exchanged = (ioi.bytes_exchanged + n) % 2 ^ 64;
  opt_bytes_exchanged = (ioi.opt_bytes_exchanged + n) % 2 ^ 64;
}

-- The loop of `def_write`, on fuel. `total_w` is a `long`, kept as its pattern.
unfoldable pub transfer : System → ℕ → ℕ → ℕ → ℕ → CommonIoInfo → Outcome (ℤ × CommonIoInfo)
transfer sys fuel start total_w zero ioi = ok (long_of_pattern total_w, ioi)
transfer sys zero start total_w (suc n) ioi = diverged
transfer sys (suc fuel) start total_w (suc n) ioi =
    let ioi' = called ioi start (suc n) in
    elim (sys ioi.calls start (suc n)) [
      | pos zero ↦ if ioi.readmode then ok (eof, exchanged ioi' (suc n)) else ok (pos 0, ioi')
      | pos (suc ret) ↦
          transfer sys fuel start ((total_w + suc ret) % 2 ^ 64) (less (suc n) (suc ret))
            (exchanged ioi' (suc ret))
      | negsuc e ↦ ok (negsuc e, ioi')
    ]

pub def_write : System → CommonIoInfo → ℕ → ℕ → Outcome (ℤ × CommonIoInfo)
unfolding transfer
def_write sys ioi start count =
    if ioi.fd == 0 then ok (eof, ioi) else transfer sys count start 0 count ioi

-- What is read of `struct opt_s`, and the build's WRITE_GRANUALITY.
pub record Opts : Type 0 where
  pub granuality : Bool
  pub writev : Bool
  pub directio : Bool
  pub do_w_stuff_every : ℕ
  pub packet_size : ℕ
  pub bufsize : ℕ
  pub write_to_single_file : Bool
  pub readmode : Bool
  pub is_running : Bool

-- A `struct buffer_entity` with its `struct simplebuf`; `R` is its recording entity, `free` tells
-- that `set_free` was called on it, and `handled` keeps the error that `handle_error` got.
pub record BufferEntity (R : Type 0) : Type 0 where
  pub diff : ℕ
  pub asyncdiff : ℕ
  pub bufoffset : ℕ
  pub recer : Option R
  pub ready_to_act : Bool
  pub is_free : Bool
  pub handled : Option ℤ

-- The `write` of a recording entity.
abbrev pub Writing : Type 0 → Type 0
Writing R = R → ℕ → ℕ → Outcome (ℤ × R)

pub close_recer : {R : Type 0} → Opts → BufferEntity R → ℤ → BufferEntity R
close_recer o be errornum =
    let be' = record be { recer = none; handled = some errornum } in
    if o.readmode then record be' { is_free = true; ready_to_act = false } else be'

abbrev pub block_align : ℕ
block_align = 4096

-- `count` made a multiple of BLOCK_ALIGN.
pub aligned : ℕ → ℕ
aligned count =
    let wrote_extra = count % block_align in
    if wrote_extra == 0 then count else count + (block_align - wrote_extra)

-- What both write functions do with the result of `write`: `count` bytes were asked for, and a
-- complete write leaves `rest` bytes and moves on by `step`.
abbrev pub settle : {R : Type 0} → Opts → BufferEntity R → ℕ → ℕ → ℕ → ℤ × R → ℤ × BufferEntity R
settle o be count rest step (negsuc zero, r) = (pos 0, record be { diff = 0; recer = some r })
settle o be count rest step (negsuc (suc e), r) =
    (negsuc 0, close_recer o (record be { recer = some r }) (negsuc (suc e)))
settle o be count rest step (pos zero, r) = (pos 0, record be { recer = some r })
settle o be count rest step (pos (suc ret), r) =
    if suc ret == count
    then (pos 0, record be { diff = rest; bufoffset = be.bufoffset + step; recer = some r })
    else (
      pos 0,
      record be {
        diff = less be.diff (suc ret);
        bufoffset = be.bufoffset + suc ret;
        recer = some r;
      },
    )

pub simple_end_transaction :
    {R : Type 0} → Writing R → Opts → BufferEntity R → Outcome (ℤ × BufferEntity R)
unfolding aligned close_recer
simple_end_transaction write o be = do
  let count = aligned be.diff
  check (
      not (o.write_to_single_file && not o.readmode)
      || (be.diff % block_align == 0 || not o.is_running))
  r ← or_fault be.recer
  ret ← write r be.bufoffset count
  ok (settle o be count (less be.diff be.diff) be.diff ret)

unfoldable pub limit : Opts → ℕ
limit o =
    if o.granuality
    then (if o.writev
        then o.do_w_stuff_every / o.packet_size * o.packet_size
        else o.do_w_stuff_every)
    else o.bufsize

pub simple_write_bytes :
    {R : Type 0} → Writing R → Opts → BufferEntity R → Outcome (ℤ × BufferEntity R)
unfolding limit simple_end_transaction close_recer
simple_write_bytes write o be = do
  check (not (be.diff == 0))
  let count = if ltb (limit o) be.diff then limit o else be.diff
  if not (limit o == count) && o.directio then simple_end_transaction write o be else (do
    r ← or_fault be.recer
    ret ← write r be.bufoffset count
    ok (settle o be count (if o.granuality then less be.diff count else 0) count ret))

-- The loop of `sbuf_sync_loop`, on fuel.
pub sbuf_sync_loop :
    {R : Type 0} → Writing R → Opts → ℕ → BufferEntity R → Outcome (ℤ × BufferEntity R)
unfolding simple_write_bytes
sbuf_sync_loop write o zero be = if be.diff == 0 then ok (pos 0, be) else diverged
sbuf_sync_loop write o (suc fuel) be = elim (be.diff == 0) [
  | true ↦ ok (pos 0, be)
  | false ↦ do
    (ret, be') ← simple_write_bytes write o be
    elim ret [ negsuc e ↦ ok (negsuc 0, be') | pos n ↦ sbuf_sync_loop write o fuel be' ]
]

abbrev pub is_none : {A : Type 0} → Option A → Bool
is_none none = true
is_none (some a) = false

-- The end of `write_buffer`, for synchronous writing; the recording entity that is
-- returned went through `set_free`.
pub finish_write_buffer :
    {R : Type 0} → Writing R → Opts → ℕ → BufferEntity R → Outcome (ℤ × Option R × BufferEntity R)
unfolding sbuf_sync_loop close_recer
finish_write_buffer write o fuel be = do
  (ret, be') ← sbuf_sync_loop write o fuel be
  elim ret [
    | negsuc e ↦
        ok (negsuc 0, none, if is_none be'.recer then be' else close_recer o be' (negsuc e))
    | pos n ↦ ok (pos n, be'.recer, record be' { recer = none })
  ]
