-- ===== src/Resequencer.antt =====
-- src/udp_stream.c: the receiver that puts packets into buffers by their sequence numbers.
-- A buffer is a function from slots of `packet_size` bytes to what stands there, and a pointer into
-- it is the number of its slot; the slots that no packet went to hold what they held before.
-- Sequence numbers are not negative, and stay below INT64_MAX.
mod Tests
pub mod Position
pub mod Branches
pub mod Contents
pub mod Landing
pub mod Counting
pub mod Duplicates
use vlbi_streamer.Base.{
  ℕ, ◌+◌, ◌-◌, ◌*◌, ◌/◌, ◌%◌, ◌^◌, List, [], ◌∷◌, ◌++◌, Option, none, some, Bool, true, false, ◌&&◌,
  ltb, leb, ◌==◌, if◌then◌else◌, Outcome, ok, ◌>>=◌, ◌>>◌, check,
}

-- What is read of `struct opt_s`.
pub record Opts : Type 0 where
  pub buf_num_elems : ℕ
  pub packet_size : ℕ
  pub offset : ℕ

-- CALC_BUFSIZE_FROM_OPT and CALC_BUFSIZE_FROM_OPT_NOOFFSET
abbrev pub bufsize : Opts → ℕ
bufsize o = o.buf_num_elems * (o.packet_size - o.offset)

abbrev pub bufsize_nooffset : Opts → ℕ
bufsize_nooffset o = o.buf_num_elems * o.packet_size

abbrev pub Slots : Type 0
Slots = ℕ → ℕ

-- `memcpy` of one packet to a slot.
abbrev pub put : Slots → ℕ → ℕ → Slots
put f i v j = if i == j then v else f j

-- A buffer entity: its memory, and the byte count that `simple_get_writebuf` hands out as `inc`.
pub record Buffer : Type 0 where
  pub slots : Slots
  pub inc : ℕ

abbrev pub int64_max : ℕ
int64_max = 2 ^ 63 - 1

-- `struct resq_info` with `se->be`, `opt->cumul`, `spec_ops->missing` and the packets that
-- `afi_add_to_packets` counts in the file index. `position` is `buf` as a
-- slot behind `bufstart`; `before` is NULL together with `bufstart_before`; `freed` are the
-- buffers that went through `free_the_buf` to their writers, the last one first.
pub record Resq : Type 0 where
  pub current_seq : ℕ
  pub seqstart_current : ℕ
  pub i : ℕ
  pub position : ℕ
  pub buffer : Buffer
  pub before : Option Buffer
  pub freed : List Buffer
  pub missing : ℕ
  pub cumul : ℕ
  pub n_packets : ℕ

-- `init_resq`, on the first buffer.
pub init_resq : Slots → Resq
init_resq memory = record {
  current_seq = int64_max;
  seqstart_current = int64_max;
  i = 0;
  position = 0;
  buffer = record { slots = memory; inc = 0 };
  before = none;
  freed = [];
  missing = 0;
  cumul = 0;
  n_packets = 0;
}

-- The first part of `jump_to_next_buf`: the buffer before the current one is written out as it is,
-- and its packets that did not come are counted.
pub flush_before : Opts → Resq → Resq
flush_before o r = elim r.before [
  | none ↦ r
  | some b ↦ record r {
    missing = (r.missing + (bufsize o + 2 ^ 64 - b.inc) % 2 ^ 64 / o.packet_size) % 2 ^ 64;
    freed = record b { inc = bufsize o } ∷ r.freed;
    before = none;
  }
]

-- The second: a complete buffer goes to its writer, another one is kept for late packets.
pub retire : Opts → Resq → Resq
retire o r =
    if r.buffer.inc == bufsize_nooffset o
    then record r { freed = r.buffer ∷ r.freed; before = none }
    else record r { before = some r.buffer }

-- `jump_to_next_buf`, with the memory of the buffer that `get_free` gives it; `sbuf_acquire` has set
-- its byte count to 0.
pub jump_to_next_buf : Opts → Slots → Resq → Resq
unfolding flush_before retire
jump_to_next_buf o memory r =
    let r' = retire o (flush_before o (record r { cumul = r.cumul + 1 })) in
    record r' {
      i = 0;
      position = 0;
      buffer = record { slots = memory; inc = 0 };
      seqstart_current = r'.seqstart_current + o.buf_num_elems;
    }

abbrev pub counted : Opts → Buffer → Buffer
counted o b = record b { inc = b.inc + o.packet_size }

-- The packet that was received last, where `recv` put it.
abbrev pub arrived : Resq → ℕ
arrived r = r.buffer.slots r.position

-- The branches of `calc_bufpos_general`, in its order.
pub store_first : Opts → Resq → ℕ → Resq
store_first o r seqnum = record r {
  current_seq = seqnum;
  seqstart_current = seqnum;
  buffer = counted o r.buffer;
  i = r.i + 1;
  position = r.position + 1;
}

pub store_next : Opts → Resq → Resq
store_next o r = record r {
  current_seq = r.current_seq + 1;
  buffer = counted o r.buffer;
  i = r.i + 1;
  position = r.position + 1;
}

pub drop_packet : Resq → Resq
drop_packet r = record r { missing = r.missing + 1 }

-- The buffer before with the packet at its slot, `back` packets before the start of this one.
abbrev pub with_late : Opts → Resq → Buffer → ℕ → Buffer
with_late o r b back = record {
  slots = put b.slots (o.buf_num_elems - back) (arrived r);
  inc = b.inc + o.packet_size;
}

pub store_before : Opts → Resq → Buffer → ℕ → Resq
store_before o r b back =
    let b' = with_late o r b back in
    if ltb (bufsize o) (b'.inc + o.packet_size)
    then record r { freed = b' ∷ r.freed; before = none }
    else record r { before = some b' }

pub store_late : Opts → Resq → ℕ → Resq
store_late o r d = record r {
  buffer = record { slots = put r.buffer.slots d (arrived r); inc = r.buffer.inc + o.packet_size };
}

-- A packet of the next buffer, at its slot `d`.
pub store_beyond : Opts → Slots → Resq → ℕ → ℕ → Resq
unfolding jump_to_next_buf
store_beyond o memory r seqnum d =
    let r' = jump_to_next_buf o memory r in
    record r' {
      buffer = record {
        slots = put r'.buffer.slots d (arrived r);
        inc = r'.buffer.inc + o.packet_size;
      };
      current_seq = seqnum;
      i = r'.i + (d + 1);
      position = d + 1;
    }

pub store_ahead : Opts → Resq → ℕ → ℕ → Resq
store_ahead o r seqnum d = record r {
  buffer = record { slots = put r.buffer.slots d (arrived r); inc = r.buffer.inc + o.packet_size };
  i = r.i + (seqnum - r.current_seq);
  current_seq = seqnum;
  position = d + 1;
}

-- `diff_to_current < 0`
pub store_behind : Opts → Resq → ℕ → Resq
unfolding drop_packet store_before store_late
store_behind o r seqnum =
    if ltb seqnum r.seqstart_current
    then elim r.before [
      | none ↦ drop_packet r
      | some b ↦
          if ltb o.buf_num_elems (r.seqstart_current - seqnum)
          then drop_packet r
          else store_before o r b (r.seqstart_current - seqnum)
    ]
    else store_late o r (seqnum - r.seqstart_current)

-- `seqnum > current`
pub store_before_time : Opts → Slots → Resq → ℕ → Resq
unfolding drop_packet store_beyond store_ahead
store_before_time o memory r seqnum =
    let d = seqnum - r.seqstart_current in
    if leb o.buf_num_elems d
    then (if leb (o.buf_num_elems * 2) d
        then drop_packet r
        else store_beyond o memory r seqnum (d - o.buf_num_elems))
    else store_ahead o r seqnum d

-- `calc_bufpos_general`, for a packet of sequence number `seqnum` that `recv` put at `position`.
pub calc_bufpos_general : Opts → Slots → Resq → ℕ → Resq
unfolding store_first store_next store_behind store_before_time
calc_bufpos_general o memory r seqnum =
    if r.current_seq == int64_max && r.seqstart_current == int64_max
    then store_first o r seqnum
    else if seqnum == r.current_seq + 1
    then store_next o r
    else if seqnum == r.current_seq
    then r
    else if ltb seqnum r.current_seq
    then store_behind o r seqnum
    else store_before_time o memory r seqnum

-- `handle_buffer_switch`, for a known datatype: the buffer changes when all its slots are passed.
pub handle_buffer_switch : Opts → Slots → Resq → Resq
unfolding jump_to_next_buf
handle_buffer_switch o memory r =
    if r.i == o.buf_num_elems
    then jump_to_next_buf o memory
        (record r { n_packets = (r.n_packets + o.buf_num_elems) % 2 ^ 64 })
    else r

-- `recv` of a packet of full size.
abbrev pub recv : Resq → ℕ → Resq
recv r packet = record r {
  buffer = record (r.buffer) { slots = put r.buffer.slots r.position packet };
}

-- The successful path of `udps_handle_received_packet`, with its two assertions; the
-- second one reads the byte count as an `unsigned`.
pub handle_received_packet : Opts → Slots → Resq → ℕ → Outcome Resq
unfolding calc_bufpos_general
handle_received_packet o memory r seqnum = do
  check (ltb r.i o.buf_num_elems)
  let r' = calc_bufpos_general o memory r seqnum
  check (leb (r'.buffer.inc % 2 ^ 32) (bufsize_nooffset o))
  ok r'

-- One round of the loop of `udp_receiver`; the two memories are those of the buffers that it takes.
pub receive : Opts → Slots → Slots → Resq → ℕ → ℕ → Outcome Resq
unfolding handle_buffer_switch handle_received_packet
receive o memory memory' r seqnum packet =
    handle_received_packet o memory' (recv (handle_buffer_switch o memory r) packet) seqnum

-- The loop of `udp_receiver` over the packets that come, each with its sequence number.
pub receive_all : Opts → Slots → Resq → List (ℕ × ℕ) → Outcome Resq
unfolding receive
receive_all o memory r [] = ok r
receive_all o memory r ((seqnum, packet) ∷ rest) = do
  r' ← receive o memory memory r seqnum packet
  receive_all o memory r' rest
