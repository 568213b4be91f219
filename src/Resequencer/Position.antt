-- ===== src/Resequencer/Position.antt =====
-- src/udp_stream.c: the position where the next packet is received, the count of slots passed and
-- the sequence numbers.
use vlbi_streamer.Base.{ℕ, ◌+◌, ◌≤◌, ◌<◌, ◌≡◌, arith}
use vlbi_streamer.Resequencer.{
  Opts, Slots, Resq, int64_max, flush_before, retire, jump_to_next_buf, store_next, drop_packet,
  store_before, store_late, store_beyond, store_ahead, store_behind, store_before_time,
  calc_bufpos_general, handle_buffer_switch,
}

-- A running receiver: `i` slots are passed, up to the one of `current_seq`; right after a buffer
-- switch that is none.
pub record IsPlaced (o : Opts) (r : Resq) : Type 0 where
  pub passed : r.seqstart_current + r.i ≡ r.current_seq + 1
  pub position : r.position ≡ r.i
  pub inside : r.i ≤ o.buf_num_elems
  pub started : r.current_seq < int64_max

-- The fields of the state that `jump_to_next_buf` leaves behind.
pub record Jumped (o : Opts) (r r' : Resq) : Type 0 where
  pub no_slots : r'.i ≡ 0
  pub at_start : r'.position ≡ 0
  pub next_start : r'.seqstart_current ≡ r.seqstart_current + o.buf_num_elems
  pub same_seq : r'.current_seq ≡ r.current_seq

pub jump-Jumped : (o : Opts) (m : Slots) (r : Resq) → Jumped o r (jump_to_next_buf o m r)
unfolding jump_to_next_buf flush_before retire
jump-Jumped o m r = ground arith

pub handle_buffer_switch-IsPlaced :
    (o : Opts) (m : Slots) (r : Resq)
    → IsPlaced o r
    → 0 < o.buf_num_elems
    → IsPlaced o (handle_buffer_switch o m r) × ((handle_buffer_switch o m r).i < o.buf_num_elems)
unfolding handle_buffer_switch
handle_buffer_switch-IsPlaced o m r v pos = ground (arith, jump-Jumped o m r)

store_behind-keeps :
    (o : Opts) (r : Resq) (seqnum : ℕ)
    → let r' = store_behind o r seqnum in
      (r'.i ≡ r.i)
      × (r'.position ≡ r.position)
      × (r'.current_seq ≡ r.current_seq)
      × (r'.seqstart_current ≡ r.seqstart_current)
unfolding store_behind drop_packet store_before store_late
store_behind-keeps o r seqnum = ground arith

store_before_time-IsPlaced :
    (o : Opts) (m : Slots) (r : Resq) (seqnum : ℕ)
    → IsPlaced o r
    → r.current_seq < seqnum
    → seqnum < int64_max
    → IsPlaced o (store_before_time o m r seqnum)
unfolding store_before_time drop_packet store_beyond store_ahead
store_before_time-IsPlaced o m r seqnum v late small = ground (arith, jump-Jumped o m r)

-- Whatever packet comes to a placed receiver with a free slot, calc_bufpos_general leaves the
-- position right behind the packet with the highest number, and not past the end of the buffer; the
-- number of the packet is below INT64_MAX.
pub calc_bufpos_general-IsPlaced :
    (o : Opts) (m : Slots) (r : Resq) (seqnum : ℕ)
    → IsPlaced o r
    → r.i < o.buf_num_elems
    → seqnum < int64_max
    → IsPlaced o (calc_bufpos_general o m r seqnum)
unfolding calc_bufpos_general store_next
calc_bufpos_general-IsPlaced o m r seqnum v room small =
    ground (arith, store_behind-keeps o r seqnum, store_before_time-IsPlaced o m r seqnum v)
