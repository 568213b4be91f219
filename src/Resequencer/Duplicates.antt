-- ===== src/Resequencer/Duplicates.antt =====
-- src/udp_stream.c: packets that come twice, and the byte count of their buffer.
use vlbi_streamer.Base.{
  ℕ, zero, suc, ◌+◌, ◌*◌, ◌%◌, ◌^◌, ◌<◌, ◌≡◌, sym, ◌∷◌, false, leb, ok, aborted, ◌>>◌, check, arith,
}
use vlbi_streamer.Resequencer.{
  Opts, Slots, Resq, int64_max, recv, store_next, bufsize_nooffset, store_behind,
  calc_bufpos_general, handle_buffer_switch, handle_received_packet, receive, receive_all,
  store_late,
}
use vlbi_streamer.Resequencer.Position.{IsPlaced}
use vlbi_streamer.Resequencer.Counting.{
  Filled, consecutive, fits_lem, passes_lem, receive_next, store_next-Filled,
}

late_taken :
    (o : Opts) (m : Slots) (x back : ℕ) (r : Resq)
    → IsPlaced o r
    → back + 1 < r.i
    → r.i < o.buf_num_elems
    → receive o m m r (r.seqstart_current + back) x ≡ (
        check (leb ((r.buffer.inc + o.packet_size) % 2 ^ 32) (bufsize_nooffset o))
        >> ok (store_late o (recv r x) back))
unfolding receive handle_received_packet handle_buffer_switch calc_bufpos_general store_behind
    store_late
late_taken o m x back r v h room = ground (arith, v.passed, v.started)

store_late-holds :
    (o : Opts) (content : ℕ → ℕ) (extra back : ℕ) (r : Resq)
    → Filled o content extra r
    → back + 1 < r.i
    → (k : ℕ) → k < r.i
    → (store_late o (recv r (content (r.seqstart_current + back))) back).buffer.slots k
      ≡ content (r.seqstart_current + k)
unfolding store_late
store_late-holds o content extra back r f h k lt = ground (arith, f.placed.position, f.holds k)

step_extra : (a b p inc : ℕ) → inc ≡ (a + b) * p → inc + p ≡ (a + (b + 1)) * p
step_extra a b p inc e = omega arith

store_late-Filled :
    (o : Opts) (content : ℕ → ℕ) (extra back : ℕ) (r : Resq)
    → Filled o content extra r
    → back + 1 < r.i
    → Filled o content
        (extra + 1)
        (store_late o (recv r (content (r.seqstart_current + back))) back)
unfolding store_late
store_late-Filled o content extra back r f h = record {
  placed = record {
    passed = f.placed.passed;
    position = f.placed.position;
    inside = f.placed.inside;
    started = f.placed.started;
  };
  counted = step_extra r.i extra o.packet_size r.buffer.inc f.counted;
  no_before = f.no_before;
  holds = store_late-holds o content extra back r f h;
}

over_lem : (i n p inc : ℕ) → inc ≡ (i + 1) * p → i + 1 ≡ n → inc + p ≡ n * p + p
over_lem i n p inc e le = rw (sym le, e)

fails_lem :
    (inc size p : ℕ) → inc ≡ size + p → 0 < p → size + p < 2 ^ 32 → leb (inc % 2 ^ 32) size ≡ false
fails_lem inc size p e pos lt = ground arith

overfull :
    (o : Opts) (m : Slots) (content : ℕ → ℕ) (n : ℕ) (r : Resq)
    → Filled o content 1 r
    → r.i + suc n ≡ o.buf_num_elems
    → r.current_seq + suc n < int64_max
    → 0 < o.packet_size
    → bufsize_nooffset o + o.packet_size < 2 ^ 32
    → receive_all o m r (consecutive content (r.current_seq + 1) (suc n)) ≡ aborted
unfolding receive_all consecutive store_next
overfull o m content zero r f full small pos size =
    let one = receive_next o m content 1 r f (omega arith) (omega arith) in
    let over = over_lem r.i o.buf_num_elems o.packet_size r.buffer.inc f.counted (omega arith) in
    rw (
      one,
      fails_lem (r.buffer.inc + o.packet_size) (bufsize_nooffset o) o.packet_size over pos size,
    )
overfull o m content (suc n) r f full small pos size =
    let one = receive_next o m content 1 r f (omega arith) (omega arith) in
    let r1 = store_next o (recv r (content (r.current_seq + 1))) in
    let f1 = store_next-Filled o content 1 r f (omega arith) (omega arith) in
    let below =
      fits_lem (r.i + 1) 1 o.buf_num_elems o.packet_size (r.buffer.inc + o.packet_size) f1.counted
        (omega arith) in
    let fits = passes_lem (r.buffer.inc + o.packet_size) (bufsize_nooffset o) below (omega arith) in
    rw (one, fits, overfull o m content n r1 f1 (omega arith) (omega arith) pos size)

-- When the packet at slot back, behind the current one, comes a second time, the packets that come
-- next in order complete the buffer only up to its last slot: the receiver aborts at the assertion
-- on the byte count. The buffer was filled in order so far and lacks n + 1 packets, packets are not
-- empty, the numbers stay below INT64_MAX, and the buffer size with one packet more below 2^32.
pub duplicate_aborts :
    (o : Opts) (m : Slots) (content : ℕ → ℕ) (back n : ℕ) (r : Resq)
    → Filled o content 0 r
    → back + 1 < r.i
    → r.i + suc n ≡ o.buf_num_elems
    → r.current_seq + suc n < int64_max
    → 0 < o.packet_size
    → bufsize_nooffset o + o.packet_size < 2 ^ 32
    → let again = r.seqstart_current + back in
      receive_all o m r ((again, content again) ∷ (consecutive content (r.current_seq + 1) (suc n)))
      ≡ aborted
unfolding receive_all store_late
duplicate_aborts o m content back n r f h full small pos size =
    let again = r.seqstart_current + back in
    let one = late_taken o m (content again) back r f.placed h (omega arith) in
    let r1 = store_late o (recv r (content again)) back in
    let f1 = store_late-Filled o content 0 back r f h in
    let below =
      fits_lem r.i 1 o.buf_num_elems o.packet_size (r.buffer.inc + o.packet_size) f1.counted
        (omega arith) in
    let fits = passes_lem (r.buffer.inc + o.packet_size) (bufsize_nooffset o) below (omega arith) in
    rw (one, fits, overfull o m content n r1 f1 full small pos size)
