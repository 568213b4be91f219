-- ===== src/Resequencer/Counting.antt =====
-- src/udp_stream.c: the byte count and the contents of a buffer over many rounds of the receiver.
use mathlib.Core.Path.{subst}
use native.Mathlib.Decide.{dec_le}
use vlbi_streamer.Base.{
  ℕ, zero, suc, ◌+◌, ◌*◌, ◌%◌, ◌^◌, ◌≤◌, ◌<◌, ◌≡◌, refl, sym, ap, ◌∙◌, ◌⊎◌, inl, inr, List, [], ◌∷◌,
  none, true, leb, ok, aborted, ◌>>◌, check, arith,
}
use vlbi_streamer.Resequencer.{
  Opts, Slots, Resq, int64_max, put, recv, store_next, bufsize_nooffset, calc_bufpos_general,
  store_first, init_resq, handle_buffer_switch, handle_received_packet, receive, receive_all,
}
use vlbi_streamer.Resequencer.Position.{
  IsPlaced, handle_buffer_switch-IsPlaced, calc_bufpos_general-IsPlaced,
}

recv-IsPlaced : (o : Opts) (r : Resq) (x : ℕ) → IsPlaced o r → IsPlaced o (recv r x)
recv-IsPlaced o r x v = record {
  passed = v.passed;
  position = v.position;
  inside = v.inside;
  started = v.started;
}

-- A round of the receiver keeps the position right, whatever packet comes, or stops at the
-- assertion that the byte count is not over the buffer size. The receiver is placed before, a
-- buffer has slots, and the number of the packet is below INT64_MAX.
pub receive-IsPlaced :
    (o : Opts) (m m' : Slots) (r : Resq) (seqnum packet : ℕ)
    → IsPlaced o r
    → 0 < o.buf_num_elems
    → seqnum < int64_max
    → (r' : Resq) × IsPlaced o r'
      × ((receive o m m' r seqnum packet ≡ ok r') × (r'.buffer.inc % 2 ^ 32 ≤ bufsize_nooffset o)
          ⊎ (receive o m m' r seqnum packet ≡ aborted)
            × (bufsize_nooffset o < r'.buffer.inc % 2 ^ 32))
unfolding receive handle_received_packet
receive-IsPlaced o m m' r seqnum packet v pos small =
    let (v1, room) = handle_buffer_switch-IsPlaced o m r v pos in
    let r1 = recv (handle_buffer_switch o m r) packet in
    let v2 = recv-IsPlaced o (handle_buffer_switch o m r) packet v1 in
    let r' = calc_bufpos_general o m' r1 seqnum in
    (
      r',
      calc_bufpos_general-IsPlaced o m' r1 seqnum v2 room small,
      elim (dec_le (r'.buffer.inc % 2 ^ 32) (bufsize_nooffset o)) [
        | yes fits ↦ inl (ground (arith, room, fits), fits)
        | no over ↦ inr (ground (arith, room, over), omega arith)
      ],
    )

-- A receiver that got `extra` packets more than the slots that it passed, and has no buffer before.
pub record Filled (o : Opts) (content : ℕ → ℕ) (extra : ℕ) (r : Resq) : Type 0 where
  pub placed : IsPlaced o r
  pub counted : r.buffer.inc ≡ (r.i + extra) * o.packet_size
  pub no_before : r.before ≡ none
  pub holds : (k : ℕ) → k < r.i → r.buffer.slots k ≡ content (r.seqstart_current + k)

step_lem : (a b p inc : ℕ) → inc ≡ (a + b) * p → inc + p ≡ (a + 1 + b) * p
step_lem a b p inc e = omega arith

next_taken :
    (o : Opts) (m : Slots) (r : Resq) (x : ℕ)
    → r.current_seq < int64_max
    → calc_bufpos_general o m (recv r x) (r.current_seq + 1) ≡ store_next o (recv r x)
unfolding calc_bufpos_general
next_taken o m r x small = ground arith

store_next-holds :
    (o : Opts) (content : ℕ → ℕ) (extra : ℕ) (r : Resq)
    → Filled o content extra r
    → (k : ℕ) → k < r.i + 1
    → put r.buffer.slots r.position (content (r.current_seq + 1)) k
      ≡ content (r.seqstart_current + k)
store_next-holds o content extra r f k h =
    ground (arith, f.placed.passed, f.placed.position, f.holds k)

pub store_next-Filled :
    (o : Opts) (content : ℕ → ℕ) (extra : ℕ) (r : Resq)
    → Filled o content extra r
    → r.i < o.buf_num_elems
    → r.current_seq + 1 < int64_max
    → Filled o content extra (store_next o (recv r (content (r.current_seq + 1))))
unfolding store_next
store_next-Filled o content extra r f room small = record {
  placed = record {
    passed = ground (arith, f.placed.passed);
    position = ground (arith, f.placed.position);
    inside = ground (arith, room);
    started = small;
  };
  counted = step_lem r.i extra o.packet_size r.buffer.inc f.counted;
  no_before = f.no_before;
  holds = store_next-holds o content extra r f;
}

pub times_mono : (a b p : ℕ) → a ≤ b → a * p ≤ b * p
times_mono a b zero le = omega arith
times_mono a b (suc p) le = omega (arith, times_mono a b p le)

pub fits_lem : (i extra n p inc : ℕ) → inc ≡ (i + extra) * p → i + extra ≤ n → inc ≤ n * p
fits_lem i extra n p inc e le = let le' = times_mono (i + extra) n p le in omega arith

-- A round that takes the next packet in order.
pub receive_next :
    (o : Opts) (m : Slots) (content : ℕ → ℕ) (extra : ℕ) (r : Resq)
    → Filled o content extra r
    → r.i < o.buf_num_elems
    → r.current_seq + 1 < int64_max
    → receive o m m r (r.current_seq + 1) (content (r.current_seq + 1)) ≡ (
        check (leb ((r.buffer.inc + o.packet_size) % 2 ^ 32) (bufsize_nooffset o))
        >> ok (store_next o (recv r (content (r.current_seq + 1)))))
unfolding receive handle_received_packet handle_buffer_switch
receive_next o m content extra r f room small =
    ground (arith, next_taken o m r (content (r.current_seq + 1)))

pub passes_lem : (inc size : ℕ) → inc ≤ size → size < 2 ^ 32 → leb (inc % 2 ^ 32) size ≡ true
passes_lem inc size le lt = ground arith

-- The packets from sequence number `s` on, in order and none twice.
unfoldable pub consecutive : (ℕ → ℕ) → ℕ → ℕ → List (ℕ × ℕ)
consecutive content s zero = []
consecutive content s (suc n) = (s, content s) ∷ consecutive content (s + 1) n

-- Packets that come in order fill the buffer: no assertion fails, each packet stands at the slot of
-- its sequence number, and the byte count is that of the packets.
pub receive_all-Filled :
    (o : Opts) (m : Slots) (content : ℕ → ℕ) (extra n : ℕ) (r : Resq)
    → Filled o content extra r
    → r.i + n + extra ≤ o.buf_num_elems
    → r.current_seq + n < int64_max
    → bufsize_nooffset o < 2 ^ 32
    → (r' : Resq) × (receive_all o m r (consecutive content (r.current_seq + 1) n) ≡ ok r')
      × Filled o content extra r'
      × (r'.i ≡ r.i + n)
      × (r'.current_seq ≡ r.current_seq + n)
unfolding receive_all consecutive store_next
receive_all-Filled o m content extra zero r f room small size =
    (r, refl, f, omega arith, omega arith)
receive_all-Filled o m content extra (suc n) r f room small size =
    let r1 = store_next o (recv r (content (r.current_seq + 1))) in
    let f1 = store_next-Filled o content extra r f (omega arith) (omega arith) in
    let (r', e, f', i', s') =
      receive_all-Filled o m content extra n r1 f1 (omega arith) (omega arith) size in
    let below =
      fits_lem (r.i + 1) extra o.buf_num_elems o.packet_size (r.buffer.inc + o.packet_size)
        f1.counted (omega arith) in
    let one = receive_next o m content extra r f (omega arith) (omega arith) in
    let fits = passes_lem (r.buffer.inc + o.packet_size) (bufsize_nooffset o) below size in
    (r', rw (one, fits, e), f', omega (arith, i'), omega (arith, s'))

first_taken :
    (o : Opts) (m : Slots) (x s : ℕ)
    → 0 < o.buf_num_elems
    → o.packet_size ≤ bufsize_nooffset o
    → bufsize_nooffset o < 2 ^ 32
    → receive o m m (init_resq m) s x ≡ ok (store_first o (recv (init_resq m) x) s)
unfolding receive handle_received_packet handle_buffer_switch init_resq calc_bufpos_general
    store_first
first_taken o m x s pos le size = ground arith

store_first-Filled :
    (o : Opts) (m : Slots) (content : ℕ → ℕ) (s : ℕ)
    → s < int64_max
    → 0 < o.buf_num_elems
    → Filled o content 0 (store_first o (recv (init_resq m) (content s)) s)
unfolding init_resq store_first
store_first-Filled o m content s small pos = record {
  placed = record { passed = omega arith; position = refl; inside = omega arith; started = small };
  counted = omega arith;
  no_before = refl;
  holds = λ k h. ground arith;
}

-- As many packets as a buffer has slots, in order from any number s on, fill the first buffer: no
-- assertion fails, all slots are passed, every byte is counted, and each slot k has the packet s +
-- k. The numbers stay below INT64_MAX and the buffer size below 2^32.
pub receive_all-first_buffer :
    (o : Opts) (m : Slots) (content : ℕ → ℕ) (s n k : ℕ)
    → o.buf_num_elems ≡ suc n
    → k < o.buf_num_elems
    → s + n < int64_max
    → bufsize_nooffset o < 2 ^ 32
    → (r' : Resq) × (receive_all o m (init_resq m) (consecutive content s (suc n)) ≡ ok r')
      × (r'.i ≡ o.buf_num_elems)
      × (r'.buffer.inc ≡ bufsize_nooffset o)
      × (r'.buffer.slots k ≡ content (s + k))
unfolding receive_all consecutive store_first init_resq
receive_all-first_buffer o m content s n k e h small size =
    let r1 = store_first o (recv (init_resq m) (content s)) s in
    let f1 = store_first-Filled o m content s (omega arith) (omega arith) in
    let le = subst (λ b. o.packet_size ≤ b * o.packet_size) (sym e) (omega arith) in
    let one = first_taken o m (content s) s (omega arith) le size in
    let fit = subst (λ b. 1 + n + 0 ≤ b) (sym e) (omega arith) in
    let (r', e', f', i', s') = receive_all-Filled o m content 0 n r1 f1 fit (omega arith) size in
    let all : r'.i ≡ o.buf_num_elems = omega (arith, i') in
    let start : r'.seqstart_current ≡ s = omega (arith, f'.placed.passed, i', s') in
    (
      r',
      rw (one, e'),
      all,
      f'.counted ∙ ap (λ b. b * o.packet_size) (omega (arith, all)),
      f'.holds k (subst (λ b. k < b) (sym all) h) ∙ ap (λ b. content (b + k)) start,
    )
