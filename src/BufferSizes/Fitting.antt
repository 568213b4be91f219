-- ===== src/BufferSizes/Fitting.antt =====
-- src/streamer.c: the buffers fit into the memory, and the packets into the buffers.
use native.Mathlib.Nat.{div-mul-le_self, lt-div-mul-add, div-le_self}
use vlbi_streamer.Base.{
  ℕ, zero, suc, ◌+◌, ◌*◌, ◌/◌, ◌%◌, ◌^◌, ◌≤◌, ◌<◌, ◌≡◌, refl, ◌∙◌, ap, ◌⊎◌, inl, inr, some, true,
  false, ltb, pos, ◌==◌, if◌then◌else◌, Bool-cases, ok, arith,
}
use vlbi_streamer.BufferSizes.{
  Sizes, gig, adjust_loop, rxring_packetadjustment, adjusted, calculate_buffer_sizes_singlefilesize,
}

-- The next multiple of 16.
pub record IsAdjusted (packet_size p : ℕ) : Type 0 where
  pub multiple : p % 16 ≡ 0
  pub from : packet_size ≤ p
  pub below : p < packet_size + 16

adjust-next :
    (packet_size fuel : ℕ)
    → (packet_size % 16 == 0) ≡ false
    → adjust_loop (suc (suc fuel)) packet_size ≡ adjust_loop (suc fuel) ((packet_size + 1) % 2 ^ 64)
unfolding adjust_loop
adjust-next packet_size fuel miss =
    ap (λ b. if b then some packet_size else adjust_loop (suc fuel) ((packet_size + 1) % 2 ^ 64))
      miss

adjust_loop_lem :
    (fuel packet_size : ℕ)
    → packet_size + fuel < 2 ^ 64
    → (packet_size % 16 ≡ 0) ⊎ (16 < packet_size % 16 + suc fuel)
    → (p : ℕ) × (adjust_loop (suc fuel) packet_size ≡ some p)
      × (p % 16 ≡ 0)
      × (packet_size ≤ p)
      × (p ≤ packet_size + fuel)
unfolding adjust_loop
adjust_loop_lem zero packet_size small h =
    (packet_size, ground arith, omega arith, omega arith, omega arith)
adjust_loop_lem (suc fuel) packet_size small h = elim (Bool-cases (packet_size % 16 == 0)) [
  | inl hit ↦ (packet_size, rw hit refl, ground arith, omega arith, omega arith)
  | inr miss ↦
      let next : (packet_size + 1) % 2 ^ 64 ≡ packet_size + 1 = omega arith in
      let (p, found, m, l, u) =
        adjust_loop_lem fuel (packet_size + 1) (omega arith) (ground arith) in
      (
        p,
        adjust-next packet_size fuel miss ∙ ap (adjust_loop (suc fuel)) next ∙ found,
        m,
        omega arith,
        omega arith,
      )
]

pub rxring_packetadjustment-IsAdjusted :
    (packet_size : ℕ)
    → packet_size + 16 < 2 ^ 64
    → (p : ℕ) × (rxring_packetadjustment packet_size ≡ some p) × IsAdjusted packet_size p
unfolding rxring_packetadjustment
rxring_packetadjustment-IsAdjusted packet_size h =
    let (p, found, m, l, u) = adjust_loop_lem 15 packet_size (omega arith) (omega arith) in
    (p, found, record { multiple = m; from = l; below = omega arith })

-- What the sizes come to.
pub record Fits (opt opt' : Sizes) : Type 0 where
  pub at_least : opt.packet_size ≤ opt'.packet_size
  pub below : opt'.packet_size < opt.packet_size + 16
  pub of_sixteen : (opt.use_rx_ring ≡ false) ⊎ (opt'.packet_size % 16 ≡ 0)
  pub packets_fit : opt'.buf_num_elems * opt'.packet_size ≤ opt'.filesize
  pub no_more_packets : opt'.filesize < opt'.buf_num_elems * opt'.packet_size + opt'.packet_size
  pub buffers : ℕ
  pub positive : opt'.n_threads ≡ pos buffers
  pub buffers_fit : buffers * opt'.filesize ≤ opt'.maxmem * gig
  pub no_more_buffers : opt'.maxmem * gig < buffers * opt'.filesize + opt'.filesize

adjusted_lem :
    (opt : Sizes)
    → opt.packet_size + 16 < 2 ^ 64
    → (p : ℕ) × (adjusted opt ≡ some p)
      × (opt.packet_size ≤ p)
      × (p < opt.packet_size + 16)
      × ((opt.use_rx_ring ≡ false) ⊎ (p % 16 ≡ 0))
unfolding adjusted
adjusted_lem opt h = elim (Bool-cases opt.use_rx_ring) [
  | inl ring ↦
      let (p, found, a) = rxring_packetadjustment-IsAdjusted opt.packet_size h in
      (p, simp (ring, found), a.from, a.below, inr a.multiple)
  | inr plain ↦ (opt.packet_size, simp plain, omega arith, omega arith, inl plain)
]

quotient :
    (a b : ℕ) → 0 < b → a / b < 2 ^ 32 → (a / b % 2 ^ 32 * b ≤ a) × (a < a / b % 2 ^ 32 * b + b)
quotient a b positive small =
    let e : a / b % 2 ^ 32 ≡ a / b = omega arith in
    rw e (div-mul-le_self a b, lt-div-mul-add positive)

-- The function returns sizes that fit: as many packets as a buffer has room for and no more, as
-- many buffers as the memory has room for and no more, and a packet size that is not smaller than
-- before, less than 16 above, and for the rx-ring a multiple of 16. Packet size and file size are
-- not 0, a file is below 4 GB, the memory below 2^34 GB, the packet size 16 below 2^64, and there
-- are fewer than 2^31 buffers, so that their number is not negative.
pub calculate_buffer_sizes_singlefilesize-Fits :
    (opt : Sizes)
    → 0 < opt.packet_size
    → 0 < opt.filesize
    → opt.packet_size + 16 < 2 ^ 64
    → opt.maxmem < 2 ^ 34
    → opt.filesize < 2 ^ 32
    → opt.maxmem * gig / opt.filesize < 2 ^ 31
    → (opt' : Sizes) × (calculate_buffer_sizes_singlefilesize opt ≡ ok opt') × Fits opt opt'
unfolding calculate_buffer_sizes_singlefilesize
calculate_buffer_sizes_singlefilesize-Fits opt some_packet some_file small memory file few =
    let (p, found, from, below, aligned) = adjusted_lem opt small in
    let positive : 0 < p = omega arith in
    let no_zero : (p == 0) ≡ false = ground arith in
    let no_zero_file : (opt.filesize == 0) ≡ false = ground arith in
    let whole : opt.maxmem * gig % 2 ^ 64 ≡ opt.maxmem * gig = omega arith in
    let (fit, most) =
      quotient opt.filesize p positive (omega (arith, div-le_self opt.filesize p)) in
    let count = opt.maxmem * gig / opt.filesize % 2 ^ 32 in
    let few_pattern : ltb count (2 ^ 31) ≡ true = ground arith in
    let (fit', most') = quotient (opt.maxmem * gig) opt.filesize some_file (omega arith) in
    (
      record opt {
        packet_size = p;
        buf_num_elems = opt.filesize / p % 2 ^ 32;
        n_threads = pos count;
      },
      simp (found, no_zero, no_zero_file, whole, few_pattern),
      record {
        at_least = from;
        below = below;
        of_sixteen = aligned;
        packets_fit = fit;
        no_more_packets = most;
        buffers = count;
        positive = refl;
        buffers_fit = fit';
        no_more_buffers = most';
      },
    )
