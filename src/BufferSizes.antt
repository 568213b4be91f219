-- ===== src/BufferSizes.antt =====
-- src/streamer.c: how many packets a buffer has, and how many buffers there are. Sizes are
-- `unsigned long`, the number of packets is an `unsigned int`, and the number of buffers an `int`.
mod Tests
pub mod Fitting
use vlbi_streamer.Base.{
  ℕ, zero, suc, ◌+◌, ◌*◌, ◌/◌, ◌%◌, ◌^◌, Option, none, some, Bool, true, false, ◌==◌, if◌then◌else◌,
  Outcome, ℤ, int_of_pattern, ok, faulted, ◌>>=◌, or_diverge,
}

-- The sizes of `struct opt_s`, and the bit USE_RX_RING of its `optbits`.
pub record Sizes : Type 0 where
  pub use_rx_ring : Bool
  pub packet_size : ℕ
  pub filesize : ℕ
  pub maxmem : ℕ
  pub buf_num_elems : ℕ
  pub n_threads : ℤ

-- `GIG`
abbrev pub gig : ℕ
gig = 1073741824

-- The loop of `rxring_packetadjustment`
pub adjust_loop : ℕ → ℕ → Option ℕ
adjust_loop zero packet_size = none
adjust_loop (suc fuel) packet_size =
    let longer = adjust_loop fuel ((packet_size + 1) % 2 ^ 64) in
    if packet_size % 16 == 0 then some packet_size else longer

-- `rxring_packetadjustment`
pub rxring_packetadjustment : ℕ → Option ℕ
rxring_packetadjustment packet_size = adjust_loop 16 packet_size

-- The use of `rxring_packetadjustment`
pub adjusted : Sizes → Option ℕ
adjusted opt =
    if opt.use_rx_ring then rxring_packetadjustment opt.packet_size else some opt.packet_size

-- `calculate_buffer_sizes_singlefilesize`, the `CALC_BUF_SIZE` of the build. A size of 0 is a
-- division by 0.
pub calculate_buffer_sizes_singlefilesize : Sizes → Outcome Sizes
calculate_buffer_sizes_singlefilesize opt = do
  packet_size ← or_diverge (adjusted opt)
  if packet_size == 0
      then faulted
      else if opt.filesize == 0
      then faulted
      else ok (record opt {
        packet_size = packet_size;
        buf_num_elems = opt.filesize / packet_size % 2 ^ 32;
        n_threads = int_of_pattern (opt.maxmem * gig % 2 ^ 64 / opt.filesize % 2 ^ 32);
      })
