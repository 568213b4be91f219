-- ===== src/BufferSizes/Tests.antt =====
-- Sizes for the rx-ring, and what the theorem on fitting says of them.
use vlbi_streamer.Base.{◌≡◌, true, ok, pos, arith}
use vlbi_streamer.BufferSizes.{Sizes, calculate_buffer_sizes_singlefilesize}
use vlbi_streamer.BufferSizes.Fitting.{Fits, calculate_buffer_sizes_singlefilesize-Fits}

abbrev ring_sizes : Sizes
ring_sizes = record {
  use_rx_ring = true;
  packet_size = 9000;
  filesize = 536870912;
  maxmem = 12;
  buf_num_elems = 0;
  n_threads = pos 0;
}

calculate_buffer_sizes_singlefilesize-Fits_example :
    (opt' : Sizes) × (calculate_buffer_sizes_singlefilesize ring_sizes ≡ ok opt')
    × Fits ring_sizes opt'
calculate_buffer_sizes_singlefilesize-Fits_example =
    calculate_buffer_sizes_singlefilesize-Fits ring_sizes (omega arith) (omega arith) (omega arith)
      (omega arith) (omega arith) (omega arith)
