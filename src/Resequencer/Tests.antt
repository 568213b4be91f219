-- ===== src/Resequencer/Tests.antt =====
-- A receiver with buffers of four packets, and what the theorems on receivers say of it.
use vlbi_streamer.Base.{ℕ, suc, ◌+◌, ◌*◌, ◌≡◌, refl, [], ◌∷◌, none, some, ok, aborted, arith}
use vlbi_streamer.Resequencer.{
  Opts, Resq, Slots, arrived, bufsize_nooffset, calc_bufpos_general, init_resq, receive_all,
}
use vlbi_streamer.Resequencer.Position.{IsPlaced}
use vlbi_streamer.Resequencer.Contents.{Kept, calc_bufpos_general-Kept, lookup}
use vlbi_streamer.Resequencer.Landing.{Landed, calc_bufpos_general-Landed}
use vlbi_streamer.Resequencer.Counting.{Filled, consecutive, receive_all-first_buffer}
use vlbi_streamer.Resequencer.Duplicates.{duplicate_aborts}

abbrev opts : Opts
opts = record { buf_num_elems = 4; packet_size = 10; offset = 0 }

abbrev blank : Slots
blank = λ j. 0

-- Two packets in, 100 and 101, and the third one received.
abbrev running : Resq
running = record {
  current_seq = 101;
  seqstart_current = 100;
  i = 2;
  position = 2;
  buffer = record { slots = λ j. j + 10; inc = 20 };
  before = none;
  freed = [];
  missing = 0;
  cumul = 0;
  n_packets = 0;
}

abbrev content : ℕ → ℕ
content j = j * 7

abbrev half_full : Resq
half_full = record running { buffer = record { slots = λ j. (100 + j) * 7; inc = 20 } }

running-IsPlaced : IsPlaced opts running
running-IsPlaced = record {
  passed = refl;
  position = refl;
  inside = omega arith;
  started = omega arith;
}

half_full-Filled : Filled opts content 0 half_full
half_full-Filled = record {
  placed = record { passed = refl; position = refl; inside = omega arith; started = omega arith };
  counted = refl;
  no_before = refl;
  holds = λ k h. refl;
}

held_101 : lookup opts running 101 ≡ some 11
held_101 = refl

calc_bufpos_general-Kept_example :
    Kept opts running (calc_bufpos_general opts blank running 105) 101 11
calc_bufpos_general-Kept_example =
    calc_bufpos_general-Kept opts running 101 11 running-IsPlaced held_101 blank 105
      (λ e. omega (arith, e)) (omega arith)

calc_bufpos_general-Landed_example :
    Landed opts running (calc_bufpos_general opts blank running 105) 105 (arrived running)
calc_bufpos_general-Landed_example =
    calc_bufpos_general-Landed opts blank running 105 running-IsPlaced (omega arith)

receive_all-first_buffer_example :
    (r' : Resq) × (receive_all opts blank (init_resq blank) (consecutive content 100 (suc 3))
      ≡ ok r')
    × (r'.i ≡ opts.buf_num_elems)
    × (r'.buffer.inc ≡ bufsize_nooffset opts)
    × (r'.buffer.slots 2 ≡ content (100 + 2))
receive_all-first_buffer_example =
    receive_all-first_buffer opts blank content 100 3 2 refl (omega arith) (omega arith)
      (omega arith)

duplicate_aborts_example :
    let again = half_full.seqstart_current + 0 in
    receive_all opts blank half_full
      ((again, content again) ∷ (consecutive content (half_full.current_seq + 1) (suc 1)))
    ≡ aborted
duplicate_aborts_example =
    duplicate_aborts opts blank content 0 1 half_full half_full-Filled (omega arith) refl
      (omega arith) (omega arith) (omega arith)
