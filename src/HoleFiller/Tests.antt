-- ===== src/HoleFiller/Tests.antt =====
-- A buffer of stale packets, and what the theorems on filling say of it.
use vlbi_streamer.Base.{ℕ, ◌+◌, ◌*◌, ◌≡◌, refl, none, some, arith}
use vlbi_streamer.HoleFiller.{
  Header, Opts, check_and_fill, getseq, mark5bnet, real_number_of_elements, set_framenum,
}
use vlbi_streamer.HoleFiller.Filling.{
  IsByteSwap, IsWords, check_and_fill-sequenced, getseq-set_framenum, numbered,
}

abbrev stale : Header
stale = record { first = 1; second = 40; others = 0 }

abbrev received : ℕ → Header
received = λ j. stale

abbrev fill_opts : Opts
fill_opts = record {
  datatype = mark5bnet;
  buf_num_elems = 4;
  first_packet = some stale;
  n_packets = some 11;
}

check_and_fill-sequenced_example :
    let start = getseq (λ w. w) fill_opts.datatype stale + fill_opts.buf_num_elems * 2 in
    (buffer' : ℕ → Header) × (errors : ℕ) × (check_and_fill
        (λ w. w)
        (some stale)
        2
        fill_opts
        received
      ≡ some (buffer', errors))
    × (getseq (λ w. w) fill_opts.datatype (buffer' 1) ≡ numbered fill_opts.datatype (start + 1))
    × (buffer' 3 ≡ received 3)
    × (check_and_fill (λ w. w) none 2 fill_opts received ≡ none)
unfolding IsByteSwap IsWords real_number_of_elements
check_and_fill-sequenced_example =
    check_and_fill-sequenced (λ w. w) (λ w h. (h, refl)) stale stale 2 1 3 fill_opts received
      (λ j. (omega arith, omega arith)) refl (omega arith) (omega arith)

getseq-set_framenum_example :
    getseq (λ w. w) mark5bnet (set_framenum (λ w. w) mark5bnet stale 5) ≡ numbered mark5bnet 5
unfolding IsByteSwap
getseq-set_framenum_example = getseq-set_framenum (λ w. w) (λ w h. (h, refl)) mark5bnet stale 5
