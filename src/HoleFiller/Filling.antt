-- ===== src/HoleFiller/Filling.antt =====
-- src/datatypes.c: the sequence numbers of a buffer whose holes were filled.
use native.Mathlib.Decide.{ℕ_discrete}
use mathlib.Core.Path.{subst}
use vlbi_streamer.Base.{
  ℕ, zero, suc, ◌+◌, ◌-◌, ◌*◌, ◌/◌, ◌%◌, ◌^◌, ◌≤◌, ◌<◌, ◌≡◌, ◌≢◌, refl, sym, ap, ◌∙◌, ◌⊎◌, inl, inr,
  none, some, Bool, true, false, ◌&&◌, ltb, ◌==◌, if◌then◌else◌, Bool-cases, arith,
}
use vlbi_streamer.HoleFiller.{
  Datatype, udpmon, mark5bnet, Header, Opts, word64, getseq, getseq_udpmon, getseq_mark5b_net,
  set_framenum, set_framenum_for_udpmon, set_framenum_for_mark5bnet, header_match, increment_header,
  create_initial_header, fillpattern, is_hole, patched, copied, fill, real_number_of_elements,
  check_and_fill,
}

-- `be64toh` exchanges the bytes of a word, if it does anything: done twice it gives the word back.
unfoldable pub IsByteSwap : (ℕ → ℕ) → Type 0
IsByteSwap swap = (w : ℕ) → w < 2 ^ 64 → (swap w < 2 ^ 64) × (swap (swap w) ≡ w)

-- The words of a header have 32 bits.
unfoldable pub IsWords : Header → Type 0
IsWords h = (h.first < 2 ^ 32) × (h.second < 2 ^ 32)

-- The sequence number `n` as a header of the datatype can hold it.
pub numbered : Datatype → ℕ → ℕ
numbered udpmon n = n % 2 ^ 64
numbered mark5bnet n =
    if ltb (n % 2 ^ 32) (2 ^ 31) then n % 2 ^ 32 else n % 2 ^ 32 + (2 ^ 64 - 2 ^ 32)

and_false : (b : Bool) → (b && false) ≡ false
and_false true = refl
and_false false = refl

halves_lem : (w : ℕ) → w % 2 ^ 32 + 2 ^ 32 * (w / 2 ^ 32) ≡ w
halves_lem w = omega arith

module _ (swap : ℕ → ℕ) (involutive : IsByteSwap swap) where
  -- The sequence number that is read from a header is the one that was set, as the field of the
  -- datatype can hold it; be64toh undoes itself on 64-bit words.
  pub getseq-set_framenum :
      (t : Datatype) (h : Header) (n : ℕ) → getseq swap t (set_framenum swap t h n) ≡ numbered t n
  unfolding getseq set_framenum getseq_udpmon set_framenum_for_udpmon getseq_mark5b_net
      set_framenum_for_mark5bnet numbered IsByteSwap
  getseq-set_framenum udpmon h n =
      ap swap (halves_lem (swap (n % 2 ^ 64))) ∙ (involutive (n % 2 ^ 64) (omega arith)).1
  getseq-set_framenum mark5bnet h n = refl

  getseq-small : (t : Datatype) (h : Header) → IsWords h → getseq swap t h < 2 ^ 64
  unfolding getseq getseq_udpmon getseq_mark5b_net IsByteSwap IsWords
  getseq-small udpmon h v = (involutive (word64 h) (omega (arith, v))).0
  getseq-small mark5bnet h v = ground (arith, v)

  numbered-suc : (t : Datatype) (n : ℕ) → numbered t (numbered t n + 1) ≡ numbered t (n + 1)
  unfolding numbered
  numbered-suc udpmon n = omega arith
  numbered-suc mark5bnet n = ground arith

  numbered-small : (t : Datatype) (n : ℕ) → numbered t n < 2 ^ 64
  unfolding numbered
  numbered-small udpmon n = omega arith
  numbered-small mark5bnet n = ground arith

  increment_header_lem :
      (t : Datatype) (m : Header) (n : ℕ)
      → getseq swap t m ≡ numbered t n
      → getseq swap t (increment_header swap t m) ≡ numbered t (n + 1)
  unfolding increment_header
  increment_header_lem t m n e =
      getseq-set_framenum t m (getseq swap t m + 1)
      ∙ ap (λ s. numbered t (s + 1)) e
      ∙ numbered-suc t n

  -- A header matches just when it has the sequence number of the other.
  header_match-zero :
      (t : Datatype) (h m : Header) (n : ℕ)
      → IsWords h
      → getseq swap t m ≡ numbered t n
      → (header_match swap t h m == 0) ≡ true
      → getseq swap t h ≡ numbered t n
  unfolding header_match
  header_match-zero t h m n v e z = ground (arith, getseq-small t h v, numbered-small t n)

  fillpattern_lem :
      (t : Datatype) (h m : Header) → getseq swap t (fillpattern t h m) ≡ getseq swap t m
  unfolding getseq fillpattern getseq_udpmon getseq_mark5b_net
  fillpattern_lem udpmon h m = refl
  fillpattern_lem mark5bnet h m = refl

  create_initial_header_lem :
      (memory p : Header) (fileid : ℕ) (o : Opts)
      → o.first_packet ≡ some p
      → (m : Header) × (create_initial_header swap (some memory) fileid o ≡ some m)
        × (getseq swap o.datatype m
            ≡ numbered o.datatype (getseq swap o.datatype p + o.buf_num_elems * fileid))
  unfolding create_initial_header
  create_initial_header_lem memory p fileid o has =
      let start = getseq swap o.datatype p + o.buf_num_elems * fileid in
      let base = copied o.datatype memory p in
      (set_framenum swap o.datatype base start, rw has, getseq-set_framenum o.datatype base start)

  patched-at :
      (t : Datatype) (i s : ℕ) (m : Header) (buffer : ℕ → Header)
      → IsWords (buffer i)
      → getseq swap t m ≡ numbered t s
      → getseq swap t (patched swap t i m buffer i) ≡ numbered t s
  unfolding header_match fillpattern
  patched-at t i s m buffer v e =
      let here : (i == i) ≡ true = ground arith in
      elim (Bool-cases (header_match swap t (buffer i) m == 0)) [
        | inl z ↦ rw (z, header_match-zero t (buffer i) m s v e z)
        | inr nz ↦ rw (nz, here, fillpattern_lem t (buffer i) m, e)
      ]

  patched-other :
      (t : Datatype) (i k : ℕ) (m : Header) (buffer : ℕ → Header)
      → i ≢ k
      → patched swap t i m buffer k ≡ buffer k
  unfolding fillpattern header_match
  patched-other t i k m buffer ne =
      let other : (k == i) ≡ false = ground arith in
      rw (other, and_false (is_hole swap t (buffer i) m))

  -- The packets `i` to `i + n - 1`, where the first one should have the number `s`.
  fill_lem :
      (t : Datatype) (n i s : ℕ) (m : Header) (buffer : ℕ → Header)
      → ((k : ℕ) → i ≤ k → IsWords (buffer k))
      → getseq swap t m ≡ numbered t s
      → ((k : ℕ) → (k < i) ⊎ (i + n ≤ k) → (fill swap t n i m buffer).0 k ≡ buffer k)
        × ((k d : ℕ)
            → d < n
            → k ≡ i + d
            → getseq swap t ((fill swap t n i m buffer).0 k) ≡ numbered t (s + d))
  unfolding fill
  fill_lem t zero i s m buffer v e = ((λ k h. refl), λ k d h at. absurd (omega arith))
  fill_lem t (suc n) i s m buffer v e =
      let words : (k : ℕ) → i + 1 ≤ k → IsWords (patched swap t i m buffer k) = λ k le.
        subst IsWords (sym (patched-other t i k m buffer (omega arith))) (v k (omega arith)) in
      let (same, rest) =
        fill_lem t n (i + 1) (s + 1) (increment_header swap t m) (patched swap t i m buffer) words
          (increment_header_lem t m s e) in
      (
        (λ k h. same k (omega arith) ∙ patched-other t i k m buffer (omega arith)),
        λ k d h at. elim (ℕ_discrete d 0) [
          | yes z ↦
              let here : i ≡ k = omega arith in
              let first =
                patched-at t i s m buffer (v i (omega arith)) e ∙ ap (numbered t) (omega arith) in
              ap (getseq swap t) (same k (omega arith))
              ∙ subst (λ j. getseq swap t (patched swap t i m buffer j) ≡ numbered t (s + d)) here
                  first
          | no nz ↦ rest k (d - 1) (omega arith) (omega arith) ∙ ap (numbered t) (omega arith)
        ],
      )

  no_memory :
      (p : Header) (fileid : ℕ) (o : Opts)
      → o.first_packet ≡ some p
      → create_initial_header swap none fileid o ≡ none
  unfolding create_initial_header
  no_memory p fileid o has = rw has refl

  -- Once the first packet is there, check_and_fill fails just when malloc gives no memory for the
  -- header, and returns -1 then. Otherwise a packet at a place d below the number of received
  -- packets has the sequence number of the file's start and d more, whatever stood there; a place k
  -- from that number on is as it was. be64toh undoes itself on 64-bit words, and the words of the
  -- headers have 32 bits.
  pub check_and_fill-sequenced :
      (memory p : Header) (fileid d k : ℕ) (o : Opts) (buffer : ℕ → Header)
      → ((j : ℕ) → IsWords (buffer j))
      → o.first_packet ≡ some p
      → d < real_number_of_elements fileid o
      → real_number_of_elements fileid o ≤ k
      → let start = getseq swap o.datatype p + o.buf_num_elems * fileid in
        (buffer' : ℕ → Header) × (errors : ℕ) × (check_and_fill swap (some memory) fileid o buffer
          ≡ some (buffer', errors))
        × (getseq swap o.datatype (buffer' d) ≡ numbered o.datatype (start + d))
        × (buffer' k ≡ buffer k)
        × (check_and_fill swap none fileid o buffer ≡ none)
  unfolding check_and_fill
  check_and_fill-sequenced memory p fileid d k o buffer words has low high =
      let start = getseq swap o.datatype p + o.buf_num_elems * fileid in
      let (m, e, seq) = create_initial_header_lem memory p fileid o has in
      let n = real_number_of_elements fileid o in
      let (same, rest) = fill_lem o.datatype n 0 start m buffer (λ j le. words j) seq in
      let after = fill swap o.datatype n 0 m buffer in
      (
        after.0,
        after.1,
        rw (check_and_fill, e),
        rest d d low (omega arith),
        same k (inr (omega arith)),
        rw (check_and_fill, no_memory p fileid o has),
      )
