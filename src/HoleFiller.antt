-- ===== src/HoleFiller.antt =====
-- src/datatypes.c and src/datatypes_common.c: the holes of a buffer get headers with the sequence
-- numbers that did not come. The packets are those of the UDPMON and MARK5BNET types.
-- A packet is the header that it starts with: the words at its bytes 0 to 3 and 4 to 7, as the
-- host loads them, and the other bytes up to 24. `be64toh` of the C library is a parameter. A
-- `long` is its 64-bit pattern.
mod Tests
pub mod Filling
use vlbi_streamer.Base.{
  ℕ, zero, suc, ◌+◌, ◌-◌, ◌*◌, ◌/◌, ◌%◌, ◌^◌, Option, none, some, Bool, true, false, not, ◌&&◌, ltb,
  ◌==◌, if◌then◌else◌,
}

pub data Datatype : Type 0 where
  udpmon : Datatype
  mark5bnet : Datatype

pub record Header : Type 0 where
  pub first : ℕ
  pub second : ℕ
  pub others : ℕ

abbrev pub word64 : Header → ℕ
word64 h = h.first + 2 ^ 32 * h.second

-- What is read of `struct opt_s`; `n_packets` is that of its file index, if it has one.
pub record Opts : Type 0 where
  pub datatype : Datatype
  pub buf_num_elems : ℕ
  pub first_packet : Option Header
  pub n_packets : Option ℕ

-- The word as an `int`, made a `long`.
pub getseq_mark5b_net : Header → ℕ
getseq_mark5b_net h = if ltb h.second (2 ^ 31) then h.second else h.second + (2 ^ 64 - 2 ^ 32)

-- SET_FRAMENUM_FOR_MARK5BNET
pub set_framenum_for_mark5bnet : Header → ℕ → Header
set_framenum_for_mark5bnet h framenum = record h { second = framenum % 2 ^ 32 }

pub fillpattern : Datatype → Header → Header → Header
fillpattern udpmon buffer model = record buffer { first = model.first; second = model.second }
fillpattern mark5bnet buffer model = model

pub real_number_of_elements : ℕ → Opts → ℕ
real_number_of_elements fileid o = elim o.n_packets [
  | none ↦ o.buf_num_elems
  | some n ↦
      let packets_left = n - o.buf_num_elems * fileid in
      if ltb o.buf_num_elems packets_left then o.buf_num_elems else packets_left
]

-- What `create_initial_header` has in its memory before it sets the number.
abbrev pub copied : Datatype → Header → Header → Header
copied udpmon memory first_packet = memory
copied mark5bnet memory first_packet = first_packet

module _ (be64toh : ℕ → ℕ) where
  pub getseq_udpmon : Header → ℕ
  getseq_udpmon h = be64toh (word64 h)

  -- SET_FRAMENUM_FOR_UDPMON
  pub set_framenum_for_udpmon : Header → ℕ → Header
  set_framenum_for_udpmon h framenum =
      let w = be64toh (framenum % 2 ^ 64) in record h { first = w % 2 ^ 32; second = w / 2 ^ 32 }

  pub getseq : Datatype → Header → ℕ
  unfolding getseq_udpmon getseq_mark5b_net
  getseq udpmon h = getseq_udpmon h
  getseq mark5bnet h = getseq_mark5b_net h

  pub set_framenum : Datatype → Header → ℕ → Header
  unfolding set_framenum_for_udpmon set_framenum_for_mark5bnet
  set_framenum udpmon h framenum = set_framenum_for_udpmon h framenum
  set_framenum mark5bnet h framenum = set_framenum_for_mark5bnet h framenum

  pub header_match : Datatype → Header → Header → ℕ
  unfolding getseq
  header_match datatype target match' =
      (getseq datatype target + (2 ^ 64 - getseq datatype match')) % 2 ^ 64

  pub increment_header : Datatype → Header → Header
  unfolding set_framenum getseq
  increment_header datatype model = set_framenum datatype model (getseq datatype model + 1)

  -- `memory` is what `malloc` gives to `init_header`, `none` when it fails.
  pub create_initial_header : Option Header → ℕ → Opts → Option Header
  unfolding set_framenum getseq
  create_initial_header memory fileid o = elim o.first_packet [
    | none ↦ none
    | some p ↦ elim memory [
      | none ↦ none
      | some header ↦ some (
          set_framenum o.datatype (copied o.datatype header p)
            (getseq o.datatype p + o.buf_num_elems * fileid))
    ]
  ]

  abbrev pub is_hole : Datatype → Header → Header → Bool
  unfolding header_match
  is_hole datatype h model = not (header_match datatype h model == 0)

  abbrev pub patched : Datatype → ℕ → Header → (ℕ → Header) → ℕ → Header
  unfolding fillpattern
  patched datatype i model buffer j =
      if is_hole datatype (buffer i) model && j == i
      then fillpattern datatype (buffer i) model
      else buffer j

  -- The loop of `check_and_fill` over `n` packets from number `i` on, with the count of its errors.
  pub fill : Datatype → ℕ → ℕ → Header → (ℕ → Header) → (ℕ → Header) × ℕ
  unfolding increment_header
  fill datatype zero i model buffer = (buffer, 0)
  fill datatype (suc n) i model buffer =
      let rest =
        fill datatype n (i + 1) (increment_header datatype model)
          (patched datatype i model buffer) in
      (rest.0, if is_hole datatype (buffer i) model then rest.1 + 1 else rest.1)

  -- The buffer afterwards and the number of holes; `none` is the result -1.
  pub check_and_fill : Option Header → ℕ → Opts → (ℕ → Header) → Option ((ℕ → Header) × ℕ)
  unfolding create_initial_header fill real_number_of_elements
  check_and_fill memory fileid o buffer = elim (create_initial_header memory fileid o) [
    | none ↦ none
    | some model ↦ some (fill o.datatype (real_number_of_elements fileid o) 0 model buffer)
  ]
