-- ===== src/Resequencer/Branches.antt =====
-- The cases of `calc_bufpos_general` on a running receiver, by where the sequence number lies.
use vlbi_streamer.Base.{
  ℕ, ◌+◌, ◌-◌, ◌*◌, ◌≤◌, ◌<◌, ◌≡◌, ◌⊎◌, inl, inr, none, some, ltb, leb, ◌==◌, Bool-cases,
  Option-cases, arith,
}
use vlbi_streamer.Resequencer.{
  Opts, Slots, Buffer, Resq, store_next, drop_packet, store_before, store_late, store_beyond,
  store_ahead, store_behind, store_before_time, calc_bufpos_general,
}
use vlbi_streamer.Resequencer.Position.{IsPlaced}

module _ (o : Opts) (m : Slots) (r : Resq) (seqnum : ℕ) where
  -- What a packet comes to, and when.
  pub data Action (r' : Resq) : Type 0 where
    next : seqnum ≡ r.current_seq + 1 → r' ≡ store_next o r → Action r'
    repeated : seqnum ≡ r.current_seq → r' ≡ r → Action r'
    late :
        r.seqstart_current ≤ seqnum
        → seqnum < r.current_seq
        → r' ≡ store_late o r (seqnum - r.seqstart_current)
        → Action r'
    previous :
        (b : Buffer)
        → r.before ≡ some b
        → seqnum < r.seqstart_current
        → r.seqstart_current ≤ seqnum + o.buf_num_elems
        → r' ≡ store_before o r b (r.seqstart_current - seqnum)
        → Action r'
    too_late :
        seqnum < r.seqstart_current
        → (r.before ≡ none) ⊎ (seqnum + o.buf_num_elems < r.seqstart_current)
        → r' ≡ drop_packet r
        → Action r'
    ahead :
        r.current_seq + 1 < seqnum
        → seqnum < r.seqstart_current + o.buf_num_elems
        → r' ≡ store_ahead o r seqnum (seqnum - r.seqstart_current)
        → Action r'
    beyond :
        r.current_seq + 1 < seqnum
        → r.seqstart_current + o.buf_num_elems ≤ seqnum
        → seqnum < r.seqstart_current + o.buf_num_elems * 2
        → r' ≡ store_beyond o m r seqnum (seqnum - r.seqstart_current - o.buf_num_elems)
        → Action r'
    too_early :
        r.current_seq + 1 < seqnum
        → r.seqstart_current + o.buf_num_elems * 2 ≤ seqnum
        → r' ≡ drop_packet r
        → Action r'

  store_behind-Action :
      (r' : Resq) → IsPlaced o r → seqnum < r.current_seq → r' ≡ store_behind o r seqnum → Action r'
  unfolding store_behind
  store_behind-Action r' v lt e = elim (Bool-cases (ltb seqnum r.seqstart_current)) [
    | inr here ↦ late (ground arith) lt (ground (arith, e))
    | inl there ↦ elim (Option-cases r.before) [
      | inl none_kept ↦ too_late (ground arith) (inl none_kept) (ground (arith, e))
      | inr (b, kept) ↦ elim (Bool-cases (ltb o.buf_num_elems (r.seqstart_current - seqnum))) [
        | inl far ↦ too_late (ground arith) (inr (ground arith)) (ground (arith, e))
        | inr near ↦ previous b kept (ground arith) (ground arith) (ground (arith, e))
      ]
    ]
  ]

  store_before_time-Action :
      (r' : Resq)
      → IsPlaced o r
      → r.current_seq + 1 < seqnum
      → r' ≡ store_before_time o m r seqnum
      → Action r'
  unfolding store_before_time
  store_before_time-Action r' v lt e =
      let d = seqnum - r.seqstart_current in
      elim (Bool-cases (leb o.buf_num_elems d)) [
        | inr inside ↦ ahead lt (ground arith) (ground (arith, e))
        | inl past ↦ elim (Bool-cases (leb (o.buf_num_elems * 2) d)) [
          | inl far ↦ too_early lt (ground arith) (ground (arith, e))
          | inr near ↦ beyond lt (ground arith) (ground arith) (ground (arith, e))
        ]
      ]

  -- Every packet falls under one of the cases.
  pub calc_bufpos_general-Action : IsPlaced o r → Action (calc_bufpos_general o m r seqnum)
  unfolding calc_bufpos_general
  calc_bufpos_general-Action v = elim (Bool-cases (seqnum == r.current_seq + 1)) [
    | inl e ↦ next (ground arith) (ground arith)
    | inr ne ↦ elim (Bool-cases (seqnum == r.current_seq)) [
      | inl e ↦ repeated (ground arith) (ground arith)
      | inr ne' ↦ elim (Bool-cases (ltb seqnum r.current_seq)) [
        | inl lt ↦ store_behind-Action _ v (ground arith) (ground arith)
        | inr gt ↦ store_before_time-Action _ v (ground arith) (ground arith)
      ]
    ]
  ]
