-- ===== src/Resequencer/Landing.antt =====
-- Where a packet goes that comes in.
use vlbi_streamer.Base.{
  ℕ, ◌+◌, ◌-◌, ◌*◌, ◌≤◌, ◌<◌, ◌≡◌, ◌⊎◌, inl, inr, none, some, ltb, Bool-cases, arith,
}
use vlbi_streamer.Resequencer.{
  Opts, Slots, Buffer, Resq, arrived, store_next, bufsize, drop_packet, with_late, store_before,
  store_late, store_beyond, store_ahead, calc_bufpos_general,
}
use vlbi_streamer.Resequencer.Position.{IsPlaced, jump-Jumped}
use vlbi_streamer.Resequencer.Branches.{
  Action, next, repeated, late, previous, too_late, ahead, beyond, too_early,
  calc_bufpos_general-Action,
}
use vlbi_streamer.Resequencer.Contents.{slot_of, lookup, FreedBy}

-- Where a packet that came is afterwards: under its own sequence number, in the buffer before that
-- went to its writer with it, or dropped. It is dropped only where it repeats the newest packet, is
-- older than the buffers in hand, or is two buffers or more ahead of the current one's start.
abbrev pub Landed : Opts → Resq → Resq → ℕ → ℕ → Type 0
Landed o r r' seqnum x =
    (lookup o r' seqnum ≡ some x)
    ⊎ ((b : Buffer) × FreedBy r r' b × (b.slots (slot_of o r seqnum) ≡ x))
    ⊎ (seqnum ≡ r.current_seq) × (r' ≡ r)
    ⊎ (r'.missing ≡ r.missing + 1)
      × ((seqnum < r.seqstart_current)
            × ((r.before ≡ none) ⊎ (seqnum + o.buf_num_elems < r.seqstart_current))
          ⊎ (r.seqstart_current + o.buf_num_elems * 2 ≤ seqnum))

module _ (o : Opts) (m : Slots) (r : Resq) (seqnum : ℕ) (v : IsPlaced o r) where
  Action-Landed :
      (r' : Resq)
      → r.i < o.buf_num_elems
      → Action o m r seqnum r'
      → Landed o r r' seqnum (arrived r)
  unfolding store_next store_late store_before store_ahead store_beyond drop_packet
  Action-Landed r' room (next s e) = inl (ground (arith, s, e))
  Action-Landed r' room (repeated s e) = inr (inr (inl (s, e)))
  Action-Landed r' room (late le lt e) = inl (ground (arith, e))
  Action-Landed r' room (previous b kept lt near e) =
      elim (Bool-cases (ltb (bufsize o) (b.inc + o.packet_size + o.packet_size))) [
        | inl full ↦ inr (
            inl (
              with_late o r b (r.seqstart_current - seqnum),
              inl (ground (arith, e)),
              ground arith,
            ))
        | inr open_still ↦ inl (ground (arith, e))
      ]
  Action-Landed r' room (too_late lt why e) = inr (inr (inr (ground (arith, e), inl (lt, why))))
  Action-Landed r' room (ahead lt near e) = inl (ground (arith, e))
  Action-Landed r' room (beyond lt far near e) =
      let j = jump-Jumped o m r in inl (ground (arith, e))
  Action-Landed r' room (too_early lt far e) = inr (inr (inr (ground (arith, e), inr far)))

  -- Where a packet goes that a placed receiver with a free slot takes in: it is found under its own
  -- number, or in a buffer that went to its writer, or it repeats the newest packet and nothing
  -- changes, or it is counted as missing and is older than the buffers in hand or at least two
  -- buffers ahead of the current one's start.
  pub calc_bufpos_general-Landed :
      r.i < o.buf_num_elems → Landed o r (calc_bufpos_general o m r seqnum) seqnum (arrived r)
  calc_bufpos_general-Landed room = Action-Landed _ room (calc_bufpos_general-Action o m r seqnum v)
