-- ===== src/Resequencer/Contents.antt =====
-- src/udp_stream.c: the packets in hand, by their sequence numbers.
use mathlib.Core.Path.{subst, sym}
use vlbi_streamer.Base.{
  ℕ, ◌+◌, ◌-◌, ◌≤◌, ◌<◌, ◌≡◌, ◌≢◌, ◌⊎◌, inl, inr, ◌∷◌, Option, none, some, true, false, ltb, leb,
  ◌==◌, if◌then◌else◌, Bool-cases, Option-cases, arith,
}
use vlbi_streamer.Resequencer.{
  Opts, Slots, Buffer, Resq, flush_before, retire, jump_to_next_buf, store_next, bufsize,
  bufsize_nooffset, drop_packet, with_late, store_before, store_late, store_beyond, store_ahead,
  calc_bufpos_general,
}
use vlbi_streamer.Resequencer.Position.{IsPlaced, jump-Jumped}
use vlbi_streamer.Resequencer.Branches.{
  Action, next, repeated, late, previous, too_late, ahead, beyond, too_early,
  calc_bufpos_general-Action,
}

-- The slot of a sequence number, in the current buffer or in the one before.
abbrev pub slot_of : Opts → Resq → ℕ → ℕ
slot_of o r s =
    if leb r.seqstart_current s
    then s - r.seqstart_current
    else s + o.buf_num_elems - r.seqstart_current

-- What the buffers in hand hold for a sequence number.
abbrev pub lookup : Opts → Resq → ℕ → Option ℕ
lookup o r s =
    if leb r.seqstart_current s
    then (if leb s r.current_seq then some (r.buffer.slots (slot_of o r s)) else none)
    else elim r.before [
      | none ↦ none
      | some b ↦
          if leb r.seqstart_current (s + o.buf_num_elems)
          then some (b.slots (slot_of o r s))
          else none
    ]

-- The buffers that a step gave to their writers: it gives two at most.
abbrev pub FreedBy : Resq → Resq → Buffer → Type 0
FreedBy r r' b =
    (r'.freed ≡ b ∷ r.freed)
    ⊎ ((c : Buffer) × ((r'.freed ≡ c ∷ b ∷ r.freed) ⊎ (r'.freed ≡ b ∷ c ∷ r.freed)))

-- A packet that was in hand is still there, or its buffer was given to its writer with it.
abbrev pub Kept : Opts → Resq → Resq → ℕ → ℕ → Type 0
Kept o r r' s x =
    (lookup o r' s ≡ some x) ⊎ ((b : Buffer) × FreedBy r r' b × (b.slots (slot_of o r s) ≡ x))

-- The buffer of a packet in hand.
flushed : Opts → Buffer → Buffer
flushed o b = record b { inc = bufsize o }

jump-before :
    (o : Opts) (m : Slots) (r : Resq)
    → let r' = jump_to_next_buf o m r in
      ((r.buffer.inc == bufsize_nooffset o) ≡ true) × (r'.before ≡ none)
      ⊎ ((r.buffer.inc == bufsize_nooffset o) ≡ false) × (r'.before ≡ some r.buffer)
unfolding jump_to_next_buf flush_before retire
jump-before o m r = elim (Option-cases r.before) [
  | inl e ↦ ground (arith, e)
  | inr (b, e) ↦ ground (arith, e)
]

jump-freed_full :
    (o : Opts) (m : Slots) (r : Resq)
    → (r.buffer.inc == bufsize_nooffset o) ≡ true
    → FreedBy r (jump_to_next_buf o m r) r.buffer
unfolding jump_to_next_buf flush_before retire flushed
jump-freed_full o m r full = elim (Option-cases r.before) [
  | inl e ↦ inl (ground (arith, e))
  | inr (b, e) ↦ inr (flushed o b, inr (ground (arith, e)))
]

jump-freed_before :
    (o : Opts) (m : Slots) (r : Resq) (b : Buffer)
    → r.before ≡ some b
    → FreedBy r (jump_to_next_buf o m r) (flushed o b)
unfolding jump_to_next_buf flush_before retire flushed
jump-freed_before o m r b e = elim (Bool-cases (r.buffer.inc == bufsize_nooffset o)) [
  | inl full ↦ inr (r.buffer, inl (ground (arith, e)))
  | inr hole ↦ inl (ground (arith, e))
]

module _ (o : Opts) (r : Resq) (s x : ℕ) (v : IsPlaced o r) (held : lookup o r s ≡ some x) where
  jump-Kept : (m : Slots) → 0 < o.buf_num_elems → Kept o r (jump_to_next_buf o m r) s x
  unfolding flushed
  jump-Kept m pos =
      let j = jump-Jumped o m r in
      elim (Bool-cases (leb r.seqstart_current s)) [
        | inl here ↦ elim (jump-before o m r) [
          | inl (full, _) ↦ inr (r.buffer, jump-freed_full o m r full, ground arith)
          | inr (hole, e) ↦ inl (ground (arith, e))
        ]
        | inr there ↦ elim (Option-cases r.before) [
          | inl e ↦ absurd (ground (arith, e))
          | inr (b, e) ↦ inr (flushed o b, jump-freed_before o m r b e, ground (arith, e))
        ]
      ]

  store_next-Kept : Kept o r (store_next o r) s x
  unfolding store_next
  store_next-Kept = inl (ground arith)

  store_late-Kept :
      (seqnum : ℕ)
      → s ≢ seqnum
      → r.seqstart_current ≤ seqnum
      → Kept o r (store_late o r (seqnum - r.seqstart_current)) s x
  unfolding store_late
  store_late-Kept seqnum ne le = inl (ground arith)

  store_ahead-Kept :
      (seqnum : ℕ)
      → s ≢ seqnum
      → r.current_seq < seqnum
      → r.seqstart_current ≤ seqnum
      → Kept o r (store_ahead o r seqnum (seqnum - r.seqstart_current)) s x
  unfolding store_ahead
  store_ahead-Kept seqnum ne lt le = inl (ground arith)

  store_before-Kept :
      (b : Buffer) (seqnum : ℕ)
      → r.before ≡ some b
      → s ≢ seqnum
      → seqnum < r.seqstart_current
      → r.seqstart_current - seqnum ≤ o.buf_num_elems
      → Kept o r (store_before o r b (r.seqstart_current - seqnum)) s x
  unfolding store_before
  store_before-Kept b seqnum e ne lt near =
      let b' = with_late o r b (r.seqstart_current - seqnum) in
      elim (Bool-cases (ltb (bufsize o) (b'.inc + o.packet_size))) [
        | inr open_still ↦ inl (ground (arith, e))
        | inl full ↦ elim (Bool-cases (leb r.seqstart_current s)) [
          | inl here ↦ inl (ground arith)
          | inr there ↦ inr (b', inl (ground arith), ground (arith, e))
        ]
      ]

  store_beyond-Kept :
      (m : Slots) (seqnum d : ℕ) → 0 < o.buf_num_elems → Kept o r (store_beyond o m r seqnum d) s x
  unfolding store_beyond
  store_beyond-Kept m seqnum d pos =
      let j = jump-Jumped o m r in
      elim (jump-Kept m pos) [ inl e ↦ inl (ground (arith, e)) | inr (b, f, e) ↦ inr (b, f, e) ]

  along : (r' q : Resq) → r' ≡ q → Kept o r q s x → Kept o r r' s x
  along r' q e k = subst (λ t. Kept o r t s x) (sym e) k

  drop_packet-Kept : Kept o r (drop_packet r) s x
  unfolding drop_packet
  drop_packet-Kept = inl held

  Action-Kept :
      (m : Slots) (seqnum : ℕ) (r' : Resq)
      → s ≢ seqnum
      → 0 < o.buf_num_elems
      → Action o m r seqnum r'
      → Kept o r r' s x
  Action-Kept m seqnum r' ne pos (next _ e) = along _ _ e store_next-Kept
  Action-Kept m seqnum r' ne pos (repeated _ e) = along _ _ e (inl held)
  Action-Kept m seqnum r' ne pos (late le _ e) = along _ _ e (store_late-Kept seqnum ne le)
  Action-Kept m seqnum r' ne pos (previous b kept lt near e) =
      along _ _ e (store_before-Kept b seqnum kept ne lt (omega arith))
  Action-Kept m seqnum r' ne pos (too_late _ _ e) = along _ _ e drop_packet-Kept
  Action-Kept m seqnum r' ne pos (ahead lt _ e) =
      along _ _ e (store_ahead-Kept seqnum ne (omega arith) (omega (arith, v.passed)))
  Action-Kept m seqnum r' ne pos (beyond _ _ _ e) = along _ _ e (store_beyond-Kept m seqnum _ pos)
  Action-Kept m seqnum r' ne pos (too_early _ _ e) = along _ _ e drop_packet-Kept

  -- No packet disturbs another. In a placed receiver that holds the packet x under the number s,
  -- calc_bufpos_general with a packet of another number leaves x under s, or gives the buffer that
  -- holds x to its writer; the buffers have at least one slot.
  pub calc_bufpos_general-Kept :
      (m : Slots) (seqnum : ℕ)
      → s ≢ seqnum
      → 0 < o.buf_num_elems
      → Kept o r (calc_bufpos_general o m r seqnum) s x
  calc_bufpos_general-Kept m seqnum ne pos =
      Action-Kept m seqnum _ ne pos (calc_bufpos_general-Action o m r seqnum v)
