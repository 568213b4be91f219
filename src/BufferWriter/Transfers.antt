-- ===== src/BufferWriter/Transfers.antt =====
-- `def_write`: the system calls that one write makes.
use mathlib.Core.Path.{subst}
use vlbi_streamer.Base.{
  ℕ, zero, suc, ◌+◌, ◌-◌, ◌%◌, ◌^◌, ltb, true, long_of_pattern, ◌≤◌, ◌<◌, ◌≡◌, ◌≢◌, refl, ap, ◌∙◌,
  ◌⊎◌, inl, inr, List, [], ◌∷◌, ◌++◌, Bool-cases, ok, ℤ, pos, negsuc, All, arith,
}
use vlbi_streamer.BufferWriter.{
  System, CommonIoInfo, eof, less, called, exchanged, transfer, def_write,
}

-- A system call moves no more bytes than it was asked for.
unfoldable pub IsDocumented : System → Type 0
IsDocumented sys =
    (history : List (ℕ × ℕ)) (start count ret : ℕ) → sys history start count ≡ pos ret → ret ≤ count

-- What a write did: the calls that it made all have the address `start`, and its result is the
-- whole count, or that of the call that failed or moved nothing.
pub record Wrote (start all left : ℕ) (ioi : CommonIoInfo) (ret : ℤ) (ioi' : CommonIoInfo)
    : Type 0 where
  pub made : List (ℕ × ℕ)
  pub recorded : ioi'.calls ≡ made ++ ioi.calls
  pub from_start : All (λ c. c.0 ≡ start) made
  pub complete :
      (ret ≡ pos all) × (ioi'.bytes_exchanged ≡ (ioi.bytes_exchanged + left) % 2 ^ 64)
      ⊎ (ret ≡ pos 0)
      ⊎ ((e : ℕ) × (ret ≡ negsuc e))

pub result-cases :
    (z : ℤ) → ((k : ℕ) × (z ≡ pos (suc k))) ⊎ (z ≡ pos 0) ⊎ ((e : ℕ) × (z ≡ negsuc e))
result-cases (pos zero) = inr (inl refl)
result-cases (pos (suc k)) = inl (k, refl)
result-cases (negsuc e) = inr (inr (e, refl))

All-append :
    (P : ℕ × ℕ → Type 0) (made : List (ℕ × ℕ)) (c : ℕ × ℕ)
    → All P made
    → P c
    → All P (made ++ (c ∷ []))
All-append P [] c h p = (p, tt)
All-append P (m ∷ made) c h p = (h.0, All-append P made c h.1 p)

append_one :
    (made : List (ℕ × ℕ)) (c : ℕ × ℕ) (before : List (ℕ × ℕ))
    → made ++ (c ∷ before) ≡ (made ++ (c ∷ [])) ++ before
append_one [] c before = refl
append_one (m ∷ made) c before = ap (λ l. m ∷ l) (append_one made c before)

one_call :
    (start count : ℕ) (ioi ioi' : CommonIoInfo) (all left : ℕ) (ret : ℤ)
    → ioi'.calls ≡ (start, count) ∷ ioi.calls
    → (ret ≡ pos 0) ⊎ ((e : ℕ) × (ret ≡ negsuc e))
    → Wrote start all left ioi ret ioi'
one_call start count ioi ioi' all left ret e h = record {
  made = (start, count) ∷ [];
  recorded = e;
  from_start = (refl, tt);
  complete = inr h;
}

left_over :
    (ret : ℤ) (all b b' count k : ℕ)
    → k ≤ count
    → (ret ≡ pos all) × (b' ≡ ((b + k) % 2 ^ 64 + (count - k)) % 2 ^ 64)
      ⊎ (ret ≡ pos 0)
      ⊎ ((e : ℕ) × (ret ≡ negsuc e))
    → (ret ≡ pos all) × (b' ≡ (b + count) % 2 ^ 64) ⊎ (ret ≡ pos 0) ⊎ ((e : ℕ) × (ret ≡ negsuc e))
left_over ret all b b' count k le (inl (r, moved)) = inl (r, omega arith)
left_over ret all b b' count k le (inr h) = inr h

more_calls :
    (start count k all left : ℕ) (ioi ioi' : CommonIoInfo) (ret : ℤ)
    → k ≤ count
    → Wrote start all (count - k) (exchanged (called ioi start count) k) ret ioi'
    → Wrote start all count ioi ret ioi'
more_calls start count k all left ioi ioi' ret le w = record {
  made = w.made ++ ((start, count) ∷ []);
  recorded = w.recorded ∙ append_one w.made (start, count) ioi.calls;
  from_start = All-append (λ c. c.0 ≡ start) w.made (start, count) w.from_start refl;
  complete = left_over ret all ioi.bytes_exchanged ioi'.bytes_exchanged count k le w.complete;
}

transfer_more :
    (sys : System) (fuel start total_w n k : ℕ) (ioi : CommonIoInfo)
    → sys ioi.calls start (suc n) ≡ pos (suc k)
    → k ≤ n
    → total_w + suc n < 2 ^ 63
    → transfer sys (suc fuel) start total_w (suc n) ioi
      ≡ transfer sys fuel start
          (total_w + suc k)
          (n - k)
          (exchanged (called ioi start (suc n)) (suc k))
unfolding transfer
transfer_more sys fuel start total_w n k ioi e le small =
    let left : less (suc n) (suc k) ≡ n - k = omega arith in
    let total : (total_w + suc k) % 2 ^ 64 ≡ total_w + suc k = omega arith in
    rw (transfer, e, left, total)

nothing_moved :
    (sys : System) (fuel start total_w n : ℕ) (ioi : CommonIoInfo)
    → sys ioi.calls start (suc n) ≡ pos 0
    → (ret : ℤ) × (ioi' : CommonIoInfo) × (transfer sys (suc fuel) start total_w (suc n) ioi
        ≡ ok (ret, ioi'))
      × Wrote start (total_w + suc n) (suc n) ioi ret ioi'
unfolding transfer
nothing_moved sys fuel start total_w n ioi e = elim (Bool-cases ioi.readmode) [
  | inl r ↦
      let ioi' = exchanged (called ioi start (suc n)) (suc n) in
      (
        eof,
        ioi',
        rw (transfer, e, r),
        one_call start (suc n) ioi ioi' (total_w + suc n) (suc n) eof refl (inr (0, refl)),
      )
  | inr w ↦
      let ioi' = called ioi start (suc n) in
      (
        pos 0,
        ioi',
        rw (transfer, e, w),
        one_call start (suc n) ioi ioi' (total_w + suc n) (suc n) (pos 0) refl (inl refl),
      )
]

total_pattern : (total_w : ℕ) → total_w < 2 ^ 63 → long_of_pattern total_w ≡ pos total_w
total_pattern total_w small =
    let positive : ltb total_w (2 ^ 63) ≡ true = ground arith in rw positive refl

transfer-Wrote :
    (sys : System) (fuel start total_w downcount : ℕ) (ioi : CommonIoInfo)
    → IsDocumented sys
    → downcount ≤ fuel
    → total_w + downcount < 2 ^ 63
    → ioi.bytes_exchanged < 2 ^ 64
    → (ret : ℤ) × (ioi' : CommonIoInfo) × (transfer sys fuel start total_w downcount ioi
        ≡ ok (ret, ioi'))
      × Wrote start (total_w + downcount) downcount ioi ret ioi'
unfolding transfer IsDocumented
transfer-Wrote sys fuel start total_w zero ioi doc enough small fits = (
  pos total_w,
  ioi,
  ap (λ t. ok (t, ioi)) (total_pattern total_w (omega arith)),
  record {
    made = [];
    recorded = refl;
    from_start = tt;
    complete = inl (ap pos (omega arith), omega arith);
  },
)
transfer-Wrote sys zero start total_w (suc n) ioi doc enough small fits = absurd (omega arith)
transfer-Wrote sys (suc fuel) start total_w (suc n) ioi doc enough small fits =
    elim (result-cases (sys ioi.calls start (suc n))) [
      | inl (k, e) ↦
          let le : k ≤ n = omega (arith, doc ioi.calls start (suc n) (suc k) e) in
          let ioi1 = exchanged (called ioi start (suc n)) (suc k) in
          let (ret, ioi', e', w) =
            transfer-Wrote sys fuel start (total_w + suc k) (n - k) ioi1 doc (omega arith)
              (omega arith) (omega arith) in
          let all : total_w + suc k + (n - k) ≡ total_w + suc n = omega arith in
          let rest : n - k ≡ suc n - suc k = omega arith in
          let w1 = subst (λ a. Wrote start a (n - k) ioi1 ret ioi') all w in
          let w2 = subst (λ a. Wrote start (total_w + suc n) a ioi1 ret ioi') rest w1 in
          (
            ret,
            ioi',
            transfer_more sys fuel start total_w n k ioi e le (omega arith) ∙ e',
            more_calls start (suc n) (suc k) (total_w + suc n) (suc n) ioi ioi' ret (omega arith)
                w2,
          )
      | inr (inl e) ↦ nothing_moved sys fuel start total_w n ioi e
      | inr (inr (c, e)) ↦ (
        negsuc c,
        called ioi start (suc n),
        rw (transfer, e),
        one_call start (suc n) ioi (called ioi start (suc n)) (total_w + suc n) (suc n) (negsuc c)
            refl (inr (c, refl)),
      )
    ]

-- One write of a buffer to an open file, by system calls that move no more than they are asked to,
-- ends. Its result is the whole count with as many bytes exchanged, or 0, or a negative result.
-- Every system call of it has the same address, the one after a short transfer too. The count is
-- below 2^63, and the counter of the file has 64 bits, to which the bytes are added modulo 2^64.
pub def_write-Wrote :
    (sys : System) (ioi : CommonIoInfo) (start count : ℕ)
    → IsDocumented sys
    → ioi.fd ≢ 0
    → count < 2 ^ 63
    → ioi.bytes_exchanged < 2 ^ 64
    → (ret : ℤ) × (ioi' : CommonIoInfo) × (def_write sys ioi start count ≡ ok (ret, ioi'))
      × Wrote start count count ioi ret ioi'
unfolding def_write
def_write-Wrote sys ioi start count doc open_file small fits =
    let (ret, ioi', e, w) =
      transfer-Wrote sys count start 0 count ioi doc (omega arith) (omega arith) fits in
    (ret, ioi', ground (arith, e), subst (λ a. Wrote start a count ioi ret ioi') (omega arith) w)
