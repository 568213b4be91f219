-- ===== src/FileIndex/Doubling.antt =====
-- `add_file_mutexfree`: the doubling of the array.
use native.Mathlib.Nat.{pow-suc, pow-zero, mul_assoc, mul_comm}
use vlbi_streamer.Base.{
  ℕ, zero, suc, ◌*◌, ◌%◌, ◌^◌, ◌≤◌, ◌<◌, ◌≡◌, ◌∙◌, refl, ap, ◌⊎◌, inl, inr, some, ltb, ltb→lt,
  Bool-cases, arith,
}
use vlbi_streamer.FileIndex.{grow, grow_fuel}

-- What the doubling loop ends with: the first of `alloc`, `alloc * 2`, … that holds `id`.
pub record Grown (alloc id n : ℕ) : Type 0 where
  pub doublings : ℕ
  pub size : n ≡ alloc * 2 ^ doublings
  pub holds : id ≤ n
  pub first : (n ≡ alloc) ⊎ (n < 2 * id)

double-pow : (a k : ℕ) → a * 2 * 2 ^ k ≡ a * 2 ^ suc k
double-pow a k = omega (
  arith,
  mul_assoc a 2 (2 ^ k),
  ap (λ (t : ℕ). a * t) (pow-suc 2 k),
  ap (λ (t : ℕ). a * t) (mul_comm (2 ^ k) 2),
)

Grown-next : {alloc id n : ℕ} → alloc < id → Grown (alloc * 2) id n → Grown alloc id n
Grown-next {alloc} h g = record {
  doublings = suc g.doublings;
  size = g.size ∙ double-pow alloc g.doublings;
  holds = g.holds;
  first = inr (omega (arith, g.first));
}

-- The loop ends within its fuel.
grow_total :
    (f alloc id : ℕ)
    → 0 < alloc
    → id ≤ 2 ^ 63
    → id ≤ alloc * 2 ^ f
    → (n : ℕ) × (grow (suc f) alloc id ≡ some n) × Grown alloc id n
unfolding grow
grow_total zero alloc id p h e =
    let e' : id ≤ alloc = omega (arith, pow-zero 2) in
    (
      alloc,
      ground arith,
      record { doublings = 0; size = omega arith; holds = e'; first = inl refl },
    )
grow_total (suc f) alloc id p h e = elim (Bool-cases (ltb alloc id)) [
  | inl small ↦
      let lt : alloc < id = ltb→lt alloc id small in
      let wrap : (alloc * 2) % 2 ^ 64 ≡ alloc * 2 = omega arith in
      let bound : id ≤ alloc * 2 * 2 ^ f = omega (arith, double-pow alloc f) in
      let (n, r, g) = grow_total f (alloc * 2) id (omega arith) h bound in
      (n, ground (arith, wrap, r), Grown-next lt g)
  | inr big ↦ (
    alloc,
    ground arith,
    record { doublings = 0; size = omega arith; holds = ground arith; first = inl refl },
  )
]

pub grow_enough :
    (alloc id : ℕ)
    → 0 < alloc
    → id ≤ 2 ^ 63
    → (n : ℕ) × (grow grow_fuel alloc id ≡ some n) × Grown alloc id n
grow_enough alloc id p h = grow_total 64 alloc id p h (omega arith)
