-- ===== src/Json/Numbers/Rounding.antt =====
-- The rounding of an integer to an `f64` gives zero only for zero.
use native.Mathlib.Nat.{pow-suc, le-div_iff_mul-le, mul-div-le}
use agent_capability_gate.Prelude.{
  ℕ, zero, suc, ◌+◌, ◌*◌, ◌/◌, ◌%◌, ◌^◌, ◌≤◌, ◌<◌, ◌≡◌, false, ◌&&◌, ◌||◌, eqb, ltb, arith,
  Bool-cases, inl, inr,
}
use agent_capability_gate.Json.Numbers.{nearest_at, round_from}

pow-pos : (k : ℕ) → 0 < 2 ^ k
pow-pos zero = omega arith
pow-pos (suc k) = rw (pow-suc 2 k) (omega (arith, pow-pos k))

mul-pos : (q p : ℕ) → 0 < q → 0 < p → 0 < q * p
mul-pos q p h k = grind arith

nearest_at-pos : (k n : ℕ) → 0 < n / 2 ^ k → 0 < nearest_at k n
nearest_at-pos k n h =
    let q = n / 2 ^ k in
    let down = mul-pos q (2 ^ k) h (pow-pos k) in
    let up = mul-pos (q + 1) (2 ^ k) (omega arith) (pow-pos k) in
    elim (Bool-cases
      (ltb (2 ^ k) (2 * (n % 2 ^ k)) || eqb (2 * (n % 2 ^ k)) (2 ^ k) && eqb (q % 2) 1)) [
        | inl more ↦ rw more up
        | inr less ↦ rw less down
      ]

twice : (p q n : ℕ) → 2 ≤ q → p * q ≤ n → 1 * (p * 2) ≤ n
twice p q n h k = grind arith

next_quotient : (k n : ℕ) → ltb (n / 2 ^ k) (2 ^ 53) ≡ false → 0 < n / 2 ^ suc k
next_quotient k n h =
    let large : 2 ≤ n / 2 ^ k = ground arith in
    let below = twice (2 ^ k) (n / 2 ^ k) n large (mul-div-le n (2 ^ k)) in
    let fits : 1 * 2 ^ suc k ≤ n = rw (pow-suc 2 k) below in
    let least : 1 ≤ n / 2 ^ suc k = (le-div_iff_mul-le (pow-pos (suc k))).1 fits in omega arith

pub round_from-pos : (fuel k n : ℕ) → 0 < n / 2 ^ k → 0 < round_from fuel k n
unfolding round_from
round_from-pos zero k n h = nearest_at-pos k n h
round_from-pos (suc fuel) k n h = elim (Bool-cases (ltb (n / 2 ^ k) (2 ^ 53))) [
  | inl small ↦ rw small (nearest_at-pos k n h)
  | inr large ↦ rw large (round_from-pos fuel (suc k) n (next_quotient k n large))
]
