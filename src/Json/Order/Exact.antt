-- ===== src/Json/Order/Exact.antt =====
-- How `compare_integer_float` relates to the exact order of an integer and a dyadic rational.
use native.Mathlib.Nat.{pow-suc, mul_comm, div-add-mod, mod-lt}
use agent_capability_gate.Prelude.{
  ℕ, zero, suc, ◌+◌, ◌*◌, ◌/◌, ◌%◌, ◌^◌, ◌≤◌, ◌<◌, compare, Ordering, ◌≡◌, ◌≢◌, Bool, true, false,
  leb, eqb, if◌then◌else◌, ℤ, pos, negsuc, magnitude, is_negative, reverse_order, arith, Bool-cases,
  leb→le, ap, ◌∙◌, inl, inr,
}
use agent_capability_gate.Json.Numbers.{finite, signed_compare}
use agent_capability_gate.Json.Order.{then_with, magnitude_order, compare_integer_float}

-- The exact order of the integer z and the rational num / 2 ^ shift with its sign.
abbrev pub exact_order : ℤ → Bool → ℕ → ℕ → Ordering
exact_order z neg num shift = signed_compare (is_negative z) (magnitude z * 2 ^ shift) neg num

pow-pos : (k : ℕ) → 0 < 2 ^ k
pow-pos zero = omega arith
pow-pos (suc k) = rw (pow-suc 2 k) (omega (arith, pow-pos k))

scaled_lt : (m q p r : ℕ) → m < q → r < p → m * p < q * p + r
scaled_lt m q p r h k = grind arith

scaled_gt : (m q p r : ℕ) → q < m → r < p → q * p + r < m * p
scaled_gt m q p r h k = grind arith

-- A comparison of the quotients, and then of the rests, is the comparison of the multiples.
quotient_exact :
    (m q p r : ℕ)
    → r < p
    → then_with (compare m q) (if eqb r 0 then Ordering.eq else Ordering.lt)
      ≡ compare (m * p) (q * p + r)
quotient_exact m q p r h =
    ground (arith, scaled_lt m q p r, scaled_gt m q p r, ap (λ (t : ℕ). t * p) {x = m} {y = q})

then_with_exact :
    (m num p : ℕ)
    → 0 < p
    → then_with (compare m (num / p)) (if eqb (num % p) 0 then Ordering.eq else Ordering.lt)
      ≡ compare (m * p) num
then_with_exact m num p h =
    let whole : num / p * p + num % p ≡ num = rw (mul_comm (num / p) p) (div-add-mod num p) in
    quotient_exact m (num / p) p (num % p) (mod-lt num h) ∙ ap (compare (m * p)) whole

too_large : (m l p num : ℕ) → m < l → 0 < p → l * p ≤ num → m * p < num
too_large m l p num a b c = grind arith

-- Magnitudes below 2 ^ 127 are compared exactly.
magnitude_order_exact :
    (m num shift : ℕ) → m < 2 ^ 127 → magnitude_order m num shift ≡ compare (m * 2 ^ shift) num
unfolding magnitude_order
magnitude_order_exact m num shift h = elim (Bool-cases (leb (2 ^ 127 * 2 ^ shift) num)) [
  | inl large ↦
      let below = too_large m (2 ^ 127) (2 ^ shift) num h (pow-pos shift) (leb→le _ _ large) in
      rw large (ground arith)
  | inr small ↦ rw small (then_with_exact m num (2 ^ shift) (pow-pos shift))
]

zero-scaled : (k : ℕ) → 0 * 2 ^ k ≡ 0
zero-scaled k = omega arith

nonzero-scaled : (m k : ℕ) → m ≢ 0 → 0 < m * 2 ^ k
nonzero-scaled m k h = let p = pow-pos k in grind arith

-- For an integer z with |z| < 2 ^ 127 and a finite float num / 2 ^ shift (negated if `neg`):
-- if z is not 0, `compare_integer_float` is the exact order of z and the float; if z is 0, it is the
-- reverse of the exact order.
pub compare_integer_float_exact :
    (z : ℤ) (neg : Bool) (num shift : ℕ)
    → magnitude z < 2 ^ 127
    → compare_integer_float z (finite neg num shift) ≡ (
        if eqb (magnitude z) 0
        then reverse_order (exact_order z neg num shift)
        else exact_order z neg num shift)
unfolding compare_integer_float
compare_integer_float_exact (pos zero) true num shift h = ground (arith, zero-scaled shift)
compare_integer_float_exact (pos zero) false num shift h = ground (arith, zero-scaled shift)
compare_integer_float_exact (pos (suc m)) true num shift h =
    ground (arith, magnitude_order_exact (suc m) num shift h, nonzero-scaled (suc m) shift)
compare_integer_float_exact (pos (suc m)) false num shift h =
    ground (arith, magnitude_order_exact (suc m) num shift h)
compare_integer_float_exact (negsuc m) true num shift h =
    ground (arith, magnitude_order_exact (suc m) num shift h, nonzero-scaled (suc m) shift)
compare_integer_float_exact (negsuc m) false num shift h =
    ground (arith, nonzero-scaled (suc m) shift)
