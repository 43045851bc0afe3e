-- ===== src/Json/Numbers.antt =====
-- Numbers: the `f64` of the language and what `serde_json::Number` documents of its accessors. A finite
-- `f64` is the dyadic rational that it stands for, so comparison, `trunc` and `fract` are exact. An
-- integer of a JSON text that fits neither `u64` nor `i64` reaches the program as a float.
pub mod Rounding
use agent_capability_gate.Prelude.{
  ℕ, zero, suc, ◌+◌, ◌*◌, ◌/◌, ◌%◌, ◌^◌, compare, Ordering, Bool, true, false, ◌&&◌, ◌||◌, Option,
  none, some, ltb, eqb, if◌then◌else◌, ℤ, pos, negsuc, magnitude, is_negative, compare_ℤ, is_eq,
}

-- `finite neg num shift` is num / 2 ^ shift, negated if `neg`; -0.0 is `finite true 0 0`.
pub data F64 : Type 0 where
  finite : (neg : Bool) (num shift : ℕ) → F64
  infinite : (neg : Bool) → F64
  nan : F64

abbrev pub is_finite : F64 → Bool
is_finite (finite neg num shift) = true
is_finite _ = false

-- `x == 0.0`
abbrev pub is_zero : F64 → Bool
is_zero (finite neg num shift) = eqb num 0
is_zero _ = false

-- `x.fract() == 0.0`
abbrev pub is_whole : F64 → Bool
is_whole (finite neg num shift) = eqb (num % 2 ^ shift) 0
is_whole _ = false

-- Two signed magnitudes, where zero has no sign.
abbrev pub signed_compare : Bool → ℕ → Bool → ℕ → Ordering
signed_compare false a false b = compare a b
signed_compare true a true b = compare b a
signed_compare false a true b = if eqb (a + b) 0 then Ordering.eq else Ordering.gt
signed_compare true a false b = if eqb (a + b) 0 then Ordering.eq else Ordering.lt

-- `f64::partial_cmp`
abbrev pub partial_cmp : F64 → F64 → Option Ordering
partial_cmp nan _ = none
partial_cmp _ nan = none
partial_cmp (finite s a k) (finite t b l) = some (signed_compare s (a * 2 ^ l) t (b * 2 ^ k))
partial_cmp (infinite true) (infinite true) = some Ordering.eq
partial_cmp (infinite false) (infinite false) = some Ordering.eq
partial_cmp (infinite true) _ = some Ordering.lt
partial_cmp (infinite false) _ = some Ordering.gt
partial_cmp _ (infinite true) = some Ordering.gt
partial_cmp _ (infinite false) = some Ordering.lt

pub data Number : Type 0 where
  int : ℤ → Number
  float : F64 → Number

abbrev pub u64_mod : ℕ
u64_mod = 2 ^ 64

abbrev pub as_u64 : Number → Option ℕ
as_u64 (int (pos n)) = if ltb n (2 ^ 64) then some n else none
as_u64 _ = none

abbrev pub as_i64 : Number → Option ℤ
as_i64 (int (pos n)) = if ltb n (2 ^ 63) then some (pos n) else none
as_i64 (int (negsuc n)) = if ltb n (2 ^ 63) then some (negsuc n) else none
as_i64 (float x) = none

abbrev pub as_i128 : Number → Option ℤ
as_i128 (int z) = some z
as_i128 (float x) = none

-- The integer nearest to n with at most 53 significant bits below a shift of `k`, ties to even.
abbrev pub nearest_at : ℕ → ℕ → ℕ
nearest_at k n =
    let q = n / 2 ^ k in
    let twice = 2 * (n % 2 ^ k) in
    if ltb (2 ^ k) twice || eqb twice (2 ^ k) && eqb (q % 2) 1 then (q + 1) * 2 ^ k else q * 2 ^ k

pub round_from : ℕ → ℕ → ℕ → ℕ
round_from zero k n = nearest_at k n
round_from (suc fuel) k n =
    let more = round_from fuel (suc k) n in
    if ltb (n / 2 ^ k) (2 ^ 53) then nearest_at k n else more

-- `z as f64`: 75 rounds serve magnitudes below 2 ^ 128.
unfoldable pub round_to_f64 : ℤ → F64
unfolding round_from
round_to_f64 z = finite (is_negative z) (round_from 75 0 (magnitude z)) 0

abbrev pub as_f64 : Number → Option F64
as_f64 (int z) = some (round_to_f64 z)
as_f64 (float x) = some x

-- The derived `==` of numbers.
abbrev pub number_eq : Number → Number → Bool
number_eq (int a) (int b) = is_eq (compare_ℤ a b)
number_eq (float x) (float y) = elim (partial_cmp x y) [ some Ordering.eq ↦ true | _ ↦ false ]
number_eq _ _ = false
