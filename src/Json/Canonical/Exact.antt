-- ===== src/Json/Canonical/Exact.antt =====
-- What `canonicalize` makes of every number of a value, at every depth.
use native.Mathlib.Nat.{le-div_iff_mul-le}
use agent_capability_gate.Prelude.{
  ℕ, zero, suc, ◌*◌, ◌/◌, ◌^◌, ◌≤◌, ◌<◌, ◌≡◌, refl, Bool, true, false, eqb, if◌then◌else◌, arith,
  pos, negsuc,
}
use agent_capability_gate.Json.{
  Value, null, bool, number, string, array, object, Items, nil, item, Fields, end, field,
}
use agent_capability_gate.Json.Numbers.{
  Number, int, float, finite, infinite, nan, round_to_f64, round_from,
}
use agent_capability_gate.Json.Numbers.Rounding.{round_from-pos}
use agent_capability_gate.Json.Limits.{
  canonicalize, canonical_number, canonicalize_fields, canonicalize_items,
}

-- A float that is zero becomes the integer 0, and any other number stays.
abbrev pub CanonicalNumber : Number → Number → Type 0
CanonicalNumber (float (finite neg zero shift)) m = m ≡ int (pos 0)
CanonicalNumber (float (finite neg (suc num) shift)) m = m ≡ float (finite neg (suc num) shift)
CanonicalNumber (float (infinite neg)) m = m ≡ float (infinite neg)
CanonicalNumber (float nan) m = m ≡ float nan
CanonicalNumber (int z) m = m ≡ int z

-- The second value is the first but for the form of its zeros.
abbrev mutual
  pub CanonicalOf : Value → Value → Type 0
  CanonicalOf null null = Unit
  CanonicalOf (bool a) (bool b) = a ≡ b
  CanonicalOf (number n) (number m) = CanonicalNumber n m
  CanonicalOf (string s) (string t) = s ≡ t
  CanonicalOf (array vs) (array ws) = ItemsCanonicalOf vs ws
  CanonicalOf (object fs) (object gs) = FieldsCanonicalOf fs gs
  CanonicalOf _ _ = ⊥

  pub ItemsCanonicalOf : Items → Items → Type 0
  ItemsCanonicalOf nil nil = Unit
  ItemsCanonicalOf (item v vs) (item w ws) = CanonicalOf v w × ItemsCanonicalOf vs ws
  ItemsCanonicalOf _ _ = ⊥

  pub FieldsCanonicalOf : Fields → Fields → Type 0
  FieldsCanonicalOf end end = Unit
  FieldsCanonicalOf (field j v fs) (field k w gs) =
      (j ≡ k) × CanonicalOf v w × FieldsCanonicalOf fs gs
  FieldsCanonicalOf _ _ = ⊥

rounds_nonzero : (n : ℕ) → eqb (round_from 75 0 (suc n)) 0 ≡ false
rounds_nonzero n =
    let p : 0 < 2 ^ 0 = omega arith in
    let fits : 1 * 2 ^ 0 ≤ suc n = omega arith in
    let least : 1 ≤ suc n / 2 ^ 0 = (le-div_iff_mul-le p).1 fits in
    let h = round_from-pos 75 0 (suc n) (omega arith) in ground arith

either_way : (b : Bool) → (if b then int (pos 0) else int (pos 0)) ≡ int (pos 0)
either_way true = refl
either_way false = refl

canonical_number-CanonicalNumber : (n : Number) → CanonicalNumber n (canonical_number n)
unfolding canonical_number round_to_f64
canonical_number-CanonicalNumber (int (pos zero)) = either_way (eqb (round_from 75 0 zero) 0)
canonical_number-CanonicalNumber (int (pos (suc n))) = rw (rounds_nonzero n) refl
canonical_number-CanonicalNumber (int (negsuc n)) = rw (rounds_nonzero n) refl
canonical_number-CanonicalNumber (float (finite neg zero shift)) = refl
canonical_number-CanonicalNumber (float (finite neg (suc num) shift)) =
    let h : eqb (suc num) 0 ≡ false = ground arith in rw h refl
canonical_number-CanonicalNumber (float (infinite neg)) = refl
canonical_number-CanonicalNumber (float nan) = refl

mutual
  unfolding canonicalize

  value-CanonicalOf : (v : Value) → CanonicalOf v (canonicalize v)
  value-CanonicalOf null = tt
  value-CanonicalOf (bool b) = refl
  value-CanonicalOf (number n) = canonical_number-CanonicalNumber n
  value-CanonicalOf (string s) = refl
  value-CanonicalOf (array vs) = items-CanonicalOf vs
  value-CanonicalOf (object fs) = fields-CanonicalOf fs

  items-CanonicalOf : (vs : Items) → ItemsCanonicalOf vs (canonicalize_items vs)
  items-CanonicalOf nil = tt
  items-CanonicalOf (item v vs) = (value-CanonicalOf v, items-CanonicalOf vs)

  fields-CanonicalOf : (fs : Fields) → FieldsCanonicalOf fs (canonicalize_fields fs)
  fields-CanonicalOf end = tt
  fields-CanonicalOf (field k v fs) = (refl, value-CanonicalOf v, fields-CanonicalOf fs)

-- For every value: `canonicalize` turns each float that is zero, at every depth, into the integer 0, and
-- keeps everything else: the shape, the keys and their order, texts, Booleans and all other numbers, also
-- integers of any size.
pub canonicalize-CanonicalOf : (v : Value) → CanonicalOf v (canonicalize v)
canonicalize-CanonicalOf = value-CanonicalOf
