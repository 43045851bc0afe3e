-- ===== src/Schema/Validate/Respected/Entries.antt =====
-- What the entries of a schema ask of a value: its kind, its `enum`, and the bounds on a number.
use agent_capability_gate.Prelude.{
  ℕ, ◌+◌, ◌*◌, ◌^◌, ◌≤◌, String, ◌≡◌, ◌≢◌, refl, ap, eq_iff, Bool, true, false, Option, none, some,
  List, [], ◌∷◌, any, Ordering, ℤ, pos, negsuc, inl, inr, ◌⊎◌, Bool-cases, arith,
}
use agent_capability_gate.Json.{Value, null, bool, number, string, array, object, value_eq}
use agent_capability_gate.Json.Numbers.{Number, signed_compare, int, float, finite, infinite, nan}
use agent_capability_gate.Json.Order.{numeric_compare, numeric_value}
use agent_capability_gate.Json.Equal.{schema_values_equal}
use agent_capability_gate.Schema.{
  SchemaKind, an_object, an_array, a_string, an_integer, a_number, a_boolean, a_null,
}
use agent_capability_gate.Schema.Keywords.{schema_value_compatible}
use agent_capability_gate.Schema.Validate.{has_kind, in_enum}
use agent_capability_gate.Schema.Validate.Conforms.{Bounded}

-- The value is of the kind; no float is an integer, and no infinite float or NaN a number.
abbrev pub IsOfKind : SchemaKind → Value → Type 0
IsOfKind an_object (object fs) = Unit
IsOfKind an_array (array vs) = Unit
IsOfKind a_string (string s) = Unit
IsOfKind an_integer (number (int z)) = Unit
IsOfKind a_number (number (int z)) = Unit
IsOfKind a_number (number (float (finite neg num shift))) = Unit
IsOfKind a_boolean (bool b) = Unit
IsOfKind a_null null = Unit
IsOfKind _ _ = ⊥

abbrev pub Listed : List Value → Value → Type 0
Listed [] v = ⊥
Listed (w ∷ ws) v = (w ≡ v) ⊎ Listed ws v

-- A text, a Boolean or null is one of the values of `enum`, if there is any.
abbrev pub EnumHas : List Value → Value → Type 0
EnumHas [] v = Unit
EnumHas (w ∷ ws) (string s) = Listed (w ∷ ws) (string s)
EnumHas (w ∷ ws) (bool b) = Listed (w ∷ ws) (bool b)
EnumHas (w ∷ ws) null = Listed (w ∷ ws) null
EnumHas (w ∷ ws) _ = Unit

abbrev AtMostInt : ℤ → ℤ → Type 0
AtMostInt (pos a) (pos b) = a ≤ b
AtMostInt (pos a) (negsuc b) = ⊥
AtMostInt (negsuc a) (pos b) = Unit
AtMostInt (negsuc a) (negsuc b) = b ≤ a

-- The order of magnitudes with their signs, where zero has none.
abbrev AtMostSigned : Bool → ℕ → Bool → ℕ → Type 0
AtMostSigned false a false b = a ≤ b
AtMostSigned true a true b = b ≤ a
AtMostSigned true a false b = Unit
AtMostSigned false a true b = a + b ≡ 0

-- The order of two integers, or of two finite floats; nothing is said of an integer and a float.
abbrev pub AtMost : Number → Number → Type 0
AtMost (int a) (int b) = AtMostInt a b
AtMost (float (finite s a k)) (float (finite t b l)) = AtMostSigned s (a * 2 ^ l) t (b * 2 ^ k)
AtMost _ _ = Unit

pub has_kind-IsOfKind : (k : SchemaKind) (v : Value) → has_kind k v ≡ true → IsOfKind k v
unfolding has_kind schema_value_compatible
has_kind-IsOfKind an_object (object fs) h = tt
has_kind-IsOfKind an_object _ h = cc
has_kind-IsOfKind an_array (array vs) h = tt
has_kind-IsOfKind an_array _ h = cc
has_kind-IsOfKind a_string (string s) h = tt
has_kind-IsOfKind a_string _ h = cc
has_kind-IsOfKind an_integer (number (int z)) h = tt
has_kind-IsOfKind an_integer (number (float x)) h = cc
has_kind-IsOfKind an_integer _ h = cc
has_kind-IsOfKind a_number (number (int z)) h = tt
has_kind-IsOfKind a_number (number (float (finite neg num shift))) h = tt
has_kind-IsOfKind a_number (number (float (infinite neg))) h = cc
has_kind-IsOfKind a_number (number (float nan)) h = cc
has_kind-IsOfKind a_number _ h = cc
has_kind-IsOfKind a_boolean (bool b) h = tt
has_kind-IsOfKind a_boolean _ h = cc
has_kind-IsOfKind a_null null h = tt
has_kind-IsOfKind a_null _ h = cc

-- A value that equals only itself as a schema value.
abbrev IsPlain : Value → Type 0
IsPlain v = (w : Value) → schema_values_equal w v ≡ true → w ≡ v

string-IsPlain : (s : String) → IsPlain (string s)
unfolding schema_values_equal value_eq
string-IsPlain s (string t) h = ap string ((eq_iff t s).0 h)
string-IsPlain s (bool true) h = cc
string-IsPlain s (bool false) h = cc
string-IsPlain s _ h = cc

bool-IsPlain : (b : Bool) → IsPlain (bool b)
unfolding schema_values_equal value_eq
bool-IsPlain true (bool true) h = refl
bool-IsPlain true (bool false) h = cc
bool-IsPlain false (bool true) h = cc
bool-IsPlain false (bool false) h = refl
bool-IsPlain b _ h = cc

null-IsPlain : IsPlain null
unfolding schema_values_equal value_eq
null-IsPlain null h = refl
null-IsPlain (bool true) h = cc
null-IsPlain (bool false) h = cc
null-IsPlain _ h = cc

any-Listed :
    (v : Value) (ws : List Value)
    → IsPlain v
    → any (λ w. schema_values_equal w v) ws ≡ true
    → Listed ws v
any-Listed v [] plain h = cc
any-Listed v (w ∷ ws) plain h = elim (Bool-cases (schema_values_equal w v)) [
  | inl same ↦ inl (plain w same)
  | inr other ↦ inr (any-Listed v ws plain (rw other at h))
]

pub in_enum-EnumHas : (ws : List Value) (v : Value) → in_enum ws v ≡ true → EnumHas ws v
unfolding in_enum
in_enum-EnumHas [] v h = tt
in_enum-EnumHas (w ∷ ws) (string s) h = any-Listed (string s) (w ∷ ws) (string-IsPlain s) h
in_enum-EnumHas (w ∷ ws) (bool b) h = any-Listed (bool b) (w ∷ ws) (bool-IsPlain b) h
in_enum-EnumHas (w ∷ ws) null h = any-Listed null (w ∷ ws) null-IsPlain h
in_enum-EnumHas (w ∷ ws) (number x) h = tt
in_enum-EnumHas (w ∷ ws) (array vs) h = tt
in_enum-EnumHas (w ∷ ws) (object fs) h = tt

not_less_signed :
    (s t : Bool) (a b : ℕ)
    → ◌≢◌ {A = Option Ordering} (some (signed_compare s a t b)) (some Ordering.lt)
    → AtMostSigned t b s a
not_less_signed true true a b h = ground arith
not_less_signed true false a b h = ground arith
not_less_signed false true a b h = tt
not_less_signed false false a b h = ground arith

not_more_signed :
    (s t : Bool) (a b : ℕ)
    → ◌≢◌ {A = Option Ordering} (some (signed_compare s a t b)) (some Ordering.gt)
    → AtMostSigned s a t b
not_more_signed true true a b h = ground arith
not_more_signed true false a b h = tt
not_more_signed false true a b h = ground arith
not_more_signed false false a b h = ground arith

not_less : (b x : Number) → numeric_compare x b ≢ some Ordering.lt → AtMost b x
unfolding numeric_compare numeric_value
not_less (int (pos b)) (int (pos x)) h = ground arith
not_less (int (pos b)) (int (negsuc x)) h = h refl
not_less (int (negsuc b)) (int (pos x)) h = tt
not_less (int (negsuc b)) (int (negsuc x)) h = ground arith
not_less (int b) (float x) h = tt
not_less (float (finite t b l)) (float (finite s a k)) h =
    not_less_signed s t (a * 2 ^ l) (b * 2 ^ k) h
not_less (float (finite t b l)) (float (infinite neg)) h = tt
not_less (float (finite t b l)) (float nan) h = tt
not_less (float (finite t b l)) (int x) h = tt
not_less (float (infinite neg)) x h = tt
not_less (float nan) x h = tt

not_more : (b x : Number) → numeric_compare x b ≢ some Ordering.gt → AtMost x b
unfolding numeric_compare numeric_value
not_more (int (pos b)) (int (pos x)) h = ground arith
not_more (int (pos b)) (int (negsuc x)) h = tt
not_more (int (negsuc b)) (int (pos x)) h = h refl
not_more (int (negsuc b)) (int (negsuc x)) h = ground arith
not_more (float (finite t b l)) (float (finite s a k)) h =
    not_more_signed s t (a * 2 ^ l) (b * 2 ^ k) h
not_more (int b) (float (finite s a k)) h = tt
not_more b (float (infinite neg)) h = tt
not_more b (float nan) h = tt
not_more (float b) (int x) h = tt
not_more (float (infinite neg)) (float (finite s a k)) h = tt
not_more (float nan) (float (finite s a k)) h = tt

pub minimum-AtMost :
    (o : Option Number) (x : Number)
    → Bounded o (λ b. numeric_compare x b ≢ some Ordering.lt)
    → Bounded o (λ b. AtMost b x)
minimum-AtMost none x h = tt
minimum-AtMost (some b) x h = not_less b x h

pub maximum-AtMost :
    (o : Option Number) (x : Number)
    → Bounded o (λ b. numeric_compare x b ≢ some Ordering.gt)
    → Bounded o (λ b. AtMost x b)
maximum-AtMost none x h = tt
maximum-AtMost (some b) x h = not_more b x h
