-- ===== src/Json/Canonical.antt =====
-- What `canonicalize` does to the entries of an object, and to a value that it has already treated.
pub mod Exact
use agent_capability_gate.Prelude.{
  String, ◌==◌, ◌≡◌, refl, ap, Map, get, Bool-cases, inl, inr, option_map,
}
use agent_capability_gate.Json.{
  Value, null, bool, number, string, array, object, Items, nil, item, Fields, end, field, fields,
  is_some_and, of_map, get_field, fields-of_fields,
}
use agent_capability_gate.Json.Numbers.{Number, as_f64, is_zero}
use agent_capability_gate.Json.Limits.{
  canonicalize, canonical_number, canonicalize_fields, canonicalize_items,
}

get-canonicalize_fields :
    (k : String) (fs : Fields)
    → get k (fields (canonicalize_fields fs)) ≡ option_map canonicalize (get k (fields fs))
unfolding get canonicalize
get-canonicalize_fields k end = refl
get-canonicalize_fields k (field j v fs) = elim (Bool-cases (j == k)) [
  | inl same ↦ rw same refl
  | inr other ↦ rw other (get-canonicalize_fields k fs)
]

pub get_field-canonicalize :
    (k : String) (v : Value)
    → get_field k (canonicalize v) ≡ option_map canonicalize (get_field k v)
unfolding canonicalize
get_field-canonicalize k (object fs) = get-canonicalize_fields k fs
get_field-canonicalize k null = refl
get_field-canonicalize k (bool b) = refl
get_field-canonicalize k (number n) = refl
get_field-canonicalize k (string s) = refl
get_field-canonicalize k (array vs) = refl

pub get_field-of_map : (k : String) (m : Map Value) → get_field k (of_map m) ≡ get k m
get_field-of_map k m = ap (get k) (fields-of_fields m)

pub get_field-canonical_map :
    (k : String) (m : Map Value)
    → get_field k (canonicalize (of_map m)) ≡ option_map canonicalize (get k m)
get_field-canonical_map k m = rw (get_field-canonicalize k (of_map m), get_field-of_map k m) refl

canonical_number_idem : (n : Number) → canonical_number (canonical_number n) ≡ canonical_number n
unfolding canonical_number
canonical_number_idem n = elim (Bool-cases (is_some_and (as_f64 n) is_zero)) [
  | inl zero ↦ rw zero refl
  | inr other ↦ rw (other, other) refl
]

mutual
  unfolding canonicalize

  idem_value : (v : Value) → canonicalize (canonicalize v) ≡ canonicalize v
  idem_value null = refl
  idem_value (bool b) = refl
  idem_value (number n) = ap number (canonical_number_idem n)
  idem_value (string s) = refl
  idem_value (array vs) = ap array (idem_items vs)
  idem_value (object fs) = ap object (idem_fields fs)

  idem_items : (vs : Items) → canonicalize_items (canonicalize_items vs) ≡ canonicalize_items vs
  idem_items nil = refl
  idem_items (item v vs) = cc (idem_value v, idem_items vs)

  idem_fields :
      (fs : Fields) → canonicalize_fields (canonicalize_fields fs) ≡ canonicalize_fields fs
  idem_fields end = refl
  idem_fields (field k v fs) = cc (idem_value v, idem_fields fs)

-- A second `canonicalize` changes nothing.
pub canonicalize_idem : (v : Value) → canonicalize (canonicalize v) ≡ canonicalize v
canonicalize_idem = idem_value
