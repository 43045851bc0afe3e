-- ===== src/Json.antt =====
-- JSON values as `serde_json::Value` gives them to the program (crates/core/src/lib.rs). An array's
-- items and an object's fields are types of their own, with functions to and from the shared lists and
-- maps; `serde_json::Map` is a map in key order.
pub mod Numbers
pub mod Order
pub mod Equal
pub mod Limits
pub mod Canonical
use Numbers.{Number, number_eq}
use agent_capability_gate.Prelude.{
  ℕ, String, ◌≡◌, refl, Bool, true, false, ◌&&◌, Option, none, some, List, [], ◌∷◌, ap, ◌==◌, Map,
  get, insert, is_some,
}

mutual
  pub data Value : Type 0 where
    null : Value
    bool : Bool → Value
    number : Number → Value
    string : String → Value
    array : Items → Value
    object : Fields → Value

  pub data Items : Type 0 where
    nil : Items
    item : Value → Items → Items

  pub data Fields : Type 0 where
    end : Fields
    field : String → Value → Fields → Fields

abbrev pub items : Items → List Value
items nil = []
items (item v vs) = v ∷ items vs

abbrev pub of_items : List Value → Items
of_items [] = nil
of_items (v ∷ vs) = item v (of_items vs)

abbrev pub fields : Fields → Map Value
fields end = []
fields (field k v fs) = (k, v) ∷ fields fs

abbrev pub of_fields : Map Value → Fields
of_fields [] = end
of_fields ((k, v) ∷ m) = field k v (of_fields m)

pub items-of_items : (vs : List Value) → items (of_items vs) ≡ vs
items-of_items [] = refl
items-of_items (v ∷ vs) = ap (λ l. v ∷ l) (items-of_items vs)

pub of_items-items : (vs : Items) → of_items (items vs) ≡ vs
of_items-items nil = refl
of_items-items (item v vs) = ap (item v) (of_items-items vs)

pub fields-of_fields : (m : Map Value) → fields (of_fields m) ≡ m
fields-of_fields [] = refl
fields-of_fields ((k, v) ∷ m) = ap (λ l. (k, v) ∷ l) (fields-of_fields m)

pub of_fields-fields : (fs : Fields) → of_fields (fields fs) ≡ fs
of_fields-fields end = refl
of_fields-fields (field k v fs) = ap (field k v) (of_fields-fields fs)

-- `Value::Object(m)` and `Value::Array(vs)`
abbrev pub of_map : Map Value → Value
of_map m = object (of_fields m)

abbrev pub of_list : List Value → Value
of_list vs = array (of_items vs)

abbrev pub as_object : Value → Option (Map Value)
as_object (object fs) = some (fields fs)
as_object _ = none

abbrev pub as_array : Value → Option (List Value)
as_array (array vs) = some (items vs)
as_array _ = none

abbrev pub as_str : Value → Option String
as_str (string s) = some s
as_str _ = none

abbrev pub as_bool : Value → Option Bool
as_bool (bool b) = some b
as_bool _ = none

abbrev pub as_number : Value → Option Number
as_number (number n) = some n
as_number _ = none

abbrev pub is_null : Value → Bool
is_null null = true
is_null _ = false

infixl 5 ◌>>?◌
-- `and_then` on options
abbrev pub ◌>>?◌ {ℓ κ} : {A : Type ℓ} {B : Type κ} → Option A → (A → Option B) → Option B
none >>? f = none
some a >>? f = f a

-- `value.get(key)`
abbrev pub get_field : String → Value → Option Value
get_field k v = as_object v >>? λ m. get k m

-- `option.is_some_and(test)`
abbrev pub is_some_and {ℓ} : {A : Type ℓ} → Option A → (A → Bool) → Bool
is_some_and none p = false
is_some_and (some a) p = p a

-- The derived `==` of values; a `BTreeMap` is compared entry by entry.
unfoldable mutual
  pub value_eq : Value → Value → Bool
  value_eq null null = true
  value_eq (bool true) (bool b) = b
  value_eq (bool false) (bool true) = false
  value_eq (bool false) (bool false) = true
  value_eq (number m) (number n) = number_eq m n
  value_eq (string s) (string t) = s == t
  value_eq (array vs) (array ws) = items_eq vs ws
  value_eq (object fs) (object gs) = fields_eq fs gs
  value_eq _ _ = false

  pub items_eq : Items → Items → Bool
  items_eq nil nil = true
  items_eq (item v vs) (item w ws) = value_eq v w && items_eq vs ws
  items_eq _ _ = false

  pub fields_eq : Fields → Fields → Bool
  fields_eq end end = true
  fields_eq (field j v fs) (field k w gs) = j == k && (value_eq v w && fields_eq fs gs)
  fields_eq _ _ = false
