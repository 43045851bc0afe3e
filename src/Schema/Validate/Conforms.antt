-- ===== src/Schema/Validate/Conforms.antt =====
-- When a value conforms to a compiled schema: what `validate_value` decides, said without lists of issues,
-- with its tests of kind, equality and order.
pub mod Decides
pub mod Exact
use agent_capability_gate.Prelude.{
  ℕ, ◌≤◌, String, len, count, ◌≡◌, ◌≢◌, Bool, true, false, Option, none, some, List, [], ◌∷◌,
  length, All, Map, get, contains_key, keys, Ordering,
}
use agent_capability_gate.Json.{Value, null, bool, number, string, array, object, items, fields}
use agent_capability_gate.Json.Numbers.{Number}
use agent_capability_gate.Json.Order.{numeric_compare}
use agent_capability_gate.Json.Equal.{schema_values_equal}
use agent_capability_gate.Diagnostics.{max_string_bytes}
use agent_capability_gate.Schema.{
  SchemaKind, an_object, an_array, a_string, an_integer, a_number, SchemaNode, CompiledSchema,
  schema, SchemaProperties, no_property, property, properties_list, SchemaItems, no_items,
  each_item,
}
use agent_capability_gate.Schema.Regex.{RegexEngine}
use agent_capability_gate.Schema.Validate.{has_kind, in_enum}

-- What holds of the bound, if there is one.
abbrev pub Bounded {ℓ} : {A : Type ℓ} → Option A → (A → Type 0) → Type 0
Bounded none P = Unit
Bounded (some a) P = P a

-- No two items are equal as schema values.
abbrev pub AllDistinct : List Value → Type 0
AllDistinct [] = Unit
AllDistinct (v ∷ vs) = All (λ w. schema_values_equal v w ≡ false) vs × AllDistinct vs

abbrev pub UniqueIf : Bool → List Value → Type 0
UniqueIf true vs = AllDistinct vs
UniqueIf false vs = Unit

abbrev pub ArrayFits : SchemaNode → List Value → Type 0
ArrayFits n vs =
    Bounded n.min_items (λ b. b ≤ length vs)
    × Bounded n.max_items (λ b. length vs ≤ b)
    × UniqueIf n.unique_items vs

abbrev pub NumberFits : SchemaNode → Number → Type 0
NumberFits n x =
    Bounded n.minimum (λ b. numeric_compare x b ≢ some Ordering.lt)
    × Bounded n.maximum (λ b. numeric_compare x b ≢ some Ordering.gt)

-- Every required key is there, and every key that is there is declared.
abbrev pub KeysFit : SchemaNode → Map CompiledSchema → Map Value → Type 0
KeysFit n ps obj =
    All (λ k. contains_key k obj ≡ true) n.required × All (λ k. contains_key k ps ≡ true) (keys obj)

module _ (engine : RegexEngine) where
  abbrev pub StringFits : SchemaNode → String → Type 0
  StringFits n s =
      (len s ≤ max_string_bytes)
      × Bounded n.min_length (λ b. b ≤ count s)
      × Bounded n.max_length (λ b. count s ≤ b)
      × Bounded n.pattern (λ p. engine.is_match p s ≡ true)

  -- The shape of a value by kind; `Props` and `Elems` say what is asked of the parts.
  abbrev pub Shaped :
      SchemaNode
      → Map CompiledSchema
      → (Map Value → Type 0)
      → (List Value → Type 0)
      → SchemaKind
      → Value
      → Type 0
  Shaped n ps Props Elems an_object (object fs) = KeysFit n ps (fields fs) × Props (fields fs)
  Shaped n ps Props Elems an_array (array vs) = ArrayFits n (items vs) × Elems (items vs)
  Shaped n ps Props Elems a_string (string s) = StringFits n s
  Shaped n ps Props Elems an_integer (number x) = NumberFits n x
  Shaped n ps Props Elems a_number (number x) = NumberFits n x
  Shaped n ps Props Elems _ _ = Unit

  abbrev mutual
    pub Conforms : CompiledSchema → Value → Type 0
    Conforms (schema n ps is) v =
        (has_kind n.kind v ≡ true)
        × (in_enum n.enum_values v ≡ true)
        × Shaped n (properties_list ps) (PropertiesConform ps) (ItemsConform is) n.kind v

    pub PropertiesConform : SchemaProperties → Map Value → Type 0
    PropertiesConform no_property obj = Unit
    PropertiesConform (property k s ps) obj =
        Bounded (get k obj) (λ v. Conforms s v) × PropertiesConform ps obj

    pub ItemsConform : SchemaItems → List Value → Type 0
    ItemsConform no_items vs = Unit
    ItemsConform (each_item s) vs = All (Conforms s) vs
