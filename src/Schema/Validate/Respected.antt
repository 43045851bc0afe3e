-- ===== src/Schema/Validate/Respected.antt =====
-- What `validate_input` guarantees of an accepted value, in terms of the schema's entries alone.
pub mod Entries
use agent_capability_gate.Prelude.{
  ℕ, ◌+◌, ◌*◌, ◌^◌, ◌≤◌, String, ◌≢◌, refl, ap, eq_iff, Bool, true, false, Option, none, some, List,
  [], ◌∷◌, length, All, Map, any, get, Ordering, ℤ, pos, negsuc, inl, inr, ◌⊎◌, Bool-cases, arith,
}
use agent_capability_gate.Json.{
  Value, null, bool, number, string, array, object, items, fields, value_eq,
}
use agent_capability_gate.Json.Numbers.{Number, signed_compare, int, float, finite, infinite, nan}
use agent_capability_gate.Json.Order.{numeric_compare, numeric_value}
use agent_capability_gate.Json.Equal.{schema_values_equal}
use agent_capability_gate.Schema.{
  SchemaKind, an_object, an_array, a_string, an_integer, a_number, a_boolean, a_null, SchemaNode,
  CompiledSchema, schema, SchemaProperties, no_property, property, properties_list, SchemaItems,
  no_items, each_item,
}
use agent_capability_gate.Schema.Keywords.{schema_value_compatible}
use agent_capability_gate.Schema.Regex.{RegexEngine}
use agent_capability_gate.Schema.Validate.{has_kind, in_enum}
use agent_capability_gate.Schema.Validate.Conforms.{
  Bounded, KeysFit, StringFits, Shaped, Conforms, PropertiesConform, ItemsConform,
}
use agent_capability_gate.Schema.Validate.Respected.Entries.{
  IsOfKind, EnumHas, AtMost, has_kind-IsOfKind, in_enum-EnumHas, minimum-AtMost, maximum-AtMost,
}

-- The bounds of the schema on the value's size, by the kind.
abbrev SizeFits : RegexEngine → SchemaNode → Map CompiledSchema → SchemaKind → Value → Type 0
SizeFits engine n ps an_object (object fs) = KeysFit n ps (fields fs)
SizeFits engine n ps an_array (array vs) =
    Bounded n.min_items (λ b. b ≤ length (items vs))
    × Bounded n.max_items (λ b. length (items vs) ≤ b)
SizeFits engine n ps a_string (string s) = StringFits engine n s
SizeFits engine n ps an_integer (number x) =
    Bounded n.minimum (λ b. AtMost b x) × Bounded n.maximum (λ b. AtMost x b)
SizeFits engine n ps a_number (number x) =
    Bounded n.minimum (λ b. AtMost b x) × Bounded n.maximum (λ b. AtMost x b)
SizeFits engine n ps _ _ = Unit

module _ (engine : RegexEngine) where
  abbrev PartsRespect : (Map Value → Type 0) → (List Value → Type 0) → SchemaKind → Value → Type 0
  PartsRespect Props Elems an_object (object fs) = Props (fields fs)
  PartsRespect Props Elems an_array (array vs) = Elems (items vs)
  PartsRespect Props Elems _ _ = Unit

  -- At every level of the value that the schema describes.
  abbrev mutual
    pub Respects : CompiledSchema → Value → Type 0
    Respects (schema n ps is) v =
        IsOfKind n.kind v
        × EnumHas n.enum_values v
        × SizeFits engine n (properties_list ps) n.kind v
        × PartsRespect (PropertiesRespect ps) (ItemsRespect is) n.kind v

    pub PropertiesRespect : SchemaProperties → Map Value → Type 0
    PropertiesRespect no_property obj = Unit
    PropertiesRespect (property k s ps) obj =
        Bounded (get k obj) (λ v. Respects s v) × PropertiesRespect ps obj

    pub ItemsRespect : SchemaItems → List Value → Type 0
    ItemsRespect no_items vs = Unit
    ItemsRespect (each_item s) vs = All (Respects s) vs

module _ (engine : RegexEngine) (n : SchemaNode) (ps : Map CompiledSchema)
    {P P' : Map Value → Type 0} {Q Q' : List Value → Type 0} (props : (m : Map Value) → P m → P' m)
    (elems : (vs : List Value) → Q vs → Q' vs) where
  Shaped-Respects :
      (k : SchemaKind) (v : Value)
      → Shaped engine n ps P Q k v
      → SizeFits engine n ps k v × PartsRespect engine P' Q' k v
  Shaped-Respects an_object (object fs) h = (h.0, props (fields fs) h.1)
  Shaped-Respects an_array (array vs) h = ((h.0.0, h.0.1), elems (items vs) h.1)
  Shaped-Respects a_string (string s) h = (h, tt)
  Shaped-Respects an_integer (number x) h =
      ((minimum-AtMost n.minimum x h.0, maximum-AtMost n.maximum x h.1), tt)
  Shaped-Respects a_number (number x) h =
      ((minimum-AtMost n.minimum x h.0, maximum-AtMost n.maximum x h.1), tt)
  Shaped-Respects _ _ h = (tt, tt)

Bounded-map :
    {A : Type 0} {P Q : A → Type 0} (o : Option A)
    → ((a : A) → P a → Q a)
    → Bounded o P
    → Bounded o Q
Bounded-map none f h = tt
Bounded-map (some a) f h = f a h

All-map :
    {A : Type 0} {P Q : A → Type 0} (xs : List A) → ((a : A) → P a → Q a) → All P xs → All Q xs
All-map [] f h = tt
All-map (x ∷ xs) f h = (f x h.0, All-map xs f h.1)

module _ (engine : RegexEngine) where
  mutual
    Conforms-Respects : (s : CompiledSchema) (v : Value) → Conforms engine s v → Respects engine s v
    Conforms-Respects (schema n ps is) v (kind, listed, shaped) =
        let (fits, parts) =
          Shaped-Respects engine n (properties_list ps) (PropertiesConform-Respect ps)
            (ItemsConform-Respect is) n.kind v shaped in
        (has_kind-IsOfKind n.kind v kind, in_enum-EnumHas n.enum_values v listed, fits, parts)

    PropertiesConform-Respect :
        (ps : SchemaProperties) (obj : Map Value)
        → PropertiesConform engine ps obj
        → PropertiesRespect engine ps obj
    PropertiesConform-Respect no_property obj h = tt
    PropertiesConform-Respect (property k s ps) obj h =
        (Bounded-map (get k obj) (Conforms-Respects s) h.0, PropertiesConform-Respect ps obj h.1)

    ItemsConform-Respect :
        (is : SchemaItems) (vs : List Value) → ItemsConform engine is vs → ItemsRespect engine is vs
    ItemsConform-Respect no_items vs h = tt
    ItemsConform-Respect (each_item s) vs h = All-map vs (Conforms-Respects s) h
