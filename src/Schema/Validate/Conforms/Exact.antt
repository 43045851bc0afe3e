-- ===== src/Schema/Validate/Conforms/Exact.antt =====
-- `validate_input` accepts exactly the values that conform to the schema.
use agent_capability_gate.Prelude.{
  ℕ, ◌≤◌, String, len, count, ◌≡◌, ◌≢◌, refl, ◌↔◌, Bool, true, false, not, ◌&&◌, Option, none, some,
  List, [], ◌∷◌, length, Map, ok, get, keys, Ordering, ltb, is_gt, is_lt, arith,
}
use agent_capability_gate.Json.{Value, number, string, array, object, items, fields, is_some_and}
use agent_capability_gate.Json.Numbers.{Number}
use agent_capability_gate.Json.Order.{numeric_compare}
use agent_capability_gate.Diagnostics.{max_string_bytes, ◌/+◌}
use agent_capability_gate.Pointer.{escape_ptr}
use agent_capability_gate.Schema.{
  SchemaKind, an_object, an_array, a_string, an_integer, a_number, SchemaNode, CompiledSchema,
  schema, SchemaProperties, no_property, property, properties_list, SchemaItems, no_items,
  each_item,
}
use agent_capability_gate.Schema.Regex.{RegexEngine}
use agent_capability_gate.Schema.Validate.{
  Issues, push_if, under, over, has_duplicate, check_array, check_number, check_string, check_shape,
  validate_value, validate_properties, validate_items, validate_input, accepted,
}
use agent_capability_gate.Schema.Validate.Conforms.{
  Bounded, UniqueIf, ArrayFits, NumberFits, StringFits, Shaped, Conforms, PropertiesConform,
  ItemsConform,
}
use agent_capability_gate.Schema.Validate.Conforms.Decides.{
  Decides, Decides-push_if, Decides-compose, Decides-id, Decides-iff, Decides-check_required,
  Decides-check_additional, Decides-validate_found, Decides-validate_each, Decides-enter,
  has_duplicate-nil_iff,
}

under_iff : (bound : Option ℕ) (n : ℕ) → (under bound n ≡ false) ↔ Bounded bound (λ b. b ≤ n)
under_iff none n = ((λ h. tt), λ h. refl)
under_iff (some b) n = ground arith

over_iff : (bound : Option ℕ) (n : ℕ) → (over bound n ≡ false) ↔ Bounded bound (λ b. n ≤ b)
over_iff none n = ((λ h. tt), λ h. refl)
over_iff (some b) n = ground arith

Decides-under :
    (bound : Option ℕ) (n : ℕ) (path c : String)
    → Decides (push_if (under bound n) path c) (Bounded bound (λ b. b ≤ n))
Decides-under bound n path c =
    Decides-iff (Decides-push_if (under bound n) path c) (under_iff bound n).0 (under_iff bound n).1

Decides-over :
    (bound : Option ℕ) (n : ℕ) (path c : String)
    → Decides (push_if (over bound n) path c) (Bounded bound (λ b. n ≤ b))
Decides-over bound n path c =
    Decides-iff (Decides-push_if (over bound n) path c) (over_iff bound n).0 (over_iff bound n).1

unique_iff : (u : Bool) (vs : List Value) → ((u && has_duplicate [] vs) ≡ false) ↔ UniqueIf u vs
unique_iff true vs = has_duplicate-nil_iff vs
unique_iff false vs = ((λ h. tt), λ h. refl)

Decides-check_array :
    (n : SchemaNode) (vs : List Value) (path : String)
    → Decides (check_array n vs path) (ArrayFits n vs)
unfolding check_array
Decides-check_array n vs path =
    Decides-iff
      (Decides-compose
        (Decides-compose (Decides-under n.min_items (length vs) path "minItems")
          (Decides-over n.max_items (length vs) path "maxItems"))
        (Decides-iff (Decides-push_if (n.unique_items && has_duplicate [] vs) path "uniqueItems")
          (unique_iff n.unique_items vs).0 (unique_iff n.unique_items vs).1))
      (λ ((a, b), c). (a, b, c)) (λ (a, b, c). ((a, b), c))

not_lt_iff : (o : Option Ordering) → (is_some_and o is_lt ≡ false) ↔ (o ≢ some Ordering.lt)
not_lt_iff o = ground arith

not_gt_iff : (o : Option Ordering) → (is_some_and o is_gt ≡ false) ↔ (o ≢ some Ordering.gt)
not_gt_iff o = ground arith

module _ (x : Number) where
  minimum_iff :
      (bound : Option Number)
      → (is_some_and bound (λ b. is_some_and (numeric_compare x b) is_lt) ≡ false)
        ↔ Bounded bound (λ b. numeric_compare x b ≢ some Ordering.lt)
  minimum_iff none = ((λ h. tt), λ h. refl)
  minimum_iff (some b) = not_lt_iff (numeric_compare x b)

  maximum_iff :
      (bound : Option Number)
      → (is_some_and bound (λ b. is_some_and (numeric_compare x b) is_gt) ≡ false)
        ↔ Bounded bound (λ b. numeric_compare x b ≢ some Ordering.gt)
  maximum_iff none = ((λ h. tt), λ h. refl)
  maximum_iff (some b) = not_gt_iff (numeric_compare x b)

Decides-check_number :
    (n : SchemaNode) (x : Number) (path : String) → Decides (check_number n x path) (NumberFits n x)
unfolding check_number
Decides-check_number n x path =
    Decides-compose
      (Decides-iff (Decides-push_if _ path "minimum") (minimum_iff x n.minimum).0
        (minimum_iff x n.minimum).1)
      (Decides-iff (Decides-push_if _ path "maximum") (maximum_iff x n.maximum).0
        (maximum_iff x n.maximum).1)

accepted_iff : (is : Issues) → (accepted is ≡ ok tt) ↔ (is ≡ [])
accepted_iff [] = ((λ h. refl), λ h. refl)
accepted_iff (i ∷ is) = ((λ h. cc), λ h. cc)

module _ (engine : RegexEngine) where
  pattern_iff :
      (pattern : Option String) (s : String)
      → (is_some_and pattern (λ p. not (engine.is_match p s)) ≡ false)
        ↔ Bounded pattern (λ p. engine.is_match p s ≡ true)
  pattern_iff none s = ((λ h. tt), λ h. refl)
  pattern_iff (some p) s = ground arith

  text_limit_iff :
      (s : String) → (ltb max_string_bytes (len s) ≡ false) ↔ (len s ≤ max_string_bytes)
  text_limit_iff s = ground arith

  Decides-check_string :
      (n : SchemaNode) (s path : String)
      → Decides (check_string engine n s path) (StringFits engine n s)
  unfolding check_string
  Decides-check_string n s path =
      Decides-iff
        (Decides-compose
          (Decides-compose
            (Decides-compose
              (Decides-iff (Decides-push_if _ path "stringBytes") (text_limit_iff s).0
                (text_limit_iff s).1)
              (Decides-under n.min_length (count s) path "minLength"))
            (Decides-over n.max_length (count s) path "maxLength"))
          (Decides-iff (Decides-push_if _ path "pattern") (pattern_iff n.pattern s).0
            (pattern_iff n.pattern s).1))
        (λ (((a, b), c), e). (a, b, c, e)) (λ (a, b, c, e). (((a, b), c), e))

  module _ (n : SchemaNode) (ps : Map CompiledSchema) {f : Map Value → String → Issues → Issues}
      {g : List Value → String → Issues → Issues} {P : Map Value → Type 0} {Q : List Value → Type 0}
      (df : (obj : Map Value) (path : String) → Decides (f obj path) (P obj))
      (dg : (vs : List Value) (path : String) → Decides (g vs path) (Q vs)) where
    Decides-check_shape :
        (k : SchemaKind) (v : Value) (path : String)
        → Decides (check_shape engine n ps f g k v path) (Shaped engine n ps P Q k v)
    unfolding check_shape
    Decides-check_shape an_object (object fs) path =
        Decides-compose
          (Decides-compose (Decides-check_required n.required (fields fs) path)
            (Decides-check_additional (keys (fields fs)) ps path))
          (df (fields fs) path)
    Decides-check_shape an_array (array vs) path =
        Decides-compose (Decides-check_array n (items vs) path) (dg (items vs) path)
    Decides-check_shape a_string (string s) path = Decides-check_string n s path
    Decides-check_shape an_integer (number x) path = Decides-check_number n x path
    Decides-check_shape a_number (number x) path = Decides-check_number n x path
    Decides-check_shape _ _ path = Decides-id

  mutual
    unfolding validate_value

    Decides-validate_value :
        (s : CompiledSchema) (v : Value) (path : String)
        → Decides (validate_value engine s v path) (Conforms engine s v)
    Decides-validate_value (schema n ps is) v path =
        Decides-enter
          (Decides-check_shape n (properties_list ps) (Decides-validate_properties ps)
            (Decides-validate_items is) n.kind v path)
          n v path

    Decides-validate_properties :
        (ps : SchemaProperties) (obj : Map Value) (path : String)
        → Decides (validate_properties engine ps obj path) (PropertiesConform engine ps obj)
    Decides-validate_properties no_property obj path = Decides-id
    Decides-validate_properties (property k s ps) obj path =
        Decides-compose
          (Decides-validate_found _ (Conforms engine s) (get k obj)
            (λ v. Decides-validate_value s v (path /+ escape_ptr k)))
          (Decides-validate_properties ps obj path)

    Decides-validate_items :
        (is : SchemaItems) (vs : List Value) (path : String)
        → Decides (validate_items engine is vs path) (ItemsConform engine is vs)
    Decides-validate_items no_items vs path = Decides-id
    Decides-validate_items (each_item s) vs path =
        Decides-validate_each _ (Conforms engine s) 0 vs path (Decides-validate_value s)

  -- `validate_value` adds no issue exactly when no issue was there and the value conforms.
  pub validate_value-eq-nil_iff :
      (s : CompiledSchema) (v : Value) (path : String) (is : Issues)
      → (validate_value engine s v path is ≡ []) ↔ ((is ≡ []) × Conforms engine s v)
  validate_value-eq-nil_iff = Decides-validate_value

-- With any regex engine, `validate_input` accepts a value exactly if the value conforms to the schema.
pub validate_input_iff :
    (engine : RegexEngine) (s : CompiledSchema) (v : Value)
    → (validate_input engine s v ≡ ok tt) ↔ Conforms engine s v
unfolding validate_input
validate_input_iff engine s v = (
  (λ h. ((validate_value-eq-nil_iff engine s v "" []).0 ((accepted_iff _).0 h)).1),
  λ c. (accepted_iff _).1 ((validate_value-eq-nil_iff engine s v "" []).1 (refl, c)),
)
