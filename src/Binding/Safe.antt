-- ===== src/Binding/Safe.antt =====
-- An input that the schema accepts has a value at each pointer that the schema has, so that the `unwrap`s
-- of `resolve_cli` do not panic.
use agent_capability_gate.Prelude.{
  String, ◌==◌, ◌≡◌, refl, true, some, List, [], ◌∷◌, Map, get, keys, contains_key, set_contains,
  Bool-cases, Option-cases, subst, inl, inr, arith, eq_iff, All-keys-get, All-set_contains,
  get-none_of_keys-nil, get-some_of_contains_key,
}
use agent_capability_gate.Json.{Value, object, Fields, fields}
use agent_capability_gate.Schema.{
  SchemaKind, an_object, SchemaNode, CompiledSchema, schema, SchemaProperties, no_property,
  property, properties_list, is_object_kind,
}
use agent_capability_gate.Schema.Regex.{RegexEngine}
use agent_capability_gate.Schema.Compile.Closed.{NodeClosed, IsClosed, PropertiesClosed}
use agent_capability_gate.Schema.Validate.{has_kind}
use agent_capability_gate.Schema.Validate.Conforms.{
  Shaped, Conforms, PropertiesConform, ItemsConform, Bounded,
}
use agent_capability_gate.Pointer.{decode_ptr}
use agent_capability_gate.Binding.{schema_at, find_value, value_at, schema_at_pointer}

module _ (engine : RegexEngine) where
  -- A conforming value of a closed node with a declared property is an object that has the property.
  has_property :
      (k : SchemaKind) (n : SchemaNode) (ps : Map CompiledSchema) (P : Map Value → Type 0)
      (Q : List Value → Type 0) (v : Value) (part : String) (c : CompiledSchema)
      → NodeClosed (is_object_kind k) n.required (keys ps)
      → has_kind k v ≡ true
      → Shaped engine n ps P Q k v
      → get part ps ≡ some c
      → (fs : Fields) × (v ≡ object fs) × (contains_key part (fields fs) ≡ true) × P (fields fs)
  unfolding has_kind
  has_property an_object n ps P Q (object fs) part c closed kind (keys_fit, props) found =
      let required = All-keys-get (λ k. set_contains k n.required ≡ true) part ps closed found in
      (
        fs,
        refl,
        All-set_contains (λ k. contains_key k (fields fs) ≡ true) part n.required keys_fit.0
            required,
        props,
      )
  has_property an_object n ps P Q _ part c closed kind shaped found = cc
  has_property _ n ps P Q v part c closed kind shaped found =
      absurd (cc (get-none_of_keys-nil part ps closed))

  PropertiesConform-get :
      (ps : SchemaProperties) (obj : Map Value) (part : String) (c : CompiledSchema)
      → PropertiesConform engine ps obj
      → get part (properties_list ps) ≡ some c
      → Bounded (get part obj) (Conforms engine c)
  unfolding get
  PropertiesConform-get no_property obj part c h found = cc
  PropertiesConform-get (property k s ps) obj part c h found = elim (Bool-cases (k == part)) [
    | inl same ↦
        let here : s ≡ c = ground arith in
        rw (← here)
          (subst (λ j. Bounded (get j obj) (Conforms engine s)) ((eq_iff k part).0 same) h.0)
    | inr other ↦ PropertiesConform-get ps obj part c h.1 (rw other at found)
  ]

  PropertiesClosed-get :
      (ps : SchemaProperties) (part : String) (c : CompiledSchema)
      → PropertiesClosed ps
      → get part (properties_list ps) ≡ some c
      → IsClosed c
  unfolding get
  PropertiesClosed-get no_property part c h found = cc
  PropertiesClosed-get (property k s ps) part c h found = elim (Bool-cases (k == part)) [
    | inl same ↦ let here : s ≡ c = ground arith in rw (← here) h.0
    | inr other ↦ PropertiesClosed-get ps part c h.1 (rw other at found)
  ]

  find_value-Conforms :
      (parts : List String) (s t : CompiledSchema) (v : Value)
      → IsClosed s
      → Conforms engine s v
      → schema_at s parts ≡ some t
      → (w : Value) × (find_value v parts ≡ some w) × Conforms engine t w
  unfolding schema_at find_value
  find_value-Conforms [] s t v closed conforms found =
      let same : s ≡ t = cc in (v, refl, subst (λ r. Conforms engine r v) same conforms)
  find_value-Conforms (part ∷ parts) (schema n ps is) t v closed conforms found =
      elim (Option-cases (get part (properties_list ps))) [
        | inl missing ↦ absurd (cc missing)
        | inr (c, here) ↦
            let (fs, same, has, props) =
              has_property n.kind n (properties_list ps) (PropertiesConform engine ps)
                (ItemsConform engine is) v part c closed.0 conforms.0 conforms.2 here in
            let (w, at_part) = get-some_of_contains_key part (fields fs) has in
            let inner : Conforms engine c w =
              subst (λ o. Bounded o (Conforms engine c)) at_part
                (PropertiesConform-get ps (fields fs) part c props here) in
            let (x, found_x, fits) =
              find_value-Conforms parts c t w (PropertiesClosed-get ps part c closed.1 here) inner
                (rw here at found) in
            (x, rw (same, at_part) found_x, fits)
      ]

-- If a schema that `compile_schema` accepts has a schema t at a pointer, and it accepts a value, then the
-- value has a value at that pointer, and t accepts it.
pub value_at-Conforms :
    (engine : RegexEngine) (s t : CompiledSchema) (v : Value) (pointer : String)
    → IsClosed s
    → Conforms engine s v
    → schema_at_pointer s pointer ≡ some t
    → (w : Value) × (value_at v pointer ≡ some w) × Conforms engine t w
unfolding schema_at_pointer value_at
value_at-Conforms engine s t v pointer closed conforms found =
    elim (Option-cases (decode_ptr pointer)) [
      | inl missing ↦ absurd (cc missing)
      | inr (parts, decoded) ↦
          rw decoded (find_value-Conforms engine parts s t v closed conforms (rw decoded at found))
    ]
