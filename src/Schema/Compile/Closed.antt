-- ===== src/Schema/Compile/Closed.antt =====
-- A schema that `compile_schema` has accepted is closed at every level: only an object schema declares
-- properties, and each of them is required.
use agent_capability_gate.Prelude.{
  ℕ, zero, suc, ◌-◌, String, ◌≡◌, refl, ap, sym, Bool, true, false, not, ◌||◌, Option, List, [],
  ◌∷◌, All, Map, keys, any, set_contains, set_of, ok, >>=-eq-ok, fail_if-eq-ok, ok_or, fail_if, get,
  ok-injective, or_false, eqb, length, contains_key, arith,
}
use agent_capability_gate.Json.{Value, as_object, as_array, ◌>>?◌}
use agent_capability_gate.Diagnostics.{Checked, ◌/+◌}
use agent_capability_gate.Schema.{
  SchemaKind, SchemaNode, CompiledSchema, schema, SchemaProperties, no_property, property,
  properties_list, SchemaItems, no_items, each_item, is_object_kind, is_array_kind,
}
use agent_capability_gate.Schema.Regex.{RegexEngine}
use agent_capability_gate.Schema.Keywords.{required_names, is_false, usize_value, numeric_bound}
use agent_capability_gate.Json.Limits.{max_schema_depth}
use agent_capability_gate.Schema.Compile.{
  rejects_required, compile_properties, compile_object, compile_items, compile_rest, compile_head,
  compile_body, compile_at, compile_schema, above, exceeds_bound, over_array_limit, compile_enum,
  compile_pattern, public_schema,
}

-- What is asked of one node: its declared keys are required, and a node of another kind declares none.
abbrev pub NodeClosed : Bool → List String → List String → Type 0
NodeClosed true required declared = All (λ k. set_contains k required ≡ true) declared
NodeClosed false required declared = declared ≡ []

abbrev mutual
  pub IsClosed : CompiledSchema → Type 0
  IsClosed (schema n ps is) =
      NodeClosed (is_object_kind n.kind) n.required (keys (properties_list ps))
      × PropertiesClosed ps
      × ItemsClosed is

  pub PropertiesClosed : SchemaProperties → Type 0
  PropertiesClosed no_property = Unit
  PropertiesClosed (property k s ps) = IsClosed s × PropertiesClosed ps

  pub ItemsClosed : SchemaItems → Type 0
  ItemsClosed no_items = Unit
  ItemsClosed (each_item s) = IsClosed s

any-set_contains :
    (ks required : List String)
    → any (λ k. not (set_contains k required)) ks ≡ false
    → All (λ k. set_contains k required ≡ true) ks
any-set_contains [] required h = tt
any-set_contains (k ∷ ks) required h =
    let (a, b) = or_false (not (set_contains k required)) _ h in
    (ground arith, any-set_contains ks required b)

All-rejects_required :
    (names : List String) (props : Map Value)
    → rejects_required true names props ≡ false
    → All (λ k. set_contains k (set_of names) ≡ true) (keys props)
unfolding rejects_required
All-rejects_required names props h =
    let required = set_of names in
    let short = not (eqb (length required) (length names)) in
    let unlisted = any (λ k. not (set_contains k required)) (keys props) in
    let counted = not (eqb (length required) (length props)) in
    let unknown = any (λ k. not (contains_key k props)) required in
    let (a, b) = or_false (short || (counted || unlisted)) unknown h in
    let (c, d) = or_false short (counted || unlisted) a in
    let (e, f) = or_false counted unlisted d in any-set_contains (keys props) required f

module _ (compile : Value → String → Checked CompiledSchema)
    (closed : (v : Value) (path : String) (s : CompiledSchema)
      → compile v path ≡ ok s
      → IsClosed s) where
  compile_properties-closed :
      (props : Map Value) (path : String) (ps : SchemaProperties)
      → compile_properties compile props path ≡ ok ps
      → PropertiesClosed ps × (keys (properties_list ps) ≡ keys props)
  unfolding compile_properties keys
  compile_properties-closed [] path no_property h = (tt, refl)
  compile_properties-closed [] path (property k s ps) h = cc
  compile_properties-closed ((k, v) ∷ props) path ps h =
      let (s, e, h1) = >>=-eq-ok _ _ h in
      let (rest, e', h2) = >>=-eq-ok _ _ h1 in
      let (a, b) = compile_properties-closed props path rest e' in
      let same : property k s rest ≡ ps = cc in
      rw (← same) ((closed v _ s e, a), ap (λ ks. k ∷ ks) b)

  compile_items-closed :
      (is_array : Bool) (obj : Map Value) (path : String) (is : SchemaItems)
      → compile_items compile is_array obj path ≡ ok is
      → ItemsClosed is
  unfolding compile_items
  compile_items-closed false obj path no_items h = tt
  compile_items-closed false obj path (each_item s) h = cc
  compile_items-closed true obj path is h =
      let (v, e, h1) = >>=-eq-ok (ok_or (get "items" obj) _) _ h in
      let (s, e', h2) = >>=-eq-ok (compile v (path /+ "items")) _ h1 in
      let same : each_item s ≡ is = cc in rw (← same) (closed v _ s e')

  compile_object-closed :
      (is_object : Bool) (obj : Map Value) (path : String) (part : List String × SchemaProperties)
      → compile_object true compile is_object obj path ≡ ok part
      → NodeClosed is_object part.0 (keys (properties_list part.1)) × PropertiesClosed part.1
  unfolding compile_object keys
  compile_object-closed false obj path part h =
      let same : ◌≡◌ {A = List String × SchemaProperties} ([], no_property) part = cc in
      rw (← same) (refl, tt)
  compile_object-closed true obj path part h =
      let (props, e0, h0) = >>=-eq-ok (ok_or (get "properties" obj >>? as_object) _) _ h in
      let (values, e1, h1) = >>=-eq-ok (ok_or (get "required" obj >>? as_array) _) _ h0 in
      let (names, e2, h2) = >>=-eq-ok (required_names values path) _ h1 in
      let (u3, e3, h3) = >>=-eq-ok (fail_if (rejects_required true names props) _) _ h2 in
      let (u4, e4, h4) =
        >>=-eq-ok (fail_if (not (is_false (get "additionalProperties" obj))) _) _ h3 in
      let (ps, e5, h5) = >>=-eq-ok (compile_properties compile props path) _ h4 in
      let (a, b) = compile_properties-closed props path ps e5 in
      let same : ◌≡◌ {A = List String × SchemaProperties} (set_of names, ps) part = cc in
      rw (← same) (rw b (All-rejects_required names props (fail_if-eq-ok _ _ e3)), a)

IsClosed-intro :
    (n : SchemaNode) (ps : SchemaProperties) (is : SchemaItems) (s : CompiledSchema)
    (kind : SchemaKind) (required : List String)
    → s ≡ schema n ps is
    → n.kind ≡ kind
    → n.required ≡ required
    → NodeClosed (is_object_kind kind) required (keys (properties_list ps))
    → PropertiesClosed ps
    → ItemsClosed is
    → IsClosed s
IsClosed-intro n ps is s kind required same same_kind same_required a b c =
    rw (same, same_kind, same_required) (a, b, c)

module _ (engine : RegexEngine) where
  -- What the last part leaves of the kind, the required names, the properties, the items and the schema
  -- that it publishes.
  pub compile_rest-eq-ok :
      (kind : SchemaKind) (name : String) (obj : Map Value) (path : String) (required : List String)
      (ps : SchemaProperties) (lo hi : Option ℕ) (is : SchemaItems) (s : CompiledSchema)
      → compile_rest engine kind name obj path required ps lo hi is ≡ ok s
      → (n : SchemaNode) × (s ≡ schema n ps is)
        × (n.kind ≡ kind)
        × (n.required ≡ required)
        × (n.public_json ≡ public_schema engine kind name obj required)
  unfolding compile_rest
  compile_rest-eq-ok kind name obj path required ps lo hi is s h =
      let (a, _, h0) = >>=-eq-ok (usize_value (get "minLength" obj) path "minLength") _ h in
      let (b, _, h1) = >>=-eq-ok (usize_value (get "maxLength" obj) path "maxLength") _ h0 in
      let (_, _, h2) = >>=-eq-ok (fail_if (above a b) _) _ h1 in
      let (c, _, h3) = >>=-eq-ok (numeric_bound (get "minimum" obj) path "minimum" kind) _ h2 in
      let (d, _, h4) = >>=-eq-ok (numeric_bound (get "maximum" obj) path "maximum" kind) _ h3 in
      let (_, _, h5) = >>=-eq-ok (fail_if (exceeds_bound c d) _) _ h4 in
      let (e, _, h6) = >>=-eq-ok (compile_enum kind (get "enum" obj) path) _ h5 in
      let (f, _, h7) = >>=-eq-ok (compile_pattern engine (get "pattern" obj) path) _ h6 in
      (_, sym (ok-injective h7), refl, refl, refl)

  module _ (compile : Value → String → Checked CompiledSchema)
      (closed : (v : Value) (path : String) (s : CompiledSchema)
        → compile v path ≡ ok s
        → IsClosed s) where
    compile_body-IsClosed :
        (kind : SchemaKind) (name : String) (obj : Map Value) (path : String) (s : CompiledSchema)
        → compile_body engine true compile kind name obj path ≡ ok s
        → IsClosed s
    unfolding compile_body
    compile_body-IsClosed kind name obj path s h =
        let (part, e0, h0) =
          >>=-eq-ok (compile_object true compile (is_object_kind kind) obj path) _ h in
        let (lo, _, h1) = >>=-eq-ok (usize_value (get "minItems" obj) path "minItems") _ h0 in
        let (hi, _, h2) = >>=-eq-ok (usize_value (get "maxItems" obj) path "maxItems") _ h1 in
        let (_, _, h3) = >>=-eq-ok (fail_if (above lo hi) _) _ h2 in
        let (_, _, h4) = >>=-eq-ok (fail_if (over_array_limit lo || over_array_limit hi) _) _ h3 in
        let (is, e5, h5) = >>=-eq-ok (compile_items compile (is_array_kind kind) obj path) _ h4 in
        let (n, same, same_kind, same_required, _) =
          compile_rest-eq-ok kind name obj path part.0 part.1 lo hi is s h5 in
        let (a, b) = compile_object-closed compile closed (is_object_kind kind) obj path part e0 in
        IsClosed-intro n part.1 is s kind part.0 same same_kind same_required a b
          (compile_items-closed compile closed (is_array_kind kind) obj path is e5)

  compile_at-IsClosed :
      (left : ℕ) (value : Value) (path : String) (root : Bool) (s : CompiledSchema)
      → compile_at engine true left value path root ≡ ok s
      → IsClosed s
  unfolding compile_at
  compile_at-IsClosed zero value path root s h = cc
  compile_at-IsClosed (suc left) value path root s h =
      let (head, _, h0) = >>=-eq-ok (compile_head value path root) _ h in
      compile_body-IsClosed _ (λ v p t. compile_at-IsClosed left v p false t) head.kind head.name
        head.obj path s h0

-- Whatever the regex engine, the schema text and the depth: if `compile_schema` succeeds, then in the
-- compiled schema, at every level, only object schemas declare properties and every declared property
-- is required.
pub compile_schema-IsClosed :
    (engine : RegexEngine) (value : Value) (path : String) (root : Bool) (depth : ℕ)
    (s : CompiledSchema)
    → compile_schema engine value path root depth ≡ ok s
    → IsClosed s
unfolding compile_schema
compile_schema-IsClosed engine value path root depth s h =
    compile_at-IsClosed engine (suc max_schema_depth - depth) value path root s h
