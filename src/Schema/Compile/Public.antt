-- ===== src/Schema/Compile/Public.antt =====
-- The schema that a compiled schema publishes: the properties of its text.
use agent_capability_gate.Prelude.{
  ℕ, zero, suc, ◌-◌, String, ◌≡◌, refl, Bool, false, ◌||◌, some, List, Map, get, insert,
  get-insert_other, ok, >>=-eq-ok, fail_if, ok_or, ok_or-eq-ok, option_map, map, ok-injective, not,
  ◌&&◌, find, keys, Bool-cases, inl, inr,
}
use agent_capability_gate.Json.{Value, bool, string, as_object, as_str, get_field, ◌>>?◌, of_list}
use agent_capability_gate.Json.Canonical.{get_field-canonical_map}
use agent_capability_gate.Json.Limits.{canonicalize, max_schema_depth}
use agent_capability_gate.Diagnostics.{Checked, reject_found}
use agent_capability_gate.Schema.{
  SchemaKind, CompiledSchema, node_of, is_object_kind, is_array_kind,
}
use agent_capability_gate.Schema.Regex.{RegexEngine}
use agent_capability_gate.Schema.Keywords.{validate_schema_keyword_applicability, usize_value}
use agent_capability_gate.Schema.Compile.{
  listed, schema_keywords, Head, schema_kind, public_schema, compile_object, compile_items,
  compile_head, compile_body, compile_at, compile_schema_permissive, above, over_array_limit,
}
use agent_capability_gate.Schema.Compile.Closed.{compile_rest-eq-ok}

module _ (engine : RegexEngine) where
  get_field-public_schema :
      (kind : SchemaKind) (name : String) (obj : Map Value) (required : List String)
      → get_field "properties" (public_schema engine kind name obj required)
        ≡ option_map canonicalize (get "properties" obj)
  unfolding public_schema
  get_field-public_schema kind name obj required =
      let here = get-insert_other "type" "properties" (string name) obj refl in
      let closed = insert "additionalProperties" (bool false) (insert "type" (string name) obj) in
      elim (Bool-cases (is_object_kind kind)) [
        | inl object_kind ↦
            rw
              (
                object_kind,
                get_field-canonical_map "properties"
                    (insert "required" (of_list (map string required)) closed),
                get-insert_other "required" "properties" (of_list (map string required)) closed
                    refl,
                get-insert_other "additionalProperties" "properties" (bool false)
                    (insert "type" (string name) obj) refl,
                here,
              )
              refl
        | inr other ↦
            rw (other, get_field-canonical_map "properties" (insert "type" (string name) obj), here)
              refl
      ]

  compile_body-public_json :
      (strict : Bool) (compile : Value → String → Checked CompiledSchema) (kind : SchemaKind)
      (name : String) (obj : Map Value) (path : String) (s : CompiledSchema)
      → compile_body engine strict compile kind name obj path ≡ ok s
      → get_field "properties" (node_of s).public_json
        ≡ option_map canonicalize (get "properties" obj)
  unfolding compile_body
  compile_body-public_json strict compile kind name obj path s h =
      let (part, e0, h0) =
        >>=-eq-ok (compile_object strict compile (is_object_kind kind) obj path) _ h in
      let (lo, _, h1) = >>=-eq-ok (usize_value (get "minItems" obj) path "minItems") _ h0 in
      let (hi, _, h2) = >>=-eq-ok (usize_value (get "maxItems" obj) path "maxItems") _ h1 in
      let (_, _, h3) = >>=-eq-ok (fail_if (above lo hi) _) _ h2 in
      let (_, _, h4) = >>=-eq-ok (fail_if (over_array_limit lo || over_array_limit hi) _) _ h3 in
      let (is, e5, h5) = >>=-eq-ok (compile_items compile (is_array_kind kind) obj path) _ h4 in
      let (n, same, _, _, public) =
        compile_rest-eq-ok engine kind name obj path part.0 part.1 lo hi is s h5 in
      rw (same, public) (get_field-public_schema kind name obj part.0)

  -- The object that the head keeps is the value's own.
  compile_head-eq-ok :
      (value : Value) (path : String) (root : Bool) (head : Head)
      → compile_head value path root ≡ ok head
      → as_object value ≡ some head.obj
  unfolding compile_head
  compile_head-eq-ok value path root head h =
      let (obj, e, h0) = >>=-eq-ok (ok_or (as_object value) _) _ h in
      let (_, _, h1) =
        >>=-eq-ok (reject_found (find (λ key. not (listed key schema_keywords)) (keys obj)) _ _) _
          h0 in
      let (name, _, h2) = >>=-eq-ok (ok_or (get "type" obj >>? as_str) _) _ h1 in
      let (kind, _, h3) = >>=-eq-ok (schema_kind name path) _ h2 in
      let (_, _, h4) = >>=-eq-ok (fail_if (root && not (is_object_kind kind)) _) _ h3 in
      let (_, _, h5) = >>=-eq-ok (validate_schema_keyword_applicability obj kind path) _ h4 in
      rw (← ok-injective h5) (ok_or-eq-ok _ _ e)

  compile_at-public_json :
      (strict : Bool) (left : ℕ) (value : Value) (path : String) (root : Bool) (s : CompiledSchema)
      → compile_at engine strict left value path root ≡ ok s
      → get_field "properties" (node_of s).public_json
        ≡ option_map canonicalize (get_field "properties" value)
  unfolding compile_at
  compile_at-public_json strict zero value path root s h = cc
  compile_at-public_json strict (suc left) value path root s h =
      let (head, e, h0) = >>=-eq-ok (compile_head value path root) _ h in
      rw (compile_head-eq-ok value path root head e)
        (compile_body-public_json strict _ head.kind head.name head.obj path s h0)

  -- The schema published for a compiled schema has the properties of the text, in canonical form.
  pub compile_schema_permissive-public_json :
      (value : Value) (path : String) (root : Bool) (depth : ℕ) (s : CompiledSchema)
      → compile_schema_permissive engine value path root depth ≡ ok s
      → get_field "properties" (node_of s).public_json
        ≡ option_map canonicalize (get_field "properties" value)
  unfolding compile_schema_permissive
  compile_schema_permissive-public_json value path root depth s h =
      compile_at-public_json false (suc max_schema_depth - depth) value path root s h
