-- ===== src/Exposure/Project/Exposed.antt =====
-- Which properties the public tool of a version-3 exposure has.
use agent_capability_gate.Prelude.{
  String, ◌≡◌, refl, sym, ap, Bool, true, false, not, ◌&&◌, ◌||◌, Option, none, some, List, [], Map,
  get, contains_key, keys, find, insert, ◌∙◌, ok, >>=-eq-ok, ok_or, ok_or-eq-ok, fail_if,
  replace_err, replace_err-eq-ok, ok-injective, get-insert_other, contains_key-eq-is_some,
  option_map, is_some, get-insert, arith,
}
use agent_capability_gate.Json.{
  Value, string, as_object, get_field, of_map, ◌>>?◌, fields, of_fields,
}
use agent_capability_gate.Json.Limits.{canonicalize, canonicalize_fields}
use agent_capability_gate.Json.Canonical.{
  get_field-canonicalize, get_field-of_map, get_field-canonical_map, canonicalize_idem,
}
use agent_capability_gate.Schema.{node_of}
use agent_capability_gate.Schema.Regex.{RegexEngine}
use agent_capability_gate.Schema.Compile.{compile_schema_permissive}
use agent_capability_gate.Schema.Compile.Public.{compile_schema_permissive-public_json}
use agent_capability_gate.Config.{McpRestrictionV3, McpExposureV3}
use agent_capability_gate.Exposure.{has_name}
use agent_capability_gate.Exposure.Project.{
  Projected, schema_source, project_properties, public_text, with_description, restrict_tool,
  derive_v3_public_tool,
}
use agent_capability_gate.Exposure.Project.Hidden.{
  is_exposed, declared_properties, schema_source-properties, contains_key-project_properties,
}

is_some-option_map :
    {A B : Type 0} (f : A → B) (o : Option A) → is_some (option_map f o) ≡ is_some o
is_some-option_map f none = refl
is_some-option_map f (some a) = refl

-- The keys of an object in canonical form.
contains_key-canonical :
    (k : String) (m : Map Value)
    → contains_key k (fields (canonicalize_fields (of_fields m))) ≡ contains_key k m
unfolding canonicalize
contains_key-canonical k m =
    let at_key : get k (fields (canonicalize_fields (of_fields m)))
        ≡ option_map canonicalize (get k m) =
      get_field-canonical_map k m in
    rw
      (
        contains_key-eq-is_some k (fields (canonicalize_fields (of_fields m))),
        at_key,
        is_some-option_map canonicalize (get k m),
        contains_key-eq-is_some k m,
      )
      refl

get-with_description :
    (d : Option String) (v : Value) (m : Map Value)
    → get "inputSchema" (with_description d (insert "inputSchema" v m)) ≡ some v
get-with_description none v m = get-insert "inputSchema" "inputSchema" v m
get-with_description (some text) v m =
    rw (get-insert_other "description" "inputSchema" (string text) (insert "inputSchema" v m) refl)
      (get-insert "inputSchema" "inputSchema" v m)

shown :
    (d : Option String) (v : Value) (m : Map Value) (public_tool : Value)
    → canonicalize (of_map (with_description d (insert "inputSchema" v m))) ≡ public_tool
    → get_field "inputSchema" public_tool ≡ some (canonicalize v)
shown d v m public_tool h =
    rw
      (
        ← h,
        get_field-canonical_map "inputSchema" (with_description d (insert "inputSchema" v m)),
        get-with_description d v m,
      )
      refl

text-properties :
    (p : Projected) → get_field "properties" (public_text p) ≡ some (of_map p.properties)
unfolding get
text-properties p = rw (get_field-of_map "properties" _) refl

module _ (engine : RegexEngine) where
  -- The public tool has an input schema, and a property of the upstream tool is a property of that schema
  -- exactly if the restriction exposes it.
  abbrev pub ShowsExposed : McpRestrictionV3 → Map Value → Value → Type 0
  ShowsExposed r tool public_tool =
      (schema_json : Value) × (declared : Map Value) × (properties : Map Value) × (get_field
          "inputSchema" public_tool
        ≡ some schema_json)
      × (declared_properties tool ≡ some declared)
      × ((get_field "properties" schema_json >>? as_object) ≡ some properties)
      × ((k : String) → contains_key k properties ≡ (contains_key k declared && is_exposed r k))

  published :
      (p : Projected) (schema_json : Value)
      → get_field "properties" schema_json
        ≡ option_map canonicalize (get_field "properties" (public_text p))
      → (get_field "properties" (canonicalize schema_json) >>? as_object)
        ≡ some (fields (canonicalize_fields (of_fields p.properties)))
  unfolding canonicalize
  published p schema_json h =
      rw (get_field-canonicalize "properties" schema_json, h, text-properties p)
        (ap as_object (canonicalize_idem (of_map p.properties)))

  exposed_keys :
      (r : McpRestrictionV3) (required : List String) (declared : Map Value) (p : Projected)
      (k : String)
      → project_properties engine r required declared (record { properties = []; required = [] })
        ≡ ok p
      → contains_key k (fields (canonicalize_fields (of_fields p.properties)))
        ≡ (contains_key k declared && is_exposed r k)
  unfolding contains_key
  exposed_keys r required declared p k h =
      contains_key-canonical k p.properties
      ∙ at_end (contains_key k declared) (is_exposed r k) (
          contains_key-project_properties engine r required declared
            (record { properties = []; required = [] }) p k h)
    where
      at_end : {b : Bool} (c d : Bool) → b ≡ (c && d || false) → b ≡ (c && d)
      at_end c d h = ground (arith, h)

  restrict_tool-ShowsExposed :
      (exposure : McpExposureV3) (r : McpRestrictionV3) (tool result : Map Value)
      (public_tool : Value)
      → restrict_tool engine exposure r tool result ≡ ok public_tool
      → ShowsExposed r tool public_tool
  unfolding restrict_tool
  restrict_tool-ShowsExposed exposure r tool result public_tool h =
      let (source, e, h0) = >>=-eq-ok (schema_source tool) _ h in
      let (up, _, h1) =
        >>=-eq-ok
          (replace_err (compile_schema_permissive engine (of_map source) "/tool/inputSchema" true 1)
            _)
          _ h0 in
      let (properties, e2, h2) = >>=-eq-ok (ok_or (get "properties" source >>? as_object) _) _ h1 in
      let (_, _, h3) =
        >>=-eq-ok
          (fail_if (is_some (find (λ name. not (contains_key name properties)) (keys r.properties)))
            _)
          _ h2 in
      let start : Projected = record { properties = []; required = [] } in
      let (p, e4, h4) =
        >>=-eq-ok (project_properties engine r (node_of up).required properties start) _ h3 in
      let (cs, e5, h5) =
        >>=-eq-ok
          (replace_err (compile_schema_permissive engine (public_text p) "/tool/inputSchema" true 1)
            _)
          _ h4 in
      let pj = (node_of cs).public_json in
      let public_properties =
        compile_schema_permissive-public_json engine (public_text p) "/tool/inputSchema" true 1 cs
          (replace_err-eq-ok _ _ e5) in
      let at_source = ok_or-eq-ok _ _ e2 in
      (
        canonicalize pj,
        properties,
        fields (canonicalize_fields (of_fields p.properties)),
        shown exposure.description pj result public_tool (ok-injective h5),
        sym (schema_source-properties tool source e) ∙ at_source,
        published p pj public_properties,
        λ k. exposed_keys r (node_of up).required properties p k e4,
      )

-- If `derive_v3_public_tool` derives a public tool for an exposure with a restriction, then the upstream
-- tool is an object, and a key is a property of the public input schema exactly if the upstream tool
-- declares it as a property and the restriction exposes it, by an `expose` rule or, for a property
-- without a rule, by `expose_unlisted_properties`.
pub derive_v3_public_tool-ShowsExposed :
    (engine : RegexEngine) (exposure : McpExposureV3) (r : McpRestrictionV3)
    (upstream_tool public_tool : Value)
    → exposure.restriction ≡ some r
    → derive_v3_public_tool engine exposure upstream_tool ≡ ok public_tool
    → (tool : Map Value) × (as_object upstream_tool ≡ some tool)
      × ShowsExposed engine r tool public_tool
unfolding derive_v3_public_tool
derive_v3_public_tool-ShowsExposed engine exposure r upstream_tool public_tool restricted h =
    let (tool, e, h0) = >>=-eq-ok (ok_or (as_object upstream_tool) _) _ h in
    let (_, _, h1) =
      >>=-eq-ok (fail_if (not (has_name exposure.upstream_tool upstream_tool)) _) _ h0 in
    (
      tool,
      ok_or-eq-ok _ _ e,
      restrict_tool-ShowsExposed engine exposure r tool
          (insert "name" (string exposure.public_name) tool) public_tool (rw restricted at h1),
    )
