-- ===== src/Exposure/Restrict/Total.antt =====
-- `derive_restricted_public_tool` ends without a panic.
use agent_capability_gate.Prelude.{
  String, ◌==◌, ◌≡◌, ◌≢◌, refl, true, false, not, Option, none, some, List, [], ◌∷◌, ◌++◌, All,
  All-append, any, filter, find-eq-none, Map, get, contains_key, keys, get-some_of_contains_key,
  true_of_not, set_contains, insert, Result, ok, err, ok_or, fail_if,
}
use agent_capability_gate.Json.{Value, string, as_object, as_str, of_map, ◌>>?◌}
use agent_capability_gate.Json.Limits.{canonicalize}
use agent_capability_gate.Pointer.{escape_ptr}
use agent_capability_gate.Diagnostics.{reject_found, ◌/+◌}
use agent_capability_gate.Schema.{node_of}
use agent_capability_gate.Schema.Regex.{RegexEngine}
use agent_capability_gate.Schema.Compile.{compile_schema_permissive}
use agent_capability_gate.Schema.Validate.{validate_value}
use agent_capability_gate.Faults.{
  Fault, panicked, lift, lift-eq-ok, unwrap, NoPanic, NoPanic-bind, NoPanic-lift,
  ne_panicked_of_NoPanic,
}
use agent_capability_gate.Config.{McpRestriction, McpExposure, McpExposureMode, proxy, restriction}
use agent_capability_gate.Exposure.Intersect.{intersect_property_schema}
use agent_capability_gate.Exposure.V2.{reject_first}
use agent_capability_gate.Exposure.Restrict.{
  bounded, foreign, unsatisfied, check_fixed_values, public_inputs, restricted_text, restrict_v2,
  derive_restricted_public_tool,
}

reject_found-eq-ok :
    (o : Option String) (path message : String) (u : Unit {0})
    → reject_found o path message ≡ ok u
    → o ≡ none
reject_found-eq-ok none path message u h = refl
reject_found-eq-ok (some k) path message u h = cc

Declared : Map Value → List String → Type 0
Declared properties ks = All (λ k. not (contains_key k properties) ≡ false) ks

NoPanic-unwrap-get :
    (k : String) (m : Map Value) → not (contains_key k m) ≡ false → NoPanic (unwrap (get k m))
NoPanic-unwrap-get k m h =
    let (v, found) = get-some_of_contains_key k m (true_of_not _ h) in rw found tt

module _ (engine : RegexEngine) where
  check_fixed_values-NoPanic :
      (rest properties : Map Value)
      → Declared properties (keys rest)
      → NoPanic (check_fixed_values engine rest properties)
  unfolding check_fixed_values keys Declared
  check_fixed_values-NoPanic [] properties d = tt
  check_fixed_values-NoPanic ((key, value) ∷ rest) properties (here, d) =
      NoPanic-bind (unwrap (get key properties)) _ (NoPanic-unwrap-get key properties here) λ p e.
        NoPanic-bind
          (lift (
            compile_schema_permissive engine p ("/tool/inputSchema/properties" /+ escape_ptr key)
              false 2))
          _ (NoPanic-lift _)
          λ c e1.
            NoPanic-bind (lift (reject_first (validate_value engine c value ("/fixed" /+ key) [])))
              _ (NoPanic-lift _) λ u e2. check_fixed_values-NoPanic rest properties d

  public_inputs-NoPanic :
      (rest properties done : Map Value)
      → Declared properties (keys rest)
      → NoPanic (public_inputs engine rest properties done)
  unfolding public_inputs keys Declared
  public_inputs-NoPanic [] properties done d = tt
  public_inputs-NoPanic ((key, constraint) ∷ rest) properties done (here, d) =
      NoPanic-bind (unwrap (get key properties)) _ (NoPanic-unwrap-get key properties here) λ p e.
        NoPanic-bind
          (lift (intersect_property_schema engine p constraint ("/restrict/inputs" /+ key))) _
          (NoPanic-lift _)
          λ shown e1. public_inputs-NoPanic rest properties (insert key shown done) d

  restrict_v2-NoPanic :
      (r : McpRestriction) (input_schema : Value) (result : Map Value)
      → NoPanic (restrict_v2 engine r input_schema result)
  unfolding restrict_v2 Declared
  restrict_v2-NoPanic r s result =
      NoPanic-bind (lift (compile_schema_permissive engine s "/tool/inputSchema" true 1)) _
        (NoPanic-lift _)
        λ up e. NoPanic-bind (lift (ok_or (as_object s) _)) _ (NoPanic-lift _) λ obj e1.
          NoPanic-bind (lift (ok_or (get "properties" obj >>? as_object) _)) _ (NoPanic-lift _)
            λ ps e2.
              NoPanic-bind (lift (reject_found (foreign r ps) _ _)) _ (NoPanic-lift _) λ u e3.
                let declared =
                  find-eq-none (λ k. not (contains_key k ps)) (keys r.inputs ++ keys r.fixed)
                    (reject_found-eq-ok _ _ _ u (lift-eq-ok _ u e3)) in
                let (inputs, fixed) =
                  All-append (λ k. not (contains_key k ps) ≡ false) (keys r.inputs) (keys r.fixed)
                    declared in
                NoPanic-bind (lift (reject_found (unsatisfied r (node_of up).required) _ _)) _
                  (NoPanic-lift _)
                  λ u4 e4.
                    NoPanic-bind
                      (lift (
                        fail_if
                          (any (λ key. not (set_contains key (node_of up).required))
                            (keys r.inputs))
                          _))
                      _ (NoPanic-lift _)
                      λ u5 e5.
                        NoPanic-bind (check_fixed_values engine r.fixed ps) _
                          (check_fixed_values-NoPanic r.fixed ps fixed)
                          λ u6 e6.
                            NoPanic-bind (public_inputs engine r.inputs ps []) _
                              (public_inputs-NoPanic r.inputs ps [] inputs)
                              λ shown e7.
                                NoPanic-bind
                                  (lift (
                                    compile_schema_permissive engine
                                      (restricted_text shown (
                                        filter (λ key. contains_key key r.inputs)
                                          (node_of up).required))
                                      "/tool/inputSchema" true 1))
                                  _ (NoPanic-lift _) (λ c e8. tt)

  by_mode :
      (mode : McpExposureMode) (input_schema : Value) (result : Map Value)
      → NoPanic (elim mode as (λ x. Result Fault Value) [
        | proxy ↦ ok (canonicalize (of_map result))
        | restriction r ↦ restrict_v2 engine r input_schema result
      ])
  by_mode proxy input_schema result = tt
  by_mode (restriction r) input_schema result = restrict_v2-NoPanic r input_schema result

  derive_restricted_public_tool-NoPanic :
      (exposure : McpExposure) (upstream_tool : Value)
      → NoPanic (derive_restricted_public_tool engine exposure upstream_tool)
  unfolding derive_restricted_public_tool
  derive_restricted_public_tool-NoPanic exposure upstream_tool =
      NoPanic-bind (lift (ok_or (as_object upstream_tool) _)) _ (NoPanic-lift _) λ tool e.
        NoPanic-bind (lift (ok_or (get "name" tool >>? as_str) _)) _ (NoPanic-lift _) λ name e1.
          NoPanic-bind (lift (fail_if (not (name == exposure.upstream_tool)) _)) _ (NoPanic-lift _)
            λ u e2.
              NoPanic-bind (lift (ok_or (get "inputSchema" tool) _)) _ (NoPanic-lift _) λ s e3.
                NoPanic-bind (lift (fail_if (not (bounded s)) _)) _ (NoPanic-lift _) λ u4 e4.
                  by_mode exposure.mode s (insert "name" (string exposure.public_name) tool)

  -- Whatever the exposure and the upstream tool, `derive_restricted_public_tool` ends in a public tool or a
  -- diagnostic: each property that it takes with `unwrap` is in the upstream schema.
  pub derive_restricted_public_tool-ne-panicked :
      (exposure : McpExposure) (upstream_tool : Value)
      → derive_restricted_public_tool engine exposure upstream_tool ≢ err panicked
  derive_restricted_public_tool-ne-panicked exposure upstream_tool =
      ne_panicked_of_NoPanic (derive_restricted_public_tool engine exposure upstream_tool)
        (derive_restricted_public_tool-NoPanic exposure upstream_tool)
