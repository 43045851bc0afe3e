-- ===== src/Exposure/V2/Forwarded.antt =====
-- What `resolve_v2_mcp` forwards to the upstream server.
use agent_capability_gate.Prelude.{
  String, ◌==◌, ◌≡◌, refl, true, false, not, ◌||◌, some, [], ◌∷◌, All, any, any-not, any-eq-false,
  Map, get, contains_key, keys, insert, ok, >>=-eq-ok, ok_or, fail_if, fail_if-eq-ok, DistinctKeys,
  or_else, get-insert, get-none_of_contains_key, Bool-cases, inl, inr, All-get, ok-injective, sym,
  true_of_not, or_false, if◌then◌else◌, ap,
}
use agent_capability_gate.Json.{Value, as_object, get_field, of_map, ◌>>?◌}
use agent_capability_gate.Schema.{CompiledSchema}
use agent_capability_gate.Schema.Regex.{RegexEngine}
use agent_capability_gate.Schema.Compile.{compile_schema_permissive}
use agent_capability_gate.Schema.Validate.{validate_input}
use agent_capability_gate.Schema.Validate.Conforms.{Conforms}
use agent_capability_gate.Schema.Validate.Conforms.Exact.{validate_input_iff}
use agent_capability_gate.Faults.{
  lift, lift-eq-ok, lift-ok_or-eq-ok, first_issue, accepted_of_first_issue,
}
use agent_capability_gate.Config.{
  UpstreamMcpTarget, McpRestriction, McpExposureMode, proxy, restriction, McpExposure,
  ValidatedConfig, ResolvedMcpInvocation,
}
use agent_capability_gate.Exposure.{has_name, upstream_call}
use agent_capability_gate.Exposure.V2.{
  mismatched, insert_fixed_v2, check_inputs, forward_v2, resolve_v2_mcp,
}

get-insert_fixed_v2 :
    (rest : Map Value) (arguments m : Map Value) (forwarded : Map Value)
    → DistinctKeys rest
    → insert_fixed_v2 rest arguments m ≡ ok forwarded
    → All (λ k. contains_key k arguments ≡ false) (keys rest)
      × ((k : String) → get k forwarded ≡ or_else (get k rest) (get k m))
unfolding insert_fixed_v2 get keys
get-insert_fixed_v2 [] arguments m forwarded d h = (tt, λ k. ap (get k) (sym (ok-injective h)))
get-insert_fixed_v2 ((j, v) ∷ rest) arguments m forwarded (fresh, d) h =
    let (u, e, h0) = >>=-eq-ok (fail_if (contains_key j arguments) _) _ h in
    let (absent, later) = get-insert_fixed_v2 rest arguments (insert j v m) forwarded d h0 in
    ((fail_if-eq-ok _ _ e, absent), λ k. at_key k (later k))
  where
    at_key :
        (k : String)
        → get k forwarded ≡ or_else (get k rest) (get k (insert j v m))
        → get k forwarded ≡ or_else (if j == k then some v else get k rest) (get k m)
    at_key k later = elim (Bool-cases (j == k)) [
      | inl same ↦
          let gone = get-none_of_contains_key j k rest fresh same in
          rw (later, gone, get-insert j k v m, same) refl
      | inr other ↦ rw (later, get-insert j k v m, other) refl
    ]

-- The public properties are the inputs of the restriction, and none of them is fixed.
abbrev pub Matches : McpRestriction → Map Value → Type 0
Matches r properties =
    All (λ k. contains_key k r.inputs ≡ true) (keys properties)
    × All (λ k. contains_key k properties ≡ true) (keys r.inputs)
    × All (λ k. contains_key k properties ≡ false) (keys r.fixed)

mismatched-Matches :
    (r : McpRestriction) (properties : Map Value)
    → mismatched r properties ≡ false
    → Matches r properties
unfolding mismatched
mismatched-Matches r properties h =
    let undeclared = any (λ key. not (contains_key key r.inputs)) (keys properties) in
    let missing = any (λ key. not (contains_key key properties)) (keys r.inputs) in
    let (h0, clash) = or_false (undeclared || missing) _ h in
    let (no_undeclared, none_missing) = or_false undeclared missing h0 in
    (
      any-not (λ k. contains_key k r.inputs) (keys properties) no_undeclared,
      any-not (λ k. contains_key k properties) (keys r.inputs) none_missing,
      any-eq-false (λ k. contains_key k properties) (keys r.fixed) clash,
    )

-- No two values for one property.
abbrev pub DistinctFixed : McpExposureMode → Type 0
DistinctFixed proxy = Unit
DistinctFixed (restriction r) = DistinctKeys r.fixed

module _ (engine : RegexEngine) where
  -- The arguments that a call may forward, by the mode of its exposure. A proxy forwards those given. A
  -- restriction has a public schema with exactly its inputs and none of its fixed values, the given
  -- arguments conform to that schema and name no fixed value, and each key has the fixed value or else
  -- the given one.
  abbrev pub ForwardsV2 : McpExposureMode → Value → Map Value → Map Value → Type 0
  ForwardsV2 proxy public_tool given forwarded = forwarded ≡ given
  ForwardsV2 (restriction r) public_tool given forwarded =
      (schema_json : Value) × (compiled : CompiledSchema) × (properties : Map Value) × (get_field
          "inputSchema" public_tool
        ≡ some schema_json)
      × (compile_schema_permissive engine schema_json "/tool/inputSchema" true 1 ≡ ok compiled)
      × ((get_field "properties" schema_json >>? as_object) ≡ some properties)
      × Conforms engine compiled (of_map given)
      × Matches r properties
      × All (λ k. contains_key k given ≡ false) (keys r.fixed)
      × ((k : String) → get k forwarded ≡ or_else (get k r.fixed) (get k given))

  forward_v2-ForwardsV2 :
      (mode : McpExposureMode) (public_tool : Value) (given forwarded : Map Value)
      → DistinctFixed mode
      → forward_v2 engine mode public_tool given ≡ ok forwarded
      → ForwardsV2 mode public_tool given forwarded
  unfolding forward_v2
  forward_v2-ForwardsV2 proxy public_tool given forwarded d h = sym (ok-injective h)
  forward_v2-ForwardsV2 (restriction r) public_tool given forwarded d h =
      let (s, e, h0) = >>=-eq-ok (lift (ok_or (get_field "inputSchema" public_tool) _)) _ h in
      let (c, e1, h1) =
        >>=-eq-ok (lift (compile_schema_permissive engine s "/tool/inputSchema" true 1)) _ h0 in
      let (u, e2, h2) = >>=-eq-ok (first_issue (validate_input engine c (of_map given))) _ h1 in
      let (ps, e3, h3) = >>=-eq-ok (lift (ok_or (get_field "properties" s >>? as_object) _)) _ h2 in
      let (u4, e4, h4) = >>=-eq-ok (lift (fail_if (mismatched r ps) _)) _ h3 in
      let (u5, e5, h5) = >>=-eq-ok (lift (check_inputs engine r.inputs ps given)) _ h4 in
      let (absent, at) =
        get-insert_fixed_v2 r.fixed given given forwarded d (lift-eq-ok _ forwarded h5) in
      (
        s,
        c,
        ps,
        lift-ok_or-eq-ok _ _ s e,
        lift-eq-ok _ c e1,
        lift-ok_or-eq-ok _ _ ps e3,
        (validate_input_iff engine c (of_map given)).0 (accepted_of_first_issue _ u e2),
        mismatched-Matches r ps (fail_if-eq-ok _ _ (lift-eq-ok _ u4 e4)),
        absent,
        at,
      )

-- Over exposures that fix each property once: if `resolve_v2_mcp` returns an invocation, it is the call, on
-- the target of the exposure with that name, of the exposure's own upstream tool, the public tool has that
-- name, and the arguments are forwarded as `ForwardsV2` says.
pub resolve_v2_mcp-ForwardsV2 :
    (engine : RegexEngine) (config : ValidatedConfig) (name : String)
    (public_tool arguments : Value) (invocation : ResolvedMcpInvocation)
    → All (λ e. DistinctFixed e.1.mode) config.v2_exposures
    → resolve_v2_mcp engine config name public_tool arguments ≡ ok invocation
    → (exposure : McpExposure) × (target : UpstreamMcpTarget) × (given : Map Value)
      × (forwarded : Map Value) × (get name config.v2_exposures ≡ some exposure)
      × (get exposure.target_id config.upstream_targets ≡ some target)
      × (has_name name public_tool ≡ true)
      × (as_object arguments ≡ some given)
      × (invocation ≡ upstream_call target exposure.upstream_tool forwarded)
      × ForwardsV2 engine exposure.mode public_tool given forwarded
unfolding resolve_v2_mcp
resolve_v2_mcp-ForwardsV2 engine config name public_tool arguments invocation distinct h =
    let (exposure, e, h0) = >>=-eq-ok (lift (ok_or (get name config.v2_exposures) _)) _ h in
    let (target, e1, h1) =
      >>=-eq-ok (lift (ok_or (get exposure.target_id config.upstream_targets) _)) _ h0 in
    let (given, e2, h2) = >>=-eq-ok (lift (ok_or (as_object arguments) _)) _ h1 in
    let (u, e3, h3) = >>=-eq-ok (lift (fail_if (not (has_name name public_tool)) _)) _ h2 in
    let (forwarded, e4, h4) = >>=-eq-ok (forward_v2 engine exposure.mode public_tool given) _ h3 in
    let found = lift-ok_or-eq-ok _ _ exposure e in
    (
      exposure,
      target,
      given,
      forwarded,
      found,
      lift-ok_or-eq-ok _ _ target e1,
      true_of_not _ (fail_if-eq-ok _ _ (lift-eq-ok _ u e3)),
      lift-ok_or-eq-ok _ _ given e2,
      sym (ok-injective h4),
      forward_v2-ForwardsV2 engine exposure.mode public_tool given forwarded
          (All-get (λ x. DistinctFixed x.mode) name config.v2_exposures distinct found) e4,
    )
