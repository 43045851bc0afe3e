-- ===== src/Exposure/V3/Forwarded.antt =====
-- What `resolve_v3_mcp` forwards to the upstream server.
use agent_capability_gate.Prelude.{
  String, ◌==◌, ◌≡◌, refl, Bool, true, false, not, Option, none, some, [], ◌∷◌, All, Map, get,
  contains_key, insert, retain, ok, >>=-eq-ok, ok_or, fail_if, DistinctKeys, or_else, get-insert,
  get-retain, get-none_of_contains_key, Bool-cases, inl, inr, if◌then◌else◌, All-get, ok-injective,
  fail_if-eq-ok, sym, true_of_not,
}
use agent_capability_gate.Json.{Value, as_object, get_field, of_map, ◌>>?◌}
use agent_capability_gate.Schema.{CompiledSchema}
use agent_capability_gate.Schema.Regex.{RegexEngine}
use agent_capability_gate.Schema.Compile.{compile_schema_permissive}
use agent_capability_gate.Schema.Validate.{validate_input}
use agent_capability_gate.Schema.Validate.Conforms.{Conforms}
use agent_capability_gate.Schema.Validate.Conforms.Exact.{validate_input_iff}
use agent_capability_gate.Faults.{
  lift, lift-eq-ok, lift-ok_or-eq-ok, first_issue, accepted_of_first_issue,
}
use agent_capability_gate.Config.{
  UpstreamMcpTarget, McpPropertyRuleV3, expose, fixed, omit, McpRestrictionV3, McpExposureV3,
  ValidatedConfig, ResolvedMcpInvocation,
}
use agent_capability_gate.Exposure.{has_name, upstream_call}
use agent_capability_gate.Exposure.V3.{insert_fixed, forward_v3, resolve_v3_mcp}

-- The value that a rule fixes.
abbrev rule_value : McpPropertyRuleV3 → Option Value
rule_value (fixed v) = some v
rule_value (expose c r) = none
rule_value omit = none

-- The value that the rules fix for a property.
abbrev pub fixed_value : String → Map McpPropertyRuleV3 → Option Value
fixed_value k rules = get k rules >>? rule_value

-- A rule that fixes no value.
fixed_value-skip :
    (j k : String) (r : McpPropertyRuleV3) (rules : Map McpPropertyRuleV3)
    → rule_value r ≡ none
    → contains_key j rules ≡ false
    → fixed_value k ((j, r) ∷ rules) ≡ fixed_value k rules
unfolding get
fixed_value-skip j k r rules free fresh = elim (Bool-cases (j == k)) [
  | inl same ↦ let gone = get-none_of_contains_key j k rules fresh same in rw (gone, same) free
  | inr other ↦ rw other refl
]

get-insert_fixed :
    (rules : Map McpPropertyRuleV3) (k : String) (m : Map Value)
    → DistinctKeys rules
    → get k (insert_fixed rules m) ≡ or_else (fixed_value k rules) (get k m)
unfolding insert_fixed get
get-insert_fixed [] k m d = refl
get-insert_fixed ((j, fixed v) ∷ rules) k m (fresh, d) =
    let later = get-insert_fixed rules k (insert j v m) d in
    let here = get-insert j k v m in
    elim (Bool-cases (j == k)) [
      | inl same ↦
          let gone = get-none_of_contains_key j k rules fresh same in
          rw (later, gone, here, same) refl
      | inr other ↦ rw (later, here, other) refl
    ]
get-insert_fixed ((j, expose c r) ∷ rules) k m (fresh, d) =
    rw (fixed_value-skip j k (expose c r) rules refl fresh) (get-insert_fixed rules k m d)
get-insert_fixed ((j, omit) ∷ rules) k m (fresh, d) =
    rw (fixed_value-skip j k omit rules refl fresh) (get-insert_fixed rules k m d)

-- No two rules for one property.
abbrev pub DistinctRules : Option McpRestrictionV3 → Type 0
DistinctRules none = Unit
DistinctRules (some restriction) = DistinctKeys restriction.properties

module _ (engine : RegexEngine) where
  -- The arguments that a call may forward, by the restriction of its exposure. Without one they are those
  -- given. With one, the given arguments conform to the schema of the public tool, and each key has the
  -- value that the rules fix, or else the given value if the public schema has the property.
  abbrev pub Forwards : Option McpRestrictionV3 → Value → Map Value → Map Value → Type 0
  Forwards none public_tool given forwarded = forwarded ≡ given
  Forwards (some restriction) public_tool given forwarded =
      (schema_json : Value) × (compiled : CompiledSchema) × (properties : Map Value) × (get_field
          "inputSchema" public_tool
        ≡ some schema_json)
      × (compile_schema_permissive engine schema_json "/tool/inputSchema" true 1 ≡ ok compiled)
      × ((get_field "properties" schema_json >>? as_object) ≡ some properties)
      × Conforms engine compiled (of_map given)
      × ((k : String)
          → get k forwarded
            ≡ or_else (fixed_value k restriction.properties)
                (if contains_key k properties then get k given else none))

  forward_v3-Forwards :
      (r : Option McpRestrictionV3) (public_tool : Value) (given forwarded : Map Value)
      → DistinctRules r
      → forward_v3 engine r public_tool given ≡ ok forwarded
      → Forwards r public_tool given forwarded
  unfolding forward_v3
  forward_v3-Forwards none public_tool given forwarded d h = cc
  forward_v3-Forwards (some r) public_tool given forwarded d h =
      let (s, e, h0) = >>=-eq-ok (lift (ok_or (get_field "inputSchema" public_tool) _)) _ h in
      let (c, e1, h1) =
        >>=-eq-ok (lift (compile_schema_permissive engine s "/tool/inputSchema" true 1)) _ h0 in
      let (u, e2, h2) = >>=-eq-ok (first_issue (validate_input engine c (of_map given))) _ h1 in
      let (ps, e3, h3) = >>=-eq-ok (lift (ok_or (get_field "properties" s >>? as_object) _)) _ h2 in
      let kept : String → Bool = λ key. contains_key key ps in
      (
        s,
        c,
        ps,
        lift-ok_or-eq-ok _ _ s e,
        lift-eq-ok _ c e1,
        lift-ok_or-eq-ok _ _ ps e3,
        (validate_input_iff engine c (of_map given)).0 (accepted_of_first_issue _ u e2),
        λ k.
            rw
              (
                ← ok-injective h3,
                get-insert_fixed r.properties k (retain kept given) d,
                get-retain kept k given,
              )
              refl,
      )

-- Over exposures whose rules name each property once: if `resolve_v3_mcp` returns an invocation, it is the
-- call, on the target of the exposure with that name, of the exposure's own upstream tool, the public tool
-- has that name, and the arguments are forwarded as `Forwards` says.
pub resolve_v3_mcp-Forwards :
    (engine : RegexEngine) (config : ValidatedConfig) (name : String)
    (public_tool arguments : Value) (invocation : ResolvedMcpInvocation)
    → All (λ e. DistinctRules e.1.restriction) config.v3_exposures
    → resolve_v3_mcp engine config name public_tool arguments ≡ ok invocation
    → (exposure : McpExposureV3) × (target : UpstreamMcpTarget) × (given : Map Value)
      × (forwarded : Map Value) × (get name config.v3_exposures ≡ some exposure)
      × (get exposure.target_id config.upstream_targets ≡ some target)
      × (has_name name public_tool ≡ true)
      × (as_object arguments ≡ some given)
      × (invocation ≡ upstream_call target exposure.upstream_tool forwarded)
      × Forwards engine exposure.restriction public_tool given forwarded
unfolding resolve_v3_mcp
resolve_v3_mcp-Forwards engine config name public_tool arguments invocation distinct h =
    let (exposure, e, h0) = >>=-eq-ok (lift (ok_or (get name config.v3_exposures) _)) _ h in
    let (target, e1, h1) =
      >>=-eq-ok (lift (ok_or (get exposure.target_id config.upstream_targets) _)) _ h0 in
    let (u, e2, h2) = >>=-eq-ok (lift (fail_if (not (has_name name public_tool)) _)) _ h1 in
    let (given, e3, h3) = >>=-eq-ok (lift (ok_or (as_object arguments) _)) _ h2 in
    let (forwarded, e4, h4) =
      >>=-eq-ok (forward_v3 engine exposure.restriction public_tool given) _ h3 in
    let found = lift-ok_or-eq-ok _ _ exposure e in
    (
      exposure,
      target,
      given,
      forwarded,
      found,
      lift-ok_or-eq-ok _ _ target e1,
      true_of_not _ (fail_if-eq-ok _ _ (lift-eq-ok _ u e2)),
      lift-ok_or-eq-ok _ _ given e3,
      sym (ok-injective h4),
      forward_v3-Forwards engine exposure.restriction public_tool given forwarded
          (All-get (λ e. DistinctRules e.restriction) name config.v3_exposures distinct found) e4,
    )
