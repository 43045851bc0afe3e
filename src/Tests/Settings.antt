-- ===== src/Tests/Settings.antt =====
-- Settings of a configuration at concrete inputs.
use agent_capability_gate.Prelude.{
  ◌≡◌, refl, String, none, some, [], ◌∷◌, ok, Map, false, get, contains_key, keys, insert,
  set_contains, set_insert, DistinctKeys,
}
use agent_capability_gate.Json.{Value, string, of_map}
use agent_capability_gate.Json.Limits.{value_exceeds_depth, contains_nul}
use agent_capability_gate.Config.{McpPropertyRuleV3, fixed}
use agent_capability_gate.Config.Checks.{
  RawTargetLimits, validate_id, validate_limits, validate_environment, validate_env_name,
}
use agent_capability_gate.Config.Rules.{validate_v3_property_rules}
use agent_capability_gate.Config.Rules.Distinct.{validate_v3_property_rules-DistinctKeys}
use agent_capability_gate.Tests.Samples.{plain_engine}

abbrev limits : RawTargetLimits
limits = record {
  timeout_ms = 5000;
  stdout_bytes = some 65536;
  output_bytes = none;
  stderr_bytes = 4096;
}

accepts_limits : validate_limits limits "/limits" false ≡ ok tt
unfolding validate_limits
accepts_limits = refl

abbrev raw_rules : Map Value
raw_rules = ("repo", of_map (("fixed", string "gate") ∷ [])) ∷ []

abbrev sample_rules : Map McpPropertyRuleV3
sample_rules = ("repo", fixed (string "gate")) ∷ []

accepts_rules : validate_v3_property_rules plain_engine raw_rules "" ≡ ok sample_rules
unfolding validate_v3_property_rules validate_id get keys contains_key insert value_exceeds_depth
    contains_nul
accepts_rules = refl

validate_v3_property_rules-DistinctKeys_example :
    DistinctKeys sample_rules
    × ((k : String) → contains_key k sample_rules ≡ contains_key k raw_rules)
unfolding contains_key
validate_v3_property_rules-DistinctKeys_example =
    validate_v3_property_rules-DistinctKeys plain_engine raw_rules "" sample_rules (refl, tt)
      accepts_rules

-- The inherited names are sorted and their values captured.
captures_environment :
    validate_environment
      (record { inherit = "PATH" ∷ "HOME" ∷ []; set = ("LANG", "C") ∷ [] })
      (("HOME", "/root") ∷ ("PATH", "/bin") ∷ [])
      ""
    ≡ ok (record {
      inherit = "HOME" ∷ "PATH" ∷ [];
      inherited_values = ("HOME", "/root") ∷ ("PATH", "/bin") ∷ [];
      set = ("LANG", "C") ∷ [];
    })
unfolding validate_environment validate_env_name get contains_key insert set_contains set_insert
captures_environment = refl
