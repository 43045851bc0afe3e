-- ===== src/Config/Rules.antt =====
-- `validate_restriction_constraint` and `validate_v3_property_rules` of crates/core/src/lib.rs.
pub mod Distinct
use agent_capability_gate.Prelude.{
  ℕ, ◌*◌, ◌+◌, String, len, ◌==◌, Bool, true, false, not, ◌&&◌, ◌||◌, Option, none, some, List, [],
  ◌∷◌, any, find, length, eqb, ltb, Map, get, contains_key, insert, remove, keys, is_some, ok,
  ◌>>=◌, ◌>>◌, fail_if, ok_or, if◌then◌else◌,
}
use agent_capability_gate.Json.{
  Value, bool, as_object, as_array, as_str, as_number, value_eq, get_field, is_some_and, of_map,
  ◌>>?◌,
}
use agent_capability_gate.Json.Numbers.{as_u64}
use agent_capability_gate.Json.Limits.{value_exceeds_depth, contains_nul}
use agent_capability_gate.Diagnostics.{Checked, invalid, reject_found, ◌/+◌}
use agent_capability_gate.Schema.Regex.{RegexEngine}
use agent_capability_gate.Config.{McpPropertyRuleV3, expose, fixed, omit}
use agent_capability_gate.Config.Checks.{validate_id}

abbrev listed : List String → String → Bool
listed names key = any (λ name. name == key) names

-- The first key that is not allowed.
abbrev unlisted : List String → Map Value → Option String
unlisted names obj = find (λ key. not (listed names key)) (keys obj)

abbrev constraint_keywords : List String
constraint_keywords =
    "description" ∷ "enum" ∷ "minimum" ∷ "maximum" ∷ "minLength" ∷ "maxLength" ∷ "pattern" ∷ []

-- A keyword that is there and whose value fails the test.
abbrev refuse : Map Value → String → (Value → Bool) → String → String → Checked (Unit {0})
refuse obj key test path message =
    fail_if (is_some_and (get key obj) (λ v. not (test v))) (invalid (path /+ key) message)

unfoldable pub validate_restriction_constraint : Value → String → Checked (Unit {0})
validate_restriction_constraint value path = do
  obj ← ok_or (as_object value) (invalid path "restriction constraint must be object")
  reject_found (unlisted constraint_keywords obj) path "unsupported restriction constraint"
  refuse obj "description" (λ v. is_some (as_str v)) path "must be a string"
  refuse obj "enum" (λ v. is_some (as_array v)) path "must be an array"
  refuse obj "minimum" (λ v. is_some (as_number v)) path "must be number"
  refuse obj "maximum" (λ v. is_some (as_number v)) path "must be number"
  refuse obj "minLength" (λ v. is_some (as_number v >>? as_u64)) path "must be a positive integer"
  refuse obj "maxLength" (λ v. is_some (as_number v >>? as_u64)) path "must be a positive integer"
  refuse obj "pattern" (λ v. is_some (as_str v)) path "must be string"

abbrev rule_keywords : List String
rule_keywords =
    "fixed" ∷ "omit" ∷ "required" ∷ "description" ∷ "enum" ∷ "minimum" ∷ "maximum" ∷ "minLength"
    ∷ "maxLength" ∷ "pattern" ∷ []

abbrev pub beyond_limits : Value → Bool
beyond_limits v = value_exceeds_depth v 1 || contains_nul v

module _ (engine : RegexEngine) where
  -- A rule with `fixed`.
  fixed_rule : Map Value → Value → String → Checked McpPropertyRuleV3
  fixed_rule obj value path = do
    fail_if (not (eqb (length obj) 1))
        (invalid path "fixed cannot be combined with another property rule")
    fail_if (beyond_limits value) (invalid (path /+ "fixed") "fixed value exceeds value limits")
    ok (fixed value)

  -- A rule with `omit`.
  omit_rule : Map Value → Value → String → Checked McpPropertyRuleV3
  omit_rule obj value path = do
    fail_if (not (value_eq value (bool true)) || not (eqb (length obj) 1))
        (invalid path "omit must be true and cannot be combined with another property rule")
    ok omit

  unusable_pattern : Option String → Bool
  unusable_pattern pattern =
      is_some_and pattern (λ p. ltb (16 * 1024) (len p) || not (engine.builds p))

  -- A rule of constraints.
  expose_rule : Map Value → String → Checked McpPropertyRuleV3
  unfolding unusable_pattern
  expose_rule obj path = do
    fail_if (is_some_and (get "required" obj) (λ v. not (value_eq v (bool true))))
        (invalid (path /+ "required") "only required: true is supported")
    let constraints = of_map (remove "required" obj)
    validate_restriction_constraint constraints path
    fail_if (beyond_limits constraints) (invalid path "property constraints exceed value limits")
    fail_if (unusable_pattern (get_field "pattern" constraints >>? as_str)) (
        invalid (path /+ "pattern")
          "pattern is not supported by the linear regex engine or exceeds compiled size limit")
    ok (expose constraints (contains_key "required" obj))

  rule_of : Option Value → Option Value → Map Value → String → Checked McpPropertyRuleV3
  unfolding fixed_rule omit_rule expose_rule
  rule_of (some value) o obj path = fixed_rule obj value path
  rule_of none (some value) obj path = omit_rule obj value path
  rule_of none none obj path = expose_rule obj path

  unfoldable pub validate_rule : Value → String → Checked McpPropertyRuleV3
  unfolding rule_of
  validate_rule value path = do
    obj ← ok_or (as_object value) (invalid path "property rule must be an object")
    reject_found (unlisted rule_keywords obj) path "unsupported property rule"
    rule_of (get "fixed" obj) (get "omit" obj) obj path

  -- The loop over the rules, with those it has inserted.
  unfoldable pub validate_rules :
      Map Value → Map McpPropertyRuleV3 → String → Checked (Map McpPropertyRuleV3)
  unfolding validate_rule
  validate_rules [] rules path = ok rules
  validate_rules ((name, value) ∷ rest) rules path = do
    validate_id name path
    rule ← validate_rule value (path /+ name)
    validate_rules rest (insert name rule rules) path

  unfoldable pub validate_v3_property_rules : Map Value → String → Checked (Map McpPropertyRuleV3)
  unfolding validate_rules
  validate_v3_property_rules raw path = validate_rules raw [] path
