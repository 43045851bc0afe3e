-- ===== src/Config/Rules/Distinct.antt =====
-- The rules that `validate_v3_property_rules` returns name each property once.
use agent_capability_gate.Prelude.{
  String, ◌==◌, ◌≡◌, refl, subst, true, false, ◌||◌, [], ◌∷◌, Map, contains_key, insert,
  contains_key-insert, DistinctKeys, DistinctKeys-insert, eq_refl, Bool-cases, inl, inr, ok,
  >>=-eq-ok, ok-injective, arith, eq_iff,
}
use agent_capability_gate.Json.{Value}
use agent_capability_gate.Diagnostics.{◌/+◌}
use agent_capability_gate.Schema.Regex.{RegexEngine}
use agent_capability_gate.Config.{McpPropertyRuleV3}
use agent_capability_gate.Config.Checks.{validate_id}
use agent_capability_gate.Config.Rules.{validate_rule, validate_rules, validate_v3_property_rules}

-- Each name of the rest is new to the rules that the loop has.
abbrev Fresh : Map Value → Map McpPropertyRuleV3 → Type 0
Fresh rest rules = (k : String) → contains_key k rest ≡ true → contains_key k rules ≡ false

module _ (engine : RegexEngine) where
  validate_rules-DistinctKeys :
      (rest : Map Value) (rules out : Map McpPropertyRuleV3) (path : String)
      → DistinctKeys rest
      → DistinctKeys rules
      → Fresh rest rules
      → validate_rules engine rest rules path ≡ ok out
      → DistinctKeys out
        × ((k : String) → contains_key k out ≡ (contains_key k rest || contains_key k rules))
  unfolding validate_rules contains_key
  validate_rules-DistinctKeys [] rules out path d d' fresh h =
      (rw (← ok-injective h) d', λ k. rw (← ok-injective h) refl)
  validate_rules-DistinctKeys ((name, value) ∷ rest) rules out path (new, d) d' fresh h =
      let (_, _, h0) = >>=-eq-ok (validate_id name path) _ h in
      let (rule, _, h1) = >>=-eq-ok (validate_rule engine value (path /+ name)) _ h0 in
      let unused = fresh name (ground (arith, eq_refl name)) in
      let (distinct, at) =
        validate_rules-DistinctKeys rest (insert name rule rules) out path d
          (DistinctKeys-insert name rule rules unused d') (λ k later. still_fresh rule k later)
          h1 in
      (distinct, λ k. ground (arith, at k, contains_key-insert name k rule rules))
    where
      still_fresh :
          (rule : McpPropertyRuleV3) (k : String)
          → contains_key k rest ≡ true
          → contains_key k (insert name rule rules) ≡ false
      still_fresh rule k later = elim (Bool-cases (name == k)) [
        | inl same ↦
            let moved = subst (λ j. contains_key j rest ≡ false) ((eq_iff name k).0 same) new in
            absurd (cc (later, moved))
        | inr other ↦
            let not_yet = fresh k (ground (arith, later)) in
            ground (arith, contains_key-insert name k rule rules, not_yet)
      ]

-- If `validate_v3_property_rules` accepts raw rules, no two of them for one property, then what it returns
-- has exactly one rule for each property that has a raw rule, and no other.
pub validate_v3_property_rules-DistinctKeys :
    (engine : RegexEngine) (raw : Map Value) (path : String) (rules : Map McpPropertyRuleV3)
    → DistinctKeys raw
    → validate_v3_property_rules engine raw path ≡ ok rules
    → DistinctKeys rules × ((k : String) → contains_key k rules ≡ contains_key k raw)
unfolding validate_v3_property_rules contains_key
validate_v3_property_rules-DistinctKeys engine raw path rules d h =
    let (distinct, at) =
      validate_rules-DistinctKeys engine raw [] rules path d tt (λ k later. refl) h in
    (distinct, λ k. ground (arith, at k))
