-- ===== src/Exposure/Project/Hidden.antt =====
-- The properties of a public tool that `derive_v3_public_tool` derives.
use agent_capability_gate.Prelude.{
  String, ◌==◌, ◌≡◌, refl, sym, Bool, true, false, ◌&&◌, ◌||◌, Option, none, some, List, [], ◌∷◌,
  Map, get, contains_key, ok, >>=-eq-ok, ok_or, ok_or-eq-ok, fail_if, ok-injective,
  contains_key-insert, get-insert_other, contains_key-eq-is_some, or_else, if◌then◌else◌, arith,
  Bool-cases, Option-cases, inl, inr, eq_iff, get-insert, get-none_of_contains_key, set_contains,
  subst,
}
use agent_capability_gate.Json.{
  Value, null, bool, number, string, array, object, as_object, get_field, of_map, of_list, ◌>>?◌,
}
use agent_capability_gate.Schema.Regex.{RegexEngine}
use agent_capability_gate.Config.{McpPropertyRuleV3, expose, fixed, omit, McpRestrictionV3}
use agent_capability_gate.Exposure.Project.{
  Projection, Projected, expose_property, check_fixed, or_insert, close_object, usable,
  filter_usable, schema_source, rule_for, project_property, project_properties,
}

abbrev is_expose : Option McpPropertyRuleV3 → Bool
is_expose (some (expose c r)) = true
is_expose _ = false

-- Whether a property is shown to clients, by the rule that is listed for it and the flag for unlisted ones.
abbrev shows : Option McpPropertyRuleV3 → Bool → Bool
shows (some (expose c r)) unlisted = true
shows (some (fixed v)) unlisted = false
shows (some omit) unlisted = false
shows none unlisted = unlisted

-- Whether a restriction shows a property of the upstream tool to clients: it lists the property with an
-- `expose` rule, or it does not list the property and exposes unlisted ones.
abbrev pub is_exposed : McpRestrictionV3 → String → Bool
is_exposed r k = shows (get k r.properties) r.expose_unlisted_properties

is_expose-rule_for : (r : McpRestrictionV3) (k : String) → is_expose (rule_for r k) ≡ is_exposed r k
unfolding rule_for
is_expose-rule_for r k = by_rule (get k r.properties) r.expose_unlisted_properties
  where
    by_rule :
        (o : Option McpPropertyRuleV3) (unlisted : Bool)
        → is_expose (elim o [
          | some rule ↦ some rule
          | none ↦ if unlisted then some (expose (of_map []) false) else none
        ])
          ≡ shows o unlisted
    by_rule (some (expose c required)) unlisted = refl
    by_rule (some (fixed v)) unlisted = refl
    by_rule (some omit) unlisted = refl
    by_rule none true = refl
    by_rule none false = refl

unchanged :
    (done next : Projected) (name k : String)
    → ◌≡◌ {A = Projection Projected} (ok done) (ok next)
    → contains_key k next.properties ≡ (name == k && false || contains_key k done.properties)
unchanged done next name k h = rw (← ok-injective h) (ground arith)

-- The text that the public schema is compiled from has the projected properties.
get-closed :
    (o : Option Value) (m source : Map Value)
    → close_object o m ≡ ok source
    → get "properties" source ≡ get "properties" m
unfolding close_object
get-closed none m source h =
    rw (← ok-injective h) (get-insert_other "additionalProperties" "properties" (bool false) m refl)
get-closed (some (bool true)) m source h =
    rw (← ok-injective h) (get-insert_other "additionalProperties" "properties" (bool false) m refl)
get-closed (some (bool false)) m source h = rw (← ok-injective h) refl
get-closed (some null) m source h = cc
get-closed (some (number n)) m source h = cc
get-closed (some (string t)) m source h = cc
get-closed (some (array vs)) m source h = cc
get-closed (some (object fs)) m source h = cc

or_else-none : {A : Type 0} (o : Option A) → or_else o none ≡ o
or_else-none none = refl
or_else-none (some a) = refl

get-or_insert :
    (j k : String) (v : Value) (m : Map Value)
    → get k (or_insert j v m) ≡ or_else (get k m) (if j == k then some v else none)
get-or_insert j k v m = elim (Bool-cases (contains_key j m)) [
  | inl present ↦ elim (Option-cases (get k m)) [
    | inl missing ↦
        let other : (j == k) ≡ false = ground (arith, eq_iff j k, contains_key-eq-is_some j m) in
        rw (present, missing, other) refl
    | inr (w, found) ↦ rw (present, found) refl
  ]
  | inr absent ↦
      rw (absent, get-insert j k v m)
        (elim (Bool-cases (j == k)) [
          | inl same ↦ rw (same, get-none_of_contains_key j k m absent same) refl
          | inr other ↦ rw other (sym (or_else-none (get k m)))
        ])
]

filter_usable-eq-some : (o : Option Value) (v : Value) → filter_usable o ≡ some v → o ≡ some v
filter_usable-eq-some none v h = cc
filter_usable-eq-some (some w) v h = elim (Bool-cases (usable w)) [
  | inl fits ↦ rw fits at h
  | inr unfit ↦ absurd (cc (rw unfit at h))
]

-- The properties that the upstream tool declares; none if its schema has no `properties`.
abbrev pub declared_properties : Map Value → Option (Map Value)
declared_properties tool =
    or_else (get "inputSchema" tool >>? get_field "properties") (some (of_map [])) >>? as_object

pub schema_source-properties :
    (tool source : Map Value)
    → schema_source tool ≡ ok source
    → (get "properties" source >>? as_object) ≡ declared_properties tool
unfolding schema_source
schema_source-properties tool source h =
    let (input, e, h0) = >>=-eq-ok (ok_or (filter_usable (get "inputSchema" tool)) _) _ h in
    let (obj, e1, h1) = >>=-eq-ok (ok_or (as_object input) _) _ h0 in
    let with_properties = or_insert "properties" (of_map []) obj in
    let with_required = or_insert "required" (of_list []) with_properties in
    let closed = get-closed (get "additionalProperties" with_required) with_required source h1 in
    let given = filter_usable-eq-some _ input (ok_or-eq-ok _ _ e) in
    let object_there = ok_or-eq-ok _ _ e1 in
    rw
      (
        closed,
        get-or_insert "required" "properties" (of_list []) with_properties,
        get-or_insert "properties" "properties" (of_map []) obj,
        given,
        object_there,
        or_else-none (or_else (get "properties" obj) (some (of_map []))),
      )
      refl

module _ (engine : RegexEngine) where
  contains_key-project_property :
      (rule : Option McpPropertyRuleV3) (requires : Bool) (name : String) (property : Value)
      (done next : Projected) (k : String)
      → project_property engine rule requires name property done ≡ ok next
      → contains_key k next.properties
        ≡ (name == k && is_expose rule || contains_key k done.properties)
  unfolding project_property
  contains_key-project_property none requires name property done next k h =
      let (u, _, h0) = >>=-eq-ok (fail_if requires _) _ h in unchanged done next name k h0
  contains_key-project_property (some (expose c r)) requires name property done next k h =
      let (public, e, h0) = >>=-eq-ok (expose_property engine name property c) _ h in
      let entry = contains_key-insert name k public done.properties in
      rw (← ok-injective h0) (ground (arith, entry))
  contains_key-project_property (some (fixed v)) requires name property done next k h =
      let (u, _, h0) = >>=-eq-ok (check_fixed engine name property v) _ h in
      unchanged done next name k h0
  contains_key-project_property (some omit) requires name property done next k h =
      let (u, _, h0) = >>=-eq-ok (fail_if requires _) _ h in unchanged done next name k h0

  pub contains_key-project_properties :
      (r : McpRestrictionV3) (required : List String) (rest : Map Value) (done out : Projected)
      (k : String)
      → project_properties engine r required rest done ≡ ok out
      → contains_key k out.properties
        ≡ (contains_key k rest && is_exposed r k || contains_key k done.properties)
  unfolding project_properties contains_key
  contains_key-project_properties r required [] done out k h = rw (← ok-injective h) refl
  contains_key-project_properties r required ((name, property) ∷ rest) done out k h =
      let (next, e, h0) =
        >>=-eq-ok
          (project_property engine (rule_for r name) (set_contains name required) name property
            done)
          _ h in
      let here =
        contains_key-project_property (rule_for r name) (set_contains name required) name property
          done next k e in
      let later = contains_key-project_properties r required rest next out k h0 in
      elim (Bool-cases (name == k)) [
        | inl same ↦
            let moved =
              subst (λ j. is_expose (rule_for r name) ≡ is_exposed r j) ((eq_iff name k).0 same)
                (is_expose-rule_for r name) in
            ground (arith, here, later, moved)
        | inr other ↦ ground (arith, here, later)
      ]
