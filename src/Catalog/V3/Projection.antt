-- ===== src/Catalog/V3/Projection.antt =====
-- What the projection of a target's tools leaves in the version-3 catalog.
use agent_capability_gate.Prelude.{
  String, ◌==◌, ◌≡◌, refl, ap, ◌∙◌, Bool, true, false, not, Option, none, some, List, [], ◌∷◌,
  filter, All, Map, get, insert, values, get-insert, get-retain, get-none_of_contains_key,
  DistinctKeys, or_else, Result, ok, err, Bool-cases, inl, inr, if◌then◌else◌,
}
use agent_capability_gate.Json.{Value, is_some_and}
use agent_capability_gate.Schema.Regex.{RegexEngine}
use agent_capability_gate.Config.{McpExposureV3, ValidatedConfig}
use agent_capability_gate.Exposure.Project.{V3ProjectionIssue, derive_v3_public_tool}
use agent_capability_gate.Catalog.V3.{
  ListedToolState, ready, Listed, of_target, list_each, projected, project, project_or_unavailable,
  project_or_blocked, blocked_state, unavailable_state, replace_target_projection,
}

-- Every exposure stands under its public name.
abbrev pub Keyed : Map McpExposureV3 → Type 0
Keyed m = DistinctKeys m × All (λ e. e.1.public_name ≡ e.0) m

-- What is listed for an exposure, if it is one of the target.
abbrev pub listed_for :
    (McpExposureV3 → ListedToolState) → String → Option McpExposureV3 → Option ListedToolState
listed_for state target_id none = none
listed_for state target_id (some e) = if e.target_id == target_id then some (state e) else none

module _ (state : McpExposureV3 → ListedToolState) (t : String) (e : McpExposureV3) where
  placed :
      (same : Bool) (o : Option McpExposureV3) (x : Option ListedToolState)
      → (same ≡ true → o ≡ none)
      → (e.target_id == t) ≡ true
      → or_else (listed_for state t o) (if same then some (state e) else x)
        ≡ or_else (listed_for state t (if same then some e else o)) x
  placed true o x only here = rw (only refl, here) refl
  placed false o x only here = refl

  passed :
      (same : Bool) (o : Option McpExposureV3) (x : Option ListedToolState)
      → (same ≡ true → o ≡ none)
      → (e.target_id == t) ≡ false
      → or_else (listed_for state t o) x
        ≡ or_else (listed_for state t (if same then some e else o)) x
  passed true o x only other = rw (only refl, other) refl
  passed false o x only other = refl

filter-true :
    {A : Type 0} (p : A → Bool) (x : A) (xs : List A)
    → p x ≡ true
    → filter p (x ∷ xs) ≡ x ∷ filter p xs
filter-true p x xs h = rw (filter, h) refl

filter-false :
    {A : Type 0} (p : A → Bool) (x : A) (xs : List A)
    → p x ≡ false
    → filter p (x ∷ xs) ≡ filter p xs
filter-false p x xs h = rw (filter, h) refl

pub get-list_each :
    (state : McpExposureV3 → ListedToolState) (t name : String) (m : Map McpExposureV3)
    (tools : Listed)
    → Keyed m
    → get name (list_each state (of_target t (values m)) tools)
      ≡ or_else (listed_for state t (get name m)) (get name tools)
unfolding get values list_each
get-list_each state t name [] tools h = refl
get-list_each state t name ((k, e) ∷ m) tools ((fresh, d), (named, ns)) =
    let only = λ (same : (k == name) ≡ true). get-none_of_contains_key k name m fresh same in
    elim (Bool-cases (e.target_id == t)) [
      | inl here ↦
          ap (λ l. get name (list_each state l tools))
            (filter-true (λ x. x.target_id == t) e (values m) here)
          ∙ get-list_each state t name m (insert e.public_name (state e) tools) (d, ns)
          ∙ ap (or_else (listed_for state t (get name m))) (
              get-insert e.public_name name (state e) tools
              ∙ ap (λ j. if j == name then some (state e) else get name tools) named)
          ∙ placed state t e (k == name) (get name m) (get name tools) only here
      | inr other ↦
          ap (λ l. get name (list_each state l tools))
            (filter-false (λ x. x.target_id == t) e (values m) other)
          ∙ get-list_each state t name m tools (d, ns)
          ∙ passed state t e (k == name) (get name m) (get name tools) only other
    ]

projected-eq-ready :
    (e : McpExposureV3) (r : Result V3ProjectionIssue Value) (tool : Value)
    → projected e r ≡ ready tool
    → r ≡ ok tool
unfolding projected blocked_state
projected-eq-ready e (ok t) tool h = cc
projected-eq-ready e (err reason) tool h = cc

-- What is kept of the tools before is what is not listed anew.
kept :
    (state : McpExposureV3 → ListedToolState) (t : String) (o : Option McpExposureV3)
    (x : Option ListedToolState)
    → or_else
        (listed_for state t o)
        (if not (is_some_and o (λ e. e.target_id == t)) then x else none)
      ≡ or_else (listed_for state t o) x
kept state t none x = refl
kept state t (some e) x = elim (Bool-cases (e.target_id == t)) [
  | inl here ↦ rw here refl
  | inr other ↦ rw other refl
]

module _ (engine : RegexEngine) where
  -- A tool that is listed as ready was derived from an upstream tool.
  project-eq-ready :
      (e : McpExposureV3) (upstream tool : Value)
      → project engine e upstream ≡ ready tool
      → derive_v3_public_tool engine e upstream ≡ ok tool
  unfolding project
  project-eq-ready e upstream tool h =
      projected-eq-ready e (derive_v3_public_tool engine e upstream) tool h

  pub project_or_blocked-eq-ready :
      (e : McpExposureV3) (o : Option Value) (tool : Value)
      → project_or_blocked engine e o ≡ ready tool
      → (upstream : Value) × (o ≡ some upstream)
        × (derive_v3_public_tool engine e upstream ≡ ok tool)
  unfolding project_or_blocked blocked_state
  project_or_blocked-eq-ready e none tool h = cc
  project_or_blocked-eq-ready e (some upstream) tool h =
      (upstream, refl, project-eq-ready e upstream tool h)

  pub project_or_unavailable-eq-ready :
      (e : McpExposureV3) (o : Option Value) (tool : Value)
      → project_or_unavailable engine e o ≡ ready tool
      → (upstream : Value) × (o ≡ some upstream)
        × (derive_v3_public_tool engine e upstream ≡ ok tool)
  unfolding project_or_unavailable unavailable_state
  project_or_unavailable-eq-ready e none tool h = cc
  project_or_unavailable-eq-ready e (some upstream) tool h =
      (upstream, refl, project-eq-ready e upstream tool h)

  -- In a configuration whose exposures stand under their public names: after
  -- `replace_target_projection`, an exposure of the target is listed by what the upstream definitions give
  -- for it, and every other name is listed as before.
  pub get-replace_target_projection :
      (config : ValidatedConfig) (target_id name : String) (upstream : Map Value) (tools : Listed)
      → Keyed config.v3_exposures
      → get name (replace_target_projection engine config target_id upstream tools)
        ≡ or_else
            (listed_for
              (λ e. project_or_blocked engine e (get e.upstream_tool upstream))
              target_id
              (get name config.v3_exposures))
            (get name tools)
  unfolding replace_target_projection
  get-replace_target_projection config t name upstream tools keyed =
      get-list_each (λ e. project_or_blocked engine e (get e.upstream_tool upstream)) t name
        config.v3_exposures _ keyed
      ∙ ap
          (or_else (
            listed_for (λ e. project_or_blocked engine e (get e.upstream_tool upstream)) t
              (get name config.v3_exposures)))
          (get-retain (λ k. not (is_some_and (get k config.v3_exposures) (λ e. e.target_id == t)))
            name tools)
      ∙ kept _ t (get name config.v3_exposures) (get name tools)
