-- ===== src/Catalog/V3/Faithful.antt =====
-- What holds of the tools that the version-3 catalog lists, from its first listing on.
use agent_capability_gate.Prelude.{
  String, ◌==◌, ◌≡◌, refl, sym, ap, ◌∙◌, eq_iff, Bool, true, false, ◌||◌, Option, none, some, List,
  [], ◌∷◌, any, All-map, All-get, Map, get, keys, values, contains_key, is_some, or_else,
  or_default, ok, Bool-cases, Option-cases, ◌⊎◌, inl, inr, arith, eq_of_some-eq, if◌then◌else◌,
}
use agent_capability_gate.Json.{Value}
use agent_capability_gate.Schema.Regex.{RegexEngine}
use agent_capability_gate.Config.{McpExposureV3, ValidatedConfig}
use agent_capability_gate.Exposure.Project.{derive_v3_public_tool}
use agent_capability_gate.Raw.Validate.WellFormed.{WellFormed}
use agent_capability_gate.Catalog.V3.{
  ListedToolState, ready, Listed, of_target, list_each, project_or_unavailable, project_or_blocked,
  replace_target_projection, initial_tools,
}
use agent_capability_gate.Catalog.V3.Projection.{
  Keyed, listed_for, get-list_each, get-replace_target_projection, project_or_blocked-eq-ready,
  project_or_unavailable-eq-ready,
}

module _ (engine : RegexEngine) (config : ValidatedConfig) where
  -- The tool was derived for the exposure of that name from an upstream tool.
  abbrev pub Derived : String → Value → Type 0
  Derived name tool =
      (e : McpExposureV3) × (upstream : Value) × (get name config.v3_exposures ≡ some e)
      × (derive_v3_public_tool engine e upstream ≡ ok tool)

  -- The names that are listed are those of the exposures, and what is ready was derived.
  pub record Faithful (tools : Listed) : Type 0 where
    pub covers : (name : String) → is_some (get name tools) ≡ is_some (get name config.v3_exposures)
    pub derived :
        (name : String) (tool : Value) → get name tools ≡ some (ready tool) → Derived name tool

  Keyed-of_WellFormed : WellFormed config → Keyed config.v3_exposures
  Keyed-of_WellFormed w = (
    w.v3_fit.0,
    All-map _ (λ e. e.1.public_name ≡ e.0) config.v3_exposures (λ e fits. fits.0) w.v3_fit.1,
  )

  -- A state that is ready in a listing for an exposure.
  listed_for-eq-ready :
      (state : McpExposureV3 → ListedToolState) (target_id : String) (o : Option McpExposureV3)
      (before : Option ListedToolState) (tool : Value)
      → or_else (listed_for state target_id o) before ≡ some (ready tool)
      → (before ≡ some (ready tool)) ⊎ ((e : McpExposureV3) × (o ≡ some e) × (state e ≡ ready tool))
  listed_for-eq-ready state t none before tool h = inl h
  listed_for-eq-ready state t (some e) before tool h = elim (Bool-cases (e.target_id == t)) [
    | inl here ↦ inr (e, refl, eq_of_some-eq (rw here at h))
    | inr other ↦ inl (rw other at h)
  ]

  covers_listed_for :
      (state : McpExposureV3 → ListedToolState) (target_id : String) (o : Option McpExposureV3)
      (before : Option ListedToolState)
      → is_some before ≡ is_some o
      → is_some (or_else (listed_for state target_id o) before) ≡ is_some o
  covers_listed_for state t none before h = h
  covers_listed_for state t (some e) before h = elim (Bool-cases (e.target_id == t)) [
    | inl here ↦ rw here refl
    | inr other ↦ rw other h
  ]

  pub replace_target_projection-Faithful :
      (target_id : String) (upstream : Map Value) (tools : Listed)
      → WellFormed config
      → Faithful tools
      → Faithful (replace_target_projection engine config target_id upstream tools)
  replace_target_projection-Faithful t upstream tools w f = record {
    covers = names;
    derived = made;
  }
    where
      at :
          (name : String)
          → get name (replace_target_projection engine config t upstream tools)
            ≡ or_else
                (listed_for
                  (λ e. project_or_blocked engine e (get e.upstream_tool upstream))
                  t
                  (get name config.v3_exposures))
                (get name tools)
      at name =
          get-replace_target_projection engine config t name upstream tools (Keyed-of_WellFormed w)

      names :
          (name : String)
          → is_some (get name (replace_target_projection engine config t upstream tools))
            ≡ is_some (get name config.v3_exposures)
      names name =
          ap is_some (at name)
          ∙ covers_listed_for _ t (get name config.v3_exposures) (get name tools) (f.covers name)

      made :
          (name : String) (tool : Value)
          → get name (replace_target_projection engine config t upstream tools) ≡ some (ready tool)
          → Derived name tool
      made name tool h =
          elim (listed_for-eq-ready _ t (get name config.v3_exposures) (get name tools) tool
            (sym (at name) ∙ h)) [
              | inl before ↦ f.derived name tool before
              | inr (e, found, isready) ↦
                  (let (u, _, derived) =
                      project_or_blocked-eq-ready engine e (get e.upstream_tool upstream) tool
                        isready in
                    (e, u, found, derived))
            ]

  -- One pass of the loop of `new`.
  listed : String → (String → Option (Map Value)) → Listed → Listed
  listed t load tools =
      list_each
        (λ e. project_or_unavailable engine e (get e.upstream_tool (or_default (load t) [])))
        (of_target t (values config.v3_exposures)) tools

  get-listed :
      (t : String) (load : String → Option (Map Value)) (name : String) (tools : Listed)
      → WellFormed config
      → get name (listed t load tools)
        ≡ or_else
            (listed_for
              (λ e. project_or_unavailable engine e (get e.upstream_tool (or_default (load t) [])))
              t
              (get name config.v3_exposures))
            (get name tools)
  unfolding listed
  get-listed t load name tools w =
      get-list_each _ t name config.v3_exposures tools (Keyed-of_WellFormed w)

  module _ (load : String → Option (Map Value)) (w : WellFormed config) where
    initial-Derived :
        (ids : List String) (tools : Listed)
        → ((name : String) (tool : Value) → get name tools ≡ some (ready tool) → Derived name tool)
        → (name : String) (tool : Value)
        → get name (initial_tools engine config load ids tools) ≡ some (ready tool)
        → Derived name tool
    unfolding initial_tools listed
    initial-Derived [] tools f name tool h = f name tool h
    initial-Derived (t ∷ ids) tools f name tool h =
        initial-Derived ids (listed t load tools) later name tool h
      where
        later :
            (name : String) (tool : Value)
            → get name (listed t load tools) ≡ some (ready tool)
            → Derived name tool
        later name tool h =
            elim (listed_for-eq-ready _ t (get name config.v3_exposures) (get name tools) tool
              (sym (get-listed t load name tools w) ∙ h)) [
                | inl before ↦ f name tool before
                | inr (e, found, isready) ↦
                    (let (u, _, derived) =
                        project_or_unavailable-eq-ready engine e
                          (get e.upstream_tool (or_default (load t) [])) tool isready in
                      (e, u, found, derived))
              ]

    -- A name without an exposure is not listed.
    initial-absent :
        (ids : List String) (tools : Listed) (name : String)
        → get name config.v3_exposures ≡ none
        → get name tools ≡ none
        → get name (initial_tools engine config load ids tools) ≡ none
    unfolding initial_tools listed
    initial-absent [] tools name missing h = h
    initial-absent (t ∷ ids) tools name missing h =
        initial-absent ids (listed t load tools) name missing
          (get-listed t load name tools w ∙ rw (missing, h) refl)

    -- The exposure of a target in the list is listed.
    initial-present :
        (ids : List String) (tools : Listed) (name : String) (e : McpExposureV3)
        → get name config.v3_exposures ≡ some e
        → (any (λ t. e.target_id == t) ids || is_some (get name tools)) ≡ true
        → is_some (get name (initial_tools engine config load ids tools)) ≡ true
    unfolding initial_tools listed
    initial-present [] tools name e found h = h
    initial-present (t ∷ ids) tools name e found h =
        initial-present ids (listed t load tools) name e found (
          rw (get-listed t load name tools w, found)
            (moved (e.target_id == t) (any (λ t. e.target_id == t) ids) _ (get name tools) h))
      where
        moved :
            (here later : Bool) (s : ListedToolState) (before : Option ListedToolState)
            → (here || later || is_some before) ≡ true
            → (later || is_some (or_else (if here then some s else none) before)) ≡ true
        moved true true s before h = refl
        moved true false s before h = refl
        moved false later s before h = h

  any_target :
      {V : Type 0} (id : String) (m : Map V)
      → contains_key id m ≡ true
      → any (λ t. id == t) (keys m) ≡ true
  unfolding contains_key keys
  any_target id [] h = cc
  any_target id ((k, v) ∷ m) h = ground (arith, eq_iff k id, eq_iff id k, any_target id m)

  pub initial_tools-Faithful :
      (load : String → Option (Map Value))
      → WellFormed config
      → Faithful (initial_tools engine config load (keys config.upstream_targets) [])
  unfolding get
  initial_tools-Faithful load w = record {
    covers = names;
    derived = λ name tool h.
        initial-Derived load w (keys config.upstream_targets) [] (λ n t e. cc) name tool h;
  }
    where
      names :
          (name : String)
          → is_some (get name (initial_tools engine config load (keys config.upstream_targets) []))
            ≡ is_some (get name config.v3_exposures)
      names name = elim (Option-cases (get name config.v3_exposures)) [
        | inl missing ↦
            rw (missing, initial-absent load w (keys config.upstream_targets) [] name missing refl)
              refl
        | inr (e, found) ↦
            (let known =
                All-get (λ x. contains_key x.target_id config.upstream_targets ≡ true) name
                  config.v3_exposures
                  (All-map _ (λ x. contains_key x.1.target_id config.upstream_targets ≡ true)
                    config.v3_exposures (λ x fits. fits.2) w.v3_fit.1)
                  found in
              initial-present load w (keys config.upstream_targets) [] name e found
                (rw (any_target e.target_id config.upstream_targets known) refl)
              ∙ ap is_some (sym found))
      ]
