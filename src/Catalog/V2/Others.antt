-- ===== src/Catalog/V2/Others.antt =====
-- What a refresh of the version-2 catalog leaves as it was.
use agent_capability_gate.Prelude.{
  ◌≡◌, refl, sym, ◌∙◌, subst, String, ◌==◌, Bool, true, false, Option, none, some, List, [], ◌∷◌,
  All, Map, get, insert, retain, values, filter, get-insert, get-remove, get-retain,
  get-none_of_contains_key, DistinctKeys, Result, ok, err, or_default, if◌then◌else◌, Bool-cases,
  inl, inr, All-map, eq_of_some-eq,
}
use agent_capability_gate.Json.{Value}
use agent_capability_gate.Schema.Regex.{RegexEngine}
use agent_capability_gate.Config.{McpExposure, UpstreamMcpTarget, ValidatedConfig}
use agent_capability_gate.Raw.Validate.WellFormed.{WellFormed}
use agent_capability_gate.Catalog.Outside.{Outside}
use agent_capability_gate.Catalog.V2.{Snapshot, CacheFiles, CatalogState, for_target, snapshot_eq}
use agent_capability_gate.Catalog.V2.Refresh.{
  Pass, extend, collect_unique, bury, take_projected, project_one, project_each, withdraw_each,
  of_other, unless_stored, stored, commit, committed, begun, adopt, after_list, refresh_known,
  refresh_target,
}

module _ (name : String) where
  get-extend : {V : Type 0} (m n : Map V) → get name n ≡ none → get name (extend m n) ≡ get name m
  unfolding extend get
  get-extend m [] h = refl
  get-extend m ((j, v) ∷ n) h = elim (Bool-cases (j == name)) [
    | inl here ↦ absurd (cc (rw here at h))
    | inr other ↦
        (get-extend (insert j v m) n (rw other at h) ∙ rw (get-insert j name v m, other) refl)
  ]

  -- The refresh in progress has nothing of that name.
  abbrev Without : Pass → Type 0
  Without p = (get name p.next_active ≡ none) × (get name p.tombstones ≡ none)

  abbrev NamedOther : McpExposure → Type 0
  NamedOther e = (e.public_name == name) ≡ false

  missing-insert :
      {V : Type 0} (k : String) (v : V) (m : Map V)
      → (k == name) ≡ false
      → get name m ≡ none
      → get name (insert k v m) ≡ none
  missing-insert k v m other h = get-insert k name v m ∙ rw other h

  bury-Without :
      (e : McpExposure) (known : Bool) (reason : String) (p : Pass)
      → NamedOther e
      → Without p
      → Without (bury e known reason p)
  bury-Without e true reason p other (a, b) = (a, missing-insert _ _ _ other b)
  bury-Without e false reason p other h = h

  withdraw_each-Without :
      (exposures : Map McpExposure) (names : List String) (p : Pass)
      → Without p
      → Without (withdraw_each exposures names p)
  unfolding withdraw_each
  withdraw_each-Without exposures [] p h = h
  withdraw_each-Without exposures (k ∷ ks) p (a, b) =
      withdraw_each-Without exposures ks _
        (get-remove k name p.next_active ∙ either (k == name) a, b)
    where
      either : (t : Bool) {o : Option Value} → o ≡ none → (if t then none else o) ≡ none
      either true e = refl
      either false e = e

  module _ (engine : RegexEngine) where
    take_projected-Without :
        (e : McpExposure) (observed : Value) (known : Bool) (r : Result String (Value × Bool))
        (p : Pass)
        → NamedOther e
        → Without p
        → Without (take_projected e observed known r p)
    take_projected-Without e observed known (err reason) p other h =
        bury-Without e known reason p other h
    take_projected-Without e observed known (ok (public, is_new)) p other (a, b) =
        (missing-insert _ _ _ other a, b)

    project_one-Without :
        (previous : Snapshot) (e : McpExposure) (o : Option Value) (p : Pass)
        → NamedOther e
        → Without p
        → Without (project_one engine previous e o p)
    project_one-Without previous e none p other h = bury-Without e _ _ p other h
    project_one-Without previous e (some observed) p other h =
        take_projected-Without e observed _ _ p other h

    project_each-Without :
        (discovered : Map Value) (previous : Snapshot) (es : List McpExposure) (p : Pass)
        → All NamedOther es
        → Without p
        → Without (project_each engine discovered previous es p)
    unfolding project_each
    project_each-Without discovered previous [] p others h = h
    project_each-Without discovered previous (e ∷ es) p (other, others) h =
        project_each-Without discovered previous es _ others
          (project_one-Without previous e (get e.upstream_tool discovered) p other h)

  -- The exposures of a target have other names, if the one of that name is of another target.
  others_of :
      (t : String) (m : Map McpExposure)
      → DistinctKeys m
      → All (λ x. x.1.public_name ≡ x.0) m
      → ((x : McpExposure) → get name m ≡ some x → (x.target_id == t) ≡ false)
      → All NamedOther (filter (λ e. e.target_id == t) (values m))
  unfolding get values
  others_of t [] distinct named h = tt
  others_of t ((k, x) ∷ m) (fresh, distinct) (named, rest) h = elim (Bool-cases (k == name)) [
    | inl here ↦
        (let missing = get-none_of_contains_key k name m fresh here in
          let gone = h x (rw here refl) in
          dropped (x.target_id == t) _ gone
            (others_of t m distinct rest (λ y e. absurd (cc (missing, e)))))
    | inr other ↦
        (let later = others_of t m distinct rest (λ y e. h y (rw other e)) in
          kept (x.target_id == t) _ (subst (λ n. (n == name) ≡ false) (sym named) other) later)
  ]
    where
      kept :
          (b : Bool) (es : List McpExposure)
          → NamedOther x
          → All NamedOther es
          → All NamedOther (elim b as (λ c. List McpExposure) [ true ↦ x ∷ es | false ↦ es ])
      kept true es here later = (here, later)
      kept false es here later = later

      dropped :
          (b : Bool) (es : List McpExposure)
          → b ≡ false
          → All NamedOther es
          → All NamedOther (elim b as (λ c. List McpExposure) [ true ↦ x ∷ es | false ↦ es ])
      dropped true es e later = absurd (cc e)
      dropped false es e later = later

-- A public name has what it had, the tool and the reason why it changed.
abbrev pub Unchanged : String → CatalogState → CatalogState → Type 0
Unchanged name s s' =
    (get name s'.active ≡ get name s.active) × (get name s'.changed ≡ get name s.changed)

module _ {W : Type 0} (engine : RegexEngine) (outside : Outside W) (files : CacheFiles W)
    (config : ValidatedConfig) (t name : String) where
  stored-Without :
      (previous : Snapshot) (p : Pass) (w : W)
      → Without name p
      → Without name (stored engine outside files config t previous p w).0
  unfolding stored
  stored-Without previous p w h = elim (Bool-cases (snapshot_eq previous p.next_cached)) [
    | inl same ↦ rw same h
    | inr other ↦ rw other (by_store (files.store t p.next_cached w))
  ]
    where
      by_store : (r : Bool × W) → Without name (unless_stored engine outside files config r p).0
      by_store (true, w') = h
      by_store (false, w') = withdraw_each-Without name config.v2_exposures p.needs_freeze p h

  commit-Unchanged :
      (p : Pass) (s : CatalogState)
      → of_other engine outside files config t name ≡ true
      → Without name p
      → Unchanged name s (commit engine outside files config t p s).0
  unfolding commit
  commit-Unchanged p s other (a, b) =
      let r = of_other engine outside files config t in
      (
        get-extend name (retain r s.active) p.next_active a
            ∙ get-retain r name s.active
            ∙ rw other refl,
        get-extend name (retain r s.changed) p.tombstones b
            ∙ get-retain r name s.changed
            ∙ rw other refl,
      )

  committed-Unchanged :
      (s : CatalogState) (r : Pass × W)
      → of_other engine outside files config t name ≡ true
      → Without name r.0
      → Unchanged name s (committed engine outside files config t s r).0
  committed-Unchanged s (p, w) other h = commit-Unchanged p s other h

  adopt-Unchanged :
      (o : Option (Map Value)) (s : CatalogState) (w : W)
      → of_other engine outside files config t name ≡ true
      → All (NamedOther name) (for_target config t)
      → Unchanged name s (adopt engine outside files config t o s w).0
  unfolding adopt
  adopt-Unchanged none s w other others = (refl, refl)
  adopt-Unchanged (some discovered) s w other others =
      let previous = or_default (get t s.cached) [] in
      let p : Pass =
        project_each engine discovered previous (for_target config t)
          (begun engine outside files config previous) in
      committed-Unchanged s (stored engine outside files config t previous p w) other (
        stored-Without previous p w (
          project_each-Without name engine discovered previous (for_target config t)
            (begun engine outside files config previous) others (refl, refl)))

  -- Over a well-formed configuration, when a refresh asks one target: the public name of an exposure of
  -- another target keeps its tool and the reason why it changed, or stays without them, whatever the upstream
  -- server and the cache answer.
  pub refresh_target-Unchanged :
      (e : McpExposure) (s : CatalogState) (w : W)
      → WellFormed config
      → get name config.v2_exposures ≡ some e
      → (e.target_id == t) ≡ false
      → Unchanged name s (refresh_target engine outside files config t s w).0
  unfolding refresh_target
  refresh_target-Unchanged e s w well found elsewhere = asked (get t config.upstream_targets)
    where
      other : of_other engine outside files config t name ≡ true
      other = rw (found, elsewhere) refl

      others : All (NamedOther name) (for_target config t)
      others =
          others_of name t config.v2_exposures well.v2_fit.0
            (All-map _ (λ x. x.1.public_name ≡ x.0) config.v2_exposures (λ x fits. fits.0)
              well.v2_fit.1)
            (λ x here.
              subst (λ y. (y.target_id == t) ≡ false) (eq_of_some-eq (sym found ∙ here)) elsewhere)

      answered :
          (r : Option (List Value) × W)
          → Unchanged name s (after_list engine outside files config t r s).0
      answered (none, w') = (refl, refl)
      answered (some tools, w') = adopt-Unchanged (collect_unique tools []) s w' other others

      asked :
          (o : Option UpstreamMcpTarget)
          → Unchanged name s (refresh_known engine outside files config t o s w).0
      asked none = (refl, refl)
      asked (some target) = answered (outside.list_tools target w)
