-- ===== src/Raw/Targets/Fits.antt =====
-- What the loop over the targets establishes.
use agent_capability_gate.Prelude.{
  or_default, ℕ, String, ◌==◌, ◌≡◌, refl, ap, sym, ◌∙◌, Bool, true, false, not, ◌&&◌, ◌||◌, Option,
  none, some, [], ◌∷◌, any, All, All-insert, All-map, All-join, Map, insert, contains_key,
  contains_key-insert, is_some, ok, >>=-eq-ok, fail_if, fail_if-eq-ok, ok_or, ok-injective, or_else,
  option_map, eqb, for_each-preserves, has_nul, is_empty_text, starts_with_char, Bool-cases, inl,
  inr, eq_refl, eq_of_some-eq, subst, arith,
}
use agent_capability_gate.Diagnostics.{◌/+◌}
use agent_capability_gate.Faults.{lift, unwrap, lift-eq-ok, unwrap-eq-ok}
use agent_capability_gate.Config.{EnvironmentSpec, Limits, CliTarget, UpstreamMcpTarget}
use agent_capability_gate.Config.Checks.{
  RawTargetLimits, validate_id, absolute_path, validate_limits, validate_environment,
}
use agent_capability_gate.Config.Checks.Ranges.{Within, validate_limits-Within}
use agent_capability_gate.Raw.{RawTarget, RawTargetTransport, RawExposure}
use agent_capability_gate.Raw.Distinct.{DistinctExposures}
use agent_capability_gate.Raw.Targets.{
  Targets, with_output, cli_limits, mcp_limits, check_cli, check_mcp, add_cli, add_mcp, add_target,
  with_exposures, collect_targets,
}

-- The limits of a target are set: 1 to 300000 ms, 1 byte to 16 MiB of output, 1 byte to 1 MiB of errors.
abbrev pub LimitsWithin : Limits → Type 0
LimitsWithin l =
    Within 1 300000 l.timeout_ms
    × Within 1 16777216 l.output_bytes
    × (l.stdout_bytes ≡ l.output_bytes)
    × Within 1 1048576 l.stderr_bytes

-- A path from the root, without NUL.
abbrev pub Absolute : String → Type 0
Absolute p = (starts_with_char b'/' p ≡ true) × (has_nul p ≡ false)

abbrev pub CliFits : String × CliTarget → Type 0
CliFits (id, t) = (t.id ≡ id) × Absolute t.executable × Absolute t.cwd × LimitsWithin t.limits

abbrev pub McpFits : String × UpstreamMcpTarget → Type 0
McpFits (id, t) =
    (t.id ≡ id)
    × Absolute t.command
    × Absolute t.cwd
    × (any has_nul t.args ≡ false)
    × LimitsWithin t.limits

-- The targets are as configured, and each group of exposures belongs to an mcp target.
abbrev pub TargetsFit : Targets → Type 0
TargetsFit ts =
    All CliFits ts.cli
    × All McpFits ts.mcp
    × All (λ e. (contains_key e.0 ts.mcp ≡ true) × DistinctExposures e.1) ts.raw_exposures

absolute_path-Absolute : (value path p : String) → absolute_path value path ≡ ok p → Absolute p
unfolding absolute_path
absolute_path-Absolute value path p h =
    let (_, e, h0) =
      >>=-eq-ok
        (fail_if (is_empty_text value || has_nul value || not (starts_with_char b'/' value)) _) _
        h in
    rw (← ok-injective h0) (
      parts (is_empty_text value) (has_nul value) (starts_with_char b'/' value)
        (fail_if-eq-ok _ _ e))
  where
    parts : (a b c : Bool) → (a || b || not c) ≡ false → (c ≡ true) × (b ≡ false)
    parts a b c h = (ground arith, ground arith)

-- Accepted limits give a target its limits.
limits_of_some :
    (l : RawTargetLimits) (path : String) (u : Unit {0})
    → validate_limits l path false ≡ ok u
    → (m : Limits) × (cli_limits l ≡ some m) × LimitsWithin m
limits_of_some l path u h =
    let (time, (out, set, size), errors) = validate_limits-Within l path false h in
    (
      with_output l out,
      ap (λ o. option_map (with_output l) (or_else o l.output_bytes)) set,
      (time, size, refl, errors),
    )

mcp_limits_of_some :
    (l : RawTargetLimits) (path : String) (u : Unit {0})
    → validate_limits l path true ≡ ok u
    → (m : Limits) × (mcp_limits l ≡ some m) × LimitsWithin m
mcp_limits_of_some l path u h =
    let (time, (out, set, size), errors) = validate_limits-Within l path true h in
    (with_output l out, ap (option_map (with_output l)) set, (time, size, refl, errors))

module _ (environment : Map String) where
  pub check_cli-fits :
      (path : String) (t : RawTarget) (r : String × String × EnvironmentSpec)
      → check_cli environment path t ≡ ok r
      → Absolute r.0 × Absolute r.1 × (m : Limits) × (cli_limits t.limits ≡ some m) × LimitsWithin m
  unfolding check_cli
  check_cli-fits path t r h =
      let (_, _, h0) = >>=-eq-ok (fail_if (is_some t.expose) _) _ h in
      let (given, _, h1) = >>=-eq-ok (ok_or t.executable _) _ h0 in
      let (executable, e2, h2) = >>=-eq-ok (absolute_path given _) _ h1 in
      let (directory, _, h3) = >>=-eq-ok (ok_or t.cwd _) _ h2 in
      let (cwd, e4, h4) = >>=-eq-ok (absolute_path directory _) _ h3 in
      let (u, e5, h5) = >>=-eq-ok (validate_limits t.limits (path /+ "limits") false) _ h4 in
      let (env, _, h6) =
        >>=-eq-ok (validate_environment t.environment environment (path /+ "environment")) _ h5 in
      let (m, some_m, good) = limits_of_some t.limits _ u e5 in
      rw (← ok-injective h6) (
        absolute_path-Absolute given _ executable e2,
        absolute_path-Absolute directory _ cwd e4,
        m,
        some_m,
        good,
      )

  pub check_mcp-fits :
      (version : ℕ) (path : String) (t : RawTarget)
      (r : RawTargetTransport × String × String × EnvironmentSpec)
      → check_mcp environment version path t ≡ ok r
      → Absolute r.1
        × Absolute r.2
        × (any has_nul (r.0).args ≡ false)
        × (m : Limits) × (mcp_limits t.limits ≡ some m)
        × LimitsWithin m
  unfolding check_mcp
  check_mcp-fits version path t r h =
      let (_, _, h0) = >>=-eq-ok (fail_if (eqb version 1 && is_some t.expose) _) _ h in
      let (transport, _, h1) = >>=-eq-ok (ok_or t.transport _) _ h0 in
      let (_, _, h2) = >>=-eq-ok (fail_if (not (transport.kind == "stdio")) _) _ h1 in
      let (command, e3, h3) = >>=-eq-ok (absolute_path transport.command _) _ h2 in
      let (cwd, e4, h4) = >>=-eq-ok (absolute_path transport.cwd _) _ h3 in
      let (_, e5, h5) = >>=-eq-ok (fail_if (any has_nul transport.args) _) _ h4 in
      let (u, e6, h6) = >>=-eq-ok (validate_limits t.limits (path /+ "limits") true) _ h5 in
      let (env, _, h7) =
        >>=-eq-ok
          (validate_environment transport.environment environment (path /+ "transport/environment"))
          _ h6 in
      let (m, some_m, good) = mcp_limits_of_some t.limits _ u e6 in
      rw (← ok-injective h7) (
        absolute_path-Absolute transport.command _ command e3,
        absolute_path-Absolute transport.cwd _ cwd e4,
        fail_if-eq-ok _ _ e5,
        m,
        some_m,
        good,
      )

  add_cli-TargetsFit :
      (id : String) (t : RawTarget) (found out : Targets)
      → TargetsFit found
      → add_cli environment id t found ≡ ok out
      → TargetsFit out
  unfolding add_cli
  add_cli-TargetsFit id t found out (a, b, c) h =
      let (r, e, h0) = >>=-eq-ok (lift (check_cli environment ("/targets" /+ id) t)) _ h in
      let (l, e1, h1) = >>=-eq-ok (unwrap (cli_limits t.limits)) _ h0 in
      let (p, q, m, some_m, good) = check_cli-fits ("/targets" /+ id) t r (lift-eq-ok _ r e) in
      let same : l ≡ m = eq_of_some-eq (sym (unwrap-eq-ok _ l e1) ∙ some_m) in
      rw (← ok-injective h1)
        (All-insert CliFits id _ found.cli (refl, p, q, subst LimitsWithin (sym same) good) a, b, c)

  add_mcp-TargetsFit :
      (version : ℕ) (id : String) (t : RawTarget) (found out : Targets)
      → DistinctExposures (or_default t.expose [])
      → TargetsFit found
      → add_mcp environment version id t found ≡ ok out
      → TargetsFit out
  unfolding add_mcp
  add_mcp-TargetsFit version id t found out d (a, b, c) h =
      let (r, e, h0) = >>=-eq-ok (lift (check_mcp environment version ("/targets" /+ id) t)) _ h in
      let (l, e1, h1) = >>=-eq-ok (unwrap (mcp_limits t.limits)) _ h0 in
      let (p, q, clean, m, some_m, good) =
        check_mcp-fits version ("/targets" /+ id) t r (lift-eq-ok _ r e) in
      let same : l ≡ m = eq_of_some-eq (sym (unwrap-eq-ok _ l e1) ∙ some_m) in
      rw (← ok-injective h1) (
        a,
        All-insert McpFits id _ found.mcp (refl, p, q, clean, subst LimitsWithin (sym same) good) b,
        grown t.expose _ d,
      )
    where
      kept :
          (made : UpstreamMcpTarget)
          → All
              (λ e. (contains_key e.0 (insert id made found.mcp) ≡ true) × DistinctExposures e.1)
              found.raw_exposures
      kept made =
          All-map (λ e. (contains_key e.0 found.mcp ≡ true) × DistinctExposures e.1) _
            found.raw_exposures
            (λ x k. (ground (arith, contains_key-insert id x.0 made found.mcp, k.0), k.1)) c

      grown :
          (expose : Option (Map RawExposure)) (made : UpstreamMcpTarget)
          → DistinctExposures (or_default expose [])
          → All
              (λ e. (contains_key e.0 (insert id made found.mcp) ≡ true) × DistinctExposures e.1)
              (with_exposures environment id expose found.raw_exposures)
      grown none made d = kept made
      grown (some expose) made d =
          All-join _ found.raw_exposures ((id, expose) ∷ []) (kept made)
            ((ground (arith, contains_key-insert id id made found.mcp, eq_refl id), d), tt)

  add_target-TargetsFit :
      (version : ℕ) (e : String × RawTarget) (found out : Targets)
      → DistinctExposures (or_default e.1.expose [])
      → TargetsFit found
      → add_target environment version e found ≡ ok out
      → TargetsFit out
  unfolding add_target
  add_target-TargetsFit version (id, t) found out d fits h =
      let (_, _, h0) = >>=-eq-ok (lift (validate_id id "/targets")) _ h in
      elim (Bool-cases (t.kind == "cli")) [
        | inl cli ↦ add_cli-TargetsFit id t found out fits (rw cli at h0)
        | inr other ↦ elim (Bool-cases (t.kind == "mcp")) [
          | inl mcp ↦ add_mcp-TargetsFit version id t found out d fits (rw (other, mcp) at h0)
          | inr unknown ↦ absurd (cc (rw (other, unknown) at h0))
        ]
      ]

  pub collect_targets-TargetsFit :
      (version : ℕ) (raw : Map RawTarget) (out : Targets)
      → All (λ e. DistinctExposures (or_default e.1.expose [])) raw
      → collect_targets environment version raw ≡ ok out
      → TargetsFit out
  unfolding collect_targets
  collect_targets-TargetsFit version raw out d h =
      for_each-preserves (add_target environment version) TargetsFit _ raw _ out
        (λ e t u d fits step. add_target-TargetsFit version e t u d fits step) d (tt, tt, tt) h
