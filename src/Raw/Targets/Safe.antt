-- ===== src/Raw/Targets/Safe.antt =====
-- None of the `unwrap`s in the loop over the targets panics.
use agent_capability_gate.Prelude.{ℕ, String, ◌==◌, Bool, true, false, Map, err, if◌then◌else◌}
use agent_capability_gate.Diagnostics.{invalid, ◌/+◌}
use agent_capability_gate.Faults.{
  NoPanic, NoPanic-bind, NoPanic-lift, rejected, lift, unwrap, lift-eq-ok, NoPanic-unwrap-some,
  for_each-NoPanic,
}
use agent_capability_gate.Config.Checks.{validate_id}
use agent_capability_gate.Raw.{RawTarget}
use agent_capability_gate.Raw.Targets.{
  Targets, cli_limits, mcp_limits, check_cli, check_mcp, add_cli, add_mcp, add_target,
  collect_targets,
}
use agent_capability_gate.Raw.Targets.Fits.{check_cli-fits, check_mcp-fits}

module _ (environment : Map String) where
  add_cli-NoPanic :
      (id : String) (t : RawTarget) (found : Targets) → NoPanic (add_cli environment id t found)
  unfolding add_cli
  add_cli-NoPanic id t found =
      NoPanic-bind (lift (check_cli environment ("/targets" /+ id) t)) _ (NoPanic-lift _) λ r e.
        let (_, _, m, some_m, _) =
          check_cli-fits environment ("/targets" /+ id) t r (lift-eq-ok _ r e) in
        NoPanic-bind (unwrap (cli_limits t.limits)) _ (NoPanic-unwrap-some _ m some_m) (λ l _. tt)

  add_mcp-NoPanic :
      (version : ℕ) (id : String) (t : RawTarget) (found : Targets)
      → NoPanic (add_mcp environment version id t found)
  unfolding add_mcp
  add_mcp-NoPanic version id t found =
      NoPanic-bind (lift (check_mcp environment version ("/targets" /+ id) t)) _ (NoPanic-lift _)
        λ r e.
          let (_, _, _, m, some_m, _) =
            check_mcp-fits environment version ("/targets" /+ id) t r (lift-eq-ok _ r e) in
          NoPanic-bind (unwrap (mcp_limits t.limits)) _ (NoPanic-unwrap-some _ m some_m) (λ l _. tt)

  add_target-NoPanic :
      (version : ℕ) (e : String × RawTarget) (found : Targets)
      → NoPanic (add_target environment version e found)
  unfolding add_target
  add_target-NoPanic version (id, t) found =
      NoPanic-bind (lift (validate_id id "/targets")) _ (NoPanic-lift _)
        λ u _. by_kind (t.kind == "cli") (t.kind == "mcp")
    where
      by_kind :
          (cli mcp : Bool)
          → NoPanic (
              if cli
              then add_cli environment id t found
              else if mcp
              then add_mcp environment version id t found
              else err (rejected (invalid ("/targets" /+ id /+ "kind") "kind must be cli or mcp")))
      by_kind true mcp = add_cli-NoPanic id t found
      by_kind false true = add_mcp-NoPanic version id t found
      by_kind false false = tt

  pub collect_targets-NoPanic :
      (version : ℕ) (raw : Map RawTarget) → NoPanic (collect_targets environment version raw)
  unfolding collect_targets
  collect_targets-NoPanic version raw =
      for_each-NoPanic (add_target environment version) raw _ (add_target-NoPanic version)
