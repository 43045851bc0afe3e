-- ===== src/Raw/Targets.antt =====
-- The loop over the targets in `validate_raw` of crates/core/src/lib.rs.
pub mod Fits
pub mod Safe
use agent_capability_gate.Prelude.{
  ℕ, String, ◌==◌, Bool, true, false, not, ◌&&◌, Option, none, some, List, [], ◌∷◌, ◌++◌, any, Map,
  insert, is_some, Result, ok, err, ◌>>=◌, ◌>>◌, fail_if, ok_or, or_else, option_map, eqb, has_nul,
  for_each, if◌then◌else◌,
}
use agent_capability_gate.Diagnostics.{Checked, invalid, ◌/+◌}
use agent_capability_gate.Faults.{Fault, rejected, unwrap, lift}
use agent_capability_gate.Config.{EnvironmentSpec, Limits, CliTarget, UpstreamMcpTarget}
use agent_capability_gate.Config.Checks.{
  RawTargetLimits, validate_id, absolute_path, validate_limits, validate_environment,
}
use agent_capability_gate.Raw.{RawTarget, RawTargetTransport, RawExposure}

-- What the loop collects: `targets`, `upstream_targets` and `raw_exposures`.
pub record Targets : Type 0 where
  pub cli : Map CliTarget
  pub mcp : Map UpstreamMcpTarget
  pub raw_exposures : List (String × Map RawExposure)

abbrev pub with_output : RawTargetLimits → ℕ → Limits
with_output l n = record {
  timeout_ms = l.timeout_ms;
  stdout_bytes = n;
  output_bytes = n;
  stderr_bytes = l.stderr_bytes;
}

-- The limits of a target; none where an `unwrap` panics.
abbrev pub cli_limits : RawTargetLimits → Option Limits
cli_limits l = option_map (with_output l) (or_else l.stdout_bytes l.output_bytes)

abbrev pub mcp_limits : RawTargetLimits → Option Limits
mcp_limits l = option_map (with_output l) l.output_bytes

module _ (environment : Map String) where
  -- The checks of a target whose kind is cli, and the settings that they return.
  unfoldable pub check_cli : String → RawTarget → Checked (String × String × EnvironmentSpec)
  unfolding absolute_path validate_limits validate_environment
  check_cli path target = do
    fail_if (is_some target.expose)
        (invalid (path /+ "expose") "expose is only allowed on mcp targets")
    given ← ok_or target.executable (invalid (path /+ "executable") "required for cli")
    executable ← absolute_path given (path /+ "executable")
    directory ← ok_or target.cwd (invalid (path /+ "cwd") "required for cli")
    cwd ← absolute_path directory (path /+ "cwd")
    validate_limits target.limits (path /+ "limits") false
    env ← validate_environment target.environment environment (path /+ "environment")
    ok (executable, cwd, env)

  unfoldable pub add_cli : String → RawTarget → Targets → Result Fault Targets
  unfolding check_cli
  add_cli id target found = do
    checked ← lift (check_cli ("/targets" /+ id) target)
    limits ← unwrap (cli_limits target.limits)
    let made : CliTarget = record {
      id = id;
      executable = checked.0;
      cwd = checked.1;
      environment = checked.2;
      limits = limits;
    }
    ok (record {
      cli = insert id made found.cli;
      mcp = found.mcp;
      raw_exposures = found.raw_exposures;
    })

  -- The checks of a target whose kind is mcp, and the settings that they return.
  unfoldable pub check_mcp :
      ℕ → String → RawTarget → Checked (RawTargetTransport × String × String × EnvironmentSpec)
  unfolding absolute_path validate_limits validate_environment
  check_mcp version path target = do
    fail_if (eqb version 1 && is_some target.expose)
        (invalid (path /+ "expose") "expose requires version 2")
    transport ← ok_or target.transport (invalid (path /+ "transport") "required for mcp")
    fail_if (not (transport.kind == "stdio"))
        (invalid (path /+ "transport/kind") "only stdio is supported")
    command ← absolute_path transport.command (path /+ "transport/command")
    cwd ← absolute_path transport.cwd (path /+ "transport/cwd")
    fail_if (any has_nul transport.args)
        (invalid (path /+ "transport/args") "argument contains NUL")
    validate_limits target.limits (path /+ "limits") true
    env ← validate_environment transport.environment environment (path /+ "transport/environment")
    ok (transport, command, cwd, env)

  abbrev pub with_exposures :
      String
      → Option (Map RawExposure)
      → List (String × Map RawExposure)
      → List (String × Map RawExposure)
  with_exposures id none found = found
  with_exposures id (some expose) found = found ++ (id, expose) ∷ []

  unfoldable pub add_mcp : ℕ → String → RawTarget → Targets → Result Fault Targets
  unfolding check_mcp
  add_mcp version id target found = do
    checked ← lift (check_mcp version ("/targets" /+ id) target)
    limits ← unwrap (mcp_limits target.limits)
    let made : UpstreamMcpTarget = record {
      id = id;
      command = checked.1;
      args = checked.0.args;
      cwd = checked.2;
      environment = checked.3;
      limits = limits;
    }
    ok (record {
      cli = found.cli;
      mcp = insert id made found.mcp;
      raw_exposures = with_exposures id target.expose found.raw_exposures;
    })

  unfoldable pub add_target : ℕ → String × RawTarget → Targets → Result Fault Targets
  unfolding add_cli add_mcp validate_id
  add_target version (id, target) found = do
    lift (validate_id id "/targets")
    if target.kind == "cli"
        then add_cli id target found
        else if target.kind == "mcp"
        then add_mcp version id target found
        else err (rejected (invalid ("/targets" /+ id /+ "kind") "kind must be cli or mcp"))

  unfoldable pub collect_targets : ℕ → Map RawTarget → Result Fault Targets
  unfolding add_target for_each
  collect_targets version targets =
      for_each (add_target version) targets (record { cli = []; mcp = []; raw_exposures = [] })
