-- ===== src/Raw/Validate.antt =====
-- `validate_raw` and `parse_config` of crates/core/src/lib.rs. The YAML reader is a parameter.
pub mod WellFormed
pub mod Calls
use agent_capability_gate.Prelude.{
  ℕ, String, ◌==◌, not, ◌||◌, Option, none, some, List, [], length, Map, Result, ok, err, ◌>>=◌,
  ◌>>◌, fail_if, is_empty_text, ◌+++◌, eqb, ltb, if◌then◌else◌,
}
use agent_capability_gate.Json.Limits.{max_schema_depth}
use agent_capability_gate.Diagnostics.{Checked, invalid, max_config_bytes, max_tools}
use agent_capability_gate.Schema.Regex.{RegexEngine}
use agent_capability_gate.Faults.{Fault, lift}
use agent_capability_gate.Config.{ValidatedConfig, McpExposure, McpExposureV3}
use agent_capability_gate.Config.Checks.{between}
use agent_capability_gate.Raw.{RawConfig, RawServer, RawTool, RawExposure}
use agent_capability_gate.Raw.Targets.{collect_targets}
use agent_capability_gate.Raw.Tools.{Tools, collect_tools}
use agent_capability_gate.Raw.ExposuresV2.{collect_v2_exposures}
use agent_capability_gate.Raw.ExposuresV3.{collect_v3_exposures}

-- The tools of the configuration; version 1 has to name them.
unfoldable pub raw_tools_of : ℕ → Option (Map RawTool) → Checked (Map RawTool)
raw_tools_of version (some tools) = ok tools
raw_tools_of version none = do
  fail_if (eqb version 1) (invalid "/tools" "required for version 1")
  ok []

unfoldable pub check_server : RawServer → Map RawTool → Checked (Unit {0})
check_server server tools = do
  fail_if (not (server.transport.kind == "stdio"))
      (invalid "/server/transport/kind" "only stdio is supported")
  fail_if (eqb server.limits.request_bytes 0 || ltb max_config_bytes server.limits.request_bytes)
      (invalid "/server/limits/request_bytes" "must be 1..1048576")
  fail_if (eqb server.limits.json_depth 0 || ltb max_schema_depth server.limits.json_depth)
      (invalid "/server/limits/json_depth" "must be 1..32")
  fail_if (ltb max_tools (length tools)) (invalid "/tools" "too many tools")
  fail_if (is_empty_text server.name) (invalid "/server/name" "must not be empty")

-- The checks before the loops.
unfoldable pub check_header : RawConfig → Checked (Map RawTool)
unfolding raw_tools_of check_server
check_header raw = do
  fail_if (not (between 1 3 raw.version)) (invalid "/version" "unsupported version")
  tools ← raw_tools_of raw.version raw.tools
  check_server raw.server tools
  ok tools

-- The reader gives the raw configuration, or the message of its error.
unfoldable pub read_yaml : Result String RawConfig → Checked RawConfig
read_yaml (ok raw) = ok raw
read_yaml (err e) = err (invalid "" ("invalid YAML: " +++ e))

module _ (engine : RegexEngine) where
  unfoldable pub exposures_of :
      ℕ → Tools → List (String × Map RawExposure) → Checked (Map McpExposure × Map McpExposureV3)
  unfolding collect_v2_exposures collect_v3_exposures
  exposures_of version tools raw =
      if eqb version 2
      then (do v2 ← collect_v2_exposures tools raw; ok (v2, []))
      else if eqb version 3
      then (do v3 ← collect_v3_exposures engine tools raw; ok ([], v3))
      else ok ([], [])

  unfoldable pub validate_raw : RawConfig → Map String → Result Fault ValidatedConfig
  unfolding check_header collect_targets collect_tools exposures_of
  validate_raw raw environment = do
    raw_tools ← lift (check_header raw)
    targets ← collect_targets environment raw.version raw.targets
    tools ← lift (collect_tools engine environment raw.version targets raw_tools)
    exposures ← lift (exposures_of raw.version tools targets.raw_exposures)
    ok (record {
      version = raw.version;
      server_name = raw.server.name;
      request_bytes = raw.server.limits.request_bytes;
      json_depth = raw.server.limits.json_depth;
      targets = targets.cli;
      upstream_targets = targets.mcp;
      tools = tools;
      v2_exposures = exposures.0;
      v3_exposures = exposures.1;
      server_environment = environment;
    })

  unfoldable pub parse_config :
      (from_slice_with_options : List ℕ → Result String RawConfig)
      → List ℕ
      → Map String
      → Result Fault ValidatedConfig
  unfolding read_yaml validate_raw
  parse_config from_slice_with_options bytes environment = do
    lift (fail_if (ltb max_config_bytes (length bytes)) (invalid "" "configuration exceeds 1 MiB"))
    raw ← lift (read_yaml (from_slice_with_options bytes))
    validate_raw raw environment
