-- ===== src/Tests/Loaded.antt =====
-- A raw configuration with a CLI tool and an exposure, and what `validate_raw` makes of it.
use agent_capability_gate.Prelude.{
  ℕ, ◌≤◌, ◌≡◌, ◌≢◌, refl, String, true, none, some, List, [], ◌∷◌, ok, err, Result, get,
  contains_key, keys, insert, values, set_of, set_contains, for_each, subst, ok-injective, retain,
}
use agent_capability_gate.Json.{string, of_map, value_eq}
use agent_capability_gate.Json.Order.{numeric_compare}
use agent_capability_gate.Json.Limits.{
  value_exceeds_depth, contains_nul, canonicalize, canonical_number,
}
use agent_capability_gate.Pointer.{decode_ptr}
use agent_capability_gate.Schema.Compile.{
  compile_schema, schema_kind, rejects_required, compile_properties, compile_schema_permissive,
}
use agent_capability_gate.Schema.Keywords.{
  validate_schema_keyword_applicability, required_names, usize_value, numeric_bound,
}
use agent_capability_gate.Faults.{panicked}
use agent_capability_gate.Config.{ValidatedConfig}
use agent_capability_gate.Config.Checks.{
  RawEnvironment, validate_id, absolute_path, validate_limits, validate_environment,
  validate_mcp_tool_name,
}
use agent_capability_gate.Config.Rules.{validate_v3_property_rules}
use agent_capability_gate.Binding.{compile_bindings, schema_at_pointer, resolve_cli}
use agent_capability_gate.Raw.{RawConfig, RawTarget, RawTool}
use agent_capability_gate.Raw.Distinct.{FromMaps}
use agent_capability_gate.Raw.Targets.{collect_targets}
use agent_capability_gate.Raw.Tools.{
  check_target, compile_cli, compile_mcp, output_kind_of, compile_tool, collect_tools,
}
use agent_capability_gate.Raw.ExposuresV3.{collect_v3_exposures}
use agent_capability_gate.Raw.Validate.{
  check_header, exposures_of, validate_raw, parse_config, read_yaml,
}
use agent_capability_gate.Raw.Validate.WellFormed.{
  WellFormed, validate_raw-WellFormed, validate_raw-ne-panicked,
}
use agent_capability_gate.Raw.Validate.Calls.{parse_config-resolve_cli}
use agent_capability_gate.Schema.Validate.{
  check_additional, check_number, check_required, check_shape, check_string, has_kind, in_enum,
  validate_input, validate_value,
}
use agent_capability_gate.Exposure.V3.{insert_fixed, resolve_v3_mcp}
use agent_capability_gate.Tests.Samples.{
  plain_engine, schema_json, recent_commits, sample_input, show_sample, git,
}
use agent_capability_gate.Tests.Remote.{server, commits, public_json, call_json, forwarded_call}

abbrev nothing : RawEnvironment
nothing = record { inherit = []; set = [] }

abbrev raw_git : RawTarget
raw_git = record {
  kind = "cli";
  executable = some "/usr/bin/git";
  transport = none;
  cwd = some "/srv/example-app";
  environment = nothing;
  expose = none;
  limits = record {
    timeout_ms = 5000;
    stdout_bytes = some 65536;
    output_bytes = none;
    stderr_bytes = 4096;
  };
}

abbrev raw_forge : RawTarget
raw_forge = record {
  kind = "mcp";
  executable = none;
  transport = some (record {
    kind = "stdio";
    command = "/usr/bin/forge-mcp";
    args = [];
    cwd = "/srv";
    environment = nothing;
  });
  cwd = none;
  environment = nothing;
  expose = some (
      (
        "list_commits",
        record {
          public_name = some "commits";
          description = none;
          restrict = some (record {
            inputs = none;
            fixed = none;
            properties = some (("repo", of_map (("fixed", string "gate") ∷ [])) ∷ []);
            expose_unlisted_properties = some true;
          });
        },
      )
      ∷ []);
  limits = record {
    timeout_ms = 5000;
    stdout_bytes = none;
    output_bytes = some 65536;
    stderr_bytes = 4096;
  };
}

abbrev raw_tool : RawTool
raw_tool = record {
  title = none;
  description = none;
  annotations = record {
    read_only_hint = none;
    destructive_hint = none;
    idempotent_hint = none;
    open_world_hint = none;
  };
  input_schema = schema_json;
  invoke = record {
    target = "git";
    cli = some (record {
      argv =
          of_map (("literal", string "log") ∷ [])
          ∷ of_map (("literal", string "--max-count") ∷ [])
          ∷ of_map (("input", string "/limit") ∷ [])
          ∷ [];
    });
    mcp = none;
  };
  output = record { kind = "text" };
}

abbrev pub raw_config : RawConfig
raw_config = record {
  version = 3;
  server = record {
    name = "git-history";
    transport = record { kind = "stdio" };
    limits = record { request_bytes = 1048576; json_depth = 32 };
  };
  targets = ("forge", raw_forge) ∷ ("git", raw_git) ∷ [];
  tools = some (("recent_commits", raw_tool) ∷ []);
}

abbrev pub loaded : ValidatedConfig
loaded = record {
  version = 3;
  server_name = "git-history";
  request_bytes = 1048576;
  json_depth = 32;
  targets = ("git", git) ∷ [];
  upstream_targets = ("forge", server) ∷ [];
  tools = ("recent_commits", recent_commits) ∷ [];
  v2_exposures = [];
  v3_exposures = ("commits", commits) ∷ [];
  server_environment = [];
}

pub loads : validate_raw plain_engine raw_config [] ≡ ok loaded
unfolding validate_raw check_header collect_targets collect_tools exposures_of collect_v3_exposures
    for_each validate_id absolute_path validate_limits validate_environment validate_mcp_tool_name
    compile_schema keys get schema_kind validate_schema_keyword_applicability contains_key value_eq
    required_names rejects_required set_of set_contains compile_properties usize_value numeric_bound
    numeric_compare canonicalize canonical_number insert values compile_tool check_target
    compile_cli compile_mcp output_kind_of compile_bindings schema_at_pointer decode_ptr
    validate_v3_property_rules value_exceeds_depth contains_nul
loads = refl

pub from_maps : FromMaps raw_config
unfolding contains_key
from_maps = (((tt, (refl, tt)), tt), (tt, tt))

validate_raw-WellFormed_example : WellFormed loaded
validate_raw-WellFormed_example =
    validate_raw-WellFormed plain_engine raw_config [] loaded from_maps loads

validate_raw-ne-panicked_example : validate_raw plain_engine raw_config [] ≢ err panicked
validate_raw-ne-panicked_example = validate_raw-ne-panicked plain_engine raw_config []

-- A reader that gives the same configuration for every text.
abbrev reader : List ℕ → Result String RawConfig
reader text = ok raw_config

reads : parse_config plain_engine reader (123 ∷ []) [] ≡ ok loaded
unfolding parse_config read_yaml
reads = loads

parse_config-resolve_cli_example :
    (1 ≤ 1048576)
    × WellFormed loaded
    × (resolve_cli show_sample plain_engine loaded "recent_commits" sample_input ≢ err panicked)
parse_config-resolve_cli_example =
    parse_config-resolve_cli plain_engine reader show_sample (123 ∷ []) [] loaded "recent_commits"
      sample_input (λ text raw h. subst FromMaps (ok-injective h) from_maps) reads

pub resolves_loaded :
    resolve_v3_mcp plain_engine loaded "commits" public_json call_json ≡ ok forwarded_call
unfolding resolve_v3_mcp insert_fixed retain get keys contains_key insert set_of set_contains
    value_eq canonicalize compile_schema_permissive schema_kind
    validate_schema_keyword_applicability required_names rejects_required compile_properties
    usize_value numeric_bound validate_input validate_value has_kind check_shape check_additional
    check_required in_enum check_number check_string
resolves_loaded = refl

pub found_loaded : get "commits" loaded.v3_exposures ≡ some commits
unfolding get
found_loaded = refl
