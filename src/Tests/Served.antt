-- ===== src/Tests/Served.antt =====
-- A broker over the loaded configuration, with an upstream server that lists one tool.
use agent_capability_gate.Prelude.{
  All, List, ◌+◌, ◌≤◌, ◌≡◌, ◌↔◌, refl, String, true, false, none, some, Option, [], ◌∷◌, ok, Map,
  get, leb, length, or_else, contains_key, keys, insert, values, retain, pos, arith, set_contains,
  remove, set_insert, set_of,
}
use agent_capability_gate.Config.{ResolvedMcpInvocation}
use agent_capability_gate.Json.{Value, string, number, of_map, get_field, value_eq}
use agent_capability_gate.Json.Numbers.{int}
use agent_capability_gate.Raw.Validate.WellFormed.{WellFormed, validate_raw-WellFormed}
use agent_capability_gate.Catalog.Outside.{Outside, ExecutionResult}
use agent_capability_gate.Catalog.V3.{
  ready, CatalogState, new, initial_tools, list_each, replace_target_projection, project,
  project_or_blocked, projected, adopt_snapshot, unavailable_state, project_or_unavailable,
}
use agent_capability_gate.Catalog.V3.Projection.{listed_for, get-replace_target_projection}
use agent_capability_gate.Catalog.V3.Faithful.{Faithful}
use agent_capability_gate.Catalog.V3.Refresh.{
  refresh_all, refresh_stale, refresh_each, rediscover, discover_target, collect_named,
}
use agent_capability_gate.Catalog.V3.Reach.{
  Reached, start, next, listing, Reached-Faithful, Reached-sealed,
}
use agent_capability_gate.Boundary.Framing.{
  Reader, complete, cut, read_bounded_message, strip_return,
}
use agent_capability_gate.Boundary.Framing.Chunks.{
  framed, stream, Filled, Left, read_bounded_message-Framed,
}
use agent_capability_gate.Boundary.Limits.{request_within_limits}
use agent_capability_gate.Boundary.Limits.Exact.{height, Small, request_within_limits_iff}
use agent_capability_gate.Boundary.Messages.{legacy}
use agent_capability_gate.Boundary.Handler.{Context, Session}
use agent_capability_gate.Boundary.Handler.Request.{handle_request}
use agent_capability_gate.Boundary.Handler.Permitted.Guard.{Permitted, Guarded, Sound}
use agent_capability_gate.Boundary.Handler.Permitted.{handle_request-Sound}
use agent_capability_gate.Boundary.Handler.Answers.{answered}
use agent_capability_gate.Boundary.Handler.Answers.Calls.{Served}
use agent_capability_gate.Boundary.Handler.Answers.Once.{expected, handle_request-Answered}
use agent_capability_gate.Exposure.Project.{derive_v3_public_tool, rule_for}
use agent_capability_gate.Json.Limits.{value_exceeds_depth, contains_nul, canonicalize}
use agent_capability_gate.Boundary.Envelope.{validate_params, validate_envelope}
use agent_capability_gate.Schema.Validate.{
  has_kind, check_shape, check_required, check_additional, validate_value, validate_input,
  check_number, in_enum, check_string,
}
use agent_capability_gate.Exposure.Intersect.{intersect_property_schema}
use agent_capability_gate.Schema.Compile.{
  schema_kind, compile_properties, rejects_required, compile_schema_permissive,
}
use agent_capability_gate.Schema.Keywords.{
  required_names, validate_schema_keyword_applicability, numeric_bound, usize_value,
}
use agent_capability_gate.Diagnostics.{target_failed}
use agent_capability_gate.Tests.Samples.{plain_engine, show_sample}
use agent_capability_gate.Tests.Remote.{
  commits, rules, upstream_json, public_json, call_json, forwarded_call,
}
use agent_capability_gate.Tests.Loaded.{
  raw_config, loaded, loads, from_maps, found_loaded, resolves_loaded,
}

-- "ab" and a line end, cut into three buffers.
abbrev pub buffers : Reader
buffers = ok (97 ∷ []) ∷ ok (98 ∷ 13 ∷ []) ∷ ok (10 ∷ 99 ∷ []) ∷ []

read_bounded_message-Framed_example :
    (rest : Reader) × (read_bounded_message 8 buffers ≡ ok (framed 8 [] (stream buffers), rest))
    × Filled rest
    × (leb (length (cut (stream buffers)).0) 8 ≡ true → Left rest (cut (stream buffers)).1)
read_bounded_message-Framed_example = read_bounded_message-Framed 8 (omega arith) buffers tt

first_line : framed 8 [] (stream buffers) ≡ some (complete (97 ∷ 98 ∷ []))
unfolding cut strip_return
first_line = refl

request_within_limits_iff_example :
    (request_within_limits call_json 1 32 ≡ true) ↔ ((1 + height call_json ≤ 32) × Small call_json)
request_within_limits_iff_example = request_within_limits_iff call_json 1 32

abbrev answer : ExecutionResult
answer = record {
  text = some "done";
  text_blocks = [];
  structured = none;
  is_error = false;
  code = target_failed;
}

-- It lists one tool and executes every call.
abbrev pub upstream : Outside (Unit {0})
upstream = record {
  is_connected = λ id w. (false, w);
  list_tools = λ target w. (some (upstream_json ∷ []), w);
  take_list_changed = λ id w. (false, w);
  execute = λ invocation w. (ok answer, w);
  execute_cli = λ invocation w. (ok answer, w);
  store = λ id tools w. w;
  is_cancelled = λ w. (false, w);
}

abbrev pub no_cache : String → Option (Map Value)
no_cache id = none

abbrev pub first_state : CatalogState
first_state = new plain_engine loaded no_cache

abbrev listed_state : CatalogState
listed_state = (refresh_all plain_engine upstream loaded first_state tt).0

pub well_formed : WellFormed loaded
well_formed = validate_raw-WellFormed plain_engine raw_config [] loaded from_maps loads

reached : Reached plain_engine upstream loaded no_cache listed_state
reached = next first_state listed_state start (listing first_state tt)

Reached-Faithful_example : Faithful plain_engine loaded listed_state.snapshot.tools
Reached-Faithful_example =
    Reached-Faithful plain_engine upstream loaded well_formed no_cache listed_state reached

lists_commits : get "commits" listed_state.snapshot.tools ≡ some (ready public_json)
unfolding adopt_snapshot canonicalize check_additional check_number check_required check_shape
    check_string collect_named compile_properties compile_schema_permissive contains_key
    contains_nul derive_v3_public_tool discover_target get has_kind in_enum initial_tools insert
    intersect_property_schema keys list_each new numeric_bound project project_or_blocked
    project_or_unavailable projected rediscover refresh_all refresh_each refresh_stale
    rejects_required remove replace_target_projection required_names retain rule_for schema_kind
    set_contains set_insert set_of unavailable_state usize_value validate_input
    validate_schema_keyword_applicability validate_value value_eq value_exceeds_depth values
lists_commits = refl

Reached-sealed_example : get_field "repo" forwarded_call.arguments ≡ some (string "gate")
unfolding get contains_key rule_for
Reached-sealed_example =
    Reached-sealed plain_engine upstream loaded well_formed no_cache listed_state "commits" commits
      rules public_json call_json forwarded_call "repo" reached lists_commits found_loaded refl
      resolves_loaded refl

get-replace_target_projection_example :
    get "commits" (replace_target_projection plain_engine loaded "forge" [] [])
    ≡ or_else
        (listed_for
          (λ e. project_or_blocked plain_engine e (get e.upstream_tool []))
          "forge"
          (get "commits" loaded.v3_exposures))
        (get "commits" [])
unfolding contains_key
get-replace_target_projection_example =
    get-replace_target_projection plain_engine loaded "forge" "commits" [] []
      ((refl, tt), (refl, tt))

-- {"id": 5, "jsonrpc": "2.0", "method": "tools/call", "params": {"arguments": …, "name": "commits"}}
abbrev pub request : Value
request = of_map (
    ("id", number (int (pos 5)))
    ∷ ("jsonrpc", string "2.0")
    ∷ ("method", string "tools/call")
    ∷ ("params", of_map (("arguments", call_json) ∷ ("name", string "commits") ∷ []))
    ∷ [])

abbrev pub context : Context (Unit {0})
context = record {
  engine = plain_engine;
  show_number = show_sample;
  outside = upstream;
  config = loaded;
  v2 = none;
  version = "0.1.0";
}

abbrev pub session : Session (Unit {0})
session = record { revision = legacy; catalog = some first_state; world = tt; written = [] }

handle_request-Answered_example :
    (out : Session (Unit {0})) × (handle_request context request session ≡ some out)
    × (answered out.written ≡ expected request)
    × Served context out
handle_request-Answered_example =
    handle_request-Answered context request session well_formed (refl, refl)

expects_one : expected request ≡ some (number (int (pos 5))) ∷ []
unfolding validate_envelope validate_params get keys contains_key
expects_one = refl

-- A world that remembers what is sent upstream.
abbrev pub Log : Type 0
Log = List ResolvedMcpInvocation

abbrev pub logging : Outside Log
logging = record {
  is_connected = λ id w. (false, w);
  list_tools = λ target w. (some (upstream_json ∷ []), w);
  take_list_changed = λ id w. (false, w);
  execute = λ invocation w. (ok answer, invocation ∷ w);
  execute_cli = λ invocation w. (ok answer, w);
  store = λ id tools w. w;
  is_cancelled = λ w. (false, w);
}

abbrev pub logging_context : Context Log
logging_context = record {
  engine = plain_engine;
  show_number = show_sample;
  outside = logging;
  config = loaded;
  v2 = none;
  version = "0.1.0";
}

abbrev pub logging_session : Session Log
logging_session = record { revision = legacy; catalog = some first_state; world = []; written = [] }

-- Everything in the log is permitted.
abbrev pub AllPermitted : Log → Type 0
AllPermitted log = All (Permitted logging_context) log

pub guarded : Guarded logging_context AllPermitted
guarded = record {
  asks = record { connected = λ id w h. h; lists = λ target w h. h; stores = λ id tools w h. h };
  takes = λ id w h. h;
  cancels = λ w h. h;
  executes = λ invocation w permitted h. (permitted, h);
  runs = λ name arguments invocation w resolved h. h;
  v2_lists = λ v2 w e h. absurd (cc e);
  v2_asks = λ v2 id w e h. absurd (cc e);
}

handle_request-Sound_example :
    (out : Session Log) × (handle_request logging_context request logging_session ≡ some out)
    × Served logging_context out
    × Sound logging_context AllPermitted well_formed guarded out
handle_request-Sound_example =
    handle_request-Sound logging_context AllPermitted well_formed guarded request logging_session
      (refl, refl)
      (tt, Reached-Faithful plain_engine logging loaded well_formed no_cache first_state start)
