-- ===== src/Boundary/Handler.antt =====
-- `handle_request` of crates/boundary/src/main.rs: the answer to one request. The requests run as tasks of
-- their own; here a request runs to its end before the next one. The debug log is not modelled.
pub mod Call
pub mod Request
pub mod Answers
pub mod Permitted
use agent_capability_gate.Prelude.{
  String, ◌+++◌, ◌==◌, Bool, true, false, not, ◌&&◌, ◌||◌, Option, none, some, List, [], ◌∷◌, ◌++◌,
  Map, get, contains_key, is_some, Result, ok, err, or_default, if◌then◌else◌,
}
use agent_capability_gate.Json.{
  Value, bool, string, as_str, get_field, of_map, of_list, ◌>>?◌, is_some_and,
}
use agent_capability_gate.Diagnostics.{as_text}
use agent_capability_gate.Schema.Regex.{RegexEngine}
use agent_capability_gate.Json.Numbers.{Number}
use agent_capability_gate.Faults.{Fault, rejected, panicked}
use agent_capability_gate.Config.{
  ValidatedConfig, McpExposure, McpExposureV3, ResolvedCliInvocation, ResolvedMcpInvocation,
}
use agent_capability_gate.Config.Listing.{tools_json}
use agent_capability_gate.Binding.{resolve_cli}
use agent_capability_gate.Binding.Mcp.{resolve_mcp}
use agent_capability_gate.Exposure.V2.{resolve_v2_mcp}
use agent_capability_gate.Exposure.V3.{resolve_v3_mcp}
use agent_capability_gate.Exposure.Project.{issue_text}
use agent_capability_gate.Catalog.Outside.{Outside, ExecutionResult, RuntimeError}
use agent_capability_gate.Catalog.V2Operations.{V2Operations}
use agent_capability_gate.Catalog.V3.{ListedToolState, ready, blocked, unavailable, CatalogState}
use agent_capability_gate.Catalog.V3.Refresh.{
  RefreshOutcome, refresh_all, refresh_for_call, refresh_after_notification,
}
use agent_capability_gate.Boundary.Envelope.{validate_envelope, validate_params}
use agent_capability_gate.Boundary.Messages.{
  PublicRevision, modern, legacy, Message, reply, failure, list_changed, write_tool_error,
  write_v3_tool_error, write_outcome,
}

-- What the tasks share: the negotiated revision, the version-3 catalog, the world, and what is written.
pub record Session (W : Type 0) : Type 0 where
  pub revision : PublicRevision
  pub catalog : Option CatalogState
  pub world : W
  pub written : List Message

-- What the handler is given; `version` is the version of the package.
pub record Context (W : Type 0) : Type 0 where
  pub engine : RegexEngine
  pub show_number : Number → String
  pub outside : Outside W
  pub config : ValidatedConfig
  pub v2 : Option (V2Operations W)
  pub version : String

module _ {W : Type 0} (c : Context W) where
  abbrev pub write : Message → Session W → Session W
  write message s = record s { written = s.written ++ message ∷ [] }

  abbrev pub write_error : Option Value → String → Session W → Option (Session W)
  write_error id message s = some (write (failure id "INVALID_ARGUMENTS" message) s)

  abbrev pub write_if_changed : Bool → Session W → Session W
  write_if_changed true s = write list_changed s
  write_if_changed false s = s

  -- `initialize` without a version is the legacy revision.
  abbrev pub selected : Option String → Option PublicRevision
  selected none = some legacy
  selected (some version) =
      if version == "2025-11-25"
      then some legacy
      else if version == "2026-07-28"
      then some modern
      else none

  abbrev revision_text : PublicRevision → String
  revision_text modern = "2026-07-28"
  revision_text legacy = "2025-11-25"

  unfoldable pub server_json : PublicRevision → Session W → Value
  server_json revision s =
      let changes =
        if is_some c.v2 || is_some s.catalog
        then of_map (("listChanged", bool true) ∷ [])
        else of_map [] in
      of_map (
        ("capabilities", of_map (("tools", changes) ∷ []))
        ∷ ("protocolVersion", string (revision_text revision))
        ∷ (
          "serverInfo",
          of_map (("name", string c.config.server_name) ∷ ("version", string c.version) ∷ []),
        )
        ∷ [])

  abbrev pub greet : Option Value → PublicRevision → Session W → Option (Session W)
  greet id revision s =
      let chosen = record s { revision = revision } in
      some (write (reply id (server_json revision chosen)) chosen)

  abbrev pub greet_selected : Option Value → Option PublicRevision → Session W → Option (Session W)
  greet_selected id none s = write_error id "unsupported protocol version" s
  greet_selected id (some revision) s = greet id revision s

  unfoldable pub handle_initialize : Option Value → Value → Session W → Option (Session W)
  unfolding server_json get
  handle_initialize none params s = write_error none "initialize requires an id" s
  handle_initialize (some id) params s =
      greet_selected (some id) (selected (get_field "protocolVersion" params >>? as_str)) s

  unfoldable pub handle_discover : Option Value → Session W → Option (Session W)
  unfolding server_json
  handle_discover none s = write_error none "server/discover requires an id" s
  handle_discover (some id) s = greet (some id) modern s

  unfoldable pub handle_initialized : Option Value → Session W → Option (Session W)
  handle_initialized none s = some s
  handle_initialized (some id) s = write_error (some id) "notification must not have an id" s

  unfoldable pub list_tools :
      Option Value → Option (V2Operations W) → Option CatalogState → Session W → Session W
  unfolding refresh_all tools_json
  list_tools id (some v2) catalog s =
      let (changed, w) = v2.refresh_all s.world in
      write_if_changed changed (write (reply id (v2.list_json w)) (record s { world = w }))
  list_tools id none (some catalog) s =
      let (next, refreshed, w) = refresh_all c.engine c.outside c.config catalog s.world in
      write_if_changed refreshed.changed
        (write (reply id refreshed.response) (record s { catalog = some next; world = w }))
  list_tools id none none s = write (reply id (tools_json c.config)) s

  unfoldable pub handle_list : Option Value → Value → Session W → Option (Session W)
  unfolding list_tools get
  handle_list none params s = write_error none "tools/list requires an id" s
  handle_list (some id) params s =
      if is_some (get_field "cursor" params)
      then write_error (some id) "pagination is unsupported" s
      else some (list_tools (some id) c.v2 s.catalog s)
