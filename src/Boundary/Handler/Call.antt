-- ===== src/Boundary/Handler/Call.antt =====
-- `tools/call` in `handle_request` of crates/boundary/src/main.rs. A call whose resolution panics, or for
-- which the catalog that an exposure needs is missing, has no session after it.
use agent_capability_gate.Prelude.{
  String, ◌+++◌, Bool, true, false, not, Option, none, some, [], ◌∷◌, get, is_some, Result, ok, err,
  or_default, if◌then◌else◌,
}
use agent_capability_gate.Json.{Value, bool, string, as_str, get_field, of_map, ◌>>?◌}
use agent_capability_gate.Diagnostics.{as_text}
use agent_capability_gate.Faults.{Fault, rejected, panicked}
use agent_capability_gate.Config.{CompiledTool, McpExposure, McpExposureV3, ResolvedMcpInvocation}
use agent_capability_gate.Binding.{resolve_cli}
use agent_capability_gate.Binding.Mcp.{resolve_mcp}
use agent_capability_gate.Exposure.V2.{resolve_v2_mcp}
use agent_capability_gate.Exposure.V3.{resolve_v3_mcp}
use agent_capability_gate.Exposure.Project.{issue_text}
use agent_capability_gate.Catalog.Outside.{ExecutionResult, RuntimeError}
use agent_capability_gate.Catalog.V2Operations.{V2Operations}
use agent_capability_gate.Catalog.V3.{ListedToolState, ready, blocked, unavailable, CatalogState}
use agent_capability_gate.Catalog.V3.Refresh.{refresh_for_call, refresh_after_notification}
use agent_capability_gate.Boundary.Messages.{
  failure, write_tool_error, write_v3_tool_error, write_outcome,
}
use agent_capability_gate.Boundary.Handler.{Session, Context, write, write_error, write_if_changed}

module _ {W : Type 0} (c : Context W) where
  -- A tool error about the definition of an upstream tool, with what the client can do about it.
  abbrev pub details : (code reason : String) → Bool → (action name : String) → Value
  details code reason retryable action name = of_map (
      ("action", string action)
      ∷ ("code", string code)
      ∷ ("reason", string reason)
      ∷ ("retryable", bool retryable)
      ∷ ("tool", string name)
      ∷ [])

  abbrev pub tool_error : Option Value → (code message : String) → Session W → Option (Session W)
  tool_error id code message s = some (write c (write_tool_error id code message s.revision) s)

  abbrev pub v3_error :
      Option Value → (code message : String) → Value → Session W → Option (Session W)
  v3_error id code message about s =
      some (write c (write_v3_tool_error id code message about s.revision) s)

  unfoldable pub unreachable_v3 : Option Value → String → Session W → Option (Session W)
  unreachable_v3 id name s =
      v3_error id "TARGET_UNAVAILABLE"
        "upstream tool metadata is unavailable; retry when the upstream is reachable"
        (details "TARGET_UNAVAILABLE" "UPSTREAM_UNAVAILABLE" true "RETRY" name) s

  -- The call is refused with the diagnostic of its resolution.
  abbrev pub refused :
      {A : Type 0}
      → Option Value
      → Result Fault A
      → (A → Option (Session W))
      → Session W
      → Option (Session W)
  refused id (ok invocation) go s = go invocation
  refused id (err (rejected d)) go s = tool_error id (as_text d.code) d.message s
  refused id (err panicked) go s = none

  abbrev pub write_outcome_to :
      Option Value → Result RuntimeError ExecutionResult × W → Session W → Option (Session W)
  write_outcome_to id (result, w) s =
      some (write c (write_outcome id result s.revision) (record s { world = w }))

  -- After a call, a server that says that its list has changed is asked for it.
  unfoldable pub after_v3 : String → CatalogState → Bool × W → Session W → Session W
  unfolding refresh_after_notification
  after_v3 target_id catalog (false, w) s = record s { world = w }
  after_v3 target_id catalog (true, w) s =
      let (next, refreshed, w2) =
        refresh_after_notification c.engine c.outside c.config target_id catalog w in
      write_if_changed c refreshed.changed (record s { catalog = some next; world = w2 })

  unfoldable pub execute_v3 :
      Option Value → String → CatalogState → Session W → ResolvedMcpInvocation → Option (Session W)
  unfolding after_v3
  execute_v3 id target_id catalog s invocation =
      let (result, w) = c.outside.execute invocation s.world in
      let done = after_v3 target_id catalog (c.outside.take_list_changed target_id w) s in
      some (write c (write_outcome id result done.revision) done)

  -- A call of an exposure by what the catalog lists for it.
  unfoldable pub call_listed :
      Option Value
      → (name target_id : String) → Value
      → CatalogState
      → Option ListedToolState
      → Session W
      → Option (Session W)
  unfolding unreachable_v3 execute_v3 resolve_v3_mcp
  call_listed id name target_id arguments catalog none s =
      some (write c (failure id "TARGET_UNAVAILABLE" "upstream tool metadata is unavailable") s)
  call_listed id name target_id arguments catalog (some (ready tool)) s =
      refused id (resolve_v3_mcp c.engine c.config name tool arguments)
        (execute_v3 id target_id catalog s) s
  call_listed id name target_id arguments catalog (some (blocked tool reason)) s =
      v3_error id "ADMIN_ACTION_REQUIRED"
        (name
          +++ (": upstream definition is incompatible ("
              +++ (issue_text reason
                  +++ ") ; stop retrying and report this tool and reason to the administrator")))
        (details "ADMIN_ACTION_REQUIRED" (issue_text reason) false "CONTACT_ADMIN" name) s
  call_listed id name target_id arguments catalog (some (unavailable tool)) s =
      unreachable_v3 id name s

  unfoldable pub call_v3 :
      Option Value
      → String
      → McpExposureV3
      → Value
      → Option CatalogState
      → Session W
      → Option (Session W)
  unfolding refresh_for_call call_listed unreachable_v3
  call_v3 id name exposure arguments none s = none
  call_v3 id name exposure arguments (some catalog) s =
      let (next, refreshed, w) =
        refresh_for_call c.engine c.outside c.config exposure.target_id name catalog s.world in
      let told =
        write_if_changed c refreshed.changed (record s { catalog = some next; world = w }) in
      if not refreshed.available
      then unreachable_v3 id name told
      else call_listed id name exposure.target_id arguments next refreshed.tool_state told

  -- A refresh of a version-2 target and the notice of it.
  abbrev pub refresh_v2 : V2Operations W → String → Session W → Session W
  refresh_v2 v2 target_id s =
      let (changed, w) = v2.refresh_target target_id s.world in
      write_if_changed c changed (record s { world = w })

  unfoldable pub after_v2 : V2Operations W → String → Bool × W → Session W → Session W
  after_v2 v2 target_id (false, w) s = record s { world = w }
  after_v2 v2 target_id (true, w) s = refresh_v2 v2 target_id (record s { world = w })

  unfoldable pub execute_v2 :
      Option Value
      → V2Operations W
      → String
      → Session W
      → ResolvedMcpInvocation
      → Option (Session W)
  unfolding after_v2
  execute_v2 id v2 target_id s invocation =
      let (result, w) = c.outside.execute invocation s.world in
      let done = after_v2 v2 target_id (c.outside.take_list_changed target_id w) s in
      some (write c (write_outcome id result done.revision) done)

  unfoldable pub missing_v2 : Option Value → String → Option String → Session W → Option (Session W)
  missing_v2 id name (some reason) s =
      tool_error id "TOOL_DEFINITION_CHANGED"
        (name +++ (": " +++ (reason +++ "; refresh tools/list or contact the administrator"))) s
  missing_v2 id name none s =
      tool_error id "TARGET_UNAVAILABLE" "upstream tool metadata is unavailable" s

  unfoldable pub call_active :
      Option Value
      → String
      → V2Operations W
      → String
      → Value
      → Option Value
      → Session W
      → Option (Session W)
  unfolding missing_v2 execute_v2 resolve_v2_mcp
  call_active id name v2 target_id arguments none s =
      missing_v2 id name (v2.changed_reason name s.world) s
  call_active id name v2 target_id arguments (some tool) s =
      refused id (resolve_v2_mcp c.engine c.config name tool arguments)
        (execute_v2 id v2 target_id s) s

  unfoldable pub call_v2 :
      Option Value
      → String
      → McpExposure
      → Value
      → Option (V2Operations W)
      → Session W
      → Option (Session W)
  unfolding call_active
  call_v2 id name exposure arguments none s = none
  call_v2 id name exposure arguments (some v2) s =
      let known =
        if is_some (v2.public_tool name s.world) then s else refresh_v2 v2 exposure.target_id s in
      call_active id name v2 exposure.target_id arguments (v2.public_tool name known.world) known

  unfoldable pub call_tool :
      Option Value → String → (calls_mcp : Bool) → Value → Session W → Option (Session W)
  unfolding resolve_mcp resolve_cli
  call_tool id name true arguments s =
      refused id (resolve_mcp c.engine c.config name arguments)
        (λ invocation. write_outcome_to id (c.outside.execute invocation s.world) s) s
  call_tool id name false arguments s =
      refused id (resolve_cli c.show_number c.engine c.config name arguments)
        (λ invocation. write_outcome_to id (c.outside.execute_cli invocation s.world) s) s

  -- A call of a name, by what the configuration has under it.
  unfoldable pub call_found :
      Option Value
      → String
      → Value
      → Option McpExposureV3
      → Option McpExposure
      → Option CompiledTool
      → Session W
      → Option (Session W)
  unfolding call_v3 call_v2 call_tool
  call_found id name arguments (some exposure) v2 tool s =
      call_v3 id name exposure arguments s.catalog s
  call_found id name arguments none (some exposure) tool s =
      call_v2 id name exposure arguments c.v2 s
  call_found id name arguments none none none s = write_error c id "unknown tool" s
  call_found id name arguments none none (some tool) s =
      call_tool id name (is_some tool.mcp) arguments s

  unfoldable pub call_name : Option Value → String → Value → Session W → Option (Session W)
  unfolding get call_found
  call_name id name arguments s =
      call_found id name arguments (get name c.config.v3_exposures) (get name c.config.v2_exposures)
        (get name c.config.tools) s

  -- A call, unless the broker is shutting down.
  unfoldable pub unless_cancelled :
      Option Value → String → Value → Bool × W → Session W → Option (Session W)
  unfolding call_name
  unless_cancelled id name arguments (true, w) s =
      some (
        write c (failure id "TARGET_UNAVAILABLE" "broker is shutting down")
          (record s { world = w }))
  unless_cancelled id name arguments (false, w) s =
      call_name id name arguments (record s { world = w })

  unfoldable pub call_named : Option Value → Option String → Value → Session W → Option (Session W)
  unfolding unless_cancelled get
  call_named id none params s = write_error c id "tool name is required" s
  call_named id (some name) params s =
      unless_cancelled id name (or_default (get_field "arguments" params) (of_map []))
        (c.outside.is_cancelled s.world) s

  unfoldable pub handle_call : Option Value → Value → Session W → Option (Session W)
  unfolding call_named get
  handle_call none params s = write_error c none "tools/call requires an id" s
  handle_call (some id) params s =
      call_named (some id) (get_field "name" params >>? as_str) params s
