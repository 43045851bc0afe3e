-- ===== src/Boundary/Handler/Permitted.antt =====
-- Only resolved invocations are executed.
pub mod Guard
pub mod Calls
use agent_capability_gate.Prelude.{
  subst, String, ◌==◌, ◌≡◌, refl, Bool, true, false, Option, none, some, get, is_some, Result, ok,
  err, if◌then◌else◌, Bool-cases, inl, inr,
}
use agent_capability_gate.Json.{Value, as_str, get_field, ◌>>?◌}
use agent_capability_gate.Faults.{Fault, rejected, panicked}
use agent_capability_gate.Config.{
  CompiledTool, McpExposure, McpExposureV3, ResolvedCliInvocation, ResolvedMcpInvocation,
}
use agent_capability_gate.Binding.{resolve_cli}
use agent_capability_gate.Binding.Mcp.{resolve_mcp}
use agent_capability_gate.Exposure.V2.{resolve_v2_mcp}
use agent_capability_gate.Exposure.V3.{resolve_v3_mcp}
use agent_capability_gate.Raw.Validate.WellFormed.{WellFormed}
use agent_capability_gate.Catalog.V2Operations.{V2Operations}
use agent_capability_gate.Catalog.V3.{ListedToolState, ready, blocked, unavailable, CatalogState}
use agent_capability_gate.Catalog.V3.Faithful.{Derived, Faithful}
use agent_capability_gate.Catalog.V3.Refresh.{
  refresh_all, refresh_for_call, refresh_after_notification,
}
use agent_capability_gate.Catalog.V3.Reach.{Step-Faithful, listing, call, notification}
use agent_capability_gate.Catalog.V3.World.{
  Asks, refresh_all-keeps, refresh_for_call-keeps, refresh_after_notification-keeps,
  refresh_for_call-listed,
}
use agent_capability_gate.Boundary.Envelope.{validate_envelope, validate_params}
use agent_capability_gate.Boundary.Messages.{PublicRevision}
use agent_capability_gate.Boundary.Handler.{
  Session, Context, write, write_error, write_if_changed, greet_selected, selected,
  handle_initialize, handle_discover, handle_initialized, list_tools, handle_list,
}
use agent_capability_gate.Boundary.Handler.Request.{
  handle_method, checked_params, checked_envelope, method_of, params_of, handle_request,
}
use agent_capability_gate.Boundary.Handler.Call.{
  refused, after_v3, execute_v3, unreachable_v3, call_listed, call_v3, refresh_v2, after_v2,
  execute_v2, missing_v2, call_active, call_v2, call_tool, call_found, call_named, call_name,
  unless_cancelled, handle_call,
}
use agent_capability_gate.Boundary.Handler.Answers.Calls.{Served}
use agent_capability_gate.Boundary.Handler.Answers.Once.{handle_request-Answered}
use agent_capability_gate.Boundary.Handler.Permitted.Guard.{
  Permitted, by_tool, by_v2, by_v3, Guarded, FaithfulIn, Sound, SoundAfter, write_if_changed-Sound,
}
use agent_capability_gate.Boundary.Handler.Permitted.Calls.{handle_call-Sound}

module _ {W : Type 0} (c : Context W) (I : W → Type 0) (well : WellFormed c.config)
    (g : Guarded c I) where
  list_tools-Sound :
      (id : Option Value) (v2 : Option (V2Operations W)) (catalog : Option CatalogState)
      (s : Session W)
      → c.v2 ≡ v2
      → FaithfulIn c I well g catalog
      → Sound c I well g s
      → Sound c I well g (list_tools c id v2 catalog s)
  unfolding list_tools
  list_tools-Sound id (some v2) catalog s e f h =
      let r = v2.refresh_all s.world in
      write_if_changed-Sound c I well g r.0 (write c _ (record s { world = r.1 }))
        (g.v2_lists v2 s.world e h.0, h.1)
  list_tools-Sound id none (some state) s e f h =
      let r = refresh_all c.engine c.outside c.config state s.world in
      write_if_changed-Sound c I well g r.1.changed
        (write c _ (record s { catalog = some r.0; world = r.2 }))
        (
          refresh_all-keeps c.engine c.outside c.config I g.asks state s.world h.0,
          Step-Faithful c.engine c.outside c.config well state r.0 (listing state s.world) f,
        )
  list_tools-Sound id none none s e f h = h

  handle_initialize-Sound :
      (id : Option Value) (params : Value) (s : Session W)
      → Sound c I well g s
      → SoundAfter c I well g (handle_initialize c id params s)
  unfolding handle_initialize
  handle_initialize-Sound none params s h = h
  handle_initialize-Sound (some id) params s h =
      by_revision (selected c (get_field "protocolVersion" params >>? as_str))
    where
      by_revision :
          (o : Option PublicRevision) → SoundAfter c I well g (greet_selected c (some id) o s)
      by_revision none = h
      by_revision (some revision) = h

  handle_discover-Sound :
      (id : Option Value) (s : Session W)
      → Sound c I well g s
      → SoundAfter c I well g (handle_discover c id s)
  unfolding handle_discover
  handle_discover-Sound none s h = h
  handle_discover-Sound (some id) s h = h

  handle_initialized-Sound :
      (id : Option Value) (s : Session W)
      → Sound c I well g s
      → SoundAfter c I well g (handle_initialized c id s)
  unfolding handle_initialized
  handle_initialized-Sound none s h = h
  handle_initialized-Sound (some id) s h = h

  handle_list-Sound :
      (id : Option Value) (params : Value) (s : Session W)
      → Sound c I well g s
      → SoundAfter c I well g (handle_list c id params s)
  unfolding handle_list
  handle_list-Sound none params s h = h
  handle_list-Sound (some id) params s h = elim (Bool-cases (is_some (get_field "cursor" params))) [
    | inl paged ↦ rw paged h
    | inr whole ↦ rw whole (list_tools-Sound (some id) c.v2 s.catalog s refl h.1 h)
  ]

  handle_method-Sound :
      (id : Option Value) (method : String) (params : Value) (s : Session W)
      → Sound c I well g s
      → SoundAfter c I well g (handle_method c id method params s)
  unfolding handle_method
  handle_method-Sound id method params s h =
      routed (method == "initialize") (method == "server/discover")
        (method == "notifications/initialized") (method == "tools/list") (method == "tools/call")
    where
      routed :
          (a b n l t : Bool)
          → SoundAfter c I well g (
              if a
              then handle_initialize c id params s
              else if b
              then handle_discover c id s
              else if n
              then handle_initialized c id s
              else if l
              then handle_list c id params s
              else if t
              then handle_call c id params s
              else write_error c id "unsupported method" s)
      routed true b n l t = handle_initialize-Sound id params s h
      routed false true n l t = handle_discover-Sound id s h
      routed false false true l t = handle_initialized-Sound id s h
      routed false false false true t = handle_list-Sound id params s h
      routed false false false false true = handle_call-Sound c I well g id params s h
      routed false false false false false = h

  handle_request-SoundAfter :
      (request : Value) (s : Session W)
      → Sound c I well g s
      → SoundAfter c I well g (handle_request c request s)
  unfolding handle_request
  handle_request-SoundAfter request s h = by_envelope (validate_envelope request)
    where
      by_params :
          (o : Option String)
          → SoundAfter c I well g (
              checked_params c o (get_field "id" request) (method_of request) (params_of request) s)
      by_params none =
          handle_method-Sound (get_field "id" request) (method_of request) (params_of request) s h
      by_params (some message) = h

      by_envelope : (o : Option String) → SoundAfter c I well g (checked_envelope c o request s)
      by_envelope none = by_params (validate_params (method_of request) (params_of request))
      by_envelope (some message) = h

  -- Take any property of the world that discoveries, cache writes and the other questions of the broker
  -- keep, that running a command keeps if `resolve_cli` gave it for the configuration, and that sending an
  -- invocation upstream keeps if it is permitted: given by `resolve_mcp`, by `resolve_v2_mcp`, or by
  -- `resolve_v3_mcp` for a public tool derived for the exposure that is called. Over a well-formed
  -- configuration with its catalogs, in a session where the property holds and the ready tools of the
  -- catalog were derived, `handle_request` ends for every request, in such a session.
  pub handle_request-Sound :
      (request : Value) (s : Session W)
      → Served c s
      → Sound c I well g s
      → (out : Session W) × (handle_request c request s ≡ some out)
        × Served c out
        × Sound c I well g out
  handle_request-Sound request s served h =
      let (out, e, _, served') = handle_request-Answered c request s well served in
      (out, e, served', subst (SoundAfter c I well g) e (handle_request-SoundAfter request s h))
