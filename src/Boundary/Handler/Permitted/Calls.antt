-- ===== src/Boundary/Handler/Permitted/Calls.antt =====
-- Calls of tools execute only what is permitted.
use agent_capability_gate.Prelude.{
  String, ◌≡◌, refl, Bool, true, false, Option, none, some, get, is_some, Result, ok, err,
  Bool-cases, inl, inr,
}
use agent_capability_gate.Json.{Value, as_str, get_field, ◌>>?◌}
use agent_capability_gate.Faults.{Fault, rejected, panicked}
use agent_capability_gate.Config.{CompiledTool, McpExposure, McpExposureV3}
use agent_capability_gate.Binding.{resolve_cli}
use agent_capability_gate.Binding.Mcp.{resolve_mcp}
use agent_capability_gate.Exposure.V2.{resolve_v2_mcp}
use agent_capability_gate.Exposure.V3.{resolve_v3_mcp}
use agent_capability_gate.Raw.Validate.WellFormed.{WellFormed}
use agent_capability_gate.Catalog.V2Operations.{V2Operations}
use agent_capability_gate.Catalog.V3.{ListedToolState, ready, blocked, unavailable, CatalogState}
use agent_capability_gate.Catalog.V3.Faithful.{Faithful}
use agent_capability_gate.Catalog.V3.Refresh.{refresh_for_call, refresh_after_notification}
use agent_capability_gate.Catalog.V3.Reach.{Step-Faithful, call, notification}
use agent_capability_gate.Catalog.V3.World.{
  refresh_for_call-keeps, refresh_after_notification-keeps, refresh_for_call-listed,
}
use agent_capability_gate.Boundary.Handler.{Session, Context}
use agent_capability_gate.Boundary.Handler.Call.{
  refused, after_v3, execute_v3, unreachable_v3, call_listed, call_v3, refresh_v2, after_v2,
  execute_v2, missing_v2, call_active, call_v2, call_tool, call_found, call_named, call_name,
  unless_cancelled, handle_call,
}
use agent_capability_gate.Boundary.Handler.Permitted.Guard.{
  by_tool, by_v2, by_v3, Guarded, FaithfulIn, Sound, SoundAfter, write_if_changed-Sound,
}

module _ {W : Type 0} (c : Context W) (I : W → Type 0) (well : WellFormed c.config)
    (g : Guarded c I) where
  refused-Sound :
      {A : Type 0} (id : Option Value) (r : Result Fault A) (go : A → Option (Session W))
      (s : Session W)
      → Sound c I well g s
      → ((a : A) → r ≡ ok a → SoundAfter c I well g (go a))
      → SoundAfter c I well g (refused c id r go s)
  refused-Sound id (ok a) go s h later = later a refl
  refused-Sound id (err (rejected d)) go s h later = h
  refused-Sound id (err panicked) go s h later = tt

  after_v3-Sound :
      (t : String) (state : CatalogState) (r : Bool × W) (s : Session W)
      → Faithful c.engine c.config state.snapshot.tools
      → FaithfulIn c I well g s.catalog
      → I r.1
      → Sound c I well g (after_v3 c t state r s)
  unfolding after_v3
  after_v3-Sound t state (false, w) s f f' h = (h, f')
  after_v3-Sound t state (true, w) s f f' h =
      let r = refresh_after_notification c.engine c.outside c.config t state w in
      write_if_changed-Sound c I well g r.1.changed (record s { catalog = some r.0; world = r.2 })
        (
          refresh_after_notification-keeps c.engine c.outside c.config I g.asks t state w h,
          Step-Faithful c.engine c.outside c.config well state r.0 (notification state t w) f,
        )

  call_listed-Sound :
      (id : Option Value) (name t : String) (arguments : Value) (state : CatalogState)
      (o : Option ListedToolState) (s : Session W)
      → get name state.snapshot.tools ≡ o
      → Faithful c.engine c.config state.snapshot.tools
      → Sound c I well g s
      → SoundAfter c I well g (call_listed c id name t arguments state o s)
  unfolding call_listed execute_v3 unreachable_v3
  call_listed-Sound id name t arguments state none s listed f h = h
  call_listed-Sound id name t arguments state (some (ready tool)) s listed f h =
      refused-Sound id (resolve_v3_mcp c.engine c.config name tool arguments) _ s h
        λ invocation resolved.
          let permitted =
            by_v3 name tool arguments invocation (f.derived name tool listed) resolved in
          let r = c.outside.execute invocation s.world in
          after_v3-Sound t state (c.outside.take_list_changed t r.1) s f h.1
            (g.takes t r.1 (g.executes invocation s.world permitted h.0))
  call_listed-Sound id name t arguments state (some (blocked tool reason)) s listed f h = h
  call_listed-Sound id name t arguments state (some (unavailable tool)) s listed f h = h

  call_v3-Sound :
      (id : Option Value) (name : String) (e : McpExposureV3) (arguments : Value)
      (o : Option CatalogState) (s : Session W)
      → FaithfulIn c I well g o
      → Sound c I well g s
      → SoundAfter c I well g (call_v3 c id name e arguments o s)
  unfolding call_v3 unreachable_v3
  call_v3-Sound id name e arguments none s f h = tt
  call_v3-Sound id name e arguments (some state) s f h =
      let r = refresh_for_call c.engine c.outside c.config e.target_id name state s.world in
      let next =
        Step-Faithful c.engine c.outside c.config well state r.0
          (call state e.target_id name s.world) f in
      let refreshed = record s { catalog = some r.0; world = r.2 } in
      let told = write_if_changed-Sound c I well g r.1.changed refreshed (
        refresh_for_call-keeps c.engine c.outside c.config I g.asks e.target_id name state s.world
            h.0,
        next,
      ) in
      elim (Bool-cases r.1.available) [
        | inl reached ↦ rw reached (
            call_listed-Sound id name e.target_id arguments r.0 r.1.tool_state _
              (refresh_for_call-listed c.engine c.outside c.config e.target_id name state s.world)
              next told)
        | inr missing ↦ rw missing told
      ]

  refresh_v2-Sound :
      (v2 : V2Operations W) (t : String) (s : Session W)
      → c.v2 ≡ some v2
      → Sound c I well g s
      → Sound c I well g (refresh_v2 c v2 t s)
  refresh_v2-Sound v2 t s e h =
      let r = v2.refresh_target t s.world in
      write_if_changed-Sound c I well g r.0 (record s { world = r.1 })
        (g.v2_asks v2 t s.world e h.0, h.1)

  after_v2-Sound :
      (v2 : V2Operations W) (t : String) (r : Bool × W) (s : Session W)
      → c.v2 ≡ some v2
      → FaithfulIn c I well g s.catalog
      → I r.1
      → Sound c I well g (after_v2 c v2 t r s)
  unfolding after_v2
  after_v2-Sound v2 t (false, w) s e f h = (h, f)
  after_v2-Sound v2 t (true, w) s e f h = refresh_v2-Sound v2 t (record s { world = w }) e (h, f)

  call_active-Sound :
      (id : Option Value) (name : String) (v2 : V2Operations W) (t : String) (arguments : Value)
      (o : Option Value) (s : Session W)
      → c.v2 ≡ some v2
      → Sound c I well g s
      → SoundAfter c I well g (call_active c id name v2 t arguments o s)
  unfolding call_active execute_v2 missing_v2
  call_active-Sound id name v2 t arguments none s e h = missing (v2.changed_reason name s.world)
    where
      missing : (o : Option String) → SoundAfter c I well g (missing_v2 c id name o s)
      missing none = h
      missing (some reason) = h
  call_active-Sound id name v2 t arguments (some tool) s e h =
      refused-Sound id (resolve_v2_mcp c.engine c.config name tool arguments) _ s h
        λ invocation resolved.
          let r = c.outside.execute invocation s.world in
          after_v2-Sound v2 t (c.outside.take_list_changed t r.1) s e h.1 (
            g.takes t r.1
              (g.executes invocation s.world (by_v2 name tool arguments invocation resolved) h.0))

  call_v2-Sound :
      (id : Option Value) (name : String) (x : McpExposure) (arguments : Value)
      (o : Option (V2Operations W)) (s : Session W)
      → c.v2 ≡ o
      → Sound c I well g s
      → SoundAfter c I well g (call_v2 c id name x arguments o s)
  unfolding call_v2
  call_v2-Sound id name x arguments none s e h = tt
  call_v2-Sound id name x arguments (some v2) s e h =
      elim (Bool-cases (is_some (v2.public_tool name s.world))) [
        | inl known ↦ rw known (call_active-Sound id name v2 x.target_id arguments _ s e h)
        | inr stale ↦ rw stale (
            call_active-Sound id name v2 x.target_id arguments _ (refresh_v2 c v2 x.target_id s) e
              (refresh_v2-Sound v2 x.target_id s e h))
      ]

  call_tool-Sound :
      (id : Option Value) (name : String) (calls_mcp : Bool) (arguments : Value) (s : Session W)
      → Sound c I well g s
      → SoundAfter c I well g (call_tool c id name calls_mcp arguments s)
  unfolding call_tool
  call_tool-Sound id name true arguments s h =
      refused-Sound id (resolve_mcp c.engine c.config name arguments) _ s h λ invocation resolved.
        (g.executes invocation s.world (by_tool name arguments invocation resolved) h.0, h.1)
  call_tool-Sound id name false arguments s h =
      refused-Sound id (resolve_cli c.show_number c.engine c.config name arguments) _ s h
        λ invocation resolved. (g.runs name arguments invocation s.world resolved h.0, h.1)

  call_found-Sound :
      (id : Option Value) (name : String) (arguments : Value) (o3 : Option McpExposureV3)
      (o2 : Option McpExposure) (tool : Option CompiledTool) (s : Session W)
      → Sound c I well g s
      → SoundAfter c I well g (call_found c id name arguments o3 o2 tool s)
  unfolding call_found
  call_found-Sound id name arguments (some e) o2 tool s h =
      call_v3-Sound id name e arguments s.catalog s h.1 h
  call_found-Sound id name arguments none (some e) tool s h =
      call_v2-Sound id name e arguments c.v2 s refl h
  call_found-Sound id name arguments none none none s h = h
  call_found-Sound id name arguments none none (some tool) s h =
      call_tool-Sound id name (is_some tool.mcp) arguments s h

  unless_cancelled-Sound :
      (id : Option Value) (name : String) (arguments : Value) (r : Bool × W) (s : Session W)
      → I r.1
      → FaithfulIn c I well g s.catalog
      → SoundAfter c I well g (unless_cancelled c id name arguments r s)
  unfolding unless_cancelled call_name
  unless_cancelled-Sound id name arguments (true, w) s h f = (h, f)
  unless_cancelled-Sound id name arguments (false, w) s h f =
      call_found-Sound id name arguments _ _ _ (record s { world = w }) (h, f)

  pub handle_call-Sound :
      (id : Option Value) (params : Value) (s : Session W)
      → Sound c I well g s
      → SoundAfter c I well g (handle_call c id params s)
  unfolding handle_call call_named
  handle_call-Sound none params s h = h
  handle_call-Sound (some id) params s h = named (get_field "name" params >>? as_str)
    where
      named : (o : Option String) → SoundAfter c I well g (call_named c (some id) o params s)
      named none = h
      named (some name) =
          unless_cancelled-Sound (some id) name _ (c.outside.is_cancelled s.world) s
            (g.cancels s.world h.0) h.1
