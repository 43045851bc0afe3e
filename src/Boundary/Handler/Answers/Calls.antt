-- ===== src/Boundary/Handler/Answers/Calls.antt =====
-- Each call of a tool is answered once.
use agent_capability_gate.Prelude.{
  String, ◌≡◌, refl, sym, ◌∙◌, subst, Bool, true, false, Option, none, some, [], Map, get, is_some,
  some_of_is_some, Bool-cases, inl, inr, eqb,
}
use agent_capability_gate.Json.{Value, as_str, get_field, ◌>>?◌}
use agent_capability_gate.Config.{CompiledTool, McpExposure, McpExposureV3, ResolvedMcpInvocation}
use agent_capability_gate.Binding.{resolve_cli}
use agent_capability_gate.Binding.Cli.{resolve_cli-NoPanic}
use agent_capability_gate.Binding.Mcp.{resolve_mcp}
use agent_capability_gate.Binding.Mcp.Total.{resolve_mcp-NoPanic}
use agent_capability_gate.Exposure.V2.{resolve_v2_mcp}
use agent_capability_gate.Exposure.V2.Total.{resolve_v2_mcp-NoPanic}
use agent_capability_gate.Exposure.V3.{resolve_v3_mcp}
use agent_capability_gate.Exposure.V3.Total.{resolve_v3_mcp-NoPanic}
use agent_capability_gate.Raw.Validate.WellFormed.{WellFormed, ToolsFit-of_WellFormed}
use agent_capability_gate.Catalog.V2Operations.{V2Operations}
use agent_capability_gate.Catalog.V3.{ListedToolState, ready, blocked, unavailable, CatalogState}
use agent_capability_gate.Catalog.V3.Refresh.{refresh_for_call, refresh_after_notification}
use agent_capability_gate.Boundary.Handler.{Session, Context, write_if_changed}
use agent_capability_gate.Boundary.Handler.Call.{
  after_v3, execute_v3, unreachable_v3, call_listed, call_v3, refresh_v2, after_v2, execute_v2,
  missing_v2, call_active, call_v2, call_tool, call_found, call_named, call_name, unless_cancelled,
  handle_call,
}
use agent_capability_gate.Boundary.Handler.Answers.{
  Quiet, AnsweredOnce, written-AnsweredOnce, write_if_changed-Quiet, AnsweredOnce-after,
  refused-AnsweredOnce, write_tool_error-Answering, write_v3_tool_error-Answering,
  write_outcome-Answering,
}

module _ {W : Type 0} (c : Context W) where
  after_v3-Quiet :
      (target_id : String) (catalog : CatalogState) (r : Bool × W) (s : Session W)
      → is_some s.catalog ≡ true
      → Quiet s (after_v3 c target_id catalog r s)
  unfolding after_v3
  after_v3-Quiet t catalog (false, w) s there = (refl, refl)
  after_v3-Quiet t catalog (true, w) s there =
      let r = refresh_after_notification c.engine c.outside c.config t catalog w in
      write_if_changed-Quiet c r.1.changed s (record s { catalog = some r.0; world = r.2 })
        (refl, sym there)

  execute_v3-AnsweredOnce :
      (id : Option Value) (target_id : String) (catalog : CatalogState) (s : Session W)
      (invocation : ResolvedMcpInvocation)
      → is_some s.catalog ≡ true
      → AnsweredOnce id s (execute_v3 c id target_id catalog s invocation)
  unfolding execute_v3
  execute_v3-AnsweredOnce id t catalog s invocation there =
      let r = c.outside.execute invocation s.world in
      let after = c.outside.take_list_changed t r.1 in
      written-AnsweredOnce c id _ s (after_v3 c t catalog after s)
        (after_v3-Quiet t catalog after s there) (write_outcome-Answering id r.0 _)

  unreachable_v3-AnsweredOnce :
      (id : Option Value) (name : String) (s : Session W)
      → AnsweredOnce id s (unreachable_v3 c id name s)
  unfolding unreachable_v3
  unreachable_v3-AnsweredOnce id name s =
      written-AnsweredOnce c id _ s s (refl, refl)
        (write_v3_tool_error-Answering id _ _ _ s.revision)

  call_listed-AnsweredOnce :
      (id : Option Value) (name target_id : String) (arguments : Value) (catalog : CatalogState)
      (o : Option ListedToolState) (s : Session W)
      → is_some s.catalog ≡ true
      → AnsweredOnce id s (call_listed c id name target_id arguments catalog o s)
  unfolding call_listed
  call_listed-AnsweredOnce id name t arguments catalog none s there =
      written-AnsweredOnce c id _ s s (refl, refl) refl
  call_listed-AnsweredOnce id name t arguments catalog (some (ready tool)) s there =
      refused-AnsweredOnce c id (resolve_v3_mcp c.engine c.config name tool arguments) _ s
        (resolve_v3_mcp-NoPanic c.engine c.config name tool arguments)
        (λ invocation _. execute_v3-AnsweredOnce id t catalog s invocation there)
  call_listed-AnsweredOnce id name t arguments catalog (some (blocked tool reason)) s there =
      written-AnsweredOnce c id _ s s (refl, refl)
        (write_v3_tool_error-Answering id _ _ _ s.revision)
  call_listed-AnsweredOnce id name t arguments catalog (some (unavailable tool)) s there =
      unreachable_v3-AnsweredOnce id name s

  call_v3-AnsweredOnce :
      (id : Option Value) (name : String) (e : McpExposureV3) (arguments : Value)
      (catalog : CatalogState) (s : Session W)
      → is_some s.catalog ≡ true
      → AnsweredOnce id s (call_v3 c id name e arguments (some catalog) s)
  unfolding call_v3
  call_v3-AnsweredOnce id name e arguments catalog s there =
      let r = refresh_for_call c.engine c.outside c.config e.target_id name catalog s.world in
      let refreshed = record s { catalog = some r.0; world = r.2 } in
      let told = write_if_changed c r.1.changed refreshed in
      let quiet = write_if_changed-Quiet c r.1.changed s refreshed (refl, sym there) in
      AnsweredOnce-after c id s told _ quiet (elim (Bool-cases r.1.available) [
        | inl reached ↦ rw reached (
            call_listed-AnsweredOnce id name e.target_id arguments r.0 r.1.tool_state told
              (quiet.1 ∙ there))
        | inr missing ↦ rw missing (unreachable_v3-AnsweredOnce id name told)
      ])

  refresh_v2-Quiet :
      (v2 : V2Operations W) (target_id : String) (s t : Session W)
      → Quiet s t
      → Quiet s (refresh_v2 c v2 target_id t)
  refresh_v2-Quiet v2 target_id s t q =
      let r = v2.refresh_target target_id t.world in
      write_if_changed-Quiet c r.0 s (record t { world = r.1 }) q

  after_v2-Quiet :
      (v2 : V2Operations W) (target_id : String) (r : Bool × W) (s : Session W)
      → Quiet s (after_v2 c v2 target_id r s)
  unfolding after_v2
  after_v2-Quiet v2 t (false, w) s = (refl, refl)
  after_v2-Quiet v2 t (true, w) s = refresh_v2-Quiet v2 t s (record s { world = w }) (refl, refl)

  call_active-AnsweredOnce :
      (id : Option Value) (name : String) (v2 : V2Operations W) (target_id : String)
      (arguments : Value) (o : Option Value) (s : Session W)
      → AnsweredOnce id s (call_active c id name v2 target_id arguments o s)
  unfolding call_active missing_v2 execute_v2
  call_active-AnsweredOnce id name v2 t arguments none s = missing (v2.changed_reason name s.world)
    where
      missing : (o : Option String) → AnsweredOnce id s (missing_v2 c id name o s)
      missing none =
          written-AnsweredOnce c id _ s s (refl, refl)
            (write_tool_error-Answering id _ _ s.revision)
      missing (some reason) =
          written-AnsweredOnce c id _ s s (refl, refl)
            (write_tool_error-Answering id _ _ s.revision)
  call_active-AnsweredOnce id name v2 t arguments (some tool) s =
      refused-AnsweredOnce c id (resolve_v2_mcp c.engine c.config name tool arguments) _ s
        (resolve_v2_mcp-NoPanic c.engine c.config name tool arguments)
        λ invocation _.
          let r = c.outside.execute invocation s.world in
          let after = c.outside.take_list_changed t r.1 in
          written-AnsweredOnce c id _ s (after_v2 c v2 t after s) (after_v2-Quiet v2 t after s)
            (write_outcome-Answering id r.0 _)

  call_v2-AnsweredOnce :
      (id : Option Value) (name : String) (e : McpExposure) (arguments : Value)
      (v2 : V2Operations W) (s : Session W)
      → AnsweredOnce id s (call_v2 c id name e arguments (some v2) s)
  unfolding call_v2
  call_v2-AnsweredOnce id name e arguments v2 s =
      elim (Bool-cases (is_some (v2.public_tool name s.world))) [
        | inl known ↦ rw known (call_active-AnsweredOnce id name v2 e.target_id arguments _ s)
        | inr stale ↦ rw stale (
            let asked = refresh_v2 c v2 e.target_id s in
            AnsweredOnce-after c id s asked _ (refresh_v2-Quiet v2 e.target_id s s (refl, refl))
              (call_active-AnsweredOnce id name v2 e.target_id arguments _ asked))
      ]

  call_tool-AnsweredOnce :
      (id : Option Value) (name : String) (calls_mcp : Bool) (arguments : Value) (s : Session W)
      → WellFormed c.config
      → AnsweredOnce id s (call_tool c id name calls_mcp arguments s)
  unfolding call_tool
  call_tool-AnsweredOnce id name true arguments s w =
      refused-AnsweredOnce c id (resolve_mcp c.engine c.config name arguments) _ s
        (resolve_mcp-NoPanic c.engine c.config name arguments)
        λ invocation _.
          written-AnsweredOnce c id _ s _ (refl, refl) (write_outcome-Answering id _ s.revision)
  call_tool-AnsweredOnce id name false arguments s w =
      refused-AnsweredOnce c id (resolve_cli c.show_number c.engine c.config name arguments) _ s
        (resolve_cli-NoPanic c.show_number c.engine c.config name arguments
          (ToolsFit-of_WellFormed c.config w))
        λ invocation _.
          written-AnsweredOnce c id _ s _ (refl, refl) (write_outcome-Answering id _ s.revision)

  -- The catalogs are there as the version of the configuration asks.
  abbrev pub Served : Session W → Type 0
  Served s = (is_some c.v2 ≡ eqb c.config.version 2) × (is_some s.catalog ≡ eqb c.config.version 3)

  -- An exposure stands in a configuration of its version only.
  version_of_exposure :
      {V : Type 0} (name : String) (m : Map V) (e : V) (is_version : Bool)
      → (is_version ≡ false → m ≡ [])
      → get name m ≡ some e
      → is_version ≡ true
  unfolding get
  version_of_exposure name m e true only found = refl
  version_of_exposure name m e false only found =
      absurd (none-ne-some (subst (λ l. get name l ≡ some e) (only refl) found))
    where
      none-ne-some : {V : Type 0} {v : V} → none ≡ some v → ⊥
      none-ne-some h = cc

  call_found-AnsweredOnce :
      (id : Option Value) (name : String) (arguments : Value) (o3 : Option McpExposureV3)
      (o2 : Option McpExposure) (tool : Option CompiledTool) (s : Session W)
      → WellFormed c.config
      → Served s
      → get name c.config.v3_exposures ≡ o3
      → get name c.config.v2_exposures ≡ o2
      → AnsweredOnce id s (call_found c id name arguments o3 o2 tool s)
  unfolding call_found
  call_found-AnsweredOnce id name arguments (some e) o2 tool s w (has_v2, has_v3) found e2 =
      let there =
        has_v3
        ∙ version_of_exposure name c.config.v3_exposures e (eqb c.config.version 3) w.of_version.1
            found in
      let (catalog, here) = some_of_is_some s.catalog there in
      subst (λ o. AnsweredOnce id s (call_v3 c id name e arguments o s)) (sym here)
        (call_v3-AnsweredOnce id name e arguments catalog s there)
  call_found-AnsweredOnce id name arguments none (some e) tool s w (has_v2, has_v3) e3 found =
      let there =
        has_v2
        ∙ version_of_exposure name c.config.v2_exposures e (eqb c.config.version 2) w.of_version.0
            found in
      let (v2, here) = some_of_is_some c.v2 there in
      subst (λ o. AnsweredOnce id s (call_v2 c id name e arguments o s)) (sym here)
        (call_v2-AnsweredOnce id name e arguments v2 s)
  call_found-AnsweredOnce id name arguments none none none s w served e3 e2 =
      written-AnsweredOnce c id _ s s (refl, refl) refl
  call_found-AnsweredOnce id name arguments none none (some tool) s w served e3 e2 =
      call_tool-AnsweredOnce id name (is_some tool.mcp) arguments s w

  call_name-AnsweredOnce :
      (id : Option Value) (name : String) (arguments : Value) (s : Session W)
      → WellFormed c.config
      → Served s
      → AnsweredOnce id s (call_name c id name arguments s)
  unfolding call_name
  call_name-AnsweredOnce id name arguments s w served =
      call_found-AnsweredOnce id name arguments _ _ (get name c.config.tools) s w served refl refl

  unless_cancelled-AnsweredOnce :
      (id : Option Value) (name : String) (arguments : Value) (r : Bool × W) (s : Session W)
      → WellFormed c.config
      → Served s
      → AnsweredOnce id s (unless_cancelled c id name arguments r s)
  unfolding unless_cancelled
  unless_cancelled-AnsweredOnce id name arguments (true, w) s well served =
      written-AnsweredOnce c id _ s (record s { world = w }) (refl, refl) refl
  unless_cancelled-AnsweredOnce id name arguments (false, w) s well served =
      call_name-AnsweredOnce id name arguments (record s { world = w }) well served

  call_named-AnsweredOnce :
      (id : Option Value) (name : Option String) (params : Value) (s : Session W)
      → WellFormed c.config
      → Served s
      → AnsweredOnce id s (call_named c id name params s)
  unfolding call_named
  call_named-AnsweredOnce id none params s well served =
      written-AnsweredOnce c id _ s s (refl, refl) refl
  call_named-AnsweredOnce id (some name) params s well served =
      unless_cancelled-AnsweredOnce id name _ (c.outside.is_cancelled s.world) s well served

  pub handle_call-AnsweredOnce :
      (id : Option Value) (params : Value) (s : Session W)
      → WellFormed c.config
      → Served s
      → AnsweredOnce id s (handle_call c id params s)
  unfolding handle_call
  handle_call-AnsweredOnce none params s well served =
      written-AnsweredOnce c none _ s s (refl, refl) refl
  handle_call-AnsweredOnce (some id) params s well served =
      call_named-AnsweredOnce (some id) (get_field "name" params >>? as_str) params s well served
