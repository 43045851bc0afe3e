-- ===== src/Boundary/Handler/Permitted/Guard.antt =====
-- What the handler may execute, and the sessions in which it executes nothing else.
use agent_capability_gate.Prelude.{String, ◌≡◌, Bool, true, false, Option, none, some, ok}
use agent_capability_gate.Json.{Value}
use agent_capability_gate.Config.{ResolvedCliInvocation, ResolvedMcpInvocation}
use agent_capability_gate.Binding.{resolve_cli}
use agent_capability_gate.Binding.Mcp.{resolve_mcp}
use agent_capability_gate.Exposure.V2.{resolve_v2_mcp}
use agent_capability_gate.Exposure.V3.{resolve_v3_mcp}
use agent_capability_gate.Raw.Validate.WellFormed.{WellFormed}
use agent_capability_gate.Catalog.V2Operations.{V2Operations}
use agent_capability_gate.Catalog.V3.{CatalogState}
use agent_capability_gate.Catalog.V3.Faithful.{Derived, Faithful}
use agent_capability_gate.Catalog.V3.World.{Asks}
use agent_capability_gate.Boundary.Handler.{Session, Context, write_if_changed}

module _ {W : Type 0} (c : Context W) where
  -- An invocation that may be sent upstream: one that a tool's bindings give, or an exposure of version 2
  -- for some public tool, or an exposure of version 3 for a public tool that was derived for it.
  pub data Permitted : ResolvedMcpInvocation → Type 0 where
    by_tool :
        (name : String) (arguments : Value) (invocation : ResolvedMcpInvocation)
        → resolve_mcp c.engine c.config name arguments ≡ ok invocation
        → Permitted invocation
    by_v2 :
        (name : String) (tool arguments : Value) (invocation : ResolvedMcpInvocation)
        → resolve_v2_mcp c.engine c.config name tool arguments ≡ ok invocation
        → Permitted invocation
    by_v3 :
        (name : String) (tool arguments : Value) (invocation : ResolvedMcpInvocation)
        → Derived c.engine c.config name tool
        → resolve_v3_mcp c.engine c.config name tool arguments ≡ ok invocation
        → Permitted invocation

  -- A property of the world that everything but executions keeps, and executions of what is permitted.
  pub record Guarded (I : W → Type 0) : Type 0 where
    pub asks : Asks c.outside I
    pub takes : (id : String) (w : W) → I w → I (c.outside.take_list_changed id w).1
    pub cancels : (w : W) → I w → I (c.outside.is_cancelled w).1
    pub executes :
        (invocation : ResolvedMcpInvocation) (w : W)
        → Permitted invocation
        → I w
        → I (c.outside.execute invocation w).1
    pub runs :
        (name : String) (arguments : Value) (invocation : ResolvedCliInvocation) (w : W)
        → resolve_cli c.show_number c.engine c.config name arguments ≡ ok invocation
        → I w
        → I (c.outside.execute_cli invocation w).1
    pub v2_lists : (v2 : V2Operations W) (w : W) → c.v2 ≡ some v2 → I w → I (v2.refresh_all w).1
    pub v2_asks :
        (v2 : V2Operations W) (id : String) (w : W)
        → c.v2 ≡ some v2
        → I w
        → I (v2.refresh_target id w).1

module _ {W : Type 0} (c : Context W) (I : W → Type 0) (well : WellFormed c.config)
    (g : Guarded c I) where
  abbrev pub FaithfulIn : Option CatalogState → Type 0
  FaithfulIn none = Unit
  FaithfulIn (some state) = Faithful c.engine c.config state.snapshot.tools

  -- The property holds of the world, and what the catalog lists as ready was derived.
  abbrev pub Sound : Session W → Type 0
  Sound s = I s.world × FaithfulIn s.catalog

  abbrev pub SoundAfter : Option (Session W) → Type 0
  SoundAfter none = Unit
  SoundAfter (some s) = Sound s

  pub write_if_changed-Sound :
      (changed : Bool) (s : Session W) → Sound s → Sound (write_if_changed c changed s)
  write_if_changed-Sound true s h = h
  write_if_changed-Sound false s h = h
