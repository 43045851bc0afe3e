-- ===== src/Raw/Tools/Fits.antt =====
-- What the loop over the tools establishes of the compiled tools.
use agent_capability_gate.Prelude.{
  ℕ, String, ◌==◌, ◌≡◌, refl, Bool, true, false, not, ◌&&◌, ◌||◌, Option, none, some, List, [], any,
  All, All-intro, All-insert, Map, contains_key, values, or_default, leb, is_some, ok, err,
  >>=-eq-ok, fail_if, fail_if-eq-ok, ok-injective, for_each, for_each-preserves, if◌then◌else◌,
  true_of_not, arith,
}
use agent_capability_gate.Diagnostics.{invalid, ◌/+◌}
use agent_capability_gate.Schema.{CompiledSchema}
use agent_capability_gate.Schema.Regex.{RegexEngine}
use agent_capability_gate.Schema.Compile.{compile_schema}
use agent_capability_gate.Schema.Compile.Closed.{compile_schema-IsClosed}
use agent_capability_gate.Config.{
  CliBinding, McpInvoke, OutputKind, text, json, structured, mcp_auto, CompiledTool,
}
use agent_capability_gate.Config.Checks.{validate_id}
use agent_capability_gate.Binding.{compile_bindings}
use agent_capability_gate.Binding.Fits.{BindingFits, compile_bindings-BindingFits}
use agent_capability_gate.Binding.Cli.{ToolFits}
use agent_capability_gate.Raw.{RawTool, RawCliInvoke, RawMcpInvoke}
use agent_capability_gate.Raw.Targets.{Targets}
use agent_capability_gate.Raw.Tools.{
  Tools, check_target, compile_cli, compile_mcp, same, output_kind_of, compile_tool, add_tool,
  collect_tools,
}

-- Only a CLI tool gives json, and only an MCP tool structured output.
abbrev pub KindFits : OutputKind → (is_mcp : Bool) → Type 0
KindFits text b = Unit
KindFits json b = b ≡ false
KindFits structured b = b ≡ true
KindFits mcp_auto b = ⊥

-- The target of the tool is known; a tool calls an upstream tool or runs a command, not both; from
-- version 2 on it runs a command on a cli target.
abbrev pub TargetFits : ℕ → Targets → CompiledTool → Type 0
TargetFits version targets tool =
    ((contains_key tool.target targets.cli || contains_key tool.target targets.mcp) ≡ true)
    × (is_some tool.mcp ≡ true → (contains_key tool.target targets.mcp ≡ true) × (tool.argv ≡ []))
    × (leb 2 version ≡ true
        → (contains_key tool.target targets.cli ≡ true) × (is_some tool.mcp ≡ false))

abbrev pub ToolSound : ℕ → Targets → String × CompiledTool → Type 0
ToolSound version targets (name, tool) =
    (tool.name ≡ name)
    × ToolFits tool
    × KindFits tool.output_kind (is_some tool.mcp)
    × TargetFits version targets tool

compile_cli-fits :
    (cli : Option RawCliInvoke) (s : CompiledSchema) (path : String)
    (argv : Option (List CliBinding))
    → compile_cli cli s path ≡ ok argv
    → All (BindingFits s) (or_default argv [])
unfolding compile_cli
compile_cli-fits none s path argv h = rw (← ok-injective h) tt
compile_cli-fits (some cli) s path argv h =
    let (bs, e, h0) = >>=-eq-ok (compile_bindings cli.argv s (path /+ "invoke/cli/argv")) _ h in
    rw (← ok-injective h0) (compile_bindings-BindingFits cli.argv s _ bs e)

-- Without an MCP invocation none is compiled, and with one the target is an mcp target.
compile_mcp-fits :
    (environment : Map String) (mcp : Option RawMcpInvoke) (upstream : Bool) (s : CompiledSchema)
    (path : String) (out : Option McpInvoke)
    → compile_mcp environment mcp upstream s path ≡ ok out
    → (is_some mcp ≡ false → is_some out ≡ false) × (is_some out ≡ true → upstream ≡ true)
unfolding compile_mcp
compile_mcp-fits environment none upstream s path out h =
    rw (← ok-injective h) ((λ e. refl), (λ e. cc))
compile_mcp-fits environment (some mcp) upstream s path out h =
    let (_, e, _) = >>=-eq-ok (fail_if (not upstream) _) _ h in
    ((λ e. cc), λ _. true_of_not upstream (fail_if-eq-ok _ _ e))

output_kind_of-KindFits :
    (kind : String) (is_mcp : Bool) (path : String) (k : OutputKind)
    → output_kind_of kind is_mcp path ≡ ok k
    → KindFits k is_mcp
unfolding output_kind_of
output_kind_of-KindFits kind b path k h =
    cases (kind == "text") (kind == "json") (kind == "structured") b h
  where
    cases :
        (x y z b : Bool)
        → (if x
            then ok text
            else if y && not b
            then ok json
            else if z && b
            then ok structured
            else err (invalid (path /+ "output/kind") "output kind is incompatible with target"))
          ≡ ok k
        → KindFits k b
    cases true y z b h = rw (← ok-injective h) tt
    cases false true z false h = rw (← ok-injective h) refl
    cases false true true true h = rw (← ok-injective h) refl
    cases false true false true h = cc
    cases false false true true h = rw (← ok-injective h) refl
    cases false false false true h = cc
    cases false false true false h = cc
    cases false false false false h = cc

check_target-fits :
    (version : ℕ) (path : String) (tool : RawTool) (targets : Targets) (u : Unit {0})
    → check_target version path tool targets ≡ ok u
    → (leb 2 version ≡ true → is_some tool.invoke.mcp ≡ false)
      × ((contains_key tool.invoke.target targets.cli
            || contains_key tool.invoke.target targets.mcp)
          ≡ true)
unfolding check_target
check_target-fits version path tool targets u h =
    let (_, e, h0) = >>=-eq-ok (fail_if (leb 2 version && is_some tool.invoke.mcp) _) _ h in
    (
      cli_only (leb 2 version) (is_some tool.invoke.mcp) (fail_if-eq-ok _ _ e),
      known (contains_key tool.invoke.target targets.cli)
          (contains_key tool.invoke.target targets.mcp) (fail_if-eq-ok _ _ h0),
    )
  where
    cli_only : (a b : Bool) → (a && b) ≡ false → a ≡ true → b ≡ false
    cli_only a b h e = ground arith

    known : (a b : Bool) → (not a && not b) ≡ false → (a || b) ≡ true
    known a b h = ground arith

no_argv :
    {A B : Type 0} (argv : Option (List A)) (mcp : Option B)
    → same (is_some argv) (is_some mcp) ≡ false
    → is_some mcp ≡ true
    → or_default argv [] ≡ []
no_argv none mcp h e = refl
no_argv (some a) mcp h e = cc

module _ (engine : RegexEngine) (environment : Map String) where
  compile_tool-ToolSound :
      (version : ℕ) (name : String) (tool : RawTool) (targets : Targets) (out : CompiledTool)
      → compile_tool engine environment version name tool targets ≡ ok out
      → ToolSound version targets (name, out)
  unfolding compile_tool
  compile_tool-ToolSound version name tool targets out h =
      let path = "/tools" /+ name in
      let target = tool.invoke.target in
      let (u, e, h0) = >>=-eq-ok (check_target version path tool targets) _ h in
      let (s, e0, h1) =
        >>=-eq-ok (compile_schema engine tool.input_schema (path /+ "input_schema") true 1) _ h0 in
      let (argv, e1, h2) = >>=-eq-ok (compile_cli tool.invoke.cli s path) _ h1 in
      let (mcp, e2, h3) =
        >>=-eq-ok (compile_mcp environment tool.invoke.mcp (contains_key target targets.mcp) s path)
          _ h2 in
      let (_, e3, h4) = >>=-eq-ok (fail_if (same (is_some argv) (is_some mcp)) _) _ h3 in
      let (_, e4, h5) =
        >>=-eq-ok (fail_if (leb 2 version && not (contains_key target targets.cli)) _) _ h4 in
      let (kind, e5, h6) = >>=-eq-ok (output_kind_of tool.output.kind (is_some mcp) path) _ h5 in
      let (cli_only, known) = check_target-fits version path tool targets u e in
      let (absent, upstream) = compile_mcp-fits environment tool.invoke.mcp _ s path mcp e2 in
      rw (← ok-injective h6) (
        refl,
        (
          compile_schema-IsClosed engine tool.input_schema _ true 1 s e0,
          compile_cli-fits tool.invoke.cli s path argv e1,
        ),
        output_kind_of-KindFits tool.output.kind (is_some mcp) path kind e5,
        (
          known,
          (λ calls. (upstream calls, no_argv argv mcp (fail_if-eq-ok _ _ e3) calls)),
          (λ later. (
            on_cli (leb 2 version) (contains_key target targets.cli) (fail_if-eq-ok _ _ e4) later,
            absent (cli_only later),
          )),
        ),
      )
    where
      on_cli : (a b : Bool) → (a && not b) ≡ false → a ≡ true → b ≡ true
      on_cli a b h e = ground arith

  pub collect_tools-ToolSound :
      (version : ℕ) (targets : Targets) (raw : Map RawTool) (out : Tools)
      → collect_tools engine environment version targets raw ≡ ok out
      → All (ToolSound version targets) out
  unfolding collect_tools add_tool
  collect_tools-ToolSound version targets raw out h =
      let (tools, e, h0) =
        >>=-eq-ok (for_each (add_tool engine environment version targets) raw []) _ h in
      let (_, _, h1) =
        >>=-eq-ok
          (fail_if
            (leb 2 version
              && any (λ tool. not (contains_key tool.target targets.cli)) (values tools))
            _)
          _ h0 in
      rw (← ok-injective h1) (
        for_each-preserves (add_tool engine environment version targets)
          (All (ToolSound version targets)) (λ e. Unit) raw [] tools
          (λ e t u _ sound step. added e t u sound step) (All-intro _ raw (λ e. tt)) tt e)
    where
      added :
          (e : String × RawTool) (t u : Tools)
          → All (ToolSound version targets) t
          → add_tool engine environment version targets e t ≡ ok u
          → All (ToolSound version targets) u
      added (name, tool) t u sound h =
          let (_, _, h0) = >>=-eq-ok (validate_id name "/tools") _ h in
          let (made, e, h1) =
            >>=-eq-ok (compile_tool engine environment version name tool targets) _ h0 in
          rw (← ok-injective h1) (
            All-insert (ToolSound version targets) name made t
              (compile_tool-ToolSound version name tool targets made e) sound)
