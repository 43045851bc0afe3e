-- ===== src/Binding/Cli.antt =====
-- What `resolve_cli` guarantees over a configuration whose tools were compiled.
use agent_capability_gate.Prelude.{String, ◌≢◌, [], All, get, Result, ok, err, All-get, ok_or}
use agent_capability_gate.Json.{Value}
use agent_capability_gate.Json.Numbers.{Number}
use agent_capability_gate.Schema.Regex.{RegexEngine}
use agent_capability_gate.Schema.Compile.Closed.{IsClosed}
use agent_capability_gate.Schema.Validate.{validate_value, validate_input}
use agent_capability_gate.Schema.Validate.Conforms.Exact.{validate_input_iff}
use agent_capability_gate.Config.{CompiledTool, ValidatedConfig}
use agent_capability_gate.Faults.{
  NoPanic, NoPanic-bind, NoPanic-lift, NoPanic-first_issue, lift-ok_or-eq-ok,
  accepted_of_first_issue, ne_panicked_of_NoPanic, Fault, rejected, panicked, lift, first_issue,
}
use agent_capability_gate.Binding.{resolve_argv, resolve_cli, first_issue}
use agent_capability_gate.Binding.Fits.{BindingFits}
use agent_capability_gate.Binding.Resolved.{OnlyNul, resolve_argv-OnlyNul}

-- A tool as `validate_raw` makes it: its schema is closed and its bindings fit the schema.
abbrev pub ToolFits : CompiledTool → Type 0
ToolFits tool = IsClosed tool.schema × All (BindingFits tool.schema) tool.argv

abbrev pub ToolsFit : ValidatedConfig → Type 0
ToolsFit config = All (λ e. ToolFits e.1) config.tools

NoPanic-OnlyNul : {A : Type 0} (m : Result Fault A) → OnlyNul m → NoPanic m
NoPanic-OnlyNul (ok a) h = tt
NoPanic-OnlyNul (err (rejected d)) h = tt
NoPanic-OnlyNul (err panicked) h = h

module _ (show_number : Number → String) (engine : RegexEngine) (config : ValidatedConfig) where
  pub resolve_cli-NoPanic :
      (name : String) (value : Value)
      → ToolsFit config
      → NoPanic (resolve_cli show_number engine config name value)
  unfolding resolve_cli validate_input
  resolve_cli-NoPanic name value fits =
      NoPanic-bind (lift (ok_or (get name config.tools) _)) _ (NoPanic-lift _) λ tool found.
        let (closed, bound) =
          All-get ToolFits name config.tools fits (lift-ok_or-eq-ok _ _ tool found) in
        NoPanic-bind (first_issue (validate_input engine tool.schema value)) _
          (NoPanic-first_issue (validate_value engine tool.schema value "" []))
          λ u valid.
            let conforms =
              (validate_input_iff engine tool.schema value).0 (accepted_of_first_issue _ u valid) in
            NoPanic-bind (lift (ok_or (get tool.target config.targets) _)) _ (NoPanic-lift _)
              λ target _.
                NoPanic-bind (resolve_argv show_number tool.argv value) _
                  (NoPanic-OnlyNul _ (
                    resolve_argv-OnlyNul engine show_number tool.schema value tool.argv closed
                      conforms bound))
                  (λ argv e. tt)

  -- If every tool of the configuration has a closed schema and bindings that fit it, `resolve_cli` ends
  -- in a resolved invocation or in a diagnostic, whatever tool is named and whatever the input is: none
  -- of its `unwrap`s panics.
  pub resolve_cli-ne-panicked :
      (name : String) (value : Value)
      → ToolsFit config
      → resolve_cli show_number engine config name value ≢ err panicked
  resolve_cli-ne-panicked name value fits =
      ne_panicked_of_NoPanic (resolve_cli show_number engine config name value)
        (resolve_cli-NoPanic name value fits)
