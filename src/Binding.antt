-- ===== src/Binding.antt =====
-- The bindings of CLI tools in crates/core/src/lib.rs: `schema_at_pointer`, `compile_bindings`, `value_at`,
-- `value_to_arg` and `resolve_cli`.
pub mod Fits
pub mod Safe
pub mod Resolved
pub mod Cli
pub mod Mcp
use agent_capability_gate.Prelude.{
  ℕ, suc, ◌+◌, String, ◌==◌, Bool, true, false, not, ◌&&◌, ◌||◌, Option, none, some, List, [], ◌∷◌,
  ◌++◌, Map, get, Result, ok, err, ◌>>=◌, ◌>>◌, fail_if, ok_or, has_nul, decimal, if◌then◌else◌,
}
use agent_capability_gate.Json.{
  Value, null, bool, number, string, array, object, as_object, as_array, as_str, is_some_and, ◌>>?◌,
}
use agent_capability_gate.Json.Numbers.{Number, as_f64, is_zero, round_to_f64}
use agent_capability_gate.Pointer.{decode_ptr}
use agent_capability_gate.Diagnostics.{Diagnostic, ValidationIssue, invalid, Checked, ◌/+◌}
use agent_capability_gate.Schema.{
  SchemaKind, an_object, an_array, a_string, an_integer, a_number, CompiledSchema, kind_of,
  is_array_kind, properties_of, items_of,
}
use agent_capability_gate.Schema.Regex.{RegexEngine}
use agent_capability_gate.Schema.Validate.{Issues, validate_input}
use agent_capability_gate.Faults.{Fault, unwrap, lift, first_issue}
use agent_capability_gate.Config.{
  CliBinding, literal, input, each, CliTarget, CompiledTool, ValidatedConfig, ResolvedCliInvocation,
}

unfoldable pub schema_at : CompiledSchema → List String → Option CompiledSchema
schema_at current [] = some current
schema_at current (part ∷ parts) = get part (properties_of current) >>? λ s. schema_at s parts

unfoldable pub schema_at_pointer : CompiledSchema → String → Option CompiledSchema
unfolding schema_at
schema_at_pointer root pointer = decode_ptr pointer >>? λ parts. schema_at root parts

-- A kind that an `input` or `each` binding takes: not an object, array, boolean or null.
abbrev pub is_scalar : SchemaKind → Bool
is_scalar a_string = true
is_scalar an_integer = true
is_scalar a_number = true
is_scalar _ = false

abbrev only_entry : Map Value → Option (String × Value)
only_entry (e ∷ []) = some e
only_entry _ = none

abbrev scalar_items : CompiledSchema → Bool
scalar_items s = is_array_kind (kind_of s) && is_some_and (items_of s) (λ i. is_scalar (kind_of i))

compile_node : String → String → CompiledSchema → String → Checked CliBinding
compile_node kind pointer root p =
    if kind == "literal"
    then (do fail_if (has_nul pointer) (invalid p "literal contains NUL"); ok (literal pointer))
    else if kind == "input"
    then (do
      s ←
          ok_or (schema_at_pointer root pointer)
            (invalid p "input pointer does not reference schema")
      fail_if (not (is_scalar (kind_of s))) (invalid p "input binding requires scalar")
      ok (input pointer))
    else if kind == "each"
    then (do
      s ←
          ok_or (schema_at_pointer root pointer)
            (invalid p "each pointer does not reference schema")
      fail_if (not (scalar_items s)) (invalid p "each binding requires scalar array")
      ok (each pointer))
    else err (invalid p "unsupported binding node")

compile_binding : Value → CompiledSchema → String → Checked CliBinding
unfolding compile_node
compile_binding value root p = do
  obj ← ok_or (as_object value) (invalid p "binding node must be object")
  entry ← ok_or (only_entry obj) (invalid p "binding node must have one key")
  pointer ← ok_or (as_str entry.1) (invalid p "binding pointer/value must be string")
  compile_node entry.0 pointer root p

compile_from : ℕ → List Value → CompiledSchema → String → Checked (List CliBinding)
unfolding compile_binding
compile_from i [] root path = ok []
compile_from i (value ∷ values) root path = do
  b ← compile_binding value root (path /+ decimal i)
  bs ← compile_from (suc i) values root path
  ok (b ∷ bs)

unfoldable pub compile_bindings : List Value → CompiledSchema → String → Checked (List CliBinding)
unfolding compile_from
compile_bindings values root path = compile_from 0 values root path

unfoldable pub find_value : Value → List String → Option Value
find_value v [] = some v
find_value v (part ∷ parts) = as_object v >>? λ obj. get part obj >>? λ w. find_value w parts

unfoldable pub value_at : Value → String → Option Value
unfolding find_value
value_at value pointer = decode_ptr pointer >>? λ parts. find_value value parts

abbrev arg_text : String → Checked String
arg_text s = do fail_if (has_nul s) (invalid "" "argument contains NUL"); ok s

-- `to_string` of a number is serde_json's, and a parameter.
module _ (show_number : Number → String) where
  -- A zero in any form is "0".
  abbrev pub number_text : Number → String
  number_text n = if is_some_and (as_f64 n) is_zero then "0" else show_number n

  unfoldable pub value_to_arg : Value → Checked String
  unfolding round_to_f64
  value_to_arg (string s) = arg_text s
  value_to_arg (number n) = arg_text (number_text n)
  value_to_arg _ = err (invalid "" "binding requires scalar string or number")

  unfoldable pub args_of : List Value → Checked (List String)
  args_of [] = ok []
  args_of (v ∷ vs) = do s ← value_to_arg v; ss ← args_of vs; ok (s ∷ ss)

  -- The arguments that one binding adds.
  unfoldable pub resolve_node : CliBinding → Value → Result Fault (List String)
  unfolding value_to_arg args_of
  resolve_node (literal v) value = ok (v ∷ [])
  resolve_node (input p) value = do
    v ← unwrap (value_at value p)
    s ← lift (value_to_arg v)
    ok (s ∷ [])
  resolve_node (each p) value = do
    v ← unwrap (value_at value p)
    vs ← unwrap (as_array v)
    lift (args_of vs)

  unfoldable pub resolve_argv : List CliBinding → Value → Result Fault (List String)
  unfolding resolve_node
  resolve_argv [] value = ok []
  resolve_argv (b ∷ bs) value = do
    here ← resolve_node b value
    rest ← resolve_argv bs value
    ok (here ++ rest)

  unfoldable pub resolve_cli :
      RegexEngine → ValidatedConfig → String → Value → Result Fault ResolvedCliInvocation
  unfolding resolve_argv
  resolve_cli engine config tool_name value = do
    tool ← lift (ok_or (get tool_name config.tools) (invalid "/tool" "unknown tool"))
    first_issue (validate_input engine tool.schema value)
    target ←
        lift (ok_or (get tool.target config.targets) (invalid "/tool" "tool is not a CLI target"))
    argv ← resolve_argv tool.argv value
    ok (record {
      target_id = tool.target;
      executable = target.executable;
      argv = argv;
      cwd = target.cwd;
      environment = target.environment;
      limits = target.limits;
      output_kind = tool.output_kind;
    })
