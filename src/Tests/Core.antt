-- ===== src/Tests/Core.antt =====
-- Numbers, pointers, schemas and CLI bindings at concrete inputs.
use agent_capability_gate.Prelude.{
  ◌≡◌, ◌≢◌, refl, Ordering, true, false, some, [], ◌∷◌, ok, err, pos, arith, All, List, get, keys,
  contains_key, set_of, set_contains, insert,
}
use agent_capability_gate.Json.{value_eq, Value, string, of_map, number}
use agent_capability_gate.Json.Numbers.{finite, int, float}
use agent_capability_gate.Json.Order.{compare_integer_float, numeric_compare}
use agent_capability_gate.Json.Order.Exact.{exact_order, compare_integer_float_exact}
use agent_capability_gate.Pointer.{decode_ptr, escape_ptr}
use agent_capability_gate.Pointer.RoundTrip.{pointer_of, decode_ptr-pointer_of}
use agent_capability_gate.Schema.Compile.{
  compile_schema, schema_kind, rejects_required, compile_properties,
}
use agent_capability_gate.Schema.Keywords.{
  validate_schema_keyword_applicability, required_names, usize_value, numeric_bound,
}
use agent_capability_gate.Json.Limits.{canonicalize, canonical_number}
use agent_capability_gate.Schema.Compile.Closed.{IsClosed, compile_schema-IsClosed}
use agent_capability_gate.Schema.Validate.{
  validate_input, validate_value, has_kind, check_shape, check_additional, check_required, in_enum,
  check_number,
}
use agent_capability_gate.Schema.Validate.Conforms.{Conforms}
use agent_capability_gate.Schema.Validate.Conforms.Exact.{validate_input_iff}
use agent_capability_gate.Config.{literal, input}
use agent_capability_gate.Binding.{compile_bindings, schema_at_pointer, value_at, resolve_cli}
use agent_capability_gate.Binding.Fits.{BindingFits, compile_bindings-BindingFits}
use agent_capability_gate.Binding.Safe.{value_at-Conforms}
use agent_capability_gate.Binding.Cli.{ToolsFit, resolve_cli-ne-panicked}
use agent_capability_gate.Faults.{panicked}
use agent_capability_gate.Tests.Samples.{
  plain_engine, schema_json, limit_schema, tool_schema, sample_input, sample_config, show_sample,
}

-- 3 against 2.5.
compare_integer_float_exact_example :
    compare_integer_float (pos 3) (finite false 5 1) ≡ exact_order (pos 3) false 5 1
compare_integer_float_exact_example = compare_integer_float_exact (pos 3) false 5 1 (omega arith)

-- 0.5 counts as below the bound 0, and -0.5 as above it.
zero_bound_tests :
    (numeric_compare (float (finite false 1 1)) (int (pos 0)) ≡ some Ordering.lt)
    × (numeric_compare (float (finite true 1 1)) (int (pos 0)) ≡ some Ordering.gt)
unfolding numeric_compare
zero_bound_tests = (refl, refl)

decode_ptr-pointer_of_example :
    decode_ptr (pointer_of ("a/b" ∷ "m~n" ∷ [])) ≡ some ("a/b" ∷ "m~n" ∷ [])
decode_ptr-pointer_of_example = decode_ptr-pointer_of ("a/b" ∷ "m~n" ∷ [])

pointer_text : pointer_of ("a/b" ∷ "m~n" ∷ []) ≡ "/a~1b/m~0n"
unfolding escape_ptr
pointer_text = refl

pub compiles : compile_schema plain_engine schema_json "" true 1 ≡ ok tool_schema
unfolding compile_schema keys get schema_kind validate_schema_keyword_applicability contains_key
    value_eq required_names rejects_required set_of set_contains compile_properties usize_value
    numeric_bound numeric_compare canonicalize canonical_number insert
compiles = refl

compile_schema-IsClosed_example : IsClosed tool_schema
compile_schema-IsClosed_example =
    compile_schema-IsClosed plain_engine schema_json "" true 1 tool_schema compiles

pub accepts_sample : validate_input plain_engine tool_schema sample_input ≡ ok tt
unfolding validate_input validate_value has_kind check_shape get check_additional keys contains_key
    check_required in_enum check_number numeric_compare escape_ptr
accepts_sample = refl

-- 21 is above the maximum, and an unknown key is refused.
rejections :
    (validate_input plain_engine tool_schema (of_map (("limit", number (int (pos 21))) ∷ []))
      ≡ err (record { path = "/limit"; constraint = "maximum" } ∷ []))
    × (validate_input plain_engine tool_schema (of_map (("all", number (int (pos 1))) ∷ []))
        ≡ err (
            record { path = "/limit"; constraint = "required" }
            ∷ record { path = "/all"; constraint = "additionalProperties:false" }
            ∷ []))
unfolding validate_input validate_value has_kind check_shape get check_additional keys contains_key
    check_required in_enum check_number numeric_compare escape_ptr
rejections = (refl, refl)

abbrev binding_values : List Value
binding_values =
    of_map (("literal", string "log") ∷ []) ∷ of_map (("input", string "/limit") ∷ []) ∷ []

binds : compile_bindings binding_values tool_schema "" ≡ ok (literal "log" ∷ input "/limit" ∷ [])
unfolding compile_bindings schema_at_pointer decode_ptr get
binds = refl

compile_bindings-BindingFits_example :
    All (BindingFits tool_schema) (literal "log" ∷ input "/limit" ∷ [])
compile_bindings-BindingFits_example =
    compile_bindings-BindingFits binding_values tool_schema "" (literal "log" ∷ input "/limit" ∷ [])
      binds

at_limit : schema_at_pointer tool_schema "/limit" ≡ some limit_schema
unfolding schema_at_pointer decode_ptr get
at_limit = refl

value_at-Conforms_example :
    (w : Value) × (value_at sample_input "/limit" ≡ some w) × Conforms plain_engine limit_schema w
value_at-Conforms_example =
    value_at-Conforms plain_engine tool_schema limit_schema sample_input "/limit"
      compile_schema-IsClosed_example
      ((validate_input_iff plain_engine tool_schema sample_input).0 accepts_sample) at_limit

sample-ToolsFit : ToolsFit sample_config
sample-ToolsFit =
    ((compile_schema-IsClosed_example, (refl, (refl, ((limit_schema, at_limit, refl), tt)))), tt)

resolve_cli-ne-panicked_example :
    resolve_cli show_sample plain_engine sample_config "recent_commits" sample_input ≢ err panicked
resolve_cli-ne-panicked_example =
    resolve_cli-ne-panicked show_sample plain_engine sample_config "recent_commits" sample_input
      sample-ToolsFit
