-- ===== src/Binding/Mcp/Found.antt =====
-- The arguments of an MCP tool whose bindings were compiled can be resolved for every accepted input.
use agent_capability_gate.Prelude.{
  ℕ, zero, suc, String, ◌≡◌, refl, true, not, some, Map, contains_key, is_some, ok, >>=-eq-ok,
  fail_if, fail_if-eq-ok, decimal, ok-injective, true_of_not, get-some_of_contains_key,
  some_of_is_some,
}
use agent_capability_gate.Json.{Value, string, Fields, Items}
use agent_capability_gate.Json.Limits.{value_exceeds_depth, contains_nul, max_schema_depth}
use agent_capability_gate.Pointer.{escape_ptr}
use agent_capability_gate.Diagnostics.{Checked, ◌/+◌}
use agent_capability_gate.Schema.{CompiledSchema}
use agent_capability_gate.Schema.Regex.{RegexEngine}
use agent_capability_gate.Schema.Compile.Closed.{IsClosed}
use agent_capability_gate.Schema.Validate.Conforms.{Conforms}
use agent_capability_gate.Config.{
  McpBinding, BindingFields, BindingItems, literal, input, environment, object, array, end, field,
  nil, item, RawMcpBinding, RawFields, RawItems,
}
use agent_capability_gate.Config.Checks.{validate_id, validate_env_name}
use agent_capability_gate.Binding.{schema_at_pointer}
use agent_capability_gate.Binding.Safe.{value_at-Conforms}
use agent_capability_gate.Binding.Mcp.{
  compile_literal, compile_input, compile_environment, compile_mcp_binding, compile_binding_fields,
  compile_binding_items, compile_mcp_bindings, resolve_mcp_binding, resolve_fields, resolve_items,
}

module _ (root : CompiledSchema) (present : Map String) where
  -- Every pointer names a place of the schema, and every variable is in the environment.
  abbrev mutual
    pub McpFits : McpBinding → Type 0
    McpFits (literal v) = Unit
    McpFits (input p) = (t : CompiledSchema) × (schema_at_pointer root p ≡ some t)
    McpFits (environment name) = contains_key name present ≡ true
    McpFits (object fs) = FieldsFit fs
    McpFits (array bs) = ItemsFit bs

    pub FieldsFit : BindingFields → Type 0
    FieldsFit end = Unit
    FieldsFit (field k b fs) = McpFits b × FieldsFit fs

    pub ItemsFit : BindingItems → Type 0
    ItemsFit nil = Unit
    ItemsFit (item b bs) = McpFits b × ItemsFit bs

  compile_literal-McpFits :
      (v : Value) (path : String) (c : McpBinding)
      → compile_literal root present v path ≡ ok c
      → McpFits c
  unfolding compile_literal
  compile_literal-McpFits v path c h =
      let (_, _, h0) = >>=-eq-ok (fail_if (value_exceeds_depth v 1) _) _ h in
      let (_, _, h1) = >>=-eq-ok (fail_if (contains_nul v) _) _ h0 in rw (← ok-injective h1) tt

  compile_input-McpFits :
      (p path : String) (c : McpBinding) → compile_input root present p path ≡ ok c → McpFits c
  unfolding compile_input
  compile_input-McpFits p path c h =
      let (_, e, h0) = >>=-eq-ok (fail_if (not (is_some (schema_at_pointer root p))) _) _ h in
      rw (← ok-injective h0) (some_of_is_some _ (true_of_not _ (fail_if-eq-ok _ _ e)))

  compile_environment-McpFits :
      (name path : String) (c : McpBinding)
      → compile_environment root present name path ≡ ok c
      → McpFits c
  unfolding compile_environment
  compile_environment-McpFits name path c h =
      let (_, _, h0) = >>=-eq-ok (validate_env_name name path) _ h in
      let (_, e, h1) = >>=-eq-ok (fail_if (not (contains_key name present)) _) _ h0 in
      rw (← ok-injective h1) (true_of_not _ (fail_if-eq-ok _ _ e))

  mutual
    unfolding compile_mcp_binding

    compile_mcp_binding-McpFits :
        (b : RawMcpBinding) (path : String) (left : ℕ) (c : McpBinding)
        → compile_mcp_binding root present b path left ≡ ok c
        → McpFits c
    compile_mcp_binding-McpFits (literal v) path zero c h = cc
    compile_mcp_binding-McpFits (input p) path zero c h = cc
    compile_mcp_binding-McpFits (environment name) path zero c h = cc
    compile_mcp_binding-McpFits (object fs) path zero c h = cc
    compile_mcp_binding-McpFits (array bs) path zero c h = cc
    compile_mcp_binding-McpFits (literal v) path (suc left) c h = compile_literal-McpFits v path c h
    compile_mcp_binding-McpFits (input p) path (suc left) c h = compile_input-McpFits p path c h
    compile_mcp_binding-McpFits (environment name) path (suc left) c h =
        compile_environment-McpFits name path c h
    compile_mcp_binding-McpFits (object fs) path (suc left) c h =
        let (cs, e, h0) = >>=-eq-ok (compile_binding_fields root present fs path left) _ h in
        rw (← ok-injective h0) (compile_fields-FieldsFit fs path left cs e)
    compile_mcp_binding-McpFits (array bs) path (suc left) c h =
        let (cs, e, h0) = >>=-eq-ok (compile_binding_items root present 0 bs path left) _ h in
        rw (← ok-injective h0) (compile_items-ItemsFit 0 bs path left cs e)

    compile_fields-FieldsFit :
        (fs : RawFields) (path : String) (left : ℕ) (cs : BindingFields)
        → compile_binding_fields root present fs path left ≡ ok cs
        → FieldsFit cs
    compile_fields-FieldsFit end path left cs h = rw (← ok-injective h) tt
    compile_fields-FieldsFit (field k b fs) path left cs h =
        let (c, e, h0) =
          >>=-eq-ok (compile_mcp_binding root present b (path /+ escape_ptr k) left) _ h in
        let (ds, e', h1) = >>=-eq-ok (compile_binding_fields root present fs path left) _ h0 in
        rw (← ok-injective h1) (
          compile_mcp_binding-McpFits b (path /+ escape_ptr k) left c e,
          compile_fields-FieldsFit fs path left ds e',
        )

    compile_items-ItemsFit :
        (i : ℕ) (bs : RawItems) (path : String) (left : ℕ) (cs : BindingItems)
        → compile_binding_items root present i bs path left ≡ ok cs
        → ItemsFit cs
    compile_items-ItemsFit i nil path left cs h = rw (← ok-injective h) tt
    compile_items-ItemsFit i (item b bs) path left cs h =
        let (c, e, h0) =
          >>=-eq-ok (compile_mcp_binding root present b (path /+ decimal i) left) _ h in
        let (ds, e', h1) =
          >>=-eq-ok (compile_binding_items root present (suc i) bs path left) _ h0 in
        rw (← ok-injective h1) (
          compile_mcp_binding-McpFits b (path /+ decimal i) left c e,
          compile_items-ItemsFit (suc i) bs path left ds e',
        )

  compile_mcp_bindings-FieldsFit :
      (fs : RawFields) (path : String) (cs : BindingFields)
      → compile_mcp_bindings root present fs path ≡ ok cs
      → FieldsFit cs
  unfolding compile_mcp_bindings
  compile_mcp_bindings-FieldsFit end path cs h = rw (← ok-injective h) tt
  compile_mcp_bindings-FieldsFit (field k b fs) path cs h =
      let (_, _, h0) = >>=-eq-ok (validate_id k path) _ h in
      let (c, e, h1) =
        >>=-eq-ok (compile_mcp_binding root present b (path /+ escape_ptr k) max_schema_depth) _
          h0 in
      let (ds, e', h2) = >>=-eq-ok (compile_mcp_bindings root present fs path) _ h1 in
      rw (← ok-injective h2) (
        compile_mcp_binding-McpFits b (path /+ escape_ptr k) max_schema_depth c e,
        compile_mcp_bindings-FieldsFit fs path ds e',
      )

  -- A result that is there.
  abbrev Succeeds : {A : Type 0} → Checked A → Type 0
  Succeeds {A} m = (a : A) × (m ≡ ok a)

  module _ (engine : RegexEngine) (value : Value) (closed : IsClosed root)
      (conforms : Conforms engine root value) where
    mutual
      unfolding resolve_mcp_binding

      resolve_mcp_binding-Succeeds :
          (b : McpBinding) → McpFits b → Succeeds (resolve_mcp_binding value present b)
      resolve_mcp_binding-Succeeds (literal v) fits = (v, refl)
      resolve_mcp_binding-Succeeds (input p) (t, at) =
          let (w, found, _) = value_at-Conforms engine root t value p closed conforms at in
          (w, rw found refl)
      resolve_mcp_binding-Succeeds (environment name) fits =
          let (text, found) = get-some_of_contains_key name present fits in
          (string text, rw found refl)
      resolve_mcp_binding-Succeeds (object fs) fits =
          let (vs, e) = resolve_fields-Succeeds fs fits in (Value.object vs, rw e refl)
      resolve_mcp_binding-Succeeds (array bs) fits =
          let (vs, e) = resolve_items-Succeeds bs fits in (Value.array vs, rw e refl)

      resolve_fields-Succeeds :
          (fs : BindingFields) → FieldsFit fs → Succeeds (resolve_fields value present fs)
      resolve_fields-Succeeds end fits = (Fields.end, refl)
      resolve_fields-Succeeds (field k b fs) (here, later) =
          let (v, e) = resolve_mcp_binding-Succeeds b here in
          let (vs, e') = resolve_fields-Succeeds fs later in (Fields.field k v vs, rw (e, e') refl)

      resolve_items-Succeeds :
          (bs : BindingItems) → ItemsFit bs → Succeeds (resolve_items value present bs)
      resolve_items-Succeeds nil fits = (Items.nil, refl)
      resolve_items-Succeeds (item b bs) (here, later) =
          let (v, e) = resolve_mcp_binding-Succeeds b here in
          let (vs, e') = resolve_items-Succeeds bs later in (Items.item v vs, rw (e, e') refl)

-- Bindings that `compile_mcp_bindings` accepts for a closed schema and an environment resolve, in that
-- environment, for every input that conforms to the schema: no pointer and no variable is missing.
pub resolve_fields-total :
    (engine : RegexEngine) (root : CompiledSchema) (present : Map String) (raw : RawFields)
    (path : String) (bindings : BindingFields) (value : Value)
    → IsClosed root
    → compile_mcp_bindings root present raw path ≡ ok bindings
    → Conforms engine root value
    → (arguments : Fields) × (resolve_fields value present bindings ≡ ok arguments)
resolve_fields-total engine root present raw path bindings value closed compiled conforms =
    resolve_fields-Succeeds root present engine value closed conforms bindings
      (compile_mcp_bindings-FieldsFit root present raw path bindings compiled)
