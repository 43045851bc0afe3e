-- ===== src/Binding/Fits.antt =====
-- What `compile_bindings` establishes of the bindings that it accepts.
use agent_capability_gate.Prelude.{
  ℕ, suc, String, ◌≡◌, true, false, some, List, [], ◌∷◌, All, ok, >>=-eq-ok, ok_or, has_nul,
  decimal, Option-cases, inl, inr, arith, ok-injective,
}
use agent_capability_gate.Json.{Value, as_object, as_str}
use agent_capability_gate.Diagnostics.{◌/+◌}
use agent_capability_gate.Schema.{CompiledSchema, kind_of}
use agent_capability_gate.Config.{CliBinding, literal, input, each}
use agent_capability_gate.Binding.{
  schema_at_pointer, is_scalar, scalar_items, only_entry, compile_node, compile_binding,
  compile_from, compile_bindings,
}

-- A literal has no NUL; an input's pointer names a scalar, and an each's pointer an array of scalars.
abbrev pub BindingFits : CompiledSchema → CliBinding → Type 0
BindingFits s (literal v) = has_nul v ≡ false
BindingFits s (input p) =
    (t : CompiledSchema) × (schema_at_pointer s p ≡ some t) × (is_scalar (kind_of t) ≡ true)
BindingFits s (each p) =
    (t : CompiledSchema) × (schema_at_pointer s p ≡ some t) × (scalar_items t ≡ true)

compile_node-fits :
    (kind pointer : String) (s : CompiledSchema) (p : String) (b : CliBinding)
    → compile_node kind pointer s p ≡ ok b
    → BindingFits s b
unfolding compile_node
compile_node-fits kind pointer s p (literal v) h = ground arith
compile_node-fits kind pointer s p (input q) h = elim (Option-cases (schema_at_pointer s pointer)) [
  | inl missing ↦ absurd (ground arith)
  | inr (t, found) ↦ (t, ground arith, ground arith)
]
compile_node-fits kind pointer s p (each q) h = elim (Option-cases (schema_at_pointer s pointer)) [
  | inl missing ↦ absurd (ground arith)
  | inr (t, found) ↦ (t, ground arith, ground arith)
]

compile_binding-fits :
    (value : Value) (s : CompiledSchema) (p : String) (b : CliBinding)
    → compile_binding value s p ≡ ok b
    → BindingFits s b
unfolding compile_binding
compile_binding-fits value s p b h =
    let (obj, _, h0) = >>=-eq-ok (ok_or (as_object value) _) _ h in
    let (entry, _, h1) = >>=-eq-ok (ok_or (only_entry obj) _) _ h0 in
    let (pointer, _, h2) = >>=-eq-ok (ok_or (as_str entry.1) _) _ h1 in
    compile_node-fits entry.0 pointer s p b h2

compile_from-fits :
    (i : ℕ) (values : List Value) (s : CompiledSchema) (path : String) (bs : List CliBinding)
    → compile_from i values s path ≡ ok bs
    → All (BindingFits s) bs
unfolding compile_from
compile_from-fits i [] s path [] h = tt
compile_from-fits i [] s path (b ∷ bs) h = cc
compile_from-fits i (value ∷ values) s path bs h =
    let (b, e, h0) = >>=-eq-ok (compile_binding value s (path /+ decimal i)) _ h in
    let (rest, e', h1) = >>=-eq-ok (compile_from (suc i) values s path) _ h0 in
    rw (← ok-injective h1)
      (compile_binding-fits value s _ b e, compile_from-fits (suc i) values s path rest e')

-- If `compile_bindings` succeeds, each binding fits the schema: a literal has no NUL, the pointer of an
-- input binding names a string, integer or number of the schema, and the pointer of an each binding
-- names an array of such.
pub compile_bindings-BindingFits :
    (values : List Value) (s : CompiledSchema) (path : String) (bs : List CliBinding)
    → compile_bindings values s path ≡ ok bs
    → All (BindingFits s) bs
unfolding compile_bindings
compile_bindings-BindingFits = compile_from-fits 0
