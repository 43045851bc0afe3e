-- ===== src/Binding/Resolved.antt =====
-- `resolve_cli` on a tool whose schema and bindings were compiled.
use agent_capability_gate.Prelude.{
  String, ◌≡◌, refl, true, false, some, List, [], ◌∷◌, All, Result, ok, err, ◌>>=◌, Bool-cases, inl,
  inr, has_nul, and_true,
}
use agent_capability_gate.Json.{Value, null, number, string, array, items, as_array}
use agent_capability_gate.Json.Numbers.{Number}
use agent_capability_gate.Diagnostics.{invalid, Checked}
use agent_capability_gate.Schema.{
  SchemaKind, an_array, a_string, an_integer, a_number, CompiledSchema, SchemaNode,
  SchemaProperties, properties_list, schema, each_item, no_items, kind_of, is_array_kind,
}
use agent_capability_gate.Schema.Regex.{RegexEngine}
use agent_capability_gate.Schema.Compile.Closed.{IsClosed}
use agent_capability_gate.Schema.Validate.{has_kind}
use agent_capability_gate.Schema.Validate.Conforms.{
  Conforms, Shaped, PropertiesConform, ItemsConform,
}
use agent_capability_gate.Config.{CliBinding, literal, input, each}
use agent_capability_gate.Faults.{Fault, rejected, panicked, lift}
use agent_capability_gate.Binding.{
  is_scalar, scalar_items, value_to_arg, args_of, resolve_node, resolve_argv, arg_text, number_text,
}
use agent_capability_gate.Binding.Fits.{BindingFits}
use agent_capability_gate.Binding.Safe.{value_at-Conforms}

-- A value that a command line can take: a text or a number.
abbrev IsScalarValue : Value → Type 0
IsScalarValue (string s) = Unit
IsScalarValue (number n) = Unit
IsScalarValue _ = ⊥

-- The only fault of a resolution is an argument with a NUL.
abbrev pub OnlyNul : {A : Type 0} → Result Fault A → Type 0
OnlyNul (ok a) = Unit
OnlyNul (err (rejected d)) = d ≡ invalid "" "argument contains NUL"
OnlyNul (err panicked) = ⊥

module _ (engine : RegexEngine) where
  scalar_of_Conforms :
      (s : CompiledSchema) (v : Value)
      → is_scalar (kind_of s) ≡ true
      → Conforms engine s v
      → IsScalarValue v
  unfolding has_kind
  scalar_of_Conforms (schema n ps is) v k c = scalar_of_kind n.kind v k c.0
    where
      scalar_of_kind :
          (kind : SchemaKind) (v : Value)
          → is_scalar kind ≡ true
          → has_kind kind v ≡ true
          → IsScalarValue v
      scalar_of_kind a_string (string s) k h = tt
      scalar_of_kind a_string _ k h = cc
      scalar_of_kind an_integer (number x) k h = tt
      scalar_of_kind an_integer _ k h = cc
      scalar_of_kind a_number (number x) k h = tt
      scalar_of_kind a_number _ k h = cc
      scalar_of_kind _ v k h = cc

OnlyNul-bind :
    {A B : Type 0} (m : Result Fault A) (f : A → Result Fault B)
    → OnlyNul m
    → ((a : A) → m ≡ ok a → OnlyNul (f a))
    → OnlyNul (m >>= f)
OnlyNul-bind (ok a) f h k = k a refl
OnlyNul-bind (err (rejected d)) f h k = h
OnlyNul-bind (err panicked) f h k = h

OnlyNul-arg_text : (s : String) → OnlyNul (lift (arg_text s))
OnlyNul-arg_text s = elim (Bool-cases (has_nul s)) [
  | inl nul ↦ rw nul refl
  | inr clean ↦ rw clean tt
]

module _ (show_number : Number → String) where
  OnlyNul-value_to_arg : (v : Value) → IsScalarValue v → OnlyNul (lift (value_to_arg show_number v))
  unfolding value_to_arg
  OnlyNul-value_to_arg (string s) h = OnlyNul-arg_text s
  OnlyNul-value_to_arg (number n) h = OnlyNul-arg_text (number_text show_number n)
  OnlyNul-value_to_arg null h = absurd h
  OnlyNul-value_to_arg _ h = absurd h

  OnlyNul-args_of :
      (vs : List Value) → All IsScalarValue vs → OnlyNul (lift (args_of show_number vs))
  unfolding args_of
  OnlyNul-args_of [] h = tt
  OnlyNul-args_of (v ∷ vs) (a, b) =
      append_args (value_to_arg show_number v) (args_of show_number vs) (OnlyNul-value_to_arg v a)
        (OnlyNul-args_of vs b)
    where
      append_args :
          (m : Checked String) (n : Checked (List String))
          → OnlyNul (lift m)
          → OnlyNul (lift n)
          → OnlyNul (lift (m >>= λ s. n >>= λ ss. ok (s ∷ ss)))
      append_args (ok s) (ok ss) h k = tt
      append_args (ok s) (err d) h k = k
      append_args (err d) n h k = h

module _ (engine : RegexEngine) (show_number : Number → String) where
  array_items :
      (k : SchemaKind) (n : SchemaNode) (ps : SchemaProperties) (s : CompiledSchema) (v : Value)
      → is_array_kind k ≡ true
      → is_scalar (kind_of s) ≡ true
      → has_kind k v ≡ true
      → Shaped engine n
          (properties_list ps)
          (PropertiesConform engine ps)
          (ItemsConform engine (each_item s))
          k
          v
      → (vs : List Value) × (as_array v ≡ some vs) × All IsScalarValue vs
  unfolding has_kind
  array_items an_array n ps s (array vs) a b h c = (items vs, refl, all_scalar (items vs) c.1)
    where
      all_scalar : (ws : List Value) → All (Conforms engine s) ws → All IsScalarValue ws
      all_scalar [] h = tt
      all_scalar (w ∷ ws) (p, q) = (scalar_of_Conforms engine s w b p, all_scalar ws q)
  array_items an_array n ps s _ a b h c = cc
  array_items _ n ps s v a b h c = cc

  -- The items of an array that conforms to an array of scalars.
  scalar_items_of_Conforms :
      (s : CompiledSchema) (v : Value)
      → scalar_items s ≡ true
      → Conforms engine s v
      → (vs : List Value) × (as_array v ≡ some vs) × All IsScalarValue vs
  scalar_items_of_Conforms (schema n ps no_items) v k c =
      let (a, b) = and_true (is_array_kind n.kind) false k in absurd (cc b)
  scalar_items_of_Conforms (schema n ps (each_item s)) v k c =
      let (a, b) = and_true (is_array_kind n.kind) (is_scalar (kind_of s)) k in
      array_items n.kind n ps s v a b c.0 c.2

  resolve_node-OnlyNul :
      (s : CompiledSchema) (v : Value) (b : CliBinding)
      → IsClosed s
      → Conforms engine s v
      → BindingFits s b
      → OnlyNul (resolve_node show_number b v)
  unfolding resolve_node
  resolve_node-OnlyNul s v (literal t) closed conforms fits = tt
  resolve_node-OnlyNul s v (input p) closed conforms (t, at, scalar) =
      let (w, found, inner) = value_at-Conforms engine s t v p closed conforms at in
      rw found (
        OnlyNul-bind (lift (value_to_arg show_number w)) _
          (OnlyNul-value_to_arg show_number w (scalar_of_Conforms engine t w scalar inner))
          (λ a e. tt))
  resolve_node-OnlyNul s v (each p) closed conforms (t, at, scalar) =
      let (w, found, inner) = value_at-Conforms engine s t v p closed conforms at in
      let (vs, same, scalars) = scalar_items_of_Conforms t w scalar inner in
      rw (found, same) (OnlyNul-args_of show_number vs scalars)

  pub resolve_argv-OnlyNul :
      (s : CompiledSchema) (v : Value) (bs : List CliBinding)
      → IsClosed s
      → Conforms engine s v
      → All (BindingFits s) bs
      → OnlyNul (resolve_argv show_number bs v)
  unfolding resolve_argv
  resolve_argv-OnlyNul s v [] closed conforms fits = tt
  resolve_argv-OnlyNul s v (b ∷ bs) closed conforms (here, later) =
      OnlyNul-bind (resolve_node show_number b v) _
        (resolve_node-OnlyNul s v b closed conforms here)
        (λ a e.
          OnlyNul-bind (resolve_argv show_number bs v) _
            (resolve_argv-OnlyNul s v bs closed conforms later) (λ c e'. tt))
