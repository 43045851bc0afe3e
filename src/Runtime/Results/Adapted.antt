-- ===== src/Runtime/Results/Adapted.antt =====
-- What `adapt_result` lets through.
use agent_capability_gate.Prelude.{
  ℕ, zero, suc, ◌+◌, ◌≡◌, refl, ap, ◌∙◌, len, Bool, true, false, ◌&&◌, length, Result, ok, err,
  ◌>>=◌, ltb, leb, if◌then◌else◌, Bool-cases, inl, inr, arith,
}
use agent_capability_gate.Json.{
  Value, null, bool, number, string, array, object, Items, nil, item, items, Fields, end, field,
}
use agent_capability_gate.Diagnostics.{max_string_bytes, max_array_items}
use agent_capability_gate.Boundary.Limits.{
  request_within_limits, items_within, values_within, keys_within,
}
use agent_capability_gate.Runtime.{McpCallError, output}
use agent_capability_gate.Runtime.Results.{
  bounded_from, bounded_items, bounded_fields, bounded_json,
}

-- The value itself where the test holds, and an error otherwise.
abbrev pub only_if : {A : Type 0} → Bool → A → Result McpCallError A
only_if true a = ok a
only_if false a = err output

only_if-cons :
    {A B C : Type 0} (f : A → B → C) (p q : Bool) (a : A) (b : B)
    → (only_if p a >>= λ x. only_if q b >>= λ y. ok (f x y)) ≡ only_if (p && q) (f a b)
only_if-cons f true true a b = refl
only_if-cons f true false a b = refl
only_if-cons f false q a b = refl

only_if-map :
    {A B : Type 0} (f : A → B) (p : Bool) (a : A)
    → (only_if p a >>= λ x. ok (f x)) ≡ only_if p (f a)
only_if-map f true a = refl
only_if-map f false a = refl

and_swap : (a b c : Bool) → (a && (b && c)) ≡ (b && (a && c))
and_swap true b c = refl
and_swap false true c = refl
and_swap false false c = refl

not_above : (n most : ℕ) → ltb most n ≡ true → leb n most ≡ false
not_above n most h = ground arith

not_below : (n most : ℕ) → ltb most n ≡ false → leb n most ≡ true
not_below n most h = ground arith

too_deep :
    (v : Value) (depth most : ℕ)
    → ltb most depth ≡ true
    → request_within_limits v depth most ≡ false
unfolding request_within_limits
too_deep null depth most h = rw h refl
too_deep (bool b) depth most h = rw h refl
too_deep (number n) depth most h = rw h refl
too_deep (string s) depth most h = rw h refl
too_deep (array vs) depth most h = rw h refl
too_deep (object fs) depth most h = rw h refl

at_level : (left depth : ℕ) → suc left + depth ≡ 33 → ltb 32 depth ≡ false
at_level left depth e = ground arith

mutual
  unfolding bounded_from request_within_limits

  bounded_from-within :
      (left depth : ℕ) (v : Value)
      → left + depth ≡ 33
      → bounded_from left v ≡ only_if (request_within_limits v depth 32) v
  bounded_from-within zero depth v e = rw (too_deep v depth 32 (ground arith)) refl
  bounded_from-within (suc left) depth null e = let h = at_level left depth e in rw h refl
  bounded_from-within (suc left) depth (bool b) e = let h = at_level left depth e in rw h refl
  bounded_from-within (suc left) depth (number n) e = let h = at_level left depth e in rw h refl
  bounded_from-within (suc left) depth (string s) e =
      let h = at_level left depth e in
      elim (Bool-cases (ltb max_string_bytes (len s))) [
        | inl long ↦ rw (h, long, not_above (len s) max_string_bytes long) refl
        | inr short ↦ rw (h, short, not_below (len s) max_string_bytes short) refl
      ]
  bounded_from-within (suc left) depth (array vs) e =
      let h = at_level left depth e in
      let n = length (items vs) in
      let inside = bounded_items-within left (suc depth) vs (omega arith) in
      elim (Bool-cases (ltb max_array_items n)) [
        | inl many ↦ rw (h, many, not_above n max_array_items many) refl
        | inr few ↦ rw (h, few, not_below n max_array_items few, inside) (only_if-map array _ vs)
      ]
  bounded_from-within (suc left) depth (object fs) e =
      let h = at_level left depth e in
      rw (h, bounded_fields-within left (suc depth) fs (omega arith)) (only_if-map object _ fs)

  bounded_items-within :
      (left depth : ℕ) (vs : Items)
      → left + depth ≡ 33
      → bounded_items left vs ≡ only_if (items_within vs depth 32) vs
  bounded_items-within left depth nil e = refl
  bounded_items-within left depth (item v vs) e =
      rw (bounded_from-within left depth v e, bounded_items-within left depth vs e)
        (only_if-cons item _ _ v vs)

  bounded_fields-within :
      (left depth : ℕ) (fs : Fields)
      → left + depth ≡ 33
      → bounded_fields left fs ≡ only_if (keys_within fs && values_within fs depth 32) fs
  bounded_fields-within left depth end e = refl
  bounded_fields-within left depth (field k v fs) e =
      let one = bounded_from-within left depth v e in
      let rest = bounded_fields-within left depth fs e in
      elim (Bool-cases (ltb max_string_bytes (len k))) [
        | inl long ↦ rw (long, not_above (len k) max_string_bytes long) refl
        | inr short ↦
            rw (short, not_below (len k) max_string_bytes short, one, rest)
              (only_if-cons (field k) _ _ v fs
                ∙ ap (λ b. only_if b (field k v fs)) (and_swap _ (keys_within fs) _))
      ]

-- For every value: `bounded_json` of the runtime lets an upstream value through, unchanged, exactly if
-- `request_within_limits` of the boundary would accept it in a request at depth 1 with a depth limit of 32.
pub bounded_json-within :
    (v : Value) → bounded_json v ≡ (if request_within_limits v 1 32 then ok v else err output)
unfolding bounded_json
bounded_json-within v = bounded_from-within 32 1 v refl ∙ as_test (request_within_limits v 1 32)
  where
    as_test : (b : Bool) → only_if b v ≡ (if b then ok v else err output)
    as_test true = refl
    as_test false = refl
