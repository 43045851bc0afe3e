-- ===== src/Runtime/Results/Fitting.antt =====
-- What an adapted result is, by whether the upstream server reports an error.
use agent_capability_gate.Prelude.{
  inl, inr, ◌⊎◌, ℕ, suc, ◌+◌, ◌≤◌, min, ◌≡◌, refl, ap, sym, ◌∙◌, subst, String, len, Bool, true,
  false, Option, none, some, List, [], ◌∷◌, is_empty, ok, err, >>=-eq-ok, ok-injective, or_default,
  ltb, if◌then◌else◌, arith, fail_if, fail_if-eq-ok, ok_or, ok_or-eq-ok, get,
}
use agent_capability_gate.Json.{Value, get_field, as_bool, as_object, ◌>>?◌}
use agent_capability_gate.Config.{OutputKind, text, json, structured, mcp_auto}
use agent_capability_gate.Catalog.Outside.{ExecutionResult}
use agent_capability_gate.Boundary.Framing.{usize_max}
use agent_capability_gate.Boundary.Limits.{request_within_limits}
use agent_capability_gate.Runtime.{output, message_limit}
use agent_capability_gate.Runtime.Results.{
  bounded_json, read_content, read_structured, is_unfit, structured_bytes, outcome, adapt_result,
}
use agent_capability_gate.Runtime.Results.Adapted.{bounded_json-within}
use agent_capability_gate.Runtime.Results.Joined.{
  AreTextBlocks, joined_text, content_blocks, read_content-joined,
}

abbrev pub IsBounded : Option Value → Type 0
IsBounded none = Unit
IsBounded (some v) = request_within_limits v 1 32 ≡ true

-- What an output of this kind is: texts and nothing structured, a structured value, one of both, or any.
abbrev pub HasShape : OutputKind → List String → Option Value → Type 0
HasShape text parts found = (¬ (parts ≡ [])) × (found ≡ none)
HasShape structured parts found = (v : Value) × (found ≡ some v)
HasShape mcp_auto parts found = (¬ (parts ≡ [])) ⊎ ((v : Value) × (found ≡ some v))
HasShape json parts found = Unit

-- The length of the serialized structured value; nothing for none.
abbrev pub HasSize : (Value → Option ℕ) → Option Value → ℕ → Type 0
HasSize json_size none size = size ≡ 0
HasSize json_size (some v) size = json_size v ≡ some size

-- A result that the target did not report as an error, of the value that the target sent.
pub record Fitting (json_size : Value → Option ℕ) (kind : OutputKind) (limit : ℕ) (v : Value)
    (r : ExecutionResult) : Type 0 where
  pub texts : AreTextBlocks (content_blocks (get_field "content" v)) r.text_blocks
  pub text_joined :
      r.text ≡ (if is_empty r.text_blocks then none else some (joined_text r.text_blocks))
  pub kept : r.structured ≡ get_field "structuredContent" v
  pub limited : IsBounded r.structured
  pub shape : HasShape kind r.text_blocks r.structured
  pub size : ℕ
  pub measured : HasSize json_size r.structured size
  pub small : len (joined_text r.text_blocks) + size ≤ limit

-- Nothing of what the target sent.
abbrev pub Silent : ExecutionResult → Type 0
Silent r = (r.text ≡ none) × (r.text_blocks ≡ []) × (r.structured ≡ none)

abbrev pub Adapted : (Value → Option ℕ) → OutputKind → ℕ → Value → Bool → ExecutionResult → Type 0
Adapted json_size kind limit v true r = Silent r
Adapted json_size kind limit v false r = Fitting json_size kind limit v r

below_limit :
    (n limit : ℕ) → suc limit ≤ usize_max → ltb limit (min usize_max n) ≡ false → n ≤ limit
below_limit n limit below h = ground arith

has_shape :
    (kind : OutputKind) (parts : List String) (found : Option Value)
    → is_unfit kind parts found ≡ false
    → HasShape kind parts found
has_shape text [] none fit = cc
has_shape text (part ∷ parts) none fit = ((λ e. cc), refl)
has_shape text parts (some v) fit = cc
has_shape structured parts none fit = cc
has_shape structured parts (some v) fit = (v, refl)
has_shape mcp_auto [] none fit = cc
has_shape mcp_auto parts (some v) fit = inr (v, refl)
has_shape mcp_auto (part ∷ parts) none fit = inl (λ e. cc)
has_shape json parts found fit = tt

read_structured-kept :
    (o found : Option Value) → read_structured o ≡ ok found → (found ≡ o) × IsBounded found
read_structured-kept none found h =
    subst (λ x. (x ≡ none) × IsBounded x) (ok-injective h) (refl, tt)
read_structured-kept (some v) found h =
    let (w, e, h1) = >>=-eq-ok (bounded_json v) _ h in
    subst (λ x. (x ≡ some v) × IsBounded x) (ok-injective h1)
      (by_test (request_within_limits v 1 32) refl (rw (bounded_json-within v) at e))
  where
    by_test :
        (b : Bool)
        → request_within_limits v 1 32 ≡ b
        → {w : Value} → (if b then ok v else err output) ≡ ok w
        → (some w ≡ some v) × (request_within_limits w 1 32 ≡ true)
    by_test true e h =
        subst (λ x. (some x ≡ some v) × (request_within_limits x 1 32 ≡ true)) (ok-injective h)
          (refl, e)
    by_test false e h = cc

module _ (json_size : Value → Option ℕ) (kind : OutputKind) (limit : ℕ) where
  structured_bytes-HasSize :
      (o : Option Value) (size : ℕ)
      → structured_bytes json_size o ≡ ok size
      → HasSize json_size o size
  structured_bytes-HasSize none size h = sym (ok-injective h)
  structured_bytes-HasSize (some v) size h = ok_or-eq-ok (json_size v) output h

  outcome-flag :
      (flag : Bool) (all : String) (parts : List String) (found : Option Value)
      → (outcome json_size flag all parts found).is_error ≡ flag
  outcome-flag true all parts found = refl
  outcome-flag false all parts found = refl

  outcome-Adapted :
      (v : Value) (flag : Bool) (all : String) (parts : List String) (found : Option Value)
      (size : ℕ)
      → (all ≡ joined_text parts) × AreTextBlocks (content_blocks (get_field "content" v)) parts
      → is_unfit kind parts found ≡ false
      → (found ≡ get_field "structuredContent" v) × IsBounded found
      → structured_bytes json_size found ≡ ok size
      → len all + size ≤ limit
      → Adapted json_size kind limit v
          (outcome json_size flag all parts found).is_error
          (outcome json_size flag all parts found)
  outcome-Adapted v true all parts found size read fit bounded measured small = (refl, refl, refl)
  outcome-Adapted v false all parts found size read fit bounded measured small = record {
    texts = read.1;
    text_joined = ap (λ t. if is_empty parts then none else some t) read.0;
    kept = bounded.0;
    limited = bounded.1;
    shape = has_shape kind parts found fit;
    size = size;
    measured = structured_bytes-HasSize found size measured;
    small = subst (λ t. len t + size ≤ limit) read.0 small;
  }

  -- Where the configured limit is below the largest usize: of a result that the target reports as an error,
  -- `adapt_result` keeps nothing. Of any other it keeps the texts of all content blocks, each of type text and
  -- of at most 256 KiB, joined by line feeds from the first text on that is not empty, and the structured
  -- value as it was sent, within the limits of a request. An output of kind text has blocks and nothing
  -- structured, a structured one has the value, one of kind mcp_auto has one of them; and the text and
  -- the serialized value together are within the limit.
  pub adapt_result-Adapted :
      (v : Value) (r : ExecutionResult)
      → suc limit ≤ usize_max
      → adapt_result json_size v kind limit ≡ ok r
      → (r.is_error ≡ or_default (get_field "isError" v >>? as_bool) false)
        × Adapted json_size kind limit v r.is_error r
  unfolding adapt_result
  adapt_result-Adapted v r below h =
      let (entries, e0, h1) = >>=-eq-ok (ok_or (as_object v) output) _ h in
      let (content, e1, h2) = >>=-eq-ok (read_content (get "content" entries)) _ h1 in
      let (found, e2, h3) = >>=-eq-ok (read_structured (get "structuredContent" entries)) _ h2 in
      let (_, e3, h4) = >>=-eq-ok (fail_if (is_unfit kind content.1 found) output) _ h3 in
      let (size, e4, h5) = >>=-eq-ok (structured_bytes json_size found) _ h4 in
      let (_, e5, h6) =
        >>=-eq-ok (fail_if (ltb limit (min usize_max (len content.0 + size))) message_limit) _ h5 in
      let most =
        fail_if-eq-ok (ltb limit (min usize_max (len content.0 + size))) message_limit e5 in
      let small = below_limit (len content.0 + size) limit below most in
      let object = sym (ok_or-eq-ok (as_object v) output e0) in
      let read = read_content-joined (get "content" entries) content e1 in
      let kept = read_structured-kept (get "structuredContent" entries) found e2 in
      subst
        (λ x.
          (x.is_error ≡ or_default (get_field "isError" v >>? as_bool) false)
          × Adapted json_size kind limit v x.is_error x)
        (ok-injective h6)
        (
          outcome-flag _ content.0 content.1 found
              ∙ ap (λ o. or_default (o >>? (λ m. get "isError" m) >>? as_bool) false) object,
          outcome-Adapted v _ content.0 content.1 found size
              (
                read.0,
                subst (λ o. AreTextBlocks (content_blocks (o >>? (λ m. get "content" m))) content.1)
                    object read.1,
              )
              (fail_if-eq-ok _ output e3)
              (kept.0 ∙ ap (λ o. o >>? (λ m. get "structuredContent" m)) object, kept.1) e4 small,
        )
