-- ===== src/Runtime/Results.antt =====
-- `adapt_result` and `bounded_json` of crates/runtime/src/lib.rs.
pub mod Adapted
pub mod Joined
pub mod Fitting
use agent_capability_gate.Prelude.{
  ℕ, zero, suc, ◌+◌, min, String, ◌+++◌, ◌==◌, len, Bool, true, false, not, ◌&&◌, ◌||◌, Option,
  none, some, List, [], ◌∷◌, ◌++◌, Map, get, length, is_empty, is_some, is_empty_text, Result, ok,
  err, ◌>>=◌, ◌>>◌, fail_if, ok_or, or_default, ltb, if◌then◌else◌,
}
use agent_capability_gate.Json.{
  Value, null, bool, number, string, array, object, Items, nil, item, items, Fields, end, field,
  as_object, as_array, as_str, as_bool, is_some_and, ◌>>?◌,
}
use agent_capability_gate.Json.Limits.{max_schema_depth}
use agent_capability_gate.Diagnostics.{max_string_bytes, max_array_items, target_failed}
use agent_capability_gate.Config.{OutputKind, text, json, structured, mcp_auto}
use agent_capability_gate.Catalog.Outside.{ExecutionResult}
use agent_capability_gate.Boundary.Framing.{usize_max}
use agent_capability_gate.Runtime.{Called, McpCallError, output, message_limit}

-- Recursion on the levels that are left, 33 - `depth`. A serde_json number is an i64, a u64 or a finite
-- f64, so the test on numbers accepts each.
unfoldable mutual
  pub bounded_from : ℕ → Value → Called Value
  bounded_from zero v = err output
  bounded_from (suc left) (string s) =
      if ltb max_string_bytes (len s) then err output else ok (string s)
  bounded_from (suc left) (array vs) =
      let rest = bounded_items left vs in
      if ltb max_array_items (length (items vs)) then err output else rest >>= λ ws. ok (array ws)
  bounded_from (suc left) (object fs) = bounded_fields left fs >>= λ gs. ok (object gs)
  bounded_from (suc left) v = ok v

  pub bounded_items : ℕ → Items → Called Items
  bounded_items left nil = ok nil
  bounded_items left (item v vs) =
      bounded_from left v >>= λ w. bounded_items left vs >>= λ ws. ok (item w ws)

  pub bounded_fields : ℕ → Fields → Called Fields
  bounded_fields left end = ok end
  bounded_fields left (field k v fs) =
      let one = bounded_from left v in
      let rest = bounded_fields left fs in
      if ltb max_string_bytes (len k)
      then err output
      else one >>= λ w. rest >>= λ gs. ok (field k w gs)

-- `bounded_json(value, 1)`
unfoldable pub bounded_json : Value → Called Value
unfolding bounded_from
bounded_json v = bounded_from max_schema_depth v

-- The text of a content block.
unfoldable pub block_text : Value → Called String
unfolding get
block_text v = do
  block ← ok_or (as_object v) output
  fail_if (not (is_some_and (get "type" block >>? as_str) (λ s. s == "text"))) output
  part ← ok_or (get "text" block >>? as_str) output
  fail_if (ltb max_string_bytes (len part)) output
  ok part

abbrev pub add_part : String → String → String
add_part all part = if is_empty_text all then part else all +++ ("\n" +++ part)

-- The loop over the blocks, with the text and the texts so far.
unfoldable pub collect_blocks : List Value → String → List String → Called (String × List String)
unfolding block_text
collect_blocks [] all parts = ok (all, parts)
collect_blocks (block ∷ blocks) all parts =
    block_text block >>= λ part. collect_blocks blocks (add_part all part) (parts ++ part ∷ [])

abbrev pub read_content : Option Value → Called (String × List String)
read_content none = ok ("", [])
read_content (some content) =
    ok_or (as_array content) output >>= λ blocks. collect_blocks blocks "" []

abbrev pub read_structured : Option Value → Called (Option Value)
read_structured none = ok none
read_structured (some v) = bounded_json v >>= λ w. ok (some w)

-- What an output of this kind may not be.
abbrev pub is_unfit : OutputKind → List String → Option Value → Bool
is_unfit text parts o = is_some o || is_empty parts
is_unfit structured parts o = not (is_some o)
is_unfit mcp_auto parts o = is_empty parts && not (is_some o)
is_unfit json parts o = false

-- `json_size` is the length of serde_json's text of a value, or none where it fails.
module _ (json_size : Value → Option ℕ) where
  abbrev pub structured_bytes : Option Value → Called ℕ
  structured_bytes none = ok 0
  structured_bytes (some v) = ok_or (json_size v) output

  abbrev pub outcome : Bool → String → List String → Option Value → ExecutionResult
  outcome true all parts o = record {
    text = none;
    text_blocks = [];
    structured = none;
    is_error = true;
    code = target_failed;
  }
  outcome false all parts o = record {
    text = if is_empty parts then none else some all;
    text_blocks = parts;
    structured = o;
    is_error = false;
    code = target_failed;
  }

  unfoldable pub adapt_result : Value → OutputKind → ℕ → Called ExecutionResult
  unfolding get collect_blocks bounded_json
  adapt_result value kind output_limit = do
    entries ← ok_or (as_object value) output
    content ← read_content (get "content" entries)
    found ← read_structured (get "structuredContent" entries)
    fail_if (is_unfit kind content.1 found) output
    size ← structured_bytes found
    fail_if (ltb output_limit (min usize_max (len content.0 + size))) message_limit
    ok (outcome (or_default (get "isError" entries >>? as_bool) false) content.0 content.1 found)
