-- ===== src/Runtime/Results/Joined.antt =====
-- The texts of content blocks, as `adapt_result` of crates/runtime/src/lib.rs collects and joins them.
use Prim.Native.String.{[], ◌∷◌}
use mathlib.Core.List.{[], ◌∷◌}
use text.Mathlib.TextLemmas as Text
use text.Mathlib.TextLemmas.{cons-append, append-nil}
use agent_capability_gate.Prelude.{
  not, ◌==◌, ◌≤◌, ◌≡◌, refl, ap, sym, ◌∙◌, subst, String, ◌+++◌, is_empty_text, len, true, Option,
  none, some, List, ◌++◌, append_nil, append_assoc, ok, >>=-eq-ok, ok-injective, or_default, ltb,
  if◌then◌else◌, arith, fail_if, fail_if-eq-ok, ok_or, ok_or-eq-ok, get,
}
use agent_capability_gate.Json.{Value, get_field, as_array, as_object, as_str, is_some_and, ◌>>?◌}
use agent_capability_gate.Diagnostics.{max_string_bytes}
use agent_capability_gate.Runtime.{output}
use agent_capability_gate.Runtime.Results.{block_text, add_part, collect_blocks, read_content}

-- The value is a block of type text with that text, of at most 256 KiB.
pub record IsTextBlock (v : Value) (part : String) : Type 0 where
  pub typed : is_some_and (get_field "type" v >>? as_str) (λ s. s == "text") ≡ true
  pub here : (get_field "text" v >>? as_str) ≡ some part
  pub short : len part ≤ 262144

abbrev pub AreTextBlocks : List Value → List String → Type 0
AreTextBlocks [] [] = Unit
AreTextBlocks [] (part ∷ parts) = ⊥
AreTextBlocks (v ∷ vs) [] = ⊥
AreTextBlocks (v ∷ vs) (part ∷ parts) = IsTextBlock v part × AreTextBlocks vs parts

abbrev followed : List String → String
followed [] = ""
followed (part ∷ parts) = "\n" +++ (part +++ followed parts)

-- The texts from the first that is not empty on, with a line feed between any two.
abbrev pub joined_text : List String → String
joined_text [] = ""
joined_text (part ∷ parts) =
    if is_empty_text part then joined_text parts else part +++ followed parts

block_text-IsTextBlock : (v : Value) (part : String) → block_text v ≡ ok part → IsTextBlock v part
unfolding block_text
block_text-IsTextBlock v part h =
    let (block, e0, h1) = >>=-eq-ok (ok_or (as_object v) output) _ h in
    let (_, e1, h2) =
      >>=-eq-ok
        (fail_if (not (is_some_and (get "type" block >>? as_str) (λ s. s == "text"))) output) _
        h1 in
    let (found, e2, h3) = >>=-eq-ok (ok_or (get "text" block >>? as_str) output) _ h2 in
    let (_, e3, h4) = >>=-eq-ok (fail_if (ltb max_string_bytes (len found)) output) _ h3 in
    let fits = fail_if-eq-ok (ltb max_string_bytes (len found)) output e3 in
    let short : len found ≤ 262144 = ground arith in
    let object = ok_or-eq-ok (as_object v) output e0 in
    let of_text = fail_if-eq-ok _ output e1 in
    let typed : is_some_and (get "type" block >>? as_str) (λ s. s == "text") ≡ true =
      ground arith in
    subst (IsTextBlock v) (ok-injective h4) (record {
      typed =
          subst (λ o. is_some_and (o >>? (λ m. get "type" m) >>? as_str) (λ s. s == "text") ≡ true)
            (sym object) typed;
      here =
          subst (λ o. (o >>? (λ m. get "text" m) >>? as_str) ≡ some found) (sym object)
            (ok_or-eq-ok (get "text" block >>? as_str) output e2);
      short = short;
    })

abbrev continued : String → List String → String
continued all parts = if is_empty_text all then joined_text parts else all +++ followed parts

continued-add_part :
    (all part : String) (parts : List String)
    → continued (add_part all part) parts ≡ continued all (part ∷ parts)
continued-add_part [] part parts = refl
continued-add_part (c ∷ s) part parts =
    let all = (c ∷ s) +++ ("\n" +++ part) in
    ap (λ b. if b then joined_text parts else all +++ followed parts)
      (ap is_empty_text (cons-append c s ("\n" +++ part)))
    ∙ Text.append_assoc (c ∷ s) ("\n" +++ part) (followed parts)
    ∙ ap (λ t. (c ∷ s) +++ t) (Text.append_assoc "\n" part (followed parts))

-- What a loop over blocks returns adds to the text and the texts so far.
abbrev Collected : List Value → String → List String → String × List String → Type 0
Collected blocks all parts out =
    (more : List String) × (out.1 ≡ parts ++ more)
    × (out.0 ≡ continued all more)
    × AreTextBlocks blocks more

continued-nil : (all : String) → all ≡ continued all []
continued-nil [] = refl
continued-nil (c ∷ s) = sym (append-nil (c ∷ s))

collect_blocks-Collected :
    (blocks : List Value) (all : String) (parts : List String) (out : String × List String)
    → collect_blocks blocks all parts ≡ ok out
    → Collected blocks all parts out
unfolding collect_blocks
collect_blocks-Collected [] all parts out h =
    let e = ok-injective h in
    (
      [],
      sym (ap (λ t. t.1) e) ∙ sym (append_nil parts),
      sym (ap (λ t. t.0) e) ∙ continued-nil all,
      tt,
    )
collect_blocks-Collected (block ∷ blocks) all parts out h =
    let (part, e, h1) = >>=-eq-ok (block_text block) _ h in
    let (more, listed, joined, texts) =
      collect_blocks-Collected blocks (add_part all part) (parts ++ part ∷ []) out h1 in
    (
      part ∷ more,
      listed ∙ append_assoc parts (part ∷ []) more,
      joined ∙ continued-add_part all part more,
      (block_text-IsTextBlock block part e, texts),
    )

abbrev pub content_blocks : Option Value → List Value
content_blocks o = or_default (o >>? as_array) []

pub read_content-joined :
    (o : Option Value) (out : String × List String)
    → read_content o ≡ ok out
    → (out.0 ≡ joined_text out.1) × AreTextBlocks (content_blocks o) out.1
read_content-joined none out h =
    subst (λ t. (t.0 ≡ joined_text t.1) × AreTextBlocks [] t.1) (ok-injective h) (refl, tt)
read_content-joined (some content) out h =
    let (blocks, e, h1) =
      >>=-eq-ok (ok_or (as_array content) output) (λ bs. collect_blocks bs "" []) h in
    let (more, listed, joined, texts) = collect_blocks-Collected blocks "" [] out h1 in
    let given = ok_or-eq-ok (as_array content) output e in
    (
      joined ∙ ap joined_text (sym listed),
      subst (λ o'. AreTextBlocks (or_default o' []) out.1) (sym given)
          (subst (AreTextBlocks blocks) (sym listed) texts),
    )
