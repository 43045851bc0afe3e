-- ===== src/Pointer/RoundTrip.antt =====
-- Decoding gives back the parts that a pointer was built from.
use Prim.Native.Char.{Char, code}
use Prim.Native.String.{String, [], ◌∷◌}
use mathlib.Core.List.{[], ◌∷◌}
use text.Mathlib.TextEquality.{Char-path}
use text.Mathlib.TextLemmas.{nil-append, cons-append, append_assoc, append-nil}
use agent_capability_gate.Prelude.{
  ◌≡◌, refl, sym, ap, ◌∙◌, some, List, eqb, if◌then◌else◌, ◌+++◌, arith, Bool-cases, inl, inr,
}
use agent_capability_gate.Pointer.{
  replace_char, escape_ptr, split_on, decode_part, decode_parts, decode_ptr, push_front,
}

-- What `escape_ptr` writes for one character.
abbrev escape_char : Char → String
escape_char c = if eqb (code c) b'~' then "~0" else if eqb (code c) b'/' then "~1" else c ∷ ""

-- The pointer that names a path of keys, as the code builds it with `format!("{path}/{}", …)`.
abbrev pub pointer_of : List String → String
pointer_of [] = ""
pointer_of (p ∷ ps) = "/" +++ (escape_ptr p +++ pointer_of ps)

two-append : (c d : Char) (s : String) → (c ∷ d ∷ "") +++ s ≡ c ∷ d ∷ s
two-append c d s =
    cons-append c (d ∷ "") s ∙ ap (λ t. c ∷ t) (cons-append d "" s ∙ ap (λ t. d ∷ t) (nil-append s))

one-append : (c : Char) (s : String) → (c ∷ "") +++ s ≡ c ∷ s
one-append c s = cons-append c "" s ∙ ap (λ t. c ∷ t) (nil-append s)

tilde-append : (s : String) → "~0" +++ s ≡ "~" ∷ "0" ∷ s
tilde-append = two-append "~" "0"

slash-append : (s : String) → "~1" +++ s ≡ "~" ∷ "1" ∷ s
slash-append = two-append "~" "1"

escape_ptr-cons : (c : Char) (s : String) → escape_ptr (c ∷ s) ≡ escape_char c +++ escape_ptr s
unfolding escape_ptr
escape_ptr-cons c s = ground (
  arith,
  tilde-append (replace_char 126 "~0" s),
  tilde-append (escape_ptr s),
  one-append c (escape_ptr s),
)

decode_part_last : (c : Char) → decode_part (escape_char c) ≡ some (c ∷ "")
unfolding decode_part
decode_part_last c = elim (Bool-cases (eqb (code c) b'~')) [
  | inl tilde ↦ rw tilde (ap (λ d. some (d ∷ "")) (Char-path "~" c (sym (ground arith))))
  | inr other ↦ elim (Bool-cases (eqb (code c) b'/')) [
    | inl slash ↦ rw (other, slash) (ap (λ d. some (d ∷ "")) (Char-path "/" c (sym (ground arith))))
    | inr plain ↦ rw (other, plain) (rw other)
  ]
]

decode_part-escape_char :
    (c : Char) (s t : String)
    → decode_part s ≡ some t
    → decode_part (escape_char c +++ s) ≡ some (c ∷ t)
unfolding decode_part
decode_part-escape_char c [] t h =
    rw (append-nil (escape_char c)) (decode_part_last c ∙ ap (push_front (some c)) h)
decode_part-escape_char c (d ∷ s) t h = ground (
  arith,
  tilde-append (d ∷ s),
  slash-append (d ∷ s),
  one-append c (d ∷ s),
  Char-path c "~",
  Char-path c "/",
)

decode_part-escape_ptr : (s : String) → decode_part (escape_ptr s) ≡ some s
decode_part-escape_ptr [] = unfold escape_ptr decode_part in refl
decode_part-escape_ptr (c ∷ s) =
    rw (escape_ptr-cons c s) (decode_part-escape_char c (escape_ptr s) s (decode_part-escape_ptr s))

split_on-escape_char :
    (c : Char) (s w : String) (ws : List String)
    → split_on b'/' s ≡ w ∷ ws
    → split_on b'/' (escape_char c +++ s) ≡ (escape_char c +++ w) ∷ ws
unfolding split_on
split_on-escape_char c s w ws h = ground (
  arith,
  tilde-append s,
  slash-append s,
  one-append c s,
  tilde-append w,
  slash-append w,
  one-append c w,
)

split_on-escape_ptr :
    (p rest : String) (ws : List String)
    → split_on b'/' rest ≡ "" ∷ ws
    → split_on b'/' (escape_ptr p +++ rest) ≡ escape_ptr p ∷ ws
split_on-escape_ptr [] rest ws h = unfold escape_ptr in rw (nil-append rest) h
split_on-escape_ptr (c ∷ s) rest ws h =
    rw (escape_ptr-cons c s, append_assoc)
      (split_on-escape_char c (escape_ptr s +++ rest) (escape_ptr s) ws
        (split_on-escape_ptr s rest ws h))

abbrev escaped : List String → List String
escaped [] = []
escaped (p ∷ ps) = escape_ptr p ∷ escaped ps

split_on-slash :
    (s w : String) (ws : List String)
    → split_on b'/' s ≡ w ∷ ws
    → split_on b'/' ("/" +++ s) ≡ "" ∷ w ∷ ws
unfolding split_on
split_on-slash s w ws h = rw (one-append "/" s) (ap (λ vs. "" ∷ vs) h)

split_on-pointer_of : (ps : List String) → split_on b'/' (pointer_of ps) ≡ "" ∷ escaped ps
unfolding split_on
split_on-pointer_of [] = refl
split_on-pointer_of (p ∷ ps) =
    split_on-slash (escape_ptr p +++ pointer_of ps) (escape_ptr p) (escaped ps)
      (split_on-escape_ptr p (pointer_of ps) (escaped ps) (split_on-pointer_of ps))

decode_parts-escaped : (ps : List String) → decode_parts (escaped ps) ≡ some ps
unfolding decode_parts
decode_parts-escaped [] = refl
decode_parts-escaped (p ∷ ps) = rw (decode_part-escape_ptr p, decode_parts-escaped ps)

decode_ptr-slash : (s : String) → decode_ptr ("/" +++ s) ≡ decode_parts (split_on b'/' s)
unfolding decode_ptr
decode_ptr-slash s = rw (one-append "/" s)

-- Whatever the keys are, the pointer that is built from them by escaping each key, with a slash before
-- it, decodes to exactly these keys.
pub decode_ptr-pointer_of : (ps : List String) → decode_ptr (pointer_of ps) ≡ some ps
decode_ptr-pointer_of [] = unfold decode_ptr in refl
decode_ptr-pointer_of (p ∷ ps) =
    decode_ptr-slash (escape_ptr p +++ pointer_of ps)
    ∙ ap decode_parts (split_on-escape_ptr p (pointer_of ps) (escaped ps) (split_on-pointer_of ps))
    ∙ decode_parts-escaped (p ∷ ps)
