-- ===== src/Pointer.antt =====
-- JSON pointers: `escape_ptr` and `decode_ptr` of crates/core/src/lib.rs.
pub mod RoundTrip
use Prim.Native.String.{[], ◌∷◌}
use mathlib.Core.Option
use mathlib.Core.List.{[], ◌∷◌}
use agent_capability_gate.Prelude.{
  ℕ, String, Char, code, Bool, true, false, Option, none, some, List, eqb, if◌then◌else◌, ◌+++◌,
}

-- `s.replace(c, by)`
unfoldable pub replace_char : ℕ → String → String → String
replace_char c by [] = ""
replace_char c by (d ∷ s) =
    if eqb (code d) c then by +++ replace_char c by s else d ∷ replace_char c by s

unfoldable pub escape_ptr : String → String
unfolding replace_char
escape_ptr s = replace_char b'/' "~1" (replace_char b'~' "~0" s)

abbrev cons_head : Char → List String → List String
cons_head c [] = (c ∷ "") ∷ []
cons_head c (w ∷ ws) = (c ∷ w) ∷ ws

-- `s.split(c)`
unfoldable pub split_on : ℕ → String → List String
split_on c [] = "" ∷ []
split_on c (d ∷ s) = if eqb (code d) c then "" ∷ split_on c s else cons_head d (split_on c s)

-- What the character behind a `~` stands for.
abbrev unescape : Char → Option Char
unescape c = if eqb (code c) b'0' then some "~" else if eqb (code c) b'1' then some "/" else none

abbrev push_front : Option Char → Option String → Option String
push_front (some c) (some s) = some (c ∷ s)
push_front _ _ = none

-- The inner loop of `decode_ptr`, over the characters of one part.
unfoldable pub decode_part : String → Option String
decode_part [] = some ""
decode_part (c ∷ []) = if eqb (code c) b'~' then none else some (c ∷ "")
decode_part (c ∷ d ∷ s) =
    let escaped = push_front (unescape d) (decode_part s) in
    let plain = push_front (some c) (decode_part (d ∷ s)) in
    if eqb (code c) b'~' then escaped else plain

abbrev collect_part : Option String → Option (List String) → Option (List String)
collect_part (some p) (some ps) = some (p ∷ ps)
collect_part _ _ = none

decode_parts : List String → Option (List String)
decode_parts [] = some []
decode_parts (p ∷ ps) = collect_part (decode_part p) (decode_parts ps)

unfoldable pub decode_ptr : String → Option (List String)
unfolding decode_parts decode_part split_on
decode_ptr [] = some []
decode_ptr (c ∷ s) = if eqb (code c) b'/' then decode_parts (split_on b'/' s) else none
