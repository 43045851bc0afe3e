-- ===== src/Prelude/Text.antt =====
-- Tests on the characters of a text, and decimal numerals.
use Prim.Native.Nat.{ℕ, zero, suc, ◌/◌, ◌%◌}
use Prim.Native.Char.{code}
use Prim.Native.String
use Prim.Native.String.{String, [], ◌∷◌}
use mathlib.Core.Bool.{Bool, true, false, ◌&&◌, ◌||◌}
use agent_capability_gate.Prelude.Tests.{leb, eqb, if◌then◌else◌}

infixr 65 ◌+++◌
abbrev pub ◌+++◌ : String → String → String
s +++ t = String.◌++◌ s t

-- `s.chars().all(p)`, by the characters' numbers
abbrev pub all_chars : (ℕ → Bool) → String → Bool
all_chars p [] = true
all_chars p (c ∷ s) = p (code c) && all_chars p s

-- `s.contains(c)`
abbrev pub contains_char : ℕ → String → Bool
contains_char c [] = false
contains_char c (d ∷ s) = eqb (code d) c || contains_char c s

-- `s.contains('\0')`
abbrev pub has_nul : String → Bool
has_nul s = contains_char 0 s

-- `s.starts_with(c)`
abbrev pub starts_with_char : ℕ → String → Bool
starts_with_char c [] = false
starts_with_char c (d ∷ s) = eqb (code d) c

-- `s.is_empty()`
abbrev pub is_empty_text : String → Bool
is_empty_text [] = true
is_empty_text (c ∷ s) = false

abbrev pub is_digit : ℕ → Bool
is_digit c = leb b'0' c && leb c b'9'

-- `is_ascii_alphabetic`
abbrev pub is_alphabetic : ℕ → Bool
is_alphabetic c = leb b'a' c && leb c b'z' || leb b'A' c && leb c b'Z'

-- `is_ascii_alphanumeric`
abbrev pub is_alphanumeric : ℕ → Bool
is_alphanumeric c = is_alphabetic c || is_digit c

digit_text : ℕ → String
digit_text zero = "0"
digit_text (suc zero) = "1"
digit_text (suc (suc zero)) = "2"
digit_text (suc (suc (suc zero))) = "3"
digit_text (suc (suc (suc (suc zero)))) = "4"
digit_text (suc (suc (suc (suc (suc zero))))) = "5"
digit_text (suc (suc (suc (suc (suc (suc zero)))))) = "6"
digit_text (suc (suc (suc (suc (suc (suc (suc zero))))))) = "7"
digit_text (suc (suc (suc (suc (suc (suc (suc (suc zero)))))))) = "8"
digit_text _ = "9"

-- The numeral with at most `fuel` digits; a number has fewer digits than its value plus one.
decimal_from : ℕ → ℕ → String → String
decimal_from zero n acc = acc
decimal_from (suc fuel) n acc =
    let here = digit_text (n % 10) +++ acc in
    let more = decimal_from fuel (n / 10) here in if leb n 9 then here else more

-- `format!("{n}")` of an unsigned number
unfoldable pub decimal : ℕ → String
unfolding decimal_from digit_text
decimal n = decimal_from (suc n) n ""
