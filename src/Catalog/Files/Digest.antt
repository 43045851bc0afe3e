-- ===== src/Catalog/Files/Digest.antt =====
-- `sha256_hex` of crates/boundary/src/catalog_cache.rs. A u32 is a number below 2 ^ 32.
pub mod Padding
use agent_capability_gate.Prelude.{
  ℕ, zero, suc, ◌+◌, ◌-◌, ◌*◌, ◌/◌, ◌%◌, ◌^◌, ◌≤◌, ◌≡◌, refl, ap, sym, ◌∙◌, String, ◌+++◌, List, [],
  ◌∷◌, ◌++◌, length, length-append, Bool-cases, inl, inr, eqb, ltb, if◌then◌else◌, arith, true,
  false,
}
use Prim.Native.Nat.{bit_and, bit_xor}
use agent_capability_gate.Catalog.Files.{take}

abbrev u32_mod : ℕ
u32_mod = 2 ^ 32

-- `u32::wrapping_add`
abbrev wrapping_add : ℕ → ℕ → ℕ
wrapping_add a b = (a + b) % 2 ^ 32

-- `u32::rotate_right`, for less than 32 places
abbrev rotate_right : ℕ → ℕ → ℕ
rotate_right n x = x / 2 ^ n + x % 2 ^ n * 2 ^ (32 - n)

abbrev xor3 : ℕ → ℕ → ℕ → ℕ
xor3 a b c = bit_xor (bit_xor a b) c

-- `!` on u32
abbrev complement : ℕ → ℕ
complement x = 2 ^ 32 - 1 - x

abbrev round_constants : List ℕ
round_constants =
    0x428a2f98 ∷ 0x71374491 ∷ 0xb5c0fbcf ∷ 0xe9b5dba5 ∷ 0x3956c25b ∷ 0x59f111f1 ∷ 0x923f82a4
    ∷ 0xab1c5ed5 ∷ 0xd807aa98 ∷ 0x12835b01 ∷ 0x243185be ∷ 0x550c7dc3 ∷ 0x72be5d74 ∷ 0x80deb1fe
    ∷ 0x9bdc06a7 ∷ 0xc19bf174 ∷ 0xe49b69c1 ∷ 0xefbe4786 ∷ 0x0fc19dc6 ∷ 0x240ca1cc ∷ 0x2de92c6f
    ∷ 0x4a7484aa ∷ 0x5cb0a9dc ∷ 0x76f988da ∷ 0x983e5152 ∷ 0xa831c66d ∷ 0xb00327c8 ∷ 0xbf597fc7
    ∷ 0xc6e00bf3 ∷ 0xd5a79147 ∷ 0x06ca6351 ∷ 0x14292967 ∷ 0x27b70a85 ∷ 0x2e1b2138 ∷ 0x4d2c6dfc
    ∷ 0x53380d13 ∷ 0x650a7354 ∷ 0x766a0abb ∷ 0x81c2c92e ∷ 0x92722c85 ∷ 0xa2bfe8a1 ∷ 0xa81a664b
    ∷ 0xc24b8b70 ∷ 0xc76c51a3 ∷ 0xd192e819 ∷ 0xd6990624 ∷ 0xf40e3585 ∷ 0x106aa070 ∷ 0x19a4c116
    ∷ 0x1e376c08 ∷ 0x2748774c ∷ 0x34b0bcb5 ∷ 0x391c0cb3 ∷ 0x4ed8aa4a ∷ 0x5b9cca4f ∷ 0x682e6ff3
    ∷ 0x748f82ee ∷ 0x78a5636f ∷ 0x84c87814 ∷ 0x8cc70208 ∷ 0x90befffa ∷ 0xa4506ceb ∷ 0xbef9a3f7
    ∷ 0xc67178f2 ∷ []

abbrev initial_state : List ℕ
initial_state =
    0x6a09e667 ∷ 0xbb67ae85 ∷ 0x3c6ef372 ∷ 0xa54ff53a ∷ 0x510e527f ∷ 0x9b05688c ∷ 0x1f83d9ab
    ∷ 0x5be0cd19 ∷ []

-- The zeros that the loop pushes after `count` bytes.
unfoldable pub zeros : ℕ → ℕ → List ℕ
zeros zero count = []
zeros (suc fuel) count =
    let rest = zeros fuel (suc count) in if eqb (count % 64) 56 then [] else 0 ∷ rest

-- `to_be_bytes`, of the last `count` bytes
abbrev be_bytes : ℕ → ℕ → List ℕ
be_bytes zero n = []
be_bytes (suc count) n = n / 256 ^ count % 256 ∷ be_bytes count n

unfoldable pub padded : List ℕ → List ℕ
unfolding zeros
padded bytes =
    (bytes ++ (0x80 ∷ zeros 64 (length bytes + 1)))
    ++ be_bytes 8 (length bytes % 2 ^ 64 * 8 % 2 ^ 64)

unfoldable pub drop {ℓ} : {A : Type ℓ} → ℕ → List A → List A
drop zero xs = xs
drop (suc n) [] = []
drop (suc n) (x ∷ xs) = drop n xs

-- `as_chunks`: the full chunks. Each takes at least one item, so the number of items is fuel enough.
unfoldable pub chunks {ℓ} : {A : Type ℓ} → ℕ → ℕ → List A → List (List A)
unfolding take drop
chunks zero size xs = []
chunks (suc fuel) size xs =
    let rest = chunks fuel size (drop size xs) in
    if ltb (length xs) size then [] else take size xs ∷ rest

abbrev from_be_bytes : List ℕ → ℕ → ℕ
from_be_bytes [] acc = acc
from_be_bytes (b ∷ bs) acc = from_be_bytes bs (acc * 256 + b)

abbrev words_of : List (List ℕ) → List ℕ
words_of [] = []
words_of (chunk ∷ rest) = from_be_bytes chunk 0 ∷ words_of rest

abbrev word_at : ℕ → List ℕ → ℕ
word_at n [] = 0
word_at zero (w ∷ ws) = w
word_at (suc n) (w ∷ ws) = word_at n ws

-- The words from index 16 on; those so far stand in reverse order.
unfoldable pub schedule : ℕ → List ℕ → List ℕ
schedule zero ws = ws
schedule (suc rounds) ws =
    let x = word_at 14 ws in
    let y = word_at 1 ws in
    let s0 = xor3 (rotate_right 7 x) (rotate_right 18 x) (x / 2 ^ 3) in
    let s1 = xor3 (rotate_right 17 y) (rotate_right 19 y) (y / 2 ^ 10) in
    schedule rounds
      (wrapping_add (wrapping_add (wrapping_add (word_at 15 ws) s0) (word_at 6 ws)) s1 ∷ ws)

abbrev reversed : List ℕ → List ℕ → List ℕ
reversed [] acc = acc
reversed (w ∷ ws) acc = reversed ws (w ∷ acc)

-- A round on the working variables a to h.
unfoldable pub round : ℕ → ℕ → List ℕ → List ℕ
round k w (a ∷ b ∷ c ∷ d ∷ e ∷ f ∷ g ∷ h ∷ []) =
    let s1 = xor3 (rotate_right 6 e) (rotate_right 11 e) (rotate_right 25 e) in
    let choice = bit_xor (bit_and e f) (bit_and (complement e) g) in
    let temp1 = wrapping_add (wrapping_add (wrapping_add (wrapping_add h s1) choice) k) w in
    let s0 = xor3 (rotate_right 2 a) (rotate_right 13 a) (rotate_right 22 a) in
    let majority = xor3 (bit_and a b) (bit_and a c) (bit_and b c) in
    let temp2 = wrapping_add s0 majority in
    wrapping_add temp1 temp2 ∷ a ∷ b ∷ c ∷ wrapping_add d temp1 ∷ e ∷ f ∷ g ∷ []
round k w variables = variables

unfoldable pub rounds : List ℕ → List ℕ → List ℕ → List ℕ
unfolding round
rounds (k ∷ ks) (w ∷ ws) variables = rounds ks ws (round k w variables)
rounds _ _ variables = variables

abbrev add_each : List ℕ → List ℕ → List ℕ
add_each (s ∷ ss) (v ∷ vs) = wrapping_add s v ∷ add_each ss vs
add_each _ _ = []

unfoldable pub digest_blocks : List (List ℕ) → List ℕ → List ℕ
unfolding chunks schedule rounds
digest_blocks [] state = state
digest_blocks (block ∷ blocks) state =
    let words = reversed (schedule 48 (reversed (words_of (chunks 16 4 block)) [])) [] in
    digest_blocks blocks (add_each state (rounds round_constants words state))

abbrev hex_digit : ℕ → String
hex_digit n =
    if ltb n 10
    then (if eqb n 0
        then "0"
        else if eqb n 1
        then "1"
        else if eqb n 2
        then "2"
        else if eqb n 3
        then "3"
        else if eqb n 4
        then "4"
        else if eqb n 5
        then "5"
        else if eqb n 6
        then "6"
        else if eqb n 7
        then "7"
        else if eqb n 8
        then "8"
        else "9")
    else (if eqb n 10
        then "a"
        else if eqb n 11
        then "b"
        else if eqb n 12
        then "c"
        else if eqb n 13
        then "d"
        else if eqb n 14
        then "e"
        else "f")

-- `format!("{word:08x}")`, of the last `count` digits
abbrev hex : ℕ → ℕ → String
hex zero n = ""
hex (suc count) n = hex_digit (n / 16 ^ count % 16) +++ hex count n

abbrev hex_words : List ℕ → String
hex_words [] = ""
hex_words (w ∷ ws) = hex 8 w +++ hex_words ws

unfoldable pub sha256_hex : List ℕ → String
unfolding padded chunks digest_blocks
sha256_hex bytes =
    hex_words (digest_blocks (chunks (length (padded bytes)) 64 (padded bytes)) initial_state)
