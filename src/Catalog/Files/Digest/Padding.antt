-- ===== src/Catalog/Files/Digest/Padding.antt =====
-- The padding of `sha256_hex` in crates/boundary/src/catalog_cache.rs fills whole blocks.
use agent_capability_gate.Prelude.{
  ℕ, zero, suc, ◌+◌, ◌-◌, ◌%◌, ◌≤◌, ◌≡◌, refl, ap, ◌∙◌, List, [], ◌∷◌, ◌++◌, length, length-append,
  Bool-cases, inl, inr, eqb, ltb, arith,
}
use agent_capability_gate.Catalog.Files.{take}
use agent_capability_gate.Catalog.Files.Digest.{zeros, padded, drop, chunks}

-- So much fuel as the zeros that are missing is enough.
zeros-fill :
    (fuel count missing : ℕ)
    → (count + missing) % 64 ≡ 56
    → missing ≤ 63
    → suc missing ≤ fuel
    → (count + length (zeros fuel count)) % 64 ≡ 56
unfolding zeros
zeros-fill zero count missing e few enough = absurd (omega arith)
zeros-fill (suc fuel) count missing e few enough = elim (Bool-cases (eqb (count % 64) 56)) [
  | inl here ↦ rw here (ground arith)
  | inr not_yet ↦
      (let some_missing : 1 ≤ missing = ground arith in
        let later =
          zeros-fill fuel (suc count) (missing - 1) (omega arith) (omega arith) (omega arith) in
        rw not_yet (omega arith))
]

take-drop : (n : ℕ) (xs : List ℕ) → take n xs ++ drop n xs ≡ xs
unfolding take drop
take-drop zero xs = refl
take-drop (suc n) [] = refl
take-drop (suc n) (x ∷ xs) = ap (λ l. x ∷ l) (take-drop n xs)

length-drop : (n : ℕ) (xs : List ℕ) → n ≤ length xs → n + length (drop n xs) ≡ length xs
unfolding drop
length-drop zero xs h = omega arith
length-drop (suc n) [] h = absurd (omega arith)
length-drop (suc n) (x ∷ xs) h = let later = length-drop n xs (omega arith) in omega arith

-- The blocks, one after the other.
abbrev pub joined : List (List ℕ) → List ℕ
joined [] = []
joined (xs ∷ xss) = xs ++ joined xss

nil_of_length : (xs : List ℕ) → length xs ≡ 0 → [] ≡ xs
nil_of_length [] e = refl
nil_of_length (x ∷ xs) e = absurd (omega arith)

joined-chunks :
    (fuel : ℕ) (xs : List ℕ)
    → length xs ≤ fuel
    → length xs % 64 ≡ 0
    → joined (chunks fuel 64 xs) ≡ xs
unfolding chunks
joined-chunks zero xs enough whole = nil_of_length xs (omega arith)
joined-chunks (suc fuel) xs enough whole = elim (Bool-cases (ltb (length xs) 64)) [
  | inl short ↦ rw short (nil_of_length xs (ground arith))
  | inr long ↦
      (let left = length-drop 64 xs (ground arith) in
        rw long (
          ap (λ l. take 64 xs ++ l) (joined-chunks fuel (drop 64 xs) (omega arith) (omega arith))
          ∙ take-drop 64 xs))
]

whole_blocks :
    (bytes zs ws : List ℕ)
    → ((length bytes + 1) + length zs) % 64 ≡ 56
    → length ws ≡ 8
    → length ((bytes ++ (0x80 ∷ zs)) ++ ws) % 64 ≡ 0
whole_blocks bytes zs ws fills eight =
    let total : length ((bytes ++ (0x80 ∷ zs)) ++ ws) ≡ length (bytes ++ (0x80 ∷ zs)) + length ws =
      length-append (bytes ++ (0x80 ∷ zs)) ws in
    let front : length (bytes ++ (0x80 ∷ zs)) ≡ length bytes + length (0x80 ∷ zs) =
      length-append bytes (0x80 ∷ zs) in
    omega arith

-- For every input: the loop that pushes zeros ends within 64 rounds at a length of 56 modulo 64, the padded
-- input is a whole number of 64-byte blocks, and the blocks that are digested are all of it, so that no
-- byte of the input is left out of the digest.
pub padded-joined :
    (bytes : List ℕ)
    → (((length bytes + 1) + length (zeros 64 (length bytes + 1))) % 64 ≡ 56)
      × (length (padded bytes) % 64 ≡ 0)
      × (joined (chunks (length (padded bytes)) 64 (padded bytes)) ≡ padded bytes)
unfolding padded
padded-joined bytes =
    let count = length bytes + 1 in
    let fills : (count + length (zeros 64 count)) % 64 ≡ 56 =
      zeros-fill 64 count ((120 - count % 64) % 64) (omega arith) (omega arith) (omega arith) in
    let whole : length (padded bytes) % 64 ≡ 0 = whole_blocks bytes (zeros 64 count) _ fills refl in
    (fills, whole, joined-chunks (length (padded bytes)) (padded bytes) (omega arith) whole)
