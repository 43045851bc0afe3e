-- ===== src/Runtime/Wire/Framed.antt =====
-- What `read_message` reads, against the first line of the whole input.
use agent_capability_gate.Prelude.{
  ℕ, ◌+◌, ◌≤◌, ◌≡◌, refl, ap, sym, ◌∙◌, true, false, Option, none, some, List, [], ◌∷◌, ◌++◌,
  append_nil, append_assoc, length, length-append, eqb, ltb, ok, err, is_empty, if◌then◌else◌,
  Bool-cases, inl, inr, arith,
}
use agent_capability_gate.Boundary.Framing.{newline, cut, strip_return}
use agent_capability_gate.Runtime.{
  Called, connection_closed, message_limit, protocol, upstream_message_bytes,
}
use agent_capability_gate.Runtime.Wire.{line_of, read_line, read_message}

-- A line without its end, with what stands behind it.
abbrev ended_line : List ℕ → List ℕ → Called (List ℕ × List ℕ)
ended_line line rest = if is_empty line then err protocol else ok (line, rest)

-- The first line, if it is of at most 1 MiB, ended, and not empty.
unfoldable pub first_line : List ℕ × Option (List ℕ) → Called (List ℕ × List ℕ)
unfolding strip_return
first_line (body, none) =
    if ltb 1048576 (length body) then err message_limit else err connection_closed
first_line (body, some rest) =
    if ltb 1048576 (length body) then err message_limit else ended_line (strip_return body) rest

line_of-ended : (line rest : List ℕ) → line_of line rest ≡ ended_line line rest
line_of-ended [] rest = refl
line_of-ended (b ∷ line) rest = refl

first_line-long :
    (body : List ℕ) (after : Option (List ℕ))
    → ltb 1048576 (length body) ≡ true
    → first_line (body, after) ≡ err message_limit
unfolding first_line
first_line-long body none long = rw long refl
first_line-long body (some rest) long = rw long refl

read_line-first :
    (input bytes : List ℕ)
    → length bytes ≤ upstream_message_bytes
    → read_line input bytes ≡ first_line (bytes ++ (cut input).0, (cut input).1)
unfolding read_line first_line cut
read_line-first [] bytes few =
    let fits : ltb 1048576 (length bytes) ≡ false = ground arith in rw (append_nil bytes, fits) refl
read_line-first (b ∷ input) bytes few = elim (Bool-cases (eqb b newline)) [
  | inl here ↦
      (let fits : ltb 1048576 (length bytes) ≡ false = ground arith in
        rw (here, append_nil bytes, fits) (line_of-ended _ _))
  | inr other ↦
      (let grown : length (bytes ++ b ∷ (cut input).0) ≡ length bytes + (1 + length (cut input).0) =
          length-append bytes (b ∷ (cut input).0) ∙ omega arith in
        elim (Bool-cases (ltb upstream_message_bytes (length bytes + 1))) [
          | inl over ↦
              (let long : ltb 1048576 (length (bytes ++ b ∷ (cut input).0)) ≡ true =
                  ground (arith, grown) in
                rw (other, over) (sym (first_line-long _ (cut input).1 long)))
          | inr within ↦
              (let one : length (bytes ++ b ∷ []) ≡ length bytes + 1 =
                  length-append bytes (b ∷ []) ∙ omega arith in
                rw (other, within)
                  (read_line-first input (bytes ++ b ∷ []) (ground (arith, one))
                    ∙ ap (λ l. first_line (l, (cut input).1))
                        (append_assoc bytes (b ∷ []) (cut input).0)))
        ])
]

-- For every input: `read_message` returns the first line without its end and what stands behind it; it
-- refuses a line of more than 1 MiB, an empty line, and a last line without an end, each with its error.
pub read_message-first : (input : List ℕ) → read_message input ≡ first_line (cut input)
unfolding read_message
read_message-first input = read_line-first input [] (omega arith)
