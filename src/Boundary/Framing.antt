-- ===== src/Boundary/Framing.antt =====
-- `read_bounded_message` of crates/boundary/src/main.rs. The reader is the buffers that `fill_buf` gives,
-- in order: an error, or bytes, where no bytes are the end of the input. What `consume` leaves of a buffer
-- is the next one.
pub mod Chunks
use agent_capability_gate.Prelude.{
  ℕ, ◌+◌, ◌-◌, ◌*◌, ◌^◌, min, String, Bool, true, false, ◌||◌, Option, none, some, List, [], ◌∷◌,
  ◌++◌, length, is_empty, eqb, ltb, Result, ok, err, if◌then◌else◌,
}

pub data BoundedMessage : Type 0 where
  complete : List ℕ → BoundedMessage
  too_large : BoundedMessage

abbrev pub Reader : Type 0
Reader = List (Result String (List ℕ))

abbrev pub newline : ℕ
newline = 10

abbrev pub carriage_return : ℕ
carriage_return = 13

abbrev pub usize_max : ℕ
usize_max = 2 ^ 64 - 1

-- The bytes before the first delimiter, and those after it where there is one.
unfoldable pub cut : List ℕ → List ℕ × Option (List ℕ)
cut [] = ([], none)
cut (b ∷ bs) = let rest = cut bs in if eqb b newline then ([], some bs) else (b ∷ rest.0, rest.1)

-- Without the last byte if it is a carriage return.
unfoldable pub strip_return : List ℕ → List ℕ
strip_return [] = []
strip_return (b ∷ []) = if eqb b carriage_return then [] else b ∷ []
strip_return (b ∷ c ∷ bs) = b ∷ strip_return (c ∷ bs)

abbrev pub finished : Bool → List ℕ → Option BoundedMessage
finished true message = some too_large
finished false message = some (complete (strip_return message))

-- What is returned at the end of the input.
abbrev pub at_end : List ℕ → ℕ → Bool → Option BoundedMessage
at_end message read too = if eqb read 0 then none else finished too message

-- What is left of a buffer is read before the next one.
abbrev pub unread : List ℕ → Reader → Reader
unread [] reader = reader
unread (b ∷ bs) reader = ok (b ∷ bs) ∷ reader

-- What a pass of the loop returns: the message or its refusal, and what is left to read.
abbrev pub Reading : Type 0
Reading = Result String (Option BoundedMessage × Reader)

module _ (limit : ℕ) where
  -- A pass of the loop over a buffer, by the line that it has. `more` is the next pass.
  unfoldable pub advance :
      List ℕ × Option (List ℕ)
      → Reader
      → List ℕ
      → ℕ
      → Bool
      → (List ℕ → ℕ → Bool → Reading)
      → Reading
  unfolding strip_return
  advance (body, rest) reader message read too more =
      let over = too || ltb (limit - read) (length body) in
      let kept = if over then message else message ++ body in
      elim rest [
        | some bytes ↦ ok (finished over kept, unread bytes reader)
        | none ↦
            if over
            then ok (some too_large, reader)
            else more kept (min usize_max (read + length body)) over
      ]

  -- The loop, with the message so far, the number of bytes read and whether they are too many.
  unfoldable pub read_loop : Reader → List ℕ → ℕ → Bool → Reading
  unfolding cut advance
  read_loop [] message read too = ok (at_end message read too, [])
  read_loop (err e ∷ reader) message read too = err e
  read_loop (ok [] ∷ reader) message read too = ok (at_end message read too, reader)
  read_loop (ok (b ∷ bs) ∷ reader) message read too =
      advance (cut (b ∷ bs)) reader message read too (read_loop reader)

  unfoldable pub read_bounded_message : Reader → Reading
  unfolding read_loop
  read_bounded_message reader = read_loop reader [] 0 false
