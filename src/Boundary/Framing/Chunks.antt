-- ===== src/Boundary/Framing/Chunks.antt =====
-- How the input is cut into buffers does not matter to `read_bounded_message`.
use agent_capability_gate.Prelude.{
  append_nil, append_assoc, option_map, ℕ, ◌+◌, ◌-◌, ◌≤◌, min, ◌≡◌, refl, ap, sym, ◌∙◌, Bool, true,
  false, ◌&&◌, Option, none, some, List, [], ◌∷◌, ◌++◌, length, length-append, is_empty, eqb, leb,
  ltb, ok, err, if◌then◌else◌, Bool-cases, inl, inr, leb→le, arith,
}
use agent_capability_gate.Boundary.Framing.{
  BoundedMessage, complete, too_large, Reader, usize_max, newline, cut, strip_return, unread,
  Reading, advance, read_loop, read_bounded_message,
}

-- All the bytes of the input.
abbrev pub stream : Reader → List ℕ
stream [] = []
stream (err e ∷ reader) = stream reader
stream (ok buffer ∷ reader) = buffer ++ stream reader

-- No buffer is an error or the end of the input.
abbrev pub Filled : Reader → Type 0
Filled [] = Unit
Filled (err e ∷ reader) = ⊥
Filled (ok [] ∷ reader) = ⊥
Filled (ok (b ∷ bs) ∷ reader) = Filled reader

-- The first line of the input is the message, if it is within the limit.
abbrev pub framed : ℕ → List ℕ → List ℕ → Option BoundedMessage
framed limit message bytes =
    if is_empty bytes && is_empty message
    then none
    else if leb (length (message ++ (cut bytes).0)) limit
    then some (complete (strip_return (message ++ (cut bytes).0)))
    else some too_large

-- What is left to read is what stands after the line.
abbrev pub Left : Reader → Option (List ℕ) → Type 0
Left reader none = reader ≡ []
Left reader (some bytes) = stream reader ≡ bytes

cut-append-some :
    (c u body rest : List ℕ) → cut c ≡ (body, some rest) → cut (c ++ u) ≡ (body, some (rest ++ u))
unfolding cut
cut-append-some [] u body rest h = cc
cut-append-some (b ∷ bs) u body rest h = elim (Bool-cases (eqb b newline)) [
  | inl here ↦ rw here (ap (λ p. (p.0, option_map (λ r. r ++ u) p.1)) (rw here at h))
  | inr other ↦
      (let e = rw other at h in
        let later = cut-append-some bs u (cut bs).0 rest (ap (λ p. ((cut bs).0, p.1)) e) in
        rw (other, later) (ap (λ p. (p.0, some (rest ++ u))) e))
]

cut-append-none :
    (c u body : List ℕ)
    → cut c ≡ (body, none)
    → (body ≡ c) × (cut (c ++ u) ≡ (c ++ (cut u).0, (cut u).1))
unfolding cut
cut-append-none [] u body h = (sym (ap (λ p. p.0) h), refl)
cut-append-none (b ∷ bs) u body h = elim (Bool-cases (eqb b newline)) [
  | inl here ↦ absurd (cc (rw here at h))
  | inr other ↦
      (let e = rw other at h in
        let (same, later) = cut-append-none bs u (cut bs).0 (ap (λ p. ((cut bs).0, p.1)) e) in
        (sym (ap (λ p. p.0) e) ∙ ap (λ l. b ∷ l) same, rw (other, later) refl))
]

stream-unread :
    (bytes : List ℕ) (reader : Reader) → stream (unread bytes reader) ≡ bytes ++ stream reader
stream-unread [] reader = refl
stream-unread (b ∷ bs) reader = refl

is_empty-append : (xs ys : List ℕ) (y : ℕ) → is_empty (xs ++ y ∷ ys) ≡ false
is_empty-append [] ys y = refl
is_empty-append (x ∷ xs) ys y = refl

module _ (limit : ℕ) where
  -- A line that fits is not too long at the buffer that ends it.
  within :
      (message body : List ℕ)
      → leb (length (message ++ body)) limit ≡ true
      → ltb (limit - length message) (length body) ≡ false
  within message body h = ground (arith, length-append message body)

  beyond :
      (message body : List ℕ)
      → length message ≤ limit
      → leb (length (message ++ body)) limit ≡ false
      → ltb (limit - length message) (length body) ≡ true
  beyond message body short h = ground (arith, length-append message body)

  -- A longer line is too long as well.
  beyond-append :
      (message body more : List ℕ)
      → leb (length (message ++ body)) limit ≡ false
      → leb (length (message ++ (body ++ more))) limit ≡ false
  beyond-append message body more h = ground (
    arith,
    length-append message body,
    length-append message (body ++ more),
    length-append body more,
  )

  framed-append :
      (message bs u : List ℕ) (b : ℕ)
      → cut (b ∷ bs ++ u) ≡ (b ∷ bs ++ (cut u).0, (cut u).1)
      → framed limit (message ++ b ∷ bs) u ≡ framed limit message (b ∷ bs ++ u)
  framed-append message bs u b e =
      rw (e, is_empty-append message bs b, append_assoc message (b ∷ bs) (cut u).0)
        (neither (is_empty u) _)
    where
      neither : (c : Bool) (o : Option BoundedMessage) → (if c && false then none else o) ≡ o
      neither true o = refl
      neither false o = refl

-- How a reading ends: with the first line if it fits, or a refusal, and what is left to read.
abbrev Framed : ℕ → List ℕ → List ℕ → Reading → Type 0
Framed limit message bytes reading =
    (rest : Reader) × (reading ≡ ok (framed limit message bytes, rest))
    × Filled rest
    × (leb (length (message ++ (cut bytes).0)) limit ≡ true → Left rest (cut bytes).1)

unread-Filled : (bytes : List ℕ) (reader : Reader) → Filled reader → Filled (unread bytes reader)
unread-Filled [] reader f = f
unread-Filled (b ∷ bs) reader f = f

module _ (limit : ℕ) (limits : limit ≤ usize_max) where
  counted :
      (message body : List ℕ)
      → leb (length (message ++ body)) limit ≡ true
      → min usize_max (length message + length body) ≡ length (message ++ body)
  counted message body h = ground (arith, length-append message body)

  module _ (b : ℕ) (bs message : List ℕ) (reader : Reader)
      (more : List ℕ → ℕ → Bool → Reading) where
    -- A pass over a buffer that ends the line.
    advance-ended :
        (body bytes : List ℕ)
        → Filled reader
        → length message ≤ limit
        → cut (b ∷ bs ++ stream reader) ≡ (body, some (bytes ++ stream reader))
        → Framed limit message
            (b ∷ bs ++ stream reader)
            (advance limit (body, some bytes) reader message (length message) false more)
    unfolding advance
    advance-ended body bytes f short e = elim (Bool-cases (leb (length (message ++ body)) limit)) [
      | inl fits ↦ (
        unread bytes reader,
        rw (e, within limit message body fits, fits) refl,
        unread-Filled bytes reader f,
        λ h. rw e (stream-unread bytes reader),
      )
      | inr over ↦ (
        unread bytes reader,
        rw (e, beyond limit message body short over, over) refl,
        unread-Filled bytes reader f,
        λ h. absurd (cc (rw (e, over) at h)),
      )
    ]

    -- A pass over a buffer that the line goes beyond.
    advance-going :
        (u : List ℕ)
        → Filled reader
        → length message ≤ limit
        → cut (b ∷ bs ++ u) ≡ (b ∷ bs ++ (cut u).0, (cut u).1)
        → (length (message ++ b ∷ bs) ≤ limit
            → Framed limit
                (message ++ b ∷ bs)
                u
                (more (message ++ b ∷ bs) (length (message ++ b ∷ bs)) false))
        → Framed limit message
            (b ∷ bs ++ u)
            (advance limit (b ∷ bs, none) reader message (length message) false more)
    unfolding advance
    advance-going u f short e next = elim (Bool-cases (leb (length (message ++ b ∷ bs)) limit)) [
      | inl fits ↦
          (let (rest, read, filled, left) = next (leb→le _ limit fits) in
            (
              rest,
              rw (within limit message (b ∷ bs) fits, counted message (b ∷ bs) fits)
                  (read ∙ ap (λ o. ok (o, rest)) (framed-append limit message bs u b e)),
              filled,
              λ h. rw e (left (rw (append_assoc message (b ∷ bs) (cut u).0) (rw e at h))),
            ))
      | inr over ↦ (
        reader,
        rw
            (
              e,
              beyond limit message (b ∷ bs) short over,
              beyond-append limit message (b ∷ bs) (cut u).0 over,
            )
            refl,
        f,
        λ h. absurd (cc (rw (e, beyond-append limit message (b ∷ bs) (cut u).0 over) at h)),
      )
    ]

  read_loop-Framed :
      (reader : Reader) (message : List ℕ)
      → Filled reader
      → length message ≤ limit
      → Framed limit message (stream reader) (read_loop limit reader message (length message) false)
  unfolding read_loop
  read_loop-Framed [] [] f short = ([], refl, tt, λ h. refl)
  read_loop-Framed [] (m ∷ ms) f short =
      let fits : leb (length (m ∷ ms)) limit ≡ true = ground arith in
      let begun : eqb (length (m ∷ ms)) 0 ≡ false = ground arith in
      ([], rw (append_nil ms, fits, begun) refl, tt, λ h. refl)
  read_loop-Framed (err e ∷ reader) message f short = absurd f
  read_loop-Framed (ok [] ∷ reader) message f short = absurd f
  read_loop-Framed (ok (b ∷ bs) ∷ reader) message f short =
      by_line (λ short'. read_loop-Framed reader (message ++ b ∷ bs) f short') (cut (b ∷ bs)).0
        (cut (b ∷ bs)).1 refl
    where
      by_line :
          (length (message ++ b ∷ bs) ≤ limit
            → Framed limit
                (message ++ b ∷ bs)
                (stream reader)
                (read_loop limit reader (message ++ b ∷ bs) (length (message ++ b ∷ bs)) false))
          → (body : List ℕ) (after : Option (List ℕ)) → cut (b ∷ bs) ≡ (body, after)
          → Framed limit message (b ∷ bs ++ stream reader) (
              advance limit
                (cut (b ∷ bs))
                reader
                message
                (length message)
                false
                (read_loop limit reader))
      by_line next body (some bytes) e = rw e (
          advance-ended b bs message reader (read_loop limit reader) body bytes f short
            (cut-append-some (b ∷ bs) (stream reader) body bytes e))
      by_line next body none e =
          let (same, later) = cut-append-none (b ∷ bs) (stream reader) body e in
          rw (e, same)
            (advance-going b bs message reader (read_loop limit reader) (stream reader) f short
              later next)

  -- For a limit that a usize holds and an input whose buffers are not empty and not errors: how the input
  -- is cut into buffers does not matter. `read_bounded_message` returns nothing at the end of the input,
  -- the first line without its end if it is within the limit, and a refusal if it is longer; and after a
  -- line within the limit, what is left to read is exactly what stands behind that line. The buffers that
  -- are left are again not empty and not errors.
  pub read_bounded_message-Framed :
      (reader : Reader)
      → Filled reader
      → (rest : Reader) × (read_bounded_message limit reader
          ≡ ok (framed limit [] (stream reader), rest))
        × Filled rest
        × (leb (length (cut (stream reader)).0) limit ≡ true → Left rest (cut (stream reader)).1)
  unfolding read_bounded_message
  read_bounded_message-Framed reader f = read_loop-Framed reader [] f (omega arith)
