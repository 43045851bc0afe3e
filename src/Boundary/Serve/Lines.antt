-- ===== src/Boundary/Serve/Lines.antt =====
-- The lines of the whole input, and the tasks that `serve_stdio` spawns for them.
use agent_capability_gate.Prelude.{
  ℕ, suc, ◌+◌, ◌*◌, ◌≤◌, ◌≡◌, refl, ap, sym, true, false, Option, none, some, List, [], ◌∷◌, ◌++◌,
  length, leb, eqb, ltb, ok, if◌then◌else◌, Bool-cases, inl, inr, arith,
}
use agent_capability_gate.Json.{Value}
use agent_capability_gate.Boundary.Framing.{
  Reader, usize_max, newline, carriage_return, cut, strip_return, read_bounded_message,
}
use agent_capability_gate.Boundary.Framing.Chunks.{
  stream, Filled, framed, Left, read_bounded_message-Framed,
}
use agent_capability_gate.Boundary.Handler.{Context}
use agent_capability_gate.Boundary.Serve.{
  Task, refusal, Loop, reading, at_end, input_failed, shut_down, task_of_request, task_of_line,
  pass,
}

abbrev put_first : ℕ → List (List ℕ) → List (List ℕ)
put_first b [] = (b ∷ []) ∷ []
put_first b (line ∷ lines) = (b ∷ line) ∷ lines

-- The lines of a text, without the delimiters; the last one may have none.
unfoldable pub lines_of : List ℕ → List (List ℕ)
lines_of [] = []
lines_of (b ∷ bs) = let rest = lines_of bs in if eqb b newline then [] ∷ rest else put_first b rest

abbrev lines_behind : Option (List ℕ) → List (List ℕ)
lines_behind none = []
lines_behind (some bytes) = lines_of bytes

lines_of-cut :
    (b : ℕ) (bs : List ℕ) → lines_of (b ∷ bs) ≡ (cut (b ∷ bs)).0 ∷ lines_behind (cut (b ∷ bs)).1
unfolding lines_of cut
lines_of-cut b [] = elim (Bool-cases (eqb b newline)) [
  | inl here ↦ rw here refl
  | inr other ↦ rw other refl
]
lines_of-cut b (d ∷ bs) = elim (Bool-cases (eqb b newline)) [
  | inl here ↦ rw here refl
  | inr other ↦ rw other (ap (put_first b) (lines_of-cut d bs))
]

strip_return-shorter : (line : List ℕ) → length (strip_return line) ≤ length line
unfolding strip_return
strip_return-shorter [] = omega arith
strip_return-shorter (b ∷ []) = elim (Bool-cases (eqb b carriage_return)) [
  | inl here ↦ rw here (omega arith)
  | inr other ↦ rw other (omega arith)
]
strip_return-shorter (b ∷ d ∷ bs) = let h = strip_return-shorter (d ∷ bs) in omega arith

lines_of-Left :
    (rest : Reader) (after : Option (List ℕ))
    → Left rest after
    → lines_of (stream rest) ≡ lines_behind after
unfolding lines_of
lines_of-Left rest none left = rw left refl
lines_of-Left rest (some bytes) left = ap lines_of left

-- The steps that a loop has left, two for a line.
abbrev pub weight : Loop → ℕ
weight (reading reader) = suc (2 * length (lines_of (stream reader)))
weight at_end = 0
weight input_failed = 0
weight shut_down = 0

module _ {W : Type 0} (c : Context W) (parse : List ℕ → Option Value) where
  -- A task for each line, up to the first that is too long, which is refused.
  unfoldable pub tasks_of : List (List ℕ) → List Task
  unfolding strip_return task_of_request
  tasks_of [] = []
  tasks_of (line ∷ lines) =
      if leb (length line) c.config.request_bytes
      then task_of_request c parse (parse (strip_return line)) ∷ tasks_of lines
      else refusal "request exceeds configured limit" ∷ []

  -- What a loop is still to spawn: of the rest of the input, nothing at its end, anything after a shutdown.
  abbrev pub Still : Loop → List Task → Type 0
  Still (reading reader) unread = Filled reader × (unread ≡ tasks_of (lines_of (stream reader)))
  Still at_end unread = unread ≡ []
  Still input_failed unread = ⊥
  Still shut_down unread = Unit

  abbrev pub Advanced : List (List ℕ) → Loop × List Task → Type 0
  Advanced lines out =
      (unread : List Task) × (tasks_of lines ≡ out.1 ++ unread)
      × Still out.0 unread
      × (weight out.0 + suc (length out.1) ≤ suc (2 * length lines))

  task_of_line-stripped :
      (line : List ℕ)
      → leb (length line) c.config.request_bytes ≡ true
      → task_of_line c parse (strip_return line)
        ≡ task_of_request c parse (parse (strip_return line))
  unfolding task_of_line
  task_of_line-stripped line fits =
      let shorter = strip_return-shorter line in
      let within : ltb c.config.request_bytes (length (strip_return line)) ≡ false = ground arith in
      rw within refl

  reads_on :
      (rest : Reader) (line : List ℕ) (lines : List (List ℕ)) (task : Task)
      → leb (length line) c.config.request_bytes ≡ true
      → task ≡ task_of_request c parse (parse (strip_return line))
      → Filled rest
      → lines_of (stream rest) ≡ lines
      → Advanced (line ∷ lines) (reading rest, task ∷ [])
  unfolding tasks_of
  reads_on rest line lines task fits same filled e = (
    tasks_of lines,
    rw (fits, same) refl,
    (filled, ap tasks_of (sym e)),
    (let few = ap (λ l. length l) e in omega arith),
  )

  ends : Advanced [] (at_end, [])
  unfolding tasks_of
  ends = ([], refl, refl, omega arith)

  stops :
      (line : List ℕ) (lines : List (List ℕ))
      → leb (length line) c.config.request_bytes ≡ false
      → Advanced (line ∷ lines) (at_end, refusal "request exceeds configured limit" ∷ [])
  unfolding tasks_of
  stops line lines over = ([], rw over refl, refl, omega arith)

  pass-framed :
      (bytes : List ℕ) (rest : Reader)
      → Filled rest
      → (leb (length (cut bytes).0) c.config.request_bytes ≡ true → Left rest (cut bytes).1)
      → Advanced (lines_of bytes) (pass c parse (ok (framed c.config.request_bytes [] bytes, rest)))
  unfolding pass lines_of
  pass-framed [] rest filled left = ends
  pass-framed (b ∷ bs) rest filled left =
      rw (lines_of-cut b bs)
        (elim (Bool-cases (leb (length (cut (b ∷ bs)).0) c.config.request_bytes)) [
          | inl fits ↦ rw fits (
              reads_on rest (cut (b ∷ bs)).0 (lines_behind (cut (b ∷ bs)).1) _ fits
                (task_of_line-stripped (cut (b ∷ bs)).0 fits) filled
                (lines_of-Left rest (cut (b ∷ bs)).1 (left fits)))
          | inr over ↦ rw over (stops (cut (b ∷ bs)).0 (lines_behind (cut (b ∷ bs)).1) over)
        ])

  pub pass-Advanced :
      (reader : Reader)
      → c.config.request_bytes ≤ usize_max
      → Filled reader
      → Advanced
          (lines_of (stream reader))
          (pass c parse (read_bounded_message c.config.request_bytes reader))
  pass-Advanced reader limits f =
      let (rest, read, filled, left) =
        read_bounded_message-Framed c.config.request_bytes limits reader f in
      rw read (pass-framed (stream reader) rest filled left)
