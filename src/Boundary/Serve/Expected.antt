-- ===== src/Boundary/Serve/Expected.antt =====
-- The answers that tasks and lines are to get, and how often an id is among them.
use agent_capability_gate.Prelude.{
  ℕ, ◌+◌, ◌≡◌, refl, ap, sym, ◌∙◌, Bool, Option, none, some, List, [], ◌∷◌, ◌++◌, leb, length,
  Bool-cases, inl, inr, append_assoc, if◌then◌else◌, arith,
}
use agent_capability_gate.Json.{Value}
use agent_capability_gate.Boundary.Framing.{strip_return}
use agent_capability_gate.Boundary.Limits.{request_within_limits}
use agent_capability_gate.Boundary.Handler.{Context}
use agent_capability_gate.Boundary.Handler.Answers.Once.{expected}
use agent_capability_gate.Boundary.Serve.{Task, refusal, handler, task_of_request}
use agent_capability_gate.Boundary.Serve.Lines.{tasks_of}

-- How many of the ids pass a test.
abbrev pub count : (Option Value → Bool) → List (Option Value) → ℕ
count p [] = 0
count p (id ∷ ids) = (if p id then 1 else 0) + count p ids

pub count-append :
    (p : Option Value → Bool) (xs ys : List (Option Value))
    → count p (xs ++ ys) ≡ count p xs + count p ys
count-append p [] ys = omega arith
count-append p (x ∷ xs) ys = let h = count-append p xs ys in omega arith

-- The ids of the answers that a task is to write: a refusal has none.
abbrev pub expected_task : Task → List (Option Value)
expected_task (refusal message) = none ∷ []
expected_task (handler request) = expected request

abbrev pub expected_tasks : List Task → List (Option Value)
expected_tasks [] = []
expected_tasks (task ∷ tasks) = expected_task task ++ expected_tasks tasks

expected_tasks-append :
    (xs ys : List Task) → expected_tasks (xs ++ ys) ≡ expected_tasks xs ++ expected_tasks ys
expected_tasks-append [] ys = refl
expected_tasks-append (x ∷ xs) ys =
    ap (λ l. expected_task x ++ l) (expected_tasks-append xs ys)
    ∙ sym (append_assoc (expected_task x) (expected_tasks xs) (expected_tasks ys))

pub count-tasks :
    (p : Option Value → Bool) (xs ys : List Task)
    → count p (expected_tasks (xs ++ ys))
      ≡ count p (expected_tasks xs) + count p (expected_tasks ys)
count-tasks p xs ys =
    ap (count p) (expected_tasks-append xs ys)
    ∙ count-append p (expected_tasks xs) (expected_tasks ys)

pub spawns_more :
    (p : Option Value → Bool) (pending spawned new : List Task) (written first : ℕ)
    → written + count p (expected_tasks pending) ≡ first + count p (expected_tasks spawned)
    → written + count p (expected_tasks (pending ++ new))
      ≡ first + count p (expected_tasks (spawned ++ new))
spawns_more p pending spawned new written first h =
    let h1 = count-tasks p pending new in let h2 = count-tasks p spawned new in omega arith

module _ {W : Type 0} (c : Context W) (parse : List ℕ → Option Value) where
  -- The ids of the answers that a line is to get, by what it parses to: what is no request within the
  -- limits is answered with an error without an id.
  abbrev pub expected_line : Option Value → List (Option Value)
  expected_line none = none ∷ []
  expected_line (some request) =
      if request_within_limits request 1 c.config.json_depth then expected request else none ∷ []

  -- Those of all lines, up to the first that is too long, which gets an error without an id.
  abbrev pub expected_lines : List (List ℕ) → List (Option Value)
  expected_lines [] = []
  expected_lines (line ∷ lines) =
      if leb (length line) c.config.request_bytes
      then expected_line (parse (strip_return line)) ++ expected_lines lines
      else none ∷ []

  expected-task_of_request :
      (o : Option Value) → expected_task (task_of_request c parse o) ≡ expected_line o
  unfolding task_of_request
  expected-task_of_request none = refl
  expected-task_of_request (some request) =
      elim (Bool-cases (request_within_limits request 1 c.config.json_depth)) [
        | inl within ↦ rw within refl
        | inr beyond ↦ rw beyond refl
      ]

  pub expected-tasks_of :
      (lines : List (List ℕ)) → expected_tasks (tasks_of c parse lines) ≡ expected_lines lines
  unfolding tasks_of
  expected-tasks_of [] = refl
  expected-tasks_of (line ∷ lines) = elim (Bool-cases (leb (length line) c.config.request_bytes)) [
    | inl fits ↦
        rw (fits, expected-task_of_request (parse (strip_return line)), expected-tasks_of lines)
          refl
    | inr over ↦ rw over refl
  ]
