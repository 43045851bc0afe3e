-- ===== src/Boundary/Serve/Ends.antt =====
-- Every run of `serve_stdio` ends.
use agent_capability_gate.Prelude.{ℕ, ◌+◌, ◌≡◌, true, Option, List, [], length, if◌then◌else◌, ◌⊎◌}
use agent_capability_gate.Json.{Value}
use agent_capability_gate.Boundary.Framing.{Reader}
use agent_capability_gate.Boundary.Framing.Chunks.{Filled}
use agent_capability_gate.Boundary.Handler.{Context}
use agent_capability_gate.Boundary.Serve.{
  Loop, reading, at_end, input_failed, shut_down, Broker, Step,
}
use agent_capability_gate.Boundary.Serve.Lines.{weight}

-- The steps that a broker has left at most.
abbrev left_of : {W : Type 0} → Broker W → ℕ
left_of b = weight b.loop + length b.pending + (if b.cancelled then 0 else 1)

abbrev IsFilled : Loop → Type 0
IsFilled (reading reader) = Filled reader
IsFilled at_end = Unit
IsFilled input_failed = Unit
IsFilled shut_down = Unit

-- The loop has ended, all tasks have, and the cancellation is done.
abbrev pub IsOver : {W : Type 0} → Broker W → Type 0
IsOver b =
    ((reader : Reader) → ¬ (b.loop ≡ reading reader)) × (b.pending ≡ []) × (b.cancelled ≡ true)

module _ {W : Type 0} (c : Context W) (parse : List ℕ → Option Value) (cancel : W → W) where
  abbrev pub Goes : Broker W → Type 0
  Goes b = IsOver b ⊎ ((d : Broker W) × Step c parse cancel b d)
