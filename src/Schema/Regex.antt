-- ===== src/Schema/Regex.antt =====
-- The regex crate, which the program calls and which is not part of the repository, as a parameter.
use agent_capability_gate.Prelude.{String, Bool}

pub record RegexEngine : Type 0 where
  -- whether `RegexBuilder::new(p).size_limit(MAX_PATTERN_COMPILED_BYTES).build()` succeeds
  pub builds : String → Bool
  -- `Regex::is_match` of the regex with this pattern
  pub is_match : String → String → Bool
