-- ===== src/Raw/Validate/Calls.antt =====
-- Calls over a configuration that `parse_config` has loaded.
use agent_capability_gate.Prelude.{
  ap, ok-injective, ℕ, ◌≤◌, String, ◌≡◌, ◌≢◌, false, List, length, Map, Result, ok, err, >>=-eq-ok,
  fail_if, fail_if-eq-ok, ltb, arith,
}
use agent_capability_gate.Json.{Value}
use agent_capability_gate.Json.Numbers.{Number}
use agent_capability_gate.Diagnostics.{max_config_bytes}
use agent_capability_gate.Schema.Regex.{RegexEngine}
use agent_capability_gate.Faults.{panicked, lift, lift-eq-ok}
use agent_capability_gate.Config.{ValidatedConfig}
use agent_capability_gate.Binding.{resolve_cli}
use agent_capability_gate.Binding.Cli.{resolve_cli-ne-panicked}
use agent_capability_gate.Raw.{RawConfig}
use agent_capability_gate.Raw.Distinct.{FromMaps}
use agent_capability_gate.Raw.Validate.{read_yaml, parse_config}
use agent_capability_gate.Raw.Validate.WellFormed.{
  WellFormed, validate_raw-WellFormed, ToolsFit-of_WellFormed,
}

module _ (engine : RegexEngine) (reader : List ℕ → Result String RawConfig) where
  -- Let the YAML reader return maps without a key twice. A configuration that `parse_config` loads comes
  -- from at most 1 MiB of text, is well-formed, and no CLI call over it panics: `resolve_cli` ends in a
  -- resolved invocation or in a diagnostic for every tool name and every input.
  pub parse_config-resolve_cli :
      (show_number : Number → String) (bytes : List ℕ) (environment : Map String)
      (c : ValidatedConfig) (name : String) (input : Value)
      → ((text : List ℕ) (raw : RawConfig) → reader text ≡ ok raw → FromMaps raw)
      → parse_config engine reader bytes environment ≡ ok c
      → (length bytes ≤ 1048576)
        × WellFormed c
        × (resolve_cli show_number engine c name input ≢ err panicked)
  unfolding parse_config read_yaml
  parse_config-resolve_cli show_number bytes environment c name input maps h =
      let (_, e, h0) = >>=-eq-ok (lift (fail_if (ltb max_config_bytes (length bytes)) _)) _ h in
      let (raw, e1, h1) = >>=-eq-ok (lift (read_yaml (reader bytes))) _ h0 in
      let w =
        validate_raw-WellFormed engine raw environment c
          (maps bytes raw (read (reader bytes) raw (lift-eq-ok _ raw e1))) h1 in
      (
        small (length bytes) (fail_if-eq-ok _ _ (lift-eq-ok _ tt e)),
        w,
        resolve_cli-ne-panicked show_number engine c name input (ToolsFit-of_WellFormed c w),
      )
    where
      small : (n : ℕ) → ltb 1048576 n ≡ false → n ≤ 1048576
      small n h = ground arith

      read : (r : Result String RawConfig) (raw : RawConfig) → read_yaml r ≡ ok raw → r ≡ ok raw
      read (ok given) raw h = ap ok (ok-injective h)
      read (err e) raw h = cc
