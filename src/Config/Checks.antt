-- ===== src/Config/Checks.antt =====
-- The checks of single settings in crates/core/src/lib.rs: `validate_id`, `absolute_path`,
-- `validate_limits`, `validate_mcp_tool_name`, `validate_env_name` and `validate_environment`.
pub mod Ranges
use agent_capability_gate.Prelude.{
  ℕ, ◌*◌, String, len, code, Ordering, Bool, true, false, not, ◌&&◌, ◌||◌, Option, none, some, List,
  [], ◌∷◌, eqb, leb, ltb, Map, get, contains_key, insert, set_contains, set_insert, is_some, ok,
  ◌>>=◌, ◌>>◌, fail_if, ok_or, all_chars, contains_char, has_nul, is_alphabetic, is_alphanumeric,
  is_empty_text, starts_with_char, if◌then◌else◌,
}
use Prim.Native.String.{compare as compare_text}
use agent_capability_gate.Diagnostics.{Checked, invalid, ◌/+◌}
use agent_capability_gate.Config.{EnvironmentSpec}

abbrev id_char : ℕ → Bool
id_char c = is_alphanumeric c || eqb c b'_' || eqb c b'-' || eqb c b'.'

unfoldable pub validate_id : String → String → Checked (Unit {0})
validate_id id path =
    fail_if (is_empty_text id || ltb 128 (len id) || not (all_chars id_char id))
      (invalid path "must be 1..128 ASCII identifier characters")

unfoldable pub absolute_path : String → String → Checked String
absolute_path value path = do
  fail_if (is_empty_text value || has_nul value || not (starts_with_char b'/' value))
      (invalid path "must be a non-empty absolute path without NUL")
  ok value

-- `RawTargetLimits`
pub record RawTargetLimits : Type 0 where
  pub timeout_ms : ℕ
  pub stdout_bytes : Option ℕ
  pub output_bytes : Option ℕ
  pub stderr_bytes : ℕ

-- `(low..=high).contains(&n)`
abbrev pub between : ℕ → ℕ → ℕ → Bool
between low high n = leb low n && leb n high

unfoldable pub validate_limits : RawTargetLimits → String → Bool → Checked (Unit {0})
validate_limits l path mcp = do
  fail_if (not (between 1 300000 l.timeout_ms)) (invalid (path /+ "timeout_ms") "must be 1..300000")
  fail_if (mcp && is_some l.stdout_bytes)
      (invalid (path /+ "stdout_bytes") "not allowed for mcp targets; use output_bytes")
  fail_if (not mcp && is_some l.output_bytes)
      (invalid (path /+ "output_bytes") "not allowed for cli targets; use stdout_bytes")
  out ←
      ok_or (if mcp then l.output_bytes else l.stdout_bytes)
        (invalid (path /+ (if mcp then "output_bytes" else "stdout_bytes")) "required")
  fail_if (not (between 1 (16 * 1024 * 1024) out))
      (invalid (path /+ "stdout_bytes") "must be 1..16777216")
  fail_if (not (between 1 (1024 * 1024) l.stderr_bytes))
      (invalid (path /+ "stderr_bytes") "must be 1..1048576")

unfoldable pub validate_mcp_tool_name : String → String → Checked String
validate_mcp_tool_name value path = do
  fail_if (is_empty_text value || ltb 128 (len value) || has_nul value)
      (invalid path "upstream tool name must be 1..128 bytes without NUL")
  ok value

-- The first character of a name is a letter or an underscore, the others may be digits too.
abbrev env_name_start : ℕ → Bool
env_name_start c = is_alphabetic c || eqb c b'_'

abbrev env_name_char : ℕ → Bool
env_name_char c = is_alphanumeric c || eqb c b'_'

unfoldable pub env_name : String → Bool
env_name String.[] = false
env_name (String.◌∷◌ c s) = env_name_start (code c) && all_chars env_name_char s

unfoldable pub validate_env_name : String → String → Checked (Unit {0})
unfolding env_name
validate_env_name name path =
    fail_if (not (env_name name)) (invalid path "invalid environment variable name")

-- `sort`
unfoldable pub sort_insert : String → List String → List String
sort_insert k [] = k ∷ []
sort_insert k (j ∷ js) =
    let rest = sort_insert k js in
    elim (compare_text k j) [
      | Ordering.lt ↦ k ∷ j ∷ js
      | Ordering.eq ↦ k ∷ j ∷ js
      | Ordering.gt ↦ j ∷ rest
    ]

unfoldable pub sort : List String → List String
unfolding sort_insert
sort [] = []
sort (k ∷ ks) = sort_insert k (sort ks)

-- The loop over the inherited names; `names` holds those that it has seen.
unfoldable pub inherit_names :
    List String → Map String → Map String → List String → Map String → String → Checked (Map String)
unfolding validate_env_name
inherit_names [] set current names inherited path = ok inherited
inherit_names (name ∷ rest) set current names inherited path = do
  validate_env_name name path
  fail_if (set_contains name names || contains_key name set)
      (invalid path "duplicate environment source")
  value ← ok_or (get name current) (invalid path "inherited variable is not present")
  inherit_names rest set current (set_insert name names) (insert name value inherited) path

unfoldable pub check_set : Map String → String → Checked (Unit {0})
unfolding validate_env_name
check_set [] path = ok tt
check_set ((name, value) ∷ rest) path = do
  validate_env_name name path
  fail_if (has_nul value) (invalid path "environment value contains NUL")
  check_set rest path

-- `RawEnvironment`
pub record RawEnvironment : Type 0 where
  pub inherit : List String
  pub set : Map String

unfoldable pub validate_environment : RawEnvironment → Map String → String → Checked EnvironmentSpec
unfolding sort inherit_names check_set
validate_environment raw current path = do
  let names = sort raw.inherit
  inherited ← inherit_names names raw.set current [] [] path
  check_set raw.set path
  ok (record { inherit = names; inherited_values = inherited; set = raw.set })
