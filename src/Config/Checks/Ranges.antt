-- ===== src/Config/Checks/Ranges.antt =====
-- The ranges of the limits that `validate_limits` accepts.
use agent_capability_gate.Prelude.{
  ℕ, ◌*◌, ◌≤◌, ◌≡◌, String, Bool, true, false, not, ◌&&◌, Option, some, is_some, ok, >>=-eq-ok,
  fail_if, fail_if-eq-ok, ok_or, ok_or-eq-ok, if◌then◌else◌, arith,
}
use agent_capability_gate.Config.Checks.{RawTargetLimits, between, validate_limits}

abbrev pub Within : ℕ → ℕ → ℕ → Type 0
Within low high n = (low ≤ n) × (n ≤ high)

between-Within : (low high n : ℕ) → not (between low high n) ≡ false → Within low high n
between-Within low high n h = ground arith

-- The limit on the output of a target, by its kind.
abbrev pub output_limit : Bool → RawTargetLimits → Option ℕ
output_limit true l = l.output_bytes
output_limit false l = l.stdout_bytes

-- If `validate_limits` accepts the limits of a target, the time is 1 to 300000 ms, the limit on the output
-- that goes with the target's kind is set and is 1 byte to 16 MiB, and the limit on the error output is 1
-- byte to 1 MiB.
pub validate_limits-Within :
    (l : RawTargetLimits) (path : String) (mcp : Bool)
    → validate_limits l path mcp ≡ ok tt
    → Within 1 300000 l.timeout_ms
      × ((out : ℕ) × (output_limit mcp l ≡ some out) × Within 1 16777216 out)
      × Within 1 1048576 l.stderr_bytes
unfolding validate_limits
validate_limits-Within l path mcp h =
    let (_, e, h0) = >>=-eq-ok (fail_if (not (between 1 300000 l.timeout_ms)) _) _ h in
    let (_, _, h1) = >>=-eq-ok (fail_if (mcp && is_some l.stdout_bytes) _) _ h0 in
    let (_, _, h2) = >>=-eq-ok (fail_if (not mcp && is_some l.output_bytes) _) _ h1 in
    let (out, e3, h3) = >>=-eq-ok (ok_or (if mcp then l.output_bytes else l.stdout_bytes) _) _ h2 in
    let (_, e4, e5) = >>=-eq-ok (fail_if (not (between 1 (16 * 1024 * 1024) out)) _) _ h3 in
    (
      between-Within 1 300000 l.timeout_ms (fail_if-eq-ok _ _ e),
      (out, same mcp (ok_or-eq-ok _ _ e3), between-Within 1 16777216 out (fail_if-eq-ok _ _ e4)),
      between-Within 1 1048576 l.stderr_bytes (fail_if-eq-ok _ _ e5),
    )
  where
    same :
        {out : ℕ} (b : Bool)
        → (if b then l.output_bytes else l.stdout_bytes) ≡ some out
        → output_limit b l ≡ some out
    same true h = h
    same false h = h
