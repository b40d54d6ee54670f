-- ===== src/OneShot/Receipts.antt =====
-- `.agents/scripts/one_shot_gate.py`: the limits, and the receipts of an attempt.
use ring_lang.Common.{
  ℕ, ◌+◌, ◌-◌, ◌^◌, Bool, ◌&&◌, ◌||◌, not, List, [], ◌∷◌, leb, if◌then◌else◌, Text, codes, ok, err,
  ◌>>=◌, ◌>>◌, raise_if,
}
use ring_lang.Common.Int.{ℤ, pos, pos_part, neg_part, ltb_ℤ}
use ring_lang.Common.Json.{
  Json, int, float, str, object, Members, no_members, member, get_member, is_str,
}
use ring_lang.OneShot.Values.{
  Failure, violation, overflow, under, Checked, hex_64_re, attempt_id_re, is_null, matches, is_nat,
  is_positive, is_finite_float, is_positive_float, is_number, each, strict_keys,
}

-- `float(n)` raises where `n` rounds to 2^1024.
float_bound : ℕ
float_bound = 2 ^ 1024 - 2 ^ 970

unfoldable pub is_too_large : ℤ → Bool
unfolding float_bound
is_too_large n = leb float_bound (pos_part n + neg_part n)

-- A number of seconds that is finite and positive
unfoldable pub check_wall_seconds : Failure → Json → Checked (Unit {0})
unfolding is_too_large
check_wall_seconds e (int n) =
    if is_too_large n then err overflow else raise_if (not (ltb_ℤ (pos 0) n)) e
check_wall_seconds e (float s) = raise_if (not (is_finite_float s && is_positive_float s)) e
check_wall_seconds e _ = err e

-- The fields hold what the caller gave, of any type.
pub record Limits : Type 0 where
  pub wall_seconds : Json
  pub stdout_cap_bytes : Json
  pub stderr_cap_bytes : Json
  pub job_memory_bytes : Json
  pub active_process_limit : Json
  pub poll_ms : Json

abbrev pub or_null : (Json → Bool) → Json → Bool
or_null test x = is_null x || test x

unfoldable pub validate_limits : Limits → Checked (Unit {0})
unfolding check_wall_seconds
validate_limits self = do
  check_wall_seconds (violation "wall_seconds must be positive") self.wall_seconds
  raise_if (not (is_nat self.stdout_cap_bytes)) (violation "stdout_cap_bytes")
  raise_if (not (is_nat self.stderr_cap_bytes)) (violation "stderr_cap_bytes")
  raise_if (not (or_null is_positive self.job_memory_bytes)) (violation "job_memory_bytes")
  raise_if (not (or_null is_positive self.active_process_limit)) (violation "active_process_limit")
  raise_if (not (is_number 10 self.poll_ms)) (violation "sampling interval is fixed at 10 ms")

-- `float(x)` of a number, where `float_of` is the `repr` of the float of an integer
unfoldable pub to_float : (ℤ → Text) → Json → Json
to_float float_of (int n) = float (float_of n)
to_float float_of x = x

unfoldable pub limits_receipt : (ℤ → Text) → Limits → Json
unfolding to_float
limits_receipt float_of self = object (
    member (codes "wall_seconds") (to_float float_of self.wall_seconds) (
      member (codes "stdout_cap_bytes") self.stdout_cap_bytes (
        member (codes "stderr_cap_bytes") self.stderr_cap_bytes (
          member (codes "job_memory_bytes") self.job_memory_bytes (
            member (codes "active_process_limit") self.active_process_limit
              (member (codes "poll_ms") self.poll_ms no_members))))))

abbrev pub limit_keys : List Text
limit_keys =
    codes "wall_seconds"
    ∷ codes "stdout_cap_bytes"
    ∷ codes "stderr_cap_bytes"
    ∷ codes "job_memory_bytes"
    ∷ codes "active_process_limit"
    ∷ codes "poll_ms"
    ∷ []

-- The tests on the members of a limits receipt
unfoldable pub check_limits : Members → Checked (Unit {0})
unfolding check_wall_seconds each get_member
check_limits limits = do
  check_wall_seconds (violation "wall_seconds is invalid")
      (get_member (codes "wall_seconds") limits)
  each (codes "stdout_cap_bytes" ∷ codes "stderr_cap_bytes" ∷ [])
      λ key. raise_if (not (is_nat (get_member key limits))) (under key (violation "is invalid"))
  each (codes "job_memory_bytes" ∷ codes "active_process_limit" ∷ []) λ key.
      raise_if (not (or_null is_positive (get_member key limits)))
        (under key (violation "is invalid"))
  raise_if (not (is_number 10 (get_member (codes "poll_ms") limits)))
      (violation "poll_ms is invalid")

unfoldable pub validate_limits_receipt : Json → Checked Members
unfolding check_limits strict_keys
validate_limits_receipt value = do
  limits ← strict_keys value limit_keys
  check_limits limits
  ok limits

-- `os.name != "nt"` cannot hold a process tree to these limits.
unfoldable pub validate_platform_support : Bool → Limits → Checked (Unit {0})
validate_platform_support is_windows limits =
    raise_if
      (not is_windows
        && not (is_null limits.job_memory_bytes && is_null limits.active_process_limit))
      (violation "non-Windows adapter cannot prove requested process-tree limits")

abbrev pub chain_schema : Text
chain_schema = codes "ring.one-shot.chain.v1"

abbrev pub chain_keys : List Text
chain_keys =
    codes "schema"
    ∷ codes "outer_attempt_id"
    ∷ codes "outer_attempt_sha256"
    ∷ codes "plan_sha256"
    ∷ []

unfoldable pub check_chain : Members → Checked (Unit {0})
unfolding each get_member is_str
check_chain chain = do
  raise_if (not (is_str chain_schema (get_member (codes "schema") chain)))
      (violation "schema mismatch")
  raise_if (not (matches attempt_id_re (get_member (codes "outer_attempt_id") chain)))
      (violation "outer_attempt_id is invalid")
  each (codes "outer_attempt_sha256" ∷ codes "plan_sha256" ∷ []) λ key.
      raise_if (not (matches hex_64_re (get_member key chain))) (under key (violation "is invalid"))

unfoldable pub validate_chain_receipt : Json → Checked Members
unfolding check_chain strict_keys
validate_chain_receipt value = do chain ← strict_keys value chain_keys; check_chain chain; ok chain

pub record AttemptChain : Type 0 where
  pub outer_attempt_id : Text
  pub outer_attempt_sha256 : Text
  pub plan_sha256 : Text

unfoldable pub chain_value : AttemptChain → Json
chain_value self = object (
    member (codes "schema") (str chain_schema) (
      member (codes "outer_attempt_id") (str self.outer_attempt_id) (
        member (codes "outer_attempt_sha256") (str self.outer_attempt_sha256)
          (member (codes "plan_sha256") (str self.plan_sha256) no_members))))

-- `AttemptChain.receipt`
unfoldable pub chain_receipt : AttemptChain → Checked Json
unfolding chain_value validate_chain_receipt
chain_receipt self = do chain ← validate_chain_receipt (chain_value self); ok (chain_value self)
