-- ===== src/OneShot/Verdict.antt =====
-- `.agents/scripts/one_shot_gate.py`: the verdict of an attempt.
use ring_lang.Common.{
  Bool, true, ◌||◌, not, List, [], ◌∷◌, ◌++◌, if◌then◌else◌, Text, codes, ok, err, ◌>>=◌, ◌>>◌,
  raise_if,
}
use ring_lang.Common.Json.{Json, object, Members, get_member, is_str}
use ring_lang.OneShot.Values.{
  violation, Checked, attempt_id_re, hex_64_re, is_int, is_text, is_text_or_null, matches,
  is_number, int_of, strict_keys,
}
use ring_lang.OneShot.Receipts.{validate_limits_receipt}
use ring_lang.OneShot.Execution.{
  validate_execution_receipt, is_list_of, contract_version, check_chain_if,
}
use ring_lang.OneShot.Outcome.{validate_child_receipt, validate_streams, json_safe}

abbrev pub verdict_keys : List Text
verdict_keys =
    codes "schema"
    ∷ codes "contract_version"
    ∷ codes "attempt_id"
    ∷ codes "attempt_sha256"
    ∷ codes "gate_id"
    ∷ codes "status"
    ∷ codes "classification"
    ∷ codes "stage"
    ∷ codes "execution"
    ∷ codes "limits"
    ∷ codes "success_exit_codes"
    ∷ codes "child"
    ∷ codes "measurements"
    ∷ codes "streams"
    ∷ codes "error"
    ∷ codes "created_unix_ns"
    ∷ []

abbrev pub chained_verdict_keys : List Text
chained_verdict_keys = verdict_keys ++ codes "chain" ∷ []

abbrev pub verdict_schema : Bool → Text
verdict_schema chained =
    if chained then codes "ring.one-shot.verdict.v2" else codes "ring.one-shot.verdict.v1"

-- The tests of the plain members of a verdict
unfoldable pub check_verdict_facts : Bool → Members → Checked (Unit {0})
unfolding get_member is_str is_number
check_verdict_facts chained verdict = do
  raise_if (not (is_str (verdict_schema chained) (get_member (codes "schema") verdict)))
      (violation "verdict schema mismatch")
  raise_if
      (not (is_number (contract_version chained) (get_member (codes "contract_version") verdict)))
      (violation "verdict contract version mismatch")
  raise_if (not (matches attempt_id_re (get_member (codes "attempt_id") verdict)))
      (violation "verdict attempt_id is invalid")
  raise_if (not (matches hex_64_re (get_member (codes "attempt_sha256") verdict)))
      (violation "verdict attempt hash is invalid")
  raise_if
      (not (
        is_str (codes "success") (get_member (codes "status") verdict)
        || is_str (codes "failure") (get_member (codes "status") verdict)))
      (violation "verdict status is invalid")
  raise_if (not (is_text (get_member (codes "classification") verdict)))
      (violation "verdict classification is invalid")
  raise_if (not (is_text (get_member (codes "stage") verdict)))
      (violation "verdict stage is invalid")
  raise_if (not (is_text_or_null (get_member (codes "error") verdict)))
      (violation "verdict error is invalid")
  raise_if (not (is_int (get_member (codes "created_unix_ns") verdict)))
      (violation "verdict timestamp is invalid")

-- The tests of the receipts in a verdict
unfoldable pub check_verdict_receipts : Bool → Members → Checked (Unit {0})
unfolding get_member validate_execution_receipt validate_limits_receipt is_list_of
    validate_child_receipt json_safe validate_streams
check_verdict_receipts chained verdict = do
  execution ← validate_execution_receipt (get_member (codes "execution") verdict)
  limits ← validate_limits_receipt (get_member (codes "limits") verdict)
  raise_if (not (is_list_of is_int (get_member (codes "success_exit_codes") verdict)))
      (violation "verdict success_exit_codes are invalid")
  child ← validate_child_receipt (get_member (codes "child") verdict)
  raise_if (not (json_safe (get_member (codes "measurements") verdict)))
      (violation "verdict.measurements")
  streams ←
      validate_streams (get_member (codes "streams") verdict)
        (int_of (get_member (codes "stdout_cap_bytes") limits))
        (int_of (get_member (codes "stderr_cap_bytes") limits))
  check_chain_if chained (get_member (codes "chain") verdict)

unfoldable pub validate_verdict_as : Bool → Json → Checked Members
unfolding strict_keys check_verdict_facts check_verdict_receipts
validate_verdict_as chained value = do
  verdict ← strict_keys value (if chained then chained_verdict_keys else verdict_keys)
  check_verdict_facts chained verdict
  check_verdict_receipts chained verdict
  ok verdict

unfoldable pub validate_verdict : Json → Checked Members
unfolding validate_verdict_as get_member is_str
validate_verdict (object ms) =
    validate_verdict_as (is_str (verdict_schema true) (get_member (codes "schema") ms)) (object ms)
validate_verdict _ = err (violation "verdict is not an object")
