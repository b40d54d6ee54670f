-- ===== src/OneShot/Outer/Check.antt =====
-- `.agents/scripts/one_shot_gate.py`: the rest of `audit_outer`, the outer verdict against the inner audit.
use ring_lang.Common.{
  Bool, true, false, ◌&&◌, ◌||◌, not, List, [], ◌∷◌, ◌++◌, if◌then◌else◌, Text, codes, ok, err,
  ◌>>=◌, ◌>>◌, raise_if,
}
use ring_lang.Common.Json.{Json, Members, get_member, is_str}
use ring_lang.OneShot.Values.{
  violation, overflow, Checked, is_null, is_int, is_object, is_number, strict_keys, same_names,
}
use ring_lang.OneShot.Outcome.{members_in, get_inner}
use ring_lang.OneShot.Streams.{stdout_name, stderr_name}
use ring_lang.OneShot.Spec.{is_nil}
use ring_lang.OneShot.Audit.{audit_attempt}
use ring_lang.OneShot.Evidence.{
  StoredJson, stored, Audit, AuditState, nothing, incomplete, complete, crashed, stopped, refused,
  is_complete,
}
use ring_lang.OneShot.Outer.{Platform, validate_outer_attempt}
use ring_lang.OneShot.Outer.Audit.{
  OuterEvidence, outer_verdict_keys, inner_keys, is_single, file_of, outer_file_receipt,
  audit_value, check_outer_stream, check_inner_attempt, equal,
}

abbrev pub outer_stdout_name : Text
outer_stdout_name = codes "outer-stdout.raw"

abbrev pub outer_stderr_name : Text
outer_stderr_name = codes "outer-stderr.raw"

abbrev pub outer_names : List Text
outer_names =
    codes "outer-attempt.json"
    ∷ codes "outer-verdict.json"
    ∷ outer_stdout_name
    ∷ outer_stderr_name
    ∷ []

abbrev pub is_crashed : AuditState → Bool
is_crashed crashed = true
is_crashed _ = false

-- The outer status against that of the inner audit
unfoldable pub check_status : Members → Audit → Checked (Unit {0})
unfolding get_member is_str
check_status verdict actual =
    let status = get_member (codes "status") verdict in
    let class = get_member (codes "classification") verdict in
    if is_complete actual.state
    then (do
      raise_if
          (is_str (codes "failure") actual.status
            && not (is_str (codes "failure") status && is_str (codes "inner_failure") class))
          (violation "outer status hides actual inner failure")
      raise_if
          (is_str (codes "success") actual.status
            && is_str (codes "success") status
            && not (is_str (codes "success") class))
          (violation "outer success differs from actual inner success"))
    else raise_if (is_str (codes "success") status)
        (violation "outer success lacks a complete inner result")

-- An inner audit that raises leaves the outer one as well.
abbrev pub audit_returns : Audit → Checked (Unit {0})
audit_returns actual = raise_if (is_crashed actual.state) overflow

-- A verdict of success is one, and a verdict of failure is none.
unfoldable pub check_claim : Members → Checked (Unit {0})
unfolding get_member is_str is_single
check_claim verdict = do
  raise_if
      (is_str (codes "success") (get_member (codes "status") verdict)
        && not (
            is_str (codes "success") (get_member (codes "classification") verdict)
            && is_null (get_member (codes "error") verdict)
            && is_single (get_member (codes "cleanup_handshakes") verdict)))
      (violation "successful outer verdict has invalid state")
  raise_if
      (is_str (codes "failure") (get_member (codes "status") verdict)
        && is_str (codes "success") (get_member (codes "classification") verdict))
      (violation "failed outer verdict claims success")

abbrev pub conclude_outer : Checked Members → Audit
conclude_outer (err e) = refused e
conclude_outer (ok verdict) = record {
  consumed = true;
  state = complete;
  status = get_member (codes "status") verdict;
  classification = get_member (codes "classification") verdict;
  errors = [];
}

module _ (platform : Platform) where
  unfoldable pub check_receipts : OuterEvidence → Members → Checked (Unit {0})
  unfolding outer_file_receipt get_member
  check_receipts e inner = do
    raise_if
        (not (
          equal platform (get_member (codes "attempt") inner)
            (outer_file_receipt (codes "attempt.json") (file_of e.inner.attempt e.attempt_size))))
        (violation "inner attempt receipt/hash mismatch")
    raise_if
        (not (
          equal platform (get_member (codes "verdict") inner)
            (outer_file_receipt (codes "verdict.json") (file_of e.inner.verdict e.verdict_size))))
        (violation "inner verdict receipt/hash mismatch")
    raise_if
        (not (
          equal platform (get_member (codes "stdout") inner)
            (outer_file_receipt stdout_name e.inner.stdout)))
        (violation "inner stdout receipt/hash mismatch")
    raise_if
        (not (
          equal platform (get_member (codes "stderr") inner)
            (outer_file_receipt stderr_name e.inner.stderr)))
        (violation "inner stderr receipt/hash mismatch")

  -- The record of the inner attempt, against what stands there
  unfoldable pub check_inner : OuterEvidence → Members → Text → Members → Json → Checked (Unit {0})
  unfolding strict_keys audit_attempt check_receipts check_inner_attempt check_status audit_value
      get_member is_str
  check_inner e attempt attempt_sha256 verdict inner_record = do
    inner ← strict_keys inner_record inner_keys
    raise_if (not (is_str (codes "inner") (get_member (codes "evidence_dir") inner)))
        (violation "outer verdict references a different inner root")
    audit_returns (audit_attempt platform.float_is e.inner)
    check_receipts e inner
    raise_if
        (not (
          is_str (platform.json_sha256 (get_member (codes "audit") inner))
            (get_member (codes "audit_sha256") inner)))
        (violation "inner audit hash mismatch")
    raise_if
        (not (
          equal platform (get_member (codes "audit") inner)
            (audit_value e.inner_text e.message (audit_attempt platform.float_is e.inner))))
        (violation "stored inner audit differs from current audit")
    check_inner_attempt platform e attempt attempt_sha256 inner
    check_status verdict (audit_attempt platform.float_is e.inner)

  unfoldable pub is_pair : Members → Text → Members → Bool
  unfolding get_member is_str is_number get_inner
  is_pair attempt attempt_sha256 verdict =
      is_str (codes "ring.one-shot.outer-verdict.v1") (get_member (codes "schema") verdict)
      && is_number 1 (get_member (codes "contract_version") verdict)
      && equal platform (get_member (codes "attempt_id") verdict)
          (get_member (codes "attempt_id") attempt)
      && is_str attempt_sha256 (get_member (codes "attempt_sha256") verdict)
      && equal platform (get_member (codes "plan_sha256") verdict) (
          get_member (codes "sha256")
            (members_in (get_inner (codes "delivery") (codes "plan") attempt)))
      && (is_str (codes "success") (get_member (codes "status") verdict)
          || is_str (codes "failure") (get_member (codes "status") verdict))

  -- Both streams of the launcher
  unfoldable pub check_streams : OuterEvidence → Members → Members → Checked (Unit {0})
  unfolding check_outer_stream get_inner
  check_streams e attempt verdict = do
    let outer_cap =
        get_member (codes "output_cap_bytes")
          (members_in (get_inner (codes "delivery") (codes "limits") attempt))
    check_outer_stream platform outer_stdout_name outer_cap e.stdout
        (get_inner (codes "streams") (codes "stdout") verdict)
    check_outer_stream platform outer_stderr_name outer_cap e.stderr
        (get_inner (codes "streams") (codes "stderr") verdict)

  unfoldable pub check_inner_record : OuterEvidence → Members → Text → Members → Checked (List Text)
  unfolding check_inner get_member is_str
  check_inner_record e attempt attempt_sha256 verdict =
      if is_null (get_member (codes "inner") verdict)
      then (do
        raise_if (is_str (codes "success") (get_member (codes "status") verdict))
            (violation "outer success lacks inner evidence")
        ok outer_names)
      else (do
        check_inner e attempt attempt_sha256 verdict (get_member (codes "inner") verdict)
        ok (outer_names ++ codes "inner" ∷ []))

  -- The statements in the `try` of `audit_outer`
  unfoldable pub check_outer_verdict : OuterEvidence → Members → Text → Json → Checked Members
  unfolding strict_keys is_pair check_claim get_member get_inner check_streams check_inner_record
      same_names
  check_outer_verdict e attempt attempt_sha256 value = do
    verdict ← strict_keys value outer_verdict_keys
    raise_if (not (is_pair attempt attempt_sha256 verdict))
        (violation "outer attempt/verdict identity mismatch")
    check_claim verdict
    raise_if
        (not (
          is_object (get_member (codes "measurements") verdict)
          && is_int (get_inner (codes "measurements") (codes "outer_wall_ns") verdict)))
        (violation "outer measurements are invalid")
    check_streams e attempt verdict
    expected ← check_inner_record e attempt attempt_sha256 verdict
    raise_if (not (same_names e.inventory expected)) (violation "outer evidence inventory mismatch")
    ok verdict

  unfoldable pub audit_outer_verdict : OuterEvidence → Text → Members → StoredJson → Audit
  unfolding check_outer_verdict
  audit_outer_verdict e attempt_sha256 attempt (stored loaded sha256) =
      conclude_outer (loaded >>= check_outer_verdict e attempt attempt_sha256)
  audit_outer_verdict e attempt_sha256 attempt _ =
      stopped true incomplete (violation "outer attempt has no verdict (crash/unknown)" ∷ [])

  abbrev pub audit_outer_loaded : OuterEvidence → Text → Checked Members → Audit
  audit_outer_loaded e sha256 (err failure) = refused failure
  audit_outer_loaded e sha256 (ok attempt) = audit_outer_verdict e sha256 attempt e.verdict

  unfoldable pub audit_outer_document : OuterEvidence → StoredJson → Audit
  unfolding validate_outer_attempt audit_outer_verdict
  audit_outer_document e (stored loaded sha256) =
      audit_outer_loaded e sha256 (loaded >>= validate_outer_attempt platform)
  audit_outer_document e _ =
      if is_nil e.inventory
      then stopped false nothing []
      else stopped false incomplete (violation "outer evidence exists without regular attempt" ∷ [])

  unfoldable pub audit_outer : OuterEvidence → Audit
  unfolding audit_outer_document
  audit_outer e = audit_outer_document e e.attempt
