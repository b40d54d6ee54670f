-- ===== src/OneShot/Success.antt =====
-- `.agents/scripts/one_shot_gate.py`: what an audit that reports success proves of the child and the files.
use mathlib.Core.Path.{subst}
use ring_lang.Common.{
  ℕ, ◌≡◌, refl, ap, sym, ◌∙◌, Bool, true, not, [], Text, codes, ok, >>=-eq-ok, raise_if-eq-ok,
  append-eq-nil, not-eq-false,
}
use ring_lang.Common.Int.{ℤ, pos, int_eq}
use ring_lang.Common.Json.{Json, Members, get_member, is_str}
use ring_lang.OneShot.Values.{int_of, truth_of, strict_keys}
use ring_lang.OneShot.Execution.{validate_attempt}
use ring_lang.OneShot.Streams.{
  validate_stream_record, stdout_name, stderr_name, stream_keys, check_stream,
}
use ring_lang.OneShot.Outcome.{members_in, get_inner, classify_outcome}
use ring_lang.OneShot.Verdict.{validate_verdict}
use ring_lang.OneShot.Execute.{Entry, absent, dangling, irregular, regular}
use ring_lang.OneShot.Audit.{
  audit_attempt, pair_errors, identity_errors, claim_errors, inventory_errors, stream_errors,
  check_raw, check_file, failure_of, success_codes_of, error_if,
}
use ring_lang.OneShot.Evidence.{Evidence, Audit, complete}
use ring_lang.OneShot.Equal.{same_json}
use ring_lang.OneShot.Verdicts.{EndedWell, classify_outcome-EndedWell, claims-success, error_if-nil}
use ring_lang.OneShot.Ending.{passed}
use ring_lang.OneShot.Inversion.{strict_keys-object, checked-ok}
use ring_lang.OneShot.Proven.{Holds, IsRecorded, failure_of-nil, audit_attempt-Complete}

only : (done : Unit {0}) → done ≡ tt
only tt = refl

validate_stream_record-members :
    (value : Json) (name : Text) (cap_bytes : ℤ) {validated : Members}
    → validate_stream_record value name cap_bytes ≡ ok validated
    → members_in value ≡ validated
unfolding validate_stream_record
validate_stream_record-members value name cap_bytes h =
    let (found, keys, rest) = >>=-eq-ok (strict_keys value stream_keys) _ h in
    let (done, same) = checked-ok (check_stream name cap_bytes found) found rest in
    ap members_in (strict_keys-object value stream_keys keys).0 ∙ same

check_file-recorded :
    (entry : Entry) (validated : Members)
    → check_file entry validated ≡ ok tt
    → (size : ℕ) × (sha256 : Text) × (syncs : Bool) × (entry ≡ regular size sha256 syncs)
      × (int_eq (pos size) (int_of (get_member (codes "captured_size") validated)) ≡ true)
      × (is_str sha256 (get_member (codes "sha256") validated) ≡ true)
      × (truth_of (get_member (codes "fsynced") validated) ≡ true)
unfolding check_file
check_file-recorded (regular size sha256 syncs) validated h =
    let (a, h1) =
      raise_if-eq-ok
        (not (int_eq (pos size) (int_of (get_member (codes "captured_size") validated)))) _ _ h in
    let (b, h2) =
      raise_if-eq-ok (not (is_str sha256 (get_member (codes "sha256") validated))) _ _ h1 in
    (
      size,
      sha256,
      syncs,
      refl,
      not-eq-false _ a,
      not-eq-false _ b,
      passed (truth_of (get_member (codes "fsynced") validated)) _ h2,
    )
check_file-recorded absent validated h = cc
check_file-recorded dangling validated h = cc
check_file-recorded irregular validated h = cc

check_raw-IsRecorded :
    (value : Json) (name : Text) (cap_bytes : ℤ) (entry : Entry)
    → failure_of (check_raw value name cap_bytes entry) ≡ []
    → IsRecorded entry value
unfolding check_raw
check_raw-IsRecorded value name cap_bytes entry h =
    let (done, passes) = failure_of-nil (check_raw value name cap_bytes entry) h in
    let (validated, valid, filed) =
      >>=-eq-ok (validate_stream_record value name cap_bytes) _ passes in
    check_file-recorded entry (members_in value) (
      subst (λ (ms : Members). check_file entry ms ≡ ok tt)
        (sym (validate_stream_record-members value name cap_bytes valid))
        (filed ∙ ap ok (only done)))

identity_errors-nil :
    (float_is : Text → ℤ → Bool) (sha256 : Text) (attempt verdict : Members)
    → identity_errors float_is sha256 attempt verdict ≡ []
    → is_str sha256 (get_member (codes "attempt_sha256") verdict) ≡ true
unfolding identity_errors
identity_errors-nil float_is sha256 attempt verdict h =
    let (a, rest) =
      append-eq-nil
        (error_if
          (not (
            same_json float_is (get_member (codes "attempt_id") verdict)
              (get_member (codes "attempt_id") attempt)))
          "attempt/verdict id mismatch")
        _ h in
    let (b, more) =
      append-eq-nil
        (error_if (not (is_str sha256 (get_member (codes "attempt_sha256") verdict)))
          "attempt bytes changed after verdict")
        _ rest in
    not-eq-false _ (error_if-nil _ "attempt bytes changed after verdict" b)

claim_errors-nil :
    (attempt verdict : Members)
    → claim_errors attempt verdict ≡ []
    → is_str (codes "success") (get_member (codes "status") verdict) ≡ true
    → EndedWell
        (members_in (get_member (codes "child") verdict))
        (success_codes_of (get_member (codes "success_exit_codes") attempt))
unfolding claim_errors
claim_errors-nil attempt verdict h s =
    let child = members_in (get_member (codes "child") verdict) in
    let success_codes = success_codes_of (get_member (codes "success_exit_codes") attempt) in
    let (well, class, silent) =
      claims-success (classify_outcome child success_codes).0
        (get_member (codes "classification") verdict) (get_member (codes "stage") verdict)
        (get_member (codes "status") verdict) (get_member (codes "error") verdict) h s in
    classify_outcome-EndedWell child success_codes well

stream_errors-nil :
    (evidence : Evidence) (attempt verdict : Members)
    → stream_errors evidence attempt verdict ≡ []
    → IsRecorded evidence.stdout (get_inner (codes "streams") (codes "stdout") verdict)
      × IsRecorded evidence.stderr (get_inner (codes "streams") (codes "stderr") verdict)
unfolding stream_errors
stream_errors-nil evidence attempt verdict h =
    let stdout = get_inner (codes "streams") (codes "stdout") verdict in
    let stderr = get_inner (codes "streams") (codes "stderr") verdict in
    let stdout_cap = int_of (get_inner (codes "limits") (codes "stdout_cap_bytes") attempt) in
    let stderr_cap = int_of (get_inner (codes "limits") (codes "stderr_cap_bytes") attempt) in
    let (a, b) =
      append-eq-nil (failure_of (check_raw stdout stdout_name stdout_cap evidence.stdout))
        (failure_of (check_raw stderr stderr_name stderr_cap evidence.stderr)) h in
    (
      check_raw-IsRecorded stdout stdout_name stdout_cap evidence.stdout a,
      check_raw-IsRecorded stderr stderr_name stderr_cap evidence.stderr b,
    )

-- What a successful audit proves
abbrev pub ProvesSuccess : Evidence → Type 0
ProvesSuccess evidence =
    (attempt : Members) × (verdict : Members) × (attempt_sha256 : Text) × (verdict_sha256 : Text)
    × Holds validate_attempt evidence.attempt attempt attempt_sha256
    × Holds validate_verdict evidence.verdict verdict verdict_sha256
    × (is_str attempt_sha256 (get_member (codes "attempt_sha256") verdict) ≡ true)
    × EndedWell (members_in (get_member (codes "child") verdict))
        (success_codes_of (get_member (codes "success_exit_codes") attempt))
    × IsRecorded evidence.stdout (get_inner (codes "streams") (codes "stdout") verdict)
    × IsRecorded evidence.stderr (get_inner (codes "streams") (codes "stderr") verdict)

-- Where `audit_attempt` reports a complete and successful attempt, the attempt and the verdict were read and
-- are valid; the verdict names the hash of the attempt's bytes; its child had no error and met no
-- limit, and ended with one of the exit codes that the attempt allows; and both raw files are regular,
-- flushed, and have the size and the hash that the verdict records.
pub audit_attempt-success :
    (float_is : Text → ℤ → Bool) (evidence : Evidence)
    → (audit_attempt float_is evidence).state ≡ complete
    → is_str (codes "success") (audit_attempt float_is evidence).status ≡ true
    → ProvesSuccess evidence
unfolding pair_errors
audit_attempt-success float_is evidence h s =
    let c = audit_attempt-Complete float_is evidence h in
    let (identity, rest1) =
      append-eq-nil (identity_errors float_is c.attempt_sha256 c.attempt c.verdict) _ c.no_errors in
    let (claims, rest2) = append-eq-nil (claim_errors c.attempt c.verdict) _ rest1 in
    let (inventory, rest3) = append-eq-nil (inventory_errors evidence.inventory) _ rest2 in
    let (files, limits) = append-eq-nil (stream_errors evidence c.attempt c.verdict) _ rest3 in
    let (stdout_file, stderr_file) = stream_errors-nil evidence c.attempt c.verdict files in
    let status : is_str (codes "success") (get_member (codes "status") c.verdict) ≡ true =
      subst (λ (a : Audit). is_str (codes "success") a.status ≡ true) c.reported s in
    (
      c.attempt,
      c.verdict,
      c.attempt_sha256,
      c.verdict_sha256,
      c.attempt_holds,
      c.verdict_holds,
      identity_errors-nil float_is c.attempt_sha256 c.attempt c.verdict identity,
      claim_errors-nil c.attempt c.verdict claims status,
      stdout_file,
      stderr_file,
    )
