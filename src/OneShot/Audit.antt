-- ===== src/OneShot/Audit.antt =====
-- `.agents/scripts/one_shot_gate.py`: `audit_attempt`, of what stands in an evidence directory.
use ring_lang.OneShot.Evidence.{
  Audit, Evidence, StoredJson, complete, incomplete, missing, not_regular, nothing, refused,
  stopped, stored,
}
use ring_lang.Common.{
  Bool, true, false, ◌&&◌, ◌||◌, not, List, [], ◌∷◌, ◌++◌, Option, none, some, if◌then◌else◌, Text,
  codes, ok, err, ◌>>=◌, ◌>>◌, raise_if,
}
use Prim.Native.String.{String}
use ring_lang.Common.Int.{ℤ, pos, int_eq}
use ring_lang.Common.Order.{sort_by}
use ring_lang.Common.Json.{
  Json, int, array, Items, no_items, item, Members, get_member, get_member?, is_str,
}
use ring_lang.OneShot.Values.{Failure, violation, Checked, is_null, int_of, truth_of}
use ring_lang.OneShot.Execution.{validate_attempt}
use ring_lang.OneShot.Streams.{validate_stream_record, stdout_name, stderr_name}
use ring_lang.OneShot.Outcome.{Classification, classify_outcome, get_inner, members_in}
use ring_lang.OneShot.Verdict.{validate_verdict}
use ring_lang.OneShot.Spec.{same_texts, is_nil}
use ring_lang.OneShot.Execute.{Entry, regular}
use ring_lang.OneShot.Run.{class_name, is_success}
use ring_lang.OneShot.Equal.{same_json, if_some}

-- `if test: errors.append(text)`
abbrev pub error_if : Bool → String → List Failure
error_if test text = if test then violation text ∷ [] else []

abbrev pub failure_of : {A : Type 0} → Checked A → List Failure
failure_of (ok a) = []
failure_of (err e) = e ∷ []

unfoldable pub ints_in : Items → List ℤ
ints_in no_items = []
ints_in (item (int n) xs) = n ∷ ints_in xs
ints_in (item _ xs) = ints_in xs

unfoldable pub success_codes_of : Json → List ℤ
unfolding ints_in
success_codes_of (array xs) = ints_in xs
success_codes_of _ = []

abbrev pub same_bool : Bool → Bool → Bool
same_bool a b = if a then b else not b

-- `a.get("chain") == b.get("chain")`, and both or none have it
abbrev pub same_chain : (Text → ℤ → Bool) → Option Json → Option Json → Bool
same_chain float_is none none = true
same_chain float_is none (some y) = false
same_chain float_is (some x) other = if_some (same_json float_is x) other

unfoldable pub identity_errors : (Text → ℤ → Bool) → Text → Members → Members → List Failure
unfolding get_member get_member? is_str same_json
identity_errors float_is attempt_sha256 attempt verdict =
    let differs =
      λ (key : Text). not (same_json float_is (get_member key verdict) (get_member key attempt)) in
    error_if (differs (codes "attempt_id")) "attempt/verdict id mismatch"
    ++ (error_if (not (is_str attempt_sha256 (get_member (codes "attempt_sha256") verdict)))
          "attempt bytes changed after verdict"
        ++ (error_if (differs (codes "gate_id")) "attempt/verdict gate mismatch"
            ++ (error_if (differs (codes "execution")) "attempt/verdict execution identity mismatch"
                ++ (error_if (differs (codes "limits")) "attempt/verdict limits mismatch"
                    ++ (error_if (differs (codes "success_exit_codes"))
                          "attempt/verdict success exit codes mismatch"
                        ++ error_if
                            (not (
                              same_chain float_is (get_member? (codes "chain") verdict)
                                (get_member? (codes "chain") attempt)))
                            "attempt/verdict chain mismatch")))))

-- The class and the stage that a verdict claims, against the class of its child
unfoldable pub class_errors : Classification → Json → Json → List Failure
unfolding is_str
class_errors preliminary class stage =
    if is_str (codes "schema_error") class
    then error_if (not (is_success preliminary) || not (is_str (codes "result-schema") stage))
        "schema_error lacks a successful child/schema stage"
    else if is_str (codes "success") class && is_str (codes "result-schema") stage
    then error_if (not (is_success preliminary))
        "successful result-schema verdict lacks a successful child"
    else error_if (not (is_str (class_name preliminary) class))
        "verdict classification contradicts child facts"
      ++ error_if (not (is_str (codes "child") stage)) "non-schema verdict stage is not child"

unfoldable pub status_errors : Json → Json → Json → List Failure
unfolding is_str
status_errors class status error =
    let succeeded = is_str (codes "success") class in
    error_if (not (is_str (if succeeded then codes "success" else codes "failure") status))
      "verdict status contradicts classification"
    ++ (error_if (succeeded && not (is_null error)) "successful verdict unexpectedly has an error"
        ++ error_if (not succeeded && is_null error) "failed verdict lacks an error class/message")

abbrev pub complete_names : List Text
complete_names =
    codes "attempt.json" ∷ codes "stderr.raw" ∷ codes "stdout.raw" ∷ codes "verdict.json" ∷ []

unfoldable pub inventory_errors : List Text → List Failure
unfolding sort_by same_texts
inventory_errors inventory =
    error_if (not (same_texts (sort_by (λ (s : Text). s) inventory) complete_names))
      "complete inventory mismatch"

-- The file of a stream, against its record
unfoldable pub check_file : Entry → Members → Checked (Unit {0})
unfolding get_member is_str
check_file (regular size sha256 syncs) validated = do
  raise_if (not (int_eq (pos size) (int_of (get_member (codes "captured_size") validated))))
      (violation "raw size mismatch")
  raise_if (not (is_str sha256 (get_member (codes "sha256") validated)))
      (violation "raw hash mismatch")
  raise_if (not (truth_of (get_member (codes "fsynced") validated)))
      (violation "was not sealed before verdict")
check_file _ validated = err (violation "raw file is missing/non-regular")

unfoldable pub check_raw : Json → Text → ℤ → Entry → Checked (Unit {0})
unfolding validate_stream_record check_file
check_raw value name cap_bytes entry = do
  validated ← validate_stream_record value name cap_bytes
  check_file entry validated

unfoldable pub stream_errors : Evidence → Members → Members → List Failure
unfolding check_raw get_inner
stream_errors evidence attempt verdict =
    failure_of (
      check_raw (get_inner (codes "streams") (codes "stdout") verdict) stdout_name
        (int_of (get_inner (codes "limits") (codes "stdout_cap_bytes") attempt)) evidence.stdout)
    ++ failure_of (
        check_raw (get_inner (codes "streams") (codes "stderr") verdict) stderr_name
          (int_of (get_inner (codes "limits") (codes "stderr_cap_bytes") attempt)) evidence.stderr)

unfoldable pub truncated_in : Text → Members → Bool
unfolding get_inner get_member
truncated_in stream verdict = truth_of (
    get_member (codes "truncated_at_cap") (members_in (get_inner (codes "streams") stream verdict)))

unfoldable pub limit_errors : Members → List Failure
unfolding truncated_in get_inner
limit_errors verdict =
    error_if
      (not (
        same_bool (truth_of (get_inner (codes "child") (codes "output_limit_hit") verdict))
          (truncated_in (codes "stdout") verdict || truncated_in (codes "stderr") verdict)))
      "child output-limit flag contradicts raw streams"

-- The claims of a verdict, against its child
unfoldable pub claim_errors : Members → Members → List Failure
unfolding class_errors status_errors classify_outcome success_codes_of get_member
claim_errors attempt verdict =
    class_errors
      (classify_outcome (members_in (get_member (codes "child") verdict))
        (success_codes_of (get_member (codes "success_exit_codes") attempt))).0
      (get_member (codes "classification") verdict) (get_member (codes "stage") verdict)
    ++ status_errors (get_member (codes "classification") verdict)
        (get_member (codes "status") verdict) (get_member (codes "error") verdict)

-- The errors of a valid attempt and a valid verdict
unfoldable pub pair_errors : (Text → ℤ → Bool) → Evidence → Text → Members → Members → List Failure
unfolding identity_errors claim_errors inventory_errors stream_errors limit_errors
pair_errors float_is evidence attempt_sha256 attempt verdict =
    identity_errors float_is attempt_sha256 attempt verdict
    ++ (claim_errors attempt verdict
        ++ (inventory_errors evidence.inventory
            ++ (stream_errors evidence attempt verdict ++ limit_errors verdict)))

abbrev pub conclude : Members → List Failure → Audit
conclude verdict [] = record {
  consumed = true;
  state = complete;
  status = get_member (codes "status") verdict;
  classification = get_member (codes "classification") verdict;
  errors = [];
}
conclude verdict (e ∷ errors) = stopped true incomplete (e ∷ errors)

abbrev pub conclude_pair : (Text → ℤ → Bool) → Evidence → Text → Members → Checked Members → Audit
conclude_pair float_is evidence attempt_sha256 attempt (err e) = refused e
conclude_pair float_is evidence attempt_sha256 attempt (ok verdict) =
    conclude verdict (pair_errors float_is evidence attempt_sha256 attempt verdict)

-- What the verdict's path holds, for a valid attempt
unfoldable pub audit_verdict : (Text → ℤ → Bool) → Evidence → Text → Members → StoredJson → Audit
audit_verdict float_is evidence attempt_sha256 attempt (stored loaded sha256) =
    conclude_pair float_is evidence attempt_sha256 attempt (loaded >>= validate_verdict)
audit_verdict float_is evidence attempt_sha256 attempt _ =
    stopped true incomplete (violation "attempt has no verdict (parent crash/unknown)" ∷ [])

abbrev pub audit_loaded : (Text → ℤ → Bool) → Evidence → Text → Checked Members → Audit
audit_loaded float_is evidence sha256 (err e) = refused e
audit_loaded float_is evidence sha256 (ok attempt) =
    audit_verdict float_is evidence sha256 attempt evidence.verdict

-- What the attempt's path holds
unfoldable pub audit_document : (Text → ℤ → Bool) → Evidence → StoredJson → Audit
audit_document float_is evidence missing =
    if is_nil evidence.inventory
    then stopped false nothing []
    else stopped false incomplete (violation "evidence exists without an attempt marker" ∷ [])
audit_document float_is evidence not_regular =
    stopped true incomplete (violation "attempt marker is not a regular non-link file" ∷ [])
audit_document float_is evidence (stored loaded sha256) =
    audit_loaded float_is evidence sha256 (loaded >>= validate_attempt)

unfoldable pub audit_attempt : (Text → ℤ → Bool) → Evidence → Audit
unfolding audit_document audit_verdict
audit_attempt float_is evidence = audit_document float_is evidence evidence.attempt
