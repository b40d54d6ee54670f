-- ===== src/OneShot/Run.antt =====
-- `.agents/scripts/one_shot_gate.py`: `PreparedAttempt.execute`, with the adapter, the files and the
-- result validator as parameters.
use ring_lang.Common.{
  Bool, true, false, ◌||◌, List, [], ◌∷◌, ◌++◌, Option, none, some, if◌then◌else◌, Text, codes,
  text_eq, ok, err, ◌>>=◌, ◌>>◌, raise_if,
}
use ring_lang.Common.Int.{ℤ, pos}
use ring_lang.Common.Json.{Json, null, int, str, object, Members, no_members, member, get_member}
use ring_lang.OneShot.Values.{Failure, violation, Checked, is_null}
use ring_lang.OneShot.Execution.{contract_version}
use ring_lang.OneShot.Outcome.{
  Classification, launch_error, pipe_error, thread_error, infrastructure_error, process_limit,
  memory_limit, timeout, output_limit, child_nonzero, schema_error, success,
  validate_adapter_outcome, classify_outcome, members_in, child_keys,
}
use ring_lang.OneShot.Verdict.{validate_verdict, verdict_schema}
use ring_lang.OneShot.Spec.{OneShotSpec, PreparedAttempt, is_chained, chain_member}
use ring_lang.OneShot.Execute.{
  Entry, Folder, exists, verify_raw_identity, verify_tool_identity, outcome_from_existing_raw,
}

-- How the call of the adapter ends: a value, an `AdapterError` with its message and outcome, or another
-- exception with the text of its type and message.
pub data Adapted : Type 0 where
  returned : Json → Adapted
  adapter_error : Text → Json → Adapted
  raised : Text → Adapted

-- What the run meets: what the adapter does to the directory and how it ends, the tool's file
-- afterwards, the exception of the result validator, if there is one and it raises, and the clock.
pub record Surroundings : Type 0 where
  pub adapter : Folder → Folder × Adapted
  pub tool : Entry
  pub validator : Option (Members → Option Text)
  pub attempt_sha256 : Text
  pub now : ℤ
  -- the hash of no bytes, and `str(exc)`
  pub empty_sha256 : Text
  pub message : Failure → Text

-- `outcome[name] = value`
unfoldable pub put_member : Text → Json → Members → Members
unfolding text_eq
put_member name value no_members = member name value no_members
put_member name value (member key x ms) =
    if text_eq name key then member key value ms else member key x (put_member name value ms)

-- An outcome, the text of an exception so far, and the directory
abbrev pub Called : Type 0
Called = Json × Option Text × Folder

-- What follows the call, by its ending
unfoldable pub after_adapter : Surroundings → OneShotSpec → Folder → Adapted → Checked Called
unfolding outcome_from_existing_raw
after_adapter world spec after (returned outcome) = ok (outcome, none, after)
after_adapter world spec after (adapter_error text outcome) = ok (outcome, some text, after)
after_adapter world spec after (raised text) = do
  found ← outcome_from_existing_raw world.empty_sha256 spec.limits (str text) after
  ok (found.0, some text, found.1)

unfoldable pub call_adapter : Surroundings → OneShotSpec → Folder → Checked Called
unfolding after_adapter
call_adapter world spec root =
    after_adapter world spec (world.adapter root).0 (world.adapter root).1

-- The outcome is valid, and describes the files.
unfoldable pub check_outcome : OneShotSpec → Json → Folder → Checked Members
unfolding validate_adapter_outcome verify_raw_identity get_member
check_outcome spec outcome root = do
  checked ← validate_adapter_outcome outcome spec.limits
  verify_raw_identity root (members_in (get_member (codes "streams") checked))
  ok checked

abbrev pub Sealed : Type 0
Sealed = Members × Option Text × Folder

-- `except ContractError`: the outcome is made from the files.
unfoldable pub seal_checked :
    Surroundings → OneShotSpec → Option Text → Folder → Checked Members → Checked Sealed
unfolding check_outcome outcome_from_existing_raw
seal_checked world spec exn root (ok checked) = ok (checked, exn, root)
seal_checked world spec exn root (err failure) = do
  let text = codes "adapter schema: " ++ world.message failure
  found ← outcome_from_existing_raw world.empty_sha256 spec.limits (str text) root
  checked ← check_outcome spec found.0 found.1
  ok (checked, some text, found.1)

unfoldable pub seal_outcome : Surroundings → OneShotSpec → Called → Checked Sealed
unfolding check_outcome seal_checked
seal_outcome world spec (outcome, exn, root) =
    seal_checked world spec exn root (check_outcome spec outcome root)

abbrev pub infrastructure_key : Text
infrastructure_key = codes "infrastructure_error"

-- `if adapter_exception is not None and outcome["infrastructure_error"] is None`
abbrev pub add_exception : Option Text → Members → Members
add_exception none outcome = outcome
add_exception (some text) outcome =
    if is_null (get_member infrastructure_key outcome)
    then put_member infrastructure_key (str text) outcome
    else outcome

-- `except ContractError`: the failure of the tool's identity is the error.
unfoldable pub note_tool : Surroundings → Option Text → Members → Checked (Unit {0}) → Members
unfolding get_member put_member
note_tool world exn outcome (ok done) = add_exception exn outcome
note_tool world exn outcome (err failure) =
    put_member infrastructure_key (str (codes "execution identity: " ++ world.message failure))
      outcome

unfoldable pub check_tool : Surroundings → Members → Option Text → Members → Members
unfolding verify_tool_identity get_member note_tool
check_tool world attempt exn outcome =
    note_tool world exn outcome
      (verify_tool_identity world.tool (members_in (get_member (codes "execution") attempt)))

-- The class, the error and the stage of a verdict
pub record Judgement : Type 0 where
  pub classification : Classification
  pub error : Json
  pub stage : Text

abbrev pub is_success : Classification → Bool
is_success success = true
is_success _ = false

abbrev pub after_validator : Option Text → Judgement
after_validator none = record {
  classification = success;
  error = null;
  stage = codes "result-schema";
}
after_validator (some text) = record {
  classification = schema_error;
  error = str text;
  stage = codes "result-schema";
}

abbrev pub validate_result :
    Option (Members → Option Text) → Members → Classification × Json → Judgement
validate_result (some validator) outcome (success, error) = after_validator (validator outcome)
validate_result validator outcome (classification, error) = record {
  classification = classification;
  error = error;
  stage = codes "child";
}

unfoldable pub judge : Surroundings → OneShotSpec → Members → Judgement
unfolding classify_outcome
judge world spec outcome =
    validate_result world.validator outcome (classify_outcome outcome spec.success_exit_codes)

abbrev pub class_name : Classification → Text
class_name launch_error = codes "launch_error"
class_name pipe_error = codes "pipe_error"
class_name thread_error = codes "thread_error"
class_name infrastructure_error = codes "infrastructure_error"
class_name process_limit = codes "process_limit"
class_name memory_limit = codes "memory_limit"
class_name timeout = codes "timeout"
class_name output_limit = codes "output_limit"
class_name child_nonzero = codes "child_nonzero"
class_name schema_error = codes "schema_error"
class_name success = codes "success"

-- `outcome[key]`, for some keys in their order
unfoldable pub pick : List Text → Members → Members
unfolding get_member
pick [] outcome = no_members
pick (key ∷ keys) outcome = member key (get_member key outcome) (pick keys outcome)

abbrev pub status_of : Classification → Text
status_of class = if is_success class then codes "success" else codes "failure"

unfoldable pub verdict_value :
    Surroundings → Bool → Text → Members → Members → Judgement → Members → Json
unfolding pick get_member
verdict_value world chained gate_id attempt outcome judgement chain = object (
    member (codes "schema") (str (verdict_schema (chained))) (
      member (codes "contract_version") (int (pos (contract_version (chained)))) (
        member (codes "attempt_id") (get_member (codes "attempt_id") attempt) (
          member (codes "attempt_sha256") (str world.attempt_sha256) (
            member (codes "gate_id") (str gate_id) (
              member (codes "status") (str (status_of judgement.classification)) (
                member (codes "classification") (str (class_name judgement.classification)) (
                  member (codes "stage") (str judgement.stage) (
                    member (codes "execution") (get_member (codes "execution") attempt) (
                      member (codes "limits") (get_member (codes "limits") attempt) (
                        member (codes "success_exit_codes")
                          (get_member (codes "success_exit_codes") attempt)
                          (member (codes "child") (object (pick child_keys outcome)) (
                            member (codes "measurements")
                              (get_member (codes "measurements") outcome)
                              (member (codes "streams") (get_member (codes "streams") outcome) (
                                member (codes "error") judgement.error (
                                  member (codes "created_unix_ns") (int world.now)
                                    chain))))))))))))))))

unfoldable pub make_verdict :
    Surroundings → OneShotSpec → Members → Members → Judgement → Checked Json
unfolding verdict_value chain_member validate_verdict
make_verdict world spec attempt outcome judgement = do
  chain ← chain_member spec.chain
  let verdict = verdict_value world (is_chained spec) spec.gate_id attempt outcome judgement chain
  checked ← validate_verdict verdict
  ok verdict

abbrev pub is_written : Option Json → Bool
is_written none = false
is_written (some verdict) = true

-- The steps of `execute` behind its guards: the verdict that is written, and the directory
unfoldable pub run_attempt : Surroundings → PreparedAttempt → Folder → Checked (Json × Folder)
unfolding call_adapter seal_outcome check_tool judge make_verdict
run_attempt world self root = do
  called ← call_adapter world self.spec root
  sealed ← seal_outcome world self.spec called
  let outcome = check_tool world self.attempt sealed.1 sealed.0
  verdict ← make_verdict world self.spec self.attempt outcome (judge world self.spec outcome)
  raise_if (is_written sealed.2.verdict) (violation "verdict exists")
  ok (verdict, record sealed.2 { verdict = some verdict })

-- `execute`, and the attempt and the directory afterwards; of a run that raises only its guards leave
-- the directory as it was, so there its result stands alone.
unfoldable pub execute :
    Surroundings → PreparedAttempt → Folder → PreparedAttempt × Checked (Json × Folder)
execute world self root =
    if self.executed then (self, err (violation "prepared attempt has already executed")) else (
      record self { executed = true },
      (if is_written root.verdict || exists root.stdout || exists root.stderr
          then err (violation "attempt contains prior raw/verdict; retry is forbidden")
          else run_attempt world self root),
    )
