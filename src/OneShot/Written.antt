-- ===== src/OneShot/Written.antt =====
-- `.agents/scripts/one_shot_gate.py`: the verdict of a checked outcome passes `_validate_verdict`.
use ring_lang.Common.{
  ◌≡◌, refl, Bool, true, false, not, ◌||◌, List, ◌++◌, Option, none, some, if◌then◌else◌, Text,
  codes, text_eq, any, all, mem_text, ok,
}
use ring_lang.Common.Int.{ℤ}
use ring_lang.Common.Regex.{fullmatch}
use ring_lang.Common.Json.{
  py_str, Json, str, object, Members, member, no_members, get_member, get_member?, is_str,
}
use ring_lang.OneShot.Values.{
  hex_64_re, attempt_id_re, matches, is_text_or_null, is_null, is_int, int_of, truth_of, is_number,
  strict_keys, same_names, names_of,
}
use ring_lang.OneShot.Receipts.{Limits, validate_limits_receipt, validate_chain_receipt}
use ring_lang.OneShot.Execution.{validate_execution_receipt, is_list_of}
use ring_lang.OneShot.Outcome.{
  Classification, success, launch_error, pipe_error, thread_error, infrastructure_error,
  process_limit, memory_limit, timeout, output_limit, child_nonzero, validate_child_receipt,
  validate_streams, child_keys, check_adapter, check_ending, classify_outcome, is_success_code,
  members_in,
}
use ring_lang.OneShot.Verdict.{
  validate_verdict, validate_verdict_as, check_verdict_facts, check_verdict_receipts,
}
use ring_lang.OneShot.Spec.{OneShotSpec}
use ring_lang.OneShot.Run.{
  Surroundings, Judgement, judge, validate_result, after_validator, status_of, verdict_value, pick,
}
use ring_lang.OneShot.Kept.{IsGood}
use ring_lang.OneShot.Ending.{Ending}

child-valid :
    (outcome : Members)
    → check_adapter outcome ≡ ok tt
    → check_ending outcome ≡ ok tt
    → validate_child_receipt (object (pick child_keys outcome)) ≡ ok (pick child_keys outcome)
unfolding validate_child_receipt pick strict_keys same_names names_of any all mem_text text_eq
    get_member get_member?
child-valid outcome a e = rw (a, e)

-- The error of a class is a text, or none.
record Told (p : Classification × Json) : Type 0 where
  pub told : is_text_or_null p.1 ≡ true

if_Told :
    (b : Bool) (class : Classification) (error : Json) (rest : Classification × Json)
    → is_text_or_null error ≡ true
    → Told rest
    → Told (if b then (class, error) else rest)
if_Told true class error rest h k = record { told = h }
if_Told false class error rest h k = k

classify_outcome-Told :
    (outcome : Members) (success_codes : List ℤ)
    → Ending outcome
    → Told (classify_outcome outcome success_codes)
unfolding classify_outcome
classify_outcome-Told outcome success_codes e =
    if_Told (not (is_null (get_member (codes "launch_error") outcome))) launch_error
      (get_member (codes "launch_error") outcome) _ e.launch_error
      (if_Told (not (is_null (get_member (codes "pipe_error") outcome))) pipe_error
        (get_member (codes "pipe_error") outcome) _ e.pipe_error
        (if_Told (not (is_null (get_member (codes "thread_error") outcome))) thread_error
          (get_member (codes "thread_error") outcome) _ e.thread_error
          (if_Told (not (is_null (get_member (codes "infrastructure_error") outcome)))
            infrastructure_error (get_member (codes "infrastructure_error") outcome) _
            e.infrastructure_error
            (if_Told (truth_of (get_member (codes "process_limit_hit") outcome)) process_limit
              (str (codes "active process limit was reached")) _ refl
              (if_Told (truth_of (get_member (codes "memory_limit_hit") outcome)) memory_limit
                (str (codes "job memory limit was reached")) _ refl
                (if_Told (truth_of (get_member (codes "timed_out") outcome)) timeout
                  (str (codes "wall-time limit was reached")) _ refl
                  (if_Told (truth_of (get_member (codes "output_limit_hit") outcome)) output_limit
                    (str (codes "one or more output streams reached their cap")) _ refl
                    (if_Told
                      (not (is_success_code (get_member (codes "exit_code") outcome) success_codes))
                      child_nonzero
                      (str
                        (codes "child exited " ++ py_str (get_member (codes "exit_code") outcome)))
                      _ refl (record { told = refl })))))))))

after_validator-text :
    (raised : Option Text) → is_text_or_null (after_validator raised).error ≡ true
after_validator-text none = refl
after_validator-text (some text) = refl

validate_result-text :
    (validator : Option (Members → Option Text)) (outcome : Members) (class : Classification)
    (error : Json)
    → is_text_or_null error ≡ true
    → is_text_or_null (validate_result validator outcome (class, error)).error ≡ true
validate_result-text none outcome class error h = h
validate_result-text (some validator) outcome success error h =
    after_validator-text (validator outcome)
validate_result-text (some validator) outcome _ error h = h

pub judge-text :
    (world : Surroundings) (spec : OneShotSpec) (outcome : Members)
    → Ending outcome
    → is_text_or_null (judge world spec outcome).error ≡ true
unfolding judge
judge-text world spec outcome e =
    validate_result-text world.validator outcome
      (classify_outcome outcome spec.success_exit_codes).0
      (classify_outcome outcome spec.success_exit_codes).1
      (classify_outcome-Told outcome spec.success_exit_codes e).told

-- The parts of an attempt that its verdict takes over are valid.
pub record Attempted (limits : Limits) (attempt : Members) : Type 0 where
  pub execution : Members
  pub limited : Members
  pub identified : matches attempt_id_re (get_member (codes "attempt_id") attempt) ≡ true
  pub execution_valid :
      validate_execution_receipt (get_member (codes "execution") attempt) ≡ ok execution
  pub limits_valid : validate_limits_receipt (get_member (codes "limits") attempt) ≡ ok limited
  pub stdout_capped :
      int_of (get_member (codes "stdout_cap_bytes") limited) ≡ int_of limits.stdout_cap_bytes
  pub stderr_capped :
      int_of (get_member (codes "stderr_cap_bytes") limited) ≡ int_of limits.stderr_cap_bytes
  pub coded : is_list_of is_int (get_member (codes "success_exit_codes") attempt) ≡ true

status_ok :
    (class : Classification)
    → (is_str (codes "success") (str (status_of class))
        || is_str (codes "failure") (str (status_of class)))
      ≡ true
unfolding is_str text_eq
status_ok success = refl
status_ok _ = refl

module _ (world : Surroundings) (limits : Limits) (gate_id : Text) (attempt outcome : Members)
    (judgement : Judgement) (a : Attempted limits attempt) (g : IsGood limits outcome)
    (hashed : fullmatch hex_64_re world.attempt_sha256 ≡ true)
    (told : is_text_or_null judgement.error ≡ true) where
  streams-valid :
      validate_streams
        (get_member (codes "streams") outcome)
        (int_of (get_member (codes "stdout_cap_bytes") a.limited))
        (int_of (get_member (codes "stderr_cap_bytes") a.limited))
      ≡ ok g.streams
  streams-valid = rw (a.stdout_capped, a.stderr_capped) g.streams_valid

  pub plain-valid :
      validate_verdict (verdict_value world false gate_id attempt outcome judgement no_members)
      ≡ ok (members_in (verdict_value world false gate_id attempt outcome judgement no_members))
  unfolding validate_verdict validate_verdict_as check_verdict_facts check_verdict_receipts
      verdict_value strict_keys same_names names_of any all mem_text text_eq get_member get_member?
      is_str is_number
  plain-valid = rw (
    a.identified,
    hashed,
    status_ok judgement.classification,
    told,
    a.execution_valid,
    a.limits_valid,
    a.coded,
    child-valid outcome g.adapter_valid g.ending_valid,
    g.measured,
    streams-valid,
  )

  pub chained-valid :
      (receipt : Json) {checked : Members}
      → validate_chain_receipt receipt ≡ ok checked
      → validate_verdict (
          verdict_value world true gate_id attempt outcome judgement
            (member (codes "chain") receipt no_members))
        ≡ ok (
            members_in (
              verdict_value world true gate_id attempt outcome judgement
                (member (codes "chain") receipt no_members)))
  unfolding validate_verdict validate_verdict_as check_verdict_facts check_verdict_receipts
      verdict_value strict_keys same_names names_of any all mem_text text_eq get_member get_member?
      is_str is_number
  chained-valid receipt h = rw (
    a.identified,
    hashed,
    status_ok judgement.classification,
    told,
    a.execution_valid,
    a.limits_valid,
    a.coded,
    child-valid outcome g.adapter_valid g.ending_valid,
    g.measured,
    streams-valid,
    h,
  )
