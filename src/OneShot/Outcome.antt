-- ===== src/OneShot/Outcome.antt =====
-- `.agents/scripts/one_shot_gate.py`: what an adapter reports of a child, and its class.
use ring_lang.Common.{
  Bool, true, false, ◌&&◌, ◌||◌, not, List, [], ◌∷◌, ◌++◌, if◌then◌else◌, any, Text, codes, ok,
  ◌>>=◌, ◌>>◌, raise_if,
}
use ring_lang.Common.Int.{ℤ, int_eq}
use ring_lang.Common.Json.{
  Json, null, int, float, str, array, object, Items, no_items, item, Members, no_members, member,
  get_member, is_str, py_str,
}
use ring_lang.OneShot.Values.{
  violation, under, Checked, is_null, is_bool, is_int, is_object, is_filled, is_finite_float,
  is_text_or_null, int_of, truth_of, each, strict_keys,
}
use ring_lang.OneShot.Receipts.{Limits, or_null}
use ring_lang.OneShot.Streams.{validate_stream_record, stdout_name, stderr_name}

-- `_json_safe`: every other value of this type is safe, and every name is a `str`
unfoldable mutual
  pub json_safe : Json → Bool
  json_safe (float s) = is_finite_float s
  json_safe (array xs) = items_safe xs
  json_safe (object ms) = members_safe ms
  json_safe _ = true

  pub items_safe : Items → Bool
  items_safe no_items = true
  items_safe (item x xs) = json_safe x && items_safe xs

  pub members_safe : Members → Bool
  members_safe no_members = true
  members_safe (member name x ms) = json_safe x && members_safe ms

abbrev pub flag_keys : List Text
flag_keys =
    codes "timed_out"
    ∷ codes "memory_limit_hit"
    ∷ codes "process_limit_hit"
    ∷ codes "output_limit_hit"
    ∷ []

abbrev pub error_keys : List Text
error_keys =
    codes "launch_error"
    ∷ codes "pipe_error"
    ∷ codes "thread_error"
    ∷ codes "infrastructure_error"
    ∷ []

-- `OUTCOME_KEYS` and `CHILD_KEYS`
abbrev pub outcome_keys : List Text
outcome_keys =
    codes "adapter" ∷ codes "support" ∷ codes "stage" ∷ codes "exit_code" ∷ flag_keys
    ++ (error_keys ++ codes "measurements" ∷ codes "streams" ∷ [])

abbrev pub child_keys : List Text
child_keys = codes "adapter" ∷ codes "support" ∷ codes "exit_code" ∷ flag_keys ++ error_keys

abbrev pub support_keys : List Text
support_keys = codes "wall" ∷ codes "output" ∷ codes "job_memory" ∷ codes "active_process" ∷ []

abbrev pub streams_keys : List Text
streams_keys = codes "stdout" ∷ codes "stderr" ∷ []

unfoldable pub all_values : (Json → Bool) → Members → Bool
all_values test no_members = true
all_values test (member name x ms) = test x && all_values test ms

unfoldable pub check_adapter : Members → Checked (Unit {0})
unfolding strict_keys all_values get_member
check_adapter outcome = do
  raise_if (not (is_filled (get_member (codes "adapter") outcome))) (violation "adapter is invalid")
  support ← strict_keys (get_member (codes "support") outcome) support_keys
  raise_if (not (all_values is_filled support)) (violation "support has invalid values")

-- The exit code, the flags and the errors of a child
unfoldable pub check_ending : Members → Checked (Unit {0})
unfolding each get_member
check_ending child = do
  raise_if (not (or_null is_int (get_member (codes "exit_code") child)))
      (violation "exit_code is invalid")
  each flag_keys λ key.
      raise_if (not (is_bool (get_member key child))) (under key (violation "is not boolean"))
  each error_keys λ key.
      raise_if (not (is_text_or_null (get_member key child))) (under key (violation "is invalid"))

unfoldable pub validate_child_receipt : Json → Checked Members
unfolding strict_keys check_adapter check_ending
validate_child_receipt value = do
  child ← strict_keys value child_keys
  check_adapter child
  check_ending child
  ok child

-- Both streams of an outcome or a verdict, with their caps; they must have been flushed.
unfoldable pub validate_streams : Json → ℤ → ℤ → Checked Members
unfolding strict_keys get_member validate_stream_record
validate_streams value stdout_cap stderr_cap = do
  streams ← strict_keys value streams_keys
  stdout ← validate_stream_record (get_member (codes "stdout") streams) stdout_name stdout_cap
  stderr ← validate_stream_record (get_member (codes "stderr") streams) stderr_name stderr_cap
  raise_if
      (not (
        truth_of (get_member (codes "fsynced") stdout)
        && truth_of (get_member (codes "fsynced") stderr)))
      (violation "raw streams were not fsynced")
  ok streams

abbrev pub members_in : Json → Members
members_in (object ms) = ms
members_in _ = no_members

-- `value["a"]["b"]`
unfoldable pub get_inner : Text → Text → Members → Json
unfolding get_member
get_inner outer inner ms = get_member inner (members_in (get_member outer ms))

-- `stdout["truncated_at_cap"] or stderr["truncated_at_cap"]`
unfoldable pub some_truncated : Members → Bool
unfolding get_inner
some_truncated streams =
    truth_of (get_inner (codes "stdout") (codes "truncated_at_cap") streams)
    || truth_of (get_inner (codes "stderr") (codes "truncated_at_cap") streams)

abbrev same_truth : Bool → Bool → Bool
same_truth a b = if a then b else not b

unfoldable pub validate_adapter_outcome : Json → Limits → Checked Members
unfolding strict_keys check_adapter check_ending validate_streams some_truncated json_safe
    get_member is_str
validate_adapter_outcome value limits = do
  outcome ← strict_keys value outcome_keys
  check_adapter outcome
  raise_if (not (is_str (codes "child-sealed") (get_member (codes "stage") outcome)))
      (violation "adapter did not seal the child evidence")
  check_ending outcome
  raise_if (not (is_object (get_member (codes "measurements") outcome)))
      (violation "adapter measurements are not an object")
  streams ←
      validate_streams (get_member (codes "streams") outcome) (int_of limits.stdout_cap_bytes)
        (int_of limits.stderr_cap_bytes)
  raise_if
      (not (
        same_truth (truth_of (get_member (codes "output_limit_hit") outcome))
          (some_truncated streams)))
      (violation "adapter output-limit classification mismatches raw streams")
  raise_if (not (json_safe (get_member (codes "measurements") outcome)))
      (violation "adapter.measurements")
  ok outcome

-- The classes of an outcome. `schema_error` is given by `execute` only.
pub data Classification : Type 0 where
  launch_error pipe_error thread_error infrastructure_error process_limit memory_limit timeout :
      Classification
  output_limit child_nonzero schema_error success : Classification

-- `code in success_codes`, where `None` is in no list of integers
unfoldable pub is_success_code : Json → List ℤ → Bool
unfolding any
is_success_code (int code) success_codes = any (int_eq code) success_codes
is_success_code _ success_codes = false

unfoldable pub classify_outcome : Members → List ℤ → Classification × Json
unfolding is_success_code get_member
classify_outcome outcome success_codes =
    if not (is_null (get_member (codes "launch_error") outcome))
    then (launch_error, get_member (codes "launch_error") outcome)
    else if not (is_null (get_member (codes "pipe_error") outcome))
    then (pipe_error, get_member (codes "pipe_error") outcome)
    else if not (is_null (get_member (codes "thread_error") outcome))
    then (thread_error, get_member (codes "thread_error") outcome)
    else if not (is_null (get_member (codes "infrastructure_error") outcome))
    then (infrastructure_error, get_member (codes "infrastructure_error") outcome)
    else if truth_of (get_member (codes "process_limit_hit") outcome)
    then (process_limit, str (codes "active process limit was reached"))
    else if truth_of (get_member (codes "memory_limit_hit") outcome)
    then (memory_limit, str (codes "job memory limit was reached"))
    else if truth_of (get_member (codes "timed_out") outcome)
    then (timeout, str (codes "wall-time limit was reached"))
    else if truth_of (get_member (codes "output_limit_hit") outcome)
    then (output_limit, str (codes "one or more output streams reached their cap"))
    else if not (is_success_code (get_member (codes "exit_code") outcome) success_codes)
    then (
      child_nonzero,
      str (codes "child exited " ++ py_str (get_member (codes "exit_code") outcome)),
    )
    else (success, null)
