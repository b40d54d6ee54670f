-- ===== src/OneShot/Execution.antt =====
-- `.agents/scripts/one_shot_gate.py`: the receipt of what is run, and the attempt that holds it.
use ring_lang.Common.{
  ℕ, suc, Bool, true, false, ◌&&◌, not, List, [], ◌∷◌, ◌++◌, if◌then◌else◌, Text, codes, has,
  is_empty, ok, err, ◌>>=◌, ◌>>◌, raise_if,
}
use ring_lang.Common.Order.{lt_text}
use ring_lang.Common.Json.{
  Json, str, array, object, Items, no_items, item, Members, get_member, is_str,
}
use ring_lang.OneShot.Values.{
  violation, at_entry, Checked, gate_id_re, hex_64_re, attempt_id_re, env_name_re, is_secret_name,
  is_int, is_filled, matches, is_nat, is_positive, is_number, strict_keys,
}
use ring_lang.OneShot.Receipts.{validate_limits_receipt, validate_chain_receipt}

-- `isinstance(part, str) and part and "\x00" not in part`
unfoldable pub is_argument : Json → Bool
unfolding has
is_argument (str s) = not (is_empty s) && not (has 0 s)
is_argument _ = false

unfoldable pub all_items : (Json → Bool) → Items → Bool
all_items test no_items = true
all_items test (item x xs) = test x && all_items test xs

-- A list that is not empty, and each of its items passes.
unfoldable pub is_list_of : (Json → Bool) → Json → Bool
unfolding all_items
is_list_of test (array (item x xs)) = test x && all_items test xs
is_list_of test _ = false

-- `isinstance(value, str) and "\x00" not in value`
unfoldable pub is_env_value : Json → Bool
unfolding has
is_env_value (str s) = not (has 0 s)
is_env_value _ = false

-- The name of an entry that passes
unfoldable pub env_name_of : Json → Checked Text
unfolding is_secret_name
env_name_of (str name) = do
  raise_if (not (matches env_name_re (str name))) (violation "name is invalid")
  raise_if (is_secret_name name) (violation "contains a secret-like name")
  ok name
env_name_of _ = err (violation "name is invalid")

abbrev pub env_entry_keys : List Text
env_entry_keys = codes "name" ∷ codes "value" ∷ []

unfoldable pub validate_env_entry : Json → Checked Text
unfolding strict_keys env_name_of is_env_value get_member
validate_env_entry value = do
  entry ← strict_keys value env_entry_keys
  name ← env_name_of (get_member (codes "name") entry)
  raise_if (not (is_env_value (get_member (codes "value") entry))) (violation "value is invalid")
  ok name

abbrev pub entry_result : ℕ → Checked Text → Checked Text
entry_result index (err e) = err (at_entry index e)
entry_result index (ok name) = ok name

-- The names of the entries from an index on
unfoldable pub env_names : ℕ → Items → Checked (List Text)
unfolding validate_env_entry
env_names index no_items = ok []
env_names index (item x xs) = do
  name ← entry_result index (validate_env_entry x)
  names ← env_names (suc index) xs
  ok (name ∷ names)

-- `names == sorted(set(names))`
unfoldable pub is_unique_sorted : List Text → Bool
unfolding lt_text
is_unique_sorted [] = true
is_unique_sorted (x ∷ []) = true
is_unique_sorted (x ∷ y ∷ xs) = lt_text x y && is_unique_sorted (y ∷ xs)

unfoldable pub validate_env : Json → Checked (Unit {0})
unfolding env_names is_unique_sorted
validate_env (array xs) = do
  names ← env_names 0 xs
  raise_if (not (is_unique_sorted names)) (violation "env names are not unique/sorted")
validate_env _ = err (violation "env is not a list")

abbrev pub execution_keys : List Text
execution_keys = codes "argv" ∷ codes "cwd" ∷ codes "tool" ∷ codes "env" ∷ []

abbrev pub tool_keys : List Text
tool_keys = codes "path" ∷ codes "size" ∷ codes "sha256" ∷ []

unfoldable pub validate_tool : Json → Checked (Unit {0})
unfolding strict_keys get_member
validate_tool value = do
  tool ← strict_keys value tool_keys
  raise_if (not (is_filled (get_member (codes "path") tool))) (violation "tool.path is invalid")
  raise_if (not (is_nat (get_member (codes "size") tool))) (violation "tool.size is invalid")
  raise_if (not (matches hex_64_re (get_member (codes "sha256") tool)))
      (violation "tool.sha256 is invalid")

unfoldable pub validate_execution_receipt : Json → Checked Members
unfolding strict_keys is_list_of is_argument validate_tool validate_env get_member
validate_execution_receipt value = do
  execution ← strict_keys value execution_keys
  raise_if (not (is_list_of is_argument (get_member (codes "argv") execution)))
      (violation "argv is invalid")
  raise_if (not (is_filled (get_member (codes "cwd") execution))) (violation "cwd is invalid")
  validate_tool (get_member (codes "tool") execution)
  validate_env (get_member (codes "env") execution)
  ok execution

abbrev pub attempt_keys : List Text
attempt_keys =
    codes "schema"
    ∷ codes "contract_version"
    ∷ codes "attempt_id"
    ∷ codes "gate_id"
    ∷ codes "created_unix_ns"
    ∷ codes "execution"
    ∷ codes "limits"
    ∷ codes "success_exit_codes"
    ∷ codes "state"
    ∷ []

abbrev pub chained_attempt_keys : List Text
chained_attempt_keys = attempt_keys ++ codes "chain" ∷ []

abbrev pub attempt_schema : Bool → Text
attempt_schema chained =
    if chained then codes "ring.one-shot.attempt.v2" else codes "ring.one-shot.attempt.v1"

abbrev pub contract_version : Bool → ℕ
contract_version chained = if chained then 2 else 1

-- `if chained: _validate_chain_receipt(...)`
abbrev pub check_chain_if : Bool → Json → Checked (Unit {0})
check_chain_if chained chain =
    if chained then (do members ← validate_chain_receipt chain; ok tt) else ok tt

unfoldable pub check_attempt : Bool → Members → Checked (Unit {0})
unfolding get_member is_str is_number is_list_of validate_execution_receipt validate_limits_receipt
    validate_chain_receipt
check_attempt chained attempt = do
  raise_if (not (is_str (attempt_schema chained) (get_member (codes "schema") attempt)))
      (violation "attempt schema mismatch")
  raise_if
      (not (is_number (contract_version chained) (get_member (codes "contract_version") attempt)))
      (violation "attempt contract version mismatch")
  raise_if (not (matches attempt_id_re (get_member (codes "attempt_id") attempt)))
      (violation "attempt_id is invalid")
  raise_if (not (matches gate_id_re (get_member (codes "gate_id") attempt)))
      (violation "attempt gate_id is invalid")
  raise_if (not (is_positive (get_member (codes "created_unix_ns") attempt)))
      (violation "attempt timestamp is invalid")
  raise_if (not (is_str (codes "attempt-created") (get_member (codes "state") attempt)))
      (violation "attempt state mismatch")
  execution ← validate_execution_receipt (get_member (codes "execution") attempt)
  limits ← validate_limits_receipt (get_member (codes "limits") attempt)
  raise_if (not (is_list_of is_int (get_member (codes "success_exit_codes") attempt)))
      (violation "attempt success_exit_codes are invalid")
  check_chain_if chained (get_member (codes "chain") attempt)

unfoldable pub validate_attempt_as : Bool → Json → Checked Members
unfolding strict_keys check_attempt
validate_attempt_as chained value = do
  attempt ← strict_keys value (if chained then chained_attempt_keys else attempt_keys)
  check_attempt chained attempt
  ok attempt

unfoldable pub validate_attempt : Json → Checked Members
unfolding validate_attempt_as get_member is_str
validate_attempt (object ms) =
    validate_attempt_as (is_str (attempt_schema true) (get_member (codes "schema") ms)) (object ms)
validate_attempt _ = err (violation "attempt is not an object")
