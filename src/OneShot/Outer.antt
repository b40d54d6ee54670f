-- ===== src/OneShot/Outer.antt =====
-- `.agents/scripts/one_shot_gate.py`: the outer transaction around a chained attempt: its attempt.
pub mod Audit
pub mod Check
pub mod Inversion
pub mod Success
pub mod Tests
pub mod Inner
use ring_lang.Common.{
  ℕ, suc, Bool, true, false, ◌&&◌, ◌||◌, not, List, [], ◌∷◌, ◌++◌, Option, none, some,
  if◌then◌else◌, Text, codes, text_eq, ok, err, ◌>>=◌, ◌>>◌, raise_if,
}
use ring_lang.Common.Int.{ℤ, pos}
use ring_lang.Common.Json.{
  Json, bool, int, str, array, Items, no_items, item, str_items, Members, get_member, is_str,
}
use ring_lang.OneShot.Values.{
  violation, at_entry, Checked, attempt_id_re, hex_64_re, is_int, is_text, matches, is_nat,
  is_positive, is_number, strict_keys,
}
use ring_lang.OneShot.Receipts.{check_wall_seconds}
use ring_lang.OneShot.Execution.{is_unique_sorted, env_entry_keys, tool_keys, entry_result}
use ring_lang.OneShot.Outcome.{members_in, get_inner}
use ring_lang.OneShot.Equal.{same_json}

-- What the code takes from elsewhere: `Path(...).is_absolute()`, the hash of the canonical bytes of a JSON
-- value, and whether the float with some `repr` is an integer.
pub record Platform : Type 0 where
  pub is_absolute : Text → Bool
  pub json_sha256 : Json → Text
  pub float_is : Text → ℤ → Bool

abbrev pub outer_attempt_keys : List Text
outer_attempt_keys =
    codes "schema"
    ∷ codes "contract_version"
    ∷ codes "attempt_id"
    ∷ codes "created_unix_ns"
    ∷ codes "state"
    ∷ codes "evidence_root"
    ∷ codes "delivery"
    ∷ codes "observed"
    ∷ []

abbrev pub delivery_keys : List Text
delivery_keys =
    codes "required_interpreter_flags"
    ∷ codes "python"
    ∷ codes "entry"
    ∷ codes "plan"
    ∷ codes "cwd"
    ∷ codes "env"
    ∷ codes "env_sha256"
    ∷ codes "limits"
    ∷ []

abbrev pub observed_keys : List Text
observed_keys =
    codes "python_path"
    ∷ codes "python_version"
    ∷ codes "python_implementation"
    ∷ codes "entry_path"
    ∷ codes "isolated"
    ∷ codes "no_site"
    ∷ codes "dont_write_bytecode"
    ∷ codes "stdout_write_through"
    ∷ codes "stderr_write_through"
    ∷ codes "argv"
    ∷ []

abbrev pub outer_limit_keys : List Text
outer_limit_keys = codes "wall_seconds" ∷ codes "output_cap_bytes" ∷ []

abbrev pub interpreter_flags : List Text
interpreter_flags = codes "-I" ∷ codes "-S" ∷ codes "-B" ∷ codes "-u" ∷ []

abbrev pub is_true : Json → Bool
is_true (bool b) = b
is_true _ = false

abbrev pub is_list : Json → Bool
is_list (array xs) = true
is_list _ = false

abbrev pub text_in : Json → Text
text_in (str s) = s
text_in _ = []

-- The label of an entry
abbrev at_index : ℕ → Checked Members → Checked Members
at_index index (err e) = err (at_entry index e)
at_index index (ok entry) = ok entry

-- The names of the entries of an environment, from an index on
unfoldable pub outer_env_names : ℕ → Items → Checked (List Text)
unfolding strict_keys get_member
outer_env_names index no_items = ok []
outer_env_names index (item x xs) = do
  entry ← at_index index (strict_keys x env_entry_keys)
  raise_if
      (not
        (is_text (get_member (codes "name") entry) && is_text (get_member (codes "value") entry)))
      (violation "outer environment entry is invalid")
  names ← outer_env_names (suc index) xs
  ok (text_in (get_member (codes "name") entry) ∷ names)

module _ (platform : Platform) where
  -- `isinstance(x, str) and Path(x).is_absolute()`
  abbrev pub is_absolute_path : Json → Bool
  is_absolute_path (str s) = platform.is_absolute s
  is_absolute_path _ = false

  -- One of the files of the delivery
  unfoldable pub check_identity : List Text → Json → Checked (Unit {0})
  unfolding strict_keys get_member
  check_identity keys value = do
    identity ← strict_keys value keys
    raise_if
        (not (
          is_absolute_path (get_member (codes "path") identity)
          && is_nat (get_member (codes "size") identity)
          && matches hex_64_re (get_member (codes "sha256") identity)))
        (violation "identity is invalid")

  unfoldable pub check_outer_env : Json → Json → Checked (Unit {0})
  unfolding is_str outer_env_names is_unique_sorted
  check_outer_env (array xs) sha256 = do
    raise_if (not (is_str (platform.json_sha256 (array xs)) sha256))
        (violation "outer environment identity is invalid")
    names ← outer_env_names 0 xs
    raise_if (not (is_unique_sorted names))
        (violation "outer environment names are not unique/sorted")
  check_outer_env _ sha256 = err (violation "outer environment identity is invalid")

  unfoldable pub check_outer_limits : Json → Checked (Unit {0})
  unfolding strict_keys check_wall_seconds get_member
  check_outer_limits value = do
    limits ← strict_keys value outer_limit_keys
    check_wall_seconds (violation "outer wall/output limits are invalid")
        (get_member (codes "wall_seconds") limits)
    raise_if (not (is_positive (get_member (codes "output_cap_bytes") limits)))
        (violation "outer wall/output limits are invalid")

  unfoldable pub check_delivery : Members → Checked (Unit {0})
  unfolding get_member same_json check_outer_limits check_identity check_outer_env
  check_delivery delivery = do
    raise_if
        (not (
          same_json platform.float_is (get_member (codes "required_interpreter_flags") delivery)
            (array (str_items interpreter_flags))))
        (violation "outer interpreter flags mismatch")
    check_outer_limits (get_member (codes "limits") delivery)
    check_identity (tool_keys ++ codes "version" ∷ []) (get_member (codes "python") delivery)
    check_identity tool_keys (get_member (codes "entry") delivery)
    check_identity tool_keys (get_member (codes "plan") delivery)
    check_outer_env (get_member (codes "env") delivery) (get_member (codes "env_sha256") delivery)

  -- The identity of the outer attempt
  unfoldable pub is_outer_identity : Members → Bool
  unfolding get_member is_str is_number
  is_outer_identity attempt =
      is_str (codes "ring.one-shot.outer-attempt.v1") (get_member (codes "schema") attempt)
      && is_number 1 (get_member (codes "contract_version") attempt)
      && matches attempt_id_re (get_member (codes "attempt_id") attempt)
      && is_str (codes "attempt-created") (get_member (codes "state") attempt)
      && is_int (get_member (codes "created_unix_ns") attempt)
      && is_absolute_path (get_member (codes "evidence_root") attempt)

  -- What the interpreter observed of itself is what was delivered.
  unfoldable pub is_observed : Members → Members → Bool
  unfolding get_member get_inner same_json is_str is_number
  is_observed delivery observed =
      same_json platform.float_is (get_member (codes "python_path") observed)
        (get_inner (codes "python") (codes "path") delivery)
      && same_json platform.float_is (get_member (codes "entry_path") observed)
          (get_inner (codes "entry") (codes "path") delivery)
      && same_json platform.float_is (get_member (codes "python_version") observed)
          (get_inner (codes "python") (codes "version") delivery)
      && is_str (codes "cpython") (get_member (codes "python_implementation") observed)
      && is_number 1 (get_member (codes "isolated") observed)
      && is_number 1 (get_member (codes "no_site") observed)
      && is_number 1 (get_member (codes "dont_write_bytecode") observed)
      && is_true (get_member (codes "stdout_write_through") observed)
      && is_true (get_member (codes "stderr_write_through") observed)
      && is_list (get_member (codes "argv") observed)

  unfoldable pub validate_outer_attempt : Json → Checked Members
  unfolding strict_keys is_outer_identity check_delivery is_observed get_member
  validate_outer_attempt value = do
    attempt ← strict_keys value outer_attempt_keys
    raise_if (not (is_outer_identity attempt)) (violation "outer attempt identity is invalid")
    delivery ← strict_keys (get_member (codes "delivery") attempt) delivery_keys
    check_delivery delivery
    observed ← strict_keys (get_member (codes "observed") attempt) observed_keys
    raise_if (not (is_observed delivery observed))
        (violation "outer observed trust-root identity is invalid")
    ok attempt
