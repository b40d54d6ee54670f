-- ===== src/OneShot/Spec.antt =====
-- `.agents/scripts/one_shot_gate.py`: the request of a run, its validation and the attempt that records it.
use ring_lang.Common.{
  ℕ, Bool, true, false, ◌&&◌, ◌||◌, not, List, [], ◌∷◌, Option, none, some, all, has, is_empty, map,
  Text, codes, text_eq, ok, ◌>>=◌, ◌>>◌, raise_if,
}
use ring_lang.Common.Int.{ℤ, pos}
use ring_lang.Common.Dicts.{Dict, dict_get, text_key}
use ring_lang.Common.Json.{
  Json, int, str, array, object, items_of, str_items, Members, no_members, member,
}
use ring_lang.Common.Regex.{fullmatch}
use ring_lang.OneShot.Values.{violation, Checked, gate_id_re, env_name_re, is_secret_name, upper}
use ring_lang.OneShot.Receipts.{
  Limits, validate_limits, validate_platform_support, limits_receipt, AttemptChain, chain_receipt,
}
use ring_lang.OneShot.Execution.{
  is_unique_sorted, attempt_schema, contract_version, validate_attempt,
}

-- What the file system says of a path. Its text is `os.fspath(path)`.
pub record FilePath : Type 0 where
  pub text : Text
  pub is_absolute : Bool
  pub is_dir : Bool
  pub is_file : Bool
  pub is_symlink : Bool
  pub size : ℕ
  pub sha256 : Text

-- The fields have the types that the class declares; `tool` is the path of `argv[0]`, `inventory` what
-- `os.scandir` lists.
pub record OneShotSpec : Type 0 where
  pub evidence_dir : FilePath
  pub inventory : List Text
  pub gate_id : Text
  pub argv : List Text
  pub reviewed_argv : List Text
  pub tool : FilePath
  pub cwd : FilePath
  pub env : Dict Text Text
  pub reviewed_env : Dict Text Text
  pub limits : Limits
  pub success_exit_codes : List ℤ
  pub chain : Option AttemptChain

abbrev pub is_nil {ℓ} : {A : Type ℓ} → List A → Bool
is_nil [] = true
is_nil (x ∷ xs) = false

-- `part and "\x00" not in part`
abbrev pub is_part : Text → Bool
is_part part = not (is_empty part) && not (has 0 part)

unfoldable pub same_texts : List Text → List Text → Bool
unfolding text_eq
same_texts [] [] = true
same_texts (x ∷ xs) (y ∷ ys) = text_eq x y && same_texts xs ys
same_texts _ _ = false

abbrev pub is_value_of : Text → Option Text → Bool
is_value_of value none = false
is_value_of value (some other) = text_eq value other

-- `d == e` of dictionaries, in which no key stands twice: the entries of one are entries of the other
abbrev pub is_entry_of : Dict Text Text → Text × Text → Bool
is_entry_of d entry = is_value_of entry.1 (dict_get entry.0 d)

unfoldable pub same_dict : Dict Text Text → Dict Text Text → Bool
unfolding all dict_get
same_dict d e = all (is_entry_of e) d && all (is_entry_of d) e

abbrev pub names : Dict Text Text → List Text
names d = map (λ entry. entry.0) d

unfoldable pub check_env_entry : Text × Text → Checked (Unit {0})
unfolding is_secret_name fullmatch
check_env_entry (key, value) = do
  raise_if (not (fullmatch env_name_re key)) (violation "environment name is invalid")
  raise_if (is_secret_name key) (violation "secret-like environment name cannot enter a receipt")
  raise_if (has 0 value) (violation "environment value is invalid")

unfoldable pub check_env : Dict Text Text → Checked (Unit {0})
unfolding check_env_entry
check_env [] = ok tt
check_env (entry ∷ env) = let rest = check_env env in do check_env_entry entry; rest

abbrev pub check_spec_chain : Option AttemptChain → Checked (Unit {0})
check_spec_chain none = ok tt
check_spec_chain (some chain) = do receipt ← chain_receipt chain; ok tt

unfoldable pub env_entries : Dict Text Text → List Json
env_entries [] = []
env_entries ((key, value) ∷ env) =
    object (member (codes "name") (str key) (member (codes "value") (str value) no_members))
    ∷ env_entries env

unfoldable pub execution_value : OneShotSpec → Json
unfolding env_entries items_of str_items
execution_value spec = object (
    member (codes "argv") (array (str_items spec.reviewed_argv)) (
      member (codes "cwd") (str spec.cwd.text) (
        member (codes "tool")
          (object (
            member (codes "path") (str spec.tool.text) (
              member (codes "size") (int (pos spec.tool.size))
                (member (codes "sha256") (str spec.tool.sha256) no_members))))
          (member (codes "env") (array (items_of (env_entries spec.reviewed_env))) no_members))))

-- The tests of the directory, the command and its exit codes
unfoldable pub check_request : OneShotSpec → Checked (Unit {0})
unfolding fullmatch all same_texts
check_request spec = do
  raise_if (not (spec.evidence_dir.is_absolute && spec.evidence_dir.is_dir))
      (violation "evidence_dir must be an existing absolute directory")
  raise_if spec.evidence_dir.is_symlink (violation "evidence_dir must not be a symlink")
  raise_if (not (is_nil spec.inventory)) (violation "fresh evidence_dir is not empty")
  raise_if (not (fullmatch gate_id_re spec.gate_id))
      (violation "gate_id has invalid characters or length")
  raise_if (is_nil spec.argv || not (all is_part spec.argv))
      (violation "argv must be non-empty strings without NUL")
  raise_if (not (same_texts spec.argv spec.reviewed_argv))
      (violation "actual argv differs from explicitly reviewed argv")
  raise_if (not (spec.cwd.is_absolute && spec.cwd.is_dir))
      (violation "cwd must be an existing absolute directory")
  raise_if (is_nil spec.success_exit_codes)
      (violation "success_exit_codes must be non-empty integers")

-- `dict(pairs)` of pairs with unique names has the same entries; the receipt's values are those of `env`,
-- which are those of the reviewed pairs.
unfoldable pub check_environment : OneShotSpec → Checked (Unit {0})
unfolding is_unique_sorted same_dict check_env
check_environment spec = do
  raise_if (not (is_unique_sorted (names spec.reviewed_env)))
      (violation "reviewed_env pairs must have unique sorted names")
  raise_if (not (same_dict spec.env spec.reviewed_env))
      (violation "child env differs from the exact reviewed env values")
  check_env spec.env

unfoldable pub validate_spec : Bool → OneShotSpec → Checked Json
unfolding validate_limits validate_platform_support check_request chain_receipt check_environment
    execution_value
validate_spec is_windows spec = do
  validate_limits spec.limits
  validate_platform_support is_windows spec.limits
  check_request spec
  check_spec_chain spec.chain
  check_environment spec
  raise_if (not spec.tool.is_absolute || spec.tool.is_symlink || not spec.tool.is_file)
      (violation "argv[0] must be an absolute regular non-link tool")
  ok (execution_value spec)

abbrev pub is_given : Option AttemptChain → Bool
is_given none = false
is_given (some chain) = true

abbrev pub is_chained : OneShotSpec → Bool
is_chained spec = is_given spec.chain

-- `list(success_exit_codes)`
unfoldable pub code_items : List ℤ → List Json
code_items [] = []
code_items (code ∷ rest) = int code ∷ code_items rest

-- The dictionary of an attempt, with the `chain` member at its end.
unfoldable pub attempt_value : Bool → Text → Text → ℤ → Json → Json → List ℤ → Members → Json
unfolding code_items items_of
attempt_value chained attempt_id gate_id created execution limits success_codes chain = object (
    member (codes "schema") (str (attempt_schema chained)) (
      member (codes "contract_version") (int (pos (contract_version chained))) (
        member (codes "attempt_id") (str attempt_id) (
          member (codes "gate_id") (str gate_id) (
            member (codes "created_unix_ns") (int created) (
              member (codes "execution") execution (
                member (codes "limits") limits (
                  member (codes "success_exit_codes") (array (items_of (code_items success_codes)))
                    (member (codes "state") (str (codes "attempt-created")) chain)))))))))

-- The `chain` member, where the spec has one
unfoldable pub chain_member : Option AttemptChain → Checked Members
unfolding chain_receipt
chain_member none = ok no_members
chain_member (some chain) = do
  receipt ← chain_receipt chain
  ok (member (codes "chain") receipt no_members)

unfoldable pub attempt_record : (ℤ → Text) → OneShotSpec → Json → Text → ℤ → Checked Json
unfolding attempt_value chain_member limits_receipt
attempt_record float_of spec execution attempt_id created = do
  chain ← chain_member spec.chain
  ok (
      attempt_value (is_chained spec) attempt_id spec.gate_id created execution
        (limits_receipt float_of spec.limits) spec.success_exit_codes chain)

pub record PreparedAttempt : Type 0 where
  pub spec : OneShotSpec
  pub attempt : Members
  pub executed : Bool

-- `prepare_attempt`, up to the write of the attempt: of the token `secrets.token_hex(32)` and of the clock.
unfoldable pub prepare_attempt :
    (ℤ → Text) → Bool → Text → ℤ → OneShotSpec → Checked PreparedAttempt
unfolding validate_spec attempt_record validate_attempt upper
prepare_attempt float_of is_windows hex created spec = do
  execution ← validate_spec is_windows spec
  record_ ← attempt_record float_of spec execution (upper hex) created
  attempt ← validate_attempt record_
  ok (record { spec = spec; attempt = attempt; executed = false })
