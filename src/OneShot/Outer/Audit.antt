-- ===== src/OneShot/Outer/Audit.antt =====
-- `.agents/scripts/one_shot_gate.py`: `audit_outer`, of what stands in the directory of an outer transaction.
use ring_lang.Common.{
  ℕ, Bool, true, false, ◌&&◌, not, List, [], ◌∷◌, if◌then◌else◌, ◌==◌, Text, codes, is_empty, ok,
  err, ◌>>=◌, ◌>>◌, raise_if, suc,
}
use ring_lang.Common.Int.{pos, ltb_ℤ, int_eq}
use ring_lang.Common.Json.{
  Json, null, bool, int, float, str, array, object, Items, no_items, item, items_of, Members,
  no_members, member, get_member, is_str,
}
use ring_lang.OneShot.Values.{
  Failure, violation, attribute_error, Checked, is_null, is_int, is_object, int_of, strict_keys,
}
use ring_lang.OneShot.Execution.{attempt_schema}
use ring_lang.OneShot.Streams.{min_size}
use ring_lang.OneShot.Outcome.{members_in, get_inner}
use ring_lang.OneShot.Verdict.{verdict_schema}
use ring_lang.OneShot.Equal.{same_json, is_zero_float}
use ring_lang.OneShot.Execute.{Entry, absent, irregular, regular}
use ring_lang.OneShot.Evidence.{
  StoredJson, missing, not_regular, stored, Evidence, Audit, AuditState, nothing, incomplete,
  complete, crashed,
}
use ring_lang.OneShot.Outer.{Platform}

abbrev pub outer_verdict_keys : List Text
outer_verdict_keys =
    codes "schema"
    ∷ codes "contract_version"
    ∷ codes "attempt_id"
    ∷ codes "attempt_sha256"
    ∷ codes "plan_sha256"
    ∷ codes "status"
    ∷ codes "classification"
    ∷ codes "stage"
    ∷ codes "error"
    ∷ codes "identities"
    ∷ codes "cleanup_handshakes"
    ∷ codes "inner"
    ∷ codes "measurements"
    ∷ codes "streams"
    ∷ codes "created_unix_ns"
    ∷ []

abbrev pub outer_stream_keys : List Text
outer_stream_keys =
    codes "path"
    ∷ codes "captured_size"
    ∷ codes "bytes_seen"
    ∷ codes "cap_bytes"
    ∷ codes "truncated_at_cap"
    ∷ codes "sha256"
    ∷ codes "fsynced"
    ∷ []

abbrev pub inner_keys : List Text
inner_keys =
    codes "evidence_dir"
    ∷ codes "attempt"
    ∷ codes "verdict"
    ∷ codes "stdout"
    ∷ codes "stderr"
    ∷ codes "audit"
    ∷ codes "audit_sha256"
    ∷ []

-- The directory of the transaction. The inner directory is `inner`, its path `inner_text`; the sizes are those
-- of its attempt and its verdict.
pub record OuterEvidence : Type 0 where
  pub attempt : StoredJson
  pub verdict : StoredJson
  pub stdout : Entry
  pub stderr : Entry
  pub inventory : List Text
  pub inner : Evidence
  pub inner_text : Text
  pub attempt_size : ℕ
  pub verdict_size : ℕ
  -- `str(exc)`
  pub message : Failure → Text

-- The file at a path that should hold a document
abbrev pub file_of : StoredJson → ℕ → Entry
file_of missing size = absent
file_of not_regular size = irregular
file_of (stored loaded sha256) size = regular size sha256 true

-- `bool(x)` of a value
unfoldable pub is_truthy : Json → Bool
is_truthy null = false
is_truthy (bool b) = b
is_truthy (int n) = not (int_eq n (pos 0))
is_truthy (float s) = not (is_zero_float s)
is_truthy (str s) = not (is_empty s)
is_truthy (array no_items) = false
is_truthy (object no_members) = false
is_truthy _ = true

unfoldable pub count_items : Items → ℕ
count_items no_items = 0
count_items (item x xs) = suc (count_items xs)

-- `len(x) == 1`; a value with no length raises a `TypeError`, which is refused as well
unfoldable pub is_single : Json → Bool
unfolding count_items
is_single (array xs) = count_items xs == 1
is_single (str (c ∷ [])) = true
is_single (object (member name x no_members)) = true
is_single _ = false

-- `_outer_file_receipt`
unfoldable pub outer_file_receipt : Text → Entry → Json
outer_file_receipt name (regular size sha256 syncs) = object (
    member (codes "path") (str name)
      (member (codes "size") (int (pos size)) (member (codes "sha256") (str sha256) no_members)))
outer_file_receipt name _ = null

abbrev pub state_name : AuditState → Text
state_name nothing = codes "absent"
state_name incomplete = codes "incomplete"
state_name complete = codes "complete"
state_name crashed = []

unfoldable pub error_items : (Failure → Text) → List Failure → List Json
error_items message [] = []
error_items message (e ∷ errors) = str (message e) ∷ error_items message errors

-- The dictionary that `audit_attempt` returns
unfoldable pub audit_value : Text → (Failure → Text) → Audit → Json
unfolding error_items items_of
audit_value evidence_dir message a = object (
    member (codes "schema") (str (codes "ring.one-shot.audit.v1")) (
      member (codes "contract_version") (int (pos 1)) (
        member (codes "evidence_dir") (str evidence_dir) (
          member (codes "consumed") (bool a.consumed) (
            member (codes "state") (str (state_name a.state)) (
              member (codes "status") a.status (
                member (codes "classification") a.classification (
                  member (codes "errors") (array (items_of (error_items message a.errors)))
                    no_members))))))))

-- `value.get(key)`, of a value that was read
abbrev pub members_or : Json → Checked Members
members_or (object ms) = ok ms
members_or _ = err attribute_error

-- `_load_json` of a path
abbrev pub loaded_in : StoredJson → Checked Json
loaded_in (stored loaded sha256) = loaded
loaded_in _ = err (violation "cannot read JSON")

module _ (platform : Platform) where
  abbrev pub equal : Json → Json → Bool
  equal x y = same_json platform.float_is x y

  -- The record of an outer stream, and its file
  unfoldable pub is_outer_record : Text → Json → Entry → Members → Bool
  unfolding get_member is_str same_json is_truthy
  is_outer_record name outer_cap (regular size sha256 syncs) record_ =
      is_str name (get_member (codes "path") record_)
      && equal (get_member (codes "captured_size") record_) (int (pos size))
      && is_str sha256 (get_member (codes "sha256") record_)
      && is_truthy (get_member (codes "fsynced") record_)
      && equal (get_member (codes "cap_bytes") record_) outer_cap
      && is_int (get_member (codes "bytes_seen") record_)
      && not (ltb_ℤ (int_of (get_member (codes "bytes_seen") record_)) (pos size))
      && int_eq (pos size)
          (min_size (int_of (get_member (codes "bytes_seen") record_)) (int_of outer_cap))
      && equal (get_member (codes "truncated_at_cap") record_)
          (bool (ltb_ℤ (int_of outer_cap) (int_of (get_member (codes "bytes_seen") record_))))
  is_outer_record name outer_cap _ record_ = false

  unfoldable pub check_outer_stream : Text → Json → Entry → Json → Checked (Unit {0})
  unfolding strict_keys is_outer_record
  check_outer_stream name outer_cap entry value = do
    record_ ← strict_keys value outer_stream_keys
    raise_if (not (is_outer_record name outer_cap entry record_))
        (violation "raw identity mismatch")

  -- The chain that an inner attempt must have
  unfoldable pub is_chain_of : Members → Text → Members → Bool
  unfolding get_member is_str get_inner same_json
  is_chain_of attempt attempt_sha256 inner_attempt =
      is_str (attempt_schema true) (get_member (codes "schema") inner_attempt)
      && is_object (get_member (codes "chain") inner_attempt)
      && equal (get_inner (codes "chain") (codes "outer_attempt_id") inner_attempt)
          (get_member (codes "attempt_id") attempt)
      && is_str attempt_sha256
          (get_inner (codes "chain") (codes "outer_attempt_sha256") inner_attempt)
      && equal (get_inner (codes "chain") (codes "plan_sha256") inner_attempt) (
          get_member (codes "sha256")
            (members_in (get_inner (codes "delivery") (codes "plan") attempt)))

  unfoldable pub check_inner_verdict : OuterEvidence → Json → Json → Checked (Unit {0})
  unfolding get_member is_str same_json
  check_inner_verdict e receipt chain = if is_null receipt then ok tt else do
    loaded ← loaded_in e.inner.verdict
    inner_verdict ← members_or loaded
    raise_if
        (not (
          is_str (verdict_schema true) (get_member (codes "schema") inner_verdict)
          && equal (get_member (codes "chain") inner_verdict) chain))
        (violation "inner attempt/verdict chain mismatch")

  unfoldable pub check_inner_attempt : OuterEvidence → Members → Text → Members → Checked (Unit {0})
  unfolding get_member is_chain_of check_inner_verdict
  check_inner_attempt e attempt attempt_sha256 inner =
      if is_null (get_member (codes "attempt") inner) then ok tt else do
        loaded ← loaded_in e.inner.attempt
        inner_attempt ← members_or loaded
        raise_if (not (is_chain_of attempt attempt_sha256 inner_attempt))
            (violation "inner attempt chain mismatch")
        check_inner_verdict e (get_member (codes "verdict") inner)
            (get_member (codes "chain") inner_attempt)
