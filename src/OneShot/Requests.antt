-- ===== src/OneShot/Requests.antt =====
-- `.agents/scripts/one_shot_gate.py`: the parts of an accepted request, and their receipts.
use ring_lang.Common.{
  ℕ, ◌≡◌, refl, Bool, true, false, not, ◌&&◌, ◌||◌, List, [], ◌∷◌, Text, codes, text_eq, any, all,
  mem_text, is_empty, arith, ok, raise_if, raise_if-eq-ok, not-eq-false,
}
use ring_lang.Common.Int.{ℤ, pos}
use ring_lang.Common.Json.{
  int, str, array, object, items_of, member, no_members, get_member, get_member?,
}
use ring_lang.Common.Regex.{fullmatch}
use ring_lang.OneShot.Values.{
  Failure, Checked, strict_keys, same_names, names_of, is_int, gate_id_re, hex_64_re,
}
use ring_lang.OneShot.Execution.{
  validate_execution_receipt, validate_tool, is_list_of, validate_env, all_items,
}
use ring_lang.OneShot.Outcome.{members_in}
use ring_lang.OneShot.Spec.{
  OneShotSpec, check_request, check_environment, code_items, execution_value, env_entries, names,
  same_texts, is_part, is_nil, same_dict,
}
use ring_lang.OneShot.Execution.{is_unique_sorted}
use ring_lang.OneShot.Accepted.{argv-valid, env-valid}

all_items-ints :
    (success_codes : List ℤ) → all_items is_int (items_of (code_items success_codes)) ≡ true
unfolding all_items items_of code_items
all_items-ints [] = refl
all_items-ints (code ∷ rest) = all_items-ints rest

pub exit_codes-valid :
    (success_codes : List ℤ)
    → is_nil success_codes ≡ false
    → is_list_of is_int (array (items_of (code_items success_codes))) ≡ true
unfolding is_list_of all_items items_of code_items
exit_codes-valid [] h = cc
exit_codes-valid (code ∷ rest) h = all_items-ints rest

-- The tests that an accepted request passed.
pub record Request (spec : OneShotSpec) : Type 0 where
  pub named : fullmatch gate_id_re spec.gate_id ≡ true
  pub arguments : (is_nil spec.argv || not (all is_part spec.argv)) ≡ false
  pub reviewed : same_texts spec.argv spec.reviewed_argv ≡ true
  pub coded : is_nil spec.success_exit_codes ≡ false

pub only : (done : Unit {0}) → ◌≡◌ {A = Checked (Unit {0})} (ok done) (ok tt)
only tt = refl

untested : (b : Bool) (e : Failure) → raise_if b e ≡ ok tt → b ≡ false
untested true e h = cc
untested false e h = refl

pub check_request-Request : (spec : OneShotSpec) → check_request spec ≡ ok tt → Request spec
unfolding check_request
check_request-Request spec h =
    let (a, h1) =
      raise_if-eq-ok (not (spec.evidence_dir.is_absolute && spec.evidence_dir.is_dir)) _ _ h in
    let (b, h2) = raise_if-eq-ok spec.evidence_dir.is_symlink _ _ h1 in
    let (c, h3) = raise_if-eq-ok (not (is_nil spec.inventory)) _ _ h2 in
    let (d, h4) = raise_if-eq-ok (not (fullmatch gate_id_re spec.gate_id)) _ _ h3 in
    let (e, h5) = raise_if-eq-ok (is_nil spec.argv || not (all is_part spec.argv)) _ _ h4 in
    let (f, h6) = raise_if-eq-ok (not (same_texts spec.argv spec.reviewed_argv)) _ _ h5 in
    let (g, h7) = raise_if-eq-ok (not (spec.cwd.is_absolute && spec.cwd.is_dir)) _ _ h6 in
    record {
      named = not-eq-false _ d;
      arguments = e;
      reviewed = not-eq-false _ f;
      coded = untested (is_nil spec.success_exit_codes) _ h7;
    }

pub check_environment-valid :
    (spec : OneShotSpec)
    → check_environment spec ≡ ok tt
    → validate_env (array (items_of (env_entries spec.reviewed_env))) ≡ ok tt
unfolding check_environment
check_environment-valid spec h =
    let (a, h1) = raise_if-eq-ok (not (is_unique_sorted (names spec.reviewed_env))) _ _ h in
    let (b, h2) = raise_if-eq-ok (not (same_dict spec.env spec.reviewed_env)) _ _ h1 in
    env-valid spec.env spec.reviewed_env (not-eq-false _ a) (not-eq-false _ b) h2

tool-valid :
    (path : Text) (size : ℕ) (sha256 : Text)
    → is_empty path ≡ false
    → fullmatch hex_64_re sha256 ≡ true
    → validate_tool (
        object (
          member (codes "path") (str path) (
            member
              (codes "size")
              (int (pos size))
              (member (codes "sha256") (str sha256) no_members))))
      ≡ ok tt
unfolding validate_tool strict_keys same_names names_of any all mem_text text_eq get_member
    get_member?
tool-valid path size sha256 h k = ground arith

pub execution_value-valid :
    (spec : OneShotSpec)
    → Request spec
    → is_empty spec.tool.text ≡ false
    → is_empty spec.cwd.text ≡ false
    → fullmatch hex_64_re spec.tool.sha256 ≡ true
    → check_environment spec ≡ ok tt
    → validate_execution_receipt (execution_value spec) ≡ ok (members_in (execution_value spec))
unfolding validate_execution_receipt execution_value strict_keys same_names names_of any all
    mem_text text_eq get_member get_member?
execution_value-valid spec request t c hex env = rw (
  argv-valid spec.argv spec.reviewed_argv request.arguments request.reviewed,
  c,
  tool-valid spec.tool.text spec.tool.size spec.tool.sha256 t hex,
  check_environment-valid spec env,
)
