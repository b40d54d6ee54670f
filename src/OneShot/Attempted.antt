-- ===== src/OneShot/Attempted.antt =====
-- `.agents/scripts/one_shot_gate.py`: what a prepared attempt holds.
use mathlib.Core.Path.{subst}
use ring_lang.Common.{
  ◌≡◌, refl, ap, sym, ◌∙◌, Bool, false, not, List, if◌then◌else◌, Text, codes, text_eq, ok,
  >>=-eq-ok, raise_if-eq-ok, not-eq-false,
}
use ring_lang.Common.Int.{ℤ}
use ring_lang.Common.Json.{Json, array, object, Members, get_member, get_member?, is_str}
use ring_lang.OneShot.Values.{
  gate_id_re, attempt_id_re, matches, is_int, is_positive, int_of, is_number, strict_keys, upper,
}
use ring_lang.OneShot.Receipts.{
  Limits, limits_receipt, validate_limits_receipt, check_limits, limit_keys,
}
use ring_lang.OneShot.Execution.{
  validate_attempt, validate_attempt_as, check_attempt, validate_execution_receipt, is_list_of,
  attempt_keys, chained_attempt_keys, attempt_schema, contract_version,
}
use ring_lang.OneShot.Outcome.{members_in}
use ring_lang.OneShot.Spec.{
  OneShotSpec, PreparedAttempt, prepare_attempt, validate_spec, attempt_record, attempt_value,
  is_chained, chain_member,
}
use ring_lang.OneShot.Inversion.{ok-eq, checked-ok, strict_keys-object, validate_attempt-object}
use ring_lang.OneShot.Written.{Attempted}

limits_receipt-members :
    (float_of : ℤ → Text) (limits : Limits) {found : Members}
    → validate_limits_receipt (limits_receipt float_of limits) ≡ ok found
    → members_in (limits_receipt float_of limits) ≡ found
unfolding validate_limits_receipt
limits_receipt-members float_of limits h =
    let (members, keys, rest) =
      >>=-eq-ok (strict_keys (limits_receipt float_of limits) limit_keys) _ h in
    let (done, same) = checked-ok (check_limits members) members rest in
    ap members_in (strict_keys-object (limits_receipt float_of limits) limit_keys keys).0 ∙ same

stdout_cap :
    (float_of : ℤ → Text) (limits : Limits)
    → int_of (get_member (codes "stdout_cap_bytes") (members_in (limits_receipt float_of limits)))
      ≡ int_of limits.stdout_cap_bytes
unfolding limits_receipt get_member get_member? text_eq
stdout_cap float_of limits = refl

stderr_cap :
    (float_of : ℤ → Text) (limits : Limits)
    → int_of (get_member (codes "stderr_cap_bytes") (members_in (limits_receipt float_of limits)))
      ≡ int_of limits.stderr_cap_bytes
unfolding limits_receipt get_member get_member? text_eq
stderr_cap float_of limits = refl

-- The tests of an attempt, for the parts that its verdict takes over
check_attempt-Attempted :
    (chained : Bool) (attempt : Members) (float_of : ℤ → Text) (limits : Limits)
    → get_member (codes "limits") attempt ≡ limits_receipt float_of limits
    → check_attempt chained attempt ≡ ok tt
    → Attempted limits attempt
unfolding check_attempt
check_attempt-Attempted chained attempt float_of limits e h =
    let (a, h1) =
      raise_if-eq-ok (not (is_str (attempt_schema chained) (get_member (codes "schema") attempt))) _
        _ h in
    let (b, h2) =
      raise_if-eq-ok
        (not (is_number (contract_version chained) (get_member (codes "contract_version") attempt)))
        _ _ h1 in
    let (id, h3) =
      raise_if-eq-ok (not (matches attempt_id_re (get_member (codes "attempt_id") attempt))) _ _
        h2 in
    let (gate, h4) =
      raise_if-eq-ok (not (matches gate_id_re (get_member (codes "gate_id") attempt))) _ _ h3 in
    let (c, h5) =
      raise_if-eq-ok (not (is_positive (get_member (codes "created_unix_ns") attempt))) _ _ h4 in
    let (d, h6) =
      raise_if-eq-ok (not (is_str (codes "attempt-created") (get_member (codes "state") attempt))) _
        _ h5 in
    let (execution, run, h7) =
      >>=-eq-ok (validate_execution_receipt (get_member (codes "execution") attempt)) _ h6 in
    let (limited, held, h8) =
      >>=-eq-ok (validate_limits_receipt (get_member (codes "limits") attempt)) _ h7 in
    let (coded, h9) =
      raise_if-eq-ok (not (is_list_of is_int (get_member (codes "success_exit_codes") attempt))) _ _
        h8 in
    let same =
      limits_receipt-members float_of limits
        (subst (λ (v : Json). validate_limits_receipt v ≡ ok limited) e held) in
    record {
      execution = execution;
      limited = limited;
      identified = not-eq-false _ id;
      execution_valid = run;
      limits_valid = held;
      stdout_capped =
          subst
            (λ (m : Members).
              int_of (get_member (codes "stdout_cap_bytes") m) ≡ int_of limits.stdout_cap_bytes)
            same (stdout_cap float_of limits);
      stderr_capped =
          subst
            (λ (m : Members).
              int_of (get_member (codes "stderr_cap_bytes") m) ≡ int_of limits.stderr_cap_bytes)
            same (stderr_cap float_of limits);
      coded = not-eq-false _ coded;
    }

validate_attempt-checked :
    (value : Json) {ms : Members}
    → validate_attempt value ≡ ok ms
    → (chained : Bool) × (check_attempt chained ms ≡ ok tt)
unfolding validate_attempt validate_attempt_as
validate_attempt-checked (object ns) h =
    let chained = is_str (codes "ring.one-shot.attempt.v2") (get_member (codes "schema") ns) in
    let (attempt, keys, rest) =
      >>=-eq-ok (strict_keys (object ns) (if chained then chained_attempt_keys else attempt_keys)) _
        h in
    let (done, same) = checked-ok (check_attempt chained attempt) attempt rest in
    (chained, subst (λ (m : Members). check_attempt chained m ≡ ok tt) same done)
validate_attempt-checked (array xs) h = cc
validate_attempt-checked _ h = cc

attempt_value-limits :
    (chained : Bool) (attempt_id gate_id : Text) (created : ℤ) (execution limits : Json)
    (success_codes : List ℤ) (chain : Members)
    → get_member (codes "limits") (
        members_in
          (attempt_value chained attempt_id gate_id created execution limits success_codes chain))
      ≡ limits
unfolding attempt_value get_member get_member? text_eq
attempt_value-limits chained attempt_id gate_id created execution limits success_codes chain = refl

-- An attempt that can be executed
pub record IsReady (self : PreparedAttempt) : Type 0 where
  pub fresh : self.executed ≡ false
  pub chain : Members
  pub chain_given : chain_member self.spec.chain ≡ ok chain
  pub attempted : Attempted self.spec.limits self.attempt

pub prepare_attempt-IsReady :
    (float_of : ℤ → Text) (is_windows : Bool) (hex : Text) (created : ℤ) (spec : OneShotSpec)
    {self : PreparedAttempt}
    → prepare_attempt float_of is_windows hex created spec ≡ ok self
    → (self.spec ≡ spec) × IsReady self
unfolding prepare_attempt attempt_record validate_spec
prepare_attempt-IsReady float_of is_windows hex created spec h =
    let (execution, accepted, h1) = >>=-eq-ok (validate_spec is_windows spec) _ h in
    let (value, recorded, h2) = >>=-eq-ok (attempt_record float_of spec execution _ created) _ h1 in
    let (attempt, checked, h3) = >>=-eq-ok (validate_attempt value) _ h2 in
    let (chain, given, h4) = >>=-eq-ok (chain_member spec.chain) _ recorded in
    let (chained, tests) = validate_attempt-checked value checked in
    let limits_in = λ (v : Json). get_member (codes "limits") (members_in v) in
    let held : get_member (codes "limits") attempt ≡ limits_receipt float_of spec.limits =
      ap limits_in (sym (validate_attempt-object value checked) ∙ sym (ok-eq h4))
      ∙ attempt_value-limits (is_chained spec) (upper hex) spec.gate_id created execution
          (limits_receipt float_of spec.limits) spec.success_exit_codes chain in
    subst (λ (p : PreparedAttempt). (p.spec ≡ spec) × IsReady p) (ok-eq h3)
      (
        refl,
        record {
          fresh = refl;
          chain = chain;
          chain_given = given;
          attempted = check_attempt-Attempted chained attempt float_of spec.limits held tests;
        },
      )
