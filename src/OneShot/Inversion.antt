-- ===== src/OneShot/Inversion.antt =====
-- `.agents/scripts/one_shot_gate.py`: what a value is that a validator or a step of the run returns.
use ring_lang.Common.{
  ◌≡◌, refl, ap, sym, ◌∙◌, Bool, true, false, List, [], ◌∷◌, some, if◌then◌else◌, Text, codes,
  text_eq, Result, ok, err, ◌>>◌, >>=-eq-ok, raise_if-eq-ok,
}
use mathlib.Core.Path.{subst}
use ring_lang.Common.Int.{ℤ}
use ring_lang.Common.Json.{Json, array, object, items_of, Members, get_member, get_member?, is_str}
use ring_lang.OneShot.Values.{upper, Failure, violation, Checked, strict_keys, same_names, names_of}
use ring_lang.OneShot.Execution.{
  validate_attempt, validate_attempt_as, check_attempt, chained_attempt_keys, attempt_keys,
}
use ring_lang.OneShot.Outcome.{members_in}
use ring_lang.OneShot.Verdict.{
  validate_verdict, validate_verdict_as, check_verdict_facts, check_verdict_receipts,
  chained_verdict_keys, verdict_keys,
}
use ring_lang.OneShot.Spec.{
  OneShotSpec, PreparedAttempt, prepare_attempt, validate_spec, attempt_record, attempt_value,
  chain_member, is_chained, code_items,
}
use ring_lang.OneShot.Receipts.{limits_receipt}
use ring_lang.OneShot.Execute.{Folder}
use ring_lang.OneShot.Run.{
  Surroundings, Judgement, run_attempt, make_verdict, verdict_value, call_adapter, seal_outcome,
  check_tool, judge, is_written,
}
use ring_lang.OneShot.Audit.{success_codes_of, ints_in}

pub if_ok {ℓ} :
    {A : Type ℓ} (b : Bool) (a : A) (e : Failure) {c : A}
    → ◌≡◌ {A = Result Failure A} (if b then ok a else err e) (ok c)
    → (b ≡ true) × (a ≡ c)
if_ok true a e h = (refl, cc)
if_ok false a e h = cc

pub strict_keys-object :
    (value : Json) (keys : List Text) {ms : Members}
    → strict_keys value keys ≡ ok ms
    → (value ≡ object ms) × (same_names (names_of ms) keys ≡ true)
unfolding strict_keys
strict_keys-object (object ns) keys h =
    let (same, e) = if_ok (same_names (names_of ns) keys) ns (violation "keys differ") h in
    (ap object e, rw (← e) same)
strict_keys-object (array xs) keys h = cc
strict_keys-object _ keys h = cc

-- A check, and a result that was there before.
pub checked-ok {ℓ} :
    {A : Type ℓ} (check : Checked (Unit {0})) (a : A) {c : A}
    → ◌≡◌ {A = Result Failure A} (check >> ok a) (ok c)
    → (check ≡ ok tt) × (a ≡ c)
checked-ok (ok done) a h = (refl, cc)
checked-ok (err e) a h = cc

pub ok-eq {ℓ} : {A : Type ℓ} {a c : A} → ◌≡◌ {A = Result Failure A} (ok a) (ok c) → a ≡ c
ok-eq h = cc

pub validate_attempt-object :
    (value : Json) {ms : Members} → validate_attempt value ≡ ok ms → value ≡ object ms
unfolding validate_attempt validate_attempt_as
validate_attempt-object (object ns) h =
    let chained = is_str (codes "ring.one-shot.attempt.v2") (get_member (codes "schema") ns) in
    let (attempt, keys, rest) =
      >>=-eq-ok (strict_keys (object ns) (if chained then chained_attempt_keys else attempt_keys)) _
        h in
    let (done, same) = checked-ok (check_attempt chained attempt) attempt rest in
    (strict_keys-object (object ns) _ keys).0 ∙ ap object same
validate_attempt-object (array xs) h = cc
validate_attempt-object _ h = cc

success_codes-items :
    (success_codes : List ℤ) → ints_in (items_of (code_items success_codes)) ≡ success_codes
unfolding ints_in items_of code_items
success_codes-items [] = refl
success_codes-items (code ∷ rest) = ap (◌∷◌ code) (success_codes-items rest)

attempt_value-codes :
    (chained : Bool) (attempt_id gate_id : Text) (created : ℤ) (execution limits : Json)
    (success_codes : List ℤ) (chain : Members)
    → success_codes_of (
        get_member (codes "success_exit_codes") (
          members_in (
            attempt_value chained attempt_id gate_id created execution limits success_codes chain)))
      ≡ success_codes
unfolding attempt_value get_member get_member? text_eq success_codes_of
attempt_value-codes chained attempt_id gate_id created execution limits success_codes chain =
    success_codes-items success_codes

-- A prepared attempt has not run, and it records the exit codes of its spec.
pub prepare_attempt-codes :
    (float_of : ℤ → Text) (is_windows : Bool) (hex : Text) (created : ℤ) (spec : OneShotSpec)
    {self : PreparedAttempt}
    → prepare_attempt float_of is_windows hex created spec ≡ ok self
    → (self.executed ≡ false)
      × (self.spec ≡ spec)
      × (success_codes_of (get_member (codes "success_exit_codes") self.attempt)
          ≡ spec.success_exit_codes)
unfolding prepare_attempt attempt_record
prepare_attempt-codes float_of is_windows hex created spec h =
    let (execution, valid, h1) = >>=-eq-ok (validate_spec is_windows spec) _ h in
    let (value, recorded, h2) = >>=-eq-ok (attempt_record float_of spec execution _ created) _ h1 in
    let (attempt, checked, h3) = >>=-eq-ok (validate_attempt value) _ h2 in
    let (chain, given, h4) = >>=-eq-ok (chain_member spec.chain) _ recorded in
    let codes_in =
      λ (v : Json). success_codes_of (get_member (codes "success_exit_codes") (members_in v)) in
    subst
      (λ (p : PreparedAttempt).
        (p.executed ≡ false)
        × (p.spec ≡ spec)
        × (codes_in (object p.attempt) ≡ spec.success_exit_codes))
      (ok-eq h3)
      (
        refl,
        refl,
        ap codes_in (sym (validate_attempt-object value checked) ∙ sym (ok-eq h4))
            ∙ attempt_value-codes (is_chained spec) (upper hex) spec.gate_id created execution
                (limits_receipt float_of spec.limits) spec.success_exit_codes chain,
      )

-- What a run that returns made: an outcome that is judged, the verdict of it, and the directory with it.
pub record Ran (world : Surroundings) (self : PreparedAttempt) (verdict : Json) (after : Folder)
    : Type 0 where
  pub outcome : Members
  pub chain : Members
  pub value :
      verdict
      ≡ verdict_value world
          (is_chained self.spec)
          self.spec.gate_id
          self.attempt
          outcome
          (judge world self.spec outcome)
          chain
  pub accepted : validate_verdict verdict ≡ ok (members_in verdict)
  pub stored : after.verdict ≡ some verdict

pub validate_verdict-object :
    (value : Json) {ms : Members} → validate_verdict value ≡ ok ms → value ≡ object ms
unfolding validate_verdict validate_verdict_as
validate_verdict-object (object ns) h =
    let chained = is_str (codes "ring.one-shot.verdict.v2") (get_member (codes "schema") ns) in
    let (verdict, keys, rest) =
      >>=-eq-ok (strict_keys (object ns) (if chained then chained_verdict_keys else verdict_keys)) _
        h in
    let (facts, found, more) = >>=-eq-ok (check_verdict_facts chained verdict) _ rest in
    let (done, same) = checked-ok (check_verdict_receipts chained verdict) verdict more in
    (strict_keys-object (object ns) _ keys).0 ∙ ap object same
validate_verdict-object (array xs) h = cc
validate_verdict-object _ h = cc

pub make_verdict-value :
    (world : Surroundings) (spec : OneShotSpec) (attempt outcome : Members) (judgement : Judgement)
    {verdict : Json}
    → make_verdict world spec attempt outcome judgement ≡ ok verdict
    → (chain : Members) × (verdict
        ≡ verdict_value world (is_chained spec) spec.gate_id attempt outcome judgement chain)
      × (validate_verdict verdict ≡ ok (members_in verdict))
unfolding make_verdict
make_verdict-value world spec attempt outcome judgement h =
    let (chain, given, h1) = >>=-eq-ok (chain_member spec.chain) _ h in
    let value =
      verdict_value world (is_chained spec) spec.gate_id attempt outcome judgement chain in
    let (checked, valid, h2) = >>=-eq-ok (validate_verdict value) _ h1 in
    let same = ap members_in (validate_verdict-object value valid) in
    (
      chain,
      sym (ok-eq h2),
      subst (λ (v : Json). validate_verdict v ≡ ok (members_in v)) (ok-eq h2)
          (valid ∙ ap ok (sym same)),
    )

pub run_attempt-Ran :
    (world : Surroundings) (self : PreparedAttempt) (root : Folder) {verdict : Json}
    {after : Folder}
    → run_attempt world self root ≡ ok (verdict, after)
    → Ran world self verdict after
unfolding run_attempt
run_attempt-Ran world self root h =
    let (called, h1, r1) = >>=-eq-ok (call_adapter world self.spec root) _ h in
    let (sealed, h2, r2) = >>=-eq-ok (seal_outcome world self.spec called) _ r1 in
    let outcome = check_tool world self.attempt sealed.1 sealed.0 in
    let (verdict, h3, r3) =
      >>=-eq-ok (make_verdict world self.spec self.attempt outcome (judge world self.spec outcome))
        _ r2 in
    let (free, r4) = raise_if-eq-ok (is_written sealed.2.verdict) _ _ r3 in
    let (chain, value, accepted) =
      make_verdict-value world self.spec self.attempt outcome (judge world self.spec outcome) h3 in
    let e = ok-eq r4 in
    subst (λ (p : Json × Folder). Ran world self p.0 p.1) e
      (record {
        outcome = outcome;
        chain = chain;
        value = value;
        accepted = accepted;
        stored = refl;
      })
