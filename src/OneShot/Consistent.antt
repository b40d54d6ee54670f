-- ===== src/OneShot/Consistent.antt =====
-- `.agents/scripts/one_shot_gate.py`: what `execute` writes agrees with what `audit_attempt` asks of it.
use ring_lang.Common.{
  ◌≡◌, refl, sym, ◌∙◌, inl, inr, Bool, true, false, not, List, [], ◌++◌, Option, none, some,
  if◌then◌else◌, Text, codes, text_eq, Bool-cases,
}
use ring_lang.Common.Int.{ℤ}
use ring_lang.Common.Json.{Json, str, Members, get_member, get_member?, is_str, py_str}
use ring_lang.OneShot.Values.{is_null, truth_of}
use ring_lang.OneShot.Outcome.{
  Classification, launch_error, pipe_error, thread_error, infrastructure_error, process_limit,
  memory_limit, timeout, output_limit, child_nonzero, schema_error, success, classify_outcome,
  is_success_code, child_keys,
}
use ring_lang.OneShot.Run.{
  after_validator, Judgement, validate_result, judge, class_name, is_success, status_of, pick,
  Surroundings,
}
use ring_lang.OneShot.Spec.{OneShotSpec}
use ring_lang.OneShot.Audit.{class_errors, status_errors}

-- The child's receipt has the class of the outcome that it is made of.
pub classify_outcome-pick :
    (outcome : Members) (success_codes : List ℤ)
    → classify_outcome (pick child_keys outcome) success_codes
      ≡ classify_outcome outcome success_codes
unfolding classify_outcome pick get_member get_member? text_eq
classify_outcome-pick outcome success_codes = refl

abbrev pub is_schema_error : Classification → Bool
is_schema_error schema_error = true
is_schema_error _ = false

-- There is an error exactly where the class is not `success`, and the class is not `schema_error`.
pub record Explained (p : Classification × Json) : Type 0 where
  pub explained : is_null p.1 ≡ is_success p.0
  pub no_schema_error : is_schema_error p.0 ≡ false

reported :
    (x : Json) (class : Classification) (rest : Classification × Json)
    → is_success class ≡ false
    → is_schema_error class ≡ false
    → Explained rest
    → Explained (if not (is_null x) then (class, x) else rest)
reported x class rest n s h = elim (Bool-cases (is_null x)) [
  | inl e ↦ rw e h
  | inr e ↦ rw e (record { explained = e ∙ sym n; no_schema_error = s })
]

hit :
    (b : Bool) (class : Classification) (message : Text) (rest : Classification × Json)
    → is_success class ≡ false
    → is_schema_error class ≡ false
    → Explained rest
    → Explained (if b then (class, str message) else rest)
hit true class message rest n s h = record { explained = sym n; no_schema_error = s }
hit false class message rest n s h = h

pub classify_outcome-Explained :
    (outcome : Members) (success_codes : List ℤ)
    → Explained (classify_outcome outcome success_codes)
unfolding classify_outcome
classify_outcome-Explained outcome success_codes =
    reported (get_member (codes "launch_error") outcome) launch_error _ refl refl (
      reported (get_member (codes "pipe_error") outcome) pipe_error _ refl refl (
        reported (get_member (codes "thread_error") outcome) thread_error _ refl refl (
          reported (get_member (codes "infrastructure_error") outcome) infrastructure_error _ refl
            refl
            (hit (truth_of (get_member (codes "process_limit_hit") outcome)) process_limit
              (codes "active process limit was reached") _ refl refl
              (hit (truth_of (get_member (codes "memory_limit_hit") outcome)) memory_limit
                (codes "job memory limit was reached") _ refl refl
                (hit (truth_of (get_member (codes "timed_out") outcome)) timeout
                  (codes "wall-time limit was reached") _ refl refl
                  (hit (truth_of (get_member (codes "output_limit_hit") outcome)) output_limit
                    (codes "one or more output streams reached their cap") _ refl refl
                    (hit
                      (not (is_success_code (get_member (codes "exit_code") outcome) success_codes))
                      child_nonzero
                      (codes "child exited " ++ py_str (get_member (codes "exit_code") outcome)) _
                      refl refl (record { explained = refl; no_schema_error = refl })))))))))

-- The class, the stage, the status and the error of a judgement agree.
abbrev pub Agrees : Classification → Judgement → Type 0
Agrees preliminary judgement =
    (class_errors preliminary (str (class_name judgement.classification)) (str judgement.stage)
      ≡ [])
    × (status_errors (str (class_name judgement.classification))
          (str (status_of judgement.classification)) judgement.error
        ≡ [])

after_validator-Agrees : (raised : Option Text) → Agrees success (after_validator raised)
unfolding class_errors status_errors is_str text_eq
after_validator-Agrees none = (refl, refl)
after_validator-Agrees (some text) = (refl, refl)

-- What is made of an outcome's class and error agrees with the class.
validate_result-Agrees :
    (validator : Option (Members → Option Text)) (outcome : Members) (class : Classification)
    (error : Json)
    → Explained (class, error)
    → Agrees class (validate_result validator outcome (class, error))
unfolding class_errors status_errors is_str text_eq
validate_result-Agrees none outcome schema_error error h = cc (h.no_schema_error)
validate_result-Agrees none outcome _ error h = rw (h.explained) (refl, refl)
validate_result-Agrees (some validator) outcome schema_error error h = cc (h.no_schema_error)
validate_result-Agrees (some validator) outcome success error h =
    after_validator-Agrees (validator outcome)
validate_result-Agrees (some validator) outcome _ error h = rw (h.explained) (refl, refl)

pub judge-Agrees :
    (world : Surroundings) (spec : OneShotSpec) (outcome : Members)
    → Agrees (classify_outcome outcome spec.success_exit_codes).0 (judge world spec outcome)
unfolding judge
judge-Agrees world spec outcome =
    let found = classify_outcome outcome spec.success_exit_codes in
    validate_result-Agrees world.validator outcome found.0 found.1
      (classify_outcome-Explained outcome spec.success_exit_codes)
