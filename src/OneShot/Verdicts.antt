-- ===== src/OneShot/Verdicts.antt =====
-- `.agents/scripts/one_shot_gate.py`: what the class `success` says of a child, and of the verdict that claims it.
use ring_lang.Common.{
  ◌≡◌, refl, ap, ◌⊎◌, inl, inr, Bool, true, false, not, ◌&&◌, List, [], ◌++◌, if◌then◌else◌, Text,
  codes, text_eq, text_eq_iff, arith, Bool-cases, append-eq-nil, not-eq-false,
}
use mathlib.Core.Path.{subst}
use Prim.Native.String.{String}
use ring_lang.Common.Int.{ℤ}
use ring_lang.Common.Json.{Json, array, str, Members, get_member, is_str}
use ring_lang.OneShot.Values.{is_null, truth_of, Failure}
use ring_lang.OneShot.Outcome.{
  Classification, launch_error, pipe_error, thread_error, infrastructure_error, process_limit,
  memory_limit, timeout, output_limit, child_nonzero, success, classify_outcome, is_success_code,
}
use ring_lang.OneShot.Run.{class_name, is_success}
use ring_lang.OneShot.Audit.{class_errors, status_errors, error_if}

-- A child that ended well: no error, no limit, and a code of the list.
pub record EndedWell (child : Members) (success_codes : List ℤ) : Type 0 where
  pub no_launch_error : is_null (get_member (codes "launch_error") child) ≡ true
  pub no_pipe_error : is_null (get_member (codes "pipe_error") child) ≡ true
  pub no_thread_error : is_null (get_member (codes "thread_error") child) ≡ true
  pub no_infrastructure_error : is_null (get_member (codes "infrastructure_error") child) ≡ true
  pub no_process_limit : truth_of (get_member (codes "process_limit_hit") child) ≡ false
  pub no_memory_limit : truth_of (get_member (codes "memory_limit_hit") child) ≡ false
  pub no_timeout : truth_of (get_member (codes "timed_out") child) ≡ false
  pub no_output_limit : truth_of (get_member (codes "output_limit_hit") child) ≡ false
  pub exited : is_success_code (get_member (codes "exit_code") child) success_codes ≡ true

-- A test that gives another class than `success` was not met.
missed :
    (b : Bool) (class : Classification) (error : Json) (rest : Classification × Json)
    → is_success class ≡ false
    → is_success (if◌then◌else◌ {A = Classification × Json} b (class, error) rest).0 ≡ true
    → (b ≡ false) × (is_success rest.0 ≡ true)
missed true class error rest n h = cc
missed false class error rest n h = (refl, h)

pub classify_outcome-EndedWell :
    (child : Members) (success_codes : List ℤ)
    → is_success (classify_outcome child success_codes).0 ≡ true
    → EndedWell child success_codes
unfolding classify_outcome
classify_outcome-EndedWell child success_codes h =
    let (a, h1) =
      missed (not (is_null (get_member (codes "launch_error") child))) launch_error _ _ refl h in
    let (b, h2) =
      missed (not (is_null (get_member (codes "pipe_error") child))) pipe_error _ _ refl h1 in
    let (c, h3) =
      missed (not (is_null (get_member (codes "thread_error") child))) thread_error _ _ refl h2 in
    let (d, h4) =
      missed (not (is_null (get_member (codes "infrastructure_error") child))) infrastructure_error
        _ _ refl h3 in
    let (e, h5) =
      missed (truth_of (get_member (codes "process_limit_hit") child)) process_limit _ _ refl h4 in
    let (f, h6) =
      missed (truth_of (get_member (codes "memory_limit_hit") child)) memory_limit _ _ refl h5 in
    let (g, h7) = missed (truth_of (get_member (codes "timed_out") child)) timeout _ _ refl h6 in
    let (i, h8) =
      missed (truth_of (get_member (codes "output_limit_hit") child)) output_limit _ _ refl h7 in
    let (j, h9) =
      missed (not (is_success_code (get_member (codes "exit_code") child) success_codes))
        child_nonzero _ _ refl h8 in
    record {
      no_launch_error = not-eq-false _ a;
      no_pipe_error = not-eq-false _ b;
      no_thread_error = not-eq-false _ c;
      no_infrastructure_error = not-eq-false _ d;
      no_process_limit = e;
      no_memory_limit = f;
      no_timeout = g;
      no_output_limit = i;
      exited = not-eq-false _ j;
    }

pub error_if-nil : (test : Bool) (text : String) → error_if test text ≡ [] → test ≡ false
error_if-nil true text h = cc
error_if-nil false text h = refl

pub is_str-eq : (s : Text) (x : Json) → is_str s x ≡ true → x ≡ str s
unfolding is_str
is_str-eq s (str t) h = ap str ((text_eq_iff t s).0 h)
is_str-eq s (array xs) h = cc
is_str-eq s _ h = cc

success_class :
    (preliminary : Classification)
    → is_str (class_name preliminary) (str (codes "success")) ≡ true
    → is_success preliminary ≡ true
unfolding is_str text_eq
success_class success h = refl
success_class timeout h = cc
success_class _ h = cc

status_success :
    (class status error : Json)
    → status_errors class status error ≡ []
    → is_str (codes "success") status ≡ true
    → (class ≡ str (codes "success")) × (is_null error ≡ true)
unfolding status_errors is_str text_eq
status_success class status error h s =
    let named = is_str-eq (codes "success") status s in
    let (expected, rest) =
      append-eq-nil
        (error_if
          (not (
            is_str (if is_str (codes "success") class then codes "success" else codes "failure")
              status))
          "verdict status contradicts classification")
        _ h in
    let (no_error, last) =
      append-eq-nil
        (error_if (is_str (codes "success") class && not (is_null error))
          "successful verdict unexpectedly has an error")
        _ rest in
    let told =
      not-eq-false _ (error_if-nil _ "verdict status contradicts classification" expected) in
    let silent = error_if-nil _ "successful verdict unexpectedly has an error" no_error in
    elim (Bool-cases (is_str (codes "success") class)) [
      | inl e ↦ (is_str-eq (codes "success") class e, not-eq-false (is_null error) (ground arith))
      | inr n ↦
          let failed : is_str (codes "failure") status ≡ true =
            subst
              (λ (b : Bool). is_str (if b then codes "success" else codes "failure") status ≡ true)
              n told in
          cc (subst (λ (x : Json). is_str (codes "failure") x ≡ true) named failed)
    ]

branch : (b : Bool) (x y : List Failure) → (if b then x else y) ≡ [] → (x ≡ []) ⊎ (y ≡ [])
branch true x y h = inl h
branch false x y h = inr h

class_success :
    (preliminary : Classification) (stage : Json)
    → class_errors preliminary (str (codes "success")) stage ≡ []
    → is_success preliminary ≡ true
unfolding class_errors is_str text_eq
class_success preliminary stage h =
    let schema =
      error_if (not (is_success preliminary))
        "successful result-schema verdict lacks a successful child" in
    let named =
      error_if (not (is_str (class_name preliminary) (str (codes "success"))))
        "verdict classification contradicts child facts" in
    let staged =
      error_if (not (is_str (codes "child") stage)) "non-schema verdict stage is not child" in
    elim (branch (is_str (codes "result-schema") stage) schema (named ++ staged) h) [
      | inl e ↦
          not-eq-false _
            (error_if-nil _ "successful result-schema verdict lacks a successful child" e)
      | inr e ↦ success_class preliminary (
          not-eq-false _ (
            error_if-nil _ "verdict classification contradicts child facts"
              (append-eq-nil named staged e).0))
    ]

-- Where the claims of a verdict stand and its status is `success`, the class of its child is `success`.
pub claims-success :
    (preliminary : Classification) (class stage status error : Json)
    → class_errors preliminary class stage ++ status_errors class status error ≡ []
    → is_str (codes "success") status ≡ true
    → (is_success preliminary ≡ true) × (class ≡ str (codes "success")) × (is_null error ≡ true)
claims-success preliminary class stage status error h s =
    let (class_ok, status_ok) = append-eq-nil (class_errors preliminary class stage) _ h in
    let (named, silent) = status_success class status error status_ok s in
    (class_success preliminary stage (rw (← named) class_ok), named, silent)
