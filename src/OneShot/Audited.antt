-- ===== src/OneShot/Audited.antt =====
-- `.agents/scripts/one_shot_gate.py`: `execute` runs once, and `audit_attempt` finds its claims to agree.
use mathlib.Core.Path.{subst}
use ring_lang.Common.{
  ◌≡◌, refl, ap, sym, ◌∙◌, Bool, true, false, ◌||◌, List, [], ◌++◌, Option, none, some,
  if◌then◌else◌, Text, codes, text_eq, ok, err, or-eq-false,
}
use ring_lang.Common.Int.{ℤ}
use ring_lang.Common.Json.{Json, str, Members, get_member, get_member?}
use ring_lang.OneShot.Values.{Failure, violation, Checked}
use ring_lang.OneShot.Outcome.{members_in, classify_outcome, Classification, child_keys}
use ring_lang.OneShot.Verdict.{validate_verdict}
use ring_lang.OneShot.Spec.{is_chained, OneShotSpec, PreparedAttempt, prepare_attempt}
use ring_lang.OneShot.Execute.{Folder, exists}
use ring_lang.OneShot.Run.{
  Surroundings, Judgement, execute, run_attempt, verdict_value, judge, is_written, pick, class_name,
  status_of,
}
use ring_lang.OneShot.Audit.{claim_errors, success_codes_of, class_errors, status_errors}
use ring_lang.OneShot.Consistent.{judge-Agrees, Agrees, classify_outcome-pick}
use ring_lang.OneShot.Inversion.{run_attempt-Ran, prepare_attempt-codes}

claims-agree :
    (attempt outcome : Members) (success_codes : List ℤ) (judgement : Judgement)
    → success_codes_of (get_member (codes "success_exit_codes") attempt) ≡ success_codes
    → Agrees (classify_outcome outcome success_codes).0 judgement
    → class_errors
          (classify_outcome
            (pick child_keys outcome)
            (success_codes_of (get_member (codes "success_exit_codes") attempt))).0
          (str (class_name judgement.classification))
          (str judgement.stage)
        ++ status_errors
            (str (class_name judgement.classification))
            (str (status_of judgement.classification))
            judgement.error
      ≡ []
claims-agree attempt outcome success_codes judgement same (class, status) =
    let e =
      ap
        (λ (c : Classification).
          class_errors c (str (class_name judgement.classification)) (str judgement.stage))
        (ap (λ (s : List ℤ). (classify_outcome (pick child_keys outcome) s).0) same
          ∙ ap (λ (p : Classification × Json). p.0)
              (classify_outcome-pick outcome success_codes)) in
    rw (e, class, status)

verdict_value-claims :
    (world : Surroundings) (self : PreparedAttempt) (outcome chain : Members)
    → success_codes_of (get_member (codes "success_exit_codes") self.attempt)
      ≡ self.spec.success_exit_codes
    → claim_errors self.attempt (
        members_in (
          verdict_value world
            (is_chained self.spec)
            self.spec.gate_id
            self.attempt
            outcome
            (judge world self.spec outcome)
            chain))
      ≡ []
unfolding claim_errors verdict_value get_member get_member? text_eq
verdict_value-claims world self outcome chain same =
    claims-agree self.attempt outcome self.spec.success_exit_codes (judge world self.spec outcome)
      same (judge-Agrees world self.spec outcome)

abbrev pub already_executed : Checked (Json × Folder)
already_executed = err (violation "prepared attempt has already executed")

guarded :
    {A : Type 0} (executed used : Bool) (before started : PreparedAttempt) (e f : Failure)
    (run : Checked A) {a : A}
    → (if◌then◌else◌ {A = PreparedAttempt × Checked A} executed
        (before, err e)
        (started, (if used then err f else run))).1
      ≡ ok a
    → (executed ≡ false) × (used ≡ false) × (run ≡ ok a)
guarded true used before started e f run h = cc
guarded false true before started e f run h = cc
guarded false false before started e f run h = (refl, refl, h)

not_written : (verdict : Option Json) → is_written verdict ≡ false → verdict ≡ none
not_written none h = refl
not_written (some verdict) h = cc

-- Only a fresh attempt runs, in a directory with no verdict and no raw file.
execute-run :
    (world : Surroundings) (self : PreparedAttempt) (root : Folder) {verdict : Json}
    {after : Folder}
    → (execute world self root).1 ≡ ok (verdict, after)
    → (self.executed ≡ false)
      × (root.verdict ≡ none)
      × (exists root.stdout ≡ false)
      × (exists root.stderr ≡ false)
      × (run_attempt world self root ≡ ok (verdict, after))
unfolding execute
execute-run world self root h =
    let (fresh, unused, run) =
      guarded self.executed (is_written root.verdict || exists root.stdout || exists root.stderr)
        self (record self { executed = true }) _ _ (run_attempt world self root) h in
    let (a, stderr_free) =
      or-eq-false (is_written root.verdict || exists root.stdout) (exists root.stderr) unused in
    let (no_verdict, stdout_free) = or-eq-false (is_written root.verdict) (exists root.stdout) a in
    (fresh, not_written root.verdict no_verdict, stdout_free, stderr_free, run)

executed_after :
    {A : Type 0} (executed : Bool) (self : PreparedAttempt) (early late : Checked A)
    → self.executed ≡ executed
    → (if◌then◌else◌ {A = PreparedAttempt × Checked A} executed
        (self, early)
        (record self { executed = true }, late)).0.executed
      ≡ true
executed_after true self early late h = h
executed_after false self early late h = refl

execute-executed :
    (world : Surroundings) (self : PreparedAttempt) (root : Folder)
    → (execute world self root).0.executed ≡ true
unfolding execute
execute-executed world self root = executed_after self.executed self already_executed _ refl

execute_again :
    (world : Surroundings) (self : PreparedAttempt) (root : Folder)
    → self.executed ≡ true
    → (execute world self root).1 ≡ already_executed
unfolding execute
execute_again world self root h = rw h

-- What a run that returned a verdict left behind
abbrev pub HasRun : Surroundings → PreparedAttempt → Folder → Json → Folder → Type 0
HasRun world self root verdict after =
    (root.verdict ≡ none)
    × (exists root.stdout ≡ false)
    × (exists root.stderr ≡ false)
    × (after.verdict ≡ some verdict)
    × (validate_verdict verdict ≡ ok (members_in verdict))
    × (claim_errors self.attempt (members_in verdict) ≡ [])
    × ((other : Surroundings) (folder : Folder)
        → (execute other (execute world self root).0 folder).1 ≡ already_executed)

-- Where a prepared attempt is executed and a verdict is returned, the directory held neither a verdict nor a
-- raw file before, and it holds this verdict after; the verdict passes `_validate_verdict`, and the
-- class, the stage, the status and the error that it claims are what `audit_attempt` expects of
-- its child. The attempt cannot be executed again, in any directory.
pub execute-claims :
    (float_of : ℤ → Text) (is_windows : Bool) (hex : Text) (created : ℤ) (spec : OneShotSpec)
    (world : Surroundings) (root : Folder) {self : PreparedAttempt} {verdict : Json}
    {after : Folder}
    → prepare_attempt float_of is_windows hex created spec ≡ ok self
    → (execute world self root).1 ≡ ok (verdict, after)
    → HasRun world self root verdict after
execute-claims float_of is_windows hex created spec world root {self} h run =
    let (fresh, same_spec, codes_kept) =
      prepare_attempt-codes float_of is_windows hex created spec h in
    let (unrun, no_verdict, no_stdout, no_stderr, ran) = execute-run world self root run in
    let made = run_attempt-Ran world self root ran in
    let own = codes_kept ∙ ap (λ (s : OneShotSpec). s.success_exit_codes) (sym same_spec) in
    (
      no_verdict,
      no_stdout,
      no_stderr,
      made.stored,
      made.accepted,
      subst (λ (v : Json). claim_errors self.attempt (members_in v) ≡ []) (sym made.value)
          (verdict_value-claims world self made.outcome made.chain own),
      λ other folder.
          execute_again other (execute world self root).0 folder (execute-executed world self root),
    )
