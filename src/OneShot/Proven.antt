-- ===== src/OneShot/Proven.antt =====
-- `.agents/scripts/one_shot_gate.py`: what a complete audit proves.
use ring_lang.Common.{
  ℕ, ◌≡◌, ◌≢◌, refl, ap, ◌∙◌, Bool, true, false, List, [], ◌∷◌, if◌then◌else◌, Text, codes, ok, err,
  ◌>>=◌,
}
use ring_lang.Common.Int.{ℤ, pos, int_eq}
use ring_lang.Common.Json.{Json, Members, get_member, is_str}
use ring_lang.OneShot.Values.{Failure, violation, Checked, int_of, truth_of}
use ring_lang.OneShot.Execution.{validate_attempt}
use ring_lang.OneShot.Outcome.{members_in}
use ring_lang.OneShot.Verdict.{validate_verdict}
use ring_lang.OneShot.Execute.{Entry, regular}
use ring_lang.OneShot.Audit.{
  audit_attempt, audit_verdict, audit_document, audit_loaded, conclude_pair, conclude, pair_errors,
  failure_of,
}
use ring_lang.OneShot.Evidence.{
  Evidence, StoredJson, missing, not_regular, stored, Audit, nothing, incomplete, complete, stopped,
  refused, escapes, crashed, is_complete,
}
use ring_lang.OneShot.Spec.{is_nil}

-- A document that was read and passes a validator.
abbrev pub Holds : (Json → Checked Members) → StoredJson → Members → Text → Type 0
Holds validate document ms sha256 =
    (loaded : Checked Json) × (document ≡ stored loaded sha256) × ((loaded >>= validate) ≡ ok ms)

-- A file is the one that a record describes.
abbrev pub IsRecorded : Entry → Json → Type 0
IsRecorded entry value =
    (size : ℕ) × (sha256 : Text) × (syncs : Bool) × (entry ≡ regular size sha256 syncs)
    × (int_eq (pos size) (int_of (get_member (codes "captured_size") (members_in value))) ≡ true)
    × (is_str sha256 (get_member (codes "sha256") (members_in value)) ≡ true)
    × (truth_of (get_member (codes "fsynced") (members_in value)) ≡ true)

pub failure_of-nil :
    {A : Type 0} (check : Checked A) → failure_of check ≡ [] → (a : A) × (check ≡ ok a)
failure_of-nil (ok a) h = (a, refl)
failure_of-nil (err e) h = cc

conclude-complete :
    (verdict : Members) (errors : List Failure)
    → (conclude verdict errors).state ≡ complete
    → errors ≡ []
conclude-complete verdict [] h = refl
conclude-complete verdict (e ∷ errors) h = cc

-- A complete audit has a valid attempt and a valid verdict, and no error.
pub record Complete (float_is : Text → ℤ → Bool) (evidence : Evidence) : Type 0 where
  pub attempt : Members
  pub verdict : Members
  pub attempt_sha256 : Text
  pub verdict_sha256 : Text
  pub attempt_holds : Holds validate_attempt evidence.attempt attempt attempt_sha256
  pub verdict_holds : Holds validate_verdict evidence.verdict verdict verdict_sha256
  pub no_errors : pair_errors float_is evidence attempt_sha256 attempt verdict ≡ []
  pub reported : audit_attempt float_is evidence ≡ conclude verdict []

pub not_complete :
    (b : Bool) (x y : Audit)
    → is_complete x.state ≡ false
    → is_complete y.state ≡ false
    → (if b then x else y).state ≢ complete
not_complete true x y h k = λ e. cc (h)
not_complete false x y h k = λ e. cc (k)

pub refused-not_complete : (e : Failure) → (refused e).state ≢ complete
refused-not_complete e =
    not_complete (escapes e) (stopped true crashed []) (stopped true incomplete (e ∷ [])) refl refl

judged_pair :
    (float_is : Text → ℤ → Bool) (evidence : Evidence) (attempt_sha256 : Text) (attempt : Members)
    (checked : Checked Members)
    → (conclude_pair float_is evidence attempt_sha256 attempt checked).state ≡ complete
    → (verdict : Members) × (checked ≡ ok verdict)
      × (pair_errors float_is evidence attempt_sha256 attempt verdict ≡ [])
judged_pair float_is evidence attempt_sha256 attempt (ok verdict) h =
    (verdict, refl, conclude-complete verdict _ h)
judged_pair float_is evidence attempt_sha256 attempt (err e) h = absurd (refused-not_complete e h)

audited_pair :
    (float_is : Text → ℤ → Bool) (evidence : Evidence) (attempt_sha256 : Text)
    (checked : Checked Members)
    → (audit_loaded float_is evidence attempt_sha256 checked).state ≡ complete
    → (attempt : Members) × (checked ≡ ok attempt)
      × ((audit_verdict float_is evidence attempt_sha256 attempt evidence.verdict).state ≡ complete)
audited_pair float_is evidence attempt_sha256 (ok attempt) h = (attempt, refl, h)
audited_pair float_is evidence attempt_sha256 (err e) h = absurd (refused-not_complete e h)

judged :
    (float_is : Text → ℤ → Bool) (evidence : Evidence) (attempt_sha256 : Text) (attempt : Members)
    (document : StoredJson)
    → (audit_verdict float_is evidence attempt_sha256 attempt document).state ≡ complete
    → (verdict : Members) × (verdict_sha256 : Text) × Holds validate_verdict document verdict
        verdict_sha256
      × (pair_errors float_is evidence attempt_sha256 attempt verdict ≡ [])
      × (audit_verdict float_is evidence attempt_sha256 attempt document ≡ conclude verdict [])
unfolding audit_verdict
judged float_is evidence attempt_sha256 attempt (stored loaded sha256) h =
    let (verdict, valid, clean) =
      judged_pair float_is evidence attempt_sha256 attempt (loaded >>= validate_verdict) h in
    (
      verdict,
      sha256,
      (loaded, refl, valid),
      clean,
      ap (conclude_pair float_is evidence attempt_sha256 attempt) valid
          ∙ ap (conclude verdict) clean,
    )
judged float_is evidence attempt_sha256 attempt missing h = cc
judged float_is evidence attempt_sha256 attempt _ h = cc

audited :
    (float_is : Text → ℤ → Bool) (evidence : Evidence) (document : StoredJson)
    → (audit_document float_is evidence document).state ≡ complete
    → (attempt : Members) × (attempt_sha256 : Text) × Holds validate_attempt document attempt
        attempt_sha256
      × ((audit_verdict float_is evidence attempt_sha256 attempt evidence.verdict).state ≡ complete)
      × (audit_document float_is evidence document
          ≡ audit_verdict float_is evidence attempt_sha256 attempt evidence.verdict)
unfolding audit_document
audited float_is evidence missing h = absurd (
    not_complete (is_nil evidence.inventory) (stopped false nothing [])
      (stopped false incomplete (violation "evidence exists without an attempt marker" ∷ [])) refl
      refl h)
audited float_is evidence not_regular h = cc
audited float_is evidence (stored loaded sha256) h =
    let (attempt, valid, rest) =
      audited_pair float_is evidence sha256 (loaded >>= validate_attempt) h in
    (attempt, sha256, (loaded, refl, valid), rest, ap (audit_loaded float_is evidence sha256) valid)

pub audit_attempt-Complete :
    (float_is : Text → ℤ → Bool) (evidence : Evidence)
    → (audit_attempt float_is evidence).state ≡ complete
    → Complete float_is evidence
unfolding audit_attempt
audit_attempt-Complete float_is evidence h =
    let (attempt, attempt_sha256, held, done, same) =
      audited float_is evidence evidence.attempt h in
    let (verdict, verdict_sha256, stood, clean, ended) =
      judged float_is evidence attempt_sha256 attempt evidence.verdict done in
    record {
      attempt = attempt;
      verdict = verdict;
      attempt_sha256 = attempt_sha256;
      verdict_sha256 = verdict_sha256;
      attempt_holds = held;
      verdict_holds = stood;
      no_errors = clean;
      reported = same ∙ ended;
    }
