-- ===== src/AuditLedger/Published.antt =====
-- `.agents/scripts/audit_ledger.py`: what `GitAuditLedger.record` has written when it returns.
use ring_lang.Common.{
  ℕ, ◌≡◌, refl, ap, sym, ◌∙◌, Bool, true, false, List, [], ◌∷◌, Option, some, Result, ok, err, Text,
  text_eq, if◌then◌else◌, not, codes, strip,
}
use mathlib.Core.Path.{subst}
use ring_lang.Common.Int.{int_eq, pos}
use ring_lang.Common.Json.{Json}
use ring_lang.AuditLedger.Patterns.{lower}
use ring_lang.AuditLedger.Keys.{AuditKey, normalize_source_sha, Checked}
use ring_lang.AuditLedger.Stored.{IsStored}
use ring_lang.AuditLedger.Document.{
  AuditRecord, Document, Ledger, checked, validate_document, to_json,
}
use ring_lang.AuditLedger.Gate.{find_record, record_outcome}
use ring_lang.AuditLedger.Canonical.{not-false, IsLedger}
use ring_lang.AuditLedger.Revalidate.{validate_document_canonical}
use ring_lang.AuditLedger.Recorded.{record_outcome-steps}
use ring_lang.AuditLedger.Debounce.{record_outcome-found}
use ring_lang.AuditLedger.Git.{
  unresolved_source, CompletedProcess, GitError, Method, continue, chain, pure_call, returns, fails,
  written, run_at, commit_of, resolve_source_sha, validate_evidence_anchor, read_document,
  serialize_document, add_arguments, add_record, git_failed,
}

module _ {W : Type 0} where
  -- A sequence of methods returns only where both do.
  chain-ok :
      {A B : Type 0} (m : Method W A) (f : A → Method W B) (w after : W) {b : B}
      → chain m f w ≡ (ok b, after)
      → (a : A) × (mid : W) × (m w ≡ (ok a, mid)) × (f a mid ≡ (ok b, after))
  chain-ok m f w after h = continue-ok f (m w) h
    where
      continue-ok :
          {A B : Type 0} (f : A → Method W B) (p : Result GitError A × W) {b : B} {after : W}
          → continue f p ≡ (ok b, after)
          → (a : A) × (mid : W) × (p ≡ (ok a, mid)) × (f a mid ≡ (ok b, after))
      continue-ok f (err e, w) h = cc
      continue-ok f (ok a, w) h = (a, w, refl, h)

  pure_call-ok :
      {A : Type 0} (m : Ledger A) (w after : W) {a : A}
      → pure_call {W = W} m w ≡ (ok a, after)
      → (m ≡ ok a) × (w ≡ after)
  pure_call-ok (err e) w after h = cc
  pure_call-ok (ok a) w after h = (cc, cc)

  returned :
      {A : Type 0} (c : Bool) (e : GitError) (a : A) (w after : W) {b : A}
      → ◌≡◌ {A = Result GitError A × W} (if c then (err e, w) else (ok a, w)) (ok b, after)
      → (c ≡ false) × (b ≡ a) × (w ≡ after)
  returned true e a w after h = cc
  returned false e a w after h = (refl, cc, cc)

written-ok :
    (dumps : Json → Text) (m : Ledger Document) {payload : Text}
    → written dumps m ≡ ok payload
    → (d : Document) × (m ≡ ok d) × (payload ≡ dumps (to_json d))
written-ok dumps (err e) h = cc
written-ok dumps (ok d) h = (d, refl, cc)

returned_pair :
    {W : Type 0} {a b : AuditRecord} {v w : W}
    → ◌≡◌ {A = Result GitError AuditRecord × W} (ok a, v) (ok b, w)
    → (a ≡ b) × (v ≡ w)
returned_pair h = (cc, cc)

text_inj : {a b : Text} → ◌≡◌ {A = Checked Text} (ok a) (ok b) → a ≡ b
text_inj h = cc

document_inj : {a b : Document} → ◌≡◌ {A = Ledger Document} (ok a) (ok b) → a ≡ b
document_inj h = cc

checked-same : {A : Type 0} (m : Checked A) {a : A} → checked m ≡ ok a → m ≡ ok a
checked-same (err e) h = cc
checked-same (ok a) h = cc

module _ {W : Type 0} (git : List Text → W → CompletedProcess × W) (sha256 : List ℕ → Text)
    (loads : Text → Option Json) (dumps : Json → Text) where
  -- A checked command has succeeded.
  run_at-ok :
      (arguments : List Text) (w after : W) {c : CompletedProcess}
      → run_at git sha256 loads dumps true arguments w ≡ (ok c, after)
      → ((git arguments w).1 ≡ after) × (int_eq (git arguments w).0.returncode (pos 0) ≡ true)
  unfolding run_at
  run_at-ok arguments w after h =
      let result = (git arguments w).0 in
      let (e, f, g) =
        returned (not (int_eq result.returncode (pos 0))) (git_failed arguments result) result
          (git arguments w).1 after h in
      (g, not-false e)

  resolved_if :
      (c : Bool) (s : Text) (w after : W) {sha : Text}
      → (if c then returns s else fails unresolved_source) w ≡ (ok sha, after)
      → sha ≡ s
  resolved_if true s w after h = cc
  resolved_if false s w after h = cc

  -- The resolved commit id is the normal form of the id that was asked for.
  resolve_source_sha-normal :
      (s : Text) (w after : W) {sha : Text}
      → resolve_source_sha git sha256 loads dumps s w ≡ (ok sha, after)
      → normalize_source_sha s ≡ ok sha
  unfolding resolve_source_sha
  resolve_source_sha-normal s w after h =
      let (canonical, w1, a, h1) =
        chain-ok (pure_call (checked (normalize_source_sha s))) _ w after h in
      let (c1, w2, b, h2) =
        chain-ok
          (run_at git sha256 loads dumps true
            (codes "cat-file" ∷ codes "-e" ∷ commit_of git sha256 loads dumps canonical ∷ []))
          _ w1 after h1 in
      let (resolved, w3, c, h3) =
        chain-ok
          (run_at git sha256 loads dumps true (
            codes "rev-parse" ∷ codes "--verify" ∷ commit_of git sha256 loads dumps canonical ∷ []))
          _ w2 after h2 in
      let e =
        resolved_if (text_eq (lower (strip resolved.stdout)) canonical) canonical w3 after h3 in
      let n =
        checked-same (normalize_source_sha s)
          (pure_call-ok (checked (normalize_source_sha s)) w w1 a).0 in
      n ∙ ap ok (sym e)

  -- The last command has written the document.
  abbrev pub IsWritten : Document → Text → W → W → Type 0
  IsWritten d sha before after =
      ((git (add_arguments git sha256 loads dumps (dumps (to_json d)) sha) before).1 ≡ after)
      × (int_eq
            (git (add_arguments git sha256 loads dumps (dumps (to_json d)) sha) before).0.returncode
            (pos 0)
          ≡ true)

  serialized :
      (d : Document) (sha : Text) {payload : Text}
      → IsLedger sha256 d
      → sha ≡ d.source_sha
      → serialize_document git sha256 loads dumps d sha ≡ ok payload
      → payload ≡ dumps (to_json d)
  unfolding serialize_document
  serialized d sha l e h =
      let (v, f, p) = written-ok dumps (validate_document sha256 (to_json d) sha) h in
      let g =
        ap (validate_document sha256 (to_json d)) e ∙ validate_document_canonical sha256 d l in
      p ∙ ap (λ x. dumps (to_json x)) (document_inj (sym f ∙ g))

  finish :
      (key : AuditKey) (outcome : Text) (summary : Option Text) (x : Json) (new : Document)
      (r : AuditRecord) (sha payload : Text) (w5 w6 after : W) {c : CompletedProcess}
      → IsStored key
      → normalize_source_sha key.source_sha ≡ ok sha
      → record_outcome sha256 x key outcome summary ≡ ok (new, r)
      → serialize_document git sha256 loads dumps new sha ≡ ok payload
      → run_at git sha256 loads dumps true (add_arguments git sha256 loads dumps payload sha) w5
        ≡ (ok c, w6)
      → w6 ≡ after
      → (d : Document) × (before : W) × IsWritten d key.source_sha before after
        × (find_record sha256 (to_json d) key ≡ ok (some r))
  finish key outcome summary x new r sha payload w5 w6 after k n rec ser run end =
      let es = text_inj (sym n ∙ k.1) in
      let (l, found) = record_outcome-found sha256 x key outcome summary new r k rec in
      let (old, s, v, f, o, er, ed) = record_outcome-steps sha256 x key outcome summary new r rec in
      let source = ap (λ d. d.source_sha) ed in
      let ep = serialized new sha l (es ∙ sym source) ser in
      let (g, t) = run_at-ok (add_arguments git sha256 loads dumps payload sha) w5 w6 run in
      let written_at =
        subst
          (λ (q : Text × Text).
            ((git (add_arguments git sha256 loads dumps q.0 q.1) w5).1 ≡ after)
            × (int_eq (git (add_arguments git sha256 loads dumps q.0 q.1) w5).0.returncode (pos 0)
                ≡ true))
          (λ i. (ep i, es i)) (g ∙ end, t) in
      (new, w5, written_at, found)

  -- When `record` returns a record for a key that was made or loaded, its last command was a successful
  -- `git notes add` of a written document, and looking the key up in this document finds the record.
  pub add_record-written :
      (key : AuditKey) (outcome : Text) (summary : Option Text) (w after : W) (r : AuditRecord)
      → IsStored key
      → add_record git sha256 loads dumps key outcome summary w ≡ (ok r, after)
      → (d : Document) × (before : W) × IsWritten d key.source_sha before after
        × (find_record sha256 (to_json d) key ≡ ok (some r))
  unfolding add_record
  add_record-written key outcome summary w after r k h =
      let (sha, w1, a, h1) =
        chain-ok (resolve_source_sha git sha256 loads dumps key.source_sha) _ w after h in
      let (u, w2, b, h2) =
        chain-ok (validate_evidence_anchor git sha256 loads dumps key) _ w1 after h1 in
      let (old, w3, c, h3) = chain-ok (read_document git sha256 loads dumps sha) _ w2 after h2 in
      let (updated, w4, d, h4) =
        chain-ok (pure_call (record_outcome sha256 (to_json old) key outcome summary)) _ w3 after
          h3 in
      let (payload, w5, e, h5) =
        chain-ok (pure_call (serialize_document git sha256 loads dumps updated.0 sha)) _ w4 after
          h4 in
      let (added, w6, f, h6) =
        chain-ok
          (run_at git sha256 loads dumps true (add_arguments git sha256 loads dumps payload sha)) _
          w5 after h5 in
      let (e1, e2) = returned_pair h6 in
      finish key outcome summary (to_json old) updated.0 r sha payload w5 w6 after k
        (resolve_source_sha-normal key.source_sha w w1 a)
        ((pure_call-ok (record_outcome sha256 (to_json old) key outcome summary) w3 w4 d).0
          ∙ ap (λ x. ok (updated.0, x)) e1)
        (pure_call-ok (serialize_document git sha256 loads dumps updated.0 sha) w4 w5 e).0 f e2
