-- ===== src/AuditLedger/Git.antt =====
-- `.agents/scripts/audit_ledger.py`: the class `GitAuditLedger`, which keeps the documents in Git notes.
use ring_lang.Common.{
  ℕ, Bool, true, false, ◌&&◌, List, [], ◌∷◌, ◌++◌, Option, none, some, Result, ok, err,
  if◌then◌else◌, not, Text, codes, text_eq, strip, is_empty, starts_with, any,
}
use ring_lang.Common.Int.{ℤ, pos, int_eq}
use ring_lang.Common.Lines.{splitlines}
use ring_lang.Common.Json.{Json}
use ring_lang.AuditLedger.Patterns.{lower}
use ring_lang.AuditLedger.Keys.{AuditKey, normalize_source_sha, parse_evidence_event, EvidenceEvent}
use ring_lang.AuditLedger.Document.{
  AuditRecord, Document, LedgerError, Ledger, checked, empty_document, validate_document, to_json,
}
use ring_lang.AuditLedger.Gate.{find_record, check_start_gate, record_outcome}

pub record CompletedProcess : Type 0 where
  pub returncode : ℤ
  pub stdout : Text
  pub stderr : Text

pub data GitError : Type 0 where
  ledger_error : LedgerError → GitError
  git_failed : List Text → CompletedProcess → GitError
  not_json unresolved_source key_not_canonical : GitError
  evidence_is_source evidence_not_descendant evidence_unreachable : GitError

-- A method: it runs Git commands on the repository, and returns or raises.
abbrev pub Method : Type 0 → Type 0 → Type 0
Method W A = W → Result GitError A × W

abbrev pub returns : {W A : Type 0} → A → Method W A
returns a w = (ok a, w)

abbrev pub fails : {W A : Type 0} → GitError → Method W A
fails e w = (err e, w)

abbrev pub continue :
    {W A B : Type 0} → (A → Method W B) → Result GitError A × W → Result GitError B × W
continue f (err e, w) = (err e, w)
continue f (ok a, w) = f a w

abbrev pub chain : {W A B : Type 0} → Method W A → (A → Method W B) → Method W B
chain m f w = continue f (m w)

-- A call of one of the pure functions.
abbrev pub pure_call : {W A : Type 0} → Ledger A → Method W A
pure_call (err e) w = (err (ledger_error e), w)
pure_call (ok a) w = (ok a, w)

abbrev pub note_ref : Text
note_ref = codes "--ref=refs/notes/ring-steward-audit-ledger"

abbrev pub durable_ref_prefixes : List Text
durable_ref_prefixes = codes "refs/heads" ∷ codes "refs/remotes" ∷ codes "refs/tags" ∷ []

-- `ref.startswith(tuple(f"{prefix}/" ...))` for one of the listed refs
unfoldable pub has_durable_ref : List Text → Bool
unfolding any starts_with
has_durable_ref refs =
    any (λ ref. any (λ p. starts_with (p ++ codes "/") ref) durable_ref_prefixes) refs

abbrev pub written : (Json → Text) → Ledger Document → Ledger Text
written dumps (err e) = err e
written dumps (ok d) = ok (dumps (to_json d))

-- Git itself, `sha256`, `json.loads` and `json.dumps` with its final newline are parameters.
module _ {W : Type 0} (git : List Text → W → CompletedProcess × W) (sha256 : List ℕ → Text)
    (loads : Text → Option Json) (dumps : Json → Text) where
  -- `_run_at`
  unfoldable pub run_at : Bool → List Text → Method W CompletedProcess
  run_at check arguments w =
      let (result, after) = git arguments w in
      if check && not (int_eq result.returncode (pos 0))
      then (err (git_failed arguments result), after)
      else (ok result, after)

  unfoldable pub commit_of : Text → Text
  commit_of sha = sha ++ codes "^{commit}"

  unfoldable pub resolve_source_sha : Text → Method W Text
  unfolding run_at strip lower text_eq normalize_source_sha commit_of
  resolve_source_sha source_sha =
      chain (pure_call (checked (normalize_source_sha source_sha))) (λ canonical.
        chain (run_at true (codes "cat-file" ∷ codes "-e" ∷ commit_of canonical ∷ [])) (λ exists.
          chain (run_at true (codes "rev-parse" ∷ codes "--verify" ∷ commit_of canonical ∷ []))
            (λ resolved.
              if text_eq (lower (strip resolved.stdout)) canonical
              then returns canonical
              else fails unresolved_source)))

  -- The descent of the evidence commit, and a branch or tag that reaches it.
  anchor_reached : AuditKey → Text → Method W (Unit {0})
  unfolding run_at has_durable_ref splitlines
  anchor_reached key anchor =
      let arguments = codes "merge-base" ∷ codes "--is-ancestor" ∷ key.source_sha ∷ anchor ∷ [] in
      chain (run_at false arguments) (λ ancestry.
        if int_eq ancestry.returncode (pos 1)
        then fails evidence_not_descendant
        else if not (int_eq ancestry.returncode (pos 0))
        then fails (git_failed arguments ancestry)
        else chain
            (run_at true (
              codes "for-each-ref"
              ∷ codes "--format=%(refname)"
              ∷ (codes "--contains=" ++ anchor)
              ∷ durable_ref_prefixes))
            (λ reachable.
              if has_durable_ref (splitlines reachable.stdout)
              then returns tt
              else fails evidence_unreachable))

  check_event : AuditKey → Option EvidenceEvent → Method W (Unit {0})
  unfolding resolve_source_sha anchor_reached text_eq
  check_event key none = returns tt
  check_event key (some event) = chain (resolve_source_sha event.commit_sha) (λ anchor.
      if text_eq anchor key.source_sha then fails evidence_is_source else anchor_reached key anchor)

  unfoldable pub validate_evidence_anchor : AuditKey → Method W (Unit {0})
  unfolding parse_evidence_event check_event
  validate_evidence_anchor key = check_event key (parse_evidence_event key.trigger_id)

  parse_note : Text → Option Json → Method W Document
  unfolding validate_document
  parse_note sha none = fails not_json
  parse_note sha (some document) = pure_call (validate_document sha256 document sha)

  unfoldable pub read_document : Text → Method W Document
  unfolding resolve_source_sha run_at strip empty_document parse_note
  read_document source_sha = chain (resolve_source_sha source_sha) (λ sha.
      let arguments = codes "notes" ∷ note_ref ∷ codes "list" ∷ sha ∷ [] in
      chain (run_at false arguments) (λ listed.
        if int_eq listed.returncode (pos 1) && is_empty (strip listed.stdout)
        then pure_call (empty_document sha)
        else if not (int_eq listed.returncode (pos 0))
        then fails (git_failed arguments listed)
        else chain (run_at true (codes "notes" ∷ note_ref ∷ codes "show" ∷ sha ∷ []))
            (λ shown. parse_note sha (loads shown.stdout))))

  -- The common beginning of `query` and `check_start`.
  read_for : AuditKey → Method W Document
  unfolding resolve_source_sha text_eq validate_evidence_anchor read_document
  read_for key = chain (resolve_source_sha key.source_sha) (λ sha.
      if not (text_eq sha key.source_sha)
      then fails key_not_canonical
      else chain (validate_evidence_anchor key) (λ anchored. read_document sha))

  unfoldable pub query : AuditKey → Method W (Option AuditRecord)
  unfolding read_for find_record to_json
  query key = chain (read_for key) (λ d. pure_call (find_record sha256 (to_json d) key))

  unfoldable pub check_start : AuditKey → Method W (Option AuditRecord)
  unfolding read_for check_start_gate to_json
  check_start key = chain (read_for key) (λ d. pure_call (check_start_gate sha256 (to_json d) key))

  is_absent : Option AuditRecord → Bool
  is_absent none = true
  is_absent (some r) = false

  unfoldable pub can_start : AuditKey → Method W Bool
  unfolding check_start is_absent
  can_start key = chain (check_start key) (λ r. returns (is_absent r))

  -- `serialize_document`
  unfoldable pub serialize_document : Document → Text → Ledger Text
  unfolding validate_document to_json
  serialize_document document sha = written dumps (validate_document sha256 (to_json document) sha)

  unfoldable pub add_arguments : Text → Text → List Text
  add_arguments payload sha =
      codes "notes" ∷ note_ref ∷ codes "add" ∷ codes "-f" ∷ codes "-m" ∷ payload ∷ sha ∷ []

  -- `GitAuditLedger.record`
  unfoldable pub add_record : AuditKey → Text → Option Text → Method W AuditRecord
  unfolding resolve_source_sha validate_evidence_anchor read_document record_outcome
      serialize_document run_at add_arguments to_json
  add_record key outcome summary = chain (resolve_source_sha key.source_sha) (λ sha.
      chain (validate_evidence_anchor key) (λ anchored. chain (read_document sha) (λ document.
        chain (pure_call (record_outcome sha256 (to_json document) key outcome summary)) (λ updated.
          chain (pure_call (serialize_document updated.0 sha)) (λ payload.
            chain (run_at true (add_arguments payload sha)) (λ added. returns updated.1))))))
