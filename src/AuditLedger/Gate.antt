-- ===== src/AuditLedger/Gate.antt =====
-- `.agents/scripts/audit_ledger.py`: the search of the ledger, the gate of a round and the new record.
use ring_lang.Common.{
  ℕ, Bool, true, false, ◌&&◌, ◌||◌, List, [], ◌∷◌, ◌++◌, Option, none, some, ok, err, ◌>>=◌, ◌>>◌,
  raise_if, ltb, if◌then◌else◌, not, Text, text_eq, strip, is_empty, mem_text, length,
}
use ring_lang.Common.Order.{sort_by}
use ring_lang.Common.Json.{Json}
use ring_lang.AuditLedger.Patterns.{outcomes}
use ring_lang.AuditLedger.Keys.{
  EvidenceEvent, same_scope, bad_outcome, long_summary, AuditKey, canonical, parse_evidence_event,
}
use ring_lang.AuditLedger.Document.{
  Ledger, to_json, key_record, validate_document, AuditRecord, Document, invalid_ledger_input,
  already_recorded,
}

unfoldable pub find_by : Text → List AuditRecord → Option AuditRecord
unfolding text_eq
find_by key [] = none
find_by key (r ∷ rs) =
    let rest = find_by key rs in if text_eq r.canonical_key key then some r else rest

unfoldable pub same_lenses : List Text → List Text → Bool
unfolding text_eq
same_lenses [] [] = true
same_lenses (a ∷ s) (b ∷ t) = text_eq a b && same_lenses s t
same_lenses _ _ = false

-- The loop of the gate: an exact record returns at once, others are searched for the same lenses.
unfoldable pub scan_records : AuditKey → Bool → List AuditRecord → Bool × Option AuditRecord
unfolding text_eq canonical same_lenses
scan_records key scope [] = (scope, none)
scan_records key scope (r ∷ rs) =
    let rest = scan_records key (scope || same_lenses r.lenses key.lenses) rs in
    if text_eq r.canonical_key (canonical key) then (scope, some r) else rest

-- `event is not None`
unfoldable pub is_evidence : Option EvidenceEvent → Bool
is_evidence none = false
is_evidence (some event) = true

unfoldable pub gate_result : AuditKey → Bool × Option AuditRecord → Ledger (Option AuditRecord)
unfolding parse_evidence_event is_evidence
gate_result key (scope, some r) = ok (some r)
gate_result key (scope, none) =
    if scope && not (is_evidence (parse_evidence_event key.trigger_id))
    then err (invalid_ledger_input same_scope)
    else ok none

unfoldable pub reject_existing : Option AuditRecord → Ledger (Unit {0})
reject_existing none = ok tt
reject_existing (some r) = err (already_recorded r)

unfoldable pub normalize_summary : Option Text → Ledger (Option Text)
unfolding strip
normalize_summary none = ok none
normalize_summary (some summary) =
    let s = strip summary in
    if is_empty s
    then ok none
    else if ltb 1000 (length s)
    then err (invalid_ledger_input long_summary)
    else ok (some s)

module _ (sha256 : List ℕ → Text) where
  unfoldable pub find_record : Json → AuditKey → Ledger (Option AuditRecord)
  unfolding validate_document find_by canonical
  find_record document key = do
    let d = (← validate_document sha256 document key.source_sha)
    ok (find_by (canonical key) d.records)

  unfoldable pub check_start_gate : Json → AuditKey → Ledger (Option AuditRecord)
  unfolding validate_document scan_records gate_result
  check_start_gate document key = do
    let d = (← validate_document sha256 document key.source_sha)
    gate_result key (scan_records key false d.records)

  unfoldable pub record_outcome :
      Json → AuditKey → Text → Option Text → Ledger (Document × AuditRecord)
  unfolding validate_document check_start_gate to_json reject_existing mem_text normalize_summary
      key_record sort_by
  record_outcome document key outcome summary = do
    let d = (← validate_document sha256 document key.source_sha)
    let existing = (← check_start_gate (to_json d) key)
    reject_existing existing
    raise_if (not (mem_text outcome outcomes)) (invalid_ledger_input bad_outcome)
    let normalized = (← normalize_summary summary)
    let r = key_record sha256 key outcome normalized
    let updated = sort_by (λ x. x.canonical_key) (d.records ++ r ∷ [])
    ok (record { records = updated; source_sha = key.source_sha }, r)
