-- ===== src/AuditLedger/Rounds.antt =====
-- `.agents/scripts/audit_ledger.py`: the debounce of audit rounds by the gate and the recorded outcomes.
use ring_lang.Common.{
  ℕ, ◌≡◌, refl, ap, ◌∙◌, inl, inr, Bool, false, ◌&&◌, ◌||◌, List, [], ◌∷◌, Option, none, some, ok,
  err, not, Text, text_eq, any, if◌then◌else◌, arith, Bool-cases,
}
use ring_lang.Common.Json.{Json}
use ring_lang.AuditLedger.Keys.{AuditKey, canonical, parse_evidence_event, same_scope}
use ring_lang.AuditLedger.Document.{
  AuditRecord, Document, Ledger, validate_document, invalid_ledger_input,
}
use ring_lang.AuditLedger.Gate.{
  is_evidence, find_by, same_lenses, scan_records, gate_result, check_start_gate,
}

-- A record of another round with the lenses of the key.
unfoldable pub shares_scope : AuditKey → List AuditRecord → Bool
unfolding any same_lenses
shares_scope key rs = any (λ r. same_lenses r.lenses key.lenses) rs

scan_records-find :
    (key : AuditKey) (scope : Bool) (rs : List AuditRecord)
    → (scan_records key scope rs).1 ≡ find_by (canonical key) rs
unfolding scan_records find_by
scan_records-find key scope [] = refl
scan_records-find key scope (r ∷ rs) = elim (Bool-cases (text_eq r.canonical_key (canonical key))) [
  | inl e ↦ rw e
  | inr e ↦ rw e (scan_records-find key (scope || same_lenses r.lenses key.lenses) rs)
]

or_assoc : (a b c : Bool) → (a || b || c) ≡ (a || (b || c))
or_assoc a b c = ground arith

find_by-cons :
    (c : Text) (r : AuditRecord) (rs : List AuditRecord)
    → find_by c (r ∷ rs) ≡ none
    → (text_eq r.canonical_key c ≡ false) × (find_by c rs ≡ none)
unfolding find_by
find_by-cons c r rs h = elim (Bool-cases (text_eq r.canonical_key c)) [
  | inl e ↦ cc (e, h)
  | inr e ↦ (e, cc (e, h))
]

scan_records-scope :
    (key : AuditKey) (scope : Bool) (rs : List AuditRecord)
    → find_by (canonical key) rs ≡ none
    → (scan_records key scope rs).0 ≡ (scope || shares_scope key rs)
unfolding scan_records shares_scope any
scan_records-scope key scope [] h = ground arith
scan_records-scope key scope (r ∷ rs) h =
    let (e, f) = find_by-cons (canonical key) r rs h in
    rw e (
      scan_records-scope key (scope || same_lenses r.lenses key.lenses) rs f
      ∙ or_assoc scope (same_lenses r.lenses key.lenses) (shares_scope key rs))

-- The gate without its loop: an exact record is returned; a round that shares the scope of a record is
-- refused, unless its trigger is an evidence event; every other round may start.
abbrev pub gate_promise : AuditKey → Bool → Option AuditRecord → Ledger (Option AuditRecord)
gate_promise key shared (some r) = ok (some r)
gate_promise key shared none =
    if shared && not (is_evidence (parse_evidence_event key.trigger_id))
    then err (invalid_ledger_input same_scope)
    else ok none

gate_result_promise :
    (key : AuditKey) (scope shared : Bool) (o : Option AuditRecord)
    → (o ≡ none → scope ≡ shared)
    → gate_result key (scope, o) ≡ gate_promise key shared o
unfolding gate_result
gate_result_promise key scope shared (some r) h = refl
gate_result_promise key scope shared none h = rw (h refl) refl

module _ (sha256 : List ℕ → Text) where
  -- On a document that is valid for the key's commit, the gate does what it promises: it returns the
  -- exact record; else it refuses a trigger that is no evidence event when a record has the same
  -- lenses; else it lets the round start.
  pub check_start_gate-promise :
      (x : Json) (key : AuditKey) (d : Document)
      → validate_document sha256 x key.source_sha ≡ ok d
      → check_start_gate sha256 x key
        ≡ gate_promise key (shares_scope key d.records) (find_by (canonical key) d.records)
  unfolding check_start_gate
  check_start_gate-promise x key d h =
      let s = scan_records key false d.records in
      rw h (
        ap (λ o. gate_result key (s.0, o)) (scan_records-find key false d.records)
        ∙ gate_result_promise key s.0 (shares_scope key d.records)
            (find_by (canonical key) d.records) (scan_records-scope key false d.records))
