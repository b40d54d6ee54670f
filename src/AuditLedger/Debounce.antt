-- ===== src/AuditLedger/Debounce.antt =====
-- `.agents/scripts/audit_ledger.py`: the ledger after a recorded outcome.
use ring_lang.Common.{
  ℕ, ◌≡◌, ◌≢◌, refl, ap, sym, ◌∙◌, List, [], ◌∷◌, ◌++◌, Option, none, some, ok, Text, text_eq,
  text_eq_ne, text_eq_refl, All-append, mem_text, true, if◌then◌else◌,
}
use ring_lang.Common.Json.{Json}
use ring_lang.Common.Order.{sort_by, Distinct, sort_by-Distinct, sort_by-All, Increasing-Distinct}
use ring_lang.AuditLedger.Patterns.{outcomes}
use ring_lang.AuditLedger.Keys.{Checked, AuditKey, canonical, normalize_source_sha}
use ring_lang.AuditLedger.Stored.{IsStored}
use ring_lang.AuditLedger.Document.{AuditRecord, Document, validate_document, to_json, key_record}
use ring_lang.AuditLedger.Canonical.{IsEntry, IsLedger, validate_document-IsLedger}
use ring_lang.AuditLedger.Revalidate.{validate_document_canonical}
use ring_lang.AuditLedger.Gate.{find_by, find_record, record_outcome}
use ring_lang.AuditLedger.Recorded.{
  record_outcome-steps, find_by-Fresh, find_by-sort_by, find_by-snoc, Distinct-snoc, key_text,
  first,
}

first-none : (o : Option AuditRecord) → first o none ≡ o
first-none none = refl
first-none (some r) = refl

sha_inj : {a b : Text} → ◌≡◌ {A = Checked Text} (ok a) (ok b) → b ≡ a
sha_inj h = cc

module _ (sha256 : List ℕ → Text) where
  -- The ledger with one more round.
  abbrev extended : Document → AuditKey → Text → Option Text → Document
  extended old key outcome s = record {
    records = sort_by key_text (old.records ++ key_record sha256 key outcome s ∷ []);
    source_sha = key.source_sha;
  }

  key_record-IsEntry :
      (key : AuditKey) (outcome : Text) (s : Option Text)
      → IsStored key
      → mem_text outcome outcomes ≡ true
      → IsEntry sha256 key.source_sha (key_record sha256 key outcome s)
  unfolding key_record
  key_record-IsEntry key outcome s k o = (k, refl, refl, refl, o)

  same_sha :
      (key : AuditKey) (d : Document)
      → IsStored key
      → normalize_source_sha key.source_sha ≡ ok d.source_sha
      → d.source_sha ≡ key.source_sha
  same_sha key d k n = sha_inj (sym k.1 ∙ n)

  extended-Distinct :
      (old : Document) (key : AuditKey) (outcome : Text) (s : Option Text)
      → IsLedger sha256 old
      → find_by (canonical key) old.records ≡ none
      → Distinct key_text (old.records ++ key_record sha256 key outcome s ∷ [])
  unfolding key_record
  extended-Distinct old key outcome s l f =
      let r = key_record sha256 key outcome s in
      Distinct-snoc r old.records (find_by-Fresh (canonical key) old.records f r refl)
        (Increasing-Distinct key_text old.records l.2)

  extended-IsLedger :
      (old : Document) (key : AuditKey) (outcome : Text) (s : Option Text)
      → IsStored key
      → IsLedger sha256 old
      → old.source_sha ≡ key.source_sha
      → find_by (canonical key) old.records ≡ none
      → mem_text outcome outcomes ≡ true
      → IsLedger sha256 (extended old key outcome s)
  extended-IsLedger old key outcome s k l e f o =
      let r = key_record sha256 key outcome s in
      let entries =
        All-append (IsEntry sha256 key.source_sha) old.records (r ∷ []) (rw (sym e) l.1)
          (key_record-IsEntry key outcome s k o, tt) in
      (
        k.1,
        sort_by-All key_text (IsEntry sha256 key.source_sha) (old.records ++ r ∷ []) entries,
        sort_by-Distinct key_text (old.records ++ r ∷ []) (extended-Distinct old key outcome s l f),
      )

  find_by-extended :
      (old : Document) (key : AuditKey) (outcome : Text) (s : Option Text) (c : Text)
      → IsLedger sha256 old
      → find_by (canonical key) old.records ≡ none
      → find_by c (extended old key outcome s).records
        ≡ first
            (find_by c old.records)
            (if text_eq (canonical key) c then some (key_record sha256 key outcome s) else none)
  unfolding key_record
  find_by-extended old key outcome s c l f =
      let r = key_record sha256 key outcome s in
      find_by-sort_by c (old.records ++ r ∷ []) (extended-Distinct old key outcome s l f)
      ∙ find_by-snoc c r old.records

  find_record-canonical :
      (d : Document) (key : AuditKey)
      → IsLedger sha256 d
      → d.source_sha ≡ key.source_sha
      → find_record sha256 (to_json d) key ≡ ok (find_by (canonical key) d.records)
  unfolding find_record
  find_record-canonical d key l e =
      rw
        (ap (validate_document sha256 (to_json d)) (sym e) ∙ validate_document_canonical sha256 d l)
        refl

  -- After an outcome is recorded for a key that was made by `create` or loaded from the ledger, the
  -- document is a canonical ledger of the key's commit, and looking the key up in it finds the new record.
  pub record_outcome-found :
      (x : Json) (key : AuditKey) (outcome : Text) (summary : Option Text) (d : Document)
      (r : AuditRecord)
      → IsStored key
      → record_outcome sha256 x key outcome summary ≡ ok (d, r)
      → IsLedger sha256 d × (find_record sha256 (to_json d) key ≡ ok (some r))
  record_outcome-found x key outcome summary d r k h =
      let (old, s, v, f, o, er, ed) = record_outcome-steps sha256 x key outcome summary d r h in
      let (l, n) = validate_document-IsLedger sha256 x key.source_sha old v in
      let m = extended-IsLedger old key outcome s k l (same_sha key old k n) f o in
      let found =
        find_by-extended old key outcome s (canonical key) l f
        ∙ rw (f, text_eq_refl (canonical key)) in
      rw (ed, er) (m, find_record-canonical (extended old key outcome s) key m refl ∙ ap ok found)

  -- Recording an outcome changes the lookup of no other key of the same commit.
  pub record_outcome-others :
      (x : Json) (key other : AuditKey) (outcome : Text) (summary : Option Text) (d : Document)
      (r : AuditRecord)
      → IsStored key
      → other.source_sha ≡ key.source_sha
      → canonical other ≢ canonical key
      → record_outcome sha256 x key outcome summary ≡ ok (d, r)
      → find_record sha256 (to_json d) other ≡ find_record sha256 x other
  unfolding find_record
  record_outcome-others x key other outcome summary d r k e c h =
      let (old, s, v, f, o, er, ed) = record_outcome-steps sha256 x key outcome summary d r h in
      let (l, n) = validate_document-IsLedger sha256 x key.source_sha old v in
      let m = extended-IsLedger old key outcome s k l (same_sha key old k n) f o in
      let kept =
        find_by-extended old key outcome s (canonical other) l f
        ∙ rw (text_eq_ne (canonical key) (canonical other) (λ q. c (sym q)))
            (first-none (find_by (canonical other) old.records)) in
      let before : find_record sha256 x other ≡ ok (find_by (canonical other) old.records) =
        rw (ap (validate_document sha256 x) e ∙ v) refl in
      rw ed (
        find_record-canonical (extended old key outcome s) other m (sym e)
        ∙ ap ok kept
        ∙ sym before)
