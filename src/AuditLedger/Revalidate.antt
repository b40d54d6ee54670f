-- ===== src/AuditLedger/Revalidate.antt =====
-- `.agents/scripts/audit_ledger.py`: a canonical document is validated to itself.
use ring_lang.Common.{
  text_eq_iff, ℕ, ◌+◌, ◌≡◌, refl, ap, sym, ◌∙◌, true, false, List, [], ◌∷◌, Option, none, some, ok,
  Text, codes, text_eq, text_eq_ne, text_eq_refl, mem_text, All, map, any,
}
use ring_lang.Common.Json.{
  str, or_else, Members, Json, texts_of, str_items, items_of, get_member, get_member?, is_str,
  is_one, py_str,
}
use ring_lang.Common.Order.{Distinct, Fresh, Increasing-Distinct, sort_by-Increasing}
use ring_lang.AuditLedger.Keys.{AuditKey, canonical, normalize_source_sha, stored_audit_key}
use ring_lang.AuditLedger.Stored.{stored_audit_key_again}
use ring_lang.AuditLedger.Document.{
  lenses_or_corrupt, record_members, AuditRecord, Document, digest, key_record, validate_members,
  validate_record, validate_records, validate_document, to_json, record_json, summary_member,
  outcome_of, raw_lenses_of, summary_of, members_of, records_of,
}
use ring_lang.AuditLedger.Canonical.{IsEntry, IsLedger, IsNew, key_of, validate_document-IsLedger}

texts_of-str_items : (ss : List Text) → texts_of (str_items ss) ≡ some ss
unfolding texts_of str_items
texts_of-str_items [] = refl
texts_of-str_items (s ∷ ss) = rw (texts_of-str_items ss)

IsNew-cons :
    (r : AuditRecord) (seen : List Text) (rs : List AuditRecord)
    → Fresh (λ x. x.canonical_key) r rs
    → All (IsNew seen) rs
    → All (IsNew (r.canonical_key ∷ seen)) rs
unfolding mem_text any
IsNew-cons r seen [] f n = tt
IsNew-cons r seen (x ∷ rs) f n = (
  rw (text_eq_ne x.canonical_key r.canonical_key (λ e. f.0 (sym e))) n.0,
  IsNew-cons r seen rs f.1 n.1,
)

summary_of-member :
    (index : ℕ) (o : Option Text)
    → summary_of index (get_member (codes "summary") (summary_member o)) ≡ ok o
unfolding summary_of summary_member get_member get_member? text_eq
summary_of-member index none = refl
summary_of-member index (some s) = refl

module _ (sha256 : List ℕ → Text) where
  -- The record that the key of a canonical record gives.
  key_record_same :
      (r : AuditRecord)
      → r.canonical_key ≡ canonical (key_of r)
      → r.key_digest ≡ digest sha256 (key_of r)
      → key_record sha256 (key_of r) r.outcome r.summary ≡ r
  unfolding key_record
  key_record_same r c d = λ i. record {
    canonical_key = sym c i;
    key_digest = sym d i;
    lenses = r.lenses;
    outcome = r.outcome;
    source_sha = r.source_sha;
    trigger_id = r.trigger_id;
    summary = r.summary;
  }

  -- The checks of a record, all passed.
  validate_members-passed :
      (index : ℕ) (sha : Text) (seen : List Text) (ms : Members) (raw : List Text) (key : AuditKey)
      (out : Text) (summ : Option Text)
      → raw_lenses_of index (get_member (codes "lenses") ms) ≡ ok raw
      → stored_audit_key
          (py_str (or_else (str []) (get_member? (codes "trigger_id") ms)))
          (py_str (or_else (str []) (get_member? (codes "source_sha") ms)))
          raw
        ≡ ok key
      → text_eq key.source_sha sha ≡ true
      → is_str (canonical key) (get_member (codes "canonical_key") ms) ≡ true
      → is_str (digest sha256 key) (get_member (codes "key_digest") ms) ≡ true
      → outcome_of index (get_member (codes "outcome") ms) ≡ ok out
      → summary_of index (get_member (codes "summary") ms) ≡ ok summ
      → mem_text (canonical key) seen ≡ false
      → validate_members sha256 index sha seen ms ≡ ok (key_record sha256 key out summ)
  unfolding validate_members
  validate_members-passed index sha seen ms raw key out summ h k s c d o m n =
      rw (h, k, s, c, d, o, m, n)

  validate_record_json :
      (index : ℕ) (sha : Text) (seen : List Text) (r : AuditRecord)
      → IsEntry sha256 sha r
      → IsNew seen r
      → validate_record sha256 index sha seen (record_json r) ≡ ok r
  unfolding validate_record record_json record_members get_member get_member? text_eq is_str py_str
      raw_lenses_of outcome_of summary_member summary_of
  validate_record_json index sha seen r (stored, s, c, d, o) n =
      validate_members-passed index sha seen (record_members r) r.lenses (key_of r) r.outcome
        r.summary (ap (lenses_or_corrupt index) (texts_of-str_items r.lenses))
        (stored_audit_key_again (key_of r) stored) ((text_eq_iff r.source_sha sha).1 s)
        ((text_eq_iff r.canonical_key (canonical (key_of r))).1 c)
        ((text_eq_iff r.key_digest (digest sha256 (key_of r))).1 d) (rw o)
        (summary_of-member index r.summary) (ap (λ k. mem_text k seen) (sym c) ∙ n)
      ∙ ap ok (key_record_same r c d)

  validate_records_json :
      (index : ℕ) (sha : Text) (seen : List Text) (rs : List AuditRecord)
      → All (IsEntry sha256 sha) rs
      → Distinct (λ r. r.canonical_key) rs
      → All (IsNew seen) rs
      → validate_records sha256 index sha seen (items_of (map record_json rs)) ≡ ok rs
  unfolding validate_records items_of
  validate_records_json index sha seen [] e d n = refl
  validate_records_json index sha seen (r ∷ rs) e d n =
      rw (validate_record_json index sha seen r e.0 n.0) (
        rw (
          validate_records_json (index + 1) sha (r.canonical_key ∷ seen) rs e.1 d.1
            (IsNew-cons r seen rs d.0 n.1)))

  IsNew-nothing : (rs : List AuditRecord) → All (IsNew []) rs
  unfolding mem_text any
  IsNew-nothing [] = tt
  IsNew-nothing (r ∷ rs) = (refl, IsNew-nothing rs)

  validate_document_normal :
      (x : Json) (a b : Text)
      → normalize_source_sha a ≡ normalize_source_sha b
      → validate_document sha256 x a ≡ validate_document sha256 x b
  unfolding validate_document
  validate_document_normal x a b e = rw e

  -- A canonical document is validated to itself, for its own commit id.
  pub validate_document_canonical :
      (d : Document) → IsLedger sha256 d → validate_document sha256 (to_json d) d.source_sha ≡ ok d
  unfolding validate_document to_json get_member get_member? text_eq is_one is_str members_of
      records_of
  validate_document_canonical d (n, e, inc) = rw (
    n,
    text_eq_refl d.source_sha,
    validate_records_json 0 d.source_sha [] d.records e
        (Increasing-Distinct (λ r. r.canonical_key) d.records inc) (IsNew-nothing d.records),
    sort_by-Increasing (λ r. r.canonical_key) d.records inc,
  )

  -- Validation makes a document canonical: whatever JSON value it accepts, the document that it
  -- returns is accepted again for its own commit id, and returned unchanged.
  pub validate_document_idempotent :
      (x : Json) (sha : Text) (d : Document)
      → validate_document sha256 x sha ≡ ok d
      → validate_document sha256 (to_json d) d.source_sha ≡ ok d
  validate_document_idempotent x sha d h =
      validate_document_canonical d (validate_document-IsLedger sha256 x sha d h).0

  -- The document is accepted again under every commit id with the same normal form.
  pub validate_document_again :
      (x : Json) (sha : Text) (d : Document)
      → validate_document sha256 x sha ≡ ok d
      → validate_document sha256 (to_json d) sha ≡ ok d
  validate_document_again x sha d h =
      let (l, n) = validate_document-IsLedger sha256 x sha d h in
      validate_document_normal (to_json d) sha d.source_sha (n ∙ sym l.0)
      ∙ validate_document_canonical d l
