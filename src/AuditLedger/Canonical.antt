-- ===== src/AuditLedger/Canonical.antt =====
-- `.agents/scripts/audit_ledger.py`: what `validate_document` returns, and that it returns it again.
use ring_lang.Common.{
  if◌then◌else◌, ℕ, ◌+◌, ◌≡◌, refl, ap, sym, ◌∙◌, Bool, true, false, List, [], ◌∷◌, ok, err, not,
  Text, codes, text_eq, text_eq_iff, mem_text, All, >>=-eq-ok, raise_if-eq-ok, any, or-eq-false,
}
use ring_lang.Common.Json.{
  Json, str, array, object, Items, no_items, item, Members, get_member, get_member?, or_else,
  is_str, is_one, py_str,
}
use ring_lang.Common.Order.{sort_by, Increasing, Distinct, Fresh, sort_by-Distinct, sort_by-All}
use ring_lang.AuditLedger.Patterns.{outcomes}
use ring_lang.AuditLedger.Keys.{
  AuditKey, canonical, stored_audit_key, normalize_source_sha, Checked,
}
use ring_lang.AuditLedger.Normal.{normalize_source_sha_idempotent}
use ring_lang.AuditLedger.Stored.{IsStored, stored_audit_key-IsStored}
use ring_lang.AuditLedger.Document.{
  AuditRecord, Document, Ledger, digest, key_record, validate_members, validate_record,
  validate_records, validate_document, reraise, checked, outcome_of, raw_lenses_of, summary_of,
  members_of, records_of, LedgerError,
}

pub not-false : {b : Bool} → not b ≡ false → b ≡ true
not-false {b = true} h = refl
not-false {b = false} h = cc

not-true : {b : Bool} → not (not b) ≡ false → b ≡ false
not-true {b = false} h = refl
not-true {b = true} h = cc

pub ok-inj : {A : Type 0} {a b : A} → ◌≡◌ {A = Ledger A} (ok a) (ok b) → b ≡ a
ok-inj h = cc

-- The key of a record.
abbrev pub key_of : AuditRecord → AuditKey
key_of r = record { trigger_id = r.trigger_id; source_sha = r.source_sha; lenses = r.lenses }

reraise-ok : {A : Type 0} (index : ℕ) (m : Checked A) {a : A} → reraise index m ≡ ok a → m ≡ ok a
reraise-ok index (err e) h = cc
reraise-ok index (ok a) h = cc

checked-ok : {A : Type 0} (m : Checked A) {a : A} → checked m ≡ ok a → m ≡ ok a
checked-ok (err e) h = cc
checked-ok (ok a) h = cc

if_ok :
    (b : Bool) (s : Text) (e : LedgerError) {v : Text}
    → ◌≡◌ {A = Ledger Text} (if b then ok s else err e) (ok v)
    → (b ≡ true) × (v ≡ s)
if_ok true s e h = (refl, cc)
if_ok false s e h = cc

outcome_of-known :
    (index : ℕ) (x : Json) {s : Text} → outcome_of index x ≡ ok s → mem_text s outcomes ≡ true
unfolding outcome_of
outcome_of-known index (str s) h =
    let (e, v) = if_ok (mem_text s outcomes) s _ h in ap (λ x. mem_text x outcomes) v ∙ e
outcome_of-known index (array xs) h = cc
outcome_of-known index (object ms) h = cc
outcome_of-known index _ h = cc

-- The key stands in no record seen before.
abbrev pub IsNew : List Text → AuditRecord → Type 0
IsNew seen r = mem_text r.canonical_key seen ≡ false

Fresh-of_IsNew :
    (r : AuditRecord) (seen : List Text) (rs : List AuditRecord)
    → All (IsNew (r.canonical_key ∷ seen)) rs
    → Fresh (λ x. x.canonical_key) r rs × All (IsNew seen) rs
unfolding mem_text any
Fresh-of_IsNew r seen [] h = (tt, tt)
Fresh-of_IsNew r seen (x ∷ rs) h =
    let (a, b) = or-eq-false (text_eq x.canonical_key r.canonical_key) _ h.0 in
    let (f, n) = Fresh-of_IsNew r seen rs h.1 in
    (((λ e. cc ((text_eq_iff x.canonical_key r.canonical_key).1 (sym e), a)), f), (b, n))

module _ (sha256 : List ℕ → Text) where
  -- A canonical record of the ledger of one commit.
  abbrev pub IsEntry : Text → AuditRecord → Type 0
  IsEntry sha r =
      IsStored (key_of r)
      × (r.source_sha ≡ sha)
      × (r.canonical_key ≡ canonical (key_of r))
      × (r.key_digest ≡ digest sha256 (key_of r))
      × (mem_text r.outcome outcomes ≡ true)

  validate_members-IsEntry :
      (index : ℕ) (sha : Text) (seen : List Text) (ms : Members) (r : AuditRecord)
      → validate_members sha256 index sha seen ms ≡ ok r
      → IsEntry sha r × (mem_text r.canonical_key seen ≡ false)
  unfolding validate_members key_record
  validate_members-IsEntry index sha seen ms r h =
      let t = py_str (or_else (str []) (get_member? (codes "trigger_id") ms)) in
      let u = py_str (or_else (str []) (get_member? (codes "source_sha") ms)) in
      let (raw, e0, h0) = >>=-eq-ok (raw_lenses_of index (get_member (codes "lenses") ms)) _ h in
      let (key, e1, h1) = >>=-eq-ok (reraise index (stored_audit_key t u raw)) _ h0 in
      let (same, h2) = raise_if-eq-ok (not (text_eq key.source_sha sha)) _ _ h1 in
      let (c, h3) =
        raise_if-eq-ok (not (is_str (canonical key) (get_member (codes "canonical_key") ms))) _ _
          h2 in
      let (d, h4) =
        raise_if-eq-ok (not (is_str (digest sha256 key) (get_member (codes "key_digest") ms))) _ _
          h3 in
      let (out, e5, h5) = >>=-eq-ok (outcome_of index (get_member (codes "outcome") ms)) _ h4 in
      let (summ, e6, h6) = >>=-eq-ok (summary_of index (get_member (codes "summary") ms)) _ h5 in
      let (new, h7) = raise_if-eq-ok (not (not (mem_text (canonical key) seen))) _ _ h6 in
      let e7 : r ≡ key_record sha256 key out summ = ok-inj h7 in
      rw e7 (
        (
          stored_audit_key-IsStored t u raw key (reraise-ok index (stored_audit_key t u raw) e1),
          (text_eq_iff key.source_sha sha).0 (not-false same),
          refl,
          refl,
          outcome_of-known index (get_member (codes "outcome") ms) e5,
        ),
        not-true new,
      )

  validate_record-IsEntry :
      (index : ℕ) (sha : Text) (seen : List Text) (x : Json) (r : AuditRecord)
      → validate_record sha256 index sha seen x ≡ ok r
      → IsEntry sha r × (mem_text r.canonical_key seen ≡ false)
  unfolding validate_record
  validate_record-IsEntry index sha seen (object ms) r h =
      validate_members-IsEntry index sha seen ms r h
  validate_record-IsEntry index sha seen _ r h = cc

  validate_records-All :
      (index : ℕ) (sha : Text) (seen : List Text) (xs : Items) (rs : List AuditRecord)
      → validate_records sha256 index sha seen xs ≡ ok rs
      → All (IsEntry sha) rs × Distinct (λ r. r.canonical_key) rs × All (IsNew seen) rs
  unfolding validate_records
  validate_records-All index sha seen no_items rs h =
      let e : rs ≡ [] = ok-inj h in rw e (tt, tt, tt)
  validate_records-All index sha seen (item x xs) rs h =
      let (r, e0, h0) = >>=-eq-ok (validate_record sha256 index sha seen x) _ h in
      let (rest, e1, h1) =
        >>=-eq-ok (validate_records sha256 (index + 1) sha (r.canonical_key ∷ seen) xs) _ h0 in
      let e2 : rs ≡ r ∷ rest = ok-inj h1 in
      let (entry, new) = validate_record-IsEntry index sha seen x r e0 in
      let (entries, dist, others) =
        validate_records-All (index + 1) sha (r.canonical_key ∷ seen) xs rest e1 in
      let (fresh, news) = Fresh-of_IsNew r seen rest others in
      rw e2 ((entry, entries), (fresh, dist), (new, news))

  -- A canonical document: the records of one full commit id, each with the key that its fields give,
  -- in increasing order of the keys.
  abbrev pub IsLedger : Document → Type 0
  IsLedger d =
      (normalize_source_sha d.source_sha ≡ ok d.source_sha)
      × All (IsEntry d.source_sha) d.records
      × Increasing (λ r. r.canonical_key) d.records

  pub validate_document-IsLedger :
      (x : Json) (sha : Text) (d : Document)
      → validate_document sha256 x sha ≡ ok d
      → IsLedger d × (normalize_source_sha sha ≡ ok d.source_sha)
  unfolding validate_document
  validate_document-IsLedger x sha d h =
      let (v, e0, h0) = >>=-eq-ok (checked (normalize_source_sha sha)) _ h in
      let (ms, e1, h1) = >>=-eq-ok (members_of x) _ h0 in
      let (a, h2) = raise_if-eq-ok (not (is_one (get_member (codes "version") ms))) _ _ h1 in
      let (b, h3) = raise_if-eq-ok (not (is_str v (get_member (codes "source_sha") ms))) _ _ h2 in
      let (xs, e4, h4) = >>=-eq-ok (records_of (get_member (codes "records") ms)) _ h3 in
      let (rs, e5, h5) = >>=-eq-ok (validate_records sha256 0 v [] xs) _ h4 in
      let (entries, dist, news) = validate_records-All 0 v [] xs rs e5 in
      let e6 : d ≡ record { records = sort_by (λ r. r.canonical_key) rs; source_sha = v } =
        ok-inj h5 in
      let n = checked-ok (normalize_source_sha sha) e0 in
      rw e6 (
        (
          normalize_source_sha_idempotent sha v n,
          sort_by-All (λ r. r.canonical_key) (IsEntry v) rs entries,
          sort_by-Distinct (λ r. r.canonical_key) rs dist,
        ),
        n,
      )
