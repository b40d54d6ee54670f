-- ===== src/AuditLedger/Recorded.antt =====
-- `.agents/scripts/audit_ledger.py`: what recording an outcome does to the ledger.
use ring_lang.Common.{
  ℕ, ◌≡◌, ◌≢◌, refl, ap, sym, ◌∙◌, inl, inr, Bool, true, false, ◌&&◌, List, [], ◌∷◌, ◌++◌, Option,
  none, some, ok, err, not, Text, text_eq, text_eq_ne, text_eq_iff, if◌then◌else◌, Bool-cases,
  mem_text, >>=-eq-ok, raise_if-eq-ok,
}
use ring_lang.Common.Json.{Json}
use ring_lang.Common.Order.{sort_by, put_sorted, Distinct, Fresh, Fresh-sort_by, lt_text}
use ring_lang.AuditLedger.Patterns.{outcomes}
use ring_lang.AuditLedger.Keys.{AuditKey, canonical}
use ring_lang.AuditLedger.Document.{
  AuditRecord, Document, Ledger, validate_document, to_json, already_recorded, key_record,
}
use ring_lang.AuditLedger.Canonical.{not-false, ok-inj}
use ring_lang.AuditLedger.Revalidate.{validate_document_again}
use ring_lang.AuditLedger.Gate.{
  find_by, find_record, check_start_gate, reject_existing, normalize_summary, record_outcome,
}
use ring_lang.AuditLedger.Rounds.{gate_promise, shares_scope, check_start_gate-promise}

abbrev pub key_text : AuditRecord → Text
key_text r = r.canonical_key

pub find_by-Fresh :
    (c : Text) (rs : List AuditRecord)
    → find_by c rs ≡ none
    → (r : AuditRecord) → r.canonical_key ≡ c
    → Fresh key_text r rs
unfolding find_by
find_by-Fresh c [] h r e = tt
find_by-Fresh c (x ∷ rs) h r e = elim (Bool-cases (text_eq x.canonical_key c)) [
  | inl same ↦ cc (same, h)
  | inr other ↦ (
    (λ k. cc (other, (text_eq_iff x.canonical_key c).1 (sym k ∙ e))),
    find_by-Fresh c rs (cc (other, h)) r e,
  )
]

-- Two records with different keys do not both have the key looked for.
apart :
    (c : Text) (r x : AuditRecord)
    → r.canonical_key ≢ x.canonical_key
    → (text_eq r.canonical_key c && text_eq x.canonical_key c) ≡ false
apart c r x n = elim (Bool-cases (text_eq r.canonical_key c)) [
  | inl e ↦
      rw (e, text_eq_ne x.canonical_key c (λ k. n ((text_eq_iff r.canonical_key c).0 e ∙ sym k)))
  | inr e ↦ rw e
]

swap_tests :
    (a b : Bool) (r x : AuditRecord) (o : Option AuditRecord)
    → (a && b) ≡ false
    → (if b then some x else (if a then some r else o))
      ≡ (if a then some r else (if b then some x else o))
swap_tests true true r x o h = cc
swap_tests true false r x o h = refl
swap_tests false true r x o h = refl
swap_tests false false r x o h = refl

-- Looking up a key passes over a record with another key.
find_by-put_sorted :
    (c : Text) (r : AuditRecord) (rs : List AuditRecord)
    → Fresh key_text r rs
    → find_by c (put_sorted key_text r rs)
      ≡ (if text_eq r.canonical_key c then some r else find_by c rs)
unfolding find_by put_sorted
find_by-put_sorted c r [] f = refl
find_by-put_sorted c r (x ∷ rs) f = elim (Bool-cases (lt_text x.canonical_key r.canonical_key)) [
  | inl e ↦
      rw (e, find_by-put_sorted c r rs f.1)
        (swap_tests (text_eq r.canonical_key c) (text_eq x.canonical_key c) r x (find_by c rs)
          (apart c r x f.0))
  | inr e ↦ rw e
]

pub find_by-sort_by :
    (c : Text) (rs : List AuditRecord)
    → Distinct key_text rs
    → find_by c (sort_by key_text rs) ≡ find_by c rs
unfolding find_by sort_by
find_by-sort_by c [] d = refl
find_by-sort_by c (r ∷ rs) d =
    find_by-put_sorted c r (sort_by key_text rs) (Fresh-sort_by key_text r rs d.0)
    ∙ rw (find_by-sort_by c rs d.1)

abbrev pub first : Option AuditRecord → Option AuditRecord → Option AuditRecord
first (some r) o = some r
first none o = o

pub find_by-snoc :
    (c : Text) (r : AuditRecord) (rs : List AuditRecord)
    → find_by c (rs ++ r ∷ [])
      ≡ first (find_by c rs) (if text_eq r.canonical_key c then some r else none)
unfolding find_by
find_by-snoc c r [] = refl
find_by-snoc c r (x ∷ rs) = elim (Bool-cases (text_eq x.canonical_key c)) [
  | inl e ↦ rw e
  | inr e ↦ rw e (find_by-snoc c r rs)
]

Fresh-snoc :
    (x r : AuditRecord) (rs : List AuditRecord)
    → key_text x ≢ key_text r
    → Fresh key_text x rs
    → Fresh key_text x (rs ++ r ∷ [])
Fresh-snoc x r [] n f = (n, tt)
Fresh-snoc x r (y ∷ rs) n f = (f.0, Fresh-snoc x r rs n f.1)

pub Distinct-snoc :
    (r : AuditRecord) (rs : List AuditRecord)
    → Fresh key_text r rs
    → Distinct key_text rs
    → Distinct key_text (rs ++ r ∷ [])
Distinct-snoc r [] f d = (tt, tt)
Distinct-snoc r (x ∷ rs) f d =
    (Fresh-snoc x r rs (λ e. f.0 (sym e)) d.0, Distinct-snoc r rs f.1 d.1)

found_inj : {a b : Option AuditRecord} → ◌≡◌ {A = Ledger (Option AuditRecord)} (ok a) (ok b) → a ≡ b
found_inj h = cc

module _ (sha256 : List ℕ → Text) where
  gate_again :
      (x : Json) (key : AuditKey) (d : Document)
      → validate_document sha256 x key.source_sha ≡ ok d
      → check_start_gate sha256 (to_json d) key
        ≡ gate_promise key (shares_scope key d.records) (find_by (canonical key) d.records)
  gate_again x key d h =
      check_start_gate-promise sha256 (to_json d) key d
        (validate_document_again sha256 x key.source_sha d h)

  -- A round that is in the ledger is never recorded again: the call raises with the old record.
  pub record_outcome-recorded :
      (x : Json) (key : AuditKey) (outcome : Text) (summary : Option Text) (r : AuditRecord)
      → find_record sha256 x key ≡ ok (some r)
      → record_outcome sha256 x key outcome summary ≡ err (already_recorded r)
  unfolding record_outcome find_record reject_existing
  record_outcome-recorded x key outcome summary r h =
      let (d, e, f) = >>=-eq-ok (validate_document sha256 x key.source_sha) _ h in
      let g : find_by (canonical key) d.records ≡ some r = found_inj f in
      let again = gate_again x key d e ∙ ap (gate_promise key (shares_scope key d.records)) g in
      rw (e, again) refl

  promise_start :
      (key : AuditKey) (shared : Bool) (o old : Option AuditRecord)
      → gate_promise key shared o ≡ ok old
      → reject_existing old ≡ ok tt
      → o ≡ none
  unfolding reject_existing
  promise_start key shared none old h k = refl
  promise_start key shared (some r) (some q) h k = cc
  promise_start key shared (some r) none h k = cc

  -- What a successful call has passed.
  pub record_outcome-steps :
      (x : Json) (key : AuditKey) (outcome : Text) (summary : Option Text) (d : Document)
      (r : AuditRecord)
      → record_outcome sha256 x key outcome summary ≡ ok (d, r)
      → (old : Document) × (s : Option Text) × (validate_document sha256 x key.source_sha ≡ ok old)
        × (find_by (canonical key) old.records ≡ none)
        × (mem_text outcome outcomes ≡ true)
        × (r ≡ key_record sha256 key outcome s)
        × (d ≡ record {
          records = sort_by key_text (old.records ++ key_record sha256 key outcome s ∷ []);
          source_sha = key.source_sha;
        })
  unfolding record_outcome
  record_outcome-steps x key outcome summary d r h =
      let (old, e, f) = >>=-eq-ok (validate_document sha256 x key.source_sha) _ h in
      let (there, g, i) = >>=-eq-ok (check_start_gate sha256 (to_json old) key) _ f in
      let (u, j, k) = >>=-eq-ok (reject_existing there) _ i in
      let (o, l) = raise_if-eq-ok (not (mem_text outcome outcomes)) _ _ k in
      let (s, m, n) = >>=-eq-ok (normalize_summary summary) _ l in
      let q : (d, r) ≡ (
        record {
          records = sort_by key_text (old.records ++ key_record sha256 key outcome s ∷ []);
          source_sha = key.source_sha;
        },
        key_record sha256 key outcome s,
      ) =
        ok-inj n in
      let free =
        promise_start key _ (find_by (canonical key) old.records) there
          (sym (gate_again x key old e) ∙ g) j in
      (old, s, e, free, not-false o, ap (λ t. t.1) q, ap (λ t. t.0) q)
