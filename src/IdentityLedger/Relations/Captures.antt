-- ===== src/IdentityLedger/Relations/Captures.antt =====
-- The captures of a ledger without messages: every store has its extract and its closure edge, and
-- every extract has its store.
use ring_lang.Common.{
  true, false, not, List, [], ◌∷◌, ◌≡◌, inl, inr, refl, Option, none, some, arith, In, Bool-cases,
  append-eq-nil, text_eq_iff, Option-cases,
}
use ring_lang.Common.Int.{int_eq_iff}
use ring_lang.Common.Dicts.{Dict, Index, dict_get, is_some, index_key, int_key}
use ring_lang.IdentityLedger.Event.{IdentityLedgerEvent, report}
use ring_lang.IdentityLedger.Tables.{Tables, no_tables, scan, branch_of, capture_key}
use ring_lang.IdentityLedger.Checks.{
  table_errors, store_errors, extract_errors, edge_errors, extract_key_errors, same_identity,
  frames_agree,
}
use ring_lang.IdentityLedger.Relations.Order.{report-eq-nil, accepted_parts}
use ring_lang.IdentityLedger.Relations.Lookup.{scan_finds}
use ring_lang.IdentityLedger.Relations.Entries.{
  is_store, is_extract, is_edge, store_puts, extract_puts, store_fresh, extract_fresh,
  extract_entry_of, store_entry_of, edge_entry_of,
}
use ring_lang.IdentityLedger.Relations.{validate_identity_ledger_relations}

-- The extract and the closure edge that belong to the store `e` of a ledger.
pub record Captured (es : List IdentityLedgerEvent) (e : IdentityLedgerEvent) : Type 0 where
  pub extract : IdentityLedgerEvent
  pub extract_entry : In extract es × (is_extract (branch_of extract) ≡ true)
  pub same_key : capture_key extract ≡ capture_key e
  pub domain : e.domain ≡ extract.domain
  pub def_id : e.def_id ≡ extract.def_id
  pub canonical_key : e.canonical_key ≡ extract.canonical_key
  pub producer : e.producer ≡ extract.producer
  pub edge : IdentityLedgerEvent
  pub edge_entry : In edge es × (is_edge (branch_of edge) ≡ true)
  pub edge_id : edge.edge_id ≡ e.edge_id
  pub slot : e.dest_slot ≡ edge.source_slot
  pub store_frames : (e.parent_frame ≡ edge.parent_frame) × (e.child_frame ≡ edge.child_frame)
  pub extract_frames :
      (extract.parent_frame ≡ edge.parent_frame) × (extract.child_frame ≡ edge.child_frame)

store_errors-get :
    (s : Tables) (d : Dict Index IdentityLedgerEvent) (key : Index) (e : IdentityLedgerEvent)
    → store_errors s d ≡ []
    → dict_get key d ≡ some e
    → extract_errors s key e (dict_get key s.extracts) ≡ []
unfolding store_errors dict_get
store_errors-get s [] key e h there = cc
store_errors-get s ((j, x) ∷ d) key e h there =
    let parts = append-eq-nil (extract_errors s j x (dict_get j s.extracts)) (store_errors s d) h in
    elim (Bool-cases (index_key.same key j)) [
      | inl same ↦
          let ke : key ≡ j = (index_key.same_iff key j).0 same in
          let xe : x ≡ e = ground (arith, rw same at there) in rw (ke, ← xe) parts.0
      | inr other ↦ store_errors-get s d key e parts.1 (rw other at there)
    ]

-- What `extract_errors` has tested when it reports nothing.
abbrev StoreChecked : Tables → IdentityLedgerEvent → Option IdentityLedgerEvent → Type 0
StoreChecked s e o =
    (x : IdentityLedgerEvent) × (g : IdentityLedgerEvent) × (o ≡ some x)
    × (dict_get e.edge_id s.edges ≡ some g)
    × (same_identity e x ≡ true)
    × (frames_agree e x g ≡ true)

edge_checked :
    (s : Tables) (key : Index) (e x : IdentityLedgerEvent) (o : Option IdentityLedgerEvent)
    → edge_errors key e x o ≡ []
    → (g : IdentityLedgerEvent) × (o ≡ some g) × (frames_agree e x g ≡ true)
unfolding edge_errors
edge_checked s key e x none h = cc
edge_checked s key e x (some g) h = (g, refl, ground (arith, report-eq-nil _ _ h))

store_checked :
    (s : Tables) (key : Index) (e : IdentityLedgerEvent) (o : Option IdentityLedgerEvent)
    → extract_errors s key e o ≡ []
    → StoreChecked s e o
unfolding extract_errors
store_checked s key e none h = cc
store_checked s key e (some x) h =
    let parts = append-eq-nil (report (not (same_identity e x)) _) _ h in
    let (g, found, frames) = edge_checked s key e x (dict_get e.edge_id s.edges) parts.1 in
    (x, g, refl, found, ground (arith, report-eq-nil _ _ parts.0), frames)

same_identity-fields :
    (a b : IdentityLedgerEvent)
    → same_identity a b ≡ true
    → (a.domain ≡ b.domain)
      × (a.def_id ≡ b.def_id)
      × (a.canonical_key ≡ b.canonical_key)
      × (a.producer ≡ b.producer)
same_identity-fields a b h = ground (
  arith,
  text_eq_iff a.domain b.domain,
  int_eq_iff a.def_id b.def_id,
  text_eq_iff a.canonical_key b.canonical_key,
  text_eq_iff a.producer b.producer,
)

frames_agree-fields :
    (e x g : IdentityLedgerEvent)
    → frames_agree e x g ≡ true
    → (e.dest_slot ≡ g.source_slot)
      × (e.parent_frame ≡ g.parent_frame)
      × (e.child_frame ≡ g.child_frame)
      × (x.parent_frame ≡ g.parent_frame)
      × (x.child_frame ≡ g.child_frame)
frames_agree-fields e x g h = ground (
  arith,
  text_eq_iff e.dest_slot g.source_slot,
  text_eq_iff e.parent_frame g.parent_frame,
  text_eq_iff e.child_frame g.child_frame,
  text_eq_iff x.parent_frame g.parent_frame,
  text_eq_iff x.child_frame g.child_frame,
)

-- In a ledger without messages every capture store has an extract with its edge id and index and the
-- same identity, and a closure edge with its edge id whose slot and frames both of them fit.
pub accepted-Captured :
    (events : List IdentityLedgerEvent) (e : IdentityLedgerEvent)
    → validate_identity_ledger_relations events ≡ []
    → In e events
    → is_store (branch_of e) ≡ true
    → Captured events e
unfolding table_errors
accepted-Captured events e h i m =
    let (quiet, tables) = accepted_parts events h in
    let s = (scan 1 events no_tables).0 in
    let stores_ok = (append-eq-nil (store_errors s s.stores) _ tables).0 in
    let found =
      scan_finds is_store capture_key (λ s. s.stores) store_puts store_fresh 1 events no_tables e
        quiet i m in
    let (x, g, ex, eg, same, frames) =
      store_checked s (capture_key e) e (dict_get (capture_key e) s.extracts)
        (store_errors-get s s.stores (capture_key e) e stores_ok found) in
    let xe = extract_entry_of events x (capture_key e) ex in
    let ge = edge_entry_of events g e.edge_id eg in
    let identity = same_identity-fields e x same in
    let agree = frames_agree-fields e x g frames in
    record {
      extract = x;
      extract_entry = (xe.0, xe.1);
      same_key = xe.2;
      domain = identity.0;
      def_id = identity.1;
      canonical_key = identity.2;
      producer = identity.3;
      edge = g;
      edge_entry = (ge.0, ge.1);
      edge_id = ge.2;
      slot = agree.0;
      store_frames = (agree.1, agree.2);
      extract_frames = (agree.3, agree.4);
    }

extract_key_errors-get :
    (s : Tables) (d : Dict Index IdentityLedgerEvent) (key : Index) (e : IdentityLedgerEvent)
    → extract_key_errors s d ≡ []
    → dict_get key d ≡ some e
    → is_some (dict_get key s.stores) ≡ true
unfolding extract_key_errors dict_get
extract_key_errors-get s [] key e h there = cc
extract_key_errors-get s ((j, x) ∷ d) key e h there =
    let parts = append-eq-nil (report (not (is_some (dict_get j s.stores))) _) _ h in
    elim (Bool-cases (index_key.same key j)) [
      | inl same ↦
          let ke : key ≡ j = (index_key.same_iff key j).0 same in
          let found : not (is_some (dict_get j s.stores)) ≡ false = report-eq-nil _ _ parts.0 in
          rw ke (ground arith)
      | inr other ↦ extract_key_errors-get s d key e parts.1 (rw other at there)
    ]

-- In a ledger without messages every capture extract has a store with its edge id and index.
pub accepted-extract_stored :
    (events : List IdentityLedgerEvent) (e : IdentityLedgerEvent)
    → validate_identity_ledger_relations events ≡ []
    → In e events
    → is_extract (branch_of e) ≡ true
    → (x : IdentityLedgerEvent) × In x events
      × (is_store (branch_of x) ≡ true)
      × (capture_key x ≡ capture_key e)
unfolding table_errors
accepted-extract_stored events e h i m =
    let (quiet, tables) = accepted_parts events h in
    let s = (scan 1 events no_tables).0 in
    let rest = (append-eq-nil (store_errors s s.stores) _ tables).1 in
    let extracts_ok = (append-eq-nil (extract_key_errors s s.extracts) _ rest).0 in
    let found =
      scan_finds is_extract capture_key (λ s. s.extracts) extract_puts extract_fresh 1 events
        no_tables e quiet i m in
    let there = extract_key_errors-get s s.extracts (capture_key e) e extracts_ok found in
    elim (Option-cases (dict_get (capture_key e) s.stores)) [
      | inl missing ↦ absurd (ground arith)
      | inr (x, ex) ↦ let xe = store_entry_of events x (capture_key e) ex in (x, xe.0, xe.1, xe.2)
    ]
