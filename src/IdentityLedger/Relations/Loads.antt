-- ===== src/IdentityLedger/Relations/Loads.antt =====
-- In a ledger without messages every receiver load is used by exactly one closure call.
use ring_lang.Common.{
  ℕ, ◌+◌, true, List, [], ◌∷◌, ◌≡◌, inl, inr, refl, some, arith, In, append-eq-nil, codes,
  text_eq_iff, Bool-cases,
}
use ring_lang.Common.Int.{ℤ, pos, int_eq_iff, ltb_ℤ}
use ring_lang.Common.Dicts.{Dict, dict_get, int_key}
use ring_lang.IdentityLedger.Event.{IdentityLedgerEvent}
use ring_lang.IdentityLedger.Tables.{
  Tables, Branch, load_event, no_tables, scan, branch_of, branch_errors, update,
}
use ring_lang.IdentityLedger.Checks.{
  table_errors, store_errors, extract_key_errors, index_errors, load_errors, call_list_errors,
}
use ring_lang.IdentityLedger.Relations.Order.{scan-eq-nil, report-eq-nil, accepted_parts}
use ring_lang.IdentityLedger.Relations.Lookup.{scan_finds}
use ring_lang.IdentityLedger.Relations.{validate_identity_ledger_relations}
use ring_lang.IdentityLedger.Relations.Calls.{
  is_load, is_call, load_key, load_puts, load_fresh, calls_of, is_call_of, scan_calls_from,
  scan_calls_into, no_calls,
}

-- The call that uses the load `e`: it takes the slot that the load fills, and no other call has the
-- load's number.
pub record Consumed (es : List IdentityLedgerEvent) (e : IdentityLedgerEvent) : Type 0 where
  pub call : IdentityLedgerEvent
  pub entry : In call es × (is_call (branch_of call) ≡ true)
  pub load_id : call.load_id ≡ e.load_id
  pub frame : call.parent_frame ≡ e.parent_frame
  pub slot : call.source_slot ≡ e.dest_slot
  pub domain : call.domain ≡ codes "computed"
  pub producer : call.producer ≡ e.kind
  pub only :
      (other : IdentityLedgerEvent)
      → In other es
      → is_call (branch_of other) ≡ true
      → other.load_id ≡ e.load_id
      → other ≡ call

load_errors-get :
    (s : Tables) (d : Dict ℤ IdentityLedgerEvent) (key : ℤ) (e : IdentityLedgerEvent)
    → load_errors s d ≡ []
    → dict_get key d ≡ some e
    → call_list_errors key e (calls_of s key) ≡ []
unfolding load_errors dict_get
load_errors-get s [] key e h there = cc
load_errors-get s ((j, x) ∷ d) key e h there =
    let parts = append-eq-nil (call_list_errors j x (calls_of s j)) (load_errors s d) h in
    elim (Bool-cases (int_key.same key j)) [
      | inl same ↦
          let ke : key ≡ j = (int_key.same_iff key j).0 same in
          let xe : x ≡ e = ground (arith, rw same at there) in rw (ke, ← xe) parts.0
      | inr other ↦ load_errors-get s d key e parts.1 (rw other at there)
    ]

call_list_checked :
    (k : ℤ) (e : IdentityLedgerEvent) (calls : List IdentityLedgerEvent)
    → call_list_errors k e calls ≡ []
    → (c : IdentityLedgerEvent) × (calls ≡ c ∷ [])
      × (c.parent_frame ≡ e.parent_frame)
      × (c.source_slot ≡ e.dest_slot)
      × (c.domain ≡ codes "computed")
      × (c.producer ≡ e.kind)
unfolding call_list_errors
call_list_checked k e (c ∷ []) h =
    let quiet = report-eq-nil _ _ h in
    (
      c,
      refl,
      ground (arith, text_eq_iff c.parent_frame e.parent_frame),
      ground (arith, text_eq_iff c.source_slot e.dest_slot),
      ground (arith, text_eq_iff c.domain (codes "computed")),
      ground (arith, text_eq_iff c.producer e.kind),
    )
call_list_checked k e _ h = cc

load_positive_at :
    (b : Branch) (e : IdentityLedgerEvent) (s : Tables)
    → is_load b ≡ true
    → branch_errors b e s ≡ []
    → ltb_ℤ (pos 0) e.load_id ≡ true
unfolding branch_errors
load_positive_at load_event e s m h = ground arith
load_positive_at _ e s m h = cc

load_positive :
    (n : ℕ) (es : List IdentityLedgerEvent) (s : Tables) (e : IdentityLedgerEvent)
    → (scan n es s).1 ≡ []
    → In e es
    → is_load (branch_of e) ≡ true
    → ltb_ℤ (pos 0) e.load_id ≡ true
load_positive n [] s e h i m = absurd i
load_positive n (x ∷ es) s e h (inl same) m =
    rw same (load_positive_at (branch_of x) x s (rw same at m) (scan-eq-nil n x es s h).2)
load_positive n (x ∷ es) s e h (inr later) m =
    load_positive (n + 1) es (update (branch_of x) x s) e (scan-eq-nil n x es s h).3 later m

singleton :
    (x c : IdentityLedgerEvent) (cs : List IdentityLedgerEvent) → cs ≡ c ∷ [] → In x cs → x ≡ c
singleton x c [] e h = absurd h
singleton x c (y ∷ []) e (inl same) = cc
singleton x c (y ∷ []) e (inr h) = absurd h
singleton x c (y ∷ z ∷ cs) e h = cc

-- In a ledger without messages every receiver load is consumed by exactly one closure call, which
-- takes the load's slot in the load's frame, and names the kind of the load as its producer.
pub accepted-Consumed :
    (events : List IdentityLedgerEvent) (e : IdentityLedgerEvent)
    → validate_identity_ledger_relations events ≡ []
    → In e events
    → is_load (branch_of e) ≡ true
    → Consumed events e
unfolding table_errors
accepted-Consumed events e h i m =
    let (quiet, tables) = accepted_parts events h in
    let s = (scan 1 events no_tables).0 in
    let h₁ = (append-eq-nil (store_errors s s.stores) _ tables).1 in
    let h₂ = (append-eq-nil (extract_key_errors s s.extracts) _ h₁).1 in
    let h₃ = (append-eq-nil (index_errors s s.edges) _ h₂).1 in
    let loads_ok = (append-eq-nil (load_errors s s.loads) _ h₃).0 in
    let found =
      scan_finds is_load load_key (λ s. s.loads) load_puts load_fresh 1 events no_tables e quiet i
        m in
    let (c, one, frame, slot, domain, producer) =
      call_list_checked e.load_id e (calls_of s e.load_id)
        (load_errors-get s s.loads e.load_id e loads_ok found) in
    let positive = load_positive 1 events no_tables e quiet i m in
    let from = scan_calls_from 1 events no_tables e.load_id c (rw one (inl refl)) in
    let entry : In c events × (is_call_of c e.load_id ≡ true) = elim from [
      | inl before ↦ absurd (no_calls e.load_id c before)
      | inr entry ↦ entry
    ] in
    record {
      call = c;
      entry = (entry.0, ground arith);
      load_id = ground (arith, int_eq_iff e.load_id c.load_id);
      frame = frame;
      slot = slot;
      domain = domain;
      producer = producer;
      only = λ other io mo lo. singleton other c (calls_of s e.load_id) one (
          scan_calls_into 1 events no_tables e.load_id other io
            (rw (mo, lo, positive, (int_eq_iff e.load_id e.load_id).1 refl) refl));
    }
