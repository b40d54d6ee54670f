-- ===== src/IdentityLedger/Relations/Order.antt =====
-- A ledger with no messages: its numbering and its slots.
use ring_lang.Common.{
  ℕ, ◌+◌, Bool, true, false, not, List, [], ◌∷◌, ◌≡◌, refl, arith, append-eq-nil,
}
use ring_lang.Common.Int.{pos, int_eq, int_eq_iff}
use ring_lang.IdentityLedger.Event.{
  IdentityLedgerEvent, LedgerError, report, identity_ledger_event_shape_errors,
}
use ring_lang.IdentityLedger.Tables.{Tables, no_tables, scan, branch_of, branch_errors, update}
use ring_lang.IdentityLedger.Checks.{table_errors}
use ring_lang.IdentityLedger.Relations.{validate_identity_ledger_relations}

pub report-eq-nil : (b : Bool) (e : LedgerError) → report b e ≡ [] → b ≡ false
report-eq-nil true e h = cc
report-eq-nil false e h = refl

pub scan-eq-nil :
    (k : ℕ) (e : IdentityLedgerEvent) (es : List IdentityLedgerEvent) (s : Tables)
    → (scan k (e ∷ es) s).1 ≡ []
    → (e.event_id ≡ pos k)
      × (identity_ledger_event_shape_errors e ≡ [])
      × (branch_errors (branch_of e) e s ≡ [])
      × ((scan (k + 1) es (update (branch_of e) e s)).1 ≡ [])
unfolding scan
scan-eq-nil k e es s h =
    let order = append-eq-nil (report (not (int_eq e.event_id (pos k))) _) _ h in
    let shape = append-eq-nil (identity_ledger_event_shape_errors e) _ order.1 in
    let branch = append-eq-nil (branch_errors (branch_of e) e s) _ shape.1 in
    let numbered = report-eq-nil _ _ order.0 in
    (ground (arith, int_eq_iff e.event_id (pos k)), shape.0, branch.0, branch.1)

pub accepted_parts :
    (events : List IdentityLedgerEvent)
    → validate_identity_ledger_relations events ≡ []
    → ((scan 1 events no_tables).1 ≡ []) × (table_errors (scan 1 events no_tables).0 ≡ [])
unfolding validate_identity_ledger_relations
accepted_parts events h = append-eq-nil (scan 1 events no_tables).1 _ h

abbrev pub NumberedFrom : ℕ → List IdentityLedgerEvent → Type 0
NumberedFrom k [] = Unit
NumberedFrom k (e ∷ es) = (e.event_id ≡ pos k) × NumberedFrom (k + 1) es

scan-NumberedFrom :
    (k : ℕ) (es : List IdentityLedgerEvent) (s : Tables) → (scan k es s).1 ≡ [] → NumberedFrom k es
scan-NumberedFrom k [] s h = tt
scan-NumberedFrom k (e ∷ es) s h =
    let parts = scan-eq-nil k e es s h in
    (parts.0, scan-NumberedFrom (k + 1) es (update (branch_of e) e s) parts.3)

-- The events of a ledger without messages are numbered 1, 2, 3, … in their order.
pub accepted-NumberedFrom :
    (events : List IdentityLedgerEvent)
    → validate_identity_ledger_relations events ≡ []
    → NumberedFrom 1 events
accepted-NumberedFrom events h = scan-NumberedFrom 1 events no_tables (accepted_parts events h).0
