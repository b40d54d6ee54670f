-- ===== src/IdentityLedger/Tables.antt =====
-- The loop of `validate_identity_ledger_relations`: its dictionaries are one state record, and the
-- loop over the events is a fold that collects the messages.
use ring_lang.Common.{
  ℕ, ◌+◌, Bool, ◌||◌, not, List, [], ◌∷◌, ◌++◌, Option, none, some, if◌then◌else◌, codes, text_eq,
  is_empty,
}
use ring_lang.Common.Int.{ℤ, pos, int_eq, ltb_ℤ, leb_ℤ}
use ring_lang.Common.Dicts.{
  Slot, Index, Dict, int_key, slot_key, index_key, text_key, dict_get, dict_put, is_some, set_add,
}
use ring_lang.IdentityLedger.Event.{
  IdentityLedgerEvent, LedgerError, report, among, identity_ledger_event_shape_errors, order_drift,
  malformed_edge, duplicate_edge, invalid_capture, duplicate_capture, invalid_load, duplicate_load,
  invalid_call,
}

pub record Tables : Type 0 where
  pub edges : Dict ℤ IdentityLedgerEvent
  pub stores : Dict Index IdentityLedgerEvent
  pub extracts : Dict Index IdentityLedgerEvent
  pub loads : Dict ℤ IdentityLedgerEvent
  pub load_calls : Dict ℤ (List IdentityLedgerEvent)
  pub exact_slots : List Slot
  pub name_only_slots : List Slot

abbrev pub no_tables : Tables
no_tables = record {
  edges = [];
  stores = [];
  extracts = [];
  loads = [];
  load_calls = [];
  exact_slots = [];
  name_only_slots = [];
}

-- The branch of the loop that an event takes, by its kind.
pub data Branch : Type 0 where
  edge_event store_event extract_event load_event call_event other_event : Branch

unfoldable pub branch_of : IdentityLedgerEvent → Branch
branch_of e =
    if text_eq e.kind (codes "closure-edge")
    then edge_event
    else if text_eq e.kind (codes "capture-store")
    then store_event
    else if text_eq e.kind (codes "capture-extract")
    then extract_event
    else if among e.kind (codes "dict-receiver-load" ∷ codes "effect-receiver-load" ∷ [])
    then load_event
    else if text_eq e.kind (codes "closure-call")
    then call_event
    else other_event

abbrev not_positive : ℤ → Bool
not_positive n = leb_ℤ n (pos 0)

abbrev pub capture_key : IdentityLedgerEvent → Index
capture_key e = (e.edge_id, e.index)

-- The messages of one branch; the tables are those before the event.
unfoldable pub branch_errors : Branch → IdentityLedgerEvent → Tables → List LedgerError
branch_errors edge_event e s =
    report
      (not_positive e.edge_id
        || is_empty e.parent_frame
        || is_empty e.child_frame
        || is_empty e.source_slot
        || is_empty e.dest_slot)
      (malformed_edge e.event_id)
    ++ report (is_some (dict_get e.edge_id s.edges)) (duplicate_edge e.edge_id)
branch_errors store_event e s =
    report
      (not_positive e.edge_id
        || not_positive e.index
        || is_empty e.source_slot
        || is_empty e.dest_slot)
      (invalid_capture e.event_id)
    ++ report (is_some (dict_get (capture_key e) s.stores))
        (duplicate_capture e.kind (capture_key e))
branch_errors extract_event e s =
    report
      (not_positive e.edge_id
        || not_positive e.index
        || is_empty e.source_slot
        || is_empty e.dest_slot)
      (invalid_capture e.event_id)
    ++ report (is_some (dict_get (capture_key e) s.extracts))
        (duplicate_capture e.kind (capture_key e))
branch_errors load_event e s =
    report
      (not_positive e.load_id
        || not_positive e.index
        || is_empty e.parent_frame
        || is_empty e.source_slot
        || is_empty e.dest_slot)
      (invalid_load e.event_id)
    ++ report (is_some (dict_get e.load_id s.loads)) (duplicate_load e.load_id)
branch_errors call_event e s =
    report
      (not_positive e.arity
        || is_empty e.parent_frame
        || is_empty e.source_slot
        || is_empty e.dest_slot)
      (invalid_call e.event_id)
branch_errors other_event e s = []

-- `exact_slots.add(slot)` or `name_only_slots.add(slot)`, by the event's domain
unfoldable pub add_slot : IdentityLedgerEvent → Slot → Tables → Tables
add_slot e slot s =
    if text_eq e.domain (codes "exact")
    then record s { exact_slots = set_add slot s.exact_slots }
    else if text_eq e.domain (codes "name-only")
    then record s { name_only_slots = set_add slot s.name_only_slots }
    else s

abbrev pub or_empty {ℓ} : {A : Type ℓ} → Option (List A) → List A
or_empty none = []
or_empty (some xs) = xs

-- `load_calls.setdefault(event.load_id, []).append(event)`
unfoldable pub add_call : IdentityLedgerEvent → Tables → Tables
add_call e s =
    if ltb_ℤ (pos 0) e.load_id
    then record s {
      load_calls =
          dict_put e.load_id (or_empty (dict_get e.load_id s.load_calls) ++ e ∷ []) s.load_calls;
    }
    else s

unfoldable pub update : Branch → IdentityLedgerEvent → Tables → Tables
unfolding add_slot add_call
update edge_event e s = record s { edges = dict_put e.edge_id e s.edges }
update store_event e s =
    add_slot e (e.parent_frame, e.source_slot)
      (record s { stores = dict_put (capture_key e) e s.stores })
update extract_event e s =
    add_slot e (e.child_frame, e.dest_slot)
      (record s { extracts = dict_put (capture_key e) e s.extracts })
update load_event e s =
    add_slot e (e.parent_frame, e.source_slot) (record s { loads = dict_put e.load_id e s.loads })
update call_event e s = add_slot e (e.parent_frame, e.source_slot) (add_call e s)
update other_event e s = s

-- `for expected_id, event in enumerate(events, 1)`: the tables, and the messages in their order.
unfoldable pub scan : ℕ → List IdentityLedgerEvent → Tables → Tables × List LedgerError
unfolding branch_errors update branch_of
scan expected_id [] s = (s, [])
scan expected_id (e ∷ es) s =
    let b = branch_of e in
    let (s', later) = scan (expected_id + 1) es (update b e s) in
    (
      s',
      report (not (int_eq e.event_id (pos expected_id))) (order_drift e.event_id (pos expected_id))
          ++ (identity_ledger_event_shape_errors e ++ (branch_errors b e s ++ later)),
    )
