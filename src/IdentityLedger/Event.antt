-- ===== src/IdentityLedger/Event.antt =====
-- `IdentityLedgerEvent`, the messages of the ledger's checks, and `identity_ledger_event_shape_errors`.
use ring_lang.Common.{
  ℕ, Bool, true, false, ◌&&◌, ◌||◌, not, List, [], ◌∷◌, ◌++◌, if◌then◌else◌, Text, codes, text_eq,
  is_empty, mem_text,
}
use ring_lang.Common.Int.{ℤ, pos, negsuc, int_eq, ltb_ℤ, leb_ℤ}
use ring_lang.Common.Dicts.{Slot, Index}

pub record IdentityLedgerEvent : Type 0 where
  pub event_id : ℤ
  pub kind : Text
  pub edge_id : ℤ
  pub load_id : ℤ
  pub parent_frame : Text
  pub child_frame : Text
  pub domain : Text
  pub def_id : ℤ
  pub canonical_key : Text
  pub producer : Text
  pub source_slot : Text
  pub dest_slot : Text
  pub index : ℤ
  pub arity : ℤ

-- One constructor for each message, with the values that it prints.
pub data LedgerError : Type 0 where
  exact_shape : ℤ → LedgerError
  keyed_shape produced_shape : ℤ → Text → LedgerError
  unknown_domain unknown_kind : Text → LedgerError
  edge_provenance : ℤ → LedgerError
  capture_domain dict_domain effect_domain call_domain : ℤ → Text → LedgerError
  slot_call_load loaded_call_producer computed_call_load : ℤ → LedgerError
  order_drift : ℤ → ℤ → LedgerError
  malformed_edge duplicate_edge invalid_capture : ℤ → LedgerError
  duplicate_capture : Text → Index → LedgerError
  invalid_load duplicate_load invalid_call : ℤ → LedgerError
  store_without_extract identity_mismatch missing_edge frame_mismatch : Index → LedgerError
  extract_without_store : Index → LedgerError
  indices_drifted : ℤ → List ℤ → List ℤ → LedgerError
  load_consumed : ℤ → ℕ → LedgerError
  load_mismatch missing_load : ℤ → LedgerError
  slot_alias : List Slot → LedgerError
  not_utf8 no_final_newline header_mismatch not_canonical : LedgerError
  field_count : ℕ → ℕ → LedgerError
  bad_line : ℕ → LedgerError

-- `if test: errors.append(error)`
abbrev pub report : Bool → LedgerError → List LedgerError
report true e = e ∷ []
report false e = []

-- `text in {…}` over literals
abbrev pub among : Text → List Text → Bool
among = mem_text

domain_errors : IdentityLedgerEvent → List LedgerError
domain_errors e =
    if text_eq e.domain (codes "exact")
    then report
        (int_eq e.def_id (negsuc 0) || is_empty e.canonical_key || not (is_empty e.producer))
        (exact_shape e.event_id)
    else if among e.domain (codes "name-only" ∷ codes "static" ∷ codes "default-evidence" ∷ [])
    then report
        (not (int_eq e.def_id (negsuc 0)) || is_empty e.canonical_key || not (is_empty e.producer))
        (keyed_shape e.event_id e.domain)
    else if among e.domain (codes "computed" ∷ codes "fresh" ∷ [])
    then report
        (not (int_eq e.def_id (negsuc 0)) || not (is_empty e.canonical_key) || is_empty e.producer)
        (produced_shape e.event_id e.domain)
    else unknown_domain e.domain ∷ []

-- The branch of a closure call.
call_errors : IdentityLedgerEvent → List LedgerError
call_errors e =
    let receiver_load =
      among e.producer (codes "dict-receiver-load" ∷ codes "effect-receiver-load" ∷ []) in
    if not (among e.domain (codes "exact" ∷ codes "name-only" ∷ codes "computed" ∷ []))
    then call_domain e.event_id e.domain ∷ []
    else if among e.domain (codes "exact" ∷ codes "name-only" ∷ [])
    then report (not (int_eq e.load_id (pos 0))) (slot_call_load e.event_id)
    else report (ltb_ℤ (pos 0) e.load_id && not receiver_load) (loaded_call_producer e.event_id)
      ++ report (leb_ℤ e.load_id (pos 0) && (ltb_ℤ e.load_id (pos 0) || receiver_load))
          (computed_call_load e.event_id)

kind_errors : IdentityLedgerEvent → List LedgerError
unfolding call_errors
kind_errors e =
    if text_eq e.kind (codes "closure-edge")
    then report
        (not (text_eq e.domain (codes "fresh"))
          || not (text_eq e.producer (codes "closure-edge:" ++ e.child_frame)))
        (edge_provenance e.event_id)
    else if among e.kind (codes "capture-store" ∷ codes "capture-extract" ∷ [])
    then report (not (among e.domain (codes "exact" ∷ codes "name-only" ∷ [])))
        (capture_domain e.event_id e.domain)
    else if text_eq e.kind (codes "dict-receiver-load")
    then report (not (among e.domain (codes "name-only" ∷ codes "static" ∷ codes "computed" ∷ [])))
        (dict_domain e.event_id e.domain)
    else if text_eq e.kind (codes "effect-receiver-load")
    then report
        (not
          (among e.domain (codes "name-only" ∷ codes "default-evidence" ∷ codes "computed" ∷ [])))
        (effect_domain e.event_id e.domain)
    else if text_eq e.kind (codes "closure-call")
    then call_errors e
    else unknown_kind e.kind ∷ []

unfoldable pub identity_ledger_event_shape_errors : IdentityLedgerEvent → List LedgerError
unfolding domain_errors kind_errors
identity_ledger_event_shape_errors e = domain_errors e ++ kind_errors e
