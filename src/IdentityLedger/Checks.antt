-- ===== src/IdentityLedger/Checks.antt =====
-- The checks of `validate_identity_ledger_relations` behind its loop.
use ring_lang.Common.{
  ℕ, ◌+◌, zero, suc, Bool, true, false, ◌&&◌, ◌||◌, not, List, [], ◌∷◌, ◌++◌, Option, none, some,
  if◌then◌else◌, ltb, ◌==◌, Text, codes, text_eq, length,
}
use ring_lang.Common.Int.{ℤ, pos, int_eq, leb_ℤ}
use ring_lang.Common.Dicts.{
  Slot, Index, Dict, int_key, slot_key, index_key, text_key, dict_get, is_some, set_both, sorted,
}
use ring_lang.IdentityLedger.Event.{
  IdentityLedgerEvent, LedgerError, report, store_without_extract, identity_mismatch, missing_edge,
  frame_mismatch, extract_without_store, indices_drifted, load_consumed, load_mismatch,
  missing_load, slot_alias,
}
use ring_lang.IdentityLedger.Tables.{Tables, or_empty}

-- The loop over `stores.items()`.
abbrev pub same_identity : IdentityLedgerEvent → IdentityLedgerEvent → Bool
same_identity a b =
    text_eq a.domain b.domain
    && int_eq a.def_id b.def_id
    && text_eq a.canonical_key b.canonical_key
    && text_eq a.producer b.producer

abbrev pub frames_agree : IdentityLedgerEvent → IdentityLedgerEvent → IdentityLedgerEvent → Bool
frames_agree store extract edge =
    text_eq store.dest_slot edge.source_slot
    && text_eq store.parent_frame edge.parent_frame
    && text_eq store.child_frame edge.child_frame
    && text_eq extract.parent_frame edge.parent_frame
    && text_eq extract.child_frame edge.child_frame

unfoldable pub edge_errors :
    Index
    → IdentityLedgerEvent
    → IdentityLedgerEvent
    → Option IdentityLedgerEvent
    → List LedgerError
edge_errors key store extract none = missing_edge key ∷ []
edge_errors key store extract (some edge) =
    report (not (frames_agree store extract edge)) (frame_mismatch key)

unfoldable pub extract_errors :
    Tables → Index → IdentityLedgerEvent → Option IdentityLedgerEvent → List LedgerError
unfolding edge_errors
extract_errors s key store none = store_without_extract key ∷ []
extract_errors s key store (some extract) =
    report (not (same_identity store extract)) (identity_mismatch key)
    ++ edge_errors key store extract (dict_get store.edge_id s.edges)

unfoldable pub store_errors : Tables → Dict Index IdentityLedgerEvent → List LedgerError
unfolding extract_errors
store_errors s [] = []
store_errors s ((key, store) ∷ d) =
    extract_errors s key store (dict_get key s.extracts) ++ store_errors s d

unfoldable pub extract_key_errors : Tables → Dict Index IdentityLedgerEvent → List LedgerError
extract_key_errors s [] = []
extract_key_errors s ((key, extract) ∷ d) =
    report (not (is_some (dict_get key s.stores))) (extract_without_store key)
    ++ extract_key_errors s d

-- `index for edge, index in table if edge == edge_id`
unfoldable pub indices_of : ℤ → Dict Index IdentityLedgerEvent → List ℤ
indices_of edge_id [] = []
indices_of edge_id (((edge, index), e) ∷ d) =
    let rest = indices_of edge_id d in if int_eq edge edge_id then index ∷ rest else rest

-- `list(range(k, k + n))`
unfoldable pub range_from : ℕ → ℕ → List ℤ
range_from k zero = []
range_from k (suc n) = pos k ∷ range_from (k + 1) n

unfoldable pub ints_eq : List ℤ → List ℤ → Bool
ints_eq [] [] = true
ints_eq (x ∷ xs) (y ∷ ys) = int_eq x y && ints_eq xs ys
ints_eq _ _ = false

unfoldable pub index_errors : Tables → Dict ℤ IdentityLedgerEvent → List LedgerError
index_errors s [] = []
index_errors s ((edge_id, e) ∷ d) =
    let store_indices = sorted leb_ℤ (indices_of edge_id s.stores) in
    let extract_indices = sorted leb_ℤ (indices_of edge_id s.extracts) in
    let expected = range_from 1 (length store_indices) in
    report (not (ints_eq store_indices expected && ints_eq extract_indices expected))
      (indices_drifted edge_id store_indices extract_indices)
    ++ index_errors s d

-- The calls of one load, which must be one call.
unfoldable pub call_list_errors :
    ℤ → IdentityLedgerEvent → List IdentityLedgerEvent → List LedgerError
call_list_errors load_id load (call ∷ []) =
    report
      (not (text_eq call.parent_frame load.parent_frame)
        || not (text_eq call.source_slot load.dest_slot)
        || not (text_eq call.domain (codes "computed"))
        || not (text_eq call.producer load.kind))
      (load_mismatch load_id)
call_list_errors load_id load calls = load_consumed load_id (length calls) ∷ []

unfoldable pub load_errors : Tables → Dict ℤ IdentityLedgerEvent → List LedgerError
unfolding call_list_errors
load_errors s [] = []
load_errors s ((load_id, load) ∷ d) =
    call_list_errors load_id load (or_empty (dict_get load_id s.load_calls)) ++ load_errors s d

unfoldable pub call_load_errors : Tables → Dict ℤ (List IdentityLedgerEvent) → List LedgerError
call_load_errors s [] = []
call_load_errors s ((load_id, calls) ∷ d) =
    report (not (is_some (dict_get load_id s.loads))) (missing_load load_id) ++ call_load_errors s d

-- The order of pairs of texts by which `sorted(aliases)` prints them.
text_leb : Text → Text → Bool
text_leb [] t = true
text_leb (c ∷ s) [] = false
text_leb (c ∷ s) (d ∷ t) = ltb c d || (c == d && text_leb s t)

slot_leb : Slot → Slot → Bool
unfolding text_leb
slot_leb (a, b) (c, d) = if text_eq a c then text_leb b d else text_leb a c

unfoldable pub alias_errors : List Slot → List LedgerError
unfolding slot_leb
alias_errors [] = []
alias_errors (x ∷ xs) = slot_alias (sorted slot_leb (x ∷ xs)) ∷ []

-- The checks behind the loop.
unfoldable pub table_errors : Tables → List LedgerError
unfolding store_errors extract_key_errors index_errors load_errors call_load_errors alias_errors
table_errors s =
    store_errors s s.stores
    ++ (extract_key_errors s s.extracts
        ++ (index_errors s s.edges
            ++ (load_errors s s.loads
                ++ (call_load_errors s s.load_calls
                    ++ alias_errors (set_both s.exact_slots s.name_only_slots)))))
