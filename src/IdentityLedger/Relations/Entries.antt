-- ===== src/IdentityLedger/Relations/Entries.antt =====
-- The tables of captures and edges behind a scan: which events they hold.
use ring_lang.Common.{
  Bool, true, false, List, [], ◌≡◌, inl, inr, refl, Option, none, some, arith, if◌then◌else◌, In,
  append-eq-nil,
}
use ring_lang.Common.Int.{ℤ}
use ring_lang.Common.Dicts.{Key, Index, dict_get, dict_put, is_some, index_key, int_key}
use ring_lang.IdentityLedger.Event.{IdentityLedgerEvent, LedgerError, report}
use ring_lang.IdentityLedger.Tables.{
  Tables, Branch, edge_event, store_event, extract_event, no_tables, scan, branch_of, branch_errors,
  update, capture_key,
}
use ring_lang.IdentityLedger.Relations.Lookup.{scan_entries}

abbrev pub is_store : Branch → Bool
is_store store_event = true
is_store _ = false

abbrev pub is_extract : Branch → Bool
is_extract extract_event = true
is_extract _ = false

abbrev pub is_edge : Branch → Bool
is_edge edge_event = true
is_edge _ = false

abbrev pub edge_key : IdentityLedgerEvent → ℤ
edge_key e = e.edge_id

module _ (b : Branch) (e : IdentityLedgerEvent) (s : Tables) where
  pub store_puts :
      (update b e s).stores ≡ (if is_store b then dict_put (capture_key e) e s.stores else s.stores)
  unfolding update
  store_puts = ground arith

  pub extract_puts :
      (update b e s).extracts
      ≡ (if is_extract b then dict_put (capture_key e) e s.extracts else s.extracts)
  unfolding update
  extract_puts = ground arith

  pub edge_puts :
      (update b e s).edges ≡ (if is_edge b then dict_put (edge_key e) e s.edges else s.edges)
  unfolding update
  edge_puts = ground arith

pub absent :
    {V : Type 0} (o : Option V) (error : LedgerError) → report (is_some o) error ≡ [] → o ≡ none
absent none error h = refl
absent (some v) error h = cc

pub store_fresh :
    (b : Branch) (e : IdentityLedgerEvent) (s : Tables)
    → is_store b ≡ true
    → branch_errors b e s ≡ []
    → dict_get (capture_key e) s.stores ≡ none
unfolding branch_errors
store_fresh store_event e s m h = absent _ _ (append-eq-nil _ _ h).1
store_fresh _ e s m h = cc

pub extract_fresh :
    (b : Branch) (e : IdentityLedgerEvent) (s : Tables)
    → is_extract b ≡ true
    → branch_errors b e s ≡ []
    → dict_get (capture_key e) s.extracts ≡ none
unfolding branch_errors
extract_fresh extract_event e s m h = absent _ _ (append-eq-nil _ _ h).1
extract_fresh _ e s m h = cc

pub edge_fresh :
    (b : Branch) (e : IdentityLedgerEvent) (s : Tables)
    → is_edge b ≡ true
    → branch_errors b e s ≡ []
    → dict_get (edge_key e) s.edges ≡ none
unfolding branch_errors
edge_fresh edge_event e s m h = absent _ _ (append-eq-nil _ _ h).1
edge_fresh _ e s m h = cc

pub no_entries :
    {K : Type 0} ⦃q : Key K⦄ (key : K) (x : IdentityLedgerEvent) → ¬ (dict_get key [] ≡ some x)
unfolding dict_get
no_entries key x h = cc

module _ (events : List IdentityLedgerEvent) (x : IdentityLedgerEvent) where
  pub extract_entry_of :
      (key : Index)
      → dict_get key (scan 1 events no_tables).0.extracts ≡ some x
      → In x events × (is_extract (branch_of x) ≡ true) × (capture_key x ≡ key)
  extract_entry_of key e =
      elim (scan_entries is_extract capture_key (λ s. s.extracts) extract_puts extract_fresh 1
        events no_tables key x e) [
          | inl before ↦ absurd (no_entries key x before)
          | inr entry ↦ entry
        ]

  pub store_entry_of :
      (key : Index)
      → dict_get key (scan 1 events no_tables).0.stores ≡ some x
      → In x events × (is_store (branch_of x) ≡ true) × (capture_key x ≡ key)
  store_entry_of key e =
      elim (scan_entries is_store capture_key (λ s. s.stores) store_puts store_fresh 1 events
        no_tables key x e) [ inl before ↦ absurd (no_entries key x before) | inr entry ↦ entry ]

  pub edge_entry_of :
      (key : ℤ)
      → dict_get key (scan 1 events no_tables).0.edges ≡ some x
      → In x events × (is_edge (branch_of x) ≡ true) × (edge_key x ≡ key)
  edge_entry_of key e =
      elim (scan_entries is_edge edge_key (λ s. s.edges) edge_puts edge_fresh 1 events no_tables key
        x e) [ inl before ↦ absurd (no_entries key x before) | inr entry ↦ entry ]
