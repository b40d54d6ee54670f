-- ===== src/IdentityLedger/Relations/Lookup.antt =====
-- What the tables hold behind a scan without messages: each event of a table's branch under its key,
-- and nothing else.
use ring_lang.Common.{
  ℕ, ◌+◌, Bool, true, List, [], ◌∷◌, ◌≡◌, ◌⊎◌, inl, inr, refl, ◌∙◌, none, some, arith,
  if◌then◌else◌, In, Bool-cases,
}
use ring_lang.Common.Dicts.{Dict, Key, dict_get, dict_put, dict_get-put, same_refl}
use ring_lang.IdentityLedger.Event.{IdentityLedgerEvent}
use ring_lang.IdentityLedger.Tables.{Tables, Branch, scan, branch_of, branch_errors, update}
use ring_lang.IdentityLedger.Relations.Order.{scan-eq-nil}

module _ {K : Type 0} ⦃q : Key K⦄ (mine : Branch → Bool) (key_of : IdentityLedgerEvent → K)
    (table : Tables → Dict K IdentityLedgerEvent)
    (puts : (b : Branch) (e : IdentityLedgerEvent) (s : Tables)
      → table (update b e s) ≡ (if mine b then dict_put (key_of e) e (table s) else table s))
    (fresh : (b : Branch) (e : IdentityLedgerEvent) (s : Tables)
      → mine b ≡ true
      → branch_errors b e s ≡ []
      → dict_get (key_of e) (table s) ≡ none) where
  -- The event stands in the ledger, belongs to the table and has this key.
  abbrev pub IsEntry : K → IdentityLedgerEvent → List IdentityLedgerEvent → Type 0
  IsEntry key x es = In x es × (mine (branch_of x) ≡ true) × (key_of x ≡ key)

  get-update :
      (b : Branch) (e : IdentityLedgerEvent) (s : Tables) (key : K)
      → dict_get key (table (update b e s)) ≡ (
          if mine b
          then (if q.same key (key_of e) then some e else dict_get key (table s))
          else dict_get key (table s))
  get-update b e s key = elim (Bool-cases (mine b)) [
    | inl m ↦ rw (puts b e s, m) (dict_get-put key (key_of e) e (table s))
    | inr m ↦ rw (puts b e s, m) refl
  ]

  -- An entry of the final table was there before, or is an event of the ledger.
  pub scan_entries :
      (k : ℕ) (es : List IdentityLedgerEvent) (s : Tables) (key : K) (x : IdentityLedgerEvent)
      → dict_get key (table (scan k es s).0) ≡ some x
      → (dict_get key (table s) ≡ some x) ⊎ IsEntry key x es
  unfolding scan
  scan_entries k [] s key x h = inl h
  scan_entries k (e ∷ es) s key x h =
      let b = branch_of e in
      elim (scan_entries (k + 1) es (update b e s) key x h) [
        | inl before ↦ ground (arith, get-update b e s key, q.same_iff key (key_of e))
        | inr (later, m, same) ↦ inr (inr later, m, same)
      ]

  -- Without messages no entry is overwritten.
  pub scan_keeps :
      (k : ℕ) (es : List IdentityLedgerEvent) (s : Tables) (key : K) (x : IdentityLedgerEvent)
      → (scan k es s).1 ≡ []
      → dict_get key (table s) ≡ some x
      → dict_get key (table (scan k es s).0) ≡ some x
  unfolding scan
  scan_keeps k [] s key x h e = e
  scan_keeps k (e ∷ es) s key x h there =
      let b = branch_of e in
      let parts = scan-eq-nil k e es s h in
      scan_keeps (k + 1) es (update b e s) key x parts.3 (
        ground (
          arith,
          get-update b e s key,
          q.same_iff key (key_of e),
          λ (m : mine b ≡ true). fresh b e s m parts.2,
        ))

  -- Without messages every event of the branch is found under its key.
  pub scan_finds :
      (k : ℕ) (es : List IdentityLedgerEvent) (s : Tables) (x : IdentityLedgerEvent)
      → (scan k es s).1 ≡ []
      → In x es
      → mine (branch_of x) ≡ true
      → dict_get (key_of x) (table (scan k es s).0) ≡ some x
  unfolding scan
  scan_finds k [] s x h i m = absurd i
  scan_finds k (e ∷ es) s x h (inl same) m =
      let parts = scan-eq-nil k e es s h in
      scan_keeps (k + 1) es (update (branch_of e) e s) (key_of x) x parts.3 (
        rw same (get-update (branch_of e) e s (key_of e) ∙ rw (rw same at m, same_refl (key_of e))))
  scan_finds k (e ∷ es) s x h (inr later) m =
      scan_finds (k + 1) es (update (branch_of e) e s) x (scan-eq-nil k e es s h).3 later m
