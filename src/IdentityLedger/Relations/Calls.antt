-- ===== src/IdentityLedger/Relations/Calls.antt =====
-- The loads and the closure calls behind a scan.
use ring_lang.Common.{
  In-append, In-append_left, In-append_right, ℕ, ◌+◌, Bool, true, false, ◌&&◌, List, [], ◌∷◌, ◌++◌,
  ◌≡◌, ◌⊎◌, inl, inr, refl, none, arith, if◌then◌else◌, In, append-eq-nil, Text, Bool-cases,
}
use ring_lang.Common.Int.{ℤ, pos, int_eq, int_eq_iff, ltb_ℤ}
use ring_lang.Common.Dicts.{dict_get, dict_put, dict_get-put, int_key}
use ring_lang.IdentityLedger.Event.{IdentityLedgerEvent}
use ring_lang.IdentityLedger.Tables.{
  Tables, Branch, edge_event, store_event, extract_event, load_event, call_event, other_event,
  no_tables, scan, branch_of, branch_errors, update, add_slot, add_call, or_empty,
}
use ring_lang.IdentityLedger.Relations.Entries.{absent}

abbrev pub is_load : Branch → Bool
is_load load_event = true
is_load _ = false

abbrev pub is_call : Branch → Bool
is_call call_event = true
is_call _ = false

abbrev pub load_key : IdentityLedgerEvent → ℤ
load_key e = e.load_id

pub load_puts :
    (b : Branch) (e : IdentityLedgerEvent) (s : Tables)
    → (update b e s).loads ≡ (if is_load b then dict_put (load_key e) e s.loads else s.loads)
unfolding update
load_puts b e s = ground arith

pub load_fresh :
    (b : Branch) (e : IdentityLedgerEvent) (s : Tables)
    → is_load b ≡ true
    → branch_errors b e s ≡ []
    → dict_get (load_key e) s.loads ≡ none
unfolding branch_errors
load_fresh load_event e s m h = absent _ _ (append-eq-nil _ _ h).1
load_fresh _ e s m h = cc

-- `load_calls.get(load_id, [])`
abbrev pub calls_of : Tables → ℤ → List IdentityLedgerEvent
calls_of s k = or_empty (dict_get k s.load_calls)

-- An event that `load_calls` lists under `k`.
abbrev pub is_call_of : IdentityLedgerEvent → ℤ → Bool
is_call_of e k = is_call (branch_of e) && (ltb_ℤ (pos 0) e.load_id && int_eq k e.load_id)

add_slot-calls :
    (e : IdentityLedgerEvent) (p : Text × Text) (s : Tables)
    → (add_slot e p s).load_calls ≡ s.load_calls
unfolding add_slot
add_slot-calls e p s = ground arith

add_call-calls :
    (e : IdentityLedgerEvent) (s : Tables) (k : ℤ)
    → calls_of (add_call e s) k ≡ (
        if ltb_ℤ (pos 0) e.load_id && int_eq k e.load_id
        then calls_of s k ++ e ∷ []
        else calls_of s k)
unfolding add_call
add_call-calls e s k = elim (Bool-cases (ltb_ℤ (pos 0) e.load_id)) [
  | inl p ↦ rw p (elim (Bool-cases (int_eq k e.load_id)) [
    | inl same ↦
        rw (dict_get-put k e.load_id _ s.load_calls, same, (int_eq_iff k e.load_id).0 same) refl
    | inr other ↦ rw (dict_get-put k e.load_id _ s.load_calls, other) refl
  ])
  | inr p ↦ rw p refl
]

-- What an event adds to the calls of `k`.
update-calls :
    (b : Branch) (e : IdentityLedgerEvent) (s : Tables) (k : ℤ)
    → calls_of (update b e s) k ≡ (
        if is_call b && (ltb_ℤ (pos 0) e.load_id && int_eq k e.load_id)
        then calls_of s k ++ e ∷ []
        else calls_of s k)
unfolding update
update-calls edge_event e s k = refl
update-calls store_event e s k = rw add_slot-calls
update-calls extract_event e s k = rw add_slot-calls
update-calls load_event e s k = rw add_slot-calls
update-calls call_event e s k = rw add_slot-calls (add_call-calls e s k)
update-calls other_event e s k = refl

pub scan_calls_from :
    (n : ℕ) (es : List IdentityLedgerEvent) (s : Tables) (k : ℤ) (x : IdentityLedgerEvent)
    → In x (calls_of (scan n es s).0 k)
    → In x (calls_of s k) ⊎ In x es × (is_call_of x k ≡ true)
unfolding scan
scan_calls_from n [] s k x h = inl h
scan_calls_from n (e ∷ es) s k x h =
    elim (scan_calls_from (n + 1) es (update (branch_of e) e s) k x h) [
      | inl before ↦ elim (Bool-cases (is_call_of e k)) [
        | inl adds ↦
            let listed : In x (calls_of s k ++ e ∷ []) =
              rw (update-calls (branch_of e) e s k, adds) at before in
            elim (In-append x (calls_of s k) (e ∷ []) listed) [
              | inl old ↦ inl old
              | inr (inl same) ↦ inr (inl same, rw same adds)
              | inr (inr none_left) ↦ absurd none_left
            ]
        | inr keeps ↦ inl (rw (update-calls (branch_of e) e s k, keeps) at before)
      ]
      | inr (later, m) ↦ inr (inr later, m)
    ]

scan_calls_keep :
    (n : ℕ) (es : List IdentityLedgerEvent) (s : Tables) (k : ℤ) (x : IdentityLedgerEvent)
    → In x (calls_of s k)
    → In x (calls_of (scan n es s).0 k)
unfolding scan
scan_calls_keep n [] s k x h = h
scan_calls_keep n (e ∷ es) s k x h = scan_calls_keep (n + 1) es (update (branch_of e) e s) k x (
    rw (update-calls (branch_of e) e s k) (elim (Bool-cases (is_call_of e k)) [
      | inl adds ↦ rw adds (In-append_left x (calls_of s k) (e ∷ []) h)
      | inr keeps ↦ rw keeps h
    ]))

pub scan_calls_into :
    (n : ℕ) (es : List IdentityLedgerEvent) (s : Tables) (k : ℤ) (x : IdentityLedgerEvent)
    → In x es
    → is_call_of x k ≡ true
    → In x (calls_of (scan n es s).0 k)
unfolding scan
scan_calls_into n [] s k x i m = absurd i
scan_calls_into n (e ∷ es) s k x (inl same) m =
    scan_calls_keep (n + 1) es (update (branch_of e) e s) k x (
      rw (update-calls (branch_of e) e s k, rw same at m)
        (In-append_right x (calls_of s k) (e ∷ []) (inl same)))
scan_calls_into n (e ∷ es) s k x (inr later) m =
    scan_calls_into (n + 1) es (update (branch_of e) e s) k x later m

pub no_calls : (k : ℤ) (x : IdentityLedgerEvent) → ¬ In x (calls_of no_tables k)
unfolding dict_get
no_calls k x h = h
