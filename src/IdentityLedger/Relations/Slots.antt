-- ===== src/IdentityLedger/Relations/Slots.antt =====
-- No slot of a ledger without messages is owned both by an exact and by a name-only identity.
use ring_lang.Common.{
  ℕ, ◌+◌, Bool, true, false, ◌||◌, ◌&&◌, List, [], ◌∷◌, ◌≡◌, inl, inr, refl, Option, ◌∙◌, none,
  some, arith, In, append-eq-nil, codes, text_eq, Text, Bool-cases, text_eq_iff,
}
use ring_lang.Common.Dicts.{Slot, set_has, slot_key, same_refl, set_has-add, set_both-none}
use ring_lang.IdentityLedger.Event.{IdentityLedgerEvent}
use ring_lang.IdentityLedger.Tables.{
  Tables, Branch, edge_event, store_event, extract_event, load_event, call_event, other_event,
  no_tables, scan, branch_of, update, add_slot, add_call,
}
use ring_lang.IdentityLedger.Checks.{
  table_errors, alias_errors, store_errors, extract_key_errors, index_errors, load_errors,
  call_load_errors,
}
use ring_lang.IdentityLedger.Relations.Order.{accepted_parts}
use ring_lang.IdentityLedger.Relations.{validate_identity_ledger_relations}

-- The slot whose identity an event of each branch records.
abbrev pub owned_slot : Branch → IdentityLedgerEvent → Option Slot
owned_slot edge_event e = none
owned_slot store_event e = some (e.parent_frame, e.source_slot)
owned_slot extract_event e = some (e.child_frame, e.dest_slot)
owned_slot load_event e = some (e.parent_frame, e.source_slot)
owned_slot call_event e = some (e.parent_frame, e.source_slot)
owned_slot other_event e = none

abbrev is_exact : Text → Bool
is_exact d = text_eq d (codes "exact")

abbrev is_name_only : Text → Bool
is_name_only d = text_eq d (codes "name-only")

disjoint_domains : (d : Text) → is_name_only d ≡ true → is_exact d ≡ false
unfolding text_eq
disjoint_domains d h = rw ((text_eq_iff d (codes "name-only")).0 h) refl

-- `owned == p`
abbrev pub owns : Option Slot → Slot → Bool
owns none p = false
owns (some q) p = slot_key.same p q

module _ (p q : Slot) (e : IdentityLedgerEvent) (s : Tables) where
  add_slot_exact :
      set_has p (add_slot e q s).exact_slots
      ≡ (set_has p s.exact_slots || is_exact e.domain && slot_key.same p q)
  unfolding add_slot
  add_slot_exact = elim (Bool-cases (is_exact e.domain)) [
    | inl x ↦ rw x (set_has-add p q s.exact_slots)
    | inr x ↦ rw x (ground arith)
  ]

  add_slot_name_only :
      set_has p (add_slot e q s).name_only_slots
      ≡ (set_has p s.name_only_slots || is_name_only e.domain && slot_key.same p q)
  unfolding add_slot
  add_slot_name_only = elim (Bool-cases (is_name_only e.domain)) [
    | inl n ↦ rw (disjoint_domains e.domain n, n) (set_has-add p q s.name_only_slots)
    | inr n ↦ rw n (ground arith)
  ]

add_call_slots :
    (e : IdentityLedgerEvent) (s : Tables)
    → ((add_call e s).exact_slots ≡ s.exact_slots)
      × ((add_call e s).name_only_slots ≡ s.name_only_slots)
unfolding add_call
add_call_slots e s = ground arith

-- What an event adds to the two sets.
update_exact :
    (p : Slot) (b : Branch) (e : IdentityLedgerEvent) (s : Tables)
    → set_has p (update b e s).exact_slots
      ≡ (set_has p s.exact_slots || is_exact e.domain && owns (owned_slot b e) p)
unfolding update
update_exact p edge_event e s = ground arith
update_exact p store_event e s = add_slot_exact p (e.parent_frame, e.source_slot) e _
update_exact p extract_event e s = add_slot_exact p (e.child_frame, e.dest_slot) e _
update_exact p load_event e s = add_slot_exact p (e.parent_frame, e.source_slot) e _
update_exact p call_event e s =
    add_slot_exact p (e.parent_frame, e.source_slot) e (add_call e s) ∙ rw (add_call_slots e s).0
update_exact p other_event e s = ground arith

update_name_only :
    (p : Slot) (b : Branch) (e : IdentityLedgerEvent) (s : Tables)
    → set_has p (update b e s).name_only_slots
      ≡ (set_has p s.name_only_slots || is_name_only e.domain && owns (owned_slot b e) p)
unfolding update
update_name_only p edge_event e s = ground arith
update_name_only p store_event e s = add_slot_name_only p (e.parent_frame, e.source_slot) e _
update_name_only p extract_event e s = add_slot_name_only p (e.child_frame, e.dest_slot) e _
update_name_only p load_event e s = add_slot_name_only p (e.parent_frame, e.source_slot) e _
update_name_only p call_event e s =
    add_slot_name_only p (e.parent_frame, e.source_slot) e (add_call e s)
    ∙ rw (add_call_slots e s).1
update_name_only p other_event e s = ground arith

scan_exact_keeps :
    (p : Slot) (k : ℕ) (es : List IdentityLedgerEvent) (s : Tables)
    → set_has p s.exact_slots ≡ true
    → set_has p (scan k es s).0.exact_slots ≡ true
unfolding scan
scan_exact_keeps p k [] s h = h
scan_exact_keeps p k (e ∷ es) s h =
    scan_exact_keeps p (k + 1) es (update (branch_of e) e s)
      (update_exact p (branch_of e) e s ∙ rw h refl)

scan_name_only_keeps :
    (p : Slot) (k : ℕ) (es : List IdentityLedgerEvent) (s : Tables)
    → set_has p s.name_only_slots ≡ true
    → set_has p (scan k es s).0.name_only_slots ≡ true
unfolding scan
scan_name_only_keeps p k [] s h = h
scan_name_only_keeps p k (e ∷ es) s h =
    scan_name_only_keeps p (k + 1) es (update (branch_of e) e s)
      (update_name_only p (branch_of e) e s ∙ rw h refl)

owns_self : (o : Option Slot) (p : Slot) → o ≡ some p → owns o p ≡ true
owns_self o p h = rw h (same_refl p)

scan_exact :
    (p : Slot) (k : ℕ) (es : List IdentityLedgerEvent) (s : Tables) (x : IdentityLedgerEvent)
    → In x es
    → owned_slot (branch_of x) x ≡ some p
    → is_exact x.domain ≡ true
    → set_has p (scan k es s).0.exact_slots ≡ true
unfolding scan
scan_exact p k [] s x i o d = absurd i
scan_exact p k (e ∷ es) s x (inl same) o d =
    scan_exact_keeps p (k + 1) es (update (branch_of e) e s) (
      update_exact p (branch_of e) e s
      ∙ rw (rw same at d, owns_self _ p (rw same at o)) (ground arith))
scan_exact p k (e ∷ es) s x (inr later) o d =
    scan_exact p (k + 1) es (update (branch_of e) e s) x later o d

scan_name_only :
    (p : Slot) (k : ℕ) (es : List IdentityLedgerEvent) (s : Tables) (x : IdentityLedgerEvent)
    → In x es
    → owned_slot (branch_of x) x ≡ some p
    → is_name_only x.domain ≡ true
    → set_has p (scan k es s).0.name_only_slots ≡ true
unfolding scan
scan_name_only p k [] s x i o d = absurd i
scan_name_only p k (e ∷ es) s x (inl same) o d =
    scan_name_only_keeps p (k + 1) es (update (branch_of e) e s) (
      update_name_only p (branch_of e) e s
      ∙ rw (rw same at d, owns_self _ p (rw same at o)) (ground arith))
scan_name_only p k (e ∷ es) s x (inr later) o d =
    scan_name_only p (k + 1) es (update (branch_of e) e s) x later o d

alias_errors-nil : (xs : List Slot) → alias_errors xs ≡ [] → xs ≡ []
unfolding alias_errors
alias_errors-nil [] h = refl
alias_errors-nil (x ∷ xs) h = cc

-- In a ledger without messages no event of the exact domain and event of the name-only domain own
-- the same slot.
pub accepted-no_alias :
    (events : List IdentityLedgerEvent) (a b : IdentityLedgerEvent) (p : Slot)
    → validate_identity_ledger_relations events ≡ []
    → In a events
    → In b events
    → (a.domain ≡ codes "exact")
    → (b.domain ≡ codes "name-only")
    → owned_slot (branch_of a) a ≡ some p
    → ¬ (owned_slot (branch_of b) b ≡ some p)
unfolding table_errors
accepted-no_alias events a b p h ia ib da db oa ob =
    let tables = (accepted_parts events h).1 in
    let s = (scan 1 events no_tables).0 in
    let h₁ = (append-eq-nil (store_errors s s.stores) _ tables).1 in
    let h₂ = (append-eq-nil (extract_key_errors s s.extracts) _ h₁).1 in
    let h₃ = (append-eq-nil (index_errors s s.edges) _ h₂).1 in
    let h₄ = (append-eq-nil (load_errors s s.loads) _ h₃).1 in
    let h₅ = (append-eq-nil (call_load_errors s s.load_calls) _ h₄).1 in
    let apart =
      set_both-none p s.exact_slots s.name_only_slots (alias_errors-nil _ h₅)
        (scan_exact p 1 events no_tables a ia oa ((text_eq_iff a.domain (codes "exact")).1 da)) in
    let there =
      scan_name_only p 1 events no_tables b ib ob
        ((text_eq_iff b.domain (codes "name-only")).1 db) in
    cc
