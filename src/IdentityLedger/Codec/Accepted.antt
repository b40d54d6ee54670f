-- ===== src/IdentityLedger/Codec/Accepted.antt =====
-- What `parse_identity_ledger` accepts.
use ring_lang.Common.{
  ℕ, List, [], ◌∷◌, ◌++◌, ◌≡◌, Option, none, some, arith, inl, inr, Text, text_eq, text_eq_iff,
  Bool-cases,
}
use ring_lang.Common.Utf8.{decode}
use ring_lang.Common.Lines.{splitlines}
use ring_lang.IdentityLedger.Event.{IdentityLedgerEvent, LedgerError}
use ring_lang.IdentityLedger.Relations.{validate_identity_ledger_relations}
use ring_lang.IdentityLedger.Codec.{
  header, serialize_identity_ledger, check_events, read_lines, parse_lines, parse_text,
  parse_identity_ledger, Parsed,
}

check_events-some :
    (bytes : List ℕ) (events : List IdentityLedgerEvent) (errors relations : List LedgerError)
    {found : List IdentityLedgerEvent}
    → (check_events bytes events errors relations).0 ≡ some found
    → (found ≡ events)
      × (errors ≡ [])
      × (relations ≡ [])
      × (serialize_identity_ledger events ≡ bytes)
      × ((check_events bytes events errors relations).1 ≡ [])
unfolding check_events
check_events-some bytes events (x ∷ errors) relations h = cc
check_events-some bytes events [] (x ∷ relations) h = cc
check_events-some bytes events [] [] h =
    ground (arith, text_eq_iff (serialize_identity_ledger events) bytes)

abbrev IsAccepted : List ℕ → List IdentityLedgerEvent → Parsed → Type 0
IsAccepted bytes found r =
    (serialize_identity_ledger found ≡ bytes)
    × (validate_identity_ledger_relations found ≡ [])
    × (r.1 ≡ [])

parse_lines-some :
    (bytes : List ℕ) (ending : List LedgerError) (lines : List Text)
    {found : List IdentityLedgerEvent}
    → (parse_lines bytes ending lines).0 ≡ some found
    → IsAccepted bytes found (parse_lines bytes ending lines)
unfolding parse_lines
parse_lines-some bytes ending [] h = cc
parse_lines-some bytes ending (first ∷ lines) h = elim (Bool-cases (text_eq first header)) [
  | inl e ↦
      let r = read_lines 1 lines in
      let c =
        check_events-some bytes r.0 (ending ++ r.1) (validate_identity_ledger_relations r.0)
          (rw e at h) in
      rw (e, c.0) (c.3, c.2, c.4)
  | inr e ↦ absurd (ground arith)
]

parse_text-some :
    (bytes : List ℕ) (o : Option Text) {found : List IdentityLedgerEvent}
    → (parse_text bytes o).0 ≡ some found
    → IsAccepted bytes found (parse_text bytes o)
unfolding parse_text
parse_text-some bytes none h = cc
parse_text-some bytes (some text) h = parse_lines-some bytes _ (splitlines text) h

-- Bytes that parse to events are exactly the serialization of those events, whose relations hold, and
-- no message comes with them.
pub parse-some :
    (bytes : List ℕ) (events : List IdentityLedgerEvent)
    → (parse_identity_ledger bytes).0 ≡ some events
    → (serialize_identity_ledger events ≡ bytes)
      × (validate_identity_ledger_relations events ≡ [])
      × ((parse_identity_ledger bytes).1 ≡ [])
unfolding parse_identity_ledger
parse-some bytes events h = parse_text-some bytes (decode bytes) h
