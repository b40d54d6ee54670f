-- ===== src/IdentityLedger/Escape/Canonical.antt =====
-- The escape is a bijection onto the texts that `_ledger_unescape` accepts.
use ring_lang.Common.{
  ℕ, true, false, ◌||◌, [], ◌∷◌, ◌++◌, ◌≡◌, ◌↔◌, refl, ap, ◌∙◌, inl, inr, arith, ◌==◌,
  if◌then◌else◌, Text, codes, text_eq_iff, text_eq_refl, has, has-append, ok, >>=-eq-ok, Bool-cases,
  append_assoc,
}
use ring_lang.IdentityLedger.Escape.{
  replace, ledger_escape, ledger_unescape, unescape_from, ledger_escapes, prepend,
}

-- What the four replacements make of one character.
abbrev pub escape_char : ℕ → Text
escape_char c =
    if c == b'%'
    then codes "%25"
    else if c == b'|'
    then codes "%7C"
    else if c == b'\n'
    then codes "%0A"
    else if c == b'\r'
    then codes "%0D"
    else c ∷ []

replace-append : (c : ℕ) (by a b : Text) → replace c by (a ++ b) ≡ replace c by a ++ replace c by b
unfolding replace
replace-append c by [] b = refl
replace-append c by (d ∷ a) b = rw (replace-append c by a b, append_assoc)

escape_char_lem : (c : ℕ) → ledger_escape (c ∷ []) ≡ escape_char c
unfolding ledger_escape
escape_char_lem c = ground arith

escape-append : (a b : Text) → ledger_escape (a ++ b) ≡ ledger_escape a ++ ledger_escape b
unfolding ledger_escape
escape-append a b = simp replace-append

pub escape-cons : (c : ℕ) (s : Text) → ledger_escape (c ∷ s) ≡ escape_char c ++ ledger_escape s
escape-cons c s = escape-append (c ∷ []) s ∙ ap (λ t. t ++ ledger_escape s) (escape_char_lem c)

unescape_plain :
    (c : ℕ) (s : Text) → (c == b'%') ≡ false → unescape_from (c ∷ s) ≡ prepend c (unescape_from s)
unfolding unescape_from
unescape_plain c [] h = rw h
unescape_plain c (a ∷ []) h = rw h
unescape_plain c (a ∷ b ∷ s) h = rw h

unescape-escape_char :
    (c : ℕ) (s : Text) → unescape_from (escape_char c ++ s) ≡ prepend c (unescape_from s)
unfolding unescape_from ledger_escapes
unescape-escape_char c s = elim (Bool-cases (c == b'%')) [
  | inl e ↦ ground arith
  | inr e ↦ elim (Bool-cases (c == b'|')) [
    | inl e₁ ↦ ground arith
    | inr e₁ ↦ elim (Bool-cases (c == b'\n')) [
      | inl e₂ ↦ ground arith
      | inr e₂ ↦ elim (Bool-cases (c == b'\r')) [
        | inl e₃ ↦ ground arith
        | inr e₃ ↦ rw (e, e₁, e₂, e₃) (unescape_plain c s e)
      ]
    ]
  ]
]

unescape_from-escape : (v : Text) → unescape_from (ledger_escape v) ≡ ok v
unescape_from-escape [] = unfold unescape_from ledger_escape in refl
unescape_from-escape (c ∷ v) =
    rw (escape-cons c v) (unescape-escape_char c (ledger_escape v) ∙ rw (unescape_from-escape v))

-- A text unescapes to a value exactly when it is the escape of that value: every value survives the
-- round trip, and only canonical escapes are accepted.
pub unescape_iff : (t v : Text) → (ledger_unescape t ≡ ok v) ↔ (t ≡ ledger_escape v)
unfolding ledger_unescape
unescape_iff t v = (sound, complete)
  where
    sound : ledger_unescape t ≡ ok v → t ≡ ledger_escape v
    sound e =
        let (d, _, checked) = >>=-eq-ok (unescape_from t) _ e in
        ground (arith, text_eq_iff (ledger_escape d) t)

    complete : t ≡ ledger_escape v → ledger_unescape t ≡ ok v
    complete e = rw (e, unescape_from-escape v, text_eq_refl (ledger_escape v)) refl

-- An escaped value holds none of the separators of the format.
pub escape-has :
    (c : ℕ) (v : Text)
    → (c == b'|' || c == b'\n' || c == b'\r') ≡ true
    → has c (ledger_escape v) ≡ false
escape-has c [] h = unfold ledger_escape has in refl
escape-has c (d ∷ v) h =
    rw (escape-cons d v, has-append c (escape_char d) (ledger_escape v), escape-has c v h)
      (unfold has in ground arith)
