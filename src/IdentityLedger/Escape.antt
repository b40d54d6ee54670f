-- ===== src/IdentityLedger/Escape.antt =====
-- `_ledger_escape` and `_ledger_unescape`.
pub mod Canonical
use ring_lang.Common.{
  ℕ, Bool, true, false, List, [], ◌∷◌, ◌++◌, Option, none, some, if◌then◌else◌, ◌==◌, ◌&&◌, Text,
  codes, text_eq, Result, ok, err, ◌>>=◌,
}

-- `value.replace(c, by)`, for one character
unfoldable pub replace : ℕ → Text → Text → Text
replace c by [] = []
replace c by (d ∷ s) = (if d == c then by else d ∷ []) ++ replace c by s

unfoldable pub ledger_escape : Text → Text
unfolding replace
ledger_escape value =
    replace b'\r' (codes "%0D")
      (replace b'\n' (codes "%0A") (replace b'|' (codes "%7C") (replace b'%' (codes "%25") value)))

pub data EscapeError : Type 0 where
  truncated : EscapeError
  unknown_escape : ℕ → ℕ → EscapeError
  non_canonical : EscapeError

-- `_LEDGER_ESCAPES.get(code)`, for a code of two characters
unfoldable pub ledger_escapes : ℕ → ℕ → Option ℕ
ledger_escapes a b =
    if a == b'2' && b == b'5'
    then some b'%'
    else if a == b'7' && b == b'C'
    then some b'|'
    else if a == b'0' && b == b'A'
    then some b'\n'
    else if a == b'0' && b == b'D'
    then some b'\r'
    else none

abbrev pub prepend : ℕ → Result EscapeError Text → Result EscapeError Text
prepend c r = r >>= λ s. ok (c ∷ s)

-- What follows a code that has been looked up.
abbrev pub decoded : ℕ → ℕ → Option ℕ → Result EscapeError Text → Result EscapeError Text
decoded a b none r = err (unknown_escape a b)
decoded a b (some c) r = prepend c r

-- The loop over the value.
unfoldable pub unescape_from : Text → Result EscapeError Text
unescape_from [] = ok []
unescape_from (c ∷ []) = if c == b'%' then err truncated else ok (c ∷ [])
unescape_from (c ∷ a ∷ []) =
    let rest = unescape_from (a ∷ []) in if c == b'%' then err truncated else prepend c rest
unescape_from (c ∷ a ∷ b ∷ s) =
    let after_code = unescape_from s in
    let after_char = unescape_from (a ∷ b ∷ s) in
    let code = ledger_escapes a b in
    if c == b'%' then decoded a b code after_code else prepend c after_char

unfoldable pub ledger_unescape : Text → Result EscapeError Text
unfolding unescape_from ledger_escapes
ledger_unescape value = unescape_from value >>= λ decoded_value.
    if text_eq (ledger_escape decoded_value) value then ok decoded_value else err non_canonical
