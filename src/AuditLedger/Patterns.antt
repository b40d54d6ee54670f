-- ===== src/AuditLedger/Patterns.antt =====
-- `.agents/scripts/audit_ledger.py`: the closed sets, the patterns and the lower case.
use ring_lang.Common.{
  ℕ, ◌+◌, Bool, ◌&&◌, ◌||◌, List, [], ◌∷◌, ◌++◌, leb, ◌==◌, if◌then◌else◌, Text, codes,
}
use ring_lang.Common.Regex.{
  Regex, class, both, seq, alt, either, at_most, many, exactly, optional, literal, between, start,
  finish,
}
use ring_lang.Common.Dicts.{text_key}

abbrev pub outcomes : List Text
outcomes = codes "findings" ∷ codes "no-findings" ∷ []

abbrev pub audit_lenses : List Text
audit_lenses =
    codes "rc-memory"
    ∷ codes "type-soundness"
    ∷ codes "backend-parity"
    ∷ codes "runtime-abi"
    ∷ codes "design-drift"
    ∷ codes "oracle-blind"
    ∷ []

abbrev pub is_digit : ℕ → Bool
is_digit c = leb 48 c && leb c 57

abbrev pub is_hex : ℕ → Bool
is_hex c = is_digit c || leb 97 c && leb c 102

abbrev pub is_lower : ℕ → Bool
is_lower c = leb 97 c && leb c 122

-- `[._:/-]`
abbrev pub is_mark : ℕ → Bool
is_mark c = c == b'.' || c == b'_' || c == b':' || c == b'/' || c == b'-'

abbrev pub is_token_char : ℕ → Bool
is_token_char c = is_lower c || is_digit c || is_mark c

unfoldable pub token : Regex
token = both (class is_lower) (both (class is_token_char) (at_most 126 is_token_char))

unfoldable pub full_sha : Regex
full_sha = either (exactly 40 is_hex) (exactly 64 is_hex)

-- `(?:^|[._:/-])` and `(?:$|[._:/-])`
abbrev pub opens : Regex
opens = either start (class is_mark)

abbrev pub closes : Regex
closes = either finish (class is_mark)

abbrev pub maybe_mark : Regex
maybe_mark = optional (class is_mark)

abbrev pub digit : Regex
digit = class is_digit

abbrev pub char : ℕ → Regex
char c = class (◌==◌ c)

-- `\d` is an ASCII digit here: the text is a token when the pattern is tried.
unfoldable pub iso_date : Regex
iso_date =
    let month =
      alt (both (char 48) (class (between 49 57))) (both (char 49) (class (between 48 50)) ∷ []) in
    let day =
      alt (both (char 48) (class (between 49 57)))
        (both (class (between 49 50)) digit ∷ both (char 51) (class (between 48 49)) ∷ []) in
    seq (
      opens
      ∷ alt (literal (codes "19")) (literal (codes "20") ∷ [])
      ∷ digit
      ∷ digit
      ∷ maybe_mark
      ∷ month
      ∷ maybe_mark
      ∷ day
      ∷ closes
      ∷ [])

unfoldable pub uuid : Regex
uuid =
    let hyphen = char b'-' in
    let variant = class (λ c. c == 56 || c == 57 || c == 97 || c == 98) in
    seq (
      exactly 8 is_hex
      ∷ hyphen
      ∷ exactly 4 is_hex
      ∷ hyphen
      ∷ class (between 49 53)
      ∷ exactly 3 is_hex
      ∷ hyphen
      ∷ variant
      ∷ exactly 3 is_hex
      ∷ hyphen
      ∷ exactly 12 is_hex
      ∷ [])

unfoldable pub random_hex : Regex
random_hex = seq (opens ∷ exactly 16 is_hex ∷ many is_hex ∷ closes ∷ [])

abbrev pub counter_word : Regex
counter_word = alt (literal (codes "round")) (
    literal (codes "run")
    ∷ literal (codes "retry")
    ∷ literal (codes "attempt")
    ∷ literal (codes "counter")
    ∷ [])

unfoldable pub incremental_trigger_suffix : Regex
incremental_trigger_suffix =
    seq (opens ∷ optional (both counter_word maybe_mark) ∷ digit ∷ many is_digit ∷ finish ∷ [])

abbrev pub evidence_prefix : Text
evidence_prefix = codes "evidence:commit:"

unfoldable pub evidence_commit : Regex
evidence_commit = both (literal evidence_prefix) (either (exactly 40 is_hex) (exactly 64 is_hex))

-- `str.lower` of one code point. Besides A-Z only U+212A and U+0130 have a lower case with an ASCII
-- letter in it; a text with any other capital keeps a code point that no pattern here accepts.
unfoldable pub lower_char : ℕ → Text
lower_char c =
    if leb 65 c && leb c 90
    then (c + 32) ∷ []
    else if c == 0x212a
    then 107 ∷ []
    else if c == 0x130
    then 105 ∷ 0x307 ∷ []
    else c ∷ []

unfoldable pub lower : Text → Text
unfolding lower_char
lower [] = []
lower (c ∷ s) = lower_char c ++ lower s
