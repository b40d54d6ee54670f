-- ===== src/CText.antt =====
-- tests/run_tests.py: `mask_c_strings_and_comments` and `matching_delimiter`, the lexical helpers
-- behind every check of the generated C. A text is the list of its code points.
pub mod Masking
pub mod Idempotent
pub mod Matching
mod Tests
use ring_lang.Common.{
  ℕ, zero, suc, ◌+◌, ◌-◌, Bool, true, false, ◌&&◌, List, [], ◌∷◌, ◌++◌, Option, none, some, ◌==◌,
  if◌then◌else◌, Text, Result, ok, err, get_elem?, drop,
}

-- The values of the local variable `state`.
pub data State : Type 0 where
  code line_comment block_comment string char : State

-- One round of the loop: what is appended, the next state, and whether two characters are read.
pub record Round : Type 0 where
  pub out : Text
  pub next : State
  pub two : Bool

abbrev one : ℕ → State → Round
one c st = record { out = c ∷ []; next = st; two = false }

abbrev pair : ℕ → ℕ → State → Round
pair c d st = record { out = c ∷ d ∷ []; next = st; two = true }

-- `"\n" if c == "\n" else " "`
abbrev pub blank : ℕ → ℕ
blank c = if c == b'\n' then b'\n' else b' '

-- `next_char == c`; at the end of the source `next_char` is the empty string
abbrev pub next_is : Option ℕ → ℕ → Bool
next_is none c = false
next_is (some d) c = d == c

code_round : ℕ → Option ℕ → Round
code_round c d =
    if c == b'/' && next_is d b'/'
    then pair b' ' b' ' line_comment
    else if c == b'/' && next_is d b'*'
    then pair b' ' b' ' block_comment
    else if c == b'"'
    then one b' ' string
    else if c == b'\''
    then one b' ' char
    else one c code

-- Inside a literal; `quote` closes it, and `state` is the state that reads it.
quoted_round : ℕ → State → ℕ → Option ℕ → Round
quoted_round quote state c none = if c == quote then one b' ' code else one (blank c) state
quoted_round quote state c (some d) =
    if c == b'\\'
    then pair b' ' (blank d) state
    else if c == quote
    then one b' ' code
    else one (blank c) state

unfoldable pub mask_round : State → ℕ → Option ℕ → Round
unfolding code_round quoted_round
mask_round code c d = code_round c d
mask_round line_comment c d = if c == b'\n' then one b'\n' code else one b' ' line_comment
mask_round block_comment c d =
    if c == b'*' && next_is d b'/' then pair b' ' b' ' code else one (blank c) block_comment
mask_round string c d = quoted_round b'"' string c d
mask_round char c d = quoted_round b'\'' char c d

unfoldable pub mask_from : State → Text → Text
mask_from st [] = []
mask_from st (c ∷ []) = (mask_round st c none).out
mask_from st (c ∷ d ∷ s) =
    let r = mask_round st c (some d) in
    let after_two = mask_from r.next s in
    let after_one = mask_from r.next (d ∷ s) in r.out ++ (if r.two then after_two else after_one)

unfoldable pub mask_c_strings_and_comments : Text → Text
mask_c_strings_and_comments = mask_from code

-- The two messages of `matching_delimiter`, with the offset that they print.
pub data DelimiterError : Type 0 where
  expected : ℕ → ℕ → DelimiterError
  unclosed : ℕ → ℕ → DelimiterError

-- The loop over the indices; `depth` is at least 1 after its first round, so it stays a natural.
unfoldable pub close_from : ℕ → ℕ → ℕ → ℕ → Text → Option ℕ
close_from opening closing depth index [] = none
close_from opening closing depth index (c ∷ s) =
    let deeper = close_from opening closing (depth + 1) (index + 1) s in
    let shallower = close_from opening closing (depth - 1) (index + 1) s in
    let same = close_from opening closing depth (index + 1) s in
    if c == opening
    then deeper
    else if c == closing
    then if depth == 1 then some index else shallower
    else same

abbrev found : DelimiterError → Option ℕ → Result DelimiterError ℕ
found e none = err e
found e (some i) = ok i

-- `open_index >= len(masked) or masked[open_index] != opening` is a failed look-up or a mismatch.
unfoldable pub matching_delimiter : Text → ℕ → ℕ → ℕ → Result DelimiterError ℕ
matching_delimiter masked open_index opening closing =
    if next_is (get_elem? masked open_index) opening
    then found (unclosed opening open_index)
        (close_from opening closing 0 open_index (drop open_index masked))
    else err (expected opening open_index)
