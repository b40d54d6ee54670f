-- ===== src/CText/Idempotent.antt =====
-- The masked text holds no literal and no comment, so masking it again changes nothing.
use ring_lang.Common.{ℕ, Bool, false, ◌&&◌, ◌||◌, [], ◌∷◌, ◌≡◌, refl, arith, ◌==◌, Text}
use ring_lang.CText.{
  State, code, line_comment, block_comment, string, char, blank, mask_round, mask_from,
  mask_c_strings_and_comments,
}

-- `//` or `/*`
abbrev opens_comment : ℕ → ℕ → Bool
opens_comment c d = c == b'/' && (d == b'/' || d == b'*')

abbrev Starts : ℕ → Text → Type 0
Starts c [] = Unit
Starts c (d ∷ t) = opens_comment c d ≡ false

-- No quote, and no two characters that open a comment.
abbrev pub IsPlain : Text → Type 0
IsPlain [] = Unit
IsPlain (c ∷ t) = ((c == b'"') ≡ false) × ((c == b'\'') ≡ false) × Starts c t × IsPlain t

IsPlain-space : (t : Text) → IsPlain t → IsPlain (b' ' ∷ t)
IsPlain-space [] h = ground arith
IsPlain-space (d ∷ t) h = ground arith

IsPlain-blank : (c : ℕ) (t : Text) → IsPlain t → IsPlain (blank c ∷ t)
IsPlain-blank c [] h = ground arith
IsPlain-blank c (d ∷ t) h = ground arith

-- A `/` that opens no comment is followed by something else in the output too.
Starts-mask_from :
    (c d : ℕ) (s : Text) → opens_comment c d ≡ false → Starts c (mask_from code (d ∷ s))
unfolding mask_from mask_round
Starts-mask_from c d [] h = ground arith
Starts-mask_from c d (e ∷ s) h = ground arith

IsPlain-last : (st : State) (c : ℕ) → IsPlain (mask_from st (c ∷ []))
unfolding mask_from mask_round
IsPlain-last code c = ground arith
IsPlain-last line_comment c = ground arith
IsPlain-last block_comment c = ground arith
IsPlain-last string c = ground arith
IsPlain-last char c = ground arith

IsPlain-mask_from : (st : State) (s : Text) → IsPlain (mask_from st s)
unfolding mask_from mask_round
IsPlain-mask_from st [] = tt
IsPlain-mask_from st (c ∷ []) = IsPlain-last st c
IsPlain-mask_from code (c ∷ d ∷ s) = ground (
  arith,
  Starts-mask_from c d s,
  IsPlain-mask_from code (d ∷ s),
  IsPlain-space (mask_from string (d ∷ s)) (IsPlain-mask_from string (d ∷ s)),
  IsPlain-space (mask_from char (d ∷ s)) (IsPlain-mask_from char (d ∷ s)),
  IsPlain-space (b' ' ∷ mask_from line_comment s)
      (IsPlain-space (mask_from line_comment s) (IsPlain-mask_from line_comment s)),
  IsPlain-space (b' ' ∷ mask_from block_comment s)
      (IsPlain-space (mask_from block_comment s) (IsPlain-mask_from block_comment s)),
)
IsPlain-mask_from line_comment (c ∷ d ∷ s) = ground (
  arith,
  IsPlain-blank c (mask_from code (d ∷ s)) (IsPlain-mask_from code (d ∷ s)),
  IsPlain-space (mask_from line_comment (d ∷ s)) (IsPlain-mask_from line_comment (d ∷ s)),
)
IsPlain-mask_from block_comment (c ∷ d ∷ s) = ground (
  arith,
  IsPlain-blank c (mask_from block_comment (d ∷ s)) (IsPlain-mask_from block_comment (d ∷ s)),
  IsPlain-space (b' ' ∷ mask_from code s)
      (IsPlain-space (mask_from code s) (IsPlain-mask_from code s)),
)
IsPlain-mask_from string (c ∷ d ∷ s) = ground (
  arith,
  IsPlain-blank c (mask_from string (d ∷ s)) (IsPlain-mask_from string (d ∷ s)),
  IsPlain-space (mask_from code (d ∷ s)) (IsPlain-mask_from code (d ∷ s)),
  IsPlain-space (blank d ∷ mask_from string s)
      (IsPlain-blank d (mask_from string s) (IsPlain-mask_from string s)),
)
IsPlain-mask_from char (c ∷ d ∷ s) = ground (
  arith,
  IsPlain-blank c (mask_from char (d ∷ s)) (IsPlain-mask_from char (d ∷ s)),
  IsPlain-space (mask_from code (d ∷ s)) (IsPlain-mask_from code (d ∷ s)),
  IsPlain-space (blank d ∷ mask_from char s)
      (IsPlain-blank d (mask_from char s) (IsPlain-mask_from char s)),
)

mask_from-IsPlain : (t : Text) → IsPlain t → mask_from code t ≡ t
unfolding mask_from mask_round
mask_from-IsPlain [] h = refl
mask_from-IsPlain (c ∷ []) h = ground arith
mask_from-IsPlain (c ∷ d ∷ t) h = ground (arith, mask_from-IsPlain (d ∷ t))

-- Nothing that the mask leaves can be read as a literal or a comment.
pub IsPlain-mask : (source : Text) → IsPlain (mask_c_strings_and_comments source)
unfolding mask_c_strings_and_comments
IsPlain-mask source = IsPlain-mask_from code source

-- Masking is idempotent: masked text holds nothing more to mask.
pub mask-mask :
    (source : Text)
    → mask_c_strings_and_comments (mask_c_strings_and_comments source)
      ≡ mask_c_strings_and_comments source
unfolding mask_c_strings_and_comments
mask-mask source = mask_from-IsPlain (mask_from code source) (IsPlain-mask_from code source)
