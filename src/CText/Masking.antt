-- ===== src/CText/Masking.antt =====
-- Masking keeps every offset and every line.
use ring_lang.Common.{
  ℕ, true, false, [], ◌∷◌, ◌++◌, ◌≡◌, ◌≢◌, ◌⊎◌, inl, inr, none, some, arith, Text,
}
use ring_lang.CText.{
  State, code, line_comment, block_comment, string, char, Round, mask_round, mask_from,
  mask_c_strings_and_comments,
}

-- The second text is the first one, position by position: the same character, or a space in place
-- of a character that is no newline.
abbrev pub MaskOf : Text → Text → Type 0
MaskOf [] [] = Unit
MaskOf (c ∷ s) (d ∷ t) = ((d ≡ c) ⊎ (d ≡ b' ') × (c ≢ b'\n')) × MaskOf s t
MaskOf _ _ = ⊥

MaskOf-append : (a s x t : Text) → MaskOf a x → MaskOf s t → MaskOf (a ++ s) (x ++ t)
MaskOf-append [] s [] t h k = k
MaskOf-append (c ∷ a) s (d ∷ x) t h k = (h.0, MaskOf-append a s x t h.1 k)
MaskOf-append [] s (d ∷ x) t h k = elim h [ ]
MaskOf-append (c ∷ a) s [] t h k = elim h [ ]

-- One round reads one character, or two, and writes as many.
abbrev RoundKeeps : ℕ → ℕ → Round → Type 0
RoundKeeps c d r =
    ((r.two ≡ true) × MaskOf (c ∷ d ∷ []) r.out) ⊎ ((r.two ≡ false) × MaskOf (c ∷ []) r.out)

mask_round-RoundKeeps : (st : State) (c d : ℕ) → RoundKeeps c d (mask_round st c (some d))
unfolding mask_round
mask_round-RoundKeeps code c d = ground arith
mask_round-RoundKeeps line_comment c d = ground arith
mask_round-RoundKeeps block_comment c d = ground arith
mask_round-RoundKeeps string c d = ground arith
mask_round-RoundKeeps char c d = ground arith

mask_round_last : (st : State) (c : ℕ) → MaskOf (c ∷ []) (mask_round st c none).out
unfolding mask_round
mask_round_last code c = ground arith
mask_round_last line_comment c = ground arith
mask_round_last block_comment c = ground arith
mask_round_last string c = ground arith
mask_round_last char c = ground arith

MaskOf-mask_from : (st : State) (s : Text) → MaskOf s (mask_from st s)
unfolding mask_from
MaskOf-mask_from st [] = tt
MaskOf-mask_from st (c ∷ []) = mask_round_last st c
MaskOf-mask_from st (c ∷ d ∷ s) =
    let r = mask_round st c (some d) in
    let after_two = MaskOf-mask_from r.next s in
    let after_one = MaskOf-mask_from r.next (d ∷ s) in
    elim (mask_round-RoundKeeps st c d) [
      | inl (e, k) ↦ rw e (MaskOf-append (c ∷ d ∷ []) s r.out _ k after_two)
      | inr (e, k) ↦ rw e (MaskOf-append (c ∷ []) (d ∷ s) r.out _ k after_one)
    ]

-- The masked text has the source's length, and at each offset holds the source's character or a
-- space; a newline is never replaced, so every line keeps its number.
pub MaskOf-mask : (source : Text) → MaskOf source (mask_c_strings_and_comments source)
unfolding mask_c_strings_and_comments
MaskOf-mask source = MaskOf-mask_from code source
