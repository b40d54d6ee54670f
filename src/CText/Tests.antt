-- ===== src/CText/Tests.antt =====
-- The lexical helpers on small texts, and the theorems at them.
use ring_lang.Common.{ℕ, ◌+◌, ◌≡◌, ◌↔◌, refl, ok, err, codes, Text, arith}
use ring_lang.CText.{
  mask_from, mask_round, close_from, mask_c_strings_and_comments, matching_delimiter, expected,
  unclosed,
}
use ring_lang.CText.Masking.{MaskOf, MaskOf-mask}
use ring_lang.CText.Idempotent.{mask-mask}
use ring_lang.CText.Matching.{ClosesAt, matching_delimiter_iff}

abbrev source : Text
source = codes "f(\"a\\\"}\") { g('{'); /* } \n */ h(); } // {"

mask-source :
    mask_c_strings_and_comments source ≡ codes "f(      ) { g(   );      \n    h(); }     "
unfolding mask_c_strings_and_comments mask_from mask_round
mask-source = refl

MaskOf-mask_example : MaskOf source (mask_c_strings_and_comments source)
MaskOf-mask_example = MaskOf-mask source

mask-mask_example :
    mask_c_strings_and_comments (mask_c_strings_and_comments source)
    ≡ mask_c_strings_and_comments source
mask-mask_example = mask-mask source

matching-source : matching_delimiter (mask_c_strings_and_comments source) 10 b'{' b'}' ≡ ok 35
unfolding matching_delimiter close_from mask_c_strings_and_comments mask_from mask_round
matching-source = refl

matching_errors :
    (matching_delimiter (codes "a{") 0 b'{' b'}' ≡ err (expected b'{' 0))
    × (matching_delimiter (codes "a{{}") 1 b'{' b'}' ≡ err (unclosed b'{' 1))
unfolding matching_delimiter close_from
matching_errors = (refl, refl)

matching_delimiter_iff_example :
    (matching_delimiter (codes "a{{}}") 1 b'{' b'}' ≡ ok 4)
    ↔ ((n : ℕ) × (◌≡◌ {A = ℕ} 4 (1 + n)) × ClosesAt b'{' b'}' 0 (codes "{{}}") n)
matching_delimiter_iff_example =
    matching_delimiter_iff (codes "a{{}}") 1 b'{' b'}' 4 (λ e. omega arith)
