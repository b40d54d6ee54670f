-- ===== src/Common/Utf8.antt =====
-- `text.encode("utf-8")` and `data.decode("utf-8", errors="strict")`. A byte is a number.
use Prim.Native.Nat.{ℕ, zero, suc, ◌+◌, ◌-◌, ◌*◌, ◌/◌, ◌%◌, ◌<◌, ◌≤◌}
use mathlib.Core.Path.{◌≡◌, refl, ◌∙◌}
use mathlib.Core.Bool.{Bool, true, false, ◌&&◌, ◌||◌}
use mathlib.Core.Option.{Option, none, some}
use mathlib.Core.List.{List, [], ◌∷◌, ◌++◌}
use native.Mathlib.Omega.{arith}
use ring_lang.Common.Tests.{ltb, leb, ◌==◌, if◌then◌else◌, Bool-cases}
use mathlib.Core.Logic.{inl, inr}
use ring_lang.Common.Lists.{All}
use ring_lang.Common.Texts.{Text}

-- The bytes of one character; a text holds no surrogates.
unfoldable pub encode_char : ℕ → List ℕ
encode_char c =
    if ltb c 0x80
    then c ∷ []
    else if ltb c 0x800
    then (0xc0 + c / 64) ∷ (0x80 + c % 64) ∷ []
    else if ltb c 0x10000
    then (0xe0 + c / 4096) ∷ (0x80 + c / 64 % 64) ∷ (0x80 + c % 64) ∷ []
    else (0xf0 + c / 262144) ∷ (0x80 + c / 4096 % 64) ∷ (0x80 + c / 64 % 64) ∷ (0x80 + c % 64) ∷ []

unfoldable pub encode : Text → List ℕ
encode [] = []
encode (c ∷ s) = encode_char c ++ encode s

abbrev pub is_scalar : ℕ → Bool
is_scalar c = ltb c 0xd800 || leb 0xe000 c && ltb c 0x110000

abbrev cons_some : ℕ → Option Text → Option Text
cons_some c none = none
cons_some c (some s) = some (c ∷ s)

-- The first argument counts the continuation bytes that are still wanted, `acc` holds the bits read,
-- and `low` is the least character that takes this many bytes.
unfoldable pub decode_from : ℕ → ℕ → ℕ → List ℕ → Option Text
decode_from zero acc low [] = some []
decode_from (suc k) acc low [] = none
decode_from zero acc low (b ∷ bs) =
    let ascii = cons_some b (decode_from zero 0 0 bs) in
    let lead_two = decode_from 1 (b - 0xc0) 0x80 bs in
    let lead_three = decode_from 2 (b - 0xe0) 0x800 bs in
    let lead_four = decode_from 3 (b - 0xf0) 0x10000 bs in
    if ltb b 0x80
    then ascii
    else if leb 0xc2 b && ltb b 0xe0
    then lead_two
    else if leb 0xe0 b && ltb b 0xf0
    then lead_three
    else if leb 0xf0 b && ltb b 0xf5
    then lead_four
    else none
decode_from (suc k) acc low (b ∷ bs) =
    let c : ℕ = acc * 64 + (b - 0x80) in
    let more = decode_from k c low bs in
    let rest = cons_some c (decode_from zero 0 0 bs) in
    if leb 0x80 b && ltb b 0xc0
    then if k == 0 then (if leb low c && is_scalar c then rest else none) else more
    else none

-- `none` is `UnicodeDecodeError`
unfoldable pub decode : List ℕ → Option Text
unfolding decode_from
decode bs = decode_from zero 0 0 bs

abbrev pub IsScalarText : Text → Type 0
IsScalarText = All (λ c. is_scalar c ≡ true)

more_step :
    (k acc low x : ℕ) (bs : List ℕ)
    → x < 64
    → decode_from (suc (suc k)) acc low ((0x80 + x) ∷ bs)
      ≡ decode_from (suc k) (acc * 64 + x) low bs
unfolding decode_from
more_step k acc low x bs h =
    let e : 0x80 + x - 0x80 ≡ x = omega arith in
    let t : (leb 0x80 (0x80 + x) && ltb (0x80 + x) 0xc0) ≡ true = ground arith in
    let n : (suc k == 0) ≡ false = ground arith in rw (t, n, e)

last_step :
    (acc low x c : ℕ) (bs : List ℕ) {s : Text}
    → x < 64
    → acc * 64 + x ≡ c
    → low ≤ c
    → is_scalar c ≡ true
    → decode_from zero 0 0 bs ≡ some s
    → decode_from 1 acc low ((0x80 + x) ∷ bs) ≡ some (c ∷ s)
unfolding decode_from
last_step acc low x c bs h ec lc sc e =
    let ex : 0x80 + x - 0x80 ≡ x = omega arith in
    let t : (leb 0x80 (0x80 + x) && ltb (0x80 + x) 0xc0) ≡ true = ground arith in
    let l : leb low c ≡ true = ground arith in rw (t, ex, ec, l, sc, e)

lead_two_step :
    (x : ℕ) (bs : List ℕ)
    → 2 ≤ x
    → x < 32
    → decode_from zero 0 0 ((0xc0 + x) ∷ bs) ≡ decode_from 1 x 0x80 bs
unfolding decode_from
lead_two_step x bs l h =
    let e : 0xc0 + x - 0xc0 ≡ x = omega arith in
    let a : ltb (0xc0 + x) 0x80 ≡ false = ground arith in
    let b : (leb 0xc2 (0xc0 + x) && ltb (0xc0 + x) 0xe0) ≡ true = ground arith in rw (a, b, e)

lead_three_step :
    (x : ℕ) (bs : List ℕ)
    → x < 16
    → decode_from zero 0 0 ((0xe0 + x) ∷ bs) ≡ decode_from 2 x 0x800 bs
unfolding decode_from
lead_three_step x bs h =
    let e : 0xe0 + x - 0xe0 ≡ x = omega arith in
    let a : ltb (0xe0 + x) 0x80 ≡ false = ground arith in
    let b : (leb 0xc2 (0xe0 + x) && ltb (0xe0 + x) 0xe0) ≡ false = ground arith in
    let c : (leb 0xe0 (0xe0 + x) && ltb (0xe0 + x) 0xf0) ≡ true = ground arith in rw (a, b, c, e)

lead_four_step :
    (x : ℕ) (bs : List ℕ)
    → x < 5
    → decode_from zero 0 0 ((0xf0 + x) ∷ bs) ≡ decode_from 3 x 0x10000 bs
unfolding decode_from
lead_four_step x bs h =
    let e : 0xf0 + x - 0xf0 ≡ x = omega arith in
    let a : ltb (0xf0 + x) 0x80 ≡ false = ground arith in
    let b : (leb 0xc2 (0xf0 + x) && ltb (0xf0 + x) 0xe0) ≡ false = ground arith in
    let c : (leb 0xe0 (0xf0 + x) && ltb (0xf0 + x) 0xf0) ≡ false = ground arith in
    let d : (leb 0xf0 (0xf0 + x) && ltb (0xf0 + x) 0xf5) ≡ true = ground arith in rw (a, b, c, d, e)

module _ (c : ℕ) (bs : List ℕ) {s : Text} (scalar : is_scalar c ≡ true)
    (rest : decode_from zero 0 0 bs ≡ some s) where
  decode_two :
      0x80 ≤ c
      → c < 0x800
      → decode_from zero 0 0 ((0xc0 + c / 64) ∷ (0x80 + c % 64) ∷ bs) ≡ some (c ∷ s)
  decode_two l h =
      lead_two_step (c / 64) _ (omega arith) (omega arith)
      ∙ last_step (c / 64) 0x80 (c % 64) c bs (omega arith) (omega arith) l scalar rest

  decode_three :
      0x800 ≤ c
      → c < 0x10000
      → decode_from zero 0 0 ((0xe0 + c / 4096) ∷ (0x80 + c / 64 % 64) ∷ (0x80 + c % 64) ∷ bs)
        ≡ some (c ∷ s)
  decode_three l h =
      lead_three_step (c / 4096) _ (omega arith)
      ∙ more_step 0 (c / 4096) 0x800 (c / 64 % 64) _ (omega arith)
      ∙ last_step (c / 4096 * 64 + c / 64 % 64) 0x800 (c % 64) c bs (omega arith) (omega arith) l
          scalar rest

  decode_four :
      0x10000 ≤ c
      → c < 0x110000
      → decode_from zero 0 0 (
          (0xf0 + c / 262144)
          ∷ (0x80 + c / 4096 % 64)
          ∷ (0x80 + c / 64 % 64)
          ∷ (0x80 + c % 64)
          ∷ bs)
        ≡ some (c ∷ s)
  decode_four l h =
      lead_four_step (c / 262144) _ (omega arith)
      ∙ more_step 1 (c / 262144) 0x10000 (c / 4096 % 64) _ (omega arith)
      ∙ more_step 0 (c / 262144 * 64 + c / 4096 % 64) 0x10000 (c / 64 % 64) _ (omega arith)
      ∙ last_step ((c / 262144 * 64 + c / 4096 % 64) * 64 + c / 64 % 64) 0x10000 (c % 64) c bs
          (omega arith) (omega arith) l scalar rest

decode_one :
    (c : ℕ) (bs : List ℕ) {s : Text}
    → ltb c 0x80 ≡ true
    → decode_from zero 0 0 bs ≡ some s
    → decode_from zero 0 0 (c ∷ bs) ≡ some (c ∷ s)
unfolding decode_from
decode_one c bs h e = rw (h, e)

decode-encode_char :
    (c : ℕ) (bs : List ℕ) {s : Text}
    → is_scalar c ≡ true
    → decode_from zero 0 0 bs ≡ some s
    → decode_from zero 0 0 (encode_char c ++ bs) ≡ some (c ∷ s)
unfolding encode_char
decode-encode_char c bs h e = elim (Bool-cases (ltb c 0x80)) [
  | inl one ↦ rw one (decode_one c bs one e)
  | inr one ↦ elim (Bool-cases (ltb c 0x800)) [
    | inl two ↦ rw (one, two) (decode_two c bs h e (ground arith) (ground arith))
    | inr two ↦ elim (Bool-cases (ltb c 0x10000)) [
      | inl three ↦ rw (one, two, three) (decode_three c bs h e (ground arith) (ground arith))
      | inr three ↦ rw (one, two, three) (decode_four c bs h e (ground arith) (ground arith))
    ]
  ]
]

-- Decoding gives back every text that was encoded.
pub decode-encode : (s : Text) → IsScalarText s → decode (encode s) ≡ some s
unfolding decode encode
decode-encode [] h = refl
decode-encode (c ∷ s) h = decode-encode_char c (encode s) h.0 (decode-encode s h.1)
