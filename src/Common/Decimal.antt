-- ===== src/Common/Decimal.antt =====
-- `str(n)` and `int(text)` on Python's integers. Of the digits that `int` reads, those of ASCII.
use Prim.Native.Nat.{ℕ, zero, suc, ◌+◌, ◌-◌, ◌*◌, ◌/◌, ◌%◌, ◌<◌}
use mathlib.Core.Path.{◌≡◌, refl, ◌∙◌}
use mathlib.Core.Logic.{inl, inr}
use mathlib.Core.Bool.{Bool, true, false, ◌&&◌}
use mathlib.Core.Option.{Option, none, some}
use mathlib.Core.List.{[], ◌∷◌, ◌++◌, append_assoc, append-nil}
use native.Mathlib.Omega.{arith}
use native.Mathlib.Numerals.{add-one}
use ring_lang.Common.Tests.{ltb, leb, ◌==◌, if◌then◌else◌, Bool-cases}
use ring_lang.Common.Texts.{Text, strip, NoSpace, strip-NoSpace, is_space, has}
use ring_lang.Common.Int.{ℤ, pos, negsuc}

-- The decimal digits of `n`, on fuel.
decimal_from : ℕ → ℕ → Text
decimal_from zero n = []
decimal_from (suc f) n =
    let front = decimal_from f (n / 10) in
    if ltb n 10 then (48 + n) ∷ [] else front ++ (48 + n % 10) ∷ []

unfoldable pub decimal : ℕ → Text
unfolding decimal_from
decimal n = decimal_from (n + 1) n

-- `str(n)`
unfoldable pub str_int : ℤ → Text
unfolding decimal
str_int (pos n) = decimal n
str_int (negsuc n) = b'-' ∷ decimal (n + 1)

-- The digits of `int`, with single underscores between them; the flag says that a digit was read last.
unfoldable pub read_digits : ℕ → Bool → Text → Option ℕ
read_digits n after_digit [] = if after_digit then some n else none
read_digits n after_digit (c ∷ s) =
    let next = read_digits (n * 10 + (c - 48)) true s in
    let skip = read_digits n false s in
    if leb 48 c && leb c 57 then next else if c == b'_' && after_digit then skip else none

abbrev negated : ℕ → ℤ
negated zero = pos 0
negated (suc n) = negsuc n

read_signed : Text → Option ℤ
read_signed [] = none
read_signed (c ∷ s) =
    if c == b'-'
    then elim (read_digits 0 false s) [ none ↦ none | some n ↦ some (negated n) ]
    else if c == b'+'
    then elim (read_digits 0 false s) [ none ↦ none | some n ↦ some (pos n) ]
    else elim (read_digits 0 false (c ∷ s)) [ none ↦ none | some n ↦ some (pos n) ]

-- `int(text)`; `none` is `ValueError`
unfoldable pub int_text : Text → Option ℤ
unfolding read_signed read_digits strip
int_text s = read_signed (strip s)

-- What a decimal numeral is made of.
abbrev pub Digits : Text → Type 0
Digits [] = Unit
Digits (c ∷ s) = (leb 48 c ≡ true) × (leb c 57 ≡ true) × Digits s

Digits-append : (a b : Text) → Digits a → Digits b → Digits (a ++ b)
Digits-append [] b h k = k
Digits-append (c ∷ a) b h k = (h.0, h.1, Digits-append a b h.2 k)

Digits-decimal_from : (f n : ℕ) → Digits (decimal_from f n)
unfolding decimal_from
Digits-decimal_from zero n = tt
Digits-decimal_from (suc f) n = elim (Bool-cases (ltb n 10)) [
  | inl small ↦ rw small (ground arith, ground arith, tt)
  | inr large ↦ rw large (
      Digits-append (decimal_from f (n / 10)) ((48 + n % 10) ∷ []) (Digits-decimal_from f (n / 10))
        (ground arith, ground arith, tt))
]

pub Digits-decimal : (n : ℕ) → Digits (decimal n)
unfolding decimal
Digits-decimal n = Digits-decimal_from (n + 1) n

pub Digits-NoSpace : (s : Text) → Digits s → NoSpace s
unfolding is_space
Digits-NoSpace [] h = tt
Digits-NoSpace (c ∷ s) h = (ground arith, Digits-NoSpace s h.2)

-- A character that is no digit does not occur in a numeral.
pub Digits-free : (c : ℕ) (s : Text) → (leb 48 c && leb c 57) ≡ false → Digits s → has c s ≡ false
unfolding has
Digits-free c [] e h = refl
Digits-free c (d ∷ s) e h = ground (arith, Digits-free c s e h.2)

read_digits-decimal_from :
    (f n : ℕ) (after : Bool) (rest : Text)
    → n < f
    → read_digits 0 after (decimal_from f n ++ rest) ≡ read_digits n true rest
unfolding read_digits decimal_from
read_digits-decimal_from zero n after rest h = elim h [ ]
read_digits-decimal_from (suc f) n after rest h = elim (Bool-cases (ltb n 10)) [
  | inl small ↦ rw small (ground arith)
  | inr large ↦
      rw (large, append_assoc)
        (read_digits-decimal_from f (n / 10) after ((48 + n % 10) ∷ rest) (ground arith)
          ∙ ground arith)
]

read_digits-decimal : (n : ℕ) → read_digits 0 false (decimal n) ≡ some n
unfolding decimal read_digits
read_digits-decimal n =
    rw (← append-nil (decimal_from (n + 1) n))
      (read_digits-decimal_from (n + 1) n false [] (omega arith))

read_signed-Digits :
    (s : Text) (n : ℕ) → Digits s → read_digits 0 false s ≡ some n → read_signed s ≡ some (pos n)
unfolding read_signed
read_signed-Digits [] n h e = unfold read_digits in cc
read_signed-Digits (c ∷ s) n h e = ground arith

-- `int(str(n)) == n`
pub int_text-str_int : (z : ℤ) → int_text (str_int z) ≡ some z
unfolding int_text str_int
int_text-str_int (pos n) =
    rw (strip-NoSpace (decimal n) (Digits-NoSpace (decimal n) (Digits-decimal n)))
      (read_signed-Digits (decimal n) n (Digits-decimal n) (read_digits-decimal n))
int_text-str_int (negsuc n) =
    rw
      (
        strip-NoSpace (b'-' ∷ decimal (n + 1))
            (unfold is_space in (refl, Digits-NoSpace (decimal (n + 1)) (Digits-decimal (n + 1)))),
        read_digits-decimal (n + 1),
        add-one,
      )
      refl
