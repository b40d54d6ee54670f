-- ===== src/Common/Texts.antt =====
-- Python texts and bytes as lists of code points (bytes), and the string methods the code uses.
use Prim.Native.Char.{code}
use Prim.Native.String.{String}
use Prim.Native.Nat.{ℕ}
use mathlib.Core.Path.{◌≡◌, refl, ap, ◌∙◌}
use mathlib.Core.Logic.{◌↔◌, inl, inr, ◌≢◌}
use mathlib.Core.Bool.{Bool, true, false, ◌&&◌, ◌||◌}
use mathlib.Core.List.{List, [], ◌∷◌, ◌++◌}
use native.Mathlib.Omega.{arith}
use ring_lang.Common.Tests.{leb, ◌==◌, if◌then◌else◌, Bool-cases}
use ring_lang.Common.Lists.{any, All}

abbrev pub Text : Type 0
Text = List ℕ

-- The code points of a literal.
abbrev pub codes : String → Text
codes String.[] = []
codes (String.◌∷◌ c s) = code c ∷ codes s

-- `a == b` on texts
unfoldable pub text_eq : Text → Text → Bool
text_eq [] [] = true
text_eq (x ∷ xs) (y ∷ ys) = x == y && text_eq xs ys
text_eq _ _ = false

pub text_eq_iff : (a b : Text) → (text_eq a b ≡ true) ↔ (a ≡ b)
unfolding text_eq
text_eq_iff (x ∷ a) (y ∷ b) = ground (arith, text_eq_iff a b)
text_eq_iff _ _ = ground arith

pub text_eq_refl : (a : Text) → text_eq a a ≡ true
text_eq_refl a = (text_eq_iff a a).1 refl

pub text_eq_ne : (a b : Text) → a ≢ b → text_eq a b ≡ false
text_eq_ne a b h = elim (Bool-cases (text_eq a b)) [
  | inl e ↦ absurd (h ((text_eq_iff a b).0 e))
  | inr e ↦ e
]

-- `not text`
abbrev pub is_empty : Text → Bool
is_empty [] = true
is_empty (c ∷ s) = false

-- `a in {b, …}`
unfoldable pub mem_text : Text → List Text → Bool
mem_text a ts = any (text_eq a) ts

-- `text.startswith(prefix)`
unfoldable pub starts_with : Text → Text → Bool
starts_with [] s = true
starts_with (p ∷ ps) [] = false
starts_with (p ∷ ps) (c ∷ s) = p == c && starts_with ps s

-- `text.endswith("\n")`, for one code point
unfoldable pub ends_with : ℕ → Text → Bool
ends_with c [] = false
ends_with c (d ∷ []) = c == d
ends_with c (d ∷ e ∷ s) = ends_with c (e ∷ s)

-- Puts a code point in front of the first field.
abbrev pub cons_first : ℕ → List Text → List Text
cons_first c [] = (c ∷ []) ∷ []
cons_first c (f ∷ fs) = (c ∷ f) ∷ fs

-- `text.split(sep)`: never empty
unfoldable pub split : ℕ → Text → List Text
split sep [] = [] ∷ []
split sep (c ∷ s) =
    let fields = split sep s in if c == sep then [] ∷ fields else cons_first c fields

-- `sep.join(fields)`
unfoldable pub join : Text → List Text → Text
join sep [] = []
join sep (f ∷ []) = f
join sep (f ∷ g ∷ fs) = f ++ (sep ++ join sep (g ∷ fs))

-- `c in text`
unfoldable pub has : ℕ → Text → Bool
has c [] = false
has c (d ∷ s) = c == d || has c s

pub has-append : (c : ℕ) (a b : Text) → has c (a ++ b) ≡ (has c a || has c b)
unfolding has
has-append c [] b = refl
has-append c (d ∷ a) b = ground (arith, has-append c a b)

pub split-append :
    (sep : ℕ) (f s : Text) → has sep f ≡ false → split sep (f ++ (sep ∷ s)) ≡ f ∷ split sep s
unfolding split has
split-append sep [] s h = ground arith
split-append sep (c ∷ f) s h = ground (arith, split-append sep f s)

pub split_single : (sep : ℕ) (f : Text) → has sep f ≡ false → split sep f ≡ f ∷ []
unfolding split has
split_single sep [] h = refl
split_single sep (c ∷ f) h = ground (arith, split_single sep f)

abbrev pub Free : ℕ → List Text → Type 0
Free sep [] = Unit
Free sep (f ∷ fs) = (has sep f ≡ false) × Free sep fs

-- Splitting what was joined gives the fields back, if no field holds the separator.
pub split-join :
    (sep : ℕ) (f : Text) (fs : List Text)
    → Free sep (f ∷ fs)
    → split sep (join (sep ∷ []) (f ∷ fs)) ≡ f ∷ fs
unfolding join
split-join sep f [] h = split_single sep f h.0
split-join sep f (g ∷ fs) h =
    split-append sep f (join (sep ∷ []) (g ∷ fs)) h.0 ∙ ap (◌∷◌ f) (split-join sep g fs h.1)

-- `str.isspace`, the characters that `strip()` removes
unfoldable pub is_space : ℕ → Bool
is_space c =
    leb 9 c && leb c 13
    || leb 28 c && leb c 32
    || c == 0x85
    || c == 0xa0
    || c == 0x1680
    || leb 0x2000 c && leb c 0x200a
    || c == 0x2028
    || c == 0x2029
    || c == 0x202f
    || c == 0x205f
    || c == 0x3000

unfoldable pub lstrip : Text → Text
lstrip [] = []
lstrip (c ∷ s) = let rest = lstrip s in if is_space c then rest else c ∷ s

abbrev pub cons_unless_blank : ℕ → Text → Text
cons_unless_blank c [] = if is_space c then [] else c ∷ []
cons_unless_blank c (d ∷ s) = c ∷ d ∷ s

unfoldable pub rstrip : Text → Text
rstrip [] = []
rstrip (c ∷ s) = cons_unless_blank c (rstrip s)

-- `text.strip()`
unfoldable pub strip : Text → Text
unfolding lstrip rstrip is_space
strip s = rstrip (lstrip s)

abbrev pub NoSpace : Text → Type 0
NoSpace [] = Unit
NoSpace (c ∷ s) = (is_space c ≡ false) × NoSpace s

lstrip-NoSpace : (s : Text) → NoSpace s → lstrip s ≡ s
unfolding lstrip
lstrip-NoSpace [] h = refl
lstrip-NoSpace (c ∷ s) h = ground arith

rstrip-NoSpace : (s : Text) → NoSpace s → rstrip s ≡ s
unfolding rstrip
rstrip-NoSpace [] h = refl
rstrip-NoSpace (c ∷ []) h = ground arith
rstrip-NoSpace (c ∷ d ∷ s) h = rw (rstrip-NoSpace (d ∷ s) h.1)

-- A text with no white space is stripped already.
pub strip-NoSpace : (s : Text) → NoSpace s → strip s ≡ s
unfolding strip
strip-NoSpace s h = rw (lstrip-NoSpace s h) (rstrip-NoSpace s h)

-- A property of all texts of a closed set holds of its members.
pub closed_set :
    (P : Text → Type 0) (set : List Text) → All P set → (l : Text) → mem_text l set ≡ true → P l
unfolding mem_text any
closed_set P [] h l m = cc
closed_set P (x ∷ set) h l m = elim (Bool-cases (text_eq l x)) [
  | inl e ↦ rw ((text_eq_iff l x).0 e) h.0
  | inr n ↦ closed_set P set h.1 l (ground arith)
]
