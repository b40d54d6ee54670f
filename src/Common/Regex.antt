-- ===== src/Common/Regex.antt =====
-- The part of Python's `re` that the scripts use: which prefixes a pattern can match, with no groups.
use ring_lang.Common.{
  ℕ, zero, suc, ◌≡◌, Bool, true, false, ◌&&◌, ◌||◌, List, [], ◌∷◌, ◌++◌, leb, ◌==◌, if◌then◌else◌,
  any, Text, is_empty,
}

pub data Regex : Type 0 where
  -- the empty pattern
  always : Regex
  -- one code point of a class
  class : (ℕ → Bool) → Regex
  -- one pattern after the other
  both : Regex → Regex → Regex
  -- `r|s`
  either : Regex → Regex → Regex
  -- `[...]{0,n}`
  at_most : ℕ → (ℕ → Bool) → Regex
  -- `[...]*`
  many : (ℕ → Bool) → Regex
  -- `^` and `$`
  start finish : Regex

-- A place in the text: whether it is its start, and what stands after it.
abbrev pub Place : Type 0
Place = Bool × Text

-- `[...]{n}`
abbrev pub exactly : ℕ → (ℕ → Bool) → Regex
exactly zero p = always
exactly (suc n) p = both (class p) (exactly n p)

-- Patterns one after the other, and as alternatives.
abbrev pub seq : List Regex → Regex
seq [] = always
seq (r ∷ rs) = both r (seq rs)

abbrev pub alt : Regex → List Regex → Regex
alt r [] = r
alt r (q ∷ rs) = either r (alt q rs)

-- `r?`
abbrev pub optional : Regex → Regex
optional r = either r always

-- A literal.
abbrev pub literal : Text → Regex
literal [] = always
literal (c ∷ s) = both (class (◌==◌ c)) (literal s)

-- `[a-b]`
abbrev pub between : ℕ → ℕ → ℕ → Bool
between a b c = leb a c && leb c b

abbrev pub flat_map : (Place → List Place) → List Place → List Place
flat_map f [] = []
flat_map f (x ∷ xs) = f x ++ flat_map f xs

-- The places after a match that begins at the given place.
unfoldable pub after_class : (ℕ → Bool) → Text → List Place
after_class p [] = []
after_class p (c ∷ s) = if p c then (false, s) ∷ [] else []

unfoldable pub after_at_most : ℕ → (ℕ → Bool) → Bool → Text → List Place
after_at_most zero p b s = (b, s) ∷ []
after_at_most (suc n) p b [] = (b, []) ∷ []
after_at_most (suc n) p b (c ∷ s) =
    let more = after_at_most n p false s in (b, c ∷ s) ∷ (if p c then more else [])

unfoldable pub after_many : (ℕ → Bool) → Bool → Text → List Place
after_many p b [] = (b, []) ∷ []
after_many p b (c ∷ s) = let more = after_many p false s in (b, c ∷ s) ∷ (if p c then more else [])

-- `$` also matches before a final line feed.
unfoldable pub at_finish : Text → Bool
at_finish [] = true
at_finish (c ∷ []) = c == 10
at_finish (c ∷ d ∷ s) = false

unfoldable pub ends : Regex → Bool → Text → List Place
unfolding after_class after_at_most after_many at_finish
ends always b s = (b, s) ∷ []
ends (class p) b s = after_class p s
ends (both q r) b s = flat_map (λ at. ends r at.0 at.1) (ends q b s)
ends (either q r) b s = ends q b s ++ ends r b s
ends (at_most n p) b s = after_at_most n p b s
ends (many p) b s = after_many p b s
ends start b s = if b then (b, s) ∷ [] else []
ends finish b s = if at_finish s then (b, s) ∷ [] else []

unfoldable pub at_end : Place → Bool
at_end (b, s) = is_empty s

-- `re.fullmatch(r, s) is not None`
unfoldable pub fullmatch : Regex → Text → Bool
unfolding at_end ends any
fullmatch r s = any at_end (ends r true s)

abbrev pub found : List Place → Bool
found [] = false
found (at ∷ more) = true

unfoldable pub search_from : Regex → Bool → Text → Bool
search_from r b [] = found (ends r b [])
search_from r b (c ∷ s) = found (ends r b (c ∷ s)) || search_from r false s

-- `re.search(r, s) is not None`
unfoldable pub search_in : Regex → Text → Bool
unfolding search_from ends
search_in r s = search_from r true s

-- Every class of the pattern lies in one class.
abbrev pub Within : (ℕ → Bool) → Regex → Type 0
Within p (class q) = (c : ℕ) → q c ≡ true → p c ≡ true
Within p (both q r) = Within p q × Within p r
Within p (either q r) = Within p q × Within p r
Within p (at_most n q) = (c : ℕ) → q c ≡ true → p c ≡ true
Within p (many q) = (c : ℕ) → q c ≡ true → p c ≡ true
Within p _ = Unit
