-- ===== src/Common/Lines.antt =====
-- `text.splitlines()`, and texts made of lines.
use mathlib.Core.Path.{◌≡◌, refl, ap, ◌∙◌}
use mathlib.Core.Bool.{Bool, true, false, ◌&&◌, ◌||◌, not}
use mathlib.Core.List.{List, [], ◌∷◌, ◌++◌, append_assoc}
use Prim.Native.Nat.{ℕ}
use native.Mathlib.Omega.{arith}
use ring_lang.Common.Tests.{leb, ◌==◌, if◌then◌else◌}
use ring_lang.Common.Lists.{all, all-append, All}
use ring_lang.Common.Texts.{Text, cons_first, join, ends_with}

-- The characters at which `splitlines` ends a line.
unfoldable pub is_break : ℕ → Bool
is_break c = leb 10 c && leb c 13 || leb 28 c && leb c 30 || c == 0x85 || c == 0x2028 || c == 0x2029

-- `\r\n` ends one line.
unfoldable pub splitlines : Text → List Text
unfolding is_break
splitlines [] = []
splitlines (c ∷ []) = if is_break c then [] ∷ [] else (c ∷ []) ∷ []
splitlines (c ∷ d ∷ s) =
    let rest = splitlines (d ∷ s) in
    let after_two = splitlines s in
    if c == b'\r' && d == b'\n'
    then [] ∷ after_two
    else if is_break c
    then [] ∷ rest
    else cons_first c rest

-- Each line with a newline behind it.
abbrev pub unlines : List Text → Text
unlines [] = []
unlines (l ∷ ls) = l ++ (b'\n' ∷ unlines ls)

-- `"\n".join(lines) + "\n"`
pub join-unlines :
    (l : Text) (ls : List Text) → join (b'\n' ∷ []) (l ∷ ls) ++ (b'\n' ∷ []) ≡ unlines (l ∷ ls)
unfolding join
join-unlines l [] = refl
join-unlines l (m ∷ ls) =
    append_assoc l (b'\n' ∷ join (b'\n' ∷ []) (m ∷ ls)) (b'\n' ∷ [])
    ∙ ap (λ t. l ++ (b'\n' ∷ t)) (join-unlines m ls)

abbrev pub HasNoBreak : Text → Type 0
HasNoBreak s = all (λ c. not (is_break c)) s ≡ true

splitlines_newline : (s : Text) → splitlines (b'\n' ∷ s) ≡ [] ∷ splitlines s
unfolding splitlines
splitlines_newline [] = refl
splitlines_newline (d ∷ s) = refl

splitlines_char :
    (c d : ℕ) (s : Text)
    → is_break c ≡ false
    → splitlines (c ∷ d ∷ s) ≡ cons_first c (splitlines (d ∷ s))
unfolding splitlines
splitlines_char c d s h = ground arith

splitlines-append : (l s : Text) → HasNoBreak l → splitlines (l ++ (b'\n' ∷ s)) ≡ l ∷ splitlines s
unfolding all
splitlines-append [] s h = splitlines_newline s
splitlines-append (c ∷ []) s h =
    splitlines_char c b'\n' s (ground arith) ∙ ap (cons_first c) (splitlines_newline s)
splitlines-append (c ∷ d ∷ l) s h =
    splitlines_char c d (l ++ (b'\n' ∷ s)) (ground arith)
    ∙ ap (cons_first c) (splitlines-append (d ∷ l) s (ground arith))

-- Lines without line breaks are found again.
pub splitlines-unlines : (ls : List Text) → All HasNoBreak ls → splitlines (unlines ls) ≡ ls
splitlines-unlines [] h = unfold splitlines in refl
splitlines-unlines (l ∷ ls) h =
    splitlines-append l (unlines ls) h.0 ∙ ap (◌∷◌ l) (splitlines-unlines ls h.1)

pub all-join :
    (p : ℕ → Bool) (sep : Text) (fs : List Text)
    → all p sep ≡ true
    → All (λ f. all p f ≡ true) fs
    → all p (join sep fs) ≡ true
unfolding join
all-join p sep [] hs hf = unfold all in refl
all-join p sep (f ∷ []) hs hf = hf.0
all-join p sep (f ∷ g ∷ fs) hs hf =
    rw (all-append p f (sep ++ join sep (g ∷ fs)), all-append p sep (join sep (g ∷ fs)), hf.0, hs)
      (all-join p sep (g ∷ fs) hs hf.1)

pub ends_with-append : (c : ℕ) (s : Text) → ends_with c (s ++ c ∷ []) ≡ true
unfolding ends_with
ends_with-append c [] = ground arith
ends_with-append c (d ∷ []) = ground arith
ends_with-append c (d ∷ e ∷ s) = ends_with-append c (e ∷ s)
