-- ===== src/Common/Matches.antt =====
-- What a full match says of the text: all its code points are in the classes of the pattern.
use ring_lang.Common.{
  ℕ, zero, suc, ◌≡◌, refl, ap, sym, ◌∙◌, inl, inr, Bool, true, false, List, [], ◌∷◌, ◌++◌, arith,
  if◌then◌else◌, any, all, In, In-append, Text, append-nil, append_assoc, all-append, Bool-cases,
}
use ring_lang.Common.Regex.{
  Regex, always, class, both, either, at_most, many, start, finish, Place, flat_map, ends,
  fullmatch, Within, at_end, after_class, after_at_most, after_many,
}

-- What was matched on the way to the place `at` lies in the class.
abbrev Passed : (ℕ → Bool) → Text → Place → Type 0
Passed p s at = (pre : Text) × (s ≡ pre ++ at.1) × (all p pre ≡ true)

Passed-cons :
    (p : ℕ → Bool) (c : ℕ) (s : Text) (at : Place)
    → p c ≡ true
    → Passed p s at
    → Passed p (c ∷ s) at
unfolding all
Passed-cons p c s at good (pre, e, h) = (c ∷ pre, ap (◌∷◌ c) e, rw (good, h))

In-flat_map :
    (f : Place → List Place) (at : Place) (xs : List Place)
    → In at (flat_map f xs)
    → (mid : Place) × In mid xs × In at (f mid)
In-flat_map f at [] h = absurd h
In-flat_map f at (x ∷ xs) h = elim (In-append at (f x) (flat_map f xs) h) [
  | inl here ↦ (x, inl refl, here)
  | inr later ↦ let (mid, there, m) = In-flat_map f at xs later in (mid, inr there, m)
]

-- `(b, t)` is the place `(c, s)`: nothing was passed.
Passed-here : (p : ℕ → Bool) (s : Text) (b : Bool) (at : Place) → at ≡ (b, s) → Passed p s at
unfolding all
Passed-here p s b at e = ([], ap (λ x. x.1) (sym e), refl)

Passed-both :
    (p : ℕ → Bool) (s : Text) (mid at : Place) → Passed p s mid → Passed p mid.1 at → Passed p s at
Passed-both p s mid at (a, e, h) (b, f, g) =
    (a ++ b, e ∙ (ap (λ x. a ++ x) f ∙ sym (append_assoc a b at.1)), all-append p a b ∙ rw (h, g))

In-if :
    (b : Bool) (at : Place) (xs : List Place) → In at (if b then xs else []) → (b ≡ true) × In at xs
In-if true at xs h = (refl, h)
In-if false at xs h = absurd h

In-single : (x y : Place) → In x (y ∷ []) → x ≡ y
In-single x y (inl e) = e
In-single x y (inr h) = absurd h

module _ (p q : ℕ → Bool) (sub : (c : ℕ) → q c ≡ true → p c ≡ true) where
  Passed-class : (s : Text) (at : Place) → In at (after_class q s) → Passed p s at
  unfolding after_class
  Passed-class [] at h = absurd h
  Passed-class (c ∷ s) at h =
      let (good, m) = In-if (q c) at ((false, s) ∷ []) h in
      Passed-cons p c s at (sub c good) (Passed-here p s false at (In-single at (false, s) m))

  Passed-at_most :
      (n : ℕ) (b : Bool) (s : Text) (at : Place) → In at (after_at_most n q b s) → Passed p s at
  unfolding after_at_most
  Passed-at_most zero b s at (inl e) = Passed-here p s b at e
  Passed-at_most zero b s at (inr h) = absurd h
  Passed-at_most (suc n) b [] at (inl e) = Passed-here p [] b at e
  Passed-at_most (suc n) b [] at (inr h) = absurd h
  Passed-at_most (suc n) b (c ∷ s) at (inl e) = Passed-here p (c ∷ s) b at e
  Passed-at_most (suc n) b (c ∷ s) at (inr h) =
      let (good, m) = In-if (q c) at (after_at_most n q false s) h in
      Passed-cons p c s at (sub c good) (Passed-at_most n false s at m)

  Passed-many : (b : Bool) (s : Text) (at : Place) → In at (after_many q b s) → Passed p s at
  unfolding after_many
  Passed-many b [] at (inl e) = Passed-here p [] b at e
  Passed-many b [] at (inr h) = absurd h
  Passed-many b (c ∷ s) at (inl e) = Passed-here p (c ∷ s) b at e
  Passed-many b (c ∷ s) at (inr h) =
      let (good, m) = In-if (q c) at (after_many q false s) h in
      Passed-cons p c s at (sub c good) (Passed-many false s at m)

Passed-at_same :
    (p : ℕ → Bool) (test : Bool) (s : Text) (b : Bool) (at : Place)
    → In at (if test then (b, s) ∷ [] else [])
    → Passed p s at
Passed-at_same p test s b at h =
    let (e, m) = In-if test at ((b, s) ∷ []) h in Passed-here p s b at (In-single at (b, s) m)

pub Passed-ends :
    (p : ℕ → Bool) (r : Regex)
    → Within p r
    → (b : Bool) (s : Text) (at : Place) → In at (ends r b s)
    → Passed p s at
unfolding ends
Passed-ends p always w b s at (inl e) = Passed-here p s b at e
Passed-ends p always w b s at (inr h) = absurd h
Passed-ends p (class q) w b s at h = Passed-class p q w s at h
Passed-ends p (both q r) w b s at h =
    let (mid, m, l) = In-flat_map (λ x. ends r x.0 x.1) at (ends q b s) h in
    Passed-both p s mid at (Passed-ends p q w.0 b s mid m) (Passed-ends p r w.1 mid.0 mid.1 at l)
Passed-ends p (either q r) w b s at h = elim (In-append at (ends q b s) (ends r b s) h) [
  | inl l ↦ Passed-ends p q w.0 b s at l
  | inr l ↦ Passed-ends p r w.1 b s at l
]
Passed-ends p (at_most n q) w b s at h = Passed-at_most p q w n b s at h
Passed-ends p (many q) w b s at h = Passed-many p q w b s at h
Passed-ends p start w b s at h = Passed-at_same p b s b at h
Passed-ends p finish w b s at h = Passed-at_same p _ s b at h

any-In :
    (f : Place → Bool) (xs : List Place) → any f xs ≡ true → (x : Place) × In x xs × (f x ≡ true)
unfolding any
any-In f [] h = cc
any-In f (x ∷ xs) h = elim (Bool-cases (f x)) [
  | inl good ↦ (x, inl refl, good)
  | inr bad ↦ let (y, m, g) = any-In f xs (ground arith) in (y, inr m, g)
]

all-ended :
    (p : ℕ → Bool) (s : Text) (at : Place) → at_end at ≡ true → Passed p s at → all p s ≡ true
unfolding at_end
all-ended p s (b, []) e (pre, f, h) = rw (f, append-nil pre) h
all-ended p s (b, c ∷ t) e h = cc

-- A text that a pattern matches is made of the code points of its classes.
pub all-fullmatch :
    (p : ℕ → Bool) (r : Regex) → Within p r → (s : Text) → fullmatch r s ≡ true → all p s ≡ true
unfolding fullmatch
all-fullmatch p r w s h =
    let (at, m, e) = any-In at_end (ends r true s) h in
    all-ended p s at e (Passed-ends p r w true s at m)
