-- ===== src/Common/Order.antt =====
-- The order of Python texts, and `sort(key=...)` by it.
use ring_lang.Common.{
  ◌≡◌, refl, inl, inr, Bool, true, false, ◌&&◌, ◌||◌, List, [], ◌∷◌, ◌≢◌, arith, ltb, ◌==◌,
  if◌then◌else◌, All, Text, Bool-cases,
}

-- `a < b`
unfoldable pub lt_text : Text → Text → Bool
lt_text s [] = false
lt_text [] (y ∷ t) = true
lt_text (x ∷ s) (y ∷ t) = ltb x y || x == y && lt_text s t

pub lt_text_irrefl : (a : Text) → lt_text a a ≡ false
unfolding lt_text
lt_text_irrefl [] = refl
lt_text_irrefl (x ∷ s) = ground (arith, lt_text_irrefl s)

pub lt_text_trans : (a b c : Text) → lt_text a b ≡ true → lt_text b c ≡ true → lt_text a c ≡ true
unfolding lt_text
lt_text_trans a b [] h k = cc
lt_text_trans [] b (z ∷ c) h k = refl
lt_text_trans (x ∷ a) [] (z ∷ c) h k = cc
lt_text_trans (x ∷ a) (y ∷ b) (z ∷ c) h k = ground (arith, lt_text_trans a b c)

-- Of two texts neither of which stands before the other, both are the same.
pub lt_text_total : (a b : Text) → lt_text a b ≡ false → lt_text b a ≡ false → a ≡ b
unfolding lt_text
lt_text_total [] [] h k = refl
lt_text_total [] (y ∷ b) h k = cc
lt_text_total (x ∷ a) [] h k = cc
lt_text_total (x ∷ a) (y ∷ b) h k = ground (arith, lt_text_total a b)

pub lt_text_asym : (a b : Text) → lt_text a b ≡ true → lt_text b a ≡ false
lt_text_asym a b h = elim (Bool-cases (lt_text b a)) [
  | inl k ↦ cc (lt_text_trans a b a h k, lt_text_irrefl a)
  | inr k ↦ k
]

lt_text_of_ne : (a b : Text) → a ≢ b → lt_text b a ≡ false → lt_text a b ≡ true
lt_text_of_ne a b n k = elim (Bool-cases (lt_text a b)) [
  | inl h ↦ h
  | inr h ↦ absurd (n (lt_text_total a b h k))
]

module _ {ℓ} {A : Type ℓ} (key : A → Text) where
  -- In front of the elements that do not stand before it.
  unfoldable pub put_sorted : A → List A → List A
  put_sorted a [] = a ∷ []
  put_sorted a (x ∷ xs) =
      let rest = put_sorted a xs in if lt_text (key x) (key a) then x ∷ rest else a ∷ x ∷ xs

  unfoldable pub sort_by : List A → List A
  unfolding put_sorted
  sort_by [] = []
  sort_by (x ∷ xs) = put_sorted x (sort_by xs)

  -- The keys grow strictly.
  abbrev pub Increasing : List A → Type 0
  Increasing [] = Unit
  Increasing (x ∷ []) = Unit
  Increasing (x ∷ y ∷ xs) = (lt_text (key x) (key y) ≡ true) × Increasing (y ∷ xs)

  -- No key stands twice.
  abbrev pub Fresh : A → List A → Type 0
  Fresh a [] = Unit
  Fresh a (x ∷ xs) = (key a ≢ key x) × Fresh a xs

  abbrev pub Distinct : List A → Type 0
  Distinct [] = Unit
  Distinct (x ∷ xs) = Fresh x xs × Distinct xs

  put_sorted-first : (a : A) (xs : List A) → Increasing (a ∷ xs) → put_sorted a xs ≡ a ∷ xs
  unfolding put_sorted
  put_sorted-first a [] h = refl
  put_sorted-first a (x ∷ xs) h = rw (lt_text_asym (key a) (key x) h.0)

  pub sort_by-Increasing : (xs : List A) → Increasing xs → sort_by xs ≡ xs
  unfolding sort_by
  sort_by-Increasing [] h = refl
  sort_by-Increasing (x ∷ []) h = refl
  sort_by-Increasing (x ∷ y ∷ xs) h =
      rw (sort_by-Increasing (y ∷ xs) h.1) (put_sorted-first x (y ∷ xs) h)

  Fresh-put_sorted :
      (b a : A) (xs : List A) → key b ≢ key a → Fresh b xs → Fresh b (put_sorted a xs)
  unfolding put_sorted
  Fresh-put_sorted b a [] n h = (n, tt)
  Fresh-put_sorted b a (x ∷ xs) n h = elim (Bool-cases (lt_text (key x) (key a))) [
    | inl e ↦ rw e (h.0, Fresh-put_sorted b a xs n h.1)
    | inr e ↦ rw e (n, h)
  ]

  pub Fresh-sort_by : (b : A) (xs : List A) → Fresh b xs → Fresh b (sort_by xs)
  unfolding sort_by
  Fresh-sort_by b [] h = tt
  Fresh-sort_by b (x ∷ xs) h = Fresh-put_sorted b x (sort_by xs) h.0 (Fresh-sort_by b xs h.1)

  -- The first element, if there is one, stands behind.
  abbrev Behind : A → List A → Type 0
  Behind b [] = Unit
  Behind b (x ∷ xs) = lt_text (key b) (key x) ≡ true

  Increasing-cons : (x : A) (xs : List A) → Behind x xs → Increasing xs → Increasing (x ∷ xs)
  Increasing-cons x [] b h = tt
  Increasing-cons x (y ∷ xs) b h = (b, h)

  Increasing-tail : (x : A) (xs : List A) → Increasing (x ∷ xs) → Behind x xs × Increasing xs
  Increasing-tail x [] h = (tt, tt)
  Increasing-tail x (y ∷ xs) h = h

  Behind-put_sorted :
      (b a : A) (xs : List A)
      → lt_text (key b) (key a) ≡ true
      → Behind b xs
      → Behind b (put_sorted a xs)
  unfolding put_sorted
  Behind-put_sorted b a [] e h = e
  Behind-put_sorted b a (x ∷ xs) e h = elim (Bool-cases (lt_text (key x) (key a))) [
    | inl k ↦ rw k h
    | inr k ↦ rw k e
  ]

  put_sorted-Increasing :
      (a : A) (xs : List A) → Fresh a xs → Increasing xs → Increasing (put_sorted a xs)
  unfolding put_sorted
  put_sorted-Increasing a [] f h = tt
  put_sorted-Increasing a (x ∷ xs) f h =
      let (b, t) = Increasing-tail x xs h in
      elim (Bool-cases (lt_text (key x) (key a))) [
        | inl e ↦ rw e (
            Increasing-cons x (put_sorted a xs) (Behind-put_sorted x a xs e b)
              (put_sorted-Increasing a xs f.1 t))
        | inr e ↦ rw e (lt_text_of_ne (key a) (key x) f.0 e, h)
      ]

  -- Sorting distinct keys makes them grow strictly.
  pub sort_by-Distinct : (xs : List A) → Distinct xs → Increasing (sort_by xs)
  unfolding sort_by
  sort_by-Distinct [] h = tt
  sort_by-Distinct (x ∷ xs) h =
      put_sorted-Increasing x (sort_by xs) (Fresh-sort_by x xs h.0) (sort_by-Distinct xs h.1)

  Behind-of : (a x : A) (xs : List A) → lt_text (key a) (key x) ≡ true → Behind x xs → Behind a xs
  Behind-of a x [] b c = tt
  Behind-of a x (y ∷ xs) b c = lt_text_trans (key a) (key x) (key y) b c

  Increasing-Fresh : (a : A) (xs : List A) → Behind a xs → Increasing xs → Fresh a xs
  Increasing-Fresh a [] b h = tt
  Increasing-Fresh a (x ∷ xs) b h =
      let (c, t) = Increasing-tail x xs h in
      ((λ e. cc (b, e, lt_text_irrefl (key x))), Increasing-Fresh a xs (Behind-of a x xs b c) t)

  pub Increasing-Distinct : (xs : List A) → Increasing xs → Distinct xs
  Increasing-Distinct [] h = tt
  Increasing-Distinct (x ∷ xs) h =
      let (b, t) = Increasing-tail x xs h in (Increasing-Fresh x xs b t, Increasing-Distinct xs t)

  -- What holds of every element holds after sorting.
  put_sorted-All :
      (good : A → Type 0) (a : A) (xs : List A) → good a → All good xs → All good (put_sorted a xs)
  unfolding put_sorted
  put_sorted-All good a [] g h = (g, tt)
  put_sorted-All good a (x ∷ xs) g h = elim (Bool-cases (lt_text (key x) (key a))) [
    | inl e ↦ rw e (h.0, put_sorted-All good a xs g h.1)
    | inr e ↦ rw e (g, h)
  ]

  pub sort_by-All : (good : A → Type 0) (xs : List A) → All good xs → All good (sort_by xs)
  unfolding sort_by
  sort_by-All good [] h = tt
  sort_by-All good (x ∷ xs) h = put_sorted-All good x (sort_by xs) h.0 (sort_by-All good xs h.1)
