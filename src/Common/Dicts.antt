-- ===== src/Common/Dicts.antt =====
-- Python dictionaries and sets, as lists in insertion order, over any key type with a test of equality.
use mathlib.Core.Path.{◌≡◌, refl}
use mathlib.Core.Logic.{◌↔◌, inl, inr}
use mathlib.Core.Bool.{Bool, true, false, ◌&&◌, ◌||◌}
use mathlib.Core.Option.{Option, none, some}
use mathlib.Core.List.{List, [], ◌∷◌, ◌++◌}
use native.Mathlib.Omega.{arith}
use ring_lang.Common.Tests.{if◌then◌else◌, Bool-cases}
use ring_lang.Common.Texts.{Text, text_eq, text_eq_iff}
use ring_lang.Common.Int.{ℤ, int_eq, int_eq_iff}

-- A type of dictionary keys: the test of equality that Python applies, and that it decides the path.
pub record Key {ℓ} (K : Type ℓ) : Type ℓ where
  pub same : (x y : K) → Bool
  pub same_iff : (x y : K) → (same x y ≡ true) ↔ (x ≡ y)

instance abbrev pub int_key : Key ℤ
int_key = record { same = int_eq; same_iff = int_eq_iff }

instance abbrev pub text_key : Key Text
text_key = record { same = text_eq; same_iff = text_eq_iff }

abbrev pub Slot : Type 0
Slot = Text × Text

abbrev slot_eq : Slot → Slot → Bool
slot_eq (a, b) (c, d) = text_eq a c && text_eq b d

pub slot_eq_iff : (a b : Slot) → (slot_eq a b ≡ true) ↔ (a ≡ b)
slot_eq_iff (a, b) (c, d) = ground (arith, text_eq_iff a c, text_eq_iff b d)

instance abbrev pub slot_key : Key Slot
slot_key = record { same = slot_eq; same_iff = slot_eq_iff }

abbrev pub Index : Type 0
Index = ℤ × ℤ

abbrev index_eq : Index → Index → Bool
index_eq (a, b) (c, d) = int_eq a c && int_eq b d

pub index_eq_iff : (a b : Index) → (index_eq a b ≡ true) ↔ (a ≡ b)
index_eq_iff (a, b) (c, d) = ground (arith, int_eq_iff a c, int_eq_iff b d)

instance abbrev pub index_key : Key Index
index_key = record { same = index_eq; same_iff = index_eq_iff }

abbrev pub Dict {ℓ κ} : Type ℓ → Type κ → Type (ℓ ⊔ κ)
Dict K V = List (K × V)

abbrev pub is_some {ℓ} : {A : Type ℓ} → Option A → Bool
is_some none = false
is_some (some a) = true

pub same_refl {ℓ} : {K : Type ℓ} ⦃e : Key K⦄ (k : K) → e.same k k ≡ true
same_refl ⦃e⦄ k = (e.same_iff k k).1 refl

module _ {ℓ κ} {K : Type ℓ} {V : Type κ} ⦃e : Key K⦄ where
  -- `d.get(k)`
  unfoldable pub dict_get : K → Dict K V → Option V
  dict_get k [] = none
  dict_get k ((j, v) ∷ d) = if e.same k j then some v else dict_get k d

  -- `d[k] = v`: a key that is there keeps its place
  unfoldable pub dict_put : K → V → Dict K V → Dict K V
  dict_put k v [] = (k, v) ∷ []
  dict_put k v ((j, w) ∷ d) = if e.same k j then (j, v) ∷ d else (j, w) ∷ dict_put k v d

  pub dict_get-put :
      (j k : K) (v : V) (d : Dict K V)
      → dict_get j (dict_put k v d) ≡ (if e.same j k then some v else dict_get j d)
  unfolding dict_get dict_put
  dict_get-put j k v [] = refl
  dict_get-put j k v ((i, w) ∷ d) =
      ground
        (arith, dict_get-put j k v d, e.same_iff k i, e.same_iff j i, e.same_iff j k, same_refl i)

-- `x in xs`
unfoldable pub set_has {ℓ} : {A : Type ℓ} ⦃e : Key A⦄ → A → List A → Bool
set_has ⦃e⦄ a [] = false
set_has ⦃e⦄ a (x ∷ xs) = e.same a x || set_has a xs

-- `xs.add(a)`
unfoldable pub set_add {ℓ} : {A : Type ℓ} ⦃e : Key A⦄ → A → List A → List A
unfolding set_has
set_add a xs = if set_has a xs then xs else xs ++ a ∷ []

-- `xs & ys`
unfoldable pub set_both {ℓ} : {A : Type ℓ} ⦃e : Key A⦄ → List A → List A → List A
unfolding set_has
set_both [] ys = []
set_both (x ∷ xs) ys = let rest = set_both xs ys in if set_has x ys then x ∷ rest else rest

-- `sorted(xs)`, by an order test.
insert_sorted {ℓ} : {A : Type ℓ} → (A → A → Bool) → A → List A → List A
insert_sorted le a [] = a ∷ []
insert_sorted le a (x ∷ xs) =
    let rest = insert_sorted le a xs in if le a x then a ∷ x ∷ xs else x ∷ rest

unfoldable pub sorted {ℓ} : {A : Type ℓ} → (A → A → Bool) → List A → List A
unfolding insert_sorted
sorted le [] = []
sorted le (x ∷ xs) = insert_sorted le x (sorted le xs)

module _ {A : Type 0} ⦃e : Key A⦄ where
  set_has-append : (a b : A) (xs : List A) → set_has a (xs ++ b ∷ []) ≡ (set_has a xs || e.same a b)
  unfolding set_has
  set_has-append a b [] = ground arith
  set_has-append a b (x ∷ xs) = ground (arith, set_has-append a b xs)

  -- After `add` the set holds the new element and all that it held.
  pub set_has-add :
      (a b : A) (xs : List A) → set_has a (set_add b xs) ≡ (set_has a xs || e.same a b)
  unfolding set_add
  set_has-add a b xs = elim (Bool-cases (set_has b xs)) [
    | inl there ↦ elim (Bool-cases (e.same a b)) [
      | inl same ↦ rw (there, same, (e.same_iff a b).0 same) (ground arith)
      | inr other ↦ rw (there, other) (ground arith)
    ]
    | inr new ↦ rw new (set_has-append a b xs)
  ]

  -- Sets with no common element have no element in common.
  pub set_both-none :
      (a : A) (xs ys : List A) → set_both xs ys ≡ [] → set_has a xs ≡ true → set_has a ys ≡ false
  unfolding set_both
  set_both-none a [] ys h m = cc
  set_both-none a (x ∷ xs) ys h m = ground (arith, e.same_iff a x, set_both-none a xs ys)
