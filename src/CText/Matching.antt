-- ===== src/CText/Matching.antt =====
-- `matching_delimiter` returns the first offset at which the delimiters balance.
use ring_lang.Common.{
  ℕ, zero, suc, ◌+◌, ◌-◌, ◌<◌, true, false, [], ◌∷◌, ◌≡◌, ◌≢◌, ◌⊎◌, inl, inr, refl, some, arith,
  ◌==◌, if◌then◌else◌, Text, Bool-cases, ok, ap, ◌∙◌, ◌↔◌, get_elem?, take, drop,
}
use ring_lang.CText.{close_from, matching_delimiter, next_is}

-- How often a character occurs.
abbrev pub count : ℕ → Text → ℕ
count c [] = 0
count c (d ∷ s) = (if d == c then 1 else 0) + count c s

-- After `depth` unclosed delimiters, `s` closes the last one with its character number `n`, and
-- none of the shorter prefixes does.
pub record ClosesAt (opening closing depth : ℕ) (s : Text) (n : ℕ) : Type 0 where
  pub closer : get_elem? s n ≡ some closing
  pub balanced : depth + count opening (take (suc n) s) ≡ count closing (take (suc n) s)
  pub open_before :
      (k : ℕ) → k < n → count closing (take (suc k) s) < depth + count opening (take (suc k) s)

module _ (opening closing : ℕ) (differ : opening ≢ closing) where
  ClosesAt-cons :
      (depth deeper : ℕ) (c : ℕ) (s : Text) (n : ℕ)
      → depth + count opening (c ∷ []) ≡ deeper + count closing (c ∷ [])
      → 0 < deeper
      → ClosesAt opening closing deeper s n
      → ClosesAt opening closing depth (c ∷ s) (suc n)
  ClosesAt-cons depth deeper c s n e p h = record {
    closer = h.closer;
    balanced = omega (arith, h.balanced);
    open_before = elim [ zero ↦ λ _. omega arith | suc k ↦ λ q. omega (arith, h.open_before k) ];
  }

  ClosesAt-tail :
      (depth deeper : ℕ) (c : ℕ) (s : Text) (n : ℕ)
      → depth + count opening (c ∷ []) ≡ deeper + count closing (c ∷ [])
      → ClosesAt opening closing depth (c ∷ s) (suc n)
      → ClosesAt opening closing deeper s n
  ClosesAt-tail depth deeper c s n e h = record {
    closer = h.closer;
    balanced = omega (arith, h.balanced);
    open_before = λ k q. omega (arith, h.open_before (suc k));
  }

  close_from-ClosesAt :
      (s : Text) (depth index : ℕ) {j : ℕ}
      → 0 < depth ⊎ next_is (get_elem? s 0) opening ≡ true
      → close_from opening closing depth index s ≡ some j
      → (n : ℕ) × (j ≡ index + n) × ClosesAt opening closing depth s n
  unfolding close_from
  close_from-ClosesAt [] depth index h e = cc
  close_from-ClosesAt (c ∷ s) depth index h e = elim (Bool-cases (c == opening)) [
    | inl o ↦
        let (n, at, ih) =
          close_from-ClosesAt s (depth + 1) (index + 1) (inl (omega arith)) (rw o at e) in
        (suc n, omega arith, ClosesAt-cons depth (depth + 1) c s n (ground arith) (omega arith) ih)
    | inr o ↦ elim (Bool-cases (c == closing)) [
      | inl k ↦ elim (Bool-cases (depth == 1)) [
        | inl last ↦ (
          0,
          ground arith,
          record {
            closer = ground arith;
            balanced = ground arith;
            open_before = λ k q. elim q [ ];
          },
        )
        | inr more ↦
            let (n, at, ih) =
              close_from-ClosesAt s (depth - 1) (index + 1) (inl (ground arith))
                (rw (o, k, more) at e) in
            (
              suc n,
              omega arith,
              ClosesAt-cons depth (depth - 1) c s n (ground arith) (ground arith) ih,
            )
      ]
      | inr k ↦
          let (n, at, ih) =
            close_from-ClosesAt s depth (index + 1) (inl (ground arith)) (rw (o, k) at e) in
          (suc n, omega arith, ClosesAt-cons depth depth c s n (ground arith) (ground arith) ih)
    ]
  ]

  close_from_complete :
      (s : Text) (depth index n : ℕ)
      → 0 < depth ⊎ next_is (get_elem? s 0) opening ≡ true
      → ClosesAt opening closing depth s n
      → close_from opening closing depth index s ≡ some (index + n)
  unfolding close_from
  close_from_complete [] depth index n h a = cc (a.closer)
  close_from_complete (c ∷ s) depth index zero h a = ground (arith, a.balanced, a.closer)
  close_from_complete (c ∷ s) depth index (suc n) h a = elim (Bool-cases (c == opening)) [
    | inl o ↦ rw o (
        close_from_complete s (depth + 1) (index + 1) n (inl (omega arith))
          (ClosesAt-tail depth (depth + 1) c s n (ground arith) a)
        ∙ rw (step index n))
    | inr o ↦ elim (Bool-cases (c == closing)) [
      | inl k ↦
          let wide : 1 < depth = ground (arith, a.open_before 0 (omega arith)) in
          let more : (depth == 1) ≡ false = ground arith in
          rw (o, k, more)
            (close_from_complete s (depth - 1) (index + 1) n (inl (omega arith))
                (ClosesAt-tail depth (depth - 1) c s n (ground arith) a)
              ∙ rw (step index n))
      | inr k ↦
          rw (o, k)
            (close_from_complete s depth (index + 1) n (inl (ground arith))
                (ClosesAt-tail depth depth c s n (ground arith) a)
              ∙ rw (step index n))
    ]
  ]
    where
      step : (i n : ℕ) → some (i + 1 + n) ≡ some (i + suc n)
      step i n = ap some (omega arith)

get_elem?-drop : (s : Text) (i : ℕ) → get_elem? (drop i s) 0 ≡ get_elem? s i
get_elem?-drop [] zero = refl
get_elem?-drop [] (suc i) = refl
get_elem?-drop (c ∷ s) zero = refl
get_elem?-drop (c ∷ s) (suc i) = get_elem?-drop s i

ClosesAt-opens :
    (opening closing : ℕ) (s : Text) (n : ℕ)
    → opening ≢ closing
    → ClosesAt opening closing 0 s n
    → next_is (get_elem? s 0) opening ≡ true
ClosesAt-opens opening closing [] n differ a = cc (a.closer)
ClosesAt-opens opening closing (c ∷ s) zero differ a = ground (arith, a.balanced, a.closer)
ClosesAt-opens opening closing (c ∷ s) (suc n) differ a =
    ground (arith, a.open_before 0 (omega arith))

-- For two different delimiters, `matching_delimiter` returns an offset exactly when it is the
-- first one, counted from the opening delimiter, at which as many have closed as opened.
pub matching_delimiter_iff :
    (masked : Text) (i opening closing j : ℕ)
    → opening ≢ closing
    → (matching_delimiter masked i opening closing ≡ ok j)
      ↔ ((n : ℕ) × (j ≡ i + n) × ClosesAt opening closing 0 (drop i masked) n)
unfolding matching_delimiter
matching_delimiter_iff masked i opening closing j differ = (sound, complete)
  where
    sound :
        matching_delimiter masked i opening closing ≡ ok j
        → (n : ℕ) × (j ≡ i + n) × ClosesAt opening closing 0 (drop i masked) n
    sound e = elim (Bool-cases (next_is (get_elem? masked i) opening)) [
      | inl o ↦
          close_from-ClosesAt opening closing differ (drop i masked) 0 i (inr (rw get_elem?-drop o))
            (ground arith)
      | inr o ↦ ground arith
    ]

    complete :
        ((n : ℕ) × (j ≡ i + n) × ClosesAt opening closing 0 (drop i masked) n)
        → matching_delimiter masked i opening closing ≡ ok j
    complete (n, e, a) =
        let o = ClosesAt-opens opening closing (drop i masked) n differ a in
        let o' : next_is (get_elem? masked i) opening ≡ true = rw get_elem?-drop at o in
        ground (arith, close_from_complete opening closing differ (drop i masked) 0 i n (inr o) a)
