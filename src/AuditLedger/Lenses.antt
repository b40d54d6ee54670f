-- ===== src/AuditLedger/Lenses.antt =====
-- `.agents/scripts/audit_ledger.py`: the normal lens sets.
use ring_lang.Common.{
  closed_set, ◌≡◌, refl, sym, inl, inr, Bool, true, false, List, [], ◌∷◌, ◌++◌, ok, err, not, Text,
  strip, split, is_empty, mem_text, text_eq, text_eq_iff, text_eq_ne, any, All, All-append,
  or-eq-false, ◌⊎◌, Bool-cases, if◌then◌else◌, ◌≢◌, >>=-eq-ok, raise_if-eq-ok,
}
use ring_lang.Common.Regex.{fullmatch}
use ring_lang.Common.Dicts.{set_add, set_has, text_key}
use ring_lang.Common.Order.{
  sort_by, Increasing, Distinct, Fresh, sort_by-Distinct, sort_by-All, lt_text, put_sorted,
}
use ring_lang.AuditLedger.Patterns.{token, audit_lenses, lower}
use ring_lang.AuditLedger.Keys.{
  Checked, bad_lens, unknown_lens, normalize_items, normalize_raw_lenses, normalize_lenses,
  no_items, no_lens,
}

-- A lens of the closed set, which every step of the normalisation leaves as it is.
abbrev pub KnownLens : Text → Type 0
KnownLens l = mem_text l audit_lenses ≡ true

abbrev pub Kept : Text → Type 0
Kept l =
    (lower (strip l) ≡ l)
    × (is_empty l ≡ false)
    × (fullmatch token l ≡ true)
    × (split b',' l ≡ l ∷ [])
    × (mem_text l audit_lenses ≡ true)

Kept-lenses : All Kept audit_lenses
unfolding lower strip fullmatch token split mem_text any text_eq
Kept-lenses = (
  (refl, refl, refl, refl, refl),
  (
    (refl, refl, refl, refl, refl),
    (
      (refl, refl, refl, refl, refl),
      (
        (refl, refl, refl, refl, refl),
        ((refl, refl, refl, refl, refl), ((refl, refl, refl, refl, refl), tt)),
      ),
    ),
  ),
)

pub Known-Kept : (l : Text) → KnownLens l → Kept l
Known-Kept l m = closed_set Kept audit_lenses Kept-lenses l m

-- What the loops collect: known lenses, none of them twice.
abbrev IsCollected : List Text → Type 0
IsCollected seen = All KnownLens seen × Distinct (λ l. l) seen

Known-add :
    (l : Text) (seen : List Text)
    → KnownLens l
    → All KnownLens seen
    → All KnownLens (set_add l seen)
unfolding set_add
Known-add l seen k h = elim (Bool-cases (set_has l seen)) [
  | inl e ↦ rw e h
  | inr e ↦ rw e (All-append KnownLens seen (l ∷ []) h (k, tt))
]

set_has-false-Fresh : (l : Text) (seen : List Text) → Fresh (λ x. x) l seen → set_has l seen ≡ false
unfolding set_has
set_has-false-Fresh l [] f = refl
set_has-false-Fresh l (x ∷ seen) f = rw (text_eq_ne l x f.0) (set_has-false-Fresh l seen f.1)

Fresh-of_new : (l : Text) (seen : List Text) → set_has l seen ≡ false → Fresh (λ x. x) l seen
unfolding set_has
Fresh-of_new l [] h = tt
Fresh-of_new l (x ∷ seen) h =
    let (a, b) = or-eq-false (text_eq l x) (set_has l seen) h in
    ((λ e. cc ((text_eq_iff l x).1 e, a)), Fresh-of_new l seen b)

Fresh-snoc :
    (x l : Text) (seen : List Text)
    → x ≢ l
    → Fresh (λ y. y) x seen
    → Fresh (λ y. y) x (seen ++ l ∷ [])
Fresh-snoc x l [] n f = (n, tt)
Fresh-snoc x l (y ∷ seen) n f = (f.0, Fresh-snoc x l seen n f.1)

Distinct-snoc :
    (l : Text) (seen : List Text)
    → Fresh (λ y. y) l seen
    → Distinct (λ y. y) seen
    → Distinct (λ y. y) (seen ++ l ∷ [])
Distinct-snoc l [] f d = (tt, tt)
Distinct-snoc l (x ∷ seen) f d =
    (Fresh-snoc x l seen (λ e. f.0 (sym e)) d.0, Distinct-snoc l seen f.1 d.1)

Distinct-add :
    (l : Text) (seen : List Text) → Distinct (λ y. y) seen → Distinct (λ y. y) (set_add l seen)
unfolding set_add
Distinct-add l seen d = elim (Bool-cases (set_has l seen)) [
  | inl e ↦ rw e d
  | inr e ↦ rw e (Distinct-snoc l seen (Fresh-of_new l seen e) d)
]

-- The tests of an item, whose lens is skipped, refused or known.
item_tests :
    (a b c : Bool) (rest : Checked (List Text)) {out : List Text}
    → (if a then rest else if not b then err bad_lens else if not c then err unknown_lens else rest)
      ≡ ok out
    → (rest ≡ ok out) × ((a ≡ true) ⊎ ((a ≡ false) × (b ≡ true) × (c ≡ true)))
item_tests true b c rest h = (h, inl refl)
item_tests false false c rest h = cc
item_tests false true false rest h = cc
item_tests false true true rest h = (h, inr (refl, refl, refl))

lenses_inj : {s v : List Text} → ◌≡◌ {A = Checked (List Text)} (ok s) (ok v) → v ≡ s
lenses_inj h = cc

IsCollected-step :
    (l : Text) (seen : List Text) {t : Type 0}
    → (is_empty l ≡ true) ⊎ ((is_empty l ≡ false) × t × KnownLens l)
    → IsCollected seen
    → IsCollected (if is_empty l then seen else set_add l seen)
IsCollected-step l seen (inl e) s = rw e s
IsCollected-step l seen (inr (e, b, k)) s = rw e (Known-add l seen k s.0, Distinct-add l seen s.1)

normalize_items-IsCollected :
    (seen items : List Text) {out : List Text}
    → normalize_items seen items ≡ ok out
    → IsCollected seen
    → IsCollected out
unfolding normalize_items
normalize_items-IsCollected seen [] h s = rw (lenses_inj h) s
normalize_items-IsCollected seen (raw ∷ items) h s =
    let l = lower (strip raw) in
    let (e, k) = item_tests (is_empty l) (fullmatch token l) (mem_text l audit_lenses) _ h in
    normalize_items-IsCollected (if is_empty l then seen else set_add l seen) items e
      (IsCollected-step l seen k s)

normalize_raw_lenses-IsCollected :
    (seen raws : List Text) {out : List Text}
    → normalize_raw_lenses seen raws ≡ ok out
    → IsCollected seen
    → IsCollected out
unfolding normalize_raw_lenses
normalize_raw_lenses-IsCollected seen [] h s = rw (lenses_inj h) s
normalize_raw_lenses-IsCollected seen (raw ∷ raws) h s =
    let (mid, e, f) = >>=-eq-ok (normalize_items seen (split b',' raw)) _ h in
    normalize_raw_lenses-IsCollected mid raws f
      (normalize_items-IsCollected seen (split b',' raw) e s)

-- The normal lens sets: from the closed set, in increasing order without repetition, never empty.
abbrev pub IsLensSet : List Text → Type 0
IsLensSet ls = All KnownLens ls × Increasing (λ l. l) ls × (no_items ls ≡ false)

put_sorted_nonempty : (l : Text) (ls : List Text) → no_items (put_sorted (λ x. x) l ls) ≡ false
unfolding put_sorted no_items
put_sorted_nonempty l [] = refl
put_sorted_nonempty l (x ∷ ls) = elim (Bool-cases (lt_text x l)) [ inl e ↦ rw e | inr e ↦ rw e ]

sort_by_nonempty : (ls : List Text) → no_items ls ≡ false → no_items (sort_by (λ x. x) ls) ≡ false
unfolding sort_by no_items
sort_by_nonempty [] h = cc
sort_by_nonempty (l ∷ ls) h = put_sorted_nonempty l (sort_by (λ x. x) ls)

-- Whatever `normalize_lenses` accepts becomes a normal lens set.
pub normalize_lenses-IsLensSet :
    (raws ls : List Text) → normalize_lenses raws ≡ ok ls → IsLensSet ls
unfolding normalize_lenses
normalize_lenses-IsLensSet raws ls h =
    let (mid, e, f) = >>=-eq-ok (normalize_raw_lenses [] raws) _ h in
    let (n, g) = raise_if-eq-ok (no_items mid) no_lens _ f in
    let (k, d) = normalize_raw_lenses-IsCollected [] raws e (tt, tt) in
    rw (lenses_inj g) (
      sort_by-All (λ l. l) KnownLens mid k,
      sort_by-Distinct (λ l. l) mid d,
      sort_by_nonempty mid n,
    )
