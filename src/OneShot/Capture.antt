-- ===== src/OneShot/Capture.antt =====
-- `.agents/scripts/one_shot_gate.py`: what `_PrefixSink` captures of a stream.
use ring_lang.Common.{
  ℕ, zero, suc, ◌+◌, ◌-◌, ◌≤◌, ◌<◌, ◌≡◌, refl, ap, sym, ◌∙◌, Bool, true, false, List, [], ◌∷◌, ◌++◌,
  none, some, ltb, ◌==◌, if◌then◌else◌, Text, length, take, drop, length-append, append_assoc,
  append-nil, arith,
}
use mathlib.Core.Path.{subst}
use ring_lang.OneShot.Streams.{
  PrefixSink, Write, write_all, consume, consume_prefix, consume_all, new_sink, open_sink,
  count_prefix, mark_truncated, and_then,
}

-- `os.write` of some bytes writes at least one of them, and no more than it was given.
abbrev pub Progresses : Write → Type 0
Progresses write = (b : ℕ) (bs : List ℕ) → (1 ≤ write (b ∷ bs)) × (write (b ∷ bs) ≤ suc (length bs))

abbrev pub concat : List (List ℕ) → List ℕ
concat [] = []
concat (chunk ∷ chunks) = chunk ++ concat chunks

take-drop : (n : ℕ) (xs : List ℕ) → take n xs ++ drop n xs ≡ xs
take-drop zero xs = refl
take-drop (suc n) [] = refl
take-drop (suc n) (x ∷ xs) = ap (◌∷◌ x) (take-drop n xs)

length-drop : (n : ℕ) (xs : List ℕ) → length (drop n xs) ≡ length xs - n
length-drop zero xs = omega arith
length-drop (suc n) [] = omega arith
length-drop (suc n) (x ∷ xs) = omega (arith, length-drop n xs)

pub length-take :
    (n : ℕ) (xs : List ℕ)
    → (length (take n xs) ≤ n)
      × (length (take n xs) ≤ length xs)
      × ((length (take n xs) < n) → length (take n xs) ≡ length xs)
length-take zero xs = (omega arith, omega arith, λ h. omega arith)
length-take (suc n) [] = (omega arith, omega arith, λ h. refl)
length-take (suc n) (x ∷ xs) =
    let (a, b, c) = length-take n xs in
    (omega (arith, a), omega (arith, b), λ h. ap suc (c (omega arith)))

take-append_split :
    (n : ℕ) (xs ys : List ℕ) → take n (xs ++ ys) ≡ take n xs ++ take (n - length (take n xs)) ys
take-append_split zero xs ys = refl
take-append_split (suc n) [] ys = let e : suc n - 0 ≡ suc n = omega arith in rw e
take-append_split (suc n) (x ∷ xs) ys =
    let e : suc n - suc (length (take n xs)) ≡ n - length (take n xs) = omega arith in
    rw e (ap (◌∷◌ x) (take-append_split n xs ys))

abbrev appended : List ℕ → PrefixSink → PrefixSink
appended bs self = record self { hashed_bytes = self.hashed_bytes ++ bs; file = self.file ++ bs }

appended-nil : (self : PrefixSink) → some self ≡ some (appended [] self)
appended-nil self = rw (append-nil self.hashed_bytes, append-nil self.file)

appended-appended :
    (front back : List ℕ) (self : PrefixSink)
    → appended back (appended front self) ≡ appended (front ++ back) self
appended-appended front back self =
    rw (append_assoc self.hashed_bytes front back, append_assoc self.file front back)

-- With as much fuel as there are bytes the loop ends, and all of them are appended.
pub write_all-written :
    (fuel : ℕ) (write : Write) (bs : List ℕ) (self : PrefixSink)
    → Progresses write
    → length bs ≤ fuel
    → write_all fuel write bs self ≡ some (appended bs self)
unfolding write_all
write_all-written zero write [] self p h = appended-nil self
write_all-written (suc fuel) write [] self p h = appended-nil self
write_all-written zero write (b ∷ bs) self p h = absurd (omega arith)
write_all-written (suc fuel) write (b ∷ bs) self p h =
    let n = write (b ∷ bs) in
    let moved : (n == 0) ≡ false = ground (arith, p b bs) in
    let left : length (drop n (b ∷ bs)) ≤ fuel = omega (arith, length-drop n (b ∷ bs), p b bs) in
    rw moved (
      write_all-written fuel write (drop n (b ∷ bs)) (appended (take n (b ∷ bs)) self) p left
      ∙ ap some (
          appended-appended (take n (b ∷ bs)) (drop n (b ∷ bs)) self
          ∙ ap (λ all. appended all self) (take-drop n (b ∷ bs))))

-- The sink holds the first bytes of all that came, as many as its cap lets through.
pub record Captures (path : Text) (cap_bytes : ℕ) (all : List ℕ) (self : PrefixSink) : Type 0 where
  pub named : self.relative_path ≡ path
  pub capped : self.cap_bytes ≡ cap_bytes
  pub opened : self.is_open ≡ true
  pub contents : self.file ≡ take cap_bytes all
  pub hashed : self.hashed_bytes ≡ take cap_bytes all
  pub counted : self.captured ≡ length (take cap_bytes all)
  pub total : self.seen ≡ length all
  pub cut : self.truncated ≡ ltb cap_bytes (length all)
  pub clean : self.error ≡ none

pub open_sink-Captures :
    (path : Text) (cap_bytes : ℕ) → Captures path cap_bytes [] (open_sink (new_sink path cap_bytes))
unfolding open_sink new_sink
open_sink-Captures path zero = ground arith
open_sink-Captures path (suc n) = ground arith

counted_prefix : List ℕ → List ℕ → PrefixSink → PrefixSink
counted_prefix chunk prefix self = record (appended prefix self) {
  seen = self.seen + length chunk;
  captured = self.captured + length prefix;
}

if_true {ℓ} :
    {A : Type ℓ} {b : Bool} {x y : A} (z : A) → b ≡ true → x ≡ y → (if b then x else z) ≡ y
if_true {b = true} z h e = e
if_true {b = false} z h e = cc

consume_prefix-some :
    (write : Write) (prefix : List ℕ) (self : PrefixSink)
    → Progresses write
    → self.is_open ≡ true
    → consume_prefix write prefix self
      ≡ some (record (appended prefix self) { captured = self.captured + length prefix })
unfolding consume_prefix
consume_prefix-some write [] self p h =
    let e : self.captured + 0 ≡ self.captured = omega arith in
    rw (append-nil self.hashed_bytes, append-nil self.file, e)
consume_prefix-some write (b ∷ bs) self p h = if_true (some self) h (
    ap (count_prefix (b ∷ bs))
      (write_all-written (length (b ∷ bs)) write (b ∷ bs) self p (omega arith)))

abbrev after : ℕ → List ℕ → PrefixSink → PrefixSink
after cap_bytes chunk self =
    let prefix = take (cap_bytes - self.captured) chunk in
    let cut = ltb (length prefix) (length chunk) in
    record self {
      hashed_bytes = self.hashed_bytes ++ prefix;
      file = self.file ++ prefix;
      seen = self.seen + length chunk;
      captured = self.captured + length prefix;
      truncated = if cut then true else self.truncated;
    }

mark_truncated-some :
    (lost : Bool) (self : PrefixSink)
    → mark_truncated lost (some self)
      ≡ some (record self { truncated = if lost then true else self.truncated })
mark_truncated-some true self = refl
mark_truncated-some false self = refl

-- A chunk is taken up to the cap, whatever the single writes return.
pub consume-some :
    (write : Write) (chunk : List ℕ) (self : PrefixSink)
    → Progresses write
    → self.is_open ≡ true
    → consume write chunk self ≡ some (after self.cap_bytes chunk self)
unfolding consume
consume-some write chunk self p h =
    let prefix = take (self.cap_bytes - self.captured) chunk in
    ap (mark_truncated (ltb (length prefix) (length chunk)))
      (consume_prefix-some write prefix (record self { seen = self.seen + length chunk }) p h)
    ∙ mark_truncated-some (ltb (length prefix) (length chunk)) _

after-Captures :
    (path : Text) (cap_bytes : ℕ) (all chunk : List ℕ) (self : PrefixSink)
    → Captures path cap_bytes all self
    → Captures path cap_bytes (all ++ chunk) (after cap_bytes chunk self)
after-Captures path cap_bytes all chunk self c =
    let prefix = take (cap_bytes - self.captured) chunk in
    let fits : prefix ≡ take (cap_bytes - length (take cap_bytes all)) chunk =
      ap (λ k. take (cap_bytes - k) chunk) c.counted in
    let grown : take cap_bytes all ++ prefix ≡ take cap_bytes (all ++ chunk) =
      ap (λ p. take cap_bytes all ++ p) fits ∙ sym (take-append_split cap_bytes all chunk) in
    let sizes : length (take cap_bytes all) + length prefix
        ≡ length (take cap_bytes (all ++ chunk)) =
      sym (length-append (take cap_bytes all) prefix) ∙ ap length grown in
    record {
      named = c.named;
      capped = c.capped;
      opened = c.opened;
      contents = ap (λ f. f ++ prefix) c.contents ∙ grown;
      hashed = ap (λ f. f ++ prefix) c.hashed ∙ grown;
      counted = omega (arith, sizes, c.counted);
      total = omega (arith, c.total, length-append all chunk);
      cut = ground (
        arith,
        length-take cap_bytes all,
        length-take (cap_bytes - self.captured) chunk,
        length-append all chunk,
      );
      clean = c.clean;
    }

-- A sink that captured `all` captures the chunks behind it as well.
pub consume_all-Captures :
    (write : Write) (path : Text) (cap_bytes : ℕ) (chunks : List (List ℕ)) (all : List ℕ)
    (self : PrefixSink)
    → Progresses write
    → Captures path cap_bytes all self
    → (final : PrefixSink) × (consume_all write chunks self ≡ some final)
      × Captures path cap_bytes (all ++ concat chunks) final
unfolding consume_all
consume_all-Captures write path cap_bytes [] all self p c = (self, refl, rw (append-nil all) c)
consume_all-Captures write path cap_bytes (chunk ∷ chunks) all self p c =
    let next = after self.cap_bytes chunk self in
    let kept : Captures path cap_bytes (all ++ chunk) next =
      subst (λ (n : ℕ). Captures path cap_bytes (all ++ chunk) (after n chunk self)) (sym c.capped)
        (after-Captures path cap_bytes all chunk self c) in
    let (final, run, captures) =
      consume_all-Captures write path cap_bytes chunks (all ++ chunk) next p kept in
    (
      final,
      ap (λ o. and_then o (consume_all write chunks)) (consume-some write chunk self p c.opened)
          ∙ run,
      rw (← append_assoc all chunk (concat chunks)) captures,
    )
