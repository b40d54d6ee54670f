-- ===== src/AuditLedger/Injective.antt =====
-- `.agents/scripts/audit_ledger.py`: different keys have different canonical texts.
use ring_lang.Common.{
  ==_refl, ◌==◌, leb, ◌&&◌, ok, ℕ, ◌≡◌, refl, ap, sym, ◌∙◌, true, false, List, [], ◌∷◌, ◌++◌, Text,
  all, All, drop, arith, append_assoc,
}
use ring_lang.Common.Json.{json_char, json_chars, json_str, json_tail, json_list}
use ring_lang.AuditLedger.Patterns.{is_token_char}
use ring_lang.AuditLedger.Keys.{normalize_source_sha, AuditKey, canonical, no_items}
use ring_lang.AuditLedger.Normal.{full_sha-normalize_source_sha, all-token, all-full_sha}
use ring_lang.AuditLedger.Lenses.{KnownLens, Known-Kept}
use ring_lang.AuditLedger.Stored.{IsStored}

abbrev Plain : Text → Type 0
Plain s = all is_token_char s ≡ true

-- No token character is escaped.
token_unescaped :
    (c : ℕ)
    → is_token_char c ≡ true
    → ((c == b'"') ≡ false) × ((c == b'\\') ≡ false) × ((leb 32 c && leb c 126) ≡ true)
token_unescaped c h = (ground arith, ground arith, ground arith)

head_eq : {a b : ℕ} {s t : Text} → ◌≡◌ {A = Text} (a ∷ s) (b ∷ t) → a ≡ b
head_eq h = cc

json_char_token : (c : ℕ) → is_token_char c ≡ true → json_char c ≡ c ∷ []
unfolding json_char
json_char_token c h = let (a, b, d) = token_unescaped c h in rw (a, b, d) refl

json_chars_token : (s : Text) → Plain s → json_chars s ≡ s
unfolding json_chars all
json_chars_token [] h = refl
json_chars_token (c ∷ s) h =
    rw (json_char_token c (ground arith), json_chars_token s (ground arith))

json_str_token : (s t : Text) → Plain s → json_str s ++ t ≡ b'"' ∷ (s ++ b'"' ∷ t)
unfolding json_str
json_str_token s t h = rw (json_chars_token s h) (ap (λ r. b'"' ∷ r) (append_assoc s (b'"' ∷ []) t))

-- A quoted text ends at its quote.
quote-inj :
    (s s' t t' : Text) → Plain s → Plain s' → s ++ b'"' ∷ t ≡ s' ++ b'"' ∷ t' → (s ≡ s') × (t ≡ t')
unfolding all
quote-inj [] [] t t' p q h = (refl, ap (drop 1) h)
quote-inj [] (c ∷ s') t t' p q h =
    let e = head_eq h in cc (e, (token_unescaped c (ground arith)).0, ==_refl b'"')
quote-inj (c ∷ s) [] t t' p q h =
    let e = head_eq h in cc (e, (token_unescaped c (ground arith)).0, ==_refl b'"')
quote-inj (c ∷ s) (d ∷ s') t t' p q h =
    let (e, f) = quote-inj s s' t t' (ground arith) (ground arith) (ap (drop 1) h) in
    (cc (head_eq h, e), f)

json_str-inj :
    (s s' t t' : Text)
    → Plain s
    → Plain s'
    → json_str s ++ t ≡ json_str s' ++ t'
    → (s ≡ s') × (t ≡ t')
json_str-inj s s' t t' p q h =
    quote-inj s s' t t' p q
      (ap (drop 1) (sym (json_str_token s t p) ∙ (h ∙ json_str_token s' t' q)))

-- The first item of a list ends where it is closed.
item-inj :
    (s s' r r' t t' : Text)
    → Plain s
    → Plain s'
    → (json_str s ++ r) ++ t ≡ (json_str s' ++ r') ++ t'
    → (s ≡ s') × (r ++ t ≡ r' ++ t')
item-inj s s' r r' t t' p q h =
    json_str-inj s s' (r ++ t) (r' ++ t') p q
      (sym (append_assoc (json_str s) r t) ∙ (h ∙ append_assoc (json_str s') r' t'))

cons_eq : {s s' : Text} {ss ss' : List Text} → s ≡ s' → ss ≡ ss' → s ∷ ss ≡ s' ∷ ss'
cons_eq e g = λ i. e i ∷ g i

items-inj :
    (s s' : Text) (ss ss' : List Text) (t t' : Text)
    → ((json_tail ss ++ t ≡ json_tail ss' ++ t') → (ss ≡ ss') × (t ≡ t'))
    → Plain s
    → Plain s'
    → (json_str s ++ json_tail ss) ++ t ≡ (json_str s' ++ json_tail ss') ++ t'
    → (s ∷ ss ≡ s' ∷ ss') × (t ≡ t')
items-inj s s' ss ss' t t' rest p q h =
    let (e, f) = item-inj s s' (json_tail ss) (json_tail ss') t t' p q h in
    let (g, i) = rest f in (cons_eq e g, i)

closed-ne-open : {s t : Text} → ¬ (b']' ∷ s ≡ b',' ∷ t)
closed-ne-open h = cc

true-ne-false : ¬ (true ≡ false)
true-ne-false h = cc

json_tail-inj :
    (ss ss' : List Text) (t t' : Text)
    → All Plain ss
    → All Plain ss'
    → json_tail ss ++ t ≡ json_tail ss' ++ t'
    → (ss ≡ ss') × (t ≡ t')
unfolding json_tail
json_tail-inj [] [] t t' p q h = (refl, ap (drop 1) h)
json_tail-inj [] (s ∷ ss') t t' p q h = absurd (closed-ne-open h)
json_tail-inj (s ∷ ss) [] t t' p q h = absurd (closed-ne-open (sym h))
json_tail-inj (s ∷ ss) (s' ∷ ss') t t' p q h =
    items-inj s s' ss ss' t t' (json_tail-inj ss ss' t t' p.1 q.1) p.0 q.0 (ap (drop 1) h)

json_list-inj :
    (ss ss' : List Text) (t t' : Text)
    → All Plain ss
    → All Plain ss'
    → no_items ss ≡ false
    → no_items ss' ≡ false
    → json_list ss ++ t ≡ json_list ss' ++ t'
    → (ss ≡ ss') × (t ≡ t')
unfolding json_list no_items
json_list-inj [] ss' t t' p q n m h = absurd (true-ne-false n)
json_list-inj (s ∷ ss) [] t t' p q n m h = absurd (true-ne-false m)
json_list-inj (s ∷ ss) (s' ∷ ss') t t' p q n m h =
    items-inj s s' ss ss' t t' (json_tail-inj ss ss' t t' p.1 q.1) p.0 q.0 (ap (drop 1) h)

known-Plain : (ls : List Text) → All KnownLens ls → All Plain ls
known-Plain [] h = tt
known-Plain (l ∷ ls) h =
    let (low, full, tok, one, mem) = Known-Kept l h.0 in (all-token l tok, known-Plain ls h.1)

sha-Plain : (s : Text) → normalize_source_sha s ≡ ok s → Plain s
sha-Plain s h = all-full_sha s (full_sha-normalize_source_sha s h)

-- The canonical text, on which the digest and the lookup rest, tells the keys apart: two keys that were
-- made by `create` or loaded from the ledger and have the same canonical text are the same key.
pub canonical-inj : (a b : AuditKey) → IsStored a → IsStored b → canonical a ≡ canonical b → a ≡ b
unfolding canonical
canonical-inj a b p q h =
    let (e, f) =
      json_list-inj a.lenses b.lenses _ _ (known-Plain a.lenses p.2.0) (known-Plain b.lenses q.2.0)
        p.2.2 q.2.2 (ap (drop 10) h) in
    let (g, i) =
      json_str-inj a.source_sha b.source_sha _ _ (sha-Plain a.source_sha p.1)
        (sha-Plain b.source_sha q.1) (ap (drop 14) f) in
    let (j, k) =
      json_str-inj a.trigger_id b.trigger_id _ _ (all-token a.trigger_id p.0)
        (all-token b.trigger_id q.0) (ap (drop 14) i) in
    λ n. record { trigger_id = j n; source_sha = g n; lenses = e n }
