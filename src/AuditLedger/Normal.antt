-- ===== src/AuditLedger/Normal.antt =====
-- `.agents/scripts/audit_ledger.py`: what is normal already is left as it is.
use ring_lang.Common.{
  ℕ, zero, suc, ◌≡◌, refl, ap, ◌∙◌, Bool, true, false, [], ◌∷◌, Option, none, some, ok, err,
  if◌then◌else◌, not, Text, strip, NoSpace, strip-NoSpace, all, is_space, arith,
}
use ring_lang.Common.Regex.{Within, fullmatch, exactly}
use ring_lang.Common.Matches.{all-fullmatch}
use ring_lang.AuditLedger.Patterns.{is_token_char, is_hex, token, full_sha, lower, lower_char}
use ring_lang.AuditLedger.Keys.{
  counted_trigger, unstable_trigger, bad_evidence, bad_trigger, EvidenceEvent, accept_trigger,
  accept_sha, normalize_trigger_id, normalize_source_sha, Checked,
}

token-NoSpace : (s : Text) → all is_token_char s ≡ true → NoSpace s
unfolding all is_space
token-NoSpace [] h = tt
token-NoSpace (c ∷ s) h = (ground arith, token-NoSpace s (ground arith))

lower_char_token : (c : ℕ) → is_token_char c ≡ true → lower_char c ≡ c ∷ []
unfolding lower_char
lower_char_token c h = ground arith

lower_token : (s : Text) → all is_token_char s ≡ true → lower s ≡ s
unfolding lower all
lower_token [] h = refl
lower_token (c ∷ s) h = rw (lower_char_token c (ground arith), lower_token s (ground arith))

-- A text of token characters is its own normal form.
pub lower-strip : (s : Text) → all is_token_char s ≡ true → lower (strip s) ≡ s
lower-strip s h = ap lower (strip-NoSpace s (token-NoSpace s h)) ∙ lower_token s h

pub all-token : (s : Text) → fullmatch token s ≡ true → all is_token_char s ≡ true
unfolding token
all-token s h =
    all-fullmatch is_token_char token ((λ c e. ground arith), ((λ c e. e), (λ c e. e))) s h

hex_token : (c : ℕ) → is_hex c ≡ true → is_token_char c ≡ true
hex_token c h = ground arith

Within-exactly : (n : ℕ) → Within is_token_char (exactly n is_hex)
Within-exactly zero = tt
Within-exactly (suc n) = (hex_token, Within-exactly n)

pub all-full_sha : (s : Text) → fullmatch full_sha s ≡ true → all is_token_char s ≡ true
unfolding full_sha
all-full_sha s h = all-fullmatch is_token_char full_sha (Within-exactly 40, Within-exactly 64) s h

ok-inj : {s v : Text} → ◌≡◌ {A = Checked Text} (ok s) (ok v) → v ≡ s
ok-inj h = cc

-- The tests of a trigger id accept nothing but the value itself, and only a token.
accepted_value :
    (a b c d : Bool) (o : Option EvidenceEvent) {s v : Text}
    → (if not a
        then err bad_trigger
        else if b
        then elim o [ none ↦ err bad_evidence | some event ↦ ok s ]
        else if c
        then err unstable_trigger
        else if d
        then err counted_trigger
        else ok s)
      ≡ ok v
    → (v ≡ s) × (a ≡ true)
accepted_value false b c d o h = cc
accepted_value true true c d none h = cc
accepted_value true true c d (some event) h = (ok-inj h, refl)
accepted_value true false true d o h = cc
accepted_value true false false true o h = cc
accepted_value true false false false o h = (ok-inj h, refl)

accepted_trigger :
    (s : Text) {v : Text} → accept_trigger s ≡ ok v → (v ≡ s) × (fullmatch token s ≡ true)
unfolding accept_trigger
accepted_trigger s h = accepted_value _ _ _ _ _ h

-- A normal trigger id is normal: normalising it again gives the same id.
pub normalize_trigger_id_idempotent :
    (raw v : Text) → normalize_trigger_id raw ≡ ok v → normalize_trigger_id v ≡ ok v
unfolding normalize_trigger_id
normalize_trigger_id_idempotent raw v h =
    let (e, m) = accepted_trigger (lower (strip raw)) h in
    ap accept_trigger (lower-strip v (all-token v (ap (fullmatch token) e ∙ m)) ∙ e) ∙ h

pub token-normalize_trigger_id :
    (raw : Text) {v : Text} → normalize_trigger_id raw ≡ ok v → fullmatch token v ≡ true
unfolding normalize_trigger_id
token-normalize_trigger_id raw h =
    let (e, m) = accepted_trigger (lower (strip raw)) h in ap (fullmatch token) e ∙ m

accepted_sha : (s : Text) {v : Text} → accept_sha s ≡ ok v → (v ≡ s) × (fullmatch full_sha s ≡ true)
unfolding accept_sha
accepted_sha s h = ground arith

pub full_sha-normalize_source_sha :
    (raw : Text) {v : Text} → normalize_source_sha raw ≡ ok v → fullmatch full_sha v ≡ true
unfolding normalize_source_sha
full_sha-normalize_source_sha raw h =
    let (e, m) = accepted_sha (lower (strip raw)) h in ap (fullmatch full_sha) e ∙ m

pub normalize_source_sha_idempotent :
    (raw v : Text) → normalize_source_sha raw ≡ ok v → normalize_source_sha v ≡ ok v
unfolding normalize_source_sha
normalize_source_sha_idempotent raw v h =
    let (e, m) = accepted_sha (lower (strip raw)) h in
    ap accept_sha (lower-strip v (all-full_sha v (ap (fullmatch full_sha) e ∙ m)) ∙ e) ∙ h
