-- ===== src/AuditLedger/Stored.antt =====
-- `.agents/scripts/audit_ledger.py`: a key that was made or loaded is loaded again as itself.
use ring_lang.Common.{
  ◌≡◌, refl, ap, sym, ◌∙◌, Bool, true, false, List, [], ◌∷◌, ◌++◌, ok, not, Text, strip, text_eq_ne,
  All, append_assoc, append-nil, >>=-eq-ok, raise_if-eq-ok,
}
use ring_lang.Common.Regex.{fullmatch}
use ring_lang.Common.Dicts.{set_add, set_has, set_has-add, text_key}
use ring_lang.Common.Order.{Distinct, Fresh, sort_by-Increasing, Increasing-Distinct}
use ring_lang.AuditLedger.Patterns.{token, lower}
use ring_lang.AuditLedger.Keys.{
  Checked, normalize_items, normalize_raw_lenses, normalize_lenses, AuditKey, stored_audit_key,
  normalize_source_sha, normalize_trigger_id, create,
}
use ring_lang.AuditLedger.Normal.{
  token-normalize_trigger_id, lower-strip, all-token, normalize_source_sha_idempotent,
}
use ring_lang.AuditLedger.Lenses.{KnownLens, Known-Kept, IsLensSet, normalize_lenses-IsLensSet}

-- The lens is not among those collected already.
abbrev NotIn : List Text → Text → Type 0
NotIn seen l = set_has l seen ≡ false

normalize_items_known :
    (seen : List Text) (l : Text)
    → KnownLens l
    → normalize_items seen (l ∷ []) ≡ ok (set_add l seen)
unfolding normalize_items
normalize_items_known seen l k =
    let (low, full, tok, one, mem) = Known-Kept l k in rw (low, full, tok, mem)

set_add_new : (l : Text) (seen : List Text) → NotIn seen l → set_add l seen ≡ seen ++ l ∷ []
unfolding set_add
set_add_new l seen n = rw n

NotIn-add :
    (l : Text) (seen ls : List Text)
    → Fresh (λ x. x) l ls
    → All (NotIn seen) ls
    → All (NotIn (set_add l seen)) ls
NotIn-add l seen [] f h = tt
NotIn-add l seen (x ∷ ls) f h = (
  set_has-add x l seen ∙ rw (h.0, text_eq_ne x l (λ e. f.0 (sym e))),
  NotIn-add l seen ls f.1 h.1,
)

normalize_raw_lenses_known :
    (seen ls : List Text)
    → All KnownLens ls
    → Distinct (λ x. x) ls
    → All (NotIn seen) ls
    → normalize_raw_lenses seen ls ≡ ok (seen ++ ls)
unfolding normalize_raw_lenses
normalize_raw_lenses_known seen [] k d n = ap ok (sym (append-nil seen))
normalize_raw_lenses_known seen (l ∷ ls) k d n =
    let (low, full, tok, one, mem) = Known-Kept l k.0 in
    rw (one, normalize_items_known seen l k.0)
      (normalize_raw_lenses_known (set_add l seen) ls k.1 d.1 (NotIn-add l seen ls d.0 n.1)
        ∙ ap ok (ap (λ s. s ++ ls) (set_add_new l seen n.0) ∙ append_assoc seen (l ∷ []) ls))

NotIn-nothing : (ls : List Text) → All (NotIn []) ls
unfolding set_has
NotIn-nothing [] = tt
NotIn-nothing (l ∷ ls) = (refl, NotIn-nothing ls)

-- A normal lens set is normal: normalising it again gives the same lenses.
pub normalize_lenses-normal : (ls : List Text) → IsLensSet ls → normalize_lenses ls ≡ ok ls
unfolding normalize_lenses
normalize_lenses-normal ls (k, inc, n) = rw (
  normalize_raw_lenses_known [] ls k (Increasing-Distinct (λ x. x) ls inc) (NotIn-nothing ls),
  n,
  sort_by-Increasing (λ x. x) ls inc,
)

-- What holds of a key that `AuditKey.create` made or that was loaded from the ledger.
abbrev pub IsStored : AuditKey → Type 0
IsStored key =
    (fullmatch token key.trigger_id ≡ true)
    × (normalize_source_sha key.source_sha ≡ ok key.source_sha)
    × IsLensSet key.lenses

key_inj : {a b : AuditKey} → ◌≡◌ {A = Checked AuditKey} (ok a) (ok b) → b ≡ a
key_inj h = cc

not-false : {b : Bool} → not b ≡ false → b ≡ true
not-false {b = true} h = refl
not-false {b = false} h = cc

pub stored_audit_key-IsStored :
    (t s : Text) (ls : List Text) (key : AuditKey) → stored_audit_key t s ls ≡ ok key → IsStored key
unfolding stored_audit_key
stored_audit_key-IsStored t s ls key h =
    let (ok_token, f) = raise_if-eq-ok (not (fullmatch token (lower (strip t)))) _ _ h in
    let (sha, e, g) = >>=-eq-ok (normalize_source_sha s) _ f in
    let (lens, k, i) = >>=-eq-ok (normalize_lenses ls) _ g in
    rw (key_inj i) (
      not-false ok_token,
      normalize_source_sha_idempotent s sha e,
      normalize_lenses-IsLensSet ls lens k,
    )

-- A key that was made or loaded, written into a record, is loaded from it as the same key.
pub stored_audit_key_again :
    (key : AuditKey)
    → IsStored key
    → stored_audit_key key.trigger_id key.source_sha key.lenses ≡ ok key
unfolding stored_audit_key
stored_audit_key_again key (tok, sha, lens) = rw (
  lower-strip key.trigger_id (all-token key.trigger_id tok),
  tok,
  sha,
  normalize_lenses-normal key.lenses lens,
)

pub create-IsStored :
    (t s : Text) (ls : List Text) (key : AuditKey) → create t s ls ≡ ok key → IsStored key
unfolding create
create-IsStored t s ls key h =
    let (v, d, f) = >>=-eq-ok (normalize_trigger_id t) _ h in
    let (sha, e, g) = >>=-eq-ok (normalize_source_sha s) _ f in
    let (lens, k, i) = >>=-eq-ok (normalize_lenses ls) _ g in
    rw (key_inj i) (
      token-normalize_trigger_id t d,
      normalize_source_sha_idempotent s sha e,
      normalize_lenses-IsLensSet ls lens k,
    )
