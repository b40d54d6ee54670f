-- ===== src/IdentityLedger/Codec/Chars.antt =====
-- The characters of a written ledger: no line of it holds a line break.
use ring_lang.Common.{
  ℕ, ◌+◌, Bool, true, false, not, ◌&&◌, ◌||◌, List, [], ◌∷◌, ◌≡◌, refl, arith, ◌==◌, Text, codes,
  all, all-append, All, all-All, has,
}
use ring_lang.Common.Int.{ℤ, pos, negsuc}
use ring_lang.Common.Decimal.{str_int, decimal, Digits, Digits-decimal, Digits-free}
use ring_lang.Common.Utf8.{is_scalar, IsScalarText}
use ring_lang.Common.Lines.{is_break, HasNoBreak, unlines, all-join}
use ring_lang.IdentityLedger.Event.{IdentityLedgerEvent}
use ring_lang.IdentityLedger.Escape.{ledger_escape}
use ring_lang.IdentityLedger.Escape.Canonical.{escape_char, escape-cons}
use ring_lang.IdentityLedger.Codec.{header, event_fields, event_line}

-- A character that a line may hold.
abbrev pub is_clean : ℕ → Bool
is_clean c = is_scalar c && not (is_break c)

-- A character that a field may hold: of the line breaks, those that the escape replaces.
abbrev pub is_writable : ℕ → Bool
is_writable c = is_scalar c && (not (is_break c) || (c == b'\n' || c == b'\r'))

abbrev pub IsClean : Text → Type 0
IsClean s = all is_clean s ≡ true

IsClean-escape_char : (c : ℕ) → is_writable c ≡ true → IsClean (escape_char c)
unfolding all is_break
IsClean-escape_char c h = ground arith

IsClean-escape : (v : Text) → all is_writable v ≡ true → IsClean (ledger_escape v)
IsClean-escape [] h = unfold all ledger_escape in refl
IsClean-escape (c ∷ v) h =
    let parts : (is_writable c ≡ true) × (all is_writable v ≡ true) = unfold all in ground arith in
    rw
      (
        escape-cons c v,
        all-append is_clean (escape_char c) (ledger_escape v),
        IsClean-escape_char c parts.0,
      )
      (IsClean-escape v parts.1)

IsClean-Digits : (s : Text) → Digits s → IsClean s
unfolding all is_break
IsClean-Digits [] h = refl
IsClean-Digits (c ∷ s) h = ground (arith, IsClean-Digits s h.2)

IsClean-str_int : (z : ℤ) → IsClean (str_int z)
unfolding str_int
IsClean-str_int (pos n) = IsClean-Digits (decimal n) (Digits-decimal n)
IsClean-str_int (negsuc n) =
    unfold all is_break in IsClean-Digits (decimal (n + 1)) (Digits-decimal (n + 1))

-- The fields of an event hold no surrogates, and no line breaks but `\n` and `\r`.
pub record IsWritable (e : IdentityLedgerEvent) : Type 0 where
  pub kind : all is_writable e.kind ≡ true
  pub parent_frame : all is_writable e.parent_frame ≡ true
  pub child_frame : all is_writable e.child_frame ≡ true
  pub domain : all is_writable e.domain ≡ true
  pub canonical_key : all is_writable e.canonical_key ≡ true
  pub producer : all is_writable e.producer ≡ true
  pub source_slot : all is_writable e.source_slot ≡ true
  pub dest_slot : all is_writable e.dest_slot ≡ true

IsClean-tag : IsClean (codes "E")
unfolding all is_break
IsClean-tag = refl

pub IsClean-event_line : (e : IdentityLedgerEvent) → IsWritable e → IsClean (event_line e)
unfolding event_line
IsClean-event_line e w =
    all-join is_clean (b'|' ∷ []) (event_fields e) (unfold all is_break in refl) (
      IsClean-tag,
      (
        IsClean-str_int e.event_id,
        (
          IsClean-escape e.kind w.kind,
          (
            IsClean-str_int e.edge_id,
            (
              IsClean-str_int e.load_id,
              (
                IsClean-escape e.parent_frame w.parent_frame,
                (
                  IsClean-escape e.child_frame w.child_frame,
                  (
                    IsClean-escape e.domain w.domain,
                    (
                      IsClean-str_int e.def_id,
                      (
                        IsClean-escape e.canonical_key w.canonical_key,
                        (
                          IsClean-escape e.producer w.producer,
                          (
                            IsClean-escape e.source_slot w.source_slot,
                            (
                              IsClean-escape e.dest_slot w.dest_slot,
                              (IsClean-str_int e.index, (IsClean-str_int e.arity, tt)),
                            ),
                          ),
                        ),
                      ),
                    ),
                  ),
                ),
              ),
            ),
          ),
        ),
      ),
    )

pub IsClean-header : IsClean header
unfolding all is_break
IsClean-header = refl

-- What clean texts have.
pub clean-HasNoBreak : (s : Text) → IsClean s → HasNoBreak s
unfolding all
clean-HasNoBreak [] h = refl
clean-HasNoBreak (c ∷ s) h =
    let parts : (is_clean c ≡ true) × (all is_clean s ≡ true) = ground arith in
    ground (arith, clean-HasNoBreak s parts.1)

clean-scalar : (s : Text) → IsClean s → all is_scalar s ≡ true
unfolding all
clean-scalar [] h = refl
clean-scalar (c ∷ s) h =
    let parts : (is_clean c ≡ true) × (all is_clean s ≡ true) = ground arith in
    ground (arith, clean-scalar s parts.1)

scalar_newline : (s : Text) → all is_scalar (b'\n' ∷ s) ≡ all is_scalar s
unfolding all
scalar_newline s = refl

scalar-unlines : (ls : List Text) → All IsClean ls → all is_scalar (unlines ls) ≡ true
scalar-unlines [] h = unfold all in refl
scalar-unlines (l ∷ ls) h =
    rw (all-append is_scalar l (b'\n' ∷ unlines ls), clean-scalar l h.0, scalar_newline)
      (scalar-unlines ls h.1)

pub unlines-IsScalarText : (ls : List Text) → All IsClean ls → IsScalarText (unlines ls)
unlines-IsScalarText ls h = all-All is_scalar (unlines ls) (scalar-unlines ls h)

-- No number holds a separator.
pub str_int-has : (z : ℤ) → has b'|' (str_int z) ≡ false
unfolding str_int
str_int-has (pos n) = Digits-free b'|' (decimal n) refl (Digits-decimal n)
str_int-has (negsuc n) =
    unfold has in Digits-free b'|' (decimal (n + 1)) refl (Digits-decimal (n + 1))
