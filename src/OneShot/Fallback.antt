-- ===== src/OneShot/Fallback.antt =====
-- `.agents/scripts/one_shot_gate.py`: the outcome that is made from the raw files is valid.
use mathlib.Core.Path.{subst}
use ring_lang.Common.{
  ℕ, ◌≤◌, ◌≡◌, refl, sym, Bool, true, false, not, ◌&&◌, ◌||◌, ltb, ◌==◌, if◌then◌else◌, Text, codes,
  text_eq, text_eq_refl, any, all, mem_text, arith, ok,
}
use ring_lang.Common.Int.{pos}
use ring_lang.Common.Json.{
  Json, bool, int, str, object, Members, member, no_members, get_member, get_member?, is_str,
}
use ring_lang.Common.Regex.{fullmatch}
use ring_lang.OneShot.Values.{hex_64_re, strict_keys, same_names, names_of, each, int_of}
use ring_lang.OneShot.Receipts.{Limits}
use ring_lang.OneShot.Streams.{
  stream_value, stdout_name, stderr_name, validate_stream_record, check_sizes, check_truncated,
}
use ring_lang.OneShot.Outcome.{
  validate_adapter_outcome, check_adapter, check_ending, validate_streams, some_truncated,
  get_inner, json_safe, members_in, all_values,
}
use ring_lang.OneShot.Execute.{
  Entry, absent, dangling, irregular, regular, existing_stream, existing_outcome, verify_raw,
}
use ring_lang.OneShot.Sealed.{stream_value-valid}

-- A raw file that is missing, or regular, flushed, within its cap and hashed.
abbrev pub IsFlushed : ℕ → Entry → Type 0
IsFlushed cap_bytes absent = Unit
IsFlushed cap_bytes dangling = ⊥
IsFlushed cap_bytes irregular = ⊥
IsFlushed cap_bytes (regular size sha256 syncs) =
    (size ≤ cap_bytes) × (fullmatch hex_64_re sha256 ≡ true) × (syncs ≡ true)

-- What is known of a stream that is made from its file
pub record Made (name : Text) (cap_bytes : ℕ) (stream : Json) (entry : Entry) : Type 0 where
  pub valid : validate_stream_record stream name (pos cap_bytes) ≡ ok (members_in stream)
  pub flushed : get_member (codes "fsynced") (members_in stream) ≡ bool true
  pub hit : Bool
  pub truncated : get_member (codes "truncated_at_cap") (members_in stream) ≡ bool hit
  pub verified :
      verify_raw entry
        (get_member (codes "captured_size") (members_in stream))
        (get_member (codes "sha256") (members_in stream))
      ≡ ok tt
  pub kept : IsFlushed cap_bytes entry

sizes-same :
    (size cap_bytes : ℕ)
    → size ≤ cap_bytes
    → check_sizes (pos size) (pos size) (pos cap_bytes) (size == cap_bytes && ltb 0 cap_bytes)
      ≡ ok tt
unfolding check_sizes check_truncated
sizes-same size cap_bytes h = ground arith

sizes_empty : (cap_bytes : ℕ) → check_sizes (pos 0) (pos 0) (pos cap_bytes) false ≡ ok tt
unfolding check_sizes
sizes_empty cap_bytes = ground arith

pub existing_stream-Made :
    (empty_sha256 name error : Text) (cap_bytes : ℕ) (entry : Entry)
    → fullmatch hex_64_re empty_sha256 ≡ true
    → IsFlushed cap_bytes entry
    → (stream : Json) × (after : Entry) × (existing_stream empty_sha256 name cap_bytes
          (str error)
          entry
        ≡ ok (stream, after))
      × Made name cap_bytes stream after
unfolding existing_stream stream_value verify_raw get_member get_member? text_eq is_str
existing_stream-Made empty_sha256 name error cap_bytes absent hex h = (
  _,
  _,
  refl,
  record {
    valid =
        stream_value-valid name 0 empty_sha256 0 cap_bytes false true (str error) hex refl
          (sizes_empty cap_bytes);
    flushed = refl;
    hit = false;
    truncated = refl;
    verified = rw (text_eq_refl empty_sha256);
    kept = (omega arith, hex, refl);
  },
)
existing_stream-Made empty_sha256 name error cap_bytes (regular size sha256 true) hex
      (fits, hashed, synced) =
    (
      _,
      _,
      refl,
      record {
        valid =
            stream_value-valid name size sha256 size cap_bytes
              (size == cap_bytes && ltb 0 cap_bytes) true (str error) hashed refl
              (sizes-same size cap_bytes fits);
        flushed = refl;
        hit = size == cap_bytes && ltb 0 cap_bytes;
        truncated = refl;
        verified = ground (arith, text_eq_refl sha256);
        kept = (fits, hashed, refl);
      },
    )
existing_stream-Made empty_sha256 name error cap_bytes (regular size sha256 false) hex
      (fits, hashed, synced) =
    cc
existing_stream-Made empty_sha256 name error cap_bytes dangling hex h = absurd h
existing_stream-Made empty_sha256 name error cap_bytes irregular hex h = absurd h

abbrev pair : Json → Json → Members
pair stdout stderr = member (codes "stdout") stdout (member (codes "stderr") stderr no_members)

streams-valid :
    (c d : ℕ) (out outs : Json) (first second : Entry)
    → Made stdout_name c out first
    → Made stderr_name d outs second
    → validate_streams (object (pair out outs)) (pos c) (pos d) ≡ ok (pair out outs)
unfolding validate_streams strict_keys same_names names_of any all mem_text text_eq get_member
    get_member?
streams-valid c d out outs first second m n = rw (m.valid, n.valid, m.flushed, n.flushed)

-- The caps that valid limits have
pub record Caps (limits : Limits) : Type 0 where
  pub out : ℕ
  pub errs : ℕ
  pub out_is : limits.stdout_cap_bytes ≡ int (pos out)
  pub errs_is : limits.stderr_cap_bytes ≡ int (pos errs)

same_hit : (b : Bool) → (if b then b else not b) ≡ true
same_hit true = refl
same_hit false = refl

pub existing_outcome-valid :
    (limits : Limits) (error : Text) (out outs : Json) (first second : Entry) (caps : Caps limits)
    (m : Made stdout_name caps.out out first) (n : Made stderr_name caps.errs outs second)
    → validate_adapter_outcome (existing_outcome (str error) out outs (m.hit || n.hit)) limits
      ≡ ok (members_in (existing_outcome (str error) out outs (m.hit || n.hit)))
unfolding validate_adapter_outcome existing_outcome strict_keys same_names names_of any all mem_text
    text_eq get_member get_member? check_adapter check_ending each is_str json_safe all_values
    some_truncated get_inner
existing_outcome-valid limits error out outs first second caps m n =
    let valid : validate_streams (object (pair out outs)) (int_of limits.stdout_cap_bytes)
          (int_of limits.stderr_cap_bytes)
        ≡ ok (pair out outs) =
      subst
        (λ (k : Json).
          validate_streams (object (pair out outs)) (int_of k) (int_of limits.stderr_cap_bytes)
          ≡ ok (pair out outs))
        (sym caps.out_is)
        (subst
          (λ (k : Json).
            validate_streams (object (pair out outs)) (pos caps.out) (int_of k)
            ≡ ok (pair out outs))
          (sym caps.errs_is) (streams-valid caps.out caps.errs out outs first second m n)) in
    rw (valid, m.truncated, n.truncated) (rw (same_hit (m.hit || n.hit)))
