-- ===== src/OneShot/Sealing.antt =====
-- `.agents/scripts/one_shot_gate.py`: whatever the adapter does, an outcome is sealed.
use mathlib.Core.Path.{subst}
use ring_lang.Common.{
  ◌≡◌, refl, sym, Bool, true, ◌||◌, ◌++◌, Option, none, some, Text, codes, text_eq, ok, err,
}
use ring_lang.Common.Json.{Json, bool, str, Members, get_member, get_member?}
use ring_lang.Common.Regex.{fullmatch}
use ring_lang.OneShot.Values.{Checked, hex_64_re}
use ring_lang.OneShot.Receipts.{Limits}
use ring_lang.OneShot.Streams.{stdout_name, stderr_name}
use ring_lang.OneShot.Outcome.{get_inner, members_in}
use ring_lang.OneShot.Spec.{OneShotSpec}
use ring_lang.OneShot.Execute.{
  Entry, Folder, existing_stream, existing_outcome, outcome_from_existing_raw, verify_raw_identity,
  size_of,
}
use ring_lang.OneShot.Run.{
  check_outcome, call_adapter, after_adapter, seal_checked, seal_outcome, Surroundings, Adapted,
  returned, adapter_error, raised, Called, Sealed,
}
use ring_lang.OneShot.Fallback.{IsFlushed, Made, Caps, existing_stream-Made, existing_outcome-valid}

-- A directory after the adapter: no verdict, and raw files that can be sealed.
pub record IsSealable (limits : Limits) (caps : Caps limits) (root : Folder) : Type 0 where
  pub unjudged : root.verdict ≡ none
  pub stdout_flushed : IsFlushed caps.out root.stdout
  pub stderr_flushed : IsFlushed caps.errs root.stderr

module _ (spec : OneShotSpec) (caps : Caps spec.limits) (empty_sha256 : Text)
    (hex : fullmatch hex_64_re empty_sha256 ≡ true) where
  found :
      (error : Text) (root : Folder) (out outs : Json) (first second : Entry) (hit hits : Bool)
      → existing_stream empty_sha256 stdout_name caps.out (str error) root.stdout ≡ ok (out, first)
      → existing_stream empty_sha256 stderr_name caps.errs (str error) root.stderr
        ≡ ok (outs, second)
      → get_member (codes "truncated_at_cap") (members_in out) ≡ bool hit
      → get_member (codes "truncated_at_cap") (members_in outs) ≡ bool hits
      → outcome_from_existing_raw empty_sha256 spec.limits (str error) root
        ≡ ok (
          existing_outcome (str error) out outs (hit || hits),
          record root { stdout = first; stderr = second },
        )
  unfolding outcome_from_existing_raw
  found error root out outs first second hit hits e f t u =
      let e' : existing_stream empty_sha256 stdout_name (size_of spec.limits.stdout_cap_bytes)
            (str error) root.stdout
          ≡ ok (out, first) =
        subst
          (λ (k : Json).
            existing_stream empty_sha256 stdout_name (size_of k) (str error) root.stdout
            ≡ ok (out, first))
          (sym caps.out_is) e in
      let f' : existing_stream empty_sha256 stderr_name (size_of spec.limits.stderr_cap_bytes)
            (str error) root.stderr
          ≡ ok (outs, second) =
        subst
          (λ (k : Json).
            existing_stream empty_sha256 stderr_name (size_of k) (str error) root.stderr
            ≡ ok (outs, second))
          (sym caps.errs_is) f in
      rw (e', f', t, u)

  checks :
      (error : Text) (root : Folder) (out outs : Json)
      (m : Made stdout_name caps.out out root.stdout)
      (n : Made stderr_name caps.errs outs root.stderr)
      → check_outcome spec (existing_outcome (str error) out outs (m.hit || n.hit)) root
        ≡ ok (members_in (existing_outcome (str error) out outs (m.hit || n.hit)))
  unfolding check_outcome verify_raw_identity get_inner existing_outcome get_member get_member?
      text_eq
  checks error root out outs m n = rw (
    existing_outcome-valid spec.limits error out outs root.stdout root.stderr caps m n,
    m.verified,
    n.verified,
  )

  -- The outcome of the files is valid, and describes them.
  fallback :
      (error : Text) (root : Folder)
      → IsSealable spec.limits caps root
      → (outcome : Json) × (after : Folder) × (checked : Members) × (outcome_from_existing_raw
            empty_sha256 spec.limits
            (str error)
            root
          ≡ ok (outcome, after))
        × (check_outcome spec outcome after ≡ ok checked)
        × IsSealable spec.limits caps after
  fallback error root s =
      let (out, first, e, m) =
        existing_stream-Made empty_sha256 stdout_name error caps.out root.stdout hex
          s.stdout_flushed in
      let (outs, second, f, n) =
        existing_stream-Made empty_sha256 stderr_name error caps.errs root.stderr hex
          s.stderr_flushed in
      let after : Folder = record root { stdout = first; stderr = second } in
      let outcome = existing_outcome (str error) out outs (m.hit || n.hit) in
      (
        outcome,
        after,
        members_in outcome,
        found error root out outs first second m.hit n.hit e f m.truncated n.truncated,
        checks error after out outs m n,
        record { unjudged = s.unjudged; stdout_flushed = m.kept; stderr_flushed = n.kept },
      )

module _ (world : Surroundings) (spec : OneShotSpec) (caps : Caps spec.limits)
    (hex : fullmatch hex_64_re world.empty_sha256 ≡ true) where
  called :
      (after : Folder) (result : Adapted)
      → IsSealable spec.limits caps after
      → (c : Called) × (after_adapter world spec after result ≡ ok c)
        × IsSealable spec.limits caps c.2
  unfolding after_adapter
  called after (returned outcome) s = (_, refl, s)
  called after (adapter_error text outcome) s = (_, refl, s)
  called after (raised text) s =
      let (outcome, final, checked, e, f, t) =
        fallback spec caps world.empty_sha256 hex text after s in
      ((outcome, some text, final), rw e, t)

  -- An outcome that was checked, with the directory that it describes
  abbrev IsChecked : Sealed → Type 0
  IsChecked sealed =
      (outcome : Json) × (check_outcome spec outcome sealed.2 ≡ ok sealed.0)
      × IsSealable spec.limits caps sealed.2

  sealed_checked :
      (outcome : Json) (exn : Option Text) (root : Folder) (result : Checked Members)
      → check_outcome spec outcome root ≡ result
      → IsSealable spec.limits caps root
      → (sealed : Sealed) × (seal_checked world spec exn root result ≡ ok sealed) × IsChecked sealed
  unfolding seal_checked
  sealed_checked outcome exn root (ok checked) h s = ((checked, exn, root), refl, (outcome, h, s))
  sealed_checked outcome exn root (err failure) h s =
      let text = codes "adapter schema: " ++ world.message failure in
      let (made, final, checked, e, f, t) = fallback spec caps world.empty_sha256 hex text root s in
      ((checked, some text, final), rw (e, f), (made, f, t))

  -- Whatever the adapter returns or raises, the outcome is sealed.
  pub seal_outcome-ok :
      (root : Folder)
      → IsSealable spec.limits caps (world.adapter root).0
      → (c : Called) × (sealed : Sealed) × (call_adapter world spec root ≡ ok c)
        × (seal_outcome world spec c ≡ ok sealed)
        × IsChecked sealed
  unfolding call_adapter seal_outcome
  seal_outcome-ok root s =
      let (c, e, t) = called (world.adapter root).0 (world.adapter root).1 s in
      let (sealed, f, u) = sealed_checked c.0 c.1 c.2 (check_outcome spec c.0 c.2) refl t in
      (c, sealed, e, f, u)
