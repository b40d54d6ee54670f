-- ===== src/OneShot/Kept.antt =====
-- `.agents/scripts/one_shot_gate.py`: what holds of an outcome that was checked, and is kept by `execute`.
use ring_lang.Common.{
  ◌≡◌, refl, ap, ◌∙◌, Bool, true, false, not, Option, none, some, if◌then◌else◌, Text, codes,
  text_eq, text_eq_iff, arith, ok, err, >>=-eq-ok, raise_if-eq-ok, not-eq-false,
}
use mathlib.Core.Path.{subst}
use ring_lang.Common.Json.{Json, str, Members, member, no_members, get_member, get_member?, is_str}
use ring_lang.OneShot.Values.{Checked, strict_keys, int_of, is_object}
use ring_lang.OneShot.Receipts.{Limits}
use ring_lang.OneShot.Outcome.{
  validate_adapter_outcome, check_adapter, check_ending, validate_streams, json_safe, members_in,
  outcome_keys,
}
use ring_lang.OneShot.Spec.{OneShotSpec}
use ring_lang.OneShot.Inversion.{ok-eq, checked-ok}
use ring_lang.OneShot.Execute.{Folder, verify_raw_identity, verify_tool_identity}
use ring_lang.OneShot.Run.{
  check_outcome, put_member, infrastructure_key, note_tool, check_tool, Surroundings,
}
use ring_lang.OneShot.Ending.{Ending, Ending-check, check_ending-Ending, only}

-- The parts of an outcome that a verdict takes over are valid.
pub record IsGood (limits : Limits) (outcome : Members) : Type 0 where
  pub streams : Members
  pub adapter_valid : check_adapter outcome ≡ ok tt
  pub ending_valid : check_ending outcome ≡ ok tt
  pub measured : json_safe (get_member (codes "measurements") outcome) ≡ true
  pub streams_valid :
      validate_streams
        (get_member (codes "streams") outcome)
        (int_of limits.stdout_cap_bytes)
        (int_of limits.stderr_cap_bytes)
      ≡ ok streams

validate_adapter_outcome-IsGood :
    (value : Json) (limits : Limits) {outcome : Members}
    → validate_adapter_outcome value limits ≡ ok outcome
    → IsGood limits outcome
unfolding validate_adapter_outcome
validate_adapter_outcome-IsGood value limits h =
    let (found, keys, h1) = >>=-eq-ok (strict_keys value outcome_keys) _ h in
    let (a, adapter, h2) = >>=-eq-ok (check_adapter found) _ h1 in
    let (stage, h3) =
      raise_if-eq-ok (not (is_str (codes "child-sealed") (get_member (codes "stage") found))) _ _
        h2 in
    let (b, ending, h4) = >>=-eq-ok (check_ending found) _ h3 in
    let (c, h5) =
      raise_if-eq-ok (not (is_object (get_member (codes "measurements") found))) _ _ h4 in
    let (streams, valid, h6) =
      >>=-eq-ok
        (validate_streams (get_member (codes "streams") found) (int_of limits.stdout_cap_bytes)
          (int_of limits.stderr_cap_bytes))
        _ h5 in
    let (d, h7) = raise_if-eq-ok _ _ _ h6 in
    let (safe, h8) =
      raise_if-eq-ok (not (json_safe (get_member (codes "measurements") found))) _ _ h7 in
    subst (λ (o : Members). IsGood limits o) (ok-eq h8)
      (record {
        streams = streams;
        adapter_valid = only a adapter;
        ending_valid = only b ending;
        measured = not-eq-false _ safe;
        streams_valid = valid;
      })

get_member?-put :
    (key name : Text) (value : Json) (ms : Members)
    → get_member? key (put_member name value ms)
      ≡ (if text_eq key name then some value else get_member? key ms)
unfolding get_member? put_member
get_member?-put key name value no_members = refl
get_member?-put key name value (member other x ms) = ground (
  arith,
  get_member?-put key name value ms,
  text_eq_iff name other,
  text_eq_iff key other,
  text_eq_iff key name,
)

-- The error of the infrastructure is no part of the other members.
other :
    (key : Text) (value : Json) (ms : Members)
    → text_eq key infrastructure_key ≡ false
    → get_member? key (put_member infrastructure_key value ms) ≡ get_member? key ms
other key value ms h =
    get_member?-put key infrastructure_key value ms
    ∙ ap (λ (b : Bool). if b then some value else get_member? key ms) h

module _ (text : Text) (ms : Members) where
  abbrev noted : Members
  noted = put_member infrastructure_key (str text) ms

  kept :
      (key : Text)
      → text_eq key infrastructure_key ≡ false
      → get_member? key (put_member infrastructure_key (str text) ms) ≡ get_member? key ms
  kept key h = other key (str text) ms h

  put-adapter :
      check_adapter ms ≡ ok tt → check_adapter (put_member infrastructure_key (str text) ms) ≡ ok tt
  unfolding check_adapter get_member text_eq
  put-adapter h = rw (kept (codes "adapter") refl, kept (codes "support") refl) h

  put-Ending : Ending ms → Ending (put_member infrastructure_key (str text) ms)
  unfolding get_member text_eq
  put-Ending e = record {
    exit_code = rw (kept (codes "exit_code") refl) e.exit_code;
    timed_out = rw (kept (codes "timed_out") refl) e.timed_out;
    memory_limit_hit = rw (kept (codes "memory_limit_hit") refl) e.memory_limit_hit;
    process_limit_hit = rw (kept (codes "process_limit_hit") refl) e.process_limit_hit;
    output_limit_hit = rw (kept (codes "output_limit_hit") refl) e.output_limit_hit;
    launch_error = rw (kept (codes "launch_error") refl) e.launch_error;
    pipe_error = rw (kept (codes "pipe_error") refl) e.pipe_error;
    thread_error = rw (kept (codes "thread_error") refl) e.thread_error;
    infrastructure_error = rw (get_member?-put infrastructure_key infrastructure_key (str text) ms);
  }

  pub put-IsGood :
      (limits : Limits)
      → IsGood limits ms
      → IsGood limits (put_member infrastructure_key (str text) ms)
  unfolding get_member text_eq
  put-IsGood limits g = record {
    streams = g.streams;
    adapter_valid = put-adapter g.adapter_valid;
    ending_valid =
        Ending-check (put_member infrastructure_key (str text) ms)
          (put-Ending (check_ending-Ending ms g.ending_valid));
    measured = rw (kept (codes "measurements") refl) g.measured;
    streams_valid = rw (kept (codes "streams") refl) g.streams_valid;
  }

if_IsGood :
    (b : Bool) (limits : Limits) (x y : Members)
    → IsGood limits x
    → IsGood limits y
    → IsGood limits (if b then x else y)
if_IsGood true limits x y g k = g
if_IsGood false limits x y g k = k

noted-IsGood :
    (world : Surroundings) (exn : Option Text) (outcome : Members) (limits : Limits)
    (result : Checked (Unit {0}))
    → IsGood limits outcome
    → IsGood limits (note_tool world exn outcome result)
unfolding note_tool
noted-IsGood world none outcome limits (ok done) g = g
noted-IsGood world (some text) outcome limits (ok done) g =
    if_IsGood _ limits (put_member infrastructure_key (str text) outcome) outcome
      (put-IsGood text outcome limits g) g
noted-IsGood world none outcome limits (err failure) g = put-IsGood _ outcome limits g
noted-IsGood world (some text) outcome limits (err failure) g = put-IsGood _ outcome limits g

pub check_tool-IsGood :
    (world : Surroundings) (attempt : Members) (exn : Option Text) (outcome : Members)
    (limits : Limits)
    → IsGood limits outcome
    → IsGood limits (check_tool world attempt exn outcome)
unfolding check_tool
check_tool-IsGood world attempt exn outcome limits g =
    noted-IsGood world exn outcome limits
      (verify_tool_identity world.tool (members_in (get_member (codes "execution") attempt))) g

pub check_outcome-IsGood :
    (spec : OneShotSpec) (value : Json) (root : Folder) {outcome : Members}
    → check_outcome spec value root ≡ ok outcome
    → IsGood spec.limits outcome
unfolding check_outcome
check_outcome-IsGood spec value root h =
    let (found, valid, h1) = >>=-eq-ok (validate_adapter_outcome value spec.limits) _ h in
    let (done, same) =
      checked-ok (verify_raw_identity root (members_in (get_member (codes "streams") found))) found
        h1 in
    subst (λ (o : Members). IsGood spec.limits o) same
      (validate_adapter_outcome-IsGood value spec.limits valid)
