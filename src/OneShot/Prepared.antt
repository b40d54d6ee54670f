-- ===== src/OneShot/Prepared.antt =====
-- `.agents/scripts/one_shot_gate.py`: `prepare_attempt` never refuses the attempt of a request that it accepted.
use mathlib.Core.Path.{subst}
use ring_lang.Common.{
  ◌≡◌, refl, ap, sym, ◌∙◌, Bool, true, false, not, ◌||◌, List, Option, none, some, Text, codes,
  text_eq, any, all, mem_text, is_empty, ok, ◌>>=◌, >>=-eq-ok, raise_if-eq-ok,
}
use ring_lang.Common.Int.{ℤ, pos, ltb_ℤ}
use ring_lang.Common.Json.{Json, Members, member, no_members, get_member, get_member?, is_str}
use ring_lang.Common.Regex.{fullmatch}
use ring_lang.OneShot.Values.{
  Checked, strict_keys, same_names, names_of, is_number, gate_id_re, attempt_id_re, hex_64_re,
  upper,
}
use ring_lang.OneShot.Receipts.{
  AttemptChain, chain_receipt, chain_value, validate_chain_receipt, validate_limits,
  validate_limits_receipt, limits_receipt, validate_platform_support,
}
use ring_lang.OneShot.Execution.{
  validate_attempt, validate_attempt_as, check_attempt, validate_execution_receipt,
}
use ring_lang.OneShot.Outcome.{members_in}
use ring_lang.OneShot.Spec.{
  OneShotSpec, prepare_attempt, validate_spec, check_request, check_environment, check_spec_chain,
  attempt_record, attempt_value, chain_member, is_chained, is_given, execution_value, is_nil,
}
use ring_lang.OneShot.Accepted.{KeepsPositive, limits_receipt-valid}
use ring_lang.OneShot.Inversion.{ok-eq}
use ring_lang.OneShot.Requests.{
  exit_codes-valid, check_request-Request, execution_value-valid, only,
}

pub chain_receipt-valid :
    (chain : AttemptChain) {receipt : Json}
    → chain_receipt chain ≡ ok receipt
    → (checked : Members) × (validate_chain_receipt receipt ≡ ok checked)
unfolding chain_receipt
chain_receipt-valid chain h =
    let (checked, valid, same) = >>=-eq-ok (validate_chain_receipt (chain_value chain)) _ h in
    (checked, subst (λ (v : Json). validate_chain_receipt v ≡ ok checked) (ok-eq same) valid)

-- The parts of an attempt are valid.
record Parts (attempt_id gate_id : Text) (created : ℤ) (execution limits : Json)
    (success_codes : List ℤ) : Type 0 where
  pub executed : Members
  pub limited : Members
  pub identified : fullmatch attempt_id_re attempt_id ≡ true
  pub named : fullmatch gate_id_re gate_id ≡ true
  pub dated : ltb_ℤ (pos 0) created ≡ true
  pub execution_valid : validate_execution_receipt execution ≡ ok executed
  pub limits_valid : validate_limits_receipt limits ≡ ok limited
  pub coded : is_nil success_codes ≡ false

module _ (attempt_id gate_id : Text) (created : ℤ) (execution limits : Json)
    (success_codes : List ℤ)
    (parts : Parts attempt_id gate_id created execution limits success_codes) where
  plain-valid :
      validate_attempt
        (attempt_value false attempt_id gate_id created execution limits success_codes no_members)
      ≡ ok (
          members_in (
            attempt_value false attempt_id gate_id created execution limits success_codes
              no_members))
  unfolding validate_attempt validate_attempt_as check_attempt attempt_value strict_keys same_names
      names_of any all mem_text text_eq get_member get_member? is_str is_number
  plain-valid = rw (
    parts.identified,
    parts.named,
    parts.dated,
    parts.execution_valid,
    parts.limits_valid,
    exit_codes-valid success_codes parts.coded,
  )

  chained-valid :
      (receipt : Json) {checked : Members}
      → validate_chain_receipt receipt ≡ ok checked
      → validate_attempt (
          attempt_value true attempt_id gate_id created execution limits success_codes
            (member (codes "chain") receipt no_members))
        ≡ ok (
            members_in (
              attempt_value true attempt_id gate_id created execution limits success_codes
                (member (codes "chain") receipt no_members)))
  unfolding validate_attempt validate_attempt_as check_attempt attempt_value strict_keys same_names
      names_of any all mem_text text_eq get_member get_member? is_str is_number
  chained-valid receipt h = rw (
    parts.identified,
    parts.named,
    parts.dated,
    parts.execution_valid,
    parts.limits_valid,
    exit_codes-valid success_codes parts.coded,
    h,
  )

  -- With the chain that a spec asks for.
  given-valid :
      (chain : Option AttemptChain)
      → check_spec_chain chain ≡ ok tt
      → (added : Members) × (chain_member chain ≡ ok added)
        × (validate_attempt (
              attempt_value
                (is_given chain)
                attempt_id
                gate_id
                created
                execution
                limits
                success_codes
                added)
            ≡ ok (
                members_in (
                  attempt_value
                    (is_given chain)
                    attempt_id
                    gate_id
                    created
                    execution
                    limits
                    success_codes
                    added)))
  unfolding chain_member
  given-valid none h = (no_members, refl, plain-valid)
  given-valid (some chain) h =
      let (receipt, made, done) = >>=-eq-ok (chain_receipt chain) _ h in
      let (checked, valid) = chain_receipt-valid chain made in
      (
        member (codes "chain") receipt no_members,
        ap (λ (r : Checked Json). r >>= (λ (x : Json). ok (member (codes "chain") x no_members)))
            made,
        chained-valid receipt valid,
      )

-- The tests of `_validate_spec`, in their order.
accepted :
    (is_windows : Bool) (spec : OneShotSpec) {execution : Json}
    → validate_spec is_windows spec ≡ ok execution
    → (validate_limits spec.limits ≡ ok tt)
      × (check_request spec ≡ ok tt)
      × (check_spec_chain spec.chain ≡ ok tt)
      × (check_environment spec ≡ ok tt)
      × (execution ≡ execution_value spec)
unfolding validate_spec
accepted is_windows spec h =
    let (limits, a, h1) = >>=-eq-ok (validate_limits spec.limits) _ h in
    let (platform, b, h2) = >>=-eq-ok (validate_platform_support is_windows spec.limits) _ h1 in
    let (request, c, h3) = >>=-eq-ok (check_request spec) _ h2 in
    let (chain, d, h4) = >>=-eq-ok (check_spec_chain spec.chain) _ h3 in
    let (env, e, h5) = >>=-eq-ok (check_environment spec) _ h4 in
    let (tool, h6) =
      raise_if-eq-ok (not spec.tool.is_absolute || spec.tool.is_symlink || not spec.tool.is_file) _
        _ h5 in
    (a ∙ only limits, c ∙ only request, d ∙ only chain, e ∙ only env, sym (ok-eq h6))

-- `prepare_attempt` returns the attempt of a request.
abbrev pub Prepares : (ℤ → Text) → Bool → Text → ℤ → OneShotSpec → Type 0
Prepares float_of is_windows hex created spec =
    (attempt : Members) × (prepare_attempt float_of is_windows hex created spec
      ≡ ok (record { spec = spec; attempt = attempt; executed = false }))

-- Where `_validate_spec` accepts a request, `prepare_attempt` returns its attempt, which has not run:
-- `_validate_attempt` refuses nothing that was accepted. That holds where the paths of the tool and of the
-- working directory have a text, the tool's hash and the random token are hexadecimal, the clock is
-- positive, and the float of a positive integer prints as a positive and finite one.
pub prepare_attempt-accepted :
    (float_of : ℤ → Text) (is_windows : Bool) (hex : Text) (created : ℤ) (spec : OneShotSpec)
    {execution : Json}
    → KeepsPositive float_of
    → fullmatch attempt_id_re (upper hex) ≡ true
    → ltb_ℤ (pos 0) created ≡ true
    → is_empty spec.tool.text ≡ false
    → is_empty spec.cwd.text ≡ false
    → fullmatch hex_64_re spec.tool.sha256 ≡ true
    → validate_spec is_windows spec ≡ ok execution
    → Prepares float_of is_windows hex created spec
unfolding prepare_attempt attempt_record
prepare_attempt-accepted float_of is_windows hex created spec keep id dated tool cwd sha h =
    let (limits, request, chain, env, value) = accepted is_windows spec h in
    let passed = check_request-Request spec request in
    let run = execution_value-valid spec passed tool cwd sha env in
    let parts : Parts (upper hex) spec.gate_id created (execution_value spec)
        (limits_receipt float_of spec.limits) spec.success_exit_codes =
      record {
        executed = members_in (execution_value spec);
        limited = members_in (limits_receipt float_of spec.limits);
        identified = id;
        named = passed.named;
        dated = dated;
        execution_valid = run;
        limits_valid = limits_receipt-valid float_of spec.limits keep limits;
        coded = passed.coded;
      } in
    let (added, given, valid) =
      given-valid (upper hex) spec.gate_id created (execution_value spec)
        (limits_receipt float_of spec.limits) spec.success_exit_codes parts spec.chain chain in
    (
      members_in (
          attempt_value (is_chained spec) (upper hex) spec.gate_id created (execution_value spec)
            (limits_receipt float_of spec.limits) spec.success_exit_codes added),
      rw (h ∙ ap ok value, given, valid),
    )
