-- ===== src/OneShot/Tests.antt =====
-- Tests of the one-shot gate, and the theorems at concrete inputs.
use ring_lang.OneShot.Verdict.{validate_verdict}
use ring_lang.OneShot.Execution.{validate_attempt}
use ring_lang.Common.{
  ℕ, ◌≡◌, refl, Bool, true, false, List, [], ◌∷◌, none, some, ok, err, Text, codes, arith, has,
  starts_with, text_eq, any,
}
use ring_lang.Common.Int.{ℤ, pos}
use ring_lang.Common.Json.{Json, null, bool, int, str, object, Members, no_members, member, is_str}
use ring_lang.Common.Regex.{fullmatch}
use ring_lang.OneShot.Values.{
  Checked, hex_64_re, is_number, gate_id_re, env_name_re, attempt_id_re, upper,
}
use ring_lang.OneShot.Receipts.{Limits}
use ring_lang.OneShot.Execute.{Folder, absent, regular, unknown_support}
use ring_lang.OneShot.Run.{Surroundings, execute, returned, raised, run_attempt}
use ring_lang.OneShot.Audit.{audit_attempt, pair_errors}
use ring_lang.OneShot.Evidence.{Evidence, stored, complete}
use ring_lang.OneShot.Bounds.{IsPrefix, validate_stream_record-IsPrefix}
use ring_lang.OneShot.Audited.{HasRun, execute-claims}
use ring_lang.OneShot.Fallback.{Caps}
use ring_lang.OneShot.Sealing.{IsSealable}
use ring_lang.OneShot.Ends.{EndsWithVerdict, execute-ends}
use ring_lang.OneShot.Success.{ProvesSuccess, audit_attempt-success}
use ring_lang.OneShot.Streams.{
  Write, validate_stream_record, stream_value, stdout_name, stderr_name,
}
use ring_lang.OneShot.Sealed.{EndsSealed, consume_all-sealed}
use ring_lang.OneShot.Spec.{FilePath, OneShotSpec, validate_spec, prepare_attempt, PreparedAttempt}
use ring_lang.OneShot.Accepted.{KeepsPositive}
use ring_lang.OneShot.Prepared.{Prepares, prepare_attempt-accepted}

abbrev pub hash : Text
hash = codes "aaaaaaaaaaaaaaaaaaaaaaaaaaaaaaaaaaaaaaaaaaaaaaaaaaaaaaaaaaaaaaaa"

abbrev sha256 : List ℕ → Text
sha256 bytes = hash

hash-hex : fullmatch hex_64_re hash ≡ true
unfolding fullmatch hex_64_re
hash-hex = refl

abbrev one_byte : Write
one_byte [] = 0
one_byte (b ∷ bs) = 1

-- A stream of five bytes in two chunks, with a cap of three.
consume_all-sealed_example :
    EndsSealed one_byte sha256 stdout_name 3 ((1 ∷ 2 ∷ []) ∷ (3 ∷ 4 ∷ 5 ∷ []) ∷ [])
consume_all-sealed_example =
    consume_all-sealed one_byte sha256 stdout_name 3 ((1 ∷ 2 ∷ []) ∷ (3 ∷ 4 ∷ 5 ∷ []) ∷ [])
      (λ b bs. omega arith) (λ bytes. hash-hex)

abbrev folder_path : FilePath
folder_path = record {
  text = codes "/w";
  is_absolute = true;
  is_dir = true;
  is_file = false;
  is_symlink = false;
  size = 0;
  sha256 = hash;
}

abbrev tool_path : FilePath
tool_path = record folder_path { text = codes "/bin/t"; is_dir = false; is_file = true; size = 7 }

abbrev limits : Limits
limits = record {
  wall_seconds = int (pos 5);
  stdout_cap_bytes = int (pos 3);
  stderr_cap_bytes = int (pos 3);
  job_memory_bytes = null;
  active_process_limit = null;
  poll_ms = int (pos 10);
}

abbrev pub request : OneShotSpec
request = record {
  evidence_dir = folder_path;
  inventory = [];
  gate_id = codes "gate-1";
  argv = codes "/bin/t" ∷ codes "x" ∷ [];
  reviewed_argv = codes "/bin/t" ∷ codes "x" ∷ [];
  tool = tool_path;
  cwd = folder_path;
  env = (codes "PATH", codes "/bin") ∷ (codes "LANG", codes "C") ∷ [];
  reviewed_env = (codes "LANG", codes "C") ∷ (codes "PATH", codes "/bin") ∷ [];
  limits = limits;
  success_exit_codes = pos 0 ∷ [];
  chain = none;
}

-- What prints every positive float as 1.0
abbrev pub float_of : ℤ → Text
float_of n = codes "1.0"

keeps : KeepsPositive float_of
unfolding text_eq starts_with
keeps n h k = refl

abbrev execution_of : Checked Json → Json
execution_of (ok x) = x
execution_of (err e) = null

request-accepted : validate_spec false request ≡ ok (execution_of (validate_spec false request))
unfolding validate_spec is_number gate_id_re has env_name_re
request-accepted = refl

abbrev pub hex_token : Text
hex_token = hash

token-id : fullmatch attempt_id_re (upper hex_token) ≡ true
unfolding fullmatch attempt_id_re upper
token-id = refl

prepare_attempt-accepted_example : Prepares float_of false hex_token (pos 9) request
prepare_attempt-accepted_example =
    prepare_attempt-accepted float_of false hex_token (pos 9) request keeps token-id refl refl refl
      hash-hex request-accepted

abbrev pub attempt_of : Checked PreparedAttempt → PreparedAttempt
attempt_of (ok self) = self
attempt_of (err e) = record { spec = request; attempt = no_members; executed = false }

abbrev prepared : PreparedAttempt
prepared = attempt_of (prepare_attempt float_of false hex_token (pos 9) request)

prepared_ok : prepare_attempt float_of false hex_token (pos 9) request ≡ ok prepared
unfolding prepare_attempt gate_id_re env_name_re attempt_id_re hex_64_re
prepared_ok = refl

-- An adapter whose child printed two bytes and left_folder with 0.
abbrev stdout_record : Json
stdout_record = stream_value stdout_name 2 hash 2 3 false true null

abbrev stderr_record : Json
stderr_record = stream_value stderr_name 0 hash 0 3 false true null

abbrev members_of : Checked Members → Members
members_of (ok ms) = ms
members_of (err e) = no_members

stdout_accepted :
    validate_stream_record stdout_record stdout_name (pos 3)
    ≡ ok (members_of (validate_stream_record stdout_record stdout_name (pos 3)))
unfolding validate_stream_record hex_64_re stream_value any text_eq fullmatch
stdout_accepted = refl

validate_stream_record-IsPrefix_example :
    IsPrefix (pos 3) (members_of (validate_stream_record stdout_record stdout_name (pos 3)))
validate_stream_record-IsPrefix_example =
    validate_stream_record-IsPrefix stdout_record stdout_name (pos 3) stdout_accepted

abbrev outcome : Json
outcome = object (
    member (codes "adapter") (str (codes "a")) (
      member (codes "support") unknown_support (
        member (codes "stage") (str (codes "child-sealed")) (
          member (codes "exit_code") (int (pos 0)) (
            member (codes "timed_out") (bool false) (
              member (codes "memory_limit_hit") (bool false) (
                member (codes "process_limit_hit") (bool false) (
                  member (codes "output_limit_hit") (bool false) (
                    member (codes "launch_error") null (
                      member (codes "pipe_error") null (
                        member (codes "thread_error") null (
                          member (codes "infrastructure_error") null (
                            member (codes "measurements") (object no_members) (
                              member (codes "streams")
                                (object (
                                  member (codes "stdout") stdout_record
                                    (member (codes "stderr") stderr_record no_members)))
                                no_members))))))))))))))

abbrev pub fresh : Folder
fresh = record { stdout = absent; stderr = absent; verdict = none }

abbrev filled : Folder
filled = record { stdout = regular 2 hash true; stderr = regular 0 hash true; verdict = none }

abbrev pub world : Surroundings
world = record {
  adapter = λ root. (filled, returned outcome);
  tool = regular 7 hash true;
  validator = none;
  attempt_sha256 = hash;
  now = pos 12;
  empty_sha256 = hash;
  message = λ e. codes "contract";
}

abbrev pub verdict_of : Checked (Json × Folder) → Json
verdict_of (ok p) = p.0
verdict_of (err e) = null

abbrev verdict : Json
verdict = verdict_of (execute world prepared fresh).1

abbrev left_folder : Folder
left_folder = record filled { verdict = some verdict }

executed_ok : (execute world prepared fresh).1 ≡ ok (verdict, left_folder)
unfolding execute prepare_attempt gate_id_re env_name_re attempt_id_re hex_64_re run_attempt
executed_ok = refl

execute-claims_example : HasRun world prepared fresh verdict left_folder
execute-claims_example =
    execute-claims float_of false hex_token (pos 9) request world fresh prepared_ok executed_ok

-- The directory that this run leaves.
abbrev evidence : Evidence
evidence = record {
  attempt = stored (ok (object prepared.attempt)) hash;
  verdict = stored (ok verdict) hash;
  stdout = regular 2 hash true;
  stderr = regular 0 hash true;
  inventory =
      codes "verdict.json" ∷ codes "attempt.json" ∷ codes "stdout.raw" ∷ codes "stderr.raw" ∷ [];
}

abbrev pub float_is : Text → ℤ → Bool
float_is s n = false

audited_complete : (audit_attempt float_is evidence).state ≡ complete
unfolding audit_attempt validate_attempt prepare_attempt gate_id_re env_name_re attempt_id_re
    hex_64_re validate_verdict execute run_attempt pair_errors
audited_complete = refl

audited_success : is_str (codes "success") (audit_attempt float_is evidence).status ≡ true
unfolding audit_attempt is_str validate_attempt prepare_attempt gate_id_re env_name_re attempt_id_re
    hex_64_re validate_verdict execute run_attempt pair_errors
audited_success = refl

audit_attempt-success_example : ProvesSuccess evidence
audit_attempt-success_example =
    audit_attempt-success float_is evidence audited_complete audited_success

-- An adapter that raises after it wrote two bytes.
abbrev failing : Surroundings
failing = record world { adapter = λ root. (filled, raised (codes "OSError: no process")) }

abbrev caps : Caps request.limits
caps = record { out = 3; errs = 3; out_is = refl; errs_is = refl }

filled-IsSealable : IsSealable request.limits caps filled
filled-IsSealable = record {
  unjudged = refl;
  stdout_flushed = (omega arith, hash-hex, refl);
  stderr_flushed = (omega arith, hash-hex, refl);
}

execute-ends_example : EndsWithVerdict failing prepared fresh
execute-ends_example =
    execute-ends float_of false hex_token (pos 9) request failing fresh prepared caps prepared_ok
      refl refl refl filled-IsSealable hash-hex hash-hex
