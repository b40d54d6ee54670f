-- ===== src/OneShot/Outer/Tests.antt =====
-- Tests of the audit of an outer transaction.
use ring_lang.Common.{true, false, [], ◌∷◌, some, Text, codes, ok}
use ring_lang.Common.Int.{pos}
use ring_lang.Common.Json.{
  Json, null, bool, int, str, array, object, no_items, item, str_items, no_members, member,
}
use ring_lang.OneShot.Values.{Failure, upper}
use ring_lang.OneShot.Execute.{regular}
use ring_lang.OneShot.Run.{execute}
use ring_lang.OneShot.Spec.{OneShotSpec, PreparedAttempt, prepare_attempt}
use ring_lang.OneShot.Streams.{stdout_name, stderr_name}
use ring_lang.OneShot.Audit.{audit_attempt}
use ring_lang.OneShot.Evidence.{Evidence, stored}
use ring_lang.OneShot.Tests.{
  hash, hex_token, request, world, fresh, float_of, float_is, attempt_of, verdict_of,
}
use ring_lang.OneShot.Outer.{Platform, interpreter_flags}
use ring_lang.OneShot.Outer.Audit.{OuterEvidence, outer_file_receipt, audit_value}
use ring_lang.OneShot.Outer.Check.{outer_stdout_name, outer_stderr_name}

abbrev platform : Platform
platform = record { is_absolute = λ s. true; json_sha256 = λ x. hash; float_is = float_is }

abbrev outer_id : Text
outer_id = upper hex_token

abbrev message : Failure → Text
message e = codes "refused"

-- The request of the other tests, in a chain
abbrev chained_request : OneShotSpec
chained_request = record request {
  chain =
      some
        (record { outer_attempt_id = outer_id; outer_attempt_sha256 = hash; plan_sha256 = hash });
}

abbrev chained : PreparedAttempt
chained = attempt_of (prepare_attempt float_of false hex_token (pos 9) chained_request)

abbrev chained_verdict : Json
chained_verdict = verdict_of (execute world chained fresh).1

abbrev inner_evidence : Evidence
inner_evidence = record {
  attempt = stored (ok (object chained.attempt)) hash;
  verdict = stored (ok chained_verdict) hash;
  stdout = regular 2 hash true;
  stderr = regular 0 hash true;
  inventory =
      codes "verdict.json" ∷ codes "attempt.json" ∷ codes "stdout.raw" ∷ codes "stderr.raw" ∷ [];
}

abbrev inner_text : Text
inner_text = codes "/e/inner"

abbrev delivery : Json
delivery = object (
    member (codes "required_interpreter_flags") (array (str_items interpreter_flags)) (
      member (codes "python")
        (object (
          member (codes "path") (str (codes "/p")) (
            member (codes "size") (int (pos 3)) (
              member (codes "sha256") (str hash)
                (member (codes "version") (str (codes "3.12")) no_members)))))
        (member (codes "entry")
          (object (
            member (codes "path") (str (codes "/p")) (
              member (codes "size") (int (pos 3)) (member (codes "sha256") (str hash) no_members))))
          (member (codes "plan")
            (object (
              member (codes "path") (str (codes "/p")) (
                member (codes "size") (int (pos 3))
                  (member (codes "sha256") (str hash) no_members))))
            (member (codes "cwd") (str (codes "/w")) (
              member (codes "env")
                (array (
                  item
                    (object (
                      member (codes "name") (str (codes "LANG"))
                        (member (codes "value") (str (codes "C")) no_members)))
                    no_items))
                (member (codes "env_sha256") (str hash) (
                  member (codes "limits")
                    (object (
                      member (codes "wall_seconds") (int (pos 60))
                        (member (codes "output_cap_bytes") (int (pos 9)) no_members)))
                    no_members))))))))

abbrev observed : Json
observed = object (
    member (codes "python_path") (str (codes "/p")) (
      member (codes "python_version") (str (codes "3.12")) (
        member (codes "python_implementation") (str (codes "cpython")) (
          member (codes "entry_path") (str (codes "/p")) (
            member (codes "isolated") (int (pos 1)) (
              member (codes "no_site") (int (pos 1)) (
                member (codes "dont_write_bytecode") (int (pos 1)) (
                  member (codes "stdout_write_through") (bool true) (
                    member (codes "stderr_write_through") (bool true)
                      (member (codes "argv") (array no_items) no_members))))))))))

abbrev outer_attempt : Json
outer_attempt = object (
    member (codes "schema") (str (codes "ring.one-shot.outer-attempt.v1")) (
      member (codes "contract_version") (int (pos 1)) (
        member (codes "attempt_id") (str outer_id) (
          member (codes "created_unix_ns") (int (pos 8)) (
            member (codes "state") (str (codes "attempt-created")) (
              member (codes "evidence_root") (str (codes "/e")) (
                member (codes "delivery") delivery
                  (member (codes "observed") observed no_members))))))))

abbrev inner_record : Json
inner_record = object (
    member (codes "evidence_dir") (str (codes "inner")) (
      member (codes "attempt") (outer_file_receipt (codes "attempt.json") (regular 20 hash true)) (
        member (codes "verdict") (outer_file_receipt (codes "verdict.json") (regular 30 hash true))
          (member (codes "stdout") (outer_file_receipt stdout_name (regular 2 hash true)) (
            member (codes "stderr") (outer_file_receipt stderr_name (regular 0 hash true)) (
              member (codes "audit")
                (audit_value inner_text message (audit_attempt float_is inner_evidence))
                (member (codes "audit_sha256") (str hash) no_members)))))))

abbrev outer_verdict : Json
outer_verdict = object (
    member (codes "schema") (str (codes "ring.one-shot.outer-verdict.v1")) (
      member (codes "contract_version") (int (pos 1)) (
        member (codes "attempt_id") (str outer_id) (
          member (codes "attempt_sha256") (str hash) (
            member (codes "plan_sha256") (str hash) (
              member (codes "status") (str (codes "success")) (
                member (codes "classification") (str (codes "success")) (
                  member (codes "stage") (str (codes "done")) (
                    member (codes "error") null (
                      member (codes "identities") null (
                        member (codes "cleanup_handshakes") (array (item null no_items)) (
                          member (codes "inner") inner_record (
                            member (codes "measurements")
                              (object (member (codes "outer_wall_ns") (int (pos 5)) no_members))
                              (member (codes "streams")
                                (object (
                                  member (codes "stdout")
                                    (object (
                                      member (codes "path") (str outer_stdout_name) (
                                        member (codes "captured_size") (int (pos 4)) (
                                          member (codes "bytes_seen") (int (pos 4)) (
                                            member (codes "cap_bytes") (int (pos 9)) (
                                              member (codes "truncated_at_cap") (bool false) (
                                                member (codes "sha256") (str hash) (
                                                  member (codes "fsynced") (bool true)
                                                    no_members))))))))
                                    (member (codes "stderr")
                                      (object (
                                        member (codes "path") (str outer_stderr_name) (
                                          member (codes "captured_size") (int (pos 4)) (
                                            member (codes "bytes_seen") (int (pos 4)) (
                                              member (codes "cap_bytes") (int (pos 9)) (
                                                member (codes "truncated_at_cap") (bool false) (
                                                  member (codes "sha256") (str hash) (
                                                    member (codes "fsynced") (bool true)
                                                      no_members))))))))
                                      no_members)))
                                (member (codes "created_unix_ns") (int (pos 9))
                                  no_members)))))))))))))))

abbrev outer_evidence : OuterEvidence
outer_evidence = record {
  attempt = stored (ok outer_attempt) hash;
  verdict = stored (ok outer_verdict) hash;
  stdout = regular 4 hash true;
  stderr = regular 4 hash true;
  inventory =
      codes "inner"
      ∷ codes "outer-attempt.json"
      ∷ codes "outer-verdict.json"
      ∷ outer_stdout_name
      ∷ outer_stderr_name
      ∷ [];
  inner = inner_evidence;
  inner_text = inner_text;
  attempt_size = 20;
  verdict_size = 30;
  message = message;
}
