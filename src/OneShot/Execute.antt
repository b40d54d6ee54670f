-- ===== src/OneShot/Execute.antt =====
-- `.agents/scripts/one_shot_gate.py`: `PreparedAttempt.execute`, with the adapter, the files and the
-- result validator as parameters.
use ring_lang.Common.{
  ℕ, Bool, true, false, ◌&&◌, ◌||◌, not, Option, ltb, ◌==◌, Text, codes, ok, err, ◌>>=◌, ◌>>◌,
  raise_if,
}
use ring_lang.Common.Int.{pos, int_eq}
use ring_lang.Common.Json.{
  Json, null, bool, int, str, object, Members, no_members, member, get_member, is_str,
}
use ring_lang.OneShot.Values.{violation, Checked, int_of}
use ring_lang.OneShot.Receipts.{Limits}
use ring_lang.OneShot.Streams.{stream_value, stdout_name, stderr_name}
use ring_lang.OneShot.Outcome.{get_inner, members_in}

-- What stands at a path: nothing, a link whose target is missing, something else that is no regular file, or
-- a file with its size and hash, and whether it can be flushed.
pub data Entry : Type 0 where
  absent dangling irregular : Entry
  regular : (size : ℕ) → (sha256 : Text) → (syncs : Bool) → Entry

-- `path.exists()`, which follows links
abbrev pub exists : Entry → Bool
exists absent = false
exists dangling = false
exists _ = true

-- The evidence directory.
pub record Folder : Type 0 where
  pub stdout : Entry
  pub stderr : Entry
  pub verdict : Option Json

-- `isinstance(record["captured_size"], int)` was tested before.
unfoldable pub verify_raw : Entry → Json → Json → Checked (Unit {0})
verify_raw (regular size sha256 syncs) captured hash = do
  raise_if (not (int_eq (pos size) (int_of captured))) (violation "raw size changed before verdict")
  raise_if (not (is_str sha256 hash)) (violation "raw hash changed before verdict")
verify_raw _ captured hash = err (violation "raw file is missing/non-regular")

unfoldable pub verify_raw_identity : Folder → Members → Checked (Unit {0})
unfolding verify_raw get_inner
verify_raw_identity root streams = do
  verify_raw root.stdout (get_inner (codes "stdout") (codes "captured_size") streams)
      (get_inner (codes "stdout") (codes "sha256") streams)
  verify_raw root.stderr (get_inner (codes "stderr") (codes "captured_size") streams)
      (get_inner (codes "stderr") (codes "sha256") streams)

unfoldable pub verify_tool : Entry → Json → Json → Checked (Unit {0})
verify_tool (regular size sha256 syncs) tool_size hash = do
  raise_if (not (int_eq (pos size) (int_of tool_size)))
      (violation "execution tool size changed during the attempt")
  raise_if (not (is_str sha256 hash)) (violation "execution tool hash changed during the attempt")
verify_tool _ tool_size hash = err (violation "execution tool disappeared or became non-regular")

unfoldable pub verify_tool_identity : Entry → Members → Checked (Unit {0})
unfolding verify_tool get_inner
verify_tool_identity tool execution =
    verify_tool tool (get_inner (codes "tool") (codes "size") execution)
      (get_inner (codes "tool") (codes "sha256") execution)

-- A stream of which only the file is known. The second result is the file afterwards.
unfoldable pub existing_stream : Text → Text → ℕ → Json → Entry → Checked (Json × Entry)
unfolding stream_value
existing_stream empty_sha256 name cap_bytes error (regular size sha256 syncs) = ok (
  stream_value name size sha256 size cap_bytes (size == cap_bytes && ltb 0 cap_bytes) syncs error,
  regular size sha256 syncs,
)
existing_stream empty_sha256 name cap_bytes error absent =
    ok (stream_value name 0 empty_sha256 0 cap_bytes false true error, regular 0 empty_sha256 true)
existing_stream empty_sha256 name cap_bytes error _ = err (violation "exclusive create failed")

abbrev pub unknown : Json
unknown = str (codes "unknown")

abbrev pub unknown_support : Json
unknown_support = object (
    member (codes "wall") unknown (
      member (codes "output") unknown
        (member (codes "job_memory") unknown (member (codes "active_process") unknown no_members))))

unfoldable pub existing_outcome : Json → Json → Json → Bool → Json
existing_outcome error stdout stderr hit = object (
    member (codes "adapter") (str (codes "unknown-adapter-v1")) (
      member (codes "support") unknown_support (
        member (codes "stage") (str (codes "child-sealed")) (
          member (codes "exit_code") null (
            member (codes "timed_out") (bool false) (
              member (codes "memory_limit_hit") (bool false) (
                member (codes "process_limit_hit") (bool false) (
                  member (codes "output_limit_hit") (bool hit) (
                    member (codes "launch_error") null (
                      member (codes "pipe_error") null (
                        member (codes "thread_error") null (
                          member (codes "infrastructure_error") error (
                            member (codes "measurements") (object no_members) (
                              member (codes "streams")
                                (object (
                                  member (codes "stdout") stdout
                                    (member (codes "stderr") stderr no_members)))
                                no_members))))))))))))))

abbrev pub is_true : Json → Bool
is_true (bool b) = b
is_true _ = false

abbrev pub size_of : Json → ℕ
size_of (int (pos n)) = n
size_of _ = 0

-- `_outcome_from_existing_raw`, and the directory afterwards
unfoldable pub outcome_from_existing_raw : Text → Limits → Json → Folder → Checked (Json × Folder)
unfolding existing_stream existing_outcome get_member
outcome_from_existing_raw empty_sha256 limits error root = do
  out ← existing_stream empty_sha256 stdout_name (size_of limits.stdout_cap_bytes) error root.stdout
  errs ←
      existing_stream empty_sha256 stderr_name (size_of limits.stderr_cap_bytes) error root.stderr
  let hit =
      is_true (get_member (codes "truncated_at_cap") (members_in out.0))
      || is_true (get_member (codes "truncated_at_cap") (members_in errs.0))
  ok (existing_outcome error out.0 errs.0 hit, record root { stdout = out.1; stderr = errs.1 })
