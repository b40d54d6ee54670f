-- ===== src/OneShot/Evidence.antt =====
-- `.agents/scripts/one_shot_gate.py`: what `audit_attempt` looks at, and its result.
use ring_lang.Common.{Bool, true, false, List, [], ◌∷◌, if◌then◌else◌, Text, codes}
use ring_lang.Common.Json.{Json, str}
use ring_lang.OneShot.Values.{
  attribute_error, overflow, under, at_entry, Failure, violation, Checked,
}
use ring_lang.OneShot.Execute.{Entry}

-- A path that should hold a JSON document: what `_load_json` makes of it, and the hash of its bytes.
pub data StoredJson : Type 0 where
  missing not_regular : StoredJson
  stored : (loaded : Checked Json) → (sha256 : Text) → StoredJson

pub record Evidence : Type 0 where
  pub attempt : StoredJson
  pub verdict : StoredJson
  pub stdout : Entry
  pub stderr : Entry
  -- the names in the directory, none if it does not exist
  pub inventory : List Text

pub data AuditState : Type 0 where
  nothing incomplete complete : AuditState
  -- an exception that is no `ContractError` leaves the audit
  crashed : AuditState

abbrev pub is_complete : AuditState → Bool
is_complete complete = true
is_complete _ = false

pub record Audit : Type 0 where
  pub consumed : Bool
  pub state : AuditState
  pub status : Json
  pub classification : Json
  pub errors : List Failure

abbrev pub unknown : Json
unknown = str (codes "unknown")

-- The result where the audit stops
abbrev pub stopped : Bool → AuditState → List Failure → Audit
stopped consumed state errors = record {
  consumed = consumed;
  state = state;
  status = unknown;
  classification = unknown;
  errors = errors;
}

-- Whether a failure is no `ContractError`
abbrev pub escapes : Failure → Bool
escapes overflow = true
escapes attribute_error = true
escapes (under label e) = escapes e
escapes (at_entry index e) = escapes e
escapes (violation text) = false

-- `except ContractError`
abbrev pub refused : Failure → Audit
refused e = if escapes e then stopped true crashed [] else stopped true incomplete (e ∷ [])
