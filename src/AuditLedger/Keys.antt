-- ===== src/AuditLedger/Keys.antt =====
-- `.agents/scripts/audit_ledger.py`: the normal forms of the raw inputs, and `AuditKey`.
use ring_lang.Common.{
  text_eq, Bool, true, false, ◌||◌, List, [], ◌∷◌, ◌++◌, Option, none, some, Result, ok, err, ◌>>=◌,
  ◌>>◌, raise_if, if◌then◌else◌, not, Text, codes, split, strip, is_empty, mem_text, starts_with,
  drop,
}
use ring_lang.Common.Regex.{fullmatch, search_in}
use ring_lang.Common.Dicts.{set_add, text_key}
use ring_lang.Common.Order.{sort_by, lt_text}
use ring_lang.Common.Json.{json_str, json_list}
use ring_lang.AuditLedger.Patterns.{
  audit_lenses, token, full_sha, iso_date, uuid, random_hex, incremental_trigger_suffix,
  evidence_commit, lower,
}

-- The messages of `InvalidLedgerInput`, one constructor each.
pub data InvalidInput : Type 0 where
  bad_trigger bad_evidence unstable_trigger counted_trigger bad_source_sha bad_lens unknown_lens :
      InvalidInput
  no_lens bad_stored_trigger same_scope bad_outcome long_summary : InvalidInput

pub record EvidenceEvent : Type 0 where
  pub commit_sha : Text

unfoldable pub parse_evidence_event : Text → Option EvidenceEvent
unfolding evidence_commit fullmatch
parse_evidence_event trigger_id =
    if fullmatch evidence_commit trigger_id
    then some (record { commit_sha = drop 16 trigger_id })
    else none

abbrev pub Checked : Type 0 → Type 0
Checked A = Result InvalidInput A

-- The tests on the stripped, lowered value.
unfoldable pub accept_trigger : Text → Checked Text
unfolding fullmatch search_in token starts_with parse_evidence_event iso_date uuid random_hex
    incremental_trigger_suffix
accept_trigger value =
    if not (fullmatch token value)
    then err bad_trigger
    else if starts_with (codes "evidence:") value
    then elim (parse_evidence_event value) [ none ↦ err bad_evidence | some event ↦ ok value ]
    else if search_in iso_date value || search_in uuid value || search_in random_hex value
    then err unstable_trigger
    else if search_in incremental_trigger_suffix value
    then err counted_trigger
    else ok value

unfoldable pub normalize_trigger_id : Text → Checked Text
unfolding strip lower accept_trigger
normalize_trigger_id raw = accept_trigger (lower (strip raw))

unfoldable pub accept_sha : Text → Checked Text
unfolding fullmatch full_sha
accept_sha value = if not (fullmatch full_sha value) then err bad_source_sha else ok value

unfoldable pub normalize_source_sha : Text → Checked Text
unfolding strip lower accept_sha
normalize_source_sha raw = accept_sha (lower (strip raw))

-- The inner loop: one raw argument's items.
unfoldable pub normalize_items : List Text → List Text → Checked (List Text)
unfolding strip lower fullmatch token mem_text text_eq set_add
normalize_items normalized [] = ok normalized
normalize_items normalized (raw ∷ items) =
    let lens = lower (strip raw) in
    let rest =
      normalize_items (if is_empty lens then normalized else set_add lens normalized) items in
    if is_empty lens
    then rest
    else if not (fullmatch token lens)
    then err bad_lens
    else if not (mem_text lens audit_lenses)
    then err unknown_lens
    else rest

unfoldable pub normalize_raw_lenses : List Text → List Text → Checked (List Text)
unfolding split normalize_items
normalize_raw_lenses normalized [] = ok normalized
normalize_raw_lenses normalized (raw ∷ raws) = do
  let seen = (← normalize_items normalized (split b',' raw))
  normalize_raw_lenses seen raws

unfoldable pub no_items : List Text → Bool
no_items [] = true
no_items (s ∷ ss) = false

unfoldable pub normalize_lenses : List Text → Checked (List Text)
unfolding normalize_raw_lenses no_items sort_by lt_text
normalize_lenses raw_lenses = do
  let normalized = (← normalize_raw_lenses [] raw_lenses)
  raise_if (no_items normalized) no_lens
  ok (sort_by (λ lens. lens) normalized)

pub record AuditKey : Type 0 where
  pub trigger_id : Text
  pub source_sha : Text
  pub lenses : List Text

unfoldable pub create : Text → Text → List Text → Checked AuditKey
unfolding normalize_trigger_id normalize_source_sha normalize_lenses
create trigger_id source_sha lenses = do
  let t = (← normalize_trigger_id trigger_id)
  let s = (← normalize_source_sha source_sha)
  let l = (← normalize_lenses lenses)
  ok (record { trigger_id = t; source_sha = s; lenses = l })

-- `AuditKey.canonical`: `json.dumps` with sorted names and no blanks.
unfoldable pub canonical : AuditKey → Text
unfolding json_str json_list
canonical key =
    codes "{\"lenses\":"
    ++ (json_list key.lenses
        ++ (codes ",\"source_sha\":"
            ++ (json_str key.source_sha
                ++ (codes ",\"trigger_id\":" ++ (json_str key.trigger_id ++ codes "}")))))

-- `_stored_audit_key`
unfoldable pub stored_audit_key : Text → Text → List Text → Checked AuditKey
unfolding strip lower fullmatch token normalize_source_sha normalize_lenses
stored_audit_key raw_trigger_id raw_source_sha raw_lenses = do
  let t = lower (strip raw_trigger_id)
  raise_if (not (fullmatch token t)) bad_stored_trigger
  let s = (← normalize_source_sha raw_source_sha)
  let l = (← normalize_lenses raw_lenses)
  ok (record { trigger_id = t; source_sha = s; lenses = l })
