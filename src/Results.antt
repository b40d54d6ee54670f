-- ===== src/Results.antt =====
-- `tests/run_tests.py`: `TestResult` and `ResultCollector`.
mod Tests
use ring_lang.Common.{
  ℕ, ◌+◌, ◌≡◌, refl, ap, sym, ◌∙◌, ◌⊎◌, inl, inr, Bool, true, false, ◌&&◌, List, [], ◌∷◌, ◌++◌,
  Option, none, some, if◌then◌else◌, Text, codes, text_eq, text_eq_iff, is_empty, arith, Bool-cases,
  All,
}
use ring_lang.Common.Dicts.{Dict, dict_get, dict_put, dict_get-put, text_key}
use ring_lang.AuditLedger.Patterns.{lower}

-- `PASS`, `FAIL` and `SKIP`, one of which every caller gives as the status
abbrev pub pass_status : Text
pass_status = codes "PASS"

abbrev pub fail_status : Text
fail_status = codes "FAIL"

abbrev pub skip_status : Text
skip_status = codes "SKIP"

pub record TestResult : Type 0 where
  pub status : Text
  pub suite : Text
  pub name : Text
  pub detail : Text

-- `__str__`
unfoldable pub result_line : TestResult → Text
result_line r =
    let label = r.suite ++ codes ": " ++ r.name in
    if is_empty r.detail
    then codes "[" ++ r.status ++ codes "] " ++ label
    else codes "[" ++ r.status ++ codes "] " ++ label ++ codes " -- " ++ r.detail

-- The results, and the lines printed so far.
pub record ResultCollector : Type 0 where
  pub results : List TestResult
  pub printed : List Text

unfoldable pub add : TestResult → ResultCollector → ResultCollector
unfolding result_line
add r c = record { results = c.results ++ r ∷ []; printed = c.printed ++ result_line r ∷ [] }

-- The counts of a suite, by the status in lower case
abbrev pub Counts : Type 0
Counts = Dict Text ℕ

-- `{"pass": 0, "fail": 0, "skip": 0}`
abbrev pub no_counts : Counts
no_counts = (codes "pass", 0) ∷ (codes "fail", 0) ∷ (codes "skip", 0) ∷ []

abbrev pub or_zero : Option ℕ → ℕ
or_zero none = 0
or_zero (some n) = n

-- `if r.suite not in out: out[r.suite] = ...`, and the counts that are there then
abbrev pub or_new : Option Counts → Counts
or_new none = no_counts
or_new (some counts) = counts

-- `counts[key] = counts.get(key, 0) + 1`
unfoldable pub count : Text → Counts → Counts
unfolding dict_get dict_put
count key counts = dict_put key (or_zero (dict_get key counts) + 1) counts

-- One round of the loop of `summary`.
unfoldable pub tally : TestResult → Dict Text Counts → Dict Text Counts
unfolding count lower dict_get dict_put
tally r out = dict_put r.suite (count (lower r.status) (or_new (dict_get r.suite out))) out

unfoldable pub tally_all : List TestResult → Dict Text Counts → Dict Text Counts
unfolding tally
tally_all [] out = out
tally_all (r ∷ rs) out = tally_all rs (tally r out)

unfoldable pub summary : ResultCollector → Dict Text Counts
unfolding tally_all
summary c = tally_all c.results []

unfoldable pub failures_of : List TestResult → ℕ
unfolding text_eq
failures_of [] = 0
failures_of (r ∷ rs) =
    let rest = failures_of rs in if text_eq r.status fail_status then rest + 1 else rest

unfoldable pub failures : ResultCollector → ℕ
unfolding failures_of
failures c = failures_of c.results

-- How many of the results pass a test
abbrev pub how_many : (TestResult → Bool) → List TestResult → ℕ
how_many test [] = 0
how_many test (r ∷ rs) = if test r then how_many test rs + 1 else how_many test rs

abbrev pub is_one_of : Text → Text → TestResult → Bool
is_one_of suite status r = text_eq suite r.suite && text_eq status r.status

-- The count in a summary
abbrev pub count_in : Text → Text → Dict Text Counts → ℕ
count_in suite key out = or_zero (dict_get key (or_new (dict_get suite out)))

abbrev pub key_test : Text → Text → TestResult → Bool
key_test suite key r = text_eq suite r.suite && text_eq key (lower r.status)

counts-get :
    (key status : Text) (counts : Counts)
    → or_zero (dict_get key (count status counts)) ≡ (
        if text_eq key status
        then or_zero (dict_get key counts) + 1
        else or_zero (dict_get key counts))
unfolding count
counts-get key status counts =
    ap or_zero (dict_get-put key status (or_zero (dict_get status counts) + 1) counts)
    ∙ ground (arith, text_eq_iff key status)

tally-get :
    (suite key : Text) (r : TestResult) (out : Dict Text Counts)
    → count_in suite key (tally r out)
      ≡ (if key_test suite key r then count_in suite key out + 1 else count_in suite key out)
unfolding tally
tally-get suite key r out =
    let new = count (lower r.status) (or_new (dict_get r.suite out)) in
    ap (λ o. or_zero (dict_get key (or_new o))) (dict_get-put suite r.suite new out)
    ∙ ground (
      arith,
      text_eq_iff suite r.suite,
      counts-get key (lower r.status) (or_new (dict_get suite out)),
    )

tally_all-get :
    (suite key : Text) (rs : List TestResult) (out : Dict Text Counts)
    → count_in suite key (tally_all rs out)
      ≡ count_in suite key out + how_many (key_test suite key) rs
unfolding tally_all
tally_all-get suite key [] out = omega arith
tally_all-get suite key (r ∷ rs) out =
    ground (arith, tally_all-get suite key rs (tally r out), tally-get suite key r out)

-- The status is one of the three constants of `TestResult`.
abbrev pub HasStatus : TestResult → Type 0
HasStatus r = (r.status ≡ pass_status) ⊎ (r.status ≡ fail_status) ⊎ (r.status ≡ skip_status)

-- A key of the summary stands for a status.
abbrev pub IsKeyOf : Text → Text → Type 0
IsKeyOf key status =
    (r : TestResult) → HasStatus r → text_eq key (lower r.status) ≡ text_eq status r.status

pass_key : IsKeyOf (codes "pass") pass_status
unfolding lower text_eq
pass_key r (inl e) = rw e
pass_key r (inr (inl e)) = rw e
pass_key r (inr (inr e)) = rw e

fail_key : IsKeyOf (codes "fail") fail_status
unfolding lower text_eq
fail_key r (inl e) = rw e
fail_key r (inr (inl e)) = rw e
fail_key r (inr (inr e)) = rw e

skip_key : IsKeyOf (codes "skip") skip_status
unfolding lower text_eq
skip_key r (inl e) = rw e
skip_key r (inr (inl e)) = rw e
skip_key r (inr (inr e)) = rw e

how_many-key :
    (suite key status : Text) (rs : List TestResult)
    → IsKeyOf key status
    → All HasStatus rs
    → how_many (key_test suite key) rs ≡ how_many (is_one_of suite status) rs
how_many-key suite key status [] k h = refl
how_many-key suite key status (r ∷ rs) k h =
    ground (arith, k r h.0, how_many-key suite key status rs k h.1)

summary-count :
    (c : ResultCollector) (suite key status : Text)
    → or_zero (dict_get key no_counts) ≡ 0
    → IsKeyOf key status
    → All HasStatus c.results
    → count_in suite key (summary c) ≡ how_many (is_one_of suite status) c.results
unfolding summary dict_get
summary-count c suite key status fresh k h =
    let counted = tally_all-get suite key c.results [] in
    let same = how_many-key suite key status c.results k h in omega arith

fresh_counts :
    (or_zero (dict_get (codes "pass") no_counts) ≡ 0)
    × (or_zero (dict_get (codes "fail") no_counts) ≡ 0)
    × (or_zero (dict_get (codes "skip") no_counts) ≡ 0)
unfolding dict_get text_eq
fresh_counts = (refl, refl, refl)

-- Where every result has one of the three statuses, the counts of a suite in the summary are the numbers of its
-- results with the status `PASS`, `FAIL` and `SKIP`, in whatever order the results of the suites came, and
-- 0 for a suite without results.
pub summary-counts :
    (c : ResultCollector) (suite : Text)
    → All HasStatus c.results
    → (count_in suite (codes "pass") (summary c)
        ≡ how_many (λ r. text_eq suite r.suite && text_eq (codes "PASS") r.status) c.results)
      × (count_in suite (codes "fail") (summary c)
          ≡ how_many (λ r. text_eq suite r.suite && text_eq (codes "FAIL") r.status) c.results)
      × (count_in suite (codes "skip") (summary c)
          ≡ how_many (λ r. text_eq suite r.suite && text_eq (codes "SKIP") r.status) c.results)
summary-counts c suite h = (
  summary-count c suite (codes "pass") pass_status fresh_counts.0 pass_key h,
  summary-count c suite (codes "fail") fail_status fresh_counts.1 fail_key h,
  summary-count c suite (codes "skip") skip_status fresh_counts.2 skip_key h,
)
