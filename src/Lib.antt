-- ===== src/Lib.antt =====
-- The Python tools of the Ring language repository: the parts of the test runner, of the benchmark
-- reader, of the audit ledger and of the one-shot gate that decide something, as functions by clauses.
--
-- The parts and their files
--   * `tests/run_tests.py` checks the compiler. Its modelled parts are
--     - the identity ledger (IdentityLedger): `parse_identity_ledger`, `serialize_identity_ledger` and
--       `validate_identity_ledger_relations`. An event is the record `IdentityLedgerEvent` (Event); the
--       tables that the validation fills are the record of Tables; `scan` is its loop, whose state is
--       passed on, and the error messages of one event are lists (Checks). Escape and Codec hold the
--       percent escapes and the text format.
--     - `mask_c_strings_and_comments` and `matching_delimiter` (CText), loops over the text with the
--       lexer's state passed on.
--     - the class `PhaseTimingTrace` (PhaseTiming): its attributes are a record, the trace file is the
--       list of rows written so far, and every method is a function from the old record to the new one.
--       The clock is an argument of every method that reads it. Sequence has all histories of a trace,
--       Clock those in which the clock goes forward. Runner holds `_run_subprocess` and
--       `_run_timed_suite`, by which the suites call it.
--     - `TestResult` and `ResultCollector` (Results); a status is a text, and every caller gives one of three.
--   * `bench/check/run.py` reads the rows of that trace (TraceReader): the tests of a row's outcome
--     against its exit code, and `_classify_runner_phase_rows` in Rows (single rows), Trace (order) and
--     Accounts (sums). Clean, Ends and Kinds hold what its parts have checked, Sound what a trace is then. A row has the field types that PhaseTiming writes, so the tests of field names and
--     types are left out; a message is a constructor of `Problem`.
--   * `.agents/scripts/audit_ledger.py` keeps the debounce ledger of audit rounds (AuditLedger): Patterns
--     and Keys hold the regular expressions, `normalize_trigger_id`, `normalize_source_sha`,
--     `normalize_lenses` and `AuditKey`; Document holds `validate_document`, on JSON values; Gate holds
--     `find_record`, `check_start_gate` and `record_outcome`; Git holds the class `GitAuditLedger`, whose
--     methods run `git` commands on a state of which nothing is known. An exception is the `err` of a
--     result; its message is a constructor.
--   * `.agents/scripts/one_shot_gate.py` runs a command once and seals what it did (OneShot). Values holds
--     the patterns and the tests of a JSON value; Receipts, Execution, Outcome and Verdict the receipts
--     and their validators, in the order of the source; Streams the class `_PrefixSink` and the record of
--     a stream; Spec `_validate_spec` and `prepare_attempt`; Execute and Run `PreparedAttempt.execute`,
--     with the outcome that is made from the raw files where the adapter fails; Evidence and Audit
--     `audit_attempt`, with Python's `==` on JSON values (Equal); Outer `_validate_outer_attempt` and, in its
--     children Audit and Check, `audit_outer`. The directory is a record of what stands at each path, passed
--     on from step to step; the adapter, the tool's file, the validator of the result and the clock are the
--     record Surroundings, and what `audit_outer` takes from elsewhere (absolute paths, hashes) is Platform.
--     Of the error texts only the fixed part is kept, and which list entry it is about.
--   * Common holds what Python itself provides: texts as lists of code points, `str` methods, integers and
--     their decimal texts, UTF-8, dictionaries, sets and sorting, the used part of `re` and of `json`.
--
-- How the source is read
--   Every loop of the tools is structural recursion on the sequence it walks. Only the digits of a
--   number `n` are made with fuel, `n + 1`, and reading them back shows that it is enough; the limit of 4300
--   digits that CPython puts on `int` and `str` is not modelled. The order of
--   dictionaries is their order of insertion. Git, `sha256` and, for the class that talks to Git,
--   `json.loads` and `json.dumps` are parameters, of which only the conditions
--   of a result assume something.
--   `str.lower` is written for the code points that can become ASCII; any other leaves a code point that
--   every pattern refuses. `str(value)` of a list or dictionary keeps its bracket only, which is refused
--   as well. Other texts of messages are not modelled. A float is its `repr`; that of the float of an
--   integer, and whether a float is equal to an integer, are parameters. `os.write` is a function from the
--   bytes that it is given to how many it wrote, and its loop runs on as much fuel as there are bytes.
--
-- Not modelled
--   Processes, files, the clock's source, the suites themselves, the command lines, and everything
--   that is not Python (the Ring compiler, its library and its C runtime).
pub mod Common
pub mod CText
pub mod PhaseTiming
pub mod OneShot
pub mod TraceReader
pub mod IdentityLedger
pub mod AuditLedger
pub mod Results
