-- ===== src/Lib.antt =====
-- RoboRecon's back end: the Python code of apps/api/app that matches a merchant's ledger with the
-- records of a payment provider, and these with settlements and bank credits, has a human review
-- what it does not resolve, and measures the result.
--
-- The program. Stage A (`reconcile_stage_a`) pairs ledger entries with captured payments and
-- refunds; stage B (`reconcile_stage_b`) follows captured payments through settlement lines to bank
-- credits. Both score candidates from observations, and both ask one policy (`can_auto_resolve`)
-- whether an outcome may stand without a human. An autonomous outcome consumes records, which later
-- outcomes of the same run may not use again. The reconciliation service loads the records of a batch,
-- runs both stages, and stores results, links to source records, open exceptions and metrics. A human
-- approves a candidate of an exception or rejects it; this changes the result, its links and the
-- metrics of the run. Every step leaves an event in the audit log, which the audit service numbers. A
-- close brief groups open exceptions into themes that a language model writes and the code validates.
-- The evaluation compares the stored results with the known truth of a benchmark batch.
--
-- The files.
--   Prelude           names passed on from the library; Prelude/Tests: Boolean tests, texts, options;
--                     Prelude/Lists; Prelude/Int: Python's integers; Prelude/Order: sorting;
--                     Prelude/Dict: dicts as association lists; Prelude/Along: lists by position;
--                     Prelude/Result: errors as values; Prelude/Table: rows by id;
--                     Prelude/Slices: parts of lists; Prelude/Asked: optional arguments
--   Enums             apps/api/app/common/enums.py
--   Records           the source records of apps/api/app/demo/dataset.py
--   Json              the JSON values of metrics and audit payloads
--   Rows              the tables of apps/api/app/reconciliation/model.py and of the audit log
--   Money             apps/api/app/common/money.py
--   Demo              the plan of the benchmark's cases in apps/api/app/demo/dataset.py
--   Audit             `append_event` of apps/api/app/audit/service.py and `list_events` (Listing)
--   Engine/Model      the dataclasses of apps/api/app/reconciliation/model.py, rule codes,
--                     contradictions and consumable resources of engine.py
--   Engine/Policy     apps/api/app/reconciliation/policy.py
--   Engine/Reference, Engine/Similarity, Engine/Time, Engine/Candidates
--                     what both stages of apps/api/app/reconciliation/engine.py share
--   Engine/StageA     `_stage_a_pool` (Pool), `_eligible_stage_a` (Eligible), `_stage_a_score`
--                     (Score), `_outcome_from_stage_a_candidates` (Outcome), `reconcile_stage_a` (Run)
--   Engine/StageB     `_settlement_facts` (Facts), `_bank_match` (Bank), `_release_settlements`
--                     (Release), `_stage_b_candidate` (Checks for its contradictions, Candidate for
--                     its score and its observations), `reconcile_stage_b` (Run)
--   Service           apps/api/app/reconciliation/service.py: `_add_links_and_exception` (Links),
--                     the rows of a run (Results), `run_reconciliation` (Run)
--   Review            apps/api/app/exception/service.py: `_adjust_metrics` (Metrics),
--                     `review_exception` (Decision), the brief that it makes stale (Brief)
--   Evaluation        apps/api/app/evaluation/service.py and model.py: tests of a case, its
--                     predictions (Associate), stages and classes (Metrics), the acceptance checks
--                     (Acceptance), `evaluate_predictions` (Report)
--   CloseBrief        `_validate_provider_response` of apps/api/app/reconciliation/close_brief.py
--   Ledger            `_source_selects` of apps/api/app/ledger/read_model.py
--   Razorpay          `_fetch_collection` of apps/api/app/razorpay/adapter.py
--   Examples          test data, tests and the theorems applied to it
-- The children of a module hold proofs about it.
--
-- How the code is represented. A loop is structural recursion over its list, with the variables
-- that it changes as arguments: the ids under consideration and the reserved resources. A dict
-- look-up that could raise `KeyError` returns an option. A sort is an insertion sort, which is
-- stable like Python's. A UUID is its 128-bit value, whose order is that of its text; a text is a
-- list of code points; amounts are unbounded integers, as in Python. A datetime is its wall clock in
-- microseconds and its offset from UTC. What Python's Unicode tables say (`str.upper`,
-- `str.isalnum`, white space, digits) is the parameter `CharTables`. `SequenceMatcher.ratio` is
-- written out after difflib, as an exact fraction with its heuristic for popular characters; the
-- recursion on matching blocks has fuel one more than the length of the first text, which is enough
-- since every block takes a character. Contradictions and rule codes are constructors, and
-- `observed_values` is a sum with one constructor for each shape of the dict.
--
-- A database transaction is a function on the tables that returns the new tables or an error; an
-- error leaves the tables as they were, as a rollback does. New ids and the clock are parameters,
-- and so are what Python prints for a number and the texts of the fixed codes. A JSON number that
-- is a float is kept in hundredths, as the code rounds it to two places; the rates of the evaluation
-- are in hundredths of a per cent. The provider of pages is a parameter, a function from the offset
-- and the size of a page to its items; the recursion on pages has the page limit of the code.
--
-- Not modelled. Explanation texts; the totals by line type in the observation SETTLEMENT_MATH; the
-- overflow of datetimes beyond year 9999; the rounding of the distance in hours that an observation
-- shows. In the services: the page of one exception (`get_exception_detail`), the call of a language
-- model after a run, `evaluate_run` and `report_to_dict`, the mapping of Razorpay payloads, and the
-- context, the fallback and the generation of a close brief; in the read model of the
-- ledger: the relationships of a row with results, links and exceptions, their ranking, the order
-- and the paging. The copilot, the investigator, the builder of the benchmark's rows, the routes and the web client
-- are outside this library. A transaction runs alone, since it holds locks on the rows it changes.
pub mod Prelude
pub mod Enums
pub mod Records
pub mod Json
pub mod Money
pub mod Demo
pub mod Audit
pub mod Review
pub mod Rows
pub mod Service
pub mod Evaluation
pub mod Razorpay
pub mod Ledger
pub mod CloseBrief
pub mod Engine
pub mod Examples
