-- ===== src/Lib.antt =====
-- Investment tracker: the parts of the program that decide, guard and count, modelled and proved.
--
-- The program is governed historical validation and paper-only decision support. It has independent
-- parts, and each has a file here with the model, named for it, and a folder with the proofs and
-- the concrete examples.
--
-- CanonicalWrite models src/investment_tracker/canonical_write.py: a method of
--   CanonicalWriteCoordinator is an action that gives its result or exception and the coordinator
--   that it leaves. History has sequences of calls, Fencing the leases, Commit what prepare and
--   commit keep.
-- Budget models src/investment_tracker/quant/phase4/engine/budget.py and the budget state of
--   engine/models.py: an operation gives a new state or raises. Rows, Families and Inversion serve
--   Invariant; Traversal has whole campaigns as sequences of operations.
-- Journal models src/investment_tracker/quant/phase4/preregistration/journal.py over the bytes of
--   the file; Chain is about reading, Append about writing.
-- Decision models src/investment_tracker/decision.py, and Readiness
--   src/investment_tracker/readiness.py.
-- PhaseState models src/investment_tracker/phase_state.py.
-- Operations models src/investment_tracker/operations.py: Dispatcher has AlertDispatcher, Monitor
--   has RunMonitor with the dispatcher that it shares, Evidence the recovery readback and the
--   reconciliation report.
-- Replay models the signal rules of src/investment_tracker/replay.py, replay_v2.py and
--   replay_v2_1.py over a parameter Number for Python's floats and Decimals; Selector models
--   replay_v3.py, which chooses among accumulating signals.
-- WriteLock models src/investment_tracker/coordinator_lock.py: the state is what stands at the
--   lock's path.
-- Stages models src/investment_tracker/quant/validation/access.py, and Holdout
--   src/investment_tracker/quant/validation/holdout.py, whose state is the audit directories and a
--   log of the data that was loaded.
-- Backtest models src/investment_tracker/backtest_v1.py: Protocol has the preregistration, Episodes
--   the timing and the clusters, Statistics the median and the sign test, Observations the loops
--   over the rows, Verdict the reasons and the status, Report evaluate_backtest as a whole, and
--   Figures what its figures are of; Points is the number type of its examples.
-- Robustness models src/investment_tracker/robustness_v2.py: Counting is about the clustering,
--   Selection about which clusters are chosen, Rule about the verdict.
-- Cache models src/investment_tracker/quant/data/cache.py: Kept is about admissions, Lookup about
--   what is found, and Found, with Reading, about finding what was admitted.
-- Optimizer models src/investment_tracker/quant/optimizer: Search has search.py, a round of the
--   loop as a function of its variables, and Grid candidate_generator.py, with Dimensions and
--   Product for its two steps.
-- Promotion models src/investment_tracker/quant/promotion.py, whose state is the registry of
--   snapshots.
-- Snapshot models src/investment_tracker/snapshot.py, CandidateFreeze
--   src/investment_tracker/candidate_freeze.py and Governance src/investment_tracker/governance.py,
--   whose symbol check Selector, Stages, Holdout, Promotion, Backtest, Robustness and Cache call.
-- Prelude, Dict and Timestamp hold what these share: Boolean tests, lists, exceptions beside a
--   state, texts, Python's dict, and datetime.
--
-- Numbers are the natural numbers where the program's values are not negative. A time is a number
-- of microseconds, naive or in UTC, up to datetime.max; a Decimal between 0 and 1 is a number of
-- units of 10^-28; a float outcome is its sign; a date is a number of days. No model runs on fuel:
-- loops are recursions on lists or on the number of rounds.
--
-- Parameters stand for sha256, for JSON and pydantic's field checks, for strip and upper of a text,
-- for the arithmetic of the signal rules and the finite Decimals of the backtest, for math.comb,
-- random sampling and a date's year, for pandas frames and parquet, and for what sinks answer. Not
-- modelled are the file system but for a journal's bytes, the lock's path, the audit directory's
-- names and the cache's versions, the network, pandas and numpy code, reports and the command line;
-- the manifest of the development lists every part.
pub mod Backtest
pub mod Budget
pub mod Cache
pub mod CandidateFreeze
pub mod CanonicalWrite
pub mod Decision
pub mod Dict
pub mod Governance
pub mod Holdout
pub mod Journal
pub mod Operations
pub mod Optimizer
pub mod PhaseState
pub mod Prelude
pub mod Promotion
pub mod Readiness
pub mod Replay
pub mod Robustness
pub mod Selector
pub mod Snapshot
pub mod Stages
pub mod Timestamp
pub mod WriteLock
