-- ===== src/Lib.antt =====
-- A verification library for the trading services of iimc_trading_platform: the services that
-- decide what may be traded, keep the orders and keep the books.
--
-- The program. A strategy or an agent produces a signal. The risk service sizes it against the
-- policy of the run and puts its decision on record. The order service turns an approved decision
-- into an order, moves it along a table of transitions, logs every step and records simulated
-- fills. The portfolio service keeps virtual portfolios: an order is assessed against the cash,
-- the exposures and the holdings, what is approved is reserved for a short time, a fill consumes
-- the reservation and changes the position, the cash and the ledger, and a kill switch stops a
-- portfolio. Each service works on the tables of one database; the risk service reads the fills
-- that the order service writes. The job service runs the scheduled work in the background, the
-- task service the work that is submitted to a queue. A rule specification is a strategy that is
-- written as data: it is validated, and a run on candles computes its indicators, evaluates its
-- rules and gives signals. The contest service freezes the dataset of a contest and, when the
-- contest closes, its standings. The freshness service says whether a dataset of the catalog is
-- recent enough for a purpose. The price alerts are checked against the quotes of a broker.
--
-- The files.
--   Prelude, Prelude/*: the library's names, Boolean tests, rows of a table, Python's integers, and
--     methods over a store that may raise, with transactions that take their writes back.
--   Domain: the enumerations of iimc_trading_platform/domain/enums.py.
--   Python: what the services use of Python's floats and texts, as a record of operations.
--   Orders/*: iimc_trading_platform/services/order_service.py. Rows has the tables and the table of
--     transitions, Methods the methods `create_order`, `transition`, `record_simulated_fill`, `get`,
--     `find_by_idempotency_key`. Trail and Audit are about the log, Lifecycle, Terminal, Creation and
--     Fills about the life of an order, Runs about sequences of calls.
--   Portfolio/*: iimc_trading_platform/services/portfolio_service.py. Rows has the tables, Reads the
--     queries and sums, Assess the decision of `evaluate_and_reserve`, Reserve its writes and `create`,
--     Snapshot `get` and `mark_to_market`, Fill `apply_fill`, `release_reservation` and
--     `set_trading_enabled`. OpenSells, Coverage, Promises and Approvals are about what is promised
--     for sale, Limits and Bounds about an approval, KillSwitch, Frozen and Standstill about a stopped portfolio,
--     Replays about a fill that is sent twice, Sales about the fill of a reserved sale, Runs about
--     sequences of calls.
--   Risk/*: iimc_trading_platform/services/risk_service.py. Rows has the policy and the tables,
--     Service the construction of the service and `evaluate`, Verdict what its decisions guarantee.
--   Jobs/*: iimc_trading_platform/services/job_service.py. Rows has the tables, Service `register`,
--     `_claim_next`, `_execute_claimed`, `_next_attempt`, `_finish`, `run_due` and `run_now`, Claims
--     and Endings are about one claim and one execution, Runs, Locked and Locks about
--     sequences of calls.
--   Tasks/*: iimc_trading_platform/services/task_service.py. Rows has the table, Service `submit`,
--     `get`, `_claim`, `_execute` and `run_due`. Sound and Moves are about the tasks under one call,
--     Submission, Stored, Runs, Claims and Final about several.
--   Rules/*: iimc_trading_platform/strategies/rule_spec.py. Spec has the data, Series the indicators,
--     References `_build_reference_series`, Evaluate `_value`, `_eval_rule`, `_rules_pass`,
--     `_rule_confidence` and `_rule_features`, Generate `generate`, Validate `validate_rule_spec`.
--     Alternation is about the signals, Lengths and Covered about the series, Resolution and Returns
--     about the rules and the turns of a validated specification, Dividing and Built about series that
--     are built without an exception, Validated about runs.
--   Contests/*: iimc_trading_platform/services/contest_service.py. Rows has the tables, Service
--     `dataset_fingerprint`, `create`, `get`, `is_open`, `close` and `results`, Standing and Closing
--     are about closed contests.
--   Freshness/*: iimc_trading_platform/services/freshness_service.py. Rows has the tables, Service
--     `DEFAULT_POLICIES`, `_ensure_policy` and `assess`, Verdicts and Assessments are about what an
--     assessment says and writes.
--   Alerts/*: iimc_trading_platform/services/price_alert_service.py. Rows has the table, Service
--     `create`, `list` and `evaluate`, Orderings is about the rows that a query picks, Triggers, Runs
--     and Final about the alerts that trigger.
--   Samples, and the Examples of each service: runs on concrete inputs.
--
-- The model. A method takes the store and returns a result, or the exception it raises, with the
-- store it leaves; a write before a raise stays unless a transaction takes it back. The clock, the
-- new identifiers and the date that the database calls today are arguments. A time is a number of
-- microseconds. A table is the list of its rows, the newest first; the keys that the code relies
-- on are checked where a row is inserted. The random keys of rows of a log or a ledger are left
-- out, and so are their collisions. Python's floats are a parameter with no laws but those that a
-- theorem names as a hypothesis, so that what is proved holds with the rounding of the IEEE
-- operations; integers are unbounded, as in Python. What a strategy uses of texts, sums and roots
-- is a parameter as well, `RuleLibrary`. Every definition ends by structural recursion, so none
-- has fuel.
--
-- Not modelled: the listings for a page (`list` of portfolios, tasks and contests,
-- `get_order_timeline`, `get_risk_summary`, `list_jobs`, `recent_runs`), which change nothing;
-- what the handlers of jobs and tasks do to other tables; risk controls and ages of features that
-- are integers too large for a float, on which the validation raises; the interleaving of two
-- processes inside one method; the other services, the agents and their language models, the web
-- interface and the storage layer.
pub mod Prelude
pub mod Domain
pub mod Python
pub mod Samples
pub mod Orders
pub mod Portfolio
pub mod Risk
pub mod Jobs
pub mod Tasks
pub mod Rules
pub mod Contests
pub mod Freshness
pub mod Alerts
