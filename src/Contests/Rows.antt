-- ===== src/Contests/Rows.antt =====
-- The tables of iimc_trading_platform/services/contest_service.py. `F` is the type of floats; times
-- are in microseconds, dates in days. Every table lists the newest row first.
use coversational_algo_tradi.Prelude.{Bool, List, Method, Option, String, false, true, ℕ, ℤ}

pub data ContestStatus : Type 0 where
  opened closed : ContestStatus

-- A row of `contests`.
pub record ContestRow : Type 0 where
  pub contest_id : String
  pub name : String
  pub symbol : String
  pub exchange : String
  pub eval_dataset_id : Option String
  pub dataset_hash : Option String
  pub closes_at : ℕ
  pub status : ContestStatus
  pub created_at : ℕ

-- A row of `contest_results`.
pub record ResultRow (F : Type 0) : Type 0 where
  pub result_id : String
  pub contest_id : String
  pub agent_id : String
  pub version : String
  pub run_id : Option String
  pub metrics_json : String
  pub composite : Option F
  pub rank : Option ℤ
  pub snapshot_at : ℕ

-- A row of `eval_datasets`.
pub record EvalDataset : Type 0 where
  pub eval_dataset_id : String
  pub symbol : String
  pub exchange : String
  pub bar_interval : String
  pub start_date : ℕ
  pub end_date : ℕ
  pub row_count : ℕ
  pub content_hash : String
  pub frozen_at : ℕ

pub record ContestStore (F : Type 0) : Type 0 where
  pub contests : List ContestRow
  pub contest_results : List (ResultRow F)
  pub eval_datasets : List EvalDataset

-- `constraint_violation` is the database's, of a key or of a column that may not be null.
pub data ContestError : Type 0 where
  unknown_contest constraint_violation : ContestError

-- The keyword arguments of `create`.
pub record ContestRequest : Type 0 where
  pub name : String
  pub symbol : String
  pub exchange : String
  pub dataset_id : Option String
  pub open_for_days : ℕ

-- The dictionary that `create` returns.
pub record Created : Type 0 where
  pub contest_id : String
  pub name : String
  pub symbol : String
  pub eval_dataset_id : Option String
  pub dataset_hash : Option String
  pub frozen_rows : ℕ
  pub closes_at : ℕ
  pub status : ContestStatus

-- An entry of `ranked`, with its metrics as a text of JSON. A version that is there is a text.
pub record Entry (F : Type 0) : Type 0 where
  pub agent_id : Option String
  pub version : Option String
  pub run_id : Option String
  pub metrics : String
  pub composite : Option F
  pub rank : Option ℤ

-- The dictionary of `results`.
pub record Standings (F : Type 0) : Type 0 where
  pub contest_id : String
  pub status : Option ContestStatus
  pub dataset_hash : Option String
  pub results : List (ResultRow F)

-- What `close` returns.
pub data Closing (F : Type 0) : Type 0 where
  already_closed : List (ResultRow F) → Closing F
  snapshot : ℕ → Option String → ℕ → Closing F

abbrev pub ContestMethod : Type 0 → Type 0 → Type 0
ContestMethod F A = Method (ContestStore F) ContestError A

abbrev pub is_closed : ContestStatus → Bool
is_closed closed = true
is_closed opened = false
