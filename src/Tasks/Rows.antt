-- ===== src/Tasks/Rows.antt =====
-- The table of iimc_trading_platform/services/task_service.py. A payload and the result of a handler
-- are texts of JSON. `work_tasks` lists the newest row first; times are in microseconds.
use coversational_algo_tradi.Prelude.{
  Bool, List, Method, Option, Result, String, false, true, ℕ, ◌*◌,
}

pub data TaskStatus : Type 0 where
  queued running retry succeeded failed : TaskStatus

-- A row of `work_tasks`, and the dictionary that `get` makes of it.
pub record TaskRow : Type 0 where
  pub task_id : String
  pub task_type : String
  pub idempotency_key : Option String
  pub payload : String
  pub status : TaskStatus
  pub result : Option String
  pub error_type : Option String
  pub error_message : Option String
  pub requested_by : String
  pub attempt : ℕ
  pub max_attempts : ℕ
  pub next_attempt_at : ℕ
  pub locked_at : Option ℕ
  pub locked_by : Option String
  pub created_at : ℕ
  pub started_at : Option ℕ
  pub finished_at : Option ℕ
  pub updated_at : ℕ

-- `key_error` is that of a type without a handler, `constraint_violation` the database's.
pub data TaskError : Type 0 where
  unknown_task_type bad_max_attempts task_not_found key_error constraint_violation : TaskError

-- The keyword arguments of `submit`. A number of attempts below 0 is refused as 0 is.
pub record TaskRequest : Type 0 where
  pub task_type : String
  pub payload : String
  pub requested_by : String
  pub idempotency_key : Option String
  pub max_attempts : ℕ

-- An exception: its type and its text.
pub record TaskFailure : Type 0 where
  pub error_type : String
  pub error_message : String

abbrev pub TaskHandlers : Type 0
TaskHandlers = String → Option (String → Result TaskFailure String)

abbrev pub TaskMethod : Type 0 → Type 0
TaskMethod A = Method (List TaskRow) TaskError A

abbrev pub is_running : TaskStatus → Bool
is_running running = true
is_running _ = false

-- `status IN ('queued', 'retry')`
abbrev pub is_waiting : TaskStatus → Bool
is_waiting queued = true
is_waiting retry = true
is_waiting _ = false

abbrev pub is_final : TaskStatus → Bool
is_final succeeded = true
is_final failed = true
is_final _ = false

abbrev pub microseconds : ℕ → ℕ
microseconds seconds = seconds * 1000000
