-- ===== src/Jobs/Rows.antt =====
-- The tables of iimc_trading_platform/services/job_service.py. A payload and the result of a
-- handler are texts of JSON; a schedule is a number, since one below 10 is refused. `job_runs` and
-- `scheduled_jobs` list the newest row first.
use coversational_algo_tradi.Prelude.{Bool, List, Method, Option, Result, String, ℕ, ℤ}

pub record JobRow : Type 0 where
  pub job_id : String
  pub name : String
  pub job_type : String
  pub schedule_seconds : ℕ
  pub payload : String
  pub enabled : Bool
  pub max_retries : ℤ
  pub next_run_at : ℕ
  pub locked_at : Option ℕ
  pub locked_by : Option String
  pub created_at : ℕ
  pub updated_at : ℕ

pub data RunStatus : Type 0 where
  running failed succeeded : RunStatus

-- The exception that ended a run: that of a missing handler, or a handler's own with its type and
-- its message.
pub data JobFailure : Type 0 where
  key_error : String → JobFailure
  raised : String → String → JobFailure

abbrev pub error_type_of : JobFailure → String
error_type_of (key_error job_type) = "KeyError"
error_type_of (raised error_type message) = error_type

pub record JobRun : Type 0 where
  pub job_run_id : String
  pub job_id : String
  pub status : RunStatus
  pub attempt : ℕ
  pub worker_id : String
  pub result : Option String
  pub failure : Option JobFailure
  pub started_at : ℕ
  pub finished_at : Option ℕ

pub record JobDb : Type 0 where
  pub scheduled_jobs : List JobRow
  pub job_runs : List JobRun

pub data JobError : Type 0 where
  unknown_job_type schedule_too_short job_not_found duplicate_key row_missing : JobError

-- The keyword arguments of `register`.
pub record JobRequest : Type 0 where
  pub name : String
  pub job_type : String
  pub schedule_seconds : ℕ
  pub payload : String
  pub max_retries : ℤ
  pub enabled : Bool

-- The columns of a job that a claim reads.
pub record Claimed : Type 0 where
  pub job_id : String
  pub job_type : String
  pub payload : String
  pub schedule_seconds : ℕ
  pub max_retries : ℤ

-- The readings of the clock and the new identifier that one execution meets: when the run starts,
-- when its handler has ended, and when that is written.
pub record Occasion : Type 0 where
  pub job_run_id : String
  pub started : ℕ
  pub ended : ℕ
  pub written : ℕ

-- The dictionary that `_execute_claimed` returns.
pub record Execution : Type 0 where
  pub job_run_id : String
  pub job_id : String
  pub status : RunStatus
  pub attempt : ℕ
  pub result : Option String
  pub error_type : Option String

abbrev pub JobMethod : Type 0 → Type 0
JobMethod A = Method JobDb JobError A

-- The handler of a type of jobs, on a payload. What it does outside the tables of jobs is not
-- modelled.
abbrev pub JobHandlers : Type 0
JobHandlers = String → Option (String → Result JobFailure String)
