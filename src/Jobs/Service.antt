-- ===== src/Jobs/Service.antt =====
-- The methods of `JobService` (iimc_trading_platform/services/job_service.py). The new identifiers and
-- the readings of the clock are arguments; times are in microseconds.
use mathlib.Core.Option
use coversational_algo_tradi.Jobs.Rows.{
  Claimed, Execution, JobDb, JobFailure, JobHandlers, JobMethod, JobRequest, JobRow, JobRun,
  Occasion, RunStatus, duplicate_key, error_type_of, failed, job_not_found, key_error, row_missing,
  running, schedule_too_short, succeeded, unknown_job_type,
}
use coversational_algo_tradi.Prelude.{
  Bool, List, Option, Result, String, [], any_row, err, false, first_row, gets, if◌then◌else◌,
  is_some, leb, leb_ℤ, ltb, min, modify, none, not, ok, or_raise, pos, pure, raise, raise_if, some,
  str_eq, suc, true, update_rows, zero, ℕ, ◌&&◌, ◌*◌, ◌+◌, ◌-◌, ◌==◌, ◌>>=◌, ◌>>◌, ◌^◌, ◌||◌, ◌∷◌,
}

abbrev pub has_job_id : String → JobRow → Bool
has_job_id id j = str_eq j.job_id id

abbrev pub has_job_name : String → JobRow → Bool
has_job_name name j = str_eq j.name name

abbrev pub has_run_id : String → JobRun → Bool
has_run_id id r = str_eq r.job_run_id id

abbrev pub seconds : ℕ → ℕ
seconds n = n * 1000000

abbrev pub new_job : JobRequest → String → ℕ → JobRow
new_job q id now = record {
  job_id = id;
  name = q.name;
  job_type = q.job_type;
  schedule_seconds = q.schedule_seconds;
  payload = q.payload;
  enabled = q.enabled;
  max_retries = q.max_retries;
  next_run_at = now;
  locked_at = none;
  locked_by = none;
  created_at = now;
  updated_at = now;
}

-- `ON CONFLICT (name) DO UPDATE SET …`
abbrev pub updated_job : JobRequest → ℕ → JobRow → JobRow
updated_job q now j = record j {
  job_type = q.job_type;
  schedule_seconds = q.schedule_seconds;
  payload = q.payload;
  enabled = q.enabled;
  max_retries = q.max_retries;
  updated_at = now;
}

unfoldable pub upsert_job : JobRequest → String → ℕ → JobMethod (Unit {0})
upsert_job q id now db =
    if any_row (has_job_name q.name) db.scheduled_jobs
    then modify
        (λ t. record t {
          scheduled_jobs = update_rows (has_job_name q.name) (updated_job q now) t.scheduled_jobs;
        })
        db
    else if any_row (has_job_id id) db.scheduled_jobs
    then raise duplicate_key db
    else modify (λ t. record t { scheduled_jobs = new_job q id now ∷ t.scheduled_jobs }) db

unfoldable pub register : JobHandlers → JobRequest → String → ℕ → JobMethod String
unfolding upsert_job
register handlers q id now = do
  raise_if (not (is_some (handlers q.job_type))) unknown_job_type
  raise_if (ltb q.schedule_seconds 10) schedule_too_short
  upsert_job q id now
  found ← gets (λ db. first_row (has_job_name q.name) db.scheduled_jobs)
  stored ← or_raise found row_missing
  pure stored.job_id

abbrev pub claim_of : JobRow → Claimed
claim_of j = record {
  job_id = j.job_id;
  job_type = j.job_type;
  payload = j.payload;
  schedule_seconds = j.schedule_seconds;
  max_retries = j.max_retries;
}

abbrev pub locked : String → ℕ → ℕ → JobRow → JobRow
locked worker at now j = record j { locked_at = some at; locked_by = some worker; updated_at = now }

-- No lock, or one from more than fifteen minutes ago.
abbrev pub is_unlocked : ℕ → Option ℕ → Bool
is_unlocked now none = true
is_unlocked now (some at) = ltb (at + seconds 900) now

abbrev pub is_due : ℕ → JobRow → Bool
is_due now j = j.enabled && (leb j.next_run_at now && is_unlocked now j.locked_at)

-- `ORDER BY next_run_at, job_id LIMIT 1`, with the order of the database on texts.
abbrev pub sooner : (String → String → Bool) → JobRow → JobRow → Bool
sooner precedes a b =
    ltb a.next_run_at b.next_run_at
    || (a.next_run_at == b.next_run_at && precedes a.job_id b.job_id)

abbrev pub first_of : (String → String → Bool) → JobRow → Option JobRow → JobRow
first_of precedes a none = a
first_of precedes a (some b) = if sooner precedes b a then b else a

unfoldable pub next_due : (String → String → Bool) → ℕ → List JobRow → Option JobRow
next_due precedes now [] = none
next_due precedes now (j ∷ js) =
    let rest = next_due precedes now js in
    if is_due now j then some (first_of precedes j rest) else rest

abbrev pub lock_job : Option JobRow → String → ℕ → JobDb → JobDb
lock_job none worker now db = db
lock_job (some j) worker now db = record db {
  scheduled_jobs = update_rows (has_job_id j.job_id) (locked worker now now) db.scheduled_jobs;
}

-- `_claim_next`
unfoldable pub claim_next : (String → String → Bool) → String → ℕ → JobDb → Option Claimed × JobDb
unfolding next_due
claim_next precedes worker now db =
    let found = next_due precedes now db.scheduled_jobs in
    (Option.map claim_of found, lock_job found worker now db)

abbrev pub later_run : JobRun → Option JobRun → JobRun
later_run r none = r
later_run r (some s) = if ltb r.started_at s.started_at then s else r

-- `ORDER BY started_at DESC LIMIT 1`. The database may take any of two runs with one time; here it is
-- the newer row.
abbrev pub latest_run : String → List JobRun → Option JobRun
latest_run id [] = none
latest_run id (r ∷ rs) =
    let rest = latest_run id rs in if str_eq r.job_id id then some (later_run r rest) else rest

-- The attempt after a run with this status and this number.
abbrev pub attempt_following : RunStatus → ℕ → ℕ
attempt_following failed attempt = attempt + 1
attempt_following running attempt = 1
attempt_following succeeded attempt = 1

abbrev pub attempt_after : Option JobRun → ℕ
attempt_after none = 1
attempt_after (some r) = attempt_following r.status r.attempt

-- `_next_attempt`
unfoldable pub next_attempt : String → JobDb → ℕ
next_attempt id db = attempt_after (latest_run id db.job_runs)

abbrev pub started_run : Claimed → String → ℕ → Occasion → JobRun
started_run c worker attempt at = record {
  job_run_id = at.job_run_id;
  job_id = c.job_id;
  status = running;
  attempt = attempt;
  worker_id = worker;
  result = none;
  failure = none;
  started_at = at.started;
  finished_at = none;
}

unfoldable pub insert_run : JobRun → JobMethod (Unit {0})
insert_run r db =
    if any_row (has_run_id r.job_run_id) db.job_runs
    then raise duplicate_key db
    else modify (λ t. record t { job_runs = r ∷ t.job_runs }) db

-- `min(schedule_seconds, 30 * (2 ** min(attempt - 1, 6)))`; an attempt is at least 1.
unfoldable pub backoff : ℕ → ℕ → ℕ
backoff schedule attempt = min schedule (30 * 2 ^ min (attempt - 1) 6)

-- The arguments of `_finish` that depend on how the handler ended.
pub record Ending : Type 0 where
  pub status : RunStatus
  pub next_run_at : ℕ
  pub result : Option String
  pub failure : Option JobFailure
  pub disable : Bool

-- `_finish`
abbrev pub finished_run : Ending → ℕ → JobRun → JobRun
finished_run e now r = record r {
  status = e.status;
  result = e.result;
  failure = e.failure;
  finished_at = some now;
}

abbrev pub put_back : Ending → ℕ → JobRow → JobRow
put_back e now j = record j {
  next_run_at = e.next_run_at;
  locked_at = none;
  locked_by = none;
  enabled = if e.disable then false else j.enabled;
  updated_at = now;
}

unfoldable pub finish : String → String → Ending → ℕ → JobDb → JobDb
finish id run_id e now db = record {
  scheduled_jobs = update_rows (has_job_id id) (put_back e now) db.scheduled_jobs;
  job_runs = update_rows (has_run_id run_id) (finished_run e now) db.job_runs;
}

-- `self.handlers[job_type](…)`, with the error of a missing key.
abbrev pub outcome_of : JobHandlers → String → String → Result JobFailure String
outcome_of handlers job_type payload = elim (handlers job_type) [
  | none ↦ err (key_error job_type)
  | some handler ↦ handler payload
]

abbrev pub ending_of : Claimed → ℕ → ℕ → Result JobFailure String → Ending
ending_of c attempt ended (ok result) = record {
  status = succeeded;
  next_run_at = ended + seconds c.schedule_seconds;
  result = some result;
  failure = none;
  disable = false;
}
ending_of c attempt ended (err failure) = record {
  status = failed;
  next_run_at = ended + seconds (backoff c.schedule_seconds attempt);
  result = none;
  failure = some failure;
  disable = leb_ℤ c.max_retries (pos attempt);
}

abbrev pub execution_of : Claimed → ℕ → String → Ending → Execution
execution_of c attempt run_id e = record {
  job_run_id = run_id;
  job_id = c.job_id;
  status = e.status;
  attempt = attempt;
  result = e.result;
  error_type = Option.map error_type_of e.failure;
}

-- `_execute_claimed`
unfoldable pub execute_claimed : JobHandlers → Claimed → String → Occasion → JobMethod Execution
unfolding next_attempt insert_run backoff finish
execute_claimed handlers c worker at = do
  attempt ← gets (next_attempt c.job_id)
  insert_run (started_run c worker attempt at)
  let e = ending_of c attempt at.ended (outcome_of handlers c.job_type c.payload)
  modify (finish c.job_id at.job_run_id e at.written)
  pure (execution_of c attempt at.job_run_id e)

abbrev pub run_claimed :
    JobHandlers → Option Claimed → String → Occasion → JobMethod (Option Execution)
run_claimed handlers none worker at = pure none
run_claimed handlers (some c) worker at =
    execute_claimed handlers c worker at >>= λ x. pure (some x)

abbrev pub or_stop : Option Execution → JobMethod (List Execution) → JobMethod (List Execution)
or_stop none rest = pure []
or_stop (some x) rest = do xs ← rest; pure (x ∷ xs)

-- `run_due`, with the clock at each claim and the occasion of each execution, by how many rounds
-- are left.
unfoldable pub run_due :
    JobHandlers
    → (String → String → Bool)
    → String
    → (ℕ → ℕ)
    → (ℕ → Occasion)
    → ℕ
    → JobMethod (List Execution)
unfolding claim_next execute_claimed
run_due handlers precedes worker clock occasions zero = pure []
run_due handlers precedes worker clock occasions (suc left) = do
  let rest = run_due handlers precedes worker clock occasions left
  claimed ← gets (λ db. (claim_next precedes worker (clock left) db).0)
  modify (λ db. (claim_next precedes worker (clock left) db).1)
  done ← run_claimed handlers claimed worker (occasions left)
  or_stop done rest

-- `run_now`, with the readings of the clock for the lock and for the row.
unfoldable pub run_now : JobHandlers → String → String → ℕ → ℕ → Occasion → JobMethod Execution
unfolding execute_claimed
run_now handlers id worker at now occasion = do
  found ← gets (λ db. first_row (λ j. has_job_id id j && j.enabled) db.scheduled_jobs)
  job ← or_raise found job_not_found
  modify (λ db. record db {
    scheduled_jobs = update_rows (has_job_id id) (locked worker at now) db.scheduled_jobs;
  })
  execute_claimed handlers (claim_of job) worker occasion
