-- ===== src/Tasks/Service.antt =====
-- The methods of `TaskService` (iimc_trading_platform/services/task_service.py). New identifiers and
-- the readings of the clock are arguments.
use coversational_algo_tradi.Tasks.Rows.{
  TaskFailure, TaskHandlers, TaskMethod, TaskRequest, TaskRow, bad_max_attempts,
  constraint_violation, failed, is_running, is_waiting, key_error, microseconds, queued, retry,
  running, succeeded, task_not_found, unknown_task_type,
}
use coversational_algo_tradi.Prelude.{
  Bool, List, Option, Result, String, [], any_row, err, false, first_row, gets, if◌then◌else◌,
  is_some, leb, ltb, min, modify, none, not, ok, or_else, or_raise, pure, raise, raise_if, some,
  str_eq, suc, update_rows, zero, ℕ, ◌&&◌, ◌+◌, ◌>>=◌, ◌>>◌, ◌^◌, ◌||◌, ◌∷◌,
}

abbrev pub has_task_id : String → TaskRow → Bool
has_task_id id t = str_eq t.task_id id

abbrev pub key_is : String → Option String → Bool
key_is key none = false
key_is key (some k) = str_eq k key

abbrev pub has_key : String → TaskRow → Bool
has_key key t = key_is key t.idempotency_key

-- A row whose key clashes with a new one: a missing key never does.
abbrev pub shares_key : Option String → TaskRow → Bool
shares_key none t = false
shares_key (some key) t = has_key key t

unfoldable pub get_task : String → TaskMethod TaskRow
get_task id = do found ← gets (first_row (has_task_id id)); or_raise found task_not_found

unfoldable pub new_task : TaskRequest → String → ℕ → TaskRow
new_task q id now = record {
  task_id = id;
  task_type = q.task_type;
  idempotency_key = q.idempotency_key;
  payload = q.payload;
  status = queued;
  result = none;
  error_type = none;
  error_message = none;
  requested_by = q.requested_by;
  attempt = 0;
  max_attempts = q.max_attempts;
  next_attempt_at = now;
  locked_at = none;
  locked_by = none;
  created_at = now;
  started_at = none;
  finished_at = none;
  updated_at = now;
}

unfoldable pub insert_task : TaskRow → TaskMethod (Unit {0})
insert_task t rows =
    if any_row (has_task_id t.task_id) rows || any_row (shares_key t.idempotency_key) rows
    then raise constraint_violation rows
    else modify (λ ts. t ∷ ts) rows

-- `if idempotency_key:`, where the empty text is no key, and the row that has it.
abbrev pub existing_task : Option String → List TaskRow → Option TaskRow
existing_task none rows = none
existing_task (some key) rows = if str_eq key "" then none else first_row (has_key key) rows

abbrev pub existing_or_new : Option TaskRow → TaskRow → TaskMethod TaskRow
existing_or_new (some t) new = get_task t.task_id
existing_or_new none new = do insert_task new; get_task new.task_id

unfoldable pub submit : TaskHandlers → TaskRequest → String → ℕ → TaskMethod TaskRow
unfolding get_task new_task insert_task
submit handlers q id now = do
  raise_if (not (is_some (handlers q.task_type))) unknown_task_type
  raise_if (ltb q.max_attempts 1 || ltb 10 q.max_attempts) bad_max_attempts
  existing ← gets (existing_task q.idempotency_key)
  existing_or_new existing (new_task q id now)

-- `locked_at < ?`, fifteen minutes ago
abbrev pub is_stale : ℕ → Option ℕ → Bool
is_stale now none = false
is_stale now (some at) = ltb (at + microseconds 900) now

abbrev pub is_lost : ℕ → TaskRow → Bool
is_lost now t = is_running t.status && is_stale now t.locked_at

-- The two updates of the rows whose worker is lost.
abbrev pub is_spent : ℕ → TaskRow → Bool
is_spent now t = is_lost now t && leb t.max_attempts t.attempt

abbrev pub is_retriable : ℕ → TaskRow → Bool
is_retriable now t = is_lost now t && ltb t.attempt t.max_attempts

abbrev pub given_up : ℕ → TaskRow → TaskRow
given_up now t = record t {
  status = failed;
  error_type = some "StaleTaskError";
  error_message = some "Worker lock expired after final attempt";
  locked_at = none;
  locked_by = none;
  finished_at = some now;
  updated_at = now;
}

abbrev pub returned : ℕ → TaskRow → TaskRow
returned now t = record t { status = retry; locked_at = none; locked_by = none; updated_at = now }

unfoldable pub sweep : ℕ → List TaskRow → List TaskRow
sweep now rows =
    update_rows (is_retriable now) (returned now) (update_rows (is_spent now) (given_up now) rows)

abbrev pub is_unlocked : TaskRow → Bool
is_unlocked t = not (is_some t.locked_at)

abbrev pub is_claimable : ℕ → TaskRow → Bool
is_claimable now t =
    is_waiting t.status
    && (leb t.next_attempt_at now && (ltb t.attempt t.max_attempts && is_unlocked t))

abbrev pub older : TaskRow → Option TaskRow → TaskRow
older t none = t
older t (some s) = if leb s.created_at t.created_at then s else t

-- `ORDER BY created_at LIMIT 1`; of two rows with one time the older.
unfoldable pub next_task : ℕ → List TaskRow → Option TaskRow
next_task now [] = none
next_task now (t ∷ ts) =
    let rest = next_task now ts in if is_claimable now t then some (older t rest) else rest

abbrev pub started : String → ℕ → TaskRow → TaskRow
started worker now t = record t {
  status = running;
  locked_at = some now;
  locked_by = some worker;
  started_at = or_else t.started_at (some now);
  attempt = t.attempt + 1;
  updated_at = now;
}

-- `WHERE task_id = ? AND locked_at IS NULL`
abbrev pub takes : String → TaskRow → Bool
takes id t = has_task_id id t && is_unlocked t

abbrev pub take_task : Option TaskRow → String → ℕ → List TaskRow → List TaskRow
take_task none worker now rows = rows
take_task (some t) worker now rows = update_rows (takes t.task_id) (started worker now) rows

-- The identifier that was claimed: none where there was no task, or the update met no row.
abbrev pub taken_id : Option TaskRow → List TaskRow → Option String
taken_id none rows = none
taken_id (some t) rows = if any_row (takes t.task_id) rows then some t.task_id else none

abbrev pub read_claimed : Option String → TaskMethod (Option TaskRow)
read_claimed none = pure none
read_claimed (some id) = get_task id >>= λ t. pure (some t)

-- `_claim`
unfoldable pub claim : String → ℕ → TaskMethod (Option TaskRow)
unfolding sweep next_task get_task
claim worker now = do
  modify (sweep now)
  found ← gets (next_task now)
  id ← gets (taken_id found)
  modify (take_task found worker now)
  read_claimed id

-- `WHERE task_id = ? AND locked_by = ?`
abbrev pub is_held_by : String → String → TaskRow → Bool
is_held_by id worker t = has_task_id id t && key_is worker t.locked_by

abbrev pub done_with : String → ℕ → TaskRow → TaskRow
done_with result now t = record t {
  status = succeeded;
  result = some result;
  error_type = none;
  error_message = none;
  locked_at = none;
  locked_by = none;
  finished_at = some now;
  updated_at = now;
}

-- `min(300, 2 ** task["attempt"])`
unfoldable pub delay_seconds : ℕ → ℕ
delay_seconds attempt = min 300 (2 ^ attempt)

-- The row after a failure of the attempt that `task`, the dictionary of the claim, describes.
abbrev pub failed_with : TaskRow → TaskFailure → ℕ → TaskRow → TaskRow
failed_with task e now t =
    let final = leb task.max_attempts task.attempt in
    record t {
      status = if final then failed else retry;
      error_type = some e.error_type;
      error_message = some e.error_message;
      next_attempt_at = now + microseconds (delay_seconds task.attempt);
      locked_at = none;
      locked_by = none;
      finished_at = if final then some now else none;
      updated_at = now;
    }

abbrev pub after_attempt : TaskRow → Result TaskFailure String → ℕ → TaskRow → TaskRow
after_attempt task (ok result) now = done_with result now
after_attempt task (err e) now = failed_with task e now

-- `_execute`, once the handler has ended
unfoldable pub finish_task : TaskRow → String → Result TaskFailure String → ℕ → TaskMethod TaskRow
unfolding delay_seconds get_task
finish_task task worker outcome now = do
  modify (update_rows (is_held_by task.task_id worker) (after_attempt task outcome now))
  get_task task.task_id

-- `_execute`
unfoldable pub execute : TaskHandlers → TaskRow → String → ℕ → TaskMethod TaskRow
unfolding finish_task
execute handlers task worker now = do
  handler ← or_raise (handlers task.task_type) key_error
  finish_task task worker (handler task.payload) now

abbrev pub execute_claimed :
    TaskHandlers → Option TaskRow → String → ℕ → TaskMethod (Option TaskRow)
execute_claimed handlers none worker now = pure none
execute_claimed handlers (some task) worker now =
    execute handlers task worker now >>= λ t. pure (some t)

abbrev pub or_stop : Option TaskRow → TaskMethod (List TaskRow) → TaskMethod (List TaskRow)
or_stop none rest = pure []
or_stop (some t) rest = do ts ← rest; pure (t ∷ ts)

-- `run_due`, with the clock at each claim and at the end of each execution, by how many rounds are
-- left.
unfoldable pub run_due : TaskHandlers → String → (ℕ → ℕ) → (ℕ → ℕ) → ℕ → TaskMethod (List TaskRow)
unfolding claim execute
run_due handlers worker claims ends zero = pure []
run_due handlers worker claims ends (suc left) = do
  let rest = run_due handlers worker claims ends left
  task ← claim worker (claims left)
  done ← execute_claimed handlers task worker (ends left)
  or_stop done rest
