-- ===== src/Tasks/Examples.antt =====
-- Runs of the task service on concrete inputs: a task whose handler fails, with two attempts at most.
use coversational_algo_tradi.Tasks.Rows.{TaskFailure, TaskHandlers, TaskRequest, TaskRow, failed}
use coversational_algo_tradi.Tasks.Service.{
  claim, delay_seconds, execute, failed_with, finish_task, get_task, has_task_id, insert_task,
  new_task, next_task, started, submit, sweep,
}
use coversational_algo_tradi.Tasks.Sound.{AreSound}
use coversational_algo_tradi.Tasks.Runs.{
  TaskCall, after_call, after_calls, after_calls-AreSound, claims, executes, submits,
}
use coversational_algo_tradi.Prelude.{
  List, [], arith, err, false, first_row, if◌then◌else◌, none, ok, refl, some, str_eq, ◌∷◌, ◌≡◌,
}
use coversational_algo_tradi.Tasks.Submission.{submit_idempotent}
use coversational_algo_tradi.Tasks.Claims.{claim_is_exclusive}
use coversational_algo_tradi.Tasks.Final.{final_task_stays}

abbrev handlers : TaskHandlers
handlers task_type =
    if str_eq task_type "report"
    then some (λ payload. err (record { error_type = "ValueError"; error_message = "no data" }))
    else none

abbrev request : TaskRequest
request = record {
  task_type = "report";
  payload = "{}";
  requested_by = "ops";
  idempotency_key = some "k1";
  max_attempts = 2;
}

abbrev other_request : TaskRequest
other_request = record request { idempotency_key = none; payload = "[]" }

abbrev first_task : TaskRow
first_task = new_task request "t1" 100

abbrev second_task : TaskRow
second_task = new_task other_request "t2" 200

abbrev submitted : List TaskCall
submitted = submits request "t1" 100 ∷ submits other_request "t2" 200 ∷ []

abbrev first_claimed : TaskRow
first_claimed = started "w1" 1000 first_task

-- The task is claimed and fails, and again after its delay; a third worker then reports late.
abbrev two_failures : List TaskCall
two_failures =
    submits request "t1" 100
    ∷ claims "w1" 1000
    ∷ executes first_claimed "w1" 2000
    ∷ claims "w2" 3000000
    ∷ executes (started "w2" 3000000 (failed_with first_claimed failure 2000 first_claimed)) "w2"
        3100000
    ∷ []
  where
    failure : TaskFailure
    failure = record { error_type = "ValueError"; error_message = "no data" }

after_calls-AreSound_example : AreSound (after_calls handlers two_failures [])
after_calls-AreSound_example = after_calls-AreSound handlers two_failures

abbrev late : List TaskCall
late = claims "w1" 4000000 ∷ executes first_claimed "w1" 5000000 ∷ []

abbrev given_up_task : TaskRow
given_up_task = record first_task {
  status = failed;
  error_type = some "ValueError";
  error_message = some "no data";
  attempt = 2;
  next_attempt_at = 7100000;
  started_at = some 1000;
  finished_at = some 3100000;
  updated_at = 3100000;
}

final_task_stays_example :
    first_row (has_task_id "t1") (after_calls handlers late (after_calls handlers two_failures []))
    ≡ some given_up_task
unfolding after_calls after_call submit get_task new_task insert_task claim sweep next_task execute
    finish_task delay_seconds
final_task_stays_example =
    final_task_stays handlers two_failures late "t1" {t = given_up_task} refl refl

abbrev once_claimed : List TaskRow
once_claimed = (claim "w1" 1000 (after_calls handlers submitted [])).1

-- A worker who does not hold the first task reports on it.
abbrev meantime : List TaskCall
meantime = executes first_claimed "w2" 1500 ∷ []

abbrev twice_claimed : List TaskRow
twice_claimed = (claim "w2" 2000 (after_calls handlers meantime once_claimed)).1

claim_is_exclusive_example : str_eq "t2" "t1" ≡ false
unfolding after_calls after_call submit get_task new_task insert_task claim sweep next_task execute
    finish_task delay_seconds
claim_is_exclusive_example =
    claim_is_exclusive handlers submitted meantime "w1" "w2" 1000 2000 {t = first_claimed}
      {t' = started "w2" 2000 second_task} {rows' = once_claimed} {rows'' = twice_claimed} refl
      (refl, tt) (omega arith) refl

abbrev retried : TaskRequest
retried = record request { payload = "[1]" }

submit_idempotent_example :
    submit handlers retried "t3" 300 (first_task ∷ []) ≡ (ok first_task, first_task ∷ [])
unfolding submit get_task new_task insert_task
submit_idempotent_example =
    submit_idempotent handlers request retried "t1" "t3" "k1" 100 300 [] {t = first_task}
      {rows' = first_task ∷ []} (record { distinct = tt; sound = tt }) refl refl refl refl
      (refl, refl)
