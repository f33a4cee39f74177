-- ===== src/Jobs/Examples.antt =====
-- Runs of the job service on concrete inputs: one job whose handler fails, with one failed run behind
-- it and two retries in all.
use coversational_algo_tradi.Jobs.Rows.{
  Execution, JobDb, JobHandlers, JobRow, JobRun, Occasion, failed, raised, succeeded,
}
use coversational_algo_tradi.Jobs.Service.{
  backoff, claim_next, claim_of, execute_claimed, finish, has_job_id, insert_run, lock_job,
  next_attempt, next_due,
}
use coversational_algo_tradi.Jobs.Endings.{
  IsPutBack, execute_claimed-puts_back, next_attempt-execute_claimed,
}
use coversational_algo_tradi.Prelude.{
  All, Bool, List, String, [], arith, err, false, if◌then◌else◌, none, pos, refl, some, str_eq,
  true, ◌∷◌, ◌≡◌, ◌⊎◌,
}
use coversational_algo_tradi.Jobs.Locks.{claim_excludes}
use coversational_algo_tradi.Jobs.Runs.{JobCall, after_job_call, after_job_calls, claims_next}

abbrev handlers : JobHandlers
handlers job_type =
    if str_eq job_type "scan" then some (λ payload. err (raised "ValueError" "no data")) else none

abbrev in_order : String → String → Bool
in_order a b = false

abbrev scan : JobRow
scan = record {
  job_id = "j1";
  name = "scan";
  job_type = "scan";
  schedule_seconds = 60;
  payload = "{}";
  enabled = true;
  max_retries = pos 2;
  next_run_at = 500;
  locked_at = none;
  locked_by = none;
  created_at = 100;
  updated_at = 100;
}

abbrev index : JobRow
index = record scan { job_id = "j2"; name = "index"; next_run_at = 600 }

abbrev failed_run : JobRun
failed_run = record {
  job_run_id = "run1";
  job_id = "j1";
  status = failed;
  attempt = 1;
  worker_id = "w1";
  result = none;
  failure = some (raised "ValueError" "no data");
  started_at = 300;
  finished_at = some 400;
}

abbrev jobs : JobDb
jobs = record { scheduled_jobs = scan ∷ index ∷ []; job_runs = failed_run ∷ [] }

abbrev occasion : Occasion
occasion = record { job_run_id = "run2"; started = 1000; ended = 1100; written = 1200 }

abbrev scan_locked : JobDb
scan_locked = lock_job (some scan) "w1" 1000 jobs

abbrev both_locked : JobDb
both_locked = lock_job (some index) "w2" 2000 scan_locked

-- A worker looks at the jobs before any but the locked one is due.
abbrev meantime : List JobCall
meantime = claims_next in_order "w3" 0 ∷ []

claim_excludes_example : str_eq "j2" "j1" ≡ false
unfolding claim_next next_due after_job_calls after_job_call
claim_excludes_example =
    claim_excludes handlers in_order in_order "w1" "w2" 1000 2000 jobs meantime {c = claim_of scan}
      {c' = claim_of index} {db' = scan_locked} {db'' = both_locked} refl (omega arith, tt)
      (omega arith) refl

abbrev second_failure : Execution
second_failure = record {
  job_run_id = "run2";
  job_id = "j1";
  status = failed;
  attempt = 2;
  result = none;
  error_type = some "ValueError";
}

abbrev after_failure : JobDb
after_failure = (execute_claimed handlers (claim_of scan) "w1" occasion scan_locked).1

execute_claimed-puts_back_example :
    All
      (λ j.
        has_job_id "j1" j ≡ true
        → IsPutBack handlers (claim_of scan) "w1" occasion scan_locked second_failure j)
      after_failure.scheduled_jobs
unfolding execute_claimed next_attempt insert_run finish backoff
execute_claimed-puts_back_example =
    execute_claimed-puts_back handlers (claim_of scan) "w1" occasion scan_locked
      {x = second_failure} {db' = after_failure} refl

next_attempt-execute_claimed_example :
    (2 ≡ next_attempt "j1" scan_locked)
    × (((failed ≡ succeeded) × (next_attempt "j1" after_failure ≡ 1))
        ⊎ ((failed ≡ failed) × (next_attempt "j1" after_failure ≡ 3)))
unfolding execute_claimed next_attempt insert_run finish backoff
next_attempt-execute_claimed_example =
    next_attempt-execute_claimed handlers (claim_of scan) "w1" occasion scan_locked
      {x = second_failure} {db' = after_failure} ((λ same. omega arith), tt) refl
