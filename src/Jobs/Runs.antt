-- ===== src/Jobs/Runs.antt =====
-- Sequences of calls of `JobService` by several workers. A worker's `run_due` is a sequence of
-- claims and executions, between which those of the others may come.
use coversational_algo_tradi.Prelude.{Bool, List, String, [], ℕ, ◌∷◌}
use coversational_algo_tradi.Jobs.Rows.{Claimed, JobDb, JobHandlers, JobRequest, Occasion}
use coversational_algo_tradi.Jobs.Service.{claim_next, execute_claimed, register, run_now}

-- A call with the identifiers and the clock that it meets.
pub data JobCall : Type 0 where
  registers : JobRequest → String → ℕ → JobCall
  claims_next : (String → String → Bool) → String → ℕ → JobCall
  executes_claimed : Claimed → String → Occasion → JobCall
  runs_now : String → String → ℕ → ℕ → Occasion → JobCall

module _ (handlers : JobHandlers) where
  -- The tables after a call, which may have raised.
  unfoldable pub after_job_call : JobCall → JobDb → JobDb
  after_job_call (registers q id now) db = (register handlers q id now db).1
  after_job_call (claims_next precedes worker now) db = (claim_next precedes worker now db).1
  after_job_call (executes_claimed c worker at) db = (execute_claimed handlers c worker at db).1
  after_job_call (runs_now id worker at now occasion) db =
      (run_now handlers id worker at now occasion db).1

  unfoldable pub after_job_calls : List JobCall → JobDb → JobDb
  unfolding after_job_call
  after_job_calls [] db = db
  after_job_calls (c ∷ cs) db = after_job_calls cs (after_job_call c db)
