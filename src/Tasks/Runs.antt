-- ===== src/Tasks/Runs.antt =====
-- Sequences of calls of `TaskService` by several workers, from an empty table. A worker's `run_due`
-- is a sequence of claims and executions, between which those of the others may come.
use coversational_algo_tradi.Tasks.Rows.{TaskHandlers, TaskRequest, TaskRow}
use coversational_algo_tradi.Tasks.Service.{claim, execute, submit}
use coversational_algo_tradi.Tasks.Sound.{AreSound}
use coversational_algo_tradi.Tasks.Moves.{claim-AreSound, execute-AreSound}
use coversational_algo_tradi.Tasks.Submission.{submit-AreSound}
use coversational_algo_tradi.Prelude.{List, String, [], ℕ, ◌∷◌}

-- A call with the identifiers and the clock that it meets. An execution has the dictionary of a claim,
-- which may be out of date.
pub data TaskCall : Type 0 where
  submits : TaskRequest → String → ℕ → TaskCall
  claims : String → ℕ → TaskCall
  executes : TaskRow → String → ℕ → TaskCall

empty-AreSound : AreSound []
empty-AreSound = record { distinct = tt; sound = tt }

module _ (handlers : TaskHandlers) where
  -- The table after a call, which may have raised.
  unfoldable pub after_call : TaskCall → List TaskRow → List TaskRow
  after_call (submits q id now) rows = (submit handlers q id now rows).1
  after_call (claims worker now) rows = (claim worker now rows).1
  after_call (executes task worker now) rows = (execute handlers task worker now rows).1

  unfoldable pub after_calls : List TaskCall → List TaskRow → List TaskRow
  unfolding after_call
  after_calls [] rows = rows
  after_calls (c ∷ cs) rows = after_calls cs (after_call c rows)

  pub after_call-AreSound :
      (c : TaskCall) (rows : List TaskRow) → AreSound rows → AreSound (after_call c rows)
  unfolding after_call
  after_call-AreSound (submits q id now) rows h = submit-AreSound handlers q id now rows h
  after_call-AreSound (claims worker now) rows h = claim-AreSound worker now rows h
  after_call-AreSound (executes task worker now) rows h =
      execute-AreSound handlers task worker now rows h

  pub after_calls-keep_AreSound :
      (cs : List TaskCall) (rows : List TaskRow) → AreSound rows → AreSound (after_calls cs rows)
  unfolding after_calls
  after_calls-keep_AreSound [] rows h = h
  after_calls-keep_AreSound (c ∷ cs) rows h =
      after_calls-keep_AreSound cs (after_call c rows) (after_call-AreSound c rows h)

  -- After any calls by any workers, raised or not, from an empty table: no two tasks have one
  -- identifier, every task has been attempted at most as often as its limit, which is between 1 and
  -- 10, is running exactly while it is locked and has a holder, and has a time at which it ended
  -- exactly when it has succeeded or failed.
  pub after_calls-AreSound : (cs : List TaskCall) → AreSound (after_calls cs [])
  after_calls-AreSound cs = after_calls-keep_AreSound cs [] empty-AreSound
