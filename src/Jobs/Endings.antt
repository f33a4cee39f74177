-- ===== src/Jobs/Endings.antt =====
-- About the executions of jobs (`_execute_claimed` and `_finish` of `JobService`): what they return and
-- leave, and how they count the attempts.
use coversational_algo_tradi.Jobs.Rows.{
  Claimed, Execution, JobDb, JobFailure, JobHandlers, JobRow, JobRun, Occasion, RunStatus, failed,
  succeeded,
}
use coversational_algo_tradi.Jobs.Service.{
  Ending, attempt_following, backoff, ending_of, execute_claimed, execution_of, finish,
  finished_run, has_job_id, has_run_id, insert_run, later_run, latest_run, next_attempt, outcome_of,
  put_back, seconds, started_run,
}
use coversational_algo_tradi.Prelude.{
  All, All-update_rows, Bool-cases, List, Option-cases, Result, Returned, String, [], any_row, ap,
  arith, eq_refl, err, false, inl, inr, leb_ℤ, ltb, none, of_returned, ok, pos, refl, some, str_eq,
  subst, true, update_rows, update_rows-All, ℕ, ◌+◌, ◌<◌, ◌∷◌, ◌≡◌, ◌≤◌, ◌⊎◌,
}

abbrev ended_with : JobHandlers → Claimed → Occasion → JobDb → Ending
ended_with handlers c at db =
    ending_of c (next_attempt c.job_id db) at.ended (outcome_of handlers c.job_type c.payload)

-- What an execution returns and leaves, where the identifier of its run is new.
module _ (handlers : JobHandlers) (c : Claimed) (worker : String) (at : Occasion) (db : JobDb) where
  abbrev ending : Ending
  ending = ended_with handlers c at db

  abbrev begun : JobRun
  begun = started_run c worker (next_attempt c.job_id db) at

  abbrev after_execution : JobDb
  after_execution =
      finish c.job_id at.job_run_id ending at.written (record db { job_runs = begun ∷ db.job_runs })

  abbrev Executed : Execution → JobDb → Type 0
  Executed x t =
      (x ≡ execution_of c (next_attempt c.job_id db) at.job_run_id ending) × (t ≡ after_execution)

  execute_claimed-Executed : Returned Executed (execute_claimed handlers c worker at db)
  unfolding execute_claimed insert_run
  execute_claimed-Executed = elim (Bool-cases (any_row (has_run_id at.job_run_id) db.job_runs)) [
    | inl taken ↦ rw taken tt
    | inr fresh ↦ rw fresh (refl, refl)
  ]

  backoff-le : (schedule attempt : ℕ) → backoff schedule attempt ≤ schedule
  unfolding backoff
  backoff-le schedule attempt = ground arith

  ending_of-soon :
      (attempt : ℕ) (r : Result JobFailure String)
      → (ending_of c attempt at.ended r).next_run_at ≤ at.ended + seconds c.schedule_seconds
  ending_of-soon attempt (ok result) = omega arith
  ending_of-soon attempt (err failure) = omega (arith, backoff-le c.schedule_seconds attempt)

  ending_of-disables :
      (attempt : ℕ) (r : Result JobFailure String)
      → (ending_of c attempt at.ended r).status ≡ failed
      → leb_ℤ c.max_retries (pos attempt) ≡ true
      → (ending_of c attempt at.ended r).disable ≡ true
  ending_of-disables attempt (ok result) h used = cc
  ending_of-disables attempt (err failure) h used = used

  -- The row of a job after an execution `x`.
  abbrev pub IsPutBack : Execution → JobRow → Type 0
  IsPutBack x j =
      (j.locked_at ≡ none)
      × (j.next_run_at ≤ at.ended + seconds c.schedule_seconds)
      × (x.status ≡ failed → leb_ℤ c.max_retries (pos x.attempt) ≡ true → j.enabled ≡ false)

  -- Once an execution has returned, the job is unlocked, its next run is at most its schedule after
  -- the end of the handler, and where the handler failed on the last of its attempts it is disabled.
  pub execute_claimed-puts_back :
      {x : Execution} {db' : JobDb}
      → execute_claimed handlers c worker at db ≡ (ok x, db')
      → All (λ j. has_job_id c.job_id j ≡ true → IsPutBack x j) db'.scheduled_jobs
  unfolding finish
  execute_claimed-puts_back {x} {db'} h =
      let (same, after) = of_returned Executed h execute_claimed-Executed in
      rw (same, after)
        (All-update_rows
          (λ j.
            has_job_id c.job_id j ≡ true
            → IsPutBack (execution_of c (next_attempt c.job_id db) at.job_run_id ending) j)
          (has_job_id c.job_id) (put_back ending at.written) db.scheduled_jobs
          (λ j this again.
            (refl, ending_of-soon _ _, λ lost used. rw (ending_of-disables _ _ lost used) refl))
          (λ j other again. cc))

  Before : JobRun → Type 0
  Before r = str_eq r.job_id c.job_id ≡ true → r.started_at < at.started

  latest_run-Before :
      (rows : List JobRun) {r : JobRun}
      → All Before rows
      → latest_run c.job_id rows ≡ some r
      → r.started_at < at.started
  unfolding Before
  latest_run-Before [] h e = cc
  latest_run-Before (s ∷ ss) {r} h e = elim (Bool-cases (str_eq s.job_id c.job_id)) [
    | inr other ↦ latest_run-Before ss h.1 (rw other at e)
    | inl this ↦ elim (Option-cases (latest_run c.job_id ss)) [
      | inl only ↦ let same : s ≡ r = cc in subst (λ r'. r'.started_at < at.started) same (h.0 this)
      | inr (t, rest) ↦
          let same : later_run s (some t) ≡ r = cc in
          subst (λ r'. r'.started_at < at.started) same
            (elim (Bool-cases (ltb s.started_at t.started_at)) [
              | inl newer ↦ rw newer (latest_run-Before ss h.1 rest)
              | inr older ↦ rw older (h.0 this)
            ])
    ]
  ]

  newest_run :
      (r : JobRun) (rows : List JobRun)
      → str_eq r.job_id c.job_id ≡ true
      → r.started_at ≡ at.started
      → All Before rows
      → latest_run c.job_id (r ∷ rows) ≡ some r
  newest_run r rows this now h = elim (Option-cases (latest_run c.job_id rows)) [
    | inl only ↦ rw (this, only) refl
    | inr (s, rest) ↦
        let before = latest_run-Before rows h rest in
        let kept : ltb r.started_at s.started_at ≡ false = ground arith in
        rw (this, rest, kept) refl
  ]

  next_attempt-following :
      {x : Execution} {db' : JobDb}
      → All Before db.job_runs
      → execute_claimed handlers c worker at db ≡ (ok x, db')
      → next_attempt c.job_id db' ≡ attempt_following x.status x.attempt
  unfolding finish next_attempt Before
  next_attempt-following {x} {db'} before h =
      let (same, after) = of_returned Executed h execute_claimed-Executed in
      let later =
        update_rows-All Before (has_run_id at.job_run_id) (finished_run ending at.written)
          db.job_runs (λ r kept. kept) before in
      let first = finished_run ending at.written begun in
      let newest : latest_run c.job_id (
            update_rows (has_run_id at.job_run_id) (finished_run ending at.written)
              (begun ∷ db.job_runs))
          ≡ some first =
        rw (eq_refl at.job_run_id) (
          newest_run first
            (update_rows (has_run_id at.job_run_id) (finished_run ending at.written) db.job_runs)
            (eq_refl c.job_id) refl later) in
      rw (same, after, newest) refl

  -- How an ending with its attempt is followed.
  IsFollowed : RunStatus → ℕ → ℕ → Type 0
  IsFollowed status attempt following =
      ((status ≡ succeeded) × (following ≡ 1)) ⊎ ((status ≡ failed) × (following ≡ attempt + 1))

  ending_of-IsFollowed :
      (attempt : ℕ) (r : Result JobFailure String)
      → let status = (ending_of c attempt at.ended r).status in
        IsFollowed status attempt (attempt_following status attempt)
  unfolding IsFollowed
  ending_of-IsFollowed attempt (ok result) = inl (refl, refl)
  ending_of-IsFollowed attempt (err failure) = inr (refl, refl)

  -- Once an execution has returned, and where every earlier run of the job started before it did, its
  -- attempt is the one that the runs before it call for, and it succeeded, and the next attempt at the
  -- job is the first again, or it failed, and the next attempt is the one after its own.
  pub next_attempt-execute_claimed :
      {x : Execution} {db' : JobDb}
      → All (λ r. str_eq r.job_id c.job_id ≡ true → r.started_at < at.started) db.job_runs
      → execute_claimed handlers c worker at db ≡ (ok x, db')
      → (x.attempt ≡ next_attempt c.job_id db)
        × (((x.status ≡ succeeded) × (next_attempt c.job_id db' ≡ 1))
            ⊎ ((x.status ≡ failed) × (next_attempt c.job_id db' ≡ x.attempt + 1)))
  unfolding Before IsFollowed
  next_attempt-execute_claimed {x} {db'} before h =
      let (same, after) = of_returned Executed h execute_claimed-Executed in
      let following = next_attempt-following before h in
      let followed =
        ending_of-IsFollowed (next_attempt c.job_id db)
          (outcome_of handlers c.job_type c.payload) in
      (ap (λ y. y.attempt) same, rw (following, same) followed)
