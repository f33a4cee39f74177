-- ===== src/Jobs/Locks.antt =====
-- About the lock of a claimed job, under the calls of `JobService` that come after its claim.
use coversational_algo_tradi.Prelude.{
  All, Bool, Bool-cases, List, String, [], any_row, any_row-update_rows, eq_refl, false, inl, inr,
  refl, some, str_eq, subst, sym, true, ℕ, ◌+◌, ◌∷◌, ◌≡◌, ◌≤◌,
}
use coversational_algo_tradi.Jobs.Rows.{Claimed, JobDb, JobHandlers, JobRow}
use coversational_algo_tradi.Jobs.Service.{claim_next, has_job_id, lock_job, locked, seconds}
use coversational_algo_tradi.Jobs.Claims.{
  LockedAt, claim_next-row, lock_excludes, lock_job-LockedAt, next_due-All,
}
use coversational_algo_tradi.Jobs.Runs.{
  JobCall, after_job_call, after_job_calls, claims_next, executes_claimed, registers, runs_now,
}
use coversational_algo_tradi.Jobs.Locked.{
  IsLocked, claim_next-IsLocked, execute_claimed-IsLocked, register-IsLocked, run_now-IsLocked,
}

-- Every row is found by its identifier.
All-own :
    (rows suffix : List JobRow)
    → ((id : String) → any_row (has_job_id id) suffix ≡ true → any_row (has_job_id id) rows ≡ true)
    → All (λ k. any_row (has_job_id k.job_id) rows ≡ true) suffix
All-own rows [] within = tt
All-own rows (k ∷ ks) within = (
  within k.job_id (rw (eq_refl k.job_id) refl),
  All-own rows ks (λ id there. within id (elim (Bool-cases (has_job_id id k)) [
    | inl this ↦ rw this refl
    | inr other ↦ rw other there
  ])),
)

module _ (id : String) (now : ℕ) where
  -- A call that is neither a claim more than fifteen minutes after the lock nor a run of the job.
  abbrev pub LeavesJobLock : JobCall → Type 0
  LeavesJobLock (registers q new_id now') = Unit
  LeavesJobLock (claims_next precedes worker now') = now' ≤ now + seconds 900
  LeavesJobLock (executes_claimed c worker at) = str_eq c.job_id id ≡ false
  LeavesJobLock (runs_now id' worker at now' occasion) = str_eq id' id ≡ false

  after_job_calls-IsLocked :
      (handlers : JobHandlers) (cs : List JobCall) (db : JobDb)
      → All LeavesJobLock cs
      → IsLocked id now db.scheduled_jobs
      → IsLocked id now (after_job_calls handlers cs db).scheduled_jobs
  unfolding after_job_calls after_job_call
  after_job_calls-IsLocked handlers [] db leave h = h
  after_job_calls-IsLocked handlers (registers q new_id now' ∷ cs) db leave h =
      after_job_calls-IsLocked handlers cs _ leave.1
        (register-IsLocked id now handlers q new_id now' db h)
  after_job_calls-IsLocked handlers (claims_next precedes worker now' ∷ cs) db leave h =
      after_job_calls-IsLocked handlers cs _ leave.1
        (claim_next-IsLocked id now precedes worker now' db leave.0 h)
  after_job_calls-IsLocked handlers (executes_claimed c worker at ∷ cs) db leave h =
      after_job_calls-IsLocked handlers cs _ leave.1
        (execute_claimed-IsLocked id now handlers c worker at db leave.0 h)
  after_job_calls-IsLocked handlers (runs_now id' worker at now' occasion ∷ cs) db leave h =
      after_job_calls-IsLocked handlers cs _ leave.1
        (run_now-IsLocked id now handlers id' worker at now' occasion db leave.0 h)

-- If a worker has claimed a job, and after it come any registrations, any claims up to fifteen minutes
-- later, and any executions and any `run_now` of other jobs, then a claim by any worker up to fifteen
-- minutes later, with any order of the identifiers, is not of that job.
pub claim_excludes :
    (handlers : JobHandlers) (precedes precedes' : String → String → Bool) (worker worker' : String)
    (now now' : ℕ) (db : JobDb) (after : List JobCall) {c c' : Claimed} {db' db'' : JobDb}
    → claim_next precedes worker now db ≡ (some c, db')
    → All (LeavesJobLock c.job_id now) after
    → now' ≤ now + seconds 900
    → claim_next precedes' worker' now' (after_job_calls handlers after db') ≡ (some c', db'')
    → str_eq c'.job_id c.job_id ≡ false
unfolding IsLocked
claim_excludes handlers precedes precedes' worker worker' now now' db after {c} {db' = db'} first
      leave soon second =
    let (j, found, claim, store) = claim_next-row precedes worker now db first in
    let later = after_job_calls handlers after db' in
    let (j', found', claim', store') = claim_next-row precedes' worker' now' later second in
    let (own, due) =
      next_due-All (λ k. any_row (has_job_id k.job_id) db.scheduled_jobs ≡ true) precedes now
        db.scheduled_jobs (All-own db.scheduled_jobs db.scheduled_jobs (λ id there. there)) found in
    let locked_rows : IsLocked j.job_id now (lock_job (some j) worker now db).scheduled_jobs = (
      rw
          (any_row-update_rows (λ k. k.job_id) (has_job_id j.job_id) (locked worker now now)
            j.job_id db.scheduled_jobs (λ k. refl))
          own,
      lock_job-LockedAt j worker now db,
    ) in
    let leave' : All (LeavesJobLock j.job_id now) after =
      subst (λ k. All (LeavesJobLock k.job_id now) after) claim leave in
    let kept =
      after_job_calls-IsLocked j.job_id now handlers after db' leave'
        (subst (λ t. IsLocked j.job_id now t.scheduled_jobs) (sym store) locked_rows) in
    let (at, due') =
      next_due-All (LockedAt j.job_id now) precedes' now' later.scheduled_jobs kept.1 found' in
    rw (claim, claim') (lock_excludes j.job_id now now' j' at due' soon)
