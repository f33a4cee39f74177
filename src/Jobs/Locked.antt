-- ===== src/Jobs/Locked.antt =====
-- About the lock of a claimed job, under each method of `JobService`.
use coversational_algo_tradi.Prelude.{
  All, All-true, Bool, Bool-cases, Keeps, Keeps-bind, Keeps-or_raise, List, Option-cases, String,
  any_row, any_row-update_rows, both_true, eq_iff, false, first_row, first_row-passes, gets, inl,
  inr, is_some, ltb, not, or_raise, pure, refl, str_eq, true, update_rows, update_rows-All2, ℕ,
  ◌&&◌, ◌+◌, ◌>>=◌, ◌≡◌, ◌≤◌,
}
use coversational_algo_tradi.Jobs.Rows.{
  Claimed, JobDb, JobHandlers, JobRequest, JobRow, Occasion, row_missing,
}
use coversational_algo_tradi.Jobs.Service.{
  claim_next, claim_of, ending_of, execute_claimed, finish, has_job_id, has_job_name, has_run_id,
  insert_run, locked, next_attempt, next_due, outcome_of, put_back, register, run_now, seconds,
  updated_job, upsert_job,
}
use coversational_algo_tradi.Jobs.Claims.{LockedAt, lock_excludes, next_due-All}

module _ (id : String) (now : ℕ) where
  -- A job with the identifier is there, and is locked since `now`.
  unfoldable pub IsLocked : List JobRow → Type 0
  IsLocked rows = (any_row (has_job_id id) rows ≡ true) × All (LockedAt id now) rows

  -- An update that keeps the identifiers, and the locks of the rows with this one.
  update-IsLocked :
      (p : JobRow → Bool) (f : JobRow → JobRow) (rows : List JobRow)
      → ((j : JobRow) → (f j).job_id ≡ j.job_id)
      → ((j : JobRow) → p j ≡ true → LockedAt id now j → LockedAt id now (f j))
      → IsLocked rows
      → IsLocked (update_rows p f rows)
  unfolding IsLocked
  update-IsLocked p f rows same keep (there, kept) = (
    rw (any_row-update_rows (λ j. j.job_id) p f id rows same) there,
    update_rows-All2 (LockedAt id now) (λ j. Unit {0}) p f rows (λ j met known. keep j met)
        (All-true rows) kept,
  )

  -- What is done to the rows of another job.
  other-LockedAt :
      (id' : String) (f : JobRow → JobRow) (j : JobRow)
      → ((k : JobRow) → (f k).job_id ≡ k.job_id)
      → str_eq id' id ≡ false
      → has_job_id id' j ≡ true
      → LockedAt id now (f j)
  unfolding LockedAt
  other-LockedAt id' f j same away met = λ this.
      let key : j.job_id ≡ id' = (eq_iff j.job_id id').0 met in
      let bad : str_eq id' id ≡ true = rw (same j, key) at this in cc

  pub claim_next-IsLocked :
      (precedes : String → String → Bool) (worker : String) (now' : ℕ) (db : JobDb)
      → now' ≤ now + seconds 900
      → IsLocked db.scheduled_jobs
      → IsLocked (claim_next precedes worker now' db).1.scheduled_jobs
  unfolding claim_next IsLocked
  claim_next-IsLocked precedes worker now' db soon h =
      elim (Option-cases (next_due precedes now' db.scheduled_jobs)) [
        | inl idle ↦ rw idle h
        | inr (j, found) ↦
            let (at, due) =
              next_due-All (LockedAt id now) precedes now' db.scheduled_jobs h.1 found in
            let away = lock_excludes id now now' j at due soon in
            rw found (
              update-IsLocked (has_job_id j.job_id) (locked worker now' now') db.scheduled_jobs
                (λ k. refl)
                (λ k met kept.
                  other-LockedAt j.job_id (locked worker now' now') k (λ y. refl) away met)
                h)
      ]

  pub execute_claimed-IsLocked :
      (handlers : JobHandlers) (c : Claimed) (worker : String) (at : Occasion) (db : JobDb)
      → str_eq c.job_id id ≡ false
      → IsLocked db.scheduled_jobs
      → IsLocked (execute_claimed handlers c worker at db).1.scheduled_jobs
  unfolding execute_claimed insert_run finish IsLocked
  execute_claimed-IsLocked handlers c worker at db away h =
      elim (Bool-cases (any_row (has_run_id at.job_run_id) db.job_runs)) [
        | inl taken ↦ rw taken h
        | inr fresh ↦
            let e =
              ending_of c (next_attempt c.job_id db) at.ended
                (outcome_of handlers c.job_type c.payload) in
            rw fresh (
              update-IsLocked (has_job_id c.job_id) (put_back e at.written) db.scheduled_jobs
                (λ k. refl)
                (λ k met kept.
                  other-LockedAt c.job_id (put_back e at.written) k (λ y. refl) away met)
                h)
      ]

  pub run_now-IsLocked :
      (handlers : JobHandlers) (id' worker : String) (at now' : ℕ) (occasion : Occasion)
      (db : JobDb)
      → str_eq id' id ≡ false
      → IsLocked db.scheduled_jobs
      → IsLocked (run_now handlers id' worker at now' occasion db).1.scheduled_jobs
  unfolding run_now
  run_now-IsLocked handlers id' worker at now' occasion db away h =
      elim (Option-cases (first_row (λ j. has_job_id id' j && j.enabled) db.scheduled_jobs)) [
        | inl missing ↦ rw missing h
        | inr (j, found) ↦
            let enabled =
              first_row-passes (λ k. has_job_id id' k && k.enabled) db.scheduled_jobs found in
            let key : j.job_id ≡ id' =
              (eq_iff j.job_id id').0 (both_true (has_job_id id' j) j.enabled enabled).0 in
            rw found (
              execute_claimed-IsLocked handlers (claim_of j) worker occasion
                (record db {
                  scheduled_jobs =
                      update_rows (has_job_id id') (locked worker at now') db.scheduled_jobs;
                })
                (rw key away)
                (update-IsLocked (has_job_id id') (locked worker at now') db.scheduled_jobs
                  (λ k. refl)
                  (λ k met kept. other-LockedAt id' (locked worker at now') k (λ y. refl) away met)
                  h))
      ]

  upsert_job-IsLocked :
      (q : JobRequest) (new_id : String) (now' : ℕ)
      → Keeps (λ db. IsLocked db.scheduled_jobs) (upsert_job q new_id now')
  unfolding upsert_job IsLocked LockedAt
  upsert_job-IsLocked q new_id now' db h =
      elim (Bool-cases (any_row (has_job_name q.name) db.scheduled_jobs)) [
        | inl known ↦ rw known (
            update-IsLocked (has_job_name q.name) (updated_job q now') db.scheduled_jobs (λ k. refl)
              (λ k met kept. kept) h)
        | inr new ↦ elim (Bool-cases (any_row (has_job_id new_id) db.scheduled_jobs)) [
          | inl taken ↦ rw (new, taken) h
          | inr fresh ↦ elim (Bool-cases (str_eq new_id id)) [
            | inr other ↦ rw (new, fresh, other) (h.0, ((λ same. cc), h.1))
            | inl same ↦
                let bad : any_row (has_job_id new_id) db.scheduled_jobs ≡ true =
                  rw ((eq_iff new_id id).0 same) h.0 in
                absurd (cc)
          ]
        ]
      ]

  pub register-IsLocked :
      (handlers : JobHandlers) (q : JobRequest) (new_id : String) (now' : ℕ)
      → Keeps (λ db. IsLocked db.scheduled_jobs) (register handlers q new_id now')
  unfolding register
  register-IsLocked handlers q new_id now' db h =
      let P : JobDb → Type 0 = λ t. IsLocked t.scheduled_jobs in
      elim (Bool-cases (not (is_some (handlers q.job_type)))) [
        | inl unknown ↦ rw unknown h
        | inr known ↦ elim (Bool-cases (ltb q.schedule_seconds 10)) [
          | inl short ↦ rw (known, short) h
          | inr good ↦
              rw (known, good)
                (Keeps-bind P (upsert_job q new_id now')
                  (λ _. gets (λ t. first_row (has_job_name q.name) t.scheduled_jobs) >>= λ found.
                    or_raise found row_missing >>= λ stored. pure stored.job_id)
                  (upsert_job-IsLocked q new_id now')
                  (λ _ t k.
                    Keeps-bind P
                      (or_raise (first_row (has_job_name q.name) t.scheduled_jobs) row_missing)
                      (λ stored. pure stored.job_id)
                      (Keeps-or_raise P (first_row (has_job_name q.name) t.scheduled_jobs)
                        row_missing)
                      (λ stored t' k'. k') t k)
                  db h)
        ]
      ]
