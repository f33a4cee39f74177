-- ===== src/Jobs/Claims.antt =====
-- About a claim of a job (`_claim_next` of `JobService`) and its lock.
use coversational_algo_tradi.Jobs.Rows.{Claimed, JobDb, JobRow}
use coversational_algo_tradi.Jobs.Service.{
  claim_next, claim_of, first_of, has_job_id, is_due, lock_job, locked, next_due, seconds, sooner,
}
use coversational_algo_tradi.Prelude.{
  All, All-update_rows, Bool, Bool-cases, List, Option, Option-cases, String, [], ap, arith, false,
  inl, inr, none, refl, some, subst, sym, true, ℕ, ◌+◌, ◌∷◌, ◌≡◌, ◌≤◌,
}

first_of-holds :
    (Q : JobRow → Type 0) (precedes : String → String → Bool) (a : JobRow) (rest : Option JobRow)
    → Q a
    → ((b : JobRow) → rest ≡ some b → Q b)
    → Q (first_of precedes a rest)
first_of-holds Q precedes a none here later = here
first_of-holds Q precedes a (some b) here later = elim (Bool-cases (sooner precedes b a)) [
  | inl before ↦ rw before (later b refl)
  | inr after ↦ rw after here
]

-- The job that is chosen is one of the rows, and due.
pub next_due-All :
    (P : JobRow → Type 0) (precedes : String → String → Bool) (now : ℕ) (rows : List JobRow)
    {j : JobRow}
    → All P rows
    → next_due precedes now rows ≡ some j
    → P j × (is_due now j ≡ true)
unfolding next_due
next_due-All P precedes now [] h e = cc
next_due-All P precedes now (r ∷ rs) {j} h e = elim (Bool-cases (is_due now r)) [
  | inl due ↦
      let chosen : first_of precedes r (next_due precedes now rs) ≡ j = cc in
      subst (λ k. P k × (is_due now k ≡ true)) chosen
        (first_of-holds (λ k. P k × (is_due now k ≡ true)) precedes r (next_due precedes now rs)
          (h.0, due) (λ b found. next_due-All P precedes now rs h.1 found))
  | inr idle ↦ next_due-All P precedes now rs h.1 (rw idle at e)
]

-- The row behind a claim.
pub claim_next-row :
    (precedes : String → String → Bool) (worker : String) (now : ℕ) (db : JobDb) {c : Claimed}
    {db' : JobDb}
    → claim_next precedes worker now db ≡ (some c, db')
    → (j : JobRow) × (next_due precedes now db.scheduled_jobs ≡ some j)
      × (c ≡ claim_of j)
      × (db' ≡ lock_job (some j) worker now db)
unfolding claim_next
claim_next-row precedes worker now db h =
    elim (Option-cases (next_due precedes now db.scheduled_jobs)) [
      | inl idle ↦ let bad : none ≡ some _ = ap (λ x. x.0) (rw idle at h) in cc
      | inr (j, found) ↦ let e = rw found at h in (j, found, cc, sym (ap (λ x. x.1) e))
    ]

unfoldable pub LockedAt : String → ℕ → JobRow → Type 0
LockedAt id now j = has_job_id id j ≡ true → j.locked_at ≡ some now

pub lock_job-LockedAt :
    (j : JobRow) (worker : String) (now : ℕ) (db : JobDb)
    → All (LockedAt j.job_id now) (lock_job (some j) worker now db).scheduled_jobs
unfolding LockedAt
lock_job-LockedAt j worker now db =
    All-update_rows (LockedAt j.job_id now) (has_job_id j.job_id) (locked worker now now)
      db.scheduled_jobs (λ r this h. refl) (λ r other h. cc)

pub lock_excludes :
    (id : String) (now now' : ℕ) (j : JobRow)
    → LockedAt id now j
    → is_due now' j ≡ true
    → now' ≤ now + seconds 900
    → has_job_id id j ≡ false
unfolding LockedAt
lock_excludes id now now' j locked due soon = elim (Bool-cases (has_job_id id j)) [
  | inl same ↦ let at = locked same in ground arith
  | inr other ↦ other
]
