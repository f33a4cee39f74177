-- ===== src/Tasks/Sound.antt =====
-- The rows of `work_tasks`, and the updates of them by `TaskService`: the invariant of a row, and the
-- lemmas on single updates.
use coversational_algo_tradi.Tasks.Rows.{TaskFailure, TaskRow, is_final, is_running}
use coversational_algo_tradi.Tasks.Service.{
  after_attempt, given_up, is_claimable, is_retriable, is_spent, returned, started,
}
use coversational_algo_tradi.Prelude.{
  All, Bool-cases, Distinct, List, Result, String, arith, err, inl, inr, is_some, leb, ok, refl,
  true, ℕ, ◌≡◌, ◌≤◌,
}

-- The attempts are within the limit, a task is running exactly while it is locked, and it has a time
-- at which it finished exactly when its status is final.
pub record IsSound (t : TaskRow) : Type 0 where
  pub at_least_one : 1 ≤ t.max_attempts
  pub at_most_ten : t.max_attempts ≤ 10
  pub within : t.attempt ≤ t.max_attempts
  pub locked : is_some t.locked_at ≡ is_running t.status
  pub held : is_some t.locked_by ≡ is_running t.status
  pub ended : is_some t.finished_at ≡ is_final t.status

pub record AreSound (rows : List TaskRow) : Type 0 where
  pub distinct : Distinct (λ t. t.task_id) rows
  pub sound : All IsSound rows

module _ (now : ℕ) where
  pub given_up-IsSound :
      (t : TaskRow) → is_spent now t ≡ true → IsSound t → IsSound (given_up now t)
  given_up-IsSound t spent h = record {
    at_least_one = h.at_least_one;
    at_most_ten = h.at_most_ten;
    within = h.within;
    locked = refl;
    held = refl;
    ended = refl;
  }

  pub returned-IsSound :
      (t : TaskRow) → is_retriable now t ≡ true → IsSound t → IsSound (returned now t)
  returned-IsSound t retriable h = record {
    at_least_one = h.at_least_one;
    at_most_ten = h.at_most_ten;
    within = h.within;
    locked = refl;
    held = refl;
    ended = ground (arith, h.ended);
  }

  pub started-IsSound :
      (worker : String) (t : TaskRow)
      → is_claimable now t ≡ true
      → IsSound t
      → IsSound (started worker now t)
  started-IsSound worker t claimable h = record {
    at_least_one = h.at_least_one;
    at_most_ten = h.at_most_ten;
    within = ground arith;
    locked = refl;
    held = refl;
    ended = ground (arith, h.ended);
  }

  pub after_attempt-IsSound :
      (task t : TaskRow) (outcome : Result TaskFailure String)
      → IsSound t
      → IsSound (after_attempt task outcome now t)
  after_attempt-IsSound task t (ok result) h = record {
    at_least_one = h.at_least_one;
    at_most_ten = h.at_most_ten;
    within = h.within;
    locked = refl;
    held = refl;
    ended = refl;
  }
  after_attempt-IsSound task t (err e) h = elim (Bool-cases (leb task.max_attempts task.attempt)) [
    | inl final ↦ rw final (record {
      at_least_one = h.at_least_one;
      at_most_ten = h.at_most_ten;
      within = h.within;
      locked = refl;
      held = refl;
      ended = refl;
    })
    | inr more ↦ rw more (record {
      at_least_one = h.at_least_one;
      at_most_ten = h.at_most_ten;
      within = h.within;
      locked = refl;
      held = refl;
      ended = refl;
    })
  ]

pub after_attempt-keeps :
    (task : TaskRow) (outcome : Result TaskFailure String) (now : ℕ) (t : TaskRow)
    → (after_attempt task outcome now t).task_id ≡ t.task_id
after_attempt-keeps task (ok result) now t = refl
after_attempt-keeps task (err e) now t = refl
