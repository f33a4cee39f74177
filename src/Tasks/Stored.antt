-- ===== src/Tasks/Stored.antt =====
-- About a task of `TaskService` that is stored, under a submission of another.
use coversational_algo_tradi.Tasks.Rows.{TaskHandlers, TaskRequest, TaskRow}
use coversational_algo_tradi.Tasks.Service.{
  after_attempt, execute, existing_or_new, existing_task, finish_task, get_task, has_task_id,
  insert_task, is_held_by, new_task, shares_key, submit,
}
use coversational_algo_tradi.Tasks.Moves.{get_task-Keeps}
use coversational_algo_tradi.Prelude.{
  Bool-cases, Keeps, Keeps-bind, List, Option, Option-cases, String, any_row, ap, arith, eq_iff,
  false, first_row, first_row-any, first_row-update_other, inl, inr, is_some, ltb, none, not, some,
  str_eq, subst, update_rows, ℕ, ◌||◌, ◌≡◌,
}
use coversational_algo_tradi.Tasks.Sound.{after_attempt-keeps}

module _ (id : String) (t : TaskRow) where
  -- `t` is the row of the table that the identifier finds.
  unfoldable pub Stores : List TaskRow → Type 0
  Stores rows = first_row (has_task_id id) rows ≡ some t

module _ (handlers : TaskHandlers) (id : String) (t : TaskRow) where
  insert_task-Stores : (new : TaskRow) → Keeps (Stores id t) (insert_task new)
  unfolding insert_task Stores
  insert_task-Stores new rows stored =
      elim (Bool-cases
        (any_row (has_task_id new.task_id) rows || any_row (shares_key new.idempotency_key) rows)) [
          | inl clash ↦ rw clash stored
          | inr fresh ↦
              let new_id : any_row (has_task_id new.task_id) rows ≡ false = ground arith in
              rw fresh (elim (Bool-cases (str_eq new.task_id id)) [
                | inr other ↦ rw other stored
                | inl same ↦
                    let there = first_row-any (has_task_id id) rows stored in
                    let bad : any_row (has_task_id id) rows ≡ false =
                      subst (λ k. any_row (has_task_id k) rows ≡ false)
                        ((eq_iff new.task_id id).0 same) new_id in
                    cc
              ])
        ]

  existing_or_new-Stores :
      (found : Option TaskRow) (new : TaskRow) → Keeps (Stores id t) (existing_or_new found new)
  existing_or_new-Stores (some s) new rows stored =
      get_task-Keeps (Stores id t) s.task_id rows stored
  existing_or_new-Stores none new rows stored =
      Keeps-bind (Stores id t) (insert_task new) (λ _. get_task new.task_id)
        (insert_task-Stores new) (λ _. get_task-Keeps (Stores id t) new.task_id) rows stored

  pub submit-Stores :
      (q : TaskRequest) (new_id : String) (now : ℕ)
      → Keeps (Stores id t) (submit handlers q new_id now)
  unfolding submit
  submit-Stores q new_id now rows stored =
      elim (Bool-cases (not (is_some (handlers q.task_type)))) [
        | inl unknown ↦ rw unknown stored
        | inr known ↦ elim (Bool-cases (ltb q.max_attempts 1 || ltb 10 q.max_attempts)) [
          | inl bad ↦ rw (known, bad) stored
          | inr good ↦
              rw (known, good)
                (existing_or_new-Stores (existing_task q.idempotency_key rows)
                  (new_task q new_id now) rows stored)
        ]
      ]

  -- An execution by a worker who does not hold the task.
  pub execute-Stores :
      (task : TaskRow) (worker : String) (now : ℕ)
      → is_held_by task.task_id worker t ≡ false
      → Keeps (Stores id t) (execute handlers task worker now)
  unfolding execute finish_task Stores
  execute-Stores task worker now free rows stored = elim (Option-cases (handlers task.task_type)) [
    | inl missing ↦ rw missing stored
    | inr (handler, there) ↦
        let outcome = handler task.payload in
        rw there (
          get_task-Keeps (Stores id t) task.task_id
            (update_rows (is_held_by task.task_id worker) (after_attempt task outcome now) rows)
            (first_row-update_other (has_task_id id) (is_held_by task.task_id worker)
              (after_attempt task outcome now) rows
              (λ y. ap (λ k. str_eq k id) (after_attempt-keeps task outcome now y)) free stored))
  ]
