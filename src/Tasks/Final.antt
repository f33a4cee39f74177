-- ===== src/Tasks/Final.antt =====
-- About the tasks of `TaskService` that have ended, under every call.
use coversational_algo_tradi.Tasks.Rows.{TaskHandlers, TaskRow, is_final, is_running}
use coversational_algo_tradi.Tasks.Service.{
  claim, given_up, has_task_id, is_claimable, is_held_by, is_retriable, is_spent, is_unlocked,
  next_task, returned, started, sweep, take_task, taken_id, takes,
}
use coversational_algo_tradi.Tasks.Sound.{AreSound, IsSound}
use coversational_algo_tradi.Tasks.Moves.{
  chosen_row, next_task-All, read_claimed-Keeps, sweep-AreSound,
}
use coversational_algo_tradi.Tasks.Runs.{
  TaskCall, after_call, after_call-AreSound, after_calls, after_calls-AreSound, claims, executes,
  submits,
}
use coversational_algo_tradi.Prelude.{
  All-first_row, All-true, Bool-cases, Distinct-first_row, List, Option, Option-cases, String, [],
  arith, both_true, false, first_row, first_row-passes, first_row-update_other, inl, inr, is_keyed,
  is_some, none, refl, some, str_eq, subst, true, ℕ, ◌∷◌, ◌≡◌,
}
use coversational_algo_tradi.Tasks.Stored.{Stores, execute-Stores, submit-Stores}

module _ (handlers : TaskHandlers) (id : String) (t : TaskRow) (final : is_final t.status ≡ true)
    (sound : IsSound t) where
  not_running : is_running t.status ≡ false
  not_running = ground arith

  sweep-Stores : (now : ℕ) (rows : List TaskRow) → Stores id t rows → Stores id t (sweep now rows)
  unfolding sweep Stores
  sweep-Stores now rows found =
      first_row-update_other (has_task_id id) (is_retriable now) (returned now) _ (λ y. refl)
        (rw not_running refl)
        (first_row-update_other (has_task_id id) (is_spent now) (given_up now) rows (λ y. refl)
          (rw not_running refl) found)

  own_key : (rows : List TaskRow) → Stores id t rows → str_eq t.task_id id ≡ true
  unfolding Stores
  own_key rows found = first_row-passes (has_task_id id) rows found

  no_lock : t.locked_by ≡ none
  no_lock = elim (Option-cases t.locked_by) [
    | inl free ↦ free
    | inr (worker, held) ↦
        let bad : is_some (some worker) ≡ is_running t.status = rw held at sound.held in
        let idle = not_running in cc
  ]

  take_task-Stores :
      (worker : String) (now : ℕ) (rows : List TaskRow) (found : Option TaskRow)
      → AreSound rows
      → next_task now rows ≡ found
      → Stores id t rows
      → Stores id t (take_task found worker now rows)
  unfolding Stores
  take_task-Stores worker now rows none h e stored = stored
  take_task-Stores worker now rows (some s) h e stored =
      first_row-update_other (has_task_id id) (takes s.task_id) (started worker now) rows
        (λ y. refl)
        (elim (Bool-cases (takes s.task_id t)) [
          | inr free ↦ free
          | inl taken ↦
              let own =
                All-first_row (λ x. first_row (is_keyed (λ y. y.task_id) x.task_id) rows ≡ some x)
                  (has_task_id id) rows (Distinct-first_row (λ y. y.task_id) rows h.distinct)
                  stored in
              let same =
                chosen_row now rows h e t
                  (both_true (has_task_id s.task_id t) (is_unlocked t) taken).0 own in
              let ready = (next_task-All (λ x. Unit {0}) now rows (All-true rows) e).1 in
              let bad : is_claimable now t ≡ true =
                subst (λ x. is_claimable now x ≡ true) same ready in
              ground arith
        ])
        stored

  claim-Stores :
      (worker : String) (now : ℕ) (rows : List TaskRow)
      → AreSound rows
      → Stores id t rows
      → Stores id t (claim worker now rows).1
  unfolding claim
  claim-Stores worker now rows h stored =
      let swept = sweep now rows in
      let found = next_task now swept in
      read_claimed-Keeps (Stores id t) (taken_id found swept) (take_task found worker now swept) (
        take_task-Stores worker now swept found (sweep-AreSound now rows h) refl
          (sweep-Stores now rows stored))

  held_by_none : (task : TaskRow) (worker : String) → is_held_by task.task_id worker t ≡ false
  held_by_none task worker = rw no_lock (elim (Bool-cases (has_task_id task.task_id t)) [
    | inl here ↦ rw here refl
    | inr away ↦ rw away refl
  ])

  after_call-Stores :
      (c : TaskCall) (rows : List TaskRow)
      → AreSound rows
      → Stores id t rows
      → Stores id t (after_call handlers c rows)
  unfolding after_call
  after_call-Stores (submits q new_id now) rows h stored =
      submit-Stores handlers id t q new_id now rows stored
  after_call-Stores (claims worker now) rows h stored = claim-Stores worker now rows h stored
  after_call-Stores (executes task worker now) rows h stored =
      execute-Stores handlers id t task worker now (held_by_none task worker) rows stored

  after_calls-Stores :
      (cs : List TaskCall) (rows : List TaskRow)
      → AreSound rows
      → Stores id t rows
      → Stores id t (after_calls handlers cs rows)
  unfolding after_calls
  after_calls-Stores [] rows h stored = stored
  after_calls-Stores (c ∷ cs) rows h stored =
      after_calls-Stores cs (after_call handlers c rows) (after_call-AreSound handlers c rows h)
        (after_call-Stores c rows h stored)

-- After any calls from an empty table, the row of a task that has succeeded or failed is the same after
-- any further calls by any workers, a late execution of the task itself included.
pub final_task_stays :
    (handlers : TaskHandlers) (before after : List TaskCall) (id : String) {t : TaskRow}
    → first_row (has_task_id id) (after_calls handlers before []) ≡ some t
    → is_final t.status ≡ true
    → first_row (has_task_id id) (after_calls handlers after (after_calls handlers before []))
      ≡ some t
unfolding Stores
final_task_stays handlers before after id {t} found final =
    let h = after_calls-AreSound handlers before in
    after_calls-Stores handlers id t final
      (All-first_row IsSound (has_task_id id) (after_calls handlers before []) h.sound found) after
      (after_calls handlers before []) h found
