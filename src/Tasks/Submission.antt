-- ===== src/Tasks/Submission.antt =====
-- About `TaskService.submit`: the row that it adds, and a second call with one idempotency key.
use coversational_algo_tradi.Tasks.Rows.{
  TaskHandlers, TaskRequest, TaskRow, bad_max_attempts, unknown_task_type,
}
use coversational_algo_tradi.Tasks.Service.{
  existing_or_new, existing_task, get_task, has_key, has_task_id, insert_task, new_task, shares_key,
  submit,
}
use coversational_algo_tradi.Tasks.Sound.{AreSound, IsSound}
use coversational_algo_tradi.Tasks.Moves.{get_task-Keeps}
use coversational_algo_tradi.Prelude.{
  All-first_row, Bool-cases, Distinct, Distinct-first_row, Keeps, Keeps-bind, List, Option,
  Option-cases, Returned, Returned-raise_if, String, any_row, arith, eq_refl, false, first_row, inl,
  inr, is_keyed, is_some, ltb, none, not, of_returned, ok, refl, some, str_eq, true, ℕ, ◌||◌, ◌≡◌,
}

new_task-IsSound :
    (q : TaskRequest) (id : String) (now : ℕ)
    → (ltb q.max_attempts 1 || ltb 10 q.max_attempts) ≡ false
    → IsSound (new_task q id now)
unfolding new_task
new_task-IsSound q id now bounds = record {
  at_least_one = ground arith;
  at_most_ten = ground arith;
  within = omega arith;
  locked = refl;
  held = refl;
  ended = refl;
}

insert_task-AreSound : (t : TaskRow) → IsSound t → Keeps AreSound (insert_task t)
unfolding insert_task
insert_task-AreSound t sound rows h =
    elim (Bool-cases
      (any_row (has_task_id t.task_id) rows || any_row (shares_key t.idempotency_key) rows)) [
        | inl clash ↦ rw clash h
        | inr fresh ↦
            let new_id : any_row (has_task_id t.task_id) rows ≡ false = ground arith in
            rw fresh (record { distinct = (new_id, h.distinct); sound = (sound, h.sound) })
      ]

existing_or_new-AreSound :
    (found : Option TaskRow) (new : TaskRow)
    → IsSound new
    → Keeps AreSound (existing_or_new found new)
existing_or_new-AreSound (some t) new sound rows h = get_task-Keeps AreSound t.task_id rows h
existing_or_new-AreSound none new sound rows h =
    Keeps-bind AreSound (insert_task new) (λ _. get_task new.task_id)
      (insert_task-AreSound new sound) (λ _. get_task-Keeps AreSound new.task_id) rows h

pub submit-AreSound :
    (handlers : TaskHandlers) (q : TaskRequest) (id : String) (now : ℕ)
    → Keeps AreSound (submit handlers q id now)
unfolding submit
submit-AreSound handlers q id now rows h =
    elim (Bool-cases (not (is_some (handlers q.task_type)))) [
      | inl unknown ↦ rw unknown h
      | inr known ↦ elim (Bool-cases (ltb q.max_attempts 1 || ltb 10 q.max_attempts)) [
        | inl bad ↦ rw (known, bad) h
        | inr good ↦
            rw (known, good)
              (existing_or_new-AreSound (existing_task q.idempotency_key rows) (new_task q id now)
                (new_task-IsSound q id now good) rows h)
      ]
    ]

-- The row with the key, once a call has returned.
Finds : String → TaskRow → List TaskRow → Type 0
Finds key t rows =
    (first_row (has_key key) rows ≡ some t) × (first_row (has_task_id t.task_id) rows ≡ some t)

existing_or_new-Finds :
    (q : TaskRequest) (id key : String) (now : ℕ) (rows : List TaskRow)
    → q.idempotency_key ≡ some key
    → str_eq key "" ≡ false
    → Distinct (λ t. t.task_id) rows
    → Returned
        (Finds key)
        (existing_or_new (existing_task q.idempotency_key rows) (new_task q id now) rows)
unfolding Finds get_task insert_task new_task
existing_or_new-Finds q id key now rows named given distinct =
    elim (Option-cases (first_row (has_key key) rows)) [
      | inl missing ↦
          elim (Bool-cases
            (any_row (has_task_id id) rows || any_row (shares_key q.idempotency_key) rows)) [
              | inl clash ↦ rw (named, given, missing, (rw named at clash)) tt
              | inr fresh ↦
                  rw (named, given, missing, (rw named at fresh), eq_refl, eq_refl, eq_refl)
                    (refl, refl)
            ]
      | inr (t, found) ↦
          let own =
            All-first_row (λ x. first_row (is_keyed (λ y. y.task_id) x.task_id) rows ≡ some x)
              (has_key key) rows (Distinct-first_row (λ y. y.task_id) rows distinct) found in
          rw (named, given, found, own) (found, own)
    ]

submit-Finds :
    (handlers : TaskHandlers) (q : TaskRequest) (id key : String) (now : ℕ) (rows : List TaskRow)
    → q.idempotency_key ≡ some key
    → str_eq key "" ≡ false
    → AreSound rows
    → Returned (Finds key) (submit handlers q id now rows)
unfolding submit
submit-Finds handlers q id key now rows named given h =
    Returned-raise_if (Finds key) (not (is_some (handlers q.task_type))) unknown_task_type _ rows
      (λ known.
        Returned-raise_if (Finds key) (ltb q.max_attempts 1 || ltb 10 q.max_attempts)
          bad_max_attempts _ rows
          (λ good. existing_or_new-Finds q id key now rows named given h.distinct))

-- The checks that `submit` makes of its arguments.
abbrev pub IsAccepted : TaskHandlers → TaskRequest → Type 0
IsAccepted handlers q =
    (is_some (handlers q.task_type) ≡ true)
    × ((ltb q.max_attempts 1 || ltb 10 q.max_attempts) ≡ false)

-- In a table that satisfies the invariant: after a call with an idempotency key that is not empty has
-- returned a task, a call with the same key whose arguments are accepted returns that task and writes
-- nothing, whatever else it asks.
pub submit_idempotent :
    (handlers : TaskHandlers) (q q' : TaskRequest) (id id' key : String) (now now' : ℕ)
    (rows : List TaskRow) {t : TaskRow} {rows' : List TaskRow}
    → AreSound rows
    → q.idempotency_key ≡ some key
    → str_eq key "" ≡ false
    → submit handlers q id now rows ≡ (ok t, rows')
    → q'.idempotency_key ≡ some key
    → IsAccepted handlers q'
    → submit handlers q' id' now' rows' ≡ (ok t, rows')
unfolding submit Finds get_task
submit_idempotent handlers q q' id id' key now now' rows h named given made named' (known, good) =
    let (by_key, by_id) =
      of_returned (Finds key) made (submit-Finds handlers q id key now rows named given h) in
    rw (known, good, named', given, by_key, by_id) refl
