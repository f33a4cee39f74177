-- ===== src/Tasks/Moves.antt =====
-- The methods of `TaskService`, and the invariant of the rows of `work_tasks`.
use coversational_algo_tradi.Tasks.Rows.{TaskHandlers, TaskRow, task_not_found}
use coversational_algo_tradi.Tasks.Service.{
  after_attempt, claim, execute, finish_task, get_task, given_up, has_task_id, is_claimable,
  is_held_by, is_retriable, is_spent, is_unlocked, next_task, older, read_claimed, returned,
  started, sweep, take_task, taken_id, takes,
}
use coversational_algo_tradi.Tasks.Sound.{
  AreSound, IsSound, after_attempt-IsSound, after_attempt-keeps, given_up-IsSound, returned-IsSound,
  started-IsSound,
}
use coversational_algo_tradi.Prelude.{
  All, All-true, Bool, Bool-cases, Distinct-first_row, Distinct-update_rows, Keeps, Keeps-or_raise,
  List, Option, Option-cases, String, [], both_true, eq_iff, first_row, inl, inr, is_keyed, leb,
  none, refl, some, some_eq, subst, sym, true, update_rows, update_rows-All2, ℕ, ◌∙◌, ◌∷◌, ◌≡◌,
}

-- An update that keeps the identifiers and, of the rows that it meets, the invariant.
update-AreSound :
    (p : TaskRow → Bool) (f : TaskRow → TaskRow) (rows : List TaskRow)
    → ((t : TaskRow) → (f t).task_id ≡ t.task_id)
    → ((t : TaskRow) → p t ≡ true → IsSound t → IsSound (f t))
    → AreSound rows
    → AreSound (update_rows p f rows)
update-AreSound p f rows same keep h = record {
  distinct = Distinct-update_rows (λ t. t.task_id) p f rows same h.distinct;
  sound =
      update_rows-All2 IsSound (λ t. Unit {0}) p f rows (λ t met known. keep t met) (All-true rows)
        h.sound;
}

pub sweep-AreSound : (now : ℕ) (rows : List TaskRow) → AreSound rows → AreSound (sweep now rows)
unfolding sweep
sweep-AreSound now rows h =
    update-AreSound (is_retriable now) (returned now) _ (λ t. refl) (returned-IsSound now)
      (update-AreSound (is_spent now) (given_up now) rows (λ t. refl) (given_up-IsSound now) h)

older-holds :
    (Q : TaskRow → Type 0) (t : TaskRow) (rest : Option TaskRow)
    → Q t
    → ((s : TaskRow) → rest ≡ some s → Q s)
    → Q (older t rest)
older-holds Q t none here later = here
older-holds Q t (some s) here later = elim (Bool-cases (leb s.created_at t.created_at)) [
  | inl before ↦ rw before (later s refl)
  | inr after ↦ rw after here
]

-- The task that is chosen is one of the rows, and claimable.
pub next_task-All :
    (P : TaskRow → Type 0) (now : ℕ) (rows : List TaskRow) {t : TaskRow}
    → All P rows
    → next_task now rows ≡ some t
    → P t × (is_claimable now t ≡ true)
unfolding next_task
next_task-All P now [] h e = cc
next_task-All P now (r ∷ rs) {t} h e = elim (Bool-cases (is_claimable now r)) [
  | inl ready ↦
      let chosen : older r (next_task now rs) ≡ t = cc in
      subst (λ k. P k × (is_claimable now k ≡ true)) chosen
        (older-holds (λ k. P k × (is_claimable now k ≡ true)) r (next_task now rs) (h.0, ready)
          (λ s found. next_task-All P now rs h.1 found))
  | inr shut ↦ next_task-All P now rs h.1 (rw shut at e)
]

-- With distinct identifiers, the row with the chosen one is the chosen row.
pub chosen_row :
    (now : ℕ) (rows : List TaskRow) {t : TaskRow}
    → AreSound rows
    → next_task now rows ≡ some t
    → (r : TaskRow) → has_task_id t.task_id r ≡ true
    → first_row (is_keyed (λ x. x.task_id) r.task_id) rows ≡ some r
    → t ≡ r
chosen_row now rows {t} h e r same reads =
    let own = Distinct-first_row (λ x. x.task_id) rows h.distinct in
    let (found, ready) =
      next_task-All (λ x. first_row (is_keyed (λ y. y.task_id) x.task_id) rows ≡ some x) now rows
        own e in
    let equal : r.task_id ≡ t.task_id = (eq_iff r.task_id t.task_id).0 same in
    some_eq
      (sym found ∙ subst (λ k. first_row (is_keyed (λ y. y.task_id) k) rows ≡ some r) equal reads)

take_task-AreSound :
    (worker : String) (now : ℕ) (rows : List TaskRow) (found : Option TaskRow)
    → next_task now rows ≡ found
    → AreSound rows
    → AreSound (take_task found worker now rows)
take_task-AreSound worker now rows none e h = h
take_task-AreSound worker now rows (some t) e h = record {
  distinct =
      Distinct-update_rows (λ x. x.task_id) (takes t.task_id) (started worker now) rows (λ x. refl)
        h.distinct;
  sound =
      update_rows-All2 IsSound (λ x. first_row (is_keyed (λ y. y.task_id) x.task_id) rows ≡ some x)
        (takes t.task_id) (started worker now) rows
        (λ r taken reads sound.
          let same =
            chosen_row now rows h e r (both_true (has_task_id t.task_id r) (is_unlocked r) taken).0
              reads in
          let ready = (next_task-All (λ x. Unit {0}) now rows (All-true rows) e).1 in
          started-IsSound now worker r (subst (λ x. is_claimable now x ≡ true) same ready) sound)
        (Distinct-first_row (λ x. x.task_id) rows h.distinct) h.sound;
}

pub read_claimed-Keeps :
    (P : List TaskRow → Type 0) (id : Option String) → Keeps P (read_claimed id)
unfolding get_task
read_claimed-Keeps P none rows h = h
read_claimed-Keeps P (some id) rows h = elim (Option-cases (first_row (has_task_id id) rows)) [
  | inl missing ↦ rw missing h
  | inr (t, found) ↦ rw found h
]

pub claim-AreSound : (worker : String) (now : ℕ) → Keeps AreSound (claim worker now)
unfolding claim
claim-AreSound worker now rows h =
    let swept = sweep now rows in
    let found = next_task now swept in
    read_claimed-Keeps AreSound (taken_id found swept) (take_task found worker now swept)
      (take_task-AreSound worker now swept found refl (sweep-AreSound now rows h))

pub get_task-Keeps : (P : List TaskRow → Type 0) (id : String) → Keeps P (get_task id)
unfolding get_task
get_task-Keeps P id rows h =
    Keeps-or_raise P (first_row (has_task_id id) rows) task_not_found rows h

pub execute-AreSound :
    (handlers : TaskHandlers) (task : TaskRow) (worker : String) (now : ℕ)
    → Keeps AreSound (execute handlers task worker now)
unfolding execute finish_task
execute-AreSound handlers task worker now rows h = elim (Option-cases (handlers task.task_type)) [
  | inl missing ↦ rw missing h
  | inr (handler, there) ↦ rw there (
      get_task-Keeps AreSound task.task_id
        (update_rows (is_held_by task.task_id worker)
          (after_attempt task (handler task.payload) now) rows)
        (update-AreSound (is_held_by task.task_id worker)
          (after_attempt task (handler task.payload) now) rows
          (after_attempt-keeps task (handler task.payload) now)
          (λ t held. after_attempt-IsSound now task t (handler task.payload)) h))
]
