-- ===== src/Tasks/Claims.antt =====
-- About the claims of `TaskService._claim` by several workers.
use coversational_algo_tradi.Tasks.Rows.{TaskHandlers, TaskRow, microseconds}
use coversational_algo_tradi.Tasks.Service.{
  claim, get_task, given_up, has_task_id, is_claimable, is_lost, is_retriable, is_spent, is_stale,
  is_unlocked, next_task, returned, started, sweep, take_task, taken_id, takes,
}
use coversational_algo_tradi.Tasks.Sound.{AreSound}
use coversational_algo_tradi.Tasks.Moves.{
  chosen_row, claim-AreSound, next_task-All, read_claimed-Keeps, sweep-AreSound,
}
use coversational_algo_tradi.Tasks.Runs.{
  TaskCall, after_call, after_calls, after_calls-AreSound, after_calls-keep_AreSound, claims,
  executes, submits,
}
use coversational_algo_tradi.Prelude.{
  All, All-true, Bool-cases, Distinct-first_row, List, Option, Option-cases, String, [], any_row,
  ap, arith, eq_iff, eq_refl, false, first_row, first_row-update_hit, first_row-update_other, inl,
  inr, is_keyed, none, ok, ok_none-absurd, ok_some-inj, refl, some, str_eq, subst, sym, true, ℕ,
  ◌&&◌, ◌+◌, ◌∙◌, ◌∷◌, ◌≡◌, ◌≤◌,
}
use coversational_algo_tradi.Tasks.Stored.{Stores, execute-Stores, submit-Stores}

-- The row behind a claim: the one that was chosen, as the claim leaves it.
Claims : String → ℕ → List TaskRow → TaskRow → List TaskRow → Type 0
Claims worker now rows t rows' =
    (s : TaskRow) × (next_task now (sweep now rows) ≡ some s)
    × (t ≡ started worker now s)
    × (rows' ≡ take_task (some s) worker now (sweep now rows))
    × (first_row (has_task_id s.task_id) rows' ≡ some t)

module _ (worker : String) (now : ℕ) (rows : List TaskRow) (sound : AreSound rows) where
  swept : List TaskRow
  swept = sweep now rows

  chosen_is_read :
      (s : TaskRow)
      → next_task now (sweep now rows) ≡ some s
      → first_row (has_task_id s.task_id) (take_task (some s) worker now (sweep now rows))
        ≡ some (started worker now s)
  chosen_is_read s found =
      let h = sweep-AreSound now rows sound in
      let (own, ready) =
        next_task-All
          (λ x. first_row (is_keyed (λ y. y.task_id) x.task_id) (sweep now rows) ≡ some x) now
          (sweep now rows) (Distinct-first_row (λ y. y.task_id) (sweep now rows) h.distinct)
          found in
      first_row-update_hit (has_task_id s.task_id) (takes s.task_id) (started worker now)
        (sweep now rows) (λ y. refl)
        (let free : is_unlocked s ≡ true = ground arith in rw (eq_refl s.task_id, free) refl) own

  claim_idle :
      next_task now (sweep now rows) ≡ none → claim worker now rows ≡ (ok none, sweep now rows)
  unfolding claim
  claim_idle idle = rw idle refl

  claim_missed :
      (s : TaskRow)
      → next_task now (sweep now rows) ≡ some s
      → any_row (takes s.task_id) (sweep now rows) ≡ false
      → claim worker now rows ≡ (ok none, take_task (some s) worker now (sweep now rows))
  unfolding claim
  claim_missed s found missed = rw (found, missed) refl

  claim_met :
      (s : TaskRow)
      → next_task now (sweep now rows) ≡ some s
      → any_row (takes s.task_id) (sweep now rows) ≡ true
      → claim worker now rows
        ≡ (ok (some (started worker now s)), take_task (some s) worker now (sweep now rows))
  unfolding claim get_task
  claim_met s found met = rw (found, met, chosen_is_read s found) refl

  claim-Claims :
      {t : TaskRow} {rows' : List TaskRow}
      → claim worker now rows ≡ (ok (some t), rows')
      → Claims worker now rows t rows'
  unfolding Claims
  claim-Claims {t} {rows'} h = elim (Option-cases (next_task now (sweep now rows))) [
    | inl idle ↦ ok_none-absurd (sym (claim_idle idle) ∙ h)
    | inr (s, found) ↦ elim (Bool-cases (any_row (takes s.task_id) (sweep now rows))) [
      | inr missed ↦ ok_none-absurd (sym (claim_missed s found missed) ∙ h)
      | inl met ↦
          let (value, store) = ok_some-inj (sym (claim_met s found met) ∙ h) in
          (
            s,
            found,
            sym value,
            sym store,
            subst (λ r. first_row (has_task_id s.task_id) r ≡ some t) store
                (subst
                  (λ k.
                    first_row (has_task_id s.task_id)
                      (take_task (some s) worker now (sweep now rows))
                    ≡ some k)
                  value (chosen_is_read s found)),
          )
    ]
  ]

fresh_lock-sweep :
    (id : String) (now' : ℕ) (rows : List TaskRow) {t : TaskRow}
    → is_stale now' t.locked_at ≡ false
    → first_row (has_task_id id) rows ≡ some t
    → first_row (has_task_id id) (sweep now' rows) ≡ some t
unfolding sweep
fresh_lock-sweep id now' rows {t} live found =
    let kept : is_lost now' t ≡ false = ground arith in
    first_row-update_other (has_task_id id) (is_retriable now') (returned now') _ (λ y. refl)
      (rw kept refl)
      (first_row-update_other (has_task_id id) (is_spent now') (given_up now') rows (λ y. refl)
        (rw kept refl) found)

-- A task with a lock from less than fifteen minutes ago is not the next.
locked_is_not_next :
    (now now' : ℕ) (worker : String) (s : TaskRow) (rows : List TaskRow) {t : TaskRow}
    → AreSound rows
    → now' ≤ now + microseconds 900
    → first_row (has_task_id s.task_id) rows ≡ some (started worker now s)
    → next_task now' (sweep now' rows) ≡ some t
    → str_eq t.task_id s.task_id ≡ false
locked_is_not_next now now' worker s rows {t} h soon read next =
    elim (Bool-cases (str_eq t.task_id s.task_id)) [
      | inr other ↦ other
      | inl same ↦
          let h' = sweep-AreSound now' rows h in
          let mine = started worker now s in
          let live : is_stale now' mine.locked_at ≡ false = ground arith in
          let stays = fresh_lock-sweep s.task_id now' rows {t = mine} live read in
          let back : has_task_id t.task_id mine ≡ true =
            rw ((eq_iff t.task_id s.task_id).0 same) (eq_refl s.task_id) in
          let equal : t ≡ mine = chosen_row now' (sweep now' rows) h' next mine back stays in
          let ready =
            (next_task-All (λ x. Unit {0}) now' (sweep now' rows) (All-true (sweep now' rows))
              next).1 in
          let bad : is_claimable now' mine ≡ true = rw equal at ready in cc
    ]

-- A call that a claim of the task `id` by `worker` at `now` is not to outlast: it claims later than
-- fifteen minutes on, or it is the worker's own execution of the task.
abbrev pub LeavesLock : String → String → ℕ → TaskCall → Type 0
LeavesLock id worker now (submits q new_id now') = Unit
LeavesLock id worker now (claims worker' now') = now' ≤ now + microseconds 900
LeavesLock id worker now (executes task worker' now') =
    (str_eq id task.task_id && str_eq worker worker') ≡ false

-- The locked task, under the calls that leave its lock.
module _ (handlers : TaskHandlers) (worker : String) (now : ℕ) (s : TaskRow) where
  mine : TaskRow
  mine = started worker now s

  claim-keeps_lock :
      (worker' : String) (now' : ℕ) (rows : List TaskRow)
      → now' ≤ now + microseconds 900
      → Stores s.task_id mine rows
      → Stores s.task_id mine (claim worker' now' rows).1
  unfolding claim Stores mine
  claim-keeps_lock worker' now' rows soon stored =
      let swept' = sweep now' rows in
      let found = next_task now' swept' in
      let live : is_stale now' (started worker now s).locked_at ≡ false = ground arith in
      read_claimed-Keeps (Stores s.task_id mine) (taken_id found swept')
        (take_task found worker' now' swept')
        (taken found (fresh_lock-sweep s.task_id now' rows {t = started worker now s} live stored))
    where
      taken :
          (found : Option TaskRow)
          → first_row (has_task_id s.task_id) (sweep now' rows) ≡ some (started worker now s)
          → first_row (has_task_id s.task_id) (take_task found worker' now' (sweep now' rows))
            ≡ some (started worker now s)
      taken none kept = kept
      taken (some r) kept =
          first_row-update_other (has_task_id s.task_id) (takes r.task_id) (started worker' now')
            (sweep now' rows) (λ y. refl)
            (elim (Bool-cases (str_eq s.task_id r.task_id)) [
              | inl same ↦ rw same refl
              | inr other ↦ rw other refl
            ])
            kept

  after_calls-keep_lock :
      (cs : List TaskCall) (rows : List TaskRow)
      → All (LeavesLock s.task_id worker now) cs
      → Stores s.task_id mine rows
      → Stores s.task_id mine (after_calls handlers cs rows)
  unfolding after_calls after_call mine
  after_calls-keep_lock [] rows leave stored = stored
  after_calls-keep_lock (submits q new_id now' ∷ cs) rows leave stored =
      after_calls-keep_lock cs _ leave.1
        (submit-Stores handlers s.task_id mine q new_id now' rows stored)
  after_calls-keep_lock (claims worker' now' ∷ cs) rows leave stored =
      after_calls-keep_lock cs _ leave.1 (claim-keeps_lock worker' now' rows leave.0 stored)
  after_calls-keep_lock (executes task worker' now' ∷ cs) rows leave stored =
      after_calls-keep_lock cs _ leave.1
        (execute-Stores handlers s.task_id mine task worker' now' leave.0 rows stored)

-- After any calls from an empty table: if a worker claims a task, and after it come any
-- submissions, any claims up to fifteen minutes later, and any executions but its own of that task,
-- then a claim of any worker up to fifteen minutes later is not of that task.
pub claim_is_exclusive :
    (handlers : TaskHandlers) (before after : List TaskCall) (worker worker' : String)
    (now now' : ℕ) {t t' : TaskRow} {rows' rows'' : List TaskRow}
    → claim worker now (after_calls handlers before []) ≡ (ok (some t), rows')
    → All (LeavesLock t.task_id worker now) after
    → now' ≤ now + microseconds 900
    → claim worker' now' (after_calls handlers after rows') ≡ (ok (some t'), rows'')
    → str_eq t'.task_id t.task_id ≡ false
unfolding Claims Stores mine
claim_is_exclusive handlers before after worker worker' now now' {t} {t'} {rows'} first leave soon
      second =
    let rows = after_calls handlers before [] in
    let h = after_calls-AreSound handlers before in
    let h' : AreSound rows' = subst (λ x. AreSound x.1) first (claim-AreSound worker now rows h) in
    let later = after_calls handlers after rows' in
    let h'' : AreSound later = after_calls-keep_AreSound handlers after rows' h' in
    let (s, found, value, store, read) = claim-Claims worker now rows h first in
    let (s', found', value', store', read') = claim-Claims worker' now' later h'' second in
    let key : t.task_id ≡ s.task_id = ap (λ x. x.task_id) value in
    let key' : t'.task_id ≡ s'.task_id = ap (λ x. x.task_id) value' in
    let leave' : All (LeavesLock s.task_id worker now) after =
      subst (λ k. All (LeavesLock k worker now) after) key leave in
    let stored =
      after_calls-keep_lock handlers worker now s after rows' leave'
        (subst (λ x. first_row (has_task_id s.task_id) rows' ≡ some x) value read) in
    rw (key, key') (locked_is_not_next now now' worker s later h'' soon stored found')
