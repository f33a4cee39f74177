-- ===== src/Contests/Standing.antt =====
-- About the standings of a closed contest under the calls of `ContestService`.
use coversational_algo_tradi.Contests.Rows.{
  ContestRequest, ContestRow, ContestStore, Entry, EvalDataset, ResultRow, already_closed,
  is_closed,
}
use coversational_algo_tradi.Contests.Service.{
  ContestLibrary, FreezeOutcome, Moment, candles_of, close, closed_row, create_contest,
  dataset_fingerprint, freeze, freeze_by, frozen_row, get_contest, has_contest_id, has_result_id,
  insert_contest, insert_result, insert_results, is_result_of, new_contest, not_deleted,
  not_inserted, ranked, replaced, results, set_closed, write_snapshot,
}
use coversational_algo_tradi.Prelude.{
  Bool-cases, Keeps, Keeps-bind, List, Option, Option-cases, String, [], any_row, eq_iff, false,
  first_row, first_row-any, first_row-passes, first_row-update_other, inl, inr, length, none, ok,
  refl, same_text, some, some_eq, str_eq, subst, sym, true, where_rows, ℕ, ◌∙◌, ◌∷◌, ◌≡◌,
}

-- A call with the identifiers and the clock that it meets.
pub data ContestCall (F : Type 0) : Type 0 where
  creates : ContestLibrary → ContestRequest → Moment → ContestCall F
  closes : (ℕ → String) → String → ℕ → List (Entry F) → ContestCall F

module _ {F : Type 0} where
  -- The store after a call, which may have raised.
  unfoldable pub after_contest_call : ContestCall F → ContestStore F → ContestStore F
  after_contest_call (creates lib q m) s = (create_contest lib q m s).1
  after_contest_call (closes ids id now entries) s = (close ids id now entries s).1

  unfoldable pub after_contest_calls : List (ContestCall F) → ContestStore F → ContestStore F
  unfolding after_contest_call
  after_contest_calls [] s = s
  after_contest_calls (c ∷ cs) s = after_contest_calls cs (after_contest_call c s)

  module _ (id : String) (c : ContestRow) (rows : List (ResultRow F))
      (is_over : is_closed c.status ≡ true) where
    -- The contest is stored and closed, and these are its standings.
    unfoldable pub Stands : ContestStore F → Type 0
    Stands s =
        (first_row (has_contest_id id) s.contests ≡ some c)
        × (where_rows (is_result_of id) s.contest_results ≡ rows)

    insert_contest-Stands : (new : ContestRow) → Keeps Stands (insert_contest new)
    unfolding insert_contest Stands
    insert_contest-Stands new s h =
        elim (Bool-cases (any_row (has_contest_id new.contest_id) s.contests)) [
          | inl clash ↦ rw clash h
          | inr fresh ↦ rw fresh (elim (Bool-cases (str_eq new.contest_id id)) [
            | inr away ↦ rw away h
            | inl same ↦
                let there = first_row-any (has_contest_id id) s.contests h.0 in
                let gone : any_row (has_contest_id id) s.contests ≡ false =
                  rw ((eq_iff new.contest_id id).0 same) at fresh in
                cc
          ])
        ]

    freeze_by-Stands :
        (outcome : FreezeOutcome) (d : EvalDataset) → Keeps Stands (freeze_by outcome d)
    unfolding Stands
    freeze_by-Stands replaced d s h = h
    freeze_by-Stands not_deleted d s h = h
    freeze_by-Stands not_inserted d s h = h

    freeze-Stands :
        (lib : ContestLibrary) (q : ContestRequest) (now : ℕ)
        (found : Option (String × List (List String)))
        → Keeps Stands (freeze lib q now found)
    unfolding Stands
    freeze-Stands lib q now none = λ s h. h
    freeze-Stands lib q now (some (dataset, candles)) =
        let d = frozen_row lib dataset q now (dataset_fingerprint lib candles) (length candles) in
        freeze_by-Stands (lib.freezing d) d

    create_contest-Stands :
        (lib : ContestLibrary) (q : ContestRequest) (m : Moment)
        → Keeps Stands (create_contest lib q m)
    unfolding create_contest
    create_contest-Stands lib q m =
        Keeps-bind Stands (freeze lib q m.frozen_at (candles_of lib q.dataset_id)) _
          (freeze-Stands lib q m.frozen_at (candles_of lib q.dataset_id))
          (λ (hash, count).
            Keeps-bind Stands (insert_contest (new_contest lib q m hash)) _
              (insert_contest-Stands (new_contest lib q m hash)) (λ _ s h. h))

    insert_result-Stands :
        (result_id other_id : String) (now : ℕ) (e : Entry F)
        → str_eq other_id id ≡ false
        → Keeps Stands (insert_result result_id other_id now e)
    unfolding insert_result Stands
    insert_result-Stands result_id other_id now e away s h = elim (Option-cases e.agent_id) [
      | inl missing ↦ rw missing h
      | inr (agent, given) ↦
          elim (Bool-cases (any_row (has_result_id result_id) s.contest_results)) [
            | inl clash ↦ rw (given, clash) h
            | inr fresh ↦ rw (given, fresh, away) h
          ]
    ]

    insert_results-Stands :
        (ids : ℕ → String) (other_id : String) (now : ℕ) (es : List (Entry F))
        → str_eq other_id id ≡ false
        → Keeps Stands (insert_results ids other_id now es)
    unfolding insert_results
    insert_results-Stands ids other_id now [] away = λ s h. h
    insert_results-Stands ids other_id now (e ∷ es) away =
        Keeps-bind Stands (insert_result (ids (length es)) other_id now e) _
          (insert_result-Stands (ids (length es)) other_id now e away)
          (λ _. insert_results-Stands ids other_id now es away)

    set_closed-Stands :
        (other_id : String) (s : ContestStore F)
        → str_eq other_id id ≡ false
        → Stands s
        → Stands (set_closed other_id s)
    unfolding Stands
    set_closed-Stands other_id s away h =
        let own : c.contest_id ≡ id =
          (eq_iff c.contest_id id).0 (first_row-passes (has_contest_id id) s.contests h.0) in
        (
          first_row-update_other (has_contest_id id) (has_contest_id other_id) closed_row s.contests
              (λ y. refl) (rw own (same_text id other_id ∙ away)) h.0,
          h.1,
        )

    write_snapshot-Stands :
        (ids : ℕ → String) (d : ContestRow) (now : ℕ) (es : List (Entry F))
        → str_eq d.contest_id id ≡ false
        → Keeps Stands (write_snapshot ids d now es)
    unfolding write_snapshot
    write_snapshot-Stands ids d now es away =
        Keeps-bind Stands (insert_results ids d.contest_id now es) _
          (insert_results-Stands ids d.contest_id now es away)
          (λ _ s h. set_closed-Stands d.contest_id s away h)

    close-Stands :
        (ids : ℕ → String) (other_id : String) (now : ℕ) (es : List (Entry F))
        → Keeps Stands (close ids other_id now es)
    unfolding close get_contest results Stands
    close-Stands ids other_id now es s h =
        elim (Option-cases (first_row (has_contest_id other_id) s.contests)) [
          | inl unknown ↦ rw unknown h
          | inr (d, found) ↦ elim (Bool-cases (is_closed d.status)) [
            | inl over ↦ rw (found, over) h
            | inr running ↦
                rw (found, running) (write_snapshot-Stands ids d now es (apart d found running) s h)
          ]
        ]
      where
        apart :
            (d : ContestRow)
            → first_row (has_contest_id other_id) s.contests ≡ some d
            → is_closed d.status ≡ false
            → str_eq d.contest_id id ≡ false
        apart d found running = elim (Bool-cases (str_eq d.contest_id id)) [
          | inr away ↦ away
          | inl same ↦
              let named : d.contest_id ≡ other_id =
                (eq_iff d.contest_id other_id).0
                  (first_row-passes (has_contest_id other_id) s.contests found) in
              let one : d.contest_id ≡ id = (eq_iff d.contest_id id).0 same in
              let again : first_row (has_contest_id id) s.contests ≡ some d =
                subst (λ k. first_row (has_contest_id k) s.contests ≡ some d) (sym named ∙ one)
                  found in
              let equal : c ≡ d = some_eq (sym h.0 ∙ again) in let over = is_over in cc
        ]

    pub after_contest_calls-Stands :
        (cs : List (ContestCall F)) (s : ContestStore F)
        → Stands s
        → Stands (after_contest_calls cs s)
    unfolding after_contest_calls after_contest_call
    after_contest_calls-Stands [] s h = h
    after_contest_calls-Stands (creates lib q m ∷ cs) s h =
        after_contest_calls-Stands cs _ (create_contest-Stands lib q m s h)
    after_contest_calls-Stands (closes ids other_id now es ∷ cs) s h =
        after_contest_calls-Stands cs _ (close-Stands ids other_id now es s h)

    -- A closed contest is not closed again.
    pub close_again :
        (ids : ℕ → String) (now : ℕ) (es : List (Entry F)) (s : ContestStore F)
        → Stands s
        → close ids id now es s ≡ (ok (already_closed (ranked rows)), s)
    unfolding close get_contest results Stands
    close_again ids now es s h =
        let own : c.contest_id ≡ id =
          (eq_iff c.contest_id id).0 (first_row-passes (has_contest_id id) s.contests h.0) in
        rw (h.0, is_over, own, h.1) refl
