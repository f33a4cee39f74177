-- ===== src/Contests/Closing.antt =====
-- About `ContestService.close`: a closing that returns, and one that fails.
use coversational_algo_tradi.Contests.Rows.{
  Closing, ContestError, ContestRow, ContestStore, Entry, ResultRow, already_closed,
  constraint_violation, is_closed,
}
use coversational_algo_tradi.Contests.Service.{
  add_result, close, closed_row, get_contest, has_contest_id, has_result_id, insert_result,
  insert_results, is_open, is_result_of, ranked, result_row, results, write_snapshot,
}
use coversational_algo_tradi.Contests.Standing.{
  ContestCall, Stands, after_contest_calls, after_contest_calls-Stands, close_again,
}
use coversational_algo_tradi.Prelude.{
  Bool-cases, Keeps, Keeps-bind, List, Option-cases, Result, Returned, Returned-bind, Returned-map,
  String, [], any_row, arith, eq_iff, eq_refl, err, false, first_row, first_row-passes,
  first_row-update_hit, inl, inr, length, ltb, none, of_returned, ok, refl, some, suc, true,
  where_rows, ℕ, ◌<◌, ◌∙◌, ◌∷◌, ◌≡◌,
}

module _ {F : Type 0} where
  -- What a call of `close` that returns leaves: the contest is there, and closed.
  IsOver : String → ContestStore F → Type 0
  IsOver id s =
      (c : ContestRow) × (first_row (has_contest_id id) s.contests ≡ some c)
      × (is_closed c.status ≡ true)

  insert_result-contests :
      (result_id id : String) (now : ℕ) (e : Entry F) (s : ContestStore F)
      → (insert_result result_id id now e s).1.contests ≡ s.contests
  unfolding insert_result
  insert_result-contests result_id id now e s = elim (Option-cases e.agent_id) [
    | inl missing ↦ rw missing refl
    | inr (agent, given) ↦ elim (Bool-cases (any_row (has_result_id result_id) s.contest_results)) [
      | inl clash ↦ rw (given, clash) refl
      | inr fresh ↦ rw (given, fresh) refl
    ]
  ]

  insert_results-contests :
      (ids : ℕ → String) (id : String) (now : ℕ) (es : List (Entry F)) (cs : List ContestRow)
      → Keeps (λ s. s.contests ≡ cs) (insert_results ids id now es)
  unfolding insert_results
  insert_results-contests ids id now [] cs = λ s h. h
  insert_results-contests ids id now (e ∷ es) cs =
      Keeps-bind (λ s. s.contests ≡ cs) (insert_result (ids (length es)) id now e) _
        (λ s h. insert_result-contests (ids (length es)) id now e s ∙ h)
        (λ _. insert_results-contests ids id now es cs)

  kept-Returned :
      {A : Type 0} (P : ContestStore F → Type 0) (x : Result ContestError A × ContestStore F)
      → P x.1
      → Returned (λ a t. P t) x
  kept-Returned P (ok a, t) h = h
  kept-Returned P (err e, t) h = tt

  write_snapshot-IsOver :
      (ids : ℕ → String) (id : String) (d : ContestRow) (now : ℕ) (es : List (Entry F))
      (s : ContestStore F)
      → first_row (has_contest_id id) s.contests ≡ some d
      → Returned (λ r t. IsOver id t) (write_snapshot ids d now es s)
  unfolding write_snapshot IsOver
  write_snapshot-IsOver ids id d now es s found =
      Returned-bind (λ r t. IsOver id t) _ (insert_results ids d.contest_id now es) s
        (Returned-map (insert_results ids d.contest_id now es s)
          (λ _ t same. (
            closed_row d,
            first_row-update_hit (has_contest_id id) (has_contest_id d.contest_id) closed_row
                t.contests {x = d} (λ y. refl) (eq_refl d.contest_id) (rw same found),
            refl,
          ))
          (kept-Returned (λ t. t.contests ≡ s.contests) (insert_results ids d.contest_id now es s)
            (insert_results-contests ids d.contest_id now es s.contests s refl)))

  close-IsOver :
      (ids : ℕ → String) (id : String) (now : ℕ) (es : List (Entry F)) (s : ContestStore F)
      → Returned (λ r t. IsOver id t) (close ids id now es s)
  unfolding close get_contest results IsOver
  close-IsOver ids id now es s = elim (Option-cases (first_row (has_contest_id id) s.contests)) [
    | inl unknown ↦ rw unknown tt
    | inr (d, found) ↦ elim (Bool-cases (is_closed d.status)) [
      | inl over ↦ rw (found, over) (d, found, over)
      | inr running ↦ rw (found, running) (write_snapshot-IsOver ids id d now es s found)
    ]
  ]

  -- The standings that a store has for a contest, in the order of `results`.
  abbrev pub standings_in : String → ContestStore F → List (ResultRow F)
  standings_in id s = ranked (where_rows (is_result_of id) s.contest_results)

  -- After a call of `close` has returned, and after any further calls, raised or not, another call of
  -- `close` for the same contest, with any leaderboard, writes nothing and returns the standings that
  -- were stored when the first one returned.
  pub close_is_final :
      (ids ids' : ℕ → String) (id : String) (now now' : ℕ) (es es' : List (Entry F))
      (s : ContestStore F) (cs : List (ContestCall F)) {r : Closing F} {s' : ContestStore F}
      → close ids id now es s ≡ (ok r, s')
      → close ids' id now' es' (after_contest_calls cs s')
        ≡ (ok (already_closed (standings_in id s')), after_contest_calls cs s')
  unfolding IsOver Stands
  close_is_final ids ids' id now now' es es' s cs {s'} first =
      let (c, found, over) =
        of_returned (λ r t. IsOver id t) first (close-IsOver ids id now es s) in
      let rows = where_rows (is_result_of id) s'.contest_results in
      close_again id c rows over ids' now' es' (after_contest_calls cs s')
        (after_contest_calls-Stands id c rows over cs s' (found, refl))

  -- The store with the row of the first entry.
  abbrev pub with_first :
      (ℕ → String)
      → String
      → String
      → ℕ
      → Entry F
      → List (Entry F)
      → ContestStore F
      → ContestStore F
  with_first ids id agent now e es s =
      add_result (result_row (ids (suc (length es))) id now e agent) s

  -- Where the first entry has an agent and its new identifier is not taken, and the second has no
  -- agent, closing an open contest raises, and yet the first entry stays in the standings; until
  -- the deadline the contest is still open.
  pub failed_close_leaves_standings :
      (ids : ℕ → String) (id agent : String) (now later : ℕ) (e e' : Entry F) (es : List (Entry F))
      (s : ContestStore F) {c : ContestRow}
      → first_row (has_contest_id id) s.contests ≡ some c
      → is_closed c.status ≡ false
      → later < c.closes_at
      → e.agent_id ≡ some agent
      → any_row (has_result_id (ids (suc (length es)))) s.contest_results ≡ false
      → e'.agent_id ≡ none
      → (close ids id now (e ∷ e' ∷ es) s
          ≡ (err constraint_violation, with_first ids id agent now e es s))
        × (is_open id later (with_first ids id agent now e es s)
            ≡ (ok true, with_first ids id agent now e es s))
  unfolding close get_contest write_snapshot insert_results insert_result is_open
  failed_close_leaves_standings ids id agent now later e e' es s {c} found running soon given fresh
        missing =
      let own : c.contest_id ≡ id =
        (eq_iff c.contest_id id).0 (first_row-passes (has_contest_id id) s.contests found) in
      let early : ltb later c.closes_at ≡ true = ground arith in
      (rw (found, running, given, fresh, missing, own) refl, rw (found, running, early) refl)
