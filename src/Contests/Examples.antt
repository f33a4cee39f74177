-- ===== src/Contests/Examples.antt =====
-- Runs of the contest service on concrete inputs: two contests over one dataset, of which one is
-- closed.
use coversational_algo_tradi.Contests.Rows.{
  ContestRequest, ContestStore, Entry, ResultRow, already_closed, constraint_violation, snapshot,
}
use coversational_algo_tradi.Contests.Service.{
  ContestLibrary, Moment, close, create_contest, dataset_fingerprint, get_contest, insert_contest,
  insert_result, insert_results, is_open, new_contest, ranked, replaced, result_row, results,
  write_snapshot,
}
use coversational_algo_tradi.Contests.Standing.{
  ContestCall, after_contest_call, after_contest_calls, closes, creates,
}
use coversational_algo_tradi.Contests.Closing.{
  close_is_final, failed_close_leaves_standings, with_first,
}
use coversational_algo_tradi.Prelude.{
  List, String, [], arith, err, none, ok, pos, refl, some, suc, true, zero, ℕ, ◌∷◌, ◌≡◌,
}

abbrev library : ContestLibrary
library = record {
  upper = λ t. t;
  strip = λ t. t;
  digest = λ t. t;
  date_of = λ t. 20000;
  load = some (λ id. some (("1" ∷ "2" ∷ []) ∷ ("3" ∷ []) ∷ []));
  freezing = λ d. replaced;
}

abbrev request : ContestRequest
request = record {
  name = "Weekly";
  symbol = "SBIN";
  exchange = "NSE";
  dataset_id = some "d1";
  open_for_days = 7;
}

abbrev moment : String → Moment
moment id = record { contest_id = id; frozen_at = 10; closing_from = 11; created_at = 12 }

abbrev entry : String → ℕ → Entry ℕ
entry agent place = record {
  agent_id = some agent;
  version = none;
  run_id = some "run";
  metrics = "{}";
  composite = some 5;
  rank = some (pos place);
}

abbrev nameless : Entry ℕ
nameless = record (entry "none" 3) { agent_id = none }

abbrev nothing : ContestStore ℕ
nothing = record { contests = []; contest_results = []; eval_datasets = [] }

abbrev two_contests : ContestStore ℕ
two_contests =
    after_contest_calls
      (creates library request (moment "c1") ∷ creates library request (moment "c2") ∷ []) nothing

abbrev first_ids : ℕ → String
first_ids zero = "r1"
first_ids (suc n) = "r2"

abbrev other_ids : ℕ → String
other_ids n = "r3"

abbrev board : List (Entry ℕ)
board = entry "a" 2 ∷ entry "b" 1 ∷ []

abbrev once_closed : ContestStore ℕ
once_closed = (close first_ids "c1" 100 board two_contests).1

abbrev later_calls : List (ContestCall ℕ)
later_calls =
    closes other_ids "c1" 200 []
    ∷ closes other_ids "c2" 300 (entry "c" 1 ∷ [])
    ∷ creates library request (moment "c1")
    ∷ []

abbrev standing : List (ResultRow ℕ)
standing =
    result_row "r1" "c1" 100 (entry "b" 1) "b" ∷ result_row "r2" "c1" 100 (entry "a" 2) "a" ∷ []

fingerprint : dataset_fingerprint library (("1" ∷ "2" ∷ []) ∷ ("3" ∷ []) ∷ []) ≡ "1|23"
unfolding dataset_fingerprint
fingerprint = refl

close_is_final_example :
    close other_ids "c1" 400 board (after_contest_calls later_calls once_closed)
    ≡ (ok (already_closed standing), after_contest_calls later_calls once_closed)
unfolding close get_contest results write_snapshot insert_results insert_result ranked
    after_contest_calls after_contest_call create_contest dataset_fingerprint insert_contest
close_is_final_example =
    close_is_final first_ids other_ids "c1" 100 400 board board two_contests later_calls
      {r = snapshot 2 (some "1|23") 100} {s' = once_closed} refl

failed_close_leaves_standings_example :
    (close first_ids "c2" 100 (entry "a" 2 ∷ nameless ∷ []) two_contests
      ≡ (err constraint_violation, with_first first_ids "c2" "a" 100 (entry "a" 2) [] two_contests))
    × (is_open "c2" 500 (with_first first_ids "c2" "a" 100 (entry "a" 2) [] two_contests)
        ≡ (ok true, with_first first_ids "c2" "a" 100 (entry "a" 2) [] two_contests))
unfolding after_contest_calls after_contest_call create_contest dataset_fingerprint insert_contest
failed_close_leaves_standings_example =
    failed_close_leaves_standings first_ids "c2" "a" 100 500 (entry "a" 2) nameless [] two_contests
      {c = new_contest library request (moment "c2") (some "1|23")} refl refl (omega arith) refl
      refl refl
