-- ===== src/Contests/Service.antt =====
-- The methods of `ContestService` (iimc_trading_platform/services/contest_service.py). New
-- identifiers and the readings of the clock are arguments, as are SHA-256 and the backtest service,
-- which gives the candles of a dataset, each as the texts of its fields, or fails.
use Prim.Native.String.{◌++◌}
use mathlib.Core.Option
use coversational_algo_tradi.Contests.Rows.{
  Closing, ContestMethod, ContestRequest, ContestRow, ContestStore, Created, Entry, EvalDataset,
  ResultRow, Standings, already_closed, closed, constraint_violation, is_closed, opened, snapshot,
  unknown_contest,
}
use coversational_algo_tradi.Prelude.{
  Bool, List, Option, String, [], any_row, false, first_row, get_or, gets, if◌then◌else◌, leb_ℤ,
  length, ltb, modify, none, not, or_raise, pure, raise, raise_if, some, str_eq, true, update_rows,
  where_rows, ℕ, ℤ, ◌&&◌, ◌*◌, ◌+◌, ◌>>=◌, ◌>>◌, ◌∷◌,
}

-- How the two statements of `_freeze_dataset` end: each commits by itself, and may raise.
pub data FreezeOutcome : Type 0 where
  replaced not_deleted not_inserted : FreezeOutcome

-- What the code uses of Python, of the backtest service and of the database, which may be out of reach;
-- `digest` is the first 32 digits of the hash.
pub record ContestLibrary : Type 0 where
  pub upper : String → String
  pub strip : String → String
  pub digest : String → String
  pub date_of : ℕ → ℕ
  pub load : Option (String → Option (List (List String)))
  pub freezing : EvalDataset → FreezeOutcome

-- The identifier of a new contest and the readings of the clock in the order of their use.
pub record Moment : Type 0 where
  pub contest_id : String
  pub frozen_at : ℕ
  pub closing_from : ℕ
  pub created_at : ℕ

abbrev pub joined_by : String → List String → String
joined_by separator [] = ""
joined_by separator (t ∷ []) = t
joined_by separator (t ∷ u ∷ ts) = t ++ separator ++ joined_by separator (u ∷ ts)

abbrev pub payloads : List (List String) → String
payloads [] = ""
payloads (c ∷ cs) = joined_by "|" c ++ payloads cs

unfoldable pub dataset_fingerprint : ContestLibrary → List (List String) → String
dataset_fingerprint lib candles = lib.digest (payloads candles)

abbrev pub has_contest_id : String → ContestRow → Bool
has_contest_id id c = str_eq c.contest_id id

abbrev pub is_other_dataset : String → EvalDataset → Bool
is_other_dataset id d = not (str_eq d.eval_dataset_id id)

abbrev pub is_open_at : ℕ → Option ContestRow → Bool
is_open_at now none = false
is_open_at now (some c) = not (is_closed c.status) && ltb now c.closes_at

-- The order of `rank`, in which a missing rank is last.
abbrev pub is_before : Option ℤ → Option ℤ → Bool
is_before a none = true
is_before none (some b) = false
is_before (some a) (some b) = leb_ℤ a b

abbrev pub closed_row : ContestRow → ContestRow
closed_row c = record c { status = closed }

-- `_freeze_dataset`: the row of the dataset is replaced.
abbrev pub frozen_row : ContestLibrary → String → ContestRequest → ℕ → String → ℕ → EvalDataset
frozen_row lib id q now hash count = record {
  eval_dataset_id = id;
  symbol = lib.strip (lib.upper q.symbol);
  exchange = lib.strip (lib.upper q.exchange);
  bar_interval = "unknown";
  start_date = lib.date_of now;
  end_date = lib.date_of now;
  row_count = count;
  content_hash = hash;
  frozen_at = now;
}

abbrev pub candles_of : ContestLibrary → Option String → Option (String × List (List String))
candles_of lib none = none
candles_of lib (some id) = elim lib.load [
  | none ↦ none
  | some load ↦ if str_eq id "" then none else Option.map (λ cs. (id, cs)) (load id)
]

abbrev pub new_contest : ContestLibrary → ContestRequest → Moment → Option String → ContestRow
new_contest lib q m hash = record {
  contest_id = m.contest_id;
  name = q.name;
  symbol = lib.strip (lib.upper q.symbol);
  exchange = lib.strip (lib.upper q.exchange);
  eval_dataset_id = q.dataset_id;
  dataset_hash = hash;
  closes_at = m.closing_from + q.open_for_days * 86400000000;
  status = opened;
  created_at = m.created_at;
}

abbrev pub created_of : ContestRow → ℕ → Created
created_of c count = record {
  contest_id = c.contest_id;
  name = c.name;
  symbol = c.symbol;
  eval_dataset_id = c.eval_dataset_id;
  dataset_hash = c.dataset_hash;
  frozen_rows = count;
  closes_at = c.closes_at;
  status = c.status;
}

module _ {F : Type 0} where
  abbrev pub is_result_of : String → ResultRow F → Bool
  is_result_of id r = str_eq r.contest_id id

  abbrev pub has_result_id : String → ResultRow F → Bool
  has_result_id id r = str_eq r.result_id id

  abbrev pub put_contests : List ContestRow → ContestStore F → ContestStore F
  put_contests cs s = record s { contests = cs }

  abbrev pub put_results : List (ResultRow F) → ContestStore F → ContestStore F
  put_results rs s = record s { contest_results = rs }

  abbrev pub put_datasets : List EvalDataset → ContestStore F → ContestStore F
  put_datasets ds s = record s { eval_datasets = ds }

  -- `get`, whose `None` is for an identifier that is not known
  unfoldable pub get_contest : String → ContestMethod F (Option ContestRow)
  get_contest id = gets (λ s. first_row (has_contest_id id) s.contests)

  unfoldable pub is_open : String → ℕ → ContestMethod F Bool
  unfolding get_contest
  is_open id now = get_contest id >>= λ found. pure (is_open_at now found)

  abbrev pub by_rank : ResultRow F → List (ResultRow F) → List (ResultRow F)
  by_rank r [] = r ∷ []
  by_rank r (q ∷ qs) =
      let rest = by_rank r qs in if is_before r.rank q.rank then r ∷ q ∷ qs else q ∷ rest

  unfoldable pub ranked : List (ResultRow F) → List (ResultRow F)
  ranked [] = []
  ranked (r ∷ rs) = by_rank r (ranked rs)

  unfoldable pub results : String → ContestMethod F (Standings F)
  unfolding get_contest ranked
  results id = do
    rows ← gets (λ s. ranked (where_rows (is_result_of id) s.contest_results))
    contest ← get_contest id
    pure (record {
      contest_id = id;
      status = Option.map (λ c. c.status) contest;
      dataset_hash = elim contest [ none ↦ none | some c ↦ c.dataset_hash ];
      results = rows;
    })

  abbrev pub result_row : String → String → ℕ → Entry F → String → ResultRow F
  result_row result_id id now e agent = record {
    result_id = result_id;
    contest_id = id;
    agent_id = agent;
    version = get_or e.version "";
    run_id = e.run_id;
    metrics_json = e.metrics;
    composite = e.composite;
    rank = e.rank;
    snapshot_at = now;
  }

  abbrev pub add_result : ResultRow F → ContestStore F → ContestStore F
  add_result r s = put_results (r ∷ s.contest_results) s

  -- The INSERT of one entry, which the database refuses without an agent or under a key that is taken.
  unfoldable pub insert_result : String → String → ℕ → Entry F → ContestMethod F (Unit {0})
  insert_result result_id id now e = do
    agent ← or_raise e.agent_id constraint_violation
    taken ← gets (λ s. any_row (has_result_id result_id) s.contest_results)
    raise_if taken constraint_violation
    modify (add_result (result_row result_id id now e agent))

  -- The loop of `close`; `ids n` is the identifier made with `n` entries left after it.
  unfoldable pub insert_results :
      (ℕ → String) → String → ℕ → List (Entry F) → ContestMethod F (Unit {0})
  unfolding insert_result
  insert_results ids id now [] = pure tt
  insert_results ids id now (e ∷ es) = do
    let rest = insert_results ids id now es
    insert_result (ids (length es)) id now e
    rest

  abbrev pub set_closed : String → ContestStore F → ContestStore F
  set_closed id s = put_contests (update_rows (has_contest_id id) closed_row s.contests) s

  -- The snapshot of an open contest: no transaction is around its writes.
  unfoldable pub write_snapshot :
      (ℕ → String) → ContestRow → ℕ → List (Entry F) → ContestMethod F (Closing F)
  unfolding insert_results
  write_snapshot ids c now entries = do
    insert_results ids c.contest_id now entries
    modify (set_closed c.contest_id)
    pure (snapshot (length entries) c.dataset_hash now)

  abbrev pub close_found :
      (ℕ → String) → ContestRow → ℕ → List (Entry F) → ContestMethod F (Closing F)
  close_found ids c now entries =
      if is_closed c.status
      then results c.contest_id >>= (λ s. pure (already_closed s.results))
      else write_snapshot ids c now entries

  unfoldable pub close : (ℕ → String) → String → ℕ → List (Entry F) → ContestMethod F (Closing F)
  unfolding get_contest results write_snapshot
  close ids id now entries = do
    found ← get_contest id
    contest ← or_raise found unknown_contest
    close_found ids contest now entries

  abbrev pub delete_dataset : EvalDataset → ContestStore F → ContestStore F
  delete_dataset d s =
      put_datasets (where_rows (is_other_dataset d.eval_dataset_id) s.eval_datasets) s

  abbrev pub freeze_dataset : EvalDataset → ContestStore F → ContestStore F
  freeze_dataset d s =
      put_datasets (d ∷ where_rows (is_other_dataset d.eval_dataset_id) s.eval_datasets) s

  -- `_freeze_dataset` with what follows it in `create`: the hash is dropped where it raises.
  abbrev pub freeze_by : FreezeOutcome → EvalDataset → ContestMethod F (Option String × ℕ)
  freeze_by replaced d = do modify (freeze_dataset d); pure (some d.content_hash, d.row_count)
  freeze_by not_deleted d = pure (none, d.row_count)
  freeze_by not_inserted d = do modify (delete_dataset d); pure (none, d.row_count)

  -- The dataset is frozen where it can be loaded; its hash, if it was, and its length come back.
  abbrev pub freeze :
      ContestLibrary
      → ContestRequest
      → ℕ
      → Option (String × List (List String))
      → ContestMethod F (Option String × ℕ)
  freeze lib q now none = pure (none, 0)
  freeze lib q now (some (id, candles)) =
      let d = frozen_row lib id q now (dataset_fingerprint lib candles) (length candles) in
      freeze_by (lib.freezing d) d

  unfoldable pub insert_contest : ContestRow → ContestMethod F (Unit {0})
  insert_contest c s =
      if any_row (has_contest_id c.contest_id) s.contests
      then raise constraint_violation s
      else modify (λ t. put_contests (c ∷ t.contests) t) s

  unfoldable pub create_contest : ContestLibrary → ContestRequest → Moment → ContestMethod F Created
  unfolding dataset_fingerprint insert_contest
  create_contest lib q m = do
    (hash, count) ← freeze lib q m.frozen_at (candles_of lib q.dataset_id)
    insert_contest (new_contest lib q m hash)
    pure (created_of (new_contest lib q m hash) count)
