-- ===== src/Portfolio/Runs.antt =====
-- Sequences of calls of `PortfolioService`, raised or not, from empty tables.
use coversational_algo_tradi.Prelude.{
  Bool, Bool-cases, Keeps, Keeps-bind, List, Option-cases, Returned, String, [], arith, inl, inr,
  leb_ℤ, pos, str_eq, transaction, transaction_store, ℤ, ◌>>◌, ◌||◌, ◌∷◌, ◌≤ℤ◌,
}
use coversational_algo_tradi.Python.{Builtins, zero_float}
use coversational_algo_tradi.Portfolio.Rows.{PortfolioDb, PortfolioRiskPolicy}
use coversational_algo_tradi.Portfolio.Reads.{
  active_reservations, find_portfolio, find_position, quantity_of, reserved_sell_quantity,
}
use coversational_algo_tradi.Portfolio.Assess.{Order, assess}
use coversational_algo_tradi.Portfolio.Snapshot.{Moment, get_portfolio}
use coversational_algo_tradi.Portfolio.Reserve.{
  DrawnIds, create, evaluate_and_reserve, evaluate_in_transaction, expire_overdue, open_portfolio,
  order_of, parse_side, reading_of,
}
use coversational_algo_tradi.Portfolio.Fill.{
  FillRequest, apply_fill, release_reservation, set_trading_enabled,
}
use coversational_algo_tradi.Portfolio.Coverage.{IsCovered, expire-IsCovered}
use coversational_algo_tradi.Portfolio.Approvals.{record_assessment-IsCovered}
use coversational_algo_tradi.Portfolio.OpenSells.{
  open_sells, open_sells-nonneg, reserved-eq-open_sells,
}
use coversational_algo_tradi.Portfolio.Promises.{
  apply_fill-IsCovered, get_portfolio-Keeps, insert_portfolio-IsCovered, release-IsCovered,
  set_trading_enabled-IsCovered,
}

-- A call, with the identifiers and the clock that it meets.
pub data PortfolioCall (F : Type 0) : Type 0 where
  creates : String → F → String → String → String → Moment → PortfolioCall F
  evaluates : DrawnIds → String → String → String → ℤ → F → Moment → PortfolioCall F
  fills : FillRequest F → Moment → PortfolioCall F
  releases : String → Moment → PortfolioCall F
  controls : String → Bool → String → String → String → Moment → PortfolioCall F

abbrev pub empty_db : {F : Type 0} → PortfolioDb F
empty_db = record {
  portfolios = [];
  positions = [];
  ledger = [];
  reservations = [];
  controls = [];
  decisions = [];
}

pub empty-IsCovered : {F : Type 0} → IsCovered {F = F} empty_db
unfolding open_sells
empty-IsCovered = record { positive = tt; covered = λ p symbol. omega arith }

module _ {F : Type 0} (py : Builtins F) (policy : PortfolioRiskPolicy F) where
  -- The tables after a call.
  unfoldable pub after_call : PortfolioCall F → PortfolioDb F → PortfolioDb F
  after_call (creates name cash by money p at) db = (create py policy name cash by money p at db).1
  after_call (evaluates ids p symbol side quantity price at) db =
      (evaluate_and_reserve py policy ids p symbol side quantity price at db).1
  after_call (fills q at) db = (apply_fill py q at db).1
  after_call (releases id at) db = (release_reservation py id at db).1
  after_call (controls p enabled reason by control_id at) db =
      (set_trading_enabled py p enabled reason by control_id at db).1

  unfoldable pub after_calls : List (PortfolioCall F) → PortfolioDb F → PortfolioDb F
  unfolding after_call
  after_calls [] db = db
  after_calls (c ∷ cs) db = after_calls cs (after_call c db)

  opened :
      (name : String) (cash : F) (by money p : String) (at : Moment)
      → Keeps IsCovered (
          transaction (open_portfolio py policy name cash by money p at.now)
          >> get_portfolio py p at)
  unfolding open_portfolio
  opened name cash by money p at =
      Keeps-bind IsCovered (transaction (open_portfolio py policy name cash by money p at.now))
        (λ _. get_portfolio py p at)
        (λ db c.
          transaction_store IsCovered (open_portfolio py policy name cash by money p at.now) db c
            (insert_portfolio-IsCovered py _ _ _ db c))
        (λ _. get_portfolio-Keeps py IsCovered p at)

  create-IsCovered :
      (name : String) (cash : F) (by money p : String) (at : Moment)
      → Keeps IsCovered (create py policy name cash by money p at)
  unfolding create
  create-IsCovered name cash by money p at db c = elim (Bool-cases (str_eq (py.strip name) "")) [
    | inl empty ↦ rw empty c
    | inr named ↦ elim (Bool-cases (py.le cash (zero_float py))) [
      | inl poor ↦ rw (named, poor) c
      | inr funded ↦ rw (named, funded) (opened name cash by money p at db c)
    ]
  ]

  evaluate_in_transaction-IsCovered :
      (ids : DrawnIds) (p : String) (o : Order F) (at : Moment) (db : PortfolioDb F)
      → IsCovered db
      → Returned (λ _ t. IsCovered t) (evaluate_in_transaction py policy ids p o at db)
  unfolding evaluate_in_transaction
  evaluate_in_transaction-IsCovered ids p o at db c =
      let swept = expire_overdue at.now db in
      elim (Option-cases (find_portfolio p swept)) [
        | inl missing ↦ rw missing tt
        | inr (row, found) ↦
            elim (Option-cases
              (assess py policy (reading_of py policy p o.symbol at row swept) o)) [
                | inl undefined ↦ rw (found, undefined) tt
                | inr (a, assessed) ↦
                    rw (found, assessed)
                      (record_assessment-IsCovered py policy ids p at row o a swept assessed
                        (expire-IsCovered at.now db c))
              ]
      ]

  evaluate-IsCovered :
      (ids : DrawnIds) (p symbol side : String) (quantity : ℤ) (price : F) (at : Moment)
      → Keeps IsCovered (evaluate_and_reserve py policy ids p symbol side quantity price at)
  unfolding evaluate_and_reserve
  evaluate-IsCovered ids p symbol side_text quantity price at db c =
      elim (Option-cases (parse_side py policy side_text)) [
        | inl bad ↦ rw bad c
        | inr (side, good) ↦
            elim (Bool-cases (leb_ℤ quantity (pos 0) || py.le price (zero_float py))) [
              | inl bad ↦ rw (good, bad) c
              | inr fine ↦
                  rw (good, fine)
                    (transaction_store IsCovered
                      (evaluate_in_transaction py policy ids p
                        (order_of py policy symbol side quantity price) at)
                      db c
                      (evaluate_in_transaction-IsCovered ids p
                        (order_of py policy symbol side quantity price) at db c))
            ]
      ]

  pub after_call-IsCovered :
      (c : PortfolioCall F) (db : PortfolioDb F) → IsCovered db → IsCovered (after_call c db)
  unfolding after_call
  after_call-IsCovered (creates name cash by money p at) db h =
      create-IsCovered name cash by money p at db h
  after_call-IsCovered (evaluates ids p symbol side quantity price at) db h =
      evaluate-IsCovered ids p symbol side quantity price at db h
  after_call-IsCovered (fills q at) db h = apply_fill-IsCovered py q at db h
  after_call-IsCovered (releases id at) db h = release-IsCovered py id at db h
  after_call-IsCovered (controls p enabled reason by control_id at) db h =
      set_trading_enabled-IsCovered py p enabled reason by control_id at db h

  pub after_calls-IsCovered :
      (cs : List (PortfolioCall F)) (db : PortfolioDb F)
      → IsCovered db
      → IsCovered (after_calls cs db)
  unfolding after_calls
  after_calls-IsCovered [] db h = h
  after_calls-IsCovered (c ∷ cs) db h =
      after_calls-IsCovered cs (after_call c db) (after_call-IsCovered c db h)

  -- After any calls, raised or not, from empty tables: in every portfolio and for every symbol, the
  -- quantity that the service counts as reserved for sale is at least zero and at most the position.
  -- So no position is ever negative.
  pub never_oversold :
      (cs : List (PortfolioCall F)) (p symbol : String)
      → let db = after_calls cs empty_db in
        (pos 0 ≤ℤ reserved_sell_quantity symbol (active_reservations p db))
        × (reserved_sell_quantity symbol (active_reservations p db)
            ≤ℤ quantity_of (find_position p symbol db))
  never_oversold cs p symbol =
      let db = after_calls cs empty_db in
      let c = after_calls-IsCovered cs empty_db empty-IsCovered in
      rw reserved-eq-open_sells
        (open_sells-nonneg p symbol db.reservations c.positive, c.covered p symbol)
