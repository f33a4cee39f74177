-- ===== src/Portfolio/Promises.antt =====
-- The methods of `PortfolioService`, and the promises to sell.
use coversational_algo_tradi.Prelude.{
  Bool, Bool-cases, Keeps, Keeps-bind, Option-cases, Returned, String, any_row, false, first_row,
  inl, inr, raise_if, refl, str_eq, transaction_store, true, ℕ, ◌>>◌, ◌||◌,
}
use coversational_algo_tradi.Python.{Builtins, zero_float}
use coversational_algo_tradi.Portfolio.Rows.{
  ControlRow, LedgerRow, PortfolioDb, PortfolioRow, bad_fill, released,
}
use coversational_algo_tradi.Portfolio.Reads.{active_in, find_portfolio, has_portfolio_id}
use coversational_algo_tradi.Portfolio.Snapshot.{Moment, get_portfolio}
use coversational_algo_tradi.Portfolio.Reserve.{has_row, insert_portfolio}
use coversational_algo_tradi.Portfolio.Fill.{
  FillRequest, apply_fill, fill_once, is_fill_of, is_releasable, is_reservation_of, post_control,
  post_once, release_reservation, set_status, set_trading_enabled,
}
use coversational_algo_tradi.Portfolio.Coverage.{
  IsCovered, close-IsCovered, fill_reservation-IsCovered,
}

module _ {F : Type 0} (py : Builtins F) where
  pub get_portfolio-Keeps :
      (P : PortfolioDb F → Type 0) (p : String) (at : Moment) → Keeps P (get_portfolio py p at)
  unfolding get_portfolio
  get_portfolio-Keeps P p at db h = elim (Option-cases (find_portfolio p db)) [
    | inl missing ↦ rw missing h
    | inr (row, found) ↦ rw found h
  ]

  fill_once-IsCovered :
      (q : FillRequest F) (now : ℕ) (db : PortfolioDb F)
      → IsCovered db
      → Returned (λ _ t. IsCovered t) (fill_once py q now db)
  unfolding fill_once
  fill_once-IsCovered q now db c =
      elim (Option-cases
        (first_row (is_reservation_of q.reservation_id q.portfolio_id) db.reservations)) [
          | inl missing ↦ rw missing tt
          | inr (r, found) ↦ rw found (fill_reservation-IsCovered py q r now db c found)
        ]

  post_once-IsCovered : (q : FillRequest F) (now : ℕ) → Keeps IsCovered (post_once py q now)
  unfolding post_once
  post_once-IsCovered q now db c =
      elim (Bool-cases (any_row (is_fill_of q.portfolio_id q.reference_id) db.ledger)) [
        | inl posted ↦ rw posted c
        | inr fresh ↦
            rw fresh (
              transaction_store IsCovered (fill_once py q now) db c
                (fill_once-IsCovered q now db c))
      ]

  -- `apply_fill` keeps the cover.
  pub apply_fill-IsCovered :
      (q : FillRequest F) (at : Moment) → Keeps IsCovered (apply_fill py q at)
  unfolding apply_fill
  apply_fill-IsCovered q at =
      Keeps-bind IsCovered
        (raise_if (py.le q.price (zero_float py) || py.lt q.fees (zero_float py)) bad_fill)
        (λ _. post_once py q at.now >> get_portfolio py q.portfolio_id at) (λ db c. c)
        (λ _.
          Keeps-bind IsCovered (post_once py q at.now) (λ _. get_portfolio py q.portfolio_id at)
            (post_once-IsCovered q at.now) (λ _. get_portfolio-Keeps IsCovered q.portfolio_id at))

  pub release-IsCovered :
      (id : String) (at : Moment) → Keeps IsCovered (release_reservation py id at)
  unfolding release_reservation set_status
  release-IsCovered id at db c =
      let after = close-IsCovered (is_releasable id) released at.now db refl c in
      elim (Option-cases (first_row (is_releasable id) db.reservations)) [
        | inl missing ↦ rw missing after
        | inr (r, found) ↦ rw found (get_portfolio-Keeps IsCovered r.portfolio_id at _ after)
      ]

  post_control-IsCovered :
      (p : String) (enabled : Bool) (reason changed_by control_id : String) (now : ℕ)
      (db : PortfolioDb F)
      → IsCovered db
      → IsCovered (post_control py p enabled reason changed_by control_id now db)
  unfolding post_control
  post_control-IsCovered p true reason changed_by control_id now db c = record {
    positive = c.positive;
    covered = c.covered;
  }
  post_control-IsCovered p false reason changed_by control_id now db c =
      let kept = close-IsCovered (active_in p) released now db refl c in
      record { positive = kept.positive; covered = kept.covered }

  pub set_trading_enabled-IsCovered :
      (p : String) (enabled : Bool) (reason changed_by control_id : String) (at : Moment)
      → Keeps IsCovered (set_trading_enabled py p enabled reason changed_by control_id at)
  unfolding set_trading_enabled
  set_trading_enabled-IsCovered p enabled reason changed_by control_id at db c =
      elim (Bool-cases (str_eq (py.strip reason) "")) [
        | inl empty ↦ rw empty c
        | inr given ↦ elim (Bool-cases (any_row (has_portfolio_id p) db.portfolios)) [
          | inl there ↦
              rw (given, there)
                (get_portfolio-Keeps IsCovered p at _
                  (post_control-IsCovered p enabled reason changed_by control_id at.now db c))
          | inr missing ↦ rw (given, missing) c
        ]
      ]

  pub insert_portfolio-IsCovered :
      (row : PortfolioRow F) (entry : LedgerRow F) (control : ControlRow) (db : PortfolioDb F)
      → IsCovered db
      → Returned (λ _ t. IsCovered t) (insert_portfolio row entry control db)
  unfolding insert_portfolio
  insert_portfolio-IsCovered row entry control db c = elim (Bool-cases (has_row row db)) [
    | inl there ↦ rw there tt
    | inr fresh ↦ rw fresh (record { positive = c.positive; covered = c.covered })
  ]
