-- ===== src/Portfolio/Reserve.antt =====
-- `PortfolioService.create` and `evaluate_and_reserve`
-- (iimc_trading_platform/services/portfolio_service.py). Random identifiers are arguments.
use coversational_algo_tradi.Python.{Builtins, zero_float}
use coversational_algo_tradi.Portfolio.Rows.{
  ControlRow, DecisionRow, LedgerRow, PortfolioDb, PortfolioMethod, PortfolioRiskPolicy,
  PortfolioRow, ReservationRow, ReservationStatus, Side, active, arithmetic_error, bad_amount,
  bad_side, buy, cash_not_positive, constraint_violation, expired, is_active, name_required,
  opening_balance, opening_currency, portfolio_not_found, sell,
}
use coversational_algo_tradi.Portfolio.Reads.{
  active_reservations, daily_loss, find_control, find_portfolio, find_position, gross_exposure,
  has_portfolio_id, has_scope,
}
use coversational_algo_tradi.Portfolio.Assess.{Assessment, Order, Reading, assess}
use coversational_algo_tradi.Portfolio.Snapshot.{Moment, Snapshot, get_portfolio}
use coversational_algo_tradi.Prelude.{
  Bool, Option, String, any_row, gets, if◌then◌else◌, leb, leb_ℤ, ltb_ℤ, modify, none, or_raise,
  pos, pure, raise, raise_if, some, str_eq, transaction, true, update_rows, ℕ, ℤ, ◌&&◌, ◌*◌, ◌+◌,
  ◌>>=◌, ◌>>◌, ◌||◌, ◌∷◌,
}

-- The identifiers that `evaluate_and_reserve` draws.
pub record DrawnIds : Type 0 where
  pub decision_id : String
  pub reservation_id : String

-- The dictionary that `evaluate_and_reserve` returns.
pub record Evaluation (F : Type 0) : Type 0 where
  pub decision : DecisionRow F
  pub reservation : Option (ReservationRow F)

module _ {F : Type 0} where
  -- A change of the status of a reservation.
  abbrev pub with_status : ReservationStatus → ℕ → ReservationRow F → ReservationRow F
  with_status status now r = record r { status = status; updated_at = now }

  abbrev pub is_overdue : ℕ → ReservationRow F → Bool
  is_overdue now r = is_active r.status && leb r.expires_at now

  -- `UPDATE risk_reservations SET status = 'expired' … WHERE status = 'active' AND expires_at <= ?`,
  -- over every portfolio.
  unfoldable pub expire_overdue : ℕ → PortfolioDb F → PortfolioDb F
  expire_overdue now db = record db {
    reservations = update_rows (is_overdue now) (with_status expired now) db.reservations;
  }

  abbrev pub has_decision_id : String → DecisionRow F → Bool
  has_decision_id id r = str_eq r.decision_id id

  abbrev pub clashes : ReservationRow F → ReservationRow F → Bool
  clashes new r = str_eq r.reservation_id new.reservation_id || str_eq r.decision_id new.decision_id

  unfoldable pub insert_decision : DecisionRow F → PortfolioMethod F (Unit {0})
  insert_decision d db =
      if any_row (has_decision_id d.decision_id) db.decisions
      then raise constraint_violation db
      else modify (λ t. record t { decisions = d ∷ t.decisions }) db

  unfoldable pub insert_reservation : ReservationRow F → PortfolioMethod F (Unit {0})
  insert_reservation r db =
      if any_row (clashes r) db.reservations
      then raise constraint_violation db
      else modify (λ t. record t { reservations = r ∷ t.reservations }) db

  abbrev has_name : String → PortfolioRow F → Bool
  has_name name r = str_eq r.name name

  abbrev pub has_row : PortfolioRow F → PortfolioDb F → Bool
  has_row row db =
      any_row (has_portfolio_id row.portfolio_id) db.portfolios
      || (any_row (has_name row.name) db.portfolios
          || any_row (has_scope row.portfolio_id) db.controls)

  -- The three `INSERT`s of `create`.
  unfoldable pub insert_portfolio :
      PortfolioRow F → LedgerRow F → ControlRow → PortfolioMethod F (Unit {0})
  insert_portfolio row entry control db =
      if has_row row db
      then raise constraint_violation db
      else modify
          (λ t. record t {
            portfolios = row ∷ t.portfolios;
            ledger = entry ∷ t.ledger;
            controls = control ∷ t.controls;
          })
          db

  unfoldable pub decision_of : String → String → String → Order F → ℕ → Assessment F → DecisionRow F
  decision_of id version p o now a = record {
    decision_id = id;
    portfolio_id = p;
    symbol = o.symbol;
    side = o.side;
    requested_quantity = o.quantity;
    approved_quantity = a.approved_quantity;
    price = o.price;
    approved = ltb_ℤ (pos 0) a.approved_quantity;
    reason = a.reason;
    checks = a.checks;
    policy_version = version;
    created_at = now;
  }

module _ {F : Type 0} (py : Builtins F) (policy : PortfolioRiskPolicy F) where
  -- The transaction of `create`.
  unfoldable pub open_portfolio :
      String → F → String → String → String → ℕ → PortfolioMethod F (Unit {0})
  open_portfolio name starting_cash created_by base_currency p now =
      insert_portfolio
        (record {
          portfolio_id = p;
          name = py.strip name;
          base_currency = py.upper base_currency;
          starting_cash = starting_cash;
          cash_balance = starting_cash;
          status = "active";
          created_by = created_by;
          created_at = now;
          updated_at = now;
        })
        (record {
          portfolio_id = p;
          event_type = opening_balance;
          reference_id = p;
          symbol = none;
          side = none;
          quantity = none;
          price = none;
          fees = zero_float py;
          cash_delta = starting_cash;
          realized_pnl = zero_float py;
          payload = opening_currency (py.upper base_currency);
          created_at = now;
        })
        (record {
          scope_id = p;
          trading_enabled = true;
          reason = none;
          changed_by = created_by;
          updated_at = now;
        })

  unfoldable pub create :
      String → F → String → String → String → Moment → PortfolioMethod F (Snapshot F)
  create name starting_cash created_by base_currency p at = do
    raise_if (str_eq (py.strip name) "") name_required
    raise_if (py.le starting_cash (zero_float py)) cash_not_positive
    transaction (open_portfolio name starting_cash created_by base_currency p at.now)
    get_portfolio py p at

  -- The test of `side.upper()` against "BUY" and "SELL".
  unfoldable pub parse_side : String → Option Side
  parse_side text =
      if str_eq (py.upper text) "BUY"
      then some buy
      else (if str_eq (py.upper text) "SELL" then some sell else none)

  -- What the transaction reads, in the tables as they are after the expiry.
  unfoldable pub reading_of : String → String → Moment → PortfolioRow F → PortfolioDb F → Reading F
  reading_of p symbol at row db = record {
    cash = row.cash_balance;
    status = row.status;
    control = find_control p db;
    position = find_position p symbol db;
    reservations = active_reservations p db;
    gross = gross_exposure py p db;
    loss = daily_loss py at.is_today p db;
  }

  unfoldable pub reservation_of : DrawnIds → String → Order F → ℕ → ℤ → ReservationRow F
  reservation_of ids p o now q = record {
    reservation_id = ids.reservation_id;
    decision_id = ids.decision_id;
    portfolio_id = p;
    symbol = o.symbol;
    side = o.side;
    quantity = q;
    notional = py.mul (py.of_int q) o.price;
    status = active;
    expires_at = now + policy.reservation_ttl_seconds * 1000000;
    created_at = now;
    updated_at = now;
  }

  -- The end of the transaction: the decision is recorded, and exposure reserved if it is approved.
  unfoldable pub record_assessment :
      DrawnIds → String → Order F → ℕ → Assessment F → PortfolioMethod F (Evaluation F)
  unfolding insert_decision insert_reservation
  record_assessment ids p o now a = do
    let decision = decision_of ids.decision_id policy.version p o now a
    let reservation = reservation_of ids p o now a.approved_quantity
    insert_decision decision
    if ltb_ℤ (pos 0) a.approved_quantity
        then insert_reservation reservation
          >> pure (record { decision = decision; reservation = some reservation })
        else pure (record { decision = decision; reservation = none })

  unfoldable pub evaluate_in_transaction :
      DrawnIds → String → Order F → Moment → PortfolioMethod F (Evaluation F)
  unfolding expire_overdue record_assessment
  evaluate_in_transaction ids p o at = do
    modify (expire_overdue at.now)
    found ← gets (find_portfolio p)
    row ← or_raise found portfolio_not_found
    reading ← gets (reading_of p o.symbol at row)
    a ← or_raise (assess py policy reading o) arithmetic_error
    record_assessment ids p o at.now a

  abbrev pub order_of : String → Side → ℤ → F → Order F
  order_of symbol side quantity price = record {
    symbol = py.upper symbol;
    side = side;
    quantity = quantity;
    price = price;
  }

  unfoldable pub evaluate_and_reserve :
      DrawnIds → String → String → String → ℤ → F → Moment → PortfolioMethod F (Evaluation F)
  unfolding parse_side evaluate_in_transaction
  evaluate_and_reserve ids p symbol side_text quantity price at = do
    side ← or_raise (parse_side side_text) bad_side
    raise_if (leb_ℤ quantity (pos 0) || py.le price (zero_float py)) bad_amount
    transaction (evaluate_in_transaction ids p (order_of symbol side quantity price) at)
