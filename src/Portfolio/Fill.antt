-- ===== src/Portfolio/Fill.antt =====
-- `PortfolioService.apply_fill`, `release_reservation` and `set_trading_enabled`
-- (iimc_trading_platform/services/portfolio_service.py). Random identifiers are arguments.
use coversational_algo_tradi.Python.{Builtins, zero_float}
use coversational_algo_tradi.Portfolio.Rows.{
  ControlRow, LedgerRow, PortfolioDb, PortfolioMethod, PortfolioRow, PositionRow, ReservationRow,
  ReservationStatus, Side, active_reservation_not_found, arithmetic_error, bad_fill, buy, consumed,
  control_change, fill, insufficient_cash, is_active, is_fill, of_reservation, portfolio_not_found,
  reason_required, released, reservation_not_active, reservation_not_found, sell,
  sell_exceeds_position, trading_control, type_error,
}
use coversational_algo_tradi.Portfolio.Reads.{
  active_in, at_position, find_portfolio, find_position, has_portfolio_id, has_scope, quantity_of,
}
use coversational_algo_tradi.Portfolio.Snapshot.{Moment, Snapshot, get_portfolio}
use coversational_algo_tradi.Portfolio.Reserve.{with_status}
use coversational_algo_tradi.Prelude.{
  Bool, List, Option, String, any_row, first_row, gets, if◌then◌else◌, leb, leb_ℤ, ltb_ℤ, modify,
  negsuc, none, not, ok, or_raise, pos, pure, raise_if, some, str_eq, transaction, update_rows, ℕ,
  ℤ, ◌&&◌, ◌+ℤ◌, ◌-ℤ◌, ◌>>=◌, ◌>>◌, ◌||◌, ◌∷◌,
}

-- The keyword arguments of `apply_fill`.
pub record FillRequest (F : Type 0) : Type 0 where
  pub portfolio_id : String
  pub reservation_id : String
  pub reference_id : String
  pub price : F
  pub fees : F

-- What a fill does to the position and the cash.
pub record FillEffect (F : Type 0) : Type 0 where
  pub new_quantity : ℤ
  pub new_average : F
  pub cash_delta : F
  pub realized_pnl : F

-- `INSERT INTO risk_control_state … ON CONFLICT (scope, scope_id) DO UPDATE`
unfoldable pub upsert_control : ControlRow → List ControlRow → List ControlRow
upsert_control new rows =
    if any_row (has_scope new.scope_id) rows
    then update_rows (has_scope new.scope_id) (λ _. new) rows
    else new ∷ rows

module _ {F : Type 0} where
  -- `WHERE portfolio_id = ? AND event_type = 'fill' AND reference_id = ?`
  abbrev pub is_fill_of : String → String → LedgerRow F → Bool
  is_fill_of p reference r =
      str_eq r.portfolio_id p && (is_fill r.event_type && str_eq r.reference_id reference)

  abbrev pub has_reservation_id : String → ReservationRow F → Bool
  has_reservation_id id r = str_eq r.reservation_id id

  -- `WHERE reservation_id = ? AND portfolio_id = ?`
  abbrev pub is_reservation_of : String → String → ReservationRow F → Bool
  is_reservation_of id p r = str_eq r.reservation_id id && str_eq r.portfolio_id p

  -- `INSERT INTO portfolio_positions … ON CONFLICT (portfolio_id, symbol) DO UPDATE`
  unfoldable pub upsert_position : PositionRow F → List (PositionRow F) → List (PositionRow F)
  upsert_position new rows =
      if any_row (at_position new.portfolio_id new.symbol) rows
      then update_rows (at_position new.portfolio_id new.symbol) (λ _. new) rows
      else new ∷ rows

  -- `UPDATE risk_reservations SET status = ? … WHERE …`
  unfoldable pub set_status :
      (ReservationRow F → Bool) → ReservationStatus → ℕ → PortfolioDb F → PortfolioDb F
  set_status test status now db = record db {
    reservations = update_rows test (with_status status now) db.reservations;
  }

  -- `WHERE reservation_id = ? AND status = 'active'`
  abbrev pub is_releasable : String → ReservationRow F → Bool
  is_releasable id r = str_eq r.reservation_id id && is_active r.status

  abbrev pub average_of : Option (PositionRow F) → F → F
  average_of none zero_price = zero_price
  average_of (some r) zero_price = r.average_price

  abbrev pub realized_of : Option (PositionRow F) → F → F
  realized_of none zero_price = zero_price
  realized_of (some r) zero_price = r.realized_pnl

module _ {F : Type 0} (py : Builtins F) where
  abbrev pub buy_average : ℤ → F → ℤ → F → Option F
  buy_average held average quantity price =
      py.div (py.add (py.mul (py.of_int held) average) (py.mul (py.of_int quantity) price))
        (py.of_int (held +ℤ quantity))

  abbrev pub bought : ℤ → F → F → F → FillEffect F
  bought new_quantity cash_delta fees new_average = record {
    new_quantity = new_quantity;
    new_average = new_average;
    cash_delta = cash_delta;
    realized_pnl = py.neg fees;
  }

  abbrev pub purchase_delta : F → ℤ → F → F
  purchase_delta price quantity fees = py.neg (py.add (py.mul price (py.of_int quantity)) fees)

  -- `cash_balance + cash_delta < -1e-9`
  abbrev pub is_overdrawn : PortfolioRow F → F → Bool
  is_overdrawn row delta = py.lt (py.add row.cash_balance delta) (py.literal (negsuc 0) 9)

  -- The branch of a purchase; `portfolio` is the portfolio's row, if there is one.
  unfoldable pub buy_effect :
      Option (PortfolioRow F) → ℤ → F → ℤ → F → F → PortfolioMethod F (FillEffect F)
  buy_effect portfolio held average quantity price fees = do
    row ← or_raise portfolio type_error
    let cash_delta = purchase_delta price quantity fees
    raise_if (is_overdrawn row cash_delta) insufficient_cash
    new_average ← or_raise (buy_average held average quantity price) arithmetic_error
    pure (bought (held +ℤ quantity) cash_delta fees new_average)

  abbrev pub is_none_left : ℤ → Bool
  is_none_left q = leb_ℤ q (pos 0) && leb_ℤ (pos 0) q

  -- The branch of a sale.
  unfoldable pub sell_effect : ℤ → F → ℤ → F → F → PortfolioMethod F (FillEffect F)
  sell_effect held average quantity price fees = do
    raise_if (ltb_ℤ held quantity) sell_exceeds_position
    pure (record {
      new_quantity = held -ℤ quantity;
      new_average = if is_none_left (held -ℤ quantity) then zero_float py else average;
      cash_delta = py.sub (py.mul price (py.of_int quantity)) fees;
      realized_pnl = py.sub (py.mul (py.sub price average) (py.of_int quantity)) fees;
    })

  unfoldable pub effect_of :
      Side → Option (PortfolioRow F) → ℤ → F → ℤ → F → F → PortfolioMethod F (FillEffect F)
  unfolding buy_effect sell_effect
  effect_of buy portfolio held average quantity price fees =
      buy_effect portfolio held average quantity price fees
  effect_of sell portfolio held average quantity price fees =
      sell_effect held average quantity price fees

  abbrev pub add_cash : F → ℕ → PortfolioRow F → PortfolioRow F
  add_cash delta now row = record row {
    cash_balance = py.add row.cash_balance delta;
    updated_at = now;
  }

  unfoldable pub fill_entry : FillRequest F → ReservationRow F → FillEffect F → ℕ → LedgerRow F
  fill_entry q r e now = record {
    portfolio_id = q.portfolio_id;
    event_type = fill;
    reference_id = q.reference_id;
    symbol = some r.symbol;
    side = some r.side;
    quantity = some r.quantity;
    price = some q.price;
    fees = q.fees;
    cash_delta = e.cash_delta;
    realized_pnl = e.realized_pnl;
    payload = of_reservation q.reservation_id;
    created_at = now;
  }

  unfoldable pub position_after :
      FillRequest F → ReservationRow F → Option (PositionRow F) → FillEffect F → ℕ → PositionRow F
  position_after q r position e now = record {
    portfolio_id = q.portfolio_id;
    symbol = r.symbol;
    quantity = e.new_quantity;
    average_price = e.new_average;
    last_price = q.price;
    realized_pnl = py.add (realized_of position (zero_float py)) e.realized_pnl;
    updated_at = now;
  }

  -- The four writes of a fill.
  unfoldable pub post_fill :
      FillRequest F
      → ReservationRow F
      → Option (PositionRow F)
      → FillEffect F
      → ℕ
      → PortfolioDb F
      → PortfolioDb F
  unfolding set_status
  post_fill q r position e now db =
      set_status (has_reservation_id q.reservation_id) consumed now (record db {
        positions = upsert_position (position_after q r position e now) db.positions;
        portfolios =
            update_rows (has_portfolio_id q.portfolio_id) (add_cash e.cash_delta now) db.portfolios;
        ledger = fill_entry q r e now ∷ db.ledger;
      })

  unfoldable pub fill_reservation :
      FillRequest F → ReservationRow F → ℕ → PortfolioMethod F (Unit {0})
  fill_reservation q r now = do
    raise_if (not (is_active r.status) || leb r.expires_at now) reservation_not_active
    portfolio ← gets (find_portfolio q.portfolio_id)
    position ← gets (find_position q.portfolio_id r.symbol)
    e ←
        effect_of r.side portfolio (quantity_of position) (average_of position (zero_float py))
          r.quantity q.price q.fees
    modify (post_fill q r position e now)

  -- The transaction, where no fill with the reference has been posted.
  unfoldable pub fill_once : FillRequest F → ℕ → PortfolioMethod F (Unit {0})
  fill_once q now = do
    found ←
        gets (λ db. first_row (is_reservation_of q.reservation_id q.portfolio_id) db.reservations)
    r ← or_raise found reservation_not_found
    fill_reservation q r now

  -- The transaction of `apply_fill`; a fill that has been posted is rolled back at once.
  unfoldable pub post_once : FillRequest F → ℕ → PortfolioMethod F (Unit {0})
  post_once q now db =
      if any_row (is_fill_of q.portfolio_id q.reference_id) db.ledger
      then (ok tt, db)
      else transaction (fill_once q now) db

  unfoldable pub apply_fill : FillRequest F → Moment → PortfolioMethod F (Snapshot F)
  unfolding post_once
  apply_fill q at = do
    raise_if (py.le q.price (zero_float py) || py.lt q.fees (zero_float py)) bad_fill
    post_once q at.now
    get_portfolio py q.portfolio_id at

  unfoldable pub release_reservation : String → Moment → PortfolioMethod F (Snapshot F)
  release_reservation id at = do
    found ← gets (λ db. first_row (is_releasable id) db.reservations)
    modify (set_status (is_releasable id) released at.now)
    r ← or_raise found active_reservation_not_found
    get_portfolio py r.portfolio_id at

  abbrev pub control_row : String → Bool → String → String → ℕ → ControlRow
  control_row p enabled reason changed_by now = record {
    scope_id = p;
    trading_enabled = enabled;
    reason = some (py.strip reason);
    changed_by = changed_by;
    updated_at = now;
  }

  unfoldable pub control_entry : String → Bool → String → String → String → ℕ → LedgerRow F
  control_entry p enabled reason changed_by control_id now = record {
    portfolio_id = p;
    event_type = trading_control;
    reference_id = control_id;
    symbol = none;
    side = none;
    quantity = none;
    price = none;
    fees = zero_float py;
    cash_delta = zero_float py;
    realized_pnl = zero_float py;
    payload = control_change enabled (py.strip reason) changed_by;
    created_at = now;
  }

  -- The writes of `set_trading_enabled`.
  unfoldable pub post_control :
      String → Bool → String → String → String → ℕ → PortfolioDb F → PortfolioDb F
  unfolding control_entry set_status
  post_control p enabled reason changed_by control_id now db =
      let written : PortfolioDb F = record db {
        controls = upsert_control (control_row p enabled reason changed_by now) db.controls;
        ledger = control_entry p enabled reason changed_by control_id now ∷ db.ledger;
      } in
      if enabled then written else set_status (active_in p) released now written

  unfoldable pub set_trading_enabled :
      String → Bool → String → String → String → Moment → PortfolioMethod F (Snapshot F)
  set_trading_enabled p enabled reason changed_by control_id at = do
    raise_if (str_eq (py.strip reason) "") reason_required
    exists ← gets (λ db. any_row (has_portfolio_id p) db.portfolios)
    raise_if (not exists) portfolio_not_found
    modify (post_control p enabled reason changed_by control_id at.now)
    get_portfolio py p at
