-- ===== src/Portfolio/Reads.antt =====
-- What the portfolio service reads from its tables, as the queries of
-- iimc_trading_platform/services/portfolio_service.py read it.
use coversational_algo_tradi.Python.{Builtins, sum_floats, zero_float}
use coversational_algo_tradi.Portfolio.Rows.{
  ControlRow, LedgerRow, PortfolioDb, PortfolioRow, PositionRow, ReservationRow, buy, is_active,
  sell, side_eq,
}
use coversational_algo_tradi.Prelude.{
  Bool, List, Option, String, [], first_row, if◌then◌else◌, map, min_ℤ, none, pos, some, str_eq,
  true, where_rows, ℕ, ℤ, ◌&&◌, ◌+ℤ◌, ◌∷◌,
}

abbrev pub has_scope : String → ControlRow → Bool
has_scope p r = str_eq r.scope_id p

-- `control[0] if control else True`
abbrev pub enabled_by : Option ControlRow → Bool
enabled_by none = true
enabled_by (some c) = c.trading_enabled

abbrev pub reason_by : Option ControlRow → Option String
reason_by none = none
reason_by (some c) = c.reason

-- The minimum of two numbers that Python may fail to compute.
abbrev pub min_computed : Option ℤ → Option ℤ → Option ℤ
min_computed none b = none
min_computed (some a) none = none
min_computed (some a) (some b) = some (min_ℤ a b)

module _ {F : Type 0} where
  abbrev pub in_portfolio : String → PositionRow F → Bool
  in_portfolio p r = str_eq r.portfolio_id p

  -- The primary key of `portfolio_positions`.
  abbrev pub at_position : String → String → PositionRow F → Bool
  at_position p symbol r = str_eq r.portfolio_id p && str_eq r.symbol symbol

  abbrev pub find_position : String → String → PortfolioDb F → Option (PositionRow F)
  find_position p symbol db = first_row (at_position p symbol) db.positions

  abbrev pub has_portfolio_id : String → PortfolioRow F → Bool
  has_portfolio_id p r = str_eq r.portfolio_id p

  abbrev pub find_portfolio : String → PortfolioDb F → Option (PortfolioRow F)
  find_portfolio p db = first_row (has_portfolio_id p) db.portfolios

  abbrev pub find_control : String → PortfolioDb F → Option ControlRow
  find_control p db = first_row (has_scope p) db.controls

  -- `WHERE portfolio_id = ? AND status = 'active'`
  abbrev pub active_in : String → ReservationRow F → Bool
  active_in p r = str_eq r.portfolio_id p && is_active r.status

  abbrev pub active_reservations : String → PortfolioDb F → List (ReservationRow F)
  active_reservations p db = where_rows (active_in p) db.reservations

  -- `position_map.get(symbol, {}).get("quantity", 0)`
  abbrev pub quantity_of : Option (PositionRow F) → ℤ
  quantity_of none = pos 0
  quantity_of (some r) = r.quantity

  -- `position_map.get(symbol, {}).get("last_price", price)`
  abbrev pub last_price_of : F → Option (PositionRow F) → F
  last_price_of price none = price
  last_price_of price (some r) = r.last_price

  abbrev pub sells : String → ReservationRow F → Bool
  sells symbol r = str_eq r.symbol symbol && side_eq r.side sell

  abbrev pub buys : ReservationRow F → Bool
  buys r = side_eq r.side buy

  abbrev pub buys_symbol : String → ReservationRow F → Bool
  buys_symbol symbol r = str_eq r.symbol symbol && side_eq r.side buy

  unfoldable pub sum_quantities : List (ReservationRow F) → ℤ
  sum_quantities [] = pos 0
  sum_quantities (r ∷ rs) = r.quantity +ℤ sum_quantities rs

  unfoldable pub reserved_sell_quantity : String → List (ReservationRow F) → ℤ
  reserved_sell_quantity symbol rs = sum_quantities (where_rows (sells symbol) rs)

module _ {F : Type 0} (py : Builtins F) where
  unfoldable pub notionals : (ReservationRow F → Bool) → List (ReservationRow F) → F
  notionals test rs = py.sum (map (λ r. r.notional) (where_rows test rs))

  abbrev pub position_value : PositionRow F → F
  position_value r = py.abs (py.mul (py.of_int r.quantity) r.last_price)

  unfoldable pub gross_exposure : String → PortfolioDb F → F
  gross_exposure p db = py.sum (map position_value (where_rows (in_portfolio p) db.positions))

  abbrev pub realized_loss : LedgerRow F → F
  realized_loss r =
      if py.lt r.realized_pnl (zero_float py) then py.neg r.realized_pnl else zero_float py

  -- `is_today` says of a time whether the database puts it on the current date.
  unfoldable pub daily_loss : (ℕ → Bool) → String → PortfolioDb F → F
  daily_loss is_today p db = sum_floats py (
      map realized_loss
        (where_rows (λ r. str_eq r.portfolio_id p && is_today r.created_at) db.ledger))

  -- `math.floor(amount / price)`
  unfoldable pub floor_of_ratio : F → F → Option ℤ
  floor_of_ratio amount price = elim (py.div amount price) [ none ↦ none | some q ↦ py.floor q ]
