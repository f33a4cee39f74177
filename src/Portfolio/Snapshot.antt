-- ===== src/Portfolio/Snapshot.antt =====
-- `PortfolioService.get` and `mark_to_market`
-- (iimc_trading_platform/services/portfolio_service.py): the views of one portfolio.
use Prim.Native.String.{compare as str_compare}
use text.Mathlib.Text.{is_le}
use mathlib.Core.Option
use coversational_algo_tradi.Python.{Builtins, zero_float}
use coversational_algo_tradi.Portfolio.Rows.{
  PortfolioDb, PortfolioMethod, PortfolioRow, PositionRow, ReservationRow, portfolio_not_found,
}
use coversational_algo_tradi.Portfolio.Reads.{
  active_in, daily_loss, enabled_by, find_control, find_portfolio, in_portfolio, notionals,
  reason_by,
}
use coversational_algo_tradi.Prelude.{
  Bool, List, Option, Result, String, [], err, gets, if◌then◌else◌, leb_ℤ, length, ltb, map, not,
  ok, or_raise, pos, pure, where_rows, ℕ, ℤ, ◌&&◌, ◌++◌, ◌>>=◌, ◌∷◌,
}

-- The readings of the clock by one call: `utc_now()` when it starts and when it reads the result
-- back, and which times the database puts on the current date.
pub record Moment : Type 0 where
  pub now : ℕ
  pub read_at : ℕ
  pub is_today : ℕ → Bool

-- An entry of `positions`.
pub record PositionView (F : Type 0) : Type 0 where
  pub symbol : String
  pub quantity : ℤ
  pub average_price : F
  pub last_price : F
  pub market_value : F
  pub unrealized_pnl : F
  pub realized_pnl : F
  pub updated_at : ℕ

pub record Snapshot (F : Type 0) : Type 0 where
  pub portfolio : PortfolioRow F
  pub positions : List (PositionView F)
  pub gross_exposure : F
  pub net_exposure : F
  pub equity : F
  pub daily_realized_loss : F
  pub active_reservations : ℕ
  pub reserved_notional : F
  pub trading_enabled : Bool
  pub control_reason : Option String
  pub control_changed_by : Option String
  pub control_updated_at : Option ℕ

module _ {F : Type 0} where
  -- `ORDER BY symbol`
  abbrev insert_by_symbol : PositionRow F → List (PositionRow F) → List (PositionRow F)
  insert_by_symbol r [] = r ∷ []
  insert_by_symbol r (x ∷ xs) =
      if is_le (str_compare r.symbol x.symbol) then r ∷ x ∷ xs else x ∷ insert_by_symbol r xs

  abbrev sort_by_symbol : List (PositionRow F) → List (PositionRow F)
  sort_by_symbol [] = []
  sort_by_symbol (r ∷ rs) = insert_by_symbol r (sort_by_symbol rs)

  abbrev is_zero_ℤ : PositionRow F → Bool
  is_zero_ℤ r = leb_ℤ r.quantity (pos 0) && leb_ℤ (pos 0) r.quantity

  -- `WHERE portfolio_id = ? AND quantity != 0 ORDER BY symbol`
  unfoldable pub open_positions : String → PortfolioDb F → List (PositionRow F)
  open_positions p db =
      sort_by_symbol (where_rows (λ r. in_portfolio p r && not (is_zero_ℤ r)) db.positions)

  -- `status = 'active' AND expires_at > ?`
  abbrev pub live_in : String → ℕ → ReservationRow F → Bool
  live_in p now r = active_in p r && ltb now r.expires_at

module _ {F : Type 0} (py : Builtins F) where
  unfoldable pub position_view : PositionRow F → PositionView F
  position_view r = record {
    symbol = r.symbol;
    quantity = r.quantity;
    average_price = r.average_price;
    last_price = r.last_price;
    market_value = py.mul (py.of_int r.quantity) r.last_price;
    unrealized_pnl = py.mul (py.of_int r.quantity) (py.sub r.last_price r.average_price);
    realized_pnl = r.realized_pnl;
    updated_at = r.updated_at;
  }

  unfoldable pub snapshot_of : String → Moment → PortfolioDb F → PortfolioRow F → Snapshot F
  snapshot_of p at db row =
      let views = map position_view (open_positions p db) in
      let net = py.sum (map (λ v. v.market_value) views) in
      let control = find_control p db in
      record {
        portfolio = row;
        positions = views;
        gross_exposure = py.sum (map (λ v. py.abs v.market_value) views);
        net_exposure = net;
        equity = py.add row.cash_balance net;
        daily_realized_loss = daily_loss py at.is_today p db;
        active_reservations = length (where_rows (live_in p at.read_at) db.reservations);
        reserved_notional = notionals py (live_in p at.read_at) db.reservations;
        trading_enabled = enabled_by control;
        control_reason = reason_by control;
        control_changed_by = Option.map (λ c. c.changed_by) control;
        control_updated_at = Option.map (λ c. c.updated_at) control;
      }

  -- `get`
  unfoldable pub get_portfolio : String → Moment → PortfolioMethod F (Snapshot F)
  get_portfolio p at = do
    found ← gets (find_portfolio p)
    row ← or_raise found portfolio_not_found
    gets (λ db. snapshot_of p at db row)

-- An entry of `positions_marked`, and one of `quote_errors`, whose reason is cut to 120 characters
-- by `cut`.
pub record MarkedPosition (F : Type 0) : Type 0 where
  pub symbol : String
  pub quantity : F
  pub average_price : F
  pub live_price : F
  pub unrealized_pnl : F

pub record QuoteError : Type 0 where
  pub symbol : String
  pub reason : String

pub record Marks (F : Type 0) : Type 0 where
  pub marked : List (MarkedPosition F)
  pub errors : List QuoteError
  pub total_unrealized : F
  pub market_value : F

pub record Marked (F : Type 0) : Type 0 where
  pub snapshot : Snapshot F
  pub marks : Marks F
  pub total_unrealized_pnl : F
  pub market_value : F
  pub total_equity : F

-- `quote symbol` is what the caller's `quote_fetcher` returns, or the text of its exception;
-- `round2` is `round(x, 2)` and `cut` is `text[:120]`.
module _ {F : Type 0} (py : Builtins F) (quote : String → Result String F) (round2 : F → F)
    (cut : String → String) where
  abbrev marked_from : PositionView F → Result String F → Marks F → Marks F
  marked_from v (err reason) m = record m {
    errors = m.errors ++ record { symbol = v.symbol; reason = cut reason } ∷ [];
  }
  marked_from v (ok live) m =
      let quantity = py.of_int v.quantity in
      let unrealized = py.mul (py.sub live v.average_price) quantity in
      record {
        marked =
            m.marked
            ++ record {
              symbol = v.symbol;
              quantity = quantity;
              average_price = v.average_price;
              live_price = live;
              unrealized_pnl = round2 unrealized;
            }
              ∷ [];
        errors = m.errors;
        total_unrealized = py.add m.total_unrealized unrealized;
        market_value = py.add m.market_value (py.mul live quantity);
      }

  -- The loop over the positions.
  unfoldable pub mark_positions : List (PositionView F) → Marks F → Marks F
  mark_positions [] m = m
  mark_positions (v ∷ vs) m = mark_positions vs (marked_from v (quote v.symbol) m)

  unfoldable pub marked_of : Snapshot F → Marked F
  unfolding mark_positions
  marked_of snapshot =
      let m = mark_positions snapshot.positions (record {
        marked = [];
        errors = [];
        total_unrealized = zero_float py;
        market_value = zero_float py;
      }) in
      record {
        snapshot = snapshot;
        marks = m;
        total_unrealized_pnl = round2 m.total_unrealized;
        market_value = round2 m.market_value;
        total_equity = round2 (py.add snapshot.portfolio.cash_balance m.market_value);
      }

  unfoldable pub mark_to_market : String → Moment → PortfolioMethod F (Marked F)
  unfolding marked_of
  mark_to_market p at = do snapshot ← get_portfolio py p at; pure (marked_of snapshot)
