-- ===== src/Portfolio/Sales.antt =====
-- About `PortfolioService.apply_fill` on a reservation for sale.
use coversational_algo_tradi.Python.{Builtins, zero_float}
use coversational_algo_tradi.Portfolio.Rows.{
  PortfolioDb, PortfolioRiskPolicy, PortfolioRow, PositionRow, ReservationRow, consumed, is_active,
  sell,
}
use coversational_algo_tradi.Portfolio.Reads.{
  find_portfolio, find_position, has_portfolio_id, quantity_of,
}
use coversational_algo_tradi.Portfolio.Snapshot.{Moment, Snapshot, get_portfolio, snapshot_of}
use coversational_algo_tradi.Portfolio.Reserve.{with_status}
use coversational_algo_tradi.Portfolio.Fill.{
  FillEffect, FillRequest, add_cash, apply_fill, average_of, effect_of, fill_once, fill_reservation,
  has_reservation_id, is_fill_of, is_none_left, is_reservation_of, position_after, post_fill,
  post_once, sell_effect, set_status,
}
use coversational_algo_tradi.Portfolio.OpenSells.{
  close-IsPositive, open_sells, open_sells-consume, open_sells-nonneg,
}
use coversational_algo_tradi.Portfolio.Coverage.{IsCovered, find-upsert, held}
use coversational_algo_tradi.Portfolio.Runs.{
  PortfolioCall, after_calls, after_calls-IsCovered, empty-IsCovered, empty_db,
}
use coversational_algo_tradi.Prelude.{
  +ℤ_parts, List, Option, any_row, arith, eq_refl, false, first_row, first_row-update_rows,
  if◌then◌else◌, leb, ltb_ℤ, ok, refl, some, true, update_rows, ℤ, ◌-ℤ◌, ◌||◌, ◌≡◌,
}

module _ {F : Type 0} (py : Builtins F) (q : FillRequest F) (r : ReservationRow F)
    (at : Moment) where
  abbrev sold : ℤ → F → FillEffect F
  sold held average = record {
    new_quantity = held -ℤ r.quantity;
    new_average = if is_none_left py (held -ℤ r.quantity) then zero_float py else average;
    cash_delta = py.sub (py.mul q.price (py.of_int r.quantity)) q.fees;
    realized_pnl = py.sub (py.mul (py.sub q.price average) (py.of_int r.quantity)) q.fees;
  }

  abbrev position_before : PortfolioDb F → Option (PositionRow F)
  position_before db = find_position q.portfolio_id r.symbol db

  abbrev sale_effect : PortfolioDb F → FillEffect F
  sale_effect db =
      sold (quantity_of (position_before db)) (average_of (position_before db) (zero_float py))

  abbrev after_sale : PortfolioDb F → PortfolioDb F
  after_sale db = post_fill py q r (position_before db) (sale_effect db) at.now db

  -- The reservation of the request: for sale, active and not expired, and not yet filled.
  abbrev pub CanBeFilled : PortfolioDb F → Type 0
  CanBeFilled db =
      (first_row (is_reservation_of q.reservation_id q.portfolio_id) db.reservations ≡ some r)
      × (r.side ≡ sell)
      × (is_active r.status ≡ true)
      × (leb r.expires_at at.now ≡ false)
      × (any_row (is_fill_of q.portfolio_id q.reference_id) db.ledger ≡ false)

  reserved_is_held :
      (db : PortfolioDb F)
      → IsCovered db
      → CanBeFilled db
      → ltb_ℤ (quantity_of (position_before db)) r.quantity ≡ false
  reserved_is_held db c (found, sale, live, valid, fresh) =
      let consumed_rows =
        update_rows (has_reservation_id q.reservation_id) (with_status consumed at.now)
          db.reservations in
      let taken =
        open_sells-consume consumed at.now q.reservation_id q.portfolio_id db.reservations refl
          c.positive found live sale in
      let left = open_sells-nonneg q.portfolio_id r.symbol consumed_rows (
        close-IsPositive (has_reservation_id q.reservation_id) consumed at.now db.reservations
          c.positive) in
      let held = c.covered q.portfolio_id r.symbol in
      let sum = +ℤ_parts (open_sells q.portfolio_id r.symbol consumed_rows) r.quantity in
      ground (arith, taken, left, held, sum)

  sale_is_posted :
      (db : PortfolioDb F)
      → IsCovered db
      → CanBeFilled db
      → post_once py q at.now db ≡ (ok tt, after_sale db)
  unfolding post_once fill_once fill_reservation effect_of sell_effect
  sale_is_posted db c (found, sale, live, valid, fresh) =
      rw (fresh, found, live, valid, sale, reserved_is_held db c (found, sale, live, valid, fresh))
        refl

  portfolio_is_read :
      (db : PortfolioDb F) {row : PortfolioRow F}
      → find_portfolio q.portfolio_id db ≡ some row
      → find_portfolio q.portfolio_id (after_sale db)
        ≡ some (add_cash py (sale_effect db).cash_delta at.now row)
  unfolding post_fill set_status
  portfolio_is_read db found =
      first_row-update_rows (has_portfolio_id q.portfolio_id)
        (add_cash py (sale_effect db).cash_delta at.now) db.portfolios (λ y. refl) found

  position_is_lower :
      (db : PortfolioDb F)
      → quantity_of (find_position q.portfolio_id r.symbol (after_sale db))
        ≡ quantity_of (position_before db) -ℤ r.quantity
  unfolding post_fill set_status position_after
  position_is_lower db = rw (find-upsert, eq_refl, eq_refl) refl

  -- After any calls, raised or not, from empty tables: a fill, at a positive price and with fees
  -- that are not negative, of an active reservation for sale that has not expired, in a portfolio,
  -- whose reference is new, returns, and lowers the position by the quantity that was reserved.
  pub reserved_sale_fills :
      (policy : PortfolioRiskPolicy F) (cs : List (PortfolioCall F)) {row : PortfolioRow F}
      → let db = after_calls py policy cs empty_db in
        CanBeFilled db
        → find_portfolio q.portfolio_id db ≡ some row
        → (py.le q.price (zero_float py) || py.lt q.fees (zero_float py)) ≡ false
        → (view : Snapshot F) × (t : PortfolioDb F) × (apply_fill py q at db ≡ (ok view, t))
          × (quantity_of (find_position q.portfolio_id r.symbol t)
              ≡ quantity_of (find_position q.portfolio_id r.symbol db) -ℤ r.quantity)
  unfolding apply_fill get_portfolio
  reserved_sale_fills policy cs {row} can read good =
      let db = after_calls py policy cs empty_db in
      let c = after_calls-IsCovered py policy cs empty_db empty-IsCovered in
      (
        snapshot_of py q.portfolio_id at (after_sale db)
            (add_cash py (sale_effect db).cash_delta at.now row),
        after_sale db,
        rw (good, sale_is_posted db c can, portfolio_is_read db read) refl,
        position_is_lower db,
      )
