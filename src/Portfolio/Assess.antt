-- ===== src/Portfolio/Assess.antt =====
-- The risk assessment inside `PortfolioService.evaluate_and_reserve`
-- (iimc_trading_platform/services/portfolio_service.py): the quantity that the limits leave, the
-- checks and the reason. Nothing here writes.
use coversational_algo_tradi.Python.{Builtins, max_float, zero_float}
use coversational_algo_tradi.Portfolio.Rows.{
  Checks, ControlRow, PortfolioRiskPolicy, PositionRow, ReservationRow, RiskReason, Side, buy,
  concentration_reason, daily_loss_reason, kill_switch_reason, not_active_reason,
  nothing_remains_reason, passed_reason, resized_reason, sell,
}
use coversational_algo_tradi.Portfolio.Reads.{
  buys, buys_symbol, enabled_by, floor_of_ratio, last_price_of, min_computed, notionals,
  quantity_of, reason_by, reserved_sell_quantity,
}
use coversational_algo_tradi.Prelude.{
  Bool, List, Option, String, if◌then◌else◌, leb_ℤ, ltb_ℤ, max_ℤ, min_ℤ, none, not, pos, some,
  str_eq, ℤ, ◌&&◌, ◌-ℤ◌, ◌||◌,
}

-- What `evaluate_and_reserve` has read from the tables.
pub record Reading (F : Type 0) : Type 0 where
  pub cash : F
  pub status : String
  pub control : Option ControlRow
  pub position : Option (PositionRow F)
  pub reservations : List (ReservationRow F)
  pub gross : F
  pub loss : F

-- The order that is assessed, its symbol in upper case.
pub record Order (F : Type 0) : Type 0 where
  pub symbol : String
  pub side : Side
  pub quantity : ℤ
  pub price : F

-- What the assessment decides.
pub record Assessment (F : Type 0) : Type 0 where
  pub approved_quantity : ℤ
  pub checks : Checks F
  pub reason : RiskReason

-- `_portfolio_risk_reason`
unfoldable pub portfolio_risk_reason : {F : Type 0} → ℤ → ℤ → Checks F → Option String → RiskReason
portfolio_risk_reason requested approved checks control_reason =
    if not checks.portfolio_active
    then not_active_reason
    else (if not checks.kill_switch_clear
        then kill_switch_reason control_reason
        else (if not checks.daily_loss_passed
            then daily_loss_reason
            else (if not checks.concentration_passed
                then concentration_reason
                else (if leb_ℤ approved (pos 0)
                    then nothing_remains_reason
                    else (if ltb_ℤ approved requested
                        then resized_reason requested approved
                        else passed_reason)))))

module _ {F : Type 0} (py : Builtins F) (policy : PortfolioRiskPolicy F) (r : Reading F)
    (o : Order F) where
  abbrev pub current_symbol_value : F
  current_symbol_value =
      py.mul (py.of_int (quantity_of r.position)) (last_price_of o.price r.position)

  abbrev pub reserved_buy_notional : F
  reserved_buy_notional = notionals py buys r.reservations

  abbrev pub reserved_symbol_buy_notional : F
  reserved_symbol_buy_notional = notionals py (buys_symbol o.symbol) r.reservations

  -- `max(amount, 0.0) / price`, rounded down.
  abbrev pub room : F → Option ℤ
  room amount = floor_of_ratio py (max_float py amount (zero_float py)) o.price

  unfoldable pub order_value_bound : Option ℤ
  order_value_bound = floor_of_ratio py policy.max_order_value o.price

  unfoldable pub cash_bound : Option ℤ
  unfolding notionals
  cash_bound = room (py.sub r.cash reserved_buy_notional)

  unfoldable pub gross_bound : Option ℤ
  unfolding notionals
  gross_bound = room (py.sub (py.sub policy.max_gross_exposure r.gross) reserved_buy_notional)

  unfoldable pub symbol_bound : Option ℤ
  symbol_bound = room (py.sub policy.max_symbol_exposure current_symbol_value)

  -- `max(available, 0)` of a sale.
  unfoldable pub available_to_sell : ℤ
  available_to_sell =
      max_ℤ (quantity_of r.position -ℤ reserved_sell_quantity o.symbol r.reservations) (pos 0)

  abbrev pub limited_by : Side → Option ℤ
  limited_by buy =
      min_computed
        (min_computed (min_computed (min_computed (some o.quantity) order_value_bound) cash_bound)
          gross_bound)
        symbol_bound
  limited_by sell = some (min_ℤ o.quantity available_to_sell)

  -- The quantity that the limits leave; `none` where the arithmetic raises.
  unfoldable pub limited_quantity : Option ℤ
  limited_quantity = limited_by o.side

  abbrev pub times_price : ℤ → F
  times_price q = py.mul (py.of_int q) o.price

  abbrev pub symbol_after : Side → ℤ → F
  symbol_after buy q =
      py.add (py.add current_symbol_value reserved_symbol_buy_notional) (times_price q)
  symbol_after sell q = max_float py (py.sub current_symbol_value (times_price q)) (zero_float py)

  abbrev pub gross_after : Side → ℤ → F
  gross_after buy q = py.add (py.add r.gross reserved_buy_notional) (times_price q)
  gross_after sell q = max_float py (py.sub r.gross (times_price q)) (zero_float py)

  abbrev pub concentration_of : F → F → Option F
  concentration_of symbol gross =
      if py.is_zero gross then some (zero_float py) else py.div symbol gross

  unfoldable pub checks_of : ℤ → F → Checks F
  unfolding notionals
  checks_of q concentration =
      let enforced = py.le policy.concentration_activation_value (gross_after o.side q) in
      record {
        portfolio_active = str_eq r.status "active";
        kill_switch_clear = enabled_by r.control;
        daily_loss_value = r.loss;
        daily_loss_limit = policy.max_daily_loss;
        daily_loss_passed = py.lt r.loss policy.max_daily_loss;
        requested_notional = times_price o.quantity;
        approved_notional = times_price q;
        cash_available = py.sub r.cash reserved_buy_notional;
        gross_exposure_before = r.gross;
        gross_exposure_after = gross_after o.side q;
        symbol_exposure_after = symbol_after o.side q;
        concentration_pct = concentration;
        concentration_enforced = enforced;
        concentration_passed = not enforced || py.le concentration policy.max_concentration_pct;
      }

  unfoldable pub hard_checks_pass : ℤ → Checks F → Bool
  hard_checks_pass q c =
      c.portfolio_active
      && (c.kill_switch_clear
          && (c.daily_loss_passed && (ltb_ℤ (pos 0) q && c.concentration_passed)))

  -- The checks of an order that a hard check refuses.
  unfoldable pub refused_checks : Checks F → Checks F
  unfolding notionals
  refused_checks c = record c {
    approved_notional = zero_float py;
    gross_exposure_after = py.add r.gross reserved_buy_notional;
    symbol_exposure_after = py.add current_symbol_value reserved_symbol_buy_notional;
  }

  unfoldable pub concluded : ℤ → Checks F → Assessment F
  concluded q c = record {
    approved_quantity = q;
    checks = c;
    reason = portfolio_risk_reason o.quantity q c (reason_by r.control);
  }

  unfoldable pub judged : ℤ → F → Assessment F
  unfolding concluded
  judged q concentration =
      let c = checks_of q concentration in
      if hard_checks_pass q c then concluded q c else concluded (pos 0) (refused_checks c)

  abbrev pub judged_at : ℤ → Option F → Option (Assessment F)
  judged_at q none = none
  judged_at q (some concentration) = some (judged q concentration)

  abbrev pub judged_quantity : Option ℤ → Option (Assessment F)
  judged_quantity none = none
  judged_quantity (some q) =
      judged_at q (concentration_of (symbol_after o.side q) (gross_after o.side q))

  -- The whole assessment; `none` where the arithmetic raises.
  unfoldable pub assess : Option (Assessment F)
  unfolding notionals
  assess = judged_quantity limited_quantity
