-- ===== src/Portfolio/Examples.antt =====
-- Runs of the portfolio service on concrete inputs.
use coversational_algo_tradi.Portfolio.Rows.{
  PortfolioDb, PortfolioRiskPolicy, PortfolioRow, ReservationRow, active, buy, default_policy, sell,
}
use coversational_algo_tradi.Portfolio.Reads.{
  active_reservations, daily_loss, find_position, floor_of_ratio, gross_exposure, notionals,
  quantity_of, reserved_sell_quantity, sum_quantities,
}
use coversational_algo_tradi.Portfolio.Assess.{
  Assessment, Order, Reading, assess, available_to_sell, cash_bound, checks_of, concluded,
  gross_bound, hard_checks_pass, judged, limited_quantity, order_value_bound, portfolio_risk_reason,
  refused_checks, symbol_bound,
}
use coversational_algo_tradi.Portfolio.Snapshot.{
  Moment, Snapshot, get_portfolio, open_positions, position_view, snapshot_of,
}
use coversational_algo_tradi.Portfolio.Reserve.{
  DrawnIds, create, decision_of, evaluate_and_reserve, evaluate_in_transaction, expire_overdue,
  insert_decision, insert_portfolio, insert_reservation, open_portfolio, parse_side, reading_of,
  record_assessment, reservation_of,
}
use coversational_algo_tradi.Portfolio.Fill.{
  FillRequest, apply_fill, buy_effect, effect_of, fill_entry, fill_once, fill_reservation,
  position_after, post_control, post_fill, post_once, sell_effect, set_status, set_trading_enabled,
  upsert_position,
}
use coversational_algo_tradi.Portfolio.Runs.{
  PortfolioCall, after_call, after_calls, creates, empty_db, evaluates, fills, never_oversold,
}
use coversational_algo_tradi.Portfolio.Standstill.{StandsAs, kill_switch_holds}
use coversational_algo_tradi.Prelude.{
  List, [], arith, false, max_ℤ, min_ℤ, none, ok, pos, refl, true, ℤ, ◌+ℤ◌, ◌-ℤ◌, ◌∷◌, ◌≡◌, ◌≤ℤ◌,
}
use coversational_algo_tradi.Samples.{integers}
use coversational_algo_tradi.Portfolio.Replays.{apply_fill_once}
use coversational_algo_tradi.Portfolio.Sales.{reserved_sale_fills}
use coversational_algo_tradi.Portfolio.Bounds.{HasRoom, IsOpen, IsSpread, assess_within_limits}

abbrev policy : PortfolioRiskPolicy ℤ
policy = default_policy integers

abbrev moment : Moment
moment = record { now = 1000; read_at = 1001; is_today = λ t. true }

abbrev drawn : DrawnIds
drawn = record { decision_id = "d1"; reservation_id = "r1" }

abbrev drawn_next : DrawnIds
drawn_next = record { decision_id = "d2"; reservation_id = "r2" }

abbrev filled : FillRequest ℤ
filled = record {
  portfolio_id = "p";
  reservation_id = "r1";
  reference_id = "f1";
  price = pos 100;
  fees = pos 1;
}

-- Five units are bought, and three of them are promised to a sale; the same fill is sent twice.
abbrev calls : List (PortfolioCall ℤ)
calls =
    creates "main" (pos 10000) "ops" "INR" "p" moment
    ∷ evaluates drawn "p" "NIFTY" "BUY" (pos 5) (pos 100) moment
    ∷ fills filled moment
    ∷ fills filled moment
    ∷ evaluates drawn_next "p" "NIFTY" "SELL" (pos 3) (pos 100) moment
    ∷ []

never_oversold_example :
    let db = after_calls integers policy calls empty_db in
    (pos 0 ≤ℤ reserved_sell_quantity "NIFTY" (active_reservations "p" db))
    × (reserved_sell_quantity "NIFTY" (active_reservations "p" db)
        ≤ℤ quantity_of (find_position "p" "NIFTY" db))
never_oversold_example = never_oversold integers policy calls "p" "NIFTY"

abbrev reading : Reading ℤ
reading = record {
  cash = pos 1000;
  status = "active";
  control = none;
  position = none;
  reservations = [];
  gross = pos 0;
  loss = pos 0;
}

abbrev order : Order ℤ
order = record { symbol = "NIFTY"; side = buy; quantity = pos 15; price = pos 100 }

-- The cash leaves ten units of the fifteen.
abbrev assessment : Assessment ℤ
assessment = judged integers policy reading order (pos 10) (pos 1)

assess_within_limits_example :
    (pos 10 ≤ℤ pos 15)
    × HasRoom integers policy reading order (pos 10) buy
    × IsOpen integers policy reading order
    × IsSpread integers policy reading order (pos 10) buy
unfolding assess judged concluded limited_quantity order_value_bound cash_bound gross_bound
    symbol_bound checks_of hard_checks_pass notionals floor_of_ratio min_ℤ max_ℤ ◌+ℤ◌ ◌-ℤ◌
assess_within_limits_example =
    assess_within_limits integers policy reading order assessment refl (omega arith)

abbrev held : PortfolioDb ℤ
held = record {
  portfolios =
      record {
        portfolio_id = "p";
        name = "main";
        base_currency = "INR";
        starting_cash = pos 10000;
        cash_balance = pos 9499;
        status = "active";
        created_by = "ops";
        created_at = 1;
        updated_at = 2;
      }
      ∷ [];
  positions =
      record {
        portfolio_id = "p";
        symbol = "NIFTY";
        quantity = pos 5;
        average_price = pos 100;
        last_price = pos 100;
        realized_pnl = pos 0;
        updated_at = 2;
      }
      ∷ [];
  ledger = [];
  reservations = [];
  controls = [];
  decisions = [];
}

abbrev switched : PortfolioDb ℤ
switched = post_control integers "p" false "drill" "ops" "c1" 1000 held

-- What is tried after the switch: a purchase, and a fill.
abbrev attempts : List (PortfolioCall ℤ)
attempts = evaluates drawn "p" "NIFTY" "BUY" (pos 5) (pos 100) moment ∷ fills filled moment ∷ []

kill_switch_holds_example :
    StandsAs integers policy "p" held (after_calls integers policy attempts switched)
unfolding set_trading_enabled get_portfolio post_control
kill_switch_holds_example =
    kill_switch_holds integers policy "p" "drill" "ops" "c1" moment held {db' = switched} refl
      attempts refl

-- A purchase that is reserved, and its fill sent twice, the second time at another price.
abbrev reserved : PortfolioDb ℤ
reserved = record held {
  reservations =
      record {
        reservation_id = "r1";
        decision_id = "d1";
        portfolio_id = "p";
        symbol = "NIFTY";
        side = buy;
        quantity = pos 5;
        notional = pos 500;
        status = active;
        expires_at = 5000;
        created_at = 900;
        updated_at = 900;
      }
      ∷ [];
}

abbrev once_filled : PortfolioDb ℤ
once_filled = (apply_fill integers filled moment reserved).1

abbrev sent_again : FillRequest ℤ
sent_again = record filled { price = pos 101 }

apply_fill_once_example : (apply_fill integers sent_again moment once_filled).1 ≡ once_filled
unfolding apply_fill post_once fill_once fill_reservation effect_of buy_effect sell_effect
    get_portfolio post_fill position_after fill_entry upsert_position set_status snapshot_of
    open_positions position_view ◌+ℤ◌ ◌-ℤ◌ daily_loss notionals gross_exposure
apply_fill_once_example =
    apply_fill_once integers filled sent_again moment moment reserved {db' = once_filled} refl refl
      refl

-- The sale that `calls` leaves reserved, and its fill.
abbrev sale : ReservationRow ℤ
sale = record {
  reservation_id = "r2";
  decision_id = "d2";
  portfolio_id = "p";
  symbol = "NIFTY";
  side = sell;
  quantity = pos 3;
  notional = pos 300;
  status = active;
  expires_at = 120001000;
  created_at = 1000;
  updated_at = 1000;
}

abbrev sale_fill : FillRequest ℤ
sale_fill = record {
  portfolio_id = "p";
  reservation_id = "r2";
  reference_id = "f2";
  price = pos 100;
  fees = pos 1;
}

abbrev portfolio : PortfolioRow ℤ
portfolio = record {
  portfolio_id = "p";
  name = "main";
  base_currency = "INR";
  starting_cash = pos 10000;
  cash_balance = pos 9499;
  status = "active";
  created_by = "ops";
  created_at = 1000;
  updated_at = 1000;
}

reserved_sale_fills_example :
    let db = after_calls integers policy calls empty_db in
    (view : Snapshot ℤ) × (t : PortfolioDb ℤ) × (apply_fill integers sale_fill moment db
      ≡ (ok view, t))
    × (quantity_of (find_position "p" "NIFTY" t)
        ≡ quantity_of (find_position "p" "NIFTY" db) -ℤ pos 3)
unfolding after_calls after_call create open_portfolio insert_portfolio evaluate_and_reserve
    evaluate_in_transaction record_assessment parse_side reading_of expire_overdue insert_decision
    insert_reservation decision_of reservation_of assess judged concluded limited_quantity
    order_value_bound cash_bound gross_bound symbol_bound available_to_sell checks_of
    hard_checks_pass refused_checks notionals gross_exposure daily_loss floor_of_ratio
    reserved_sell_quantity sum_quantities min_ℤ max_ℤ ◌+ℤ◌ ◌-ℤ◌ apply_fill post_once fill_once
    fill_reservation effect_of buy_effect sell_effect get_portfolio post_fill position_after
    fill_entry upsert_position set_status portfolio_risk_reason
reserved_sale_fills_example =
    reserved_sale_fills integers sale_fill sale moment policy calls {row = portfolio}
      (refl, refl, refl, refl, refl) refl refl
