-- ===== src/Portfolio/Rows.antt =====
-- The tables of iimc_trading_platform/services/portfolio_service.py, its policy and its exceptions.
-- Times are in microseconds. Tables list the newest row first.
use coversational_algo_tradi.Python.{Builtins}
use coversational_algo_tradi.Prelude.{Bool, List, Method, Option, String, false, pos, true, ℕ, ℤ}

-- The texts "BUY" and "SELL" of a `side` column.
pub data Side : Type 0 where
  buy sell : Side

-- The `status` column of `risk_reservations`.
pub data ReservationStatus : Type 0 where
  active expired consumed released : ReservationStatus

-- The `event_type` column of `portfolio_ledger`.
pub data LedgerEvent : Type 0 where
  opening_balance fill trading_control : LedgerEvent

-- The exceptions, by their messages; `constraint_violation` is the database's on a second row with
-- one key, `arithmetic_error` is Python's for a division by zero or a float that has no floor, and
-- `type_error` that of indexing a row that is `None`.
pub data PortfolioError : Type 0 where
  name_required cash_not_positive bad_side bad_amount bad_fill : PortfolioError
  portfolio_not_found reservation_not_found reservation_not_active : PortfolioError
  insufficient_cash sell_exceeds_position active_reservation_not_found : PortfolioError
  reason_required constraint_violation arithmetic_error type_error : PortfolioError

pub record PortfolioRiskPolicy (F : Type 0) : Type 0 where
  pub version : String
  pub max_order_value : F
  pub max_gross_exposure : F
  pub max_symbol_exposure : F
  pub max_daily_loss : F
  pub max_concentration_pct : F
  pub concentration_activation_value : F
  pub reservation_ttl_seconds : ℕ

pub record PortfolioRow (F : Type 0) : Type 0 where
  pub portfolio_id : String
  pub name : String
  pub base_currency : String
  pub starting_cash : F
  pub cash_balance : F
  pub status : String
  pub created_by : String
  pub created_at : ℕ
  pub updated_at : ℕ

pub record PositionRow (F : Type 0) : Type 0 where
  pub portfolio_id : String
  pub symbol : String
  pub quantity : ℤ
  pub average_price : F
  pub last_price : F
  pub realized_pnl : F
  pub updated_at : ℕ

-- The `payload_json` column.
pub data LedgerPayload : Type 0 where
  opening_currency : String → LedgerPayload
  of_reservation : String → LedgerPayload
  control_change : Bool → String → String → LedgerPayload

-- A row of `portfolio_ledger`, without its random key.
pub record LedgerRow (F : Type 0) : Type 0 where
  pub portfolio_id : String
  pub event_type : LedgerEvent
  pub reference_id : String
  pub symbol : Option String
  pub side : Option Side
  pub quantity : Option ℤ
  pub price : Option F
  pub fees : F
  pub cash_delta : F
  pub realized_pnl : F
  pub payload : LedgerPayload
  pub created_at : ℕ

pub record ReservationRow (F : Type 0) : Type 0 where
  pub reservation_id : String
  pub decision_id : String
  pub portfolio_id : String
  pub symbol : String
  pub side : Side
  pub quantity : ℤ
  pub notional : F
  pub status : ReservationStatus
  pub expires_at : ℕ
  pub created_at : ℕ
  pub updated_at : ℕ

-- A row of `risk_control_state` with the scope 'portfolio'.
pub record ControlRow : Type 0 where
  pub scope_id : String
  pub trading_enabled : Bool
  pub reason : Option String
  pub changed_by : String
  pub updated_at : ℕ

-- The dictionary `checks` of a decision.
pub record Checks (F : Type 0) : Type 0 where
  pub portfolio_active : Bool
  pub kill_switch_clear : Bool
  pub daily_loss_value : F
  pub daily_loss_limit : F
  pub daily_loss_passed : Bool
  pub requested_notional : F
  pub approved_notional : F
  pub cash_available : F
  pub gross_exposure_before : F
  pub gross_exposure_after : F
  pub symbol_exposure_after : F
  pub concentration_pct : F
  pub concentration_enforced : Bool
  pub concentration_passed : Bool

-- The sentences of `_portfolio_risk_reason`, with the values that they quote.
pub data RiskReason : Type 0 where
  not_active_reason : RiskReason
  kill_switch_reason : Option String → RiskReason
  daily_loss_reason : RiskReason
  concentration_reason : RiskReason
  nothing_remains_reason : RiskReason
  resized_reason : ℤ → ℤ → RiskReason
  passed_reason : RiskReason

-- A row of `portfolio_risk_decisions`.
pub record DecisionRow (F : Type 0) : Type 0 where
  pub decision_id : String
  pub portfolio_id : String
  pub symbol : String
  pub side : Side
  pub requested_quantity : ℤ
  pub approved_quantity : ℤ
  pub price : F
  pub approved : Bool
  pub reason : RiskReason
  pub checks : Checks F
  pub policy_version : String
  pub created_at : ℕ

pub record PortfolioDb (F : Type 0) : Type 0 where
  pub portfolios : List (PortfolioRow F)
  pub positions : List (PositionRow F)
  pub ledger : List (LedgerRow F)
  pub reservations : List (ReservationRow F)
  pub controls : List ControlRow
  pub decisions : List (DecisionRow F)

abbrev pub PortfolioMethod : Type 0 → Type 0 → Type 0
PortfolioMethod F A = Method (PortfolioDb F) PortfolioError A

-- `==` on sides, statuses and event types.
abbrev pub side_eq : Side → Side → Bool
side_eq buy buy = true
side_eq sell sell = true
side_eq _ _ = false

abbrev pub is_active : ReservationStatus → Bool
is_active active = true
is_active _ = false

abbrev pub is_fill : LedgerEvent → Bool
is_fill fill = true
is_fill _ = false

-- The field defaults of `PortfolioRiskPolicy`.
abbrev pub default_policy : {F : Type 0} → Builtins F → PortfolioRiskPolicy F
default_policy py = record {
  version = "1.0.0";
  max_order_value = py.literal (pos 2000000) 0;
  max_gross_exposure = py.literal (pos 5000000) 0;
  max_symbol_exposure = py.literal (pos 2000000) 0;
  max_daily_loss = py.literal (pos 50000) 0;
  max_concentration_pct = py.literal (pos 60) 2;
  concentration_activation_value = py.literal (pos 100000) 0;
  reservation_ttl_seconds = 120;
}
