-- ===== src/Alerts/Rows.antt =====
-- The table of iimc_trading_platform/services/price_alert_service.py, `price_alerts`, with the
-- newest row first. Times are in microseconds.
use Prim.Native.String.{◌++◌}
use coversational_algo_tradi.Prelude.{Bool, List, Method, Option, Result, String, false, true, ℕ}

pub data AlertStatus : Type 0 where
  active triggered : AlertStatus

pub record AlertRow (F : Type 0) : Type 0 where
  pub alert_id : String
  pub symbol : String
  pub exchange : String
  pub direction : String
  pub threshold : F
  pub status : AlertStatus
  pub created_by : String
  pub created_at : ℕ
  pub last_price : Option F
  pub last_checked_at : Option ℕ
  pub triggered_at : Option ℕ

-- The keyword arguments of `create`.
pub record AlertRequest (F : Type 0) : Type 0 where
  pub symbol : String
  pub direction : String
  pub threshold : F
  pub exchange : String
  pub created_by : String

-- The dictionary that `create` returns.
pub record CreatedAlert (F : Type 0) : Type 0 where
  pub alert_id : String
  pub symbol : String
  pub exchange : String
  pub direction : String
  pub threshold : F
  pub status : AlertStatus

-- The dictionary that `evaluate` returns; a triggered alert has the price that was observed.
pub record AlertReport (F : Type 0) : Type 0 where
  pub checked : ℕ
  pub triggered_alerts : List (AlertRow F)
  pub errors : List String

-- The lists of `evaluate` while its loop runs, and the table.
pub record Progress (F : Type 0) : Type 0 where
  pub triggered_alerts : List (AlertRow F)
  pub errors : List String
  pub rows : List (AlertRow F)

pub data AlertError : Type 0 where
  bad_direction bad_threshold no_credentials constraint_violation : AlertError

-- What the broker's client does for an alert: the price of its quote, or the text of an exception.
abbrev pub Quotes : Type 0 → Type 0
Quotes F = AlertRow F → Result String F

abbrev pub AlertMethod : Type 0 → Type 0 → Type 0
AlertMethod F A = Method (List (AlertRow F)) AlertError A

abbrev pub is_active : AlertStatus → Bool
is_active active = true
is_active triggered = false

-- `f"{alert['symbol']}: {exc}"`
abbrev pub error_text : String → String → String
error_text symbol e = symbol ++ ": " ++ e
