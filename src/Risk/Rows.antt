-- ===== src/Risk/Rows.antt =====
-- The policy, the checks and the rows of iimc_trading_platform/services/risk_service.py. The
-- dictionary of checks is the list of its entries in the order in which they are set; their keys
-- are different. `risk_decisions` and `risk_limits` list the newest row first.
use coversational_algo_tradi.Python.{Builtins}
use coversational_algo_tradi.Prelude.{Bool, List, Method, Option, String, [], pos, ℕ, ℤ, ◌∷◌}
use coversational_algo_tradi.Domain.{ExecutionMode, RiskOutcome, research, sandbox, semi_auto}
use coversational_algo_tradi.Orders.Rows.{TradeFill}

pub record RiskPolicy (F : Type 0) : Type 0 where
  pub policy_id : String
  pub version : String
  pub max_quantity : ℤ
  pub max_order_value : F
  pub max_position_value : F
  pub max_loss_per_trade : F
  pub max_daily_loss : F
  pub stop_loss_pct : F
  pub min_confidence : F
  pub allowed_symbols : List String
  pub allowed_modes : List ExecutionMode

-- The field defaults of `RiskPolicy`.
abbrev pub default_policy : {F : Type 0} → Builtins F → RiskPolicy F
default_policy py = record {
  policy_id = "default_research_policy";
  version = "1.0.0";
  max_quantity = pos 50;
  max_order_value = py.literal (pos 2000000) 0;
  max_position_value = py.literal (pos 4000000) 0;
  max_loss_per_trade = py.literal (pos 12500) 0;
  max_daily_loss = py.literal (pos 50000) 0;
  stop_loss_pct = py.literal (pos 75) 4;
  min_confidence = py.literal (pos 0) 0;
  allowed_symbols = [];
  allowed_modes = research ∷ sandbox ∷ semi_auto ∷ [];
}

-- An entry of `checks`. The mode of `execution_mode_check` is missing where the check failed, and
-- so are the details of the others.
pub data Check (F : Type 0) : Type 0 where
  live_mode_check : Bool → Check F
  execution_mode_check : Bool → Option ExecutionMode → Check F
  exit_check : Bool → Check F
  quantity_refused : Check F
  symbol_check : Bool → Option String → Check F
  confidence_check : Bool → F → F → Check F
  quantity_check : Bool → ℤ → ℤ → ℤ → Check F
  notional_check : Bool → F → F → Check F
  loss_per_trade_check : Bool → F → F → F → Check F
  daily_loss_check : Bool → F → F → Check F

-- The texts of `reason`, with what they are formatted from.
pub data RiskText : Type 0 where
  live_disabled exit_approved quantity_not_positive low_confidence : RiskText
  daily_loss_reached below_minimum all_passed : RiskText
  mode_not_allowed : ExecutionMode → RiskText
  symbol_not_permitted : String → RiskText
  resized_from_to : ℤ → ℤ → RiskText

pub record RiskEvaluation (F : Type 0) : Type 0 where
  pub decision_id : String
  pub outcome : RiskOutcome
  pub approved : Bool
  pub requested_quantity : ℤ
  pub approved_quantity : ℤ
  pub reason : RiskText
  pub checks : List (Check F)
  pub policy_version : String

-- A row of `risk_decisions`; `outcome` and `checks` are its `checks_json`.
pub record RiskDecision (F : Type 0) : Type 0 where
  pub decision_id : String
  pub run_id : String
  pub signal_id : String
  pub approved : Bool
  pub requested_quantity : ℤ
  pub approved_quantity : ℤ
  pub reason : RiskText
  pub outcome : RiskOutcome
  pub checks : List (Check F)
  pub created_at : ℕ
  pub risk_policy_version : String

-- A row of `risk_limits`. Its key is the policy's identifier and the mode, which no two pairs share
-- since the names of the modes have no colon.
pub record RiskLimit (F : Type 0) : Type 0 where
  pub risk_limit_id : String × ExecutionMode
  pub requires_approval : Bool
  pub enabled : Bool
  pub created_at : ℕ
  pub updated_at : ℕ
  pub limits : RiskPolicy F

pub record RiskDb (F : Type 0) : Type 0 where
  pub risk_decisions : List (RiskDecision F)
  pub risk_limits : List (RiskLimit F)
  pub trade_fills : List (TradeFill F)

-- A division by zero or the conversion of an infinity or a NaN, and the database's refusal of a
-- second row with one primary key.
pub data RiskError : Type 0 where
  arithmetic_error duplicate_decision : RiskError

-- The keyword arguments of `evaluate`.
pub record RiskRequest (F : Type 0) : Type 0 where
  pub run_id : String
  pub signal_id : String
  pub signal_type : String
  pub symbol : String
  pub price : F
  pub requested_quantity : ℤ
  pub confidence : F
  pub execution_mode : ExecutionMode

-- The attributes of a `RiskService`.
pub record RiskService (F : Type 0) : Type 0 where
  pub policy : RiskPolicy F
  pub allow_live_trading : Bool

abbrev pub RiskMethod : Type 0 → Type 0 → Type 0
RiskMethod F A = Method (RiskDb F) RiskError A
