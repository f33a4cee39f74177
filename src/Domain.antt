-- ===== src/Domain.antt =====
-- The enumerations of iimc_trading_platform/domain/enums.py that the services branch on.
use coversational_algo_tradi.Prelude.{Bool, true, false, ite}

pub data ExecutionMode : Type 0 where
  research sandbox semi_auto live : ExecutionMode

pub data OrderStatus : Type 0 where
  created risk_approved risk_rejected submitted pending_approval : OrderStatus
  filled partially_filled rejected cancelled failed : OrderStatus

pub data RiskOutcome : Type 0 where
  approved resized rejected : RiskOutcome

-- `==` on the members of an enumeration.
unfoldable pub OrderStatus-discrete : Discrete OrderStatus
OrderStatus-discrete = hlevel

unfoldable pub ExecutionMode-discrete : Discrete ExecutionMode
ExecutionMode-discrete = hlevel

unfoldable pub RiskOutcome-discrete : Discrete RiskOutcome
RiskOutcome-discrete = hlevel

abbrev pub status_eq : OrderStatus → OrderStatus → Bool
status_eq a b = ite (OrderStatus-discrete a b) true false

abbrev pub mode_eq : ExecutionMode → ExecutionMode → Bool
mode_eq a b = ite (ExecutionMode-discrete a b) true false

abbrev pub outcome_eq : RiskOutcome → RiskOutcome → Bool
outcome_eq a b = ite (RiskOutcome-discrete a b) true false
