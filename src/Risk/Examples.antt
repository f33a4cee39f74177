-- ===== src/Risk/Examples.antt =====
-- Runs of the risk service on concrete inputs.
use coversational_algo_tradi.Samples.{integers}
use coversational_algo_tradi.Risk.Rows.{
  RiskDb, RiskDecision, RiskEvaluation, RiskRequest, RiskService, default_policy, resized_from_to,
}
use coversational_algo_tradi.Risk.Service.{
  conclude, decision_row, entry_checks, evaluate, evaluate_entry, evaluation_of, limit_checks,
  reject, run_loss, size_entry, store,
}
use coversational_algo_tradi.Risk.Verdict.{
  Permitted, Records, evaluate_is_filed, evaluate_within_policy,
}
use coversational_algo_tradi.Prelude.{
  [], false, max_ℤ, min_ℤ, ok, pos, refl, true, ℤ, ◌++◌, ◌∷◌, ◌≡◌, ◌⊎◌,
}
use coversational_algo_tradi.Domain.{
  ExecutionMode-discrete, RiskOutcome, RiskOutcome-discrete, sandbox,
}

abbrev service : RiskService ℤ
service = record { policy = default_policy integers; allow_live_trading = false }

-- 80 units at 30000: the order limit leaves 66, the policy's maximum 50.
abbrev request : RiskRequest ℤ
request = record {
  run_id = "run";
  signal_id = "signal";
  signal_type = "entry";
  symbol = "NIFTY";
  price = pos 30000;
  requested_quantity = pos 80;
  confidence = pos 1;
  execution_mode = sandbox;
}

abbrev empty_risk_db : RiskDb ℤ
empty_risk_db = record { risk_decisions = []; risk_limits = []; trade_fills = [] }

-- A stop loss of 1 on every unit of the price, so that a limit on the loss leaves some.
abbrev strict : RiskService ℤ
strict = record service {
  policy = record service.policy { stop_loss_pct = pos 1; max_loss_per_trade = pos 900000 };
}

abbrev sized : RiskEvaluation ℤ
sized =
    evaluation_of "risk_1" "1.0.0" (pos 80) RiskOutcome.resized (pos 30)
      (resized_from_to (pos 80) (pos 30))
      (entry_checks integers strict request "risk_1" 5
        ++ limit_checks integers strict request "risk_1" 5 (pos 50) (pos 50) (pos 30) (pos 0))

abbrev sized_db : RiskDb ℤ
sized_db = record empty_risk_db { risk_decisions = decision_row request 5 sized ∷ [] }

sized_run : evaluate integers strict request "risk_1" 5 empty_risk_db ≡ (ok sized, sized_db)
unfolding evaluate run_loss evaluate_entry size_entry conclude store reject ExecutionMode-discrete
    RiskOutcome-discrete min_ℤ max_ℤ
sized_run = refl

evaluate_within_policy_example : Permitted integers strict request "risk_1" 5 empty_risk_db (pos 30)
unfolding RiskOutcome-discrete
evaluate_within_policy_example =
    evaluate_within_policy integers strict request "risk_1" 5 empty_risk_db sized_run refl

evaluate_is_filed_example :
    (d : RiskDecision ℤ) × (sized_db.risk_decisions ≡ d ∷ [])
    × Records integers strict request "risk_1" 5 empty_risk_db d sized
    × (sized_db.risk_limits ≡ [])
    × (sized_db.trade_fills ≡ [])
    × ((sized.approved ≡ true) ⊎ (sized.approved_quantity ≡ pos 0))
evaluate_is_filed_example =
    evaluate_is_filed integers strict request "risk_1" 5 empty_risk_db sized_run
