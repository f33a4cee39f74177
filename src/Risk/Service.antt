-- ===== src/Risk/Service.antt =====
-- The methods of `RiskService` (iimc_trading_platform/services/risk_service.py). The new identifier of
-- a decision and the clock are arguments.
use mathlib.Core.List.{◌++◌}
use coversational_algo_tradi.Python.{Builtins, sum_floats, zero_float}
use coversational_algo_tradi.Risk.Rows.{
  Check, RiskDb, RiskDecision, RiskEvaluation, RiskLimit, RiskMethod, RiskPolicy, RiskRequest,
  RiskService, RiskText, all_passed, arithmetic_error, below_minimum, confidence_check,
  daily_loss_check, daily_loss_reached, duplicate_decision, execution_mode_check, exit_approved,
  exit_check, live_disabled, live_mode_check, loss_per_trade_check, low_confidence,
  mode_not_allowed, notional_check, quantity_check, quantity_not_positive, quantity_refused,
  resized_from_to, symbol_check, symbol_not_permitted,
}
use coversational_algo_tradi.Prelude.{
  Bool, List, Option, String, [], any_row, false, gets, if◌then◌else◌, leb_ℤ, ltb_ℤ, map, max_ℤ,
  min_ℤ, modify, none, not, or_raise, pos, pure, raise_if, some, str_eq, true, where_rows, ℕ, ℤ,
  ◌&&◌, ◌>>=◌, ◌>>◌, ◌∷◌,
}
use coversational_algo_tradi.Domain.{
  ExecutionMode, RiskOutcome, live, mode_eq, outcome_eq, semi_auto,
}

module _ {F : Type 0} where
  abbrev pub is_limit : String × ExecutionMode → RiskLimit F → Bool
  is_limit key l = str_eq l.risk_limit_id.0 key.0 && mode_eq l.risk_limit_id.1 key.1

  abbrev pub is_decision : String → RiskDecision F → Bool
  is_decision decision_id d = str_eq d.decision_id decision_id

  abbrev pub limit_row : RiskPolicy F → ExecutionMode → ℕ → RiskLimit F
  limit_row policy mode now = record {
    risk_limit_id = (policy.policy_id, mode);
    requires_approval = mode_eq mode semi_auto;
    enabled = true;
    created_at = now;
    updated_at = now;
    limits = policy;
  }

  -- `INSERT OR IGNORE INTO risk_limits`, for each of the modes
  unfoldable pub store_limits : RiskPolicy F → ℕ → List ExecutionMode → RiskDb F → RiskDb F
  store_limits policy now [] db = db
  store_limits policy now (mode ∷ modes) db = store_limits policy now modes (
      if any_row (is_limit (policy.policy_id, mode)) db.risk_limits
      then db
      else record db { risk_limits = limit_row policy mode now ∷ db.risk_limits })

  -- `_ensure_policy_stored`
  unfoldable pub ensure_policy_stored : RiskPolicy F → ℕ → RiskMethod F (Unit {0})
  unfolding store_limits
  ensure_policy_stored policy now = modify (store_limits policy now policy.allowed_modes)

  -- The policy that `__init__` sets, from the one given and the one of the environment.
  unfoldable pub policy_of : Option (RiskPolicy F) → RiskPolicy F → Bool → RiskPolicy F
  policy_of (some policy) from_env allow_live_trading = policy
  policy_of none from_env true = record from_env {
    allowed_modes = from_env.allowed_modes ++ live ∷ [];
  }
  policy_of none from_env false = from_env

  -- `__init__`
  unfoldable pub open_service :
      Option (RiskPolicy F) → RiskPolicy F → Bool → ℕ → RiskMethod F (RiskService F)
  unfolding policy_of ensure_policy_stored
  open_service given from_env allow now = do
    let policy = policy_of given from_env allow
    ensure_policy_stored policy now
    pure (record { policy = policy; allow_live_trading = allow })

  abbrev pub evaluation_of :
      String → String → ℤ → RiskOutcome → ℤ → RiskText → List (Check F) → RiskEvaluation F
  evaluation_of decision_id version requested outcome quantity reason checks = record {
    decision_id = decision_id;
    outcome = outcome;
    approved = not (outcome_eq outcome RiskOutcome.rejected);
    requested_quantity = requested;
    approved_quantity = quantity;
    reason = reason;
    checks = checks;
    policy_version = version;
  }

  abbrev pub decision_row : RiskRequest F → ℕ → RiskEvaluation F → RiskDecision F
  decision_row r now e = record {
    decision_id = e.decision_id;
    run_id = r.run_id;
    signal_id = r.signal_id;
    approved = e.approved;
    requested_quantity = e.requested_quantity;
    approved_quantity = e.approved_quantity;
    reason = e.reason;
    outcome = e.outcome;
    checks = e.checks;
    created_at = now;
    risk_policy_version = e.policy_version;
  }

module _ {F : Type 0} (py : Builtins F) where
  -- `_realized_loss`
  unfoldable pub run_loss : String → RiskDb F → F
  run_loss run_id db = sum_floats py (
      map
        (λ f. if py.lt f.realized_pnl (zero_float py) then py.neg f.realized_pnl else zero_float py)
        (where_rows (λ f. str_eq f.run_id run_id) db.trade_fills))

  module _ (service : RiskService F) (r : RiskRequest F) (decision_id : String) (now : ℕ) where
    -- `_store`
    unfoldable pub store :
        RiskOutcome → ℤ → RiskText → List (Check F) → RiskMethod F (RiskEvaluation F)
    store outcome quantity reason checks = do
      let e =
          evaluation_of decision_id service.policy.version r.requested_quantity outcome quantity
            reason checks
      taken ← gets (λ db. any_row (is_decision decision_id) db.risk_decisions)
      raise_if taken duplicate_decision
      modify (λ db. record db { risk_decisions = decision_row r now e ∷ db.risk_decisions })
      pure e

    -- `_reject`
    unfoldable pub reject : RiskText → List (Check F) → RiskMethod F (RiskEvaluation F)
    unfolding store
    reject reason checks = store RiskOutcome.rejected (pos 0) reason checks

    -- `execution_mode in self.policy.allowed_modes`
    abbrev pub mode_allowed : Bool
    mode_allowed = any_row (mode_eq r.execution_mode) service.policy.allowed_modes

    abbrev pub symbol_refused : Bool
    symbol_refused =
        any_row (λ s. true) service.policy.allowed_symbols
        && not (any_row (str_eq r.symbol) service.policy.allowed_symbols)

    -- `max_quantity_by_notional`
    abbrev pub notional_bound : Option ℤ
    notional_bound = py.int_floor_div service.policy.max_order_value r.price

    abbrev pub risk_per_unit : F
    risk_per_unit = py.mul r.price service.policy.stop_loss_pct

    -- `max_quantity_by_loss`
    abbrev pub loss_bound : Option ℤ
    loss_bound =
        if py.lt (zero_float py) risk_per_unit
        then py.int_floor_div service.policy.max_loss_per_trade risk_per_unit
        else some (pos 0)

    abbrev pub entry_checks : List (Check F)
    entry_checks =
        execution_mode_check true (some r.execution_mode)
        ∷ symbol_check true (some r.symbol)
        ∷ confidence_check true r.confidence service.policy.min_confidence
        ∷ []

    -- The entries that the three limits on the quantity and the loss of the run set.
    abbrev pub limit_checks : ℤ → ℤ → ℤ → F → List (Check F)
    limit_checks by_quantity by_notional by_loss loss =
        let policy = service.policy in
        quantity_check (ltb_ℤ (pos 0) by_quantity) r.requested_quantity by_quantity
          policy.max_quantity
        ∷ notional_check (ltb_ℤ (pos 0) by_notional)
            (py.mul r.price (py.of_int (max_ℤ by_notional (pos 0)))) policy.max_order_value
        ∷ loss_per_trade_check (ltb_ℤ (pos 0) by_loss)
            (py.mul risk_per_unit (py.of_int (max_ℤ by_loss (pos 0)))) policy.max_loss_per_trade
            policy.stop_loss_pct
        ∷ daily_loss_check (py.lt loss policy.max_daily_loss) loss policy.max_daily_loss
        ∷ []

    -- The end of `evaluate`, with the quantity that the limits leave.
    unfoldable pub conclude : ℤ → F → List (Check F) → RiskMethod F (RiskEvaluation F)
    unfolding store reject
    conclude quantity loss checks =
        if py.le service.policy.max_daily_loss loss
        then reject daily_loss_reached checks
        else if leb_ℤ quantity (pos 0)
        then reject below_minimum checks
        else if leb_ℤ quantity r.requested_quantity && leb_ℤ r.requested_quantity quantity
        then store RiskOutcome.approved quantity all_passed checks
        else store RiskOutcome.resized quantity (resized_from_to r.requested_quantity quantity)
            checks

    -- `evaluate`, from `approved_quantity = min(requested_quantity, …)` on
    unfoldable pub size_entry : RiskMethod F (RiskEvaluation F)
    unfolding conclude run_loss
    size_entry = do
      let by_quantity = min_ℤ r.requested_quantity service.policy.max_quantity
      notional ← or_raise notional_bound arithmetic_error
      let by_notional = min_ℤ by_quantity notional
      loss_limit ← or_raise loss_bound arithmetic_error
      let by_loss = min_ℤ by_notional loss_limit
      loss ← gets (run_loss r.run_id)
      conclude by_loss loss (entry_checks ++ limit_checks by_quantity by_notional by_loss loss)

    -- `evaluate`, for a signal that is no exit
    unfoldable pub evaluate_entry : RiskMethod F (RiskEvaluation F)
    unfolding reject size_entry
    evaluate_entry =
        let mode_check = execution_mode_check true (some r.execution_mode) in
        let checked = mode_check ∷ symbol_check true (some r.symbol) ∷ [] in
        if leb_ℤ r.requested_quantity (pos 0)
        then reject quantity_not_positive (mode_check ∷ quantity_refused ∷ [])
        else if symbol_refused
        then reject (symbol_not_permitted r.symbol) (mode_check ∷ symbol_check false none ∷ [])
        else if py.lt r.confidence service.policy.min_confidence
        then reject low_confidence
            (checked ++ confidence_check false r.confidence service.policy.min_confidence ∷ [])
        else size_entry

    unfoldable pub evaluate : RiskMethod F (RiskEvaluation F)
    unfolding store reject evaluate_entry
    evaluate =
        if mode_eq r.execution_mode live && not service.allow_live_trading
        then reject live_disabled (live_mode_check false ∷ [])
        else if not mode_allowed
        then reject (mode_not_allowed r.execution_mode) (execution_mode_check false none ∷ [])
        else if str_eq r.signal_type "exit"
        then store RiskOutcome.approved r.requested_quantity exit_approved
            (execution_mode_check true (some r.execution_mode) ∷ exit_check true ∷ [])
        else evaluate_entry
