-- ===== src/Risk/Verdict.antt =====
-- About the decisions of `RiskService.evaluate`.
use coversational_algo_tradi.Python.{Builtins, sum_floats, zero_float}
use coversational_algo_tradi.Risk.Rows.{
  Check, RiskDb, RiskDecision, RiskEvaluation, RiskRequest, RiskService, RiskText, all_passed,
  arithmetic_error, duplicate_decision,
}
use coversational_algo_tradi.Risk.Service.{
  conclude, decision_row, evaluate, evaluate_entry, is_decision, loss_bound, mode_allowed,
  notional_bound, reject, run_loss, size_entry, store, symbol_refused,
}
use coversational_algo_tradi.Prelude.{
  Bool-cases, List, Returned, Returned-or_raise, Returned-raise_if, String, [], any_row, ap, arith,
  false, if◌then◌else◌, inl, inr, leb_ℤ, map, min_ℤ, min_ℤ-le, not, of_returned, ok, pos, refl,
  some, some_eq, str_eq, subst, sym, true, where_rows, ℕ, ℤ, ◌&&◌, ◌<ℤ◌, ◌∷◌, ◌≡◌, ◌≤ℤ◌, ◌⊎◌,
}
use coversational_algo_tradi.Domain.{RiskOutcome, RiskOutcome-discrete, live, mode_eq, outcome_eq}

module _ {F : Type 0} (py : Builtins F) (service : RiskService F) (r : RiskRequest F)
    (decision_id : String) (now : ℕ) (db : RiskDb F) where
  -- Live orders are off unless the service allows them, and the mode is one of the policy's.
  abbrev pub GatePassed : Type 0
  GatePassed =
      ((mode_eq r.execution_mode live && not service.allow_live_trading) ≡ false)
      × (any_row (mode_eq r.execution_mode) service.policy.allowed_modes ≡ true)

  -- `q` is within `limit // unit`.
  abbrev pub WithinQuotient : ℤ → F → F → Type 0
  WithinQuotient q limit unit = (n : ℤ) × (py.int_floor_div limit unit ≡ some n) × (q ≤ℤ n)

  -- The losses of the fills of the run.
  abbrev pub losses_of_run : List F
  losses_of_run =
      map
        (λ f. if py.lt f.realized_pnl (zero_float py) then py.neg f.realized_pnl else zero_float py)
        (where_rows (λ f. str_eq f.run_id r.run_id) db.trade_fills)

  -- What an entry of `q` units has been checked against.
  abbrev pub SizedEntry : ℤ → Type 0
  SizedEntry q =
      (pos 0 <ℤ q)
      × (q ≤ℤ r.requested_quantity)
      × (q ≤ℤ service.policy.max_quantity)
      × WithinQuotient q service.policy.max_order_value r.price
      × (py.lt (zero_float py) (py.mul r.price service.policy.stop_loss_pct) ≡ true)
      × WithinQuotient q service.policy.max_loss_per_trade
          (py.mul r.price service.policy.stop_loss_pct)
      × ((service.policy.allowed_symbols ≡ [])
          ⊎ (any_row (str_eq r.symbol) service.policy.allowed_symbols ≡ true))
      × (py.lt r.confidence service.policy.min_confidence ≡ false)
      × (py.le service.policy.max_daily_loss (sum_floats py losses_of_run) ≡ false)

  abbrev pub Permitted : ℤ → Type 0
  Permitted q =
      GatePassed
      × (((str_eq r.signal_type "exit" ≡ true) × (q ≡ r.requested_quantity)) ⊎ SizedEntry q)

  -- The evaluation is on record, an approval is permitted, and a refusal is of no quantity.
  abbrev Sound : RiskEvaluation F → RiskDb F → Type 0
  Sound e t =
      (t ≡ record db { risk_decisions = decision_row r now e ∷ db.risk_decisions })
      × (e.approved ≡ true → Permitted e.approved_quantity)
      × (e.approved ≡ false → e.approved_quantity ≡ pos 0)

  store-Sound :
      (outcome : RiskOutcome) (q : ℤ) (reason : RiskText) (checks : List (Check F))
      → (not (outcome_eq outcome RiskOutcome.rejected) ≡ true → Permitted q)
      → (not (outcome_eq outcome RiskOutcome.rejected) ≡ false → q ≡ pos 0)
      → Returned Sound (store py service r decision_id now outcome q reason checks db)
  unfolding store
  store-Sound outcome q reason checks permitted none_left =
      Returned-raise_if Sound (any_row (is_decision decision_id) db.risk_decisions)
        duplicate_decision _ db (λ _. (refl, permitted, none_left))

  reject-Sound :
      (reason : RiskText) (checks : List (Check F))
      → Returned Sound (reject py service r decision_id now reason checks db)
  unfolding reject RiskOutcome-discrete
  reject-Sound reason checks =
      store-Sound RiskOutcome.rejected (pos 0) reason checks (λ h. cc) (λ h. refl)

  -- A quantity within the bounds ends in a sound evaluation.
  conclude-Sound :
      (q : ℤ) (loss : F) (checks : List (Check F))
      → (py.le service.policy.max_daily_loss loss ≡ false → pos 0 <ℤ q → Permitted q)
      → Returned Sound (conclude py service r decision_id now q loss checks db)
  unfolding conclude RiskOutcome-discrete
  conclude-Sound q loss checks permitted =
      elim (Bool-cases (py.le service.policy.max_daily_loss loss)) [
        | inl over ↦ rw over (reject-Sound _ _)
        | inr under ↦ elim (Bool-cases (leb_ℤ q (pos 0))) [
          | inl empty ↦ rw (under, empty) (reject-Sound _ _)
          | inr some_left ↦
              let positive : pos 0 <ℤ q = ground arith in
              elim (Bool-cases (leb_ℤ q r.requested_quantity && leb_ℤ r.requested_quantity q)) [
                | inl all ↦
                    rw (under, some_left, all)
                      (store-Sound RiskOutcome.approved q all_passed checks
                        (λ h. permitted under positive) (λ h. cc))
                | inr less ↦
                    rw (under, some_left, less)
                      (store-Sound RiskOutcome.resized q _ checks (λ h. permitted under positive)
                        (λ h. cc))
              ]
        ]
      ]

  -- The quantity that is left once the three limits are applied.
  abbrev limited : ℤ → ℤ → ℤ
  limited notional loss_limit =
      min_ℤ (min_ℤ (min_ℤ r.requested_quantity service.policy.max_quantity) notional) loss_limit

  limited-bounds :
      (notional loss_limit : ℤ)
      → (limited notional loss_limit ≤ℤ r.requested_quantity)
        × (limited notional loss_limit ≤ℤ service.policy.max_quantity)
        × (limited notional loss_limit ≤ℤ notional)
        × (limited notional loss_limit ≤ℤ loss_limit)
  limited-bounds notional loss_limit =
      let by_quantity = min_ℤ r.requested_quantity service.policy.max_quantity in
      let first = min_ℤ-le r.requested_quantity service.policy.max_quantity in
      let second = min_ℤ-le by_quantity notional in
      let third = min_ℤ-le (min_ℤ by_quantity notional) loss_limit in
      (omega arith, omega arith, omega arith, omega arith)

  loss_bound-given :
      (q bound : ℤ)
      → loss_bound py service r decision_id now ≡ some bound
      → q ≤ℤ bound
      → pos 0 <ℤ q
      → (py.lt (zero_float py) (py.mul r.price service.policy.stop_loss_pct) ≡ true)
        × WithinQuotient q service.policy.max_loss_per_trade
            (py.mul r.price service.policy.stop_loss_pct)
  loss_bound-given q bound given within positive =
      elim (Bool-cases (py.lt (zero_float py) (py.mul r.price service.policy.stop_loss_pct))) [
        | inl loses ↦ (loses, (bound, rw loses at given, within))
        | inr even ↦
            let none_left : some (pos 0) ≡ some bound = rw even at given in
            let nothing : q ≤ℤ pos 0 = subst (λ b. q ≤ℤ b) (sym (some_eq none_left)) within in
            absurd (omega arith)
      ]

  permitted_symbol :
      (symbols : List String)
      → (any_row (λ s. true) symbols && not (any_row (str_eq r.symbol) symbols)) ≡ false
      → (symbols ≡ []) ⊎ (any_row (str_eq r.symbol) symbols ≡ true)
  permitted_symbol [] h = inl refl
  permitted_symbol (s ∷ symbols) h = elim (Bool-cases (any_row (str_eq r.symbol) (s ∷ symbols))) [
    | inl listed ↦ inr listed
    | inr other_symbols ↦ absurd (cc)
  ]

  size_entry-Sound :
      GatePassed
      → symbol_refused py service r decision_id now ≡ false
      → py.lt r.confidence service.policy.min_confidence ≡ false
      → Returned Sound (size_entry py service r decision_id now db)
  unfolding size_entry run_loss
  size_entry-Sound gate symbol sure =
      Returned-or_raise Sound (notional_bound py service r decision_id now) arithmetic_error _ db
        (λ notional by_price.
          Returned-or_raise Sound (loss_bound py service r decision_id now) arithmetic_error _ db
            (λ loss_limit by_loss.
              let (asked, most, order, loss) = limited-bounds notional loss_limit in
              conclude-Sound (limited notional loss_limit) (run_loss py r.run_id db) _
                (λ under positive.
                  let q = limited notional loss_limit in
                  let (loses, within) = loss_bound-given q loss_limit by_loss loss positive in
                  (
                    gate,
                    inr (
                      positive,
                      asked,
                      most,
                      (notional, by_price, order),
                      loses,
                      within,
                      permitted_symbol service.policy.allowed_symbols symbol,
                      sure,
                      under,
                    ),
                  ))))

  evaluate_entry-Sound :
      GatePassed → Returned Sound (evaluate_entry py service r decision_id now db)
  unfolding evaluate_entry
  evaluate_entry-Sound gate = elim (Bool-cases (leb_ℤ r.requested_quantity (pos 0))) [
    | inl empty ↦ rw empty (reject-Sound _ _)
    | inr asked ↦ elim (Bool-cases (symbol_refused py service r decision_id now)) [
      | inl refused ↦ rw (asked, refused) (reject-Sound _ _)
      | inr symbol ↦ elim (Bool-cases (py.lt r.confidence service.policy.min_confidence)) [
        | inl low ↦ rw (asked, symbol, low) (reject-Sound _ _)
        | inr sure ↦ rw (asked, symbol, sure) (size_entry-Sound gate symbol sure)
      ]
    ]
  ]

  evaluate-Sound : Returned Sound (evaluate py service r decision_id now db)
  unfolding evaluate RiskOutcome-discrete
  evaluate-Sound =
      elim (Bool-cases (mode_eq r.execution_mode live && not service.allow_live_trading)) [
        | inl off ↦ rw off (reject-Sound _ _)
        | inr on ↦ elim (Bool-cases (mode_allowed py service r decision_id now)) [
          | inr barred ↦ rw (on, barred) (reject-Sound _ _)
          | inl within ↦ elim (Bool-cases (str_eq r.signal_type "exit")) [
            | inl leaves ↦
                rw (on, within, leaves)
                  (store-Sound RiskOutcome.approved r.requested_quantity _ _
                    (λ h. ((on, within), inl (leaves, refl))) (λ h. cc))
            | inr enters ↦ rw (on, within, enters) (evaluate_entry-Sound (on, within))
          ]
        ]
      ]

  -- If `evaluate` returns an approval or a resizing, then the mode is one of the policy's and, if it
  -- is live, live trading is allowed; and the signal is an exit approved for what it asks, or the
  -- approved quantity is positive, at most what is asked, the policy's `max_quantity`,
  -- `max_order_value // price` and `max_loss_per_trade // (price * stop_loss_pct)`, where that product
  -- is positive, the symbol is one of the policy's or the policy names none, the confidence is not
  -- below `min_confidence`, and `max_daily_loss` is not at most the losses of the run's fills.
  pub evaluate_within_policy :
      {e : RiskEvaluation F} {db' : RiskDb F}
      → evaluate py service r decision_id now db ≡ (ok e, db')
      → e.approved ≡ true
      → Permitted e.approved_quantity
  evaluate_within_policy h given =
      let (filed, permitted, refused) = of_returned Sound h evaluate-Sound in permitted given

  -- A decision on record that says what an evaluation of the request says.
  abbrev pub Records : RiskDecision F → RiskEvaluation F → Type 0
  Records d e =
      (d.decision_id ≡ e.decision_id)
      × (d.run_id ≡ r.run_id)
      × (d.signal_id ≡ r.signal_id)
      × (d.approved ≡ e.approved)
      × (d.requested_quantity ≡ e.requested_quantity)
      × (d.approved_quantity ≡ e.approved_quantity)
      × (d.reason ≡ e.reason)
      × (d.outcome ≡ e.outcome)
      × (d.checks ≡ e.checks)
      × (d.risk_policy_version ≡ e.policy_version)
      × (d.created_at ≡ now)

  -- If `evaluate` returns, then it has added one decision, which has the identifier, the outcome,
  -- the quantities, the reason, the checks and the version of the policy that it returns and the
  -- run and the signal of the request, and has changed no other decision, no limit and no fill;
  -- where it approves nothing the approved quantity is 0.
  pub evaluate_is_filed :
      {e : RiskEvaluation F} {db' : RiskDb F}
      → evaluate py service r decision_id now db ≡ (ok e, db')
      → (d : RiskDecision F) × (db'.risk_decisions ≡ d ∷ db.risk_decisions)
        × Records d e
        × (db'.risk_limits ≡ db.risk_limits)
        × (db'.trade_fills ≡ db.trade_fills)
        × ((e.approved ≡ true) ⊎ (e.approved_quantity ≡ pos 0))
  evaluate_is_filed {e} h =
      let (filed, permitted, refused) = of_returned Sound h evaluate-Sound in
      (
        decision_row r now e,
        ap (λ t. t.risk_decisions) filed,
        (refl, refl, refl, refl, refl, refl, refl, refl, refl, refl, refl),
        ap (λ t. t.risk_limits) filed,
        ap (λ t. t.trade_fills) filed,
        elim (Bool-cases e.approved) [
          | inl yes_approved ↦ inl yes_approved
          | inr no_approval ↦ inr (refused no_approval)
        ],
      )
