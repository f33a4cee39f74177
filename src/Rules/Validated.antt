-- ===== src/Rules/Validated.antt =====
-- About `validate_parameters` followed by `generate`, as a run of a strategy calls them.
use mathlib.Core.List.{◌++◌}
use coversational_algo_tradi.Python.{Builtins}
use coversational_algo_tradi.Rules.Spec.{
  Candle, RiskControls, RiskSpec, RuleLibrary, Spec, controls, not_controls,
}
use coversational_algo_tradi.Rules.References.{Series, build_series}
use coversational_algo_tradi.Rules.Generate.{controls_of, generate}
use coversational_algo_tradi.Rules.Validate.{
  check_risk, check_rules, check_session, indicators_known, run_strategy, validate_rule_spec,
}
use coversational_algo_tradi.Rules.Outcomes.{of_some}
use coversational_algo_tradi.Rules.Covered.{Covers, append-nil, build_series-Covers}
use coversational_algo_tradi.Rules.Resolution.{IsComplete, check_rules-append, rules_pass-is_some}
use coversational_algo_tradi.Rules.Returns.{DividesByCounts, IsReady, run_from-is_some}
use coversational_algo_tradi.Prelude.{
  All, List, Option-cases, [], ap, arith, false, inl, inr, is_some, length, ltb, max, refl, some,
  suc, true, ℕ, ◌+◌, ◌<◌, ◌≡◌, ◌≤◌,
}
use coversational_algo_tradi.Rules.Evaluate.{rules_pass}
use coversational_algo_tradi.Rules.Built.{IsDirect, build_series-is_some}
use coversational_algo_tradi.Rules.Dividing.{Divides, by_count}

module _ {F : Type 0} (py : Builtins F) (lib : RuleLibrary F) where
  -- The facts behind a validation that finds nothing missing.
  record IsClean (spec : Spec F) : Type 0 where
    known : (indicators_known py lib spec).missing ≡ []
    risk : check_risk py lib spec.risk ≡ []
    session : check_session py lib spec.session ≡ []
    entry_rules : check_rules py lib (indicators_known py lib spec).refs spec.entry_rules ≡ []
    exit_rules : check_rules py lib (indicators_known py lib spec).refs spec.exit_rules ≡ []

  validated-IsClean : (spec : Spec F) → (validate_rule_spec py lib spec).missing ≡ [] → IsClean spec
  unfolding validate_rule_spec
  validated-IsClean spec valid =
      let k = indicators_known py lib spec in
      let (before_rules, rules) =
        append-nil (k.missing ++ check_risk py lib spec.risk ++ check_session py lib spec.session) _
          valid in
      let (before_session, session) =
        append-nil (k.missing ++ check_risk py lib spec.risk) _ before_rules in
      let (known, risk) = append-nil k.missing _ before_session in
      let (entry_rules, exit_rules) =
        check_rules-append py lib k.refs spec.entry_rules spec.exit_rules rules in
      record {
        known = known;
        risk = risk;
        session = session;
        entry_rules = entry_rules;
        exit_rules = exit_rules;
      }

  -- Where the validation of a specification finds nothing missing, the series of a run on any candles
  -- have been built, and every rule has an operator and two sides that are texts, floats or integers
  -- that can be converted to a float: the entry
  -- rules and the exit rules are evaluated at every candle without an exception.
  pub validated_rules_evaluate :
      (spec : Spec F) (candles : List (Candle F)) (index : ℕ) {refs : Series F}
      → (validate_rule_spec py lib spec).missing ≡ []
      → All (IsComplete lib) spec.entry_rules
      → All (IsComplete lib) spec.exit_rules
      → build_series py lib candles spec ≡ some refs
      → index < length candles
      → (is_some (rules_pass py lib refs spec.entry_rules index) ≡ true)
        × (is_some (rules_pass py lib refs spec.exit_rules index) ≡ true)
  validated_rules_evaluate spec candles index valid entries exits built h =
      let n = length candles in
      let known = (indicators_known py lib spec).refs in
      let clean = validated-IsClean spec valid in
      let covers =
        of_some (Covers n known) built (build_series-Covers py lib spec candles clean.known) in
      (
        rules_pass-is_some py lib n known _ covers index h spec.entry_rules entries
            clean.entry_rules,
        rules_pass-is_some py lib n known _ covers index h spec.exit_rules exits clean.exit_rules,
      )

  controls_of-clean :
      (r : RiskSpec F)
      → check_risk py lib r ≡ []
      → (c : RiskControls F) × (controls_of py lib r ≡ some c)
        × (check_risk py lib (controls c) ≡ [])
  unfolding check_risk
  controls_of-clean (controls c) clean = (c, refl, clean)
  controls_of-clean not_controls clean = absurd (omega (arith, ap length clean))

  generate-is_some :
      (spec : Spec F) (warmup : ℕ) (candles : List (Candle F)) {refs : Series F}
      → DividesByCounts py lib
      → IsClean spec
      → All (IsComplete lib) spec.entry_rules
      → All (IsComplete lib) spec.exit_rules
      → build_series py lib candles spec ≡ some refs
      → warmup + 2 ≤ length candles
      → is_some (generate py lib spec warmup candles) ≡ true
  unfolding generate
  generate-is_some spec warmup candles {refs} divides clean entries exits built h =
      let n = length candles in
      let known = (indicators_known py lib spec).refs in
      let enough : ltb (length candles) (warmup + 2) ≡ false = ground arith in
      let (risk, given, risk_clean) = controls_of-clean spec.risk clean.risk in
      let covers =
        of_some (Covers n known) built (build_series-Covers py lib spec candles clean.known) in
      let ready : IsReady py lib spec risk known = record {
        entries = entries;
        exits = exits;
        entries_clean = clean.entry_rules;
        exits_clean = clean.exit_rules;
        risk_clean = risk_clean;
        session_clean = clean.session;
        divides = divides;
      } in
      rw (enough, built, given)
        (run_from-is_some py lib spec risk n known refs covers ready (max 1 warmup) candles refl
          (omega arith) (omega arith))

  -- Where no division by a positive integer raises, the validation of a specification finds nothing
  -- missing, every rule has an operator and two sides that are texts, floats or integers that can
  -- be converted to a float, there are two candles more than the warm-up bars of the validation,
  -- and the series of the indicators have been built: the run of the strategy returns, and raises
  -- nothing.
  pub built_run_returns :
      (spec : Spec F) (candles : List (Candle F)) {refs : Series F}
      → DividesByCounts py lib
      → (validate_rule_spec py lib spec).missing ≡ []
      → All (IsComplete lib) spec.entry_rules
      → All (IsComplete lib) spec.exit_rules
      → (validate_rule_spec py lib spec).warmup_bars + 2 ≤ length candles
      → build_series py lib candles spec ≡ some refs
      → is_some (run_strategy py lib spec candles) ≡ true
  unfolding run_strategy
  built_run_returns spec candles divides valid entries exits h built = rw valid (
      generate-is_some spec (validate_rule_spec py lib spec).warmup_bars candles divides
        (validated-IsClean spec valid) entries exits built h)

  -- Where a division raises only for a divisor that is zero, which no positive number is, the
  -- validation of a specification finds nothing missing, its indicators are averages, rates of
  -- change and ranges (EMA, SMA, ROC, ATR, VWAP), every rule has an operator and two sides that are
  -- texts, floats or integers that can be converted to a float, and there are two candles more than
  -- the warm-up bars of the validation: the run of the strategy returns, and raises nothing.
  pub validated_run_returns :
      (spec : Spec F) (candles : List (Candle F))
      → Divides py lib
      → (validate_rule_spec py lib spec).missing ≡ []
      → All (IsDirect py lib) spec.indicators
      → All (IsComplete lib) spec.entry_rules
      → All (IsComplete lib) spec.exit_rules
      → (validate_rule_spec py lib spec).warmup_bars + 2 ≤ length candles
      → is_some (run_strategy py lib spec candles) ≡ true
  validated_run_returns spec candles laws valid direct entries exits h =
      let clean = validated-IsClean spec valid in
      let built = build_series-is_some py lib laws spec candles (omega arith) direct clean.known in
      elim (Option-cases (build_series py lib candles spec)) [
        | inl raised ↦
            let gone : is_some (build_series py lib candles spec) ≡ false = rw raised refl in cc
        | inr (refs, found) ↦
            built_run_returns spec candles {refs = refs}
              (λ a n. by_count py lib laws a (suc n) (omega arith)) valid entries exits h found
      ]
