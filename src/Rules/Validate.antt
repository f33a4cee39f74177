-- ===== src/Rules/Validate.antt =====
-- `validate_rule_spec` of iimc_trading_platform/strategies/rule_spec.py. Every check gives the
-- entries that it adds to `missing`.
use mathlib.Core.List.{◌++◌}
use coversational_algo_tradi.Python.{Builtins, zero_float}
use coversational_algo_tradi.Rules.Spec.{
  Candle, Control, FeatureInput, FeatureInputs, Indicator, Missing, Operand, RawFeature, RawSignal,
  RiskSpec, Rule, RuleLibrary, SessionSpec, SizeControl, Spec, bad_feature_alignment,
  bad_feature_dataset, bad_feature_freshness, bad_feature_name, bad_feature_source,
  bad_macd_periods, bad_period, bad_position_side, bad_position_size, bad_session, bad_stop_loss,
  bad_take_profit, bad_trailing_stop, clashing_feature, clashing_indicator, controls, feature,
  feature_input_not_an_object, feature_inputs_not_a_list, fraction, inputs, malformed, no_control,
  no_entry_rule, no_exit_rule, no_session, no_size, not_a_list, not_an_object, not_controls,
  risk_not_an_object, text, unfit, unknown_indicator, unknown_operator, unknown_reference,
  unknown_source, unreadable, whole, window,
}
use coversational_algo_tradi.Rules.Series.{one}
use coversational_algo_tradi.Rules.References.{
  contains, data_fields, features_of, indicator_reference, is_macd, period_or, reference_name,
  source_of, supported_indicators, supported_operators, type_of,
}
use coversational_algo_tradi.Rules.Generate.{generate, side_of}
use coversational_algo_tradi.Prelude.{
  Bool, List, Option, String, [], false, get_or, if◌then◌else◌, leb_ℤ, ltb_ℤ, max, negsuc, none,
  not, pos, some, str_eq, true, ℕ, ℤ, ◌&&◌, ◌+ℤ◌, ◌||◌, ◌∷◌,
}

-- An entry where a test fails.
abbrev pub unless : Bool → Missing → List Missing
unless true m = []
unless false m = m ∷ []

abbrev pub is_text_with : (String → Bool) → Option String → Bool
is_text_with test none = false
is_text_with test (some t) = test t

-- What the validation knows when it comes to the rules.
pub record Known : Type 0 where
  pub missing : List Missing
  pub refs : List String
  pub seen : List String
  pub max_period : ℕ

pub record Validation : Type 0 where
  pub missing : List Missing
  pub refs : List String
  pub warmup_bars : ℕ

module _ {F : Type 0} (py : Builtins F) (lib : RuleLibrary F) where
  abbrev pub alignment_of : FeatureInput F → String
  alignment_of f = lib.lower (get_or f.alignment "asof")

  -- `normalized_age`, whose finite values are compared with 0
  abbrev pub is_fresh : Option F → Bool
  is_fresh none = false
  is_fresh (some age) = lib.is_finite age && not (py.le age (zero_float py))

  abbrev pub check_feature : RawFeature F → List Missing
  check_feature not_an_object = feature_input_not_an_object ∷ []
  check_feature (feature f) =
      unless (is_text_with lib.is_identifier f.name) bad_feature_name
      ++ unless (is_text_with (λ d. not (str_eq (py.strip d) "")) f.dataset_id) bad_feature_dataset
      ++ unless (is_text_with lib.is_identifier f.feature_name) bad_feature_source
      ++ unless (str_eq (alignment_of f) "asof") (bad_feature_alignment (alignment_of f))
      ++ unless (is_fresh f.max_age_hours) bad_feature_freshness

  -- `_feature_inputs`
  unfoldable pub check_features : List (RawFeature F) → List Missing
  check_features [] = []
  check_features (f ∷ fs) = check_feature f ++ check_features fs

  abbrev pub check_feature_list : FeatureInputs F → List Missing
  check_feature_list not_a_list = feature_inputs_not_a_list ∷ []
  check_feature_list (inputs fs) = check_features fs

  abbrev pub feature_name_of : RawFeature F → Option String
  feature_name_of not_an_object = none
  feature_name_of (feature f) = f.name

  abbrev pub is_taken : String → List String → Bool
  is_taken name seen = contains seen name || contains data_fields name

  abbrev pub add_feature : Option String → Known → Known
  add_feature none k = k
  add_feature (some name) k =
      if is_taken name k.seen
      then record k { missing = k.missing ++ clashing_feature name ∷ [] }
      else record k { refs = name ∷ k.refs; seen = name ∷ k.seen }

  -- The loop over the feature inputs that gives the references
  unfoldable pub add_features : List (RawFeature F) → Known → Known
  add_features [] k = k
  add_features (f ∷ fs) k = add_features fs (add_feature (feature_name_of f) k)

  abbrev pub check_side : Spec F → List Missing
  check_side spec =
      unless (contains ("long" ∷ "short" ∷ []) (side_of py lib spec))
        (bad_position_side (side_of py lib spec))

  abbrev pub is_given : List (Rule F) → Bool
  is_given [] = false
  is_given (r ∷ rs) = true

  abbrev pub fast_of : Indicator F → ℤ
  fast_of i = period_or 12 i.fast_period

  abbrev pub slow_of : Indicator F → ℤ
  slow_of i = period_or 26 i.slow_period

  abbrev pub signal_of : Indicator F → ℤ
  signal_of i = period_or 9 i.signal_period

  abbrev pub check_indicator : Indicator F → Known → List Missing
  check_indicator i k =
      unless (contains supported_indicators (type_of py lib i))
        (unknown_indicator (type_of py lib i))
      ++ unless (contains k.refs (source_of py lib i)) (unknown_source (source_of py lib i))
      ++ unless
          (not (contains supported_indicators (type_of py lib i))
            || leb_ℤ (pos 1) (period_or 1 i.period))
          (bad_period (period_or 1 i.period))
      ++ unless (not (is_macd py lib (type_of py lib i)) || ltb_ℤ (fast_of i) (slow_of i))
          (bad_macd_periods (fast_of i) (slow_of i))
      ++ unless (not (contains k.seen (indicator_reference py lib i)))
          (clashing_indicator (indicator_reference py lib i))

  -- `max(max_period, …)`, where `max_period` is a natural number from the start
  abbrev pub longest : ℕ → ℤ → ℕ
  longest n (pos m) = max n m
  longest n (negsuc m) = n

  abbrev pub lookback : Indicator F → ℤ
  lookback i =
      if is_macd py lib (type_of py lib i) then slow_of i +ℤ signal_of i else period_or 1 i.period

  unfoldable pub add_indicator : Indicator F → Known → Known
  unfolding indicator_reference reference_name ◌+ℤ◌
  add_indicator i k = record {
    missing = k.missing ++ check_indicator i k;
    refs = indicator_reference py lib i ∷ k.refs;
    seen = indicator_reference py lib i ∷ k.seen;
    max_period = longest k.max_period (lookback i);
  }

  unfoldable pub add_indicators : List (Indicator F) → Known → Known
  unfolding add_indicator
  add_indicators [] k = k
  add_indicators (i ∷ is) k = add_indicators is (add_indicator i k)

  -- `low < numeric <= high`, of a finite number
  abbrev pub check_control : Control F → F → Missing → List Missing
  check_control no_control high m = []
  check_control unreadable high m = m ∷ []
  check_control (fraction x) high m =
      unless (lib.is_finite x && (py.lt (zero_float py) x && py.le x high)) m

  abbrev pub check_size : SizeControl → List Missing
  check_size no_size = []
  check_size unfit = bad_position_size ∷ []
  check_size (whole n) = unless (leb_ℤ (pos 1) n) bad_position_size

  -- `_validate_risk`
  unfoldable pub check_risk : RiskSpec F → List Missing
  check_risk not_controls = risk_not_an_object ∷ []
  check_risk (controls c) =
      check_control c.stop_loss_pct (one py lib) bad_stop_loss
      ++ check_control c.take_profit_pct (py.literal (pos 10) 0) bad_take_profit
      ++ check_control c.trailing_stop_pct (one py lib) bad_trailing_stop
      ++ check_size c.max_position_size

  -- `_validate_session`
  unfoldable pub check_session : SessionSpec → List Missing
  check_session no_session = []
  check_session malformed = bad_session ∷ []
  check_session (window start end) =
      unless (lib.is_clock start && (lib.is_clock end && lib.text_lt start end)) bad_session

  abbrev pub check_operand : List String → Operand F → List Missing
  check_operand refs (text t) = elim (lib.float_text t) [
    | some x ↦ []
    | none ↦ unless (contains refs (reference_name py lib t)) (unknown_reference t)
  ]
  check_operand refs operand = []

  abbrev pub operator_text : Rule F → String
  operator_text r = lib.lower (get_or r.operator "")

  unfoldable pub check_rule : List String → Rule F → List Missing
  unfolding reference_name
  check_rule refs r =
      unless (contains supported_operators (operator_text r)) (unknown_operator (operator_text r))
      ++ check_operand refs r.left
      ++ check_operand refs r.right

  unfoldable pub check_rules : List String → List (Rule F) → List Missing
  unfolding check_rule
  check_rules refs [] = []
  check_rules refs (r ∷ rs) = check_rule refs r ++ check_rules refs rs

  abbrev pub at_first : Known
  at_first = record { missing = []; refs = data_fields; seen = []; max_period = 1 }

  abbrev pub with_missing : List Missing → Known → Known
  with_missing ms k = record k { missing = k.missing ++ ms }

  -- The knowledge from the features, and from the indicators after them.
  unfoldable pub features_known : Spec F → Known
  unfolding add_features check_features
  features_known spec =
      add_features (features_of py lib spec.feature_inputs)
        (with_missing (check_feature_list spec.feature_inputs) at_first)

  unfoldable pub indicators_known : Spec F → Known
  unfolding features_known add_indicators
  indicators_known spec = add_indicators spec.indicators (
      with_missing
        (check_side spec
          ++ unless (is_given spec.entry_rules) no_entry_rule
          ++ unless (is_given spec.exit_rules) no_exit_rule)
        (features_known spec))

  unfoldable pub validate_rule_spec : Spec F → Validation
  unfolding indicators_known check_risk check_session check_rules
  validate_rule_spec spec =
      let k = indicators_known spec in
      record {
        missing =
            k.missing
            ++ check_risk spec.risk
            ++ check_session spec.session
            ++ check_rules k.refs (spec.entry_rules ++ spec.exit_rules);
        refs = k.refs;
        warmup_bars = k.max_period;
      }

  -- `validate_parameters` raises where anything is missing.
  abbrev pub when_valid : List Missing → Option (List (RawSignal F)) → Option (List (RawSignal F))
  when_valid [] run = run
  when_valid (m ∷ ms) run = none

  -- `validate_parameters` and then `generate`, as a run of the strategy calls them.
  unfoldable pub run_strategy : Spec F → List (Candle F) → Option (List (RawSignal F))
  unfolding validate_rule_spec generate
  run_strategy spec candles =
      let v = validate_rule_spec spec in
      when_valid v.missing (generate py lib spec v.warmup_bars candles)
