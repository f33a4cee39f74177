-- ===== src/Rules/Examples.antt =====
-- Runs of a rule strategy on concrete inputs, with exact arithmetic on integers: a purchase where
-- the price is above its moving average, and an exit below a price.
use coversational_algo_tradi.Samples.{integers}
use coversational_algo_tradi.Rules.Spec.{
  Candle, Indicator, RawSignal, Rule, RuleLibrary, Spec, controls, fraction, inputs, integer,
  no_control, no_session, text, whole,
}
use coversational_algo_tradi.Rules.Series.{series, sma}
use coversational_algo_tradi.Rules.References.{
  Series, base_series, build_indicator, build_indicators, build_series, indicator_reference,
  indicator_series, reference_name, with_features,
}
use coversational_algo_tradi.Rules.Evaluate.{
  eval_rule, rule_confidence, rule_features, rules_pass, value_with,
}
use coversational_algo_tradi.Rules.Generate.{control_hit, generate, in_session, signals_from, turn}
use coversational_algo_tradi.Rules.Validate.{
  add_features, add_indicator, add_indicators, check_features, check_risk, check_rule, check_rules,
  check_session, features_known, indicators_known, run_strategy, validate_rule_spec,
}
use coversational_algo_tradi.Rules.Alternation.{Closes, signals_alternate}
use coversational_algo_tradi.Rules.Resolution.{IsComplete}
use coversational_algo_tradi.Rules.Validated.{
  built_run_returns, validated_rules_evaluate, validated_run_returns,
}
use coversational_algo_tradi.Prelude.{
  List, Option, [], arith, false, get_or, is_some, length, negsuc, none, pos, refl, some, suc, true,
  zero, ℕ, ℤ, ◌+ℤ◌, ◌-ℤ◌, ◌∷◌, ◌≡◌,
}
use coversational_algo_tradi.Rules.Dividing.{Divides}

abbrev total : List ℤ → ℤ
total [] = pos 0
total (x ∷ xs) = x +ℤ total xs

abbrev library : RuleLibrary ℤ
library = record {
  float_text = λ t. none;
  float_int = some;
  lower = λ t. t;
  str_int = λ n. "n";
  not_a_number = pos 0;
  infinity = pos 1000000;
  is_infinity = λ x. false;
  is_finite = λ x. true;
  round_6 = λ x. x;
  square = λ x. some x;
  sqrt = λ x. x;
  sum = total;
  is_identifier = λ t. true;
  is_clock = λ t. true;
  text_lt = λ a b. true;
  text_le = λ a b. true;
  date_of = λ t. none;
  clock_of = λ t. none;
}

abbrev average : Indicator ℤ
average = record {
  name = some "average";
  indicator_type = some "SMA";
  source = none;
  period = some (pos 2);
  fast_period = none;
  slow_period = none;
  signal_period = none;
  stddev = none;
}

abbrev above_average : Rule ℤ
above_average = record {
  left = text "close";
  operator = some ">";
  right = text "average";
  joiner = none;
}

abbrev below_price : Rule ℤ
below_price = record {
  left = text "close";
  operator = some "<";
  right = integer (pos 100);
  joiner = none;
}

abbrev spec : Spec ℤ
spec = record {
  feature_inputs = inputs [];
  indicators = average ∷ [];
  entry_rules = above_average ∷ [];
  exit_rules = below_price ∷ [];
  risk = controls (record {
    stop_loss_pct = fraction (pos 1);
    take_profit_pct = no_control;
    trailing_stop_pct = no_control;
    max_position_size = whole (pos 5);
  });
  session = no_session;
  position_side = none;
}

abbrev candle : ℕ → ℤ → Candle ℤ
candle timestamp price = record {
  timestamp = timestamp;
  symbol = "SBIN";
  price = price;
  opening = none;
  high = none;
  low = none;
  close = some price;
  volume = none;
  features = [];
}

abbrev candles : List (Candle ℤ)
candles =
    candle 1 (pos 100)
    ∷ candle 2 (pos 100)
    ∷ candle 3 (pos 110)
    ∷ candle 4 (pos 105)
    ∷ candle 5 (pos 90)
    ∷ []

abbrev prices : List ℤ
prices = pos 100 ∷ pos 100 ∷ pos 110 ∷ pos 105 ∷ pos 90 ∷ []

abbrev references : Series ℤ
references =
    ("average", pos 100 ∷ pos 100 ∷ pos 105 ∷ pos 107 ∷ pos 97 ∷ [])
    ∷ ("open", prices)
    ∷ ("high", prices)
    ∷ ("low", prices)
    ∷ ("close", prices)
    ∷ ("volume", prices)
    ∷ ("price", prices)
    ∷ []

abbrev run : Option (List (RawSignal ℤ))
run = generate integers library spec 2 candles

abbrev signals : List (RawSignal ℤ)
signals = get_or run []

two_signals : length signals ≡ 2
unfolding generate build_series base_series with_features build_indicators build_indicator
    indicator_series reference_name indicator_reference sma series signals_from turn in_session
    control_hit rules_pass eval_rule value_with rule_confidence rule_features ◌-ℤ◌ ◌+ℤ◌
two_signals = refl

signals_alternate_example : Closes false signals
unfolding generate build_series base_series with_features build_indicators build_indicator
    indicator_series reference_name indicator_reference sma series signals_from turn in_session
    control_hit rules_pass eval_rule value_with rule_confidence rule_features ◌-ℤ◌ ◌+ℤ◌
signals_alternate_example =
    signals_alternate integers library spec 2 candles {signals = signals} refl

above_average-IsComplete : IsComplete library above_average
above_average-IsComplete = record { left = tt; right = tt; operator = refl }

below_price-IsComplete : IsComplete library below_price
below_price-IsComplete = record { left = tt; right = refl; operator = refl }

is_valid : (validate_rule_spec integers library spec).missing ≡ []
unfolding validate_rule_spec indicators_known features_known add_features check_features
    add_indicators add_indicator indicator_reference reference_name check_risk check_session
    check_rules check_rule
is_valid = refl

is_built : build_series integers library candles spec ≡ some references
unfolding build_series base_series with_features build_indicators build_indicator indicator_series
    reference_name indicator_reference sma series ◌-ℤ◌ ◌+ℤ◌
is_built = refl

warms_up : (validate_rule_spec integers library spec).warmup_bars ≡ 2
unfolding validate_rule_spec indicators_known features_known add_features add_indicators
    add_indicator
warms_up = refl

validated_rules_evaluate_example :
    (is_some (rules_pass integers library references (above_average ∷ []) 3) ≡ true)
    × (is_some (rules_pass integers library references (below_price ∷ []) 3) ≡ true)
validated_rules_evaluate_example =
    validated_rules_evaluate integers library spec candles 3 {refs = references} is_valid
      (above_average-IsComplete, tt) (below_price-IsComplete, tt) is_built (omega arith)

built_run_returns_example : is_some (run_strategy integers library spec candles) ≡ true
built_run_returns_example =
    built_run_returns integers library spec candles {refs = references} (λ a n. refl) is_valid
      (above_average-IsComplete, tt) (below_price-IsComplete, tt) (omega (arith, warms_up)) is_built

-- Exact arithmetic divides by every number that is not zero.
integers-Divides : Divides integers library
integers-Divides = record {
  by_nonzero = divides;
  count_nonzero = λ n. refl;
  positive_nonzero = positive;
}
  where
    divides : (a b : ℤ) → integers.is_zero b ≡ false → is_some (integers.div a b) ≡ true
    divides a (pos zero) h = cc
    divides a (pos (suc b)) h = refl
    divides a (negsuc b) h = refl

    positive : (b : ℤ) → integers.lt (pos 0) b ≡ true → integers.is_zero b ≡ false
    positive (pos zero) h = absurd (ground arith)
    positive (pos (suc b)) h = refl
    positive (negsuc b) h = refl

validated_run_returns_example : is_some (run_strategy integers library spec candles) ≡ true
validated_run_returns_example =
    validated_run_returns integers library spec candles integers-Divides is_valid (refl, tt)
      (above_average-IsComplete, tt) (below_price-IsComplete, tt) (omega (arith, warms_up))
