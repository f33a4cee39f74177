-- ===== src/Rules/Spec.antt =====
-- The data of iimc_trading_platform/strategies/rule_spec.py: candles, rule specifications, signals.
-- A specification is JSON that anyone may write; where the code converts a value by `str`, the model
-- holds the text.
use coversational_algo_tradi.Prelude.{Bool, List, Option, String, none, some, ℕ, ℤ}

-- What the code uses of Python beside the arithmetic. `float_text` is `float` on a text and
-- `float_int` on an `int`, `none` where they raise (an `int` may be too large); `square` is `x **
-- 2`, which raises on an overflow, `sqrt` is `x ** 0.5`; `sum` is Python's; `is_identifier` and
-- `is_clock` are the two regular expressions; `date_of` and `clock_of` are the date and the HH:MM
-- of a timestamp that has one.
pub record RuleLibrary (F : Type 0) : Type 0 where
  pub float_text : String → Option F
  pub float_int : ℤ → Option F
  pub lower : String → String
  pub str_int : ℤ → String
  pub not_a_number : F
  pub infinity : F
  pub is_infinity : F → Bool
  pub is_finite : F → Bool
  pub round_6 : F → F
  pub square : F → Option F
  pub sqrt : F → F
  pub sum : List F → F
  pub is_identifier : String → Bool
  pub is_clock : String → Bool
  pub text_lt : String → String → Bool
  pub text_le : String → String → Bool
  pub date_of : ℕ → Option ℕ
  pub clock_of : ℕ → Option String

pub record Candle (F : Type 0) : Type 0 where
  pub timestamp : ℕ
  pub symbol : String
  pub price : F
  pub opening : Option F
  pub high : Option F
  pub low : Option F
  pub close : Option F
  pub volume : Option F
  pub features : List (String × F)

-- A side of a rule: a `float`, an `int`, a text, a missing key, or another value with its `str`.
pub data Operand (F : Type 0) : Type 0 where
  number : F → Operand F
  integer : ℤ → Operand F
  text : String → Operand F
  absent : Operand F
  other : String → Operand F

pub record Rule (F : Type 0) : Type 0 where
  pub left : Operand F
  pub operator : Option String
  pub right : Operand F
  pub joiner : Option String

pub record Indicator (F : Type 0) : Type 0 where
  pub name : Option String
  pub indicator_type : Option String
  pub source : Option String
  pub period : Option ℤ
  pub fast_period : Option ℤ
  pub slow_period : Option ℤ
  pub signal_period : Option ℤ
  pub stddev : Option F

-- An entry of `feature_inputs`; `none` where a value is not of the type that the code asks for.
pub record FeatureInput (F : Type 0) : Type 0 where
  pub name : Option String
  pub dataset_id : Option String
  pub feature_name : Option String
  pub alignment : Option String
  pub max_age_hours : Option F

pub data RawFeature (F : Type 0) : Type 0 where
  not_an_object : RawFeature F
  feature : FeatureInput F → RawFeature F

pub data FeatureInputs (F : Type 0) : Type 0 where
  not_a_list : FeatureInputs F
  inputs : List (RawFeature F) → FeatureInputs F

-- A risk control: nothing, what `float` makes of it, or what it refuses by a TypeError or a ValueError.
-- An integer too large for a float, on which the validation itself raises, is not a value here.
pub data Control (F : Type 0) : Type 0 where
  no_control : Control F
  fraction : F → Control F
  unreadable : Control F

-- `max_position_size`: nothing, a whole number, or anything else but an infinity or a NaN, on which the
-- validation itself raises.
pub data SizeControl : Type 0 where
  no_size : SizeControl
  whole : ℤ → SizeControl
  unfit : SizeControl

pub record RiskControls (F : Type 0) : Type 0 where
  pub stop_loss_pct : Control F
  pub take_profit_pct : Control F
  pub trailing_stop_pct : Control F
  pub max_position_size : SizeControl

pub data RiskSpec (F : Type 0) : Type 0 where
  controls : RiskControls F → RiskSpec F
  not_controls : RiskSpec F

-- `session`: nothing, a start and an end that are texts, or anything else.
pub data SessionSpec : Type 0 where
  no_session : SessionSpec
  window : String → String → SessionSpec
  malformed : SessionSpec

pub record Spec (F : Type 0) : Type 0 where
  pub feature_inputs : FeatureInputs F
  pub indicators : List (Indicator F)
  pub entry_rules : List (Rule F)
  pub exit_rules : List (Rule F)
  pub risk : RiskSpec F
  pub session : SessionSpec
  pub position_side : Option String

pub data SignalType : Type 0 where
  entry exit : SignalType

pub data SignalDirection : Type 0 where
  long short leave : SignalDirection

pub data SignalReason : Type 0 where
  entry_conditions stop_loss take_profit trailing_stop exit_conditions square_off : SignalReason

pub record RawSignal (F : Type 0) : Type 0 where
  pub timestamp : ℕ
  pub symbol : String
  pub signal_type : SignalType
  pub direction : SignalDirection
  pub price : F
  pub confidence : F
  pub reason : SignalReason
  pub features : List (String × F)

-- What is wrong with a specification, with the value that the entry of `missing` shows.
pub data Missing : Type 0 where
  feature_inputs_not_a_list feature_input_not_an_object : Missing
  bad_feature_name bad_feature_dataset bad_feature_source bad_feature_freshness : Missing
  bad_feature_alignment : String → Missing
  clashing_feature : String → Missing
  bad_position_side : String → Missing
  no_entry_rule no_exit_rule : Missing
  unknown_indicator unknown_source clashing_indicator : String → Missing
  bad_period : ℤ → Missing
  bad_macd_periods : ℤ → ℤ → Missing
  risk_not_an_object bad_stop_loss bad_take_profit bad_trailing_stop bad_position_size : Missing
  bad_session : Missing
  unknown_operator unknown_reference : String → Missing

-- Fallible steps: `none` stands for an exception.
abbrev pub and_then {ℓ κ} : {A : Type ℓ} {B : Type κ} → Option A → (A → Option B) → Option B
and_then none f = none
and_then (some a) f = f a
