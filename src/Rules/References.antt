-- ===== src/Rules/References.antt =====
-- The series that the rules of a specification refer to: `_build_reference_series` of
-- iimc_trading_platform/strategies/rule_spec.py. The dictionary of series lists the newest entry first.
use Prim.Native.String.{◌++◌}
use mathlib.Core.Option
use coversational_algo_tradi.Python.{Builtins}
use coversational_algo_tradi.Rules.Spec.{
  Candle, FeatureInputs, Indicator, RawFeature, RuleLibrary, Spec, and_then, feature, inputs,
  not_a_list, not_an_object,
}
use coversational_algo_tradi.Rules.Series.{atr, ema, roc, rolling_stddev, rsi, sma, vwap}
use coversational_algo_tradi.Prelude.{
  Bool, List, Option, String, [], any_row, get_or, if◌then◌else◌, map, negsuc, none, pos, some,
  str_eq, zero, ℕ, ℤ, ◌∷◌,
}

abbrev pub Series : Type 0 → Type 0
Series F = List (String × List F)

abbrev pub data_fields : List String
data_fields = "open" ∷ "high" ∷ "low" ∷ "close" ∷ "volume" ∷ "price" ∷ []

abbrev pub supported_indicators : List String
supported_indicators =
    "ATR" ∷ "BB_LOWER" ∷ "BB_MIDDLE" ∷ "BB_UPPER" ∷ "EMA" ∷ "MACD" ∷ "MACD_SIGNAL" ∷ "ROC" ∷ "RSI"
    ∷ "SMA" ∷ "VWAP" ∷ []

abbrev pub supported_operators : List String
supported_operators = ">" ∷ "<" ∷ ">=" ∷ "<=" ∷ "==" ∷ "crosses_above" ∷ "crosses_below" ∷ []

abbrev pub contains : List String → String → Bool
contains names x = any_row (str_eq x) names

-- `int(indicator.get(…) or default)`
abbrev pub period_or : ℕ → Option ℤ → ℤ
period_or default none = pos default
period_or default (some (pos zero)) = pos default
period_or default (some n) = n

module _ {F : Type 0} where
  abbrev pub lookup : String → List (String × F) → Option F
  lookup x [] = none
  lookup x ((y, v) ∷ rest) = if str_eq y x then some v else lookup x rest

module _ {F : Type 0} (py : Builtins F) (lib : RuleLibrary F) where
  -- `_reference_name`
  unfoldable pub reference_name : String → String
  reference_name reference =
      if contains data_fields (lib.lower reference) then lib.lower reference else reference

  abbrev pub type_of : Indicator F → String
  type_of i = py.upper (get_or i.indicator_type "")

  -- `_indicator_ref`
  abbrev pub default_reference : Indicator F → String
  default_reference i = elim i.period [
    | none ↦ type_of i
    | some n ↦ type_of i ++ "_" ++ lib.str_int n
  ]

  abbrev pub given_or : String → Option String → String
  given_or default none = default
  given_or default (some name) = if str_eq name "" then default else name

  unfoldable pub indicator_reference : Indicator F → String
  indicator_reference i = given_or (default_reference i) i.name

  abbrev pub source_of : Indicator F → String
  source_of i = reference_name (get_or i.source "close")

  unfoldable pub base_series : List (Candle F) → Series F
  base_series candles =
      ("open", map (λ c. get_or c.opening c.price) candles)
      ∷ ("high", map (λ c. get_or c.high c.price) candles)
      ∷ ("low", map (λ c. get_or c.low c.price) candles)
      ∷ ("close", map (λ c. get_or c.close c.price) candles)
      ∷ ("volume", map (λ c. get_or c.volume c.price) candles)
      ∷ ("price", map (λ c. c.price) candles)
      ∷ []

  abbrev pub feature_series : String → List (Candle F) → List F
  feature_series name candles = map (λ c. get_or (lookup name c.features) lib.not_a_number) candles

  abbrev pub with_feature : List (Candle F) → RawFeature F → Series F → Series F
  with_feature candles not_an_object refs = refs
  with_feature candles (feature f) refs = elim f.name [
    | none ↦ refs
    | some name ↦ (name, feature_series name candles) ∷ refs
  ]

  unfoldable pub with_features : List (Candle F) → List (RawFeature F) → Series F → Series F
  with_features candles [] refs = refs
  with_features candles (f ∷ fs) refs = with_features candles fs (with_feature candles f refs)

  -- A list that is no list is refused by the validation before.
  abbrev pub features_of : FeatureInputs F → List (RawFeature F)
  features_of not_a_list = []
  features_of (inputs fs) = fs

  -- A negative period is refused by the validation before.
  abbrev pub natural : ℤ → Option ℕ
  natural (pos n) = some n
  natural (negsuc n) = none

  abbrev pub zip_with : (F → F → F) → List F → List F → List F
  zip_with f [] ys = []
  zip_with f (x ∷ xs) [] = []
  zip_with f (x ∷ xs) (y ∷ ys) = f x y ∷ zip_with f xs ys

  -- `float(indicator.get("stddev") or 2.0)`
  abbrev pub multiplier : Indicator F → F
  multiplier i = elim i.stddev [
    | none ↦ py.literal (pos 2) 0
    | some m ↦ if py.is_zero m then py.literal (pos 2) 0 else m
  ]

  abbrev pub band : String → F → List F → List F → List F
  band kind m middle spread =
      if str_eq kind "BB_UPPER"
      then zip_with (λ mean d. py.add mean (py.mul m d)) middle spread
      else if str_eq kind "BB_LOWER"
      then zip_with (λ mean d. py.sub mean (py.mul m d)) middle spread
      else middle

  abbrev pub bollinger : String → Indicator F → List F → ℕ → Option (List F)
  bollinger kind i values period = and_then (sma py lib values period) λ middle.
      Option.map (λ spread. band kind (multiplier i) middle spread)
        (rolling_stddev py lib values period)

  abbrev pub macd_line : Indicator F → List F → Option (List F)
  macd_line i values = and_then (ema py lib values (period_or 12 i.fast_period)) λ fast.
      Option.map (λ slow. zip_with py.sub fast slow)
        (ema py lib values (period_or 26 i.slow_period))

  abbrev pub macd : String → Indicator F → List F → Option (List F)
  macd kind i values = and_then (macd_line i values) λ line.
      if str_eq kind "MACD" then some line else ema py lib line (period_or 9 i.signal_period)

  abbrev pub is_band : String → Bool
  is_band kind = contains ("BB_UPPER" ∷ "BB_MIDDLE" ∷ "BB_LOWER" ∷ []) kind

  abbrev pub is_macd : String → Bool
  is_macd kind = contains ("MACD" ∷ "MACD_SIGNAL" ∷ []) kind

  unfoldable pub indicator_series :
      List (Candle F) → Indicator F → String → List F → ℕ → Option (List F)
  unfolding ema sma rsi roc atr vwap rolling_stddev
  indicator_series candles i kind values period =
      if str_eq kind "EMA"
      then ema py lib values (pos period)
      else if str_eq kind "SMA"
      then sma py lib values period
      else if str_eq kind "RSI"
      then rsi py lib values period
      else if str_eq kind "ROC"
      then roc py lib values period
      else if str_eq kind "ATR"
      then atr py lib candles period
      else if str_eq kind "VWAP"
      then vwap py lib candles
      else if is_band kind
      then bollinger kind i values period
      else if is_macd kind
      then macd kind i values
      else none

  unfoldable pub build_indicator : List (Candle F) → Indicator F → Series F → Option (Series F)
  unfolding indicator_series reference_name indicator_reference
  build_indicator candles i refs = and_then (lookup (source_of i) refs) λ values.
      and_then (natural (period_or 1 i.period)) λ period.
        Option.map (λ vs. (indicator_reference i, vs) ∷ refs)
          (indicator_series candles i (type_of i) values period)

  unfoldable pub build_indicators :
      List (Candle F) → List (Indicator F) → Series F → Option (Series F)
  unfolding build_indicator
  build_indicators candles [] refs = some refs
  build_indicators candles (i ∷ is) refs =
      and_then (build_indicator candles i refs) λ refs'. build_indicators candles is refs'

  -- `_build_reference_series`
  unfoldable pub build_series : List (Candle F) → Spec F → Option (Series F)
  unfolding base_series with_features build_indicators
  build_series candles spec =
      build_indicators candles spec.indicators
        (with_features candles (features_of spec.feature_inputs) (base_series candles))
