-- ===== src/Rules/Built.antt =====
-- About the series of a run whose indicators are averages, rates of change and ranges: that they
-- are built.
use coversational_algo_tradi.Python.{Builtins}
use coversational_algo_tradi.Rules.Spec.{
  Candle, Indicator, RuleLibrary, Spec, bad_macd_periods, bad_period, clashing_indicator,
  unknown_source,
}
use coversational_algo_tradi.Rules.References.{
  Series, build_indicator, build_indicators, build_series, contains, indicator_reference,
  indicator_series, is_macd, lookup, natural, period_or, source_of, supported_indicators, type_of,
}
use coversational_algo_tradi.Rules.Validate.{
  Known, add_indicator, add_indicators, check_indicator, fast_of, indicators_known, slow_of, unless,
}
use coversational_algo_tradi.Rules.Outcomes.{of_some}
use coversational_algo_tradi.Rules.Lengths.{HasLength}
use coversational_algo_tradi.Rules.Covered.{
  Covers, add_indicators-nil, append-nil, before_indicators, build_indicator-Covers,
  feature_references, features-Covers, lookup-HasLength, lookup-contains, period_or-positive,
  unless-nil,
}
use coversational_algo_tradi.Rules.Resolution.{is_some-and_then, is_some-map}
use coversational_algo_tradi.Rules.Dividing.{
  Divides, atr-is_some, ema-is_some, roc-is_some, sma-is_some, vwap-is_some,
}
use coversational_algo_tradi.Prelude.{
  All, Bool-cases, List, String, [], arith, eq_iff, false, inl, inr, is_some, leb_ℤ, length, ltb_ℤ,
  negsuc, not, pos, refl, str_eq, subst, sym, true, ℕ, ℤ, ◌||◌, ◌∷◌, ◌≡◌, ◌≤◌,
}

-- The kinds of the indicators that are averages, rates of change and ranges.
abbrev pub direct_kinds : List String
direct_kinds = "EMA" ∷ "SMA" ∷ "ROC" ∷ "ATR" ∷ "VWAP" ∷ []

module _ {F : Type 0} (py : Builtins F) (lib : RuleLibrary F) where
  abbrev pub IsDirect : Indicator F → Type 0
  IsDirect i = contains direct_kinds (type_of py lib i) ≡ true

module _ {F : Type 0} (py : Builtins F) (lib : RuleLibrary F) (laws : Divides py lib) where
  -- What holds of each of the kinds holds of one that is among them.
  direct_kind :
      (P : String → Type 0) (kind : String)
      → P "EMA"
      → P "SMA"
      → P "ROC"
      → P "ATR"
      → P "VWAP"
      → contains direct_kinds kind ≡ true
      → P kind
  direct_kind P kind ema_case sma_case roc_case atr_case vwap_case h = one_of "EMA" ema_case (λ e1.
      one_of "SMA" sma_case (λ e2. one_of "ROC" roc_case (λ e3.
        one_of "ATR" atr_case (λ e4. one_of "VWAP" vwap_case (λ e5. absurd (ground arith))))))
    where
      one_of : (name : String) → P name → (str_eq kind name ≡ false → P kind) → P kind
      one_of name case rest = elim (Bool-cases (str_eq kind name)) [
        | inl same ↦ subst P (sym ((eq_iff kind name).0 same)) case
        | inr apart ↦ rest apart
      ]

  indicator_series-is_some :
      (candles : List (Candle F)) (i : Indicator F) (kind : String) (values : List F) (period : ℕ)
      → 1 ≤ length candles
      → 1 ≤ length values
      → 1 ≤ period
      → contains direct_kinds kind ≡ true
      → is_some (indicator_series py lib candles i kind values period) ≡ true
  unfolding indicator_series
  indicator_series-is_some candles i kind values period h h' k =
      direct_kind (λ k. is_some (indicator_series py lib candles i k values period) ≡ true) kind
        (ema-is_some py lib laws values period h') (sma-is_some py lib laws values period h' k)
        (roc-is_some py lib laws values period) (atr-is_some py lib laws candles period h k)
        (vwap-is_some py lib laws candles)

  direct-supported :
      (kind : String)
      → contains direct_kinds kind ≡ true
      → contains supported_indicators kind ≡ true
  direct-supported kind =
      direct_kind (λ k. contains supported_indicators k ≡ true) kind refl refl refl refl refl

  natural-is_some : (p : ℤ) → leb_ℤ (pos 1) p ≡ true → is_some (natural py lib p) ≡ true
  natural-is_some (pos n) h = refl
  natural-is_some (negsuc n) h = absurd (ground arith)

  build_indicator-is_some :
      (candles : List (Candle F)) (i : Indicator F) (k : Known) (refs : Series F)
      → 1 ≤ length candles
      → Covers (length candles) k.refs refs
      → IsDirect py lib i
      → check_indicator py lib i k ≡ []
      → is_some (build_indicator py lib candles i refs) ≡ true
  unfolding build_indicator
  build_indicator-is_some candles i k refs h covers direct clean =
      let n = length candles in
      let kind = type_of py lib i in
      let period = period_or 1 i.period in
      let (four, clash) =
        append-nil _
          (unless (not (contains k.seen (indicator_reference py lib i)))
            (clashing_indicator (indicator_reference py lib i)))
          clean in
      let (three, macd_periods) =
        append-nil _
          (unless (not (is_macd py lib kind) || ltb_ℤ (fast_of py lib i) (slow_of py lib i))
            (bad_macd_periods (fast_of py lib i) (slow_of py lib i)))
          four in
      let (two, periods) =
        append-nil _
          (unless (not (contains supported_indicators kind) || leb_ℤ (pos 1) period)
            (bad_period period))
          three in
      let (one_check, sources) =
        append-nil _
          (unless (contains k.refs (source_of py lib i)) (unknown_source (source_of py lib i)))
          two in
      let known_source =
        unless-nil (contains k.refs (source_of py lib i)) (unknown_source (source_of py lib i))
          sources in
      let positive : leb_ℤ (pos 1) period ≡ true = rw (direct-supported kind direct) at (
        unless-nil (not (contains supported_indicators kind) || leb_ℤ (pos 1) period)
          (bad_period period) periods) in
      is_some-and_then (lookup (source_of py lib i) refs) _
        (lookup-contains (source_of py lib i) refs (rw covers.listed known_source))
        (λ values found.
          let size =
            of_some (HasLength n) found
              (lookup-HasLength (source_of py lib i) n refs covers.aligned) in
          is_some-and_then (natural py lib period) _ (natural-is_some period positive) (λ p given.
            let p_positive = of_some (λ m. 1 ≤ m) given (period_or-positive py lib i.period) in
            is_some-map (indicator_series py lib candles i kind values p) _
              (indicator_series-is_some candles i kind values p h (omega arith) p_positive direct)))

  build_indicators-is_some :
      (candles : List (Candle F)) (is : List (Indicator F)) (k : Known) (refs : Series F)
      → 1 ≤ length candles
      → Covers (length candles) k.refs refs
      → All (IsDirect py lib) is
      → (add_indicators py lib is k).missing ≡ []
      → is_some (build_indicators py lib candles is refs) ≡ true
  unfolding build_indicators add_indicators add_indicator
  build_indicators-is_some candles [] k refs h covers direct clean = refl
  build_indicators-is_some candles (i ∷ is) k refs h covers direct clean =
      let k' = add_indicator py lib i k in
      let checked =
        append-nil k.missing (check_indicator py lib i k) (add_indicators-nil py lib is k' clean) in
      is_some-and_then (build_indicator py lib candles i refs) _
        (build_indicator-is_some candles i k refs h covers direct.0 checked.1)
        (λ refs' built.
          build_indicators-is_some candles is k' refs' h
            (of_some (Covers (length candles) k'.refs) built
              (build_indicator-Covers py lib candles i k.refs refs covers))
            direct.1 clean)

  -- The series of a validated specification with such indicators are built, on candles of which
  -- there is one at least.
  pub build_series-is_some :
      (spec : Spec F) (candles : List (Candle F))
      → 1 ≤ length candles
      → All (IsDirect py lib) spec.indicators
      → (indicators_known py lib spec).missing ≡ []
      → is_some (build_series py lib candles spec) ≡ true
  unfolding build_series indicators_known
  build_series-is_some spec candles h direct clean =
      build_indicators-is_some candles spec.indicators (before_indicators py lib spec)
        (feature_references py lib spec candles) h (features-Covers py lib spec candles clean)
        direct clean
