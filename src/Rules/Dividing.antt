-- ===== src/Rules/Dividing.antt =====
-- About divisions that do not raise, and the series of averages, rates of change and ranges.
use coversational_algo_tradi.Python.{Builtins, zero_float}
use coversational_algo_tradi.Rules.Spec.{Candle, RuleLibrary}
use coversational_algo_tradi.Rules.Series.{
  atr, atr_step, count, drop, ema, ema_step, ranges, rate, roc, roc_step, series, sma, sma_step,
  smoothed, subscript, take, vwap, vwap_step, windowed,
}
use coversational_algo_tradi.Rules.Covered.{subscript-in_range}
use coversational_algo_tradi.Rules.Resolution.{is_some-and_then, is_some-map}
use coversational_algo_tradi.Prelude.{
  Bool-cases, List, Option, [], arith, false, if◌then◌else◌, inl, inr, is_some, leb, length, ltb,
  min, pos, refl, some, suc, true, zero, ℕ, ◌+ℤ◌, ◌+◌, ◌-◌, ◌<◌, ◌∷◌, ◌≡◌, ◌≤◌,
}

module _ {F : Type 0} (py : Builtins F) (lib : RuleLibrary F) where
  -- A division by a number that is not zero does not raise; a positive integer is not zero, and no
  -- more is a number above zero.
  pub record Divides : Type 0 where
    pub by_nonzero : (a b : F) → py.is_zero b ≡ false → is_some (py.div a b) ≡ true
    pub count_nonzero : (n : ℕ) → py.is_zero (count py lib (suc n)) ≡ false
    pub positive_nonzero : (b : F) → py.lt (zero_float py) b ≡ true → py.is_zero b ≡ false

series-is_some :
    {S X V : Type 0} (step : ℕ → S → X → Option (S × V)) (n : ℕ)
    → ((i : ℕ) (s : S) (x : X) → i < n → is_some (step i s x) ≡ true)
    → (i : ℕ) (s : S) (xs : List X) → i + length xs ≡ n
    → is_some (series step i s xs) ≡ true
unfolding series
series-is_some step n goes i s [] e = refl
series-is_some step n goes i s (x ∷ xs) e =
    is_some-and_then (step i s x) _ (goes i s x (omega arith)) (λ (s', v) found.
      is_some-map (series step (i + 1) s' xs) _
        (series-is_some step n goes (i + 1) s' xs (omega arith)))

module _ {F : Type 0} (py : Builtins F) (lib : RuleLibrary F) (laws : Divides py lib) where
  pub by_count : (a : F) (n : ℕ) → 1 ≤ n → is_some (py.div a (count py lib n)) ≡ true
  by_count a zero h = absurd (omega arith)
  by_count a (suc n) h = laws.by_nonzero a (count py lib (suc n)) (laws.count_nonzero n)

  one_more : (n : ℕ) → pos n +ℤ pos 1 ≡ pos (suc n)
  unfolding ◌+ℤ◌
  one_more n = ground arith

  pub ema-is_some :
      (prices : List F) (period : ℕ)
      → 1 ≤ length prices
      → is_some (ema py lib prices (pos period)) ≡ true
  unfolding ema
  ema-is_some [] period h = absurd (omega arith)
  ema-is_some (first ∷ prices) period h =
      is_some-and_then (py.div (py.literal (pos 2) 0) (py.of_int (pos period +ℤ pos 1))) _
        (rw (one_more period) (by_count (py.literal (pos 2) 0) (suc period) (omega arith)))
        (λ alpha found. is_some-map (series (ema_step py lib alpha) 1 first prices) _ (
          series-is_some (ema_step py lib alpha) (1 + length prices) (λ i s x k. refl) 1 first
            prices refl))

  windowed-is_some :
      (prices : List F) (period i : ℕ) (total : F)
      → i < length prices
      → is_some (windowed py lib prices period i total) ≡ true
  windowed-is_some prices period i total h = elim (Bool-cases (leb period i)) [
    | inr early ↦ rw early refl
    | inl full ↦ rw full (
        is_some-map (subscript prices (i - period)) _
          (subscript-in_range prices (i - period) (omega arith)))
  ]

  pub sma-is_some :
      (prices : List F) (period : ℕ)
      → 1 ≤ length prices
      → 1 ≤ period
      → is_some (sma py lib prices period) ≡ true
  unfolding sma
  sma-is_some [] period h k = absurd (omega arith)
  sma-is_some (first ∷ prices) period h k =
      let all = first ∷ prices in
      series-is_some (sma_step py lib all period) (length all)
        (λ i total price inside.
          is_some-and_then (windowed py lib all period i (py.add total price)) _
            (windowed-is_some all period i (py.add total price) inside)
            (λ total' e.
              is_some-map (py.div total' (count py lib (min (i + 1) period))) _
                (by_count total' (min (i + 1) period) (ground arith))))
        0 (zero_float py) all (omega arith)

  pub roc-is_some : (prices : List F) (period : ℕ) → is_some (roc py lib prices period) ≡ true
  unfolding roc
  roc-is_some prices period =
      series-is_some (roc_step py lib prices period) (length prices)
        (λ i s price inside. elim (Bool-cases (leb period i)) [
          | inr early ↦ rw early refl
          | inl full ↦ rw full (
              is_some-and_then (subscript prices (i - period)) _
                (subscript-in_range prices (i - period) (omega arith))
                (λ base e.
                  is_some-map (rate py lib price base) _ (elim (Bool-cases (py.is_zero base)) [
                    | inl nought ↦ rw nought refl
                    | inr other_base ↦
                        rw other_base (laws.by_nonzero (py.sub price base) base other_base)
                  ])))
        ])
        0 tt prices (omega arith)

  pub atr-is_some :
      (candles : List (Candle F)) (period : ℕ)
      → 1 ≤ length candles
      → 1 ≤ period
      → is_some (atr py lib candles period) ≡ true
  unfolding atr
  atr-is_some [] period h k = absurd (omega arith)
  atr-is_some (c ∷ cs) period h k =
      let rs = ranges py lib (c ∷ cs) in
      elim (Bool-cases (ltb (length rs) period)) [
        | inl few ↦ rw few refl
        | inr enough ↦ rw enough (
            is_some-and_then (py.div (lib.sum (take period rs)) (count py lib period)) _
              (by_count (lib.sum (take period rs)) period k)
              (λ first e.
                is_some-map (series (atr_step py lib period) period first (drop period rs)) _ (
                  series-is_some (atr_step py lib period) (period + length (drop period rs))
                    (λ i last range inside.
                      is_some-map (smoothed py lib period last range) _ (by_count _ period k))
                    period first (drop period rs) refl)))
      ]

  pub vwap-is_some : (candles : List (Candle F)) → is_some (vwap py lib candles) ≡ true
  unfolding vwap
  vwap-is_some candles =
      series-is_some (vwap_step py lib) (length candles)
        (λ i s c inside.
          is_some-and_then (py.div _ (count py lib 3)) _ (by_count _ 3 (omega arith))
            (λ typical e. is_some-map _ _ (worth _ _ typical)))
        0 _ candles (omega arith)
    where
      worth :
          (value traded typical : F)
          → is_some (if py.lt (zero_float py) traded then py.div value traded else some typical)
            ≡ true
      worth value traded typical = elim (Bool-cases (py.lt (zero_float py) traded)) [
        | inl positive ↦
            rw positive (laws.by_nonzero value traded (laws.positive_nonzero traded positive))
        | inr nothing ↦ rw nothing refl
      ]
