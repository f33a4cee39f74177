-- ===== src/Rules/Lengths.antt =====
-- About the lengths of the series of the indicators.
use coversational_algo_tradi.Python.{Builtins, zero_float}
use coversational_algo_tradi.Rules.Spec.{Candle, Indicator, RuleLibrary}
use coversational_algo_tradi.Rules.Series.{
  atr, atr_step, changes, changes_from, close_of, drop, ema, ema_step, ranges, ranges_from,
  replicate, roc, roc_step, rolling_stddev, rsi, rsi_step, rsi_tail, series, sma, sma_step,
  stddev_step, strength_index, vwap, vwap_step,
}
use coversational_algo_tradi.Rules.References.{
  band, bollinger, indicator_series, is_band, is_macd, macd, macd_line, multiplier, period_or,
  zip_with,
}
use coversational_algo_tradi.Rules.Outcomes.{
  OnSome, OnSome-and_then, OnSome-and_then_of, OnSome-map_of,
}
use coversational_algo_tradi.Prelude.{
  Bool, Bool-cases, List, Option, String, [], arith, false, if◌then◌else◌, inl, inr, leb, length,
  ltb, map, none, pos, refl, str_eq, subst, suc, true, zero, ℕ, ℤ, ◌++◌, ◌+◌, ◌-◌, ◌<◌, ◌∷◌, ◌≡◌,
  ◌≤◌,
}

-- A series of `n` values.
abbrev pub HasLength : {A : Type 0} → ℕ → List A → Type 0
HasLength n xs = length xs ≡ n

pub length-map : {A B : Type 0} (f : A → B) (xs : List A) → length (map f xs) ≡ length xs
length-map f [] = refl
length-map f (x ∷ xs) = omega (arith, length-map f xs)

length-append : {A : Type 0} (xs ys : List A) → length (xs ++ ys) ≡ length xs + length ys
length-append [] ys = omega arith
length-append (x ∷ xs) ys = omega (arith, length-append xs ys)

length-replicate : {A : Type 0} (n : ℕ) (x : A) → length (replicate n x) ≡ n
length-replicate zero x = refl
length-replicate (suc n) x = omega (arith, length-replicate n x)

pub length-drop :
    {A : Type 0} (n : ℕ) (xs : List A) → n ≤ length xs → length (drop n xs) + n ≡ length xs
length-drop zero xs h = omega arith
length-drop (suc n) [] h = absurd (omega arith)
length-drop (suc n) (x ∷ xs) h = omega (arith, length-drop n xs (omega arith))

length-zip_with :
    {F : Type 0} (py : Builtins F) (lib : RuleLibrary F) (f : F → F → F) (n : ℕ) (xs ys : List F)
    → length xs ≡ n
    → length ys ≡ n
    → length (zip_with py lib f xs ys) ≡ n
length-zip_with py lib f n [] ys h k = h
length-zip_with py lib f n (x ∷ xs) [] h k = absurd (omega arith)
length-zip_with py lib f zero (x ∷ xs) (y ∷ ys) h k = absurd (omega arith)
length-zip_with py lib f (suc n) (x ∷ xs) (y ∷ ys) h k =
    omega (arith, length-zip_with py lib f n xs ys (omega arith) (omega arith))

series-HasLength :
    {S X V : Type 0} (step : ℕ → S → X → Option (S × V)) (i : ℕ) (s : S) (xs : List X)
    → OnSome (HasLength (length xs)) (series step i s xs)
unfolding series
series-HasLength step i s [] = refl
series-HasLength step i s (x ∷ xs) =
    OnSome-and_then (HasLength (suc (length xs))) (step i s x) _ (λ (s', v).
      OnSome-map_of (HasLength (suc (length xs))) (HasLength (length xs))
        (series step (i + 1) s' xs) (λ vs. v ∷ vs) (series-HasLength step (i + 1) s' xs)
        (λ vs size. omega arith))

module _ {F : Type 0} (py : Builtins F) (lib : RuleLibrary F) where
  ema-HasLength :
      (prices : List F) (period : ℤ) → OnSome (HasLength (length prices)) (ema py lib prices period)
  unfolding ema
  ema-HasLength [] period = tt
  ema-HasLength (first ∷ prices) period =
      OnSome-and_then (HasLength (suc (length prices))) (py.div _ _) _ (λ alpha.
        OnSome-map_of (HasLength (suc (length prices))) (HasLength (length prices))
          (series (ema_step py lib alpha) 1 first prices) (λ vs. first ∷ vs)
          (series-HasLength (ema_step py lib alpha) 1 first prices) (λ vs size. omega arith))

  sma-HasLength :
      (prices : List F) (period : ℕ) → OnSome (HasLength (length prices)) (sma py lib prices period)
  unfolding sma
  sma-HasLength [] period = tt
  sma-HasLength (first ∷ prices) period =
      series-HasLength (sma_step py lib (first ∷ prices) period) 0 (zero_float py) (first ∷ prices)

  length-changes_from :
      (last : F) (prices : List F) → length (changes_from py lib last prices) ≡ length prices
  length-changes_from last [] = refl
  length-changes_from last (p ∷ ps) = omega (arith, length-changes_from p ps)

  length-changes :
      (prices : List F) → 1 ≤ length prices → length (changes py lib prices) + 1 ≡ length prices
  length-changes [] h = absurd (omega arith)
  length-changes (p ∷ ps) h = omega (arith, length-changes_from p ps)

  -- What comes after the first `period` values.
  abbrev Completes : ℕ → List F → List F → Type 0
  Completes period prices vs = period + length vs ≡ length prices

  rsi_tail-Completes :
      (prices : List F) (period : ℕ)
      → period < length prices
      → OnSome (Completes period prices) (rsi_tail py lib prices period)
  unfolding rsi_tail
  rsi_tail-Completes prices period h =
      let P = Completes period prices in
      let later = drop period (changes py lib prices) in
      let size = length-changes prices (omega arith) in
      let rest = length-drop period (changes py lib prices) (omega arith) in
      OnSome-and_then P (py.div _ _) _ (λ average_gain.
        OnSome-and_then P (py.div _ _) _ (λ average_loss.
          OnSome-and_then P (strength_index py lib average_gain average_loss) _ (λ v.
            OnSome-map_of P (HasLength (length later))
              (series (rsi_step py lib period) period (average_gain, average_loss) later)
              (λ vs. v ∷ vs) (series-HasLength (rsi_step py lib period) period _ later)
              (λ vs e. omega arith))))

  rsi-HasLength :
      (prices : List F) (period : ℕ) → OnSome (HasLength (length prices)) (rsi py lib prices period)
  unfolding rsi
  rsi-HasLength prices period = elim (Bool-cases (leb (length prices) period)) [
    | inl few ↦ rw few (length-replicate (length prices) (py.literal (pos 50) 0))
    | inr enough ↦ rw enough (
        OnSome-map_of (HasLength (length prices)) (Completes period prices)
          (rsi_tail py lib prices period) _ (rsi_tail-Completes prices period (ground arith))
          (λ vs e. omega (
            arith,
            length-append (replicate period (py.literal (pos 50) 0)) vs,
            length-replicate period (py.literal (pos 50) 0),
          )))
  ]

  length-ranges_from :
      (previous : F) (cs : List (Candle F)) → length (ranges_from py lib previous cs) ≡ length cs
  length-ranges_from previous [] = refl
  length-ranges_from previous (c ∷ cs) = omega (arith, length-ranges_from (close_of py lib c) cs)

  atr-HasLength :
      (cs : List (Candle F)) (period : ℕ)
      → 1 ≤ period
      → OnSome (HasLength (length cs)) (atr py lib cs period)
  unfolding atr
  atr-HasLength [] period h = tt
  atr-HasLength (c ∷ cs) period h =
      let n = length (c ∷ cs) in
      let rs = ranges py lib (c ∷ cs) in
      let nought = zero_float py in
      let size = length-ranges_from (close_of py lib c) (c ∷ cs) in
      elim (Bool-cases (ltb (length rs) period)) [
        | inl few ↦ rw few (omega (arith, length-replicate (length rs) nought))
        | inr enough ↦ rw enough (
            OnSome-and_then (HasLength n) (py.div _ _) _ (λ first.
              OnSome-map_of (HasLength n) (HasLength (length (drop period rs)))
                (series (atr_step py lib period) period first (drop period rs)) _
                (series-HasLength (atr_step py lib period) period first (drop period rs))
                (λ vs e. omega (
                  arith,
                  length-append (replicate (period - 1) nought) (first ∷ vs),
                  length-replicate (period - 1) nought,
                  length-drop period rs (ground arith),
                ))))
      ]

  band-HasLength :
      (kind : String) (m : F) (n : ℕ) (middle spread : List F)
      → length middle ≡ n
      → length spread ≡ n
      → length (band py lib kind m middle spread) ≡ n
  band-HasLength kind m n middle spread h k = elim (Bool-cases (str_eq kind "BB_UPPER")) [
    | inl upper ↦ rw upper (length-zip_with py lib _ n middle spread h k)
    | inr rest ↦ elim (Bool-cases (str_eq kind "BB_LOWER")) [
      | inl lower ↦ rw (rest, lower) (length-zip_with py lib _ n middle spread h k)
      | inr neither ↦ rw (rest, neither) h
    ]
  ]

  bollinger-HasLength :
      (kind : String) (i : Indicator F) (values : List F) (period : ℕ)
      → OnSome (HasLength (length values)) (bollinger py lib kind i values period)
  unfolding rolling_stddev
  bollinger-HasLength kind i values period =
      let P = HasLength (length values) in
      OnSome-and_then_of P P (sma py lib values period) _ (sma-HasLength values period) (λ middle h.
        OnSome-map_of P P (rolling_stddev py lib values period) _
          (series-HasLength (stddev_step py lib values period) 0 tt values)
          (λ spread k. band-HasLength kind (multiplier py lib i) (length values) middle spread h k))

  macd_line-HasLength :
      (i : Indicator F) (values : List F)
      → OnSome (HasLength (length values)) (macd_line py lib i values)
  macd_line-HasLength i values =
      let P = HasLength (length values) in
      OnSome-and_then_of P P (ema py lib values (period_or 12 i.fast_period)) _
        (ema-HasLength values (period_or 12 i.fast_period))
        (λ fast h.
          OnSome-map_of P P (ema py lib values (period_or 26 i.slow_period)) _
            (ema-HasLength values (period_or 26 i.slow_period))
            (λ slow k. length-zip_with py lib py.sub (length values) fast slow h k))

  macd-HasLength :
      (kind : String) (i : Indicator F) (values : List F)
      → OnSome (HasLength (length values)) (macd py lib kind i values)
  macd-HasLength kind i values =
      let P = HasLength (length values) in
      OnSome-and_then_of P P (macd_line py lib i values) _ (macd_line-HasLength i values) (λ line h.
        elim (Bool-cases (str_eq kind "MACD")) [
          | inl only ↦ rw only h
          | inr smooth ↦ rw smooth (
              subst (λ n. OnSome (HasLength n) (ema py lib line (period_or 9 i.signal_period))) h
                (ema-HasLength line (period_or 9 i.signal_period)))
        ])

  -- A choice between two indicators.
  either-HasLength :
      (n : ℕ) (test : Bool) (a b : Option (List F))
      → OnSome (HasLength n) a
      → OnSome (HasLength n) b
      → OnSome (HasLength n) (if test then a else b)
  either-HasLength n true a b h k = h
  either-HasLength n false a b h k = k

  pub indicator_series-HasLength :
      (candles : List (Candle F)) (i : Indicator F) (kind : String) (values : List F) (period : ℕ)
      → 1 ≤ period
      → length values ≡ length candles
      → OnSome (HasLength (length candles)) (indicator_series py lib candles i kind values period)
  unfolding indicator_series vwap roc
  indicator_series-HasLength candles i kind values period h e =
      let n = length candles in
      let as_values = λ (o : Option (List F)) (k : OnSome (HasLength (length values)) o).
        subst (λ m. OnSome (HasLength m) o) e k in
      either-HasLength n (str_eq kind "EMA") _ _ (as_values _ (ema-HasLength values (pos period))) (
        either-HasLength n (str_eq kind "SMA") _ _ (as_values _ (sma-HasLength values period)) (
          either-HasLength n (str_eq kind "RSI") _ _ (as_values _ (rsi-HasLength values period)) (
            either-HasLength n (str_eq kind "ROC") _ _
              (as_values _ (series-HasLength (roc_step py lib values period) 0 tt values))
              (either-HasLength n (str_eq kind "ATR") _ _ (atr-HasLength candles period h) (
                either-HasLength n (str_eq kind "VWAP") _ _
                  (series-HasLength (vwap_step py lib) 0 _ candles)
                  (either-HasLength n (is_band py lib kind) _ _
                    (as_values _ (bollinger-HasLength kind i values period))
                    (either-HasLength n (is_macd py lib kind) _ none
                      (as_values _ (macd-HasLength kind i values)) tt)))))))
