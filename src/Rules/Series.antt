-- ===== src/Rules/Series.antt =====
-- The indicators of iimc_trading_platform/strategies/rule_spec.py, as series of one value for each
-- candle. A period is a natural number here, since the validation refuses the others before.
use mathlib.Core.Option
use coversational_algo_tradi.Python.{Builtins, max_float, zero_float}
use coversational_algo_tradi.Rules.Spec.{Candle, RuleLibrary, and_then}
use coversational_algo_tradi.Prelude.{
  Bool, List, Option, [], false, get_or, if◌then◌else◌, leb, length, ltb, map, min, none, pos, some,
  suc, zero, ℕ, ℤ, ◌++◌, ◌+ℤ◌, ◌+◌, ◌-◌, ◌==◌, ◌∷◌,
}

module _ {ℓ} {A : Type ℓ} where
  -- `xs[i]`
  abbrev pub subscript : List A → ℕ → Option A
  subscript [] i = none
  subscript (x ∷ xs) zero = some x
  subscript (x ∷ xs) (suc i) = subscript xs i

  -- `xs[:n]`, `xs[n:]` and `[x] * n`
  abbrev pub take : ℕ → List A → List A
  take zero xs = []
  take (suc n) [] = []
  take (suc n) (x ∷ xs) = x ∷ take n xs

  abbrev pub drop : ℕ → List A → List A
  drop zero xs = xs
  drop (suc n) [] = []
  drop (suc n) (x ∷ xs) = drop n xs

  abbrev pub replicate : ℕ → A → List A
  replicate zero x = []
  replicate (suc n) x = x ∷ replicate n x

-- A loop over a list with its index and a state that gives a value at each turn and may raise.
unfoldable pub series :
    {S X V : Type 0} → (ℕ → S → X → Option (S × V)) → ℕ → S → List X → Option (List V)
series step i s [] = some []
series step i s (x ∷ xs) =
    and_then (step i s x) λ (s', v). Option.map (λ vs. v ∷ vs) (series step (i + 1) s' xs)

module _ {F : Type 0} (py : Builtins F) (lib : RuleLibrary F) where
  abbrev pub one : F
  one = py.literal (pos 1) 0

  abbrev pub count : ℕ → F
  count n = py.of_int (pos n)

  abbrev pub ema_step : F → ℕ → F → F → Option (F × F)
  ema_step alpha i last price =
      let value = py.add (py.mul price alpha) (py.mul last (py.sub one alpha)) in
      some (value, value)

  -- `_ema`
  unfoldable pub ema : List F → ℤ → Option (List F)
  unfolding series
  ema [] period = none
  ema (first ∷ prices) period =
      and_then (py.div (py.literal (pos 2) 0) (py.of_int (period +ℤ pos 1)))
        λ alpha. Option.map (λ vs. first ∷ vs) (series (ema_step alpha) 1 first prices)

  -- The running sum without the price that leaves the window.
  abbrev pub windowed : List F → ℕ → ℕ → F → Option F
  windowed prices period i total =
      if leb period i then Option.map (py.sub total) (subscript prices (i - period)) else some total

  abbrev pub sma_step : List F → ℕ → ℕ → F → F → Option (F × F)
  sma_step prices period i total price =
      and_then (windowed prices period i (py.add total price))
        λ total'. Option.map (λ mean. (total', mean)) (py.div total' (count (min (i + 1) period)))

  -- `_sma`
  unfoldable pub sma : List F → ℕ → Option (List F)
  unfolding series
  sma [] period = none
  sma (first ∷ prices) period =
      series (sma_step (first ∷ prices) period) 0 (zero_float py) (first ∷ prices)

  -- `max(change, 0.0)` and `max(-change, 0.0)`
  abbrev pub gain : F → F
  gain change = max_float py change (zero_float py)

  abbrev pub loss : F → F
  loss change = max_float py (py.neg change) (zero_float py)

  abbrev pub changes_from : F → List F → List F
  changes_from last [] = []
  changes_from last (p ∷ ps) = py.sub p last ∷ changes_from p ps

  abbrev pub changes : List F → List F
  changes [] = []
  changes (p ∷ ps) = changes_from p ps

  abbrev pub hundred : F
  hundred = py.literal (pos 100) 0

  abbrev pub relative_strength : F → F → Option F
  relative_strength average_gain average_loss =
      if py.lt (py.literal (pos 1) 12) average_loss
      then py.div average_gain average_loss
      else some lib.infinity

  abbrev pub strength_index : F → F → Option F
  strength_index average_gain average_loss =
      and_then (relative_strength average_gain average_loss) λ strength.
        if lib.is_infinity strength
        then some hundred
        else Option.map (py.sub hundred) (py.div hundred (py.add one strength))

  -- An average that one more change enters.
  abbrev pub smoothed : ℕ → F → F → Option F
  smoothed period average amount =
      py.div (py.add (py.mul average (count (period - 1))) amount) (count period)

  abbrev pub rsi_step : ℕ → ℕ → F × F → F → Option ((F × F) × F)
  rsi_step period i (average_gain, average_loss) change =
      and_then (smoothed period average_gain (gain change)) λ average_gain'.
        and_then (smoothed period average_loss (loss change)) λ average_loss'.
          Option.map (λ v. ((average_gain', average_loss'), v))
            (strength_index average_gain' average_loss')

  -- The values of `_rsi` from the period on.
  unfoldable pub rsi_tail : List F → ℕ → Option (List F)
  unfolding series
  rsi_tail prices period =
      let seen = take period (changes prices) in
      and_then (py.div (lib.sum (map gain seen)) (count period)) λ average_gain.
        and_then (py.div (lib.sum (map loss seen)) (count period)) λ average_loss.
          and_then (strength_index average_gain average_loss) λ v.
            Option.map (λ vs. v ∷ vs)
              (series (rsi_step period) period (average_gain, average_loss)
                (drop period (changes prices)))

  -- `_rsi`
  unfoldable pub rsi : List F → ℕ → Option (List F)
  unfolding rsi_tail
  rsi prices period =
      let fifty = py.literal (pos 50) 0 in
      if leb (length prices) period
      then some (replicate (length prices) fifty)
      else Option.map (λ vs. replicate period fifty ++ vs) (rsi_tail prices period)

  abbrev pub rate : F → F → Option F
  rate price base =
      if py.is_zero base then some (zero_float py) else py.div (py.sub price base) base

  abbrev pub roc_step : List F → ℕ → ℕ → Unit {0} → F → Option (Unit {0} × F)
  roc_step prices period i s price =
      if leb period i
      then and_then (subscript prices (i - period))
          (λ base. Option.map (λ v. (s, v)) (rate price base))
      else some (s, zero_float py)

  -- `_roc`
  unfoldable pub roc : List F → ℕ → Option (List F)
  unfolding series
  roc prices period = series (roc_step prices period) 0 tt prices

  abbrev pub high_of : Candle F → F
  high_of c = get_or c.high c.price

  abbrev pub low_of : Candle F → F
  low_of c = get_or c.low c.price

  abbrev pub close_of : Candle F → F
  close_of c = get_or c.close c.price

  -- `max(high - low, abs(high - previous_close), abs(low - previous_close))`
  abbrev pub true_range : F → Candle F → F
  true_range previous c =
      max_float py
        (max_float py (py.sub (high_of c) (low_of c)) (py.abs (py.sub (high_of c) previous)))
        (py.abs (py.sub (low_of c) previous))

  abbrev pub ranges_from : F → List (Candle F) → List F
  ranges_from previous [] = []
  ranges_from previous (c ∷ cs) = true_range previous c ∷ ranges_from (close_of c) cs

  abbrev pub ranges : List (Candle F) → List F
  ranges [] = []
  ranges (c ∷ cs) = ranges_from (close_of c) (c ∷ cs)

  abbrev pub atr_step : ℕ → ℕ → F → F → Option (F × F)
  atr_step period i last range = Option.map (λ v. (v, v)) (smoothed period last range)

  -- `_atr`, on candles of which there is at least one
  unfoldable pub atr : List (Candle F) → ℕ → Option (List F)
  unfolding series
  atr [] period = none
  atr (c ∷ cs) period =
      let rs = ranges (c ∷ cs) in
      if ltb (length rs) period
      then some (replicate (length rs) (zero_float py))
      else and_then (py.div (lib.sum (take period rs)) (count period)) λ first.
        Option.map (λ vs. replicate (period - 1) (zero_float py) ++ first ∷ vs)
          (series (atr_step period) period first (drop period rs))

  -- The sums of `_vwap` and the date that they are of.
  pub record DaySums : Type 0 where
    pub value : F
    pub traded : F
    pub date : Option ℕ

  abbrev pub same_date : Option ℕ → ℕ → Bool
  same_date none d = false
  same_date (some e) d = e == d

  abbrev pub new_day : Option ℕ → DaySums → DaySums
  new_day none s = s
  new_day (some d) s =
      if same_date s.date d
      then s
      else record { value = zero_float py; traded = zero_float py; date = some d }

  abbrev pub vwap_step : ℕ → DaySums → Candle F → Option (DaySums × F)
  vwap_step i s c =
      let today = new_day (lib.date_of c.timestamp) s in
      and_then (py.div (py.add (py.add (high_of c) (low_of c)) (close_of c)) (count 3)) λ typical.
        let volume = max_float py (zero_float py) (get_or c.volume (zero_float py)) in
        let value = py.add today.value (py.mul typical volume) in
        let traded = py.add today.traded volume in
        Option.map (λ v. (record { value = value; traded = traded; date = today.date }, v))
          (if py.lt (zero_float py) traded then py.div value traded else some typical)

  -- `_vwap`
  unfoldable pub vwap : List (Candle F) → Option (List F)
  unfolding series
  vwap candles =
      series vwap_step 0 (record { value = zero_float py; traded = zero_float py; date = none })
        candles

  abbrev pub squares : F → List F → Option (List F)
  squares mean [] = some []
  squares mean (v ∷ vs) =
      and_then (lib.square (py.sub v mean)) λ x. Option.map (λ xs. x ∷ xs) (squares mean vs)

  abbrev pub deviation : List F → Option F
  deviation vs = and_then (py.div (lib.sum vs) (count (length vs))) λ mean.
      and_then (squares mean vs) λ xs. Option.map lib.sqrt (py.div (lib.sum xs) (count (length vs)))

  abbrev pub stddev_step : List F → ℕ → ℕ → Unit {0} → F → Option (Unit {0} × F)
  stddev_step values period i s v =
      let start = i + 1 - period in
      Option.map (λ d. (s, d)) (deviation (take (i + 1 - start) (drop start values)))

  -- `_rolling_stddev`
  unfoldable pub rolling_stddev : List F → ℕ → Option (List F)
  unfolding series
  rolling_stddev values period = series (stddev_step values period) 0 tt values
