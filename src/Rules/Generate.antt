-- ===== src/Rules/Generate.antt =====
-- `RuleSpecStrategy.generate` of iimc_trading_platform/strategies/rule_spec.py, on a specification that
-- has been validated: for a control or a session that the validation refuses, the model raises.
use mathlib.Core.Option
use coversational_algo_tradi.Python.{Builtins, max_float, zero_float}
use coversational_algo_tradi.Rules.Spec.{
  Candle, Control, RawSignal, RiskControls, RiskSpec, RuleLibrary, SessionSpec, SignalDirection,
  SignalReason, SignalType, Spec, and_then, controls, entry, entry_conditions, exit,
  exit_conditions, fraction, leave, long, malformed, no_control, no_session, not_controls, short,
  square_off, stop_loss, take_profit, trailing_stop, unreadable, window,
}
use coversational_algo_tradi.Rules.Series.{drop, one}
use coversational_algo_tradi.Rules.References.{Series, build_series}
use coversational_algo_tradi.Rules.Evaluate.{rule_confidence, rule_features, rules_pass}
use coversational_algo_tradi.Prelude.{
  Bool, List, Option, String, [], false, get_or, if◌then◌else◌, length, ltb, map, max, none, some,
  str_eq, true, ℕ, ◌&&◌, ◌+◌, ◌∷◌,
}

-- The prices of an open position: at its entry, and the best since then.
pub record Holding (F : Type 0) : Type 0 where
  pub entry_price : F
  pub extreme_price : F

module _ {F : Type 0} (py : Builtins F) (lib : RuleLibrary F) where
  -- `max(0.0, min(1.0, confidence))`
  abbrev pub clamped : F → F
  clamped confidence =
      max_float py (zero_float py)
        (if py.lt confidence (one py lib) then confidence else one py lib)

  abbrev pub rounded : String × F → String × F
  rounded (name, value) = (name, lib.round_6 value)

  -- `_signal`
  abbrev pub signal :
      Candle F → SignalType → SignalDirection → F → SignalReason → List (String × F) → RawSignal F
  signal c kind direction confidence reason features = record {
    timestamp = c.timestamp;
    symbol = c.symbol;
    signal_type = kind;
    direction = direction;
    price = c.price;
    confidence = clamped confidence;
    reason = reason;
    features = map rounded features;
  }

  -- `_in_session`
  unfoldable pub in_session : SessionSpec → ℕ → Option Bool
  in_session no_session timestamp = some true
  in_session malformed timestamp = none
  in_session (window start end) timestamp = elim (lib.clock_of timestamp) [
    | none ↦ some true
    | some clock ↦ some (lib.text_le start clock && lib.text_le clock end)
  ]

  abbrev pub controls_of : RiskSpec F → Option (RiskControls F)
  controls_of (controls c) = some c
  controls_of not_controls = none

  abbrev pub side_of : Spec F → String
  side_of spec = lib.lower (get_or spec.position_side "long")

  abbrev pub is_long : Spec F → Bool
  is_long spec = str_eq (side_of spec) "long"

  abbrev pub entry_direction : Spec F → SignalDirection
  entry_direction spec = if str_eq (side_of spec) "short" then short else long

  abbrev pub hit : Control F → (F → Bool) → Option Bool
  hit no_control test = some false
  hit (fraction x) test = some (test x)
  hit unreadable test = none

  -- A loss of the fraction `x` of a price, and a gain, by the side of the position.
  abbrev pub has_lost : Bool → F → F → F → Bool
  has_lost true price from x = py.le price (py.mul from (py.sub (one py lib) x))
  has_lost false price from x = py.le (py.mul from (py.add (one py lib) x)) price

  abbrev pub has_gained : Bool → F → F → F → Bool
  has_gained true price from x = py.le (py.mul from (py.add (one py lib) x)) price
  has_gained false price from x = py.le price (py.mul from (py.sub (one py lib) x))

  -- `max(extreme_price, price)`, or `min` of a short position
  abbrev pub extreme : Bool → F → F → F
  extreme true best price = max_float py best price
  extreme false best price = if py.lt price best then price else best

  abbrev pub updated : Bool → F → Holding F → Holding F
  updated is_long price h = record h { extreme_price = extreme is_long h.extreme_price price }

  module _ (spec : Spec F) (risk : RiskControls F) (refs : Series F) where
    -- The first of the controls that is hit, in the order of the reasons.
    abbrev pub first_hit : Bool → Bool → Bool → Option SignalReason
    first_hit stop target trail =
        if stop
        then some stop_loss
        else if target
        then some take_profit
        else if trail
        then some trailing_stop
        else none

    -- All three are computed, whichever is hit.
    unfoldable pub control_hit : F → Holding F → Option (Option SignalReason)
    control_hit price h =
        and_then (hit risk.stop_loss_pct (has_lost (is_long spec) price h.entry_price)) λ stop.
          and_then (hit risk.take_profit_pct (has_gained (is_long spec) price h.entry_price))
            λ target.
              Option.map (λ trail. first_hit stop target trail)
                (hit risk.trailing_stop_pct (has_lost (is_long spec) price h.extreme_price))

    abbrev pub or_exit_rules : Option SignalReason → ℕ → Option (Option SignalReason)
    or_exit_rules (some reason) index = some (some reason)
    or_exit_rules none index =
        Option.map (λ passed. if passed then some exit_conditions else none)
          (rules_pass py lib refs spec.exit_rules index)

    -- The signal of one candle, if there is one, and the position after it.
    abbrev pub Turn : Type 0
    Turn = Option (RawSignal F) × Option (Holding F)

    abbrev pub leaves : Candle F → ℕ → Holding F → Option SignalReason → Option Turn
    leaves c index h none = some (none, some h)
    leaves c index h (some reason) =
        Option.map (λ features. (some (signal c exit leave (one py lib) reason features), none))
          (rule_features py lib refs spec.exit_rules index [])

    abbrev pub entry_signal : Candle F → ℕ → Option (RawSignal F)
    entry_signal c index =
        and_then (rule_confidence py lib refs spec.entry_rules index) λ confidence.
          Option.map
            (λ features. signal c entry (entry_direction spec) confidence entry_conditions features)
            (rule_features py lib refs spec.entry_rules index [])

    abbrev pub enters : Candle F → ℕ → Bool → Option Turn
    enters c index false = some (none, none)
    enters c index true =
        Option.map (λ s. (some s, some (record { entry_price = c.price; extreme_price = c.price })))
          (entry_signal c index)

    -- `in_session(…) and rules_pass(…)`
    abbrev pub may_enter : Candle F → ℕ → Bool → Option Bool
    may_enter c index false = some false
    may_enter c index true = rules_pass py lib refs spec.entry_rules index

    -- One turn of the loop.
    unfoldable pub turn : ℕ → Option (Holding F) → Candle F → Option Turn
    unfolding in_session control_hit rules_pass rule_confidence rule_features
    turn index none c =
        and_then (in_session spec.session c.timestamp)
          λ inside. and_then (may_enter c index inside) λ passed. enters c index passed
    turn index (some h) c =
        let h' = updated (is_long spec) c.price h in
        and_then (control_hit c.price h')
          λ reached. and_then (or_exit_rules reached index) λ reason. leaves c index h' reason

    abbrev pub with_signal : Option (RawSignal F) → List (RawSignal F) → List (RawSignal F)
    with_signal none signals = signals
    with_signal (some s) signals = s ∷ signals

    -- `_force_exit`, with the last candle
    abbrev pub forced : Option (Holding F) → Candle F → List (RawSignal F)
    forced none last = []
    forced (some h) last = signal last exit leave (one py lib) square_off [] ∷ []

    -- The loop from a candle on, with the last candle before it.
    unfoldable pub signals_from :
        ℕ → Option (Holding F) → Candle F → List (Candle F) → Option (List (RawSignal F))
    unfolding turn
    signals_from index held last [] = some (forced held last)
    signals_from index held last (c ∷ cs) =
        and_then (turn index held c)
          λ (s, held'). Option.map (with_signal s) (signals_from (index + 1) held' c cs)

  abbrev pub last_of : Candle F → List (Candle F) → Candle F
  last_of c [] = c
  last_of c (d ∷ ds) = last_of d ds

  abbrev pub run_from :
      Spec F → RiskControls F → Series F → ℕ → List (Candle F) → Option (List (RawSignal F))
  run_from spec risk refs start [] = none
  run_from spec risk refs start (c ∷ cs) =
      signals_from spec risk refs start none (last_of c cs) (drop start (c ∷ cs))

  -- `generate`, with the `warmup_bars` of the validation: `range(max(1, warmup), len(candles))`
  unfoldable pub generate : Spec F → ℕ → List (Candle F) → Option (List (RawSignal F))
  unfolding build_series signals_from
  generate spec warmup candles =
      if ltb (length candles) (warmup + 2)
      then none
      else and_then (build_series py lib candles spec) λ refs.
        and_then (controls_of spec.risk) λ risk. run_from spec risk refs (max 1 warmup) candles
