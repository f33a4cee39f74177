-- ===== src/Rules/Alternation.antt =====
-- About the order of the signals of `RuleSpecStrategy.generate`.
use coversational_algo_tradi.Python.{Builtins}
use coversational_algo_tradi.Rules.Spec.{
  Candle, RawSignal, RiskControls, RuleLibrary, SignalReason, Spec, entry, exit,
}
use coversational_algo_tradi.Rules.References.{Series, build_series}
use coversational_algo_tradi.Rules.Generate.{
  Holding, control_hit, controls_of, enters, entry_signal, generate, in_session, is_long, last_of,
  leaves, may_enter, or_exit_rules, run_from, signals_from, turn, updated, with_signal,
}
use coversational_algo_tradi.Rules.Outcomes.{
  OnSome, OnSome-and_then, OnSome-and_then_of, OnSome-map, OnSome-map_of, of_some,
}
use coversational_algo_tradi.Prelude.{
  Bool, Bool-cases, List, Option, [], false, inl, inr, is_some, length, ltb, max, none, refl, some,
  true, ℕ, ◌+◌, ◌∷◌, ◌≡◌,
}
use coversational_algo_tradi.Rules.Series.{drop}
use coversational_algo_tradi.Rules.Evaluate.{rule_confidence, rule_features}

module _ {F : Type 0} where
  -- Signals that, from a position that is open or not, enter and leave in turn and leave nothing open.
  abbrev pub Closes : Bool → List (RawSignal F) → Type 0
  Closes false [] = Unit
  Closes true [] = ⊥
  Closes false (s ∷ ss) = (s.signal_type ≡ entry) × Closes true ss
  Closes true (s ∷ ss) = (s.signal_type ≡ exit) × Closes false ss

module _ {F : Type 0} (py : Builtins F) (lib : RuleLibrary F) (spec : Spec F)
    (risk : RiskControls F) (refs : Series F) where
  -- What one turn leads to, whatever comes after it.
  abbrev Follows : Option (Holding F) → Option (RawSignal F) × Option (Holding F) → Type 0
  Follows held (s, held') =
      (rest : List (RawSignal F))
      → Closes (is_some held') rest
      → Closes (is_some held) (with_signal py lib spec risk refs s rest)

  Enters : RawSignal F → Type 0
  Enters s = s.signal_type ≡ entry

  entry_signal-Enters :
      (c : Candle F) (index : ℕ) → OnSome Enters (entry_signal py lib spec risk refs c index)
  unfolding Enters
  entry_signal-Enters c index =
      OnSome-and_then Enters (rule_confidence py lib refs spec.entry_rules index) _ (λ confidence.
        OnSome-map Enters (rule_features py lib refs spec.entry_rules index []) _
          (λ features. refl))

  enters-Follows :
      (c : Candle F) (index : ℕ) (passed : Bool)
      → OnSome (Follows none) (enters py lib spec risk refs c index passed)
  unfolding Enters
  enters-Follows c index false = λ rest h. h
  enters-Follows c index true =
      OnSome-map_of (Follows none) Enters (entry_signal py lib spec risk refs c index) _
        (entry_signal-Enters c index) (λ s enters rest h. (enters, h))

  leaves-Follows :
      (c : Candle F) (index : ℕ) (h h' : Holding F) (reason : Option SignalReason)
      → OnSome (Follows (some h)) (leaves py lib spec risk refs c index h' reason)
  leaves-Follows c index h h' none = λ rest k. k
  leaves-Follows c index h h' (some reason) =
      OnSome-map (Follows (some h)) (rule_features py lib refs spec.exit_rules index []) _
        (λ features rest k. (refl, k))

  turn-Follows :
      (index : ℕ) (held : Option (Holding F)) (c : Candle F)
      → OnSome (Follows held) (turn py lib spec risk refs index held c)
  unfolding turn
  turn-Follows index none c =
      OnSome-and_then (Follows none) (in_session py lib spec.session c.timestamp) _ (λ inside.
        OnSome-and_then (Follows none) (may_enter py lib spec risk refs c index inside) _
          (enters-Follows c index))
  turn-Follows index (some h) c =
      let h' = updated py lib (is_long py lib spec) c.price h in
      OnSome-and_then (Follows (some h)) (control_hit py lib spec risk refs c.price h') _
        (λ reached.
          OnSome-and_then (Follows (some h)) (or_exit_rules py lib spec risk refs reached index) _
            (leaves-Follows c index h h'))

  pub signals_from-Closes :
      (index : ℕ) (held : Option (Holding F)) (last : Candle F) (cs : List (Candle F))
      → OnSome (Closes (is_some held)) (signals_from py lib spec risk refs index held last cs)
  unfolding signals_from
  signals_from-Closes index none last [] = tt
  signals_from-Closes index (some h) last [] = (refl, tt)
  signals_from-Closes index held last (c ∷ cs) =
      OnSome-and_then_of (Closes (is_some held)) (Follows held)
        (turn py lib spec risk refs index held c) _ (turn-Follows index held c)
        (λ (s, held') follows.
          OnSome-map_of (Closes (is_some held)) (Closes (is_some held'))
            (signals_from py lib spec risk refs (index + 1) held' c cs)
            (with_signal py lib spec risk refs s) (signals_from-Closes (index + 1) held' c cs)
            follows)

module _ {F : Type 0} (py : Builtins F) (lib : RuleLibrary F) (spec : Spec F) where
  run_from-Closes :
      (risk : RiskControls F) (refs : Series F) (start : ℕ) (candles : List (Candle F))
      → OnSome (Closes false) (run_from py lib spec risk refs start candles)
  run_from-Closes risk refs start [] = tt
  run_from-Closes risk refs start (c ∷ cs) =
      signals_from-Closes py lib spec risk refs start none (last_of py lib c cs)
        (drop start (c ∷ cs))

  generate-Closes :
      (warmup : ℕ) (candles : List (Candle F))
      → OnSome (Closes false) (generate py lib spec warmup candles)
  unfolding generate
  generate-Closes warmup candles = elim (Bool-cases (ltb (length candles) (warmup + 2))) [
    | inl few ↦ rw few tt
    | inr enough ↦ rw enough (
        OnSome-and_then (Closes false) (build_series py lib candles spec) _ (λ refs.
          OnSome-and_then (Closes false) (controls_of py lib spec.risk) _
            (λ risk. run_from-Closes risk refs (max 1 warmup) candles)))
  ]

  -- The signals of a strategy on any candles, where it does not raise, begin with an entry, are an
  -- entry and an exit in turn, and end with an exit: no position is entered twice or left open.
  pub signals_alternate :
      (warmup : ℕ) (candles : List (Candle F)) {signals : List (RawSignal F)}
      → generate py lib spec warmup candles ≡ some signals
      → Closes false signals
  signals_alternate warmup candles ran = of_some (Closes false) ran (generate-Closes warmup candles)
