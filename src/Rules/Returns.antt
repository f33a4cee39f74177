-- ===== src/Rules/Returns.antt =====
-- About the runs of a validated specification: what their turns give.
use coversational_algo_tradi.Python.{Builtins}
use coversational_algo_tradi.Rules.Spec.{
  Candle, Control, Missing, Operand, RiskControls, Rule, RuleLibrary, SessionSpec, SignalReason,
  Spec, absent, bad_stop_loss, bad_take_profit, bad_trailing_stop, controls, fraction, integer,
  malformed, no_control, no_session, number, other, text, unreadable, window,
}
use coversational_algo_tradi.Rules.Series.{count, drop, one, subscript}
use coversational_algo_tradi.Rules.References.{Series, lookup, reference_name}
use coversational_algo_tradi.Rules.Evaluate.{
  count_passed, eval_rule, feature_of, last, rule_confidence, rule_features, rules_pass,
}
use coversational_algo_tradi.Rules.Generate.{
  Holding, control_hit, enters, entry_signal, hit, in_session, is_long, last_of, leaves, may_enter,
  or_exit_rules, run_from, signals_from, turn, updated,
}
use coversational_algo_tradi.Rules.Validate.{
  check_control, check_risk, check_rule, check_rules, check_session,
}
use coversational_algo_tradi.Rules.Outcomes.{of_some}
use coversational_algo_tradi.Rules.Lengths.{HasLength, length-drop}
use coversational_algo_tradi.Rules.Covered.{
  Covers, append-nil, lookup-HasLength, subscript-in_range,
}
use coversational_algo_tradi.Rules.Resolution.{
  IsComplete, eval_rule-is_some, is_some-and_then, is_some-map, rules_pass-is_some,
}
use coversational_algo_tradi.Prelude.{
  All, Bool, List, Option, Option-cases, String, [], ap, arith, false, inl, inr, is_some, length,
  none, pos, refl, some, suc, true, ℕ, ◌++◌, ◌+◌, ◌<◌, ◌∷◌, ◌≡◌, ◌≤◌,
}

module _ {F : Type 0} (py : Builtins F) (lib : RuleLibrary F) where
  -- A division by a positive integer does not raise.
  abbrev pub DividesByCounts : Type 0
  DividesByCounts = (a : F) (n : ℕ) → is_some (py.div a (count py lib (suc n))) ≡ true

  hit-is_some :
      (c : Control F) (test : F → Bool) (high : F) (m : Missing)
      → check_control py lib c high m ≡ []
      → is_some (hit py lib c test) ≡ true
  hit-is_some no_control test high m clean = refl
  hit-is_some (fraction x) test high m clean = refl
  hit-is_some unreadable test high m clean = absurd (omega (arith, ap length clean))

  in_session-is_some :
      (s : SessionSpec) (timestamp : ℕ)
      → check_session py lib s ≡ []
      → is_some (in_session py lib s timestamp) ≡ true
  unfolding check_session in_session
  in_session-is_some no_session timestamp clean = refl
  in_session-is_some malformed timestamp clean = absurd (omega (arith, ap length clean))
  in_session-is_some (window start end) timestamp clean =
      elim (Option-cases (lib.clock_of timestamp)) [
        | inl undated ↦ rw (undated, in_session) refl
        | inr (clock, dated) ↦ rw (dated, in_session) refl
      ]

  module _ (n : ℕ) (known : List String) (refs : Series F) (covers : Covers n known refs)
      (index : ℕ) (h : index < n) where
    feature_of-is_some :
        (o : Operand F) (features : List (String × F))
        → is_some (feature_of py lib refs o index features) ≡ true
    feature_of-is_some (number x) features = refl
    feature_of-is_some (integer k) features = refl
    feature_of-is_some absent features = refl
    feature_of-is_some (other t) features = refl
    feature_of-is_some (text t) features =
        let name = reference_name py lib t in
        elim (Option-cases (lib.float_text t)) [
          | inr (x, numeric) ↦ rw (numeric, feature_of) refl
          | inl reference ↦ elim (Option-cases (lookup name refs)) [
            | inl missing ↦ rw (reference, missing, feature_of) refl
            | inr (values, found) ↦
                let size =
                  of_some (HasLength n) found (lookup-HasLength name n refs covers.aligned) in
                rw (reference, found, feature_of)
                  (is_some-map (subscript values index) _
                    (subscript-in_range values index (omega arith)))
          ]
        ]

    rule_features-is_some :
        (rs : List (Rule F)) (features : List (String × F))
        → is_some (rule_features py lib refs rs index features) ≡ true
    unfolding rule_features
    rule_features-is_some [] features = refl
    rule_features-is_some (r ∷ rs) features =
        is_some-and_then (feature_of py lib refs r.left index features) _
          (feature_of-is_some r.left features)
          (λ features' e.
            is_some-and_then (feature_of py lib refs r.right index features') _
              (feature_of-is_some r.right features')
              (λ features'' e'. rule_features-is_some rs features''))

    count_passed-is_some :
        (rs : List (Rule F))
        → All (IsComplete lib) rs
        → check_rules py lib known rs ≡ []
        → is_some (count_passed py lib refs rs index) ≡ true
    unfolding check_rules
    count_passed-is_some [] all clean = refl
    count_passed-is_some (r ∷ rs) (complete, all) clean =
        let (this, rest) =
          append-nil (check_rule py lib known r) (check_rules py lib known rs) clean in
        is_some-and_then (eval_rule py lib refs r index) _
          (eval_rule-is_some py lib n known refs covers r complete this index h)
          (λ passed e.
            is_some-map (count_passed py lib refs rs index) _ (count_passed-is_some rs all rest))

    rule_confidence-is_some :
        (rs : List (Rule F))
        → DividesByCounts
        → All (IsComplete lib) rs
        → check_rules py lib known rs ≡ []
        → is_some (rule_confidence py lib refs rs index) ≡ true
    unfolding rule_confidence
    rule_confidence-is_some [] divides all clean = refl
    rule_confidence-is_some (r ∷ rs) divides all clean =
        is_some-and_then (count_passed py lib refs (r ∷ rs) index) _
          (count_passed-is_some (r ∷ rs) all clean) (λ k e. divides (count py lib k) (length rs))

  -- What a turn relies on: the references, the rules, the risk controls and the session.
  pub record IsReady (spec : Spec F) (risk : RiskControls F) (known : List String) : Type 0 where
    pub entries : All (IsComplete lib) spec.entry_rules
    pub exits : All (IsComplete lib) spec.exit_rules
    pub entries_clean : check_rules py lib known spec.entry_rules ≡ []
    pub exits_clean : check_rules py lib known spec.exit_rules ≡ []
    pub risk_clean : check_risk py lib (controls risk) ≡ []
    pub session_clean : check_session py lib spec.session ≡ []
    pub divides : DividesByCounts

  module _ (spec : Spec F) (risk : RiskControls F) (n : ℕ) (known : List String) (refs : Series F)
      (covers : Covers n known refs) (ready : IsReady spec risk known) where
    control_hit-is_some :
        (price : F) (h : Holding F) → is_some (control_hit py lib spec risk refs price h) ≡ true
    unfolding control_hit check_risk
    control_hit-is_some price h =
        let stop = check_control py lib risk.stop_loss_pct (one py lib) bad_stop_loss in
        let target =
          check_control py lib risk.take_profit_pct (py.literal (pos 10) 0) bad_take_profit in
        let trail = check_control py lib risk.trailing_stop_pct (one py lib) bad_trailing_stop in
        let (three, size) = append-nil (stop ++ target ++ trail) _ ready.risk_clean in
        let (two, clean_trail) = append-nil (stop ++ target) trail three in
        let (clean_stop, clean_target) = append-nil stop target two in
        is_some-and_then (hit py lib risk.stop_loss_pct _) _
          (hit-is_some risk.stop_loss_pct _ _ bad_stop_loss clean_stop)
          (λ a ea.
            is_some-and_then (hit py lib risk.take_profit_pct _) _
              (hit-is_some risk.take_profit_pct _ _ bad_take_profit clean_target)
              (λ b eb.
                is_some-map (hit py lib risk.trailing_stop_pct _) _
                  (hit-is_some risk.trailing_stop_pct _ _ bad_trailing_stop clean_trail)))

    module _ (index : ℕ) (h : index < n) where
      or_exit_rules-is_some :
          (reached : Option SignalReason)
          → is_some (or_exit_rules py lib spec risk refs reached index) ≡ true
      or_exit_rules-is_some (some reason) = refl
      or_exit_rules-is_some none = is_some-map (rules_pass py lib refs spec.exit_rules index) _ (
          rules_pass-is_some py lib n known refs covers index h spec.exit_rules ready.exits
            ready.exits_clean)

      leaves-is_some :
          (c : Candle F) (k : Holding F) (reason : Option SignalReason)
          → is_some (leaves py lib spec risk refs c index k reason) ≡ true
      leaves-is_some c k none = refl
      leaves-is_some c k (some reason) =
          is_some-map (rule_features py lib refs spec.exit_rules index []) _
            (rule_features-is_some n known refs covers index h spec.exit_rules [])

      may_enter-is_some :
          (c : Candle F) (inside : Bool)
          → is_some (may_enter py lib spec risk refs c index inside) ≡ true
      may_enter-is_some c false = refl
      may_enter-is_some c true =
          rules_pass-is_some py lib n known refs covers index h spec.entry_rules ready.entries
            ready.entries_clean

      enters-is_some :
          (c : Candle F) (passed : Bool)
          → is_some (enters py lib spec risk refs c index passed) ≡ true
      enters-is_some c false = refl
      enters-is_some c true = is_some-map (entry_signal py lib spec risk refs c index) _ (
          is_some-and_then (rule_confidence py lib refs spec.entry_rules index) _
            (rule_confidence-is_some n known refs covers index h spec.entry_rules ready.divides
              ready.entries ready.entries_clean)
            (λ confidence e.
              is_some-map (rule_features py lib refs spec.entry_rules index []) _
                (rule_features-is_some n known refs covers index h spec.entry_rules [])))

      turn-is_some :
          (held : Option (Holding F)) (c : Candle F)
          → is_some (turn py lib spec risk refs index held c) ≡ true
      unfolding turn
      turn-is_some none c =
          is_some-and_then (in_session py lib spec.session c.timestamp) _
            (in_session-is_some spec.session c.timestamp ready.session_clean)
            (λ inside e.
              is_some-and_then (may_enter py lib spec risk refs c index inside) _
                (may_enter-is_some c inside) (λ passed e'. enters-is_some c passed))
      turn-is_some (some k) c =
          let k' = updated py lib (is_long py lib spec) c.price k in
          is_some-and_then (control_hit py lib spec risk refs c.price k') _
            (control_hit-is_some c.price k')
            (λ reached e.
              is_some-and_then (or_exit_rules py lib spec risk refs reached index) _
                (or_exit_rules-is_some reached) (λ reason e'. leaves-is_some c k' reason))

    signals_from-is_some :
        (index : ℕ) (held : Option (Holding F)) (last : Candle F) (cs : List (Candle F))
        → index + length cs ≡ n
        → is_some (signals_from py lib spec risk refs index held last cs) ≡ true
    unfolding signals_from
    signals_from-is_some index held last [] e = refl
    signals_from-is_some index held last (c ∷ cs) e =
        is_some-and_then (turn py lib spec risk refs index held c) _
          (turn-is_some index (omega arith) held c)
          (λ (s, held') e'.
            is_some-map (signals_from py lib spec risk refs (index + 1) held' c cs) _
              (signals_from-is_some (index + 1) held' c cs (omega arith)))

    pub run_from-is_some :
        (start : ℕ) (candles : List (Candle F))
        → length candles ≡ n
        → 1 ≤ n
        → start ≤ n
        → is_some (run_from py lib spec risk refs start candles) ≡ true
    run_from-is_some start [] e h k = absurd (omega arith)
    run_from-is_some start (c ∷ cs) e h k =
        signals_from-is_some start none (last_of py lib c cs) (drop start (c ∷ cs))
          (omega (arith, length-drop start (c ∷ cs) (omega arith)))
