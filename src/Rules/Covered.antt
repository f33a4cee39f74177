-- ===== src/Rules/Covered.antt =====
-- About the references of a specification: those that the validation lists, and the series of the run.
use mathlib.Core.List.{◌++◌}
use coversational_algo_tradi.Python.{Builtins}
use coversational_algo_tradi.Rules.Spec.{
  Candle, Indicator, Missing, RawFeature, RuleLibrary, Spec, clashing_feature, feature,
  no_entry_rule, no_exit_rule, not_an_object,
}
use coversational_algo_tradi.Rules.Series.{subscript}
use coversational_algo_tradi.Rules.References.{
  Series, base_series, build_indicator, build_indicators, build_series, contains, data_fields,
  features_of, indicator_reference, indicator_series, lookup, natural, period_or, source_of,
  type_of, with_feature, with_features,
}
use coversational_algo_tradi.Rules.Validate.{
  Known, add_feature, add_features, add_indicator, add_indicators, check_indicator, check_side,
  feature_name_of, features_known, indicators_known, is_given, is_taken, unless, with_missing,
}
use coversational_algo_tradi.Rules.Outcomes.{OnSome, OnSome-and_then_of, OnSome-map_of}
use coversational_algo_tradi.Rules.Lengths.{HasLength, indicator_series-HasLength, length-map}
use coversational_algo_tradi.Prelude.{
  All, Bool, Bool-cases, List, Option, Option-cases, String, [], ap, arith, eq_iff, eq_refl, false,
  inl, inr, is_some, length, map, negsuc, none, pos, refl, some, str_eq, suc, true, zero, ℕ, ℤ, ◌<◌,
  ◌∷◌, ◌≡◌, ◌≤◌,
}

module _ {A : Type 0} where
  pub append-nil : (xs ys : List A) → xs ++ ys ≡ [] → (xs ≡ []) × (ys ≡ [])
  append-nil [] ys h = (refl, h)
  append-nil (x ∷ xs) ys h = absurd (omega (arith, ap length h))

  pub append_one-absurd : {B : Type 0} (xs : List A) (x : A) → xs ++ x ∷ [] ≡ [] → B
  append_one-absurd xs x h = absurd (omega (arith, ap length (append-nil xs (x ∷ []) h).1))

pub unless-nil : (b : Bool) (m : Missing) → unless b m ≡ [] → b ≡ true
unless-nil true m h = refl
unless-nil false m h = absurd (omega (arith, ap length h))

module _ {F : Type 0} where
  abbrev pub names : Series F → List String
  names refs = map (λ r. r.0) refs

  -- Every series has one value for each candle.
  abbrev pub AreAligned : ℕ → Series F → Type 0
  AreAligned n refs = All (λ r. length r.1 ≡ n) refs

  -- The series of the names `known`, each of length `n`.
  pub record Covers (n : ℕ) (known : List String) (refs : Series F) : Type 0 where
    pub listed : names refs ≡ known
    pub aligned : AreAligned n refs

  pub lookup-HasLength :
      (x : String) (n : ℕ) (refs : Series F)
      → AreAligned n refs
      → OnSome (HasLength n) (lookup x refs)
  lookup-HasLength x n [] h = tt
  lookup-HasLength x n ((y, v) ∷ rest) (here, later) = elim (Bool-cases (str_eq y x)) [
    | inl found ↦ rw found here
    | inr away ↦ rw away (lookup-HasLength x n rest later)
  ]

  pub lookup-contains :
      (x : String) (refs : Series F)
      → contains (names refs) x ≡ true
      → is_some (lookup x refs) ≡ true
  lookup-contains x [] h = absurd (ground arith)
  lookup-contains x ((y, v) ∷ rest) h = elim (Bool-cases (str_eq y x)) [
    | inl found ↦ rw found refl
    | inr away ↦ rw away (lookup-contains x rest (listed away))
  ]
    where
      listed : str_eq y x ≡ false → contains (names rest) x ≡ true
      listed away = elim (Bool-cases (str_eq x y)) [
        | inr apart ↦ rw apart at h
        | inl same ↦ let bad : str_eq y x ≡ true = rw ((eq_iff x y).0 same) (eq_refl y) in cc
      ]

  pub subscript-in_range : (xs : List F) (i : ℕ) → i < length xs → is_some (subscript xs i) ≡ true
  subscript-in_range [] i h = absurd (omega arith)
  subscript-in_range (x ∷ xs) zero h = refl
  subscript-in_range (x ∷ xs) (suc i) h = subscript-in_range xs i (omega arith)

module _ {F : Type 0} (py : Builtins F) (lib : RuleLibrary F) where
  pub period_or-positive : (p : Option ℤ) → OnSome (λ n. 1 ≤ n) (natural py lib (period_or 1 p))
  period_or-positive none = omega arith
  period_or-positive (some (pos zero)) = omega arith
  period_or-positive (some (pos (suc n))) = omega arith
  period_or-positive (some (negsuc n)) = tt

  pub build_indicator-Covers :
      (candles : List (Candle F)) (i : Indicator F) (known : List String) (refs : Series F)
      → Covers (length candles) known refs
      → OnSome
          (Covers (length candles) (indicator_reference py lib i ∷ known))
          (build_indicator py lib candles i refs)
  unfolding build_indicator
  build_indicator-Covers candles i known refs h =
      let n = length candles in
      let P = Covers n (indicator_reference py lib i ∷ known) in
      OnSome-and_then_of P (HasLength n) (lookup (source_of py lib i) refs) _
        (lookup-HasLength (source_of py lib i) n refs h.aligned)
        (λ values e.
          OnSome-and_then_of P (λ k. 1 ≤ k) (natural py lib (period_or 1 i.period)) _
            (period_or-positive i.period)
            (λ period positive.
              OnSome-map_of P (HasLength n)
                (indicator_series py lib candles i (type_of py lib i) values period) _
                (indicator_series-HasLength py lib candles i (type_of py lib i) values period
                  positive e)
                (λ vs e'. record {
                  listed = ap (λ k. indicator_reference py lib i ∷ k) h.listed;
                  aligned = (e', h.aligned);
                })))

  build_indicators-Covers :
      (candles : List (Candle F)) (is : List (Indicator F)) (k : Known) (refs : Series F)
      → Covers (length candles) k.refs refs
      → OnSome
          (Covers (length candles) (add_indicators py lib is k).refs)
          (build_indicators py lib candles is refs)
  unfolding build_indicators add_indicators add_indicator
  build_indicators-Covers candles [] k refs h = h
  build_indicators-Covers candles (i ∷ is) k refs h =
      OnSome-and_then_of
        (Covers (length candles) (add_indicators py lib is (add_indicator py lib i k)).refs)
        (Covers (length candles) (add_indicator py lib i k).refs)
        (build_indicator py lib candles i refs) _ (build_indicator-Covers candles i k.refs refs h)
        (λ refs' h'. build_indicators-Covers candles is (add_indicator py lib i k) refs' h')

  base_series-Covers :
      (candles : List (Candle F)) → Covers (length candles) data_fields (base_series py lib candles)
  unfolding base_series
  base_series-Covers candles = record {
    listed = refl;
    aligned = (sized _, (sized _, (sized _, (sized _, (sized _, (sized _, tt))))));
  }
    where
      sized : (f : Candle F → F) → length (map f candles) ≡ length candles
      sized f = length-map f candles

  -- The features.
  add_feature-nil :
      (name : Option String) (k : Known) → (add_feature py lib name k).missing ≡ [] → k.missing ≡ []
  add_feature-nil none k h = h
  add_feature-nil (some name) k h = elim (Bool-cases (is_taken py lib name k.seen)) [
    | inl taken ↦ append_one-absurd k.missing (clashing_feature name) (rw taken at h)
    | inr free ↦ rw free at h
  ]

  add_features-nil :
      (fs : List (RawFeature F)) (k : Known)
      → (add_features py lib fs k).missing ≡ []
      → k.missing ≡ []
  unfolding add_features
  add_features-nil [] k h = h
  add_features-nil (f ∷ fs) k h =
      add_feature-nil (feature_name_of py lib f) k
        (add_features-nil fs (add_feature py lib (feature_name_of py lib f) k) h)

  add_feature-Covers :
      (candles : List (Candle F)) (f : RawFeature F) (k : Known) (refs : Series F)
      → (add_feature py lib (feature_name_of py lib f) k).missing ≡ []
      → Covers (length candles) k.refs refs
      → Covers
          (length candles)
          (add_feature py lib (feature_name_of py lib f) k).refs
          (with_feature py lib candles f refs)
  add_feature-Covers candles not_an_object k refs h c = c
  add_feature-Covers candles (feature f) k refs h c = elim (Option-cases f.name) [
    | inl unnamed ↦ rw unnamed c
    | inr (name, named) ↦ elim (Bool-cases (is_taken py lib name k.seen)) [
      | inl taken ↦ append_one-absurd k.missing (clashing_feature name) (rw (named, taken) at h)
      | inr free ↦
          rw (named, free)
            (record {
              listed = ap (λ ns. name ∷ ns) c.listed;
              aligned = (length-map _ candles, c.aligned);
            })
    ]
  ]

  with_features-Covers :
      (candles : List (Candle F)) (fs : List (RawFeature F)) (k : Known) (refs : Series F)
      → (add_features py lib fs k).missing ≡ []
      → Covers (length candles) k.refs refs
      → Covers
          (length candles)
          (add_features py lib fs k).refs
          (with_features py lib candles fs refs)
  unfolding add_features with_features
  with_features-Covers candles [] k refs h c = c
  with_features-Covers candles (f ∷ fs) k refs h c =
      let k' = add_feature py lib (feature_name_of py lib f) k in
      with_features-Covers candles fs k' (with_feature py lib candles f refs) h
        (add_feature-Covers candles f k refs (add_features-nil fs k' h) c)

  pub add_indicators-nil :
      (is : List (Indicator F)) (k : Known)
      → (add_indicators py lib is k).missing ≡ []
      → k.missing ≡ []
  unfolding add_indicators add_indicator
  add_indicators-nil [] k h = h
  add_indicators-nil (i ∷ is) k h =
      (append-nil k.missing (check_indicator py lib i k)
        (add_indicators-nil is (add_indicator py lib i k) h)).0

  -- The references before the indicators, where the validation finds nothing missing.
  abbrev pub before_indicators : Spec F → Known
  before_indicators spec =
      with_missing py lib
        (check_side py lib spec
          ++ unless (is_given py lib spec.entry_rules) no_entry_rule
          ++ unless (is_given py lib spec.exit_rules) no_exit_rule)
        (features_known py lib spec)

  abbrev pub feature_references : Spec F → List (Candle F) → Series F
  feature_references spec candles =
      with_features py lib candles (features_of py lib spec.feature_inputs)
        (base_series py lib candles)

  pub features-Covers :
      (spec : Spec F) (candles : List (Candle F))
      → (indicators_known py lib spec).missing ≡ []
      → Covers (length candles) (before_indicators spec).refs (feature_references spec candles)
  unfolding indicators_known features_known
  features-Covers spec candles h =
      let known = add_indicators-nil spec.indicators _ h in
      with_features-Covers candles (features_of py lib spec.feature_inputs) _
        (base_series py lib candles) (append-nil (features_known py lib spec).missing _ known).0
        (base_series-Covers candles)

  -- The references of a validated specification, and the series of a run on any candles.
  pub build_series-Covers :
      (spec : Spec F) (candles : List (Candle F))
      → (indicators_known py lib spec).missing ≡ []
      → OnSome
          (Covers (length candles) (indicators_known py lib spec).refs)
          (build_series py lib candles spec)
  unfolding build_series indicators_known
  build_series-Covers spec candles h =
      build_indicators-Covers candles spec.indicators (before_indicators spec)
        (feature_references spec candles) (features-Covers spec candles h)
