-- ===== src/Rules/Resolution.antt =====
-- About the rules of a validated specification, at every candle of a run.
use mathlib.Core.Option
use mathlib.Core.List.{◌++◌}
use coversational_algo_tradi.Python.{Builtins}
use coversational_algo_tradi.Rules.Spec.{
  Operand, Rule, RuleLibrary, absent, and_then, integer, number, other, text, unknown_operator,
  unknown_reference,
}
use coversational_algo_tradi.Rules.References.{
  Series, contains, lookup, reference_name, supported_operators,
}
use coversational_algo_tradi.Rules.Evaluate.{
  before, compare_by, eval_rule, joined, last, operator_of, read_reference, rules_from, rules_pass,
  subscript_before, value_before, value_of, value_with,
}
use coversational_algo_tradi.Rules.Validate.{
  check_operand, check_rule, check_rules, operator_text, unless,
}
use coversational_algo_tradi.Rules.Outcomes.{of_some}
use coversational_algo_tradi.Rules.Lengths.{HasLength}
use coversational_algo_tradi.Rules.Covered.{
  Covers, append-nil, lookup-HasLength, lookup-contains, subscript-in_range, unless-nil,
}
use coversational_algo_tradi.Prelude.{
  All, Bool, List, Option, Option-cases, String, [], arith, false, get_or, if◌then◌else◌, inl, inr,
  is_some, length, none, refl, some, some_eq, str_eq, subst, suc, true, zero, ℕ, ◌<◌, ◌∷◌, ◌≡◌,
}
use coversational_algo_tradi.Rules.Series.{subscript}

module _ {A B : Type 0} where
  pub is_some-and_then :
      (o : Option A) (f : A → Option B)
      → is_some o ≡ true
      → ((a : A) → o ≡ some a → is_some (f a) ≡ true)
      → is_some (and_then o f) ≡ true
  is_some-and_then none f h k = absurd (ground arith)
  is_some-and_then (some a) f h k = k a refl

  pub is_some-map : (o : Option A) (f : A → B) → is_some o ≡ true → is_some (Option.map f o) ≡ true
  is_some-map none f h = absurd (ground arith)
  is_some-map (some a) f h = refl

map-get_or :
    {A B : Type 0} (f : A → B) (default : A) (o : Option A) {b : B}
    → Option.map f o ≡ some b
    → f (get_or o default) ≡ b
map-get_or f default none h = absurd (cc)
map-get_or f default (some a) h = some_eq h

module _ {F : Type 0} (lib : RuleLibrary F) where
  -- A side of a rule that is a text, a `float` or an `int` that `float` takes, and a rule that has all
  -- its parts.
  abbrev pub IsWritten : Operand F → Type 0
  IsWritten (number x) = Unit
  IsWritten (integer n) = is_some (lib.float_int n) ≡ true
  IsWritten (text t) = Unit
  IsWritten absent = ⊥
  IsWritten (other t) = ⊥

  pub record IsComplete (r : Rule F) : Type 0 where
    pub left : IsWritten r.left
    pub right : IsWritten r.right
    pub operator : is_some r.operator ≡ true

last-is_some : {A : Type 0} (xs : List A) → 0 < length xs → is_some (last xs) ≡ true
last-is_some [] h = absurd (omega arith)
last-is_some (x ∷ []) h = refl
last-is_some (x ∷ y ∷ xs) h = last-is_some (y ∷ xs) (omega arith)

module _ {F : Type 0} (py : Builtins F) (lib : RuleLibrary F) (n : ℕ) (known : List String)
    (refs : Series F) (covers : Covers n known refs) where
  -- A reading that every series of `n` values allows.
  Reads : (List F → Option F) → Type 0
  Reads read = (values : List F) → HasLength n values → is_some (read values) ≡ true

  subscript-Reads : (index : ℕ) → index < n → Reads (λ values. subscript values index)
  unfolding Reads
  subscript-Reads index h values size = subscript-in_range values index (omega arith)

  subscript_before-Reads : (index : ℕ) → index < n → Reads (λ values. subscript_before values index)
  unfolding Reads
  subscript_before-Reads zero h values size = last-is_some values (omega arith)
  subscript_before-Reads (suc i) h values size = subscript-in_range values i (omega arith)

  read_reference-is_some :
      (read : List F → Option F) (t : String)
      → Reads read
      → contains known (reference_name py lib t) ≡ true
      → is_some (read_reference py lib refs read t) ≡ true
  unfolding Reads
  read_reference-is_some read t reads listed =
      let name = reference_name py lib t in
      is_some-and_then (lookup name refs) read (lookup-contains name refs (rw covers.listed listed))
        (λ values found.
          reads values (of_some (HasLength n) found (lookup-HasLength name n refs covers.aligned)))

  value_with-is_some :
      (read : List F → Option F) (o : Operand F)
      → Reads read
      → IsWritten lib o
      → check_operand py lib known o ≡ []
      → is_some (value_with py lib refs read o) ≡ true
  unfolding value_with
  value_with-is_some read (number x) reads w clean = refl
  value_with-is_some read (integer n) reads w clean = w
  value_with-is_some read (text t) reads w clean = elim (Option-cases (lib.float_text t)) [
    | inr (x, numeric) ↦ rw (numeric, value_with, is_some) refl
    | inl reference ↦
        rw (reference, value_with)
          (read_reference-is_some read t reads (
            unless-nil (contains known (reference_name py lib t)) (unknown_reference t)
              (rw (reference, check_operand) at clean)))
  ]
  value_with-is_some read absent reads w clean = absurd w
  value_with-is_some read (other t) reads w clean = absurd w

  module _ (r : Rule F) (complete : IsComplete lib r) (clean : check_rule py lib known r ≡ []) where
    checks :
        (contains supported_operators (operator_text py lib r) ≡ true)
        × (check_operand py lib known r.left ≡ [])
        × (check_operand py lib known r.right ≡ [])
    unfolding check_rule
    checks =
        let known_operator =
          unless (contains supported_operators (operator_text py lib r))
            (unknown_operator (operator_text py lib r)) in
        let left = check_operand py lib known r.left in
        let (first, clean_right) =
          append-nil (known_operator ++ left) (check_operand py lib known r.right) clean in
        let (operator, clean_left) = append-nil known_operator left first in
        (
          unless-nil (contains supported_operators (operator_text py lib r))
              (unknown_operator (operator_text py lib r)) operator,
          clean_left,
          clean_right,
        )

    left-is_some :
        (read : List F → Option F)
        → Reads read
        → is_some (value_with py lib refs read r.left) ≡ true
    left-is_some read reads = value_with-is_some read r.left reads complete.left checks.1

    right-is_some :
        (read : List F → Option F)
        → Reads read
        → is_some (value_with py lib refs read r.right) ≡ true
    right-is_some read reads = value_with-is_some read r.right reads complete.right checks.2

    before-is_some :
        (index : ℕ) (test : F → F → Bool)
        → index < n
        → is_some (before py lib refs r index test) ≡ true
    before-is_some index test h =
        is_some-and_then (value_before py lib refs r.left index) _
          (left-is_some _ (subscript_before-Reads index h))
          (λ a found.
            is_some-map (value_before py lib refs r.right index) _
              (right-is_some _ (subscript_before-Reads index h)))

    compare_by-is_some :
        (operator : String) (index : ℕ) (a b : F)
        → index < n
        → contains supported_operators operator ≡ true
        → is_some (compare_by py lib refs operator r index a b) ≡ true
    compare_by-is_some operator index a b h supported = choice (str_eq operator ">") _ _ refl (λ e1.
        choice (str_eq operator "<") _ _ refl (λ e2. choice (str_eq operator ">=") _ _ refl (λ e3.
          choice (str_eq operator "<=") _ _ refl (λ e4.
            choice (str_eq operator "==") _ _ refl (λ e5.
              choice (str_eq operator "crosses_above") _ _
                (is_some-map (before py lib refs r index py.le) _ (before-is_some index py.le h))
                (λ e6.
                  choice (str_eq operator "crosses_below") _ _
                    (is_some-map (before py lib refs r index _) _ (before-is_some index _ h))
                    (λ e7. absurd (ground arith))))))))
      where
        choice :
            (test : Bool) (x y : Option Bool)
            → is_some x ≡ true
            → (test ≡ false → is_some y ≡ true)
            → is_some (if test then x else y) ≡ true
        choice true x y here there = here
        choice false x y here there = there refl

    pub eval_rule-is_some : (index : ℕ) → index < n → is_some (eval_rule py lib refs r index) ≡ true
    unfolding eval_rule
    eval_rule-is_some index h =
        is_some-and_then (value_of py lib refs r.left index) _
          (left-is_some _ (subscript-Reads index h))
          (λ a ea.
            is_some-and_then (value_of py lib refs r.right index) _
              (right-is_some _ (subscript-Reads index h))
              (λ b eb.
                is_some-and_then (operator_of py lib refs r) _
                  (is_some-map r.operator lib.lower complete.operator)
                  (λ operator eo. compare_by-is_some operator index a b h (
                    subst (λ o. contains supported_operators o ≡ true)
                      (map-get_or lib.lower "" r.operator eo) checks.0))))

  module _ (index : ℕ) (h : index < n) where
    rules_from-is_some :
        (result : Bool) (rs : List (Rule F))
        → All (IsComplete lib) rs
        → check_rules py lib known rs ≡ []
        → is_some (rules_from py lib refs result rs index) ≡ true
    unfolding check_rules
    rules_from-is_some result [] all clean = refl
    rules_from-is_some result (r ∷ rs) (complete, all) clean =
        let (this, rest) =
          append-nil (check_rule py lib known r) (check_rules py lib known rs) clean in
        is_some-and_then (eval_rule py lib refs r index) _
          (eval_rule-is_some r complete this index h)
          (λ passed e. rules_from-is_some (joined py lib refs r result passed) rs all rest)

    pub rules_pass-is_some :
        (rs : List (Rule F))
        → All (IsComplete lib) rs
        → check_rules py lib known rs ≡ []
        → is_some (rules_pass py lib refs rs index) ≡ true
    unfolding rules_pass check_rules
    rules_pass-is_some [] all clean = refl
    rules_pass-is_some (r ∷ rs) (complete, all) clean =
        let (this, rest) =
          append-nil (check_rule py lib known r) (check_rules py lib known rs) clean in
        is_some-and_then (eval_rule py lib refs r index) _
          (eval_rule-is_some r complete this index h)
          (λ passed e. rules_from-is_some passed rs all rest)

module _ {F : Type 0} (py : Builtins F) (lib : RuleLibrary F) where
  pub check_rules-append :
      (known : List String) (rs rs' : List (Rule F))
      → check_rules py lib known (rs ++ rs') ≡ []
      → (check_rules py lib known rs ≡ []) × (check_rules py lib known rs' ≡ [])
  unfolding check_rules
  check_rules-append known [] rs' h = (refl, h)
  check_rules-append known (r ∷ rs) rs' h =
      let (this, rest) =
        append-nil (check_rule py lib known r) (check_rules py lib known (rs ++ rs')) h in
      let (left, right) = check_rules-append known rs rs' rest in (rw this left, right)
