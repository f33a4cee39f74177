-- ===== src/Rules/Evaluate.antt =====
-- Rules at one candle: `_value`, `_eval_rule`, `_rules_pass`, `_rule_confidence` and
-- `_rule_features` of iimc_trading_platform/strategies/rule_spec.py.
use mathlib.Core.Option
use coversational_algo_tradi.Python.{Builtins, zero_float}
use coversational_algo_tradi.Rules.Spec.{
  Operand, Rule, RuleLibrary, absent, and_then, integer, number, other, text,
}
use coversational_algo_tradi.Rules.Series.{count, subscript}
use coversational_algo_tradi.Rules.References.{Series, lookup, reference_name}
use coversational_algo_tradi.Prelude.{
  Bool, List, Option, String, [], false, get_or, if◌then◌else◌, length, none, pos, some, str_eq,
  suc, zero, ℕ, ◌&&◌, ◌+◌, ◌||◌, ◌∷◌,
}

module _ {A : Type 0} where
  -- `xs[-1]`
  abbrev pub last : List A → Option A
  last [] = none
  last (x ∷ []) = some x
  last (x ∷ y ∷ xs) = last (y ∷ xs)

  -- `xs[i - 1]`, which at 0 is the last element
  abbrev pub subscript_before : List A → ℕ → Option A
  subscript_before xs zero = last xs
  subscript_before xs (suc i) = subscript xs i

module _ {F : Type 0} (py : Builtins F) (lib : RuleLibrary F) (refs : Series F) where
  abbrev pub read_reference : (List F → Option F) → String → Option F
  read_reference read value = and_then (lookup (reference_name py lib value) refs) read

  -- `_value`, of what `rule[side]` gives, with a reading of the series in place of the index
  unfoldable pub value_with : (List F → Option F) → Operand F → Option F
  unfolding reference_name
  value_with read (number x) = some x
  value_with read (integer n) = lib.float_int n
  value_with read (text t) = elim (lib.float_text t) [
    | some x ↦ some x
    | none ↦ read_reference read t
  ]
  value_with read absent = none
  value_with read (other t) = read_reference read t

  -- `_value`
  abbrev pub value_of : Operand F → ℕ → Option F
  value_of operand index = value_with (λ values. subscript values index) operand

  abbrev pub operator_of : Rule F → Option String
  operator_of r = Option.map lib.lower r.operator

  -- `_value(rule[side], refs, index - 1)`
  abbrev pub value_before : Operand F → ℕ → Option F
  value_before operand index = value_with (λ values. subscript_before values index) operand

  -- The last two operators look at the candle before.
  abbrev pub before : Rule F → ℕ → (F → F → Bool) → Option Bool
  before r index test =
      and_then (value_before r.left index)
        λ left. Option.map (λ right. test left right) (value_before r.right index)

  abbrev pub compare_by : String → Rule F → ℕ → F → F → Option Bool
  compare_by operator r index left right =
      if str_eq operator ">"
      then some (py.lt right left)
      else if str_eq operator "<"
      then some (py.lt left right)
      else if str_eq operator ">="
      then some (py.le right left)
      else if str_eq operator "<="
      then some (py.le left right)
      else if str_eq operator "=="
      then some (py.le (py.abs (py.sub left right)) (py.literal (pos 1) 9))
      else if str_eq operator "crosses_above"
      then Option.map (λ was. was && py.lt right left) (before r index py.le)
      else if str_eq operator "crosses_below"
      then Option.map (λ was. was && py.lt left right) (before r index (λ a b. py.le b a))
      else none

  unfoldable pub eval_rule : Rule F → ℕ → Option Bool
  unfolding value_with
  eval_rule r index = and_then (value_of r.left index) λ left.
      and_then (value_of r.right index)
        λ right. and_then (operator_of r) λ operator. compare_by operator r index left right

  abbrev pub is_or : Rule F → Bool
  is_or r = str_eq (py.upper (get_or r.joiner "AND")) "OR"

  abbrev pub joined : Rule F → Bool → Bool → Bool
  joined r result passed = if is_or r then result || passed else result && passed

  abbrev pub rules_from : Bool → List (Rule F) → ℕ → Option Bool
  rules_from result [] index = some result
  rules_from result (r ∷ rs) index =
      and_then (eval_rule r index) λ passed. rules_from (joined r result passed) rs index

  -- `_rules_pass`: the joiner of the first rule is not looked at, and no rules do not pass.
  unfoldable pub rules_pass : List (Rule F) → ℕ → Option Bool
  unfolding eval_rule
  rules_pass [] index = some false
  rules_pass (r ∷ rs) index = and_then (eval_rule r index) λ passed. rules_from passed rs index

  abbrev pub count_passed : List (Rule F) → ℕ → Option ℕ
  count_passed [] index = some 0
  count_passed (r ∷ rs) index =
      and_then (eval_rule r index)
        λ passed. Option.map (λ n. if passed then n + 1 else n) (count_passed rs index)

  unfoldable pub rule_confidence : List (Rule F) → ℕ → Option F
  unfolding eval_rule
  rule_confidence [] index = some (zero_float py)
  rule_confidence (r ∷ rs) index =
      and_then (count_passed (r ∷ rs) index)
        λ n. py.div (count py lib n) (count py lib (length (r ∷ rs)))

  -- The value of a text that is a reference; `none` inside where there is nothing to record.
  abbrev pub feature_of : Operand F → ℕ → List (String × F) → Option (List (String × F))
  feature_of (text t) index features = elim (lib.float_text t) [
    | some x ↦ some features
    | none ↦ elim (lookup (reference_name py lib t) refs) [
      | none ↦ some features
      | some values ↦
          Option.map (λ v. (reference_name py lib t, v) ∷ features) (subscript values index)
    ]
  ]
  feature_of operand index features = some features

  unfoldable pub rule_features : List (Rule F) → ℕ → List (String × F) → Option (List (String × F))
  unfolding reference_name
  rule_features [] index features = some features
  rule_features (r ∷ rs) index features = and_then (feature_of r.left index features) λ features'.
      and_then (feature_of r.right index features') λ features''. rule_features rs index features''
