-- ===== src/Portfolio/Limits.antt =====
-- About an approval by the assessment inside `PortfolioService.evaluate_and_reserve`.
use coversational_algo_tradi.Prelude.{
  Bool-cases, Option, ap, arith, inl, inr, min_ℤ, min_ℤ-le, none, pos, refl, some, str_eq, subst,
  sym, true, ℤ, ◌<ℤ◌, ◌≡◌, ◌≤ℤ◌,
}
use coversational_algo_tradi.Python.{Builtins}
use coversational_algo_tradi.Portfolio.Rows.{Checks, PortfolioRiskPolicy, Side, buy, sell}
use coversational_algo_tradi.Portfolio.Reads.{enabled_by, min_computed}
use coversational_algo_tradi.Portfolio.Assess.{
  Assessment, Order, Reading, assess, available_to_sell, cash_bound, checks_of, gross_bound,
  hard_checks_pass, judged, judged_at, judged_quantity, limited_by, limited_quantity,
  order_value_bound, symbol_bound,
}

pub min_computed-some :
    (a b : Option ℤ) (m : ℤ)
    → min_computed a b ≡ some m
    → (x : ℤ) × (y : ℤ) × (a ≡ some x) × (b ≡ some y) × (m ≤ℤ x) × (m ≤ℤ y)
unfolding min_ℤ
min_computed-some none b m h = cc
min_computed-some (some x) none m h = cc
min_computed-some (some x) (some y) m h = (x, y, refl, refl, ground arith, ground arith)

-- `b` was computed, and bounds `q`.
abbrev pub Within : ℤ → Option ℤ → Type 0
Within q b = (bound : ℤ) × (b ≡ some bound) × (q ≤ℤ bound)

least_of_five :
    (a : ℤ) (b c d e : Option ℤ) (q : ℤ)
    → min_computed (min_computed (min_computed (min_computed (some a) b) c) d) e ≡ some q
    → (q ≤ℤ a) × Within q b × Within q c × Within q d × Within q e
least_of_five a b c d e q h =
    let abcd = min_computed (min_computed (min_computed (some a) b) c) d in
    let (x, y, ex, ey, mx, my) = min_computed-some abcd e q h in
    let (x', y', ex', ey', mx', my') =
      min_computed-some (min_computed (min_computed (some a) b) c) d x ex in
    let (x'', y'', ex'', ey'', mx'', my'') = min_computed-some (min_computed (some a) b) c x' ex' in
    let (x3, y3, ex3, ey3, mx3, my3) = min_computed-some (some a) b x'' ex'' in
    let asked : a ≡ x3 = cc in
    (
      rw asked (omega arith),
      (y3, ey3, omega arith),
      (y'', ey'', omega arith),
      (y', ey', omega arith),
      (y, ey, omega arith),
    )

module _ {F : Type 0} (py : Builtins F) (policy : PortfolioRiskPolicy F) (r : Reading F)
    (o : Order F) where
  pub judged-approved :
      (q : ℤ) (concentration : F)
      → pos 0 <ℤ (judged py policy r o q concentration).approved_quantity
      → ((judged py policy r o q concentration).approved_quantity ≡ q)
        × (hard_checks_pass py policy r o q (checks_of py policy r o q concentration) ≡ true)
        × ((judged py policy r o q concentration).checks ≡ checks_of py policy r o q concentration)
  unfolding judged
  judged-approved q concentration h =
      elim (Bool-cases
        (hard_checks_pass py policy r o q (checks_of py policy r o q concentration))) [
          | inl pass ↦ rw pass (refl, refl, refl)
          | inr fail ↦ let none_left : pos 0 <ℤ pos 0 = rw fail at h in absurd (omega arith)
        ]

  -- What an approval has been checked against.
  abbrev pub Cleared : Checks F → Type 0
  Cleared c =
      (str_eq r.status "active" ≡ true)
      × (enabled_by r.control ≡ true)
      × (py.lt r.loss policy.max_daily_loss ≡ true)
      × (c.concentration_passed ≡ true)

  hard_checks-Cleared :
      (q : ℤ) (concentration : F)
      → hard_checks_pass py policy r o q (checks_of py policy r o q concentration) ≡ true
      → Cleared (checks_of py policy r o q concentration)
  unfolding hard_checks_pass checks_of
  hard_checks-Cleared q concentration h = ground arith

  assess_at-approved :
      (q : ℤ) (concentration : Option F) (a : Assessment F)
      → judged_at py policy r o q concentration ≡ some a
      → pos 0 <ℤ a.approved_quantity
      → (a.approved_quantity ≡ q) × Cleared a.checks
  assess_at-approved q none a h positive = cc
  assess_at-approved q (some concentration) a h positive =
      let same : judged py policy r o q concentration ≡ a = cc in
      subst (λ a'. pos 0 <ℤ a'.approved_quantity → (a'.approved_quantity ≡ q) × Cleared a'.checks)
        same
        (λ p.
          let (exact, passed, kept) = judged-approved q concentration p in
          (exact, rw kept (hard_checks-Cleared q concentration passed)))
        positive

  judged_quantity-approved :
      (limited : Option ℤ) (a : Assessment F)
      → judged_quantity py policy r o limited ≡ some a
      → pos 0 <ℤ a.approved_quantity
      → (limited ≡ some a.approved_quantity) × Cleared a.checks
  judged_quantity-approved none a h positive = cc
  judged_quantity-approved (some q) a h positive =
      let (exact, cleared) = assess_at-approved q _ a h positive in (ap some (sym exact), cleared)

  -- An approved quantity is the one that the limits leave, and every hard check has passed.
  pub assess-approved :
      (a : Assessment F)
      → assess py policy r o ≡ some a
      → pos 0 <ℤ a.approved_quantity
      → (limited_quantity py policy r o ≡ some a.approved_quantity) × Cleared a.checks
  unfolding assess
  assess-approved a h positive =
      judged_quantity-approved (limited_quantity py policy r o) a h positive

  buy_limits :
      (q : ℤ)
      → limited_by py policy r o buy ≡ some q
      → (q ≤ℤ o.quantity)
        × Within q (order_value_bound py policy r o)
        × Within q (cash_bound py policy r o)
        × Within q (gross_bound py policy r o)
        × Within q (symbol_bound py policy r o)
  buy_limits q h =
      least_of_five o.quantity (order_value_bound py policy r o) (cash_bound py policy r o)
        (gross_bound py policy r o) (symbol_bound py policy r o) q h

  sell_limits :
      (q : ℤ)
      → limited_by py policy r o sell ≡ some q
      → (q ≤ℤ o.quantity) × (q ≤ℤ available_to_sell py policy r o)
  sell_limits q h =
      let same : min_ℤ o.quantity (available_to_sell py policy r o) ≡ q = cc in
      rw (← same) (min_ℤ-le o.quantity (available_to_sell py policy r o))

  -- The bounds on an approved quantity, by the side of the order.
  abbrev pub Allowed : ℤ → Side → Type 0
  Allowed q buy =
      (q ≤ℤ o.quantity)
      × Within q (order_value_bound py policy r o)
      × Within q (cash_bound py policy r o)
      × Within q (gross_bound py policy r o)
      × Within q (symbol_bound py policy r o)
  Allowed q sell = (q ≤ℤ o.quantity) × (q ≤ℤ available_to_sell py policy r o)

  limited_by-Allowed :
      (side : Side) (q : ℤ) → limited_by py policy r o side ≡ some q → Allowed q side
  limited_by-Allowed buy q h = buy_limits q h
  limited_by-Allowed sell q h = sell_limits q h

  -- An approved quantity is within the bounds, and every hard check has passed.
  pub assess-Allowed :
      (a : Assessment F)
      → assess py policy r o ≡ some a
      → pos 0 <ℤ a.approved_quantity
      → Allowed a.approved_quantity o.side × Cleared a.checks
  unfolding limited_quantity
  assess-Allowed a h positive =
      let (limited, cleared) = assess-approved a h positive in
      (limited_by-Allowed o.side a.approved_quantity limited, cleared)
