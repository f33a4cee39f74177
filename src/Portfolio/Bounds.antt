-- ===== src/Portfolio/Bounds.antt =====
-- About an approval by the assessment inside `PortfolioService.evaluate_and_reserve`, in terms of what
-- it has read.
use coversational_algo_tradi.Python.{Builtins, zero_float}
use coversational_algo_tradi.Portfolio.Rows.{
  ControlRow, PortfolioRiskPolicy, PositionRow, ReservationRow, Side, buy, sell, side_eq,
}
use coversational_algo_tradi.Portfolio.Reads.{
  enabled_by, floor_of_ratio, last_price_of, notionals, quantity_of, reserved_sell_quantity, sells,
  sum_quantities,
}
use coversational_algo_tradi.Portfolio.Assess.{
  Assessment, Order, Reading, assess, available_to_sell, cash_bound, checks_of, concentration_of,
  gross_after, gross_bound, hard_checks_pass, judged, judged_at, judged_quantity, limited_quantity,
  order_value_bound, room, symbol_after, symbol_bound,
}
use coversational_algo_tradi.Prelude.{
  Bool, Bool-cases, List, Option, Option-cases, [], ap, both_true, eq_iff, false, if◌then◌else◌,
  inl, inr, int_laws, ltb_ℤ, map, neg_part, none, not, pos, pos_part, refl, some, some_eq, str_eq,
  subst, sym, true, where_rows, ℤ, ◌&&◌, ◌+ℤ◌, ◌-ℤ◌, ◌<ℤ◌, ◌||◌, ◌∷◌, ◌≡◌, ◌≤ℤ◌, ◌⊎◌,
}
use coversational_algo_tradi.Portfolio.Limits.{Allowed, Within, assess-Allowed, judged-approved}
use coversational_algo_tradi.Portfolio.Approvals.{max_ℤ-pos}

module _ {F : Type 0} (py : Builtins F) (policy : PortfolioRiskPolicy F) (r : Reading F)
    (o : Order F) where
  -- `q` is at most `math.floor(amount / price)`.
  abbrev pub WithinRatio : ℤ → F → Type 0
  WithinRatio q amount =
      (x : F) × (n : ℤ) × (py.div amount o.price ≡ some x) × (py.floor x ≡ some n) × (q ≤ℤ n)

  -- What is held of the symbol, and its value.
  abbrev pub held : Option (PositionRow F) → ℤ
  held none = pos 0
  held (some row) = row.quantity

  abbrev pub value_held : Option (PositionRow F) → F
  value_held none = py.mul (py.of_int (pos 0)) o.price
  value_held (some row) = py.mul (py.of_int row.quantity) row.last_price

  abbrev pub purchases : ReservationRow F → Bool
  purchases x = side_eq x.side buy

  abbrev pub purchases_of_symbol : ReservationRow F → Bool
  purchases_of_symbol x = str_eq x.symbol o.symbol && side_eq x.side buy

  abbrev pub total_of : (ReservationRow F → Bool) → F
  total_of test = py.sum (map (λ x. x.notional) (where_rows test r.reservations))

  -- What is promised to sales of the symbol.
  abbrev pub promised : List (ReservationRow F) → ℤ
  promised [] = pos 0
  promised (x ∷ xs) =
      if str_eq x.symbol o.symbol && side_eq x.side sell
      then x.quantity +ℤ promised xs
      else promised xs

  -- `max(amount, 0.0)`
  abbrev pub at_least_zero : F → F
  at_least_zero amount = if py.lt amount (zero_float py) then zero_float py else amount

  abbrev pub HasRoom : ℤ → Side → Type 0
  HasRoom q buy =
      WithinRatio q policy.max_order_value
      × WithinRatio q (at_least_zero (py.sub r.cash (total_of purchases)))
      × WithinRatio q
          (at_least_zero (py.sub (py.sub policy.max_gross_exposure r.gross) (total_of purchases)))
      × WithinRatio q (at_least_zero (py.sub policy.max_symbol_exposure (value_held r.position)))
  HasRoom q sell = q +ℤ promised r.reservations ≤ℤ held r.position

  abbrev pub IsOpen : Type 0
  IsOpen =
      (r.status ≡ "active")
      × ((r.control ≡ none)
          ⊎ ((c : ControlRow) × (r.control ≡ some c) × (c.trading_enabled ≡ true)))
      × (py.lt r.loss policy.max_daily_loss ≡ true)

  -- A share of the symbol in the gross exposure that is not enforced or not too large.
  abbrev pub HasShare : F → F → Type 0
  HasShare symbol gross =
      (py.le policy.concentration_activation_value gross ≡ false)
      ⊎ ((py.is_zero gross ≡ true) × (py.le (zero_float py) policy.max_concentration_pct ≡ true))
      ⊎ ((c : F) × (py.div symbol gross ≡ some c) × (py.le c policy.max_concentration_pct ≡ true))

  abbrev pub IsSpread : ℤ → Side → Type 0
  IsSpread q buy =
      HasShare
        (py.add (py.add (value_held r.position) (total_of purchases_of_symbol))
          (py.mul (py.of_int q) o.price))
        (py.add (py.add r.gross (total_of purchases)) (py.mul (py.of_int q) o.price))
  IsSpread q sell =
      HasShare (at_least_zero (py.sub (value_held r.position) (py.mul (py.of_int q) o.price)))
        (at_least_zero (py.sub r.gross (py.mul (py.of_int q) o.price)))

  quantity_of-held : (m : Option (PositionRow F)) → quantity_of m ≡ held m
  quantity_of-held none = refl
  quantity_of-held (some row) = refl

  value_held-eq :
      (m : Option (PositionRow F))
      → py.mul (py.of_int (quantity_of m)) (last_price_of o.price m) ≡ value_held m
  value_held-eq none = refl
  value_held-eq (some row) = refl

  reserved-promised :
      (xs : List (ReservationRow F)) → reserved_sell_quantity o.symbol xs ≡ promised xs
  unfolding reserved_sell_quantity sum_quantities
  reserved-promised [] = refl
  reserved-promised (x ∷ xs) = elim (Bool-cases (sells o.symbol x)) [
    | inl sale ↦ rw (sale, ← reserved-promised xs) refl
    | inr kept ↦ rw (kept, ← reserved-promised xs) refl
  ]

  WithinRatio-of :
      (q : ℤ) (amount : F) → Within q (floor_of_ratio py amount o.price) → WithinRatio q amount
  unfolding floor_of_ratio
  WithinRatio-of q amount (n, computed, within) = elim (Option-cases (py.div amount o.price)) [
    | inl raises ↦ let bad : none ≡ some n = rw (raises, floor_of_ratio) at computed in absurd (cc)
    | inr (x, given) ↦ (x, n, given, rw (given, floor_of_ratio) at computed, within)
  ]

  Allowed-HasRoom :
      (q : ℤ) (side : Side)
      → pos 0 <ℤ q
      → Allowed py policy r o q side
      → (q ≤ℤ o.quantity) × HasRoom q side
  unfolding order_value_bound cash_bound gross_bound symbol_bound available_to_sell notionals
  Allowed-HasRoom q buy positive (asked, order, cash, gross, symbol) = (
    asked,
    (
      WithinRatio-of q _ order,
      WithinRatio-of q _ cash,
      WithinRatio-of q _ gross,
      WithinRatio-of q _ (rw (value_held-eq r.position) at symbol),
    ),
  )
  Allowed-HasRoom q sell positive (asked, rest) = (
    asked,
    omega (
      int_laws,
      max_ℤ-pos (quantity_of r.position -ℤ reserved_sell_quantity o.symbol r.reservations) q
          positive rest,
      ap pos_part (reserved-promised r.reservations),
      ap neg_part (reserved-promised r.reservations),
      ap pos_part (quantity_of-held r.position),
      ap neg_part (quantity_of-held r.position),
    ),
  )

  -- The share that the code computes, and what passes with it.
  HasShare-of :
      (symbol gross concentration : F)
      → concentration_of py policy r o symbol gross ≡ some concentration
      → (not (py.le policy.concentration_activation_value gross)
          || py.le concentration policy.max_concentration_pct)
        ≡ true
      → HasShare symbol gross
  HasShare-of symbol gross concentration computed passed =
      elim (Bool-cases (py.le policy.concentration_activation_value gross)) [
        | inr lax ↦ inl lax
        | inl enforced ↦
            let within : py.le concentration policy.max_concentration_pct ≡ true =
              rw enforced at passed in
            elim (Bool-cases (py.is_zero gross)) [
              | inl nought ↦
                  let same : some (zero_float py) ≡ some concentration = rw nought at computed in
                  inr (inl (nought, rw (some_eq same) within))
              | inr some_gross ↦ inr (inr (concentration, rw some_gross at computed, within))
            ]
      ]

  IsSpread-of :
      (side : Side) (q : ℤ) (concentration : F)
      → concentration_of py policy r o
          (symbol_after py policy r o side q)
          (gross_after py policy r o side q)
        ≡ some concentration
      → (not (py.le policy.concentration_activation_value (gross_after py policy r o side q))
          || py.le concentration policy.max_concentration_pct)
        ≡ true
      → IsSpread q side
  unfolding notionals
  IsSpread-of buy q concentration computed passed =
      subst
        (λ v.
          HasShare (py.add (py.add v (total_of purchases_of_symbol)) (py.mul (py.of_int q) o.price))
            (py.add (py.add r.gross (total_of purchases)) (py.mul (py.of_int q) o.price)))
        (value_held-eq r.position) (HasShare-of _ _ concentration computed passed)
  IsSpread-of sell q concentration computed passed =
      subst
        (λ v.
          HasShare (at_least_zero (py.sub v (py.mul (py.of_int q) o.price)))
            (at_least_zero (py.sub r.gross (py.mul (py.of_int q) o.price))))
        (value_held-eq r.position) (HasShare-of _ _ concentration computed passed)

  IsOpen-of :
      str_eq r.status "active" ≡ true
      → enabled_by r.control ≡ true
      → py.lt r.loss policy.max_daily_loss ≡ true
      → IsOpen
  IsOpen-of is_on enabled loss = (
    (eq_iff r.status "active").0 is_on,
    elim (Option-cases r.control) [
      | inl unset ↦ inl unset
      | inr (c, set) ↦ inr (c, set, rw set at enabled)
    ],
    loss,
  )

  judged_at-passes :
      (q : ℤ) (concentration : Option F) (a : Assessment F)
      → judged_at py policy r o q concentration ≡ some a
      → pos 0 <ℤ a.approved_quantity
      → (a.approved_quantity ≡ q)
        × (c : F) × (concentration ≡ some c)
        × (hard_checks_pass py policy r o q (checks_of py policy r o q c) ≡ true)
  judged_at-passes q none a h positive = cc
  judged_at-passes q (some concentration) a h positive =
      let same : judged py policy r o q concentration ≡ a = cc in
      let left = subst (λ a'. pos 0 <ℤ a'.approved_quantity) (sym same) positive in
      let (exact, passed, kept) = judged-approved py policy r o q concentration left in
      (subst (λ a'. a'.approved_quantity ≡ q) same exact, concentration, refl, passed)

  judged_quantity-IsSpread :
      (limited : Option ℤ) (a : Assessment F)
      → judged_quantity py policy r o limited ≡ some a
      → pos 0 <ℤ a.approved_quantity
      → IsOpen × IsSpread a.approved_quantity o.side
  unfolding hard_checks_pass checks_of
  judged_quantity-IsSpread none a h positive = cc
  judged_quantity-IsSpread (some q) a h positive =
      let (exact, concentration, computed, passed) = judged_at-passes q _ a h positive in
      let (is_on, rest) = both_true (str_eq r.status "active") _ passed in
      let (enabled, rest') = both_true (enabled_by r.control) _ rest in
      let (loss, rest'') = both_true (py.lt r.loss policy.max_daily_loss) _ rest' in
      let (some_left, share) = both_true (ltb_ℤ (pos 0) q) _ rest'' in
      (IsOpen-of is_on enabled loss, rw exact (IsSpread-of o.side q concentration computed share))

  -- If the assessment approves a quantity, then it is at most what was asked. For a purchase it is at
  -- most each of `math.floor(amount / price)`, where the amounts are `max_order_value`, the cash and
  -- `max_gross_exposure` less the gross exposure, both less the notionals of the active purchases that
  -- were read, and `max_symbol_exposure` less the value of what is held, from which nothing that is
  -- reserved is taken; the last three are 0 where they are below. For a sale it leaves what is promised
  -- to the active sales of the symbol in what is held. The portfolio is active, its switch is unset or
  -- on, the loss is below `max_daily_loss`, and the share of the symbol in the gross exposure after the
  -- order is at most `max_concentration_pct` or not enforced.
  pub assess_within_limits :
      (a : Assessment F)
      → assess py policy r o ≡ some a
      → pos 0 <ℤ a.approved_quantity
      → (a.approved_quantity ≤ℤ o.quantity)
        × HasRoom a.approved_quantity o.side
        × IsOpen
        × IsSpread a.approved_quantity o.side
  unfolding assess
  assess_within_limits a h positive =
      let (allowed, cleared) = assess-Allowed py policy r o a h positive in
      let (asked, room) = Allowed-HasRoom a.approved_quantity o.side positive allowed in
      let (is_open, spread) =
        judged_quantity-IsSpread (limited_quantity py policy r o) a h positive in
      (asked, room, is_open, spread)
