-- ===== src/Portfolio/Approvals.antt =====
-- The writes of `PortfolioService.evaluate_and_reserve`, and the promises to sell.
use coversational_algo_tradi.Prelude.{
  Bool-cases, Returned, String, any_row, ap, arith, both_true, eq_iff, false, inl, inr, int_laws,
  ltb_ℤ, max_ℤ, neg_part, none, pos, pos_part, refl, some, str_eq, subst, true, ℕ, ℤ, ◌+ℤ◌, ◌-ℤ◌,
  ◌<ℤ◌, ◌∷◌, ◌≡◌, ◌≤ℤ◌,
}
use coversational_algo_tradi.Python.{Builtins}
use coversational_algo_tradi.Portfolio.Rows.{
  PortfolioDb, PortfolioRiskPolicy, PortfolioRow, ReservationRow, Side, buy, is_active, sell,
  side_eq,
}
use coversational_algo_tradi.Portfolio.Reads.{
  active_in, active_reservations, find_position, quantity_of, reserved_sell_quantity, sells,
}
use coversational_algo_tradi.Portfolio.Assess.{Assessment, Order, assess, available_to_sell}
use coversational_algo_tradi.Portfolio.Snapshot.{Moment}
use coversational_algo_tradi.Portfolio.Reserve.{
  DrawnIds, Evaluation, clashes, decision_of, has_decision_id, reading_of, record_assessment,
  reservation_of,
}
use coversational_algo_tradi.Portfolio.OpenSells.{
  IsPositive, counts, open_sells, reserved-eq-open_sells,
}
use coversational_algo_tradi.Portfolio.Coverage.{IsCovered}
use coversational_algo_tradi.Portfolio.Limits.{Allowed, assess-Allowed}

is_sell : (side : Side) → side_eq side sell ≡ true → side ≡ sell
is_sell sell h = refl
is_sell buy h = cc

pub max_ℤ-pos : (a q : ℤ) → pos 0 <ℤ q → q ≤ℤ max_ℤ a (pos 0) → q ≤ℤ a
unfolding max_ℤ
max_ℤ-pos a q positive le = ground arith

pub ltb_ℤ-lt : (a b : ℤ) → ltb_ℤ a b ≡ true → a <ℤ b
ltb_ℤ-lt a b h = ground arith

module _ {F : Type 0} where
  insert-IsCovered :
      (r : ReservationRow F) (db : PortfolioDb F)
      → IsPositive r
      → (r.side ≡ sell
          → r.quantity +ℤ open_sells r.portfolio_id r.symbol db.reservations
            ≤ℤ quantity_of (find_position r.portfolio_id r.symbol db))
      → IsCovered db
      → IsCovered (record db { reservations = r ∷ db.reservations })
  unfolding open_sells
  insert-IsCovered r db positive enough c = record {
    positive = (positive, c.positive);
    covered = λ p symbol. elim (Bool-cases (counts p symbol r)) [
      | inl counted ↦
          let (at_active, at_sale) = both_true (active_in p r) (sells symbol r) counted in
          let (at_p, live) = both_true (str_eq r.portfolio_id p) (is_active r.status) at_active in
          let (at_symbol, sale) =
            both_true (str_eq r.symbol symbol) (side_eq r.side sell) at_sale in
          let fits : r.quantity +ℤ open_sells p symbol db.reservations
              ≤ℤ quantity_of (find_position p symbol db) =
            subst
              (λ k.
                r.quantity +ℤ open_sells k symbol db.reservations
                ≤ℤ quantity_of (find_position k symbol db))
              ((eq_iff r.portfolio_id p).0 at_p)
              (subst
                (λ t.
                  r.quantity +ℤ open_sells r.portfolio_id t db.reservations
                  ≤ℤ quantity_of (find_position r.portfolio_id t db))
                ((eq_iff r.symbol symbol).0 at_symbol) (enough (is_sell r.side sale))) in
          rw counted fits
      | inr other ↦ rw other (c.covered p symbol)
    ];
  }

module _ {F : Type 0} (py : Builtins F) (policy : PortfolioRiskPolicy F) where
  -- The room that the assessment saw is the room that there is.
  sale_fits :
      (p : String) (at : Moment) (row : PortfolioRow F) (o : Order F) (db : PortfolioDb F) (q : ℤ)
      → pos 0 <ℤ q
      → q ≤ℤ available_to_sell py policy (reading_of py policy p o.symbol at row db) o
      → q +ℤ open_sells p o.symbol db.reservations ≤ℤ quantity_of (find_position p o.symbol db)
  unfolding available_to_sell reading_of
  sale_fits p at row o db q positive fits =
      let reserved = reserved-eq-open_sells p o.symbol db.reservations in
      omega (
        int_laws,
        max_ℤ-pos
            (quantity_of (find_position p o.symbol db)
              -ℤ reserved_sell_quantity o.symbol (active_reservations p db))
            q positive fits,
        ap pos_part reserved,
        ap neg_part reserved,
      )

  -- The three ends of the transaction: a clash of keys, a refusal and a reservation.
  pub record_assessment_cases :
      (P : Evaluation F → PortfolioDb F → Type 0) (ids : DrawnIds) (p : String) (o : Order F)
      (now : ℕ) (a : Assessment F) (db : PortfolioDb F)
      → let decision = decision_of ids.decision_id policy.version p o now a in
        let reservation = reservation_of py policy ids p o now a.approved_quantity in
        (ltb_ℤ (pos 0) a.approved_quantity ≡ false
          → P
              (record { decision = decision; reservation = none })
              (record db { decisions = decision ∷ db.decisions }))
        → (ltb_ℤ (pos 0) a.approved_quantity ≡ true
            → P
                (record { decision = decision; reservation = some reservation })
                (record db {
                  decisions = decision ∷ db.decisions;
                  reservations = reservation ∷ db.reservations;
                }))
        → Returned P (record_assessment py policy ids p o now a db)
  unfolding record_assessment
  record_assessment_cases P ids p o now a db refused approved =
      elim (Bool-cases (
        any_row (has_decision_id (decision_of ids.decision_id policy.version p o now a).decision_id)
          db.decisions)) [
            | inl taken ↦ rw taken tt
            | inr free ↦ elim (Bool-cases (ltb_ℤ (pos 0) a.approved_quantity)) [
              | inl yes_approved ↦
                  elim (Bool-cases (
                    any_row (clashes (reservation_of py policy ids p o now a.approved_quantity))
                      db.reservations)) [
                        | inl clash ↦ rw (free, yes_approved, clash) tt
                        | inr new ↦ rw (free, yes_approved, new) (approved yes_approved)
                      ]
              | inr not_approved ↦ rw (free, not_approved) (refused not_approved)
            ]
          ]

  pub record_assessment-IsCovered :
      (ids : DrawnIds) (p : String) (at : Moment) (row : PortfolioRow F) (o : Order F)
      (a : Assessment F) (db : PortfolioDb F)
      → assess py policy (reading_of py policy p o.symbol at row db) o ≡ some a
      → IsCovered db
      → Returned (λ _ t. IsCovered t) (record_assessment py policy ids p o at.now a db)
  unfolding reservation_of
  record_assessment-IsCovered ids p at row o a db assessed c =
      record_assessment_cases (λ _ t. IsCovered t) ids p o at.now a db
        (λ refused. record { positive = c.positive; covered = c.covered })
        (λ approved.
          let positive = ltb_ℤ-lt (pos 0) a.approved_quantity approved in
          let limits =
            assess-Allowed py policy (reading_of py policy p o.symbol at row db) o a assessed
              positive in
          insert-IsCovered (reservation_of py policy ids p o at.now a.approved_quantity)
            (record db {
              decisions = decision_of ids.decision_id policy.version p o at.now a ∷ db.decisions;
            })
            positive
            (λ sale.
              sale_fits p at row o db a.approved_quantity positive
                (subst
                  (Allowed py policy (reading_of py policy p o.symbol at row db) o
                    a.approved_quantity)
                  sale limits.0).1)
            (record { positive = c.positive; covered = c.covered }))
