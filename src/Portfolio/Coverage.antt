-- ===== src/Portfolio/Coverage.antt =====
-- The promises of a portfolio to sell, and what it holds: the invariant of the tables of
-- `PortfolioService`, and the lemmas on single writes.
use coversational_algo_tradi.Portfolio.Rows.{
  PortfolioDb, PortfolioRow, PositionRow, ReservationRow, ReservationStatus, Side, active, buy,
  consumed, expired, is_active, reservation_not_active, sell,
}
use coversational_algo_tradi.Portfolio.Reads.{
  at_position, find_portfolio, find_position, quantity_of,
}
use coversational_algo_tradi.Portfolio.Reserve.{expire_overdue, is_overdue, with_status}
use coversational_algo_tradi.Portfolio.Fill.{
  FillEffect, FillRequest, average_of, buy_average, effect_of, fill_reservation, has_reservation_id,
  is_overdrawn, is_reservation_of, position_after, post_fill, purchase_delta, upsert_position,
}
use coversational_algo_tradi.Portfolio.OpenSells.{
  IsPositive, close-IsPositive, open_sells, open_sells-close, open_sells-consume,
}
use coversational_algo_tradi.Prelude.{
  +ℤ_parts, All, All-first_row, Bool, Bool-cases, List, Option, Option-cases, Returned,
  Returned-bind, Returned-map, Returned-raise_if, String, [], any_row, ap, arith, both_true, eq_iff,
  eq_refl, false, first_row, if◌then◌else◌, inl, inr, int_laws, leb, ltb_ℤ, modify, neg_part, none,
  not, pos_part, refl, some, str_eq, sym, true, update_rows, ℕ, ℤ, ◌&&◌, ◌-ℤ◌, ◌||◌, ◌∷◌, ◌≡◌, ◌≤ℤ◌,
  ◌⊎◌,
}
use coversational_algo_tradi.Python.{Builtins, zero_float}

module _ {F : Type 0} where
  -- Every reservation is for a positive quantity, and for every symbol of every portfolio the
  -- active reservations for sale add up to no more than the position.
  pub record IsCovered (db : PortfolioDb F) : Type 0 where
    pub positive : All IsPositive db.reservations
    pub covered :
        (p symbol : String)
        → open_sells p symbol db.reservations ≤ℤ quantity_of (find_position p symbol db)

  pub close-IsCovered :
      (test : ReservationRow F → Bool) (status : ReservationStatus) (now : ℕ) (db : PortfolioDb F)
      → is_active status ≡ false
      → IsCovered db
      → IsCovered
          (record db { reservations = update_rows test (with_status status now) db.reservations })
  close-IsCovered test status now db closed c = record {
    positive = close-IsPositive test status now db.reservations c.positive;
    covered = λ p symbol. omega (
      arith,
      c.covered p symbol,
      open_sells-close test status now p symbol db.reservations closed c.positive,
    );
  }

  pub expire-IsCovered :
      (now : ℕ) (db : PortfolioDb F) → IsCovered db → IsCovered (expire_overdue now db)
  unfolding expire_overdue
  expire-IsCovered now db c = close-IsCovered (is_overdue now) expired now db refl c

  abbrev is_key_of : PositionRow F → String → String → Bool
  is_key_of new p symbol = str_eq new.portfolio_id p && str_eq new.symbol symbol

  abbrev replaced : PositionRow F → List (PositionRow F) → List (PositionRow F)
  replaced new = update_rows (at_position new.portfolio_id new.symbol) (λ _. new)

  find-replaced_other :
      (new : PositionRow F) (p symbol : String) (rows : List (PositionRow F))
      → is_key_of new p symbol ≡ false
      → first_row (at_position p symbol) (replaced new rows) ≡ first_row (at_position p symbol) rows
  find-replaced_other new p symbol [] other = refl
  find-replaced_other new p symbol (r ∷ rows) other = ground (
    arith,
    eq_iff r.portfolio_id new.portfolio_id,
    eq_iff r.symbol new.symbol,
    find-replaced_other new p symbol rows other,
  )

  find-replaced_self :
      (new : PositionRow F) (rows : List (PositionRow F))
      → any_row (at_position new.portfolio_id new.symbol) rows ≡ true
      → first_row (at_position new.portfolio_id new.symbol) (replaced new rows) ≡ some new
  find-replaced_self new [] there = cc
  find-replaced_self new (r ∷ rows) there =
      ground (arith, eq_refl new.portfolio_id, eq_refl new.symbol, find-replaced_self new rows)

  find-upsert_self :
      (new : PositionRow F) (rows : List (PositionRow F))
      → first_row (at_position new.portfolio_id new.symbol) (upsert_position new rows) ≡ some new
  unfolding upsert_position
  find-upsert_self new rows =
      elim (Bool-cases (any_row (at_position new.portfolio_id new.symbol) rows)) [
        | inl there ↦ rw there (find-replaced_self new rows there)
        | inr fresh ↦ rw (fresh, eq_refl, eq_refl) refl
      ]

  pub find-upsert :
      (new : PositionRow F) (p symbol : String) (rows : List (PositionRow F))
      → first_row (at_position p symbol) (upsert_position new rows) ≡ (
          if str_eq new.portfolio_id p && str_eq new.symbol symbol
          then some new
          else first_row (at_position p symbol) rows)
  unfolding upsert_position
  find-upsert new p symbol rows = elim (Bool-cases (is_key_of new p symbol)) [
    | inl this ↦
        let (at_p, at_symbol) =
          both_true (str_eq new.portfolio_id p) (str_eq new.symbol symbol) this in
        rw
          (
            this,
            sym ((eq_iff new.portfolio_id p).0 at_p),
            sym ((eq_iff new.symbol symbol).0 at_symbol),
          )
          (find-upsert_self new rows)
    | inr other ↦ elim (Bool-cases (any_row (at_position new.portfolio_id new.symbol) rows)) [
      | inl there ↦ rw (there, other) (find-replaced_other new p symbol rows other)
      | inr fresh ↦ rw (fresh, other) refl
    ]
  ]

  -- What the two sides of a fill do to the quantity that is held.
  abbrev pub Settles : ReservationRow F → ℤ → ℤ → Type 0
  Settles r held after =
      ((r.side ≡ sell) × (after ≡ held -ℤ r.quantity)) ⊎ ((r.side ≡ buy) × (held ≤ℤ after))

usable_is_active :
    (status : ReservationStatus) (late : Bool)
    → (not (is_active status) || late) ≡ false
    → is_active status ≡ true
usable_is_active active late h = refl
usable_is_active _ late h = cc

module _ {F : Type 0} (py : Builtins F) (q : FillRequest F) (r : ReservationRow F) (now : ℕ)
    (db : PortfolioDb F) where
  abbrev pub held : ℤ
  held = quantity_of (find_position q.portfolio_id r.symbol db)

  consumed_rows : List (ReservationRow F)
  consumed_rows =
      update_rows (has_reservation_id q.reservation_id) (with_status consumed now) db.reservations

  settled :
      (after : ℤ)
      → IsCovered db
      → first_row (is_reservation_of q.reservation_id q.portfolio_id) db.reservations ≡ some r
      → is_active r.status ≡ true
      → Settles r held after
      → open_sells q.portfolio_id r.symbol consumed_rows ≤ℤ after
  unfolding consumed_rows
  settled after c found live (inl (sale, fewer)) =
      let sold =
        open_sells-consume consumed now q.reservation_id q.portfolio_id db.reservations refl
          c.positive found live sale in
      omega
        (int_laws, c.covered q.portfolio_id r.symbol, ap pos_part fewer, ap neg_part fewer, sold)
  settled after c found live (inr (purchase, more)) = omega (
    arith,
    c.covered q.portfolio_id r.symbol,
    open_sells-close (has_reservation_id q.reservation_id) consumed now q.portfolio_id r.symbol
        db.reservations refl c.positive,
  )

  post_fill-IsCovered :
      (position : Option (PositionRow F)) (e : FillEffect F)
      → IsCovered db
      → first_row (is_reservation_of q.reservation_id q.portfolio_id) db.reservations ≡ some r
      → is_active r.status ≡ true
      → Settles r held e.new_quantity
      → IsCovered (post_fill py q r position e now db)
  unfolding post_fill position_after consumed_rows
  post_fill-IsCovered position e c found live settles = record {
    positive =
        close-IsPositive (has_reservation_id q.reservation_id) consumed now db.reservations
          c.positive;
    covered = λ p symbol. elim (Bool-cases (str_eq q.portfolio_id p && str_eq r.symbol symbol)) [
      | inl this ↦
          let (at_p, at_symbol) =
            both_true (str_eq q.portfolio_id p) (str_eq r.symbol symbol) this in
          rw
            (
              find-upsert,
              this,
              sym ((eq_iff q.portfolio_id p).0 at_p),
              sym ((eq_iff r.symbol symbol).0 at_symbol),
            )
            (settled e.new_quantity c found live settles)
      | inr other ↦
          rw (find-upsert, other)
            (omega (
              arith,
              c.covered p symbol,
              open_sells-close (has_reservation_id q.reservation_id) consumed now p symbol
                  db.reservations refl c.positive,
            ))
    ];
  }

  abbrev SettlesAt : FillEffect F → PortfolioDb F → Type 0
  SettlesAt e t = Settles r held e.new_quantity × (t ≡ db)

  -- The effect that is computed settles the position, and computing it writes nothing.
  effect_of-Settles :
      (side : Side) (portfolio : Option (PortfolioRow F)) (average : F)
      → r.side ≡ side
      → IsPositive r
      → Returned SettlesAt (effect_of py side portfolio held average r.quantity q.price q.fees db)
  unfolding effect_of
  effect_of-Settles buy none average is_buy positive = tt
  effect_of-Settles buy (some row) average is_buy positive =
      elim (Bool-cases (is_overdrawn py row (purchase_delta py q.price r.quantity q.fees))) [
        | inl short ↦ rw short tt
        | inr enough ↦ elim (Option-cases (buy_average py held average r.quantity q.price)) [
          | inl undefined ↦ rw (enough, undefined) tt
          | inr (a, defined) ↦
              rw (enough, defined) (inr (is_buy, omega (arith, +ℤ_parts held r.quantity)), refl)
        ]
      ]
  effect_of-Settles sell portfolio average is_sell positive =
      elim (Bool-cases (ltb_ℤ held r.quantity)) [
        | inl over ↦ rw over tt
        | inr fits ↦ rw fits (inl (is_sell, refl), refl)
      ]

  abbrev before : Option (PositionRow F)
  before = find_position q.portfolio_id r.symbol db

  post_settled :
      IsCovered db
      → first_row (is_reservation_of q.reservation_id q.portfolio_id) db.reservations ≡ some r
      → is_active r.status ≡ true
      → (e : FillEffect F) (t : PortfolioDb F) → SettlesAt e t
      → IsCovered (post_fill py q r before e now t)
  post_settled c found open_still e t (settles, same) =
      rw same (post_fill-IsCovered before e c found open_still settles)

  pub fill_reservation-IsCovered :
      IsCovered db
      → first_row (is_reservation_of q.reservation_id q.portfolio_id) db.reservations ≡ some r
      → Returned (λ _ t. IsCovered t) (fill_reservation py q r now db)
  unfolding fill_reservation
  fill_reservation-IsCovered c found =
      Returned-raise_if (λ _ t. IsCovered t) (not (is_active r.status) || leb r.expires_at now)
        reservation_not_active _ db
        λ usable.
          Returned-bind (λ _ t. IsCovered t) (λ e. modify (post_fill py q r before e now))
            (effect_of py r.side (find_portfolio q.portfolio_id db) held
              (average_of before (zero_float py)) r.quantity q.price q.fees)
            db
            (Returned-map {P = SettlesAt} _
              (post_settled c found (usable_is_active r.status (leb r.expires_at now) usable))
              (effect_of-Settles r.side (find_portfolio q.portfolio_id db)
                (average_of before (zero_float py)) refl
                (All-first_row IsPositive (is_reservation_of q.reservation_id q.portfolio_id)
                  db.reservations c.positive found)))
