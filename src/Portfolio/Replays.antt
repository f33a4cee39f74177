-- ===== src/Portfolio/Replays.antt =====
-- About `PortfolioService.apply_fill` called twice for one reference.
use coversational_algo_tradi.Python.{Builtins, zero_float}
use coversational_algo_tradi.Portfolio.Rows.{
  PortfolioDb, PositionRow, ReservationRow, bad_fill, is_active, portfolio_not_found,
  reservation_not_active, reservation_not_found,
}
use coversational_algo_tradi.Portfolio.Reads.{find_portfolio, find_position, quantity_of}
use coversational_algo_tradi.Portfolio.Snapshot.{Moment, Snapshot, get_portfolio}
use coversational_algo_tradi.Portfolio.Fill.{
  FillEffect, FillRequest, apply_fill, average_of, effect_of, fill_entry, fill_once,
  fill_reservation, is_fill_of, is_reservation_of, post_fill, post_once, set_status,
}
use coversational_algo_tradi.Portfolio.Promises.{get_portfolio-Keeps}
use coversational_algo_tradi.Prelude.{
  Bool-cases, Option, Returned, Returned-all, Returned-bind, Returned-map, Returned-or_raise,
  Returned-raise_if, any_row, eq_refl, first_row, inl, inr, leb, modify, not, of_returned, ok, refl,
  transaction-Returned, true, ℕ, ◌||◌, ◌≡◌,
}

module _ {F : Type 0} (py : Builtins F) (q : FillRequest F) where
  abbrev Posted : PortfolioDb F → Type 0
  Posted t = any_row (is_fill_of q.portfolio_id q.reference_id) t.ledger ≡ true

  post_fill-Posted :
      (r : ReservationRow F) (position : Option (PositionRow F)) (e : FillEffect F) (now : ℕ)
      (db : PortfolioDb F)
      → Posted (post_fill py q r position e now db)
  unfolding post_fill set_status fill_entry
  post_fill-Posted r position e now db = rw (eq_refl, eq_refl) refl

  fill_once-Posted :
      (now : ℕ) (db : PortfolioDb F) → Returned (λ _ t. Posted t) (fill_once py q now db)
  unfolding fill_once fill_reservation
  fill_once-Posted now db =
      Returned-or_raise (λ _ t. Posted t)
        (first_row (is_reservation_of q.reservation_id q.portfolio_id) db.reservations)
        reservation_not_found (λ r. fill_reservation py q r now) db
        (λ r found.
          Returned-raise_if (λ _ t. Posted t) (not (is_active r.status) || leb r.expires_at now)
            reservation_not_active _ db
            (λ live.
              let position = find_position q.portfolio_id r.symbol db in
              Returned-bind (λ _ t. Posted t) (λ e. modify (post_fill py q r position e now))
                (effect_of py r.side (find_portfolio q.portfolio_id db) (quantity_of position)
                  (average_of position (zero_float py)) r.quantity q.price q.fees)
                db (Returned-all _ (λ e t. post_fill-Posted r position e now t))))

  post_once-Posted :
      (now : ℕ) (db : PortfolioDb F) → Returned (λ _ t. Posted t) (post_once py q now db)
  unfolding post_once
  post_once-Posted now db =
      elim (Bool-cases (any_row (is_fill_of q.portfolio_id q.reference_id) db.ledger)) [
        | inl there ↦ rw there there
        | inr fresh ↦ rw fresh (
            transaction-Returned (λ _ t. Posted t) (fill_once py q now) db
              (fill_once-Posted now db))
      ]

  apply_fill-Posted :
      (at : Moment) (db : PortfolioDb F) → Returned (λ _ t. Posted t) (apply_fill py q at db)
  unfolding apply_fill get_portfolio
  apply_fill-Posted at db =
      Returned-raise_if (λ _ t. Posted t)
        (py.le q.price (zero_float py) || py.lt q.fees (zero_float py)) bad_fill _ db
        (λ good.
          Returned-bind (λ _ t. Posted t) (λ _. get_portfolio py q.portfolio_id at)
            (post_once py q at.now) db
            (Returned-map (post_once py q at.now db)
              (λ _ t posted.
                Returned-or_raise (λ _ u. Posted u) (find_portfolio q.portfolio_id t)
                  portfolio_not_found _ t (λ row found. posted))
              (post_once-Posted at.now db)))

  -- Once a fill has been applied, applying a fill with the same portfolio and reference changes
  -- nothing, whatever its reservation, price and fees are, whether it returns or raises.
  pub apply_fill_once :
      (q' : FillRequest F) (at at' : Moment) (db : PortfolioDb F) {view : Snapshot F}
      {db' : PortfolioDb F}
      → apply_fill py q at db ≡ (ok view, db')
      → q'.portfolio_id ≡ q.portfolio_id
      → q'.reference_id ≡ q.reference_id
      → (apply_fill py q' at' db').1 ≡ db'
  unfolding apply_fill post_once
  apply_fill_once q' at at' db {db' = db'} applied same_portfolio same_reference =
      let posted = of_returned (λ _ t. Posted t) applied (apply_fill-Posted at db) in
      elim (Bool-cases (py.le q'.price (zero_float py) || py.lt q'.fees (zero_float py))) [
        | inl bad ↦ rw bad refl
        | inr good ↦
            rw (good, same_portfolio, same_reference, posted)
              (get_portfolio-Keeps py (λ t. t ≡ db') q.portfolio_id at' db' refl)
      ]
