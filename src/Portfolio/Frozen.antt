-- ===== src/Portfolio/Frozen.antt =====
-- The transactions of `PortfolioService`, and a portfolio in which trading is disabled.
use coversational_algo_tradi.Prelude.{
  All-first_row, Bool, Bool-cases, Keeps, List, Option, Option-cases, Returned, Returned-bind,
  Returned-map, Returned-raise_if, String, [], any_row, arith, eq_iff, eq_refl, false, first_row,
  first_row-passes, inl, inr, leb, ltb_ℤ, modify, none, not, pos, refl, some, str_eq, subst, sym,
  transaction_store, true, ℕ, ℤ, ◌&&◌, ◌||◌, ◌∙◌, ◌∷◌, ◌≡◌,
}
use coversational_algo_tradi.Python.{Builtins, zero_float}
use coversational_algo_tradi.Portfolio.Rows.{
  ControlRow, LedgerRow, PortfolioDb, PortfolioRiskPolicy, PortfolioRow, PositionRow,
  ReservationRow, ReservationStatus, Side, buy, consumed, expired, is_active,
  reservation_not_active, sell,
}
use coversational_algo_tradi.Portfolio.Reads.{
  enabled_by, find_control, find_portfolio, find_position, has_scope, quantity_of,
}
use coversational_algo_tradi.Portfolio.Assess.{Assessment, Order, assess}
use coversational_algo_tradi.Portfolio.Snapshot.{Moment}
use coversational_algo_tradi.Portfolio.Reserve.{
  DrawnIds, expire_overdue, has_row, insert_portfolio, is_overdue, reading_of, record_assessment,
  reservation_of,
}
use coversational_algo_tradi.Portfolio.Fill.{
  FillEffect, FillRequest, average_of, buy_average, effect_of, fill_once, fill_reservation,
  has_reservation_id, is_fill_of, is_overdrawn, is_reservation_of, position_after, post_fill,
  post_once, purchase_delta, set_status,
}
use coversational_algo_tradi.Portfolio.Limits.{Cleared, assess-Allowed}
use coversational_algo_tradi.Portfolio.Coverage.{find-upsert}
use coversational_algo_tradi.Portfolio.Approvals.{ltb_ℤ-lt, record_assessment_cases}
use coversational_algo_tradi.Portfolio.KillSwitch.{
  IsClosed, IsFrozen, close-IsClosed, find-add_cash,
}

module _ {F : Type 0} (py : Builtins F) (policy : PortfolioRiskPolicy F) (p : String)
    (row : Option (PortfolioRow F)) (held : String → Option (PositionRow F)) where
  abbrev pub Frozen : PortfolioDb F → Type 0
  Frozen = IsFrozen p row held

  no_scope :
      (new : PortfolioRow F) (db : PortfolioDb F)
      → has_row new db ≡ false
      → any_row (has_scope new.portfolio_id) db.controls ≡ false
  no_scope new db h = ground arith

  closed_status :
      (r : ReservationRow F) (p' id : String)
      → str_eq p' p ≡ true
      → is_reservation_of id p' r ≡ true
      → IsClosed p r
      → is_active r.status ≡ false
  closed_status r p' id same here closed =
      ground (arith, eq_iff p' p, eq_iff r.portfolio_id p', eq_iff r.portfolio_id p, eq_refl p)

  -- Computing the effect of a fill writes nothing.
  effect_of-same :
      (side : Side) (portfolio : Option (PortfolioRow F)) (before : ℤ) (average : F) (quantity : ℤ)
      (price fees : F) (db : PortfolioDb F)
      → Returned (λ _ t. t ≡ db) (effect_of py side portfolio before average quantity price fees db)
  unfolding effect_of
  effect_of-same buy none before average quantity price fees db = tt
  effect_of-same buy (some r) before average quantity price fees db =
      elim (Bool-cases (is_overdrawn py r (purchase_delta py price quantity fees))) [
        | inl short ↦ rw short tt
        | inr enough ↦ elim (Option-cases (buy_average py before average quantity price)) [
          | inl undefined ↦ rw (enough, undefined) tt
          | inr (a, defined) ↦ rw (enough, defined) refl
        ]
      ]
  effect_of-same sell portfolio before average quantity price fees db =
      elim (Bool-cases (ltb_ℤ before quantity)) [ inl over ↦ rw over tt | inr fits ↦ rw fits refl ]

  has_scope_of :
      (cs : List ControlRow)
      → enabled_by (first_row (has_scope p) cs) ≡ false
      → any_row (has_scope p) cs ≡ true
  has_scope_of [] h = cc
  has_scope_of (c ∷ cs) h = ground (arith, has_scope_of cs)

  pub insert_portfolio-Frozen :
      (new : PortfolioRow F) (entry : LedgerRow F) (control : ControlRow) (db : PortfolioDb F)
      → control.scope_id ≡ new.portfolio_id
      → Frozen db
      → Returned (λ _ t. Frozen t) (insert_portfolio new entry control db)
  unfolding insert_portfolio
  insert_portfolio-Frozen new entry control db keyed h = elim (Bool-cases (has_row new db)) [
    | inl there ↦ rw there tt
    | inr fresh ↦ elim (Bool-cases (str_eq new.portfolio_id p)) [
      | inl same ↦
          let there : any_row (has_scope new.portfolio_id) db.controls ≡ true =
            subst (λ k. any_row (has_scope k) db.controls ≡ true)
              (sym ((eq_iff new.portfolio_id p).0 same)) (has_scope_of db.controls h.disabled) in
          let missing : any_row (has_scope new.portfolio_id) db.controls ≡ false =
            no_scope new db fresh in
          cc
      | inr other ↦ rw fresh (record {
        disabled = rw (keyed, other) h.disabled;
        closed = h.closed;
        same_row = rw other h.same_row;
        same_positions = h.same_positions;
      })
    ]
  ]

  pub expire-Frozen : (now : ℕ) (db : PortfolioDb F) → Frozen db → Frozen (expire_overdue now db)
  unfolding expire_overdue
  expire-Frozen now db h = record {
    disabled = h.disabled;
    closed = close-IsClosed p (is_overdue now) expired now db.reservations refl h.closed;
    same_row = h.same_row;
    same_positions = h.same_positions;
  }

  pub record_assessment-Frozen :
      (ids : DrawnIds) (p' : String) (at : Moment) (r : PortfolioRow F) (o : Order F)
      (a : Assessment F) (db : PortfolioDb F)
      → assess py policy (reading_of py policy p' o.symbol at r db) o ≡ some a
      → Frozen db
      → Returned (λ _ t. Frozen t) (record_assessment py policy ids p' o at.now a db)
  unfolding reservation_of reading_of
  record_assessment-Frozen ids p' at r o a db assessed h =
      record_assessment_cases py policy (λ _ t. Frozen t) ids p' o at.now a db
        (λ refused. record {
          disabled = h.disabled;
          closed = h.closed;
          same_row = h.same_row;
          same_positions = h.same_positions;
        })
        (λ approved. record {
          disabled = h.disabled;
          closed = (
            elsewhere
                (assess-Allowed py policy (reading_of py policy p' o.symbol at r db) o a assessed
                  (ltb_ℤ-lt (pos 0) a.approved_quantity approved)).1,
            h.closed,
          );
          same_row = h.same_row;
          same_positions = h.same_positions;
        })
    where
      elsewhere :
          Cleared py policy (reading_of py policy p' o.symbol at r db) o a.checks
          → (str_eq p' p && true) ≡ false
      elsewhere cleared = elim (Bool-cases (str_eq p' p)) [
        | inl same ↦
            let on : enabled_by (find_control p db) ≡ true =
              subst (λ k. enabled_by (find_control k db) ≡ true) ((eq_iff p' p).0 same) cleared.1 in
            let off : enabled_by (find_control p db) ≡ false = h.disabled in cc
        | inr other ↦ rw other refl
      ]

  pub set_status-Frozen :
      (test : ReservationRow F → Bool) (status : ReservationStatus) (now : ℕ) (db : PortfolioDb F)
      → is_active status ≡ false
      → Frozen db
      → Frozen (set_status test status now db)
  unfolding set_status
  set_status-Frozen test status now db off h = record {
    disabled = h.disabled;
    closed = close-IsClosed p test status now db.reservations off h.closed;
    same_row = h.same_row;
    same_positions = h.same_positions;
  }

  post_fill-Frozen :
      (q : FillRequest F) (r : ReservationRow F) (position : Option (PositionRow F))
      (e : FillEffect F) (now : ℕ) (db : PortfolioDb F)
      → str_eq q.portfolio_id p ≡ false
      → Frozen db
      → Frozen (post_fill py q r position e now db)
  unfolding post_fill position_after
  post_fill-Frozen q r position e now db other h = record {
    disabled = h.disabled;
    closed =
        close-IsClosed p (has_reservation_id q.reservation_id) consumed now db.reservations refl
          h.closed;
    same_row = find-add_cash p py q.portfolio_id e.cash_delta now db.portfolios other ∙ h.same_row;
    same_positions = λ symbol. rw (find-upsert, other) (h.same_positions symbol);
  }

  -- A reservation of the portfolio cannot be filled.
  fill_reservation_closed :
      (q : FillRequest F) (r : ReservationRow F) (now : ℕ) (db : PortfolioDb F)
      → is_active r.status ≡ false
      → Returned (λ _ t. Frozen t) (fill_reservation py q r now db)
  unfolding fill_reservation
  fill_reservation_closed q r now db off = rw off tt

  fill_reservation-Frozen :
      (q : FillRequest F) (r : ReservationRow F) (now : ℕ) (db : PortfolioDb F)
      → str_eq q.portfolio_id p ≡ false
      → Frozen db
      → Returned (λ _ t. Frozen t) (fill_reservation py q r now db)
  unfolding fill_reservation
  fill_reservation-Frozen q r now db other h =
      let position = find_position q.portfolio_id r.symbol db in
      Returned-raise_if (λ _ t. Frozen t) (not (is_active r.status) || leb r.expires_at now)
        reservation_not_active _ db
        λ usable.
          Returned-bind (λ _ t. Frozen t) (λ e. modify (post_fill py q r position e now))
            (effect_of py r.side (find_portfolio q.portfolio_id db) (quantity_of position)
              (average_of position (zero_float py)) r.quantity q.price q.fees)
            db
            (Returned-map {P = λ _ t. t ≡ db} _
              (λ e t same. rw same (post_fill-Frozen q r position e now db other h))
              (effect_of-same r.side (find_portfolio q.portfolio_id db) (quantity_of position)
                (average_of position (zero_float py)) r.quantity q.price q.fees db))

  fill_once-Frozen :
      (q : FillRequest F) (now : ℕ) (db : PortfolioDb F)
      → Frozen db
      → Returned (λ _ t. Frozen t) (fill_once py q now db)
  unfolding fill_once
  fill_once-Frozen q now db h =
      elim (Option-cases
        (first_row (is_reservation_of q.reservation_id q.portfolio_id) db.reservations)) [
          | inl missing ↦ rw missing tt
          | inr (r, found) ↦ elim (Bool-cases (str_eq q.portfolio_id p)) [
            | inl same ↦ rw found (
                fill_reservation_closed q r now db (
                  closed_status r q.portfolio_id q.reservation_id same
                    (first_row-passes (is_reservation_of q.reservation_id q.portfolio_id)
                      db.reservations found)
                    (All-first_row (IsClosed p) (is_reservation_of q.reservation_id q.portfolio_id)
                      db.reservations h.closed found)))
            | inr other ↦ rw found (fill_reservation-Frozen q r now db other h)
          ]
        ]

  pub post_once-Frozen : (q : FillRequest F) (now : ℕ) → Keeps Frozen (post_once py q now)
  unfolding post_once
  post_once-Frozen q now db h =
      elim (Bool-cases (any_row (is_fill_of q.portfolio_id q.reference_id) db.ledger)) [
        | inl posted ↦ rw posted h
        | inr fresh ↦
            rw fresh
              (transaction_store Frozen (fill_once py q now) db h (fill_once-Frozen q now db h))
      ]
