-- ===== src/Portfolio/Standstill.antt =====
-- About a portfolio of `PortfolioService` between the call that disables trading in it and the one that
-- enables it again.
use coversational_algo_tradi.Prelude.{
  Bool, Bool-cases, Keeps, Keeps-bind, List, Option, Option-cases, Returned, String, [], any_row,
  eq_iff, eq_refl, false, first_row, inl, inr, leb_ℤ, of_returned, ok, pos, raise_if, refl, some,
  str_eq, subst, transaction, transaction_store, true, ℕ, ℤ, ◌&&◌, ◌>>◌, ◌||◌, ◌∷◌, ◌≡◌,
}
use coversational_algo_tradi.Python.{Builtins, zero_float}
use coversational_algo_tradi.Portfolio.Rows.{
  PortfolioDb, PortfolioRiskPolicy, PortfolioRow, PositionRow, bad_fill, released,
}
use coversational_algo_tradi.Portfolio.Reads.{
  active_in, enabled_by, find_portfolio, find_position, has_portfolio_id, has_scope,
}
use coversational_algo_tradi.Portfolio.Assess.{Order, assess}
use coversational_algo_tradi.Portfolio.Snapshot.{Moment, Snapshot, get_portfolio}
use coversational_algo_tradi.Portfolio.Reserve.{
  DrawnIds, create, evaluate_and_reserve, evaluate_in_transaction, expire_overdue, open_portfolio,
  order_of, parse_side, reading_of,
}
use coversational_algo_tradi.Portfolio.Fill.{
  FillRequest, apply_fill, control_row, is_releasable, post_control, post_once, release_reservation,
  set_trading_enabled, upsert_control,
}
use coversational_algo_tradi.Portfolio.Promises.{get_portfolio-Keeps}
use coversational_algo_tradi.Portfolio.Runs.{
  PortfolioCall, after_call, after_calls, controls, creates, evaluates, fills, releases,
}
use coversational_algo_tradi.Portfolio.KillSwitch.{
  IsFrozen, close-IsClosed, find-upsert_control, find-upsert_control_self, release-IsClosed,
}
use coversational_algo_tradi.Portfolio.Frozen.{
  expire-Frozen, insert_portfolio-Frozen, post_once-Frozen, record_assessment-Frozen,
  set_status-Frozen,
}

module _ {F : Type 0} (py : Builtins F) (policy : PortfolioRiskPolicy F) (p : String) where
  -- The call that would enable trading in `p`.
  abbrev pub enables : PortfolioCall F → Bool
  enables (controls q enabled reason by control_id at) = enabled && str_eq q p
  enables _ = false

  thrown :
      (q reason by : String) (now : ℕ) (db : PortfolioDb F)
      → str_eq q p ≡ true
      → enabled_by (
          first_row
            (has_scope p)
            (upsert_control (control_row py q false reason by now) db.controls))
        ≡ false
  thrown q reason by now db same =
      let new = control_row py q false reason by now in
      let found : first_row (has_scope p) (upsert_control new db.controls) ≡ some new =
        subst (λ k. first_row (has_scope k) (upsert_control new db.controls) ≡ some new)
          ((eq_iff q p).0 same) (find-upsert_control_self p new db.controls) in
      rw found refl

  module _ (row : Option (PortfolioRow F)) (held : String → Option (PositionRow F)) where
    create-Frozen :
        (name : String) (cash : F) (by money q : String) (at : Moment)
        → Keeps (IsFrozen p row held) (create py policy name cash by money q at)
    unfolding create open_portfolio
    create-Frozen name cash by money q at db h = elim (Bool-cases (str_eq (py.strip name) "")) [
      | inl empty ↦ rw empty h
      | inr named ↦ elim (Bool-cases (py.le cash (zero_float py))) [
        | inl poor ↦ rw (named, poor) h
        | inr funded ↦
            rw (named, funded)
              (Keeps-bind (IsFrozen p row held)
                (transaction (open_portfolio py policy name cash by money q at.now))
                (λ _. get_portfolio py q at)
                (λ t k.
                  transaction_store (IsFrozen p row held)
                    (open_portfolio py policy name cash by money q at.now) t k
                    (insert_portfolio-Frozen py policy p row held _ _ _ t refl k))
                (λ _. get_portfolio-Keeps py (IsFrozen p row held) q at) db h)
      ]
    ]

    evaluate_in_transaction-Frozen :
        (ids : DrawnIds) (q : String) (o : Order F) (at : Moment) (db : PortfolioDb F)
        → IsFrozen p row held db
        → Returned (λ _ t. IsFrozen p row held t) (evaluate_in_transaction py policy ids q o at db)
    unfolding evaluate_in_transaction
    evaluate_in_transaction-Frozen ids q o at db h =
        let swept = expire_overdue at.now db in
        elim (Option-cases (find_portfolio q swept)) [
          | inl missing ↦ rw missing tt
          | inr (r, found) ↦
              elim (Option-cases
                (assess py policy (reading_of py policy q o.symbol at r swept) o)) [
                  | inl undefined ↦ rw (found, undefined) tt
                  | inr (a, assessed) ↦
                      rw (found, assessed)
                        (record_assessment-Frozen py policy p row held ids q at r o a swept assessed
                          (expire-Frozen py policy p row held at.now db h))
                ]
        ]

    evaluate-Frozen :
        (ids : DrawnIds) (q symbol side : String) (quantity : ℤ) (price : F) (at : Moment)
        → Keeps
            (IsFrozen p row held)
            (evaluate_and_reserve py policy ids q symbol side quantity price at)
    unfolding evaluate_and_reserve
    evaluate-Frozen ids q symbol side_text quantity price at db h =
        elim (Option-cases (parse_side py policy side_text)) [
          | inl bad ↦ rw bad h
          | inr (side, good) ↦
              elim (Bool-cases (leb_ℤ quantity (pos 0) || py.le price (zero_float py))) [
                | inl bad ↦ rw (good, bad) h
                | inr fine ↦
                    rw (good, fine)
                      (transaction_store (IsFrozen p row held)
                        (evaluate_in_transaction py policy ids q
                          (order_of py policy symbol side quantity price) at)
                        db h
                        (evaluate_in_transaction-Frozen ids q
                          (order_of py policy symbol side quantity price) at db h))
              ]
        ]

    fill-Frozen :
        (q : FillRequest F) (at : Moment) → Keeps (IsFrozen p row held) (apply_fill py q at)
    unfolding apply_fill
    fill-Frozen q at =
        Keeps-bind (IsFrozen p row held)
          (raise_if (py.le q.price (zero_float py) || py.lt q.fees (zero_float py)) bad_fill)
          (λ _. post_once py q at.now >> get_portfolio py q.portfolio_id at) (λ db h. h)
          (λ _.
            Keeps-bind (IsFrozen p row held) (post_once py q at.now)
              (λ _. get_portfolio py q.portfolio_id at)
              (post_once-Frozen py policy p row held q at.now)
              (λ _. get_portfolio-Keeps py (IsFrozen p row held) q.portfolio_id at))

    release-Frozen :
        (id : String) (at : Moment) → Keeps (IsFrozen p row held) (release_reservation py id at)
    unfolding release_reservation
    release-Frozen id at db h =
        let after =
          set_status-Frozen py policy p row held (is_releasable id) released at.now db refl h in
        elim (Option-cases (first_row (is_releasable id) db.reservations)) [
          | inl missing ↦ rw missing after
          | inr (r, found) ↦
              rw found (get_portfolio-Keeps py (IsFrozen p row held) r.portfolio_id at _ after)
        ]

    post_control-Frozen :
        (q : String) (enabled : Bool) (reason by control_id : String) (now : ℕ) (db : PortfolioDb F)
        → (enabled && str_eq q p) ≡ false
        → IsFrozen p row held db
        → IsFrozen p row held (post_control py q enabled reason by control_id now db)
    unfolding post_control
    post_control-Frozen q true reason by control_id now db other h = record {
      disabled =
          rw (find-upsert_control p (control_row py q true reason by now) db.controls other)
            h.disabled;
      closed = h.closed;
      same_row = h.same_row;
      same_positions = h.same_positions;
    }
    post_control-Frozen q false reason by control_id now db other h = record {
      disabled = elim (Bool-cases (str_eq q p)) [
        | inl same ↦ thrown q reason by now db same
        | inr different ↦
            rw (find-upsert_control p (control_row py q false reason by now) db.controls different)
              h.disabled
      ];
      closed = close-IsClosed p (active_in q) released now db.reservations refl h.closed;
      same_row = h.same_row;
      same_positions = h.same_positions;
    }

    control-Frozen :
        (q : String) (enabled : Bool) (reason by control_id : String) (at : Moment)
        → (enabled && str_eq q p) ≡ false
        → Keeps (IsFrozen p row held) (set_trading_enabled py q enabled reason by control_id at)
    unfolding set_trading_enabled
    control-Frozen q enabled reason by control_id at other db h =
        elim (Bool-cases (str_eq (py.strip reason) "")) [
          | inl empty ↦ rw empty h
          | inr given ↦ elim (Bool-cases (any_row (has_portfolio_id q) db.portfolios)) [
            | inl there ↦
                rw (given, there)
                  (get_portfolio-Keeps py (IsFrozen p row held) q at _
                    (post_control-Frozen q enabled reason by control_id at.now db other h))
            | inr missing ↦ rw (given, missing) h
          ]
        ]

    after_call-Frozen :
        (c : PortfolioCall F) (db : PortfolioDb F)
        → enables c ≡ false
        → IsFrozen p row held db
        → IsFrozen p row held (after_call py policy c db)
    unfolding after_call
    after_call-Frozen (creates name cash by money q at) db other h =
        create-Frozen name cash by money q at db h
    after_call-Frozen (evaluates ids q symbol side quantity price at) db other h =
        evaluate-Frozen ids q symbol side quantity price at db h
    after_call-Frozen (fills q at) db other h = fill-Frozen q at db h
    after_call-Frozen (releases id at) db other h = release-Frozen id at db h
    after_call-Frozen (controls q enabled reason by control_id at) db other h =
        control-Frozen q enabled reason by control_id at other db h

    after_calls-Frozen :
        (cs : List (PortfolioCall F)) (db : PortfolioDb F)
        → any_row enables cs ≡ false
        → IsFrozen p row held db
        → IsFrozen p row held (after_calls py policy cs db)
    unfolding after_calls
    after_calls-Frozen [] db none_enables h = h
    after_calls-Frozen (c ∷ cs) db none_enables h = elim (Bool-cases (enables c)) [
      | inl on ↦ let bad : true ≡ false = rw on at none_enables in cc
      | inr off ↦
          after_calls-Frozen cs (after_call py policy c db) (rw off at none_enables)
            (after_call-Frozen c db off h)
    ]

  -- The portfolio's row and positions as they are in some tables.
  abbrev pub StandsAs : PortfolioDb F → PortfolioDb F → Type 0
  StandsAs before = IsFrozen p (find_portfolio p before) (λ symbol. find_position p symbol before)

  switched-StandsAs :
      (reason by control_id : String) (now : ℕ) (db : PortfolioDb F)
      → StandsAs db (post_control py p false reason by control_id now db)
  unfolding post_control
  switched-StandsAs reason by control_id now db = record {
    disabled = thrown p reason by now db (eq_refl p);
    closed = release-IsClosed p now db.reservations;
    same_row = refl;
    same_positions = λ symbol. refl;
  }

  disable-StandsAs :
      (reason by control_id : String) (at : Moment) (db : PortfolioDb F)
      → Returned (λ _ t. StandsAs db t) (set_trading_enabled py p false reason by control_id at db)
  unfolding set_trading_enabled get_portfolio
  disable-StandsAs reason by control_id at db = elim (Bool-cases (str_eq (py.strip reason) "")) [
    | inl empty ↦ rw empty tt
    | inr given ↦ elim (Bool-cases (any_row (has_portfolio_id p) db.portfolios)) [
      | inl there ↦
          rw (given, there) (read_back _ (switched-StandsAs reason by control_id at.now db))
      | inr missing ↦ rw (given, missing) tt
    ]
  ]
    where
      read_back :
          (t : PortfolioDb F)
          → StandsAs db t
          → Returned (λ _ u. StandsAs db u) (get_portfolio py p at t)
      read_back t h = elim (Option-cases (find_portfolio p t)) [
        | inl missing ↦ rw missing tt
        | inr (r, found) ↦ rw found h
      ]

  -- Once a call that disables trading in `p` has returned, then after any further calls none of which
  -- enables trading in `p`: trading in `p` is still disabled, none of its reservations is active, and
  -- its row, with its cash, and each of its positions are those from before the switch was thrown.
  pub kill_switch_holds :
      (reason by control_id : String) (at : Moment) (db : PortfolioDb F) {view : Snapshot F}
      {db' : PortfolioDb F}
      → set_trading_enabled py p false reason by control_id at db ≡ (ok view, db')
      → (cs : List (PortfolioCall F)) → any_row enables cs ≡ false
      → StandsAs db (after_calls py policy cs db')
  kill_switch_holds reason by control_id at db {view} {db'} switched cs none_enables =
      after_calls-Frozen (find_portfolio p db) (λ symbol. find_position p symbol db) cs db'
        none_enables
        (of_returned (λ _ t. StandsAs db t) switched (disable-StandsAs reason by control_id at db))
