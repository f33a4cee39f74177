-- ===== src/Portfolio/KillSwitch.antt =====
-- The state of a portfolio of `PortfolioService` in which trading is disabled, and the lemmas on the
-- rows that it is about.
use coversational_algo_tradi.Prelude.{
  All, Bool, Bool-cases, List, Option, String, [], any_row, arith, eq_iff, eq_refl, false,
  first_row, inl, inr, refl, some, str_eq, true, update_rows, ℕ, ◌∷◌, ◌≡◌,
}
use coversational_algo_tradi.Python.{Builtins}
use coversational_algo_tradi.Portfolio.Rows.{
  ControlRow, PortfolioDb, PortfolioRow, PositionRow, ReservationRow, ReservationStatus, is_active,
  released,
}
use coversational_algo_tradi.Portfolio.Reads.{
  active_in, enabled_by, find_control, find_portfolio, find_position, has_portfolio_id, has_scope,
}
use coversational_algo_tradi.Portfolio.Reserve.{with_status}
use coversational_algo_tradi.Portfolio.Fill.{add_cash, upsert_control}

module _ {F : Type 0} (p : String) where
  abbrev pub IsClosed : ReservationRow F → Type 0
  IsClosed r = active_in p r ≡ false

  pub close-IsClosed :
      (test : ReservationRow F → Bool) (status : ReservationStatus) (now : ℕ)
      (rs : List (ReservationRow F))
      → is_active status ≡ false
      → All IsClosed rs
      → All IsClosed (update_rows test (with_status status now) rs)
  close-IsClosed test status now [] off h = tt
  close-IsClosed test status now (r ∷ rs) off h =
      ground (arith, close-IsClosed test status now rs off h.1)

  -- The release by `set_trading_enabled` leaves nothing active, whatever there was.
  pub release-IsClosed :
      (now : ℕ) (rs : List (ReservationRow F))
      → All IsClosed (update_rows (active_in p) (with_status released now) rs)
  release-IsClosed now [] = tt
  release-IsClosed now (r ∷ rs) = ground (arith, release-IsClosed now rs)

  pub find-add_cash :
      (py : Builtins F) (other : String) (delta : F) (now : ℕ) (rows : List (PortfolioRow F))
      → str_eq other p ≡ false
      → first_row
          (has_portfolio_id p)
          (update_rows (has_portfolio_id other) (add_cash py delta now) rows)
        ≡ first_row (has_portfolio_id p) rows
  find-add_cash py other delta now [] differs = refl
  find-add_cash py other delta now (row ∷ rows) differs =
      ground (arith, eq_iff row.portfolio_id other, find-add_cash py other delta now rows differs)

module _ (p : String) where
  find-update_control :
      (new : ControlRow) (rows : List ControlRow)
      → str_eq new.scope_id p ≡ false
      → first_row (has_scope p) (update_rows (has_scope new.scope_id) (λ _. new) rows)
        ≡ first_row (has_scope p) rows
  find-update_control new [] differs = refl
  find-update_control new (c ∷ rows) differs =
      ground (arith, eq_iff c.scope_id new.scope_id, find-update_control new rows differs)

  pub find-upsert_control :
      (new : ControlRow) (rows : List ControlRow)
      → str_eq new.scope_id p ≡ false
      → first_row (has_scope p) (upsert_control new rows) ≡ first_row (has_scope p) rows
  unfolding upsert_control
  find-upsert_control new rows differs = elim (Bool-cases (any_row (has_scope new.scope_id) rows)) [
    | inl there ↦ rw there (find-update_control new rows differs)
    | inr fresh ↦ rw (fresh, differs) refl
  ]

  find-update_control_self :
      (new : ControlRow) (rows : List ControlRow)
      → any_row (has_scope new.scope_id) rows ≡ true
      → first_row (has_scope new.scope_id) (update_rows (has_scope new.scope_id) (λ _. new) rows)
        ≡ some new
  find-update_control_self new [] there = cc
  find-update_control_self new (c ∷ rows) there =
      ground (arith, eq_refl new.scope_id, find-update_control_self new rows)

  pub find-upsert_control_self :
      (new : ControlRow) (rows : List ControlRow)
      → first_row (has_scope new.scope_id) (upsert_control new rows) ≡ some new
  unfolding upsert_control
  find-upsert_control_self new rows = elim (Bool-cases (any_row (has_scope new.scope_id) rows)) [
    | inl there ↦ rw there (find-update_control_self new rows there)
    | inr fresh ↦ rw (fresh, eq_refl) refl
  ]

module _ {F : Type 0} (p : String) (row : Option (PortfolioRow F))
    (held : String → Option (PositionRow F)) where
  -- Trading in `p` is disabled, nothing is reserved, and the portfolio has the row `row` and the
  -- positions `held`.
  pub record IsFrozen (db : PortfolioDb F) : Type 0 where
    pub disabled : enabled_by (find_control p db) ≡ false
    pub closed : All (IsClosed p) db.reservations
    pub same_row : find_portfolio p db ≡ row
    pub same_positions : (symbol : String) → find_position p symbol db ≡ held symbol
