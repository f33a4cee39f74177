-- ===== src/Portfolio/OpenSells.antt =====
-- How the quantity that active reservations set aside for sale changes with the table.
use coversational_algo_tradi.Portfolio.Rows.{ReservationRow, ReservationStatus, is_active, sell}
use coversational_algo_tradi.Portfolio.Reads.{
  active_in, reserved_sell_quantity, sells, sum_quantities,
}
use coversational_algo_tradi.Portfolio.Reserve.{with_status}
use coversational_algo_tradi.Portfolio.Fill.{has_reservation_id, is_reservation_of}
use coversational_algo_tradi.Prelude.{
  +ℤ_parts, All, Bool, Bool-cases, List, String, [], arith, eq_refl, false, first_row,
  if◌then◌else◌, inl, inr, pos, refl, some, true, update_rows, where_rows, ℕ, ℤ, ◌&&◌, ◌+ℤ◌, ◌<ℤ◌,
  ◌∷◌, ◌≡◌, ◌≤ℤ◌,
}

module _ {F : Type 0} where
  abbrev pub IsPositive : ReservationRow F → Type 0
  IsPositive r = pos 0 <ℤ r.quantity

  abbrev pub counts : String → String → ReservationRow F → Bool
  counts p symbol r = active_in p r && sells symbol r

  -- The quantity in one pass over the table.
  unfoldable pub open_sells : String → String → List (ReservationRow F) → ℤ
  open_sells p symbol [] = pos 0
  open_sells p symbol (r ∷ rs) =
      if counts p symbol r then r.quantity +ℤ open_sells p symbol rs else open_sells p symbol rs

  -- It is what the service computes in two.
  pub reserved-eq-open_sells :
      (p symbol : String) (rs : List (ReservationRow F))
      → reserved_sell_quantity symbol (where_rows (active_in p) rs) ≡ open_sells p symbol rs
  unfolding reserved_sell_quantity sum_quantities open_sells
  reserved-eq-open_sells p symbol [] = refl
  reserved-eq-open_sells p symbol (r ∷ rs) = ground (arith, reserved-eq-open_sells p symbol rs)

  pub open_sells-nonneg :
      (p symbol : String) (rs : List (ReservationRow F))
      → All IsPositive rs
      → pos 0 ≤ℤ open_sells p symbol rs
  unfolding open_sells
  open_sells-nonneg p symbol [] h = omega arith
  open_sells-nonneg p symbol (r ∷ rs) h =
      ground
        (arith, +ℤ_parts r.quantity (open_sells p symbol rs), open_sells-nonneg p symbol rs h.1)

  -- To close reservations only lowers it.
  pub open_sells-close :
      (test : ReservationRow F → Bool) (status : ReservationStatus) (now : ℕ) (p symbol : String)
      (rs : List (ReservationRow F))
      → is_active status ≡ false
      → All IsPositive rs
      → open_sells p symbol (update_rows test (with_status status now) rs) ≤ℤ open_sells p symbol rs
  unfolding open_sells
  open_sells-close test status now p symbol [] closed h = omega arith
  open_sells-close test status now p symbol (r ∷ rs) closed h =
      let tail = open_sells-close test status now p symbol rs closed h.1 in
      ground (
        arith,
        tail,
        +ℤ_parts r.quantity (open_sells p symbol rs),
        +ℤ_parts r.quantity (open_sells p symbol (update_rows test (with_status status now) rs)),
      )

  pub close-IsPositive :
      (test : ReservationRow F → Bool) (status : ReservationStatus) (now : ℕ)
      (rs : List (ReservationRow F))
      → All IsPositive rs
      → All IsPositive (update_rows test (with_status status now) rs)
  close-IsPositive test status now [] h = tt
  close-IsPositive test status now (r ∷ rs) h =
      ground (arith, close-IsPositive test status now rs h.1)

  -- To close an active reservation for sale lowers it by that reservation's quantity at least.
  pub open_sells-consume :
      (status : ReservationStatus) (now : ℕ) (id p : String) (rs : List (ReservationRow F))
      {r : ReservationRow F}
      → is_active status ≡ false
      → All IsPositive rs
      → first_row (is_reservation_of id p) rs ≡ some r
      → is_active r.status ≡ true
      → r.side ≡ sell
      → open_sells p r.symbol (update_rows (has_reservation_id id) (with_status status now) rs)
          +ℤ r.quantity
        ≤ℤ open_sells p r.symbol rs
  unfolding open_sells
  open_sells-consume status now id p [] closed h found live sale = cc
  open_sells-consume status now id p (x ∷ xs) {r} closed h found live sale =
      let rest = update_rows (has_reservation_id id) (with_status status now) xs in
      elim (Bool-cases (is_reservation_of id p x)) [
        | inl this ↦ ground (
          arith,
          eq_refl r.symbol,
          open_sells-close (has_reservation_id id) status now p r.symbol xs closed h.1,
          +ℤ_parts x.quantity (open_sells p r.symbol xs),
          +ℤ_parts (open_sells p r.symbol rest) r.quantity,
        )
        | inr later ↦
            let tail =
              open_sells-consume status now id p xs closed h.1 (rw later at found) live sale in
            ground (
              arith,
              tail,
              +ℤ_parts x.quantity (open_sells p r.symbol xs),
              +ℤ_parts x.quantity (open_sells p r.symbol rest),
              +ℤ_parts (open_sells p r.symbol rest) r.quantity,
              +ℤ_parts (x.quantity +ℤ open_sells p r.symbol rest) r.quantity,
            )
      ]
