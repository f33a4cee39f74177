-- ===== src/Alerts/Orderings.antt =====
-- About the rows that a query of `PriceAlertService` picks.
use coversational_algo_tradi.Alerts.Rows.{AlertRow, is_active}
use coversational_algo_tradi.Alerts.Service.{
  active_alerts, at_most, has_alert_id, insert_by_time, is_listed, list_alerts, newest_first,
}
use coversational_algo_tradi.Prelude.{
  All, Bool, Bool-cases, Distinct, List, [], any_row, any_row-none, false, inl, inr, leb, refl,
  same_text, suc, true, where_rows, zero, ℕ, ◌∙◌, ◌∷◌, ◌≡◌,
}

module _ {F : Type 0} (P : AlertRow F → Type 0) where
  All-where_rows :
      (p : AlertRow F → Bool) (xs : List (AlertRow F)) → All P xs → All P (where_rows p xs)
  All-where_rows p [] h = tt
  All-where_rows p (x ∷ xs) h = elim (Bool-cases (p x)) [
    | inl kept ↦ rw kept (h.0, All-where_rows p xs h.1)
    | inr left ↦ rw left (All-where_rows p xs h.1)
  ]

  All-at_most : (n : ℕ) (xs : List (AlertRow F)) → All P xs → All P (at_most n xs)
  All-at_most zero xs h = tt
  All-at_most (suc n) [] h = tt
  All-at_most (suc n) (x ∷ xs) h = (h.0, All-at_most n xs h.1)

  All-insert_by_time :
      (a : AlertRow F) (xs : List (AlertRow F)) → P a → All P xs → All P (insert_by_time a xs)
  All-insert_by_time a [] h k = (h, tt)
  All-insert_by_time a (b ∷ bs) h k = elim (Bool-cases (leb b.created_at a.created_at)) [
    | inl here ↦ rw here (h, k)
    | inr later ↦ rw later (k.0, All-insert_by_time a bs h k.1)
  ]

  All-newest_first : (xs : List (AlertRow F)) → All P xs → All P (newest_first xs)
  All-newest_first [] h = tt
  All-newest_first (x ∷ xs) h = All-insert_by_time x (newest_first xs) h.0 (All-newest_first xs h.1)

  pub All-active_alerts : (rows : List (AlertRow F)) → All P rows → All P (active_alerts rows)
  unfolding active_alerts list_alerts
  All-active_alerts rows h =
      All-where_rows (λ a. is_active a.status) _
        (All-where_rows (is_listed true) _
          (All-at_most 200 (newest_first rows) (All-newest_first rows h)))

module _ {F : Type 0} where
  where_rows-pass :
      (p : AlertRow F → Bool) (xs : List (AlertRow F)) → All (λ x. p x ≡ true) (where_rows p xs)
  where_rows-pass p [] = tt
  where_rows-pass p (x ∷ xs) = elim (Bool-cases (p x)) [
    | inl kept ↦ rw kept (kept, where_rows-pass p xs)
    | inr left ↦ rw left (where_rows-pass p xs)
  ]

  pub active_alerts-active :
      (rows : List (AlertRow F)) → All (λ a. is_active a.status ≡ true) (active_alerts rows)
  unfolding active_alerts
  active_alerts-active rows = where_rows-pass (λ a. is_active a.status) (list_alerts true rows)

  -- Identifiers that are distinct.
  abbrev pub AreDistinct : List (AlertRow F) → Type 0
  AreDistinct = Distinct (λ a. a.alert_id)

  none_of :
      (p : AlertRow F → Bool) (xs : List (AlertRow F))
      → All (λ x. p x ≡ false) xs
      → any_row p xs ≡ false
  none_of p [] h = refl
  none_of p (x ∷ xs) h = rw h.0 (none_of p xs h.1)

  AreDistinct-where_rows :
      (p : AlertRow F → Bool) (xs : List (AlertRow F))
      → AreDistinct xs
      → AreDistinct (where_rows p xs)
  AreDistinct-where_rows p [] h = tt
  AreDistinct-where_rows p (x ∷ xs) h = elim (Bool-cases (p x)) [
    | inl kept ↦ rw kept (
      none_of (has_alert_id x.alert_id) (where_rows p xs) (
          All-where_rows (λ y. has_alert_id x.alert_id y ≡ false) p xs
            (any_row-none (has_alert_id x.alert_id) xs h.0)),
      AreDistinct-where_rows p xs h.1,
    )
    | inr left ↦ rw left (AreDistinct-where_rows p xs h.1)
  ]

  AreDistinct-at_most :
      (n : ℕ) (xs : List (AlertRow F)) → AreDistinct xs → AreDistinct (at_most n xs)
  AreDistinct-at_most zero xs h = tt
  AreDistinct-at_most (suc n) [] h = tt
  AreDistinct-at_most (suc n) (x ∷ xs) h = (
    none_of (has_alert_id x.alert_id) (at_most n xs) (
        All-at_most (λ y. has_alert_id x.alert_id y ≡ false) n xs
          (any_row-none (has_alert_id x.alert_id) xs h.0)),
    AreDistinct-at_most n xs h.1,
  )

  AreDistinct-insert_by_time :
      (a : AlertRow F) (xs : List (AlertRow F))
      → any_row (has_alert_id a.alert_id) xs ≡ false
      → AreDistinct xs
      → AreDistinct (insert_by_time a xs)
  AreDistinct-insert_by_time a [] free h = (refl, tt)
  AreDistinct-insert_by_time a (b ∷ bs) free h =
      let apart = any_row-none (has_alert_id a.alert_id) (b ∷ bs) free in
      elim (Bool-cases (leb b.created_at a.created_at)) [
        | inl here ↦ rw here (free, h)
        | inr later ↦ rw later (
          none_of (has_alert_id b.alert_id) (insert_by_time a bs) (
              All-insert_by_time (λ y. has_alert_id b.alert_id y ≡ false) a bs
                (same_text a.alert_id b.alert_id ∙ apart.0)
                (any_row-none (has_alert_id b.alert_id) bs h.0)),
          AreDistinct-insert_by_time a bs (none_of (has_alert_id a.alert_id) bs apart.1) h.1,
        )
      ]

  AreDistinct-newest_first :
      (xs : List (AlertRow F)) → AreDistinct xs → AreDistinct (newest_first xs)
  AreDistinct-newest_first [] h = tt
  AreDistinct-newest_first (x ∷ xs) h =
      AreDistinct-insert_by_time x (newest_first xs)
        (none_of (has_alert_id x.alert_id) (newest_first xs) (
          All-newest_first (λ y. has_alert_id x.alert_id y ≡ false) xs
            (any_row-none (has_alert_id x.alert_id) xs h.0)))
        (AreDistinct-newest_first xs h.1)

  pub AreDistinct-active_alerts :
      (rows : List (AlertRow F)) → AreDistinct rows → AreDistinct (active_alerts rows)
  unfolding active_alerts list_alerts
  AreDistinct-active_alerts rows h =
      AreDistinct-where_rows (λ a. is_active a.status) _
        (AreDistinct-where_rows (is_listed true) _
          (AreDistinct-at_most 200 (newest_first rows) (AreDistinct-newest_first rows h)))
