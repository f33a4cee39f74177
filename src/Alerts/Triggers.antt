-- ===== src/Alerts/Triggers.antt =====
-- About the loop of `PriceAlertService.evaluate`: the alerts that it fires, and those that it leaves.
use mathlib.Core.Logic.{◌⊎◌}
use coversational_algo_tradi.Python.{Builtins}
use coversational_algo_tradi.Alerts.Rows.{
  AlertRow, AlertStatus, Progress, Quotes, active, is_active, triggered,
}
use coversational_algo_tradi.Alerts.Service.{
  active_alerts, at_start, check_alerts, check_quote, crossed, evaluate_alerts, fired, has_alert_id,
  observed,
}
use coversational_algo_tradi.Alerts.Orderings.{
  All-active_alerts, AreDistinct, AreDistinct-active_alerts, active_alerts-active,
}
use coversational_algo_tradi.Prelude.{
  All, All-true, All-zip, Bool-cases, Distinct-first_row, Distinct-update_rows, Keeps, List, Option,
  Result, String, [], any_row, any_row-none, ap, eq_iff, err, false, first_row, inl, inr, none, ok,
  refl, same_text, some, some_eq, subst, sym, true, update_rows, update_rows-All2, ℕ, ◌∙◌, ◌∷◌, ◌≡◌,
}

module _ {F : Type 0} (py : Builtins F) where
  -- The price is at the threshold or beyond it, in the direction of the alert.
  abbrev pub IsBeyond : AlertRow F → F → Type 0
  IsBeyond a price =
      ((a.direction ≡ "above") × (py.le a.threshold price ≡ true))
      ⊎ ((a.direction ≡ "below") × (py.le price a.threshold ≡ true))

  -- The direction is one of the two.
  abbrev pub IsDirected : AlertRow F → Type 0
  IsDirected a = (a.direction ≡ "above") ⊎ (a.direction ≡ "below")

  -- An alert that has fired has the price that was observed then, which is beyond its threshold;
  -- another has no time at which it fired.
  abbrev pub Fired : AlertStatus → AlertRow F → Type 0
  Fired active a = a.triggered_at ≡ none
  Fired triggered a =
      (price : F) × (time : ℕ) × (a.last_price ≡ some price)
      × (a.last_checked_at ≡ some time)
      × (a.triggered_at ≡ some time)
      × IsBeyond a price

  abbrev pub HasFired : AlertRow F → Type 0
  HasFired a = IsDirected a × Fired a.status a

  crossed-IsBeyond :
      (a : AlertRow F) (price : F) → IsDirected a → crossed py a price ≡ true → IsBeyond a price
  crossed-IsBeyond a price (inl above) cross = inl (above, rw above at cross)
  crossed-IsBeyond a price (inr below) cross = inr (below, rw below at cross)

  pub record AreSound (rows : List (AlertRow F)) : Type 0 where
    pub distinct : AreDistinct rows
    pub sound : All HasFired rows

  -- What the loop knows of a row, of an alert that it has still to check.
  ReadyAt : AlertRow F → AlertRow F → Type 0
  ReadyAt b x =
      (has_alert_id b.alert_id x ≡ false)
      ⊎ ((x.direction ≡ b.direction) × (x.threshold ≡ b.threshold) × (x.status ≡ active))

  module _ (now : ℕ) (a : AlertRow F) (price : F) (rows : List (AlertRow F))
      (ready : All (ReadyAt a) rows) (h : AreSound rows) where
    fired-AreSound :
        crossed py a price ≡ true
        → AreSound (update_rows (has_alert_id a.alert_id) (fired price now) rows)
    unfolding ReadyAt
    fired-AreSound cross = record {
      distinct =
          Distinct-update_rows (λ x. x.alert_id) (has_alert_id a.alert_id) (fired price now) rows
            (λ x. refl) h.distinct;
      sound =
          update_rows-All2 HasFired (ReadyAt a) (has_alert_id a.alert_id) (fired price now) rows
            (λ x hit known old. elim known [
              | inl away ↦ cc
              | inr (direction, threshold, status) ↦ (
                old.0,
                (
                  price,
                  now,
                  refl,
                  refl,
                  refl,
                  crossed-IsBeyond x price old.0 (rw (direction, threshold) cross),
                ),
              )
            ])
            ready h.sound;
    }

    still_active :
        (x : AlertRow F) → x.status ≡ active → HasFired x → HasFired (observed price now x)
    still_active x status old = (
      old.0,
      subst (λ k. Fired k (observed price now x)) (sym status)
          (subst (λ k. Fired k x) status old.1),
    )

    observed-AreSound : AreSound (update_rows (has_alert_id a.alert_id) (observed price now) rows)
    unfolding ReadyAt
    observed-AreSound = record {
      distinct =
          Distinct-update_rows (λ x. x.alert_id) (has_alert_id a.alert_id) (observed price now) rows
            (λ x. refl) h.distinct;
      sound =
          update_rows-All2 HasFired (ReadyAt a) (has_alert_id a.alert_id) (observed price now) rows
            (λ x hit known old. elim known [
              | inl away ↦ cc
              | inr (direction, threshold, status) ↦ still_active x status old
            ])
            ready h.sound;
    }

  -- The rows that an update of another alert changes are no rows of this one.
  update-ReadyAt :
      (a b : AlertRow F) (f : AlertRow F → AlertRow F) (rows : List (AlertRow F))
      → ((x : AlertRow F) → (f x).alert_id ≡ x.alert_id)
      → has_alert_id a.alert_id b ≡ false
      → All (ReadyAt b) rows
      → All (ReadyAt b) (update_rows (has_alert_id a.alert_id) f rows)
  unfolding ReadyAt
  update-ReadyAt a b f rows keeps apart ready =
      update_rows-All2 (ReadyAt b) (λ x. Unit {0}) (has_alert_id a.alert_id) f rows
        (λ x hit known old. inl (
          rw (keeps x, (eq_iff x.alert_id a.alert_id).0 hit)
            (same_text a.alert_id b.alert_id ∙ apart)))
        (All-true rows) ready

  -- What the loop knows of the rows, with these alerts still to check.
  Loops : List (AlertRow F) → List (AlertRow F) → Type 0
  Loops items rows = AreSound rows × All (λ b. All (ReadyAt b) rows) items

  update-Loops :
      (a : AlertRow F) (f : AlertRow F → AlertRow F) (items rows : List (AlertRow F))
      → ((x : AlertRow F) → (f x).alert_id ≡ x.alert_id)
      → any_row (has_alert_id a.alert_id) items ≡ false
      → AreSound (update_rows (has_alert_id a.alert_id) f rows)
      → All (λ b. All (ReadyAt b) rows) items
      → Loops items (update_rows (has_alert_id a.alert_id) f rows)
  unfolding Loops
  update-Loops a f items rows keeps apart sound ready = (
    sound,
    All-zip (λ b. has_alert_id a.alert_id b ≡ false) (λ b. All (ReadyAt b) rows)
        (λ b. All (ReadyAt b) (update_rows (has_alert_id a.alert_id) f rows)) items
        (λ b away old. update-ReadyAt a b f rows keeps away old)
        (any_row-none (has_alert_id a.alert_id) items apart) ready,
  )

  check_quote-Loops :
      (now : ℕ) (a : AlertRow F) (quote : Result String F) (items : List (AlertRow F))
      (s : Progress F)
      → any_row (has_alert_id a.alert_id) items ≡ false
      → Loops (a ∷ items) s.rows
      → Loops items (check_quote py now a quote s).rows
  unfolding Loops
  check_quote-Loops now a (err e) items s apart (sound, (this, rest)) = (sound, rest)
  check_quote-Loops now a (ok price) items s apart (sound, (this, rest)) =
      elim (Bool-cases (crossed py a price)) [
        | inl cross ↦ rw cross (
            update-Loops a (fired price now) items s.rows (λ x. refl) apart
              (fired-AreSound now a price s.rows this sound cross) rest)
        | inr not_yet ↦ rw not_yet (
            update-Loops a (observed price now) items s.rows (λ x. refl) apart
              (observed-AreSound now a price s.rows this sound) rest)
      ]

  check_alerts-AreSound :
      (quotes : Quotes F) (now : ℕ) (items : List (AlertRow F)) (s : Progress F)
      → AreDistinct items
      → Loops items s.rows
      → AreSound (check_alerts py quotes now items s).rows
  unfolding check_alerts Loops
  check_alerts-AreSound quotes now [] s distinct h = h.0
  check_alerts-AreSound quotes now (a ∷ items) s distinct h =
      check_alerts-AreSound quotes now items (check_quote py now a (quotes a) s) distinct.1
        (check_quote-Loops now a (quotes a) items s distinct.0 h)

  -- An active row of a table with distinct identifiers is the only one that its check can meet.
  own_row :
      (b : AlertRow F) (rows : List (AlertRow F))
      → AreDistinct rows
      → first_row (has_alert_id b.alert_id) rows ≡ some b
      → is_active b.status ≡ true
      → All (ReadyAt b) rows
  unfolding ReadyAt
  own_row b rows distinct own on =
      let keyed = Distinct-first_row (λ x. x.alert_id) rows distinct in
      All-zip (λ x. first_row (has_alert_id x.alert_id) rows ≡ some x) (λ x. Unit {0}) (ReadyAt b)
        rows
        (λ x found _. elim (Bool-cases (has_alert_id b.alert_id x)) [
          | inr away ↦ inl away
          | inl same ↦
              let key : x.alert_id ≡ b.alert_id = (eq_iff x.alert_id b.alert_id).0 same in
              let equal : x ≡ b =
                some_eq
                  (sym (subst (λ k. first_row (has_alert_id k) rows ≡ some x) key found) ∙ own) in
              inr (
                ap (λ y. y.direction) equal,
                ap (λ y. y.threshold) equal,
                ap (λ y. y.status) equal ∙ status_of b.status on,
              )
        ])
        keyed (All-true rows)
    where
      status_of : (k : AlertStatus) → is_active k ≡ true → k ≡ active
      status_of active h = refl
      status_of triggered h = cc

  pub evaluate_alerts-AreSound :
      (client : Option (Quotes F)) (now : ℕ) → Keeps AreSound (evaluate_alerts py client now)
  unfolding evaluate_alerts Loops
  evaluate_alerts-AreSound none now rows h = h
  evaluate_alerts-AreSound (some quotes) now rows h =
      check_alerts-AreSound quotes now (active_alerts rows) (at_start py rows)
        (AreDistinct-active_alerts rows h.distinct)
        (
          h,
          All-zip (λ b. first_row (has_alert_id b.alert_id) rows ≡ some b)
              (λ b. is_active b.status ≡ true) (λ b. All (ReadyAt b) rows) (active_alerts rows)
              (λ b own on. own_row b rows h.distinct own on)
              (All-active_alerts (λ b. first_row (has_alert_id b.alert_id) rows ≡ some b) rows
                (Distinct-first_row (λ x. x.alert_id) rows h.distinct))
              (active_alerts-active rows),
        )
