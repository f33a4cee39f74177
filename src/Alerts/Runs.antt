-- ===== src/Alerts/Runs.antt =====
-- Sequences of calls of `PriceAlertService` from an empty table, by a client whose quotes may
-- change from call to call.
use coversational_algo_tradi.Python.{Builtins, zero_float}
use coversational_algo_tradi.Alerts.Rows.{AlertRequest, AlertRow, Quotes}
use coversational_algo_tradi.Alerts.Service.{
  create_alert, evaluate_alerts, has_alert_id, insert_alert, is_direction, new_alert,
}
use coversational_algo_tradi.Alerts.Triggers.{AreSound, HasFired, evaluate_alerts-AreSound}
use coversational_algo_tradi.Prelude.{
  Bool-cases, Keeps, Keeps-bind, List, Option, String, [], any_row, eq_iff, inl, inr, refl, str_eq,
  true, ℕ, ◌∷◌, ◌≡◌, ◌⊎◌,
}

pub data AlertCall (F : Type 0) : Type 0 where
  creates : AlertRequest F → String → ℕ → AlertCall F
  evaluates : Option (Quotes F) → ℕ → AlertCall F

module _ {F : Type 0} (py : Builtins F) (lower : String → String) where
  -- The table after a call, which may have raised.
  unfoldable pub after_alert_call : AlertCall F → List (AlertRow F) → List (AlertRow F)
  after_alert_call (creates q id now) rows = (create_alert py lower q id now rows).1
  after_alert_call (evaluates client now) rows = (evaluate_alerts py client now rows).1

  unfoldable pub after_alert_calls : List (AlertCall F) → List (AlertRow F) → List (AlertRow F)
  unfolding after_alert_call
  after_alert_calls [] rows = rows
  after_alert_calls (c ∷ cs) rows = after_alert_calls cs (after_alert_call c rows)

  insert_alert-AreSound : (a : AlertRow F) → HasFired py a → Keeps (AreSound py) (insert_alert a)
  unfolding insert_alert
  insert_alert-AreSound a sound rows h =
      elim (Bool-cases (any_row (has_alert_id a.alert_id) rows)) [
        | inl clash ↦ rw clash h
        | inr free ↦ rw free (record { distinct = (free, h.distinct); sound = (sound, h.sound) })
      ]

  direction-IsDirected : (d : String) → is_direction py d ≡ true → (d ≡ "above") ⊎ (d ≡ "below")
  direction-IsDirected d h = elim (Bool-cases (str_eq d "above")) [
    | inl up ↦ inl ((eq_iff d "above").0 up)
    | inr other ↦ inr ((eq_iff d "below").0 (rw other at h))
  ]

  create_alert-AreSound :
      (q : AlertRequest F) (id : String) (now : ℕ)
      → Keeps (AreSound py) (create_alert py lower q id now)
  unfolding create_alert
  create_alert-AreSound q id now rows h =
      let direction = py.strip (lower q.direction) in
      elim (Bool-cases (is_direction py direction)) [
        | inr wrong ↦ rw wrong h
        | inl good ↦ elim (Bool-cases (py.le q.threshold (zero_float py))) [
          | inl low ↦ rw (good, low) h
          | inr positive ↦
              rw (good, positive)
                (Keeps-bind (AreSound py) (insert_alert (new_alert py q direction id now)) _
                  (insert_alert-AreSound (new_alert py q direction id now)
                    (direction-IsDirected direction good, refl))
                  (λ _. (λ s k. k)) rows h)
        ]
      ]

  pub after_alert_call-AreSound :
      (c : AlertCall F) (rows : List (AlertRow F))
      → AreSound py rows
      → AreSound py (after_alert_call c rows)
  unfolding after_alert_call
  after_alert_call-AreSound (creates q id now) = create_alert-AreSound q id now
  after_alert_call-AreSound (evaluates client now) = evaluate_alerts-AreSound py client now

  after_alert_calls-keep_AreSound :
      (cs : List (AlertCall F)) (rows : List (AlertRow F))
      → AreSound py rows
      → AreSound py (after_alert_calls cs rows)
  unfolding after_alert_calls
  after_alert_calls-keep_AreSound [] rows h = h
  after_alert_calls-keep_AreSound (c ∷ cs) rows h =
      after_alert_calls-keep_AreSound cs (after_alert_call c rows)
        (after_alert_call-AreSound c rows h)

  -- After any calls from an empty table, raised or not, and whatever the client answers: no two alerts
  -- have one identifier, the direction of every alert is "above" or "below", every alert that has
  -- triggered has a last price, observed at the time at which it triggered, that is at least its
  -- threshold where the direction is "above" and at most its threshold where it is "below", and no
  -- other alert has a time at which it triggered.
  pub after_alert_calls-AreSound : (cs : List (AlertCall F)) → AreSound py (after_alert_calls cs [])
  after_alert_calls-AreSound cs =
      after_alert_calls-keep_AreSound cs [] (record { distinct = tt; sound = tt })
