-- ===== src/Alerts/Final.antt =====
-- About the alerts of `PriceAlertService` that have triggered, under every call.
use coversational_algo_tradi.Python.{Builtins, zero_float}
use coversational_algo_tradi.Alerts.Rows.{AlertRequest, AlertRow, Progress, Quotes, is_active}
use coversational_algo_tradi.Alerts.Service.{
  active_alerts, at_start, check_alerts, check_quote, create_alert, crossed, evaluate_alerts, fired,
  has_alert_id, insert_alert, is_direction, new_alert, observed,
}
use coversational_algo_tradi.Alerts.Orderings.{All-active_alerts, active_alerts-active}
use coversational_algo_tradi.Alerts.Triggers.{AreSound}
use coversational_algo_tradi.Alerts.Runs.{
  AlertCall, after_alert_call, after_alert_call-AreSound, after_alert_calls,
  after_alert_calls-AreSound, creates, evaluates,
}
use coversational_algo_tradi.Prelude.{
  All, All-zip, Bool-cases, Distinct-first_row, Keeps, Keeps-bind, List, Result, String, [],
  any_row, ap, eq_iff, err, false, first_row, first_row-any, first_row-passes,
  first_row-update_other, inl, inr, none, ok, refl, same_text, some, some_eq, str_eq, subst, sym,
  true, update_rows, ℕ, ◌∙◌, ◌∷◌, ◌≡◌,
}

module _ {F : Type 0} (py : Builtins F) (lower : String → String) (id : String) (r : AlertRow F)
    (over : is_active r.status ≡ false) where
  -- The alert is stored.
  abbrev HoldsAlert : List (AlertRow F) → Type 0
  HoldsAlert rows = first_row (has_alert_id id) rows ≡ some r

  update-HoldsAlert :
      (a : AlertRow F) (f : AlertRow F → AlertRow F) (rows : List (AlertRow F))
      → ((x : AlertRow F) → (f x).alert_id ≡ x.alert_id)
      → has_alert_id id a ≡ false
      → HoldsAlert rows
      → HoldsAlert (update_rows (has_alert_id a.alert_id) f rows)
  update-HoldsAlert a f rows keeps away h =
      let own = (eq_iff r.alert_id id).0 (first_row-passes (has_alert_id id) rows h) in
      first_row-update_other (has_alert_id id) (has_alert_id a.alert_id) f rows
        (λ x. ap (λ k. str_eq k id) (keeps x)) (rw own (same_text id a.alert_id ∙ away)) h

  check_quote-HoldsAlert :
      (now : ℕ) (a : AlertRow F) (quote : Result String F) (s : Progress F)
      → has_alert_id id a ≡ false
      → HoldsAlert s.rows
      → HoldsAlert (check_quote py now a quote s).rows
  check_quote-HoldsAlert now a (err e) s away h = h
  check_quote-HoldsAlert now a (ok price) s away h = elim (Bool-cases (crossed py a price)) [
    | inl cross ↦ rw cross (update-HoldsAlert a (fired price now) s.rows (λ x. refl) away h)
    | inr not_yet ↦ rw not_yet (update-HoldsAlert a (observed price now) s.rows (λ x. refl) away h)
  ]

  check_alerts-HoldsAlert :
      (quotes : Quotes F) (now : ℕ) (items : List (AlertRow F)) (s : Progress F)
      → All (λ b. has_alert_id id b ≡ false) items
      → HoldsAlert s.rows
      → HoldsAlert (check_alerts py quotes now items s).rows
  unfolding check_alerts
  check_alerts-HoldsAlert quotes now [] s away h = h
  check_alerts-HoldsAlert quotes now (a ∷ items) s away h =
      check_alerts-HoldsAlert quotes now items (check_quote py now a (quotes a) s) away.1
        (check_quote-HoldsAlert now a (quotes a) s away.0 h)

  not_checked :
      (rows : List (AlertRow F))
      → AreSound py rows
      → HoldsAlert rows
      → All (λ b. has_alert_id id b ≡ false) (active_alerts rows)
  not_checked rows sound h =
      All-zip (λ b. first_row (has_alert_id b.alert_id) rows ≡ some b)
        (λ b. is_active b.status ≡ true) (λ b. has_alert_id id b ≡ false) (active_alerts rows)
        (λ b own on. elim (Bool-cases (has_alert_id id b)) [
          | inr away ↦ away
          | inl same ↦
              let key = (eq_iff b.alert_id id).0 same in
              let equal : b ≡ r =
                some_eq (sym (subst (λ k. first_row (has_alert_id k) rows ≡ some b) key own) ∙ h) in
              let off : is_active b.status ≡ false = rw equal over in cc
        ])
        (All-active_alerts (λ b. first_row (has_alert_id b.alert_id) rows ≡ some b) rows
          (Distinct-first_row (λ x. x.alert_id) rows sound.distinct))
        (active_alerts-active rows)

  insert_alert-HoldsAlert : (a : AlertRow F) → Keeps HoldsAlert (insert_alert a)
  unfolding insert_alert
  insert_alert-HoldsAlert a rows h = elim (Bool-cases (any_row (has_alert_id a.alert_id) rows)) [
    | inl clash ↦ rw clash h
    | inr free ↦ rw free (elim (Bool-cases (str_eq a.alert_id id)) [
      | inr away ↦ rw away h
      | inl same ↦
          let there = first_row-any (has_alert_id id) rows h in
          let gone : any_row (has_alert_id id) rows ≡ false =
            rw ((eq_iff a.alert_id id).0 same) at free in
          cc
    ])
  ]

  create_alert-HoldsAlert :
      (q : AlertRequest F) (new_id : String) (now : ℕ)
      → Keeps HoldsAlert (create_alert py lower q new_id now)
  unfolding create_alert
  create_alert-HoldsAlert q new_id now rows h =
      let direction = py.strip (lower q.direction) in
      elim (Bool-cases (is_direction py direction)) [
        | inr wrong ↦ rw wrong h
        | inl good ↦ elim (Bool-cases (py.le q.threshold (zero_float py))) [
          | inl low ↦ rw (good, low) h
          | inr positive ↦
              rw (good, positive)
                (Keeps-bind HoldsAlert (insert_alert (new_alert py q direction new_id now)) _
                  (insert_alert-HoldsAlert (new_alert py q direction new_id now)) (λ _. (λ s k. k))
                  rows h)
        ]
      ]

  after_alert_call-HoldsAlert :
      (c : AlertCall F) (rows : List (AlertRow F))
      → AreSound py rows
      → HoldsAlert rows
      → HoldsAlert (after_alert_call py lower c rows)
  unfolding after_alert_call evaluate_alerts
  after_alert_call-HoldsAlert (creates q new_id now) rows sound h =
      create_alert-HoldsAlert q new_id now rows h
  after_alert_call-HoldsAlert (evaluates none now) rows sound h = h
  after_alert_call-HoldsAlert (evaluates (some quotes) now) rows sound h =
      check_alerts-HoldsAlert quotes now (active_alerts rows) (at_start py rows)
        (not_checked rows sound h) h

  after_alert_calls-keep_HoldsAlert :
      (cs : List (AlertCall F)) (rows : List (AlertRow F))
      → AreSound py rows
      → HoldsAlert rows
      → HoldsAlert (after_alert_calls py lower cs rows)
  unfolding after_alert_calls
  after_alert_calls-keep_HoldsAlert [] rows sound h = h
  after_alert_calls-keep_HoldsAlert (c ∷ cs) rows sound h =
      after_alert_calls-keep_HoldsAlert cs (after_alert_call py lower c rows)
        (after_alert_call-AreSound py lower c rows sound)
        (after_alert_call-HoldsAlert c rows sound h)

  -- After any calls from an empty table, the row of an alert that has triggered is the same after any
  -- further calls: it is not evaluated again.
  pub triggered_alert_stays :
      (before later : List (AlertCall F))
      → first_row (has_alert_id id) (after_alert_calls py lower before []) ≡ some r
      → first_row
          (has_alert_id id)
          (after_alert_calls py lower later (after_alert_calls py lower before []))
        ≡ some r
  triggered_alert_stays before later =
      after_alert_calls-keep_HoldsAlert later (after_alert_calls py lower before [])
        (after_alert_calls-AreSound py lower before)
