-- ===== src/Alerts/Service.antt =====
-- The methods of `PriceAlertService` (iimc_trading_platform/services/price_alert_service.py).
-- `lower` is Python's; new identifiers and the readings of the clock are arguments, as is the
-- client.
use mathlib.Core.List.{◌++◌}
use coversational_algo_tradi.Python.{Builtins, zero_float}
use coversational_algo_tradi.Alerts.Rows.{
  AlertMethod, AlertReport, AlertRequest, AlertRow, CreatedAlert, Progress, Quotes, active,
  bad_direction, bad_threshold, constraint_violation, error_text, is_active, no_credentials,
  triggered,
}
use coversational_algo_tradi.Prelude.{
  Bool, List, Option, Result, String, [], any_row, err, if◌then◌else◌, leb, length, modify, none,
  not, ok, pure, raise, raise_if, some, str_eq, suc, true, update_rows, where_rows, zero, ℕ, ◌>>◌,
  ◌||◌, ◌∷◌,
}

module _ {F : Type 0} where
  abbrev pub has_alert_id : String → AlertRow F → Bool
  has_alert_id id a = str_eq a.alert_id id

  unfoldable pub insert_alert : AlertRow F → AlertMethod F (Unit {0})
  insert_alert a rows =
      if any_row (has_alert_id a.alert_id) rows
      then raise constraint_violation rows
      else modify (λ later. a ∷ later) rows

  abbrev pub created_of : AlertRow F → CreatedAlert F
  created_of a = record {
    alert_id = a.alert_id;
    symbol = a.symbol;
    exchange = a.exchange;
    direction = a.direction;
    threshold = a.threshold;
    status = active;
  }

  -- `ORDER BY created_at DESC`; of two rows with one time the newer is first.
  abbrev pub insert_by_time : AlertRow F → List (AlertRow F) → List (AlertRow F)
  insert_by_time a [] = a ∷ []
  insert_by_time a (b ∷ bs) =
      let rest = insert_by_time a bs in
      if leb b.created_at a.created_at then a ∷ b ∷ bs else b ∷ rest

  abbrev pub newest_first : List (AlertRow F) → List (AlertRow F)
  newest_first [] = []
  newest_first (a ∷ later) = insert_by_time a (newest_first later)

  -- `LIMIT`
  abbrev pub at_most : ℕ → List (AlertRow F) → List (AlertRow F)
  at_most zero later = []
  at_most (suc n) [] = []
  at_most (suc n) (a ∷ later) = a ∷ at_most n later

  abbrev pub is_listed : Bool → AlertRow F → Bool
  is_listed include_triggered a = include_triggered || is_active a.status

  -- `list`
  unfoldable pub list_alerts : Bool → List (AlertRow F) → List (AlertRow F)
  list_alerts include_triggered rows =
      where_rows (is_listed include_triggered) (at_most 200 (newest_first rows))

  -- The alerts that `evaluate` goes through.
  unfoldable pub active_alerts : List (AlertRow F) → List (AlertRow F)
  unfolding list_alerts
  active_alerts rows = where_rows (λ a. is_active a.status) (list_alerts true rows)

  abbrev pub observed : F → ℕ → AlertRow F → AlertRow F
  observed price now a = record a { last_price = some price; last_checked_at = some now }

  abbrev pub fired : F → ℕ → AlertRow F → AlertRow F
  fired price now a = record a {
    status = triggered;
    last_price = some price;
    last_checked_at = some now;
    triggered_at = some now;
  }

module _ {F : Type 0} (py : Builtins F) where
  abbrev pub new_alert : AlertRequest F → String → String → ℕ → AlertRow F
  new_alert q direction id now = record {
    alert_id = id;
    symbol = py.strip (py.upper q.symbol);
    exchange = py.strip (py.upper q.exchange);
    direction = direction;
    threshold = q.threshold;
    status = active;
    created_by = q.created_by;
    created_at = now;
    last_price = none;
    last_checked_at = none;
    triggered_at = none;
  }

  abbrev pub is_direction : String → Bool
  is_direction d = str_eq d "above" || str_eq d "below"

  unfoldable pub create_alert :
      (String → String) → AlertRequest F → String → ℕ → AlertMethod F (CreatedAlert F)
  unfolding insert_alert
  create_alert lower q id now = do
    let direction = py.strip (lower q.direction)
    raise_if (not (is_direction direction)) bad_direction
    raise_if (py.le q.threshold (zero_float py)) bad_threshold
    insert_alert (new_alert q direction id now)
    pure (created_of (new_alert q direction id now))

  abbrev pub crossed : AlertRow F → F → Bool
  crossed a price =
      if str_eq a.direction "above" then py.le a.threshold price else py.le price a.threshold

  -- One turn of the loop, once the quote has been read.
  abbrev pub check_price : ℕ → AlertRow F → F → Progress F → Progress F
  check_price now a price s =
      if crossed a price
      then record s {
        triggered_alerts = s.triggered_alerts ++ record a { last_price = some price } ∷ [];
        rows = update_rows (has_alert_id a.alert_id) (fired price now) s.rows;
      }
      else record s { rows = update_rows (has_alert_id a.alert_id) (observed price now) s.rows }

  abbrev pub check_quote : ℕ → AlertRow F → Result String F → Progress F → Progress F
  check_quote now a (err e) s = record s { errors = s.errors ++ error_text a.symbol e ∷ [] }
  check_quote now a (ok price) s = check_price now a price s

  unfoldable pub check_alerts : Quotes F → ℕ → List (AlertRow F) → Progress F → Progress F
  check_alerts quotes now [] s = s
  check_alerts quotes now (a ∷ later) s =
      check_alerts quotes now later (check_quote now a (quotes a) s)

  abbrev pub report_of : ℕ → Progress F → AlertReport F
  report_of checked s = record {
    checked = checked;
    triggered_alerts = s.triggered_alerts;
    errors = s.errors;
  }

  abbrev pub at_start : List (AlertRow F) → Progress F
  at_start rows = record { triggered_alerts = []; errors = []; rows = rows }

  unfoldable pub evaluate_alerts : Option (Quotes F) → ℕ → AlertMethod F (AlertReport F)
  unfolding active_alerts check_alerts
  evaluate_alerts client now rows = elim client [
    | none ↦ raise no_credentials rows
    | some quotes ↦
        let done = check_alerts quotes now (active_alerts rows) (at_start rows) in
        (ok (report_of (length (active_alerts rows)) done), done.rows)
  ]
