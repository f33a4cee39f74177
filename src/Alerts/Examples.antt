-- ===== src/Alerts/Examples.antt =====
-- Runs of the price alerts on concrete inputs: two alerts, of which one has no quote and one triggers.
use coversational_algo_tradi.Samples.{integers}
use coversational_algo_tradi.Alerts.Rows.{AlertRequest, AlertRow, Quotes, triggered}
use coversational_algo_tradi.Alerts.Service.{
  active_alerts, check_alerts, create_alert, evaluate_alerts, has_alert_id, insert_alert,
  list_alerts,
}
use coversational_algo_tradi.Alerts.Triggers.{AreSound}
use coversational_algo_tradi.Alerts.Runs.{
  AlertCall, after_alert_call, after_alert_calls, after_alert_calls-AreSound, creates, evaluates,
}
use coversational_algo_tradi.Alerts.Final.{triggered_alert_stays}
use coversational_algo_tradi.Prelude.{
  List, [], err, first_row, if◌then◌else◌, none, ok, pos, refl, some, str_eq, ℤ, ◌∷◌, ◌≡◌,
}

abbrev above : AlertRequest ℤ
above = record {
  symbol = "SBIN";
  direction = "above";
  threshold = pos 100;
  exchange = "NSE";
  created_by = "chat";
}

abbrev below : AlertRequest ℤ
below = record above { symbol = "INFY"; direction = "below" }

abbrev quotes : ℤ → Quotes ℤ
quotes price a = if str_eq a.symbol "INFY" then err "no quote" else ok price

abbrev first_calls : List (AlertCall ℤ)
first_calls =
    creates above "a1" 10
    ∷ creates below "a2" 20
    ∷ evaluates (some (quotes (pos 90))) 30
    ∷ evaluates (some (quotes (pos 110))) 40
    ∷ []

abbrev later_calls : List (AlertCall ℤ)
later_calls =
    evaluates (some (quotes (pos 120))) 50 ∷ evaluates none 60 ∷ creates above "a1" 70 ∷ []

abbrev over : AlertRow ℤ
over = record {
  alert_id = "a1";
  symbol = "SBIN";
  exchange = "NSE";
  direction = "above";
  threshold = pos 100;
  status = triggered;
  created_by = "chat";
  created_at = 10;
  last_price = some (pos 110);
  last_checked_at = some 40;
  triggered_at = some 40;
}

after_alert_calls-AreSound_example :
    AreSound integers (after_alert_calls integers (λ t. t) first_calls [])
after_alert_calls-AreSound_example = after_alert_calls-AreSound integers (λ t. t) first_calls

triggered_alert_stays_example :
    first_row (has_alert_id "a1") (
      after_alert_calls integers
        (λ t. t)
        later_calls
        (after_alert_calls integers (λ t. t) first_calls []))
    ≡ some over
unfolding after_alert_calls after_alert_call create_alert insert_alert evaluate_alerts active_alerts
    list_alerts check_alerts
triggered_alert_stays_example =
    triggered_alert_stays integers (λ t. t) "a1" over refl first_calls later_calls refl
