-- ===== src/Orders/Examples.antt =====
-- Runs of the order service on concrete inputs. Prices are natural numbers here.
use mathlib.Core.List.{Memᴰ}
use coversational_algo_tradi.Orders.Rows.{
  Change, FillDetails, OrderRecord, OrderRequest, OrderStore, StateEvent, Times, invalid_transition,
  is_valid_transition,
}
use coversational_algo_tradi.Orders.Methods.{
  changed, create_new, create_or_existing, create_order, fill_row, find_by_idempotency_key, get,
  idempotency_key, insert_order, log_event, new_order, record_simulated_fill, record_transition,
  transition, write_back,
}
use coversational_algo_tradi.Orders.Trail.{Accounts, IsAudited, history}
use coversational_algo_tradi.Orders.Lifecycle.{ReachesMarket, semi_auto_needs_approval}
use coversational_algo_tradi.Orders.Runs.{
  OrderCall, after_call, after_calls, after_calls-audit, creates, empty_store, fills, transitions,
}
use coversational_algo_tradi.Orders.Terminal.{after_call_terminal}
use coversational_algo_tradi.Orders.Creation.{create_order_idempotent}
use coversational_algo_tradi.Orders.Fills.{Filled, fill_of_new, late_fill_is_recorded}
use coversational_algo_tradi.Prelude.{
  List, [], err, length, none, ok, pos, refl, some, ℕ, ◌∷◌, ◌≡◌, ◌≤◌,
}
use coversational_algo_tradi.Domain.{
  ExecutionMode-discrete, OrderStatus, OrderStatus-discrete, cancelled, sandbox, semi_auto,
  submitted,
}

abbrev at_1 : Times
at_1 = record { written = 1; logged = 1 }

abbrev at_2 : Times
at_2 = record { written = 2; logged = 2 }

abbrev request : OrderRequest ℕ
request = record {
  run_id = "run";
  decision_id = "decision";
  symbol = "NIFTY";
  side = "buy";
  order_type = "market";
  quantity = pos 50;
  execution_mode = semi_auto;
  price = 100;
}

abbrev retried : OrderRequest ℕ
retried = record request { quantity = pos 20; price = 101 }

abbrev plain : OrderRequest ℕ
plain = record request { execution_mode = sandbox }

abbrev details : FillDetails ℕ
details = record { fill_price = 100; fees = 1; realized_pnl = 0; filled_at = 3 }

abbrev to_status : OrderStatus → Change ℕ
to_status s = record {
  new_status = s;
  reason = none;
  broker_order_id = none;
  filled_quantity = none;
  average_fill_price = none;
}

-- A semi-automatic order that is approved, and a refused attempt to cancel an unknown one.
abbrev approval_calls : List (OrderCall ℕ)
approval_calls =
    creates request "a1" at_1
    ∷ transitions "ord_a1" (to_status submitted) at_2
    ∷ transitions "ord_b2" (to_status cancelled) at_2
    ∷ []

abbrev approved_store : OrderStore ℕ
approved_store = after_calls approval_calls empty_store

after_calls-audit_example :
    Accounts (get "ord_a1" approved_store) (history "ord_a1" approved_store.state_events)
    × (length (history "ord_a1" approved_store.state_events) ≤ 5)
after_calls-audit_example = after_calls-audit approval_calls "ord_a1"

abbrev submitted_order : OrderRecord ℕ
submitted_order = changed (to_status submitted) 2 (new_order request "ord_a1" 1)

approved_store-IsAudited : IsAudited approved_store
approved_store-IsAudited id = (after_calls-audit approval_calls id).0

semi_auto_needs_approval_example :
    (e : StateEvent ℕ) × Memᴰ e (history "ord_a1" approved_store.state_events) × ReachesMarket e
unfolding after_calls after_call create_order create_new create_or_existing transition get
    find_by_idempotency_key is_valid_transition OrderStatus-discrete ExecutionMode-discrete
    write_back changed new_order insert_order record_transition log_event idempotency_key
semi_auto_needs_approval_example =
    semi_auto_needs_approval approved_store "ord_a1" submitted_order approved_store-IsAudited refl
      refl refl

-- An order that was created and then cancelled.
abbrev plain_order : OrderRecord ℕ
plain_order = new_order plain "ord_a1" 1

abbrev cancelled_order : OrderRecord ℕ
cancelled_order = record plain_order { status = cancelled }

abbrev cancelled_store : OrderStore ℕ
cancelled_store = record { orders = cancelled_order ∷ []; state_events = []; trade_fills = [] }

abbrev plain_store : OrderStore ℕ
plain_store = record { orders = plain_order ∷ []; state_events = []; trade_fills = [] }

after_call_terminal_example :
    get "ord_a1" (after_call (fills plain_order details at_1 at_2) cancelled_store)
    ≡ some cancelled_order
unfolding get new_order
after_call_terminal_example =
    after_call_terminal "ord_a1" cancelled_order (fills plain_order details at_1 at_2)
      cancelled_store refl refl

late_fill_is_recorded_example :
    record_simulated_fill cancelled_order details at_1 at_2 cancelled_store ≡ (
      err invalid_transition,
      record cancelled_store { trade_fills = fill_row cancelled_order details ∷ [] },
    )
unfolding get new_order OrderStatus-discrete
late_fill_is_recorded_example =
    late_fill_is_recorded cancelled_order cancelled_order details at_1 at_2 cancelled_store refl
      refl refl refl refl

fill_of_new_example :
    (p : OrderRecord ℕ) × (s' : OrderStore ℕ) × (record_simulated_fill plain_order details at_1 at_2
        plain_store
      ≡ (ok p, s'))
    × Filled plain_order details plain_store p s'
unfolding get new_order ExecutionMode-discrete
fill_of_new_example = fill_of_new plain_order details at_1 at_2 plain_store refl refl

abbrev created_store : OrderStore ℕ
created_store = (create_order request "a1" at_1 empty_store).1

create_order_idempotent_example :
    create_order retried "b2" at_2 created_store
    ≡ (ok (new_order request "ord_a1" 1), created_store)
unfolding create_order create_new create_or_existing get find_by_idempotency_key insert_order
    record_transition log_event new_order idempotency_key ExecutionMode-discrete
create_order_idempotent_example =
    create_order_idempotent request retried "a1" "b2" at_1 at_2 empty_store refl refl refl
