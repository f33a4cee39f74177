-- ===== src/Orders/Runs.antt =====
-- Sequences of calls of `OrderService`, from empty tables.
use coversational_algo_tradi.Orders.Rows.{
  Change, FillDetails, OrderRecord, OrderRequest, OrderStore, Times,
}
use coversational_algo_tradi.Orders.Methods.{create_order, get, record_simulated_fill, transition}
use coversational_algo_tradi.Orders.Trail.{Accounts, IsAudited, history, transition-IsAudited}
use coversational_algo_tradi.Orders.Audit.{create_order-IsAudited, record_simulated_fill-IsAudited}
use coversational_algo_tradi.Orders.Lifecycle.{history-length}
use coversational_algo_tradi.Prelude.{List, String, [], length, refl, ◌∷◌, ◌≤◌}

-- A call with the identifiers and clock readings that it meets.
pub data OrderCall (F : Type 0) : Type 0 where
  creates : OrderRequest F → String → Times → OrderCall F
  transitions : String → Change F → Times → OrderCall F
  fills : OrderRecord F → FillDetails F → Times → Times → OrderCall F

abbrev pub empty_store : {F : Type 0} → OrderStore F
empty_store = record { orders = []; state_events = []; trade_fills = [] }

empty-IsAudited : (F : Type 0) → IsAudited {F = F} empty_store
unfolding get
empty-IsAudited F id = refl

module _ {F : Type 0} where
  -- The store after a call, which may have raised.
  unfoldable pub after_call : OrderCall F → OrderStore F → OrderStore F
  after_call (creates q hex at) s = (create_order q hex at s).1
  after_call (transitions id c at) s = (transition id c at s).1
  after_call (fills o d at at') s = (record_simulated_fill o d at at' s).1

  unfoldable pub after_calls : List (OrderCall F) → OrderStore F → OrderStore F
  unfolding after_call
  after_calls [] s = s
  after_calls (c ∷ cs) s = after_calls cs (after_call c s)

  pub after_call-IsAudited :
      (c : OrderCall F) (s : OrderStore F) → IsAudited s → IsAudited (after_call c s)
  unfolding after_call
  after_call-IsAudited (creates q hex at) s h = create_order-IsAudited q hex at s h
  after_call-IsAudited (transitions id c at) s h = transition-IsAudited id c at s h
  after_call-IsAudited (fills o d at at') s h = record_simulated_fill-IsAudited o d at at' s h

  after_calls-IsAudited :
      (cs : List (OrderCall F)) (s : OrderStore F) → IsAudited s → IsAudited (after_calls cs s)
  unfolding after_calls
  after_calls-IsAudited [] s h = h
  after_calls-IsAudited (c ∷ cs) s h =
      after_calls-IsAudited cs (after_call c s) (after_call-IsAudited c s h)

  -- After any calls, raised or not, from empty tables: the events of every identifier walk the
  -- table of transitions from the initial status of its order's mode to the status in its row (and
  -- are none where it has no row), and there are at most five of them.
  pub after_calls-audit :
      (cs : List (OrderCall F)) (id : String)
      → let s = after_calls cs empty_store in
        Accounts (get id s) (history id s.state_events) × (length (history id s.state_events) ≤ 5)
  after_calls-audit cs id =
      let audited = after_calls-IsAudited cs empty_store (empty-IsAudited F) in
      (audited id, history-length _ audited id)
