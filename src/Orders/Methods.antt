-- ===== src/Orders/Methods.antt =====
-- `OrderService` of iimc_trading_platform/services/order_service.py, method by method. Random
-- identifiers and readings of the clock are arguments of each call.
use Prim.Native.Char.{code}
use Prim.Native.String.{◌++◌}
use coversational_algo_tradi.Domain.{
  OrderStatus, created, filled, pending_approval, status_eq, submitted,
}
use coversational_algo_tradi.Orders.Rows.{
  Change, EventPayload, FillDetails, OrderMethod, OrderRecord, OrderRequest, OrderStore, StateEvent,
  Times, TradeFill, approval_required, constraint_violation, initial_status, invalid_transition,
  is_refusal, is_valid_transition, order_not_found,
}
use coversational_algo_tradi.Prelude.{
  Bool, Option, String, any_row, false, first_row, gets, if◌then◌else◌, modify, none, or_else,
  or_raise, pos, pure, raise, raise_if, some, str_eq, true, update_rows, ℕ, ℤ, ◌==◌, ◌>>=◌, ◌>>◌,
  ◌∷◌,
}

-- `a or b` on optional texts: the empty text counts as absent.
abbrev pub or_text : Option String → Option String → Option String
or_text none b = b
or_text (some s) b = if str_eq s "" then b else some s

-- `f"{run_id}:{decision_id}"`
unfoldable pub idempotency_key : String → String → String
idempotency_key run_id decision_id = run_id ++ ":" ++ decision_id

-- `text.removeprefix(prefix)`, and the text itself where the prefix is missing.
remove_prefix : String → String → String → String
remove_prefix String.[] rest whole = rest
remove_prefix (String.◌∷◌ c p) String.[] whole = whole
remove_prefix (String.◌∷◌ c p) (String.◌∷◌ d s) whole =
    if code c == code d then remove_prefix p s whole else whole

-- `f"trd_{order_id.removeprefix('ord_')}"`
unfoldable pub trade_id_of : String → String
unfolding remove_prefix
trade_id_of order_id = "trd_" ++ remove_prefix "ord_" order_id order_id

module _ {F : Type 0} where
  abbrev pub has_id : String → OrderRecord F → Bool
  has_id id o = str_eq o.order_id id

  abbrev pub has_key : String → OrderRecord F → Bool
  has_key key o = str_eq o.idempotency_key key

  unfoldable pub get : String → OrderStore F → Option (OrderRecord F)
  get id s = first_row (has_id id) s.orders

  abbrev pub get_found : Option (OrderRecord F) → OrderStore F → Option (OrderRecord F)
  get_found none s = none
  get_found (some row) s = get row.order_id s

  unfoldable pub find_by_idempotency_key : String → OrderStore F → Option (OrderRecord F)
  find_by_idempotency_key key s = get_found (first_row (has_key key) s.orders) s

  unfoldable pub log_event : StateEvent F → OrderStore F → OrderStore F
  log_event e s = record s { state_events = e ∷ s.state_events }

  -- `_record_transition`
  unfoldable pub record_transition :
      String
      → Option OrderStatus
      → OrderStatus
      → Option String
      → Option (EventPayload F)
      → ℕ
      → OrderMethod F (Unit {0})
  unfolding log_event
  record_transition id source target reason payload at = modify (
      log_event (record {
        order_id = id;
        from_status = source;
        to_status = target;
        reason = reason;
        payload = payload;
        created_at = at;
      }))

  -- The row that `create_order` inserts.
  unfoldable pub new_order : OrderRequest F → String → ℕ → OrderRecord F
  unfolding idempotency_key
  new_order q id now = record {
    order_id = id;
    run_id = q.run_id;
    decision_id = q.decision_id;
    symbol = q.symbol;
    side = q.side;
    order_type = q.order_type;
    quantity = q.quantity;
    status = initial_status q.execution_mode;
    execution_mode = q.execution_mode;
    price = q.price;
    idempotency_key = idempotency_key q.run_id q.decision_id;
    broker_order_id = none;
    filled_quantity = pos 0;
    average_fill_price = none;
    rejection_reason = none;
    created_at = now;
    updated_at = now;
  }

  -- `INSERT INTO order_events`
  unfoldable pub insert_order : OrderRecord F → OrderMethod F (Unit {0})
  insert_order o s =
      if any_row (has_id o.order_id) s.orders
      then raise constraint_violation s
      else modify (λ t. record t { orders = o ∷ t.orders }) s

  unfoldable pub create_new : OrderRequest F → String → Times → OrderMethod F (OrderRecord F)
  unfolding new_order insert_order record_transition
  create_new q hex at = do
    let o = new_order q ("ord_" ++ hex) at.written
    insert_order o
    record_transition o.order_id none o.status (some "order created") none at.logged
    pure o

  unfoldable pub create_or_existing :
      Option (OrderRecord F) → OrderRequest F → String → Times → OrderMethod F (OrderRecord F)
  create_or_existing (some o) q hex at = pure o
  create_or_existing none q hex at = create_new q hex at

  unfoldable pub create_order : OrderRequest F → String → Times → OrderMethod F (OrderRecord F)
  unfolding create_or_existing idempotency_key
  create_order q hex at = do
    existing ← gets (find_by_idempotency_key (idempotency_key q.run_id q.decision_id))
    create_or_existing existing q hex at

  -- `dataclasses.replace(order, …)` of `transition`.
  unfoldable pub changed : Change F → ℕ → OrderRecord F → OrderRecord F
  changed c now o = record o {
    status = c.new_status;
    broker_order_id = or_text c.broker_order_id o.broker_order_id;
    filled_quantity = elim c.filled_quantity [ some q ↦ q | none ↦ o.filled_quantity ];
    average_fill_price = or_else c.average_fill_price o.average_fill_price;
    rejection_reason = if is_refusal c.new_status then c.reason else o.rejection_reason;
    updated_at = now;
  }

  -- `UPDATE order_events SET … WHERE order_id = ?`: the columns that it names, from `updated`.
  unfoldable pub write_back : OrderRecord F → OrderRecord F → OrderRecord F
  write_back updated row = record row {
    status = updated.status;
    broker_order_id = updated.broker_order_id;
    filled_quantity = updated.filled_quantity;
    average_fill_price = updated.average_fill_price;
    rejection_reason = updated.rejection_reason;
    updated_at = updated.updated_at;
  }

  unfoldable pub payload_of : OrderRecord F → EventPayload F
  payload_of o = record {
    broker_order_id = o.broker_order_id;
    filled_quantity = o.filled_quantity;
    average_fill_price = o.average_fill_price;
  }

  unfoldable pub transition : String → Change F → Times → OrderMethod F (OrderRecord F)
  unfolding record_transition
  transition id c at = do
    found ← gets (get id)
    order ← or_raise found order_not_found
    raise_if (if is_valid_transition order.status c.new_status then false else true)
        invalid_transition
    let updated = changed c at.written order
    modify (λ s. record s { orders = update_rows (has_id id) (write_back updated) s.orders })
    record_transition id (some order.status) c.new_status c.reason (some (payload_of updated))
        at.logged
    pure updated

  abbrev pub has_trade_id : String → TradeFill F → Bool
  has_trade_id id f = str_eq f.trade_id id

  -- `INSERT OR IGNORE INTO trade_fills`
  unfoldable pub insert_fill : TradeFill F → OrderStore F → OrderStore F
  insert_fill f s =
      if any_row (has_trade_id f.trade_id) s.trade_fills
      then s
      else record s { trade_fills = f ∷ s.trade_fills }

  unfoldable pub fill_row : OrderRecord F → FillDetails F → TradeFill F
  fill_row o d = record {
    trade_id = trade_id_of o.order_id;
    order_id = o.order_id;
    run_id = o.run_id;
    symbol = o.symbol;
    side = o.side;
    quantity = o.quantity;
    price = d.fill_price;
    fees = d.fees;
    realized_pnl = d.realized_pnl;
    filled_at = d.filled_at;
  }

  abbrev pub to_submitted : Change F
  to_submitted = record {
    new_status = submitted;
    reason = some "research/sandbox order submitted";
    broker_order_id = none;
    filled_quantity = none;
    average_fill_price = none;
  }

  abbrev pub to_filled : ℤ → F → Change F
  to_filled quantity price = record {
    new_status = filled;
    reason = some "simulated fill recorded";
    broker_order_id = none;
    filled_quantity = some quantity;
    average_fill_price = some price;
  }

  abbrev pub submit_if_created : OrderRecord F → Times → OrderMethod F (OrderRecord F)
  submit_if_created order at =
      if status_eq order.status created
      then transition order.order_id to_submitted at
      else pure order

  -- `record_simulated_fill` from its `INSERT` on.
  unfoldable pub complete_fill :
      OrderRecord F → FillDetails F → Times → OrderMethod F (OrderRecord F)
  complete_fill current d at = do
    modify (insert_fill (fill_row current d))
    transition current.order_id (to_filled current.quantity d.fill_price) at

  unfoldable pub settle : OrderRecord F → FillDetails F → Times → OrderMethod F (OrderRecord F)
  unfolding complete_fill
  settle current d at =
      if status_eq current.status pending_approval
      then raise approval_required
      else complete_fill current d at

  -- The caller's `order` is used as it was read, not read again.
  unfoldable pub record_simulated_fill :
      OrderRecord F → FillDetails F → Times → Times → OrderMethod F (OrderRecord F)
  unfolding settle
  record_simulated_fill order d at at' = do
    current ← submit_if_created order at
    settle current d at'
