-- ===== src/Orders/Fills.antt =====
-- About `OrderService.record_simulated_fill`, on orders that may be filled and on those that may not.
use coversational_algo_tradi.Domain.{
  OrderStatus, OrderStatus-discrete, created, filled, pending_approval, status_eq, submitted,
}
use coversational_algo_tradi.Orders.Rows.{
  Change, FillDetails, OrderRecord, OrderStore, Times, TradeFill, invalid_transition,
  is_valid_transition,
}
use coversational_algo_tradi.Orders.Methods.{
  changed, complete_fill, fill_row, get, has_id, has_trade_id, insert_fill, record_simulated_fill,
  settle, to_filled, to_submitted, trade_id_of, transition, write_back,
}
use coversational_algo_tradi.Orders.Trail.{
  get-write_back, history, moved_store, transition-ok, transition-refused,
}
use coversational_algo_tradi.Orders.Terminal.{is_terminal, no_way_out}
use coversational_algo_tradi.Prelude.{
  Bool-cases, String, any_row, ap, arith, eq_refl, err, false, first_row, inl, inr, length, ok,
  refl, some, true, ◌+◌, ◌∙◌, ◌∷◌, ◌≡◌,
}

is_created : (s : OrderStatus) → s ≡ created → status_eq s created ≡ true
unfolding OrderStatus-discrete
is_created s h = ground arith

submits : (s : OrderStatus) → s ≡ created → is_valid_transition s submitted ≡ true
unfolding is_valid_transition OrderStatus-discrete
submits s h = ground arith

module _ {F : Type 0} where
  -- The row that a simulated fill leaves behind.
  abbrev pub IsFilledAt : FillDetails F → OrderRecord F → OrderRecord F → Type 0
  IsFilledAt d o p =
      (p.status ≡ filled)
      × (p.filled_quantity ≡ o.quantity)
      × (p.average_fill_price ≡ some d.fill_price)
      × (p.quantity ≡ o.quantity)
      × (p.rejection_reason ≡ o.rejection_reason)

  -- To fill an order that is stored as finished and has no fill on record, through a copy of its row
  -- that is neither new nor waiting for approval, raises; yet the fill's row has been written, and
  -- stays, and nothing else has changed.
  pub late_fill_is_recorded :
      (o p : OrderRecord F) (d : FillDetails F) (at at' : Times) (s : OrderStore F)
      → status_eq o.status created ≡ false
      → status_eq o.status pending_approval ≡ false
      → get o.order_id s ≡ some p
      → is_terminal p.status ≡ true
      → any_row (has_trade_id (trade_id_of o.order_id)) s.trade_fills ≡ false
      → record_simulated_fill o d at at' s
        ≡ (err invalid_transition, record s { trade_fills = fill_row o d ∷ s.trade_fills })
  unfolding record_simulated_fill get insert_fill fill_row transition
  late_fill_is_recorded o p d at at' s old clear found final unfilled =
      rw (old, clear, unfilled)
        (transition-refused o.order_id (to_filled o.quantity d.fill_price) at'
          (record s { trade_fills = fill_row o d ∷ s.trade_fills }) found
          (no_way_out p.status filled final))

  get-moved_store :
      (id : String) (c : Change F) (at : Times) (o : OrderRecord F) (s : OrderStore F)
      → get id s ≡ some o
      → get id (moved_store id c at o s) ≡ some (changed c at.written o)
  unfolding get write_back changed
  get-moved_store id c at o s found = rw (get-write_back, eq_refl, found) refl

  insert_fill-keeps :
      (f : TradeFill F) (s : OrderStore F)
      → ((insert_fill f s).orders ≡ s.orders)
        × ((insert_fill f s).state_events ≡ s.state_events)
        × (any_row (has_trade_id f.trade_id) (insert_fill f s).trade_fills ≡ true)
  unfolding insert_fill
  insert_fill-keeps f s = elim (Bool-cases (any_row (has_trade_id f.trade_id) s.trade_fills)) [
    | inl there ↦ rw there (refl, refl, there)
    | inr fresh ↦ rw (fresh, eq_refl) (refl, refl, refl)
  ]

  get-insert_fill :
      (id : String) (f : TradeFill F) (s : OrderStore F) → get id (insert_fill f s) ≡ get id s
  unfolding get
  get-insert_fill id f s = ap (first_row (has_id id)) (insert_fill-keeps f s).0

  -- What a completed fill leaves: the order `p` that is returned and stored, and a row for it among
  -- the fills.
  abbrev pub Filled :
      OrderRecord F → FillDetails F → OrderStore F → OrderRecord F → OrderStore F → Type 0
  Filled o d s p s' =
      (get o.order_id s' ≡ some p)
      × IsFilledAt d o p
      × (any_row (has_trade_id (trade_id_of o.order_id)) s'.trade_fills ≡ true)
      × (length (history o.order_id s'.state_events)
          ≡ length (history o.order_id s.state_events) + 2)

  fill_submitted :
      (o : OrderRecord F) (d : FillDetails F) (at : Times) (s : OrderStore F)
      → get o.order_id s ≡ some o
      → o.status ≡ submitted
      → complete_fill o d at s ≡ (
        ok (changed (to_filled o.quantity d.fill_price) at.written o),
        moved_store o.order_id
            (to_filled o.quantity d.fill_price)
            at
            o
            (insert_fill (fill_row o d) s),
      )
  unfolding complete_fill get is_valid_transition OrderStatus-discrete
  fill_submitted o d at s found sub =
      transition-ok o.order_id (to_filled o.quantity d.fill_price) at (insert_fill (fill_row o d) s)
        (rw (insert_fill-keeps (fill_row o d) s).0 found) (rw sub)

  abbrev once_submitted : OrderRecord F → Times → OrderRecord F
  once_submitted o at = changed to_submitted at.written o

  abbrev submitted_store : OrderRecord F → Times → OrderStore F → OrderStore F
  submitted_store o at s = moved_store o.order_id to_submitted at o s

  fill_of_new_runs :
      (o : OrderRecord F) (d : FillDetails F) (at at' : Times) (s : OrderStore F)
      → get o.order_id s ≡ some o
      → o.status ≡ created
      → record_simulated_fill o d at at' s
        ≡ complete_fill (once_submitted o at) d at' (submitted_store o at s)
  unfolding record_simulated_fill settle changed transition OrderStatus-discrete
  fill_of_new_runs o d at at' s found new =
      rw
        (
          is_created o.status new,
          transition-ok o.order_id to_submitted at s found (submits o.status new),
        )
        refl

  complete_fill-Filled :
      (o : OrderRecord F) (d : FillDetails F) (at at' : Times) (s : OrderStore F)
      → get o.order_id s ≡ some o
      → Filled o d s
          (changed (to_filled o.quantity d.fill_price) at'.written (once_submitted o at))
          (moved_store o.order_id
            (to_filled o.quantity d.fill_price)
            at'
            (once_submitted o at)
            (insert_fill (fill_row (once_submitted o at) d) (submitted_store o at s)))
  unfolding changed fill_row OrderStatus-discrete
  complete_fill-Filled o d at at' s found =
      let kept = insert_fill-keeps (fill_row (once_submitted o at) d) (submitted_store o at s) in
      (
        get-moved_store o.order_id (to_filled o.quantity d.fill_price) at' (once_submitted o at)
            (insert_fill (fill_row (once_submitted o at) d) (submitted_store o at s))
            (get-insert_fill o.order_id (fill_row (once_submitted o at) d) (submitted_store o at s)
              ∙ get-moved_store o.order_id to_submitted at o s found),
        (refl, refl, refl, refl, refl),
        kept.2,
        rw (eq_refl, kept.1, eq_refl) (omega arith),
      )

  -- An order that is stored as new can be filled: the call returns, the stored row is filled at its
  -- full quantity and at the fill's price, its fill is on record, and its log has two more events.
  pub fill_of_new :
      (o : OrderRecord F) (d : FillDetails F) (at at' : Times) (s : OrderStore F)
      → get o.order_id s ≡ some o
      → o.status ≡ created
      → (p : OrderRecord F) × (s' : OrderStore F) × (record_simulated_fill o d at at' s
          ≡ (ok p, s'))
        × Filled o d s p s'
  unfolding changed
  fill_of_new o d at at' s found new = (
    _,
    _,
    fill_of_new_runs o d at at' s found new
        ∙ fill_submitted (once_submitted o at) d at' (submitted_store o at s)
            (get-moved_store o.order_id to_submitted at o s found) refl,
    complete_fill-Filled o d at at' s found,
  )
