-- ===== src/Orders/Terminal.antt =====
-- About the orders of `OrderService` that are finished, under every call.
use Prim.Native.String.{◌++◌}
use coversational_algo_tradi.Domain.{
  OrderStatus, OrderStatus-discrete, created, partially_filled, pending_approval, status_eq,
  submitted,
}
use coversational_algo_tradi.Orders.Rows.{
  Change, FillDetails, OrderRecord, OrderRequest, OrderStore, Times, TradeFill, approval_required,
  is_valid_transition,
}
use coversational_algo_tradi.Orders.Methods.{
  complete_fill, create_new, create_order, fill_row, find_by_idempotency_key, get, has_id,
  has_trade_id, idempotency_key, insert_fill, record_simulated_fill, settle, submit_if_created,
  to_filled, to_submitted, transition,
}
use coversational_algo_tradi.Orders.Trail.{
  get-write_back, moved_store, transition-missing, transition-ok, transition-refused,
}
use coversational_algo_tradi.Orders.Runs.{OrderCall, after_call, creates, fills, transitions}
use coversational_algo_tradi.Prelude.{
  Bool, Bool-cases, Keeps, Keeps-bind, Keeps-if, List, Option-cases, String, [], any_row, arith,
  eq_iff, false, first_row, inl, inr, pure, raise, some, str_eq, subst, sym, true, ◌∷◌, ◌≡◌,
}

abbrev pub is_terminal : OrderStatus → Bool
is_terminal created = false
is_terminal pending_approval = false
is_terminal submitted = false
is_terminal partially_filled = false
is_terminal _ = true

pub no_way_out : (s t : OrderStatus) → is_terminal s ≡ true → is_valid_transition s t ≡ false
unfolding is_valid_transition OrderStatus-discrete
no_way_out s t h = ground arith

module _ {F : Type 0} (id : String) (o : OrderRecord F) where
  abbrev Stores : OrderStore F → Type 0
  Stores s = get id s ≡ some o

  moved-Stores :
      (j : String) (c : Change F) (at : Times) (p : OrderRecord F) (s : OrderStore F)
      → str_eq j id ≡ false
      → Stores s
      → Stores (moved_store j c at p s)
  unfolding get
  moved-Stores j c at p s other found = rw (get-write_back, other) found

  transition-Stores :
      is_terminal o.status ≡ true
      → (j : String) (c : Change F) (at : Times) → Keeps Stores (transition j c at)
  transition-Stores final j c at s found = elim (Bool-cases (str_eq j id)) [
    | inl same ↦
        rw
          (transition-refused j c at s
            (subst (λ k. get k s ≡ some o) (sym ((eq_iff j id).0 same)) found)
            (no_way_out o.status c.new_status final))
          found
    | inr other ↦ elim (Option-cases (get j s)) [
      | inl missing ↦ rw (transition-missing j c at s missing) found
      | inr (p, read) ↦ elim (Bool-cases (is_valid_transition p.status c.new_status)) [
        | inl valid ↦ rw (transition-ok j c at s read valid) (moved-Stores j c at p s other found)
        | inr invalid ↦ rw (transition-refused j c at s read invalid) found
      ]
    ]
  ]

  taken :
      (rows : List (OrderRecord F))
      → first_row (has_id id) rows ≡ some o
      → any_row (has_id id) rows ≡ true
  taken [] h = cc
  taken (p ∷ rows) h = ground (arith, taken rows)

  create_new-Stores :
      (q : OrderRequest F) (hex : String) (at : Times) → Keeps Stores (create_new q hex at)
  unfolding create_new get
  create_new-Stores q hex at s found =
      elim (Bool-cases (any_row (has_id ("ord_" ++ hex)) s.orders)) [
        | inl there ↦ rw there found
        | inr fresh ↦ elim (Bool-cases (str_eq ("ord_" ++ hex) id)) [
          | inl same ↦
              let there : any_row (has_id ("ord_" ++ hex)) s.orders ≡ true =
                subst (λ k. any_row (has_id k) s.orders ≡ true) (sym ((eq_iff _ id).0 same))
                  (taken s.orders found) in
              cc
          | inr other ↦ rw (fresh, other) found
        ]
      ]

  create_order-Stores :
      (q : OrderRequest F) (hex : String) (at : Times) → Keeps Stores (create_order q hex at)
  unfolding create_order
  create_order-Stores q hex at s found =
      elim (Option-cases (find_by_idempotency_key (idempotency_key q.run_id q.decision_id) s)) [
        | inl fresh ↦ rw fresh (create_new-Stores q hex at s found)
        | inr (p, there) ↦ rw there found
      ]

  insert_fill-Stores : (f : TradeFill F) (s : OrderStore F) → Stores s → Stores (insert_fill f s)
  unfolding insert_fill get
  insert_fill-Stores f s found =
      elim (Bool-cases (any_row (has_trade_id f.trade_id) s.trade_fills)) [
        | inl there ↦ rw there found
        | inr fresh ↦ rw fresh found
      ]

  settle-Stores :
      is_terminal o.status ≡ true
      → (p : OrderRecord F) (d : FillDetails F) (at : Times) → Keeps Stores (settle p d at)
  unfolding settle
  settle-Stores final p d at s found =
      Keeps-if Stores (status_eq p.status pending_approval) (raise approval_required)
        (complete_fill p d at) (λ t h. h)
        (λ t h.
          transition-Stores final p.order_id (to_filled p.quantity d.fill_price) at
            (insert_fill (fill_row p d) t) (insert_fill-Stores (fill_row p d) t h))
        s found

  fill-Stores :
      is_terminal o.status ≡ true
      → (p : OrderRecord F) (d : FillDetails F) (at at' : Times)
      → Keeps Stores (record_simulated_fill p d at at')
  unfolding record_simulated_fill
  fill-Stores final p d at at' =
      Keeps-bind Stores (submit_if_created p at) (λ current. settle current d at')
        (Keeps-if Stores (status_eq p.status created) (transition p.order_id to_submitted at)
          (pure p) (transition-Stores final p.order_id to_submitted at) (λ s h. h))
        (λ current. settle-Stores final current d at')

  -- The row of an order whose status has no transition out of it (filled, rejected, cancelled, failed,
  -- and the two verdicts of the risk service) is the same after any call of
  -- any method, on this or another order, raised or not.
  pub after_call_terminal :
      (c : OrderCall F) (s : OrderStore F)
      → is_terminal o.status ≡ true
      → get id s ≡ some o
      → get id (after_call c s) ≡ some o
  unfolding after_call
  after_call_terminal (creates q hex at) s final found = create_order-Stores q hex at s found
  after_call_terminal (transitions j c at) s final found = transition-Stores final j c at s found
  after_call_terminal (fills p d at at') s final found = fill-Stores final p d at at' s found
