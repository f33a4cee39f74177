-- ===== src/Orders/Audit.antt =====
-- `create_order` and `record_simulated_fill` of `OrderService`, and the audit log.
use Prim.Native.String.{◌++◌}
use coversational_algo_tradi.Domain.{created, pending_approval, status_eq}
use coversational_algo_tradi.Orders.Rows.{
  FillDetails, OrderRecord, OrderRequest, OrderStore, StateEvent, Times, TradeFill,
  approval_required, initial_status,
}
use coversational_algo_tradi.Orders.Methods.{
  complete_fill, create_new, create_order, fill_row, find_by_idempotency_key, get, has_id,
  has_trade_id, idempotency_key, insert_fill, new_order, record_simulated_fill, settle,
  submit_if_created, to_filled, to_submitted, transition,
}
use coversational_algo_tradi.Orders.Trail.{IsAudited, opened, transition-IsAudited}
use coversational_algo_tradi.Prelude.{
  Bool-cases, Keeps, Keeps-bind, Keeps-if, Option-cases, String, any_row, eq_iff, first_row,
  first_row-none, inl, inr, none, pure, raise, refl, str_eq, subst, ◌∷◌, ◌≡◌,
}

module _ {F : Type 0} where
  insert-IsAudited :
      (o : OrderRecord F) (e : StateEvent F) (s : OrderStore F)
      → IsAudited s
      → get o.order_id s ≡ none
      → e.order_id ≡ o.order_id
      → e.from_status ≡ none
      → e.to_status ≡ o.status
      → o.status ≡ initial_status o.execution_mode
      → IsAudited (record s { orders = o ∷ s.orders; state_events = e ∷ s.state_events })
  unfolding get
  insert-IsAudited o e s audited fresh keyed from to initial j =
      rw keyed (elim (Bool-cases (str_eq o.order_id j)) [
        | inl same ↦
            let absent : first_row (has_id j) s.orders ≡ none =
              subst (λ k. first_row (has_id k) s.orders ≡ none) ((eq_iff o.order_id j).0 same)
                fresh in
            rw (same, (rw absent at (audited j))) (opened _ from to initial)
        | inr other ↦ rw other (audited j)
      ])

  create_new-IsAudited :
      (q : OrderRequest F) (hex : String) (at : Times) → Keeps IsAudited (create_new q hex at)
  unfolding create_new get
  create_new-IsAudited q hex at s audited =
      elim (Bool-cases (any_row (has_id ("ord_" ++ hex)) s.orders)) [
        | inl taken ↦ rw taken audited
        | inr fresh ↦ rw fresh (
            insert-IsAudited (new_order q ("ord_" ++ hex) at.written) _ s audited
              (first_row-none _ s.orders fresh) refl refl refl refl)
      ]

  -- `create_order` keeps the log in step.
  pub create_order-IsAudited :
      (q : OrderRequest F) (hex : String) (at : Times) → Keeps IsAudited (create_order q hex at)
  unfolding create_order
  create_order-IsAudited q hex at s audited =
      elim (Option-cases (find_by_idempotency_key (idempotency_key q.run_id q.decision_id) s)) [
        | inl fresh ↦ rw fresh (create_new-IsAudited q hex at s audited)
        | inr (o, found) ↦ rw found audited
      ]

  insert_fill-IsAudited :
      (f : TradeFill F) (s : OrderStore F) → IsAudited s → IsAudited (insert_fill f s)
  unfolding insert_fill get
  insert_fill-IsAudited f s audited =
      elim (Bool-cases (any_row (has_trade_id f.trade_id) s.trade_fills)) [
        | inl there ↦ rw there audited
        | inr fresh ↦ rw fresh audited
      ]

  complete-IsAudited :
      (o : OrderRecord F) (d : FillDetails F) (at : Times) → Keeps IsAudited (complete_fill o d at)
  unfolding complete_fill
  complete-IsAudited o d at s audited =
      transition-IsAudited o.order_id (to_filled o.quantity d.fill_price) at
        (insert_fill (fill_row o d) s) (insert_fill-IsAudited (fill_row o d) s audited)

  settle-IsAudited :
      (o : OrderRecord F) (d : FillDetails F) (at : Times) → Keeps IsAudited (settle o d at)
  unfolding settle
  settle-IsAudited o d at s audited =
      Keeps-if IsAudited (status_eq o.status pending_approval) (raise approval_required)
        (complete_fill o d at) (λ t h. h) (complete-IsAudited o d at) s audited

  -- `record_simulated_fill` keeps the log in step, also where it raises half way.
  pub record_simulated_fill-IsAudited :
      (o : OrderRecord F) (d : FillDetails F) (at at' : Times)
      → Keeps IsAudited (record_simulated_fill o d at at')
  unfolding record_simulated_fill
  record_simulated_fill-IsAudited o d at at' =
      Keeps-bind IsAudited (submit_if_created o at) (λ current. settle current d at')
        (Keeps-if IsAudited (status_eq o.status created) (transition o.order_id to_submitted at)
          (pure o) (transition-IsAudited o.order_id to_submitted at) (λ s h. h))
        (λ current. settle-IsAudited current d at')
