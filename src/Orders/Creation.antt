-- ===== src/Orders/Creation.antt =====
-- About `OrderService.create_order` called twice for one run and decision.
use Prim.Native.String.{◌++◌}
use coversational_algo_tradi.Orders.Rows.{OrderRecord, OrderRequest, OrderStore, Times}
use coversational_algo_tradi.Orders.Methods.{
  create_new, create_order, find_by_idempotency_key, get, has_id, idempotency_key,
}
use coversational_algo_tradi.Prelude.{
  Bool-cases, Option-cases, Returned, String, any_row, eq_refl, inl, inr, of_returned, ok, refl,
  some, ◌≡◌,
}

module _ {F : Type 0} where
  abbrev Finds : String → OrderRecord F → OrderStore F → Type 0
  Finds key o s = find_by_idempotency_key key s ≡ some o

  create_new-Finds :
      (q : OrderRequest F) (hex : String) (at : Times) (s : OrderStore F)
      → Returned (Finds (idempotency_key q.run_id q.decision_id)) (create_new q hex at s)
  unfolding create_new find_by_idempotency_key get
  create_new-Finds q hex at s = elim (Bool-cases (any_row (has_id ("ord_" ++ hex)) s.orders)) [
    | inl there ↦ rw there tt
    | inr fresh ↦ rw (fresh, eq_refl, eq_refl) refl
  ]

  create_order-Finds :
      (q : OrderRequest F) (hex : String) (at : Times) (s : OrderStore F)
      → Returned (Finds (idempotency_key q.run_id q.decision_id)) (create_order q hex at s)
  unfolding create_order
  create_order-Finds q hex at s =
      elim (Option-cases (find_by_idempotency_key (idempotency_key q.run_id q.decision_id) s)) [
        | inl fresh ↦ rw fresh (create_new-Finds q hex at s)
        | inr (p, found) ↦ rw found found
      ]

  -- After a call that returned an order, another call with the same run and decision returns that
  -- order and writes nothing, whatever its other arguments, its identifier and its time are.
  pub create_order_idempotent :
      (q q' : OrderRequest F) (hex hex' : String) (at at' : Times) (s : OrderStore F)
      {o : OrderRecord F} {s' : OrderStore F}
      → create_order q hex at s ≡ (ok o, s')
      → q'.run_id ≡ q.run_id
      → q'.decision_id ≡ q.decision_id
      → create_order q' hex' at' s' ≡ (ok o, s')
  unfolding create_order
  create_order_idempotent q q' hex hex' at at' s made runs decisions = rw (
    runs,
    decisions,
    of_returned (Finds (idempotency_key q.run_id q.decision_id)) made
        (create_order-Finds q hex at s),
  )
