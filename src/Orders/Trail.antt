-- ===== src/Orders/Trail.antt =====
-- The audit log of the orders (`order_state_events`) as walks along the table of transitions, and
-- what `OrderService.transition` does to it.
use mathlib.Core.Option
use coversational_algo_tradi.Domain.{ExecutionMode, OrderStatus}
use coversational_algo_tradi.Orders.Rows.{
  Change, OrderRecord, OrderStore, StateEvent, Times, initial_status, invalid_transition,
  is_valid_transition, order_not_found,
}
use coversational_algo_tradi.Orders.Methods.{
  changed, get, has_id, payload_of, transition, write_back,
}
use coversational_algo_tradi.Prelude.{
  Bool, Bool-cases, List, Option, Option-cases, String, [], arith, eq_iff, err, false, first_row,
  if◌then◌else◌, inl, inr, none, ok, refl, some, str_eq, subst, true, update_rows, where_rows, ◌∷◌,
  ◌≡◌,
}

module _ {F : Type 0} where
  abbrev pub of_order : String → StateEvent F → Bool
  of_order id e = str_eq e.order_id id

  -- The events of one order, newest first.
  abbrev pub history : String → List (StateEvent F) → List (StateEvent F)
  history id = where_rows (of_order id)

  -- A walk that starts at the initial status of an execution mode.
  pub data Trail (mode : ExecutionMode) : List (StateEvent F) → OrderStatus → Type 0 where
    opened :
        {s : OrderStatus} (e : StateEvent F)
        → e.from_status ≡ none
        → e.to_status ≡ s
        → s ≡ initial_status mode
        → Trail mode (e ∷ []) s
    moved :
        {es : List (StateEvent F)} {s t : OrderStatus} (e : StateEvent F)
        → Trail mode es s
        → e.from_status ≡ some s
        → e.to_status ≡ t
        → is_valid_transition s t ≡ true
        → Trail mode (e ∷ es) t

  -- What the log says of one identifier: nothing where no row has it.
  abbrev pub Accounts : Option (OrderRecord F) → List (StateEvent F) → Type 0
  Accounts none es = es ≡ []
  Accounts (some o) es = Trail o.execution_mode es o.status

  abbrev pub IsAudited : OrderStore F → Type 0
  IsAudited s = (id : String) → Accounts (get id s) (history id s.state_events)

  -- The store after a permitted transition of the order `o`.
  abbrev pub moved_store : String → Change F → Times → OrderRecord F → OrderStore F → OrderStore F
  moved_store id c at o s = record {
    orders = update_rows (has_id id) (write_back (changed c at.written o)) s.orders;
    state_events =
        record {
          order_id = id;
          from_status = some o.status;
          to_status = c.new_status;
          reason = c.reason;
          payload = some (payload_of (changed c at.written o));
          created_at = at.logged;
        }
        ∷ s.state_events;
    trade_fills = s.trade_fills;
  }

  pub transition-ok :
      (id : String) (c : Change F) (at : Times) (s : OrderStore F) {o : OrderRecord F}
      → get id s ≡ some o
      → is_valid_transition o.status c.new_status ≡ true
      → transition id c at s ≡ (ok (changed c at.written o), moved_store id c at o s)
  unfolding transition
  transition-ok id c at s found valid = rw (found, valid)

  pub transition-refused :
      (id : String) (c : Change F) (at : Times) (s : OrderStore F) {o : OrderRecord F}
      → get id s ≡ some o
      → is_valid_transition o.status c.new_status ≡ false
      → transition id c at s ≡ (err invalid_transition, s)
  unfolding transition
  transition-refused id c at s found invalid = rw (found, invalid)

  pub transition-missing :
      (id : String) (c : Change F) (at : Times) (s : OrderStore F)
      → get id s ≡ none
      → transition id c at s ≡ (err order_not_found, s)
  unfolding transition
  transition-missing id c at s missing = rw missing

  -- `UPDATE … WHERE order_id = id` leaves the keys alone, so a later read sees the new row under
  -- `id` and the old rows elsewhere.
  pub get-write_back :
      (id j : String) (u : OrderRecord F) (rows : List (OrderRecord F))
      → first_row (has_id j) (update_rows (has_id id) (write_back u) rows) ≡ (
          if str_eq id j
          then Option.map (write_back u) (first_row (has_id j) rows)
          else first_row (has_id j) rows)
  unfolding write_back
  get-write_back id j u [] = ground arith
  get-write_back id j u (o ∷ rows) =
      ground
        (arith, eq_iff id j, eq_iff o.order_id id, eq_iff o.order_id j, get-write_back id j u rows)

  moved-IsAudited :
      (id : String) (c : Change F) (at : Times) (o : OrderRecord F) (s : OrderStore F)
      → IsAudited s
      → get id s ≡ some o
      → is_valid_transition o.status c.new_status ≡ true
      → IsAudited (moved_store id c at o s)
  unfolding get write_back changed
  moved-IsAudited id c at o s audited found valid j = elim (Bool-cases (str_eq id j)) [
    | inl same ↦
        let here : first_row (has_id j) s.orders ≡ some o =
          subst (λ k. first_row (has_id k) s.orders ≡ some o) ((eq_iff id j).0 same) found in
        rw (get-write_back, same, here) (moved _ (rw here at (audited j)) refl refl valid)
    | inr other ↦ rw (get-write_back, other) (audited j)
  ]

  -- Whatever it is asked, and whether it raises or not, `transition` keeps the log in step.
  pub transition-IsAudited :
      (id : String) (c : Change F) (at : Times) (s : OrderStore F)
      → IsAudited s
      → IsAudited (transition id c at s).1
  transition-IsAudited id c at s audited = elim (Option-cases (get id s)) [
    | inl missing ↦ rw (transition-missing id c at s missing) audited
    | inr (o, found) ↦ elim (Bool-cases (is_valid_transition o.status c.new_status)) [
      | inl valid ↦
          rw (transition-ok id c at s found valid) (moved-IsAudited id c at o s audited found valid)
      | inr invalid ↦ rw (transition-refused id c at s found invalid) audited
    ]
  ]
