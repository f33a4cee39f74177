-- ===== src/Orders/Lifecycle.antt =====
-- About the life of an order of `OrderService`, as far as an audited log shows it.
use mathlib.Core.List.{Memᴰ}
use coversational_algo_tradi.Domain.{
  ExecutionMode, OrderStatus, OrderStatus-discrete, created, filled, partially_filled,
  pending_approval, semi_auto, submitted,
}
use coversational_algo_tradi.Orders.Rows.{OrderRecord, OrderStore, StateEvent, is_valid_transition}
use coversational_algo_tradi.Orders.Methods.{get}
use coversational_algo_tradi.Orders.Trail.{IsAudited, Trail, history, moved, opened}
use coversational_algo_tradi.Prelude.{
  Bool, List, Option-cases, String, ap, arith, false, inl, inr, length, refl, some, subst, true, ℕ,
  ◌+◌, ◌<◌, ◌∙◌, ◌≡◌, ◌≢◌, ◌≤◌, ◌⊎◌,
}

-- How many transitions can still follow.
abbrev remaining : OrderStatus → ℕ
remaining created = 4
remaining pending_approval = 3
remaining submitted = 2
remaining partially_filled = 1
remaining _ = 0

remaining_falls : (s t : OrderStatus) → is_valid_transition s t ≡ true → remaining t < remaining s
unfolding is_valid_transition OrderStatus-discrete
remaining_falls s t h = ground arith

-- With the market reached.
abbrev pub is_working : OrderStatus → Bool
is_working submitted = true
is_working partially_filled = true
is_working filled = true
is_working _ = false

working_from :
    (s t : OrderStatus)
    → is_valid_transition s t ≡ true
    → is_working t ≡ true
    → (is_working s ≡ true) ⊎ (t ≡ submitted) × ((s ≡ pending_approval) ⊎ (s ≡ created))
unfolding is_valid_transition OrderStatus-discrete
working_from s t h w = ground arith

never_created : (s t : OrderStatus) → is_valid_transition s t ≡ true → t ≢ created
unfolding is_valid_transition OrderStatus-discrete
never_created s t h = ground arith

module _ {F : Type 0} where
  Trail-length :
      {mode : ExecutionMode} {es : List (StateEvent F)} {s : OrderStatus}
      → Trail mode es s
      → length es + remaining s ≤ 5
  Trail-length {mode} (opened e from to initial) = ground arith
  Trail-length (moved {s = s} {t = t} e trail from to valid) =
      omega (arith, remaining_falls s t valid, Trail-length trail)

  -- In an audited store no order has more than five events.
  pub history-length :
      (s : OrderStore F) → IsAudited s → (id : String) → length (history id s.state_events) ≤ 5
  history-length s audited id = elim (Option-cases (get id s)) [
    | inl missing ↦ omega (arith, ap length (rw missing at (audited id)))
    | inr (o, found) ↦ omega (arith, Trail-length (rw found at (audited id)))
  ]

  -- An approval: the event that takes an order from waiting to the market.
  abbrev pub ReachesMarket : StateEvent F → Type 0
  ReachesMarket e = (e.from_status ≡ some pending_approval) × (e.to_status ≡ submitted)

  semi_auto_not_created :
      {es : List (StateEvent F)} {s : OrderStatus} → Trail semi_auto es s → s ≢ created
  semi_auto_not_created (opened e from to initial) = ground arith
  semi_auto_not_created (moved {s = s} {t = t} e trail from to valid) = never_created s t valid

  Trail-approval :
      {es : List (StateEvent F)} {s : OrderStatus}
      → Trail semi_auto es s
      → is_working s ≡ true
      → (e : StateEvent F) × Memᴰ e es × ReachesMarket e
  Trail-approval (opened e from to initial) working = ground arith
  Trail-approval (moved {s = s} {t = t} e trail from to valid) working =
      elim (working_from s t valid working) [
        | inl before ↦ let (a, m, ap) = Trail-approval trail before in (a, Memᴰ.tail m, ap)
        | inr (arrived, inl waited) ↦ (e, Memᴰ.head refl, (rw (← waited) from, to ∙ arrived))
        | inr (arrived, inr fresh) ↦ absurd (semi_auto_not_created trail fresh)
      ]

  -- In an audited store a semi-automatic order that is submitted, partly filled or filled has an
  -- event in its own history that took it from waiting for approval to submitted.
  pub semi_auto_needs_approval :
      (s : OrderStore F) (id : String) (o : OrderRecord F)
      → IsAudited s
      → get id s ≡ some o
      → o.execution_mode ≡ semi_auto
      → is_working o.status ≡ true
      → (e : StateEvent F) × Memᴰ e (history id s.state_events) × ReachesMarket e
  semi_auto_needs_approval s id o audited found semi working =
      Trail-approval
        (subst (λ m. Trail m (history id s.state_events) o.status) semi (rw found at (audited id)))
        working
