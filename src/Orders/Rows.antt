-- ===== src/Orders/Rows.antt =====
-- The rows of the order tables, the arguments of the order service's methods, and the table of
-- permitted transitions: iimc_trading_platform/services/order_service.py. A price is a float that
-- the service only carries, so its type is a parameter. `state_events` and `trade_fills` list the
-- newest row first.
use coversational_algo_tradi.Domain.{
  ExecutionMode, OrderStatus, cancelled, created, failed, filled, partially_filled,
  pending_approval, rejected, risk_approved, risk_rejected, semi_auto, status_eq, submitted,
}
use coversational_algo_tradi.Prelude.{
  Bool, List, Method, Option, String, [], any_row, ℕ, ℤ, ◌||◌, ◌∷◌,
}

-- `VALID_TRANSITIONS`
unfoldable pub valid_transitions : OrderStatus → List OrderStatus
valid_transitions created = pending_approval ∷ submitted ∷ rejected ∷ cancelled ∷ failed ∷ []
valid_transitions pending_approval = submitted ∷ rejected ∷ cancelled ∷ []
valid_transitions submitted = partially_filled ∷ filled ∷ rejected ∷ cancelled ∷ failed ∷ []
valid_transitions partially_filled = filled ∷ cancelled ∷ failed ∷ []
valid_transitions filled = []
valid_transitions rejected = []
valid_transitions cancelled = []
valid_transitions failed = []
valid_transitions risk_approved = []
valid_transitions risk_rejected = []

-- `new_status in VALID_TRANSITIONS.get(status, set())`
unfoldable pub is_valid_transition : OrderStatus → OrderStatus → Bool
unfolding valid_transitions
is_valid_transition s t = any_row (status_eq t) (valid_transitions s)

pub record OrderRecord (F : Type 0) : Type 0 where
  pub order_id : String
  pub run_id : String
  pub decision_id : String
  pub symbol : String
  pub side : String
  pub order_type : String
  pub quantity : ℤ
  pub status : OrderStatus
  pub execution_mode : ExecutionMode
  pub price : F
  pub idempotency_key : String
  pub broker_order_id : Option String
  pub filled_quantity : ℤ
  pub average_fill_price : Option F
  pub rejection_reason : Option String
  pub created_at : ℕ
  pub updated_at : ℕ

-- The payload of a row of `order_state_events`; at creation it is the empty object.
pub record EventPayload (F : Type 0) : Type 0 where
  pub broker_order_id : Option String
  pub filled_quantity : ℤ
  pub average_fill_price : Option F

-- A row of `order_state_events`, without its random key.
pub record StateEvent (F : Type 0) : Type 0 where
  pub order_id : String
  pub from_status : Option OrderStatus
  pub to_status : OrderStatus
  pub reason : Option String
  pub payload : Option (EventPayload F)
  pub created_at : ℕ

-- A row of `trade_fills`.
pub record TradeFill (F : Type 0) : Type 0 where
  pub trade_id : String
  pub order_id : String
  pub run_id : String
  pub symbol : String
  pub side : String
  pub quantity : ℤ
  pub price : F
  pub fees : F
  pub realized_pnl : F
  pub filled_at : ℕ

pub record OrderStore (F : Type 0) : Type 0 where
  pub orders : List (OrderRecord F)
  pub state_events : List (StateEvent F)
  pub trade_fills : List (TradeFill F)

-- The exceptions, by their messages; `constraint_violation` is the database's, on a second row
-- with one primary key.
pub data OrderError : Type 0 where
  order_not_found invalid_transition approval_required constraint_violation : OrderError

-- The keyword arguments of `create_order`.
pub record OrderRequest (F : Type 0) : Type 0 where
  pub run_id : String
  pub decision_id : String
  pub symbol : String
  pub side : String
  pub order_type : String
  pub quantity : ℤ
  pub execution_mode : ExecutionMode
  pub price : F

-- The keyword arguments of `transition`.
pub record Change (F : Type 0) : Type 0 where
  pub new_status : OrderStatus
  pub reason : Option String
  pub broker_order_id : Option String
  pub filled_quantity : Option ℤ
  pub average_fill_price : Option F

-- The keyword arguments of `record_simulated_fill`.
pub record FillDetails (F : Type 0) : Type 0 where
  pub fill_price : F
  pub fees : F
  pub realized_pnl : F
  pub filled_at : ℕ

-- The two readings of the clock that a write and its event make.
pub record Times : Type 0 where
  pub written : ℕ
  pub logged : ℕ

-- A method of the service over its tables.
abbrev pub OrderMethod : Type 0 → Type 0 → Type 0
OrderMethod F A = Method (OrderStore F) OrderError A

abbrev pub initial_status : ExecutionMode → OrderStatus
initial_status semi_auto = pending_approval
initial_status _ = created

-- The reason is kept for a rejection and a failure only.
abbrev pub is_refusal : OrderStatus → Bool
is_refusal s = status_eq s rejected || status_eq s failed
