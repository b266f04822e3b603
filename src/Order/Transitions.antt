-- ===== src/Order/Transitions.antt =====
-- services/order-service/app/service.py: the rows that a transition of an order writes, and the
-- transitions that are allowed.
use market_place_app.Prelude.{
  ℕ, String, ◌+++◌, ◌≡◌, refl, Bool, Option, none, some, [], ◌∷◌, ◌++◌, ◌+◌, ◌==◌, ◌||◌,
  if◌then◌else◌,
}
use market_place_app.Prelude.Table.{put}
use market_place_app.Prelude.Session.{Tx}
use market_place_app.Order.Model.{
  OrderStatus, pending_payment, payment_authorized, confirmed, processing, shipped, delivered,
  value, status_eq, PaymentStatus, Order, OrderDb, PaymentRefunded,
}
use market_place_app.Order.Clients.{Error}

-- `_event`
unfoldable pub event : ℕ → Order → String → Option String → OrderDb → OrderDb
event order_id o event_type request_id db = record db {
  outbox =
      db.outbox
      ++ record {
        aggregate_id = order_id;
        event_type = event_type;
        correlation_id = request_id;
        order_number = o.order_number;
        customer_id = o.customer_id;
        status = value o.status;
        total = o.grand_total;
        currency = o.currency_code;
      }
        ∷ [];
}

-- `_audit`
unfoldable pub audit : ℕ → Order → ℕ → String → Option String → OrderDb → OrderDb
audit order_id o actor action request_id db = record db {
  audits =
      db.audits
      ++ record {
        actor_id = actor;
        action = action;
        order_id = order_id;
        correlation_id = request_id;
        status = value o.status;
        version = o.version;
      }
        ∷ [];
}

unfoldable pub save : ℕ → Order → OrderDb → OrderDb
save order_id o db = record db { orders = put order_id o db.orders }

unfoldable pub add_history : ℕ → Option String → String → ℕ → Option String → OrderDb → OrderDb
add_history order_id from_status to_status actor reason db = record db {
  history =
      db.history
      ++ record {
        order_id = order_id;
        from_status = from_status;
        to_status = to_status;
        actor_id = actor;
        reason = reason;
      }
        ∷ [];
}

-- `_transition` on the loaded row: the row as it is left, and what it writes.
unfoldable pub advanced : Order → OrderStatus → Order
advanced o new_status = record o { status = new_status; version = o.version + 1 }

unfoldable pub write_transition :
    ℕ → Order → OrderStatus → ℕ → Option String → Option String → OrderDb → OrderDb
unfolding advanced save add_history event audit
write_transition order_id o new_status actor reason request_id db =
    let o' = advanced o new_status in
    let db₁ = save order_id o' db in
    let db₂ = add_history order_id (some (value o.status)) (value new_status) actor reason db₁ in
    let db₃ = event order_id o' ("order." +++ value new_status) request_id db₂ in
    audit order_id o' actor ("order." +++ value new_status) request_id db₃

pub orders-write_transition :
    (order_id : ℕ) (o : Order) (new : OrderStatus) (actor : ℕ) (reason rid : Option String)
    (db : OrderDb)
    → (write_transition order_id o new actor reason rid db).orders
      ≡ put order_id (advanced o new) db.orders
unfolding write_transition
orders-write_transition order_id o new actor reason rid db = refl

abbrev pub cancellable : OrderStatus → Bool
cancellable status =
    status_eq status pending_payment
    || status_eq status payment_authorized
    || status_eq status confirmed

-- `allowed` of `fulfillment`
abbrev pub allowed : OrderStatus → Option OrderStatus
allowed OrderStatus.confirmed = some processing
allowed OrderStatus.processing = some shipped
allowed OrderStatus.shipped = some delivered
allowed _ = none

abbrev pub is_allowed : Option OrderStatus → OrderStatus → Bool
is_allowed none new = Bool.false
is_allowed (some next) new = status_eq next new

abbrev pub refundable : PaymentStatus → Bool
refundable PaymentStatus.authorized = Bool.true
refundable PaymentStatus.captured = Bool.true
refundable PaymentStatus.refunded = Bool.true
refundable PaymentStatus.partially_refunded = Bool.true
refundable _ = Bool.false

-- The row that `payment_refunded` leaves.
abbrev pub refund_row : Order → PaymentRefunded → Order
refund_row o body = record o {
  payment_status =
      if body.refunded_amount == o.grand_total
      then PaymentStatus.refunded
      else PaymentStatus.partially_refunded;
  version = o.version + 1;
}

abbrev pub Handler : Type 0 → Type 0 → Type 0
Handler W A = Tx OrderDb W Error A
