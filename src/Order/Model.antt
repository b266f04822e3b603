-- ===== src/Order/Model.antt =====
-- services/order-service/app/models.py, the request bodies of schemas.py and the queries of
-- repository.py. Ids and times are numbers that are only compared, money is in cents, an address is
-- its JSON text. Columns that the database fills and no code reads (`created_at`, the keys of
-- logged rows) are left out.
use market_place_app.Prelude.{ℕ, String, Bool, Option, List, ◌==◌, ◌&&◌, ◌||◌, not, str_eq, find}
use market_place_app.Prelude.Table.{Table, find_row}

pub data OrderStatus : Type 0 where
  pending_payment payment_authorized confirmed processing shipped : OrderStatus
  delivered cancelled payment_failed : OrderStatus

-- The enum's value.
unfoldable pub value : OrderStatus → String
value OrderStatus.pending_payment = "pending_payment"
value OrderStatus.payment_authorized = "payment_authorized"
value OrderStatus.confirmed = "confirmed"
value OrderStatus.processing = "processing"
value OrderStatus.shipped = "shipped"
value OrderStatus.delivered = "delivered"
value OrderStatus.cancelled = "cancelled"
value OrderStatus.payment_failed = "payment_failed"

abbrev index : OrderStatus → ℕ
index OrderStatus.pending_payment = 0
index OrderStatus.payment_authorized = 1
index OrderStatus.confirmed = 2
index OrderStatus.processing = 3
index OrderStatus.shipped = 4
index OrderStatus.delivered = 5
index OrderStatus.cancelled = 6
index OrderStatus.payment_failed = 7

-- Equality of two members.
abbrev pub status_eq : OrderStatus → OrderStatus → Bool
status_eq a b = index a == index b

pub data PaymentStatus : Type 0 where
  pending authorized captured failed refunded partially_refunded : PaymentStatus

pub record OrderItem : Type 0 where
  pub product_id : ℕ
  pub variant_id : ℕ
  pub seller_id : ℕ
  pub sku : String
  pub product_name : String
  pub variant_name : String
  pub quantity : ℕ
  pub unit_price : ℕ
  pub line_total : ℕ
  pub product_version : ℕ

pub record Order : Type 0 where
  pub order_number : String
  pub customer_id : ℕ
  pub cart_id : ℕ
  pub status : OrderStatus
  pub payment_status : PaymentStatus
  pub currency_code : String
  pub subtotal : ℕ
  pub tax_total : ℕ
  pub shipping_total : ℕ
  pub discount_total : ℕ
  pub grand_total : ℕ
  pub shipping_address : String
  pub billing_address : String
  pub reservation_group_id : Option ℕ
  pub payment_reference : Option String
  pub cancellation_reason : Option String
  pub version : ℕ
  pub items : List OrderItem

pub record OrderStatusHistory : Type 0 where
  pub order_id : ℕ
  pub from_status : Option String
  pub to_status : String
  pub actor_id : ℕ
  pub reason : Option String

pub record IdempotencyRecord : Type 0 where
  pub actor_id : ℕ
  pub key : String
  pub request_hash : String
  pub resource_id : ℕ

pub record OutboxEvent : Type 0 where
  pub aggregate_id : ℕ
  pub event_type : String
  pub correlation_id : Option String
  pub order_number : String
  pub customer_id : ℕ
  pub status : String
  pub total : ℕ
  pub currency : String

pub record AuditRecord : Type 0 where
  pub actor_id : ℕ
  pub action : String
  pub order_id : ℕ
  pub correlation_id : Option String
  pub status : String
  pub version : ℕ

-- The tables of the service's database.
pub record OrderDb : Type 0 where
  pub orders : Table Order
  pub idempotency_records : List IdempotencyRecord
  pub history : List OrderStatusHistory
  pub outbox : List OutboxEvent
  pub audits : List AuditRecord

-- `_TERMINAL_ORDER_STATUSES`
unfoldable pub is_terminal : OrderStatus → Bool
is_terminal status =
    status_eq status OrderStatus.cancelled || status_eq status OrderStatus.payment_failed

-- The rows that `by_customer_cart` selects and that `uq_order_customer_cart` keeps unique.
unfoldable pub occupies : ℕ → ℕ → Order → Bool
unfolding is_terminal
occupies customer cart o =
    o.customer_id == customer && o.cart_id == cart && not (is_terminal o.status)

unfoldable pub by_customer_cart : ℕ → ℕ → OrderDb → Option (ℕ × Order)
by_customer_cart customer cart db = find_row (occupies customer cart) db.orders

unfoldable pub idempotency : ℕ → String → OrderDb → Option IdempotencyRecord
idempotency actor key db =
    find (λ r. r.actor_id == actor && str_eq r.key key) db.idempotency_records

pub record CancelOrder : Type 0 where
  pub reason : String

pub record PaymentAuthorized : Type 0 where
  pub payment_reference : String
  pub authorized_amount : ℕ
  pub currency_code : String

pub record PaymentFailed : Type 0 where
  pub payment_reference : Option String
  pub reason : String

pub record PaymentRefunded : Type 0 where
  pub refunded_amount : ℕ
  pub currency_code : String
  pub reason : Option String

pub record FulfillmentUpdate : Type 0 where
  pub status : OrderStatus
  pub shipment_reference : Option String
