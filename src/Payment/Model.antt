-- ===== src/Payment/Model.antt =====
-- services/payment-service/app/models and the queries of repositories/payment_repository.py. Money
-- is in cents, as to_minor_units of services/stripe_client.py makes it; times are left out.
use market_place_app.Prelude.{
  ℕ, String, Bool, true, false, Option, List, ◌==◌, ◌&&◌, str_eq, find, if◌then◌else◌,
}
use market_place_app.Prelude.Table.{Table, find_row}
use market_place_app.Prelude.Table.Rows.{sum_rows}

pub data PaymentStatus : Type 0 where
  pending requires_action succeeded failed refunded partially_refunded : PaymentStatus

pub data RefundStatus : Type 0 where
  pending succeeded failed : RefundStatus

pub record Payment : Type 0 where
  pub order_id : ℕ
  pub customer_id : ℕ
  pub amount : ℕ
  pub currency_code : String
  pub provider_payment_intent_id : String
  pub status : PaymentStatus
  pub failure_reason : Option String
  pub version : ℕ

pub record Refund : Type 0 where
  pub payment_id : ℕ
  pub provider_refund_id : String
  pub amount : ℕ
  pub reason : Option String
  pub status : RefundStatus

pub record IdempotencyRecord : Type 0 where
  pub actor_id : ℕ
  pub idempotency_key : String
  pub request_hash : String
  pub resource_type : String
  pub resource_id : ℕ

pub record WebhookEvent : Type 0 where
  pub provider_event_id : String
  pub event_type : String

pub record PaymentDb : Type 0 where
  pub payments : Table Payment
  pub refunds : Table Refund
  pub idempotency_records : List IdempotencyRecord
  pub webhook_events : List WebhookEvent

abbrev pub is_succeeded : PaymentStatus → Bool
is_succeeded PaymentStatus.succeeded = true
is_succeeded _ = false

abbrev pub is_failed : PaymentStatus → Bool
is_failed PaymentStatus.failed = true
is_failed _ = false

-- The statuses of a payment that can be refunded.
abbrev pub refundable : PaymentStatus → Bool
refundable PaymentStatus.succeeded = true
refundable PaymentStatus.partially_refunded = true
refundable _ = false

abbrev pub counts : RefundStatus → Bool
counts RefundStatus.succeeded = true
counts _ = false

-- What a refund adds to `Payment.refunded_amount` of payment `k`.
abbrev pub refund_of : ℕ → Refund → ℕ
refund_of k r = if counts r.status && r.payment_id == k then r.amount else 0

-- `Payment.refunded_amount`
abbrev pub refunded_amount : ℕ → PaymentDb → ℕ
refunded_amount k db = sum_rows (refund_of k) db.refunds

unfoldable pub get_payment_by_order : ℕ → PaymentDb → Option (ℕ × Payment)
get_payment_by_order order db = find_row (λ p. p.order_id == order) db.payments

unfoldable pub get_payment_by_intent : String → PaymentDb → Option (ℕ × Payment)
get_payment_by_intent intent db =
    find_row (λ p. str_eq p.provider_payment_intent_id intent) db.payments

unfoldable pub get_webhook_event : String → PaymentDb → Option WebhookEvent
get_webhook_event event db = find (λ e. str_eq e.provider_event_id event) db.webhook_events

unfoldable pub get_idempotency_record : ℕ → String → PaymentDb → Option IdempotencyRecord
get_idempotency_record actor key db =
    find (λ r. r.actor_id == actor && str_eq r.idempotency_key key) db.idempotency_records
