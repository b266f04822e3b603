-- ===== src/Payment.antt =====
-- services/payment-service/app: payments, refunds and the events of Stripe.
pub mod Model
pub mod Clients
pub mod Stores
pub mod Service
pub mod Webhook
pub mod Bounds
pub mod Keeping
pub mod Runs
pub mod Seen
pub mod Deliveries
pub mod Refunds
mod Tests
