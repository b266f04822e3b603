-- ===== src/Order.antt =====
-- services/order-service/app: checkout and the life of an order. `Model` has the tables and the
-- queries, `Clients` the calls of other services, `Service` the handlers.
pub mod Model
pub mod Clients
pub mod Transitions
pub mod Service
pub mod Routes
pub mod Drafts
pub mod Checkout
pub mod Lifecycle
pub mod Runs
pub mod Uniqueness
pub mod Lines
pub mod Placing
pub mod Payments
pub mod Logged
pub mod Checkouts
mod Tests
