-- ===== src/Cart.antt =====
-- services/cart-service/app: carts, their items and the merge of a guest's cart.
pub mod Model
pub mod Clients
pub mod Items
pub mod Service
pub mod Changes
pub mod Tidy
pub mod Keeping
pub mod Operations
pub mod Merging
pub mod Readiness
pub mod Runs
mod Tests
