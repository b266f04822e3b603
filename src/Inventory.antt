-- ===== src/Inventory.antt =====
-- services/inventory-service/app: stock, reservations and their movements.
pub mod Model
pub mod Writes
pub mod Resolving
pub mod Stock
pub mod Items
pub mod Reservations
pub mod Groups
pub mod GroupEnds
pub mod Consistency
pub mod Lookup
pub mod Keeping
pub mod Loops
pub mod Sweeps
pub mod Batch
pub mod Runs
pub mod Outcomes
mod Tests
