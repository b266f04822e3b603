-- ===== src/Market.antt =====
-- Services that call one another, put together.
pub mod OrderApi
pub mod InStep
pub mod Fulfilment
pub mod Shipments
mod Tests
