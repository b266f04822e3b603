-- ===== src/Shipping.antt =====
-- services/shipping-service/app: shipments, booked and advanced together with their orders.
pub mod Model
pub mod Clients
pub mod Service
pub mod Routes
