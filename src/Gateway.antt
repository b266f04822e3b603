-- ===== src/Gateway.antt =====
-- services/api-gateway/app/services: which paths are proxied, and when a service is left alone.
pub mod Breaker
pub mod BreakerHistory
pub mod Routing
pub mod Resolve
pub mod Headers
pub mod Proxy
pub mod Forwarding
pub mod ReadHeaders
mod Tests
