-- ===== src/Orders.antt =====
-- services/order-service: orders (src/orders) and promo codes (src/promo-codes).
pub mod Types
pub mod Upstream
pub mod PromoCodes
pub mod Cart
pub mod Create
pub mod Lifecycle
pub mod Reports
