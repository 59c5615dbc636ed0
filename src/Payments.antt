-- ===== src/Payments.antt =====
-- services/payment-service: PayHere checkouts and notifications, and payment proofs that an
-- administrator reviews.
pub mod Types
pub mod PayHere
pub mod Service
