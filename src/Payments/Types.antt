-- ===== src/Payments/Types.antt =====
-- The rows, the upstream shapes and the errors of payment-service: payments/entities, payments/dto and
-- payments/upstream-types.ts.
use ceylon_events.Common.{ℕ, ℤ, Bool, Option, List, ◌==◌, String, Repository, Response}
use ceylon_events.Shared.{OrderStatus, PaymentMethod, PaymentStatus}

-- Columns that the database fills (`created_at`, `updated_at`) are left out.
pub record Payment : Type 0 where
  pub id : ℕ
  pub order_id : ℕ
  pub buyer_id : ℕ
  pub amount_minor_units : ℤ
  pub currency : String
  pub method : PaymentMethod
  pub status : PaymentStatus
  pub payhere_payment_id : Option String

-- `@Unique(["orderId"])`
abbrev pub same_order : Payment → Payment → Bool
same_order a b = a.order_id == b.order_id

pub record PaymentProof : Type 0 where
  pub id : ℕ
  pub payment_id : ℕ
  pub order_id : ℕ
  pub object_key : String
  pub public_url : String
  pub reference_note : String
  pub status : PaymentStatus
  pub reviewed_by_user_id : Option ℕ
  pub reviewed_at : Option ℕ
  pub review_notes : Option String

pub record UpstreamOrderItem : Type 0 where
  pub id : ℕ
  pub seat_id : Option ℕ

pub record UpstreamOrder : Type 0 where
  pub id : ℕ
  pub buyer_id : ℕ
  pub event_id : ℕ
  pub status : OrderStatus
  pub total_minor_units : ℤ
  pub currency : String
  pub payment_method : PaymentMethod
  pub items : List UpstreamOrderItem

pub record UpstreamEvent : Type 0 where
  pub id : ℕ
  pub seat_map_version_id : Option ℕ

pub record SubmitPaymentProof : Type 0 where
  pub object_key : String
  pub public_url : String
  pub reference_note : String

pub record PayHereIpn : Type 0 where
  pub order_id : String
  pub payhere_amount : String
  pub payhere_currency : String
  pub status_code : String
  pub md5sig : String
  pub payment_id : Option String

-- The messages of the exceptions that the service throws.
pub data Reason : Type 0 where
  order_not_found may_not_pay order_service_error order_service_unavailable : Reason
  already_paid not_for_payhere not_for_proof invalid_signature : Reason
  cannot_pay_in cannot_submit_in : OrderStatus → Reason
  proof_not_found already_reviewed payment_not_found may_not_view_payment : Reason

-- PAYMENT_FAILED is the only notification of this service.
pub record Notice : Type 0 where
  pub user_id : ℕ
  pub order_id : ℕ
  pub notes : Option String

-- What the service asks of the others; `W` is what its requests can change there.
pub record Upstream (W : Type 0) : Type 0 where
  pub get_order_as_buyer : ℕ → ℕ → W → Response UpstreamOrder
  pub get_order_internal : ℕ → W → Response UpstreamOrder
  pub patch_confirm_payment : ℕ → W → Response (Unit {0}) × W
  pub get_event : ℕ → W → Response UpstreamEvent
  pub post_mark_sold : ℕ → ℕ → ℕ → W → Response (Unit {0}) × W
  pub post_notification : Notice → W → W

pub record Database : Type 0 where
  pub payments : Repository Payment
  pub proofs : Repository PaymentProof

pub record State (W : Type 0) : Type 0 where
  pub payments : List Payment
  pub proofs : List PaymentProof
  pub world : W
