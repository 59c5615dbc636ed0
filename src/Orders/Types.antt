-- ===== src/Orders/Types.antt =====
-- The rows, the upstream shapes and the errors of order-service: orders/entities, promo-codes/entities,
-- orders/upstream-types.ts and the request bodies in orders/dto.
use ceylon_events.Common.{ℕ, ℤ, Bool, Option, List, ◌==◌, ◌&&◌, String, str_eq}
use ceylon_events.Shared.{OrderStatus, PaymentMethod, DiscountType, EventStatus}

-- Columns that the database fills (`created_at`, `updated_at`) are left out.
pub record Order : Type 0 where
  pub id : ℕ
  pub buyer_id : ℕ
  pub event_id : ℕ
  pub status : OrderStatus
  pub subtotal_minor_units : ℕ
  pub discount_minor_units : ℕ
  pub total_minor_units : ℤ
  pub promo_code_id : Option ℕ
  pub currency : String
  pub payment_method : PaymentMethod

pub record OrderItem : Type 0 where
  pub id : ℕ
  pub order_id : ℕ
  pub ticket_tier_id : ℕ
  pub seat_id : Option ℕ
  pub seat_label : Option String
  pub price_minor_units : ℕ

pub record PromoCode : Type 0 where
  pub id : ℕ
  pub event_id : ℕ
  pub code : String
  pub discount_type : DiscountType
  pub discount_value : ℕ
  pub applicable_ticket_tier_id : Option ℕ
  pub usage_limit : Option ℕ
  pub usage_count : ℕ
  pub expires_at : Option ℕ
  pub is_active : Bool

-- `@Unique(["eventId", "code"])`
abbrev pub same_code : PromoCode → PromoCode → Bool
same_code a b = a.event_id == b.event_id && str_eq a.code b.code

pub record OrderWithItems : Type 0 where
  pub order : Order
  pub items : List OrderItem

pub record UpstreamEvent : Type 0 where
  pub id : ℕ
  pub restaurant_id : ℕ
  pub seat_map_version_id : Option ℕ
  pub status : EventStatus

pub record UpstreamTicketTier : Type 0 where
  pub id : ℕ
  pub event_id : ℕ
  pub price_minor_units : ℕ
  pub currency : String
  pub sale_start_at : Option ℕ
  pub sale_end_at : Option ℕ
  pub allowed_section_ids : Option (List ℕ)
  pub quantity_limit : Option ℕ

-- What is read of a `SeatMapSnapshot`.
pub record SnapshotSeat : Type 0 where
  pub id : ℕ
  pub seat_label : String

pub record SnapshotTable : Type 0 where
  pub section_id : Option ℕ
  pub seats : List SnapshotSeat

pub record OrderItemInput : Type 0 where
  pub ticket_tier_id : ℕ
  pub seat_id : Option ℕ
  pub holder_token : Option ℕ

pub record CreateOrder : Type 0 where
  pub event_id : ℕ
  pub payment_method : PaymentMethod
  pub items : List OrderItemInput
  pub promo_code : Option String

-- The messages of the exceptions that the service throws.
pub data Reason : Type 0 where
  event_not_found event_service_error event_service_unavailable venue_service_unavailable : Reason
  seat_map_version_not_found seat_not_held event_not_open sales_not_open : Reason
  tier_not_found tier_of_other_event tier_sold_out : ℕ → Reason
  table_required holder_token_required no_seat_map section_not_allowed : Reason
  order_not_found may_not_view_order may_not_cancel_order only_pending_cancelled : Reason
  may_not_view_event_orders : Reason
  cannot_confirm : OrderStatus → Reason
  invalid_promo_code promo_code_inactive promo_code_expired promo_code_used_up : Reason
  promo_code_not_found may_not_manage_promo_codes may_not_view_promo_codes : Reason

-- The tables of the service, and the rest of the world that its requests reach.
pub record State (W : Type 0) : Type 0 where
  pub orders : List Order
  pub items : List OrderItem
  pub promo_codes : List PromoCode
  pub world : W
