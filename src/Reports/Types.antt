-- ===== src/Reports/Types.antt =====
-- What reporting-service reads and returns: reports/upstream-types.ts, and libs/shared-types/src/report.ts. Fields that
-- the service does not read are left out.
use ceylon_events.Common.{ℕ, ℤ, Option, List, String, Response}
use ceylon_events.Shared.{OrderStatus}

pub record UpstreamEvent : Type 0 where
  pub id : ℕ
  pub restaurant_id : ℕ
  pub title : String
  pub starts_at : ℕ

pub record UpstreamTicketTier : Type 0 where
  pub id : ℕ
  pub name : String

pub record UpstreamOrderItemForReport : Type 0 where
  pub id : ℕ
  pub ticket_tier_id : ℕ
  pub price_minor_units : ℕ

pub record UpstreamOrderForReport : Type 0 where
  pub id : ℕ
  pub status : OrderStatus
  pub total_minor_units : ℤ
  pub currency : String
  pub items : List UpstreamOrderItemForReport

pub record UpstreamMenuItemAggregate : Type 0 where
  pub menu_item_id : ℕ
  pub menu_item_name : String
  pub total_quantity : ℕ

-- The average in tenths of a star.
pub record UpstreamRatingSummary : Type 0 where
  pub average : Option ℕ
  pub count : ℕ

pub record UpstreamPaginated (A : Type 0) : Type 0 where
  pub items : List A
  pub total : ℕ
  pub page : ℕ
  pub page_size : ℕ

pub record UpstreamRestaurant : Type 0 where
  pub id : ℕ
  pub name : String

pub record UpstreamPlatformOrderTotals : Type 0 where
  pub total_orders : ℕ
  pub confirmed_orders : ℕ
  pub total_revenue_minor_units : ℤ
  pub currency : String

pub record EventReportTierBreakdown : Type 0 where
  pub ticket_tier_id : ℕ
  pub ticket_tier_name : String
  pub sold : ℕ
  pub revenue_minor_units : ℕ

pub record EventReport : Type 0 where
  pub event_id : ℕ
  pub event_title : String
  pub restaurant_id : ℕ
  pub starts_at : ℕ
  pub tickets_sold : ℕ
  pub revenue_minor_units : ℤ
  pub currency : String
  pub tier_breakdown : List EventReportTierBreakdown
  pub food_item_summary : List UpstreamMenuItemAggregate
  pub rating_summary : UpstreamRatingSummary

pub record RestaurantReportEvent : Type 0 where
  pub event_id : ℕ
  pub event_title : String
  pub starts_at : ℕ
  pub tickets_sold : ℕ
  pub revenue_minor_units : ℤ

pub record RestaurantReport : Type 0 where
  pub restaurant_id : ℕ
  pub restaurant_name : String
  pub event_count : ℕ
  pub tickets_sold : ℕ
  pub revenue_minor_units : ℤ
  pub currency : String
  pub rating_summary : UpstreamRatingSummary
  pub events : List RestaurantReportEvent

pub record PlatformTotals : Type 0 where
  pub total_orders : ℕ
  pub confirmed_orders : ℕ
  pub total_revenue_minor_units : ℤ
  pub currency : String
  pub total_restaurants : ℕ
  pub total_events : ℕ

-- The messages of the exceptions that the service throws.
pub data Reason : Type 0 where
  event_not_found event_service_unavailable may_not_view order_service_unavailable : Reason
  restaurant_not_found restaurant_service_unavailable : Reason

-- The answers of the other services; the last argument is the caller's token, where it goes with
-- the request.
pub record Upstream : Type 0 where
  pub get_event : ℕ → ℕ → Response UpstreamEvent
  pub get_ticket_tiers : ℕ → ℕ → Response (List UpstreamTicketTier)
  pub get_orders_by_event : ℕ → ℕ → Response (List UpstreamOrderForReport)
  pub get_food_summary : ℕ → ℕ → Response (List UpstreamMenuItemAggregate)
  pub get_event_rating : ℕ → Response UpstreamRatingSummary
  pub get_restaurant : ℕ → ℕ → Response UpstreamRestaurant
  pub get_restaurant_events : ℕ → ℕ → ℕ → Response (UpstreamPaginated UpstreamEvent)
  pub get_restaurant_rating : ℕ → Response UpstreamRatingSummary
  pub get_platform_totals : ℕ → Response UpstreamPlatformOrderTotals
  pub get_restaurants : ℕ → ℕ → Response (UpstreamPaginated UpstreamRestaurant)
  pub get_events : ℕ → ℕ → Response (UpstreamPaginated UpstreamEvent)
