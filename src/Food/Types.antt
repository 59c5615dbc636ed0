-- ===== src/Food/Types.antt =====
-- The rows, the request bodies and the errors of food-order-service: food-orders/entities,
-- food-orders/dto and food-orders/upstream-types.ts.
use ceylon_events.Common.{
  ℕ, Bool, Option, List, ◌||◌, String, Repository, Response, both_are, both_say,
}
use ceylon_events.Shared.{OrderStatus, SeatStatus, FoodOrderStatus, FoodOrderSource}

-- Columns that the database fills (`created_at`, `updated_at`) are left out.
pub record FoodPreOrder : Type 0 where
  pub id : ℕ
  pub order_id : Option ℕ
  pub order_item_id : Option ℕ
  pub event_id : ℕ
  pub restaurant_id : ℕ
  pub buyer_id : Option ℕ
  pub seat_id : Option ℕ
  pub seat_label : Option String
  pub table_id : Option ℕ
  pub table_number : Option String
  pub status : FoodOrderStatus
  pub source : FoodOrderSource
  pub created_by_user_id : Option ℕ
  pub notes : Option String
  pub client_request_id : Option String

-- `@Unique(["orderItemId"])`, and the unique index of `client_request_id`.
abbrev pub same_food_order : FoodPreOrder → FoodPreOrder → Bool
same_food_order a b =
    both_are a.order_item_id b.order_item_id || both_say a.client_request_id b.client_request_id

pub record FoodPreOrderItem : Type 0 where
  pub id : ℕ
  pub food_pre_order_id : ℕ
  pub menu_item_id : ℕ
  pub menu_item_name : String
  pub quantity : ℕ
  pub notes : Option String
  pub price_minor_units : ℕ

pub record FoodPreOrderItemInput : Type 0 where
  pub menu_item_id : ℕ
  pub quantity : ℕ
  pub notes : Option String

pub record SubmitFoodPreOrder : Type 0 where
  pub order_id : ℕ
  pub items : List FoodPreOrderItemInput

pub record SubmitWaiterFoodOrder : Type 0 where
  pub event_id : ℕ
  pub table_id : ℕ
  pub items : List FoodPreOrderItemInput
  pub notes : Option String
  pub client_request_id : Option String

pub record FoodPreOrderSnapshot : Type 0 where
  pub order : FoodPreOrder
  pub items : List FoodPreOrderItem

pub record MenuItemAggregate : Type 0 where
  pub menu_item_id : ℕ
  pub menu_item_name : String
  pub total_quantity : ℕ

pub record UpstreamOrderItem : Type 0 where
  pub id : ℕ
  pub seat_id : Option ℕ
  pub seat_label : Option String

pub record UpstreamOrder : Type 0 where
  pub id : ℕ
  pub buyer_id : ℕ
  pub event_id : ℕ
  pub status : OrderStatus
  pub items : List UpstreamOrderItem

pub record UpstreamEvent : Type 0 where
  pub id : ℕ
  pub restaurant_id : ℕ
  pub seat_map_version_id : Option ℕ
  pub starts_at : ℕ

pub record UpstreamMenuItem : Type 0 where
  pub id : ℕ
  pub name : String
  pub price_minor_units : ℕ
  pub is_available : Bool

pub record UpstreamMenuCategory : Type 0 where
  pub items : List UpstreamMenuItem

pub record UpstreamTable : Type 0 where
  pub id : ℕ
  pub table_number : String
  pub seats : List ℕ

-- The messages of the exceptions that the service throws.
pub data Reason : Type 0 where
  order_not_found may_not_pre_order order_service_error order_service_unavailable : Reason
  event_not_found event_service_unavailable restaurant_service_unavailable : Reason
  venue_service_unavailable cancelled_order ticket_not_on_order editing_closed : Reason
  not_on_menu : ℕ → Reason
  not_available : String → Reason
  may_not_create no_table_map table_not_found table_not_booked : Reason
  may_not_view may_not_view_event may_not_view_summary : Reason
  food_pre_order_not_found food_order_not_found may_not_manage_pre_orders may_not_manage : Reason

-- FOOD_ORDER_READY is the only notification of this service.
pub record Notice : Type 0 where
  pub user_id : ℕ
  pub order_item_id : Option ℕ
  pub event_id : ℕ

-- What the service asks of the others, and what it tells the subscribers of an event.
pub record Upstream (W : Type 0) : Type 0 where
  pub get_order : ℕ → ℕ → Response UpstreamOrder
  pub get_event : ℕ → Response UpstreamEvent
  pub get_menu : ℕ → Response (List UpstreamMenuCategory)
  pub get_snapshot : ℕ → Response (List UpstreamTable)
  pub get_availability : ℕ → Response (ℕ → Option SeatStatus)
  pub post_notification : Notice → W → W
  pub publish : ℕ → FoodPreOrderSnapshot → W → W

pub record Database : Type 0 where
  pub food_orders : Repository FoodPreOrder
  pub items : Repository FoodPreOrderItem

pub record State (W : Type 0) : Type 0 where
  pub food_orders : List FoodPreOrder
  pub items : List FoodPreOrderItem
  pub world : W
