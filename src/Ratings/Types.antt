-- ===== src/Ratings/Types.antt =====
-- The rows, the request bodies and the errors of ratings-service: ratings/entities, ratings/dto and
-- ratings/upstream-types.ts.
use ceylon_events.Common.{ℕ, Bool, Option, List, ◌==◌, ◌&&◌, String, Response}
use ceylon_events.Shared.{OrderStatus, RatingSubjectType, same_subject_type}

-- Columns that the database fills (`created_at`) are left out.
pub record Rating : Type 0 where
  pub id : ℕ
  pub buyer_id : ℕ
  pub order_id : ℕ
  pub event_id : ℕ
  pub restaurant_id : ℕ
  pub subject_type : RatingSubjectType
  pub subject_id : ℕ
  pub stars : ℕ
  pub comment : Option String

-- `@Unique(["buyerId", "orderId", "subjectType", "subjectId"])`
abbrev pub same_rating : Rating → Rating → Bool
same_rating a b =
    a.buyer_id == b.buyer_id
    && a.order_id == b.order_id
    && same_subject_type a.subject_type b.subject_type
    && a.subject_id == b.subject_id

pub record CreateRating : Type 0 where
  pub order_id : ℕ
  pub event_id : ℕ
  pub subject_type : RatingSubjectType
  pub subject_id : ℕ
  pub stars : ℕ
  pub comment : Option String

-- What a query selects by.
pub record RatingsFilter : Type 0 where
  pub restaurant_id : Option ℕ
  pub subject_type : Option RatingSubjectType
  pub subject_id : Option ℕ

-- The average in tenths of a star.
pub record RatingSummary : Type 0 where
  pub average : Option ℕ
  pub count : ℕ

-- What is read of an order, an event and a food order.
pub record UpstreamOrder : Type 0 where
  pub buyer_id : ℕ
  pub event_id : ℕ
  pub status : OrderStatus
  pub items : List ℕ

pub record UpstreamEvent : Type 0 where
  pub restaurant_id : ℕ
  pub starts_at : ℕ

pub record UpstreamFoodPreOrder : Type 0 where
  pub menu_item_ids : List ℕ

-- The messages of the exceptions that the service throws.
pub data Reason : Type 0 where
  order_not_found may_not_rate order_service_error order_service_unavailable : Reason
  event_not_found event_service_unavailable only_own_orders other_event : Reason
  only_confirmed_orders not_started not_the_event not_pre_ordered already_rated : Reason
  filter_missing rating_not_found may_not_delete : Reason

-- The buyer's token goes with the reads of orders and food orders.
pub record Upstream : Type 0 where
  pub get_order : ℕ → ℕ → Response UpstreamOrder
  pub get_event : ℕ → Response UpstreamEvent
  pub get_food_pre_order : ℕ → ℕ → Response (Option UpstreamFoodPreOrder)

pub record State : Type 0 where
  pub ratings : List Rating
