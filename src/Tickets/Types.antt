-- ===== src/Tickets/Types.antt =====
-- The rows, the upstream shapes and the errors of checkin-service: tickets/entities and
-- tickets/upstream-types.ts.
use ceylon_events.Common.{ℕ, Bool, Option, List, ◌==◌, ◌||◌, String, str_eq, Response}
use ceylon_events.Shared.{OrderStatus, TicketStatus}

-- Of the columns that the database fills, `created_at` is left out.
pub record Ticket : Type 0 where
  pub id : ℕ
  pub order_id : ℕ
  pub order_item_id : ℕ
  pub buyer_id : ℕ
  pub event_id : ℕ
  pub ticket_tier_id : ℕ
  pub seat_id : Option ℕ
  pub seat_label : Option String
  pub qr_token : String
  pub status : TicketStatus
  pub checked_in_at : Option ℕ
  pub checked_in_by_user_id : Option ℕ

-- `@Unique(["orderItemId"])`, and the unique index of `qr_token`.
abbrev pub same_ticket : Ticket → Ticket → Bool
same_ticket a b = a.order_item_id == b.order_item_id || str_eq a.qr_token b.qr_token

pub record UpstreamOrderItem : Type 0 where
  pub id : ℕ
  pub order_id : ℕ
  pub ticket_tier_id : ℕ
  pub seat_id : Option ℕ
  pub seat_label : Option String

pub record UpstreamOrder : Type 0 where
  pub id : ℕ
  pub buyer_id : ℕ
  pub event_id : ℕ
  pub status : OrderStatus
  pub items : List UpstreamOrderItem

pub record UpstreamEvent : Type 0 where
  pub id : ℕ
  pub restaurant_id : ℕ
  pub title : String

pub record TicketWithQr : Type 0 where
  pub id : ℕ
  pub order_item_id : ℕ
  pub event_id : ℕ
  pub ticket_tier_id : ℕ
  pub seat_id : Option ℕ
  pub seat_label : Option String
  pub status : TicketStatus
  pub checked_in_at : Option ℕ
  pub qr_code_data_url : String

pub record TicketLookupResult : Type 0 where
  pub id : ℕ
  pub order_item_id : ℕ
  pub event_title : String
  pub ticket_tier_id : ℕ
  pub seat_label : Option String
  pub status : TicketStatus
  pub checked_in_at : Option ℕ

-- The messages of the exceptions that the service throws.
pub data Reason : Type 0 where
  order_not_found may_not_view_tickets order_service_error order_service_unavailable : Reason
  event_not_found event_service_unavailable ticket_not_found other_restaurant : Reason
  already_checked_in : Option ℕ → Reason

-- What the service asks of the others, the random token of `randomUUID()` for its nth call, and
-- `QRCode.toDataURL`.
pub record Upstream : Type 0 where
  pub get_order : ℕ → ℕ → Response UpstreamOrder
  pub get_event : ℕ → Response UpstreamEvent
  pub random_uuid : ℕ → String
  pub to_data_url : String → String

-- `uuids` counts the tokens drawn.
pub record State : Type 0 where
  pub tickets : List Ticket
  pub uuids : ℕ
