-- ===== src/Events/Types.antt =====
-- The rows, the request bodies and the errors of event-service: events and ticket-tiers, their entities and dto.
use ceylon_events.Common.{ℕ, Option, List, String, Repository}
use ceylon_events.Shared.{EventStatus}

-- Columns that the database fills (`created_at`, `updated_at`) are left out.
pub record Event : Type 0 where
  pub id : ℕ
  pub restaurant_id : ℕ
  pub seat_map_version_id : Option ℕ
  pub title : String
  pub description : Option String
  pub banner_image_url : Option String
  pub starts_at : ℕ
  pub status : EventStatus

pub record CreateEvent : Type 0 where
  pub restaurant_id : ℕ
  pub seat_map_version_id : Option ℕ
  pub title : String
  pub description : Option String
  pub banner_image_url : Option String
  pub starts_at : ℕ

-- A field that is absent stays; `null` clears one that may be null.
pub record UpdateEvent : Type 0 where
  pub title : Option String
  pub description : Option (Option String)
  pub banner_image_url : Option (Option String)
  pub seat_map_version_id : Option (Option ℕ)
  pub starts_at : Option ℕ

pub record TicketTier : Type 0 where
  pub id : ℕ
  pub event_id : ℕ
  pub name : String
  pub price_minor_units : ℕ
  pub currency : String
  pub sale_start_at : Option ℕ
  pub sale_end_at : Option ℕ
  pub allowed_section_ids : Option (List ℕ)
  pub quantity_limit : Option ℕ

pub record CreateTicketTier : Type 0 where
  pub name : String
  pub price_minor_units : ℕ
  pub currency : Option String
  pub sale_start_at : Option ℕ
  pub sale_end_at : Option ℕ
  pub allowed_section_ids : Option (List ℕ)
  pub quantity_limit : Option ℕ

pub record UpdateTicketTier : Type 0 where
  pub name : Option String
  pub price_minor_units : Option ℕ
  pub currency : Option String
  pub sale_start_at : Option (Option ℕ)
  pub sale_end_at : Option (Option ℕ)
  pub allowed_section_ids : Option (Option (List ℕ))
  pub quantity_limit : Option (Option ℕ)

-- The messages of the exceptions that the services throw.
pub data Reason : Type 0 where
  may_not_create may_not_update may_not_manage_tiers : Reason
  event_not_found ticket_tier_not_found : Reason

pub record Database : Type 0 where
  pub events : Repository Event
  pub tiers : Repository TicketTier

pub record State : Type 0 where
  pub events : List Event
  pub tiers : List TicketTier
