-- ===== src/Offers/Types.antt =====
-- The rows, the request bodies and the errors of offers-service: offers/entities, offers/dto and
-- offers/upstream-types.ts.
use ceylon_events.Common.{ℕ, Bool, Option, List, ◌==◌, ◌&&◌, String, Repository, Response}
use ceylon_events.Shared.{DiscountType, RedemptionType}

-- Columns that the database fills (`created_at`, `updated_at`, `redeemed_at`) are left out.
pub record Offer : Type 0 where
  pub id : ℕ
  pub event_id : ℕ
  pub restaurant_id : ℕ
  pub name : String
  pub description : Option String
  pub discount_type : DiscountType
  pub discount_value : ℕ
  pub redemption_type : RedemptionType
  pub redemption_cap : Option ℕ
  pub applicable_menu_category_id : Option ℕ
  pub applicable_menu_item_ids : Option (List ℕ)

pub record OfferTicketTier : Type 0 where
  pub id : ℕ
  pub offer_id : ℕ
  pub ticket_tier_id : ℕ

-- `@Unique(["offerId", "ticketTierId"])`
abbrev pub same_link : OfferTicketTier → OfferTicketTier → Bool
same_link a b = a.offer_id == b.offer_id && a.ticket_tier_id == b.ticket_tier_id

pub record OfferRedemption : Type 0 where
  pub id : ℕ
  pub offer_id : ℕ
  pub order_item_id : ℕ
  pub redeemed_by_user_id : ℕ
  pub notes : Option String

pub record CreateOffer : Type 0 where
  pub name : String
  pub description : Option String
  pub discount_type : DiscountType
  pub discount_value : ℕ
  pub redemption_type : RedemptionType
  pub redemption_cap : Option ℕ
  pub applicable_menu_category_id : Option ℕ
  pub applicable_menu_item_ids : Option (List ℕ)
  pub ticket_tier_ids : List ℕ

-- A field that is absent stays; `null` clears one that may be null.
pub record UpdateOffer : Type 0 where
  pub name : Option String
  pub description : Option (Option String)
  pub discount_type : Option DiscountType
  pub discount_value : Option ℕ
  pub redemption_type : Option RedemptionType
  pub redemption_cap : Option (Option ℕ)
  pub applicable_menu_category_id : Option (Option ℕ)
  pub applicable_menu_item_ids : Option (Option (List ℕ))
  pub ticket_tier_ids : Option (List ℕ)

pub record OfferSnapshot : Type 0 where
  pub offer : Offer
  pub ticket_tier_ids : List ℕ

pub record OfferWithRedemptionState : Type 0 where
  pub snapshot : OfferSnapshot
  pub redeemed_count : ℕ
  pub remaining : Option ℕ

pub record UpstreamEvent : Type 0 where
  pub id : ℕ
  pub restaurant_id : ℕ

-- What is read of a looked-up ticket.
pub record UpstreamTicketLookup : Type 0 where
  pub order_item_id : ℕ
  pub ticket_tier_id : ℕ

-- The messages of the exceptions that the service throws.
pub data Reason : Type 0 where
  event_not_found event_service_unavailable ticket_not_found other_restaurant : Reason
  checkin_service_error checkin_service_unavailable may_not_manage_offers : Reason
  may_not_view_redemptions offer_not_found not_bundled fully_redeemed : Reason

-- The staff member's token goes with the lookup of a ticket.
pub record Upstream : Type 0 where
  pub get_event : ℕ → Response UpstreamEvent
  pub lookup_ticket : String → ℕ → Response UpstreamTicketLookup

pub record Database : Type 0 where
  pub offers : Repository Offer
  pub links : Repository OfferTicketTier
  pub redemptions : Repository OfferRedemption

pub record State : Type 0 where
  pub offers : List Offer
  pub links : List OfferTicketTier
  pub redemptions : List OfferRedemption
