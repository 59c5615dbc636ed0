-- ===== src/Tests/Bundles.antt =====
-- offers-service on one offer that a ticket may use once.
use ceylon_events.Common.{none, some, [], ◌∷◌, body, no_clash}
use ceylon_events.Common.Memory.{memory}
use ceylon_events.Shared.{JwtAccessPayload, fixed, single_use}
use ceylon_events.Offers.Types.{Offer, UpstreamTicketLookup, Upstream, Database, State}

abbrev drink : Offer
drink = record {
  id = 1;
  event_id = 5;
  restaurant_id = 3;
  name = "Welcome drink";
  description = none;
  discount_type = fixed;
  discount_value = 500;
  redemption_type = single_use;
  redemption_cap = none;
  applicable_menu_category_id = none;
  applicable_menu_item_ids = none;
}

abbrev ticket : UpstreamTicketLookup
ticket = record { order_item_id = 6; ticket_tier_id = 9 }

abbrev upstream : Upstream
upstream = record {
  get_event = λ id. body (record { id = 5; restaurant_id = 3 });
  lookup_ticket = λ token authorization. body ticket;
}

abbrev database : Database
database = record {
  offers = memory (λ o. o.id) no_clash;
  links = memory (λ l. l.id) no_clash;
  redemptions = memory (λ r. r.id) no_clash;
}

abbrev bundled : State
bundled = record {
  offers = drink ∷ [];
  links = record { id = 1; offer_id = 1; ticket_tier_id = 9 } ∷ [];
  redemptions = [];
}

abbrev staff : JwtAccessPayload
staff = record { sub = 80; roles = []; restaurant_id = some 3 }
