-- ===== src/Tests/Listings.antt =====
-- event-service on one draft.
use ceylon_events.Common.{◌≡◌, refl, inl, inr, none, some, [], ◌∷◌, arith, ok, no_clash}
use ceylon_events.Common.Memory.{memory, memory-IsRepository}
use ceylon_events.Shared.{JwtAccessPayload, EventStatus, can_manage_restaurant}
use ceylon_events.Events.Types.{Event, Database, State}
use ceylon_events.Events.{find_visible_or_throw, get_or_throw}
use ceylon_events.Events.Visible.{find_visible_or_throw-listed}

abbrev database : Database
database = record { events = memory (λ e. e.id) no_clash; tiers = memory (λ t. t.id) no_clash }

abbrev gala : Event
gala = record {
  id = 5;
  restaurant_id = 3;
  seat_map_version_id = none;
  title = "Gala";
  description = none;
  banner_image_url = none;
  starts_at = 1000;
  status = EventStatus.draft;
}

abbrev planned : State
planned = record { events = gala ∷ []; tiers = [] }

abbrev owner : JwtAccessPayload
owner = record { sub = 80; roles = []; restaurant_id = some 3 }

find_visible_or_throw-listed_example :
    find_visible_or_throw database 5 (some owner) planned ≡ (ok gala, planned)
unfolding find_visible_or_throw get_or_throw can_manage_restaurant
find_visible_or_throw-listed_example =
    elim (find_visible_or_throw-listed database (memory-IsRepository (λ e. e.id) no_clash) gala
      (some owner) planned refl) [
        | inl (seen, in_list) ↦ seen
        | inr (unseen, missing) ↦ absurd (ground arith)
      ]
