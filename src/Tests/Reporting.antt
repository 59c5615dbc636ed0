-- ===== src/Tests/Reporting.antt =====
-- reporting-service on a restaurant with two events, of which one cannot be reported.
use ceylon_events.Common.{
  ℕ, pos, ◌≡◌, refl, ◌==◌, if◌then◌else◌, none, some, [], ◌∷◌, body, status, unreachable, ok,
  length, sum_by, total_by,
}
use ceylon_events.Shared.{OrderStatus}
use ceylon_events.Reports.Types.{
  Upstream, UpstreamEvent, UpstreamOrderForReport, UpstreamOrderItemForReport, EventReport,
  RestaurantReport,
}
use ceylon_events.Reports.{event_report, fetch_event, fetch_orders, restaurant_report}
use ceylon_events.Reports.Tiers.{event_report-tiers}
use ceylon_events.Reports.Rollup.{restaurant_report_lem, AreRows}

abbrev dinner : UpstreamEvent
dinner = record { id = 5; restaurant_id = 3; title = "dinner"; starts_at = 1000 }

abbrev brunch : UpstreamEvent
brunch = record { id = 6; restaurant_id = 3; title = "brunch"; starts_at = 2000 }

abbrev ticket : ℕ → ℕ → ℕ → UpstreamOrderItemForReport
ticket id tier price = record { id = id; ticket_tier_id = tier; price_minor_units = price }

abbrev bought : UpstreamOrderForReport
bought = record {
  id = 40;
  status = OrderStatus.confirmed;
  total_minor_units = pos 700;
  currency = "LKR";
  items = ticket 1 8 500 ∷ ticket 2 9 300 ∷ [];
}

abbrev cancelled_order : UpstreamOrderForReport
cancelled_order = record {
  id = 41;
  status = OrderStatus.cancelled;
  total_minor_units = pos 500;
  currency = "LKR";
  items = ticket 3 8 500 ∷ [];
}

abbrev upstream : Upstream
upstream = record {
  get_event = λ id a. if id == 5 then body dinner else body brunch;
  get_ticket_tiers =
      λ id a. body (record { id = 8; name = "terrace" } ∷ record { id = 9; name = "hall" } ∷ []);
  get_orders_by_event =
      λ id a. if id == 5 then body (bought ∷ cancelled_order ∷ []) else unreachable;
  get_food_summary = λ id a. unreachable;
  get_event_rating = λ id. status 500;
  get_restaurant = λ id a. body (record { id = 3; name = "Bay" });
  get_restaurant_events =
      λ id n a. body (record { items = dinner ∷ brunch ∷ []; total = 2; page = 1; page_size = n });
  get_restaurant_rating = λ id. body (record { average = some 45; count = 2 });
  get_platform_totals = λ a. unreachable;
  get_restaurants = λ n a. unreachable;
  get_events = λ n a. unreachable;
}

abbrev dinner_report : EventReport
dinner_report = record {
  event_id = 5;
  event_title = "dinner";
  restaurant_id = 3;
  starts_at = 1000;
  tickets_sold = 2;
  revenue_minor_units = pos 700;
  currency = "LKR";
  tier_breakdown =
      record {
        ticket_tier_id = 8;
        ticket_tier_name = "terrace";
        sold = 1;
        revenue_minor_units = 500;
      }
      ∷ record {
        ticket_tier_id = 9;
        ticket_tier_name = "hall";
        sold = 1;
        revenue_minor_units = 300;
      }
      ∷ [];
  food_item_summary = [];
  rating_summary = record { average = none; count = 0 };
}

event_report-tiers_example :
    (sum_by (λ t. t.sold) dinner_report.tier_breakdown ≡ 2)
    × (sum_by (λ t. t.revenue_minor_units) dinner_report.tier_breakdown ≡ 800)
unfolding event_report fetch_event fetch_orders
event_report-tiers_example =
    event_report-tiers upstream 5 1 dinner_report (bought ∷ cancelled_order ∷ []) refl refl
      (refl, (refl, tt))

restaurant_report_lem_example :
    (r : RestaurantReport) × (restaurant_report upstream 3 1 ≡ ok r)
    × AreRows upstream 1 (dinner ∷ brunch ∷ []) r.events
    × (r.event_count ≡ length r.events)
    × (r.tickets_sold ≡ sum_by (λ x. x.tickets_sold) r.events)
    × (r.revenue_minor_units ≡ total_by (λ x. x.revenue_minor_units) r.events)
restaurant_report_lem_example =
    restaurant_report_lem upstream 3 1 (record { id = 3; name = "Bay" })
      (record { items = dinner ∷ brunch ∷ []; total = 2; page = 1; page_size = 100 }) refl refl
