-- ===== src/Reports.antt =====
-- services/reporting-service/src/reports/reports.service.ts, method by method. The service has no data of its
-- own: a report is made of what the other services answer.
pub mod Types
pub mod Tiers
pub mod Rollup
use ceylon_events.Common.{
  ℕ, ℤ, pos, Bool, true, false, Option, none, some, List, [], ◌∷◌, ◌++◌, map, keep, length, sum_by,
  total_by, find?, ◌==◌, or_else, is_some, if◌then◌else◌, String, Response, body, status,
  unreachable, Result, ok, err, not_found, forbidden, bad_gateway, internal_error,
}
use ceylon_events.Shared.{OrderStatus}
use Types.{
  UpstreamEvent, UpstreamTicketTier, UpstreamOrderItemForReport, UpstreamOrderForReport,
  UpstreamRatingSummary, UpstreamPaginated, UpstreamRestaurant, EventReportTierBreakdown,
  EventReport, RestaurantReportEvent, RestaurantReport, PlatformTotals, Reason, Upstream,
  event_not_found, event_service_unavailable, may_not_view, order_service_unavailable,
  restaurant_not_found, restaurant_service_unavailable,
}

-- `get`, whose error nobody catches.
abbrev get : {A : Type 0} → Response A → Result Reason A
get (body a) = ok a
get (status n) = err internal_error
get unreachable = err internal_error

abbrev pub get_or_null : {A : Type 0} → Response A → Option A
get_or_null (body a) = some a
get_or_null (status n) = none
get_or_null unreachable = none

unfoldable pub fetch_event : Response UpstreamEvent → Result Reason UpstreamEvent
fetch_event (body event) = ok event
fetch_event (status n) =
    if n == 404
    then err (not_found event_not_found)
    else err (bad_gateway event_service_unavailable)
fetch_event unreachable = err (bad_gateway event_service_unavailable)

unfoldable pub fetch_orders :
    Response (List UpstreamOrderForReport) → Result Reason (List UpstreamOrderForReport)
fetch_orders (body orders) = ok orders
fetch_orders (status n) =
    if n == 403 then err (forbidden may_not_view) else err (bad_gateway order_service_unavailable)
fetch_orders unreachable = err (bad_gateway order_service_unavailable)

unfoldable pub fetch_restaurant : Response UpstreamRestaurant → Result Reason UpstreamRestaurant
fetch_restaurant (body restaurant) = ok restaurant
fetch_restaurant (status n) =
    if n == 404
    then err (not_found restaurant_not_found)
    else err (bad_gateway restaurant_service_unavailable)
fetch_restaurant unreachable = err (bad_gateway restaurant_service_unavailable)

unfoldable pub fetch_events :
    Response (UpstreamPaginated UpstreamEvent) → Result Reason (UpstreamPaginated UpstreamEvent)
fetch_events (body events) = ok events
fetch_events (status n) = err (bad_gateway event_service_unavailable)
fetch_events unreachable = err (bad_gateway event_service_unavailable)

-- CONFIRMED or PAID
abbrev pub is_counted : UpstreamOrderForReport → Bool
is_counted o = elim o.status [ OrderStatus.confirmed ↦ true | OrderStatus.paid ↦ true | _ ↦ false ]

-- `orders.flatMap((order) => order.items)`
abbrev pub items_of : List UpstreamOrderForReport → List UpstreamOrderItemForReport
items_of [] = []
items_of (o ∷ os) = o.items ++ items_of os

-- `orders[0]?.currency ?? "LKR"`
abbrev first_currency : List UpstreamOrderForReport → String
first_currency [] = "LKR"
first_currency (o ∷ os) = o.currency

abbrev pub of_tier : UpstreamTicketTier → UpstreamOrderItemForReport → Bool
of_tier tier item = item.ticket_tier_id == tier.id

abbrev pub tier_row :
    List UpstreamOrderItemForReport → UpstreamTicketTier → EventReportTierBreakdown
tier_row counted tier =
    let items = keep (of_tier tier) counted in
    record {
      ticket_tier_id = tier.id;
      ticket_tier_name = tier.name;
      sold = length items;
      revenue_minor_units = sum_by (λ i. i.price_minor_units) items;
    }

abbrev no_ratings : UpstreamRatingSummary
no_ratings = record { average = none; count = 0 }

module _ (u : Upstream) where
  abbrev pub tiers_of : ℕ → ℕ → List UpstreamTicketTier
  tiers_of event_id authorization =
      or_else (get_or_null (u.get_ticket_tiers event_id authorization)) []

  abbrev pub report_of : ℕ → ℕ → UpstreamEvent → List UpstreamOrderForReport → EventReport
  report_of event_id authorization event orders =
      let counted_orders = keep is_counted orders in
      record {
        event_id = event.id;
        event_title = event.title;
        restaurant_id = event.restaurant_id;
        starts_at = event.starts_at;
        tickets_sold = sum_by (λ o. length o.items) counted_orders;
        revenue_minor_units = total_by (λ o. o.total_minor_units) counted_orders;
        currency = first_currency orders;
        tier_breakdown = map (tier_row (items_of counted_orders)) (tiers_of event_id authorization);
        food_item_summary = or_else (get_or_null (u.get_food_summary event_id authorization)) [];
        rating_summary = or_else (get_or_null (u.get_event_rating event_id)) no_ratings;
      }

  unfoldable pub event_report : ℕ → ℕ → Result Reason EventReport
  unfolding fetch_event fetch_orders
  event_report event_id authorization = elim (fetch_event (u.get_event event_id authorization)) [
    | err e ↦ err e
    | ok event ↦ elim (fetch_orders (u.get_orders_by_event event_id authorization)) [
      | err e ↦ err e
      | ok orders ↦ ok (report_of event_id authorization event orders)
    ]
  ]

  -- `.catch(() => null)`
  abbrev pub report_or_null : ℕ → UpstreamEvent → Option EventReport
  report_or_null authorization event = elim (event_report event.id authorization) [
    | ok report ↦ some report
    | err e ↦ none
  ]

  abbrev pub tickets_of : Option EventReport → ℕ
  tickets_of report = elim report [ some r ↦ r.tickets_sold | none ↦ 0 ]

  abbrev pub revenue_of : Option EventReport → ℤ
  revenue_of report = elim report [ some r ↦ r.revenue_minor_units | none ↦ pos 0 ]

  abbrev currency_of : List (UpstreamEvent × Option EventReport) → String
  currency_of [] = "LKR"
  currency_of ((event, report) ∷ rest) = elim report [
    | some r ↦ r.currency
    | none ↦ currency_of rest
  ]

  abbrev pub event_row : UpstreamEvent × Option EventReport → RestaurantReportEvent
  event_row e = record {
    event_id = e.0.id;
    event_title = e.0.title;
    starts_at = e.0.starts_at;
    tickets_sold = tickets_of e.1;
    revenue_minor_units = revenue_of e.1;
  }

  abbrev pub restaurant_report_of :
      ℕ → ℕ → UpstreamRestaurant → UpstreamPaginated UpstreamEvent → RestaurantReport
  restaurant_report_of restaurant_id authorization restaurant events_page =
      let events = map (λ e. (e, report_or_null authorization e)) events_page.items in
      record {
        restaurant_id = restaurant.id;
        restaurant_name = restaurant.name;
        event_count = length events_page.items;
        tickets_sold = sum_by (λ e. tickets_of e.1) events;
        revenue_minor_units = total_by (λ e. revenue_of e.1) events;
        currency = currency_of events;
        rating_summary = or_else (get_or_null (u.get_restaurant_rating restaurant_id)) no_ratings;
        events = map event_row events;
      }

  unfoldable pub restaurant_report : ℕ → ℕ → Result Reason RestaurantReport
  unfolding fetch_restaurant fetch_events
  restaurant_report restaurant_id authorization =
      elim (fetch_restaurant (u.get_restaurant restaurant_id authorization)) [
        | err e ↦ err e
        | ok restaurant ↦
            elim (fetch_events (u.get_restaurant_events restaurant_id 100 authorization)) [
              | err e ↦ err e
              | ok events_page ↦
                  ok (restaurant_report_of restaurant_id authorization restaurant events_page)
            ]
      ]

  unfoldable pub platform_totals : ℕ → Result Reason PlatformTotals
  platform_totals authorization = elim (get (u.get_platform_totals authorization)) [
    | err e ↦ err e
    | ok order_totals ↦ elim (get (u.get_restaurants 1 authorization)) [
      | err e ↦ err e
      | ok restaurants ↦ elim (get (u.get_events 1 authorization)) [
        | err e ↦ err e
        | ok events ↦ ok (record {
          total_orders = order_totals.total_orders;
          confirmed_orders = order_totals.confirmed_orders;
          total_revenue_minor_units = order_totals.total_revenue_minor_units;
          currency = order_totals.currency;
          total_restaurants = restaurants.total;
          total_events = events.total;
        })
      ]
    ]
  ]
