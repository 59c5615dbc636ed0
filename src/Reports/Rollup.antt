-- ===== src/Reports/Rollup.antt =====
-- The report of a restaurant is the sum of those of its events, whichever of these fail.
use ceylon_events.Common.{
  ℕ, pos, ◌≡◌, refl, sym, Option, List, [], ◌∷◌, map, length, sum_by, total_by, arith, body, ok,
  err, sum_by-map, total_by-map, Exception,
}
use ceylon_events.Reports.Types.{
  UpstreamEvent, EventReport, UpstreamPaginated, UpstreamRestaurant, RestaurantReport,
  RestaurantReportEvent, Upstream, Reason,
}
use ceylon_events.Reports.{
  event_row, report_or_null, restaurant_report_of, restaurant_report, event_report,
  fetch_restaurant, fetch_events,
}

module _ (u : Upstream) where
  -- The row of an event has the figures of its report, or zeros.
  unfoldable pub IsRow : ℕ → UpstreamEvent → RestaurantReportEvent → Type 0
  IsRow authorization event x =
      (x.event_id ≡ event.id)
      × ((r : EventReport)
          → event_report u event.id authorization ≡ ok r
          → (x.tickets_sold ≡ r.tickets_sold) × (x.revenue_minor_units ≡ r.revenue_minor_units))
      × ((e : Exception Reason)
          → event_report u event.id authorization ≡ err e
          → (x.tickets_sold ≡ 0) × (x.revenue_minor_units ≡ pos 0))

  unfoldable pub AreRows : ℕ → List UpstreamEvent → List RestaurantReportEvent → Type 0
  unfolding IsRow
  AreRows a [] [] = Unit
  AreRows a [] (x ∷ xs) = ⊥
  AreRows a (e ∷ es) [] = ⊥
  AreRows a (e ∷ es) (x ∷ xs) = IsRow a e x × AreRows a es xs

  rows-AreRows :
      (a : ℕ) (es : List UpstreamEvent)
      → AreRows a es (map (event_row u) (map (λ e. (e, report_or_null u a e)) es))
  unfolding AreRows IsRow
  rows-AreRows a [] = tt
  rows-AreRows a (e ∷ es) =
      ((refl, λ r h. ground (arith, h), λ x h. ground (arith, h)), rows-AreRows a es)

  rows-length :
      (a : ℕ) (es : List UpstreamEvent)
      → length es ≡ length (map (event_row u) (map (λ e. (e, report_or_null u a e)) es))
  rows-length a [] = refl
  rows-length a (e ∷ es) = omega (arith, rows-length a es)

  -- Where restaurant-service and event-service answer, the report of a restaurant is made, though
  -- reports of its events fail: it has a row for every event of the page, with the figures of that
  -- event's report, or with zeros where that failed; and its own figures are the sums of the rows.
  pub restaurant_report_lem :
      (restaurant_id a : ℕ) (restaurant : UpstreamRestaurant)
      (page : UpstreamPaginated UpstreamEvent)
      → u.get_restaurant restaurant_id a ≡ body restaurant
      → u.get_restaurant_events restaurant_id 100 a ≡ body page
      → (r : RestaurantReport) × (restaurant_report u restaurant_id a ≡ ok r)
        × AreRows a page.items r.events
        × (r.event_count ≡ length r.events)
        × (r.tickets_sold ≡ sum_by (λ x. x.tickets_sold) r.events)
        × (r.revenue_minor_units ≡ total_by (λ x. x.revenue_minor_units) r.events)
  unfolding restaurant_report fetch_restaurant fetch_events
  restaurant_report_lem restaurant_id a restaurant page at events_at =
      let reports : List (UpstreamEvent × Option EventReport) =
        map (λ e. (e, report_or_null u a e)) page.items in
      (
        restaurant_report_of u restaurant_id a restaurant page,
        ground (arith, at, events_at),
        rows-AreRows a page.items,
        rows-length a page.items,
        sym (sum_by-map (λ x. x.tickets_sold) (event_row u) reports),
        sym (total_by-map (λ x. x.revenue_minor_units) (event_row u) reports),
      )
