-- ===== src/Reports/Tiers.antt =====
-- The tier rows of an event's report add up to its sales.
use ceylon_events.Common.{
  ℕ, ◌≡◌, refl, sym, subst, ◌∙◌, List, [], ◌∷◌, keep, length, count, sum_by, All, arith, body, ok,
  sum_by-map, sum_by-cong, sum_by-parts, length-sum_by, length-append, Result-cases, inl, inr,
}
use ceylon_events.Reports.Types.{
  UpstreamOrderItemForReport, UpstreamOrderForReport, UpstreamEvent, UpstreamTicketTier,
  EventReport, Upstream,
}
use ceylon_events.Reports.{
  is_counted, items_of, of_tier, tier_row, tiers_of, report_of, event_report, fetch_event,
  fetch_orders,
}

length-items_of :
    (os : List UpstreamOrderForReport) → length (items_of os) ≡ sum_by (λ o. length o.items) os
length-items_of [] = refl
length-items_of (o ∷ os) = omega (arith, length-append o.items (items_of os), length-items_of os)

tickets_by_tier :
    (ts : List UpstreamTicketTier) (is : List UpstreamOrderItemForReport)
    → All (λ i. count (λ t. of_tier t i) ts ≡ 1) is
    → sum_by (λ t. length (keep (of_tier t) is)) ts ≡ length is
tickets_by_tier ts is one =
    sum_by-cong (λ t. length (keep (of_tier t) is)) (λ t. sum_by (λ i. 1) (keep (of_tier t) is))
      (λ t. length-sum_by (keep (of_tier t) is)) ts
    ∙ sum_by-parts of_tier (λ i. 1) ts is one
    ∙ sym (length-sum_by is)

module _ (u : Upstream) where
  event_report-ok :
      (event_id authorization : ℕ) (r : EventReport) (orders : List UpstreamOrderForReport)
      → event_report u event_id authorization ≡ ok r
      → u.get_orders_by_event event_id authorization ≡ body orders
      → (event : UpstreamEvent) × (r ≡ report_of u event_id authorization event orders)
  unfolding event_report fetch_orders
  event_report-ok event_id authorization r orders h at =
      elim (Result-cases (fetch_event (u.get_event event_id authorization))) [
        | inl (event, e) ↦ (event, ground (arith, e, at))
        | inr (x, e) ↦ absurd (ground (arith, e))
      ]

  -- If every item of a confirmed or paid order is of exactly one of the tiers that event-service
  -- lists, then in the report of an event the tickets of the tiers add up to the tickets sold, and
  -- the revenues of the tiers add up to the prices of those items.
  pub event_report-tiers :
      (event_id authorization : ℕ) (r : EventReport) (orders : List UpstreamOrderForReport)
      → event_report u event_id authorization ≡ ok r
      → u.get_orders_by_event event_id authorization ≡ body orders
      → let counted = items_of (keep is_counted orders) in
        All (λ i. count (λ t. of_tier t i) (tiers_of u event_id authorization) ≡ 1) counted
        → (sum_by (λ t. t.sold) r.tier_breakdown ≡ r.tickets_sold)
          × (sum_by (λ t. t.revenue_minor_units) r.tier_breakdown
              ≡ sum_by (λ i. i.price_minor_units) counted)
  event_report-tiers event_id authorization r orders h at one =
      let tiers = tiers_of u event_id authorization in
      let counted = items_of (keep is_counted orders) in
      let (event, same) = event_report-ok event_id authorization r orders h at in
      subst
        (λ x.
          (sum_by (λ t. t.sold) x.tier_breakdown ≡ x.tickets_sold)
          × (sum_by (λ t. t.revenue_minor_units) x.tier_breakdown
              ≡ sum_by (λ i. i.price_minor_units) counted))
        (sym same)
        (
          sum_by-map (λ t. t.sold) (tier_row counted) tiers
              ∙ tickets_by_tier tiers counted one
              ∙ length-items_of (keep is_counted orders),
          sum_by-map (λ t. t.revenue_minor_units) (tier_row counted) tiers
              ∙ sum_by-parts of_tier (λ i. i.price_minor_units) tiers counted one,
        )
