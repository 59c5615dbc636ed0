-- ===== src/Orders/Reports.antt =====
-- What administrators read of all orders: `findAll` and `platformTotals` of
-- services/order-service/src/orders/orders.service.ts.
use ceylon_events.Common.{ℕ, ℤ, total_by, Bool, true, false, map, length, String}
use ceylon_events.Shared.{OrderStatus, is_confirmed_order, PaginatedResult, paginated}
use ceylon_events.Orders.Types.{OrderWithItems, State}
use ceylon_events.Orders.Upstream.{Upstream, Database}
use ceylon_events.Orders.Lifecycle.{with_items}

pub record PlatformTotals : Type 0 where
  pub total_orders : ℕ
  pub confirmed_orders : ℕ
  pub total_revenue_minor_units : ℤ
  pub currency : String

-- CONFIRMED or PAID
abbrev is_revenue : OrderStatus → Bool
is_revenue s = elim s [ OrderStatus.confirmed ↦ true | OrderStatus.paid ↦ true | _ ↦ false ]

module _ {W : Type 0} (u : Upstream W) (db : Database) where
  pub find_all : ℕ → ℕ → State W → PaginatedResult OrderWithItems
  find_all page page_size s =
      paginated page page_size
        (map (λ o. with_items u db o s) (db.orders.find (λ o. true) s.orders))

  -- No row to sum is a total of nothing.
  pub platform_totals : State W → PlatformTotals
  platform_totals s = record {
    total_orders = length (db.orders.find (λ o. true) s.orders);
    confirmed_orders = length (db.orders.find (λ o. is_confirmed_order o.status) s.orders);
    total_revenue_minor_units =
        total_by (λ o. o.total_minor_units) (db.orders.find (λ o. is_revenue o.status) s.orders);
    currency = "LKR";
  }
