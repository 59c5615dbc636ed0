-- ===== src/Food.antt =====
-- services/food-order-service/src/food-orders/food-orders.service.ts: what the methods share. A food
-- order is a buyer's pre-order for a ticket, or a waiter's order at a table.
pub mod Types
pub mod Menu
pub mod Submit
pub mod Waiter
pub mod Kitchen
use ceylon_events.Common.{
  ℕ, Bool, true, false, not, Option, none, some, List, [], ◌∷◌, map, ◌==◌, any, if◌then◌else◌,
  Response, body, status, unreachable, Result, Action, ok, err, not_found, forbidden, bad_gateway,
  internal_error,
}
use ceylon_events.Shared.{SeatStatus, is_ready}
use Types.{
  FoodPreOrder, FoodPreOrderItem, FoodPreOrderSnapshot, UpstreamOrder, UpstreamEvent,
  UpstreamMenuCategory, UpstreamTable, Reason, Notice, Upstream, Database, State, order_not_found,
  may_not_pre_order, order_service_error, order_service_unavailable, event_not_found,
  event_service_unavailable, restaurant_service_unavailable,
}

unfoldable pub fetch_order_as_caller : Response UpstreamOrder → Result Reason UpstreamOrder
fetch_order_as_caller (body order) = ok order
fetch_order_as_caller (status n) =
    if n == 404
    then err (not_found order_not_found)
    else if n == 403
    then err (forbidden may_not_pre_order)
    else err (bad_gateway order_service_error)
fetch_order_as_caller unreachable = err (bad_gateway order_service_unavailable)

unfoldable pub fetch_event : Response UpstreamEvent → Result Reason UpstreamEvent
fetch_event (body event) = ok event
fetch_event (status n) =
    if n == 404
    then err (not_found event_not_found)
    else err (bad_gateway event_service_unavailable)
fetch_event unreachable = err (bad_gateway event_service_unavailable)

unfoldable pub fetch_menu :
    Response (List UpstreamMenuCategory) → Result Reason (List UpstreamMenuCategory)
fetch_menu (body menu) = ok menu
fetch_menu (status n) = err (bad_gateway restaurant_service_unavailable)
fetch_menu unreachable = err (bad_gateway restaurant_service_unavailable)

unfoldable pub fetch_seat_map_snapshot : Response (List UpstreamTable) → Option (List UpstreamTable)
fetch_seat_map_snapshot (body tables) = some tables
fetch_seat_map_snapshot (status n) = none
fetch_seat_map_snapshot unreachable = none

unfoldable pub fetch_availability :
    Response (ℕ → Option SeatStatus) → Option (ℕ → Option SeatStatus)
fetch_availability (body availability) = some availability
fetch_availability (status n) = none
fetch_availability unreachable = none

abbrev pub is_of_item : ℕ → Option ℕ → Bool
is_of_item id none = false
is_of_item id (some x) = x == id

module _ {W : Type 0} (u : Upstream W) (db : Database) where
  abbrev pub with_items : FoodPreOrder → State W → FoodPreOrderSnapshot
  with_items order s = record {
    order = order;
    items = db.items.find (λ i. i.food_pre_order_id == order.id) s.items;
  }

  abbrev pub find_for_ticket : ℕ → State W → Option FoodPreOrder
  find_for_ticket item_id s =
      db.food_orders.find_one (λ o. is_of_item item_id o.order_item_id) s.food_orders

  abbrev pub save_food_order : FoodPreOrder → State W → State W
  save_food_order order s = record s { food_orders = db.food_orders.save order s.food_orders }

  abbrev pub insert_food_order : FoodPreOrder → Action (State W) Reason FoodPreOrder
  insert_food_order order s = elim (db.food_orders.insert order s.food_orders) [
    | none ↦ (err internal_error, s)
    | some table ↦ (ok order, record s { food_orders = table })
  ]

  abbrev pub publish : ℕ → FoodPreOrderSnapshot → State W → State W
  publish event_id snapshot s = record s { world = u.publish event_id snapshot s.world }
