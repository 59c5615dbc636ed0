-- ===== src/Food/Submit.antt =====
-- `submit` of services/food-order-service/src/food-orders/food-orders.service.ts: a buyer's pre-order for a
-- ticket, made or replaced.
pub mod Replaced
use ceylon_events.Common.{
  ℕ, ◌+◌, ◌*◌, Bool, true, false, Option, none, some, List, [], ◌∷◌, ◌==◌, leb, any, find?,
  if◌then◌else◌, String, Action, ok, err, not_found, bad_request, pure, gets, lift, modify,
  throw_if, or_throw, ◌>>=◌, ◌>>◌,
}
use ceylon_events.Shared.{
  OrderStatus, cancelled, refunded, FoodOrderStatus, received, FoodOrderSource, pre_order,
}
use ceylon_events.Food.Types.{
  FoodPreOrder, FoodPreOrderSnapshot, SubmitFoodPreOrder, UpstreamOrder, UpstreamOrderItem,
  UpstreamEvent, UpstreamTable, Reason, Upstream, Database, State, cancelled_order,
  ticket_not_on_order, editing_closed,
}
use ceylon_events.Food.{
  fetch_order_as_caller, fetch_event, fetch_seat_map_snapshot, find_for_ticket, save_food_order,
  insert_food_order, publish,
}
use ceylon_events.Food.Menu.{PreparedFood, resolve_menu_items, insert_items}

abbrev pub is_void : OrderStatus → Bool
is_void s = elim s [ OrderStatus.cancelled ↦ true | OrderStatus.refunded ↦ true | _ ↦ false ]

-- The first table with the seat.
unfoldable pub find_table_for_seat : List UpstreamTable → ℕ → Option UpstreamTable
find_table_for_seat tables seat_id = find? (λ t. any (λ s. s == seat_id) t.seats) tables

abbrev pub id_of : Option UpstreamTable → Option ℕ
id_of none = none
id_of (some table) = some table.id

abbrev pub number_of : Option UpstreamTable → Option String
number_of none = none
number_of (some table) = some table.table_number

abbrev table_in : Option (List UpstreamTable) → ℕ → Option UpstreamTable
table_in none seat_id = none
table_in (some tables) seat_id = find_table_for_seat tables seat_id

module _ {W : Type 0} (cutoff_minutes : ℕ) (u : Upstream W) (db : Database) where
  -- The table of the seat, where the seat, the map and the snapshot are known.
  abbrev pub table_of : Option ℕ → Option ℕ → Option UpstreamTable
  table_of none version = none
  table_of (some seat_id) none = none
  table_of (some seat_id) (some version_id) =
      table_in (fetch_seat_map_snapshot (u.get_snapshot version_id)) seat_id

  abbrev pub placed_at : UpstreamOrderItem → Option UpstreamTable → FoodPreOrder → FoodPreOrder
  placed_at item table order = record order {
    seat_id = item.seat_id;
    seat_label = item.seat_label;
    table_id = id_of table;
    table_number = number_of table;
  }

  -- The pre-order of the ticket, without the items it had.
  pub upsert :
      UpstreamOrder
      → UpstreamOrderItem
      → UpstreamEvent
      → Option UpstreamTable
      → Option FoodPreOrder
      → Action (State W) Reason FoodPreOrder
  upsert order item event table (some existing) = do
    modify (λ s. record s {
      items = db.items.remove (λ i. i.food_pre_order_id == existing.id) s.items;
    })
    modify (save_food_order u db (placed_at item table existing))
    pure (placed_at item table existing)
  upsert order item event table none = do
    id ← gets (λ s. db.food_orders.fresh s.food_orders)
    insert_food_order u db (record {
      id = id;
      order_id = some order.id;
      order_item_id = some item.id;
      event_id = order.event_id;
      restaurant_id = event.restaurant_id;
      buyer_id = some order.buyer_id;
      seat_id = item.seat_id;
      seat_label = item.seat_label;
      table_id = id_of table;
      table_number = number_of table;
      status = received;
      source = pre_order;
      created_by_user_id = none;
      notes = none;
      client_request_id = none;
    })

  -- From the resolved items on.
  pub replace :
      UpstreamOrder
      → UpstreamOrderItem
      → UpstreamEvent
      → List PreparedFood
      → Action (State W) Reason FoodPreOrderSnapshot
  unfolding upsert
  replace order item event foods = do
    existing ← gets (find_for_ticket u db item.id)
    food_order ← upsert order item event (table_of item.seat_id event.seat_map_version_id) existing
    items ← insert_items db food_order.id foods
    let snapshot : FoodPreOrderSnapshot = record { order = food_order; items = items }
    modify (publish u db order.event_id snapshot)
    pure snapshot

  -- Editing closes `cutoff_minutes` before the event starts.
  pub submit : ℕ → SubmitFoodPreOrder → ℕ → ℕ → Action (State W) Reason FoodPreOrderSnapshot
  submit order_item_id dto authorization now = do
    order ← lift (fetch_order_as_caller (u.get_order dto.order_id authorization))
    throw_if (is_void order.status) (bad_request cancelled_order)
    item ← or_throw (find? (λ i. i.id == order_item_id) order.items) (not_found ticket_not_on_order)
    event ← lift (fetch_event (u.get_event order.event_id))
    throw_if (leb event.starts_at (now + cutoff_minutes * 60000)) (bad_request editing_closed)
    foods ← lift (resolve_menu_items (u.get_menu event.restaurant_id) dto.items)
    replace order item event foods
