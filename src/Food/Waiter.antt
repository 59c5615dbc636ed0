-- ===== src/Food/Waiter.antt =====
-- `createWaiterOrder` of services/food-order-service/src/food-orders/food-orders.service.ts: an order at a
-- booked table.
pub mod Repeated
use ceylon_events.Common.{
  ℕ, Bool, true, false, not, Option, none, some, List, [], ◌∷◌, ◌==◌, find?, map, if◌then◌else◌,
  String, str_eq, Action, ok, err, not_found, forbidden, bad_request, bad_gateway, internal_error,
  pure, gets, lift, modify, throw, throw_if, or_throw, ◌>>=◌, ◌>>◌,
}
use ceylon_events.Shared.{
  FoodOrderStatus, received, FoodOrderSource, waiter, JwtAccessPayload, can_manage_restaurant,
}
use ceylon_events.Venue.Tables.{TableBookingStatus, booked, TableInput, aggregate_table_statuses}
use ceylon_events.Food.Types.{
  FoodPreOrder, FoodPreOrderSnapshot, SubmitWaiterFoodOrder, UpstreamEvent, UpstreamTable, Reason,
  Upstream, Database, State, may_not_create, no_table_map, table_not_found,
  venue_service_unavailable, table_not_booked,
}
use ceylon_events.Food.{
  fetch_event, fetch_seat_map_snapshot, fetch_availability, with_items, insert_food_order, publish,
}
use ceylon_events.Food.Menu.{PreparedFood, resolve_menu_items, insert_items}

-- A key that is absent or empty counts as none.
abbrev pub key_of : Option String → Option String
key_of none = none
key_of (some key) = if str_eq key "" then none else some key

abbrev pub has_key : String → Option String → Bool
has_key key none = false
has_key key (some k) = str_eq k key

abbrev pub is_booked : Option TableBookingStatus → Bool
is_booked none = false
is_booked (some s) = elim s [ TableBookingStatus.booked ↦ true | _ ↦ false ]

abbrev table_input : UpstreamTable → TableInput
table_input table = record { id = table.id; seats = table.seats }

abbrev find_table : ℕ → Option (List UpstreamTable) → Option UpstreamTable
find_table id none = none
find_table id (some tables) = find? (λ t. t.id == id) tables

abbrev tables_of : Option (List UpstreamTable) → List UpstreamTable
tables_of none = []
tables_of (some tables) = tables

module _ {W : Type 0} (u : Upstream W) (db : Database) where
  abbrev pub find_by_key : Option String → State W → Option FoodPreOrder
  find_by_key none s = none
  find_by_key (some key) s =
      db.food_orders.find_one (λ o. has_key key o.client_request_id) s.food_orders

  -- The table, if it is on the map of the event and booked.
  unfoldable pub booked_table : UpstreamEvent → ℕ → Action (State W) Reason UpstreamTable
  booked_table event table_id = do
    version_id ← or_throw event.seat_map_version_id (bad_request no_table_map)
    let snapshot = fetch_seat_map_snapshot (u.get_snapshot version_id)
    table ← or_throw (find_table table_id snapshot) (not_found table_not_found)
    availability ←
        or_throw (fetch_availability (u.get_availability version_id))
          (bad_gateway venue_service_unavailable)
    let statuses = aggregate_table_statuses (map table_input (tables_of snapshot)) availability
    throw_if (not (is_booked (statuses table.id))) (bad_request table_not_booked)
    pure table

  -- After a failed insert: the order that another request made with the same key.
  abbrev pub winner_or_throw : Option FoodPreOrder → Action (State W) Reason FoodPreOrderSnapshot
  winner_or_throw none = throw internal_error
  winner_or_throw (some winner) = gets (with_items u db winner)

  abbrev pub waiter_order :
      SubmitWaiterFoodOrder
      → JwtAccessPayload
      → UpstreamEvent
      → UpstreamTable
      → State W
      → FoodPreOrder
  waiter_order dto caller event table s = record {
    id = db.food_orders.fresh s.food_orders;
    order_id = none;
    order_item_id = none;
    event_id = event.id;
    restaurant_id = event.restaurant_id;
    buyer_id = none;
    seat_id = none;
    seat_label = none;
    table_id = some table.id;
    table_number = some table.table_number;
    status = received;
    source = waiter;
    created_by_user_id = some caller.sub;
    notes = dto.notes;
    client_request_id = dto.client_request_id;
  }

  abbrev pub add_items :
      FoodPreOrder → List PreparedFood → Action (State W) Reason FoodPreOrderSnapshot
  add_items order foods = do
    items ← insert_items db order.id foods
    let snapshot : FoodPreOrderSnapshot = record { order = order; items = items }
    modify (publish u db order.event_id snapshot)
    pure snapshot

  unfoldable pub place :
      SubmitWaiterFoodOrder
      → FoodPreOrder
      → List PreparedFood
      → Action (State W) Reason FoodPreOrderSnapshot
  place dto order foods s = elim (db.food_orders.insert order s.food_orders) [
    | none ↦ winner_or_throw (find_by_key (key_of dto.client_request_id) s) s
    | some table ↦ add_items order foods (record s { food_orders = table })
  ]

  -- `others` is what other requests do between the first look for the key and the insert.
  unfoldable pub create_new :
      (State W → State W)
      → SubmitWaiterFoodOrder
      → JwtAccessPayload
      → Action (State W) Reason FoodPreOrderSnapshot
  unfolding booked_table place
  create_new others dto caller = do
    event ← lift (fetch_event (u.get_event dto.event_id))
    throw_if (not (can_manage_restaurant caller event.restaurant_id)) (forbidden may_not_create)
    table ← booked_table event dto.table_id
    foods ← lift (resolve_menu_items (u.get_menu event.restaurant_id) dto.items)
    modify others
    order ← gets (waiter_order dto caller event table)
    place dto order foods

  abbrev reuse_or_create :
      (State W → State W)
      → SubmitWaiterFoodOrder
      → JwtAccessPayload
      → Option FoodPreOrder
      → Action (State W) Reason FoodPreOrderSnapshot
  reuse_or_create others dto caller none = create_new others dto caller
  reuse_or_create others dto caller (some existing) = gets (with_items u db existing)

  unfoldable pub create_waiter_order :
      (State W → State W)
      → SubmitWaiterFoodOrder
      → JwtAccessPayload
      → Action (State W) Reason FoodPreOrderSnapshot
  create_waiter_order others dto caller = do
    existing ← gets (find_by_key (key_of dto.client_request_id))
    reuse_or_create others dto caller existing
