-- ===== src/Tests/Dining.antt =====
-- food-order-service on one ticket, one table and one dish.
use ceylon_events.Common.{
  ℕ, ◌+◌, ◌≡◌, refl, true, none, some, List, [], ◌∷◌, arith, ok, body, no_clash,
}
use ceylon_events.Common.Memory.{memory, memory-IsRepository}
use ceylon_events.Shared.{
  JwtAccessPayload, OrderStatus, SeatStatus, received, ready, waiter, can_manage_restaurant,
}
use ceylon_events.Venue.Tables.{aggregate_table_statuses, aggregate_from, table_status}
use ceylon_events.Food.Types.{
  FoodPreOrder, FoodPreOrderItem, FoodPreOrderSnapshot, SubmitFoodPreOrder, SubmitWaiterFoodOrder,
  UpstreamOrder, UpstreamOrderItem, UpstreamEvent, UpstreamMenuItem, UpstreamTable, Upstream,
  Database, State, same_food_order,
}
use ceylon_events.Food.{
  fetch_order_as_caller, fetch_event, fetch_menu, fetch_seat_map_snapshot, fetch_availability,
  with_items,
}
use ceylon_events.Food.Menu.{PreparedFood, resolve_menu_items, resolve, insert_items, stored}
use ceylon_events.Food.Submit.{submit}
use ceylon_events.Food.Submit.Replaced.{NoOrphans, submit_lem, IsReplaced}
use ceylon_events.Food.Kitchen.{bulk_update_status}
use ceylon_events.Food.Kitchen.Workflow.{Reaches, bulk_update_status_lem}
use ceylon_events.Food.Waiter.{create_waiter_order, create_new, booked_table, place}
use ceylon_events.Food.Waiter.Repeated.{UniqueKeys, create_waiter_order-again}

abbrev seat_item : UpstreamOrderItem
seat_item = record { id = 6; seat_id = some 2; seat_label = some "A2" }

abbrev order_40 : UpstreamOrder
order_40 = record {
  id = 40;
  buyer_id = 70;
  event_id = 5;
  status = OrderStatus.confirmed;
  items = seat_item ∷ [];
}

abbrev gala : UpstreamEvent
gala = record { id = 5; restaurant_id = 3; seat_map_version_id = some 8; starts_at = 9000000 }

abbrev kottu : UpstreamMenuItem
kottu = record { id = 11; name = "Kottu"; price_minor_units = 120000; is_available = true }

abbrev table_4 : UpstreamTable
table_4 = record { id = 4; table_number = "T4"; seats = 2 ∷ [] }

-- Only what is published is counted.
abbrev upstream : Upstream ℕ
upstream = record {
  get_order = λ id authorization. body order_40;
  get_event = λ id. body gala;
  get_menu = λ id. body (record { items = kottu ∷ [] } ∷ []);
  get_snapshot = λ version. body (table_4 ∷ []);
  get_availability = λ version. body (λ seat. some SeatStatus.sold);
  post_notification = λ notice n. n;
  publish = λ event snapshot n. n + 1;
}

abbrev database : Database
database = record {
  food_orders = memory (λ o. o.id) same_food_order;
  items = memory (λ i. i.id) no_clash;
}

abbrev empty_kitchen : State ℕ
empty_kitchen = record { food_orders = []; items = []; world = 0 }

abbrev two_kottu : List PreparedFood
two_kottu =
    record {
      menu_item_id = 11;
      menu_item_name = "Kottu";
      quantity = 2;
      notes = none;
      price_minor_units = 120000;
    }
    ∷ []

abbrev asked : SubmitFoodPreOrder
asked = record {
  order_id = 40;
  items = record { menu_item_id = 11; quantity = 2; notes = none } ∷ [];
}

empty_kitchen-NoOrphans : NoOrphans empty_kitchen
unfolding NoOrphans
empty_kitchen-NoOrphans k i at = cc

submit_lem_example :
    (snap : FoodPreOrderSnapshot) × (s' : State ℕ) × (submit 120 upstream database 6 asked 1 0
        empty_kitchen
      ≡ (ok snap, s'))
    × IsReplaced 120 upstream database 6 two_kottu snap empty_kitchen s'
unfolding fetch_order_as_caller fetch_event fetch_menu resolve_menu_items resolve
submit_lem_example =
    submit_lem 120 upstream database (memory-IsRepository (λ o. o.id) same_food_order)
      (memory-IsRepository (λ i. i.id) no_clash) 6 asked 1 0 empty_kitchen order_40 seat_item gala
      two_kottu empty_kitchen-NoOrphans refl refl refl refl refl refl

abbrev waiter_80 : JwtAccessPayload
waiter_80 = record { sub = 80; roles = []; restaurant_id = some 3 }

abbrev tapped : SubmitWaiterFoodOrder
tapped = record {
  event_id = 5;
  table_id = 4;
  items = record { menu_item_id = 11; quantity = 2; notes = none } ∷ [];
  notes = none;
  client_request_id = some "K";
}

abbrev at_table_4 : FoodPreOrder
at_table_4 = record {
  id = 0;
  order_id = none;
  order_item_id = none;
  event_id = 5;
  restaurant_id = 3;
  buyer_id = none;
  seat_id = none;
  seat_label = none;
  table_id = some 4;
  table_number = some "T4";
  status = received;
  source = waiter;
  created_by_user_id = some 80;
  notes = none;
  client_request_id = some "K";
}

abbrev plate : FoodPreOrderItem
plate = record {
  id = 0;
  food_pre_order_id = 0;
  menu_item_id = 11;
  menu_item_name = "Kottu";
  quantity = 2;
  notes = none;
  price_minor_units = 120000;
}

abbrev at_work : State ℕ
at_work = record { food_orders = at_table_4 ∷ []; items = plate ∷ []; world = 1 }

abbrev shown : FoodPreOrderSnapshot
shown = record { order = at_table_4; items = plate ∷ [] }

at_work-UniqueKeys : UniqueKeys at_work
unfolding UniqueKeys
at_work-UniqueKeys a b key here there first second = ground arith

create_waiter_order-again_example :
    create_waiter_order upstream database (λ s. s) tapped waiter_80 at_work
    ≡ (ok (with_items upstream database at_table_4 at_work), at_work)
unfolding create_waiter_order create_new booked_table place fetch_event fetch_seat_map_snapshot
    fetch_availability can_manage_restaurant fetch_menu resolve_menu_items resolve insert_items
    stored aggregate_table_statuses aggregate_from table_status
create_waiter_order-again_example =
    create_waiter_order-again upstream database (memory-IsRepository (λ o. o.id) same_food_order)
      (memory-IsRepository (λ i. i.id) no_clash) "K" (λ s. s) (λ s. s) tapped tapped waiter_80
      waiter_80 empty_kitchen at_work shown refl refl refl at_work-UniqueKeys

bulk_update_status_lem_example :
    Reaches
      (0 ∷ [])
      ready
      waiter_80
      at_work
      (bulk_update_status true upstream database (0 ∷ []) ready waiter_80 at_work).1
bulk_update_status_lem_example =
    (bulk_update_status_lem true upstream database (memory-IsRepository (λ o. o.id) same_food_order)
      (0 ∷ []) ready waiter_80 at_work).0
