-- ===== src/Food/Kitchen.antt =====
-- The reads and the status workflow of services/food-order-service/src/food-orders/food-orders.service.ts.
pub mod Workflow
use ceylon_events.Common.{
  ℕ, ◌+◌, Bool, true, false, not, ◌&&◌, Option, none, some, List, [], ◌∷◌, ◌==◌, map, has_value,
  if◌then◌else◌, str_eq, Action, not_found, forbidden, pure, gets, lift, modify, throw_if, or_throw,
  ◌>>=◌, ◌>>◌, row,
}
use ceylon_events.Shared.{
  FoodOrderStatus, received, preparing, ready, served, is_ready, JwtAccessPayload,
  can_manage_restaurant,
}
use ceylon_events.Food.Types.{
  FoodPreOrder, FoodPreOrderItem, FoodPreOrderSnapshot, MenuItemAggregate, Reason, Notice, Upstream,
  Database, State, may_not_view, may_not_view_event, may_not_view_summary, food_pre_order_not_found,
  food_order_not_found, may_not_manage_pre_orders, may_not_manage,
}
use ceylon_events.Food.{fetch_event, with_items, find_for_ticket, save_food_order, publish}

abbrev is_hidden : JwtAccessPayload → FoodPreOrder → Bool
is_hidden caller order =
    not (has_value order.buyer_id caller.sub)
    && not (can_manage_restaurant caller order.restaurant_id)

abbrev same_status : FoodOrderStatus → FoodOrderStatus → Bool
same_status received s = elim s [ received ↦ true | _ ↦ false ]
same_status preparing s = elim s [ preparing ↦ true | _ ↦ false ]
same_status ready s = elim s [ ready ↦ true | _ ↦ false ]
same_status served s = elim s [ served ↦ true | _ ↦ false ]

-- A filter that is not given lets all rows through.
abbrev passes : Option FoodOrderStatus → Option ℕ → FoodPreOrder → Bool
passes none none o = true
passes (some status) none o = same_status status o.status
passes none (some table) o = has_value o.table_id table
passes (some status) (some table) o = same_status status o.status && has_value o.table_id table

-- One more item in the sums, by id and name.
add_item : FoodPreOrderItem → List MenuItemAggregate → List MenuItemAggregate
add_item i [] =
    record {
      menu_item_id = i.menu_item_id;
      menu_item_name = i.menu_item_name;
      total_quantity = i.quantity;
    }
    ∷ []
add_item i (a ∷ sums) =
    let rest = add_item i sums in
    if a.menu_item_id == i.menu_item_id && str_eq a.menu_item_name i.menu_item_name
    then record a { total_quantity = a.total_quantity + i.quantity } ∷ sums
    else a ∷ rest

sums_of : List FoodPreOrderItem → List MenuItemAggregate
unfolding add_item
sums_of [] = []
sums_of (i ∷ items) = add_item i (sums_of items)

abbrev is_of_event : ℕ → Option FoodPreOrder → Bool
is_of_event event_id none = false
is_of_event event_id (some o) = o.event_id == event_id

module _ {W : Type 0} (configured : Bool) (u : Upstream W) (db : Database) where
  abbrev show_unless_hidden :
      JwtAccessPayload → Option FoodPreOrder → Action (State W) Reason (Option FoodPreOrderSnapshot)
  show_unless_hidden caller none = pure none
  show_unless_hidden caller (some order) = do
    throw_if (is_hidden caller order) (forbidden may_not_view)
    gets (λ s. some (with_items u db order s))

  pub get_for_order_item :
      ℕ → JwtAccessPayload → Action (State W) Reason (Option FoodPreOrderSnapshot)
  get_for_order_item order_item_id caller = do
    found ← gets (find_for_ticket u db order_item_id)
    show_unless_hidden caller found

  pub list_for_event :
      ℕ
      → Option FoodOrderStatus
      → JwtAccessPayload
      → Option ℕ
      → Action (State W) Reason (List FoodPreOrderSnapshot)
  list_for_event event_id status caller table_id = do
    event ← lift (fetch_event (u.get_event event_id))
    throw_if (not (can_manage_restaurant caller event.restaurant_id)) (forbidden may_not_view_event)
    gets λ s.
        map (λ o. with_items u db o s)
          (db.food_orders.find (λ o. o.event_id == event_id && passes status table_id o)
            s.food_orders)

  -- The items whose order is for the event, as the query joins them.
  pub summary_for_event : ℕ → JwtAccessPayload → Action (State W) Reason (List MenuItemAggregate)
  unfolding sums_of
  summary_for_event event_id caller = do
    event ← lift (fetch_event (u.get_event event_id))
    throw_if (not (can_manage_restaurant caller event.restaurant_id))
        (forbidden may_not_view_summary)
    gets λ s. sums_of (
        db.items.find
          (λ i. is_of_event event_id (row (λ o. o.id) i.food_pre_order_id s.food_orders)) s.items)

  pub notify_buyer : Notice → State W → State W
  notify_buyer notice s =
      if configured then record s { world = u.post_notification notice s.world } else s

  abbrev tell : FoodPreOrder → Option ℕ → State W → State W
  tell order none s = s
  tell order (some buyer_id) s =
      notify_buyer
        (record {
          user_id = buyer_id;
          order_item_id = order.order_item_id;
          event_id = order.event_id;
        })
        s

  pub notify_if_ready : FoodPreOrder → State W → State W
  unfolding notify_buyer
  notify_if_ready order s = if is_ready order.status then tell order order.buyer_id s else s

  pub check_owned :
      Reason
      → Reason
      → JwtAccessPayload
      → Option FoodPreOrder
      → Action (State W) Reason FoodPreOrder
  check_owned missing refused caller found = do
    order ← or_throw found (not_found missing)
    throw_if (not (can_manage_restaurant caller order.restaurant_id)) (forbidden refused)
    pure order

  pub get_owned_by_order_item_or_throw : ℕ → JwtAccessPayload → Action (State W) Reason FoodPreOrder
  unfolding check_owned
  get_owned_by_order_item_or_throw order_item_id caller = do
    found ← gets (find_for_ticket u db order_item_id)
    check_owned food_pre_order_not_found may_not_manage_pre_orders caller found

  pub get_owned_by_id_or_throw : ℕ → JwtAccessPayload → Action (State W) Reason FoodPreOrder
  unfolding check_owned
  get_owned_by_id_or_throw id caller = do
    found ← gets (λ s. db.food_orders.find_one (λ o. o.id == id) s.food_orders)
    check_owned food_order_not_found may_not_manage caller found

  pub move_to : FoodOrderStatus → FoodPreOrder → Action (State W) Reason FoodPreOrderSnapshot
  unfolding notify_if_ready
  move_to status order = do
    let moved : FoodPreOrder = record order { status = status }
    modify (save_food_order u db moved)
    modify (notify_if_ready moved)
    snapshot ← gets (with_items u db moved)
    modify (publish u db moved.event_id snapshot)
    pure snapshot

  pub update_status :
      ℕ → FoodOrderStatus → JwtAccessPayload → Action (State W) Reason FoodPreOrderSnapshot
  unfolding get_owned_by_order_item_or_throw move_to
  update_status order_item_id status caller = do
    order ← get_owned_by_order_item_or_throw order_item_id caller
    move_to status order

  pub update_status_by_id :
      ℕ → FoodOrderStatus → JwtAccessPayload → Action (State W) Reason FoodPreOrderSnapshot
  unfolding get_owned_by_id_or_throw move_to
  update_status_by_id id status caller = do
    order ← get_owned_by_id_or_throw id caller
    move_to status order

  -- Orders before one that fails stay updated.
  pub bulk_update_status :
      List ℕ
      → FoodOrderStatus
      → JwtAccessPayload
      → Action (State W) Reason (List FoodPreOrderSnapshot)
  unfolding update_status_by_id
  bulk_update_status [] status caller = pure []
  bulk_update_status (id ∷ ids) status caller = do
    snapshot ← update_status_by_id id status caller
    snapshots ← bulk_update_status ids status caller
    pure (snapshot ∷ snapshots)

  pub assert_can_manage_event : ℕ → JwtAccessPayload → Action (State W) Reason (Unit {0})
  assert_can_manage_event event_id caller = do
    event ← lift (fetch_event (u.get_event event_id))
    throw_if (not (can_manage_restaurant caller event.restaurant_id)) (forbidden may_not_view_event)
