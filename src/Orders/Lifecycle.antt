-- ===== src/Orders/Lifecycle.antt =====
-- What happens to an order once it exists: reads, `cancel` and `confirmPayment` of
-- services/order-service/src/orders/orders.service.ts.
pub mod Methods
pub mod Status
use ceylon_events.Common.{
  ℕ, Bool, true, false, not, Option, none, some, List, [], ◌∷◌, ◌==◌, is_some, has_value, keep,
  if◌then◌else◌, Action, Result, ok, err, bad_request, forbidden, not_found, pure, gets, lift,
  modify, throw_if, or_throw, ◌>>=◌, ◌>>◌,
}
use ceylon_events.Shared.{
  OrderStatus, is_pending_order, is_confirmed_order, order_confirmed, order_cancelled,
  NotificationType, JwtAccessPayload, is_platform_admin,
}
use ceylon_events.Orders.Types.{
  Order, OrderItem, OrderWithItems, UpstreamEvent, Reason, State, order_not_found,
  may_not_view_order, may_not_cancel_order, only_pending_cancelled, may_not_view_event_orders,
  cannot_confirm,
}
use ceylon_events.Orders.Upstream.{
  Upstream, Database, Notice, fetch_event, release_seat_hold, notify_buyer,
}

unfoldable pub can_access_order : JwtAccessPayload → Order → Bool
can_access_order user order = if is_platform_admin user then true else user.sub == order.buyer_id

abbrev pub notice_of : Order → NotificationType → Notice
notice_of order type = record {
  user_id = order.buyer_id;
  type = type;
  order_id = order.id;
  event_id = order.event_id;
}

module _ {W : Type 0} (u : Upstream W) (db : Database) where
  abbrev pub with_items : Order → State W → OrderWithItems
  with_items order s = record {
    order = order;
    items = db.items.find (λ i. i.order_id == order.id) s.items;
  }

  abbrev pub find_order : ℕ → State W → Option Order
  find_order id s = db.orders.find_one (λ o. o.id == id) s.orders

  all_with_items : List Order → State W → List OrderWithItems
  all_with_items [] s = []
  all_with_items (order ∷ orders) s = with_items order s ∷ all_with_items orders s

  pub find_mine : ℕ → State W → List OrderWithItems
  unfolding all_with_items
  find_mine buyer_id s = all_with_items (db.orders.find (λ o. o.buyer_id == buyer_id) s.orders) s

  pub find_one_or_throw : ℕ → JwtAccessPayload → Action (State W) Reason OrderWithItems
  unfolding can_access_order
  find_one_or_throw id caller = do
    found ← gets (find_order id)
    order ← or_throw found (not_found order_not_found)
    throw_if (not (can_access_order caller order)) (forbidden may_not_view_order)
    gets (with_items order)

  pub find_by_id_internal : ℕ → Action (State W) Reason OrderWithItems
  find_by_id_internal id = do
    found ← gets (find_order id)
    order ← or_throw found (not_found order_not_found)
    gets (with_items order)

  pub find_for_event_as_staff : ℕ → JwtAccessPayload → Action (State W) Reason (List OrderWithItems)
  unfolding all_with_items
  find_for_event_as_staff event_id caller = do
    event ← lift (fetch_event (u.get_event event_id))
    throw_if
        (if is_platform_admin caller
          then false
          else not (has_value caller.restaurant_id event.restaurant_id))
        (forbidden may_not_view_event_orders)
    gets (λ s. all_with_items (db.orders.find (λ o. o.event_id == event_id) s.orders) s)

  abbrev pub save_order : Order → State W → State W
  save_order order s = record s { orders = db.orders.save order s.orders }

  -- One release for each item that has a seat.
  release_all : ℕ → List OrderItem → State W → State W
  unfolding release_seat_hold
  release_all version_id [] s = s
  release_all version_id (item ∷ items) s =
      release_all version_id items
        (elim item.seat_id [ none ↦ s | some seat_id ↦ release_seat_hold u version_id seat_id s ])

  release_on : Option ℕ → List OrderItem → State W → State W
  unfolding release_all
  release_on none items s = s
  release_on (some version_id) items s = release_all version_id items s

  -- An event that cannot be fetched is passed over.
  pub release_seats : Order → List OrderItem → State W → State W
  unfolding release_on
  release_seats order items s = elim (fetch_event (u.get_event order.event_id)) [
    | ok event ↦ release_on event.seat_map_version_id items s
    | err e ↦ s
  ]

  pub cancel : Bool → ℕ → JwtAccessPayload → Action (State W) Reason OrderWithItems
  unfolding can_access_order release_seats notify_buyer
  cancel configured id caller = do
    found ← gets (find_order id)
    order ← or_throw found (not_found order_not_found)
    throw_if (not (can_access_order caller order)) (forbidden may_not_cancel_order)
    throw_if (not (is_pending_order order.status)) (bad_request only_pending_cancelled)
    let cancelled : Order = record order { status = OrderStatus.cancelled }
    modify (save_order cancelled)
    saved ← gets (with_items cancelled)
    modify (release_seats cancelled (keep (λ i. is_some i.seat_id) saved.items))
    modify (notify_buyer u configured (notice_of cancelled order_cancelled))
    gets (with_items cancelled)

  settle : Bool → Order → Action (State W) Reason OrderWithItems
  unfolding notify_buyer
  settle configured order = do
    throw_if (not (is_pending_order order.status)) (bad_request (cannot_confirm order.status))
    let confirmed : Order = record order { status = OrderStatus.confirmed }
    modify (save_order confirmed)
    modify (notify_buyer u configured (notice_of confirmed order_confirmed))
    gets (with_items confirmed)

  pub confirm_payment : Bool → ℕ → Action (State W) Reason OrderWithItems
  unfolding settle
  confirm_payment configured id = do
    found ← gets (find_order id)
    order ← or_throw found (not_found order_not_found)
    if is_confirmed_order order.status then gets (with_items order) else settle configured order
