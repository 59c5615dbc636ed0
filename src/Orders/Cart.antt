-- ===== src/Orders/Cart.antt =====
-- The items of a new order, in `OrdersService.create` of
-- services/order-service/src/orders/orders.service.ts: each is checked, and its seat claimed.
pub mod Items
pub mod Capacity
use ceylon_events.Common.{
  ℕ, suc, ◌+◌, ◌*◌, ◌/◌, ◌≤◌, min, ℤ, sub_ℕ, Bool, true, false, not, ◌&&◌, ◌||◌, Option, none, some,
  List, [], ◌∷◌, ◌++◌, ◌==◌, ltb, leb, any, keep, length, sum_by, is_some, if◌then◌else◌, String,
  str_eq, Response, Result, Action, ok, err, bad_request, conflict, internal_error, pure, gets,
  lift, modify, throw, throw_if, skip, ◌>>=◌, ◌>>◌, row,
}
use ceylon_events.Shared.{
  OrderStatus, is_cancelled_order, is_published, is_held_by_me, JwtAccessPayload, DiscountType,
  percentage, fixed, free_item,
}
use ceylon_events.Orders.Types.{
  Order, OrderItem, PromoCode, OrderWithItems, UpstreamEvent, UpstreamTicketTier, SnapshotTable,
  OrderItemInput, CreateOrder, Reason, State, event_not_open, sales_not_open, tier_of_other_event,
  tier_sold_out, table_required, holder_token_required, no_seat_map, section_not_allowed,
  seat_not_held,
}
use ceylon_events.Orders.Upstream.{
  Upstream, Database, SeatInfo, fetch_event, fetch_ticket_tier, fetch_availability, fetch_snapshot,
  find_seat_in_snapshot, reserve_seat_for_order,
}
use ceylon_events.Orders.PromoCodes.{find_valid_for_application, increment_usage}

pub record PreparedItem : Type 0 where
  pub ticket_tier_id : ℕ
  pub seat_id : Option ℕ
  pub seat_label : Option String
  pub price_minor_units : ℕ

-- The variables of the loop: `snapshot`, `pendingCountByTier`, `preparedItems` and `currency`.
pub record Cart : Type 0 where
  pub snapshot : Option (List SnapshotTable)
  pub pending_by_tier : ℕ → ℕ
  pub items : List PreparedItem
  pub currency : String

abbrev pub empty_cart : Cart
empty_cart = record { snapshot = none; pending_by_tier = λ t. 0; items = []; currency = "LKR" }

abbrev pub is_after : Option ℕ → ℕ → Bool
is_after none now = false
is_after (some at) now = ltb now at

abbrev pub is_before : Option ℕ → ℕ → Bool
is_before none now = false
is_before (some at) now = ltb at now

abbrev in_sections : List ℕ → Option ℕ → Bool
in_sections allowed none = false
in_sections allowed (some section) = any (λ a. a == section) allowed

-- The tier names sections, the seat is on the map, and it lies in none of them.
pub section_refused : Option (List ℕ) → Option SeatInfo → Bool
section_refused none info = false
section_refused (some []) info = false
section_refused (some (a ∷ rest)) none = false
section_refused (some (a ∷ rest)) (some info) = not (in_sections (a ∷ rest) info.section_id)

abbrev pub label_of : Option SeatInfo → Option String
label_of none = none
label_of (some info) = some info.seat_label

abbrev pub is_live_order : Option Order → Bool
is_live_order none = false
is_live_order (some order) = not (is_cancelled_order order.status)

-- The items of the tier whose order is not cancelled: an inner join with the orders, on the key of the order.
unfoldable pub count_sold_items_for_tier : {W : Type 0} → Database → ℕ → State W → ℕ
count_sold_items_for_tier db tier_id s = length (
    db.items.find
      (λ i.
        i.ticket_tier_id == tier_id
        && is_live_order (db.orders.find_one (λ o. o.id == i.order_id) s.orders))
      s.items)

abbrev new_item : UpstreamTicketTier → Option ℕ → Option String → PreparedItem
new_item tier seat_id seat_label = record {
  ticket_tier_id = tier.id;
  seat_id = seat_id;
  seat_label = seat_label;
  price_minor_units = tier.price_minor_units;
}

abbrev add_item : UpstreamTicketTier → Option ℕ → Option String → Cart → Cart
add_item tier seat_id seat_label cart = record cart {
  items = cart.items ++ new_item tier seat_id seat_label ∷ [];
  currency = tier.currency;
}

abbrev count_pending : ℕ → Cart → Cart
count_pending tier_id cart = record cart {
  pending_by_tier =
      λ t. if tier_id == t then cart.pending_by_tier tier_id + 1 else cart.pending_by_tier t;
}

-- A place without a seat, under the limit of the tier.
unfoldable pub take_place :
    {W : Type 0} → Database → UpstreamTicketTier → Option ℕ → Cart → Action (State W) Reason Cart
take_place db tier none cart = pure (add_item tier none none cart)
take_place db tier (some limit) cart = do
  already_sold ← gets (count_sold_items_for_tier db tier.id)
  throw_if (ltb limit (already_sold + cart.pending_by_tier tier.id + 1))
      (conflict (tier_sold_out tier.id))
  pure (add_item tier none none (count_pending tier.id cart))

unfoldable pub check_tier :
    {W : Type 0} → UpstreamTicketTier → ℕ → ℕ → Action (State W) Reason (Unit {0})
check_tier tier event_id now = do
  throw_if (not (tier.event_id == event_id)) (bad_request (tier_of_other_event tier.id))
  throw_if (is_after tier.sale_start_at now) (bad_request sales_not_open)
  throw_if (is_before tier.sale_end_at now) (bad_request sales_not_open)

-- The map is fetched for the first seat only.
load_snapshot :
    Option (List SnapshotTable) → Response (List SnapshotTable) → Result Reason (List SnapshotTable)
load_snapshot (some snapshot) answer = ok snapshot
load_snapshot none answer = fetch_snapshot answer

module _ {W : Type 0} (u : Upstream W) (db : Database) where
  -- A seat that the buyer holds: it is reserved before its section is checked.
  pub claim_seat : UpstreamTicketTier → ℕ → ℕ → ℕ → Cart → Action (State W) Reason Cart
  unfolding load_snapshot section_refused
  claim_seat tier version_id seat_id token cart = do
    answer ← gets (λ s. u.get_availability version_id token s.world)
    availability ← lift (fetch_availability answer)
    throw_if (not (is_held_by_me (availability seat_id))) (conflict seat_not_held)
    reserve_seat_for_order u version_id seat_id token
    snapshot ← lift (load_snapshot cart.snapshot (u.get_snapshot version_id))
    let info = find_seat_in_snapshot snapshot seat_id
    throw_if (section_refused tier.allowed_section_ids info) (bad_request section_not_allowed)
    pure (add_item tier (some seat_id) (label_of info) (record cart { snapshot = some snapshot }))

  -- By the seat asked for, the buyer's token and the event's map.
  unfoldable pub place :
      UpstreamTicketTier → Option ℕ → Option ℕ → Option ℕ → Cart → Action (State W) Reason Cart
  unfolding take_place claim_seat
  place tier none token (some version_id) cart = throw (bad_request table_required)
  place tier none token none cart = take_place db tier tier.quantity_limit cart
  place tier (some seat_id) none version cart = throw (bad_request holder_token_required)
  place tier (some seat_id) (some token) none cart = throw (bad_request no_seat_map)
  place tier (some seat_id) (some token) (some version_id) cart =
      claim_seat tier version_id seat_id token cart

  unfoldable pub prepare_item :
      UpstreamEvent → ℕ → ℕ → OrderItemInput → Cart → Action (State W) Reason Cart
  unfolding check_tier
  prepare_item event event_id now input cart = do
    tier ← lift (fetch_ticket_tier input.ticket_tier_id (u.get_ticket_tier input.ticket_tier_id))
    check_tier tier event_id now
    place tier input.seat_id input.holder_token event.seat_map_version_id cart

  unfoldable pub prepare_items :
      UpstreamEvent → ℕ → ℕ → List OrderItemInput → Cart → Action (State W) Reason Cart
  prepare_items event event_id now [] cart = pure cart
  prepare_items event event_id now (input ∷ inputs) cart = do
    cart' ← prepare_item event event_id now input cart
    prepare_items event event_id now inputs cart'
