-- ===== src/Orders/Create.antt =====
-- `OrdersService.create` of services/order-service/src/orders/orders.service.ts: once the items have been
-- gone through, the total is made and the rows are written.
pub mod Discount
pub mod Totals
use ceylon_events.Common.{
  ℕ, suc, ◌+◌, ◌*◌, ◌/◌, ◌≤◌, min, ℤ, sub_ℕ, Bool, true, false, not, ◌&&◌, ◌||◌, Option, none, some,
  List, [], ◌∷◌, ◌++◌, ◌==◌, ltb, leb, any, keep, count, sum_by, is_some, if◌then◌else◌, String,
  str_eq, Response, Result, Action, ok, err, bad_request, conflict, internal_error, pure, gets,
  lift, modify, throw, throw_if, skip, ◌>>=◌, ◌>>◌, row,
}
use ceylon_events.Shared.{
  OrderStatus, is_cancelled_order, is_published, is_held_by_me, JwtAccessPayload, DiscountType,
  percentage, fixed, free_item,
}
use ceylon_events.Orders.Types.{
  Order, OrderItem, PromoCode, OrderWithItems, UpstreamEvent, UpstreamTicketTier, SnapshotTable,
  OrderItemInput, CreateOrder, Reason, State, event_not_open, sales_not_open, tier_of_other_event,
  tier_sold_out, table_required, holder_token_required, no_seat_map, section_not_allowed,
  seat_not_held,
}
use ceylon_events.Orders.Upstream.{
  Upstream, Database, SeatInfo, fetch_event, fetch_ticket_tier, fetch_availability, fetch_snapshot,
  find_seat_in_snapshot, reserve_seat_for_order,
}
use ceylon_events.Orders.PromoCodes.{find_valid_for_application, increment_usage}
use ceylon_events.Orders.Cart.{PreparedItem, Cart, empty_cart, prepare_items}

-- What a code applies to: the whole order, or the items of its tier.
abbrev pub applicable_subtotal : Option ℕ → List PreparedItem → ℕ
applicable_subtotal none items = sum_by (λ i. i.price_minor_units) items
applicable_subtotal (some tier_id) items =
    sum_by (λ i. i.price_minor_units) (keep (λ i. i.ticket_tier_id == tier_id) items)

-- What a promo code takes off.
unfoldable pub discount_for : PromoCode → List PreparedItem → ℕ
discount_for code items =
    let applicable = applicable_subtotal code.applicable_ticket_tier_id items in
    elim code.discount_type [
      | percentage ↦ applicable * code.discount_value / 100
      | fixed ↦ min code.discount_value applicable
      | free_item ↦ 0
    ]

abbrev pub discount_of : Option PromoCode → List PreparedItem → ℕ
discount_of none items = 0
discount_of (some code) items = discount_for code items

abbrev pub promo_code_id_of : Option PromoCode → Option ℕ
promo_code_id_of none = none
promo_code_id_of (some code) = some code.id

module _ {W : Type 0} (u : Upstream W) (db : Database) (to_upper : String → String) where
  unfoldable pub insert_order : Order → Action (State W) Reason (Unit {0})
  insert_order order s = elim (db.orders.insert order s.orders) [
    | none ↦ (err internal_error, s)
    | some table ↦ (ok tt, record s { orders = table })
  ]

  unfoldable pub insert_items : ℕ → List PreparedItem → Action (State W) Reason (List OrderItem)
  insert_items order_id [] s = (ok [], s)
  insert_items order_id (p ∷ ps) s =
      let item : OrderItem = record {
        id = db.items.fresh s.items;
        order_id = order_id;
        ticket_tier_id = p.ticket_tier_id;
        seat_id = p.seat_id;
        seat_label = p.seat_label;
        price_minor_units = p.price_minor_units;
      } in
      elim (db.items.insert item s.items) [
        | none ↦ (err internal_error, s)
        | some table ↦
            let (r, s') = insert_items order_id ps (record s { items = table }) in
            elim r [ ok items ↦ (ok (item ∷ items), s') | err e ↦ (err e, s') ]
      ]

  unfoldable pub find_promo : ℕ → Option String → ℕ → Action (State W) Reason (Option PromoCode)
  find_promo event_id none now = pure none
  find_promo event_id (some code) now =
      let found = do
        promo_code ← find_valid_for_application u db to_upper event_id code now
        pure (some promo_code)
      in if str_eq code "" then pure none else found

  abbrev pub count_use : Option PromoCode → State W → State W
  count_use none s = s
  count_use (some code) s = increment_usage u db to_upper code.id s

  abbrev pub new_order : CreateOrder → JwtAccessPayload → Cart → Option PromoCode → ℕ → Order
  new_order dto caller cart promo id =
      let subtotal = sum_by (λ i. i.price_minor_units) cart.items in
      let discount = discount_of promo cart.items in
      record {
        id = id;
        buyer_id = caller.sub;
        event_id = dto.event_id;
        status = OrderStatus.pending;
        subtotal_minor_units = subtotal;
        discount_minor_units = discount;
        total_minor_units = sub_ℕ subtotal discount;
        promo_code_id = promo_code_id_of promo;
        currency = cart.currency;
        payment_method = dto.payment_method;
      }

  -- From the prepared items on.
  unfoldable pub place_order :
      CreateOrder → JwtAccessPayload → ℕ → Cart → Action (State W) Reason OrderWithItems
  unfolding insert_order insert_items find_promo
  place_order dto caller now cart = do
    promo ← find_promo dto.event_id dto.promo_code now
    id ← gets (λ s. db.orders.fresh s.orders)
    let order = new_order dto caller cart promo id
    insert_order order
    items ← insert_items id cart.items
    modify (count_use promo)
    pure (record { order = order; items = items })

  unfoldable pub create :
      CreateOrder → JwtAccessPayload → ℕ → Action (State W) Reason OrderWithItems
  create dto caller now = do
    event ← lift (fetch_event (u.get_event dto.event_id))
    throw_if (not (is_published event.status)) (bad_request event_not_open)
    cart ← prepare_items u db event dto.event_id now dto.items empty_cart
    place_order dto caller now cart
