-- ===== src/Tests/Ordering.antt =====
-- order-service on an event without a map, with one tier and one promo code.
use ceylon_events.Common.{
  ℕ, ◌≡◌, refl, ◌+◌, ◌≤◌, inl, inr, ◌==◌, if◌then◌else◌, true, none, some, List, [], ◌∷◌, arith, ok,
  body, status, String, pos, no_clash,
}
use ceylon_events.Common.Memory.{memory, memory-IsRepository}
use ceylon_events.Shared.{JwtAccessPayload, OrderStatus, confirmed, published, payhere, percentage}
use ceylon_events.Orders.Types.{
  Order, OrderItem, PromoCode, OrderWithItems, UpstreamEvent, UpstreamTicketTier, OrderItemInput,
  CreateOrder, State, same_code,
}
use ceylon_events.Orders.Upstream.{Upstream, Database, fetch_event, fetch_ticket_tier}
use ceylon_events.Orders.PromoCodes.{
  validate, check_validity, find_valid_for_application, increment_usage,
}
use ceylon_events.Orders.PromoCodes.Validity.{find_valid_for_application-validate}
use ceylon_events.Orders.Cart.{
  Cart, PreparedItem, empty_cart, prepare_items, prepare_item, take_place, check_tier, place,
  count_sold_items_for_tier,
}
use ceylon_events.Orders.Create.{
  new_order, discount_for, find_promo, insert_order, insert_items, place_order, create,
}
use ceylon_events.Orders.Create.Discount.{new_order-total}
use ceylon_events.Orders.Cart.Capacity.{prepare_items-capacity, unseated}
use ceylon_events.Orders.Create.Totals.{create-ok, order_row}
use ceylon_events.Orders.Lifecycle.{cancel}
use ceylon_events.Orders.Lifecycle.Methods.{order_at}
use ceylon_events.Orders.Lifecycle.Status.{
  cancels, confirms, serve_all, Becomes, serve_all-Becomes, settled_forever,
}

abbrev gala : UpstreamEvent
gala = record { id = 5; restaurant_id = 3; seat_map_version_id = none; status = published }

abbrev standard : UpstreamTicketTier
standard = record {
  id = 9;
  event_id = 5;
  price_minor_units = 2000;
  currency = "LKR";
  sale_start_at = none;
  sale_end_at = none;
  allowed_section_ids = none;
  quantity_limit = some 2;
}

-- Every request to another service is counted.
abbrev upstream : Upstream ℕ
upstream = record {
  get_event = λ id. if id == 5 then body gala else status 404;
  get_ticket_tier = λ id. if id == 9 then body standard else status 404;
  get_snapshot = λ id. status 404;
  get_availability = λ version seat world. status 404;
  post_reserve = λ version seat token world. (status 404, world + 1);
  post_release = λ version seat world. world + 1;
  post_notification = λ notice world. world + 1;
}

abbrev database : Database
database = record {
  orders = memory (λ o. o.id) no_clash;
  items = memory (λ i. i.id) no_clash;
  promo_codes = memory (λ p. p.id) same_code;
}

abbrev same : String → String
same text = text

abbrev tenth : PromoCode
tenth = record {
  id = 1;
  event_id = 5;
  code = "TEN";
  discount_type = percentage;
  discount_value = 10;
  applicable_ticket_tier_id = none;
  usage_limit = some 3;
  usage_count = 0;
  expires_at = none;
  is_active = true;
}

abbrev opening : State ℕ
opening = record { orders = []; items = []; promo_codes = tenth ∷ []; world = 0 }

abbrev buyer : JwtAccessPayload
buyer = record { sub = 70; roles = []; restaurant_id = none }

abbrev wish : OrderItemInput
wish = record { ticket_tier_id = 9; seat_id = none; holder_token = none }

abbrev dto : CreateOrder
dto = record {
  event_id = 5;
  payment_method = payhere;
  items = wish ∷ wish ∷ [];
  promo_code = some "TEN";
}

abbrev placed_order : Order
placed_order = record {
  id = 0;
  buyer_id = 70;
  event_id = 5;
  status = OrderStatus.pending;
  subtotal_minor_units = 4000;
  discount_minor_units = 400;
  total_minor_units = pos 3600;
  promo_code_id = some 1;
  currency = "LKR";
  payment_method = payhere;
}

abbrev placed_item : ℕ → OrderItem
placed_item id = record {
  id = id;
  order_id = 0;
  ticket_tier_id = 9;
  seat_id = none;
  seat_label = none;
  price_minor_units = 2000;
}

abbrev receipt : OrderWithItems
receipt = record { order = placed_order; items = placed_item 0 ∷ placed_item 1 ∷ [] }

abbrev ordered : State ℕ
ordered = record {
  orders = placed_order ∷ [];
  items = placed_item 1 ∷ placed_item 0 ∷ [];
  promo_codes = record tenth { usage_count = 1 } ∷ [];
  world = 0;
}

create_run : create upstream database same dto buyer 100 opening ≡ (ok receipt, ordered)
unfolding create fetch_event fetch_ticket_tier prepare_items prepare_item take_place check_tier
    place count_sold_items_for_tier discount_for find_promo insert_order insert_items place_order
    check_validity find_valid_for_application increment_usage
create_run = refl

create-ok_example : order_row 0 ordered.orders ≡ some placed_order
create-ok_example =
    let (event, cart, promo, s1, known, open_sale, fits, orders, items, found, placed) =
      create-ok upstream database same (memory-IsRepository (λ o. o.id) no_clash)
        (memory-IsRepository (λ i. i.id) no_clash) dto buyer 100 opening ordered receipt
        create_run in
    placed.stored

abbrev one_place : List PreparedItem
one_place =
    record { ticket_tier_id = 9; seat_id = none; seat_label = none; price_minor_units = 2000 } ∷ []

-- The last place of the tier.
abbrev last_place : Cart
last_place = record {
  snapshot = none;
  pending_by_tier = λ t. if 9 == t then 1 else 0;
  items = one_place;
  currency = "LKR";
}

abbrev cancelled_order : Order
cancelled_order = record placed_order { id = 1; status = OrderStatus.cancelled }

-- One place is sold, and another was, under an order that is cancelled.
abbrev half_sold : State ℕ
half_sold = record {
  orders = cancelled_order ∷ placed_order ∷ [];
  items = record (placed_item 1) { order_id = 1 } ∷ placed_item 0 ∷ [];
  promo_codes = [];
  world = 0;
}

prepare_run :
    prepare_items upstream database gala 5 100 (wish ∷ []) empty_cart half_sold
    ≡ (ok last_place, half_sold)
unfolding fetch_ticket_tier prepare_items prepare_item take_place check_tier place
    count_sold_items_for_tier
prepare_run = refl

tier_limit :
    (id : ℕ) (tier : UpstreamTicketTier)
    → upstream.get_ticket_tier id ≡ body tier
    → tier.id ≡ 9
    → tier.quantity_limit ≡ some 2
tier_limit id tier e q = ground arith

prepare_items-capacity_example : 1 + unseated 9 last_place.items ≤ 2
prepare_items-capacity_example =
    elim (prepare_items-capacity upstream database 9 2 (memory-IsRepository (λ o. o.id) no_clash)
      (memory-IsRepository (λ i. i.id) no_clash) gala 5 100 (wish ∷ []) last_place half_sold
      half_sold (placed_item 0 ∷ []) (tt, tt) ((refl, refl, (placed_order, refl, cc)), tt)
      tier_limit prepare_run) [ inl none_taken ↦ absurd (ground arith) | inr within ↦ within ]

find_valid_for_application-validate_example :
    find_valid_for_application upstream database same 5 "TEN" 100 opening ≡ (ok tenth, opening)
unfolding validate check_validity
find_valid_for_application-validate_example =
    (find_valid_for_application-validate upstream database same
        (memory-IsRepository (λ p. p.id) same_code) 5 "TEN" 100 opening tenth).1
      refl

new_order-total_example :
    (n : ℕ) × ((new_order upstream database same dto buyer last_place
        (some tenth)
        0).total_minor_units
      ≡ pos n)
new_order-total_example =
    let (n, owes, adds, sums) =
      new_order-total upstream database same dto buyer last_place (some tenth) 0
        (λ code e p. ground arith) in
    (n, owes)

-- A code of 150 per cent.
abbrev too_much : PromoCode
too_much = record tenth { discount_value = 150 }

abbrev confirmed_order : Order
confirmed_order = record placed_order { status = confirmed }

abbrev settled_state : State ℕ
settled_state = record ordered { orders = confirmed_order ∷ [] }

serve_all-Becomes_example :
    Becomes upstream database placed_order (
      order_at 0
        (serve_all upstream database (confirms true 0 ∷ cancels true 0 buyer ∷ []) ordered))
serve_all-Becomes_example =
    serve_all-Becomes upstream database (memory-IsRepository (λ o. o.id) no_clash)
      (confirms true 0 ∷ cancels true 0 buyer ∷ []) 0 placed_order ordered refl

settled_forever_example :
    let s' = serve_all upstream database (cancels true 0 buyer ∷ []) settled_state in
    (cancel upstream database true 0 buyer s').1 ≡ s'
settled_forever_example =
    (settled_forever upstream database (memory-IsRepository (λ o. o.id) no_clash)
      (cancels true 0 buyer ∷ []) true 0 buyer confirmed_order settled_state refl (inr refl)).1
