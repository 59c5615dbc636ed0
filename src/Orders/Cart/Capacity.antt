-- ===== src/Orders/Cart/Capacity.antt =====
-- The limit of a tier without seats.
use ceylon_events.Common.{
  ℕ, ◌+◌, ◌≤◌, ◌≡◌, refl, ◌≢◌, ap, subst₂, ◌∙◌, ◌⊎◌, inl, inr, false, not, ◌&&◌, Option, none, some,
  List, [], ◌∷◌, arith, ◌==◌, ==_iff, is_some, count, count-append, length, All, Elem, ok, body,
  >>=-eq-ok, Option-cases, Bool-cases, IsRepository, Distinct, Distinct-length, row, find_one-key,
  no_clash,
}
use ceylon_events.Shared.{OrderStatus, is_cancelled_order}
use ceylon_events.Orders.Types.{
  Order, OrderItem, UpstreamEvent, UpstreamTicketTier, OrderItemInput, State,
}
use ceylon_events.Orders.Upstream.{Upstream, Database}
use ceylon_events.Orders.Cart.{
  PreparedItem, Cart, empty_cart, take_place, claim_seat, place, prepare_item, prepare_items,
  count_sold_items_for_tier, is_live_order, add_item, new_item, count_pending,
}
use ceylon_events.Orders.Cart.Items.{
  claim_seat-Placed, prepare_item-ok, prepare_items-AllFit, fetch_ticket_tier-ok,
}

-- The items of the tier that take a place without a seat.
abbrev pub unseated : ℕ → List PreparedItem → ℕ
unseated t items = count (λ i. i.ticket_tier_id == t && not (is_some i.seat_id)) items

-- The item is stored, is of the tier, and is of an order that is stored and not cancelled.
abbrev pub IsLive : {W : Type 0} → ℕ → State W → OrderItem → Type 0
IsLive t s i =
    (row (λ x. x.id) i.id s.items ≡ some i)
    × (i.ticket_tier_id ≡ t)
    × ((order : Order) × (row (λ o. o.id) i.order_id s.orders ≡ some order)
        × (order.status ≢ OrderStatus.cancelled))

not_cancelled : (s : OrderStatus) → s ≢ OrderStatus.cancelled → is_cancelled_order s ≡ false
not_cancelled OrderStatus.cancelled h = absurd (h refl)
not_cancelled OrderStatus.pending h = refl
not_cancelled OrderStatus.paid h = refl
not_cancelled OrderStatus.confirmed h = refl
not_cancelled OrderStatus.refunded h = refl

module _ {W : Type 0} (db : Database) (lawful_orders : IsRepository (λ o. o.id) no_clash db.orders)
    (lawful_items : IsRepository (λ i. i.id) no_clash db.items) where
  live-Elem :
      (t : ℕ) (s : State W) (sold : List OrderItem)
      → All (IsLive t s) sold
      → All
          (λ i. Elem i (
            db.items.find
              (λ j.
                j.ticket_tier_id == t
                && is_live_order (db.orders.find_one (λ o. o.id == j.order_id) s.orders))
              s.items))
          sold
  live-Elem t s [] live = tt
  live-Elem t s (i ∷ sold) ((at, of_tier, (order, its, open_order)), live) =
      let found = find_one-key (λ o. o.id) lawful_orders i.order_id s.orders in
      (
        lawful_items.find-Elem _ s.items i.id i at
            (ground (arith, found, not_cancelled order.status open_order)),
        live-Elem t s sold live,
      )

  -- The query counts every such item.
  sold-length :
      (t : ℕ) (s : State W) (sold : List OrderItem)
      → Distinct (λ i. i.id) sold
      → All (IsLive t s) sold
      → length sold ≤ count_sold_items_for_tier db t s
  unfolding count_sold_items_for_tier
  sold-length t s sold distinct live =
      Distinct-length (λ i. i.id) sold _ distinct (live-Elem t s sold live)

-- The pending count is right, and the places taken so far fit beside those sold.
record IsWithin {W : Type 0} (db : Database) (t limit : ℕ) (cart : Cart) (s : State W)
    : Type 0 where
  pending : cart.pending_by_tier t ≡ unseated t cart.items
  bounded :
      (unseated t cart.items ≡ 0)
      ⊎ (count_sold_items_for_tier db t s + unseated t cart.items ≤ limit)

-- The query reads the orders and the items alone.
count_sold-eq :
    {W : Type 0} (db : Database) (t : ℕ) (s s' : State W)
    → s'.orders ≡ s.orders
    → s'.items ≡ s.items
    → count_sold_items_for_tier db t s' ≡ count_sold_items_for_tier db t s
unfolding count_sold_items_for_tier
count_sold-eq db t s s' orders items = rw (orders, items)

module _ {W : Type 0} (u : Upstream W) (db : Database) (t limit : ℕ) where
  unlimited_place :
      (tier : UpstreamTicketTier) (cart : Cart) (s : State W)
      → tier.id ≢ t
      → IsWithin db t limit cart s
      → IsWithin db t limit (add_item tier none none cart) s
  unlimited_place tier cart s ne w =
      let more = count-append (λ i. i.ticket_tier_id == t && not (is_some i.seat_id)) cart.items in
      record {
        pending = ground (arith, more (new_item tier none none ∷ []), w.pending);
        bounded = ground (arith, more (new_item tier none none ∷ []), w.bounded);
      }

  limited_place :
      (tier : UpstreamTicketTier) (l : ℕ) (cart : Cart) (s : State W)
      → (tier.id ≡ t → l ≡ limit)
      → count_sold_items_for_tier db tier.id s + cart.pending_by_tier tier.id + 1 ≤ l
      → IsWithin db t limit cart s
      → IsWithin db t limit (add_item tier none none (count_pending tier.id cart)) s
  limited_place tier l cart s same room w =
      let more = count-append (λ i. i.ticket_tier_id == t && not (is_some i.seat_id)) cart.items in
      elim (Bool-cases (tier.id == t)) [
        | inr ne ↦ record {
          pending = ground (arith, more (new_item tier none none ∷ []), w.pending);
          bounded = ground (arith, more (new_item tier none none ∷ []), w.bounded);
        }
        | inl e ↦
            let eq : tier.id ≡ t = (==_iff tier.id t).0 e in
            let room' : count_sold_items_for_tier db t s + cart.pending_by_tier t + 1 ≤ limit =
              rw (← eq, ← same eq) room in
            record {
              pending = ground (arith, more (new_item tier none none ∷ []), w.pending);
              bounded = inr (ground (arith, more (new_item tier none none ∷ []), w.pending));
            }
      ]

  take_place-IsWithin :
      (tier : UpstreamTicketTier) (cart cart' : Cart) (s s' : State W)
      → (tier.id ≡ t → tier.quantity_limit ≡ some limit)
      → take_place db tier tier.quantity_limit cart s ≡ (ok cart', s')
      → IsWithin db t limit cart s
      → IsWithin db t limit cart' s'
  unfolding take_place
  take_place-IsWithin tier cart cart' s s' same h w = elim (Option-cases tier.quantity_limit) [
    | inl e ↦
        let at : s ≡ s' = ground arith in
        let to : add_item tier none none cart ≡ cart' = ground arith in
        subst₂ (IsWithin db t limit) to at
          (unlimited_place tier cart s (λ q. ground (arith, same q)) w)
    | inr (l, e) ↦
        let at : s ≡ s' = ground arith in
        let to : add_item tier none none (count_pending tier.id cart) ≡ cart' = ground arith in
        subst₂ (IsWithin db t limit) to at
          (limited_place tier l cart s (λ q. ground (arith, same q)) (ground arith) w)
  ]

  claim_seat-pending :
      (tier : UpstreamTicketTier) (v seat token : ℕ) (cart cart' : Cart) (s s' : State W)
      → claim_seat u db tier v seat token cart s ≡ (ok cart', s')
      → cart'.pending_by_tier ≡ cart.pending_by_tier
  unfolding claim_seat
  claim_seat-pending tier v seat token cart cart' s s' h = ground arith

  claim_seat-IsWithin :
      (tier : UpstreamTicketTier) (v seat token : ℕ) (cart cart' : Cart) (s s' : State W)
      → claim_seat u db tier v seat token cart s ≡ (ok cart', s')
      → IsWithin db t limit cart s
      → IsWithin db t limit cart' s'
  claim_seat-IsWithin tier v seat token cart cart' s s' h w =
      let (item, p) = claim_seat-Placed u db tier v seat token cart cart' s s' h in
      let same : unseated t cart'.items ≡ unseated t cart.items =
        ap (unseated t) p.added
        ∙ ground (
          arith,
          count-append (λ i. i.ticket_tier_id == t && not (is_some i.seat_id)) cart.items
              (item ∷ []),
          p.seat_id,
        ) in
      let pending = ap (λ f. f t) (claim_seat-pending tier v seat token cart cart' s s' h) in
      let sold = count_sold-eq db t s s' p.orders p.items in
      record {
        pending = ground (arith, same, pending, w.pending);
        bounded = ground (arith, same, sold, w.bounded);
      }

  place-IsWithin :
      (tier : UpstreamTicketTier) (seat token version : Option ℕ) (cart cart' : Cart)
      (s s' : State W)
      → (tier.id ≡ t → tier.quantity_limit ≡ some limit)
      → place u db tier seat token version cart s ≡ (ok cart', s')
      → IsWithin db t limit cart s
      → IsWithin db t limit cart' s'
  unfolding place
  place-IsWithin tier none token (some v) cart cart' s s' same h w = absurd (ground arith)
  place-IsWithin tier none token none cart cart' s s' same h w =
      take_place-IsWithin tier cart cart' s s' same h w
  place-IsWithin tier (some seat) none version cart cart' s s' same h w = absurd (ground arith)
  place-IsWithin tier (some seat) (some token) none cart cart' s s' same h w = absurd (ground arith)
  place-IsWithin tier (some seat) (some token) (some v) cart cart' s s' same h w =
      claim_seat-IsWithin tier v seat token cart cart' s s' h w

  prepare_items-IsWithin :
      (event : UpstreamEvent) (event_id now : ℕ) (inputs : List OrderItemInput) (cart cart' : Cart)
      (s s' : State W)
      → ((id : ℕ) (tier : UpstreamTicketTier)
          → u.get_ticket_tier id ≡ body tier
          → tier.id ≡ t
          → tier.quantity_limit ≡ some limit)
      → prepare_items u db event event_id now inputs cart s ≡ (ok cart', s')
      → IsWithin db t limit cart s
      → IsWithin db t limit cart' s'
  unfolding prepare_items
  prepare_items-IsWithin event event_id now [] cart cart' s s' same h w =
      let at : s ≡ s' = ground arith in
      let to : cart ≡ cart' = ground arith in subst₂ (IsWithin db t limit) to at w
  prepare_items-IsWithin event event_id now (input ∷ inputs) cart cart' s s' same h w =
      let (cart1, s1, e1, h1) =
        >>=-eq-ok (prepare_item u db event event_id now input cart)
          (λ c. prepare_items u db event event_id now inputs c) s h in
      let (tier, q, c, pl) = prepare_item-ok u db event event_id now input cart cart1 s s1 e1 in
      let known = fetch_ticket_tier-ok input.ticket_tier_id _ tier q in
      prepare_items-IsWithin event event_id now inputs cart1 cart' s1 s' same h1 (
        place-IsWithin tier input.seat_id input.holder_token event.seat_map_version_id cart cart1 s
          s1 (same input.ticket_tier_id tier known) pl w)

  module _ (lawful_orders : IsRepository (λ o. o.id) no_clash db.orders)
      (lawful_items : IsRepository (λ i. i.id) no_clash db.items) where
    -- A request whose items went through takes places without a seat of a limited tier only if they
    -- fit under the limit beside all items of the tier that are stored under an order not cancelled,
    -- however the items of the request are mixed; its seated items are not counted. event-service is
    -- taken to name the same limit wherever it returns the tier.
    pub prepare_items-capacity :
        (event : UpstreamEvent) (event_id now : ℕ) (inputs : List OrderItemInput) (cart : Cart)
        (s s' : State W) (sold : List OrderItem)
        → Distinct (λ i. i.id) sold
        → All (IsLive t s) sold
        → ((id : ℕ) (tier : UpstreamTicketTier)
            → u.get_ticket_tier id ≡ body tier
            → tier.id ≡ t
            → tier.quantity_limit ≡ some limit)
        → prepare_items u db event event_id now inputs empty_cart s ≡ (ok cart, s')
        → (unseated t cart.items ≡ 0) ⊎ (length sold + unseated t cart.items ≤ limit)
    prepare_items-capacity event event_id now inputs cart s s' sold distinct live same h =
        let w =
          prepare_items-IsWithin event event_id now inputs empty_cart cart s s' same h
            (record { pending = refl; bounded = inl refl }) in
        let (new, added, fit, orders, items) =
          prepare_items-AllFit u db event event_id now inputs empty_cart cart s s' h in
        let count = count_sold-eq db t s s' orders items in
        let all = sold-length db lawful_orders lawful_items t s sold distinct live in
        ground (arith, count, all, w.bounded)
