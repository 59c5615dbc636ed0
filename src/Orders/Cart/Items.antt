-- ===== src/Orders/Cart/Items.antt =====
-- What it takes for an item to get into an order, and the capacity of a tier.
use mathlib.Core.List.{append-nil, append_assoc}
use ceylon_events.Common.{
  ℕ, ◌≤◌, ◌≡◌, refl, ap, ◌∙◌, inl, inr, Option, none, some, List, [], ◌∷◌, ◌++◌, arith, is_some, ok,
  Response, body, >>=-eq-ok, Result-cases,
}
use ceylon_events.Orders.Types.{UpstreamEvent, UpstreamTicketTier, OrderItemInput, State}
use ceylon_events.Orders.Upstream.{
  Upstream, Database, fetch_ticket_tier, reserve_seat_for_order, find_seat_in_snapshot,
}
use ceylon_events.Orders.Cart.{
  PreparedItem, Cart, take_place, claim_seat, check_tier, place, load_snapshot, label_of,
  prepare_item, prepare_items,
}

-- The prepared item is the one asked for, at the price of a tier of this event that is on sale; at
-- an event with a map it has a seat, and at one without it has none.
pub record Fits {W : Type 0} (u : Upstream W) (event : UpstreamEvent) (event_id now : ℕ)
    (input : OrderItemInput) (item : PreparedItem) (tier : UpstreamTicketTier) : Type 0 where
  pub known : u.get_ticket_tier input.ticket_tier_id ≡ body tier
  pub of_event : tier.event_id ≡ event_id
  pub started : (at : ℕ) → tier.sale_start_at ≡ some at → at ≤ now
  pub not_over : (at : ℕ) → tier.sale_end_at ≡ some at → now ≤ at
  pub tier_id : item.ticket_tier_id ≡ tier.id
  pub price : item.price_minor_units ≡ tier.price_minor_units
  pub seat : item.seat_id ≡ input.seat_id
  pub seated : is_some item.seat_id ≡ is_some event.seat_map_version_id

abbrev pub AllFit :
    {W : Type 0}
    → Upstream W
    → UpstreamEvent
    → ℕ
    → ℕ
    → List OrderItemInput
    → List PreparedItem
    → Type 0
AllFit u event event_id now [] [] = Unit
AllFit u event event_id now [] (y ∷ ys) = ⊥
AllFit u event event_id now (x ∷ xs) [] = ⊥
AllFit u event event_id now (x ∷ xs) (y ∷ ys) =
    ((tier : UpstreamTicketTier) × Fits u event event_id now x y tier)
    × AllFit u event event_id now xs ys

pub fetch_ticket_tier-ok :
    (id : ℕ) (r : Response UpstreamTicketTier) (tier : UpstreamTicketTier)
    → fetch_ticket_tier id r ≡ ok tier
    → r ≡ body tier
unfolding fetch_ticket_tier
fetch_ticket_tier-ok id r tier h = ground arith

pub check_tier-ok :
    {W : Type 0} (tier : UpstreamTicketTier) (event_id now : ℕ) (s s' : State W)
    → check_tier tier event_id now s ≡ (ok tt, s')
    → (s' ≡ s)
      × (tier.event_id ≡ event_id)
      × ((at : ℕ) → tier.sale_start_at ≡ some at → at ≤ now)
      × ((at : ℕ) → tier.sale_end_at ≡ some at → now ≤ at)
unfolding check_tier
check_tier-ok tier event_id now s s' h =
    (ground arith, ground arith, λ at e. ground arith, λ at e. ground arith)

-- What placing an item adds.
pub record Placed {W : Type 0} (tier : UpstreamTicketTier) (seat version : Option ℕ)
    (cart cart' : Cart) (s s' : State W) (item : PreparedItem) : Type 0 where
  pub added : cart'.items ≡ cart.items ++ item ∷ []
  pub tier_id : item.ticket_tier_id ≡ tier.id
  pub price : item.price_minor_units ≡ tier.price_minor_units
  pub seat_id : item.seat_id ≡ seat
  pub seated : is_some seat ≡ is_some version
  pub orders : s'.orders ≡ s.orders
  pub items : s'.items ≡ s.items

module _ {W : Type 0} (u : Upstream W) (db : Database) where
  pub claim_seat-Placed :
      (tier : UpstreamTicketTier) (v seat token : ℕ) (cart cart' : Cart) (s s' : State W)
      → claim_seat u db tier v seat token cart s ≡ (ok cart', s')
      → (item : PreparedItem) × Placed tier (some seat) (some v) cart cart' s s' item
  unfolding claim_seat reserve_seat_for_order
  claim_seat-Placed tier v seat token cart cart' s s' h =
      elim (Result-cases (load_snapshot cart.snapshot (u.get_snapshot v))) [
        | inr (e, q) ↦ absurd (ground arith)
        | inl (snap, q) ↦ (
          record {
            ticket_tier_id = tier.id;
            seat_id = some seat;
            seat_label = label_of (find_seat_in_snapshot snap seat);
            price_minor_units = tier.price_minor_units;
          },
          record {
            added = ground arith;
            tier_id = refl;
            price = refl;
            seat_id = refl;
            seated = refl;
            orders = ground arith;
            items = ground arith;
          },
        )
      ]

  take_place-Placed :
      (tier : UpstreamTicketTier) (limit : Option ℕ) (cart cart' : Cart) (s s' : State W)
      → take_place db tier limit cart s ≡ (ok cart', s')
      → (item : PreparedItem) × Placed tier none none cart cart' s s' item
  unfolding take_place
  take_place-Placed tier limit cart cart' s s' h = (
    record {
      ticket_tier_id = tier.id;
      seat_id = none;
      seat_label = none;
      price_minor_units = tier.price_minor_units;
    },
    record {
      added = ground arith;
      tier_id = refl;
      price = refl;
      seat_id = refl;
      seated = refl;
      orders = ground arith;
      items = ground arith;
    },
  )

  pub place-Placed :
      (tier : UpstreamTicketTier) (seat token version : Option ℕ) (cart cart' : Cart)
      (s s' : State W)
      → place u db tier seat token version cart s ≡ (ok cart', s')
      → (item : PreparedItem) × Placed tier seat version cart cart' s s' item
  unfolding place
  place-Placed tier none token (some v) cart cart' s s' h = absurd (ground arith)
  place-Placed tier none token none cart cart' s s' h =
      take_place-Placed tier tier.quantity_limit cart cart' s s' h
  place-Placed tier (some seat) none version cart cart' s s' h = absurd (ground arith)
  place-Placed tier (some seat) (some token) none cart cart' s s' h = absurd (ground arith)
  place-Placed tier (some seat) (some token) (some v) cart cart' s s' h =
      claim_seat-Placed tier v seat token cart cart' s s' h

  module _ (event : UpstreamEvent) (event_id now : ℕ) where
    -- The three parts of a prepared item that went through.
    pub prepare_item-ok :
        (input : OrderItemInput) (cart cart' : Cart) (s s' : State W)
        → prepare_item u db event event_id now input cart s ≡ (ok cart', s')
        → (tier : UpstreamTicketTier) × (fetch_ticket_tier input.ticket_tier_id
              (u.get_ticket_tier input.ticket_tier_id)
            ≡ ok tier)
          × (check_tier tier event_id now s ≡ (ok tt, s))
          × (place u db tier input.seat_id input.holder_token event.seat_map_version_id cart s
              ≡ (ok cart', s'))
    unfolding prepare_item
    prepare_item-ok input cart cart' s s' h =
        elim (Result-cases
          (fetch_ticket_tier input.ticket_tier_id (u.get_ticket_tier input.ticket_tier_id))) [
            | inr (e, q) ↦ absurd (ground arith)
            | inl (tier, q) ↦ (tier, q, ground arith, ground arith)
          ]

    fits :
        (input : OrderItemInput) (tier : UpstreamTicketTier) (item : PreparedItem)
        (cart cart' : Cart) (s s' : State W)
        → fetch_ticket_tier input.ticket_tier_id (u.get_ticket_tier input.ticket_tier_id) ≡ ok tier
        → check_tier tier event_id now s ≡ (ok tt, s)
        → Placed tier input.seat_id event.seat_map_version_id cart cart' s s' item
        → Fits u event event_id now input item tier
    fits input tier item cart cart' s s' q c p =
        let (same, of_event, started, not_over) = check_tier-ok tier event_id now s s c in
        record {
          known =
              fetch_ticket_tier-ok input.ticket_tier_id (u.get_ticket_tier input.ticket_tier_id)
                tier q;
          of_event = of_event;
          started = started;
          not_over = not_over;
          tier_id = p.tier_id;
          price = p.price;
          seat = p.seat_id;
          seated = ap is_some p.seat_id ∙ p.seated;
        }

    -- The items of a cart that got through are those asked for, one for one and in their order;
    -- each fits a tier of the event. No order or item is written yet.
    pub prepare_items-AllFit :
        (inputs : List OrderItemInput) (cart cart' : Cart) (s s' : State W)
        → prepare_items u db event event_id now inputs cart s ≡ (ok cart', s')
        → (new : List PreparedItem) × (cart'.items ≡ cart.items ++ new)
          × AllFit u event event_id now inputs new
          × (s'.orders ≡ s.orders)
          × (s'.items ≡ s.items)
    unfolding prepare_items
    prepare_items-AllFit [] cart cart' s s' h =
        ([], ground (arith, append-nil cart.items), tt, ground arith, ground arith)
    prepare_items-AllFit (input ∷ inputs) cart cart' s s' h =
        let (cart1, s1, e1, h1) =
          >>=-eq-ok (prepare_item u db event event_id now input cart)
            (λ c. prepare_items u db event event_id now inputs c) s h in
        let (tier, q, c, pl) = prepare_item-ok input cart cart1 s s1 e1 in
        let (item, p) =
          place-Placed tier input.seat_id input.holder_token event.seat_map_version_id cart cart1 s
            s1 pl in
        let (new, added, fit, orders, items) = prepare_items-AllFit inputs cart1 cart' s1 s' h1 in
        (
          item ∷ new,
          added ∙ ap (λ l. l ++ new) p.added ∙ append_assoc cart.items (item ∷ []) new,
          ((tier, fits input tier item cart cart1 s s1 q c p), fit),
          orders ∙ p.orders,
          items ∙ p.items,
        )
