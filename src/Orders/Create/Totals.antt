-- ===== src/Orders/Create/Totals.antt =====
-- What is written when an order is created, and what the buyer is told.
use ceylon_events.Common.{
  no_clash, ℕ, ◌≡◌, refl, subst, subst₂, ◌>>=◌, sym, inl, inr, true, Option, none, some, List, [],
  ◌∷◌, arith, sum_by, ok, body, IsRepository, row, insert-fresh, insert-fresh_row, >>=-eq-ok,
  Result-cases, String,
}
use ceylon_events.Shared.{is_published, JwtAccessPayload}
use ceylon_events.Orders.Types.{
  Order, OrderItem, PromoCode, OrderWithItems, CreateOrder, UpstreamEvent, State,
}
use ceylon_events.Orders.Upstream.{Upstream, Database, fetch_event}
use ceylon_events.Orders.PromoCodes.{find_valid_for_application, increment_usage}
use ceylon_events.Orders.Cart.{PreparedItem, Cart, empty_cart, prepare_items}
use ceylon_events.Orders.Create.{
  new_order, place_order, create, insert_items, find_promo, count_use,
}
use ceylon_events.Orders.Cart.Items.{AllFit, prepare_items-AllFit}

abbrev pub order_row : ℕ → List Order → Option Order
order_row = row (λ o. o.id)

abbrev pub item_row : ℕ → List OrderItem → Option OrderItem
item_row = row (λ i. i.id)

-- The saved item is the prepared one, under the order.
abbrev pub IsSaved : ℕ → List PreparedItem → List OrderItem → List OrderItem → Type 0
IsSaved order_id [] [] table = Unit
IsSaved order_id [] (i ∷ is) table = ⊥
IsSaved order_id (p ∷ ps) [] table = ⊥
IsSaved order_id (p ∷ ps) (i ∷ is) table =
    (item_row i.id table ≡ some i)
    × (i.order_id ≡ order_id)
    × (i.ticket_tier_id ≡ p.ticket_tier_id)
    × (i.seat_id ≡ p.seat_id)
    × (i.price_minor_units ≡ p.price_minor_units)
    × IsSaved order_id ps is table

-- Rows that were there are there still.
abbrev pub Keeps : {Row : Type 0} → (Row → ℕ) → List Row → List Row → Type 0
Keeps {Row} key t t' = (k : ℕ) (x : Row) → row key k t ≡ some x → row key k t' ≡ some x

IsSaved-Keeps :
    (order_id : ℕ) (ps : List PreparedItem) (is t t' : List OrderItem)
    → Keeps (λ i. i.id) t t'
    → IsSaved order_id ps is t
    → IsSaved order_id ps is t'
IsSaved-Keeps order_id [] [] t t' keeps h = tt
IsSaved-Keeps order_id [] (i ∷ is) t t' keeps h = elim h [ ]
IsSaved-Keeps order_id (p ∷ ps) [] t t' keeps h = elim h [ ]
IsSaved-Keeps order_id (p ∷ ps) (i ∷ is) t t' keeps (at, o, a, b, c, rest) =
    (keeps i.id i at, o, a, b, c, IsSaved-Keeps order_id ps is t t' keeps rest)

pub sum-IsSaved :
    (order_id : ℕ) (ps : List PreparedItem) (is t : List OrderItem)
    → IsSaved order_id ps is t
    → sum_by (λ i. i.price_minor_units) is ≡ sum_by (λ p. p.price_minor_units) ps
sum-IsSaved order_id [] [] t h = refl
sum-IsSaved order_id [] (i ∷ is) t h = elim h [ ]
sum-IsSaved order_id (p ∷ ps) [] t h = elim h [ ]
sum-IsSaved order_id (p ∷ ps) (i ∷ is) t (at, o, a, b, c, rest) =
    omega (arith, c, sum-IsSaved order_id ps is t rest)

module _ {W : Type 0} (u : Upstream W) (db : Database) (to_upper : String → String)
    (lawful_orders : IsRepository (λ o. o.id) no_clash db.orders)
    (lawful_items : IsRepository (λ i. i.id) no_clash db.items) where
  insert_items-ok :
      (order_id : ℕ) (ps : List PreparedItem) (s : State W)
      → (is t : List OrderItem) × (insert_items u db to_upper order_id ps s
          ≡ (ok is, record s { items = t }))
        × IsSaved order_id ps is t
        × Keeps (λ i. i.id) s.items t
  unfolding insert_items
  insert_items-ok order_id [] s = ([], s.items, refl, tt, λ k x at. at)
  insert_items-ok order_id (p ∷ ps) s =
      let item : OrderItem = record {
        id = db.items.fresh s.items;
        order_id = order_id;
        ticket_tier_id = p.ticket_tier_id;
        seat_id = p.seat_id;
        seat_label = p.seat_label;
        price_minor_units = p.price_minor_units;
      } in
      let (t1, e1) = insert-fresh _ lawful_items item s.items refl (λ k y at. refl) in
      let (at, keeps1) = insert-fresh_row _ lawful_items item s.items t1 refl e1 in
      let (is, t, e, saved, keeps) = insert_items-ok order_id ps (record s { items = t1 }) in
      (
        item ∷ is,
        t,
        ground arith,
        (keeps item.id item at, refl, refl, refl, refl, saved),
        λ k x q. keeps k x (keeps1 k x q),
      )

  -- What `place_order` leaves behind when it applied `promo`.
  pub record IsPlaced (dto : CreateOrder) (caller : JwtAccessPayload) (cart : Cart)
      (promo : Option PromoCode) (s s' : State W) (r : OrderWithItems) : Type 0 where
    pub order : r.order ≡ new_order u db to_upper dto caller cart promo (db.orders.fresh s.orders)
    pub stored : order_row r.order.id s'.orders ≡ some r.order
    pub items : IsSaved r.order.id cart.items r.items s'.items
    pub other_orders : Keeps (λ o. o.id) s.orders s'.orders
    pub other_items : Keeps (λ i. i.id) s.items s'.items
    pub used : s'.promo_codes ≡ (count_use u db to_upper promo s).promo_codes
    pub world : s'.world ≡ s.world

  find_promo-state :
      (event_id now : ℕ) (code : Option String) (s s' : State W) (promo : Option PromoCode)
      → find_promo u db to_upper event_id code now s ≡ (ok promo, s')
      → s' ≡ s
  unfolding find_promo find_valid_for_application
  find_promo-state event_id now none s s' promo h = ground arith
  find_promo-state event_id now (some code) s s' promo h = ground arith

  count_use-frame :
      (promo : Option PromoCode) (s : State W)
      → let s' = count_use u db to_upper promo s in
        (s'.orders ≡ s.orders) × (s'.items ≡ s.items) × (s'.world ≡ s.world)
  unfolding increment_usage
  count_use-frame none s = (refl, refl, refl)
  count_use-frame (some code) s = (refl, refl, refl)

  count_use-codes :
      (promo : Option PromoCode) (s s' : State W)
      → s'.promo_codes ≡ s.promo_codes
      → (count_use u db to_upper promo s').promo_codes
        ≡ (count_use u db to_upper promo s).promo_codes
  unfolding increment_usage
  count_use-codes none s s' e = e
  count_use-codes (some code) s s' e = rw e

  place_order-ok :
      (dto : CreateOrder) (caller : JwtAccessPayload) (now : ℕ) (cart : Cart) (s : State W)
      (promo : Option PromoCode)
      → find_promo u db to_upper dto.event_id dto.promo_code now s ≡ (ok promo, s)
      → (r : OrderWithItems) × (s' : State W) × (place_order u db to_upper dto caller now cart s
          ≡ (ok r, s'))
        × IsPlaced dto caller cart promo s s' r
  unfolding place_order
  place_order-ok dto caller now cart s promo e =
      let id = db.orders.fresh s.orders in
      let order = new_order u db to_upper dto caller cart promo id in
      let (t1, e1) = insert-fresh _ lawful_orders order s.orders refl (λ k y at. refl) in
      let (at, keeps1) = insert-fresh_row _ lawful_orders order s.orders t1 refl e1 in
      let (is, t, e2, saved, keeps) = insert_items-ok id cart.items (record s { orders = t1 }) in
      let s2 : State W = record s { orders = t1; items = t } in
      let s' = count_use u db to_upper promo s2 in
      let (orders, items, world) = count_use-frame promo s2 in
      (
        record { order = order; items = is },
        s',
        ground (arith, e1, e2),
        record {
          order = refl;
          stored = rw orders at;
          items = rw items saved;
          other_orders = rw orders keeps1;
          other_items = rw items keeps;
          used = count_use-codes promo s s2 refl;
          world = world;
        },
      )

  place_order-inv :
      (dto : CreateOrder) (caller : JwtAccessPayload) (now : ℕ) (cart : Cart) (s s' : State W)
      (r : OrderWithItems)
      → place_order u db to_upper dto caller now cart s ≡ (ok r, s')
      → (promo : Option PromoCode) × (find_promo u db to_upper dto.event_id dto.promo_code now s
          ≡ (ok promo, s))
        × IsPlaced dto caller cart promo s s' r
  place_order-inv dto caller now cart s s' r h =
      let found = find_promo u db to_upper dto.event_id dto.promo_code now s in
      elim (Result-cases found.0) [
        | inr (e, q) ↦ absurd (unfold place_order in ground arith)
        | inl (promo, q) ↦
            let at : found ≡ (ok promo, found.1) = ground arith in
            let same = find_promo-state dto.event_id now dto.promo_code s found.1 promo at in
            let e : found ≡ (ok promo, s) = ground arith in
            let (r', s2, run, placed) = place_order-ok dto caller now cart s promo e in
            let er : r' ≡ r = ground arith in
            let es : s2 ≡ s' = ground arith in
            (promo, e, subst₂ (λ x y. IsPlaced dto caller cart promo s y x) er es placed)
      ]

  -- An order that was created: the event is published, each item asked for fits a tier of it, the
  -- promo code, if one was given, validates; the order is stored as pending for the caller with the
  -- subtotal, discount and total of those items, every item is stored under it, one use of the code
  -- is counted, and no order or item that was there is lost.
  pub create-ok :
      (dto : CreateOrder) (caller : JwtAccessPayload) (now : ℕ) (s s' : State W)
      (r : OrderWithItems)
      → create u db to_upper dto caller now s ≡ (ok r, s')
      → (event : UpstreamEvent) × (cart : Cart) × (promo : Option PromoCode) × (s1 : State W)
        × (u.get_event dto.event_id ≡ body event)
        × (is_published event.status ≡ true)
        × AllFit u event dto.event_id now dto.items cart.items
        × (s1.orders ≡ s.orders)
        × (s1.items ≡ s.items)
        × (find_promo u db to_upper dto.event_id dto.promo_code now s1 ≡ (ok promo, s1))
        × IsPlaced dto caller cart promo s1 s' r
  unfolding create
  create-ok dto caller now s s' r h = elim (Result-cases (fetch_event (u.get_event dto.event_id))) [
    | inr (e, q) ↦ absurd (ground arith)
    | inl (event, q) ↦
        let open_event : is_published event.status ≡ true = ground arith in
        let h1 : (prepare_items u db event dto.event_id now dto.items empty_cart >>= λ cart.
        place_order u db to_upper dto caller now cart)
              s
            ≡ (ok r, s') =
          ground arith in
        let (cart, s1, e1, h2) =
          >>=-eq-ok (prepare_items u db event dto.event_id now dto.items empty_cart)
            (λ cart. place_order u db to_upper dto caller now cart) s h1 in
        let (new, added, fit, orders, items) =
          prepare_items-AllFit u db event dto.event_id now dto.items empty_cart cart s s1 e1 in
        let (promo, e2, placed) = place_order-inv dto caller now cart s1 s' r h2 in
        (
          event,
          cart,
          promo,
          s1,
          unfold fetch_event in ground arith,
          open_event,
          subst (AllFit u event dto.event_id now dto.items) (sym added) fit,
          orders,
          items,
          e2,
          placed,
        )
  ]
