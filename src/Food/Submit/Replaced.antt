-- ===== src/Food/Submit/Replaced.antt =====
-- A pre-order that is submitted, for the first time or again.
use ceylon_events.Common.{
  ℕ, ◌+◌, ◌*◌, ◌≡◌, ◌≢◌, refl, ◌∙◌, ap, inl, inr, false, Option, none, some, List, length, arith,
  ◌==◌, leb, find?, ok, IsRepository, row, insert-fresh, insert-fresh_row, find-nil, find-remove,
  row-removed, no_clash, Option-cases, Bool-cases,
}
use ceylon_events.Shared.{received, pre_order}
use ceylon_events.Food.Types.{
  FoodPreOrder, FoodPreOrderItem, FoodPreOrderSnapshot, SubmitFoodPreOrder, UpstreamOrder,
  UpstreamOrderItem, UpstreamEvent, UpstreamTable, Upstream, Database, State, same_food_order,
}
use ceylon_events.Food.{fetch_order_as_caller, fetch_event, find_for_ticket, is_of_item, publish}
use ceylon_events.Food.Menu.{PreparedFood, resolve_menu_items, insert_items}
use ceylon_events.Food.Menu.Stored.{item_row, IsStored, count_of, stored-IsStored}
use ceylon_events.Food.Submit.{
  is_void, table_of, placed_at, upsert, replace, submit, id_of, number_of,
}

abbrev pub food_row : {W : Type 0} → ℕ → State W → Option FoodPreOrder
food_row k s = row (λ o. o.id) k s.food_orders

-- Every item is of a food order that is there.
unfoldable pub NoOrphans : {W : Type 0} → State W → Type 0
NoOrphans s =
    (k : ℕ) (i : FoodPreOrderItem)
    → item_row k s.items ≡ some i
    → (o : FoodPreOrder) × (food_row i.food_pre_order_id s ≡ some o)

module _ {W : Type 0} (cutoff : ℕ) (u : Upstream W) (db : Database) where
  -- The ticket has one food order, whose items are the prepared ones and no others.
  pub record IsReplaced (item_id : ℕ) (fs : List PreparedFood) (snap : FoodPreOrderSnapshot)
      (s s' : State W) : Type 0 where
    pub of_ticket : snap.order.order_item_id ≡ some item_id
    pub stored : food_row snap.order.id s' ≡ some snap.order
    pub items : IsStored snap.order.id fs snap.items s'.items
    pub no_more : count_of db snap.order.id s'.items ≡ length fs
    pub no_orphans : NoOrphans s'
    pub others : (k : ℕ) → k ≢ snap.order.id → food_row k s' ≡ food_row k s

  -- What `upsert` leaves: the order is stored, and has no items.
  pub record IsEmptied (item_id : ℕ) (o : FoodPreOrder) (s s' : State W) : Type 0 where
    pub of_ticket : o.order_item_id ≡ some item_id
    pub stored : food_row o.id s' ≡ some o
    pub empty : count_of db o.id s'.items ≡ 0
    pub no_orphans : NoOrphans s'
    pub others : (k : ℕ) → k ≢ o.id → food_row k s' ≡ food_row k s

  module _ (lawful : IsRepository (λ o. o.id) same_food_order db.food_orders)
      (lawful_items : IsRepository (λ i. i.id) no_clash db.items) where
    upsert-some :
        (order : UpstreamOrder) (item : UpstreamOrderItem) (event : UpstreamEvent)
        (table : Option UpstreamTable) (x : FoodPreOrder) (s : State W)
        → NoOrphans s
        → find_for_ticket u db item.id s ≡ some x
        → (o : FoodPreOrder) × (s' : State W) × (upsert cutoff u db order item event table
              (some x)
              s
            ≡ (ok o, s'))
          × IsEmptied item.id o s s'
    unfolding upsert NoOrphans
    upsert-some order item event table x s whole found =
        let (at, mine) =
          lawful.find_one-some (λ o. is_of_item item.id o.order_item_id) s.food_orders x found in
        let o = placed_at cutoff u db item table x in
        let saved = λ (k : ℕ). lawful.row-save o s.food_orders k in
        (
          o,
          record s {
            items = db.items.remove (λ i. i.food_pre_order_id == x.id) s.items;
            food_orders = db.food_orders.save o s.food_orders;
          },
          refl,
          record {
            of_ticket = ground arith;
            stored = ground (arith, saved x.id);
            empty =
                ap length
                  (find-remove (λ i. i.id) lawful_items (λ i. i.food_pre_order_id == x.id) s.items);
            no_orphans = λ k i q.
                let (before, other) =
                  row-removed (λ i. i.id) lawful_items (λ j. j.food_pre_order_id == x.id) s.items k
                    i q in
                let (p, there_before) = whole k i before in
                elim (Bool-cases (x.id == i.food_pre_order_id)) [
                  | inl hit ↦ (o, saved i.food_pre_order_id ∙ rw hit refl)
                  | inr miss ↦ (p, saved i.food_pre_order_id ∙ rw miss there_before)
                ];
            others = λ k ne. ground (arith, saved k);
          },
        )

    upsert-none :
        (order : UpstreamOrder) (item : UpstreamOrderItem) (event : UpstreamEvent)
        (table : Option UpstreamTable) (s : State W)
        → NoOrphans s
        → find_for_ticket u db item.id s ≡ none
        → (o : FoodPreOrder) × (s' : State W) × (upsert cutoff u db order item event table none s
            ≡ (ok o, s'))
          × IsEmptied item.id o s s'
    unfolding upsert NoOrphans
    upsert-none order item event table s whole missing =
        let o : FoodPreOrder = record {
          id = db.food_orders.fresh s.food_orders;
          order_id = some order.id;
          order_item_id = some item.id;
          event_id = order.event_id;
          restaurant_id = event.restaurant_id;
          buyer_id = some order.buyer_id;
          seat_id = item.seat_id;
          seat_label = item.seat_label;
          table_id = id_of table;
          table_number = number_of table;
          status = received;
          source = pre_order;
          created_by_user_id = none;
          notes = none;
          client_request_id = none;
        } in
        let free : (k : ℕ) (y : FoodPreOrder)
            → row (λ x. x.id) k s.food_orders ≡ some y
            → same_food_order o y ≡ false =
          λ k y at. ground (
            arith,
            lawful.find_one-none (λ x. is_of_item item.id x.order_item_id) s.food_orders k y missing
                at,
          ) in
        let (t, e) = insert-fresh (λ x. x.id) lawful o s.food_orders refl free in
        let (at, kept) = insert-fresh_row (λ x. x.id) lawful o s.food_orders t refl e in
        (
          o,
          record s { food_orders = t },
          ground (arith, e),
          record {
            of_ticket = refl;
            stored = at;
            empty = ap length (
                find-nil (λ i. i.id) lawful_items (λ i. i.food_pre_order_id == o.id) s.items
                  λ k i q.
                    let (p, there_before) = whole k i q in
                    elim (Bool-cases (i.food_pre_order_id == o.id)) [
                      | inr ne ↦ ne
                      | inl eq ↦ absurd (ground (arith, lawful.row-fresh s.food_orders))
                    ]);
            no_orphans = λ k i q.
                let (p, there_before) = whole k i q in (p, kept i.food_pre_order_id p there_before);
            others = λ k ne. ground (arith, lawful.row-insert o s.food_orders t k e);
          },
        )

    upsert-IsEmptied :
        (order : UpstreamOrder) (item : UpstreamOrderItem) (event : UpstreamEvent)
        (table : Option UpstreamTable) (s : State W)
        → NoOrphans s
        → (o : FoodPreOrder) × (s' : State W) × (upsert cutoff u db order item event table
              (find_for_ticket u db item.id s)
              s
            ≡ (ok o, s'))
          × IsEmptied item.id o s s'
    upsert-IsEmptied order item event table s whole =
        elim (Option-cases (find_for_ticket u db item.id s)) [
          | inl e ↦ rw e (upsert-none order item event table s whole e)
          | inr (x, e) ↦ rw e (upsert-some order item event table x s whole e)
        ]

    replace-IsReplaced :
        (order : UpstreamOrder) (item : UpstreamOrderItem) (event : UpstreamEvent)
        (fs : List PreparedFood) (s : State W)
        → NoOrphans s
        → (snap : FoodPreOrderSnapshot) × (s' : State W) × (replace cutoff u db order item event fs
              s
            ≡ (ok snap, s'))
          × IsReplaced item.id fs snap s s'
    unfolding replace insert_items NoOrphans
    replace-IsReplaced order item event fs s whole =
        let (o, s1, first, emptied) =
          upsert-IsEmptied order item event
            (table_of cutoff u db item.seat_id event.seat_map_version_id) s whole in
        let (is, t, e, all_stored, grows) = stored-IsStored db lawful_items o.id fs s1.items in
        let snap : FoodPreOrderSnapshot = record { order = o; items = is } in
        (
          snap,
          publish u db order.event_id snap (record s1 { items = t }),
          ground (arith, first, e),
          record {
            of_ticket = emptied.of_ticket;
            stored = emptied.stored;
            items = all_stored;
            no_more = grows.counted ∙ rw emptied.empty (omega arith);
            no_orphans = λ k i q. elim (grows.new k i q) [
              | inl before ↦ emptied.no_orphans k i before
              | inr mine ↦ (o, rw mine emptied.stored)
            ];
            others = emptied.others;
          },
        )

    -- A pre-order of a ticket, on an order that is not void, before editing closes, of items that are
    -- on the menu and available, always goes through. The ticket then has one food order with the
    -- names and prices of the menu, and of earlier items none is left; the food orders of other
    -- tickets stay, and no item is without its food order.
    pub submit_lem :
        (item_id : ℕ) (dto : SubmitFoodPreOrder) (authorization now : ℕ) (s : State W)
        (order : UpstreamOrder) (item : UpstreamOrderItem) (event : UpstreamEvent)
        (fs : List PreparedFood)
        → NoOrphans s
        → fetch_order_as_caller (u.get_order dto.order_id authorization) ≡ ok order
        → is_void order.status ≡ false
        → find? (λ i. i.id == item_id) order.items ≡ some item
        → fetch_event (u.get_event order.event_id) ≡ ok event
        → leb event.starts_at (now + cutoff * 60000) ≡ false
        → resolve_menu_items (u.get_menu event.restaurant_id) dto.items ≡ ok fs
        → (snap : FoodPreOrderSnapshot) × (s' : State W) × (submit cutoff u db item_id dto
              authorization now s
            ≡ (ok snap, s'))
          × IsReplaced item.id fs snap s s'
    unfolding submit
    submit_lem item_id dto authorization now s order item event fs whole ordered live found known
          early resolved =
        let (snap, s', run, replaced) = replace-IsReplaced order item event fs s whole in
        (snap, s', ground (arith, run), replaced)
