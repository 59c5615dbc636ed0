-- ===== src/Food/Waiter/Repeated.antt =====
-- A waiter's order that is sent again with the same key.
use ceylon_events.Common.{
  ◌≡◌, refl, ◌∙◌, sym, ap, inl, inr, true, Option, none, some, List, arith, String, str_eq_iff, ok,
  IsRepository, row, insert-fresh_row, no_clash, Option-cases, Bool-cases, Result-cases,
}
use ceylon_events.Shared.{JwtAccessPayload, can_manage_restaurant}
use ceylon_events.Food.Types.{
  FoodPreOrder, FoodPreOrderSnapshot, SubmitWaiterFoodOrder, Upstream, Database, State,
  same_food_order,
}
use ceylon_events.Food.{with_items, fetch_event}
use ceylon_events.Food.Menu.{PreparedFood, insert_items, resolve_menu_items}
use ceylon_events.Food.Menu.Stored.{stored-IsStored}
use ceylon_events.Food.Waiter.{
  key_of, has_key, find_by_key, waiter_order, place, create_new, create_waiter_order, booked_table,
}

-- The unique index of the keys.
unfoldable pub UniqueKeys : {W : Type 0} → State W → Type 0
UniqueKeys s =
    (a b : FoodPreOrder) (key : String)
    → row (λ o. o.id) a.id s.food_orders ≡ some a
    → row (λ o. o.id) b.id s.food_orders ≡ some b
    → has_key key a.client_request_id ≡ true
    → has_key key b.client_request_id ≡ true
    → a ≡ b

has_key-key_of : (k : Option String) (key : String) → key_of k ≡ some key → has_key key k ≡ true
has_key-key_of none key e = cc
has_key-key_of (some k) key e = ground (arith, str_eq_iff k key)

module _ {W : Type 0} (u : Upstream W) (db : Database)
    (lawful : IsRepository (λ o. o.id) same_food_order db.food_orders)
    (lawful_items : IsRepository (λ i. i.id) no_clash db.items) where
  -- The order that a call returned is the one that its key finds.
  abbrev pub Found : String → FoodPreOrderSnapshot → State W → Type 0
  Found key snap s = UniqueKeys s → find_by_key u db (some key) s ≡ some snap.order

  stored-Found :
      (key : String) (o : FoodPreOrder) (s : State W)
      → row (λ x. x.id) o.id s.food_orders ≡ some o
      → has_key key o.client_request_id ≡ true
      → UniqueKeys s
      → find_by_key u db (some key) s ≡ some o
  unfolding UniqueKeys
  stored-Found key o s at keyed unique = elim (Option-cases (find_by_key u db (some key) s)) [
    | inl e ↦
        let missed =
          lawful.find_one-none (λ x. has_key key x.client_request_id) s.food_orders o.id o e at in
        cc
    | inr (x, e) ↦
        let (here, same) =
          lawful.find_one-some (λ y. has_key key y.client_request_id) s.food_orders x e in
        e ∙ ap some (unique x o key here at same keyed)
  ]

  place-Found :
      (key : String) (dto : SubmitWaiterFoodOrder) (o : FoodPreOrder) (foods : List PreparedFood)
      (s s' : State W) (snap : FoodPreOrderSnapshot)
      → key_of dto.client_request_id ≡ some key
      → o.client_request_id ≡ dto.client_request_id
      → o.id ≡ db.food_orders.fresh s.food_orders
      → place u db dto o foods s ≡ (ok snap, s')
      → Found key snap s'
  unfolding place insert_items
  place-Found key dto o foods s s' snap keyed same fresh h =
      elim (Option-cases (db.food_orders.insert o s.food_orders)) [
        | inl e ↦ elim (Option-cases (find_by_key u db (key_of dto.client_request_id) s)) [
          | inl e' ↦ absurd (ground arith)
          | inr (x, e') ↦
              let state : s ≡ s' = ground arith in
              let answer : x ≡ snap.order = ground arith in
              λ unique.
                ap (find_by_key u db (some key)) (sym state)
                ∙ ap (λ k. find_by_key u db k s) (sym keyed)
                ∙ e'
                ∙ ap some answer
        ]
        | inr (t, e) ↦
            let (is, t', e', all_stored, grows) =
              stored-IsStored db lawful_items o.id foods s.items in
            let answer : o ≡ snap.order = ground arith in
            let table : t ≡ s'.food_orders = ground arith in
            let at = (insert-fresh_row (λ x. x.id) lawful o s.food_orders t fresh e).0 in
            λ unique.
              stored-Found key o s' (ap (row (λ x. x.id) o.id) (sym table) ∙ at)
                (ap (has_key key) same ∙ has_key-key_of dto.client_request_id key keyed) unique
              ∙ ap some answer
      ]

  create_new-Found :
      (key : String) (others : State W → State W) (dto : SubmitWaiterFoodOrder)
      (caller : JwtAccessPayload) (s s' : State W) (snap : FoodPreOrderSnapshot)
      → key_of dto.client_request_id ≡ some key
      → create_new u db others dto caller s ≡ (ok snap, s')
      → Found key snap s'
  unfolding create_new
  create_new-Found key others dto caller s s' snap keyed h =
      elim (Result-cases (fetch_event (u.get_event dto.event_id))) [
        | inr (e, q) ↦ absurd (ground arith)
        | inl (event, q) ↦ elim (Bool-cases (can_manage_restaurant caller event.restaurant_id)) [
          | inr no_access ↦ absurd (ground arith)
          | inl access ↦ elim (Result-cases (booked_table u db event dto.table_id s).0) [
            | inr (e, q2) ↦ absurd (ground arith)
            | inl (table, q2) ↦
                elim (Result-cases
                  (resolve_menu_items (u.get_menu event.restaurant_id) dto.items)) [
                    | inr (e, q3) ↦ absurd (ground arith)
                    | inl (foods, q3) ↦
                        let s1 = others (booked_table u db event dto.table_id s).1 in
                        place-Found key dto (waiter_order u db dto caller event table s1) foods s1
                          s' snap keyed refl refl (ground arith)
                  ]
          ]
        ]
      ]

  -- A waiter's order that went through with a key, made now or before, is not made again: whoever
  -- sends any order with the key gets that order back, and nothing changes. Until then other
  -- requests may do anything between the two steps of the first one, if the keys stay unique.
  pub create_waiter_order-again :
      (key : String) (others others' : State W → State W) (dto dto' : SubmitWaiterFoodOrder)
      (caller caller' : JwtAccessPayload) (s s' : State W) (snap : FoodPreOrderSnapshot)
      → key_of dto.client_request_id ≡ some key
      → key_of dto'.client_request_id ≡ some key
      → create_waiter_order u db others dto caller s ≡ (ok snap, s')
      → UniqueKeys s'
      → create_waiter_order u db others' dto' caller' s' ≡ (ok (with_items u db snap.order s'), s')
  unfolding create_waiter_order
  create_waiter_order-again key others others' dto dto' caller caller' s s' snap keyed keyed' h
        unique =
      let found : find_by_key u db (some key) s' ≡ some snap.order =
        elim (Option-cases (find_by_key u db (key_of dto.client_request_id) s)) [
          | inl e ↦ create_new-Found key others dto caller s s' snap keyed (ground arith) unique
          | inr (x, e) ↦
              let state : s ≡ s' = ground arith in
              let answer : x ≡ snap.order = ground arith in
              ap (find_by_key u db (some key)) (sym state)
              ∙ ap (λ k. find_by_key u db k s) (sym keyed)
              ∙ e
              ∙ ap some answer
        ] in
      let found' : find_by_key u db (key_of dto'.client_request_id) s' ≡ some snap.order =
        ap (λ k. find_by_key u db k s') keyed' ∙ found in
      ground arith
