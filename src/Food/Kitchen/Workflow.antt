-- ===== src/Food/Kitchen/Workflow.antt =====
-- The status workflow: which food orders an update reaches.
use ceylon_events.Common.{
  ℕ, ◌≡◌, refl, ◌∙◌, ap, subst, ◌⊎◌, inl, inr, Bool, true, some, List, [], ◌∷◌, arith, ◌==◌, ==_iff,
  ==_refl, if◌then◌else◌, Exception, ok, err, not_found, forbidden, Elem, here, there, All,
  IsRepository, row-key, find_one-key, Option-cases, Bool-cases,
}
use ceylon_events.Shared.{FoodOrderStatus, JwtAccessPayload, can_manage_restaurant}
use ceylon_events.Food.Types.{
  FoodPreOrder, FoodPreOrderSnapshot, Reason, Upstream, Database, State, same_food_order,
  food_order_not_found, may_not_manage,
}
use ceylon_events.Food.Kitchen.{
  update_status_by_id, get_owned_by_id_or_throw, check_owned, move_to, notify_if_ready,
  notify_buyer, bulk_update_status,
}
use ceylon_events.Food.Submit.Replaced.{food_row}

-- The status of an order changed, and nothing else of it.
abbrev pub moved : FoodOrderStatus → FoodPreOrder → FoodPreOrder
moved status x = record x { status = status }

-- Items stay, and so does each order, but for the status of those that were asked for and that the
-- caller may manage.
pub record Reaches {W : Type 0} (ids : List ℕ) (status : FoodOrderStatus)
    (caller : JwtAccessPayload) (s s' : State W) : Type 0 where
  pub items : s'.items ≡ s.items
  pub orders :
      (k : ℕ) (x : FoodPreOrder)
      → food_row k s ≡ some x
      → (food_row k s' ≡ some x)
        ⊎ (Elem k ids
            × (can_manage_restaurant caller x.restaurant_id ≡ true)
            × (food_row k s' ≡ some (moved status x)))

abbrev pub HasStatus : {W : Type 0} → FoodOrderStatus → State W → ℕ → Type 0
HasStatus status s id = (x : FoodPreOrder) × (food_row id s ≡ some x) × (x.status ≡ status)

module _ {W : Type 0} (configured : Bool) (u : Upstream W) (db : Database)
    (lawful : IsRepository (λ o. o.id) same_food_order db.food_orders) where
  moved-rows :
      (id : ℕ) (status : FoodOrderStatus) (x : FoodPreOrder) (s : State W)
      → food_row id s ≡ some x
      → let (r, s') = move_to configured u db status x s in
        ((snap : FoodPreOrderSnapshot) × (r ≡ ok snap))
        × (s'.items ≡ s.items)
        × ((k : ℕ) → food_row k s' ≡ (if id == k then some (moved status x) else food_row k s))
  unfolding move_to notify_if_ready notify_buyer
  moved-rows id status x s at =
      let same : x.id ≡ id = row-key (λ o. o.id) s.food_orders id x at in
      (
        (_, refl),
        ground arith,
        λ k. ground (arith, lawful.row-save (moved status x) s.food_orders k),
      )

  update_status_by_id-cases :
      (id : ℕ) (status : FoodOrderStatus) (caller : JwtAccessPayload) (s : State W)
      → let (r, s') = update_status_by_id configured u db id status caller s in
        ((e : Exception Reason) × (r ≡ err e) × (s' ≡ s))
        ⊎ ((x : FoodPreOrder) × (snap : FoodPreOrderSnapshot) × (food_row id s ≡ some x)
            × (can_manage_restaurant caller x.restaurant_id ≡ true)
            × (r ≡ ok snap)
            × (s'.items ≡ s.items)
            × ((k : ℕ) → food_row k s' ≡ (if id == k then some (moved status x) else food_row k s)))
  unfolding update_status_by_id get_owned_by_id_or_throw check_owned
  update_status_by_id-cases id status caller s =
      let found = find_one-key (λ o. o.id) lawful id s.food_orders in
      elim (Option-cases (food_row id s)) [
        | inl e ↦ inl (not_found food_order_not_found, ground (arith, found), ground (arith, found))
        | inr (x, at) ↦ elim (Bool-cases (can_manage_restaurant caller x.restaurant_id)) [
          | inr no_access ↦
              inl (forbidden may_not_manage, ground (arith, found), ground (arith, found))
          | inl access ↦
              let run : update_status_by_id configured u db id status caller s
                  ≡ move_to configured u db status x s =
                ground (arith, found) in
              let ((snap, done), items, rows) = moved-rows id status x s at in
              inr (
                x,
                snap,
                at,
                access,
                ap (λ q. q.0) run ∙ done,
                ap (λ q. q.1.items) run ∙ items,
                λ k. ap (λ q. food_row k q.1) run ∙ rows k,
              )
        ]
      ]

  Reaches-then :
      (id : ℕ) (ids : List ℕ) (status : FoodOrderStatus) (caller : JwtAccessPayload)
      (x : FoodPreOrder) (s s1 s' : State W)
      → food_row id s ≡ some x
      → can_manage_restaurant caller x.restaurant_id ≡ true
      → s1.items ≡ s.items
      → ((k : ℕ) → food_row k s1 ≡ (if id == k then some (moved status x) else food_row k s))
      → Reaches ids status caller s1 s'
      → Reaches (id ∷ ids) status caller s s'
  Reaches-then id ids status caller x s s1 s' at access items rows rest = record {
    items = rest.items ∙ items;
    orders = λ k y there_before. elim (Bool-cases (id == k)) [
      | inl hit ↦
          let same : id ≡ k = ground (arith, ==_iff id k) in
          let y_is : x ≡ y = ground (arith, subst (λ j. food_row j s ≡ some x) same at) in
          let now_at : food_row k s1 ≡ some (moved status y) = ground (arith, rows k) in
          let may : can_manage_restaurant caller y.restaurant_id ≡ true = ground arith in
          elim (rest.orders k (moved status y) now_at) [
            | inl kept ↦ inr (here same, may, kept)
            | inr (later, access', again) ↦ inr (here same, may, again)
          ]
      | inr miss ↦ elim (rest.orders k y (ground (arith, rows k))) [
        | inl kept ↦ inl kept
        | inr (later, access', again) ↦ inr (there later, access', again)
      ]
    ];
  }

  kept-HasStatus :
      (ids : List ℕ) (status : FoodOrderStatus) (caller : JwtAccessPayload) (id : ℕ)
      (s s' : State W)
      → Reaches ids status caller s s'
      → HasStatus status s id
      → HasStatus status s' id
  kept-HasStatus ids status caller id s s' reached (x, at, has) = elim (reached.orders id x at) [
    | inl kept ↦ (x, kept, has)
    | inr (later, access, again) ↦ (moved status x, again, refl)
  ]

  -- A bulk update, whether it returns or throws, reaches no order but those asked for that the caller
  -- may manage, changes only their status, loses no order and writes no item. When it returns, every
  -- order asked for has the status.
  pub bulk_update_status_lem :
      (ids : List ℕ) (status : FoodOrderStatus) (caller : JwtAccessPayload) (s : State W)
      → let (r, s') = bulk_update_status configured u db ids status caller s in
        Reaches ids status caller s s'
        × (((e : Exception Reason) × (r ≡ err e))
            ⊎ ((snaps : List FoodPreOrderSnapshot) × (r ≡ ok snaps)
                × All (HasStatus status s') ids))
  unfolding bulk_update_status
  bulk_update_status_lem [] status caller s =
      (record { items = refl; orders = λ k x at. inl at }, inr ([], refl, tt))
  bulk_update_status_lem (id ∷ ids) status caller s =
      let first = update_status_by_id configured u db id status caller s in
      let s1 = first.1 in
      let rest = bulk_update_status configured u db ids status caller s1 in
      let all = bulk_update_status configured u db (id ∷ ids) status caller s in
      elim (update_status_by_id-cases id status caller s) [
        | inl (e, failed, same) ↦ (
          record { items = ground arith; orders = λ k x at. inl (ground arith) },
          inl (e, ground arith),
        )
        | inr (x, snap, at, access, done, items, rows) ↦
            let (reached, ended) = bulk_update_status_lem ids status caller s1 in
            let state : rest.1 ≡ all.1 = ground arith in
            let through =
              Reaches-then id ids status caller x s s1 rest.1 at access items rows reached in
            (
              subst (Reaches (id ∷ ids) status caller s) state through,
              elim ended [
                | inl (e, failed) ↦ inl (e, ground arith)
                | inr (snaps, returned, have) ↦
                    let first_has : HasStatus status s1 id =
                      (moved status x, ground (arith, rows id, ==_refl id), refl) in
                    inr (
                      snap ∷ snaps,
                      ground arith,
                      subst (λ z. All (HasStatus status z) (id ∷ ids)) state
                          (kept-HasStatus ids status caller id s1 rest.1 reached first_has, have),
                    )
              ],
            )
      ]
