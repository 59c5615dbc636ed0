-- ===== src/Food/Menu.antt =====
-- `resolveMenuItems` of services/food-order-service/src/food-orders/food-orders.service.ts: names and
-- prices come from the menu; and the rows of the items.
pub mod Stored
use ceylon_events.Common.{
  ℕ, Bool, true, false, not, Option, none, some, List, [], ◌∷◌, ◌++◌, ◌==◌, if◌then◌else◌, String,
  Response, Result, Action, ok, err, bad_request, internal_error, gets, lift,
}
use ceylon_events.Food.Types.{
  FoodPreOrderItem, FoodPreOrderItemInput, UpstreamMenuItem, UpstreamMenuCategory, Reason, Database,
  State, not_on_menu, not_available,
}
use ceylon_events.Food.{fetch_menu}

pub record PreparedFood : Type 0 where
  pub menu_item_id : ℕ
  pub menu_item_name : String
  pub quantity : ℕ
  pub notes : Option String
  pub price_minor_units : ℕ

abbrev pub menu_items : List UpstreamMenuCategory → List UpstreamMenuItem
menu_items [] = []
menu_items (category ∷ categories) = category.items ++ menu_items categories

-- `new Map(…)`: of two items with one id the later stays.
abbrev pub by_id : List UpstreamMenuItem → ℕ → Option UpstreamMenuItem
by_id [] id = none
by_id (item ∷ items) id =
    let rest = by_id items id in
    elim rest [ some later ↦ some later | none ↦ if item.id == id then some item else none ]

abbrev pub prepared : FoodPreOrderItemInput → UpstreamMenuItem → PreparedFood
prepared input item = record {
  menu_item_id = item.id;
  menu_item_name = item.name;
  quantity = input.quantity;
  notes = input.notes;
  price_minor_units = item.price_minor_units;
}

unfoldable pub resolve :
    List UpstreamMenuItem → List FoodPreOrderItemInput → Result Reason (List PreparedFood)
resolve menu [] = ok []
resolve menu (input ∷ inputs) =
    let rest = resolve menu inputs in
    elim (by_id menu input.menu_item_id) [
      | none ↦ err (bad_request (not_on_menu input.menu_item_id))
      | some item ↦
          if not item.is_available
          then err (bad_request (not_available item.name))
          else elim rest [ err e ↦ err e | ok foods ↦ ok (prepared input item ∷ foods) ]
    ]

unfoldable pub resolve_menu_items :
    Response (List UpstreamMenuCategory)
    → List FoodPreOrderItemInput
    → Result Reason (List PreparedFood)
unfolding resolve
resolve_menu_items answer inputs = elim (fetch_menu answer) [
  | err e ↦ err e
  | ok categories ↦ resolve (menu_items categories) inputs
]

module _ (db : Database) where
  -- The rows of new items; TypeORM saves a list in one transaction.
  unfoldable pub stored :
      ℕ
      → List PreparedFood
      → List FoodPreOrderItem
      → Option (List FoodPreOrderItem × List FoodPreOrderItem)
  stored order_id [] t = some ([], t)
  stored order_id (food ∷ foods) t =
      let item : FoodPreOrderItem = record {
        id = db.items.fresh t;
        food_pre_order_id = order_id;
        menu_item_id = food.menu_item_id;
        menu_item_name = food.menu_item_name;
        quantity = food.quantity;
        notes = food.notes;
        price_minor_units = food.price_minor_units;
      } in
      elim (db.items.insert item t) [
        | none ↦ none
        | some t1 ↦ elim (stored order_id foods t1) [
          | none ↦ none
          | some (items, t2) ↦ some (item ∷ items, t2)
        ]
      ]

  unfoldable pub insert_items :
      {W : Type 0} → ℕ → List PreparedFood → Action (State W) Reason (List FoodPreOrderItem)
  unfolding stored
  insert_items order_id foods s = elim (stored order_id foods s.items) [
    | none ↦ (err internal_error, s)
    | some (items, table) ↦ (ok items, record s { items = table })
  ]
