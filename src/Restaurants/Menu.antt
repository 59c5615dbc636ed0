-- ===== src/Restaurants/Menu.antt =====
-- services/restaurant-service/src/menu/menu.service.ts, method by method.
pub mod Served
use ceylon_events.Common.{
  ℕ, Bool, true, not, ◌&&◌, ◌||◌, Option, none, some, List, [], map, keep, ◌==◌, or_else,
  if◌then◌else◌, String, Action, ok, err, not_found, forbidden, internal_error, pure, gets, modify,
  throw_if, or_throw, ◌>>=◌, ◌>>◌,
}
use ceylon_events.Shared.{JwtAccessPayload, can_manage_restaurant, may_manage}
use ceylon_events.Restaurants.Types.{
  MenuCategory, MenuItem, CreateMenuCategory, CreateMenuItem, UpdateMenuItem, Reason, Database,
  State, menu_category_not_found, menu_item_not_found, may_not_manage_menu,
}
use ceylon_events.Restaurants.{find_by_id_or_throw, assert_visible}

pub record MenuCategoryWithItems : Type 0 where
  pub category : MenuCategory
  pub items : List MenuItem

merge : UpdateMenuItem → MenuItem → MenuItem
merge dto item = record item {
  category_id = or_else dto.category_id item.category_id;
  name = or_else dto.name item.name;
  description = elim dto.description [ none ↦ item.description | some x ↦ some x ];
  price_minor_units = or_else dto.price_minor_units item.price_minor_units;
  currency = or_else dto.currency item.currency;
  dietary_tags = or_else dto.dietary_tags item.dietary_tags;
  is_available = or_else dto.is_available item.is_available;
  photo_urls = or_else dto.photo_urls item.photo_urls;
}

-- An item of a category, on the menu of a caller.
abbrev pub shown : Bool → MenuCategory → MenuItem → Bool
shown can_manage category item =
    item.category_id == category.id && (can_manage || item.is_available)

module _ (db : Database) where
  abbrev assert_can_manage : ℕ → JwtAccessPayload → Action State Reason (Unit {0})
  assert_can_manage restaurant_id caller =
      throw_if (not (can_manage_restaurant caller restaurant_id)) (forbidden may_not_manage_menu)

  find_item_or_throw : ℕ → Action State Reason MenuItem
  find_item_or_throw item_id = do
    found ← gets (λ s. db.items.find_one (λ i. i.id == item_id) s.items)
    or_throw found (not_found menu_item_not_found)

  insert_category : MenuCategory → Action State Reason MenuCategory
  insert_category c s = elim (db.categories.insert c s.categories) [
    | none ↦ (err internal_error, s)
    | some table ↦ (ok c, record s { categories = table })
  ]

  insert_item : MenuItem → Action State Reason MenuItem
  insert_item i s = elim (db.items.insert i s.items) [
    | none ↦ (err internal_error, s)
    | some table ↦ (ok i, record s { items = table })
  ]

  pub create_category : ℕ → CreateMenuCategory → JwtAccessPayload → Action State Reason MenuCategory
  unfolding insert_category
  create_category restaurant_id dto caller = do
    assert_can_manage restaurant_id caller
    _ ← find_by_id_or_throw db restaurant_id
    id ← gets (λ s. db.categories.fresh s.categories)
    insert_category (record {
      id = id;
      restaurant_id = restaurant_id;
      name = dto.name;
      sort_order = or_else dto.sort_order 0;
    })

  pub create_item : ℕ → CreateMenuItem → JwtAccessPayload → Action State Reason MenuItem
  unfolding insert_item
  create_item restaurant_id dto caller = do
    assert_can_manage restaurant_id caller
    found ← gets λ s.
        db.categories.find_one (λ c. c.id == dto.category_id && c.restaurant_id == restaurant_id)
          s.categories
    _ ← or_throw found (not_found menu_category_not_found)
    id ← gets (λ s. db.items.fresh s.items)
    insert_item (record {
      id = id;
      restaurant_id = restaurant_id;
      category_id = dto.category_id;
      name = dto.name;
      description = dto.description;
      price_minor_units = dto.price_minor_units;
      currency = or_else dto.currency "LKR";
      dietary_tags = or_else dto.dietary_tags [];
      is_available = or_else dto.is_available true;
      photo_urls = or_else dto.photo_urls [];
      avg_rating = none;
    })

  pub update_item : ℕ → UpdateMenuItem → JwtAccessPayload → Action State Reason MenuItem
  unfolding find_item_or_throw merge
  update_item item_id dto caller = do
    item ← find_item_or_throw item_id
    assert_can_manage item.restaurant_id caller
    modify (λ s. record s { items = db.items.save (merge dto item) s.items })
    pure (merge dto item)

  pub delete_item : ℕ → JwtAccessPayload → Action State Reason (Unit {0})
  unfolding find_item_or_throw
  delete_item item_id caller = do
    item ← find_item_or_throw item_id
    assert_can_manage item.restaurant_id caller
    modify (λ s. record s { items = db.items.remove (λ i. i.id == item.id) s.items })

  abbrev pub menu_of : Bool → ℕ → State → List MenuCategoryWithItems
  menu_of can_manage restaurant_id s =
      let items = db.items.find (λ i. i.restaurant_id == restaurant_id) s.items in
      map (λ c. record { category = c; items = keep (shown can_manage c) items })
        (db.categories.find (λ c. c.restaurant_id == restaurant_id) s.categories)

  unfoldable pub get_menu :
      ℕ → Option JwtAccessPayload → Action State Reason (List MenuCategoryWithItems)
  unfolding assert_visible
  get_menu restaurant_id caller = do
    _ ← assert_visible db restaurant_id caller
    gets (menu_of (may_manage caller restaurant_id) restaurant_id)
