-- ===== src/Restaurants.antt =====
-- services/restaurant-service/src/restaurants/restaurants.service.ts, method by method. The menus are in Menu.
pub mod Types
pub mod Menu
use ceylon_events.Common.{
  ℕ, Bool, true, false, not, ◌&&◌, Option, none, some, ◌==◌, or_else, if◌then◌else◌, Action, ok,
  err, not_found, forbidden, internal_error, pure, gets, modify, throw_if, or_throw, ◌>>=◌, ◌>>◌,
}
use ceylon_events.Shared.{
  PaginatedResult, paginated, JwtAccessPayload, is_platform_admin, can_manage_restaurant,
  may_manage,
}
use Types.{
  RestaurantStatus, Restaurant, CreateRestaurant, UpdateRestaurant, Reason, Database, State,
  restaurant_not_found, may_not_update,
}

abbrev pub is_approved : RestaurantStatus → Bool
is_approved s = elim s [ RestaurantStatus.approved ↦ true | _ ↦ false ]

-- `isPlatformAdmin(caller)`, where there may be no caller.
abbrev pub is_admin : Option JwtAccessPayload → Bool
is_admin none = false
is_admin (some caller) = is_platform_admin caller

merge : UpdateRestaurant → Restaurant → Restaurant
merge dto restaurant = record restaurant {
  name = or_else dto.name restaurant.name;
  description = elim dto.description [ none ↦ restaurant.description | some x ↦ some x ];
  address = or_else dto.address restaurant.address;
  contact_email = or_else dto.contact_email restaurant.contact_email;
  contact_phone = elim dto.contact_phone [ none ↦ restaurant.contact_phone | some x ↦ some x ];
  cover_photo_url = elim dto.cover_photo_url [
    | none ↦ restaurant.cover_photo_url
    | some x ↦ some x
  ];
}

module _ (db : Database) where
  insert_restaurant : Restaurant → Action State Reason Restaurant
  insert_restaurant r s = elim (db.restaurants.insert r s.restaurants) [
    | none ↦ (err internal_error, s)
    | some table ↦ (ok r, record s { restaurants = table })
  ]

  pub create : CreateRestaurant → Action State Reason Restaurant
  unfolding insert_restaurant
  create dto = do
    id ← gets (λ s. db.restaurants.fresh s.restaurants)
    insert_restaurant (record {
      id = id;
      name = dto.name;
      description = dto.description;
      address = dto.address;
      contact_email = dto.contact_email;
      contact_phone = dto.contact_phone;
      cover_photo_url = none;
      status = RestaurantStatus.pending;
      owner_user_id = none;
    })

  pub find_all : ℕ → ℕ → Option JwtAccessPayload → State → PaginatedResult Restaurant
  find_all page page_size caller s = paginated page page_size (
      db.restaurants.find (λ r. if is_admin caller then true else is_approved r.status)
        s.restaurants)

  unfoldable pub find_by_id_or_throw : ℕ → Action State Reason Restaurant
  find_by_id_or_throw id = do
    found ← gets (λ s. db.restaurants.find_one (λ r. r.id == id) s.restaurants)
    or_throw found (not_found restaurant_not_found)

  unfoldable pub find_visible_or_throw :
      ℕ → Option JwtAccessPayload → Action State Reason Restaurant
  find_visible_or_throw id caller = do
    found ← gets (λ s. db.restaurants.find_one (λ r. r.id == id) s.restaurants)
    restaurant ← or_throw found (not_found restaurant_not_found)
    throw_if (not (is_approved restaurant.status) && not (may_manage caller id))
        (not_found restaurant_not_found)
    pure restaurant

  pub update_status : ℕ → RestaurantStatus → Action State Reason Restaurant
  unfolding find_by_id_or_throw
  update_status id status = do
    restaurant ← find_by_id_or_throw id
    modify (λ s. record s {
      restaurants = db.restaurants.save (record restaurant { status = status }) s.restaurants;
    })
    pure (record restaurant { status = status })

  pub update : ℕ → UpdateRestaurant → JwtAccessPayload → Action State Reason Restaurant
  unfolding find_by_id_or_throw merge
  update id dto caller = do
    throw_if (not (can_manage_restaurant caller id)) (forbidden may_not_update)
    restaurant ← find_by_id_or_throw id
    modify
        (λ s. record s { restaurants = db.restaurants.save (merge dto restaurant) s.restaurants })
    pure (merge dto restaurant)

  unfoldable pub assert_visible : ℕ → Option JwtAccessPayload → Action State Reason Restaurant
  assert_visible id caller = find_visible_or_throw id caller
