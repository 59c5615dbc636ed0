-- ===== src/Tests/Menus.antt =====
-- restaurant-service on a restaurant with one dish that is available and one that is not.
use ceylon_events.Common.{◌≡◌, refl, true, false, none, some, [], ◌∷◌, no_clash}
use ceylon_events.Common.Memory.{memory, memory-IsRepository}
use ceylon_events.Food.Menu.{by_id, menu_items}
use ceylon_events.Restaurants.Types.{
  RestaurantStatus, Restaurant, MenuCategory, MenuItem, Database, State,
}
use ceylon_events.Restaurants.{assert_visible, find_visible_or_throw}
use ceylon_events.Restaurants.Menu.{MenuCategoryWithItems, get_menu}
use ceylon_events.Restaurants.Menu.Served.{get_menu-served, menu_view, item_view}

abbrev database : Database
database = record {
  restaurants = memory (λ r. r.id) no_clash;
  categories = memory (λ c. c.id) no_clash;
  items = memory (λ i. i.id) no_clash;
}

abbrev bay : Restaurant
bay = record {
  id = 3;
  name = "Bay";
  description = none;
  address = "1 Beach Road";
  contact_email = "bay@example.com";
  contact_phone = none;
  cover_photo_url = none;
  status = RestaurantStatus.approved;
  owner_user_id = none;
}

abbrev mains : MenuCategory
mains = record { id = 4; restaurant_id = 3; name = "mains"; sort_order = 0 }

abbrev kottu : MenuItem
kottu = record {
  id = 20;
  restaurant_id = 3;
  category_id = 4;
  name = "kottu";
  description = none;
  price_minor_units = 900;
  currency = "LKR";
  dietary_tags = [];
  is_available = true;
  photo_urls = [];
  avg_rating = none;
}

abbrev hoppers : MenuItem
hoppers = record kottu { id = 21; name = "hoppers"; is_available = false }

abbrev stocked : State
stocked = record { restaurants = bay ∷ []; categories = mains ∷ []; items = kottu ∷ hoppers ∷ [] }

abbrev served : MenuCategoryWithItems
served = record { category = mains; items = kottu ∷ [] }

get_menu-served_example :
    (by_id (menu_items (menu_view (served ∷ []))) 20 ≡ some (item_view kottu))
    × (by_id (menu_items (menu_view (served ∷ []))) 21 ≡ none)
unfolding get_menu assert_visible find_visible_or_throw
get_menu-served_example =
    let found =
      (get_menu-served database (memory-IsRepository (λ c. c.id) no_clash)
        (memory-IsRepository (λ i. i.id) no_clash) 3 (served ∷ []) stocked stocked refl).0 in
    (found 20, found 21)
