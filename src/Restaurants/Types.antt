-- ===== src/Restaurants/Types.antt =====
-- The rows, the request bodies and the errors of restaurant-service: restaurants/ and menu/ of
-- services/restaurant-service/src, their entities and dto. A rating is a double that the service only
-- copies: it stands as the number of its 64 bits.
use ceylon_events.Common.{ℕ, Bool, Option, List, String, Repository}

pub data RestaurantStatus : Type 0 where
  pending approved suspended : RestaurantStatus

pub data DietaryTag : Type 0 where
  veg vegan gluten_free spicy : DietaryTag

pub record Restaurant : Type 0 where
  pub id : ℕ
  pub name : String
  pub description : Option String
  pub address : String
  pub contact_email : String
  pub contact_phone : Option String
  pub cover_photo_url : Option String
  pub status : RestaurantStatus
  pub owner_user_id : Option ℕ

pub record CreateRestaurant : Type 0 where
  pub name : String
  pub description : Option String
  pub address : String
  pub contact_email : String
  pub contact_phone : Option String

-- A field that is absent stays.
pub record UpdateRestaurant : Type 0 where
  pub name : Option String
  pub description : Option String
  pub address : Option String
  pub contact_email : Option String
  pub contact_phone : Option String
  pub cover_photo_url : Option String

pub record MenuCategory : Type 0 where
  pub id : ℕ
  pub restaurant_id : ℕ
  pub name : String
  pub sort_order : ℕ

pub record MenuItem : Type 0 where
  pub id : ℕ
  pub restaurant_id : ℕ
  pub category_id : ℕ
  pub name : String
  pub description : Option String
  pub price_minor_units : ℕ
  pub currency : String
  pub dietary_tags : List DietaryTag
  pub is_available : Bool
  pub photo_urls : List String
  pub avg_rating : Option ℕ

pub record CreateMenuCategory : Type 0 where
  pub name : String
  pub sort_order : Option ℕ

pub record CreateMenuItem : Type 0 where
  pub category_id : ℕ
  pub name : String
  pub description : Option String
  pub price_minor_units : ℕ
  pub currency : Option String
  pub dietary_tags : Option (List DietaryTag)
  pub is_available : Option Bool
  pub photo_urls : Option (List String)

pub record UpdateMenuItem : Type 0 where
  pub category_id : Option ℕ
  pub name : Option String
  pub description : Option String
  pub price_minor_units : Option ℕ
  pub currency : Option String
  pub dietary_tags : Option (List DietaryTag)
  pub is_available : Option Bool
  pub photo_urls : Option (List String)

-- The messages of the exceptions that the service throws.
pub data Reason : Type 0 where
  restaurant_not_found may_not_update menu_category_not_found menu_item_not_found
        may_not_manage_menu :
      Reason

pub record Database : Type 0 where
  pub restaurants : Repository Restaurant
  pub categories : Repository MenuCategory
  pub items : Repository MenuItem

pub record State : Type 0 where
  pub restaurants : List Restaurant
  pub categories : List MenuCategory
  pub items : List MenuItem
