-- ===== src/Orders/Create/Discount.antt =====
-- How much a promo code may take off an order.
use ceylon_events.Common.{
  ℕ, ◌+◌, ◌-◌, ◌*◌, ◌/◌, ◌≤◌, ◌<◌, ◌≡◌, refl, pos, negsuc, Option, none, some, List, arith, sum_by,
  sum_by-keep-le, ◌==◌, String,
}
use ceylon_events.Shared.{JwtAccessPayload, percentage}
use ceylon_events.Orders.Types.{PromoCode, CreateOrder}
use ceylon_events.Orders.Upstream.{Upstream, Database}
use ceylon_events.Orders.Cart.{PreparedItem, Cart}
use ceylon_events.Orders.Create.{discount_for, discount_of, applicable_subtotal, new_order}

abbrev pub subtotal_of : List PreparedItem → ℕ
subtotal_of items = sum_by (λ i. i.price_minor_units) items

applicable-le :
    (tier : Option ℕ) (items : List PreparedItem)
    → applicable_subtotal tier items ≤ subtotal_of items
applicable-le none items = omega arith
applicable-le (some t) items =
    sum_by-keep-le (λ i. i.price_minor_units) (λ i. i.ticket_tier_id == t) items

percent-le : (a v : ℕ) → v ≤ 100 → a * v / 100 ≤ a
percent-le a v h = let le : a * v ≤ a * 100 = grind arith in omega (arith, le)

discount_for-le :
    (code : PromoCode) (items : List PreparedItem)
    → (code.discount_type ≡ percentage → code.discount_value ≤ 100)
    → discount_for code items ≤ subtotal_of items
unfolding discount_for
discount_for-le code items h =
    let a = applicable_subtotal code.applicable_ticket_tier_id items in
    ground
      (arith, applicable-le code.applicable_ticket_tier_id items, percent-le a code.discount_value)

discount_of-le :
    (promo : Option PromoCode) (items : List PreparedItem)
    → ((code : PromoCode)
        → promo ≡ some code
        → code.discount_type ≡ percentage
        → code.discount_value ≤ 100)
    → discount_of promo items ≤ subtotal_of items
discount_of-le none items h = omega arith
discount_of-le (some code) items h = discount_for-le code items (h code refl)

module _ {W : Type 0} (u : Upstream W) (db : Database) (to_upper : String → String) where
  -- With no percentage above 100 the buyer owes the subtotal less the discount, which is never
  -- below nothing nor above the subtotal.
  pub new_order-total :
      (dto : CreateOrder) (caller : JwtAccessPayload) (cart : Cart) (promo : Option PromoCode)
      (id : ℕ)
      → ((code : PromoCode)
          → promo ≡ some code
          → code.discount_type ≡ percentage
          → code.discount_value ≤ 100)
      → let order = new_order u db to_upper dto caller cart promo id in
        (n : ℕ) × (order.total_minor_units ≡ pos n)
        × (n + order.discount_minor_units ≡ order.subtotal_minor_units)
        × (order.subtotal_minor_units ≡ subtotal_of cart.items)
  new_order-total dto caller cart promo id h =
      let le = discount_of-le promo cart.items h in
      (subtotal_of cart.items - discount_of promo cart.items, ground arith, omega arith, refl)

  -- A percentage above 100 on an order of 100 minor units or more makes the total negative.
  new_order-overdiscount :
      (dto : CreateOrder) (caller : JwtAccessPayload) (cart : Cart) (code : PromoCode) (id : ℕ)
      → code.discount_type ≡ percentage
      → code.applicable_ticket_tier_id ≡ none
      → 100 < code.discount_value
      → 100 ≤ subtotal_of cart.items
      → (n : ℕ) × ((new_order u db to_upper dto caller cart (some code) id).total_minor_units
          ≡ negsuc n)
  unfolding discount_for
  new_order-overdiscount dto caller cart code id e whole above enough =
      let a = subtotal_of cart.items in
      let more : a < a * code.discount_value / 100 =
        let le : a * 101 ≤ a * code.discount_value = grind arith in omega (arith, le) in
      (a * code.discount_value / 100 - a - 1, ground arith)
