-- ===== src/Food/Menu/Stored.antt =====
-- The rows that the items of a food order get.
use ceylon_events.Common.{
  ℕ, ◌+◌, ◌≡◌, refl, ◌⊎◌, inl, inr, Option, some, List, [], ◌∷◌, length, arith, ◌==◌, ==_refl,
  IsRepository, row, insert-fresh, insert-fresh_row, no_clash,
}
use ceylon_events.Food.Types.{FoodPreOrderItem, Database}
use ceylon_events.Food.Menu.{PreparedFood, stored}

abbrev pub item_row : ℕ → List FoodPreOrderItem → Option FoodPreOrderItem
item_row k t = row (λ i. i.id) k t

-- The stored item is the prepared one, of the order.
abbrev pub IsStored : ℕ → List PreparedFood → List FoodPreOrderItem → List FoodPreOrderItem → Type 0
IsStored id [] [] t = Unit
IsStored id [] (i ∷ is) t = ⊥
IsStored id (f ∷ fs) [] t = ⊥
IsStored id (f ∷ fs) (i ∷ is) t =
    (item_row i.id t ≡ some i)
    × (i.food_pre_order_id ≡ id)
    × (i.menu_item_id ≡ f.menu_item_id)
    × (i.menu_item_name ≡ f.menu_item_name)
    × (i.quantity ≡ f.quantity)
    × (i.notes ≡ f.notes)
    × (i.price_minor_units ≡ f.price_minor_units)
    × IsStored id fs is t

abbrev pub count_of : Database → ℕ → List FoodPreOrderItem → ℕ
count_of db id t = length (db.items.find (λ i. i.food_pre_order_id == id) t)

-- The table has grown by rows of the order alone.
pub record Grows (db : Database) (id n : ℕ) (t t' : List FoodPreOrderItem) : Type 0 where
  pub kept : (k : ℕ) (x : FoodPreOrderItem) → item_row k t ≡ some x → item_row k t' ≡ some x
  pub counted : count_of db id t' ≡ n + count_of db id t
  pub new :
      (k : ℕ) (x : FoodPreOrderItem)
      → item_row k t' ≡ some x
      → (item_row k t ≡ some x) ⊎ (x.food_pre_order_id ≡ id)

module _ (db : Database) (lawful : IsRepository (λ i. i.id) no_clash db.items) where
  pub stored-IsStored :
      (id : ℕ) (fs : List PreparedFood) (t : List FoodPreOrderItem)
      → (is : List FoodPreOrderItem) × (t' : List FoodPreOrderItem) × (stored db id fs t
          ≡ some (is, t'))
        × IsStored id fs is t'
        × Grows db id (length fs) t t'
  unfolding stored
  stored-IsStored id [] t = (
    [],
    t,
    refl,
    tt,
    record { kept = λ k x at. at; counted = omega arith; new = λ k x at. inl at },
  )
  stored-IsStored id (f ∷ fs) t =
      let item : FoodPreOrderItem = record {
        id = db.items.fresh t;
        food_pre_order_id = id;
        menu_item_id = f.menu_item_id;
        menu_item_name = f.menu_item_name;
        quantity = f.quantity;
        notes = f.notes;
        price_minor_units = f.price_minor_units;
      } in
      let (t1, e1) = insert-fresh (λ i. i.id) lawful item t refl (λ k y q. refl) in
      let (at, kept1) = insert-fresh_row (λ i. i.id) lawful item t t1 refl e1 in
      let counted1 = lawful.find-insert (λ i. i.food_pre_order_id == id) item t t1 e1 in
      let (is, t2, e2, all_stored, grows) = stored-IsStored id fs t1 in
      (
        item ∷ is,
        t2,
        ground (arith, e1, e2),
        (grows.kept item.id item at, refl, refl, refl, refl, refl, refl, all_stored),
        record {
          kept = λ k x q. grows.kept k x (kept1 k x q);
          counted = ground (arith, grows.counted, counted1, ==_refl id);
          new = λ k x q. elim (grows.new k x q) [
            | inr mine ↦ inr mine
            | inl before ↦ ground (arith, lawful.row-insert item t t1 k e1)
          ];
        },
      )
