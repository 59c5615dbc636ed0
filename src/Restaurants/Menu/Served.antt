-- ===== src/Restaurants/Menu/Served.antt =====
-- What food-order-service, which asks without a token, makes of a restaurant's menu.
use ceylon_events.Common.{
  ℕ, ◌≡◌, ◌≢◌, refl, ◌∙◌, sym, ap, subst, inl, inr, Bool, true, false, ◌&&◌, Option, none, some,
  List, [], ◌∷◌, map, keep, keep-Elem, Elem-keep, Elem, here, there, Elem-cons, Elem-append,
  append-Elem, Elem-map, map-Elem, All-Elem, Selected, arith, ◌==◌, ==_iff, ==_refl, if◌then◌else◌,
  IsRepository, row, row-key, no_clash, Option-cases, Bool-cases, Result-cases, ok, err,
  bad_request, body, String,
}
use ceylon_events.Food.Types.{
  UpstreamMenuItem, UpstreamMenuCategory, FoodPreOrderItemInput, not_available,
}
use ceylon_events.Food.Menu.{menu_items, by_id, resolve, resolve_menu_items}
use ceylon_events.Food.{fetch_menu}
use ceylon_events.Restaurants.Types.{MenuCategory, MenuItem, Database, State}
use ceylon_events.Restaurants.{is_approved, assert_visible, find_visible_or_throw}
use ceylon_events.Restaurants.Menu.{MenuCategoryWithItems, shown, menu_of, get_menu}

-- The fields of the menu that food-order-service reads.
abbrev pub item_view : MenuItem → UpstreamMenuItem
item_view i = record {
  id = i.id;
  name = i.name;
  price_minor_units = i.price_minor_units;
  is_available = i.is_available;
}

abbrev pub category_view : MenuCategoryWithItems → UpstreamMenuCategory
category_view c = record { items = map item_view c.items }

abbrev pub menu_view : List MenuCategoryWithItems → List UpstreamMenuCategory
menu_view menu = map category_view menu

abbrev is_category_of : ℕ → Option MenuCategory → Bool
is_category_of id c = elim c [ none ↦ false | some c ↦ c.restaurant_id == id ]

abbrev served_row : ℕ → State → Option MenuItem → Option UpstreamMenuItem
served_row id s none = none
served_row id s (some i) =
    if i.restaurant_id == id
      && (i.is_available && is_category_of id (row (λ c. c.id) i.category_id s.categories))
    then some (item_view i)
    else none

-- What the rows say of a dish: the restaurant's, available, in a category of the restaurant.
abbrev pub served_item : ℕ → ℕ → State → Option UpstreamMenuItem
served_item id k s = served_row id s (row (λ i. i.id) k s.items)

by_id-some :
    (ms : List UpstreamMenuItem) (k : ℕ) (x : UpstreamMenuItem)
    → by_id ms k ≡ some x
    → Elem x ms × (x.id ≡ k)
by_id-some [] k x e = cc
by_id-some (m ∷ ms) k x e = elim (Option-cases (by_id ms k)) [
  | inr (y, later) ↦ let (i, is) = by_id-some ms k x (ground arith) in (there i, is)
  | inl last ↦ let same : m ≡ x = ground arith in (here same, ground (arith, ==_iff m.id k))
]

by_id-none :
    (ms : List UpstreamMenuItem) (k : ℕ) (x : UpstreamMenuItem)
    → by_id ms k ≡ none
    → Elem x ms
    → (x.id == k) ≡ false
by_id-none [] k x e i = elim i [ ]
by_id-none (m ∷ ms) k x e (here q) = elim (Option-cases (by_id ms k)) [
  | inl last ↦ ground arith
  | inr (y, later) ↦ absurd (ground arith)
]
by_id-none (m ∷ ms) k x e (there i) =
    by_id-none ms k x
      (elim (Option-cases (by_id ms k)) [
        | inl last ↦ last
        | inr (y, later) ↦ absurd (ground arith)
      ])
      i

abbrev with_items : List MenuItem → MenuCategory → MenuCategoryWithItems
with_items items c = record { category = c; items = keep (shown false c) items }

abbrev view_of : List MenuItem → List MenuCategory → List UpstreamMenuItem
view_of items cs = menu_items (menu_view (map (with_items items) cs))

view-Elem :
    (items : List MenuItem) (cs : List MenuCategory) (x : UpstreamMenuItem)
    → Elem x (view_of items cs)
    → (c : MenuCategory) × (i : MenuItem) × Elem c cs
      × Elem i (keep (shown false c) items)
      × (item_view i ≡ x)
view-Elem items [] x j = elim j [ ]
view-Elem items (c ∷ cs) x j =
    elim (append-Elem (map item_view (keep (shown false c) items)) (view_of items cs) x j) [
      | inl l ↦
          let (i, l', is) = Elem-map item_view (keep (shown false c) items) x l in
          (c, i, here refl, l', is)
      | inr l ↦ let (c', i, m, l', is) = view-Elem items cs x l in (c', i, there m, l', is)
    ]

Elem-view :
    (items : List MenuItem) (cs : List MenuCategory) (c : MenuCategory) (i : MenuItem)
    → Elem c cs
    → Elem i (keep (shown false c) items)
    → Elem (item_view i) (view_of items cs)
Elem-view items [] c i j l = elim j [ ]
Elem-view items (d ∷ cs) c i j l =
    Elem-append (map item_view (keep (shown false d) items)) (view_of items cs) (item_view i)
      (elim (Elem-cons c d cs j) [
        | inl q ↦
            inl
              (map-Elem item_view _ i (subst (λ z. Elem i (keep (shown false z) items)) (sym q) l))
        | inr j' ↦ inr (Elem-view items cs c i j' l)
      ])

resolve-available :
    (ms : List UpstreamMenuItem)
    → ((k : ℕ) (x : UpstreamMenuItem) → by_id ms k ≡ some x → x.is_available ≡ true)
    → (inputs : List FoodPreOrderItemInput) (name : String)
    → resolve ms inputs ≢ err (bad_request (not_available name))
unfolding resolve
resolve-available ms h [] name e = cc
resolve-available ms h (input ∷ inputs) name e = elim (Option-cases (by_id ms input.menu_item_id)) [
  | inl missing ↦ ground arith
  | inr (item, found) ↦ elim (Result-cases (resolve ms inputs)) [
    | inl (foods, rest) ↦ ground (arith, h input.menu_item_id item found)
    | inr (x, rest) ↦
        resolve-available ms h inputs name (ground (arith, h input.menu_item_id item found))
  ]
]

module _ (db : Database) (lawful_categories : IsRepository (λ c. c.id) no_clash db.categories)
    (lawful_items : IsRepository (λ i. i.id) no_clash db.items) where
  abbrev items_at : ℕ → State → List MenuItem
  items_at id s = db.items.find (λ i. i.restaurant_id == id) s.items

  abbrev categories_at : ℕ → State → List MenuCategory
  categories_at id s = db.categories.find (λ c. c.restaurant_id == id) s.categories

  -- A dish on the menu is the row with its id.
  view-served :
      (id : ℕ) (x : UpstreamMenuItem) (s : State)
      → Elem x (view_of (items_at id s) (categories_at id s))
      → served_item id x.id s ≡ some x
  view-served id x s j =
      let (c, i, in_cs, kept, is) = view-Elem (items_at id s) (categories_at id s) x j in
      let (in_items, is_shown) = keep-Elem (shown false c) (items_at id s) i kept in
      let (at, of_restaurant) =
        All-Elem (Selected (λ y. y.id) (λ y. y.restaurant_id == id) s.items) (items_at id s) i
          (lawful_items.find-Selected (λ y. y.restaurant_id == id) s.items) in_items in
      let (c_at, c_of_restaurant) =
        All-Elem (Selected (λ y. y.id) (λ y. y.restaurant_id == id) s.categories)
          (categories_at id s) c
          (lawful_categories.find-Selected (λ y. y.restaurant_id == id) s.categories) in_cs in
      let category_is : c.id ≡ i.category_id = ground (arith, ==_iff i.category_id c.id) in
      let c_at_i : row (λ y. y.id) i.category_id s.categories ≡ some c =
        ap (λ n. row (λ y. y.id) n s.categories) (sym category_is) ∙ c_at in
      subst (λ z. served_item id z.id s ≡ some z) is (ground (arith, at, c_at_i))

  served-view :
      (id k : ℕ) (x : UpstreamMenuItem) (s : State)
      → served_item id k s ≡ some x
      → Elem x (view_of (items_at id s) (categories_at id s)) × (x.id ≡ k)
  served-view id k x s e = elim (Option-cases (row (λ y. y.id) k s.items)) [
    | inl gone ↦ absurd (ground arith)
    | inr (i, at) ↦ elim (Option-cases (row (λ y. y.id) i.category_id s.categories)) [
      | inl gone ↦ absurd (ground arith)
      | inr (c, c_at) ↦
          let is : item_view i ≡ x = ground arith in
          let c_is = row-key (λ y. y.id) s.categories i.category_id c c_at in
          let in_items =
            lawful_items.find-Elem (λ y. y.restaurant_id == id) s.items k i at (ground arith) in
          let in_cs =
            lawful_categories.find-Elem (λ y. y.restaurant_id == id) s.categories i.category_id c
              c_at (ground arith) in
          let kept =
            Elem-keep (shown false c) (items_at id s) i in_items
              (ground (arith, c_is, ==_refl i.category_id)) in
          (
            subst (λ z. Elem z (view_of (items_at id s) (categories_at id s))) is
                (Elem-view (items_at id s) (categories_at id s) c i in_cs kept),
            ground (arith, row-key (λ y. y.id) s.items k i at),
          )
    ]
  ]

  served-available :
      (id k : ℕ) (x : UpstreamMenuItem) (s : State)
      → served_item id k s ≡ some x
      → x.is_available ≡ true
  served-available id k x s e = elim (Option-cases (row (λ y. y.id) k s.items)) [
    | inl gone ↦ absurd (ground arith)
    | inr (i, at) ↦ ground arith
  ]

  by_id-served :
      (id k : ℕ) (s : State)
      → by_id (view_of (items_at id s) (categories_at id s)) k ≡ served_item id k s
  by_id-served id k s =
      let ms = view_of (items_at id s) (categories_at id s) in
      elim (Option-cases (by_id ms k)) [
        | inr (x, e) ↦
            let (j, is) = by_id-some ms k x e in
            e ∙ sym (subst (λ n. served_item id n s ≡ some x) is (view-served id x s j))
        | inl e ↦ elim (Option-cases (served_item id k s)) [
          | inl e' ↦ e ∙ sym e'
          | inr (x, e') ↦
              let (j, is) = served-view id k x s e' in
              absurd (ground (arith, by_id-none ms k x e j, ==_refl k))
        ]
      ]

  -- On the menu that a restaurant serves without a token, food-order-service finds a dish exactly if
  -- its row is of the restaurant, available, and in a category of the restaurant, and then with its
  -- name and price; so no pre-order is refused because a dish is not available.
  pub get_menu-served :
      (id : ℕ) (menu : List MenuCategoryWithItems) (s s' : State)
      → get_menu db id none s ≡ (ok menu, s')
      → ((k : ℕ) → by_id (menu_items (menu_view menu)) k ≡ served_item id k s)
        × ((inputs : List FoodPreOrderItemInput) (name : String)
            → resolve_menu_items (body (menu_view menu)) inputs
              ≢ err (bad_request (not_available name)))
  unfolding get_menu assert_visible find_visible_or_throw resolve_menu_items fetch_menu
  get_menu-served id menu s s' h =
      let is : menu ≡ menu_of db false id s =
        elim (Option-cases (db.restaurants.find_one (λ r. r.id == id) s.restaurants)) [
          | inl gone ↦ absurd (ground arith)
          | inr (restaurant, at) ↦ elim (Bool-cases (is_approved restaurant.status)) [
            | inl seen ↦ ground arith
            | inr closed ↦ absurd (ground arith)
          ]
        ] in
      let found : (k : ℕ) → by_id (menu_items (menu_view menu)) k ≡ served_item id k s =
        λ k. ap (λ z. by_id (menu_items (menu_view z)) k) is ∙ by_id-served id k s in
      (
        found,
        λ inputs name.
            resolve-available (menu_items (menu_view menu))
              (λ k x e. served-available id k x s (sym (found k) ∙ e)) inputs name,
      )
