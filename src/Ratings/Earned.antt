-- ===== src/Ratings/Earned.antt =====
-- What a rating that is written went through.
use ceylon_events.Common.{
  ℕ, ◌≤◌, ◌≡◌, refl, ap, subst, ◌⊎◌, inl, inr, Bool, true, false, Option, none, some, List, [], ◌∷◌,
  Elem, here, there, any, arith, ◌==◌, ==_iff, ltb, Exception, ok, err, forbidden, bad_request,
  conflict, Response, body, status, unreachable, Repository, row, Option-cases, Bool-cases,
  Result-cases,
}
use ceylon_events.Shared.{
  RatingSubjectType, event, menu_item, is_event_subject, same_subject_type, OrderStatus,
  is_confirmed_order, is_confirmed_order-eq, JwtAccessPayload,
}
use ceylon_events.Ratings.Types.{
  Rating, CreateRating, UpstreamOrder, UpstreamEvent, UpstreamFoodPreOrder, Upstream, State, Reason,
  only_own_orders, other_event, only_confirmed_orders, not_started, already_rated,
}
use ceylon_events.Ratings.{
  fetch_order_as_caller, fetch_event, fetch_food_pre_order_for_item, has_dish, was_ordered,
  check_subject, new_rating, create,
}

abbrev pub rating_row : ℕ → State → Option Rating
rating_row k s = row (λ r. r.id) k s.ratings

pub same_subject_type_refl : (t : RatingSubjectType) → same_subject_type t t ≡ true
same_subject_type_refl event = refl
same_subject_type_refl menu_item = refl

not_before : (now at : ℕ) → ltb now at ≡ false → at ≤ now
not_before now at h = ground arith

any-Elem : (p : ℕ → Bool) (xs : List ℕ) → any p xs ≡ true → (x : ℕ) × Elem x xs × (p x ≡ true)
any-Elem p [] h = cc
any-Elem p (y ∷ xs) h = elim (Bool-cases (p y)) [
  | inl hit ↦ (y, here refl, hit)
  | inr miss ↦ let (x, i, hit) = any-Elem p xs (ground arith) in (x, there i, hit)
]

module _ (u : Upstream) (db : Repository Rating) where
  -- The event of the order, or a dish of the food that was ordered ahead for one of its items.
  abbrev pub IsEventOrDish : CreateRating → UpstreamOrder → ℕ → Type 0
  IsEventOrDish dto order authorization =
      ((dto.subject_type ≡ event) × (dto.subject_id ≡ dto.event_id))
      ⊎ ((dto.subject_type ≡ menu_item)
          × (item : ℕ) × (food : UpstreamFoodPreOrder) × Elem item order.items
          × (u.get_food_pre_order item authorization ≡ body (some food))
          × Elem dto.subject_id food.menu_item_ids)

  -- What a rating that was written went through.
  pub record IsWritten (dto : CreateRating) (caller : JwtAccessPayload) (authorization now : ℕ)
      (rating : Rating) (s s' : State) : Type 0 where
    pub order : UpstreamOrder
    pub event : UpstreamEvent
    pub fetched : fetch_order_as_caller (u.get_order dto.order_id authorization) ≡ ok order
    pub own : (order.buyer_id == caller.sub) ≡ true
    pub of_event : (order.event_id == dto.event_id) ≡ true
    pub confirmed : is_confirmed_order order.status ≡ true
    pub known : fetch_event (u.get_event dto.event_id) ≡ ok event
    pub started : ltb now event.starts_at ≡ false
    pub subject : check_subject u db dto order authorization ≡ ok tt
    pub made : rating ≡ new_rating u db dto caller event s
    pub inserted : db.insert rating s.ratings ≡ some s'.ratings

  -- The same of the rating itself: whose it is, and what it says of what was ordered.
  pub record IsEarned (dto : CreateRating) (caller : JwtAccessPayload) (authorization now : ℕ)
      (rating : Rating) (s' : State) : Type 0 where
    pub order : UpstreamOrder
    pub event : UpstreamEvent
    pub fetched : u.get_order dto.order_id authorization ≡ body order
    pub own : order.buyer_id ≡ caller.sub
    pub of_event : order.event_id ≡ dto.event_id
    pub confirmed : order.status ≡ OrderStatus.confirmed
    pub known : u.get_event dto.event_id ≡ body event
    pub started : event.starts_at ≤ now
    pub subject : IsEventOrDish dto order authorization
    pub buyer_id : rating.buyer_id ≡ caller.sub
    pub order_id : rating.order_id ≡ dto.order_id
    pub event_id : rating.event_id ≡ dto.event_id
    pub restaurant_id : rating.restaurant_id ≡ event.restaurant_id
    pub subject_type : rating.subject_type ≡ dto.subject_type
    pub subject_id : rating.subject_id ≡ dto.subject_id
    pub stars : rating.stars ≡ dto.stars
    pub comment : rating.comment ≡ dto.comment
    pub stored : rating_row rating.id s' ≡ some rating

  dish-Elem :
      (dish : ℕ) (food : Option UpstreamFoodPreOrder)
      → has_dish dish food ≡ true
      → (f : UpstreamFoodPreOrder) × (food ≡ some f) × Elem dish f.menu_item_ids
  dish-Elem dish none h = cc
  dish-Elem dish (some f) h =
      let (i, inside, same) = any-Elem (λ i. i == dish) f.menu_item_ids h in
      (f, refl, subst (λ k. Elem k f.menu_item_ids) ((==_iff i dish).0 same) inside)

  food-body :
      (r : Response (Option UpstreamFoodPreOrder)) (f : UpstreamFoodPreOrder)
      → fetch_food_pre_order_for_item r ≡ some f
      → r ≡ body (some f)
  unfolding fetch_food_pre_order_for_item
  food-body (body food) f e = ground arith
  food-body (status n) f e = cc
  food-body unreachable f e = cc

  check_subject-IsEventOrDish :
      (dto : CreateRating) (order : UpstreamOrder) (authorization : ℕ)
      → check_subject u db dto order authorization ≡ ok tt
      → IsEventOrDish dto order authorization
  unfolding check_subject was_ordered
  check_subject-IsEventOrDish dto order authorization h =
      elim (Bool-cases (is_event_subject dto.subject_type)) [
        | inl e ↦ inl (ground arith, ground arith)
        | inr e ↦
            let (item, inside, hit) =
              any-Elem
                (λ i.
                  has_dish dto.subject_id
                    (fetch_food_pre_order_for_item (u.get_food_pre_order i authorization)))
                order.items (ground arith) in
            let (food, found, dish) = dish-Elem dto.subject_id _ hit in
            inr (ground arith, item, food, inside, food-body _ food found, dish)
      ]

  fetched-order :
      (r : Response UpstreamOrder) (o : UpstreamOrder) → fetch_order_as_caller r ≡ ok o → r ≡ body o
  unfolding fetch_order_as_caller
  fetched-order (body x) o e = ground arith
  fetched-order (status n) o e = absurd (ground arith)
  fetched-order unreachable o e = absurd (ground arith)

  fetched-event :
      (r : Response UpstreamEvent) (x : UpstreamEvent) → fetch_event r ≡ ok x → r ≡ body x
  unfolding fetch_event
  fetched-event (body y) x e = ground arith
  fetched-event (status n) x e = absurd (ground arith)
  fetched-event unreachable x e = absurd (ground arith)

  pub IsWritten-IsEarned :
      (dto : CreateRating) (caller : JwtAccessPayload) (authorization now : ℕ) (rating : Rating)
      (s s' : State)
      → rating_row rating.id s' ≡ some rating
      → IsWritten dto caller authorization now rating s s'
      → IsEarned dto caller authorization now rating s'
  IsWritten-IsEarned dto caller authorization now rating s s' at w = record {
    order = w.order;
    event = w.event;
    fetched = fetched-order _ w.order w.fetched;
    own = (==_iff _ _).0 w.own;
    of_event = (==_iff _ _).0 w.of_event;
    confirmed = is_confirmed_order-eq w.order.status w.confirmed;
    known = fetched-event _ w.event w.known;
    started = not_before now w.event.starts_at w.started;
    subject = check_subject-IsEventOrDish dto w.order authorization w.subject;
    buyer_id = ap (λ x. x.buyer_id) w.made;
    order_id = ap (λ x. x.order_id) w.made;
    event_id = ap (λ x. x.event_id) w.made;
    restaurant_id = ap (λ x. x.restaurant_id) w.made;
    subject_type = ap (λ x. x.subject_type) w.made;
    subject_id = ap (λ x. x.subject_id) w.made;
    stars = ap (λ x. x.stars) w.made;
    comment = ap (λ x. x.comment) w.made;
    stored = at;
  }

  pub create-cases :
      (dto : CreateRating) (caller : JwtAccessPayload) (authorization now : ℕ) (s : State)
      → let (r, s') = create u db dto caller authorization now s in
        ((e : Exception Reason) × (r ≡ err e) × (s' ≡ s))
        ⊎ ((rating : Rating) × (r ≡ ok rating) × IsWritten dto caller authorization now rating s s')
  unfolding create
  create-cases dto caller authorization now s =
      elim (Result-cases (fetch_order_as_caller (u.get_order dto.order_id authorization))) [
        | inr (e, q) ↦ inl (e, ground arith, ground arith)
        | inl (order, q) ↦ elim (Bool-cases (order.buyer_id == caller.sub)) [
          | inr c ↦ inl (forbidden only_own_orders, ground arith, ground arith)
          | inl own ↦ elim (Bool-cases (order.event_id == dto.event_id)) [
            | inr c ↦ inl (bad_request other_event, ground arith, ground arith)
            | inl of_event ↦ elim (Bool-cases (is_confirmed_order order.status)) [
              | inr c ↦ inl (bad_request only_confirmed_orders, ground arith, ground arith)
              | inl confirmed ↦ elim (Result-cases (fetch_event (u.get_event dto.event_id))) [
                | inr (e, q1) ↦ inl (e, ground arith, ground arith)
                | inl (found_event, known) ↦ elim (Bool-cases (ltb now found_event.starts_at)) [
                  | inl c ↦ inl (bad_request not_started, ground arith, ground arith)
                  | inr started ↦ elim (Result-cases (check_subject u db dto order authorization)) [
                    | inr (e, q2) ↦ inl (e, ground arith, ground arith)
                    | inl (done, subject) ↦
                        let x = new_rating u db dto caller found_event s in
                        elim (Option-cases (db.insert x s.ratings)) [
                          | inl c ↦ inl (conflict already_rated, ground arith, ground arith)
                          | inr (t, inserted) ↦ inr (
                            x,
                            ground arith,
                            record {
                              order = order;
                              event = found_event;
                              fetched = q;
                              own = own;
                              of_event = of_event;
                              confirmed = confirmed;
                              known = known;
                              started = started;
                              subject = subject;
                              made = refl;
                              inserted = ground arith;
                            },
                          )
                        ]
                  ]
                ]
              ]
            ]
          ]
        ]
      ]
