-- ===== src/Ratings.antt =====
-- services/ratings-service/src/ratings/ratings.service.ts, method by method: what buyers say of an event, and of
-- the dishes they ordered for it.
pub mod Types
pub mod Earned
pub mod Once
pub mod Averages
use ceylon_events.Common.{
  ℕ, ◌+◌, zero, suc, ◌-◌, ◌*◌, ◌/◌, Bool, true, false, not, ◌&&◌, ◌||◌, Option, none, some, List,
  [], ◌∷◌, any, take, drop, length, sum_by, ◌==◌, ltb, is_some, if◌then◌else◌, Response, body,
  status, unreachable, Result, Action, ok, err, not_found, forbidden, bad_request, bad_gateway,
  conflict, pure, gets, lift, modify, throw_if, or_throw, ◌>>=◌, ◌>>◌, Repository,
}
use ceylon_events.Shared.{
  PaginatedResult, paginated, RatingSubjectType, is_event_subject, same_subject_type,
  is_confirmed_order, JwtAccessPayload, can_manage_restaurant,
}
use Types.{
  Rating, CreateRating, RatingsFilter, RatingSummary, UpstreamOrder, UpstreamEvent,
  UpstreamFoodPreOrder, Reason, Upstream, State, order_not_found, may_not_rate, order_service_error,
  order_service_unavailable, event_not_found, event_service_unavailable, only_own_orders,
  other_event, only_confirmed_orders, not_started, not_the_event, not_pre_ordered, already_rated,
  filter_missing, rating_not_found, may_not_delete,
}

unfoldable pub fetch_order_as_caller : Response UpstreamOrder → Result Reason UpstreamOrder
fetch_order_as_caller (body order) = ok order
fetch_order_as_caller (status n) =
    if n == 404
    then err (not_found order_not_found)
    else if n == 403
    then err (forbidden may_not_rate)
    else err (bad_gateway order_service_error)
fetch_order_as_caller unreachable = err (bad_gateway order_service_unavailable)

unfoldable pub fetch_event : Response UpstreamEvent → Result Reason UpstreamEvent
fetch_event (body event) = ok event
fetch_event (status n) =
    if n == 404
    then err (not_found event_not_found)
    else err (bad_gateway event_service_unavailable)
fetch_event unreachable = err (bad_gateway event_service_unavailable)

-- An empty body is `body none`.
unfoldable pub fetch_food_pre_order_for_item :
    Response (Option UpstreamFoodPreOrder) → Option UpstreamFoodPreOrder
fetch_food_pre_order_for_item (body food) = food
fetch_food_pre_order_for_item (status n) = none
fetch_food_pre_order_for_item unreachable = none

abbrev pub has_dish : ℕ → Option UpstreamFoodPreOrder → Bool
has_dish id none = false
has_dish id (some food) = any (λ i. i == id) food.menu_item_ids

-- `Math.round(sum / n * 10)`, a half rounded up.
abbrev pub rounded_tenths : ℕ → ℕ → ℕ
rounded_tenths sum n = (20 * sum + n) / (2 * n)

abbrev pub is_of_subject : Option RatingSubjectType → Option ℕ → Rating → Bool
is_of_subject none id r = false
is_of_subject (some t) none r = false
is_of_subject (some t) (some id) r = same_subject_type t r.subject_type && r.subject_id == id

abbrev pub selects : RatingsFilter → Rating → Bool
selects f r = elim f.restaurant_id [
  | some id ↦ r.restaurant_id == id
  | none ↦ is_of_subject f.subject_type f.subject_id r
]

abbrev pub is_missing : RatingsFilter → Bool
is_missing f = not (is_some f.restaurant_id) && not (is_some f.subject_type && is_some f.subject_id)

module _ (u : Upstream) (db : Repository Rating) where
  -- Some ticket of the order has a food order with the dish.
  unfoldable pub was_ordered : ℕ → ℕ → List ℕ → Bool
  was_ordered dish authorization items =
      any
        (λ item.
          has_dish dish (fetch_food_pre_order_for_item (u.get_food_pre_order item authorization)))
        items

  unfoldable pub check_subject : CreateRating → UpstreamOrder → ℕ → Result Reason (Unit {0})
  unfolding was_ordered
  check_subject dto order authorization =
      if is_event_subject dto.subject_type
      then (if dto.subject_id == dto.event_id then ok tt else err (bad_request not_the_event))
      else if was_ordered dto.subject_id authorization order.items
      then ok tt
      else err (bad_request not_pre_ordered)

  -- A save of a new row fails only on the unique constraint.
  abbrev insert_rating : Rating → Action State Reason Rating
  insert_rating rating s = elim (db.insert rating s.ratings) [
    | none ↦ (err (conflict already_rated), s)
    | some table ↦ (ok rating, record s { ratings = table })
  ]

  abbrev pub new_rating : CreateRating → JwtAccessPayload → UpstreamEvent → State → Rating
  new_rating dto caller event s = record {
    id = db.fresh s.ratings;
    buyer_id = caller.sub;
    order_id = dto.order_id;
    event_id = dto.event_id;
    restaurant_id = event.restaurant_id;
    subject_type = dto.subject_type;
    subject_id = dto.subject_id;
    stars = dto.stars;
    comment = dto.comment;
  }

  unfoldable pub create : CreateRating → JwtAccessPayload → ℕ → ℕ → Action State Reason Rating
  unfolding check_subject
  create dto caller authorization now = do
    order ← lift (fetch_order_as_caller (u.get_order dto.order_id authorization))
    throw_if (not (order.buyer_id == caller.sub)) (forbidden only_own_orders)
    throw_if (not (order.event_id == dto.event_id)) (bad_request other_event)
    throw_if (not (is_confirmed_order order.status)) (bad_request only_confirmed_orders)
    event ← lift (fetch_event (u.get_event dto.event_id))
    throw_if (ltb now event.starts_at) (bad_request not_started)
    lift (check_subject dto order authorization)
    rating ← gets (new_rating dto caller event)
    insert_rating rating

  pub list : RatingsFilter → ℕ → ℕ → Action State Reason (PaginatedResult Rating)
  list filter page page_size = do
    throw_if (is_missing filter) (bad_request filter_missing)
    gets (λ s. paginated page page_size (db.find (selects filter) s.ratings))

  -- An average is there if a row is.
  abbrev pub summary_of : List Rating → RatingSummary
  summary_of rows =
      let n = length rows in
      record {
        average = if n == 0 then none else some (rounded_tenths (sum_by (λ r. r.stars) rows) n);
        count = n;
      }

  pub summary : RatingsFilter → Action State Reason RatingSummary
  summary filter = do
    throw_if (is_missing filter) (bad_request filter_missing)
    gets (λ s. summary_of (db.find (selects filter) s.ratings))

  pub delete : ℕ → JwtAccessPayload → Action State Reason (Unit {0})
  delete id caller = do
    found ← gets (λ s. db.find_one (λ r. r.id == id) s.ratings)
    rating ← or_throw found (not_found rating_not_found)
    throw_if
        (not (rating.buyer_id == caller.sub)
          && not (can_manage_restaurant caller rating.restaurant_id))
        (forbidden may_not_delete)
    modify (λ s. record s { ratings = db.remove (λ r. r.id == id) s.ratings })
