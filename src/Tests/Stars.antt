-- ===== src/Tests/Stars.antt =====
-- ratings-service on one order of an event that has started.
use ceylon_events.Common.{
  ◌≡◌, refl, inl, inr, none, some, [], ◌∷◌, arith, ◌==◌, if◌then◌else◌, Exception, ok, err, body,
  status, Repository,
}
use ceylon_events.Common.Memory.{memory, memory-IsRepository}
use ceylon_events.Shared.{JwtAccessPayload, OrderStatus, menu_item}
use ceylon_events.Ratings.Types.{
  Rating, CreateRating, RatingsFilter, RatingSummary, Upstream, State, same_rating,
}
use ceylon_events.Ratings.{
  create, summary, fetch_order_as_caller, fetch_event, check_subject, was_ordered,
  fetch_food_pre_order_for_item,
}
use ceylon_events.Ratings.Earned.{IsEarned}
use ceylon_events.Ratings.Once.{creates, serve_all, rated_once}
use ceylon_events.Ratings.Averages.{IsSummary, summary_lem}

abbrev upstream : Upstream
upstream = record {
  get_order = λ id authorization.
      body (record {
        buyer_id = 70;
        event_id = 5;
        status = OrderStatus.confirmed;
        items = 6 ∷ 7 ∷ [];
      });
  get_event = λ id. body (record { restaurant_id = 3; starts_at = 1000 });
  get_food_pre_order = λ item authorization.
      if item == 7 then body (some (record { menu_item_ids = 30 ∷ 31 ∷ [] })) else status 404;
}

abbrev ratings_table : Repository Rating
ratings_table = memory (λ r. r.id) same_rating

abbrev four_stars : CreateRating
four_stars = record {
  order_id = 40;
  event_id = 5;
  subject_type = menu_item;
  subject_id = 31;
  stars = 4;
  comment = none;
}

abbrev buyer : JwtAccessPayload
buyer = record { sub = 70; roles = []; restaurant_id = none }

abbrev rating_0 : Rating
rating_0 = record {
  id = 0;
  buyer_id = 70;
  order_id = 40;
  event_id = 5;
  restaurant_id = 3;
  subject_type = menu_item;
  subject_id = 31;
  stars = 4;
  comment = none;
}

abbrev unrated : State
unrated = record { ratings = [] }

abbrev rated : State
rated = record { ratings = rating_0 ∷ [] }

rated_once_example :
    IsEarned upstream ratings_table four_stars buyer 1 2000 rating_0 rated
    × ((e : Exception _) × (create upstream ratings_table four_stars buyer 1 3000
            (serve_all upstream ratings_table (creates four_stars buyer 1 2500 ∷ []) rated)
          ≡ (err e, serve_all upstream ratings_table (creates four_stars buyer 1 2500 ∷ []) rated)))
unfolding create check_subject was_ordered fetch_food_pre_order_for_item fetch_order_as_caller
    fetch_event
rated_once_example =
    rated_once upstream ratings_table (memory-IsRepository (λ r. r.id) same_rating) four_stars
      four_stars buyer buyer 1 1 2000 3000 rating_0 unrated rated
      (creates four_stars buyer 1 2500 ∷ []) refl (refl, tt) refl refl

-- Ratings at two restaurants, and by the filter of one of them.
abbrev two_rated : State
two_rated = record { ratings = record rating_0 { id = 1; restaurant_id = 9 } ∷ rating_0 ∷ [] }

abbrev at_restaurant : RatingsFilter
at_restaurant = record { restaurant_id = some 3; subject_type = none; subject_id = none }

summary_lem_example :
    (c : RatingSummary) × ((summary upstream ratings_table at_restaurant two_rated).0 ≡ ok c)
    × IsSummary at_restaurant two_rated c
summary_lem_example =
    elim (summary_lem upstream ratings_table (memory-IsRepository (λ r. r.id) same_rating)
      at_restaurant two_rated).1 [
        | inl (refused, no_restaurant, no_subject) ↦ absurd (ground arith)
        | inr (c, answered, named, is_summary) ↦ (c, answered, is_summary)
      ]
