-- ===== src/Venue/Holds.antt =====
-- services/venue-service/src/holds/holds.service.ts, method by method. A seat that is sold is a row
-- of `sold_seats`; a seat that is held is a Redis key with the holder's token.
pub mod Requests
pub mod Exclusive
pub mod Sold
pub mod Races
pub mod Availability
pub mod Seats
use ceylon_events.Common.{
  ℕ, ◌+◌, ◌*◌, Bool, true, false, not, ◌&&◌, Option, none, some, List, [], ◌∷◌, map, any, ◌==◌,
  is_some, if◌then◌else◌, Action, conflict, forbidden, not_found, internal_error, ok, err, pure,
  gets, modify, throw_if, or_throw, ◌>>=◌, ◌>>◌, skip, Repository,
}
use ceylon_events.Shared.{SeatStatus, available, held, held_by_me, sold}
use ceylon_events.Venue.Redis.{HoldKey, Redis}

pub record SoldSeat : Type 0 where
  pub id : ℕ
  pub seat_map_version_id : ℕ
  pub seat_id : ℕ
  pub order_id : Option ℕ

-- `@Unique(["seatMapVersionId", "seatId"])`
abbrev pub same_seat : SoldSeat → SoldSeat → Bool
same_seat a b = a.seat_map_version_id == b.seat_map_version_id && a.seat_id == b.seat_id

-- `where: { seatMapVersionId, seatId }`
abbrev pub is_seat : ℕ → ℕ → SoldSeat → Bool
is_seat version_id seat_id s = s.seat_map_version_id == version_id && s.seat_id == seat_id

pub record HoldConfig : Type 0 where
  pub default_ttl_seconds : ℕ
  pub order_hold_ttl_seconds : ℕ

-- The values where the environment sets none.
abbrev pub default_config : HoldConfig
default_config = record { default_ttl_seconds = 300; order_hold_ttl_seconds = 1800 }

pub record HoldResult : Type 0 where
  pub seat_id : ℕ
  pub holder_token : ℕ
  pub expires_at : ℕ

pub data Reason : Type 0 where
  seat_sold seat_held hold_expired token_mismatch : Reason

pub record Venue (S : Type 0) : Type 0 where
  pub store : S
  pub sold_seats : List SoldSeat

abbrev pub hold_key : ℕ → ℕ → HoldKey
hold_key version_id seat_id = record { version = version_id; seat = seat_id }

-- The status of one seat, from whether it is sold and its holder.
abbrev pub status_for : Bool → Option ℕ → Option ℕ → SeatStatus
status_for true holder requester = sold
status_for false none requester = available
status_for false (some holder) none = held
status_for false (some holder) (some token) = if holder == token then held_by_me else held

abbrev pub first_token : List (Option ℕ) → Option ℕ
first_token [] = none
first_token (h ∷ hs) = h

abbrev pub rest_tokens : List (Option ℕ) → List (Option ℕ)
rest_tokens [] = []
rest_tokens (h ∷ hs) = hs

-- `result[seatId] = …` for each seat and the token at its index; a later entry wins.
fill :
    (ℕ → Bool)
    → Option ℕ
    → List ℕ
    → List (Option ℕ)
    → (ℕ → Option SeatStatus)
    → ℕ
    → Option SeatStatus
fill is_sold requester [] tokens result = result
fill is_sold requester (seat ∷ seats) tokens result =
    let status = status_for (is_sold seat) (first_token tokens) requester in
    fill is_sold requester seats (rest_tokens tokens)
      (λ s. if seat == s then some status else result s)

module _ {S : Type 0} (redis : Redis S) (repository : Repository SoldSeat) where
  abbrev pub find_sold : ℕ → ℕ → Venue S → Option SoldSeat
  find_sold version_id seat_id w = repository.find_one (is_seat version_id seat_id) w.sold_seats

  abbrev pub set_nx : HoldKey → ℕ → ℕ → ℕ → Action (Venue S) Reason Bool
  set_nx key token ttl now w =
      let (done, store) = redis.set_nx key token ttl now w.store in
      (ok done, record w { store = store })

  -- `others` is what the requests served between the two reads and the write do. `token` is the
  -- UUID drawn.
  pub create_hold : (Venue S → Venue S) → ℕ → ℕ → ℕ → ℕ → ℕ → Action (Venue S) Reason HoldResult
  create_hold others version_id seat_id ttl token now = do
    already ← gets (find_sold version_id seat_id)
    throw_if (is_some already) (conflict seat_sold)
    modify others
    done ← set_nx (hold_key version_id seat_id) token ttl now
    throw_if (not done) (conflict seat_held)
    pure (record { seat_id = seat_id; holder_token = token; expires_at = now + ttl * 1000 })

  abbrev pub holder_at : ℕ → ℕ → ℕ → Venue S → Option ℕ
  holder_at version_id seat_id now w = redis.get (hold_key version_id seat_id) now w.store

  -- The hold is read at `now` and extended at `later`; `others` happens in between.
  pub renew_hold : (Venue S → Venue S) → ℕ → ℕ → ℕ → ℕ → ℕ → ℕ → Action (Venue S) Reason HoldResult
  renew_hold others version_id seat_id token ttl now later = do
    current ← gets (holder_at version_id seat_id now)
    holder ← or_throw current (not_found hold_expired)
    throw_if (not (holder == token)) (forbidden token_mismatch)
    modify others
    modify λ w. record w { store = redis.expire (hold_key version_id seat_id) ttl later w.store }
    pure (record { seat_id = seat_id; holder_token = token; expires_at = later + ttl * 1000 })

  delete_hold : ℕ → ℕ → Venue S → Venue S
  delete_hold version_id seat_id w = record w {
    store = redis.del (hold_key version_id seat_id) w.store;
  }

  -- Deletes the hold if the token is its holder's; `others` happens between the read and the write.
  drop_own : (Venue S → Venue S) → ℕ → ℕ → ℕ → Option ℕ → Action (Venue S) Reason (Unit {0})
  unfolding delete_hold
  drop_own others version_id seat_id token none = skip
  drop_own others version_id seat_id token (some holder) = do
    throw_if (not (holder == token)) (forbidden token_mismatch)
    modify others
    modify (delete_hold version_id seat_id)

  pub release_hold : (Venue S → Venue S) → ℕ → ℕ → ℕ → ℕ → Action (Venue S) Reason (Unit {0})
  unfolding drop_own
  release_hold others version_id seat_id token now = do
    current ← gets (holder_at version_id seat_id now)
    drop_own others version_id seat_id token current

  pub reserve_for_order :
      HoldConfig → (Venue S → Venue S) → ℕ → ℕ → ℕ → ℕ → ℕ → Action (Venue S) Reason HoldResult
  unfolding renew_hold
  reserve_for_order config others version_id seat_id token now later =
      renew_hold others version_id seat_id token config.order_hold_ttl_seconds now later

  pub release_for_order : ℕ → ℕ → Action (Venue S) Reason (Unit {0})
  unfolding delete_hold
  release_for_order version_id seat_id = modify (delete_hold version_id seat_id)

  abbrev insert_sold : SoldSeat → Action (Venue S) Reason (Unit {0})
  insert_sold s w = elim (repository.insert s w.sold_seats) [
    | none ↦ (err internal_error, w)
    | some table ↦ (ok tt, record w { sold_seats = table })
  ]

  -- Records the seat as sold and drops its hold.
  sell : ℕ → ℕ → Option ℕ → Action (Venue S) Reason (Unit {0})
  unfolding delete_hold
  sell version_id seat_id order_id = do
    sold_before ← gets (λ w. w.sold_seats)
    insert_sold (record {
      id = repository.fresh sold_before;
      seat_map_version_id = version_id;
      seat_id = seat_id;
      order_id = order_id;
    })
    modify (delete_hold version_id seat_id)

  pub mark_sold : ℕ → ℕ → Option ℕ → Action (Venue S) Reason (Unit {0})
  unfolding sell
  mark_sold version_id seat_id order_id = do
    existing ← gets (find_sold version_id seat_id)
    if is_some existing then skip else sell version_id seat_id order_id

  pub get_availability : ℕ → List ℕ → Option ℕ → ℕ → Venue S → ℕ → Option SeatStatus
  unfolding fill
  get_availability version_id seat_ids requester now w =
      let rows = repository.find (λ s. s.seat_map_version_id == version_id) w.sold_seats in
      let tokens = redis.mget (map (hold_key version_id) seat_ids) now w.store in
      fill (λ seat. any (λ s. s.seat_id == seat) rows) requester seat_ids tokens (λ s. none)
