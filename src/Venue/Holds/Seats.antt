-- ===== src/Venue/Holds/Seats.antt =====
-- What the service promises of one seat: a machine with three states, which the sold rows and the
-- Redis keys implement.
pub mod Steps
pub mod History
use ceylon_events.Common.{
  ℕ, ◌+◌, ◌*◌, ◌≤◌, ◌<◌, ◌≡◌, refl, ◌∙◌, sym, ap, subst, ◌⊎◌, inl, inr, Bool, true, false, not,
  ◌&&◌, Option, none, some, List, [], ◌∷◌, arith, ◌==◌, ltb, ==_iff, &&_iff, if◌then◌else◌, is_some,
  Option-cases, Bool-cases, Repository, IsRepository, row,
}
use ceylon_events.Venue.Redis.{Redis, IsRedis, HoldKey, key_eq, alive}
use ceylon_events.Venue.Holds.{
  Venue, SoldSeat, HoldConfig, create_hold, renew_hold, release_hold, reserve_for_order,
  release_for_order, mark_sold, sell, drop_own, delete_hold, find_sold, holder_at, hold_key,
  is_seat, same_seat,
}
use ceylon_events.Venue.Holds.Requests.{
  Request, create, renew, release, reserve, free, serve, serve_all,
}

-- A seat nobody has, one that a token holds until a time, and one that was sold for an order.
pub data Seat : Type 0 where
  vacant : Seat
  held : ℕ → ℕ → Seat
  sold : Option ℕ → Seat

abbrev pub sold_to : Seat → Option (Option ℕ)
sold_to vacant = none
sold_to (held token until) = none
sold_to (sold order) = some order

abbrev pub holder_of : Seat → ℕ → Option ℕ
holder_of vacant t = none
holder_of (held token until) t = if ltb t until then some token else none
holder_of (sold order) t = none

-- A hold of the token, prolonged to `until`; any other state stays.
abbrev pub prolonged : ℕ → ℕ → ℕ → Seat → Seat
prolonged now token until vacant = vacant
prolonged now token until (sold order) = sold order
prolonged now token until (held k end) =
    if ltb now end && (k == token) then held token until else held k end

-- What a request for the seat makes of it at a time.
unfoldable pub step : HoldConfig → ℕ → Request → Seat → Seat
step config now (create v s token) vacant = held token (now + config.default_ttl_seconds * 1000)
step config now (create v s token) (held k end) =
    if ltb now end then held k end else held token (now + config.default_ttl_seconds * 1000)
step config now (create v s token) (sold order) = sold order
step config now (renew v s token) seat =
    prolonged now token (now + config.default_ttl_seconds * 1000) seat
step config now (reserve v s token) seat =
    prolonged now token (now + config.order_hold_ttl_seconds * 1000) seat
step config now (release v s token) vacant = vacant
step config now (release v s token) (held k end) =
    if ltb now end && (k == token) then vacant else held k end
step config now (release v s token) (sold order) = sold order
step config now (free v s) vacant = vacant
step config now (free v s) (held k end) = vacant
step config now (free v s) (sold order) = sold order
step config now (Request.sell v s order) vacant = sold order
step config now (Request.sell v s order) (held k end) = sold order
step config now (Request.sell v s order) (sold first) = sold first

-- The seat that a request is for.
abbrev pub key_of : Request → HoldKey
key_of (create v s token) = hold_key v s
key_of (renew v s token) = hold_key v s
key_of (release v s token) = hold_key v s
key_of (reserve v s token) = hold_key v s
key_of (free v s) = hold_key v s
key_of (Request.sell v s order) = hold_key v s

abbrev pub order_of : Option SoldSeat → Option (Option ℕ)
order_of none = none
order_of (some row) = some row.order_id

-- What the sold rows say of a seat: those of the seat name this order, and there is one if there is an order.
pub record Rows (v s : ℕ) (order : Option (Option ℕ)) (t : List SoldSeat) : Type 0 where
  pub agree :
      (k : ℕ) (x : SoldSeat)
      → row (λ x. x.id) k t ≡ some x
      → is_seat v s x ≡ true
      → order ≡ some x.order_id
  pub there :
      (o : Option ℕ)
      → order ≡ some o
      → (k : ℕ) × (x : SoldSeat) × (row (λ x. x.id) k t ≡ some x) × (is_seat v s x ≡ true)

pub kept-Rows :
    (v s : ℕ) (o o' : Option (Option ℕ)) (t t' : List SoldSeat)
    → o ≡ o'
    → t ≡ t'
    → Rows v s o t
    → Rows v s o' t'
kept-Rows v s o o' t t' p q rows = subst (λ x. Rows v s x t') p (subst (Rows v s o) q rows)

module _ {S : Type 0} (redis : Redis S) (repository : Repository SoldSeat) where
  -- From `now` on the service shows the seat in the state.
  pub record Shows (v s now : ℕ) (seat : Seat) (w : Venue S) : Type 0 where
    pub rows : Rows v s (sold_to seat) w.sold_seats
    pub holder : (t : ℕ) → now ≤ t → holder_at redis repository v s t w ≡ holder_of seat t

  module _ (lawful : IsRepository (λ x. x.id) same_seat repository) where
    pub order_of-find_sold :
        (v s : ℕ) (order : Option (Option ℕ)) (w : Venue S)
        → Rows v s order w.sold_seats
        → order_of (find_sold redis repository v s w) ≡ order
    order_of-find_sold v s none w rows = elim (Option-cases (find_sold redis repository v s w)) [
      | inl e ↦ ground arith
      | inr (x, e) ↦
          let (at, mine) = lawful.find_one-some (is_seat v s) w.sold_seats x e in
          absurd (ground (arith, rows.agree x.id x at mine))
    ]
    order_of-find_sold v s (some o) w rows =
        elim (Option-cases (find_sold redis repository v s w)) [
          | inl e ↦
              let (k, x, at, mine) = rows.there o refl in
              absurd (ground (arith, lawful.find_one-none (is_seat v s) w.sold_seats k x e at))
          | inr (x, e) ↦
              let (at, mine) = lawful.find_one-some (is_seat v s) w.sold_seats x e in
              ground (arith, rows.agree x.id x at mine)
        ]
