-- ===== src/Venue/Holds/Requests.antt =====
-- Histories of the requests that venue-service serves one after another
-- (services/venue-service/src/holds/seat-map-versions.controller.ts).
use ceylon_events.Common.{ℕ, Option, List, [], ◌∷◌, Repository}
use ceylon_events.Venue.Redis.{Redis}
use ceylon_events.Venue.Holds.{
  Venue, SoldSeat, HoldConfig, create_hold, renew_hold, release_hold, reserve_for_order,
  release_for_order, mark_sold,
}

-- `version seat token`, where a token takes part; the token of `create` is the one drawn for it.
pub data Request : Type 0 where
  create renew release reserve : ℕ → ℕ → ℕ → Request
  free : ℕ → ℕ → Request
  sell : ℕ → ℕ → Option ℕ → Request

module _ {S : Type 0} (redis : Redis S) (repository : Repository SoldSeat)
    (config : HoldConfig) where
  -- The state after a request, served at a time with nothing in between.
  unfoldable pub serve : ℕ → Request → Venue S → Venue S
  serve now (create v s token) w =
      (create_hold redis repository (λ x. x) v s config.default_ttl_seconds token now w).1
  serve now (renew v s token) w =
      (renew_hold redis repository (λ x. x) v s token config.default_ttl_seconds now now w).1
  serve now (release v s token) w = (release_hold redis repository (λ x. x) v s token now w).1
  serve now (reserve v s token) w =
      (reserve_for_order redis repository config (λ x. x) v s token now now w).1
  serve now (free v s) w = (release_for_order redis repository v s w).1
  serve now (sell v s order) w = (mark_sold redis repository v s order w).1

  unfoldable pub serve_all : List (ℕ × Request) → Venue S → Venue S
  serve_all [] w = w
  serve_all ((now, r) ∷ rs) w = serve_all rs (serve now r w)
