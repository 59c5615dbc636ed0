-- ===== src/Orders/Upstream.antt =====
-- What order-service asks of other services, and how `OrdersService` reads their answers.
use ceylon_events.Common.{
  ℕ, Bool, ◌||◌, Option, none, some, List, [], ◌∷◌, ◌==◌, String, if◌then◌else◌, Response, body,
  status, unreachable, Result, Action, ok, err, not_found, conflict, bad_gateway, find?, Repository,
}
use ceylon_events.Shared.{NotificationType, SeatStatus}
use ceylon_events.Orders.Types.{
  Order, OrderItem, PromoCode, UpstreamEvent, UpstreamTicketTier, SnapshotTable, Reason,
  event_not_found, event_service_error, event_service_unavailable, tier_not_found,
  venue_service_unavailable, seat_map_version_not_found, seat_not_held, State,
}

-- A notification to a buyer, about an order of an event.
pub record Notice : Type 0 where
  pub user_id : ℕ
  pub type : NotificationType
  pub order_id : ℕ
  pub event_id : ℕ

-- event-service and the snapshots answer the same throughout a request; `W` is what the requests
-- can change elsewhere. `post_release` and `post_notification` are not waited for.
pub record Upstream (W : Type 0) : Type 0 where
  pub get_event : ℕ → Response UpstreamEvent
  pub get_ticket_tier : ℕ → Response UpstreamTicketTier
  pub get_snapshot : ℕ → Response (List SnapshotTable)
  pub get_availability : ℕ → ℕ → W → Response (ℕ → Option SeatStatus)
  pub post_reserve : ℕ → ℕ → ℕ → W → Response (Unit {0}) × W
  pub post_release : ℕ → ℕ → W → W
  pub post_notification : Notice → W → W

-- The repositories of the service.
pub record Database : Type 0 where
  pub orders : Repository Order
  pub items : Repository OrderItem
  pub promo_codes : Repository PromoCode

unfoldable pub fetch_event : Response UpstreamEvent → Result Reason UpstreamEvent
fetch_event (body event) = ok event
fetch_event (status n) =
    if n == 404 then err (not_found event_not_found) else err (bad_gateway event_service_error)
fetch_event unreachable = err (bad_gateway event_service_unavailable)

unfoldable pub fetch_ticket_tier :
    ℕ → Response UpstreamTicketTier → Result Reason UpstreamTicketTier
fetch_ticket_tier id (body tier) = ok tier
fetch_ticket_tier id (status n) =
    if n == 404 then err (not_found (tier_not_found id)) else err (bad_gateway event_service_error)
fetch_ticket_tier id unreachable = err (bad_gateway event_service_unavailable)

unfoldable pub fetch_availability :
    Response (ℕ → Option SeatStatus) → Result Reason (ℕ → Option SeatStatus)
fetch_availability (body a) = ok a
fetch_availability (status n) = err (bad_gateway venue_service_unavailable)
fetch_availability unreachable = err (bad_gateway venue_service_unavailable)

unfoldable pub fetch_snapshot : Response (List SnapshotTable) → Result Reason (List SnapshotTable)
fetch_snapshot (body s) = ok s
fetch_snapshot (status n) =
    if n == 404
    then err (not_found seat_map_version_not_found)
    else err (bad_gateway venue_service_unavailable)
fetch_snapshot unreachable = err (bad_gateway venue_service_unavailable)

unfoldable pub reserve_result : Response (Unit {0}) → Result Reason (Unit {0})
reserve_result (body u) = ok tt
reserve_result (status n) =
    if n == 403 || n == 404
    then err (conflict seat_not_held)
    else err (bad_gateway venue_service_unavailable)
reserve_result unreachable = err (bad_gateway venue_service_unavailable)

pub record SeatInfo : Type 0 where
  pub seat_label : String
  pub section_id : Option ℕ

-- The first seat with the id, in the order of the tables.
unfoldable pub find_seat_in_snapshot : List SnapshotTable → ℕ → Option SeatInfo
find_seat_in_snapshot [] seat_id = none
find_seat_in_snapshot (table ∷ tables) seat_id = elim (find? (λ s. s.id == seat_id) table.seats) [
  | some seat ↦ some (record { seat_label = seat.seat_label; section_id = table.section_id })
  | none ↦ find_seat_in_snapshot tables seat_id
]

module _ {W : Type 0} (u : Upstream W) where
  unfoldable pub reserve_seat_for_order : ℕ → ℕ → ℕ → Action (State W) Reason (Unit {0})
  unfolding reserve_result
  reserve_seat_for_order version_id seat_id token s =
      let (answer, world) = u.post_reserve version_id seat_id token s.world in
      (reserve_result answer, record s { world = world })

  unfoldable pub release_seat_hold : ℕ → ℕ → State W → State W
  release_seat_hold version_id seat_id s = record s {
    world = u.post_release version_id seat_id s.world;
  }

  -- `configured`: a notification service is set in the environment.
  unfoldable pub notify_buyer : Bool → Notice → State W → State W
  notify_buyer configured notice s =
      if configured then record s { world = u.post_notification notice s.world } else s
