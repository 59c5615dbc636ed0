-- ===== src/Venue/Tables.antt =====
-- `aggregateTableStatuses` of libs/shared-types/src/venue.ts: the state of a table from its seats.
pub mod Booked
use ceylon_events.Common.{ℕ, Option, none, some, List, [], ◌∷◌, ◌==◌, if◌then◌else◌}
use ceylon_events.Shared.{SeatStatus}

pub data TableBookingStatus : Type 0 where
  available held booked : TableBookingStatus

pub record TableInput : Type 0 where
  pub id : ℕ
  pub seats : List ℕ

-- The inner loop, with `status` so far; it breaks at a sold seat.
unfoldable pub table_status :
    (ℕ → Option SeatStatus) → List ℕ → TableBookingStatus → TableBookingStatus
table_status availability [] status = status
table_status availability (seat ∷ seats) status =
    let on = λ (s : TableBookingStatus). table_status availability seats s in
    elim (availability seat) [
      | none ↦ on status
      | some SeatStatus.sold ↦ booked
      | some SeatStatus.held ↦ on TableBookingStatus.held
      | some SeatStatus.held_by_me ↦ on TableBookingStatus.held
      | some SeatStatus.available ↦ on status
    ]

unfoldable pub aggregate_from :
    (ℕ → Option SeatStatus)
    → List TableInput
    → (ℕ → Option TableBookingStatus)
    → ℕ
    → Option TableBookingStatus
unfolding table_status
aggregate_from availability [] result = result
aggregate_from availability (table ∷ tables) result =
    let status = table_status availability table.seats TableBookingStatus.available in
    aggregate_from availability tables (λ t. if table.id == t then some status else result t)

unfoldable pub aggregate_table_statuses :
    List TableInput → (ℕ → Option SeatStatus) → ℕ → Option TableBookingStatus
unfolding aggregate_from
aggregate_table_statuses tables availability = aggregate_from availability tables (λ t. none)
