-- ===== src/Venue/Tables/Booked.antt =====
-- The state of a table against the description in the comment above `TableBookingStatus`.
use ceylon_events.Common.{
  ℕ, ◌≡◌, refl, Bool, true, false, Option, none, some, List, [], ◌∷◌, arith, any, ◌==◌,
  if◌then◌else◌,
}
use ceylon_events.Shared.{SeatStatus}
use ceylon_events.Venue.Tables.{
  TableBookingStatus, available, held, booked, TableInput, table_status, aggregate_from,
  aggregate_table_statuses,
}

abbrev pub is_sold : Option SeatStatus → Bool
is_sold none = false
is_sold (some s) = elim s [ SeatStatus.sold ↦ true | _ ↦ false ]

abbrev pub is_held : Option SeatStatus → Bool
is_held none = false
is_held (some s) = elim s [ SeatStatus.held ↦ true | SeatStatus.held_by_me ↦ true | _ ↦ false ]

-- Booked once any seat is sold, held if none is sold and some seat is held.
abbrev pub described : (ℕ → Option SeatStatus) → List ℕ → TableBookingStatus → TableBookingStatus
described availability seats otherwise =
    if any (λ s. is_sold (availability s)) seats
    then booked
    else (if any (λ s. is_held (availability s)) seats then held else otherwise)

table_status_lem :
    (availability : ℕ → Option SeatStatus) (seats : List ℕ) (status : TableBookingStatus)
    → table_status availability seats status ≡ described availability seats status
unfolding table_status
table_status_lem availability [] status = refl
table_status_lem availability (x ∷ seats) status =
    ground
      (arith, table_status_lem availability seats status, table_status_lem availability seats held)

-- The last table with the id.
abbrev pub last_table : ℕ → List TableInput → Option TableInput
last_table t [] = none
last_table t (x ∷ xs) = elim (last_table t xs) [
  | none ↦ if x.id == t then some x else none
  | some y ↦ some y
]

abbrev pub described_table :
    (ℕ → Option SeatStatus)
    → Option TableInput
    → Option TableBookingStatus
    → Option TableBookingStatus
described_table availability none otherwise = otherwise
described_table availability (some table) otherwise =
    some (described availability table.seats available)

aggregate_from_lem :
    (availability : ℕ → Option SeatStatus) (tables : List TableInput)
    (result : ℕ → Option TableBookingStatus) (t : ℕ)
    → aggregate_from availability tables result t
      ≡ described_table availability (last_table t tables) (result t)
unfolding aggregate_from
aggregate_from_lem availability [] result t = refl
aggregate_from_lem availability (x ∷ tables) result t =
    let status = table_status availability x.seats available in
    rw (aggregate_from_lem availability tables (λ u. if x.id == u then some status else result u) t)
      (ground (arith, table_status_lem availability x.seats available))

-- Each table of the map is booked, held or available just as the comment says; no other id has an
-- entry.
pub aggregate_table_statuses_lem :
    (availability : ℕ → Option SeatStatus) (tables : List TableInput) (t : ℕ)
    → aggregate_table_statuses tables availability t
      ≡ described_table availability (last_table t tables) none
unfolding aggregate_table_statuses
aggregate_table_statuses_lem availability tables t =
    aggregate_from_lem availability tables (λ u. none) t
