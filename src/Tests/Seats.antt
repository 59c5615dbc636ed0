-- ===== src/Tests/Seats.antt =====
-- venue-service on one held and one sold seat.
use ceylon_events.Common.{
  ℕ, ◌≡◌, refl, inl, inr, ◌==◌, if◌then◌else◌, Option, none, some, [], ◌∷◌, arith, ok, err,
  conflict, Repository,
}
use ceylon_events.Common.Memory.{memory, memory-IsRepository}
use ceylon_events.Shared.{SeatStatus, sold}
use ceylon_events.Venue.Redis.{key_eq}
use ceylon_events.Venue.Redis.Memory as InMemory
use ceylon_events.Venue.Redis.Memory.{Store, memory-IsRedis}
use ceylon_events.Venue.Holds.{
  Venue, SoldSeat, same_seat, default_config, holder_at, hold_key, create_hold, renew_hold,
  mark_sold, find_sold, seat_sold,
}
use ceylon_events.Venue.Holds.Requests.{Request, create, release, free, serve_all}
use ceylon_events.Venue.Holds.Exclusive.{holder-serve_all, create_hold_lem}
use ceylon_events.Venue.Holds.Sold.{sold_forever}
use ceylon_events.Venue.Holds.Races.{renew_hold-stolen}
use ceylon_events.Venue.Holds.Seats.{Seat, step, order_of, Shows}
use ceylon_events.Venue.Holds.Seats.History.{steps, IsOrdered, seat_machine}
use ceylon_events.Venue.Tables.{aggregate_table_statuses, booked}
use ceylon_events.Venue.Tables.Booked.{aggregate_table_statuses_lem}

abbrev seats_table : Repository SoldSeat
seats_table = memory (λ s. s.id) same_seat

-- Token 7 holds seat 2 of map 1 until 300000.
abbrev seat_2_held : Venue Store
seat_2_held = record {
  store = λ k. if key_eq (hold_key 1 2) k then some (7, 300000) else none;
  sold_seats = [];
}

abbrev order_50_row : SoldSeat
order_50_row = record { id = 0; seat_map_version_id = 1; seat_id = 3; order_id = some 50 }

-- Order 50 bought seat 3 of map 1.
abbrev seat_3_sold : Venue Store
seat_3_sold = record { store = λ k. none; sold_seats = order_50_row ∷ [] }

holder-serve_all_example :
    holder_at InMemory.memory seats_table 1 2 200000 (
      serve_all InMemory.memory seats_table default_config
        ((1000, create 1 2 8) ∷ (2000, release 1 2 8) ∷ (3000, Request.sell 1 3 none) ∷ [])
        seat_2_held)
    ≡ some 7
holder-serve_all_example =
    holder-serve_all seats_table default_config memory-IsRedis 1 2 7 200000
      ((1000, create 1 2 8) ∷ (2000, release 1 2 8) ∷ (3000, Request.sell 1 3 none) ∷ [])
      seat_2_held ((omega arith, tt), ((omega arith, λ h. ground arith), ((omega arith, refl), tt)))
      refl

create_hold_lem_example :
    (create_hold InMemory.memory seats_table (λ x. x) 1 3 300 9 1000 seat_3_sold).0
    ≡ err (conflict seat_sold)
create_hold_lem_example =
    elim (create_hold_lem seats_table default_config memory-IsRedis 1 3 300 9 1000 seat_3_sold) [
      | inl (sold_already, r, w) ↦ r
      | inr (inl (unsold, a, b, c)) ↦ absurd (ground arith)
      | inr (inr (unsold, a, b, c, d, e)) ↦ absurd (ground arith)
    ]

sold_forever_example :
    mark_sold InMemory.memory seats_table 1 3
      (some 51)
      (serve_all InMemory.memory seats_table default_config ((5, free 1 3) ∷ []) seat_3_sold)
    ≡ (ok tt, serve_all InMemory.memory seats_table default_config ((5, free 1 3) ∷ []) seat_3_sold)
sold_forever_example =
    (sold_forever InMemory.memory (memory-IsRepository (λ s. s.id) same_seat) default_config 1 3 0
        order_50_row ((5, free 1 3) ∷ []) seat_3_sold refl refl).2
      (some 51)

-- At 300000 the hold of token 7 is gone, and token 8 takes the seat.
abbrev taken_by_8 : Venue Store → Venue Store
taken_by_8 w = record w { store = λ k. if key_eq (hold_key 1 2) k then some (8, 600000) else none }

renew_hold-stolen_example :
    holder_at InMemory.memory seats_table 1 2 700000
      (renew_hold InMemory.memory seats_table taken_by_8 1 2 7 600 299999 300001 seat_2_held).1
    ≡ some 8
renew_hold-stolen_example =
    (renew_hold-stolen seats_table memory-IsRedis taken_by_8 1 2 7 8 600 299999 300001 700000
      seat_2_held refl refl (omega arith) (omega arith)).1

abbrev sold_3 : ℕ → Option SeatStatus
sold_3 s = if s == 3 then some sold else none

aggregate_table_statuses_lem_example :
    aggregate_table_statuses (record { id = 4; seats = 2 ∷ 3 ∷ [] } ∷ []) sold_3 4 ≡ some booked
aggregate_table_statuses_lem_example =
    aggregate_table_statuses_lem sold_3 (record { id = 4; seats = 2 ∷ 3 ∷ [] } ∷ []) 4

seat_2_held-Shows : Shows InMemory.memory seats_table 1 2 1000 (Seat.held 7 300000) seat_2_held
seat_2_held-Shows = record {
  rows = record { agree = λ k x at mine. cc; there = λ o e. cc };
  holder = λ t le. ground arith;
}

seat_machine_example :
    order_of (
      find_sold InMemory.memory seats_table 1 2 (
        serve_all InMemory.memory seats_table default_config
          ((2000, create 1 2 8) ∷ (3000, release 1 2 7) ∷ (4000, Request.sell 1 2 (some 51)) ∷ [])
          seat_2_held))
    ≡ some (some 51)
unfolding steps step IsOrdered
seat_machine_example =
    (seat_machine InMemory.memory seats_table default_config memory-IsRedis
      (memory-IsRepository (λ s. s.id) same_seat) 1 2 1000
      ((2000, create 1 2 8) ∷ (3000, release 1 2 7) ∷ (4000, Request.sell 1 2 (some 51)) ∷ [])
      (Seat.held 7 300000) seat_2_held (omega arith, (omega arith, (omega arith, tt)))
      seat_2_held-Shows).0
