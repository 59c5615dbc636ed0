-- ===== src/Venue/Maps/Edit.antt =====
-- The drawing of a seat map: the methods of services/venue-service/src/seat-maps/seat-maps.service.ts that change
-- maps, sections, tables and seats. `Object.assign(x, dto)` is a `merge`.
pub mod Kept
use ceylon_events.Common.{
  ℕ, Bool, Option, none, some, List, [], ◌∷◌, ◌==◌, has_value, or_else, if◌then◌else◌, Action, ok,
  err, not_found, internal_error, pure, gets, modify, throw_if, or_throw, ◌>>=◌, ◌>>◌,
}
use ceylon_events.Shared.{JwtAccessPayload}
use ceylon_events.Venue.Maps.Types.{
  SeatMap, SeatSection, SeatTable, Seat, CreateSeatMap, CreateSection, CreateTable, SeatInput,
  UpdateSeatMap, UpdateSection, UpdateTable, UpdateSeat, Reason, Database, State, draft,
}
use ceylon_events.Venue.Maps.{
  assert_can_manage, owned_or_throw, section_or_throw, table_or_throw, seat_or_throw,
}

merge_seat_map : UpdateSeatMap → SeatMap → SeatMap
merge_seat_map dto m = record m {
  name = or_else dto.name m.name;
  canvas_width = or_else dto.canvas_width m.canvas_width;
  canvas_height = or_else dto.canvas_height m.canvas_height;
}

merge_section : UpdateSection → SeatSection → SeatSection
merge_section dto x = record x {
  name = or_else dto.name x.name;
  x = or_else dto.x x.x;
  y = or_else dto.y x.y;
  width = or_else dto.width x.width;
  height = or_else dto.height x.height;
  color = or_else dto.color x.color;
  sort_order = or_else dto.sort_order x.sort_order;
}

merge_table : UpdateTable → SeatTable → SeatTable
merge_table dto t = record t {
  section_id = or_else dto.section_id t.section_id;
  table_number = or_else dto.table_number t.table_number;
  x = or_else dto.x t.x;
  y = or_else dto.y t.y;
  shape = or_else dto.shape t.shape;
  capacity = or_else dto.capacity t.capacity;
}

merge_seat : UpdateSeat → Seat → Seat
merge_seat dto x = record x {
  seat_label = or_else dto.seat_label x.seat_label;
  x = or_else dto.x x.x;
  y = or_else dto.y x.y;
}

module _ (db : Database) where
  insert_seat_map : SeatMap → Action State Reason SeatMap
  insert_seat_map m s = elim (db.seat_maps.insert m s.seat_maps) [
    | none ↦ (err internal_error, s)
    | some table ↦ (ok m, record s { seat_maps = table })
  ]

  insert_section : SeatSection → Action State Reason SeatSection
  insert_section x s = elim (db.sections.insert x s.sections) [
    | none ↦ (err internal_error, s)
    | some table ↦ (ok x, record s { sections = table })
  ]

  insert_table : SeatTable → Action State Reason SeatTable
  insert_table t s = elim (db.tables.insert t s.tables) [
    | none ↦ (err internal_error, s)
    | some table ↦ (ok t, record s { tables = table })
  ]

  pub create_seat_map : ℕ → CreateSeatMap → JwtAccessPayload → Action State Reason SeatMap
  unfolding insert_seat_map
  create_seat_map restaurant_id dto caller = do
    assert_can_manage db caller restaurant_id
    id ← gets (λ s. db.seat_maps.fresh s.seat_maps)
    insert_seat_map (record {
      id = id;
      restaurant_id = restaurant_id;
      name = dto.name;
      canvas_width = dto.canvas_width;
      canvas_height = dto.canvas_height;
      status = draft;
    })

  pub update_seat_map : ℕ → UpdateSeatMap → JwtAccessPayload → Action State Reason SeatMap
  unfolding merge_seat_map
  update_seat_map id dto caller = do
    seat_map ← owned_or_throw db id caller
    modify
        (λ s. record s { seat_maps = db.seat_maps.save (merge_seat_map dto seat_map) s.seat_maps })
    pure (merge_seat_map dto seat_map)

  pub create_section : ℕ → CreateSection → JwtAccessPayload → Action State Reason SeatSection
  unfolding insert_section
  create_section seat_map_id dto caller = do
    _ ← owned_or_throw db seat_map_id caller
    id ← gets (λ s. db.sections.fresh s.sections)
    insert_section (record {
      id = id;
      seat_map_id = seat_map_id;
      name = dto.name;
      x = dto.x;
      y = dto.y;
      width = dto.width;
      height = dto.height;
      color = dto.color;
      sort_order = or_else dto.sort_order 0;
    })

  pub update_section : ℕ → UpdateSection → JwtAccessPayload → Action State Reason SeatSection
  unfolding merge_section
  update_section section_id dto caller = do
    section ← section_or_throw db section_id caller
    modify (λ s. record s { sections = db.sections.save (merge_section dto section) s.sections })
    pure (merge_section dto section)

  -- Tables of the section stay, without a section.
  pub delete_section : ℕ → JwtAccessPayload → Action State Reason (Unit {0})
  delete_section section_id caller = do
    _ ← section_or_throw db section_id caller
    modify λ s. record s {
      tables =
          db.tables.update (λ t. has_value t.section_id section_id)
            (λ t. record t { section_id = none }) s.tables;
    }
    modify (λ s. record s { sections = db.sections.remove (λ x. x.id == section_id) s.sections })

  pub create_table : ℕ → CreateTable → JwtAccessPayload → Action State Reason SeatTable
  unfolding insert_table
  create_table seat_map_id dto caller = do
    _ ← owned_or_throw db seat_map_id caller
    id ← gets (λ s. db.tables.fresh s.tables)
    insert_table (record {
      id = id;
      seat_map_id = seat_map_id;
      section_id = dto.section_id;
      table_number = dto.table_number;
      x = dto.x;
      y = dto.y;
      shape = dto.shape;
      capacity = dto.capacity;
    })

  pub update_table : ℕ → UpdateTable → JwtAccessPayload → Action State Reason SeatTable
  unfolding merge_table
  update_table table_id dto caller = do
    table ← table_or_throw db table_id caller
    modify (λ s. record s { tables = db.tables.save (merge_table dto table) s.tables })
    pure (merge_table dto table)

  pub delete_table : ℕ → JwtAccessPayload → Action State Reason (Unit {0})
  delete_table table_id caller = do
    _ ← table_or_throw db table_id caller
    modify (λ s. record s { seats = db.seats.remove (λ x. x.table_id == table_id) s.seats })
    modify (λ s. record s { tables = db.tables.remove (λ t. t.id == table_id) s.tables })

  -- The rows of new seats; TypeORM saves a list in one transaction.
  stored_seats : SeatTable → List SeatInput → List Seat → Option (List Seat × List Seat)
  stored_seats table [] t = some ([], t)
  stored_seats table (input ∷ inputs) t =
      let seat : Seat = record {
        id = db.seats.fresh t;
        seat_map_id = table.seat_map_id;
        table_id = table.id;
        seat_label = input.seat_label;
        x = input.x;
        y = input.y;
      } in
      elim (db.seats.insert seat t) [
        | none ↦ none
        | some t1 ↦ elim (stored_seats table inputs t1) [
          | none ↦ none
          | some (seats, t2) ↦ some (seat ∷ seats, t2)
        ]
      ]

  insert_seats : SeatTable → List SeatInput → Action State Reason (List Seat)
  unfolding stored_seats
  insert_seats table inputs s = elim (stored_seats table inputs s.seats) [
    | none ↦ (err internal_error, s)
    | some (seats, t) ↦ (ok seats, record s { seats = t })
  ]

  pub bulk_create_seats : ℕ → List SeatInput → JwtAccessPayload → Action State Reason (List Seat)
  unfolding insert_seats
  bulk_create_seats table_id inputs caller = do
    table ← table_or_throw db table_id caller
    insert_seats table inputs

  pub update_seat : ℕ → UpdateSeat → JwtAccessPayload → Action State Reason Seat
  unfolding merge_seat
  update_seat seat_id dto caller = do
    seat ← seat_or_throw db seat_id caller
    modify (λ s. record s { seats = db.seats.save (merge_seat dto seat) s.seats })
    pure (merge_seat dto seat)

  pub delete_seat : ℕ → JwtAccessPayload → Action State Reason (Unit {0})
  delete_seat seat_id caller = do
    _ ← seat_or_throw db seat_id caller
    modify (λ s. record s { seats = db.seats.remove (λ x. x.id == seat_id) s.seats })
