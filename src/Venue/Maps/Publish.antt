-- ===== src/Venue/Maps/Publish.antt =====
-- `publish` of services/venue-service/src/seat-maps/seat-maps.service.ts: a version is a copy of the whole map.
pub mod Snapshots
pub mod Versions
pub mod History
pub mod Races
use ceylon_events.Common.{
  ℕ, ◌+◌, Option, none, some, List, map, ◌==◌, Action, ok, err, internal_error, pure, gets, modify,
  ◌>>=◌, ◌>>◌,
}
use ceylon_events.Shared.{JwtAccessPayload}
use ceylon_events.Venue.Maps.Types.{
  SeatMap, SeatSection, SeatTable, Seat, SeatSnapshot, TableSnapshot, SectionSnapshot,
  SeatMapSnapshot, SeatMapVersion, Reason, Database, State, published,
}
use ceylon_events.Venue.Maps.{TableWithSeats, FullDefinition, last_by, get_full_definition}

abbrev pub section_snapshot : SeatSection → SectionSnapshot
section_snapshot s = record {
  id = s.id;
  name = s.name;
  x = s.x;
  y = s.y;
  width = s.width;
  height = s.height;
  color = s.color;
  sort_order = s.sort_order;
}

abbrev pub seat_snapshot : Seat → SeatSnapshot
seat_snapshot s = record {
  id = s.id;
  table_id = s.table_id;
  seat_label = s.seat_label;
  x = s.x;
  y = s.y;
}

abbrev pub table_snapshot : TableWithSeats → TableSnapshot
table_snapshot t = record {
  id = t.table.id;
  section_id = t.table.section_id;
  table_number = t.table.table_number;
  x = t.table.x;
  y = t.table.y;
  shape = t.table.shape;
  capacity = t.table.capacity;
  seats = map seat_snapshot t.seats;
}

abbrev pub snapshot_of : FullDefinition → SeatMapSnapshot
snapshot_of d = record {
  seat_map_id = d.seat_map.id;
  restaurant_id = d.seat_map.restaurant_id;
  name = d.seat_map.name;
  canvas_width = d.seat_map.canvas_width;
  canvas_height = d.seat_map.canvas_height;
  sections = map section_snapshot d.sections;
  tables = map table_snapshot d.tables;
}

-- `(lastVersion?.versionNumber ?? 0) + 1`
abbrev pub next_number : Option SeatMapVersion → ℕ
next_number none = 1
next_number (some v) = v.version_number + 1

module _ (db : Database) where
  abbrev pub last_version : ℕ → State → Option SeatMapVersion
  last_version seat_map_id s =
      last_by (λ v. v.version_number)
        (db.versions.find (λ v. v.seat_map_id == seat_map_id) s.versions)

  abbrev pub insert_version : SeatMapVersion → Action State Reason SeatMapVersion
  insert_version v s = elim (db.versions.insert v s.versions) [
    | none ↦ (err internal_error, s)
    | some table ↦ (ok v, record s { versions = table })
  ]

  -- What a publication reads before it writes.
  abbrev pub begin_publish :
      ℕ → JwtAccessPayload → Action State Reason (FullDefinition × Option SeatMapVersion)
  begin_publish seat_map_id caller = do
    definition ← get_full_definition db seat_map_id caller
    last ← gets (last_version seat_map_id)
    pure (definition, last)

  abbrev pub commit_publish :
      ℕ → ℕ → FullDefinition × Option SeatMapVersion → Action State Reason SeatMapVersion
  commit_publish seat_map_id now (definition, last) = do
    id ← gets (λ s. db.versions.fresh s.versions)
    saved ← insert_version (record {
      id = id;
      seat_map_id = seat_map_id;
      version_number = next_number last;
      snapshot = snapshot_of definition;
      published_at = now;
    })
    modify λ s. record s {
      seat_maps = db.seat_maps.save (record definition.seat_map { status = published }) s.seat_maps;
    }
    pure saved

  unfoldable pub publish : ℕ → JwtAccessPayload → ℕ → Action State Reason SeatMapVersion
  publish seat_map_id caller now = do
    begun ← begin_publish seat_map_id caller
    commit_publish seat_map_id now begun
