-- ===== src/Venue/Maps.antt =====
-- services/venue-service/src/seat-maps/seat-maps.service.ts: what its methods share, and the reads. The drawing of a
-- seat map is in Edit, the publication of a version in Publish.
pub mod Types
pub mod Edit
pub mod Publish
use ceylon_events.Common.{
  ℕ, Bool, not, Option, none, some, List, [], ◌∷◌, map, keep, has_value, leb, ◌==◌, any,
  if◌then◌else◌, Action, ok, err, not_found, forbidden, pure, gets, throw_if, or_throw, ◌>>=◌, ◌>>◌,
}
use ceylon_events.Shared.{JwtAccessPayload, can_manage_restaurant}
use Types.{
  SeatMap, SeatSection, SeatTable, Seat, SeatMapVersion, Reason, Database, State,
  seat_map_not_found, section_not_found, table_not_found, seat_not_found, version_not_found,
  may_not_manage,
}

pub record TableWithSeats : Type 0 where
  pub table : SeatTable
  pub seats : List Seat

pub record FullDefinition : Type 0 where
  pub seat_map : SeatMap
  pub sections : List SeatSection
  pub tables : List TableWithSeats

-- `findOne({ order: { f: "DESC" } })` of the rows found.
abbrev pub last_by : {A : Type 0} → (A → ℕ) → List A → Option A
last_by f [] = none
last_by f (x ∷ xs) =
    let rest = last_by f xs in
    elim rest [ none ↦ some x | some y ↦ if leb (f y) (f x) then some x else some y ]

module _ (db : Database) where
  unfoldable pub get_seat_map_or_throw : ℕ → Action State Reason SeatMap
  get_seat_map_or_throw id = do
    found ← gets (λ s. db.seat_maps.find_one (λ m. m.id == id) s.seat_maps)
    or_throw found (not_found seat_map_not_found)

  abbrev pub assert_can_manage : JwtAccessPayload → ℕ → Action State Reason (Unit {0})
  assert_can_manage caller restaurant_id =
      throw_if (not (can_manage_restaurant caller restaurant_id)) (forbidden may_not_manage)

  -- The seat map, if the caller may manage its restaurant.
  unfoldable pub owned_or_throw : ℕ → JwtAccessPayload → Action State Reason SeatMap
  unfolding get_seat_map_or_throw
  owned_or_throw id caller = do
    seat_map ← get_seat_map_or_throw id
    assert_can_manage caller seat_map.restaurant_id
    pure seat_map

  pub section_or_throw : ℕ → JwtAccessPayload → Action State Reason SeatSection
  unfolding owned_or_throw
  section_or_throw section_id caller = do
    found ← gets (λ s. db.sections.find_one (λ x. x.id == section_id) s.sections)
    section ← or_throw found (not_found section_not_found)
    _ ← owned_or_throw section.seat_map_id caller
    pure section

  pub table_or_throw : ℕ → JwtAccessPayload → Action State Reason SeatTable
  unfolding owned_or_throw
  table_or_throw table_id caller = do
    found ← gets (λ s. db.tables.find_one (λ x. x.id == table_id) s.tables)
    table ← or_throw found (not_found table_not_found)
    _ ← owned_or_throw table.seat_map_id caller
    pure table

  pub seat_or_throw : ℕ → JwtAccessPayload → Action State Reason Seat
  unfolding owned_or_throw
  seat_or_throw seat_id caller = do
    found ← gets (λ s. db.seats.find_one (λ x. x.id == seat_id) s.seats)
    seat ← or_throw found (not_found seat_not_found)
    _ ← owned_or_throw seat.seat_map_id caller
    pure seat

  pub list_by_restaurant : ℕ → JwtAccessPayload → Action State Reason (List SeatMap)
  list_by_restaurant restaurant_id caller = do
    assert_can_manage caller restaurant_id
    gets (λ s. db.seat_maps.find (λ m. m.restaurant_id == restaurant_id) s.seat_maps)

  abbrev pub definition_of : ℕ → SeatMap → State → FullDefinition
  definition_of id seat_map s =
      let seats = db.seats.find (λ x. x.seat_map_id == id) s.seats in
      record {
        seat_map = seat_map;
        sections = db.sections.find (λ x. x.seat_map_id == id) s.sections;
        tables =
            map (λ t. record { table = t; seats = keep (λ x. x.table_id == t.id) seats })
              (db.tables.find (λ x. x.seat_map_id == id) s.tables);
      }

  unfoldable pub get_full_definition : ℕ → JwtAccessPayload → Action State Reason FullDefinition
  unfolding owned_or_throw
  get_full_definition id caller = do
    seat_map ← owned_or_throw id caller
    gets (definition_of id seat_map)

  pub list_versions : ℕ → JwtAccessPayload → Action State Reason (List SeatMapVersion)
  unfolding owned_or_throw
  list_versions seat_map_id caller = do
    _ ← owned_or_throw seat_map_id caller
    gets (λ s. db.versions.find (λ v. v.seat_map_id == seat_map_id) s.versions)

  unfoldable pub get_version_or_throw : ℕ → Action State Reason SeatMapVersion
  get_version_or_throw version_id = do
    found ← gets (λ s. db.versions.find_one (λ v. v.id == version_id) s.versions)
    or_throw found (not_found version_not_found)

  -- Without seat maps no version is of one of them.
  pub get_latest_published_version_for_restaurant : ℕ → State → Option SeatMapVersion
  get_latest_published_version_for_restaurant restaurant_id s =
      let seat_maps = db.seat_maps.find (λ m. m.restaurant_id == restaurant_id) s.seat_maps in
      last_by (λ v. v.published_at)
        (db.versions.find (λ v. any (λ m. m.id == v.seat_map_id) seat_maps) s.versions)
