-- ===== src/Venue/Maps/Types.antt =====
-- The rows, the request bodies and the errors of seat maps: services/venue-service/src/seat-maps/entities and dto,
-- and the snapshots of libs/shared-types/src/venue.ts. A coordinate is a double that the service only
-- copies: it stands as the number of its 64 bits.
use ceylon_events.Common.{ℕ, Option, List, String, Repository}

pub data TableShape : Type 0 where
  rect circle : TableShape

pub data SeatMapStatus : Type 0 where
  draft published : SeatMapStatus

-- Columns that the database fills are left out, but for `published_at`.
pub record SeatMap : Type 0 where
  pub id : ℕ
  pub restaurant_id : ℕ
  pub name : String
  pub canvas_width : ℕ
  pub canvas_height : ℕ
  pub status : SeatMapStatus

pub record SeatSection : Type 0 where
  pub id : ℕ
  pub seat_map_id : ℕ
  pub name : String
  pub x : ℕ
  pub y : ℕ
  pub width : ℕ
  pub height : ℕ
  pub color : Option String
  pub sort_order : ℕ

pub record SeatTable : Type 0 where
  pub id : ℕ
  pub seat_map_id : ℕ
  pub section_id : Option ℕ
  pub table_number : String
  pub x : ℕ
  pub y : ℕ
  pub shape : TableShape
  pub capacity : ℕ

pub record Seat : Type 0 where
  pub id : ℕ
  pub seat_map_id : ℕ
  pub table_id : ℕ
  pub seat_label : String
  pub x : ℕ
  pub y : ℕ

pub record SeatSnapshot : Type 0 where
  pub id : ℕ
  pub table_id : ℕ
  pub seat_label : String
  pub x : ℕ
  pub y : ℕ

pub record TableSnapshot : Type 0 where
  pub id : ℕ
  pub section_id : Option ℕ
  pub table_number : String
  pub x : ℕ
  pub y : ℕ
  pub shape : TableShape
  pub capacity : ℕ
  pub seats : List SeatSnapshot

pub record SectionSnapshot : Type 0 where
  pub id : ℕ
  pub name : String
  pub x : ℕ
  pub y : ℕ
  pub width : ℕ
  pub height : ℕ
  pub color : Option String
  pub sort_order : ℕ

pub record SeatMapSnapshot : Type 0 where
  pub seat_map_id : ℕ
  pub restaurant_id : ℕ
  pub name : String
  pub canvas_width : ℕ
  pub canvas_height : ℕ
  pub sections : List SectionSnapshot
  pub tables : List TableSnapshot

pub record SeatMapVersion : Type 0 where
  pub id : ℕ
  pub seat_map_id : ℕ
  pub version_number : ℕ
  pub snapshot : SeatMapSnapshot
  pub published_at : ℕ

pub record CreateSeatMap : Type 0 where
  pub name : String
  pub canvas_width : ℕ
  pub canvas_height : ℕ

pub record CreateSection : Type 0 where
  pub name : String
  pub x : ℕ
  pub y : ℕ
  pub width : ℕ
  pub height : ℕ
  pub color : Option String
  pub sort_order : Option ℕ

pub record CreateTable : Type 0 where
  pub section_id : Option ℕ
  pub table_number : String
  pub x : ℕ
  pub y : ℕ
  pub shape : TableShape
  pub capacity : ℕ

pub record SeatInput : Type 0 where
  pub seat_label : String
  pub x : ℕ
  pub y : ℕ

-- A field that is absent stays; `null` clears one that may be null.
pub record UpdateSeatMap : Type 0 where
  pub name : Option String
  pub canvas_width : Option ℕ
  pub canvas_height : Option ℕ

pub record UpdateSection : Type 0 where
  pub name : Option String
  pub x : Option ℕ
  pub y : Option ℕ
  pub width : Option ℕ
  pub height : Option ℕ
  pub color : Option (Option String)
  pub sort_order : Option ℕ

pub record UpdateTable : Type 0 where
  pub section_id : Option (Option ℕ)
  pub table_number : Option String
  pub x : Option ℕ
  pub y : Option ℕ
  pub shape : Option TableShape
  pub capacity : Option ℕ

pub record UpdateSeat : Type 0 where
  pub seat_label : Option String
  pub x : Option ℕ
  pub y : Option ℕ

-- The messages of the exceptions that the service throws.
pub data Reason : Type 0 where
  seat_map_not_found section_not_found table_not_found seat_not_found version_not_found : Reason
  may_not_manage : Reason

pub record Database : Type 0 where
  pub seat_maps : Repository SeatMap
  pub sections : Repository SeatSection
  pub tables : Repository SeatTable
  pub seats : Repository Seat
  pub versions : Repository SeatMapVersion

pub record State : Type 0 where
  pub seat_maps : List SeatMap
  pub sections : List SeatSection
  pub tables : List SeatTable
  pub seats : List Seat
  pub versions : List SeatMapVersion
