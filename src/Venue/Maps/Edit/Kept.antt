-- ===== src/Venue/Maps/Edit/Kept.antt =====
-- No edit of a seat map touches its published versions.
use ceylon_events.Common.{ℕ, ◌≡◌, List, arith}
use ceylon_events.Shared.{JwtAccessPayload}
use ceylon_events.Venue.Maps.Types.{
  CreateSeatMap, CreateSection, CreateTable, SeatInput, UpdateSeatMap, UpdateSection, UpdateTable,
  UpdateSeat, Database, State,
}
use ceylon_events.Venue.Maps.{
  owned_or_throw, get_seat_map_or_throw, section_or_throw, table_or_throw, seat_or_throw,
}
use ceylon_events.Venue.Maps.Edit.{
  create_seat_map, update_seat_map, create_section, update_section, delete_section, create_table,
  update_table, delete_table, bulk_create_seats, update_seat, delete_seat, insert_seat_map,
  insert_section, insert_table, insert_seats,
}

pub data Change : Type 0 where
  creates_seat_map : ℕ → CreateSeatMap → Change
  updates_seat_map : ℕ → UpdateSeatMap → Change
  creates_section : ℕ → CreateSection → Change
  updates_section : ℕ → UpdateSection → Change
  deletes_section deletes_table deletes_seat : ℕ → Change
  creates_table : ℕ → CreateTable → Change
  updates_table : ℕ → UpdateTable → Change
  creates_seats : ℕ → List SeatInput → Change
  updates_seat : ℕ → UpdateSeat → Change

module _ (db : Database) where
  pub apply : JwtAccessPayload → Change → State → State
  apply caller (creates_seat_map id dto) s = (create_seat_map db id dto caller s).1
  apply caller (updates_seat_map id dto) s = (update_seat_map db id dto caller s).1
  apply caller (creates_section id dto) s = (create_section db id dto caller s).1
  apply caller (updates_section id dto) s = (update_section db id dto caller s).1
  apply caller (deletes_section id) s = (delete_section db id caller s).1
  apply caller (deletes_table id) s = (delete_table db id caller s).1
  apply caller (deletes_seat id) s = (delete_seat db id caller s).1
  apply caller (creates_table id dto) s = (create_table db id dto caller s).1
  apply caller (updates_table id dto) s = (update_table db id dto caller s).1
  apply caller (creates_seats id inputs) s = (bulk_create_seats db id inputs caller s).1
  apply caller (updates_seat id dto) s = (update_seat db id dto caller s).1

  -- No edit touches the versions.
  pub apply-versions :
      (caller : JwtAccessPayload) (r : Change) (s : State)
      → (apply caller r s).versions ≡ s.versions
  unfolding apply create_seat_map update_seat_map create_section update_section delete_section
      create_table update_table delete_table bulk_create_seats update_seat delete_seat
      insert_seat_map insert_section insert_table insert_seats owned_or_throw get_seat_map_or_throw
      section_or_throw table_or_throw seat_or_throw
  apply-versions caller (creates_seat_map id dto) s = ground arith
  apply-versions caller (updates_seat_map id dto) s = ground arith
  apply-versions caller (creates_section id dto) s = ground arith
  apply-versions caller (updates_section id dto) s = ground arith
  apply-versions caller (deletes_section id) s = ground arith
  apply-versions caller (deletes_table id) s = ground arith
  apply-versions caller (deletes_seat id) s = ground arith
  apply-versions caller (creates_table id dto) s = ground arith
  apply-versions caller (updates_table id dto) s = ground arith
  apply-versions caller (creates_seats id inputs) s = ground arith
  apply-versions caller (updates_seat id dto) s = ground arith
