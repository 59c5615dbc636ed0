-- ===== src/Tests/Drawing.antt =====
-- The seat maps of venue-service on a map with one table and one seat.
use ceylon_events.Common.{◌≡◌, ◌≢◌, refl, ap, Option, none, some, [], ◌∷◌, arith, ok, no_clash}
use ceylon_events.Common.Memory.{memory, memory-IsRepository}
use ceylon_events.Shared.{JwtAccessPayload, can_manage_restaurant}
use ceylon_events.Venue.Maps.Types.{
  SeatMap, SeatSection, SeatTable, Seat, SeatMapVersion, Database, State, draft, published, circle,
}
use ceylon_events.Venue.Maps.{
  FullDefinition, definition_of, get_version_or_throw, get_full_definition, owned_or_throw,
  get_seat_map_or_throw,
}
use ceylon_events.Venue.Maps.Edit.Kept.{deletes_seat, deletes_section}
use ceylon_events.Venue.Maps.Publish.{publish, commit_publish}
use ceylon_events.Venue.Maps.Publish.Versions.{changes, publishes, serve_all, IsNumbered}
use ceylon_events.Venue.Maps.Publish.Races.{publish-raced}
use ceylon_events.Venue.Maps.Publish.History.{serve_all-IsNumbered, published_forever}

abbrev database : Database
database = record {
  seat_maps = memory (λ m. m.id) no_clash;
  sections = memory (λ x. x.id) no_clash;
  tables = memory (λ t. t.id) no_clash;
  seats = memory (λ x. x.id) no_clash;
  versions = memory (λ v. v.id) no_clash;
}

abbrev manager : JwtAccessPayload
manager = record { sub = 2; roles = []; restaurant_id = some 5 }

abbrev garden : SeatMap
garden = record {
  id = 1;
  restaurant_id = 5;
  name = "garden";
  canvas_width = 800;
  canvas_height = 600;
  status = draft;
}

abbrev lawn : SeatSection
lawn = record {
  id = 4;
  seat_map_id = 1;
  name = "lawn";
  x = 0;
  y = 0;
  width = 400;
  height = 600;
  color = none;
  sort_order = 0;
}

abbrev table_10 : SeatTable
table_10 = record {
  id = 10;
  seat_map_id = 1;
  section_id = some 4;
  table_number = "T1";
  x = 20;
  y = 30;
  shape = circle;
  capacity = 4;
}

abbrev seat_20 : Seat
seat_20 = record { id = 20; seat_map_id = 1; table_id = 10; seat_label = "A"; x = 22; y = 33 }

abbrev drawn : State
drawn = record {
  seat_maps = garden ∷ [];
  sections = lawn ∷ [];
  tables = table_10 ∷ [];
  seats = seat_20 ∷ [];
  versions = [];
}

abbrev first_version : SeatMapVersion
first_version = record {
  id = 0;
  seat_map_id = 1;
  version_number = 1;
  snapshot = record {
    seat_map_id = 1;
    restaurant_id = 5;
    name = "garden";
    canvas_width = 800;
    canvas_height = 600;
    sections =
        record {
          id = 4;
          name = "lawn";
          x = 0;
          y = 0;
          width = 400;
          height = 600;
          color = none;
          sort_order = 0;
        }
        ∷ [];
    tables =
        record {
          id = 10;
          section_id = some 4;
          table_number = "T1";
          x = 20;
          y = 30;
          shape = circle;
          capacity = 4;
          seats = record { id = 20; table_id = 10; seat_label = "A"; x = 22; y = 33 } ∷ [];
        }
        ∷ [];
  };
  published_at = 9000;
}

-- The table in memory keeps the row that was saved over below the new one.
abbrev drawn_and_published : State
drawn_and_published = record drawn {
  seat_maps = record garden { status = published } ∷ garden ∷ [];
  versions = first_version ∷ [];
}

published_forever_example :
    (get_version_or_throw database 0 (
      serve_all database
        ((manager, changes (deletes_seat 20)) ∷ (manager, publishes 1 9500) ∷ [])
        drawn_and_published)).0
    ≡ ok first_version
unfolding publish get_full_definition owned_or_throw get_seat_map_or_throw can_manage_restaurant
published_forever_example =
    ap (λ r. r.0)
      ((published_forever database (memory-IsRepository (λ m. m.id) no_clash)
        (memory-IsRepository (λ v. v.id) no_clash) (memory-IsRepository (λ t. t.id) no_clash)
        (memory-IsRepository (λ x. x.id) no_clash) 1 9000 manager first_version drawn
        drawn_and_published
        ((manager, changes (deletes_seat 20)) ∷ (manager, publishes 1 9500) ∷ []) refl).0)

serve_all-IsNumbered_example : IsNumbered (
    serve_all database
      ((manager, publishes 1 9500)
        ∷ (manager, changes (deletes_section 4))
        ∷ (manager, publishes 1 9900)
        ∷ [])
      drawn_and_published)
unfolding IsNumbered
serve_all-IsNumbered_example =
    serve_all-IsNumbered database (memory-IsRepository (λ m. m.id) no_clash)
      (memory-IsRepository (λ v. v.id) no_clash)
      ((manager, publishes 1 9500)
        ∷ (manager, changes (deletes_section 4))
        ∷ (manager, publishes 1 9900)
        ∷ [])
      drawn_and_published (λ a b a_at b_at same_map same_number. ground arith)

abbrev begun : FullDefinition × Option SeatMapVersion
begun = (definition_of database 1 garden drawn, none)

publish-raced_example :
    let s1 = (commit_publish database 1 9000 begun drawn).1 in
    (v : SeatMapVersion) × (v' : SeatMapVersion) × ((commit_publish database 1 9000 begun drawn).0
      ≡ ok v)
    × ((commit_publish database 1 9001 begun s1).0 ≡ ok v')
    × (v.id ≢ v'.id)
    × (v.seat_map_id ≡ v'.seat_map_id)
    × (v.version_number ≡ v'.version_number)
unfolding get_full_definition owned_or_throw get_seat_map_or_throw can_manage_restaurant
publish-raced_example =
    publish-raced database (memory-IsRepository (λ v. v.id) no_clash) 1 9000 9001 manager manager
      begun begun drawn refl refl
