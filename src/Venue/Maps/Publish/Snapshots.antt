-- ===== src/Venue/Maps/Publish/Snapshots.antt =====
-- What order-service finds of a seat in a published snapshot.
use ceylon_events.Common.{
  ℕ, ◌≡◌, ◌≢◌, refl, ◌∙◌, sym, ap, subst, inl, inr, true, Option, none, some, List, [], ◌∷◌, map,
  keep, find?, find?-some, find?-none, keep-Elem, Elem-keep, Elem, here, there, All-Elem, Selected,
  arith, ◌==◌, ==_iff, ==_refl, if◌then◌else◌, IsRepository, row, row-key, no_clash, Option-cases,
  Bool-cases,
}
use ceylon_events.Orders.Types.{SnapshotSeat, SnapshotTable}
use ceylon_events.Orders.Upstream.{SeatInfo, find_seat_in_snapshot}
use ceylon_events.Venue.Maps.Types.{
  SeatMap, SeatTable, Seat, SeatSnapshot, TableSnapshot, SeatMapSnapshot, Database, State,
}
use ceylon_events.Venue.Maps.{TableWithSeats, definition_of}
use ceylon_events.Venue.Maps.Publish.{seat_snapshot, table_snapshot, snapshot_of}

-- The fields of a snapshot that order-service reads.
abbrev pub seat_view : SeatSnapshot → SnapshotSeat
seat_view s = record { id = s.id; seat_label = s.seat_label }

abbrev pub table_view : TableSnapshot → SnapshotTable
table_view t = record { section_id = t.section_id; seats = map seat_view t.seats }

abbrev pub order_view : SeatMapSnapshot → List SnapshotTable
order_view snapshot = map table_view snapshot.tables

abbrev info : Seat → SeatTable → SeatInfo
info x t = record { seat_label = x.seat_label; section_id = t.section_id }

abbrev info_at : ℕ → Seat → Option SeatTable → Option SeatInfo
info_at map_id x none = none
info_at map_id x (some t) = if t.seat_map_id == map_id then some (info x t) else none

abbrev info_of : ℕ → Option Seat → State → Option SeatInfo
info_of map_id none s = none
info_of map_id (some x) s =
    if x.seat_map_id == map_id then info_at map_id x (row (λ t. t.id) x.table_id s.tables) else none

-- What the rows of the map say of a seat: its label, and the section of its table.
abbrev pub seat_info : ℕ → ℕ → State → Option SeatInfo
seat_info map_id seat_id s = info_of map_id (row (λ x. x.id) seat_id s.seats) s

-- The seat with an id at a table, among the seats of the map.
abbrev at_table : List Seat → ℕ → SeatTable → Option Seat
at_table seats k t = find? (λ x. x.id == k) (keep (λ x. x.table_id == t.id) seats)

abbrev with_seats : List Seat → SeatTable → TableWithSeats
with_seats seats t = record { table = t; seats = keep (λ x. x.table_id == t.id) seats }

abbrev view_of : List Seat → List SeatTable → List SnapshotTable
view_of seats ts = map table_view (map table_snapshot (map (with_seats seats) ts))

view-seats :
    (k : ℕ) (xs : List Seat)
    → find? (λ s. s.id == k) (map seat_view (map seat_snapshot xs))
      ≡ elim (find? (λ x. x.id == k) xs) [
        | none ↦ none
        | some x ↦ some (seat_view (seat_snapshot x))
      ]
view-seats k [] = refl
view-seats k (x ∷ xs) = elim (Bool-cases (x.id == k)) [
  | inl hit ↦ ground arith
  | inr miss ↦ ground (arith, view-seats k xs)
]

-- What is found in the view is at some table of it, and nothing is only if no table has the seat.
view-some :
    (seats : List Seat) (ts : List SeatTable) (k : ℕ) (i : SeatInfo)
    → find_seat_in_snapshot (view_of seats ts) k ≡ some i
    → (t : SeatTable) × (x : Seat) × Elem t ts × (at_table seats k t ≡ some x) × (i ≡ info x t)
unfolding find_seat_in_snapshot
view-some seats [] k i e = cc
view-some seats (t ∷ ts) k i e = elim (Option-cases (at_table seats k t)) [
  | inr (x, found) ↦
      (t, x, here refl, found, ground (arith, view-seats k (keep (λ y. y.table_id == t.id) seats)))
  | inl missing ↦
      let (t', x, j, found, is) =
        view-some seats ts k i
          (ground (arith, view-seats k (keep (λ y. y.table_id == t.id) seats))) in
      (t', x, there j, found, is)
]

view-none :
    (seats : List Seat) (ts : List SeatTable) (k : ℕ)
    → find_seat_in_snapshot (view_of seats ts) k ≡ none
    → (t : SeatTable) → Elem t ts
    → at_table seats k t ≡ none
unfolding find_seat_in_snapshot
view-none seats [] k e t i = elim i [ ]
view-none seats (u ∷ ts) k e t (here q) =
    subst (λ z. at_table seats k z ≡ none) q
      (elim (Option-cases (at_table seats k u)) [
        | inl missing ↦ missing
        | inr (x, found) ↦
            absurd (ground (arith, view-seats k (keep (λ y. y.table_id == u.id) seats)))
      ])
view-none seats (u ∷ ts) k e t (there i) =
    view-none seats ts k
      (elim (Option-cases (at_table seats k u)) [
        | inl missing ↦ ground (arith, view-seats k (keep (λ y. y.table_id == u.id) seats))
        | inr (x, found) ↦
            absurd (ground (arith, view-seats k (keep (λ y. y.table_id == u.id) seats)))
      ])
      t i

module _ (db : Database) (lawful_tables : IsRepository (λ t. t.id) no_clash db.tables)
    (lawful_seats : IsRepository (λ x. x.id) no_clash db.seats) where
  abbrev seats_of : ℕ → State → List Seat
  seats_of id s = db.seats.find (λ x. x.seat_map_id == id) s.seats

  abbrev tables_of : ℕ → State → List SeatTable
  tables_of id s = db.tables.find (λ x. x.seat_map_id == id) s.tables

  -- A seat at a table of the map is the row with its id.
  at_table-info :
      (id k : ℕ) (t : SeatTable) (x : Seat) (s : State)
      → Elem t (tables_of id s)
      → at_table (seats_of id s) k t ≡ some x
      → seat_info id k s ≡ some (info x t)
  at_table-info id k t x s i found =
      let q = λ (y : Seat). y.table_id == t.id in
      let (j, same_id) = find?-some (λ y. y.id == k) (keep q (seats_of id s)) x found in
      let (l, same_table) = keep-Elem q (seats_of id s) x j in
      let (at, on_map) =
        All-Elem (Selected (λ y. y.id) (λ y. y.seat_map_id == id) s.seats) (seats_of id s) x
          (lawful_seats.find-Selected (λ y. y.seat_map_id == id) s.seats) l in
      let (t_at, t_on_map) =
        All-Elem (Selected (λ y. y.id) (λ y. y.seat_map_id == id) s.tables) (tables_of id s) t
          (lawful_tables.find-Selected (λ y. y.seat_map_id == id) s.tables) i in
      let id_is : x.id ≡ k = ground (arith, ==_iff x.id k) in
      let table_is : t.id ≡ x.table_id = ground (arith, ==_iff x.table_id t.id) in
      let at_k : row (λ y. y.id) k s.seats ≡ some x =
        ap (λ n. row (λ y. y.id) n s.seats) (sym id_is) ∙ at in
      let t_at_x : row (λ y. y.id) x.table_id s.tables ≡ some t =
        ap (λ n. row (λ y. y.id) n s.tables) (sym table_is) ∙ t_at in
      ground (arith, at_k, t_at_x)

  -- A seat of the map at a table of the map is found at the table.
  info-at_table :
      (id k : ℕ) (t : SeatTable) (x : Seat) (s : State)
      → row (λ y. y.id) k s.seats ≡ some x
      → (x.seat_map_id == id) ≡ true
      → row (λ y. y.id) x.table_id s.tables ≡ some t
      → (t.seat_map_id == id) ≡ true
      → Elem t (tables_of id s) × (at_table (seats_of id s) k t ≢ none)
  info-at_table id k t x s at on_map t_at t_on_map =
      let q = λ (y : Seat). y.table_id == t.id in
      let j = lawful_seats.find-Elem (λ y. y.seat_map_id == id) s.seats k x at on_map in
      let k_is : x.id ≡ k = row-key (λ y. y.id) s.seats k x at in
      let t_is : t.id ≡ x.table_id = row-key (λ y. y.id) s.tables x.table_id t t_at in
      let kept = Elem-keep q (seats_of id s) x j (ground (arith, ==_refl x.table_id)) in
      (
        lawful_tables.find-Elem (λ y. y.seat_map_id == id) s.tables x.table_id t t_at t_on_map,
        λ missing. absurd (
            ground (
              arith,
              find?-none (λ y. y.id == k) (keep q (seats_of id s)) x missing kept,
              ==_refl k,
            )),
      )

  -- In the snapshot that is published order-service finds a seat exactly if the map has it, at a table of
  -- the map, and finds its label and the section of its table.
  pub find_seat_in_snapshot-published :
      (id k : ℕ) (m : SeatMap) (s : State)
      → find_seat_in_snapshot (order_view (snapshot_of (definition_of db id m s))) k
        ≡ seat_info id k s
  find_seat_in_snapshot-published id k m s =
      let seats = seats_of id s in
      let ts = tables_of id s in
      elim (Option-cases (find_seat_in_snapshot (view_of seats ts) k)) [
        | inr (i, e) ↦
            let (t, x, j, found, is) = view-some seats ts k i e in
            e ∙ ap some is ∙ sym (at_table-info id k t x s j found)
        | inl e ↦ elim (Option-cases (seat_info id k s)) [
          | inl e' ↦ e ∙ sym e'
          | inr (i, e') ↦ elim (Option-cases (row (λ y. y.id) k s.seats)) [
            | inl gone ↦ absurd (ground arith)
            | inr (x, at) ↦ elim (Option-cases (row (λ y. y.id) x.table_id s.tables)) [
              | inl gone ↦ absurd (ground arith)
              | inr (t, t_at) ↦
                  let (j, some_seat) =
                    info-at_table id k t x s at (ground arith) t_at (ground arith) in
                  absurd (some_seat (view-none seats ts k e t j))
            ]
          ]
        ]
      ]
