-- ===== src/Venue/Maps/Publish/Versions.antt =====
-- Published versions over any history of a restaurant's work on its seat maps.
use ceylon_events.Common.{
  ℕ, ◌+◌, ◌≤◌, ◌≡◌, refl, ◌∙◌, ap, ◌⊎◌, inl, inr, true, Option, none, some, List, [], ◌∷◌, arith,
  ◌==◌, ==_refl, ok, Elem, here, there, IsRepository, row, insert-fresh, no_clash, find_one-key,
  Option-cases, Bool-cases, Exception, err, not_found, forbidden,
}
use ceylon_events.Shared.{JwtAccessPayload, can_manage_restaurant}
use ceylon_events.Venue.Maps.Types.{
  SeatMap, SeatMapVersion, Database, State, Reason, seat_map_not_found, may_not_manage,
}
use ceylon_events.Venue.Maps.{
  last_by, definition_of, get_full_definition, owned_or_throw, get_seat_map_or_throw,
}
use ceylon_events.Venue.Maps.Edit.Kept.{Change, apply}
use ceylon_events.Venue.Maps.Publish.{publish, next_number, last_version, snapshot_of}

pub data Request : Type 0 where
  changes : Change → Request
  publishes : ℕ → ℕ → Request

abbrev pub version_row : ℕ → State → Option SeatMapVersion
version_row k s = row (λ v. v.id) k s.versions

-- No two versions of a map have one number.
unfoldable pub IsNumbered : State → Type 0
IsNumbered s =
    (a b : SeatMapVersion)
    → version_row a.id s ≡ some a
    → version_row b.id s ≡ some b
    → a.seat_map_id ≡ b.seat_map_id
    → a.version_number ≡ b.version_number
    → a ≡ b

last_by-none : {A : Type 0} (f : A → ℕ) (xs : List A) (x : A) → last_by f xs ≡ none → Elem x xs → ⊥
last_by-none f [] x e i = elim i [ ]
last_by-none f (y ∷ xs) x e i = ground arith

last_by-max :
    {A : Type 0} (f : A → ℕ) (xs : List A) (x y : A) → last_by f xs ≡ some y → Elem x xs → f x ≤ f y
last_by-max f [] x y e i = elim i [ ]
last_by-max f (z ∷ xs) x y e (here q) = elim (Option-cases (last_by f xs)) [
  | inl none_left ↦ ground (arith)
  | inr (w, e') ↦ ground (arith)
]
last_by-max f (z ∷ xs) x y e (there i) = elim (Option-cases (last_by f xs)) [
  | inl none_left ↦ absurd (last_by-none f xs x none_left i)
  | inr (w, e') ↦ ground (arith, last_by-max f xs x w e' i)
]

module _ (db : Database) where
  unfoldable pub serve : JwtAccessPayload → Request → State → State
  serve caller (changes r) s = apply db caller r s
  serve caller (publishes id now) s = (publish db id caller now s).1

  unfoldable pub serve_all : List (JwtAccessPayload × Request) → State → State
  serve_all [] s = s
  serve_all ((caller, r) ∷ rs) s = serve_all rs (serve caller r s)

  -- What a publication writes, if it writes.
  pub record IsPublished (id now : ℕ) (m : SeatMap) (v : SeatMapVersion) (s s' : State)
      : Type 0 where
    pub on_map : v.seat_map_id ≡ id
    pub number : v.version_number ≡ next_number (last_version db id s)
    pub copy : v.snapshot ≡ snapshot_of (definition_of db id m s)
    pub new : v.id ≡ db.versions.fresh s.versions
    pub inserted : db.versions.insert v s.versions ≡ some s'.versions

  module _ (lawful_maps : IsRepository (λ m. m.id) no_clash db.seat_maps)
      (lawful : IsRepository (λ v. v.id) no_clash db.versions) where
    pub publish-cases :
        (id now : ℕ) (caller : JwtAccessPayload) (s : State)
        → let (r, s') = publish db id caller now s in
          ((e : Exception Reason) × (r ≡ err e) × (s' ≡ s))
          ⊎ ((m : SeatMap) × (v : SeatMapVersion) × (row (λ x. x.id) id s.seat_maps ≡ some m)
              × (can_manage_restaurant caller m.restaurant_id ≡ true)
              × (r ≡ ok v)
              × IsPublished id now m v s s')
    unfolding publish get_full_definition owned_or_throw get_seat_map_or_throw
    publish-cases id now caller s =
        let found = find_one-key (λ x. x.id) lawful_maps id s.seat_maps in
        elim (Option-cases (row (λ x. x.id) id s.seat_maps)) [
          | inl gone ↦
              inl (not_found seat_map_not_found, ground (arith, found), ground (arith, found))
          | inr (m, at) ↦ elim (Bool-cases (can_manage_restaurant caller m.restaurant_id)) [
            | inr refused ↦
                inl (forbidden may_not_manage, ground (arith, found), ground (arith, found))
            | inl access ↦
                let v : SeatMapVersion = record {
                  id = db.versions.fresh s.versions;
                  seat_map_id = id;
                  version_number = next_number (last_version db id s);
                  snapshot = snapshot_of (definition_of db id m s);
                  published_at = now;
                } in
                let (t, e) = insert-fresh (λ x. x.id) lawful v s.versions refl (λ k y q. refl) in
                inr (
                  m,
                  v,
                  at,
                  access,
                  ground (arith, found, e),
                  record {
                    on_map = refl;
                    number = refl;
                    copy = refl;
                    new = refl;
                    inserted = e ∙ ap some (ground (arith, found, e));
                  },
                )
          ]
        ]

    -- A new number is above those of the map.
    pub number-above :
        (id : ℕ) (s : State) (a : SeatMapVersion)
        → version_row a.id s ≡ some a
        → a.seat_map_id ≡ id
        → a.version_number + 1 ≤ next_number (last_version db id s)
    number-above id s a at on_map =
        let p = λ (v : SeatMapVersion). v.seat_map_id == id in
        let i = lawful.find-Elem p s.versions a.id a at (ground (arith, on_map, ==_refl id)) in
        elim (Option-cases (last_version db id s)) [
          | inl e ↦
              absurd (last_by-none (λ v. v.version_number) (db.versions.find p s.versions) a e i)
          | inr (w, e) ↦ ground (
            arith,
            e,
            last_by-max (λ v. v.version_number) (db.versions.find p s.versions) a w e i,
          )
        ]
