-- ===== src/Venue/Maps/Publish/Races.antt =====
-- Two publications of one map that run at the same time.
use ceylon_events.Common.{
  ℕ, ◌≡◌, ◌≢◌, refl, ◌∙◌, sym, ap, Option, none, some, arith, ok, IsRepository, row, insert-fresh,
  insert-fresh_row, no_clash,
}
use ceylon_events.Shared.{JwtAccessPayload}
use ceylon_events.Venue.Maps.Types.{SeatMapVersion, Database, State}
use ceylon_events.Venue.Maps.{
  FullDefinition, get_full_definition, owned_or_throw, get_seat_map_or_throw,
}
use ceylon_events.Venue.Maps.Publish.{
  begin_publish, commit_publish, last_version, next_number, snapshot_of,
}

module _ (db : Database) (lawful : IsRepository (λ v. v.id) no_clash db.versions) where
  -- What the last step of a publication does.
  commit_publish_lem :
      (id now : ℕ) (d : FullDefinition) (last : Option SeatMapVersion) (s : State)
      → let (r, s') = commit_publish db id now (d, last) s in
        (v : SeatMapVersion) × (r ≡ ok v)
        × (v.version_number ≡ next_number last)
        × (v.seat_map_id ≡ id)
        × (row (λ x. x.id) v.id s.versions ≡ none)
        × (row (λ x. x.id) v.id s'.versions ≡ some v)
  commit_publish_lem id now d last s =
      let v : SeatMapVersion = record {
        id = db.versions.fresh s.versions;
        seat_map_id = id;
        version_number = next_number last;
        snapshot = snapshot_of d;
        published_at = now;
      } in
      let (t, e) = insert-fresh (λ i. i.id) lawful v s.versions refl (λ k y q. refl) in
      let (at, kept) = insert-fresh_row (λ i. i.id) lawful v s.versions t refl e in
      (v, ground (arith, e), refl, refl, lawful.row-fresh s.versions, ground (arith, e, at))

  last-begun :
      (id : ℕ) (caller : JwtAccessPayload) (d : FullDefinition) (last : Option SeatMapVersion)
      (s s' : State)
      → begin_publish db id caller s ≡ (ok (d, last), s')
      → last ≡ last_version db id s
  unfolding get_full_definition owned_or_throw get_seat_map_or_throw
  last-begun id caller d last s s' h = ground arith

  -- Two publications of a map that both read before either writes both go through, and make two
  -- versions of the map with one number.
  pub publish-raced :
      (id now now' : ℕ) (caller caller' : JwtAccessPayload)
      (begun begun' : FullDefinition × Option SeatMapVersion) (s : State)
      → begin_publish db id caller s ≡ (ok begun, s)
      → begin_publish db id caller' s ≡ (ok begun', s)
      → let (r, s1) = commit_publish db id now begun s in
        let (r', s2) = commit_publish db id now' begun' s1 in
        (v : SeatMapVersion) × (v' : SeatMapVersion) × (r ≡ ok v)
        × (r' ≡ ok v')
        × (v.id ≢ v'.id)
        × (v.seat_map_id ≡ v'.seat_map_id)
        × (v.version_number ≡ v'.version_number)
  publish-raced id now now' caller caller' (d, last) (d', last') s h h' =
      let (v, done, number, on_map, new, at) = commit_publish_lem id now d last s in
      let s1 = (commit_publish db id now (d, last) s).1 in
      let (v', done', number', on_map', new', at') = commit_publish_lem id now' d' last' s1 in
      (
        v,
        v',
        done,
        done',
        λ same. absurd (ground (arith, at, ap (λ n. row (λ x. x.id) n s1.versions) same, new')),
        on_map ∙ sym on_map',
        number
            ∙ ap next_number
                (last-begun id caller d last s s h ∙ sym (last-begun id caller' d' last' s s h'))
            ∙ sym number',
      )
