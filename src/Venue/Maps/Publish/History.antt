-- ===== src/Venue/Maps/Publish/History.antt =====
-- A published version stays as it is, whatever is drawn or published later.
use ceylon_events.Common.{
  ℕ, ◌≡◌, ◌∙◌, sym, ap, subst, inl, inr, some, List, [], ◌∷◌, arith, ◌==◌, ok, IsRepository, row,
  insert-fresh_row, no_clash, find_one-key, Bool-cases,
}
use ceylon_events.Shared.{JwtAccessPayload}
use ceylon_events.Orders.Upstream.{find_seat_in_snapshot}
use ceylon_events.Venue.Maps.Types.{SeatMap, SeatMapVersion, Database, State}
use ceylon_events.Venue.Maps.{get_version_or_throw}
use ceylon_events.Venue.Maps.Edit.Kept.{apply-versions}
use ceylon_events.Venue.Maps.Publish.{publish}
use ceylon_events.Venue.Maps.Publish.Snapshots.{
  order_view, seat_info, find_seat_in_snapshot-published,
}
use ceylon_events.Venue.Maps.Publish.Versions.{
  Request, changes, publishes, serve, serve_all, version_row, IsNumbered, IsPublished,
  publish-cases, number-above,
}

module _ (db : Database) (lawful_maps : IsRepository (λ m. m.id) no_clash db.seat_maps)
    (lawful : IsRepository (λ v. v.id) no_clash db.versions) where
  serve-version_row :
      (caller : JwtAccessPayload) (r : Request) (k : ℕ) (v : SeatMapVersion) (s : State)
      → version_row k s ≡ some v
      → version_row k (serve db caller r s) ≡ some v
  unfolding serve
  serve-version_row caller (changes r) k v s at =
      ap (row (λ x. x.id) k) (apply-versions db caller r s) ∙ at
  serve-version_row caller (publishes id now) k v s at =
      elim (publish-cases db lawful_maps lawful id now caller s) [
        | inl (e, failed, same) ↦ ap (version_row k) same ∙ at
        | inr (m, w, m_at, access, done, p) ↦
            (insert-fresh_row (λ x. x.id) lawful w s.versions _ p.new p.inserted).1 k v at
      ]

  serve_all-version_row :
      (rs : List (JwtAccessPayload × Request)) (k : ℕ) (v : SeatMapVersion) (s : State)
      → version_row k s ≡ some v
      → version_row k (serve_all db rs s) ≡ some v
  unfolding serve_all
  serve_all-version_row [] k v s at = at
  serve_all-version_row ((caller, r) ∷ rs) k v s at =
      serve_all-version_row rs k v (serve db caller r s) (serve-version_row caller r k v s at)

  publish-IsNumbered :
      (id now : ℕ) (m : SeatMap) (v : SeatMapVersion) (s s' : State)
      → IsPublished db id now m v s s'
      → IsNumbered s
      → IsNumbered s'
  unfolding IsNumbered
  publish-IsNumbered id now m v s s' p unique a b a_at b_at same_map same_number =
      let rows = λ (k : ℕ). lawful.row-insert v s.versions s'.versions k p.inserted in
      let above = number-above db lawful_maps lawful id s in
      elim (Bool-cases (v.id == a.id)) [
        | inl a_new ↦ elim (Bool-cases (v.id == b.id)) [
          | inl b_new ↦ ground (arith, rows a.id, rows b.id)
          | inr b_old ↦ absurd (ground (arith, rows a.id, rows b.id, p.on_map, p.number, above b))
        ]
        | inr a_old ↦ elim (Bool-cases (v.id == b.id)) [
          | inl b_new ↦ absurd (ground (arith, rows a.id, rows b.id, p.on_map, p.number, above a))
          | inr b_old ↦
              unique a b (ground (arith, rows a.id)) (ground (arith, rows b.id)) same_map
                same_number
        ]
      ]

  serve-IsNumbered :
      (caller : JwtAccessPayload) (r : Request) (s : State)
      → IsNumbered s
      → IsNumbered (serve db caller r s)
  unfolding serve IsNumbered
  serve-IsNumbered caller (changes r) s unique =
      subst
        (λ t.
          (a b : SeatMapVersion)
          → row (λ x. x.id) a.id t ≡ some a
          → row (λ x. x.id) b.id t ≡ some b
          → a.seat_map_id ≡ b.seat_map_id
          → a.version_number ≡ b.version_number
          → a ≡ b)
        (sym (apply-versions db caller r s)) unique
  serve-IsNumbered caller (publishes id now) s unique =
      elim (publish-cases db lawful_maps lawful id now caller s) [
        | inl (e, failed, same) ↦ subst IsNumbered (sym same) unique
        | inr (m, v, m_at, access, done, p) ↦ publish-IsNumbered id now m v s _ p unique
      ]

  -- If no two versions of a seat map have one number, that stays so over any history of edits and
  -- publications that are served one after another.
  pub serve_all-IsNumbered :
      (rs : List (JwtAccessPayload × Request)) (s : State)
      → IsNumbered s
      → IsNumbered (serve_all db rs s)
  unfolding serve_all
  serve_all-IsNumbered [] s unique = unique
  serve_all-IsNumbered ((caller, r) ∷ rs) s unique =
      serve_all-IsNumbered rs (serve db caller r s) (serve-IsNumbered caller r s unique)

  module _ (lawful_tables : IsRepository (λ t. t.id) no_clash db.tables)
      (lawful_seats : IsRepository (λ x. x.id) no_clash db.seats) where
    -- A version that was published can be read as it is after any history of edits and publications;
    -- and in it order-service finds a seat exactly if it was on the map when it was published, at a
    -- table of the map, with the label and the section that it had then.
    pub published_forever :
        (id now : ℕ) (caller : JwtAccessPayload) (v : SeatMapVersion) (s s' : State)
        (rs : List (JwtAccessPayload × Request))
        → publish db id caller now s ≡ (ok v, s')
        → let s'' = serve_all db rs s' in
          (get_version_or_throw db v.id s'' ≡ (ok v, s''))
          × ((k : ℕ) → find_seat_in_snapshot (order_view v.snapshot) k ≡ seat_info id k s)
    unfolding get_version_or_throw
    published_forever id now caller v s s' rs h =
        let s'' = serve_all db rs s' in
        elim (publish-cases db lawful_maps lawful id now caller s) [
          | inl (e, failed, same) ↦ absurd (ground arith)
          | inr (m, w, m_at, access, done, p) ↦
              let w_is : w ≡ v = ground arith in
              let stored =
                (insert-fresh_row (λ x. x.id) lawful w s.versions _ p.new p.inserted).0 in
              let at : version_row v.id s' ≡ some v =
                subst (λ z. version_row z.id s' ≡ some z) w_is
                  (ap (λ z. version_row w.id z.1) (sym h) ∙ stored) in
              let at'' = serve_all-version_row rs v.id v s' at in
              let found = find_one-key (λ x. x.id) lawful v.id s''.versions in
              (
                ground (arith, found),
                λ k.
                    ap (λ z. find_seat_in_snapshot (order_view z) k)
                      (ap (λ z. z.snapshot) (sym w_is) ∙ p.copy)
                    ∙ find_seat_in_snapshot-published db lawful_tables lawful_seats id k m s,
              )
        ]
