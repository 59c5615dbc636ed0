-- ===== src/Venue/Holds/Sold.antt =====
-- A sold seat stays sold, to the order that was first.
use ceylon_events.Common.{
  ℕ, ◌≡◌, ◌⊎◌, inl, inr, true, Option, none, some, List, [], ◌∷◌, arith, Option-cases, Repository,
  IsRepository, row, row-key, ok, err, conflict, is_some,
}
use ceylon_events.Venue.Redis.{Redis, IsRedis}
use ceylon_events.Venue.Holds.{
  Venue, SoldSeat, HoldConfig, create_hold, renew_hold, release_hold, reserve_for_order,
  release_for_order, mark_sold, holder_at, hold_key, delete_hold, drop_own, sell, find_sold,
  is_seat, same_seat, seat_sold,
}
use ceylon_events.Venue.Holds.Requests.{
  Request, create, renew, release, reserve, free, serve, serve_all,
}

abbrev pub sold_row : ℕ → List SoldSeat → Option SoldSeat
sold_row = row (λ s. s.id)

module _ {S : Type 0} (redis : Redis S) {repository : Repository SoldSeat}
    (lawful : IsRepository (λ s. s.id) same_seat repository) where
  abbrev pub new_row : ℕ → ℕ → Option ℕ → Venue S → SoldSeat
  new_row v s order w = record {
    id = repository.fresh w.sold_seats;
    seat_map_version_id = v;
    seat_id = s;
    order_id = order;
  }

  -- The unique constraint cannot fail where no row was found.
  pub insert_total :
      (v s : ℕ) (order : Option ℕ) (w : Venue S)
      → find_sold redis repository v s w ≡ none
      → (t : List SoldSeat) × (repository.insert (new_row v s order w) w.sold_seats ≡ some t)
  insert_total v s order w e =
      elim (Option-cases (repository.insert (new_row v s order w) w.sold_seats)) [
        | inr (t, e') ↦ (t, e')
        | inl e' ↦
            let (k, y, at, taken) = lawful.insert-none (new_row v s order w) w.sold_seats e' in
            absurd (
              ground (
                arith,
                lawful.row-fresh w.sold_seats,
                row-key (λ s. s.id) w.sold_seats k y at,
                lawful.find_one-none (is_seat v s) w.sold_seats k y e at,
              ))
      ]

  find_sold-row :
      (v s k : ℕ) (x : SoldSeat) (w : Venue S)
      → sold_row k w.sold_seats ≡ some x
      → is_seat v s x ≡ true
      → is_some (find_sold redis repository v s w) ≡ true
  find_sold-row v s k x w at here = elim (Option-cases (find_sold redis repository v s w)) [
    | inl e ↦ ground (arith, lawful.find_one-none (is_seat v s) w.sold_seats k x e at)
    | inr (y, e) ↦ ground arith
  ]

  sell-row :
      (v s k : ℕ) (order : Option ℕ) (x : SoldSeat) (w : Venue S)
      → sold_row k w.sold_seats ≡ some x
      → sold_row k (sell redis repository v s order w).1.sold_seats ≡ some x
  unfolding sell
  sell-row v s k order x w at =
      elim (Option-cases (repository.insert (new_row v s order w) w.sold_seats)) [
        | inl e ↦ ground arith
        | inr (t, e) ↦ ground (
          arith,
          lawful.row-insert (new_row v s order w) w.sold_seats t k e,
          lawful.row-fresh w.sold_seats,
        )
      ]

  serve-sold_row :
      (config : HoldConfig) (k now : ℕ) (x : SoldSeat) (r : Request) (w : Venue S)
      → sold_row k w.sold_seats ≡ some x
      → sold_row k (serve redis repository config now r w).sold_seats ≡ some x
  unfolding serve create_hold renew_hold release_hold drop_own reserve_for_order release_for_order
  serve-sold_row config k now x (create v s token) w at = ground arith
  serve-sold_row config k now x (renew v s token) w at = ground arith
  serve-sold_row config k now x (release v s token) w at = ground arith
  serve-sold_row config k now x (reserve v s token) w at = ground arith
  serve-sold_row config k now x (free v s) w at = at
  serve-sold_row config k now x (Request.sell v s order) w at =
      unfold mark_sold in ground (arith, sell-row v s k order x w at)

  serve_all-sold_row :
      (config : HoldConfig) (k : ℕ) (x : SoldSeat) (rs : List (ℕ × Request)) (w : Venue S)
      → sold_row k w.sold_seats ≡ some x
      → sold_row k (serve_all redis repository config rs w).sold_seats ≡ some x
  unfolding serve_all
  serve_all-sold_row config k x [] w at = at
  serve_all-sold_row config k x ((now, r) ∷ rs) w at =
      serve_all-sold_row config k x rs (serve redis repository config now r w)
        (serve-sold_row config k now x r w at)

  -- After any history the row of a sold seat is as it was, order included; the seat cannot be held,
  -- and marking it sold for any other order returns as if it had worked, and changes nothing.
  pub sold_forever :
      (config : HoldConfig) (v s k : ℕ) (x : SoldSeat) (rs : List (ℕ × Request)) (w : Venue S)
      → sold_row k w.sold_seats ≡ some x
      → is_seat v s x ≡ true
      → let w' = serve_all redis repository config rs w in
        (sold_row k w'.sold_seats ≡ some x)
        × ((ttl token now : ℕ)
            → create_hold redis repository (λ u. u) v s ttl token now w'
              ≡ (err (conflict seat_sold), w'))
        × ((order : Option ℕ) → mark_sold redis repository v s order w' ≡ (ok tt, w'))
  unfolding create_hold mark_sold
  sold_forever config v s k x rs w at here =
      let w' = serve_all redis repository config rs w in
      let kept = serve_all-sold_row config k x rs w at in
      let found = find_sold-row v s k x w' kept here in
      (kept, λ ttl token now. ground (arith, found), λ order. ground (arith, found))

  -- Marking a seat sold always succeeds and leaves it sold. Of a seat that is sold already nothing
  -- changes; another gets a row with this order, and no token holds it any more. No row is lost.
  mark_sold_lem :
      (v s : ℕ) (order : Option ℕ) (w : Venue S)
      → IsRedis redis
      → let (r, w') = mark_sold redis repository v s order w in
        (r ≡ ok tt)
        × (is_some (find_sold redis repository v s w') ≡ true)
        × (((is_some (find_sold redis repository v s w) ≡ true) × (w' ≡ w))
            ⊎ ((find_sold redis repository v s w ≡ none)
                × (sold_row (repository.fresh w.sold_seats) w'.sold_seats
                    ≡ some (new_row v s order w))
                × ((t : ℕ) → holder_at redis repository v s t w' ≡ none)))
        × ((k : ℕ) (x : SoldSeat)
            → sold_row k w.sold_seats ≡ some x
            → sold_row k w'.sold_seats ≡ some x)
  unfolding mark_sold sell delete_hold
  mark_sold_lem v s order w lawful_redis = elim (Option-cases (find_sold redis repository v s w)) [
    | inr (x, e) ↦
        (ground arith, ground arith, inl (ground arith, ground arith), λ k y at. ground arith)
    | inl e ↦
        let (t, e') = insert_total v s order w e in
        let x' = new_row v s order w in
        let k' = repository.fresh w.sold_seats in
        let inserted = λ (k : ℕ). lawful.row-insert x' w.sold_seats t k e' in
        let at' : sold_row k' t ≡ some x' = ground (arith, inserted k') in
        (
          ground arith,
          ground (arith, find_sold-row v s k' x' (record w { sold_seats = t }) at' (ground arith)),
          inr (
            e,
            ground arith,
            λ u. ground (arith, lawful_redis.get-del (hold_key v s) (hold_key v s) u w.store),
          ),
          λ k x at. ground (arith, inserted k, lawful.row-fresh w.sold_seats),
        )
  ]
