-- ===== src/Venue/Holds/Seats/History.antt =====
-- Any history of requests, for any seats, takes a seat through the states of the machine.
use ceylon_events.Common.{
  ℕ, ◌≤◌, ◌≡◌, refl, sym, subst, inl, inr, Bool, true, false, Option, List, [], ◌∷◌, arith, ◌==◌,
  ==_iff, if◌then◌else◌, Option-cases, Bool-cases, Repository, IsRepository,
}
use ceylon_events.Venue.Redis.{Redis, IsRedis, key_eq}
use ceylon_events.Venue.Holds.{
  Venue, SoldSeat, HoldConfig, create_hold, renew_hold, release_hold, reserve_for_order,
  release_for_order, mark_sold, sell, drop_own, delete_hold, find_sold, holder_at, hold_key,
  same_seat,
}
use ceylon_events.Venue.Holds.Requests.{
  Request, create, renew, release, reserve, free, serve, serve_all,
}
use ceylon_events.Venue.Holds.Sold.{new_row}
use ceylon_events.Venue.Holds.Seats.{
  Seat, sold_to, holder_of, step, key_of, order_of, Rows, Shows, kept-Rows, order_of-find_sold,
}
use ceylon_events.Venue.Holds.Seats.Steps.{own-Shows}

abbrev is_for : ℕ → ℕ → Request → Bool
is_for v s r = key_eq (key_of r) (hold_key v s)

-- The machine of one seat over a history: requests for other seats do not move it.
unfoldable pub steps : HoldConfig → ℕ → ℕ → List (ℕ × Request) → Seat → Seat
steps config v s [] seat = seat
steps config v s ((now, r) ∷ rs) seat =
    steps config v s rs (if is_for v s r then step config now r seat else seat)

-- The clock does not go back.
unfoldable pub IsOrdered : ℕ → List (ℕ × Request) → Type 0
IsOrdered start [] = Unit
IsOrdered start ((now, r) ∷ rs) = (start ≤ now) × IsOrdered now rs

-- The time of the last request.
abbrev pub end : ℕ → List (ℕ × Request) → ℕ
end start [] = start
end start ((now, r) ∷ rs) = end now rs

module _ {S : Type 0} (redis : Redis S) (repository : Repository SoldSeat) (config : HoldConfig)
    (lawful_redis : IsRedis redis) (lawful : IsRepository (λ x. x.id) same_seat repository) where
  later-Shows :
      (v s now later : ℕ) (seat : Seat) (w : Venue S)
      → now ≤ later
      → Shows redis repository v s now seat w
      → Shows redis repository v s later seat w
  later-Shows v s now later seat w le h = record {
    rows = h.rows;
    holder = λ t le'. h.holder t (omega arith);
  }

  -- The sale of another seat leaves the rows of this one.
  sell-Rows :
      (v s a b : ℕ) (o : Option (Option ℕ)) (order : Option ℕ) (w : Venue S)
      → key_eq (hold_key a b) (hold_key v s) ≡ false
      → Rows v s o w.sold_seats
      → Rows v s o (sell redis repository a b order w).1.sold_seats
  unfolding sell delete_hold
  sell-Rows v s a b o order w other rows =
      let x' = new_row redis lawful a b order w in
      elim (Option-cases (repository.insert x' w.sold_seats)) [
        | inl e ↦ kept-Rows v s o o w.sold_seats _ refl (ground (arith, e)) rows
        | inr (t, e) ↦
            let inserted = λ (k : ℕ). lawful.row-insert x' w.sold_seats t k e in
            kept-Rows v s o o t _ refl (ground (arith, e)) (record {
              agree = λ k x at mine. elim (Bool-cases (x'.id == k)) [
                | inl hit ↦ absurd (ground (arith, inserted k))
                | inr miss ↦ ground (arith, inserted k, rows.agree k x)
              ];
              there = λ q eq.
                  let (k, x, at, mine) = rows.there q eq in
                  (k, x, ground (arith, inserted k, lawful.row-fresh w.sold_seats), mine);
            })
      ]

  other-Shows :
      (v s now : ℕ) (r : Request) (seat : Seat) (w : Venue S)
      → is_for v s r ≡ false
      → Shows redis repository v s now seat w
      → Shows redis repository v s now seat (serve redis repository config now r w)
  unfolding serve create_hold renew_hold release_hold drop_own delete_hold reserve_for_order
      release_for_order
  other-Shows v s now (create a b token) seat w other h = record {
    rows = kept-Rows v s _ _ w.sold_seats _ refl (ground arith) h.rows;
    holder = λ t le. ground (
      arith,
      h.holder t le,
      lawful_redis.get-set_nx (hold_key a b) (hold_key v s) token config.default_ttl_seconds now t
          w.store le,
    );
  }
  other-Shows v s now (renew a b token) seat w other h = record {
    rows = kept-Rows v s _ _ w.sold_seats _ refl (ground arith) h.rows;
    holder = λ t le. ground (
      arith,
      h.holder t le,
      lawful_redis.get-expire (hold_key a b) (hold_key v s) config.default_ttl_seconds now t w.store
          le,
    );
  }
  other-Shows v s now (release a b token) seat w other h = record {
    rows = kept-Rows v s _ _ w.sold_seats _ refl (ground arith) h.rows;
    holder = λ t le.
        ground (arith, h.holder t le, lawful_redis.get-del (hold_key a b) (hold_key v s) t w.store);
  }
  other-Shows v s now (reserve a b token) seat w other h = record {
    rows = kept-Rows v s _ _ w.sold_seats _ refl (ground arith) h.rows;
    holder = λ t le. ground (
      arith,
      h.holder t le,
      lawful_redis.get-expire (hold_key a b) (hold_key v s) config.order_hold_ttl_seconds now t
          w.store le,
    );
  }
  other-Shows v s now (free a b) seat w other h = record {
    rows = h.rows;
    holder = λ t le.
        ground (arith, h.holder t le, lawful_redis.get-del (hold_key a b) (hold_key v s) t w.store);
  }
  other-Shows v s now (Request.sell a b order) seat w other h =
      let w' = (sell redis repository a b order w).1 in
      elim (Option-cases (find_sold redis repository a b w)) [
        | inr (x, e) ↦
            unfold mark_sold in
            record {
              rows = kept-Rows v s _ _ w.sold_seats _ refl (ground (arith, e)) h.rows;
              holder = λ t le. ground (arith, e, h.holder t le);
            }
        | inl e ↦
            unfold mark_sold in
            record {
              rows =
                  kept-Rows v s _ _ w'.sold_seats _ refl (ground (arith, e))
                    (sell-Rows v s a b (sold_to seat) order w other h.rows);
              holder = λ t le.
                  unfold sell in
                  ground (
                    arith,
                    e,
                    h.holder t le,
                    lawful_redis.get-del (hold_key a b) (hold_key v s) t w.store,
                  );
            }
      ]

  matching-Shows :
      (v s now : ℕ) (r : Request) (seat : Seat) (w : Venue S)
      → is_for v s r ≡ true
      → Shows redis repository v s now seat w
      → Shows redis repository v s now
          (step config now r seat)
          (serve redis repository config now r w)
  matching-Shows v s now r seat w same h =
      let version : (key_of r).version ≡ v = ground (arith, ==_iff (key_of r).version v) in
      let place : (key_of r).seat ≡ s = ground (arith, ==_iff (key_of r).seat s) in
      let h' =
        subst (λ b. Shows redis repository (key_of r).version b now seat w) (sym place)
          (subst (λ a. Shows redis repository a s now seat w) (sym version) h) in
      let done = own-Shows redis repository config lawful_redis lawful now r seat w h' in
      subst
        (λ a.
          Shows redis repository a s now (step config now r seat)
            (serve redis repository config now r w))
        version
        (subst
          (λ b.
            Shows redis repository (key_of r).version b now (step config now r seat)
              (serve redis repository config now r w))
          place done)

  serve_all-Shows :
      (v s start : ℕ) (rs : List (ℕ × Request)) (seat : Seat) (w : Venue S)
      → IsOrdered start rs
      → Shows redis repository v s start seat w
      → Shows redis repository v s
          (end start rs)
          (steps config v s rs seat)
          (serve_all redis repository config rs w)
  unfolding steps IsOrdered serve_all
  serve_all-Shows v s start [] seat w ordered h = h
  serve_all-Shows v s start ((now, r) ∷ rs) seat w (le, ordered) h =
      let h' = later-Shows v s start now seat w le h in
      elim (Bool-cases (is_for v s r)) [
        | inl mine ↦ rw mine (
            serve_all-Shows v s now rs (step config now r seat) _ ordered
              (matching-Shows v s now r seat w mine h'))
        | inr other ↦
            rw other
              (serve_all-Shows v s now rs seat _ ordered (other-Shows v s now r seat w other h'))
      ]

  -- A seat as the service shows it, by its sold row and its Redis key, goes through the states of a
  -- machine: vacant, held by a token until a time, sold to an order. After any history of requests in
  -- the order of time, for this and other seats, its row names the order that the machine says, and from
  -- the last request on its holder is, at each time, the one that the machine says.
  pub seat_machine :
      (v s start : ℕ) (rs : List (ℕ × Request)) (seat : Seat) (w : Venue S)
      → IsOrdered start rs
      → Shows redis repository v s start seat w
      → let w' = serve_all redis repository config rs w in
        let seat' = steps config v s rs seat in
        (order_of (find_sold redis repository v s w') ≡ sold_to seat')
        × ((t : ℕ) → end start rs ≤ t → holder_at redis repository v s t w' ≡ holder_of seat' t)
  seat_machine v s start rs seat w ordered h =
      let done = serve_all-Shows v s start rs seat w ordered h in
      (
        order_of-find_sold redis repository lawful v s _ (serve_all redis repository config rs w)
            done.rows,
        done.holder,
      )
