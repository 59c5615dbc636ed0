-- ===== src/Venue/Holds/Seats/Steps.antt =====
-- Each request for a seat does to it what the machine says.
use ceylon_events.Common.{
  ℕ, ◌+◌, ◌*◌, ◌≡◌, refl, inl, inr, Option, none, some, List, arith, ◌==◌, Bool-cases, Repository,
  IsRepository,
}
use ceylon_events.Venue.Redis.{Redis, IsRedis}
use ceylon_events.Venue.Holds.{
  Venue, SoldSeat, HoldConfig, create_hold, renew_hold, release_hold, reserve_for_order,
  release_for_order, mark_sold, sell, drop_own, delete_hold, find_sold, hold_key, same_seat,
}
use ceylon_events.Venue.Holds.Requests.{Request, create, renew, release, reserve, free, serve}
use ceylon_events.Venue.Holds.Sold.{new_row, insert_total}
use ceylon_events.Venue.Holds.Seats.{
  Seat, vacant, held, sold, prolonged, step, key_of, Rows, Shows, kept-Rows, order_of-find_sold,
}

module _ {S : Type 0} (redis : Redis S) (repository : Repository SoldSeat) where
  module _ (config : HoldConfig) (lawful_redis : IsRedis redis)
      (lawful : IsRepository (λ x. x.id) same_seat repository) where
    create-Shows :
        (v s token now : ℕ) (seat : Seat) (w : Venue S)
        → Shows redis repository v s now seat w
        → Shows redis repository v s now
            (step config now (create v s token) seat)
            (serve redis repository config now (create v s token) w)
    unfolding serve create_hold step
    create-Shows v s token now vacant w h =
        let ttl = config.default_ttl_seconds in
        let done = lawful_redis.set_nx-done (hold_key v s) token ttl now w.store in
        let free_now = h.holder now (omega arith) in
        record {
          rows = kept-Rows v s _ _ w.sold_seats _ (ground arith) (ground arith) h.rows;
          holder = λ t le. ground (
            arith,
            done,
            free_now,
            order_of-find_sold redis repository lawful v s _ w h.rows,
            lawful_redis.get-set_nx (hold_key v s) (hold_key v s) token ttl now t w.store le,
          );
        }
    create-Shows v s token now (held k end) w h =
        let ttl = config.default_ttl_seconds in
        let done = lawful_redis.set_nx-done (hold_key v s) token ttl now w.store in
        let held_now = h.holder now (omega arith) in
        record {
          rows = kept-Rows v s _ _ w.sold_seats _ (ground arith) (ground arith) h.rows;
          holder = λ t le. ground (
            arith,
            done,
            held_now,
            order_of-find_sold redis repository lawful v s _ w h.rows,
            h.holder t le,
            lawful_redis.get-set_nx (hold_key v s) (hold_key v s) token ttl now t w.store le,
          );
        }
    create-Shows v s token now (sold order) w h = record {
      rows = kept-Rows v s _ _ w.sold_seats _ (ground arith) (ground arith) h.rows;
      holder = λ t le.
          ground (arith, order_of-find_sold redis repository lawful v s _ w h.rows, h.holder t le);
    }

    -- Both `renew` and `reserve` prolong a hold.
    renew_hold-Shows :
        (v s token ttl now : ℕ) (seat : Seat) (w : Venue S)
        → Shows redis repository v s now seat w
        → Shows redis repository v s now
            (prolonged now token (now + ttl * 1000) seat)
            (renew_hold redis repository (λ x. x) v s token ttl now now w).1
    unfolding renew_hold
    renew_hold-Shows v s token ttl now vacant w h =
        let free_now = h.holder now (omega arith) in
        record {
          rows = kept-Rows v s _ _ w.sold_seats _ (ground arith) (ground arith) h.rows;
          holder = λ t le. ground (arith, free_now, h.holder t le);
        }
    renew_hold-Shows v s token ttl now (held k end) w h =
        let held_now = h.holder now (omega arith) in
        record {
          rows = kept-Rows v s _ _ w.sold_seats _ (ground arith) (ground arith) h.rows;
          holder = λ t le. ground (
            arith,
            held_now,
            h.holder t le,
            lawful_redis.get-expire (hold_key v s) (hold_key v s) ttl now t w.store le,
          );
        }
    renew_hold-Shows v s token ttl now (sold order) w h =
        let free_now = h.holder now (omega arith) in
        record {
          rows = kept-Rows v s _ _ w.sold_seats _ (ground arith) (ground arith) h.rows;
          holder = λ t le. ground (arith, free_now, h.holder t le);
        }

    release-Shows :
        (v s token now : ℕ) (seat : Seat) (w : Venue S)
        → Shows redis repository v s now seat w
        → Shows redis repository v s now
            (step config now (release v s token) seat)
            (serve redis repository config now (release v s token) w)
    unfolding serve release_hold drop_own delete_hold step
    release-Shows v s token now vacant w h =
        let free_now = h.holder now (omega arith) in
        record {
          rows = kept-Rows v s _ _ w.sold_seats _ (ground arith) (ground arith) h.rows;
          holder = λ t le. ground (arith, free_now, h.holder t le);
        }
    release-Shows v s token now (held k end) w h =
        let held_now = h.holder now (omega arith) in
        record {
          rows = kept-Rows v s _ _ w.sold_seats _ (ground arith) (ground arith) h.rows;
          holder = λ t le. ground (
            arith,
            held_now,
            h.holder t le,
            lawful_redis.get-del (hold_key v s) (hold_key v s) t w.store,
          );
        }
    release-Shows v s token now (sold order) w h =
        let free_now = h.holder now (omega arith) in
        record {
          rows = kept-Rows v s _ _ w.sold_seats _ (ground arith) (ground arith) h.rows;
          holder = λ t le. ground (arith, free_now, h.holder t le);
        }

    free-Shows :
        (v s now : ℕ) (seat : Seat) (w : Venue S)
        → Shows redis repository v s now seat w
        → Shows redis repository v s now
            (step config now (free v s) seat)
            (serve redis repository config now (free v s) w)
    unfolding serve release_for_order delete_hold step
    free-Shows v s now vacant w h = record {
      rows = h.rows;
      holder = λ t le. ground (arith, lawful_redis.get-del (hold_key v s) (hold_key v s) t w.store);
    }
    free-Shows v s now (held k end) w h = record {
      rows = h.rows;
      holder = λ t le. ground (arith, lawful_redis.get-del (hold_key v s) (hold_key v s) t w.store);
    }
    free-Shows v s now (sold order) w h = record {
      rows = h.rows;
      holder = λ t le. ground (arith, lawful_redis.get-del (hold_key v s) (hold_key v s) t w.store);
    }

    -- The rows of a seat after the sale of a seat without rows.
    new-Rows :
        (v s : ℕ) (order : Option ℕ) (t : List SoldSeat) (w : Venue S)
        → repository.insert (new_row redis lawful v s order w) w.sold_seats ≡ some t
        → Rows v s none w.sold_seats
        → Rows v s (some order) t
    new-Rows v s order t w e rows =
        let x' = new_row redis lawful v s order w in
        let inserted = λ (k : ℕ). lawful.row-insert x' w.sold_seats t k e in
        record {
          agree = λ k x at mine. elim (Bool-cases (x'.id == k)) [
            | inl hit ↦ ground (arith, inserted k)
            | inr miss ↦ absurd (ground (arith, inserted k, rows.agree k x))
          ];
          there = λ o q. (x'.id, x', ground (arith, inserted x'.id), ground arith);
        }

    sell-new :
        (v s now : ℕ) (order : Option ℕ) (w : Venue S)
        → Rows v s none w.sold_seats
        → Shows redis repository v s now (sold order) (mark_sold redis repository v s order w).1
    unfolding mark_sold sell delete_hold
    sell-new v s now order w rows =
        let none_found : find_sold redis repository v s w ≡ none =
          ground (arith, order_of-find_sold redis repository lawful v s none w rows) in
        let (t, e) = insert_total redis lawful v s order w none_found in
        record {
          rows =
              kept-Rows v s (some order) _ t _ refl (ground (arith, e, none_found))
                (new-Rows v s order t w e rows);
          holder = λ u le.
              ground (
                arith,
                e,
                none_found,
                lawful_redis.get-del (hold_key v s) (hold_key v s) u w.store,
              );
        }

    sell-Shows :
        (v s now : ℕ) (order : Option ℕ) (seat : Seat) (w : Venue S)
        → Shows redis repository v s now seat w
        → Shows redis repository v s now
            (step config now (Request.sell v s order) seat)
            (serve redis repository config now (Request.sell v s order) w)
    unfolding serve step
    sell-Shows v s now order vacant w h = sell-new v s now order w h.rows
    sell-Shows v s now order (held k end) w h = sell-new v s now order w h.rows
    sell-Shows v s now order (sold first) w h =
        let found = order_of-find_sold redis repository lawful v s (some first) w h.rows in
        unfold mark_sold in
        record {
          rows = kept-Rows v s _ _ w.sold_seats _ refl (ground (arith, found)) h.rows;
          holder = λ t le. ground (arith, found, h.holder t le);
        }

    pub own-Shows :
        (now : ℕ) (r : Request) (seat : Seat) (w : Venue S)
        → Shows redis repository (key_of r).version (key_of r).seat now seat w
        → Shows redis repository
            (key_of r).version
            (key_of r).seat
            now
            (step config now r seat)
            (serve redis repository config now r w)
    own-Shows now (create v s token) seat w h = create-Shows v s token now seat w h
    own-Shows now (renew v s token) seat w h =
        unfold serve step in renew_hold-Shows v s token config.default_ttl_seconds now seat w h
    own-Shows now (release v s token) seat w h = release-Shows v s token now seat w h
    own-Shows now (reserve v s token) seat w h =
        unfold serve step reserve_for_order in
        renew_hold-Shows v s token config.order_hold_ttl_seconds now seat w h
    own-Shows now (free v s) seat w h = free-Shows v s now seat w h
    own-Shows now (Request.sell v s order) seat w h = sell-Shows v s now order seat w h
