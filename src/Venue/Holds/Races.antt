-- ===== src/Venue/Holds/Races.antt =====
-- What a renewal does when other requests are served between its read and its write.
use ceylon_events.Common.{
  ℕ, ◌+◌, ◌*◌, ◌≤◌, ◌<◌, ◌≡◌, ◌≢◌, ◌⊎◌, inl, inr, none, some, arith, ◌==◌, Option-cases, Bool-cases,
  Repository, ok, err, not_found, forbidden,
}
use ceylon_events.Venue.Redis.{Redis, IsRedis, alive}
use ceylon_events.Venue.Holds.{
  Venue, SoldSeat, renew_hold, holder_at, hold_key, hold_expired, token_mismatch,
}

module _ {S : Type 0} {redis : Redis S} (repository : Repository SoldSeat)
    (lawful : IsRedis redis) where
  -- A renewal whose hold lapsed or belongs to another token is refused, and nothing changes. Else
  -- it returns the new expiry, and from then on extends whatever hold the key has by then: its
  -- own, one that another buyer got in between, or none.
  renew_hold_lem :
      (others : Venue S → Venue S) (v s token ttl now later : ℕ) (w : Venue S)
      → let (r, w') = renew_hold redis repository others v s token ttl now later w in
        let holder = holder_at redis repository v s in
        ((holder now w ≡ none) × (r ≡ err (not_found hold_expired)) × (w' ≡ w))
        ⊎ ((u : ℕ) × (holder now w ≡ some u)
            × (u ≢ token)
            × (r ≡ err (forbidden token_mismatch))
            × (w' ≡ w))
        ⊎ ((holder now w ≡ some token)
            × (r
                ≡ ok
                    (record { seat_id = s; holder_token = token; expires_at = later + ttl * 1000 }))
            × (w'.sold_seats ≡ (others w).sold_seats)
            × ((t : ℕ) → later ≤ t → holder t w' ≡ alive ttl later t (holder later (others w))))
  unfolding renew_hold
  renew_hold_lem others v s token ttl now later w =
      elim (Option-cases (holder_at redis repository v s now w)) [
        | inl e ↦ inl (e, ground arith, ground arith)
        | inr (u, e) ↦ elim (Bool-cases (u == token)) [
          | inr ne ↦ inr (inl (u, e, ground arith, ground arith, ground arith))
          | inl eq ↦ inr (
              inr (
                ground arith,
                ground arith,
                ground arith,
                λ t le. ground (
                  arith,
                  lawful.get-expire (hold_key v s) (hold_key v s) ttl later t (others w).store le,
                ),
              ))
        ]
      ]

  -- Where a buyer's hold lapses right after the read and another buyer takes the seat before the
  -- write, the renewal still reports success to the first, and keeps the seat for the second.
  pub renew_hold-stolen :
      (others : Venue S → Venue S) (v s me you ttl now later t : ℕ) (w : Venue S)
      → holder_at redis repository v s now w ≡ some me
      → holder_at redis repository v s later (others w) ≡ some you
      → later ≤ t
      → t < later + ttl * 1000
      → let (r, w') = renew_hold redis repository others v s me ttl now later w in
        (r ≡ ok (record { seat_id = s; holder_token = me; expires_at = later + ttl * 1000 }))
        × (holder_at redis repository v s t w' ≡ some you)
  unfolding renew_hold
  renew_hold-stolen others v s me you ttl now later t w mine yours le lt =
      ground
        (arith, lawful.get-expire (hold_key v s) (hold_key v s) ttl later t (others w).store le)
