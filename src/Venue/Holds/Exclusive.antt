-- ===== src/Venue/Holds/Exclusive.antt =====
-- A hold is exclusive while it lasts.
use ceylon_events.Common.{
  ℕ, ◌+◌, ◌*◌, ◌≤◌, ◌<◌, ◌≡◌, ◌≢◌, ◌⊎◌, inl, inr, Bool, true, false, ◌&&◌, none, some, List, [],
  ◌∷◌, arith, ◌==◌, Option-cases, Repository, All, ok, err, conflict, is_some, not, if◌then◌else◌,
}
use ceylon_events.Venue.Redis.{Redis, IsRedis, key_eq, alive}
use ceylon_events.Venue.Holds.{
  Venue, SoldSeat, HoldConfig, create_hold, renew_hold, release_hold, reserve_for_order,
  release_for_order, mark_sold, holder_at, hold_key, drop_own, find_sold, seat_held, seat_sold,
}
use ceylon_events.Venue.Holds.Requests.{
  Request, create, renew, release, reserve, free, serve, serve_all,
}

abbrev pub is_hold : ℕ → ℕ → ℕ → ℕ → Bool
is_hold v s v' s' = v == v' && s == s'

-- The request does not act on the seat with the token `me`, nor for an order on the seat.
abbrev pub IsForeign : ℕ → ℕ → ℕ → Request → Type 0
IsForeign v s me (create v' s' token) = Unit
IsForeign v s me (renew v' s' token) = is_hold v s v' s' ≡ true → token ≢ me
IsForeign v s me (release v' s' token) = is_hold v s v' s' ≡ true → token ≢ me
IsForeign v s me (reserve v' s' token) = is_hold v s v' s' ≡ true → token ≢ me
IsForeign v s me (free v' s') = is_hold v s v' s' ≡ false
IsForeign v s me (Request.sell v' s' order) = is_hold v s v' s' ≡ false

module _ {S : Type 0} {redis : Redis S} (repository : Repository SoldSeat) (config : HoldConfig)
    (lawful : IsRedis redis) where
  serve-holder :
      (v s me t now : ℕ) (r : Request) (w : Venue S)
      → now ≤ t
      → IsForeign v s me r
      → holder_at redis repository v s t w ≡ some me
      → holder_at redis repository v s t (serve redis repository config now r w) ≡ some me
  unfolding serve create_hold renew_hold release_hold drop_own reserve_for_order release_for_order
      mark_sold
  serve-holder v s me t now (create v' s' token) w le f h = ground (
    arith,
    lawful.set_nx-done (hold_key v' s') token config.default_ttl_seconds now w.store,
    lawful.get-set_nx (hold_key v' s') (hold_key v s) token config.default_ttl_seconds now t
        w.store,
    lawful.get-earlier (hold_key v s) now t me w.store,
  )
  serve-holder v s me t now (renew v' s' token) w le f h = ground (
    arith,
    lawful.get-expire (hold_key v' s') (hold_key v s) config.default_ttl_seconds now t w.store,
    lawful.get-earlier (hold_key v s) now t me w.store,
  )
  serve-holder v s me t now (release v' s' token) w le f h = ground (
    arith,
    lawful.get-del (hold_key v' s') (hold_key v s) t w.store,
    lawful.get-earlier (hold_key v s) now t me w.store,
  )
  serve-holder v s me t now (reserve v' s' token) w le f h = ground (
    arith,
    lawful.get-expire (hold_key v' s') (hold_key v s) config.order_hold_ttl_seconds now t w.store,
    lawful.get-earlier (hold_key v s) now t me w.store,
  )
  serve-holder v s me t now (free v' s') w le f h =
      ground (arith, lawful.get-del (hold_key v' s') (hold_key v s) t w.store)
  serve-holder v s me t now (Request.sell v' s' order) w le f h =
      ground (arith, lawful.get-del (hold_key v' s') (hold_key v s) t w.store)

  -- A hold that would still stand at time `t` stands after any history, up to `t`, of requests
  -- that neither carry its token for its seat nor free or sell the seat for an order.
  pub holder-serve_all :
      (v s me t : ℕ) (rs : List (ℕ × Request)) (w : Venue S)
      → All (λ (now, r). (now ≤ t) × IsForeign v s me r) rs
      → holder_at redis repository v s t w ≡ some me
      → holder_at redis repository v s t (serve_all redis repository config rs w) ≡ some me
  unfolding serve_all
  holder-serve_all v s me t [] w f h = h
  holder-serve_all v s me t ((now, r) ∷ rs) w f h =
      holder-serve_all v s me t rs (serve redis repository config now r w) f.1
        (serve-holder v s me t now r w f.0.0 f.0.1 h)

  -- Creating a hold, when nothing else is served meanwhile: a sold seat is refused and nothing
  -- changes; a held seat is refused and every hold stays; otherwise the seat is held by the drawn
  -- token for exactly the TTL, and every other hold stays.
  pub create_hold_lem :
      (v s ttl token now : ℕ) (w : Venue S)
      → let (r, w') = create_hold redis repository (λ x. x) v s ttl token now w in
        let holder = holder_at redis repository in
        ((is_some (find_sold redis repository v s w) ≡ true)
          × (r ≡ err (conflict seat_sold))
          × (w' ≡ w))
        ⊎ ((is_some (find_sold redis repository v s w) ≡ false)
            × (is_some (holder v s now w) ≡ true)
            × (r ≡ err (conflict seat_held))
            × ((v' s' t : ℕ) → now ≤ t → holder v' s' t w' ≡ holder v' s' t w))
        ⊎ ((is_some (find_sold redis repository v s w) ≡ false)
            × (holder v s now w ≡ none)
            × (r ≡ ok (record { seat_id = s; holder_token = token; expires_at = now + ttl * 1000 }))
            × ((t : ℕ) → now ≤ t → t < now + ttl * 1000 → holder v s t w' ≡ some token)
            × ((t : ℕ) → now + ttl * 1000 ≤ t → holder v s t w' ≡ none)
            × ((v' s' t : ℕ)
                → is_hold v s v' s' ≡ false
                → now ≤ t
                → holder v' s' t w' ≡ holder v' s' t w))
  unfolding create_hold
  create_hold_lem v s ttl token now w = elim (Option-cases (find_sold redis repository v s w)) [
    | inr (x, e) ↦ inl (ground arith, ground arith, ground arith)
    | inl e ↦ elim (Option-cases (holder_at redis repository v s now w)) [
      | inr (u, e') ↦ inr (
          inl (
            ground arith,
            ground arith,
            ground (arith, done),
            λ v' s' t le. ground (arith, done, placed v' s' t le),
          ))
      | inl e' ↦ inr (
          inr (
            ground arith,
            e',
            ground (arith, done),
            λ t le lt. ground (arith, done, placed v s t le),
            λ t le. ground (arith, done, placed v s t (omega arith)),
            λ v' s' t ne le. ground (arith, done, placed v' s' t le),
          ))
    ]
  ]
    where
      done :
          (redis.set_nx (hold_key v s) token ttl now w.store).0
          ≡ not (is_some (redis.get (hold_key v s) now w.store))
      done = lawful.set_nx-done (hold_key v s) token ttl now w.store

      placed :
          (v' s' t : ℕ)
          → now ≤ t
          → redis.get (hold_key v' s') t (redis.set_nx (hold_key v s) token ttl now w.store).1 ≡ (
              if not (is_some (redis.get (hold_key v s) now w.store))
                && key_eq (hold_key v s) (hold_key v' s')
              then alive ttl now t (some token)
              else redis.get (hold_key v' s') t w.store)
      placed v' s' t le =
          lawful.get-set_nx (hold_key v s) (hold_key v' s') token ttl now t w.store le
