-- ===== src/Venue/Redis.antt =====
-- The commands that venue-service sends to Redis, as an interface: `S` is what Redis stores, and
-- times are milliseconds.
pub mod Memory
use ceylon_events.Common.{
  ℕ, ◌+◌, ◌*◌, ◌≤◌, ◌≡◌, ◌≢◌, Bool, true, false, not, ◌&&◌, Option, none, some, List, map, ◌==◌,
  ltb, is_some, if◌then◌else◌,
}

-- `seat-hold:${versionId}:${seatId}`: the ids are UUIDs, so the text determines both.
pub record HoldKey : Type 0 where
  pub version : ℕ
  pub seat : ℕ

abbrev pub key_eq : HoldKey → HoldKey → Bool
key_eq j k = j.version == k.version && j.seat == k.seat

-- `get`, `mget`, `set … EX ttl NX` (did it set?), `expire` and `del`, each at a time.
pub record Redis (S : Type 0) : Type 0 where
  pub get : HoldKey → ℕ → S → Option ℕ
  pub mget : List HoldKey → ℕ → S → List (Option ℕ)
  pub set_nx : HoldKey → ℕ → ℕ → ℕ → S → Bool × S
  pub expire : HoldKey → ℕ → ℕ → S → S
  pub del : HoldKey → S → S

-- A value that lives from `now` for `ttl` seconds, read at `t`.
abbrev pub alive : ℕ → ℕ → ℕ → Option ℕ → Option ℕ
alive ttl now t v = if ltb t (now + ttl * 1000) then v else none

-- What Redis documents of them, for reads at or after the time of the command.
pub record IsRedis {S : Type 0} (r : Redis S) : Type 0 where
  pub mget-get :
      (ks : List HoldKey) (now : ℕ) (s : S) → r.mget ks now s ≡ map (λ k. r.get k now s) ks
  pub get-earlier :
      (k : HoldKey) (t t' v : ℕ) (s : S) → t ≤ t' → r.get k t' s ≡ some v → r.get k t s ≡ some v
  pub set_nx-done :
      (k : HoldKey) (v ttl now : ℕ) (s : S)
      → (r.set_nx k v ttl now s).0 ≡ not (is_some (r.get k now s))
  pub get-set_nx :
      (k j : HoldKey) (v ttl now t : ℕ) (s : S)
      → now ≤ t
      → r.get j t (r.set_nx k v ttl now s).1 ≡ (
          if not (is_some (r.get k now s)) && key_eq k j
          then alive ttl now t (some v)
          else r.get j t s)
  pub get-expire :
      (k j : HoldKey) (ttl now t : ℕ) (s : S)
      → now ≤ t
      → r.get j t (r.expire k ttl now s)
        ≡ (if key_eq k j then alive ttl now t (r.get k now s) else r.get j t s)
  pub get-del :
      (k j : HoldKey) (t : ℕ) (s : S)
      → r.get j t (r.del k s) ≡ (if key_eq k j then none else r.get j t s)
