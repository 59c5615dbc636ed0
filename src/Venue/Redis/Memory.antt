-- ===== src/Venue/Redis/Memory.antt =====
-- A store in memory that meets the laws of `IsRedis`: each key has a value and the time it dies.
use ceylon_events.Common.{
  ℕ, ◌+◌, ◌*◌, ◌≤◌, ◌≡◌, refl, true, false, not, ◌&&◌, Option, none, some, map, arith, ltb, is_some,
  if◌then◌else◌,
}
use ceylon_events.Venue.Redis.{HoldKey, key_eq, Redis, IsRedis, alive}

abbrev pub Store : Type 0
Store = HoldKey → Option (ℕ × ℕ)

abbrev read : Option (ℕ × ℕ) → ℕ → Option ℕ
read none now = none
read (some (v, dies)) now = if ltb now dies then some v else none

-- `EXPIRE` of what a key holds.
abbrev extend : Option (ℕ × ℕ) → ℕ → ℕ → Option (ℕ × ℕ)
extend none ttl now = none
extend (some (v, dies)) ttl now = if ltb now dies then some (v, now + ttl * 1000) else none

abbrev write : HoldKey → Option (ℕ × ℕ) → Store → Store
write k e s j = if key_eq k j then e else s j

abbrev pub memory : Redis Store
memory = record {
  get = λ k now s. read (s k) now;
  mget = λ ks now s. map (λ k. read (s k) now) ks;
  set_nx = λ k v ttl now s.
      if is_some (read (s k) now)
      then (false, s)
      else (true, write k (some (v, now + ttl * 1000)) s);
  expire = λ k ttl now s. write k (extend (s k) ttl now) s;
  del = λ k s. write k none s;
}

read-earlier : (e : Option (ℕ × ℕ)) (t t' v : ℕ) → t ≤ t' → read e t' ≡ some v → read e t ≡ some v
read-earlier none t t' v le h = cc
read-earlier (some (u, dies)) t t' v le h = ground arith

read-extend :
    (e : Option (ℕ × ℕ)) (ttl now t : ℕ)
    → now ≤ t
    → read (extend e ttl now) t ≡ alive ttl now t (read e now)
read-extend none ttl now t le = ground arith
read-extend (some (u, dies)) ttl now t le = ground arith

get-set_nx :
    (k j : HoldKey) (v ttl now t : ℕ) (s : Store)
    → now ≤ t
    → memory.get j t (memory.set_nx k v ttl now s).1 ≡ (
        if not (is_some (memory.get k now s)) && key_eq k j
        then alive ttl now t (some v)
        else memory.get j t s)
get-set_nx k j v ttl now t s le = ground arith

get-expire :
    (k j : HoldKey) (ttl now t : ℕ) (s : Store)
    → now ≤ t
    → memory.get j t (memory.expire k ttl now s)
      ≡ (if key_eq k j then alive ttl now t (memory.get k now s) else memory.get j t s)
get-expire k j ttl now t s le = ground (arith, read-extend (s k) ttl now t le)

pub memory-IsRedis : IsRedis memory
memory-IsRedis = record {
  mget-get = λ ks now s. refl;
  get-earlier = λ k t t' v s. read-earlier (s k) t t' v;
  set_nx-done = λ k v ttl now s. ground arith;
  get-set_nx = get-set_nx;
  get-expire = get-expire;
  get-del = λ k j t s. ground arith;
}
