-- ===== src/Common/Http.antt =====
-- What a call of another service comes back with, through `firstValueFrom(httpService…)`.
use Prim.Native.Nat.{ℕ}

-- An answer with a body, an answer with an error status (`isAxiosError(e) && e.response`), or none
-- in time.
pub data Response (A : Type 0) : Type 0 where
  body : A → Response A
  status : ℕ → Response A
  unreachable : Response A
