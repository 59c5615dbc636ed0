-- ===== src/Common/Effect.antt =====
-- An async method of a service: it reads and changes the state, and returns or throws. There are no
-- transactions in the services, so what was written before a throw stays written.
use mathlib.Core.Bool.{Bool}
use mathlib.Core.Logic.{◌⊎◌, inl, inr}
use mathlib.Core.Option.{Option, none, some}
use mathlib.Core.Path.{◌≡◌, refl}
use ceylon_events.Common.Tests.{if◌then◌else◌}

-- NestJS's exceptions, by the status that they answer with; `R` says which message they carry.
-- `internal_error` is any other error, which NestJS answers with 500.
pub data Exception (R : Type 0) : Type 0 where
  bad_request unauthorized forbidden not_found conflict bad_gateway : R → Exception R
  internal_error : Exception R

pub data Result (R A : Type 0) : Type 0 where
  ok : A → Result R A
  err : Exception R → Result R A

abbrev pub Action : Type 0 → Type 0 → Type 0 → Type 0
Action S R A = S → Result R A × S

module _ {S R A : Type 0} where
  abbrev pub pure : A → Action S R A
  pure a s = (ok a, s)

  abbrev pub throw : Exception R → Action S R A
  throw e s = (err e, s)

  abbrev pub gets : (S → A) → Action S R A
  gets f s = (ok (f s), s)

  -- The answer of a call that changes nothing here.
  abbrev pub lift : Result R A → Action S R A
  lift r s = (r, s)

  abbrev pub or_throw : Option A → Exception R → Action S R A
  or_throw none e s = (err e, s)
  or_throw (some a) e s = (ok a, s)

infixl 5 ◌>>=◌ ◌>>◌
abbrev pub ◌>>=◌ : {S R A B : Type 0} → Action S R A → (A → Action S R B) → Action S R B
◌>>=◌ m f s = let (r, s') = m s in elim r [ ok a ↦ f a s' | err e ↦ (err e, s') ]

abbrev pub ◌>>◌ : {S R B : Type 0} → Action S R (Unit {0}) → Action S R B → Action S R B
m >> k = m >>= λ _. k

module _ {S R : Type 0} where
  abbrev pub modify : (S → S) → Action S R (Unit {0})
  modify f s = (ok tt, f s)

  abbrev pub skip : Action S R (Unit {0})
  skip s = (ok tt, s)

  -- `if (c) throw e;`
  abbrev pub throw_if : Bool → Exception R → Action S R (Unit {0})
  throw_if c e s = (if c then err e else ok tt, s)

-- `try { m } catch { k }`, where `k` goes on from the state that the failure left.
abbrev pub try_catch : {S R A : Type 0} → Action S R A → Action S R A → Action S R A
try_catch m k s = let (r, s') = m s in elim r [ ok a ↦ (ok a, s') | err e ↦ k s' ]

-- The call returned.
abbrev pub IsOk : {R A : Type 0} → Result R A → Type 0
IsOk (ok a) = Unit
IsOk (err e) = ⊥

-- What is known of a call that returned, of its two parts.
pub >>=-eq-ok :
    {S R A B : Type 0} (m : Action S R A) (f : A → Action S R B) (s : S) {b : B} {s'' : S}
    → (m >>= f) s ≡ (ok b, s'')
    → (a : A) × (s' : S) × (m s ≡ (ok a, s')) × (f a s' ≡ (ok b, s''))
>>=-eq-ok {S} {R} {A} {B} m f s {b} {s''} h = go (m s) refl h
  where
    go :
        (r : Result R A × S)
        → m s ≡ r
        → (let (q, s') = r in elim q [ ok a ↦ f a s' | err e ↦ (err e, s') ]) ≡ (ok b, s'')
        → (a : A) × (s' : S) × (m s ≡ (ok a, s')) × (f a s' ≡ (ok b, s''))
    go (ok a, s') e h' = (a, s', e, h')
    go (err x, s') e h' = cc

pub Result-cases :
    {R A : Type 0} (r : Result R A) → ((a : A) × (r ≡ ok a)) ⊎ ((e : Exception R) × (r ≡ err e))
Result-cases (ok a) = inl (a, refl)
Result-cases (err e) = inr (e, refl)
