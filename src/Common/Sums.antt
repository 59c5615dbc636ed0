-- ===== src/Common/Sums.antt =====
-- Sums over lists, and a sum by parts.
use Prim.Native.Nat.{ℕ, ◌+◌}
use mathlib.Core.Path.{◌≡◌, refl}
use mathlib.Core.Bool.{Bool}
use mathlib.Core.List.{List, [], ◌∷◌, ◌++◌, map}
use native.Mathlib.Omega.{arith}
use ceylon_events.Common.Tests.{if◌then◌else◌}
use ceylon_events.Common.Int.{ℤ, total_by}
use ceylon_events.Common.Lists.{length, keep, count, sum_by, All}

module _ {ℓ κ} {A : Type ℓ} {B : Type κ} where
  pub sum_by-map :
      (f : B → ℕ) (g : A → B) (xs : List A) → sum_by f (map g xs) ≡ sum_by (λ x. f (g x)) xs
  sum_by-map f g [] = refl
  sum_by-map f g (x ∷ xs) = omega (arith, sum_by-map f g xs)

  pub total_by-map :
      (f : B → ℤ) (g : A → B) (xs : List A) → total_by f (map g xs) ≡ total_by (λ x. f (g x)) xs
  total_by-map f g [] = refl
  total_by-map f g (x ∷ xs) = rw (total_by-map f g xs) refl

module _ {ℓ} {A : Type ℓ} where
  pub length-sum_by : (xs : List A) → length xs ≡ sum_by (λ x. 1) xs
  length-sum_by [] = refl
  length-sum_by (x ∷ xs) = omega (arith, length-sum_by xs)

  pub sum_by-cong :
      (f g : A → ℕ) → ((x : A) → f x ≡ g x) → (xs : List A) → sum_by f xs ≡ sum_by g xs
  sum_by-cong f g h [] = refl
  sum_by-cong f g h (x ∷ xs) = omega (arith, h x, sum_by-cong f g h xs)

  pub length-append : (xs ys : List A) → length (xs ++ ys) ≡ length xs + length ys
  length-append [] ys = omega arith
  length-append (x ∷ xs) ys = omega (arith, length-append xs ys)

-- Each part `t` has the elements with `p t`.
module _ {ℓ κ} {A : Type ℓ} {B : Type κ} (p : B → A → Bool) (f : A → ℕ) where
  part : List A → B → ℕ
  part xs t = sum_by f (keep (p t) xs)

  own : A → B → ℕ
  own x t = if p t x then f x else 0

  parts-cons :
      (x : A) (xs : List A) (ts : List B)
      → sum_by (part (x ∷ xs)) ts ≡ sum_by (own x) ts + sum_by (part xs) ts
  unfolding part own
  parts-cons x xs [] = omega arith
  parts-cons x xs (t ∷ ts) = ground (arith, parts-cons x xs ts)

  own-none : (x : A) (ts : List B) → count (λ t. p t x) ts ≡ 0 → sum_by (own x) ts ≡ 0
  unfolding own
  own-none x [] h = refl
  own-none x (t ∷ ts) h = ground (arith, own-none x ts)

  own-one : (x : A) (ts : List B) → count (λ t. p t x) ts ≡ 1 → sum_by (own x) ts ≡ f x
  unfolding own
  own-one x [] h = ground arith
  own-one x (t ∷ ts) h = ground (arith, own-one x ts, own-none x ts)

  parts-nil : (ts : List B) → sum_by (part []) ts ≡ 0
  unfolding part
  parts-nil [] = refl
  parts-nil (t ∷ ts) = omega (arith, parts-nil ts)

  -- If every element is in exactly one part, the parts sum to the whole.
  pub sum_by-parts :
      (ts : List B) (xs : List A)
      → All (λ x. count (λ t. p t x) ts ≡ 1) xs
      → sum_by (λ t. sum_by f (keep (p t) xs)) ts ≡ sum_by f xs
  unfolding part
  sum_by-parts ts [] h = parts-nil ts
  sum_by-parts ts (x ∷ xs) (one, h) =
      omega (arith, parts-cons x xs ts, own-one x ts one, sum_by-parts ts xs h)
