-- ===== src/Common/Lists.antt =====
-- JavaScript's array methods, over a Boolean test and the native numbers.
use Prim.Native.Nat.{ℕ, zero, suc, ◌+◌, ◌≤◌}
use mathlib.Core.Path.{◌≡◌, refl, subst}
use mathlib.Core.Logic.{◌⊎◌, inl, inr}
use mathlib.Core.Bool.{Bool, true, false, ◌||◌}
use mathlib.Core.List.{List, [], ◌∷◌, ◌++◌}
use mathlib.Core.Option.{Option, none, some}
use native.Mathlib.Omega.{arith}
use ceylon_events.Common.Tests.{Bool-cases, if◌then◌else◌}

module _ {ℓ} {A : Type ℓ} where
  abbrev pub length : List A → ℕ
  length [] = 0
  length (x ∷ xs) = suc (length xs)

  abbrev pub take : ℕ → List A → List A
  take zero xs = []
  take (suc n) [] = []
  take (suc n) (x ∷ xs) = x ∷ take n xs

  abbrev pub drop : ℕ → List A → List A
  drop zero xs = xs
  drop (suc n) [] = []
  drop (suc n) (x ∷ xs) = drop n xs

  -- `xs.some(p)`
  abbrev pub any : (A → Bool) → List A → Bool
  any p [] = false
  any p (x ∷ xs) = p x || any p xs

  -- `xs.find(p)`
  abbrev pub find? : (A → Bool) → List A → Option A
  find? p [] = none
  find? p (x ∷ xs) = if p x then some x else find? p xs

  -- `xs.filter(p)`
  abbrev pub keep : (A → Bool) → List A → List A
  keep p [] = []
  keep p (x ∷ xs) = if p x then x ∷ keep p xs else keep p xs

  -- `SELECT COUNT(*) … WHERE p`
  abbrev pub count : (A → Bool) → List A → ℕ
  count p [] = 0
  count p (x ∷ xs) = (if p x then 1 else 0) + count p xs

  -- `xs.reduce((sum, x) => sum + f(x), 0)`, as a sum over the rest.
  abbrev pub sum_by : (A → ℕ) → List A → ℕ
  sum_by f [] = 0
  sum_by f (x ∷ xs) = f x + sum_by f xs

  -- The predicate holds of every element.
  abbrev pub All {κ} : (A → Type κ) → List A → Type κ
  All P [] = Unit
  All P (x ∷ xs) = P x × All P xs

  -- Some element is `a`.
  pub data Elem (a : A) : List A → Type ℓ where
    here : {x : A} {xs : List A} → x ≡ a → Elem a (x ∷ xs)
    there : {x : A} {xs : List A} → Elem a xs → Elem a (x ∷ xs)

  pub All-append {κ} : (P : A → Type κ) (xs ys : List A) → All P xs → All P ys → All P (xs ++ ys)
  All-append P [] ys hx hy = hy
  All-append P (x ∷ xs) ys hx hy = (hx.0, All-append P xs ys hx.1 hy)

  pub count-append : (p : A → Bool) (xs ys : List A) → count p (xs ++ ys) ≡ count p xs + count p ys
  count-append p [] ys = omega arith
  count-append p (x ∷ xs) ys = omega (arith, count-append p xs ys)

  pub sum_by-append : (f : A → ℕ) (xs ys : List A) → sum_by f (xs ++ ys) ≡ sum_by f xs + sum_by f ys
  sum_by-append f [] ys = omega arith
  sum_by-append f (x ∷ xs) ys = omega (arith, sum_by-append f xs ys)

  -- A part of a list sums to no more than the whole.
  pub sum_by-keep-le : (f : A → ℕ) (p : A → Bool) (xs : List A) → sum_by f (keep p xs) ≤ sum_by f xs
  sum_by-keep-le f p [] = omega arith
  sum_by-keep-le f p (x ∷ xs) = ground (arith, sum_by-keep-le f p xs)

  pub any-All {κ} :
      (P : A → Type κ) (p : A → Bool) (xs : List A)
      → All P xs
      → any p xs ≡ true
      → (x : A) × P x × (p x ≡ true)
  any-All P p [] h e = cc
  any-All P p (y ∷ xs) h e = elim (Bool-cases (p y)) [
    | inl hit ↦ (y, h.0, hit)
    | inr miss ↦ any-All P p xs h.1 (ground arith)
  ]

  pub any-none : (p : A → Bool) (xs : List A) (x : A) → Elem x xs → any p xs ≡ false → p x ≡ false
  any-none p [] x m e = elim m [ ]
  any-none p (y ∷ xs) x (here q) e = ground arith
  any-none p (y ∷ xs) x (there m) e = ground (arith, any-none p xs x m)

  pub All-Elem {κ} : (P : A → Type κ) (xs : List A) (x : A) → All P xs → Elem x xs → P x
  All-Elem P [] x ps i = elim i [ ]
  All-Elem P (y ∷ xs) x (p, ps) (here e) = subst P e p
  All-Elem P (y ∷ xs) x (p, ps) (there i) = All-Elem P xs x ps i

  pub find?-some :
      (p : A → Bool) (xs : List A) (x : A) → find? p xs ≡ some x → Elem x xs × (p x ≡ true)
  find?-some p [] x e = cc
  find?-some p (y ∷ xs) x e = elim (Bool-cases (p y)) [
    | inl hit ↦ let same : y ≡ x = ground arith in (here same, subst (λ z. p z ≡ true) same hit)
    | inr miss ↦ let (i, h) = find?-some p xs x (ground arith) in (there i, h)
  ]

  pub find?-none :
      (p : A → Bool) (xs : List A) (x : A) → find? p xs ≡ none → Elem x xs → p x ≡ false
  find?-none p [] x e i = elim i [ ]
  find?-none p (y ∷ xs) x e (here q) = ground arith
  find?-none p (y ∷ xs) x e (there i) = ground (arith, find?-none p xs x)

  pub Elem-cons : (x y : A) (xs : List A) → Elem x (y ∷ xs) → (y ≡ x) ⊎ Elem x xs
  Elem-cons x y xs (here q) = inl q
  Elem-cons x y xs (there i) = inr i

  pub keep-Elem :
      (p : A → Bool) (xs : List A) (x : A) → Elem x (keep p xs) → Elem x xs × (p x ≡ true)
  keep-Elem p [] x i = elim i [ ]
  keep-Elem p (y ∷ xs) x i = elim (Bool-cases (p y)) [
    | inr miss ↦ let (j, h) = keep-Elem p xs x (subst (Elem x) (rw miss refl) i) in (there j, h)
    | inl hit ↦ elim (Elem-cons x y (keep p xs) (subst (Elem x) (rw hit refl) i)) [
      | inl q ↦ (here q, subst (λ z. p z ≡ true) q hit)
      | inr j ↦ let (k, h) = keep-Elem p xs x j in (there k, h)
    ]
  ]

  pub Elem-keep : (p : A → Bool) (xs : List A) (x : A) → Elem x xs → p x ≡ true → Elem x (keep p xs)
  Elem-keep p [] x i h = elim i [ ]
  Elem-keep p (y ∷ xs) x (here q) h = subst (Elem x) (ground arith) (here {xs = keep p xs} q)
  Elem-keep p (y ∷ xs) x (there i) h = elim (Bool-cases (p y)) [
    | inl hit ↦ rw hit (there (Elem-keep p xs x i h))
    | inr miss ↦ rw miss (Elem-keep p xs x i h)
  ]
