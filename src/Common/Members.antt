-- ===== src/Common/Members.antt =====
-- Membership in lists that are put together.
use mathlib.Core.Path.{◌≡◌, refl, ap}
use mathlib.Core.Logic.{◌⊎◌, inl, inr}
use mathlib.Core.List.{List, [], ◌∷◌, ◌++◌, map}
use ceylon_events.Common.Lists.{Elem, here, there}

module _ {ℓ} {A : Type ℓ} where
  pub append-Elem : (xs ys : List A) (x : A) → Elem x (xs ++ ys) → Elem x xs ⊎ Elem x ys
  append-Elem [] ys x i = inr i
  append-Elem (z ∷ xs) ys x (here q) = inl (here q)
  append-Elem (z ∷ xs) ys x (there i) = elim (append-Elem xs ys x i) [
    | inl j ↦ inl (there j)
    | inr j ↦ inr j
  ]

  pub Elem-append : (xs ys : List A) (x : A) → Elem x xs ⊎ Elem x ys → Elem x (xs ++ ys)
  Elem-append [] ys x (inl i) = elim i [ ]
  Elem-append [] ys x (inr i) = i
  Elem-append (z ∷ xs) ys x (inl (here q)) = here q
  Elem-append (z ∷ xs) ys x (inl (there i)) = there (Elem-append xs ys x (inl i))
  Elem-append (z ∷ xs) ys x (inr i) = there (Elem-append xs ys x (inr i))

module _ {ℓ κ} {A : Type ℓ} {B : Type κ} (f : A → B) where
  pub Elem-map : (xs : List A) (y : B) → Elem y (map f xs) → (x : A) × Elem x xs × (f x ≡ y)
  Elem-map [] y i = elim i [ ]
  Elem-map (x ∷ xs) y (here q) = (x, here refl, q)
  Elem-map (x ∷ xs) y (there i) = let (z, j, is) = Elem-map xs y i in (z, there j, is)

  pub map-Elem : (xs : List A) (x : A) → Elem x xs → Elem (f x) (map f xs)
  map-Elem [] x i = elim i [ ]
  map-Elem (z ∷ xs) x (here q) = here (ap f q)
  map-Elem (z ∷ xs) x (there i) = there (map-Elem xs x i)
