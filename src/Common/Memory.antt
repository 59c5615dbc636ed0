-- ===== src/Common/Memory.antt =====
-- A repository held in memory, which meets the laws of `IsRepository`: the tests run the services
-- on it. A table is a list of rows, newest first; of two rows with one key the first counts.
use Prim.Native.Nat.{ℕ, suc, ◌≤◌, max, ◌+◌}
use mathlib.Core.Option
use mathlib.Core.Path.{◌≡◌, refl, subst}
use mathlib.Core.Logic.{inl, inr}
use mathlib.Core.Bool.{Bool, true, false, not, ◌||◌}
use mathlib.Core.List.{List, [], ◌∷◌, map}
use mathlib.Core.Option.{Option, none, some}
use native.Mathlib.Omega.{arith}
use ceylon_events.Common.Tests.{◌==◌, ==_iff, if◌then◌else◌, Bool-cases}
use ceylon_events.Common.Lists.{length, All, Elem, here, there, keep, find?, any, any-All, any-none}
use ceylon_events.Common.Table.{Repository, IsRepository, Distinct, row, row-key}

module _ {Row : Type 0} (key : Row → ℕ) where
  -- The rows that count.
  abbrev visible : List Row → List Row
  visible [] = []
  visible (x ∷ t) = x ∷ keep (λ y. not (key y == key x)) (visible t)

  abbrev next_key : List Row → ℕ
  next_key [] = 0
  next_key (x ∷ t) = max (suc (key x)) (next_key t)

  next_key-bound : (t : List Row) (k : ℕ) → next_key t ≤ k → row key k t ≡ none
  next_key-bound [] k h = refl
  next_key-bound (x ∷ t) k h = ground (arith, next_key-bound t k (omega arith))

  All-keep :
      (P : Row → Type 0) (Q : Row → Type 0) (p : Row → Bool) (xs : List Row)
      → ((x : Row) → P x → p x ≡ true → Q x)
      → All P xs
      → All Q (keep p xs)
  All-keep P Q p [] f h = tt
  All-keep P Q p (x ∷ xs) f h = elim (Bool-cases (p x)) [
    | inl e ↦ rw e (f x h.0 e, All-keep P Q p xs f h.1)
    | inr e ↦ rw e (All-keep P Q p xs f h.1)
  ]

  All-tt : (xs : List Row) → All (λ y. Unit {0}) xs
  All-tt [] = tt
  All-tt (x ∷ xs) = (tt, All-tt xs)

  visible-row : (t : List Row) → All (λ x. row key (key x) t ≡ some x) (visible t)
  visible-row [] = tt
  visible-row (x ∷ t) = (
    ground arith,
    All-keep (λ y. row key (key y) t ≡ some y) _ _ (visible t) (λ y h e. ground arith)
        (visible-row t),
  )

  Elem-keep :
      (p : Row → Bool) (xs : List Row) (x : Row) → Elem x xs → p x ≡ true → Elem x (keep p xs)
  Elem-keep p [] x m h = elim m [ ]
  Elem-keep p (y ∷ xs) x (here e) h = rw (e, h) (here refl)
  Elem-keep p (y ∷ xs) x (there m) h = elim (Bool-cases (p y)) [
    | inl e ↦ rw e (there (Elem-keep p xs x m h))
    | inr e ↦ rw e (Elem-keep p xs x m h)
  ]

  keep-Distinct : (p : Row → Bool) (xs : List Row) → Distinct key xs → Distinct key (keep p xs)
  keep-Distinct p [] d = tt
  keep-Distinct p (x ∷ xs) (others, d) = elim (Bool-cases (p x)) [
    | inl e ↦
        rw e (
          All-keep (λ y. (key y == key x) ≡ false) _ p xs (λ y h q. h) others,
          keep-Distinct p xs d,
        )
    | inr e ↦ rw e (keep-Distinct p xs d)
  ]

  visible-Distinct : (t : List Row) → Distinct key (visible t)
  visible-Distinct [] = tt
  visible-Distinct (x ∷ t) =
      let d = visible-Distinct t in
      (
        All-keep (λ y. Unit {0}) _ _ (visible t) (λ y h e. ground arith) (All-tt (visible t)),
        keep-Distinct _ (visible t) d,
      )

  Elem-visible : (t : List Row) (k : ℕ) (x : Row) → row key k t ≡ some x → Elem x (visible t)
  Elem-visible [] k x e = cc
  Elem-visible (y ∷ t) k x e = elim (Bool-cases (key y == k)) [
    | inl hit ↦ here (ground arith)
    | inr miss ↦
        let e' : row key k t ≡ some x = ground arith in
        there
          (Elem-keep _ (visible t) x (Elem-visible t k x e') (ground (arith, row-key key t k x e')))
  ]

  find?-All :
      (P : Row → Type 0) (p : Row → Bool) (xs : List Row) (x : Row)
      → All P xs
      → find? p xs ≡ some x
      → P x × (p x ≡ true)
  find?-All P p [] x h e = cc
  find?-All P p (y ∷ xs) x h e = elim (Bool-cases (p y)) [
    | inl hit ↦ let q : y ≡ x = ground arith in (subst P q h.0, ground arith)
    | inr miss ↦ find?-All P p xs x h.1 (ground arith)
  ]

  find?-none :
      (p : Row → Bool) (xs : List Row) (x : Row) → Elem x xs → find? p xs ≡ none → p x ≡ false
  find?-none p [] x m e = elim m [ ]
  find?-none p (y ∷ xs) x (here q) e = ground arith
  find?-none p (y ∷ xs) x (there m) e = ground (arith, find?-none p xs x m)

  row-keep :
      (g : ℕ → Bool) (t : List Row) (k : ℕ)
      → row key k (keep (λ x. g (key x)) t) ≡ (if g k then row key k t else none)
  row-keep g [] k = ground arith
  row-keep g (x ∷ t) k = elim (Bool-cases (key x == k)) [
    | inl e ↦ rw ((==_iff (key x) k).0 e) (ground (arith, row-keep g t k))
    | inr e ↦ ground (arith, row-keep g t k)
  ]

  -- `p` of the row under the key.
  abbrev hit_key : (Row → Bool) → List Row → ℕ → Bool
  hit_key p t k = elim (row key k t) [ none ↦ true | some y ↦ not (p y) ]

  row-map :
      (g : Row → Row) (t : List Row) (k : ℕ)
      → ((x : Row) → key (g x) ≡ key x)
      → row key k (map g t) ≡ Option.map g (row key k t)
  unfolding Option.map
  row-map g [] k h = refl
  row-map g (x ∷ t) k h = ground (arith, h x, row-map g t k h)

  module _ (clash : Row → Row → Bool) where
    abbrev pub memory : Repository Row
    memory = record {
      fresh = next_key;
      find_one = λ p t. find? p (visible t);
      find = λ p t. keep p (visible t);
      insert =
          λ x t. if any (λ y. key y == key x || clash x y) (visible t) then none else some (x ∷ t);
      save = λ x t. x ∷ t;
      update = λ p f t. map (λ x. if p x then f x else x) t;
      remove = λ p t. keep (λ x. hit_key p t (key x)) t;
    }

    update-key :
        (p : Row → Bool) (f : Row → Row)
        → ((x : Row) → key (f x) ≡ key x)
        → (x : Row) → key (if p x then f x else x) ≡ key x
    update-key p f h x = ground (arith, h x)

    row-remove :
        (p : Row → Bool) (t : List Row) (k : ℕ)
        → row key k (memory.remove p t)
          ≡ Option.bind (row key k t) (λ x. if p x then none else some x)
    unfolding Option.bind
    row-remove p t k = ground (arith, row-keep (hit_key p t) t k)

    memory-insert-some :
        (x : Row) (t t' : List Row)
        → memory.insert x t ≡ some t'
        → (t' ≡ x ∷ t) × (any (λ y. key y == key x || clash x y) (visible t) ≡ false)
    memory-insert-some x t t' e = ground arith

    memory-insert-none :
        (x : Row) (t : List Row)
        → memory.insert x t ≡ none
        → any (λ y. key y == key x || clash x y) (visible t) ≡ true
    memory-insert-none x t e = ground arith

    keep-others :
        (x : Row) (ys : List Row)
        → any (λ y. key y == key x || clash x y) ys ≡ false
        → keep (λ y. not (key y == key x)) ys ≡ ys
    keep-others x [] e = refl
    keep-others x (y ∷ ys) e = ground (arith, keep-others x ys)

    memory-find-insert :
        (p : Row → Bool) (x : Row) (t t' : List Row)
        → memory.insert x t ≡ some t'
        → length (memory.find p t') ≡ (if p x then 1 else 0) + length (memory.find p t)
    memory-find-insert p x t t' e =
        let (same, free) = memory-insert-some x t t' e in
        rw (same, keep-others x (visible t) free) (ground arith)

    pub memory-IsRepository : IsRepository key clash memory
    memory-IsRepository = record {
      row-fresh = λ t. next_key-bound t (next_key t) (omega arith);
      find_one-some = λ p t x. find?-All _ p (visible t) x (visible-row t);
      find_one-none = λ p t k x e r. find?-none p (visible t) x (Elem-visible t k x r) e;
      find-Selected = λ p t. All-keep _ _ p (visible t) (λ x h e. (h, e)) (visible-row t);
      find-Distinct = λ p t. keep-Distinct p (visible t) (visible-Distinct t);
      find-Elem = λ p t k x r. Elem-keep p (visible t) x (Elem-visible t k x r);
      row-insert = λ x t t' k e. rw (memory-insert-some x t t' e).0;
      insert-none = λ x t e.
          let (y, h, q) = any-All _ _ (visible t) (visible-row t) (memory-insert-none x t e) in
          (key y, y, h, q);
      insert-clash = λ x t t' k y e r.
          let q = any-none _ (visible t) y (Elem-visible t k y r) (memory-insert-some x t t' e).1 in
          ground (arith, q);
      find-insert = memory-find-insert;
      row-save = λ x t k. refl;
      row-update = λ p f t k h. row-map _ t k (update-key p f h);
      row-remove = row-remove;
    }
