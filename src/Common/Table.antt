-- ===== src/Common/Table.antt =====
-- Tables of rows, and what the services use of a TypeORM repository: a parameter, with the
-- documented behaviour of its methods as laws.
use Prim.Native.Nat.{ℕ, suc, ◌+◌, ◌≤◌}
use mathlib.Core.Option
use mathlib.Core.Path.{◌≡◌, refl, sym, ap, ◌∙◌}
use mathlib.Core.Logic.{inl, inr}
use mathlib.Core.Bool.{Bool, true, false, not, ◌||◌}
use mathlib.Core.List.{List, [], ◌∷◌}
use mathlib.Core.Option.{Option, none, some}
use native.Mathlib.Omega.{arith}
use Prim.Native.String.{String}
use text.Mathlib.Text.{◌==◌ as str_eq}
use ceylon_events.Common.Tests.{◌==◌, if◌then◌else◌, Option-cases}
use ceylon_events.Common.Lists.{All, Elem, here, there, Elem-keep, keep, length}

-- The methods of `Repository<Row>`. `insert` is `save(create(…))` of a new entity, which fails on
-- a unique constraint; `save` is `save` of an entity that was loaded, by its primary key; `fresh`
-- is the key that the database generates for the next row; `update` is `update` and `increment`.
pub record Repository (Row : Type 0) : Type 0 where
  pub fresh : List Row → ℕ
  pub find_one : (Row → Bool) → List Row → Option Row
  pub find : (Row → Bool) → List Row → List Row
  pub insert : Row → List Row → Option (List Row)
  pub save : Row → List Row → List Row
  pub update : (Row → Bool) → (Row → Row) → List Row → List Row
  pub remove : (Row → Bool) → List Row → List Row

-- Of two NULLs a unique index makes nothing.
abbrev pub both_are : Option ℕ → Option ℕ → Bool
both_are none y = false
both_are (some a) none = false
both_are (some a) (some b) = a == b

abbrev pub both_say : Option String → Option String → Bool
both_say none y = false
both_say (some a) none = false
both_say (some a) (some b) = str_eq a b

-- A table without a unique constraint.
abbrev pub no_clash : {Row : Type 0} → Row → Row → Bool
no_clash a b = false

module _ {Row : Type 0} (key : Row → ℕ) where
  -- The row under a primary key.
  abbrev pub row : ℕ → List Row → Option Row
  row k [] = none
  row k (x ∷ t) = if key x == k then some x else row k t

  pub row-key : (t : List Row) (k : ℕ) (x : Row) → row k t ≡ some x → key x ≡ k
  row-key [] k x e = cc
  row-key (y ∷ t) k x e = ground (arith, row-key t k x)

  -- No two of the rows have one key.
  abbrev pub Distinct : List Row → Type 0
  Distinct [] = Unit
  Distinct (x ∷ xs) = All (λ y. (key y == key x) ≡ false) xs × Distinct xs

  -- The row is in the table, and passes the test.
  abbrev pub Selected : (Row → Bool) → List Row → Row → Type 0
  Selected p t x = (row (key x) t ≡ some x) × (p x ≡ true)

  -- What the services rely on: a table is determined by the rows under its primary keys; `clash`
  -- says when two rows violate a unique constraint.
  pub record IsRepository (clash : Row → Row → Bool) (r : Repository Row) : Type 0 where
    pub row-fresh : (t : List Row) → row (r.fresh t) t ≡ none
    pub find_one-some :
        (p : Row → Bool) (t : List Row) (x : Row) → r.find_one p t ≡ some x → Selected p t x
    pub find_one-none :
        (p : Row → Bool) (t : List Row) (k : ℕ) (x : Row)
        → r.find_one p t ≡ none
        → row k t ≡ some x
        → p x ≡ false
    pub find-Selected : (p : Row → Bool) (t : List Row) → All (Selected p t) (r.find p t)
    pub find-Distinct : (p : Row → Bool) (t : List Row) → Distinct (r.find p t)
    pub find-Elem :
        (p : Row → Bool) (t : List Row) (k : ℕ) (x : Row)
        → row k t ≡ some x
        → p x ≡ true
        → Elem x (r.find p t)
    pub row-insert :
        (x : Row) (t t' : List Row) (k : ℕ)
        → r.insert x t ≡ some t'
        → row k t' ≡ (if key x == k then some x else row k t)
    pub insert-none :
        (x : Row) (t : List Row)
        → r.insert x t ≡ none
        → (k : ℕ) × (y : Row) × (row k t ≡ some y) × ((key y == key x || clash x y) ≡ true)
    pub insert-clash :
        (x : Row) (t t' : List Row) (k : ℕ) (y : Row)
        → r.insert x t ≡ some t'
        → row k t ≡ some y
        → clash x y ≡ false
    pub find-insert :
        (p : Row → Bool) (x : Row) (t t' : List Row)
        → r.insert x t ≡ some t'
        → length (r.find p t') ≡ (if p x then 1 else 0) + length (r.find p t)
    pub row-save :
        (x : Row) (t : List Row) (k : ℕ)
        → row k (r.save x t) ≡ (if key x == k then some x else row k t)
    pub row-update :
        (p : Row → Bool) (f : Row → Row) (t : List Row) (k : ℕ)
        → ((x : Row) → key (f x) ≡ key x)
        → row k (r.update p f t) ≡ Option.map (λ x. if p x then f x else x) (row k t)
    pub row-remove :
        (p : Row → Bool) (t : List Row) (k : ℕ)
        → row k (r.remove p t) ≡ Option.bind (row k t) (λ x. if p x then none else some x)

  keep-length_le : (p : Row → Bool) (xs : List Row) → length (keep p xs) ≤ length xs
  keep-length_le p [] = omega arith
  keep-length_le p (y ∷ xs) = ground (arith, keep-length_le p xs)

  Elem-others :
      (p : Row → Bool) (found xs : List Row) {Q : Row → Type 0}
      → ((y : Row) → Q y → p y ≡ true)
      → All Q xs
      → All (λ y. Elem y found) xs
      → All (λ y. Elem y (keep p found)) xs
  Elem-others p found [] f qs all = tt
  Elem-others p found (y ∷ xs) f (q, qs) (i, all) =
      (Elem-keep p found y i (f y q), Elem-others p found xs f qs all)

  -- Without a row that is in it a list is shorter.
  keep-length :
      (p : Row → Bool) (x : Row) (xs : List Row)
      → Elem x xs
      → p x ≡ false
      → suc (length (keep p xs)) ≤ length xs
  keep-length p x [] i h = elim i [ ]
  keep-length p x (y ∷ xs) (here q) h =
      let le = keep-length_le p xs in let miss : p y ≡ false = ap p q ∙ h in ground arith
  keep-length p x (y ∷ xs) (there i) h = ground (arith, keep-length p x xs i h)

  -- Rows of different keys that are all in a list are no more than the list has.
  pub Distinct-length :
      (xs found : List Row) → Distinct xs → All (λ x. Elem x found) xs → length xs ≤ length found
  Distinct-length [] found d all = omega arith
  Distinct-length (x ∷ xs) found (others, d) (i, all) =
      let p : Row → Bool = λ y. not (key y == key x) in
      let rest =
        Distinct-length xs (keep p found) d
          (Elem-others p found xs (λ y h. ground (arith, h)) others all) in
      omega (arith, rest, keep-length p x found i (ground arith))

  -- `findOne({ where: { id } })`
  module _ {clash : Row → Row → Bool} {r : Repository Row} (lawful : IsRepository clash r) where
    pub find_one-key : (k : ℕ) (t : List Row) → r.find_one (λ x. key x == k) t ≡ row k t
    find_one-key k t = elim (Option-cases (r.find_one (λ x. key x == k) t)) [
      | inl e ↦ elim (Option-cases (row k t)) [
        | inl e' ↦ e ∙ sym e'
        | inr (x, e') ↦
            ground (arith, lawful.find_one-none (λ x. key x == k) t k x e e', row-key t k x e')
      ]
      | inr (x, e) ↦ ground (arith, lawful.find_one-some (λ x. key x == k) t x e)
    ]

    -- A row with a generated key goes in, unless it clashes with one that is there.
    pub insert-fresh :
        (x : Row) (t : List Row)
        → key x ≡ r.fresh t
        → ((k : ℕ) (y : Row) → row k t ≡ some y → clash x y ≡ false)
        → (t' : List Row) × (r.insert x t ≡ some t')
    insert-fresh x t new free = elim (Option-cases (r.insert x t)) [
      | inr (t', e) ↦ (t', e)
      | inl e ↦
          let (k, y, at, taken) = lawful.insert-none x t e in
          absurd (ground (arith, lawful.row-fresh t, row-key t k y at, free k y at))
    ]

    -- It is found under its key, and every other row stays.
    pub insert-fresh_row :
        (x : Row) (t t' : List Row)
        → key x ≡ r.fresh t
        → r.insert x t ≡ some t'
        → (row (key x) t' ≡ some x) × ((k : ℕ) (y : Row) → row k t ≡ some y → row k t' ≡ some y)
    insert-fresh_row x t t' new e = (
      ground (arith, lawful.row-insert x t t' (key x) e),
      λ k y at. ground (arith, lawful.row-insert x t t' k e, lawful.row-fresh t),
    )

    -- A test that no row passes finds nothing.
    pub find-nil :
        (p : Row → Bool) (t : List Row)
        → ((k : ℕ) (x : Row) → row k t ≡ some x → p x ≡ false)
        → r.find p t ≡ []
    find-nil p t no_row = go (r.find p t) (lawful.find-Selected p t)
      where
        go : (xs : List Row) → All (Selected p t) xs → xs ≡ []
        go [] h = refl
        go (x ∷ xs) ((at, hit), h) = absurd (ground (arith, no_row (key x) x at))

    -- What is left was there, and is not what was removed.
    pub row-removed :
        (p : Row → Bool) (t : List Row) (k : ℕ) (x : Row)
        → row k (r.remove p t) ≡ some x
        → (row k t ≡ some x) × (p x ≡ false)
    unfolding Option.bind
    row-removed p t k x at = elim (Option-cases (row k t)) [
      | inl e ↦ ground (arith, lawful.row-remove p t k)
      | inr (y, e) ↦ ground (arith, lawful.row-remove p t k)
    ]

    -- What is removed is not found.
    pub find-remove : (p : Row → Bool) (t : List Row) → r.find p (r.remove p t) ≡ []
    unfolding Option.bind
    find-remove p t = find-nil p (r.remove p t) λ k x at. ground (arith, lawful.row-remove p t k)
