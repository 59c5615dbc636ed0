-- ===== src/Ratings/Averages.antt =====
-- The average of the stars.
use native.Mathlib.Nat.{le-div_iff_mul-le, mul-le-mul_right}
use ceylon_events.Common.{
  ℕ, suc, ◌+◌, ◌*◌, ◌≤◌, ◌<◌, ◌≡◌, refl, ◌≢◌, ◌∙◌, ap, ◌↔◌, ◌⊎◌, inl, inr, true, false, Option,
  none, some, List, [], ◌∷◌, Elem, here, there, length, sum_by, arith, ==_iff, &&_iff, ok, err,
  bad_request, All, IsRepository, Repository, Selected, Distinct, leb, Bool-cases, Option-cases,
}
use ceylon_events.Shared.{RatingSubjectType, event, menu_item, same_subject_type}
use ceylon_events.Ratings.Types.{
  Rating, RatingsFilter, RatingSummary, Upstream, State, same_rating, filter_missing,
}
use ceylon_events.Ratings.Earned.{rating_row, same_subject_type_refl}
use ceylon_events.Ratings.{selects, is_missing, rounded_tenths, summary_of, summary}

-- `a` is the nearest number of tenths to `sum / n`, and the upper one of two that are as near.
abbrev pub IsNearest : ℕ → ℕ → ℕ → Type 0
IsNearest sum n a = (a * (2 * n) ≤ 20 * sum + n) × (20 * sum + n < suc a * (2 * n))

nearest : (sum n : ℕ) → 0 < n → IsNearest sum n (rounded_tenths sum n)
nearest sum n pos =
    let a = rounded_tenths sum n in
    let up =
      λ (x : ℕ). (le-div_iff_mul-le {k = 2 * n} {x = x} {y = 20 * sum + n} (omega arith)).0 in
    let down =
      λ (x : ℕ). (le-div_iff_mul-le {k = 2 * n} {x = x} {y = 20 * sum + n} (omega arith)).1 in
    let over : ¬ (suc a * (2 * n) ≤ 20 * sum + n) = λ h. absurd (omega (arith, down (suc a) h)) in
    (up a (omega arith), omega (arith, over))

shared-below : (m x y n sum : ℕ) → m ≤ x → m ≤ y → y * n ≤ sum → m * suc n ≤ x + sum
shared-below m x y n sum mx my h = let le = mul-le-mul_right {m = m} {n = y} n my in grind arith

shared-above : (m x y n sum : ℕ) → x ≤ m → y ≤ m → sum ≤ y * n → x + sum ≤ m * suc n
shared-above m x y n sum mx my h = let le = mul-le-mul_right {m = y} {n = m} n my in grind arith

times-twice : (k n : ℕ) → 10 * k * (2 * n) ≡ 20 * (k * n)
times-twice k n = grind arith

given-cases :
    (f : RatingsFilter)
    → is_missing f ≡ false
    → (f.restaurant_id ≢ none) ⊎ ((f.subject_type ≢ none) × (f.subject_id ≢ none))
given-cases f h = elim (Option-cases f.restaurant_id) [
  | inr (id, e) ↦ inl (λ q. ground arith)
  | inl e ↦ inr (λ q. ground arith, λ q. ground arith)
]

-- Some rating has no more stars than any other, and some has no fewer.
least :
    (r : Rating) (rows : List Rating)
    → (x : Rating) × Elem x (r ∷ rows)
      × (x.stars * length (r ∷ rows) ≤ sum_by (λ y. y.stars) (r ∷ rows))
least r [] = (r, here refl, omega arith)
least r (q ∷ rows) =
    let (x, i, low) = least q rows in
    elim (Bool-cases (leb x.stars r.stars)) [
      | inl le ↦
          (x, there i, shared-below x.stars r.stars x.stars _ _ (ground arith) (omega arith) low)
      | inr gt ↦
          (r, here refl, shared-below r.stars r.stars x.stars _ _ (omega arith) (ground arith) low)
    ]

most :
    (r : Rating) (rows : List Rating)
    → (x : Rating) × Elem x (r ∷ rows)
      × (sum_by (λ y. y.stars) (r ∷ rows) ≤ x.stars * length (r ∷ rows))
most r [] = (r, here refl, omega arith)
most r (q ∷ rows) =
    let (x, i, high) = most q rows in
    elim (Bool-cases (leb r.stars x.stars)) [
      | inl le ↦
          (x, there i, shared-above x.stars r.stars x.stars _ _ (ground arith) (omega arith) high)
      | inr gt ↦
          (r, here refl, shared-above r.stars r.stars x.stars _ _ (omega arith) (ground arith) high)
    ]

-- So the nearest number of tenths lies between ten times the one and ten times the other.
nearest-bounds :
    (sum n a low high : ℕ)
    → 0 < n
    → low * n ≤ sum
    → sum ≤ high * n
    → IsNearest sum n a
    → (10 * low ≤ a) × (a ≤ 10 * high)
nearest-bounds sum n a low high pos from to (below, above) =
    let scaled = λ (x y : ℕ) (h : x ≤ y). mul-le-mul_right {m = x} {n = y} (2 * n) h in
    (
      elim (Bool-cases (leb (10 * low) a)) [
        | inl e ↦ ground arith
        | inr e ↦
            absurd (omega (arith, scaled (suc a) (10 * low) (ground arith), times-twice low n))
      ],
      elim (Bool-cases (leb a (10 * high))) [
        | inl e ↦ ground arith
        | inr e ↦
            absurd (omega (arith, scaled (10 * high + 1) a (ground arith), times-twice high n))
      ],
    )

-- What the parameters ask for: all ratings at a restaurant, or those of one subject.
abbrev OfSubject : Option RatingSubjectType → Option ℕ → Rating → Type 0
OfSubject (some t) (some id) r = (r.subject_type ≡ t) × (r.subject_id ≡ id)
OfSubject _ _ r = ⊥

abbrev AsksFor : Option ℕ → Option RatingSubjectType → Option ℕ → Rating → Type 0
AsksFor (some id) t subject r = r.restaurant_id ≡ id
AsksFor none t subject r = OfSubject t subject r

abbrev pub Matches : RatingsFilter → Rating → Type 0
Matches f r = AsksFor f.restaurant_id f.subject_type f.subject_id r

-- `summary` is of exactly the stored ratings that match, each once.
pub record IsSummary (f : RatingsFilter) (s : State) (c : RatingSummary) : Type 0 where
  pub rows : List Rating
  pub distinct : Distinct (λ x. x.id) rows
  pub each : All (λ x. (rating_row x.id s ≡ some x) × Matches f x) rows
  pub every : (x : Rating) → rating_row x.id s ≡ some x → Matches f x → Elem x rows
  pub count : c.count ≡ length rows
  pub average :
      ((rows ≡ []) × (c.average ≡ none))
      ⊎ ((a : ℕ) × (low : Rating) × (high : Rating) × (c.average ≡ some a)
          × IsNearest (sum_by (λ x. x.stars) rows) (length rows) a
          × Elem low rows
          × (10 * low.stars ≤ a)
          × Elem high rows
          × (a ≤ 10 * high.stars))

same_subject_type-eq : (a b : RatingSubjectType) → same_subject_type a b ≡ true → b ≡ a
same_subject_type-eq event b h = ground arith
same_subject_type-eq menu_item b h = ground arith

-- The query of the service selects exactly what matches.
asks :
    (restaurant : Option ℕ) (t : Option RatingSubjectType) (subject : Option ℕ) (r : Rating)
    → (selects (record { restaurant_id = restaurant; subject_type = t; subject_id = subject }) r
        ≡ true)
      ↔ AsksFor restaurant t subject r
asks (some id) t subject r = ==_iff r.restaurant_id id
asks none none subject r = (λ h. cc, λ h. absurd h)
asks none (some t) none r = (λ h. cc, λ h. absurd h)
asks none (some t) (some id) r = (
  λ h.
      let (a, b) = (&&_iff _ _).0 h in
      (same_subject_type-eq t r.subject_type a, (==_iff r.subject_id id).0 b),
  λ h.
      (&&_iff _ _).1
        (ap (same_subject_type t) h.0 ∙ same_subject_type_refl t, (==_iff r.subject_id id).1 h.1),
)

selects-Matches : (f : RatingsFilter) (r : Rating) → (selects f r ≡ true) ↔ Matches f r
selects-Matches f r = asks f.restaurant_id f.subject_type f.subject_id r

All-Matches :
    (f : RatingsFilter) (s : State) (rows : List Rating)
    → All (Selected (λ x. x.id) (selects f) s.ratings) rows
    → All (λ x. (rating_row x.id s ≡ some x) × Matches f x) rows
All-Matches f s [] all = tt
All-Matches f s (r ∷ rows) ((at, hit), all) =
    ((at, (selects-Matches f r).0 hit), All-Matches f s rows all)

average-lem :
    (u : Upstream) (db : Repository Rating) (rows : List Rating)
    → let c = summary_of u db rows in
      ((rows ≡ []) × (c.average ≡ none))
      ⊎ ((a : ℕ) × (low : Rating) × (high : Rating) × (c.average ≡ some a)
          × IsNearest (sum_by (λ x. x.stars) rows) (length rows) a
          × Elem low rows
          × (10 * low.stars ≤ a)
          × Elem high rows
          × (a ≤ 10 * high.stars))
average-lem u db [] = inl (refl, refl)
average-lem u db (r ∷ rows) =
    let sum = sum_by (λ x. x.stars) (r ∷ rows) in
    let n = length (r ∷ rows) in
    let (low, i, from) = least r rows in
    let (high, j, to) = most r rows in
    let near = nearest sum n (omega arith) in
    let (above, below) = nearest-bounds sum n _ low.stars high.stars (omega arith) from to near in
    inr (rounded_tenths sum n, low, high, ground arith, near, i, above, j, below)

module _ (u : Upstream) (db : Repository Rating)
    (lawful : IsRepository (λ r. r.id) same_rating db) where
  -- A summary changes nothing. It is refused exactly if it names no restaurant and not both a type and
  -- an id of a subject. Else it counts the stored ratings at the restaurant, or of the subject where no
  -- restaurant is named, each once and no others; without such ratings there is no average, and else
  -- it is the nearest number of tenths to that of their stars, and lies between the stars of two of
  -- them.
  pub summary_lem :
      (f : RatingsFilter) (s : State)
      → let (r, s') = summary u db f s in
        (s' ≡ s)
        × (((r ≡ err (bad_request filter_missing))
              × (f.restaurant_id ≡ none)
              × ((f.subject_type ≡ none) ⊎ (f.subject_id ≡ none)))
            ⊎ ((c : RatingSummary) × (r ≡ ok c)
                × ((f.restaurant_id ≢ none) ⊎ ((f.subject_type ≢ none) × (f.subject_id ≢ none)))
                × IsSummary f s c))
  unfolding summary
  summary_lem f s = elim (Bool-cases (is_missing f)) [
    | inl missing ↦ (ground arith, inl (ground arith, ground arith, ground arith))
    | inr given ↦
        let rows = db.find (selects f) s.ratings in
        (
          ground arith,
          inr (
            summary_of u db rows,
            ground arith,
            given-cases f given,
            record {
              rows = rows;
              distinct = lawful.find-Distinct (selects f) s.ratings;
              each = All-Matches f s rows (lawful.find-Selected (selects f) s.ratings);
              every = λ x at h.
                  lawful.find-Elem (selects f) s.ratings x.id x at ((selects-Matches f x).1 h);
              count = refl;
              average = average-lem u db rows;
            },
          ),
        )
  ]
