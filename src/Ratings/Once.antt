-- ===== src/Ratings/Once.antt =====
-- A buyer rates a subject of an order once.
use mathlib.Core.Option
use ceylon_events.Common.{
  ℕ, ◌≡◌, ◌∙◌, ap, subst, inl, inr, Bool, true, not, ◌&&◌, none, some, List, [], ◌∷◌, arith, ◌==◌,
  if◌then◌else◌, Exception, ok, err, All, IsRepository, Repository, row-key, insert-fresh_row,
}
use ceylon_events.Shared.{same_subject_type, JwtAccessPayload}
use ceylon_events.Ratings.Types.{Rating, CreateRating, Upstream, State, Reason, same_rating}
use ceylon_events.Ratings.{create, delete}
use ceylon_events.Ratings.Earned.{rating_row, IsWritten, IsEarned, IsWritten-IsEarned, create-cases}

-- What changes the ratings, with the time of a creation.
pub data Request : Type 0 where
  creates : CreateRating → JwtAccessPayload → ℕ → ℕ → Request
  deletes : ℕ → JwtAccessPayload → Request

abbrev pub leaves : ℕ → Request → Bool
leaves k (creates dto caller authorization now) = true
leaves k (deletes id caller) = not (id == k)

-- The same subject on the same order.
abbrev pub is_again : CreateRating → CreateRating → Bool
is_again a b =
    a.order_id == b.order_id
    && same_subject_type a.subject_type b.subject_type
    && a.subject_id == b.subject_id

module _ (u : Upstream) (db : Repository Rating) where
  pub serve : Request → State → State
  serve (creates dto caller authorization now) s = (create u db dto caller authorization now s).1
  serve (deletes id caller) s = (delete u db id caller s).1

  pub serve_all : List Request → State → State
  serve_all [] s = s
  serve_all (r ∷ rs) s = serve_all rs (serve r s)

  module _ (lawful : IsRepository (λ r. r.id) same_rating db) where
    serve-rating_row :
        (k : ℕ) (x : Rating) (r : Request) (s : State)
        → leaves k r ≡ true
        → rating_row k s ≡ some x
        → rating_row k (serve r s) ≡ some x
    unfolding serve Option.bind
    serve-rating_row k x (creates dto caller authorization now) s stays at =
        elim (create-cases u db dto caller authorization now s) [
          | inl (e, failed, same) ↦ ap (rating_row k) same ∙ at
          | inr (y, done, written) ↦
              let new : y.id ≡ db.fresh s.ratings = ap (λ z. z.id) written.made in
              (insert-fresh_row (λ r. r.id) lawful y s.ratings _ new written.inserted).1 k x at
        ]
    serve-rating_row k x (deletes id caller) s stays at =
        let left : rating_row k (record s { ratings = db.remove (λ r. r.id == id) s.ratings })
            ≡ (if x.id == id then none else some x) =
          lawful.row-remove (λ r. r.id == id) s.ratings k
          ∙ ap (λ o. Option.bind o (λ y. if y.id == id then none else some y)) at in
        unfold delete in ground (arith, left, row-key (λ r. r.id) s.ratings k x at)

    serve_all-rating_row :
        (k : ℕ) (x : Rating) (rs : List Request) (s : State)
        → All (λ r. leaves k r ≡ true) rs
        → rating_row k s ≡ some x
        → rating_row k (serve_all rs s) ≡ some x
    unfolding serve_all
    serve_all-rating_row k x [] s stay at = at
    serve_all-rating_row k x (r ∷ rs) s (stays, stay) at =
        serve_all-rating_row k x rs (serve r s) stay (serve-rating_row k x r s stays at)

    -- A rating that was written is stored as it was sent, under the caller's name and the event's
    -- restaurant; it is on the caller's own confirmed order, for an event that has started, and of
    -- that event or of a dish that was ordered ahead for an item of the order. Until it is deleted,
    -- whatever else is written or deleted, the caller's attempts to rate the same subject on the order
    -- again are refused and change nothing.
    pub rated_once :
        (dto dto' : CreateRating) (caller caller' : JwtAccessPayload)
        (authorization authorization' now now' : ℕ) (rating : Rating) (s s' : State)
        (rs : List Request)
        → create u db dto caller authorization now s ≡ (ok rating, s')
        → All (λ r. leaves rating.id r ≡ true) rs
        → is_again dto' dto ≡ true
        → (caller'.sub == caller.sub) ≡ true
        → let s'' = serve_all rs s' in
          IsEarned u db dto caller authorization now rating s'
          × ((e : Exception Reason) × (create u db dto' caller' authorization' now' s''
                ≡ (err e, s'')))
    rated_once dto dto' caller caller' authorization authorization' now now' rating s s' rs h stay
          again same_caller =
        let s'' = serve_all rs s' in
        elim (create-cases u db dto caller authorization now s) [
          | inl (e, failed, same) ↦ absurd (ground arith)
          | inr (x, done, written) ↦
              let x_is : x ≡ rating = ground arith in
              let state : (create u db dto caller authorization now s).1 ≡ s' = ap (λ z. z.1) h in
              let written' : IsWritten u db dto caller authorization now rating s s' =
                subst (λ z. IsWritten u db dto caller authorization now rating s z) state
                  (subst
                    (λ y.
                      IsWritten u db dto caller authorization now y s
                        (create u db dto caller authorization now s).1)
                    x_is written) in
              let new : rating.id ≡ db.fresh s.ratings = ap (λ z. z.id) written'.made in
              let at =
                (insert-fresh_row (λ r. r.id) lawful rating s.ratings s'.ratings new
                  written'.inserted).0 in
              let at'' = serve_all-rating_row rating.id rating rs s' stay at in
              (
                IsWritten-IsEarned u db dto caller authorization now rating s s' at written',
                elim (create-cases u db dto' caller' authorization' now' s'') [
                  | inl (e, failed, same) ↦ (
                    e,
                    ap (λ z. (z, (create u db dto' caller' authorization' now' s'').1)) failed
                        ∙ ap (λ z. (err e, z)) same,
                  )
                  | inr (y, done', written'') ↦
                      let free =
                        lawful.insert-clash y s''.ratings _ rating.id rating written''.inserted
                          at'' in
                      absurd (ground (arith, free, written''.made, written'.made))
                ],
              )
        ]
