-- ===== src/Orders/Lifecycle/Status.antt =====
-- The life of an order over any history of cancellations and confirmed payments.
use ceylon_events.Common.{
  no_clash, ℕ, ◌≡◌, refl, ◌∙◌, sym, ap, ◌⊎◌, inl, inr, ◌≢◌, Bool, Option, some, List, [], ◌∷◌,
  arith, ◌==◌, if◌then◌else◌, ok, err, bad_request, IsRepository, row, row-key, subst, Bool-cases,
}
use ceylon_events.Shared.{
  OrderStatus, pending, confirmed, cancelled, is_cancelled_order, JwtAccessPayload,
}
use ceylon_events.Orders.Types.{Order, State, cannot_confirm}
use ceylon_events.Orders.Upstream.{Upstream, Database, notify_buyer}
use ceylon_events.Orders.Lifecycle.{with_items, cancel, confirm_payment}
use ceylon_events.Orders.Lifecycle.Methods.{order_at, confirm_payment_lem, cancel_lem}

pub data Request : Type 0 where
  cancels : Bool → ℕ → JwtAccessPayload → Request
  confirms : Bool → ℕ → Request

-- The changes of status that the service makes.
pub data Moves : OrderStatus → OrderStatus → Type 0 where
  stays : {st : OrderStatus} → Moves st st
  is_confirmed : Moves pending confirmed
  is_cancelled : Moves pending cancelled

module _ {W : Type 0} (u : Upstream W) (db : Database) where
  pub serve : Request → State W → State W
  serve (cancels configured id caller) s = (cancel u db configured id caller s).1
  serve (confirms configured id) s = (confirm_payment u db configured id s).1

  pub serve_all : List Request → State W → State W
  serve_all [] s = s
  serve_all (r ∷ rs) s = serve_all rs (serve r s)

  -- What a request, or a history, makes of an order.
  abbrev pub Becomes : Order → Option Order → Type 0
  Becomes o found =
      (st : OrderStatus) × (found ≡ some (record o { status = st })) × Moves o.status st

  Becomes-same : (o : Order) (found : Option Order) → found ≡ some o → Becomes o found
  Becomes-same o found e = (o.status, e, stays)

  module _ (lawful : IsRepository (λ o. o.id) no_clash db.orders) where
    -- Saving a pending order `p`, found under `id`, with another status.
    saved-Becomes :
        (k id : ℕ) (st : OrderStatus) (p o : Order) (s : State W) (table : List Order)
        → order_at id s ≡ some p
        → p.status ≡ pending
        → Moves pending st
        → table ≡ db.orders.save (record p { status = st }) s.orders
        → order_at k s ≡ some o
        → Becomes o (row (λ x. x.id) k table)
    saved-Becomes k id st p o s table at is_pending moves saved here =
        let law = lawful.row-save (record p { status = st }) s.orders k in
        elim (Bool-cases (p.id == k)) [
          | inr ne ↦ Becomes-same o _ (ground (arith, law))
          | inl eq ↦
              let same : p ≡ o = ground (arith, row-key (λ x. x.id) s.orders id p at) in
              (
                st,
                ground (arith, law),
                subst (λ x. Moves x st) (sym is_pending ∙ ap (λ x. x.status) same) moves,
              )
        ]

    serve-Becomes :
        (r : Request) (k : ℕ) (o : Order) (s : State W)
        → order_at k s ≡ some o
        → Becomes o (order_at k (serve r s))
    unfolding serve
    serve-Becomes (confirms configured id) k o s here =
        elim (confirm_payment_lem u db lawful configured id s) [
          | inl (e, r, same) ↦ Becomes-same o _ (ap (order_at k) same ∙ here)
          | inr (p, at, inl (q, r, same)) ↦ Becomes-same o _ (ap (order_at k) same ∙ here)
          | inr (p, at, inr (inr (q, q', r, same))) ↦ Becomes-same o _ (ap (order_at k) same ∙ here)
          | inr (p, at, inr (inl (q, r, next))) ↦
              saved-Becomes k id confirmed p o s _ at q is_confirmed
                (unfold notify_buyer in ground arith) here
        ]
    serve-Becomes (cancels configured id caller) k o s here =
        elim (cancel_lem u db lawful configured id caller s) [
          | inl (e, r, same) ↦ Becomes-same o _ (ap (order_at k) same ∙ here)
          | inr (p, at, inl (a, r, same)) ↦ Becomes-same o _ (ap (order_at k) same ∙ here)
          | inr (p, at, inr (inl (a, q, r, same))) ↦ Becomes-same o _ (ap (order_at k) same ∙ here)
          | inr (p, at, inr (inr (a, q, r, saved, items, next))) ↦
              saved-Becomes k id cancelled p o s _ at q is_cancelled saved here
        ]

    Moves-trans : {a b c : OrderStatus} → Moves a b → Moves b c → Moves a c
    Moves-trans stays n = n
    Moves-trans is_confirmed stays = is_confirmed
    Moves-trans is_cancelled stays = is_cancelled

    -- Over any history an order keeps its buyer, event, prices and total, and its status stays or
    -- moves once, from pending to confirmed or from pending to cancelled.
    pub serve_all-Becomes :
        (rs : List Request) (k : ℕ) (o : Order) (s : State W)
        → order_at k s ≡ some o
        → Becomes o (order_at k (serve_all rs s))
    unfolding serve_all
    serve_all-Becomes [] k o s here = Becomes-same o _ here
    serve_all-Becomes (r ∷ rs) k o s here =
        let (st, at, m) = serve-Becomes r k o s here in
        let (st', at', m') = serve_all-Becomes rs k (record o { status = st }) (serve r s) at in
        (st', at', Moves-trans m m')

    settled : {a b : OrderStatus} → Moves a b → a ≢ pending → b ≡ a
    settled stays ne = refl
    settled is_confirmed ne = absurd (ne refl)
    settled is_cancelled ne = absurd (ne refl)

    -- Once an order is cancelled or confirmed, then after any history nobody can cancel it, and a
    -- confirmation of its payment changes nothing: it is refused for the cancelled order, and
    -- returns the confirmed one again.
    pub settled_forever :
        (rs : List Request) (configured : Bool) (k : ℕ) (caller : JwtAccessPayload) (o : Order)
        (s : State W)
        → order_at k s ≡ some o
        → (o.status ≡ cancelled) ⊎ (o.status ≡ confirmed)
        → let s' = serve_all rs s in
          (confirm_payment u db configured k s' ≡ (
            if is_cancelled_order o.status
                then err (bad_request (cannot_confirm cancelled))
                else ok (with_items u db o s'),
            s',
          ))
          × ((cancel u db configured k caller s').1 ≡ s')
    settled_forever rs configured k caller o s here why =
        let s' = serve_all rs s in
        let (st, at, m) = serve_all-Becomes rs k o s here in
        let same = settled m (λ p. elim why [ inl c ↦ ground arith | inr c ↦ ground arith ]) in
        (
          elim (confirm_payment_lem u db lawful configured k s') [
            | inl (e, r, q) ↦ ground arith
            | inr (p, e, inl (x, r, q)) ↦ elim why [ inl c ↦ ground arith | inr c ↦ ground arith ]
            | inr (p, e, inr (inl (x, r, q))) ↦ elim why [
              | inl c ↦ ground arith
              | inr c ↦ ground arith
            ]
            | inr (p, e, inr (inr (x, y, r, q))) ↦ elim why [
              | inl c ↦ ground arith
              | inr c ↦ ground arith
            ]
          ],
          elim (cancel_lem u db lawful configured k caller s') [
            | inl (e, r, q) ↦ q
            | inr (p, e, inl (x, r, q)) ↦ q
            | inr (p, e, inr (inl (x, y, r, q))) ↦ q
            | inr (p, e, inr (inr (x, y, r, q, i, n))) ↦ elim why [
              | inl c ↦ ground arith
              | inr c ↦ ground arith
            ]
          ],
        )
