-- ===== src/Orders/Lifecycle/Methods.antt =====
-- `cancel` and `confirmPayment` on every branch.
use ceylon_events.Common.{
  no_clash, ℕ, ◌≡◌, refl, ◌∙◌, sym, ◌⊎◌, inl, inr, ◌≢◌, Bool, true, false, Option, none, some, List,
  [], ◌∷◌, arith, is_some, keep, ok, err, bad_request, forbidden, not_found, IsRepository, row,
  find_one-key, Option-cases, Bool-cases, Result-cases,
}
use ceylon_events.Shared.{
  OrderStatus, pending, paid, confirmed, cancelled, refunded, JwtAccessPayload, order_confirmed,
  order_cancelled,
}
use ceylon_events.Orders.Types.{
  Order, OrderItem, State, order_not_found, may_not_cancel_order, only_pending_cancelled,
  cannot_confirm,
}
use ceylon_events.Orders.Upstream.{Upstream, Database, notify_buyer, fetch_event, release_seat_hold}
use ceylon_events.Orders.Lifecycle.{
  can_access_order, with_items, find_order, save_order, release_seats, release_on, release_all,
  cancel, confirm_payment, notice_of,
}

abbrev pub order_at : {W : Type 0} → ℕ → State W → Option Order
order_at k s = row (λ o. o.id) k s.orders

status-cases :
    (st : OrderStatus) → (st ≡ pending) ⊎ (st ≡ confirmed) ⊎ ((st ≢ pending) × (st ≢ confirmed))
status-cases pending = inl refl
status-cases confirmed = inr (inl refl)
status-cases paid = inr (inr (λ e. cc, λ e. cc))
status-cases cancelled = inr (inr (λ e. cc, λ e. cc))
status-cases refunded = inr (inr (λ e. cc, λ e. cc))

module _ {W : Type 0} (u : Upstream W) (db : Database) where
  release_all-tables :
      (v : ℕ) (items : List OrderItem) (s : State W)
      → ((release_all u db v items s).orders ≡ s.orders)
        × ((release_all u db v items s).items ≡ s.items)
  unfolding release_all release_seat_hold
  release_all-tables v [] s = (refl, refl)
  release_all-tables v (item ∷ items) s = elim (Option-cases item.seat_id) [
    | inl e ↦ ground (arith, release_all-tables v items s)
    | inr (seat, e) ↦ ground (arith, release_all-tables v items (release_seat_hold u v seat s))
  ]

  pub release_seats-tables :
      (order : Order) (items : List OrderItem) (s : State W)
      → ((release_seats u db order items s).orders ≡ s.orders)
        × ((release_seats u db order items s).items ≡ s.items)
  unfolding release_seats release_on
  release_seats-tables order items s =
      elim (Result-cases (fetch_event (u.get_event order.event_id))) [
        | inr (e, q) ↦ ground arith
        | inl (event, q) ↦ elim (Option-cases event.seat_map_version_id) [
          | inl e ↦ ground arith
          | inr (v, e) ↦ ground (arith, release_all-tables v items s)
        ]
      ]

  module _ (lawful : IsRepository (λ o. o.id) no_clash db.orders) where
    found_at : (id : ℕ) (s : State W) → find_order u db id s ≡ order_at id s
    found_at id s = find_one-key (λ o. o.id) lawful id s.orders

    -- Confirming a payment: an unknown order is refused; a confirmed one is returned again and
    -- nothing changes; a pending one becomes confirmed, the buyer is told, and nothing else
    -- changes; any other is refused. A refusal changes nothing.
    pub confirm_payment_lem :
        (configured : Bool) (id : ℕ) (s : State W)
        → let (r, s') = confirm_payment u db configured id s in
          ((order_at id s ≡ none) × (r ≡ err (not_found order_not_found)) × (s' ≡ s))
          ⊎ ((o : Order) × (order_at id s ≡ some o)
              × (((o.status ≡ confirmed) × (r ≡ ok (with_items u db o s)) × (s' ≡ s))
                  ⊎ ((o.status ≡ pending)
                      × (r ≡ ok (with_items u db (record o { status = confirmed }) s))
                      × (s'
                          ≡ notify_buyer u configured
                              (notice_of (record o { status = confirmed }) order_confirmed)
                              (save_order u db (record o { status = confirmed }) s)))
                  ⊎ ((o.status ≢ pending)
                      × (o.status ≢ confirmed)
                      × (r ≡ err (bad_request (cannot_confirm o.status)))
                      × (s' ≡ s))))
    unfolding confirm_payment
    confirm_payment_lem configured id s = elim (Option-cases (find_order u db id s)) [
      | inl e ↦ inl (sym (found_at id s) ∙ e, ground arith, ground arith)
      | inr (o, e) ↦ inr (
        o,
        sym (found_at id s) ∙ e,
        elim (status-cases o.status) [
          | inl q ↦ inr (inl (q, ground arith, ground arith))
          | inr (inl q) ↦ inl (q, ground arith, ground arith)
          | inr (inr (p, q)) ↦ inr (inr (p, q, ground arith, ground arith))
        ],
      )
    ]

    -- Cancelling: an unknown order, a caller who is neither its buyer nor an administrator, and an
    -- order that is not pending are refused, and nothing changes. Else the order becomes
    -- cancelled, the seats of its items are released if its event and map are known, and the
    -- buyer is told; no other order, item or promo code changes.
    pub cancel_lem :
        (configured : Bool) (id : ℕ) (caller : JwtAccessPayload) (s : State W)
        → let (r, s') = cancel u db configured id caller s in
          ((order_at id s ≡ none) × (r ≡ err (not_found order_not_found)) × (s' ≡ s))
          ⊎ ((o : Order) × (order_at id s ≡ some o)
              × (((can_access_order caller o ≡ false)
                    × (r ≡ err (forbidden may_not_cancel_order))
                    × (s' ≡ s))
                  ⊎ ((can_access_order caller o ≡ true)
                      × (o.status ≢ pending)
                      × (r ≡ err (bad_request only_pending_cancelled))
                      × (s' ≡ s))
                  ⊎ ((can_access_order caller o ≡ true)
                      × (o.status ≡ pending)
                      × (r ≡ ok (with_items u db (record o { status = cancelled }) s))
                      × (s'.orders ≡ db.orders.save (record o { status = cancelled }) s.orders)
                      × (s'.items ≡ s.items)
                      × (s'
                          ≡ notify_buyer u configured
                              (notice_of (record o { status = cancelled }) order_cancelled)
                              (release_seats u db
                                (record o { status = cancelled })
                                (keep
                                  (λ i. is_some i.seat_id)
                                  (with_items u db (record o { status = cancelled }) s).items)
                                (save_order u db (record o { status = cancelled }) s))))))
    unfolding cancel
    cancel_lem configured id caller s = elim (Option-cases (find_order u db id s)) [
      | inl e ↦ inl (sym (found_at id s) ∙ e, ground arith, ground arith)
      | inr (o, e) ↦ inr (
        o,
        sym (found_at id s) ∙ e,
        elim (Bool-cases (can_access_order caller o)) [
          | inr no_access ↦ inl (no_access, ground arith, ground arith)
          | inl access ↦ elim (status-cases o.status) [
            | inr (inl q) ↦ inr (inl (access, λ p. ground arith, ground arith, ground arith))
            | inr (inr (p, q)) ↦ inr (inl (access, p, ground arith, ground arith))
            | inl q ↦
                let o' : Order = record o { status = cancelled } in
                let s1 = save_order u db o' s in
                let seats = keep (λ i. is_some i.seat_id) (with_items u db o' s).items in
                let frame = release_seats-tables o' seats s1 in
                inr (
                  inr (
                    access,
                    q,
                    ground (arith, frame),
                    ground (arith, frame),
                    ground (arith, frame),
                    ground arith,
                  ))
          ]
        ],
      )
    ]
