-- ===== src/Payments/Service/Webhook/Delivery.antt =====
-- PayHere may deliver a notification again, and anybody may post one.
use ceylon_events.Common.{
  ℕ, ◌≡◌, refl, ◌≢◌, ap, subst, sym, ◌∙◌, ◌⊎◌, inl, inr, true, false, ◌||◌, Option, none, some,
  List, [], ◌∷◌, arith, ◌==◌, if◌then◌else◌, str_eq, Exception, ok, err, bad_request, IsRepository,
  row, Option-cases, is_some, keep, Bool-cases,
}
use ceylon_events.Shared.{approved}
use ceylon_events.Payments.Types.{
  Payment, PayHereIpn, UpstreamOrder, UpstreamOrderItem, Upstream, Database, State, same_order,
  Reason, invalid_signature,
}
use ceylon_events.Payments.Service.{
  Config, find_payment, confirm_result, mark_order, mark_on, mark_seats,
  orchestrate_order_confirmation, confirm_order_internal, is_failure_code, version_of,
  fetch_event_public,
}
use ceylon_events.Payments.Service.Webhook.{
  approved_by, signature_valid, accept, settle, handle_webhook,
}

abbrev pub payment_row : {W : Type 0} → ℕ → State W → Option Payment
payment_row k s = row (λ p. p.id) k s.payments

-- There is one payment for an order, as the unique constraint demands.
pub record IsValid {W : Type 0} (s : State W) : Type 0 where
  pub one_each :
      (j k : ℕ) (x y : Payment)
      → payment_row j s ≡ some x
      → payment_row k s ≡ some y
      → x.order_id ≡ y.order_id
      → j ≡ k

module _ {W : Type 0} (config : Config) (u : Upstream W) (db : Database) where
  -- A notification whose signature does not verify is refused; one for an order that has no payment
  -- or an approved one, and one with a code that is neither success nor failure, is answered. None
  -- of these changes anything.
  handle_webhook-ignored :
      (dto : PayHereIpn) (s : State W)
      → (signature_valid config dto ≡ false)
        ⊎ ((id : ℕ) × (signature_valid config dto ≡ true)
            × (config.read_uuid dto.order_id ≡ some id)
            × ((find_payment config u db id s ≡ none)
                ⊎ ((p : Payment) × (find_payment config u db id s ≡ some p)
                    × ((p.status ≡ approved)
                        ⊎ ((str_eq dto.status_code "2" || is_failure_code dto.status_code)
                            ≡ false)))))
      → handle_webhook config u db dto s
        ≡ (if signature_valid config dto then ok tt else err (bad_request invalid_signature), s)
  unfolding handle_webhook
  handle_webhook-ignored dto s (inl forged) = ground arith
  handle_webhook-ignored dto s (inr (id, signed, reads, inl e)) = ground arith
  handle_webhook-ignored dto s (inr (id, signed, reads, inr (p, e, inl q))) = ground arith
  handle_webhook-ignored dto s (inr (id, signed, reads, inr (p, e, inr q))) = ground arith

  mark_seats-payments :
      (v order_id : ℕ) (items : List UpstreamOrderItem) (s : State W)
      → (mark_seats config u db v order_id items s).payments ≡ s.payments
  unfolding mark_seats
  mark_seats-payments v order_id [] s = refl
  mark_seats-payments v order_id (item ∷ items) s = elim (Option-cases item.seat_id) [
    | inl e ↦ ground (arith, mark_seats-payments v order_id items s)
    | inr (seat, e) ↦ ground (
      arith,
      mark_seats-payments v order_id items
          (record s { world = (u.post_mark_sold v seat order_id s.world).1 }),
    )
  ]

  mark_on-payments :
      (version : Option ℕ) (order_id : ℕ) (items : List UpstreamOrderItem) (s : State W)
      → (mark_on config u db version order_id items s).payments ≡ s.payments
  unfolding mark_on
  mark_on-payments none order_id items s = refl
  mark_on-payments (some v) order_id items s = mark_seats-payments v order_id items s

  pub mark_order-payments :
      (order_id : ℕ) (order : UpstreamOrder) (s : State W)
      → (mark_order config u db order_id order s).payments ≡ s.payments
  unfolding mark_order
  mark_order-payments order_id order s =
      mark_on-payments (version_of (fetch_event_public (u.get_event order.event_id s.world)))
        order_id (keep (λ i. is_some i.seat_id) order.items) s

  module _ (lawful : IsRepository (λ p. p.id) same_order db.payments) where
    -- The payment of an order, once saved again, is what the next lookup for the order finds.
    find_payment-save :
        (id : ℕ) (p p' : Payment) (s : State W)
        → IsValid s
        → find_payment config u db id s ≡ some p
        → p'.id ≡ p.id
        → p'.order_id ≡ p.order_id
        → db.payments.find_one (λ x. x.order_id == id) (db.payments.save p' s.payments) ≡ some p'
    find_payment-save id p p' s valid e same_id same_order_id =
        let table = db.payments.save p' s.payments in
        let (at, mine) = lawful.find_one-some (λ x. x.order_id == id) s.payments p e in
        elim (Option-cases (db.payments.find_one (λ x. x.order_id == id) table)) [
          | inl none_left ↦ absurd (
              ground (
                arith,
                lawful.find_one-none (λ x. x.order_id == id) table p.id p' none_left,
                lawful.row-save p' s.payments p.id,
              ))
          | inr (q, found) ↦
              let (at', his) = lawful.find_one-some (λ x. x.order_id == id) table q found in
              let law = lawful.row-save p' s.payments q.id in
              elim (Bool-cases (p'.id == q.id)) [
                | inl hit ↦ ground (arith, law)
                | inr miss ↦
                    let old : payment_row q.id s ≡ some q = ground (arith, law) in
                    absurd (ground (arith, valid.one_each q.id p.id q p old at))
              ]
        ]

    -- Where the order cannot be confirmed, the delivery fails after the payment is saved as
    -- approved; PayHere delivers again, and that delivery is answered with nothing done. So the
    -- order is not confirmed, however often the notification comes.
    pub handle_webhook-lost :
        (dto : PayHereIpn) (s : State W) (id : ℕ) (p : Payment) (e : Exception Reason)
        → IsValid s
        → signature_valid config dto ≡ true
        → config.read_uuid dto.order_id ≡ some id
        → find_payment config u db id s ≡ some p
        → p.status ≢ approved
        → str_eq dto.status_code "2" ≡ true
        → confirm_result (u.patch_confirm_payment p.order_id s.world).0 ≡ err e
        → let (r, s') = handle_webhook config u db dto s in
          (r ≡ err e)
          × (payment_row p.id s' ≡ some (approved_by dto p))
          × (handle_webhook config u db dto s' ≡ (ok tt, s'))
    unfolding handle_webhook settle accept orchestrate_order_confirmation confirm_order_internal
    handle_webhook-lost dto s id p e valid signed reads found open_payment success fails =
        let s1 : State W = record s {
          payments = db.payments.save (approved_by dto p) s.payments;
          world = (u.patch_confirm_payment p.order_id s.world).1;
        } in
        let first : handle_webhook config u db dto s ≡ (err e, s1) = ground arith in
        let again : handle_webhook config u db dto s1 ≡ (ok tt, s1) =
          ground (arith, find_payment-save id p (approved_by dto p) s valid found refl refl) in
        (
          ap (λ x. x.0) first,
          ap (λ x. payment_row p.id x.1) first
              ∙ ground (arith, lawful.row-save (approved_by dto p) s.payments p.id),
          subst (λ x. handle_webhook config u db dto x ≡ (ok tt, x)) (sym (ap (λ x. x.1) first))
              again,
        )
