-- ===== src/Payments/Service/Webhook/Paid.antt =====
-- A notification of success, and what it leads to at the other services.
use Prim.Native.String.{◌++◌}
use ceylon_events.Common.{
  ℕ, ◌≡◌, refl, ◌≢◌, ap, subst, sym, ◌∙◌, inl, inr, true, false, Option, none, some, List, [], ◌∷◌,
  keep, Elem, here, there, Elem-keep, arith, ◌==◌, is_some, str_eq, str_eq_iff, ok, body,
  IsRepository, Option-cases,
}
use ceylon_events.Shared.{approved}
use ceylon_events.Payments.Types.{
  Payment, PayHereIpn, UpstreamOrder, UpstreamOrderItem, UpstreamEvent, Upstream, Database, State,
  same_order,
}
use ceylon_events.Payments.PayHere.{verify_ipn_signature}
use ceylon_events.Payments.Service.{
  Config, find_payment, confirm_result, mark_order, mark_on, mark_seats,
  orchestrate_order_confirmation, confirm_order_internal, fetch_order_internal, version_of,
  fetch_event_public,
}
use ceylon_events.Payments.Service.Webhook.{
  approved_by, signature_valid, accept, settle, handle_webhook,
}
use ceylon_events.Payments.Service.Webhook.Delivery.{payment_row, IsValid, mark_order-payments}

-- The signature is the digest, in upper case, of the notification and the digest of the merchant's secret.
abbrev pub IsSigned : Config → PayHereIpn → Type 0
IsSigned config dto =
    config.to_upper (
      config.md5 (
        config.merchant_id
        ++ dto.order_id
        ++ dto.payhere_amount
        ++ dto.payhere_currency
        ++ dto.status_code
        ++ config.to_upper (config.md5 config.merchant_secret)))
    ≡ config.to_upper dto.md5sig

-- `Confirmed` holds of an order from a confirmation on that order-service answers with success, and
-- `Marked` of a seat from the request on that asks venue-service to mark it sold to the order.
pub record Remembers {W : Type 0} (u : Upstream W) (Confirmed : ℕ → W → Type 0)
    (Marked : ℕ → ℕ → ℕ → W → Type 0) : Type 0 where
  pub confirms :
      (order : ℕ) (w : W)
      → (u.patch_confirm_payment order w).0 ≡ body tt
      → Confirmed order (u.patch_confirm_payment order w).1
  pub marks : (v seat order : ℕ) (w : W) → Marked v seat order (u.post_mark_sold v seat order w).1
  pub confirmed_stays :
      (o v seat order : ℕ) (w : W) → Confirmed o w → Confirmed o (u.post_mark_sold v seat order w).1
  pub marked_stays :
      (v' seat' o v seat order : ℕ) (w : W)
      → Marked v' seat' o w
      → Marked v' seat' o (u.post_mark_sold v seat order w).1

-- If the event has a map, then each seat of the order is `P` on its version.
abbrev pub SeatsAre : (ℕ → ℕ → Type 0) → UpstreamEvent → UpstreamOrder → Type 0
SeatsAre P event order =
    (v seat : ℕ) (item : UpstreamOrderItem)
    → event.seat_map_version_id ≡ some v
    → Elem item order.items
    → item.seat_id ≡ some seat
    → P v seat

-- The payment is approved, with PayHere's id, and nothing else of it or of the others is changed.
pub record IsApproved {W : Type 0} (dto : PayHereIpn) (p : Payment) (s s' : State W) : Type 0 where
  pub payment : Payment
  pub stored : payment_row p.id s' ≡ some payment
  pub status : payment.status ≡ approved
  pub payhere_payment_id : payment.payhere_payment_id ≡ dto.payment_id
  pub order_id : payment.order_id ≡ p.order_id
  pub buyer_id : payment.buyer_id ≡ p.buyer_id
  pub amount : payment.amount_minor_units ≡ p.amount_minor_units
  pub currency : payment.currency ≡ p.currency
  pub method : payment.method ≡ p.method
  pub others : (k : ℕ) → (p.id == k) ≡ false → payment_row k s' ≡ payment_row k s
  pub proofs : s'.proofs ≡ s.proofs

module _ {W : Type 0} (config : Config) (u : Upstream W) (db : Database) where
  -- What each request to mark a seat keeps is kept.
  mark_seats-stays :
      (P : State W → Type 0) (v order_id : ℕ)
      → ((seat : ℕ) (s : State W)
          → P s
          → P (record s { world = (u.post_mark_sold v seat order_id s.world).1 }))
      → (items : List UpstreamOrderItem) (s : State W) → P s
      → P (mark_seats config u db v order_id items s)
  unfolding mark_seats
  mark_seats-stays P v order_id stays [] s h = h
  mark_seats-stays P v order_id stays (item ∷ items) s h = elim (Option-cases item.seat_id) [
    | inl e ↦ rw e (mark_seats-stays P v order_id stays items s h)
    | inr (seat, e) ↦ rw e (mark_seats-stays P v order_id stays items _ (stays seat s h))
  ]

  mark_order-stays :
      (P : State W → Type 0) (order_id : ℕ)
      → ((v seat : ℕ) (s : State W)
          → P s
          → P (record s { world = (u.post_mark_sold v seat order_id s.world).1 }))
      → (order : UpstreamOrder) (s : State W) → P s
      → P (mark_order config u db order_id order s)
  unfolding mark_order mark_on
  mark_order-stays P order_id stays order s h =
      go (version_of (fetch_event_public (u.get_event order.event_id s.world)))
    where
      go :
          (version : Option ℕ)
          → P (mark_on config u db version order_id (keep (λ i. is_some i.seat_id) order.items) s)
      go none = h
      go (some v) =
          mark_seats-stays P v order_id (stays v) (keep (λ i. is_some i.seat_id) order.items) s h

  module _ {Confirmed : ℕ → W → Type 0} {Marked : ℕ → ℕ → ℕ → W → Type 0}
      (memory : Remembers u Confirmed Marked) where
    mark_seats-Marked :
        (v order_id seat : ℕ) (item : UpstreamOrderItem) (items : List UpstreamOrderItem)
        (s : State W)
        → Elem item items
        → item.seat_id ≡ some seat
        → Marked v seat order_id (mark_seats config u db v order_id items s).world
    unfolding mark_seats
    mark_seats-Marked v order_id seat item [] s i e = elim i [ ]
    mark_seats-Marked v order_id seat item (x ∷ items) s (here q) e =
        rw (ap (λ z. z.seat_id) q ∙ e) (
          mark_seats-stays (λ z. Marked v seat order_id z.world) v order_id
            (λ seat' z. memory.marked_stays v seat order_id v seat' order_id z.world) items _
            (memory.marks v seat order_id s.world))
    mark_seats-Marked v order_id seat item (x ∷ items) s (there i) e =
        mark_seats-Marked v order_id seat item items _ i e

    mark_order-Marked :
        (order_id v seat : ℕ) (order : UpstreamOrder) (event : UpstreamEvent)
        (item : UpstreamOrderItem) (s : State W)
        → u.get_event order.event_id s.world ≡ body event
        → event.seat_map_version_id ≡ some v
        → Elem item order.items
        → item.seat_id ≡ some seat
        → Marked v seat order_id (mark_order config u db order_id order s).world
    unfolding mark_order mark_on fetch_event_public
    mark_order-Marked order_id v seat order event item s answered version i e = rw answered (
        rw version (
          mark_seats-Marked v order_id seat item _ s
            (Elem-keep (λ x. is_some x.seat_id) order.items item i (ap is_some e)) e))

    -- With one payment for an order, the payment that is stored for it is the one found.
    find_payment-row :
        (lawful : IsRepository (λ p. p.id) same_order db.payments) (id : ℕ) (p : Payment)
        (s : State W)
        → IsValid s
        → payment_row p.id s ≡ some p
        → p.order_id ≡ id
        → find_payment config u db id s ≡ some p
    find_payment-row lawful id p s valid at of_order =
        elim (Option-cases (find_payment config u db id s)) [
          | inl e ↦
              absurd (
                ground (arith, lawful.find_one-none (λ x. x.order_id == id) s.payments p.id p e at))
          | inr (q, e) ↦
              let (at', his) = lawful.find_one-some (λ x. x.order_id == id) s.payments q e in
              ground (arith, valid.one_each q.id p.id q p at' at)
        ]

    -- Where no order has two payments, a notification of success is signed, its order has a payment
    -- that is not approved yet, order-service confirms the order and returns it, and its event is
    -- found: the notification is answered; the payment is approved, with PayHere's id, and else it
    -- and every other payment and every proof are as before; the confirmation was sent; and if the
    -- event has a map, venue-service was asked to mark each seat of the order sold on it.
    pub handle_webhook-paid :
        (lawful : IsRepository (λ p. p.id) same_order db.payments) (dto : PayHereIpn) (s : State W)
        (p : Payment) (order : UpstreamOrder) (event : UpstreamEvent)
        → IsValid s
        → IsSigned config dto
        → dto.status_code ≡ "2"
        → config.read_uuid dto.order_id ≡ some p.order_id
        → payment_row p.id s ≡ some p
        → p.status ≢ approved
        → let confirmed = u.patch_confirm_payment p.order_id s.world in
          confirmed.0 ≡ body tt
          → u.get_order_internal p.order_id confirmed.1 ≡ body order
          → u.get_event order.event_id confirmed.1 ≡ body event
          → let (r, s') = handle_webhook config u db dto s in
            (r ≡ ok tt)
            × IsApproved dto p s s'
            × Confirmed p.order_id s'.world
            × SeatsAre (λ v seat. Marked v seat p.order_id s'.world) event order
    unfolding handle_webhook settle accept orchestrate_order_confirmation confirm_order_internal
        confirm_result fetch_order_internal verify_ipn_signature
    handle_webhook-paid lawful dto s p order event valid signed success reads at open_payment
          confirms fetched answered =
        let s1 : State W = record s {
          payments = db.payments.save (approved_by dto p) s.payments;
          world = (u.patch_confirm_payment p.order_id s.world).1;
        } in
        let s2 = mark_order config u db p.order_id order s1 in
        let is_signed : signature_valid config dto ≡ true = (str_eq_iff _ _).1 signed in
        let is_success : str_eq dto.status_code "2" ≡ true = ap (λ c. str_eq c "2") success in
        let found : find_payment config u db p.order_id s ≡ some p =
          find_payment-row lawful p.order_id p s valid at refl in
        let run : handle_webhook config u db dto s ≡ (ok tt, s2) =
          ground (arith, is_signed, is_success, found) in
        let same : s2.payments ≡ s1.payments =
          mark_order-payments config u db p.order_id order s1 in
        let saved = lawful.row-save (approved_by dto p) s.payments in
        subst
          (λ out.
            (out.0 ≡ ok tt)
            × IsApproved dto p s out.1
            × Confirmed p.order_id out.1.world
            × SeatsAre (λ v seat. Marked v seat p.order_id out.1.world) event order)
          (sym run)
          (
            refl,
            record {
              payment = approved_by dto p;
              stored = ground (arith, same, saved p.id);
              status = refl;
              payhere_payment_id = refl;
              order_id = refl;
              buyer_id = refl;
              amount = refl;
              currency = refl;
              method = refl;
              others = λ k other. ground (arith, same, saved k);
              proofs =
                  mark_order-stays (λ z. z.proofs ≡ s.proofs) p.order_id (λ v seat z h. h) order s1
                    refl;
            },
            mark_order-stays (λ z. Confirmed p.order_id z.world) p.order_id
                (λ v seat z. memory.confirmed_stays p.order_id v seat p.order_id z.world) order s1
                (memory.confirms p.order_id s.world confirms),
            λ v seat item version i e.
                mark_order-Marked p.order_id v seat order event item s1 answered version i e,
          )
