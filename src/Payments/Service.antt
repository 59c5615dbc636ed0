-- ===== src/Payments/Service.antt =====
-- services/payment-service/src/payments/payments.service.ts, method by method. `read_uuid` is how the
-- database reads the text of an id, and `write_uuid` how an id is written.
pub mod Checkouts
pub mod Webhook
pub mod Proofs
use ceylon_events.Common.{
  ℕ, Bool, true, false, not, ◌&&◌, ◌||◌, Option, none, some, List, [], ◌∷◌, ◌==◌, is_some, keep,
  if◌then◌else◌, String, str_eq, Response, body, status, unreachable, Result, Exception, Action, ok,
  err, not_found, forbidden, bad_request, bad_gateway, internal_error, pure, gets, lift, modify,
  skip, throw, throw_if, or_throw, ◌>>=◌, ◌>>◌,
}
use ceylon_events.Shared.{
  OrderStatus, is_pending_order, PaymentMethod, is_payhere, PaymentStatus, is_pending_payment,
  is_approved_payment, JwtAccessPayload, is_platform_admin,
}
use ceylon_events.Payments.Types.{
  Payment, PaymentProof, UpstreamOrder, UpstreamOrderItem, UpstreamEvent, SubmitPaymentProof,
  PayHereIpn, Reason, Notice, Upstream, Database, State, order_not_found, may_not_pay,
  order_service_error, order_service_unavailable, already_paid, not_for_payhere, not_for_proof,
  invalid_signature, cannot_pay_in, cannot_submit_in, proof_not_found, already_reviewed,
  payment_not_found, may_not_view_payment,
}
use ceylon_events.Payments.PayHere.{
  format_payhere_amount, compute_checkout_hash, verify_ipn_signature,
}

-- The environment of the service, and what it takes from Node and Postgres.
pub record Config : Type 0 where
  pub merchant_id : String
  pub merchant_secret : String
  pub notifications : Bool
  pub md5 : String → String
  pub to_upper : String → String
  pub read_uuid : String → Option ℕ
  pub write_uuid : ℕ → String

-- What `initiate` computes of the checkout form; the rest is copied from the configuration and the
-- billing details.
pub record Checkout : Type 0 where
  pub merchant_id : String
  pub order_id : String
  pub currency : String
  pub amount : String
  pub hash : String

unfoldable pub fetch_order_as_buyer : Response UpstreamOrder → Result Reason UpstreamOrder
fetch_order_as_buyer (body order) = ok order
fetch_order_as_buyer (status n) =
    if n == 404
    then err (not_found order_not_found)
    else (if n == 403 then err (forbidden may_not_pay) else err (bad_gateway order_service_error))
fetch_order_as_buyer unreachable = err (bad_gateway order_service_unavailable)

unfoldable pub fetch_order_internal : Response UpstreamOrder → Result Reason UpstreamOrder
fetch_order_internal (body order) = ok order
fetch_order_internal (status n) =
    if n == 404
    then err (not_found order_not_found)
    else err (bad_gateway order_service_unavailable)
fetch_order_internal unreachable = err (bad_gateway order_service_unavailable)

-- A failed call is an Axios error, which NestJS answers with 500.
unfoldable pub confirm_result : Response (Unit {0}) → Result Reason (Unit {0})
confirm_result (body x) = ok tt
confirm_result (status n) = err internal_error
confirm_result unreachable = err internal_error

pub fetch_event_public : Response UpstreamEvent → Option UpstreamEvent
fetch_event_public (body event) = some event
fetch_event_public (status n) = none
fetch_event_public unreachable = none

abbrev version_of : Option UpstreamEvent → Option ℕ
version_of none = none
version_of (some event) = event.seat_map_version_id

-- The status codes of a payment that failed: cancelled, failed and charged back.
abbrev pub is_failure_code : String → Bool
is_failure_code c = str_eq c "-1" || str_eq c "-2" || str_eq c "-3"

module _ {W : Type 0} (config : Config) (u : Upstream W) (db : Database) where
  pub confirm_order_internal : ℕ → Action (State W) Reason (Unit {0})
  unfolding confirm_result
  confirm_order_internal order_id s =
      let (answer, world) = u.patch_confirm_payment order_id s.world in
      (confirm_result answer, record s { world = world })

  -- A seat that cannot be marked is logged and passed over.
  mark_seats : ℕ → ℕ → List UpstreamOrderItem → State W → State W
  mark_seats version_id order_id [] s = s
  mark_seats version_id order_id (item ∷ items) s =
      mark_seats version_id order_id items (elim item.seat_id [
        | none ↦ s
        | some seat_id ↦ record s {
          world = (u.post_mark_sold version_id seat_id order_id s.world).1;
        }
      ])

  mark_on : Option ℕ → ℕ → List UpstreamOrderItem → State W → State W
  unfolding mark_seats
  mark_on none order_id items s = s
  mark_on (some version_id) order_id items s = mark_seats version_id order_id items s

  pub mark_order : ℕ → UpstreamOrder → State W → State W
  unfolding mark_on fetch_event_public
  mark_order order_id order s =
      mark_on (version_of (fetch_event_public (u.get_event order.event_id s.world))) order_id
        (keep (λ i. is_some i.seat_id) order.items) s

  pub orchestrate_order_confirmation : ℕ → Action (State W) Reason (Unit {0})
  unfolding confirm_order_internal mark_order
  orchestrate_order_confirmation order_id = do
    confirm_order_internal order_id
    answer ← gets (λ s. u.get_order_internal order_id s.world)
    order ← lift (fetch_order_internal answer)
    modify (mark_order order_id order)

  pub notify_buyer : Notice → State W → State W
  notify_buyer notice s =
      if config.notifications then record s { world = u.post_notification notice s.world } else s

  abbrev pub find_payment : ℕ → State W → Option Payment
  find_payment order_id s = db.payments.find_one (λ p. p.order_id == order_id) s.payments

  abbrev pub save_payment : Payment → State W → State W
  save_payment payment s = record s { payments = db.payments.save payment s.payments }

  insert_payment : Payment → Action (State W) Reason Payment
  insert_payment payment s = elim (db.payments.insert payment s.payments) [
    | none ↦ (err internal_error, s)
    | some table ↦ (ok payment, record s { payments = table })
  ]

  unfoldable pub reuse_or_insert : UpstreamOrder → Option Payment → Action (State W) Reason Payment
  unfolding insert_payment
  reuse_or_insert order (some existing) = do
    throw_if (is_approved_payment existing.status) (bad_request already_paid)
    pure existing
  reuse_or_insert order none = do
    id ← gets (λ s. db.payments.fresh s.payments)
    insert_payment (record {
      id = id;
      order_id = order.id;
      buyer_id = order.buyer_id;
      amount_minor_units = order.total_minor_units;
      currency = order.currency;
      method = order.payment_method;
      status = PaymentStatus.pending;
      payhere_payment_id = none;
    })

  unfoldable pub get_or_create_payment : UpstreamOrder → Action (State W) Reason Payment
  unfolding reuse_or_insert
  get_or_create_payment order = do
    existing ← gets (find_payment order.id)
    reuse_or_insert order existing

  unfoldable pub initiate : ℕ → ℕ → Action (State W) Reason Checkout
  unfolding get_or_create_payment
  initiate order_id authorization = do
    answer ← gets (λ s. u.get_order_as_buyer order_id authorization s.world)
    order ← lift (fetch_order_as_buyer answer)
    throw_if (not (is_pending_order order.status)) (bad_request (cannot_pay_in order.status))
    throw_if (not (is_payhere order.payment_method)) (bad_request not_for_payhere)
    payment ← get_or_create_payment order
    pure (record {
      merchant_id = config.merchant_id;
      order_id = config.write_uuid order.id;
      currency = payment.currency;
      amount = format_payhere_amount payment.amount_minor_units;
      hash =
          compute_checkout_hash config.md5 config.to_upper config.merchant_id config.merchant_secret
            (config.write_uuid order.id) payment.amount_minor_units payment.currency;
    })
