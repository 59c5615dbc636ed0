-- ===== src/Payments/Service/Proofs.antt =====
-- Payment proofs, in services/payment-service/src/payments/payments.service.ts: a buyer submits one, an
-- administrator reviews it; and the read of a payment.
pub mod Reviews
use ceylon_events.Common.{
  ℕ, Bool, true, false, not, ◌&&◌, Option, none, some, List, [], ◌==◌, if◌then◌else◌, String,
  Action, ok, err, not_found, forbidden, bad_request, internal_error, pure, gets, lift, modify,
  skip, throw_if, or_throw, ◌>>=◌, ◌>>◌,
}
use ceylon_events.Shared.{
  PaginatedResult, paginated, same_payment_status, is_pending_order, PaymentStatus,
  is_pending_payment, is_payhere, JwtAccessPayload, is_platform_admin,
}
use ceylon_events.Payments.Types.{
  Payment, PaymentProof, UpstreamOrder, SubmitPaymentProof, Reason, Upstream, Database, State,
  cannot_submit_in, not_for_proof, proof_not_found, already_reviewed, payment_not_found,
  may_not_view_payment,
}
use ceylon_events.Payments.Service.{
  Config, fetch_order_as_buyer, find_payment, save_payment, get_or_create_payment,
  orchestrate_order_confirmation, notify_buyer,
}
use ceylon_events.Payments.Service.Webhook.{rejected, failure_notice}

-- A filter that is not given lets all proofs through.
abbrev passes : Option PaymentStatus → PaymentStatus → Bool
passes none s = true
passes (some status) s = same_payment_status status s

pub record Submitted : Type 0 where
  pub payment : Payment
  pub proof : PaymentProof

-- A rejection may find no payment.
pub record Reviewed : Type 0 where
  pub payment : Option Payment
  pub proof : PaymentProof

pub record Paid : Type 0 where
  pub payment : Option Payment
  pub proofs : List PaymentProof

abbrev pub approved : Payment → Payment
approved payment = record payment { status = PaymentStatus.approved }

-- The proof with the verdict of a reviewer.
abbrev pub review :
    PaymentStatus → Option String → JwtAccessPayload → ℕ → PaymentProof → PaymentProof
review verdict notes caller now proof = record proof {
  status = verdict;
  reviewed_by_user_id = some caller.sub;
  reviewed_at = some now;
  review_notes = notes;
}

module _ {W : Type 0} (config : Config) (u : Upstream W) (db : Database) where
  insert_proof : PaymentProof → Action (State W) Reason PaymentProof
  insert_proof proof s = elim (db.proofs.insert proof s.proofs) [
    | none ↦ (err internal_error, s)
    | some table ↦ (ok proof, record s { proofs = table })
  ]

  pub submit_proof : ℕ → SubmitPaymentProof → ℕ → Action (State W) Reason Submitted
  unfolding insert_proof get_or_create_payment
  submit_proof order_id dto authorization = do
    answer ← gets (λ s. u.get_order_as_buyer order_id authorization s.world)
    order ← lift (fetch_order_as_buyer answer)
    throw_if (not (is_pending_order order.status)) (bad_request (cannot_submit_in order.status))
    throw_if (is_payhere order.payment_method) (bad_request not_for_proof)
    existing ← get_or_create_payment config u db order
    let payment : Payment = record existing { status = PaymentStatus.pending }
    modify (save_payment config u db payment)
    id ← gets (λ s. db.proofs.fresh s.proofs)
    proof ← insert_proof (record {
      id = id;
      payment_id = payment.id;
      order_id = order.id;
      object_key = dto.object_key;
      public_url = dto.public_url;
      reference_note = dto.reference_note;
      status = PaymentStatus.pending;
      reviewed_by_user_id = none;
      reviewed_at = none;
      review_notes = none;
    })
    pure (record { payment = payment; proof = proof })

  abbrev pub find_proof : ℕ → State W → Option PaymentProof
  find_proof id s = db.proofs.find_one (λ p. p.id == id) s.proofs

  pub list_proofs : Option PaymentStatus → ℕ → ℕ → State W → PaginatedResult PaymentProof
  list_proofs status page page_size s =
      paginated page page_size (db.proofs.find (λ p. passes status p.status) s.proofs)

  pub get_proof_or_throw : ℕ → Action (State W) Reason PaymentProof
  get_proof_or_throw id = do
    found ← gets (find_proof id)
    or_throw found (not_found proof_not_found)

  abbrev pub save_proof : PaymentProof → State W → State W
  save_proof proof s = record s { proofs = db.proofs.save proof s.proofs }

  abbrev pub payment_of : PaymentProof → State W → Option Payment
  payment_of proof s = db.payments.find_one (λ p. p.id == proof.payment_id) s.payments

  pub approve_proof : ℕ → Option String → JwtAccessPayload → ℕ → Action (State W) Reason Reviewed
  unfolding get_proof_or_throw orchestrate_order_confirmation
  approve_proof id notes caller now = do
    proof ← get_proof_or_throw id
    throw_if (not (is_pending_payment proof.status)) (bad_request already_reviewed)
    let proof' = review PaymentStatus.approved notes caller now proof
    modify (save_proof proof')
    found ← gets (payment_of proof')
    payment ← or_throw found (not_found payment_not_found)
    let payment' = approved payment
    modify (save_payment config u db payment')
    orchestrate_order_confirmation config u db payment'.order_id
    pure (record { payment = some payment'; proof = proof' })

  reject_payment : PaymentProof → Option Payment → Action (State W) Reason Reviewed
  unfolding notify_buyer
  reject_payment proof none = pure (record { payment = none; proof = proof })
  reject_payment proof (some payment) = do
    modify (save_payment config u db (rejected payment))
    modify (notify_buyer config u db (failure_notice payment proof.review_notes))
    pure (record { payment = some (rejected payment); proof = proof })

  pub reject_proof : ℕ → Option String → JwtAccessPayload → ℕ → Action (State W) Reason Reviewed
  unfolding get_proof_or_throw reject_payment
  reject_proof id notes caller now = do
    proof ← get_proof_or_throw id
    throw_if (not (is_pending_payment proof.status)) (bad_request already_reviewed)
    let proof' = review PaymentStatus.rejected notes caller now proof
    modify (save_proof proof')
    found ← gets (payment_of proof')
    reject_payment proof' found

  show_paid : Option Payment → Action (State W) Reason Paid
  show_paid none s = (ok (record { payment = none; proofs = [] }), s)
  show_paid (some payment) s = (
    ok (record {
      payment = some payment;
      proofs = db.proofs.find (λ p. p.payment_id == payment.id) s.proofs;
    }),
    s,
  )

  abbrev is_hidden : JwtAccessPayload → Option Payment → Bool
  is_hidden caller none = false
  is_hidden caller (some payment) =
      not (payment.buyer_id == caller.sub) && not (is_platform_admin caller)

  pub get_for_order : ℕ → JwtAccessPayload → Action (State W) Reason Paid
  unfolding show_paid
  get_for_order order_id caller = do
    payment ← gets (find_payment config u db order_id)
    throw_if (is_hidden caller payment) (forbidden may_not_view_payment)
    show_paid payment
