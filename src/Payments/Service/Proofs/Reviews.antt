-- ===== src/Payments/Service/Proofs/Reviews.antt =====
-- What a review settles, and what it can undo.
use ceylon_events.Common.{
  ℕ, ◌≡◌, refl, ap, subst, sym, ◌∙◌, false, Option, some, arith, String, Exception, ok, err,
  bad_request, IsRepository, row, row-key, find_one-key, no_clash,
}
use ceylon_events.Shared.{pending, approved, rejected, is_pending_payment, JwtAccessPayload}
use ceylon_events.Payments.Types.{
  Payment, PaymentProof, Upstream, Database, State, same_order, Reason, already_reviewed,
}
use ceylon_events.Payments.Service.{
  Config, notify_buyer, confirm_result, orchestrate_order_confirmation, confirm_order_internal,
}
use ceylon_events.Payments.Service.Proofs.{
  review, find_proof, save_proof, payment_of, approve_proof, reject_proof, reject_payment,
}
use ceylon_events.Payments.Service.Webhook
use ceylon_events.Payments.Service.Webhook.Delivery.{payment_row}

abbrev pub proof_row : {W : Type 0} → ℕ → State W → Option PaymentProof
proof_row k s = row (λ p. p.id) k s.proofs

module _ {W : Type 0} (config : Config) (u : Upstream W) (db : Database)
    (lawful : IsRepository (λ p. p.id) same_order db.payments)
    (lawful_proofs : IsRepository (λ p. p.id) no_clash db.proofs) where
  found_proof : (id : ℕ) (s : State W) → find_proof config u db id s ≡ proof_row id s
  found_proof id s = find_one-key (λ p. p.id) lawful_proofs id s.proofs

  found_payment :
      (proof : PaymentProof) (s : State W)
      → payment_of config u db proof s ≡ payment_row proof.payment_id s
  found_payment proof s = find_one-key (λ p. p.id) lawful proof.payment_id s.payments

  -- A proof that was reviewed is not reviewed again: both verdicts are refused, and nothing
  -- changes.
  reviewed_once :
      (id : ℕ) (notes : Option String) (caller : JwtAccessPayload) (now : ℕ) (s : State W)
      (proof : PaymentProof)
      → proof_row id s ≡ some proof
      → is_pending_payment proof.status ≡ false
      → (approve_proof config u db id notes caller now s ≡ (err (bad_request already_reviewed), s))
        × (reject_proof config u db id notes caller now s ≡ (err (bad_request already_reviewed), s))
  unfolding approve_proof reject_proof
  reviewed_once id notes caller now s proof at done =
      (ground (arith, found_proof id s), ground (arith, found_proof id s))

  -- Rejecting a pending proof records the verdict on it and makes its payment rejected, whatever
  -- the payment was: one that is approved already, for an order that may be confirmed, too.
  pub reject_proof-overrides :
      (id : ℕ) (notes : Option String) (caller : JwtAccessPayload) (now : ℕ) (s : State W)
      (proof : PaymentProof) (p : Payment)
      → proof_row id s ≡ some proof
      → proof.status ≡ pending
      → payment_row proof.payment_id s ≡ some p
      → let (r, s') = reject_proof config u db id notes caller now s in
        let proof' = review rejected notes caller now proof in
        (r ≡ ok (record { payment = some (Webhook.rejected p); proof = proof' }))
        × (proof_row id s' ≡ some proof')
        × (payment_row proof.payment_id s' ≡ some (Webhook.rejected p))
  unfolding reject_proof reject_payment notify_buyer
  reject_proof-overrides id notes caller now s proof p at open_proof pays =
      let proof' = review rejected notes caller now proof in
      let s1 = save_proof config u db proof' s in
      let paid = found_payment proof' s1 in
      let looked = found_proof id s in
      (
        ground (arith, paid, looked),
        ground (
          arith,
          paid,
          looked,
          lawful_proofs.row-save proof' s.proofs id,
          row-key (λ x. x.id) s.proofs id proof at,
        ),
        ground (
          arith,
          paid,
          looked,
          lawful.row-save (Webhook.rejected p) s.payments proof.payment_id,
          row-key (λ x. x.id) s.payments proof.payment_id p pays,
        ),
      )

  -- Where the order cannot be confirmed, an approval fails after the proof and the payment are
  -- saved as approved, and it cannot be repeated: the proof then counts as reviewed.
  pub approve_proof-lost :
      (id : ℕ) (notes : Option String) (caller : JwtAccessPayload) (now : ℕ) (s : State W)
      (proof : PaymentProof) (p : Payment) (e : Exception Reason)
      → proof_row id s ≡ some proof
      → proof.status ≡ pending
      → payment_row proof.payment_id s ≡ some p
      → confirm_result (u.patch_confirm_payment p.order_id s.world).0 ≡ err e
      → let (r, s') = approve_proof config u db id notes caller now s in
        (r ≡ err e)
        × (proof_row id s' ≡ some (review approved notes caller now proof))
        × (payment_row proof.payment_id s' ≡ some (record p { status = approved }))
        × (approve_proof config u db id notes caller now s'
            ≡ (err (bad_request already_reviewed), s'))
  unfolding approve_proof orchestrate_order_confirmation confirm_order_internal
  approve_proof-lost id notes caller now s proof p e at open_proof pays fails =
      let proof' = review approved notes caller now proof in
      let p' : Payment = record p { status = approved } in
      let s1 = save_proof config u db proof' s in
      let s2 : State W = record s1 {
        payments = db.payments.save p' s.payments;
        world = (u.patch_confirm_payment p.order_id s.world).1;
      } in
      let first : approve_proof config u db id notes caller now s ≡ (err e, s2) =
        ground (arith, found_payment proof' s1, found_proof id s) in
      let kept : proof_row id s2 ≡ some proof' = ground (
        arith,
        lawful_proofs.row-save proof' s.proofs id,
        row-key (λ x. x.id) s.proofs id proof at,
      ) in
      let state = ap (λ x. x.1) first in
      (
        ap (λ x. x.0) first,
        ap (proof_row id) state ∙ kept,
        ap (payment_row proof.payment_id) state
            ∙ ground (
              arith,
              lawful.row-save p' s.payments proof.payment_id,
              row-key (λ x. x.id) s.payments proof.payment_id p pays,
            ),
        subst
            (λ x.
              approve_proof config u db id notes caller now x
              ≡ (err (bad_request already_reviewed), x))
            (sym state) (reviewed_once id notes caller now s2 proof' kept refl).0,
      )
