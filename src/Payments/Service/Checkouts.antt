-- ===== src/Payments/Service/Checkouts.antt =====
-- What a checkout at PayHere is given for.
use Prim.Native.String.{◌++◌}
use ceylon_events.Common.{
  ℕ, ℤ, String, ◌≡◌, refl, ◌≢◌, ◌∙◌, ap, subst, ◌⊎◌, inl, inr, true, false, none, some, arith, ◌==◌,
  ok, err, body, Response, status, unreachable, IsRepository, row, insert-fresh_row, Option-cases,
  Result-cases,
}
use ceylon_events.Shared.{
  OrderStatus, PaymentMethod, payhere, is_pending_order, is_payhere, is_approved_payment,
  PaymentStatus,
}
use ceylon_events.Payments.Types.{Payment, UpstreamOrder, Upstream, Database, State, same_order}
use ceylon_events.Payments.PayHere.{format_payhere_amount, compute_checkout_hash}
use ceylon_events.Payments.PayHere.Amounts.{codes, read_amount, format_payhere_amount-read}
use ceylon_events.Payments.Service.{
  Config, Checkout, find_payment, fetch_order_as_buyer, get_or_create_payment, reuse_or_insert,
  insert_payment, initiate,
}

-- A payment that was stored before, or a new one for the whole of the order.
abbrev pub IsOldOrNew : {W : Type 0} → UpstreamOrder → Payment → State W → Type 0
IsOldOrNew order p s =
    (row (λ x. x.id) p.id s.payments ≡ some p)
    ⊎ ((p.amount_minor_units ≡ order.total_minor_units)
        × (p.currency ≡ order.currency)
        × (p.buyer_id ≡ order.buyer_id)
        × (p.method ≡ order.payment_method)
        × (p.status ≡ PaymentStatus.pending)
        × (p.payhere_payment_id ≡ none))

-- The payment is the order's, is stored, and is not approved; every payment there was is there, and
-- no other.
pub record IsReady {W : Type 0} (order : UpstreamOrder) (p : Payment) (s s' : State W)
    : Type 0 where
  pub of_order : p.order_id ≡ order.id
  pub origin : IsOldOrNew order p s
  pub unpaid : p.status ≢ PaymentStatus.approved
  pub stored : row (λ x. x.id) p.id s'.payments ≡ some p
  pub kept :
      (k : ℕ) (x : Payment)
      → row (λ y. y.id) k s.payments ≡ some x
      → row (λ y. y.id) k s'.payments ≡ some x
  pub others :
      (k : ℕ) → (p.id == k) ≡ false → row (λ y. y.id) k s'.payments ≡ row (λ y. y.id) k s.payments
  pub proofs : s'.proofs ≡ s.proofs
  pub world : s'.world ≡ s.world

is_pending_order-eq : (t : OrderStatus) → is_pending_order t ≡ true → t ≡ OrderStatus.pending
is_pending_order-eq t h = ground arith

is_payhere-eq : (m : PaymentMethod) → is_payhere m ≡ true → m ≡ payhere
is_payhere-eq m h = ground arith

amount-read :
    (a : ℤ) (text : String) → text ≡ format_payhere_amount a → read_amount (codes text) ≡ some a
amount-read a text h = ap (λ t. read_amount (codes t)) h ∙ format_payhere_amount-read a

module _ {W : Type 0} (config : Config) (u : Upstream W) (db : Database)
    (lawful : IsRepository (λ p. p.id) same_order db.payments) where
  insert_payment-ok :
      (p q : Payment) (s s' : State W)
      → p.id ≡ db.payments.fresh s.payments
      → insert_payment config u db p s ≡ (ok q, s')
      → (t : _) × (db.payments.insert p s.payments ≡ some t)
        × (q ≡ p)
        × (s' ≡ record s { payments = t })
  unfolding insert_payment
  insert_payment-ok p q s s' fresh h = elim (Option-cases (db.payments.insert p s.payments)) [
    | inl e ↦ absurd (ground arith)
    | inr (t, e) ↦ (t, e, ground arith, ground arith)
  ]

  pub get_or_create_payment-IsReady :
      (order : UpstreamOrder) (p : Payment) (s s' : State W)
      → get_or_create_payment config u db order s ≡ (ok p, s')
      → IsReady order p s s'
  unfolding get_or_create_payment reuse_or_insert
  get_or_create_payment-IsReady order p s s' h =
      elim (Option-cases (find_payment config u db order.id s)) [
        | inr (x, e) ↦
            let (at, mine) = lawful.find_one-some (λ y. y.order_id == order.id) s.payments x e in
            record {
              of_order = ground arith;
              origin = inl (ground arith);
              unpaid = λ paid. ground (arith, ap is_approved_payment paid);
              stored = ground arith;
              kept = λ k y there_before. ground arith;
              others = λ k other. ground arith;
              proofs = ground arith;
              world = ground arith;
            }
        | inl e ↦
            let p' : Payment = record {
              id = db.payments.fresh s.payments;
              order_id = order.id;
              buyer_id = order.buyer_id;
              amount_minor_units = order.total_minor_units;
              currency = order.currency;
              method = order.payment_method;
              status = PaymentStatus.pending;
              payhere_payment_id = none;
            } in
            let (t, inserted, same, after) = insert_payment-ok p' p s s' refl (ground arith) in
            let (stored, kept) =
              insert-fresh_row (λ y. y.id) lawful p' s.payments t refl inserted in
            record {
              of_order = ground arith;
              origin = inr (
                ground arith,
                ground arith,
                ground arith,
                ground arith,
                ground arith,
                ground arith,
              );
              unpaid = λ paid. ground (arith, ap is_approved_payment paid);
              stored = ground arith;
              kept = λ k y there_before. ground (arith, kept k y there_before);
              others = λ k other. ground (arith, lawful.row-insert p' s.payments t k inserted);
              proofs = ground arith;
              world = ground arith;
            }
      ]

  fetched-body :
      (r : Response UpstreamOrder) (order : UpstreamOrder)
      → fetch_order_as_buyer r ≡ ok order
      → r ≡ body order
  unfolding fetch_order_as_buyer
  fetched-body (body o) order e = ground arith
  fetched-body (status n) order e = absurd (ground arith)
  fetched-body unreachable order e = absurd (ground arith)

  -- What a call of another method returned, and left.
  Created-cases :
      (order : UpstreamOrder) (s : State W)
      → ((p : Payment) × (s' : State W) × (get_or_create_payment config u db order s ≡ (ok p, s')))
        ⊎ ((e : _) × (s' : State W) × (get_or_create_payment config u db order s ≡ (err e, s')))
  Created-cases order s =
      let out = get_or_create_payment config u db order s in
      elim (Result-cases out.0) [
        | inl (p, e) ↦ inl (p, out.1, ap (λ r. (r, out.1)) e)
        | inr (x, e) ↦ inr (x, out.1, ap (λ r. (r, out.1)) e)
      ]

  -- A checkout is given only for an order that the caller may read, that is pending and to be paid
  -- by PayHere. A payment of the order is stored that is not approved: one that was there, or a new
  -- one of the order's total. The form has the merchant, the order, and that payment's currency and
  -- amount, which reads back from its text; the hash is the digest in upper case of these four texts
  -- and of the digest in upper case of the merchant's secret. No payment is lost and nothing else
  -- changes.
  pub initiate-ok :
      (order_id authorization : ℕ) (s s' : State W) (c : Checkout)
      → initiate config u db order_id authorization s ≡ (ok c, s')
      → (order : UpstreamOrder) × (p : Payment) × (u.get_order_as_buyer order_id authorization
            s.world
          ≡ body order)
        × (order.status ≡ OrderStatus.pending)
        × (order.payment_method ≡ payhere)
        × IsReady order p s s'
        × (c.merchant_id ≡ config.merchant_id)
        × (c.order_id ≡ config.write_uuid order.id)
        × (read_amount (codes c.amount) ≡ some p.amount_minor_units)
        × (c.currency ≡ p.currency)
        × (c.hash
            ≡ config.to_upper (
                config.md5 (
                  c.merchant_id
                  ++ c.order_id
                  ++ c.amount
                  ++ c.currency
                  ++ config.to_upper (config.md5 config.merchant_secret))))
  unfolding initiate compute_checkout_hash
  initiate-ok order_id authorization s s' c h =
      let answer = u.get_order_as_buyer order_id authorization s.world in
      elim (Result-cases (fetch_order_as_buyer answer)) [
        | inr (e, q) ↦ absurd (ground arith)
        | inl (order, q) ↦ elim (Created-cases order s) [
          | inr (e, s1, created) ↦ absurd (ground arith)
          | inl (p, s1, created) ↦
              let same : s1 ≡ s' = ground arith in
              (
                order,
                p,
                fetched-body answer order q,
                is_pending_order-eq order.status (ground arith),
                is_payhere-eq order.payment_method (ground arith),
                subst (λ x. IsReady order p s x) same
                    (get_or_create_payment-IsReady order p s s1 created),
                ground arith,
                ground arith,
                amount-read p.amount_minor_units c.amount (ground arith),
                ground arith,
                ground arith,
              )
        ]
      ]
