-- ===== src/Tests/Paying.antt =====
-- payment-service on one order with one payment and one proof.
use ceylon_events.Common.{
  ℕ, ◌≡◌, refl, ◌+◌, true, none, some, List, [], ◌∷◌, Elem, here, there, arith, ok, err,
  internal_error, body, status, unreachable, pos, no_clash,
}
use ceylon_events.Common.Memory.{memory, memory-IsRepository}
use ceylon_events.Shared.{
  JwtAccessPayload, OrderStatus, pending, approved, rejected, payhere, super_admin,
}
use ceylon_events.Payments.Types.{
  Payment, PaymentProof, PayHereIpn, UpstreamOrder, UpstreamEvent, Upstream, Database, State,
  same_order,
}
use ceylon_events.Payments.PayHere.{verify_ipn_signature}
use ceylon_events.Payments.Service.{
  Checkout, fetch_order_as_buyer, get_or_create_payment, reuse_or_insert, initiate, Config,
  confirm_result,
}
use ceylon_events.Payments.Service.Checkouts.{initiate-ok}
use ceylon_events.Payments.PayHere.{format_payhere_amount, compute_checkout_hash}
use ceylon_events.Payments.PayHere.Amounts.{codes, read_amount, format_payhere_amount-read}
use ceylon_events.Payments.Service.Webhook.{handle_webhook}
use ceylon_events.Payments.Service.Webhook.Delivery.{payment_row, IsValid, handle_webhook-lost}
use ceylon_events.Payments.Service.Webhook.Paid.{Remembers, IsApproved, handle_webhook-paid}
use ceylon_events.Payments.Service.Proofs.{approve_proof, reject_proof}
use ceylon_events.Payments.Service.Proofs.Reviews.{reject_proof-overrides, approve_proof-lost}

-- A digest that gives the same text for all.
abbrev config : Config
config = record {
  merchant_id = "M";
  merchant_secret = "S";
  notifications = true;
  md5 = λ text. "D";
  to_upper = λ text. text;
  read_uuid = λ text. some 40;
  write_uuid = λ id. "40";
}

abbrev order_40 : UpstreamOrder
order_40 = record {
  id = 40;
  buyer_id = 70;
  event_id = 5;
  status = OrderStatus.pending;
  total_minor_units = pos 3600;
  currency = "LKR";
  payment_method = payhere;
  items = [];
}

-- order-service confirms at its first call.
abbrev answering : Upstream ℕ
answering = record {
  get_order_as_buyer = λ id authorization world. body order_40;
  get_order_internal = λ id world. body order_40;
  patch_confirm_payment = λ id world. (body tt, world + 1);
  get_event = λ id world. status 404;
  post_mark_sold = λ version seat order world. (body tt, world + 1);
  post_notification = λ notice world. world + 1;
}

-- order-service cannot be reached.
abbrev silent : Upstream ℕ
silent = record answering { patch_confirm_payment = λ id world. (unreachable, world) }

abbrev database : Database
database = record { payments = memory (λ p. p.id) same_order; proofs = memory (λ p. p.id) no_clash }

abbrev payment_1 : Payment
payment_1 = record {
  id = 1;
  order_id = 40;
  buyer_id = 70;
  amount_minor_units = pos 3600;
  currency = "LKR";
  method = payhere;
  status = pending;
  payhere_payment_id = none;
}

abbrev proof_2 : PaymentProof
proof_2 = record {
  id = 2;
  payment_id = 1;
  order_id = 40;
  object_key = "k";
  public_url = "u";
  reference_note = "n";
  status = pending;
  reviewed_by_user_id = none;
  reviewed_at = none;
  review_notes = none;
}

abbrev unpaid : State ℕ
unpaid = record { payments = payment_1 ∷ []; proofs = proof_2 ∷ []; world = 0 }

abbrev ipn : PayHereIpn
ipn = record {
  order_id = "40";
  payhere_amount = "36.00";
  payhere_currency = "LKR";
  status_code = "2";
  md5sig = "D";
  payment_id = some "P";
}

abbrev admin : JwtAccessPayload
admin = record { sub = 1; roles = super_admin ∷ []; restaurant_id = none }

unpaid-IsValid : IsValid unpaid
unpaid-IsValid = record { one_each = λ j k x y a b e. ground arith }

-- The other services remember the orders that were confirmed, and the seats that were marked.
record Log : Type 0 where
  confirmed : List ℕ
  marked : List (ℕ × ℕ × ℕ)

abbrev seated_order : UpstreamOrder
seated_order = record order_40 {
  items = record { id = 6; seat_id = none } ∷ record { id = 7; seat_id = some 12 } ∷ [];
}

abbrev mapped_event : UpstreamEvent
mapped_event = record { id = 5; seat_map_version_id = some 3 }

abbrev logging : Upstream Log
logging = record {
  get_order_as_buyer = λ id authorization w. body seated_order;
  get_order_internal = λ id w. body seated_order;
  patch_confirm_payment = λ id w. (body tt, record w { confirmed = id ∷ w.confirmed });
  get_event = λ id w. body mapped_event;
  post_mark_sold =
      λ version seat order w. (body tt, record w { marked = (version, seat, order) ∷ w.marked });
  post_notification = λ notice w. w;
}

logging-Remembers :
    Remembers logging (λ o w. Elem o w.confirmed) (λ v seat o w. Elem (v, seat, o) w.marked)
logging-Remembers = record {
  confirms = λ o w answered. here refl;
  marks = λ v seat o w. here refl;
  confirmed_stays = λ o v seat order w h. h;
  marked_stays = λ v' seat' o v seat order w h. there h;
}

abbrev unpaid_log : State Log
unpaid_log = record {
  payments = payment_1 ∷ [];
  proofs = proof_2 ∷ [];
  world = record { confirmed = []; marked = [] };
}

unpaid_log-IsValid : IsValid unpaid_log
unpaid_log-IsValid = record { one_each = λ j k x y a b e. ground arith }

handle_webhook-paid_example :
    let s' = (handle_webhook config logging database ipn unpaid_log).1 in
    IsApproved ipn payment_1 unpaid_log s'
    × Elem 40 s'.world.confirmed
    × Elem (3, 12, 40) s'.world.marked
handle_webhook-paid_example =
    let (answered, paid, confirmed, marked) =
      handle_webhook-paid config logging database logging-Remembers
        (memory-IsRepository (λ p. p.id) same_order) ipn unpaid_log payment_1 seated_order
        mapped_event unpaid_log-IsValid refl refl refl refl (ground arith) refl refl refl in
    (
      paid,
      confirmed,
      marked 3 12 (record { id = 7; seat_id = some 12 }) refl (there (here refl)) refl,
    )

handle_webhook-lost_example :
    let s' = (handle_webhook config silent database ipn unpaid).1 in
    handle_webhook config silent database ipn s' ≡ (ok tt, s')
unfolding verify_ipn_signature confirm_result
handle_webhook-lost_example =
    (handle_webhook-lost config silent database (memory-IsRepository (λ p. p.id) same_order) ipn
      unpaid 40 payment_1 internal_error unpaid-IsValid refl refl refl (ground arith) refl refl).2

abbrev reviewed : State ℕ
reviewed = record unpaid { proofs = record proof_2 { status = rejected } ∷ [] }

-- The payment was approved through another proof.
abbrev paid : State ℕ
paid = record unpaid { payments = record payment_1 { status = approved } ∷ [] }

reject_proof-overrides_example :
    payment_row 1 (reject_proof config answering database 2 none admin 9 paid).1
    ≡ some (record payment_1 { status = rejected })
reject_proof-overrides_example =
    (reject_proof-overrides config answering database (memory-IsRepository (λ p. p.id) same_order)
      (memory-IsRepository (λ p. p.id) no_clash) 2 none admin 9 paid proof_2
      (record payment_1 { status = approved }) refl refl refl).2

approve_proof-lost_example :
    (approve_proof config silent database 2 none admin 9 unpaid).0 ≡ err internal_error
unfolding confirm_result
approve_proof-lost_example =
    (approve_proof-lost config silent database (memory-IsRepository (λ p. p.id) same_order)
      (memory-IsRepository (λ p. p.id) no_clash) 2 none admin 9 unpaid proof_2 payment_1
      internal_error refl refl refl refl).0

-- Here a digest is the text itself.
abbrev signing : Config
signing = record config { md5 = λ text. text }

-- The form for the payment of `unpaid`.
abbrev form : Checkout
form = record {
  merchant_id = "M";
  order_id = "40";
  currency = "LKR";
  amount = "36.00";
  hash = "M4036.00LKRS";
}

initiate_run : initiate signing answering database 40 1 unpaid ≡ (ok form, unpaid)
unfolding initiate fetch_order_as_buyer get_or_create_payment reuse_or_insert compute_checkout_hash
    format_payhere_amount
initiate_run = refl

initiate-ok_example :
    (p : Payment) × (payment_row p.id unpaid ≡ some p)
    × (read_amount (codes form.amount) ≡ some p.amount_minor_units)
    × (form.currency ≡ p.currency)
    × (form.hash ≡ "M4036.00LKRS")
initiate-ok_example =
    let (order, p, answered, is_open, by_payhere, ready, merchant, id, amount, currency, hash) =
      initiate-ok signing answering database (memory-IsRepository (λ p. p.id) same_order) 40 1
        unpaid unpaid form initiate_run in
    (p, ready.stored, amount, currency, hash)

format_payhere_amount-read_example :
    read_amount (codes (format_payhere_amount (pos 123456))) ≡ some (pos 123456)
format_payhere_amount-read_example = format_payhere_amount-read (pos 123456)
