-- ===== src/Payments/Service/Webhook.antt =====
-- `handleWebhook` of services/payment-service/src/payments/payments.service.ts.
pub mod Delivery
pub mod Paid
use ceylon_events.Common.{
  ℕ, Bool, true, false, not, Option, none, some, if◌then◌else◌, String, str_eq, Action, bad_request,
  internal_error, pure, gets, modify, skip, throw_if, or_throw, ◌>>=◌, ◌>>◌,
}
use ceylon_events.Shared.{PaymentStatus, is_approved_payment}
use ceylon_events.Payments.Types.{
  Payment, PayHereIpn, Reason, Notice, Upstream, Database, State, invalid_signature,
}
use ceylon_events.Payments.PayHere.{verify_ipn_signature}
use ceylon_events.Payments.Service.{
  Config, find_payment, save_payment, notify_buyer, orchestrate_order_confirmation, is_failure_code,
}

abbrev pub approved_by : PayHereIpn → Payment → Payment
approved_by dto payment = record payment {
  status = PaymentStatus.approved;
  payhere_payment_id = dto.payment_id;
}

abbrev pub rejected : Payment → Payment
rejected payment = record payment { status = PaymentStatus.rejected }

abbrev pub failure_notice : Payment → Option String → Notice
failure_notice payment notes = record {
  user_id = payment.buyer_id;
  order_id = payment.order_id;
  notes = notes;
}

abbrev pub signature_valid : Config → PayHereIpn → Bool
signature_valid config dto =
    verify_ipn_signature config.md5 config.to_upper config.merchant_id config.merchant_secret
      dto.order_id dto.payhere_amount dto.payhere_currency dto.status_code dto.md5sig

module _ {W : Type 0} (config : Config) (u : Upstream W) (db : Database) where
  accept : PayHereIpn → Payment → Action (State W) Reason (Unit {0})
  unfolding orchestrate_order_confirmation
  accept dto payment = do
    modify (save_payment config u db (approved_by dto payment))
    orchestrate_order_confirmation config u db payment.order_id

  refuse : Payment → Action (State W) Reason (Unit {0})
  unfolding notify_buyer
  refuse payment = do
    modify (save_payment config u db (rejected payment))
    modify (notify_buyer config u db (failure_notice payment none))

  -- By the payment of the order and the status code.
  settle : PayHereIpn → Option Payment → Action (State W) Reason (Unit {0})
  unfolding accept refuse
  settle dto none = skip
  settle dto (some payment) =
      if is_approved_payment payment.status
      then skip
      else (if str_eq dto.status_code "2"
          then accept dto payment
          else (if is_failure_code dto.status_code then refuse payment else skip))

  pub handle_webhook : PayHereIpn → Action (State W) Reason (Unit {0})
  unfolding settle
  handle_webhook dto = do
    throw_if (not (signature_valid config dto)) (bad_request invalid_signature)
    order_id ← or_throw (config.read_uuid dto.order_id) internal_error
    payment ← gets (find_payment config u db order_id)
    settle dto payment
