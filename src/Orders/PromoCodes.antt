-- ===== src/Orders/PromoCodes.antt =====
-- services/order-service/src/promo-codes/promo-codes.service.ts, method by method. `to_upper` is
-- `String.prototype.toUpperCase`; times are milliseconds.
pub mod Validity
use ceylon_events.Common.{
  ℕ, ◌+◌, Bool, true, false, not, ◌&&◌, Option, none, some, List, ◌==◌, ltb, leb, is_some, or_else,
  if◌then◌else◌, String, str_eq, Response, body, status, unreachable, Result, Action, Exception, ok,
  err, not_found, forbidden, bad_request, bad_gateway, internal_error, pure, gets, lift, modify,
  throw_if, or_throw, ◌>>=◌, ◌>>◌,
}
use ceylon_events.Shared.{JwtAccessPayload, DiscountType, can_manage_restaurant}
use ceylon_events.Orders.Types.{
  PromoCode, UpstreamEvent, Reason, State, event_not_found, event_service_unavailable,
  invalid_promo_code, promo_code_inactive, promo_code_expired, promo_code_used_up,
  promo_code_not_found, may_not_manage_promo_codes, may_not_view_promo_codes,
}
use ceylon_events.Orders.Upstream.{Upstream, Database}

pub record CreatePromoCode : Type 0 where
  pub code : String
  pub discount_type : DiscountType
  pub discount_value : ℕ
  pub applicable_ticket_tier_id : Option ℕ
  pub usage_limit : Option ℕ
  pub expires_at : Option ℕ

-- A field that is absent stays; `null` clears one that may be null.
pub record UpdatePromoCode : Type 0 where
  pub discount_type : Option DiscountType
  pub discount_value : Option ℕ
  pub applicable_ticket_tier_id : Option (Option ℕ)
  pub usage_limit : Option (Option ℕ)
  pub expires_at : Option (Option ℕ)
  pub is_active : Option Bool

pub data Validation : Type 0 where
  unknown : Validation
  invalid : Reason → PromoCode → Validation
  valid : PromoCode → Validation

pub fetch_event : Response UpstreamEvent → Result Reason UpstreamEvent
fetch_event (body event) = ok event
fetch_event (status n) =
    if n == 404
    then err (not_found event_not_found)
    else err (bad_gateway event_service_unavailable)
fetch_event unreachable = err (bad_gateway event_service_unavailable)

-- Has the code run out by `now`?
abbrev pub is_expired : Option ℕ → ℕ → Bool
is_expired none now = false
is_expired (some at) now = ltb at now

abbrev pub is_used_up : Option ℕ → ℕ → Bool
is_used_up none used = false
is_used_up (some limit) used = leb limit used

-- The reason for which the code may not be used at `now`.
unfoldable pub check_validity : PromoCode → ℕ → Option Reason
check_validity p now =
    if not p.is_active
    then some promo_code_inactive
    else (if is_expired p.expires_at now
        then some promo_code_expired
        else (if is_used_up p.usage_limit p.usage_count then some promo_code_used_up else none))

-- `where: { eventId, code }`
abbrev pub has_code : ℕ → String → PromoCode → Bool
has_code event_id code p = p.event_id == event_id && str_eq p.code code

merge : UpdatePromoCode → PromoCode → PromoCode
merge dto p = record p {
  discount_type = or_else dto.discount_type p.discount_type;
  discount_value = or_else dto.discount_value p.discount_value;
  applicable_ticket_tier_id = or_else dto.applicable_ticket_tier_id p.applicable_ticket_tier_id;
  usage_limit = or_else dto.usage_limit p.usage_limit;
  expires_at = or_else dto.expires_at p.expires_at;
  is_active = or_else dto.is_active p.is_active;
}

abbrev checked : Option Reason → PromoCode → Validation
checked none p = valid p
checked (some reason) p = invalid reason p

abbrev validated : PromoCode → ℕ → Validation
validated p now = checked (check_validity p now) p

abbrev refused : {S : Type 0} → Option Reason → Action S Reason (Unit {0})
refused none s = (ok tt, s)
refused (some reason) s = (err (bad_request reason), s)

module _ {W : Type 0} (u : Upstream W) (db : Database) (to_upper : String → String) where
  insert_code : PromoCode → Action (State W) Reason PromoCode
  insert_code p s = elim (db.promo_codes.insert p s.promo_codes) [
    | none ↦ (err internal_error, s)
    | some table ↦ (ok p, record s { promo_codes = table })
  ]

  pub create : ℕ → CreatePromoCode → JwtAccessPayload → Action (State W) Reason PromoCode
  unfolding insert_code
  create event_id dto caller = do
    event ← lift (fetch_event (u.get_event event_id))
    throw_if (not (can_manage_restaurant caller event.restaurant_id))
        (forbidden may_not_manage_promo_codes)
    table ← gets (λ s. s.promo_codes)
    insert_code (record {
      id = db.promo_codes.fresh table;
      event_id = event_id;
      code = to_upper dto.code;
      discount_type = dto.discount_type;
      discount_value = dto.discount_value;
      applicable_ticket_tier_id = dto.applicable_ticket_tier_id;
      usage_limit = dto.usage_limit;
      usage_count = 0;
      expires_at = dto.expires_at;
      is_active = true;
    })

  pub list_for_event : ℕ → JwtAccessPayload → Action (State W) Reason (List PromoCode)
  list_for_event event_id caller = do
    event ← lift (fetch_event (u.get_event event_id))
    throw_if (not (can_manage_restaurant caller event.restaurant_id))
        (forbidden may_not_view_promo_codes)
    gets (λ s. db.promo_codes.find (λ p. p.event_id == event_id) s.promo_codes)

  pub update : ℕ → UpdatePromoCode → JwtAccessPayload → Action (State W) Reason PromoCode
  unfolding merge
  update id dto caller = do
    found ← gets (λ s. db.promo_codes.find_one (λ p. p.id == id) s.promo_codes)
    promo_code ← or_throw found (not_found promo_code_not_found)
    event ← lift (fetch_event (u.get_event promo_code.event_id))
    throw_if (not (can_manage_restaurant caller event.restaurant_id))
        (forbidden may_not_manage_promo_codes)
    let updated = merge dto promo_code
    modify λ s. record s { promo_codes = db.promo_codes.save updated s.promo_codes }
    pure updated

  abbrev pub find_code : ℕ → String → State W → Option PromoCode
  find_code event_id code s =
      db.promo_codes.find_one (has_code event_id (to_upper code)) s.promo_codes

  unfoldable pub validate : ℕ → String → ℕ → State W → Validation
  unfolding check_validity
  validate event_id code now s = elim (find_code event_id code s) [
    | none ↦ unknown
    | some p ↦ validated p now
  ]

  unfoldable pub find_valid_for_application : ℕ → String → ℕ → Action (State W) Reason PromoCode
  find_valid_for_application event_id code now = do
    found ← gets (find_code event_id code)
    promo_code ← or_throw found (bad_request invalid_promo_code)
    refused (check_validity promo_code now)
    pure promo_code

  unfoldable pub increment_usage : ℕ → State W → State W
  increment_usage id s = record s {
    promo_codes =
        db.promo_codes.update (λ p. p.id == id) (λ p. record p { usage_count = p.usage_count + 1 })
          s.promo_codes;
  }
