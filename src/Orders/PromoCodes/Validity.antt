-- ===== src/Orders/PromoCodes/Validity.antt =====
-- When a promo code may be applied, and what becomes of its uses.
use mathlib.Core.Option
use ceylon_events.Common.{
  ℕ, ◌+◌, ◌≤◌, ◌<◌, ◌≡◌, refl, subst, ◌↔◌, true, Option, none, some, List, inl, inr, arith, ◌==◌,
  if◌then◌else◌, Option-cases, String, ok, IsRepository, row,
}
use ceylon_events.Orders.Types.{PromoCode, State, same_code}
use ceylon_events.Orders.Upstream.{Upstream, Database}
use ceylon_events.Orders.PromoCodes.{
  valid, check_validity, validate, find_valid_for_application, find_code, has_code, increment_usage,
}

abbrev pub code_row : ℕ → List PromoCode → Option PromoCode
code_row = row (λ p. p.id)

-- The code is switched on, has not expired and has uses left.
pub record IsUsable (p : PromoCode) (now : ℕ) : Type 0 where
  pub active : p.is_active ≡ true
  pub unexpired : (at : ℕ) → p.expires_at ≡ some at → now ≤ at
  pub left : (limit : ℕ) → p.usage_limit ≡ some limit → p.usage_count < limit

check_validity-IsUsable : (p : PromoCode) (now : ℕ) → check_validity p now ≡ none → IsUsable p now
unfolding check_validity
check_validity-IsUsable p now h = record {
  active = ground arith;
  unexpired = λ at e. ground arith;
  left = λ limit e. ground arith;
}

IsUsable-check_validity : (p : PromoCode) (now : ℕ) → IsUsable p now → check_validity p now ≡ none
unfolding check_validity
IsUsable-check_validity p now h = elim (Option-cases p.expires_at) [
  | inl e ↦ elim (Option-cases p.usage_limit) [
    | inl e' ↦ ground (arith, h.active)
    | inr (l, e') ↦ ground (arith, h.active, h.left l e')
  ]
  | inr (a, e) ↦ elim (Option-cases p.usage_limit) [
    | inl e' ↦ ground (arith, h.active, h.unexpired a e)
    | inr (l, e') ↦ ground (arith, h.active, h.unexpired a e, h.left l e')
  ]
]

module _ {W : Type 0} (u : Upstream W) (db : Database) (to_upper : String → String)
    (lawful : IsRepository (λ p. p.id) same_code db.promo_codes) where
  -- The check that buyers see and the one that order creation makes agree: a code is applied
  -- exactly when it validates, and neither changes anything.
  pub find_valid_for_application-validate :
      (event_id : ℕ) (code : String) (now : ℕ) (s : State W) (p : PromoCode)
      → (find_valid_for_application u db to_upper event_id code now s ≡ (ok p, s))
        ↔ (validate u db to_upper event_id code now s ≡ valid p)
  unfolding find_valid_for_application validate
  find_valid_for_application-validate event_id code now s p =
      elim (Option-cases (find_code u db to_upper event_id code s)) [
        | inl e ↦ (λ h. ground arith, λ h. ground arith)
        | inr (q, e) ↦ (λ h. ground arith, λ h. ground arith)
      ]

  -- A code that validates is one of the event's, under the text in upper case; it is switched on,
  -- has not expired and has uses left.
  validate-IsUsable :
      (event_id : ℕ) (code : String) (now : ℕ) (s : State W) (p : PromoCode)
      → validate u db to_upper event_id code now s ≡ valid p
      → (code_row p.id s.promo_codes ≡ some p)
        × (has_code event_id (to_upper code) p ≡ true)
        × IsUsable p now
  unfolding validate
  validate-IsUsable event_id code now s p h =
      elim (Option-cases (find_code u db to_upper event_id code s)) [
        | inl e ↦ ground arith
        | inr (q, e) ↦
            let same : q ≡ p = ground arith in
            let usable : check_validity q now ≡ none = ground arith in
            let (at, has) =
              lawful.find_one-some (has_code event_id (to_upper code)) s.promo_codes q e in
            subst
              (λ x.
                (code_row x.id s.promo_codes ≡ some x)
                × (has_code event_id (to_upper code) x ≡ true)
                × IsUsable x now)
              same (at, has, check_validity-IsUsable q now usable)
      ]

  -- Counting one use adds one to that code and leaves every other row as it was.
  increment_usage_lem :
      (id k : ℕ) (s : State W)
      → code_row k (increment_usage u db to_upper id s).promo_codes
        ≡ Option.map
            (λ p. if p.id == id then record p { usage_count = p.usage_count + 1 } else p)
            (code_row k s.promo_codes)
  unfolding increment_usage
  increment_usage_lem id k s = lawful.row-update _ _ s.promo_codes k (λ p. refl)
