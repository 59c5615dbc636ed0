-- ===== src/Payments/PayHere.antt =====
-- services/payment-service/src/payments/payhere/payhere.util.ts. `md5` is Node's digest in hexadecimal
-- and `to_upper` is `String.prototype.toUpperCase`.
pub mod Amounts
use Prim.Native.String.{◌++◌}
use ceylon_events.Common.{
  ℕ, zero, suc, ◌/◌, ◌%◌, ℤ, pos, negsuc, Bool, String, str_eq, ◌==◌, ◌≡◌, refl, if◌then◌else◌,
}

pub digit : ℕ → String
digit d =
    if d == 0
    then "0"
    else (if d == 1
        then "1"
        else (if d == 2
            then "2"
            else (if d == 3
                then "3"
                else (if d == 4
                    then "4"
                    else (if d == 5
                        then "5"
                        else (if d == 6
                            then "6"
                            else (if d == 7 then "7" else (if d == 8 then "8" else "9"))))))))

-- The decimal digits of `n` before `rest`, with fuel for each digit.
decimal : ℕ → ℕ → String → String
unfolding digit
decimal zero n rest = rest
decimal (suc fuel) n rest =
    let more = decimal fuel (n / 10) (digit (n % 10) ++ rest) in
    if n / 10 == 0 then digit (n % 10) ++ rest else more

-- `toFixed(2)` of `n / 100`: whole units, a point and two digits.
fixed : ℕ → String
unfolding decimal
fixed n = decimal (suc n) (n / 100) ("." ++ digit (n / 10 % 10) ++ digit (n % 10))

unfoldable pub format_payhere_amount : ℤ → String
unfolding fixed
format_payhere_amount (pos n) = fixed n
format_payhere_amount (negsuc n) = "-" ++ fixed (suc n)

module _ (md5 to_upper : String → String) where
  unfoldable pub md5_upper : String → String
  md5_upper input = to_upper (md5 input)

  unfoldable pub compute_checkout_hash : String → String → String → ℤ → String → String
  unfolding md5_upper format_payhere_amount
  compute_checkout_hash merchant_id merchant_secret order_id amount currency = md5_upper (
      merchant_id
      ++ order_id
      ++ format_payhere_amount amount
      ++ currency
      ++ md5_upper merchant_secret)

  -- What PayHere signs.
  abbrev pub ipn_text : String → String → String → String → String → String → String
  ipn_text merchant_id merchant_secret order_id amount currency status_code =
      merchant_id ++ order_id ++ amount ++ currency ++ status_code ++ md5_upper merchant_secret

  unfoldable pub verify_ipn_signature :
      String → String → String → String → String → String → String → Bool
  unfolding md5_upper
  verify_ipn_signature merchant_id merchant_secret order_id amount currency status_code received =
      str_eq (md5_upper (ipn_text merchant_id merchant_secret order_id amount currency status_code))
        (to_upper received)

amounts : format_payhere_amount (pos 150000) ≡ "1500.00"
unfolding format_payhere_amount
amounts = refl
