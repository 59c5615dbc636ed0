-- ===== src/Payments/PayHere/Amounts.antt =====
-- The amount that PayHere is sent, read back.
use Prim.Native.Char.{code}
use Prim.Native.String.{◌++◌}
use Prim.Native.String.append
use mathlib.Core.List.{◌++◌ as list_append}
use text.Mathlib.TextLemmas.{append-nil}
use ceylon_events.Common.{
  ℕ, zero, suc, ◌+◌, ◌-◌, ◌*◌, ◌/◌, ◌%◌, ◌<◌, ℤ, pos, negsuc, ◌≡◌, ◌∙◌, sym, ap, inl, inr, Bool,
  ◌&&◌, Option, none, some, List, [], ◌∷◌, arith, ◌==◌, leb, if◌then◌else◌, String, Bool-cases,
}
use ceylon_events.Payments.PayHere.{digit, decimal, fixed, format_payhere_amount}

-- The code points of a text.
abbrev pub codes : String → List ℕ
codes String.[] = []
codes (String.◌∷◌ c s) = code c ∷ codes s

abbrev is_digit : ℕ → Bool
is_digit c = leb b'0' c && leb c b'9'

-- Two digits after the point, and no more.
abbrev read_cents : ℕ → List ℕ → Option ℕ
read_cents units (a ∷ b ∷ []) =
    if is_digit a && is_digit b then some (units * 100 + (a - b'0') * 10 + (b - b'0')) else none
read_cents units _ = none

-- The units before the point, most significant digit first.
abbrev read_from : ℕ → List ℕ → Option ℕ
read_from units [] = none
read_from units (c ∷ cs) =
    let rest = read_from (units * 10 + (c - b'0')) cs in
    if c == b'.' then read_cents units cs else if is_digit c then rest else none

codes-append : (s t : String) → codes (s ++ t) ≡ list_append (codes s) (codes t)
codes-append String.[] t = ap codes (append.nil t)
codes-append (String.◌∷◌ c s) t =
    ap codes (append.cons c s t) ∙ ap (◌∷◌ (code c)) (codes-append s t)

codes-digit : (d : ℕ) (rest : String) → d < 10 → codes (digit d ++ rest) ≡ (b'0' + d) ∷ codes rest
unfolding digit
codes-digit zero rest lt = codes-append "0" rest
codes-digit (suc zero) rest lt = codes-append "1" rest
codes-digit (suc (suc zero)) rest lt = codes-append "2" rest
codes-digit (suc (suc (suc zero))) rest lt = codes-append "3" rest
codes-digit (suc (suc (suc (suc zero)))) rest lt = codes-append "4" rest
codes-digit (suc (suc (suc (suc (suc zero))))) rest lt = codes-append "5" rest
codes-digit (suc (suc (suc (suc (suc (suc zero)))))) rest lt = codes-append "6" rest
codes-digit (suc (suc (suc (suc (suc (suc (suc zero))))))) rest lt = codes-append "7" rest
codes-digit (suc (suc (suc (suc (suc (suc (suc (suc zero)))))))) rest lt = codes-append "8" rest
codes-digit (suc (suc (suc (suc (suc (suc (suc (suc (suc zero))))))))) rest lt =
    codes-append "9" rest
codes-digit (suc (suc (suc (suc (suc (suc (suc (suc (suc (suc n)))))))))) rest lt =
    absurd (omega arith)

read-digit :
    (units d : ℕ) (cs : List ℕ)
    → d < 10
    → read_from units ((b'0' + d) ∷ cs) ≡ read_from (units * 10 + d) cs
read-digit units d cs lt =
    let back : b'0' + d - b'0' ≡ d = omega arith in
    let same = ap (λ k. read_from (units * 10 + k) cs) back in ground (arith, same)

-- With fuel for each digit, the digits of a number are read as the number.
decimal-read :
    (fuel n : ℕ) (rest : String)
    → n < fuel
    → read_from 0 (codes (decimal fuel n rest)) ≡ read_from n (codes rest)
unfolding decimal
decimal-read zero n rest lt = absurd (omega arith)
decimal-read (suc fuel) n rest lt =
    let whole : n / 10 * 10 + n % 10 ≡ n = omega arith in
    let last : read_from (n / 10) (codes (digit (n % 10) ++ rest)) ≡ read_from n (codes rest) =
      ap (read_from (n / 10)) (codes-digit (n % 10) rest (omega arith))
      ∙ read-digit (n / 10) (n % 10) (codes rest) (omega arith)
      ∙ ap (λ k. read_from k (codes rest)) whole in
    elim (Bool-cases (n / 10 == 0)) [
      | inl done ↦
          let none_left : 0 ≡ n / 10 = ground arith in
          rw done (ap (λ k. read_from k (codes (digit (n % 10) ++ rest))) none_left ∙ last)
      | inr more ↦
          rw more (decimal-read fuel (n / 10) (digit (n % 10) ++ rest) (ground arith) ∙ last)
    ]

codes-last : (d : ℕ) → d < 10 → codes (digit d) ≡ (b'0' + d) ∷ []
codes-last d lt = ap codes (sym (append-nil (digit d))) ∙ codes-digit d "" lt

-- The point and two digits are read as the cents.
read-cents :
    (units n : ℕ)
    → read_from units (codes ("." ++ digit (n / 10 % 10) ++ digit (n % 10)))
      ≡ some (units * 100 + (n / 10 % 10) * 10 + n % 10)
read-cents units n =
    let a = n / 10 % 10 in
    let b = n % 10 in
    let text : codes ("." ++ digit a ++ digit b) ≡ b'.' ∷ (b'0' + a) ∷ (b'0' + b) ∷ [] =
      codes-append "." (digit a ++ digit b)
      ∙ ap (◌∷◌ b'.') (
          codes-digit a (digit b) (omega arith)
          ∙ ap (◌∷◌ (b'0' + a)) (codes-last b (omega arith))) in
    let tens : b'0' + a - b'0' ≡ a = omega arith in
    let ones : b'0' + b - b'0' ≡ b = omega arith in
    ap (read_from units) text ∙ ground (arith, tens, ones)

abbrev natural : Option ℕ → Option ℤ
natural none = none
natural (some n) = some (pos n)

abbrev opposite : Option ℕ → Option ℤ
opposite none = none
opposite (some zero) = some (pos zero)
opposite (some (suc n)) = some (negsuc n)

-- A sign, if there is one, then the number.
pub read_amount : List ℕ → Option ℤ
read_amount [] = none
read_amount (c ∷ cs) =
    if c == b'-' then opposite (read_from 0 cs) else natural (read_from 0 (c ∷ cs))

fixed-read : (n : ℕ) → read_from 0 (codes (fixed n)) ≡ some n
unfolding fixed
fixed-read n =
    decimal-read (suc n) (n / 100) ("." ++ digit (n / 10 % 10) ++ digit (n % 10)) (omega arith)
    ∙ read-cents (n / 100) n
    ∙ ap some (omega arith)

read_amount-pos : (n : ℕ) (cs : List ℕ) → read_from 0 cs ≡ some n → read_amount cs ≡ some (pos n)
unfolding read_amount
read_amount-pos n [] e = cc
read_amount-pos n (c ∷ cs) e = ground (arith, e)

-- The text that PayHere gets for an amount reads back as that amount: sign, units, a point and two
-- digits of cents.
pub format_payhere_amount-read :
    (amount : ℤ) → read_amount (codes (format_payhere_amount amount)) ≡ some amount
unfolding read_amount format_payhere_amount
format_payhere_amount-read (pos n) = read_amount-pos n (codes (fixed n)) (fixed-read n)
format_payhere_amount-read (negsuc n) =
    ap read_amount (codes-append "-" (fixed (suc n))) ∙ ap opposite (fixed-read (suc n))
