-- ===== src/Text/Decimal.antt =====
-- Decimal numerals: their digits, and that they determine the number.
use zkas_signer.Prelude.{
  ℕ, zero, suc, ◌+◌, ◌-◌, ◌*◌, ◌/◌, ◌%◌, ◌<◌, ◌≡◌, ap, true, false, [], ◌∷◌, ◌++◌, arith, ltb, leb,
  All, All-append, ◌&&◌, Bool-cases, inl, inr,
}
use mathlib.Core.List.{foldl, foldl-append}
use zkas_signer.Text.{Str, to_string, decimal_upto}

abbrev pub IsDigit : ℕ → Type 0
IsDigit c = (leb b'0' c && leb c b'9') ≡ true

-- The number that a row of digits spells behind `n`.
abbrev pub numeral_value : ℕ → Str → ℕ
numeral_value = foldl (λ n c. n * 10 + (c - b'0'))

decimal_upto-IsDigit : (f n : ℕ) → All IsDigit (decimal_upto f n)
unfolding decimal_upto
decimal_upto-IsDigit zero n = tt
decimal_upto-IsDigit (suc f) n =
    let more =
      All-append IsDigit (decimal_upto f (n / 10)) ((b'0' + n % 10) ∷ [])
        (decimal_upto-IsDigit f (n / 10)) (ground arith, tt) in
    elim (Bool-cases (ltb n 10)) [ inl e ↦ rw e (ground arith, tt) | inr e ↦ rw e more ]

pub to_string-IsDigit : (n : ℕ) → All IsDigit (to_string n)
unfolding to_string
to_string-IsDigit n = decimal_upto-IsDigit (suc n) n

value-decimal_upto : (f n : ℕ) → n < f → numeral_value 0 (decimal_upto f n) ≡ n
unfolding decimal_upto
value-decimal_upto zero n h = absurd (omega arith)
value-decimal_upto (suc f) n h = elim (Bool-cases (ltb n 10)) [
  | inl e ↦ rw e (ground arith)
  | inr e ↦ rw (e, foldl-append) (ground (arith, value-decimal_upto f (n / 10)))
]

-- Reading the numeral of a number gives the number.
pub value-to_string : (n : ℕ) → numeral_value 0 (to_string n) ≡ n
unfolding to_string
value-to_string n = value-decimal_upto (suc n) n (omega arith)

-- The bound on the digits does not matter once it suffices.
pub decimal_upto-enough : (f g n : ℕ) → n < f → n < g → decimal_upto f n ≡ decimal_upto g n
unfolding decimal_upto
decimal_upto-enough zero g n h k = absurd (omega arith)
decimal_upto-enough (suc f) zero n h k = absurd (omega arith)
decimal_upto-enough (suc f) (suc g) n h k = ground (arith, decimal_upto-enough f g (n / 10))

-- The numeral of a number of two digits or more is that of its tenth, and its last digit.
pub to_string-step :
    (n : ℕ) → ltb n 10 ≡ false → to_string n ≡ to_string (n / 10) ++ (b'0' + n % 10) ∷ []
unfolding to_string decimal_upto
to_string-step n h = ground (arith, decimal_upto-enough n (suc (n / 10)) (n / 10))

pub to_string-digit : (n : ℕ) → ltb n 10 ≡ true → to_string n ≡ (b'0' + n) ∷ []
unfolding to_string decimal_upto
to_string-digit n h = rw h

pub to_string-injective : (n m : ℕ) → to_string n ≡ to_string m → n ≡ m
to_string-injective n m h = cc (value-to_string n, value-to_string m, ap (numeral_value 0) h)
