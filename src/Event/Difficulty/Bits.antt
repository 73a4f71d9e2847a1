-- ===== src/Event/Difficulty/Bits.antt =====
-- The measure of an id is the number of zeros that its binary digits begin with.
use zkas_signer.Prelude.{
  ℕ, zero, suc, ◌+◌, ◌*◌, ◌/◌, ◌%◌, ◌≤◌, ◌<◌, ◌≡◌, refl, Bool, true, ◌&&◌, List, [], ◌∷◌, ◌++◌,
  ◌==◌, if◌then◌else◌, arith, All, length, ==_iff,
}
use zkas_signer.Text.{Bytes, IsByte}
use zkas_signer.Event.Difficulty.{leading_zeros, zero_bits_from, leading_zero_bits}

-- The eight binary digits of a byte, the highest first.
abbrev pub bits_of_byte : ℕ → List ℕ
bits_of_byte b =
    (b / 128 % 2)
    ∷ (b / 64 % 2)
    ∷ (b / 32 % 2)
    ∷ (b / 16 % 2)
    ∷ (b / 8 % 2)
    ∷ (b / 4 % 2)
    ∷ (b / 2 % 2)
    ∷ (b % 2)
    ∷ []

pub bits : Bytes → List ℕ
bits [] = []
bits (b ∷ id) = bits_of_byte b ++ bits id

pub count_zeros : List ℕ → ℕ
count_zeros [] = 0
count_zeros (d ∷ ds) = if d == 0 then suc (count_zeros ds) else 0

count_zeros-le : (ds : List ℕ) → count_zeros ds ≤ length ds
unfolding count_zeros
count_zeros-le [] = omega arith
count_zeros-le (d ∷ ds) = ground (arith, count_zeros-le ds)

count_zeros-append :
    (xs ds : List ℕ)
    → count_zeros (xs ++ ds)
      ≡ (if count_zeros xs == length xs then length xs + count_zeros ds else count_zeros xs)
unfolding count_zeros
count_zeros-append [] ds = ground arith
count_zeros-append (x ∷ xs) ds = ground (arith, count_zeros-append xs ds)

-- A property of every byte, by evaluation.
holds_below : ℕ → (ℕ → Bool) → Bool
holds_below zero p = true
holds_below (suc n) p = p n && holds_below n p

holds_below_sound : (n : ℕ) (p : ℕ → Bool) (x : ℕ) → holds_below n p ≡ true → x < n → p x ≡ true
unfolding holds_below
holds_below_sound zero p x h lt = absurd (omega arith)
holds_below_sound (suc n) p x h lt = ground (arith, holds_below_sound n p x)

byte_table : holds_below 256 (λ b. count_zeros (bits_of_byte b) == leading_zeros b) ≡ true
unfolding holds_below count_zeros leading_zeros
byte_table = refl

count_zeros-byte : (b : ℕ) → IsByte b → count_zeros (bits_of_byte b) ≡ leading_zeros b
count_zeros-byte b h = (==_iff _ _).0 (holds_below_sound 256 _ b byte_table (ground arith))

-- A byte has eight leading zeros only if it is zero.
leading_zeros-eight : (b : ℕ) → (leading_zeros b == 8) ≡ (b == 0)
unfolding leading_zeros
leading_zeros-eight b = ground arith

bits_of_byte-append :
    (b : ℕ) (ds : List ℕ)
    → IsByte b
    → count_zeros (bits_of_byte b ++ ds) ≡ (if b == 0 then 8 + count_zeros ds else leading_zeros b)
bits_of_byte-append b ds h =
    rw (count_zeros-append (bits_of_byte b) ds, count_zeros-byte b h, leading_zeros-eight b) refl

zero_bits_from-count :
    (n : ℕ) (id : Bytes) → All IsByte id → zero_bits_from n id ≡ n + count_zeros (bits id)
unfolding zero_bits_from bits
zero_bits_from-count n [] h = unfold count_zeros in omega arith
zero_bits_from-count n (b ∷ id) (hb, h) =
    ground (arith, bits_of_byte-append b (bits id) hb, zero_bits_from-count (n + 8) id h)

-- `leading_zero_bits` counts the zeros before the first one of the id's binary digits.
pub leading_zero_bits-count :
    (id : Bytes) → All IsByte id → leading_zero_bits id ≡ count_zeros (bits id)
unfolding leading_zero_bits
leading_zero_bits-count id h = omega (arith, zero_bits_from-count 0 id h)

leading_zeros-le : (b : ℕ) → leading_zeros b ≤ 8
unfolding leading_zeros
leading_zeros-le b = ground arith

zero_bits_from-le : (n : ℕ) (id : Bytes) → zero_bits_from n id ≤ n + 8 * length id
unfolding zero_bits_from
zero_bits_from-le n [] = omega arith
zero_bits_from-le n (b ∷ id) = ground (arith, leading_zeros-le b, zero_bits_from-le (n + 8) id)

pub leading_zero_bits-le : (id : Bytes) → leading_zero_bits id ≤ 8 * length id
unfolding leading_zero_bits
leading_zero_bits-le id = omega (arith, zero_bits_from-le 0 id)
