-- ===== src/Text/Utf8.antt =====
-- The UTF-8 form of a text determines the text, and joins as the text does.
use zkas_signer.Prelude.{
  ℕ, suc, ◌+◌, ◌-◌, ◌≡◌, refl, true, [], ◌∷◌, ◌++◌, append_assoc, Option, none, some, if◌then◌else◌,
  arith, ltb, leb, All,
}
use mathlib.Core.Option
use zkas_signer.Text.{Str, Bytes, utf8_char, len_utf8, as_bytes, str_len, slice_to}

-- The range of a `char`; surrogates are not excluded, which only makes the laws stronger.
abbrev pub IsChar : ℕ → Type 0
IsChar c = ltb c 1114112 ≡ true

abbrev pub IsAscii : ℕ → Type 0
IsAscii c = ltb c 128 ≡ true

pub as_bytes-append : (s t : Str) → as_bytes (s ++ t) ≡ as_bytes s ++ as_bytes t
unfolding as_bytes
as_bytes-append [] t = refl
as_bytes-append (c ∷ s) t = simp (as_bytes-append s t, append_assoc)

pub str_len-append : (s t : Str) → str_len (s ++ t) ≡ str_len s + str_len t
unfolding str_len
str_len-append [] t = omega arith
str_len-append (c ∷ s) t = omega (arith, str_len-append s t)

-- An ASCII text is its own UTF-8 form.
pub as_bytes-IsAscii : (s : Str) → All IsAscii s → as_bytes s ≡ s
unfolding as_bytes utf8_char
as_bytes-IsAscii [] h = refl
as_bytes-IsAscii (c ∷ s) (hc, hs) = ground (arith, as_bytes-IsAscii s hs)

utf8_char-injective :
    (c d : ℕ) (r q : Bytes)
    → IsChar c
    → IsChar d
    → utf8_char c ++ r ≡ utf8_char d ++ q
    → (c ≡ d) × (r ≡ q)
unfolding utf8_char
utf8_char-injective c d r q hc hd h = ground arith

utf8_char-ne-nil : (c : ℕ) (r : Bytes) → utf8_char c ++ r ≡ [] → ⊥
unfolding utf8_char
utf8_char-ne-nil c r h = ground arith

-- Two texts with the same bytes are the same text.
pub as_bytes-injective : (s t : Str) → All IsChar s → All IsChar t → as_bytes s ≡ as_bytes t → s ≡ t
unfolding as_bytes
as_bytes-injective [] [] hs ht h = refl
as_bytes-injective [] (d ∷ t) hs ht h = absurd (utf8_char-ne-nil d (as_bytes t) (cc))
as_bytes-injective (c ∷ s) [] hs ht h = absurd (utf8_char-ne-nil c (as_bytes s) h)
as_bytes-injective (c ∷ s) (d ∷ t) (hc, hs) (hd, ht) h =
    let (e, rest) = utf8_char-injective c d (as_bytes s) (as_bytes t) hc hd h in
    cc (e, as_bytes-injective s t hs ht rest)

len_utf8-pos : (c : ℕ) → leb 1 (len_utf8 c) ≡ true
unfolding len_utf8
len_utf8-pos c = ground arith

slice_to-zero : (s : Str) → slice_to s 0 ≡ some []
unfolding slice_to
slice_to-zero [] = refl
slice_to-zero (c ∷ s) = refl

none-map :
    (c : ℕ) (o : Option Str)
    → (if true then elim o [ none ↦ none | some t ↦ some (c ∷ t) ] else none)
      ≡ Option.map (λ t. c ∷ t) o
none-map c none = refl
none-map c (some t) = refl

-- A slice that reaches past the first character takes it.
slice_to-cons :
    (c : ℕ) (s : Str) (n : ℕ)
    → slice_to (c ∷ s) (len_utf8 c + n) ≡ Option.map (λ t. c ∷ t) (slice_to s n)
unfolding slice_to
slice_to-cons c s n =
    let positive : len_utf8 c + n ≡ suc (len_utf8 c + n - 1) = ground (arith, len_utf8-pos c) in
    let left : suc (len_utf8 c + n - 1) - len_utf8 c ≡ n = ground (arith, len_utf8-pos c) in
    let fits : leb (len_utf8 c) (suc (len_utf8 c + n - 1)) ≡ true =
      ground (arith, len_utf8-pos c) in
    rw (positive, left, fits) (none-map c (slice_to s n))

-- A slice at the end of a first part is that part: the index is a character boundary.
pub slice_to-append : (s t : Str) → slice_to (s ++ t) (str_len s) ≡ some s
unfolding str_len
slice_to-append [] t = slice_to-zero t
slice_to-append (c ∷ s) t =
    let n = str_len s in rw (slice_to-cons c (s ++ t) n, slice_to-append s t)
