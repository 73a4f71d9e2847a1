-- ===== src/Witness/Toys/HexToy.antt =====
-- Hex digits as the crate `hex` writes and reads them.
use zkas_signer.Prelude.{
  ℕ, ◌+◌, ◌-◌, ◌*◌, ◌/◌, ◌%◌, ◌≡◌, refl, true, ◌&&◌, [], ◌∷◌, Result, ok, err, all, All, length,
  arith, leb, ltb, if◌then◌else◌, codes, ◌>>=◌,
}
use zkas_signer.Text.{Str, Bytes, IsByte, is_ascii_hexdigit, to_ascii_lowercase, lower_char}
use zkas_signer.Crates.Hex.{Hex, HexLaws}

abbrev digit : ℕ → ℕ
digit n = if ltb n 10 then b'0' + n else b'a' + (n - 10)

abbrev value : ℕ → ℕ
value c = if leb c b'9' then c - b'0' else if leb c b'F' then c - b'A' + 10 else c - b'a' + 10

abbrev hex_encode : Bytes → Str
hex_encode [] = []
hex_encode (b ∷ bs) = digit (b / 16) ∷ digit (b % 16) ∷ hex_encode bs

abbrev hex_decode : Str → Result Bytes Str
hex_decode [] = ok []
hex_decode (c ∷ []) = err (codes "Odd number of digits")
hex_decode (c ∷ d ∷ s) =
    let rest = hex_decode s in
    if is_ascii_hexdigit c && is_ascii_hexdigit d
    then (do bs ← rest; ok ((value c * 16 + value d) ∷ bs))
    else err (codes "Invalid character")

abbrev pub toy_hex : Hex
toy_hex = record { encode = hex_encode; decode = hex_decode }

digit-hexdigit : (n : ℕ) → ltb n 16 ≡ true → is_ascii_hexdigit (digit n) ≡ true
unfolding is_ascii_hexdigit
digit-hexdigit n h = ground arith

value-digit : (n : ℕ) → ltb n 16 ≡ true → value (digit n) ≡ n
value-digit n h = ground arith

value-lt : (c : ℕ) → is_ascii_hexdigit c ≡ true → ltb (value c) 16 ≡ true
unfolding is_ascii_hexdigit
value-lt c h = ground arith

value-lower : (c : ℕ) → is_ascii_hexdigit c ≡ true → value (lower_char c) ≡ value c
unfolding is_ascii_hexdigit lower_char
value-lower c h = ground arith

lower-hexdigit : (c : ℕ) → is_ascii_hexdigit c ≡ true → is_ascii_hexdigit (lower_char c) ≡ true
unfolding is_ascii_hexdigit lower_char
lower-hexdigit c h = ground arith

decode_encode : (b : Bytes) → All IsByte b → hex_decode (hex_encode b) ≡ ok b
decode_encode [] h = refl
decode_encode (b ∷ bs) (hb, h) =
    let hi : ltb (b / 16) 16 ≡ true = ground arith in
    let lo : ltb (b % 16) 16 ≡ true = ground arith in
    let whole : b / 16 * 16 + b % 16 ≡ b = omega arith in
    rw
      (
        digit-hexdigit (b / 16) hi,
        digit-hexdigit (b % 16) lo,
        decode_encode bs h,
        value-digit (b / 16) hi,
        value-digit (b % 16) lo,
        whole,
      )
      refl

length_encode : (b : Bytes) → length (hex_encode b) ≡ 2 * length b
length_encode [] = omega arith
length_encode (b ∷ bs) = omega (arith, length_encode bs)

encode_hexdigit : (b : Bytes) → All IsByte b → all is_ascii_hexdigit (hex_encode b) ≡ true
encode_hexdigit [] h = refl
encode_hexdigit (b ∷ bs) (hb, h) =
    rw
      (
        digit-hexdigit (b / 16) (ground arith),
        digit-hexdigit (b % 16) (ground arith),
        encode_hexdigit bs h,
      )
      refl

decode_hexdigits :
    (s : Str) (n : ℕ)
    → all is_ascii_hexdigit s ≡ true
    → length s ≡ 2 * n
    → (b : Bytes) × (hex_decode s ≡ ok b) × (length b ≡ n) × All IsByte b
decode_hexdigits [] n h e = ([], refl, omega arith, tt)
decode_hexdigits (c ∷ []) n h e = absurd (omega arith)
decode_hexdigits (c ∷ d ∷ s) n h e =
    let hc : is_ascii_hexdigit c ≡ true = ground arith in
    let hd : is_ascii_hexdigit d ≡ true = ground arith in
    let (bs, decoded, size, bytes) = decode_hexdigits s (n - 1) (ground arith) (omega arith) in
    (
      (value c * 16 + value d) ∷ bs,
      rw (hc, hd, decoded) refl,
      omega arith,
      (ground (arith, value-lt c hc, value-lt d hd), bytes),
    )

decode_lower :
    (s : Str) → all is_ascii_hexdigit s ≡ true → hex_decode (to_ascii_lowercase s) ≡ hex_decode s
unfolding to_ascii_lowercase
decode_lower [] h = refl
decode_lower (c ∷ []) h = refl
decode_lower (c ∷ d ∷ s) h =
    let hc : is_ascii_hexdigit c ≡ true = ground arith in
    let hd : is_ascii_hexdigit d ≡ true = ground arith in
    rw
      (
        lower-hexdigit c hc,
        lower-hexdigit d hd,
        hc,
        hd,
        value-lower c hc,
        value-lower d hd,
        decode_lower s (ground arith),
      )
      refl

pub toy_hex-HexLaws : HexLaws toy_hex
toy_hex-HexLaws = record {
  decode-encode = decode_encode;
  length-encode = λ b h. length_encode b;
  encode-hexdigit = encode_hexdigit;
  decode-hexdigits = decode_hexdigits;
  decode-lower = decode_lower;
}
