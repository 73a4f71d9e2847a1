-- ===== src/Signer/Secret/Legacy.antt =====
-- A legacy secret, 64 hex digits, is its own 32 bytes.
use zkas_signer.Prelude.{ℕ, ◌≡◌, ◌∙◌, refl, true, [], ◌∷◌, arith, all, All, length, ok, some}
use zkas_signer.Text.{
  Str, Bytes, IsByte, str_len, len_utf8, is_ascii_hexdigit, is_whitespace, to_ascii_lowercase, trim,
}
use zkas_signer.Text.Trim.{HasNoSpace, trim-HasNoSpace}
use zkas_signer.Crates.Hex.{Hex, HexLaws}
use zkas_signer.Crates.Phrase.{Phrase}
use zkas_signer.Signer.Secret.{is_legacy, to_array, resolve_secret}

-- Hex digits take one byte each.
pub str_len-hexdigit : (s : Str) → all is_ascii_hexdigit s ≡ true → str_len s ≡ length s
unfolding str_len len_utf8 is_ascii_hexdigit
str_len-hexdigit [] h = refl
str_len-hexdigit (c ∷ s) h = ground (arith, str_len-hexdigit s)

pub hexdigit-HasNoSpace : (s : Str) → all is_ascii_hexdigit s ≡ true → HasNoSpace s
unfolding is_ascii_hexdigit is_whitespace
hexdigit-HasNoSpace [] h = tt
hexdigit-HasNoSpace (c ∷ s) h = (ground arith, hexdigit-HasNoSpace s (ground arith))

-- Hex text is not changed by trimming.
pub trim-hexdigit : (s : Str) → all is_ascii_hexdigit s ≡ true → trim s ≡ s
trim-hexdigit s h = trim-HasNoSpace s (hexdigit-HasNoSpace s h)

pub all-lower :
    (s : Str) → all is_ascii_hexdigit s ≡ true → all is_ascii_hexdigit (to_ascii_lowercase s) ≡ true
unfolding is_ascii_hexdigit to_ascii_lowercase
all-lower [] h = refl
all-lower (c ∷ s) h = ground (arith, all-lower s)

pub length-lower : (s : Str) → length (to_ascii_lowercase s) ≡ length s
unfolding to_ascii_lowercase
length-lower [] = refl
length-lower (c ∷ s) = omega (arith, length-lower s)

pub is_legacy-parts :
    (s : Str) → is_legacy s ≡ true → (str_len s ≡ 64) × (all is_ascii_hexdigit s ≡ true)
unfolding is_legacy
is_legacy-parts s h = ground arith

pub to_legacy : (s : Str) → length s ≡ 64 → all is_ascii_hexdigit s ≡ true → is_legacy s ≡ true
unfolding is_legacy
to_legacy s n h = let size = str_len-hexdigit s h in ground arith

pub to_array-length : (n : ℕ) (b : Bytes) → length b ≡ n → to_array n b ≡ some b
unfolding to_array
to_array-length n b h = ground arith

module _ (hex : Hex) (phrase : Phrase) where
  -- A legacy secret is read by `hex::decode` alone.
  pub resolve_secret-decode :
      (secret : Str) (b : Bytes)
      → is_legacy (trim secret) ≡ true
      → hex.decode (trim secret) ≡ ok b
      → length b ≡ 32
      → resolve_secret hex phrase secret ≡ ok b
  unfolding resolve_secret
  resolve_secret-decode secret b h d n = rw (h, d, to_array-length 32 b n) refl

module _ (hex : Hex) (phrase : Phrase) (laws : HexLaws hex) where
  -- A secret that trims to 64 hex digits is never refused and never derived from: it resolves to
  -- the 32 bytes that its digits spell, and in lower case to the same bytes.
  pub resolve_secret-legacy :
      (secret : Str)
      → is_legacy (trim secret) ≡ true
      → (b : Bytes) × (resolve_secret hex phrase secret ≡ ok b)
        × (hex.decode (trim secret) ≡ ok b)
        × (length b ≡ 32)
        × All IsByte b
        × (resolve_secret hex phrase (to_ascii_lowercase (trim secret)) ≡ ok b)
  resolve_secret-legacy secret h =
      let s = trim secret in
      let (size, digits) = is_legacy-parts s h in
      let (b, decoded, n, bytes) =
        laws.decode-hexdigits s 32 digits (omega (arith, str_len-hexdigit s digits)) in
      let lower = to_ascii_lowercase s in
      let lower_digits = all-lower s digits in
      let whole = trim-hexdigit lower lower_digits in
      let lower_legacy =
        to_legacy lower (omega (arith, length-lower s, str_len-hexdigit s digits)) lower_digits in
      (
        b,
        resolve_secret-decode hex phrase secret b h decoded n,
        decoded,
        n,
        bytes,
        resolve_secret-decode hex phrase lower b (rw whole lower_legacy)
            (rw whole (laws.decode-lower s digits ∙ decoded)) n,
      )
