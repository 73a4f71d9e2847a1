-- ===== src/Crates/Hex.antt =====
-- The crate `hex`.
use zkas_signer.Prelude.{ℕ, ◌*◌, ◌≡◌, true, Result, ok, all, All, length}
use zkas_signer.Text.{Str, Bytes, IsByte, is_ascii_hexdigit, to_ascii_lowercase}

-- An error is its text.
pub record Hex : Type 0 where
  pub encode : Bytes → Str
  pub decode : Str → Result Bytes Str

-- Two digits for each byte, the case of the digits being ignored on the way back.
pub record HexLaws (hex : Hex) : Type 0 where
  pub decode-encode : (b : Bytes) → All IsByte b → hex.decode (hex.encode b) ≡ ok b
  pub length-encode : (b : Bytes) → All IsByte b → length (hex.encode b) ≡ 2 * length b
  pub encode-hexdigit : (b : Bytes) → All IsByte b → all is_ascii_hexdigit (hex.encode b) ≡ true
  pub decode-hexdigits :
      (s : Str) (n : ℕ)
      → all is_ascii_hexdigit s ≡ true
      → length s ≡ 2 * n
      → (b : Bytes) × (hex.decode s ≡ ok b) × (length b ≡ n) × All IsByte b
  pub decode-lower :
      (s : Str) → all is_ascii_hexdigit s ≡ true → hex.decode (to_ascii_lowercase s) ≡ hex.decode s
