-- ===== src/Crates/Bech.antt =====
-- The crate `bech32`.
use zkas_signer.Prelude.{ℕ, ◌≡◌, List, Result, ok, All, codes, ◌⊎◌}
use zkas_signer.Text.{Str, Bytes, IsByte}
use zkas_signer.Text.Trim.{HasNoSpace}

pub data Variant : Type 0 where
  bech32 bech32m : Variant

-- A payload is a list of 5-bit values.
pub record Bech : Type 0 where
  pub encode : Str → List ℕ → Variant → Result Str Str
  pub decode : Str → Result (Str × List ℕ × Variant) Str
  pub to_base32 : Bytes → List ℕ
  pub from_base32 : List ℕ → Result Bytes Str

-- Bytes go to 5-bit values and back, and under the two prefixes of the keys a payload is encoded
-- as a text without whitespace that decodes to the same prefix, payload and variant.
pub record BechLaws (bech : Bech) : Type 0 where
  pub from_base32-to_base32 :
      (b : Bytes) → All IsByte b → bech.from_base32 (bech.to_base32 b) ≡ ok b
  pub decode-encode :
      (hrp : Str) (b : Bytes) (variant : Variant)
      → All IsByte b
      → (hrp ≡ codes "npub") ⊎ (hrp ≡ codes "nsec")
      → (s : Str) × (bech.encode hrp (bech.to_base32 b) variant ≡ ok s)
        × HasNoSpace s
        × (bech.decode s ≡ ok (hrp, bech.to_base32 b, variant))
