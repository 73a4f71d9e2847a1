-- ===== src/Crates/Curve.antt =====
-- secp256k1 and BIP-340 (`k256`), and HMAC-SHA512 (`hmac` with `sha2`).
use zkas_signer.Prelude.{◌≡◌, Bool, true, Option, some, Result, ok, All, length, take, drop}
use zkas_signer.Text.{Str, Bytes, IsByte}

pub record Curve : Type 1 where
  -- `Scalar`, `NonZeroScalar`; a `SecretKey` is a scalar that is not zero
  pub Scalar : Type 0
  pub from_repr_vartime : Bytes → Option Scalar
  pub scalar_add : Scalar → Scalar → Scalar
  pub NonZeroScalar : Type 0
  pub non_zero_new : Scalar → Option NonZeroScalar
  pub non_zero_as_ref : NonZeroScalar → Scalar
  pub secret_to_bytes : NonZeroScalar → Bytes
  -- `public_key().to_encoded_point(true)`: the 33 bytes of the compressed point
  pub encoded_point : NonZeroScalar → Bytes
  -- `k256::schnorr`
  pub SigningKey : Type 0
  pub signing_from_bytes : Bytes → Result SigningKey Str
  pub VerifyingKey : Type 0
  pub verifying_key : SigningKey → VerifyingKey
  pub verifying_to_bytes : VerifyingKey → Bytes
  -- the error is not read
  pub verifying_from_bytes : Bytes → Option VerifyingKey
  pub SchnorrSignature : Type 0
  pub sign_prehash : SigningKey → Bytes → Result SchnorrSignature Str
  pub signature_to_bytes : SchnorrSignature → Bytes
  pub signature_try_from : Bytes → Option SchnorrSignature
  -- `verify_prehash(…).is_ok()`
  pub verify_prehash : VerifyingKey → Bytes → SchnorrSignature → Bool
  -- `HmacSha512`
  pub Mac : Type 0
  pub mac_new : Bytes → Option Mac
  pub mac_update : Mac → Bytes → Mac
  pub mac_finalize : Mac → Bytes

-- A public key and a signature are byte strings that are read back, and a signature verifies under
-- the key that made it.
pub record SchnorrLaws (curve : Curve) : Type 0 where
  pub key_bytes : (vk : curve.VerifyingKey) → All IsByte (curve.verifying_to_bytes vk)
  pub key_read :
      (vk : curve.VerifyingKey) → curve.verifying_from_bytes (curve.verifying_to_bytes vk) ≡ some vk
  pub signature_bytes : (s : curve.SchnorrSignature) → All IsByte (curve.signature_to_bytes s)
  pub signature_read :
      (s : curve.SchnorrSignature) → curve.signature_try_from (curve.signature_to_bytes s) ≡ some s
  pub accepted :
      (sk : curve.SigningKey) (hash : Bytes) (s : curve.SchnorrSignature)
      → curve.sign_prehash sk hash ≡ ok s
      → curve.verify_prehash (curve.verifying_key sk) hash s ≡ true

-- The bytes of a secret key and of its compressed point, and that the x coordinate of the point is
-- the key that BIP-340 verifies under.
pub record KeyLaws (curve : Curve) : Type 0 where
  pub secret_bytes :
      (k : curve.NonZeroScalar)
      → (length (curve.secret_to_bytes k) ≡ 32) × All IsByte (curve.secret_to_bytes k)
  pub x_bytes :
      (k : curve.NonZeroScalar)
      → (length (take 32 (drop 1 (curve.encoded_point k))) ≡ 32)
        × All IsByte (take 32 (drop 1 (curve.encoded_point k)))
  pub signing_read :
      (k : curve.NonZeroScalar)
      → (sk : curve.SigningKey) × (curve.signing_from_bytes (curve.secret_to_bytes k) ≡ ok sk)
        × (curve.verifying_to_bytes (curve.verifying_key sk)
            ≡ take 32 (drop 1 (curve.encoded_point k)))
