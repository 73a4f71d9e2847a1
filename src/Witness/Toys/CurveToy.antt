-- ===== src/Witness/Toys/CurveToy.antt =====
-- Keys and signatures that are told apart by their length, and a MAC that is a checksum.
use zkas_signer.Prelude.{
  ℕ, zero, suc, ◌%◌, ◌+◌, ◌≡◌, refl, true, ◌∷◌, ◌++◌, Option, none, some, Result, ok, All, length,
  replicate, ◌==◌, arith, if◌then◌else◌,
}
use zkas_signer.Text.{Str, Bytes, IsByte}
use zkas_signer.Crates.Curve.{Curve, SchnorrLaws, KeyLaws}
use zkas_signer.Witness.Toys.ChainToy.{total, length-replicate, filled}

abbrev pub toy_curve : Curve
toy_curve = record {
  Scalar = ℕ;
  from_repr_vartime = λ b. some (total b);
  scalar_add = λ a b. a + b;
  NonZeroScalar = ℕ;
  non_zero_new = λ n. if n == 0 then none else some n;
  non_zero_as_ref = λ n. n;
  secret_to_bytes = λ k. replicate 32 (k % 256);
  encoded_point = λ k. 2 ∷ replicate 32 1;
  SigningKey = ℕ;
  signing_from_bytes = λ b. ok (total b);
  VerifyingKey = ℕ;
  verifying_key = λ sk. 32;
  verifying_to_bytes = λ vk. replicate vk 1;
  verifying_from_bytes = λ b. some (length b);
  SchnorrSignature = ℕ;
  sign_prehash = λ sk h. ok (total h % 8);
  signature_to_bytes = λ s. replicate s 1;
  signature_try_from = λ b. some (length b);
  verify_prehash = λ vk h s. s == total h % 8;
  Mac = Bytes;
  mac_new = λ k. some k;
  mac_update = λ m b. m ++ b;
  mac_finalize = λ m. replicate 64 (total m % 256);
}

ones : (n : ℕ) → All IsByte (replicate n 1)
ones zero = tt
ones (suc n) = (refl, ones n)

read_back : (n : ℕ) → ◌≡◌ {A = Option ℕ} (some (length {A = ℕ} (replicate n 1))) (some n)
read_back n = rw (length-replicate n 1) refl

agrees : (a s : ℕ) → ◌≡◌ {A = Result ℕ Str} (ok a) (ok s) → (s == a) ≡ true
agrees a s h = ground arith

pub toy_curve-SchnorrLaws : SchnorrLaws toy_curve
toy_curve-SchnorrLaws = record {
  key_bytes = λ vk. ones vk;
  key_read = λ vk. read_back vk;
  signature_bytes = λ s. ones s;
  signature_read = λ s. read_back s;
  accepted = λ sk h s e. agrees (total h % 8) s e;
}

pub toy_curve-KeyLaws : KeyLaws toy_curve
toy_curve-KeyLaws = record {
  secret_bytes = λ k. (length-replicate 32 (k % 256), filled 32 k);
  x_bytes = λ k. (refl, ones 32);
  signing_read = λ k. (total (replicate 32 (k % 256)), refl, refl);
}
