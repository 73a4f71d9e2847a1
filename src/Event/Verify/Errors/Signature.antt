-- ===== src/Event/Verify/Errors/Signature.antt =====
-- What becomes of the key and the signature of an event.
use zkas_signer.Prelude.{
  >>=-by, map_err-eq-err, ◌≡◌, refl, Bool, false, Option, none, some, Result, ok, err, map_err,
  map_err-eq-ok,
}
use zkas_signer.Text.{Str, Bytes}
use zkas_signer.Crates.Hex.{Hex}
use zkas_signer.Crates.Curve.{Curve}
use zkas_signer.Chat.Error.{ChatError, pubkey_not_hex, sig_not_hex}
use zkas_signer.Event.Verify.{or_false, check_signature}

or_false-by {ℓ κ} :
    {A : Type ℓ} (P : Result Bool ChatError → Type κ) (o : Option A) (k : A → Result Bool ChatError)
    → (o ≡ none → P (ok false))
    → ((a : A) → o ≡ some a → P (k a))
    → P (or_false o k)
or_false-by P none k bad good = bad refl
or_false-by P (some a) k bad good = good a refl

module _ (hex : Hex) (curve : Curve) (pubkey sig_hex : Str) (id : Bytes) where
  -- What becomes of the key and the signature, once the id is right.
  pub data Judged : Result Bool ChatError → Type 0 where
    key_no_hex : (m : Str) → hex.decode pubkey ≡ err m → Judged (err (pubkey_not_hex m))
    no_key :
        (b : Bytes)
        → hex.decode pubkey ≡ ok b
        → curve.verifying_from_bytes b ≡ none
        → Judged (ok false)
    sig_no_hex :
        (b : Bytes) (vk : curve.VerifyingKey) (m : Str)
        → hex.decode pubkey ≡ ok b
        → curve.verifying_from_bytes b ≡ some vk
        → hex.decode sig_hex ≡ err m
        → Judged (err (sig_not_hex m))
    no_sig :
        (b : Bytes) (vk : curve.VerifyingKey) (raw : Bytes)
        → hex.decode pubkey ≡ ok b
        → curve.verifying_from_bytes b ≡ some vk
        → hex.decode sig_hex ≡ ok raw
        → curve.signature_try_from raw ≡ none
        → Judged (ok false)
    decided :
        (b : Bytes) (vk : curve.VerifyingKey) (raw : Bytes) (sig : curve.SchnorrSignature)
        → hex.decode pubkey ≡ ok b
        → curve.verifying_from_bytes b ≡ some vk
        → hex.decode sig_hex ≡ ok raw
        → curve.signature_try_from raw ≡ some sig
        → Judged (ok (curve.verify_prehash vk id sig))

  pub check_signature-Judged : Judged (check_signature hex curve pubkey sig_hex id)
  unfolding check_signature
  check_signature-Judged =
      >>=-by Judged (map_err pubkey_not_hex (hex.decode pubkey)) _
        (λ e h. let (m, bad, is) = map_err-eq-err _ _ h in rw is (key_no_hex m bad))
        λ b h.
          let key = map_err-eq-ok _ _ h in
          or_false-by Judged (curve.verifying_from_bytes b) _ (no_key b key) λ vk read.
            >>=-by Judged (map_err sig_not_hex (hex.decode sig_hex)) _
              (λ e h1.
                let (m, bad, is) = map_err-eq-err _ _ h1 in rw is (sig_no_hex b vk m key read bad))
              λ raw h1.
                let had = map_err-eq-ok _ _ h1 in
                or_false-by Judged (curve.signature_try_from raw) _ (no_sig b vk raw key read had)
                  λ sig good. decided b vk raw sig key read had good
