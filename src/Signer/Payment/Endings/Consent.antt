-- ===== src/Signer/Payment/Endings/Consent.antt =====
-- How the SDK's check and its signatures end.
use zkas_signer.Prelude.{
  ◌≡◌, refl, List, map, Result, ok, err, map_err, unwrap_or, >>=-by, map_err-eq-err, map_err-eq-ok,
}
use zkas_signer.Prelude.Int.{to_u64}
use zkas_signer.Text.{Str, Bytes}
use zkas_signer.Crates.Hex.{Hex}
use zkas_signer.Crates.Payment.{ActionDisclosure, SpendAuthRequest, SpendAuthSignature, Sdk}
use zkas_signer.Signer.Error.{Error, refused, unserializable}
use zkas_signer.Signer.Payment.{
  PaymentJson, Request, mainnet_genesis, payment_tx_context, to_sig_out, intent_of, prepared_of,
  authorize,
}

module _ (hex : Hex) (sdk : Sdk) (json : PaymentJson) (r : Request) (seed to : Bytes)
    (bundle : sdk.Bundle) (disclosure : List ActionDisclosure)
    (spend_auth : List SpendAuthRequest) where
  -- The SDK's answer to the payment, for the recipient, amount and ceiling of the user.
  abbrev pub answer : sdk.SoftwareSigner → Result (List SpendAuthSignature) Str
  answer signer =
      sdk.verify_and_sign signer mainnet_genesis
        (record { recipient = to; amount = r.amount_sompi; max_fee = r.max_fee_sompi })
        (record {
          version = sdk.version;
          network_domain = mainnet_genesis;
          tx_context = payment_tx_context;
          bundle = bundle;
          disclosure = disclosure;
          spend_auth = spend_auth;
          claimed = record {
            recipient = to;
            amount = r.amount_sompi;
            fee = unwrap_or 0 (to_u64 (sdk.value_balance bundle));
          };
        })

  -- The SDK's side.
  pub data Signed : Result Str Error → Type 0 where
    no_signer : (m : Str) → sdk.signer_new seed ≡ err m → Signed (err (refused m))
    no_consent :
        (signer : sdk.SoftwareSigner) (m : Str)
        → sdk.signer_new seed ≡ ok signer
        → answer signer ≡ err m
        → Signed (err (refused m))
    no_text :
        (signer : sdk.SoftwareSigner) (signatures : List SpendAuthSignature) (m : Str)
        → sdk.signer_new seed ≡ ok signer
        → answer signer ≡ ok signatures
        → json.write_sigs (map (to_sig_out hex) signatures) ≡ err m
        → Signed (err (unserializable m))
    signed :
        (signer : sdk.SoftwareSigner) (signatures : List SpendAuthSignature) (out : Str)
        → sdk.signer_new seed ≡ ok signer
        → answer signer ≡ ok signatures
        → json.write_sigs (map (to_sig_out hex) signatures) ≡ ok out
        → Signed (ok out)

  written :
      (signer : sdk.SoftwareSigner) (signatures : List SpendAuthSignature) (w : Result Str Str)
      → json.write_sigs (map (to_sig_out hex) signatures) ≡ w
      → sdk.signer_new seed ≡ ok signer
      → answer signer ≡ ok signatures
      → Signed (map_err unserializable w)
  written signer signatures (ok out) e h1 h2 = signed signer signatures out h1 h2 e
  written signer signatures (err m) e h1 h2 = no_text signer signatures m h1 h2 e

  pub authorize-Signed :
      Signed (authorize hex sdk json r (seed, to, mainnet_genesis) (bundle, disclosure, spend_auth))
  unfolding authorize intent_of prepared_of
  authorize-Signed =
      >>=-by Signed (map_err refused (sdk.signer_new seed)) _
        (λ e h. let (m, bad, is) = map_err-eq-err _ _ h in rw is (no_signer m bad))
        λ signer h1.
          let unlocked = map_err-eq-ok _ _ h1 in
          >>=-by Signed (map_err refused (answer signer)) _
            (λ e h.
              let (m, bad, is) = map_err-eq-err _ _ h in rw is (no_consent signer m unlocked bad))
            λ signatures h2. written signer signatures _ refl unlocked (map_err-eq-ok _ _ h2)
