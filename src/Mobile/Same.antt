-- ===== src/Mobile/Same.antt =====
-- The phone's signer is the money signer on the same secret.
use zkas_signer.Prelude.{
  ◌≡◌, ◌∙◌, refl, sym, false, [], ok, map_err, map_ok, >>=-eq-ok, map_err-eq-ok, ok-injective,
  Bool-cases, inl, inr,
}
use zkas_signer.Text.{Str, Bytes, is_empty, trim}
use zkas_signer.Text.Trim.{trim_idem}
use zkas_signer.Crates.Hex.{Hex, HexLaws}
use zkas_signer.Crates.Phrase.{Phrase, PhraseLaws}
use zkas_signer.Crates.Chain.{Chain}
use zkas_signer.Crates.Payment.{Sdk}
use zkas_signer.Signer.Secret.{is_legacy, resolve_secret, secret_from_phrase, account_secret}
use zkas_signer.Signer.Secret.Account.{account_secret-zero}
use zkas_signer.Signer.Secret.Legacy.{resolve_secret-legacy}
use zkas_signer.Signer.Wallet.{account_seed_hex, address_from_seed, fvk_hex}
use zkas_signer.Signer.Wallet.RoundTrip.{resolve_secret-encode}
use zkas_signer.Signer.Wallet.Phrases.{account_secret-IsSeed}
use zkas_signer.Signer.Message.{Signature, sign}
use zkas_signer.Signer.Accounts.{resolve_secret-IsOneSecret}
use zkas_signer.Signer.Payment.{PaymentJson, Request, Prepared}
use zkas_signer.Signer.Payment as Payments
use zkas_signer.Mobile.{
  signer_refused, SignerObject, Order, account_key, address, from_secret, viewing_key, sign_message,
  verify_and_sign_payment,
}

-- The request to the money signer that an order is, under a secret.
abbrev pub request_of : Str → Order → Request
request_of secret o = record {
  seed_hex = secret;
  network = o.network;
  to_address = o.to_address;
  amount_sompi = o.amount_sompi;
  max_fee_sompi = o.max_fee_sompi;
}

module _ (hex : Hex) (phrase : Phrase) (chain : Chain) (laws : HexLaws hex)
    (plaws : PhraseLaws phrase) where
  resolve_secret-trim : (s : Str) → resolve_secret hex phrase (trim s) ≡ resolve_secret hex phrase s
  unfolding resolve_secret
  resolve_secret-trim s = rw (trim_idem s) refl

  resolve_secret-other :
      (s : Str)
      → is_legacy (trim s) ≡ false
      → is_empty (trim s) ≡ false
      → resolve_secret hex phrase s ≡ secret_from_phrase phrase (trim s) []
  unfolding resolve_secret
  resolve_secret-other s h e = rw (h, e) refl

  -- The key that the object signs with resolves to what its secret resolves to.
  account_key-resolves :
      (secret k : Str)
      → is_empty (trim secret) ≡ false
      → account_key hex phrase (record { secret = trim secret }) ≡ ok k
      → (b : Bytes) × (resolve_secret hex phrase k ≡ ok b)
        × (resolve_secret hex phrase secret ≡ ok b)
  unfolding account_key account_seed_hex
  account_key-resolves secret k some_ e = elim (Bool-cases (is_legacy (trim secret))) [
    | inl legacy ↦
        let (b, resolved, decoded, n, bytes, lowered) =
          resolve_secret-legacy hex phrase laws secret legacy in
        let same : trim secret ≡ k = ok-injective (rw legacy at e) in
        (b, rw (← same) (resolve_secret-trim secret ∙ resolved), resolved)
    | inr other ↦
        let (key, derived, e1) =
          >>=-eq-ok (account_secret phrase (trim secret) 0) _
            (map_err-eq-ok signer_refused _ (rw other at e)) in
        (
          key,
          rw (← ok-injective e1) (
              resolve_secret-encode hex phrase laws key
                (account_secret-IsSeed hex phrase chain laws plaws (trim secret) 0 key derived)),
          resolve_secret-other secret other some_
              ∙ (account_secret-zero hex phrase plaws (trim secret) key).0 derived,
        )
  ]

  module _ (sdk : Sdk) (json : PaymentJson) where
    -- Under the laws of hex and of phrases, an object that is made from a secret that is not blank
    -- does what the money signer does on that secret: the same addresses, viewing key, signatures
    -- and payments, and the same errors; and it is made on a network only if the secret has an
    -- address there.
    pub from_secret-same :
        (secret network : Str) (self : SignerObject)
        → is_empty (trim secret) ≡ false
        → from_secret hex phrase chain secret network ≡ ok self
        → ((a : Str) × (address_from_seed hex phrase chain secret network ≡ ok a))
          × ((other : Str)
              → address hex phrase chain self other
                ≡ map_err signer_refused (address_from_seed hex phrase chain secret other))
          × (viewing_key hex phrase chain self
              ≡ map_err signer_refused (fvk_hex hex phrase chain secret))
          × ((other message : Str) (rng : chain.Rng)
              → sign_message hex phrase chain self other message rng
                ≡ map_err signer_refused (
                    map_ok
                      (λ (s : Signature). s.signature_hex)
                      (sign hex phrase chain secret other message rng)))
          × ((o : Order) (p : Prepared)
              → verify_and_sign_payment hex phrase chain sdk json self o p
                ≡ map_err signer_refused (
                    Payments.verify_and_sign_payment hex phrase chain sdk json
                      (request_of secret o)
                      p))
    unfolding from_secret address viewing_key sign_message verify_and_sign_payment
    from_secret-same secret network self some_ e =
        let held : SignerObject = record { secret = trim secret } in
        let (a, checked, e1) = >>=-eq-ok (address hex phrase chain held network) _ e in
        let same : held ≡ self = ok-injective e1 in
        let (k, keyed, e2) = >>=-eq-ok (account_key hex phrase held) _ checked in
        let (b, hk, hs) = account_key-resolves secret k some_ keyed in
        let (addresses, viewing, signing, spending, paying) =
          resolve_secret-IsOneSecret hex phrase chain sdk json k secret (hk ∙ sym hs) in
        rw (← same) (
          (a, sym (addresses network) ∙ map_err-eq-ok signer_refused _ e2),
          λ other. rw (keyed, addresses other) refl,
          rw (keyed, viewing) refl,
          λ other message rng. rw (keyed, signing other message rng) refl,
          λ o p. rw (keyed, paying (request_of secret o) p) refl,
        )
