-- ===== src/Signer/Payment/Endings.antt =====
-- The ways in which the authorization of a payment ends.
pub mod User
pub mod Daemon
pub mod Consent
use mathlib.Core.Path.{subst}
use zkas_signer.Prelude.{
  ℕ, ◌≡◌, ◌≢◌, refl, Bool, true, false, List, ◌∷◌, ◌++◌, map, Option, none, some, ◌==s◌, ==s_refl,
  ==s_sound, if◌then◌else◌, codes, All, Result, ok, err, ◌>>=◌, map_err, ok_or, collect, unwrap_or,
  >>=-by, map_err-eq-err, map_err-eq-ok, ok_or-eq-err, ok_or-eq-ok, collect-eq-err,
}
use zkas_signer.Prelude.Int.{to_u64}
use zkas_signer.Text.{Str, Bytes, trim}
use zkas_signer.Crates.Hex.{Hex}
use zkas_signer.Crates.Phrase.{Phrase}
use zkas_signer.Crates.Chain.{Chain}
use zkas_signer.Crates.Payment.{
  ActionDisclosure, SpendAuthRequest, SpendAuthSignature, PreparedPayment, Sdk,
}
use zkas_signer.Signer.Error.{
  Error, invalid_recipient, recipient_not_shielded, network_not_pinned, bundle_not_hex,
  bundle_undecodable, bad_disclosure, bad_spend_auth, refused, unserializable,
}
use zkas_signer.Signer.Secret.{parse_seed, resolve_secret}
use zkas_signer.Signer.Payment.{
  Disc, AlphaReq, PaymentJson, Request, Prepared, mainnet_genesis, payment_tx_context,
  to_disclosure, to_request, to_sig_out, pinned_genesis, intent_of, prepared_of, read_request,
  read_prepared, authorize, verify_and_sign_payment,
}
use zkas_signer.Signer.Payment.Endings.User.{Asked, asked, read_request-Asked}
use zkas_signer.Signer.Payment.Endings.Daemon.{Given, read_prepared-Given}
use zkas_signer.Signer.Payment.Endings.Consent.{Signed, authorize-Signed}

module _ (hex : Hex) (phrase : Phrase) (chain : Chain) (sdk : Sdk) (json : PaymentJson)
    (r : Request) (p : Prepared) where
  -- The ways that a call ends.
  pub data Ending : Result Str Error → Type 0 where
    user_refused : (e : Error) → Asked hex phrase chain r (err e) → Ending (err e)
    daemon_refused :
        (seed to : Bytes) (e : Error)
        → Asked hex phrase chain r (ok (seed, to, mainnet_genesis))
        → Given hex sdk json p (err e)
        → Ending (err e)
    sdk_decided :
        (seed to : Bytes) (bundle : sdk.Bundle) (disclosure : List ActionDisclosure)
        (spend_auth : List SpendAuthRequest) (x : Result Str Error)
        → Asked hex phrase chain r (ok (seed, to, mainnet_genesis))
        → Given hex sdk json p (ok (bundle, disclosure, spend_auth))
        → Signed hex sdk json r seed to bundle disclosure spend_auth x
        → Ending x

  -- What was asked is asked under the pinned genesis.
  genesis_of : (t : Bytes × Bytes × Bytes) → Asked hex phrase chain r (ok t) → t.2 ≡ mainnet_genesis
  genesis_of _ (asked seed addr to h1 h2 h3 h4) = refl

  -- Whatever is given, a call ends in one of these ways, with the result that is given there. What
  -- the user gave is read first: the secret, the address, whether it is shielded, whether the
  -- network is mainnet, and the first that fails is the error. Then what the daemon returned: the
  -- bundle, the disclosures up to the first bad one, the requests up to the first bad one. Only
  -- then is the SDK asked, with the pinned genesis and the recipient, amount and fee ceiling of the
  -- user, and the result is its signatures as text, or its refusal.
  pub verify_and_sign_payment-Ending :
      Ending (verify_and_sign_payment hex phrase chain sdk json r p)
  unfolding verify_and_sign_payment
  verify_and_sign_payment-Ending =
      let user = read_request-Asked hex phrase chain r in
      let daemon = read_prepared-Given hex sdk json p in
      >>=-by Ending (read_request hex phrase chain r) _
        (λ e h. user_refused e (subst (Asked hex phrase chain r) h user))
        λ t h1.
          let was = subst (Asked hex phrase chain r) h1 user in
          let pin = genesis_of t was in
          let own : Asked hex phrase chain r (ok (t.0, t.1, mainnet_genesis)) = rw (← pin) was in
          >>=-by Ending (read_prepared hex sdk json p) _
            (λ e h. daemon_refused t.0 t.1 e own (subst (Given hex sdk json p) h daemon))
            λ u h2.
              sdk_decided t.0 t.1 u.0 u.1 u.2 _ own (subst (Given hex sdk json p) h2 daemon)
                (rw pin (authorize-Signed hex sdk json r t.0 t.1 u.0 u.1 u.2))
