-- ===== src/Suite/Authorization.antt =====
-- mobile/src/lib.rs: its tests of what the authorization of a payment refuses.
pub mod Passes
use zkas_signer.Prelude.{
  ◌&&◌, ◌≡◌, ◌≢◌, refl, Bool, true, false, not, [], ◌∷◌, ◌++◌, codes, ◌==s◌, ==s_refl, some, Result,
  ok, err, is_ok, ◌∙◌,
}
use zkas_signer.Text.{Str, Bytes, join, trim, str_len, len_utf8, is_ascii_hexdigit, is_whitespace}
use zkas_signer.Crates.Hex.{Hex, HexLaws}
use zkas_signer.Crates.Phrase.{Phrase, PhraseLaws}
use zkas_signer.Crates.Chain.{Chain}
use zkas_signer.Crates.Payment.{Sdk}
use zkas_signer.Signer.Error.{
  Error, unknown_network, network_not_pinned, invalid_recipient, bundle_not_hex, bundle_undecodable,
}
use zkas_signer.Signer.Secret.{is_legacy, parse_seed, resolve_secret}
use zkas_signer.Signer.Secret.Legacy.{resolve_secret-legacy}
use zkas_signer.Signer.Payment.{PaymentJson, Prepared, read_request, read_prepared, pinned_genesis}
use zkas_signer.Signer.Payment as Payments
use zkas_signer.Signer.Payment.Authorized.{verify_and_sign_payment-network}
use zkas_signer.Mobile.{
  SignerError, signer_refused, SignerObject, Order, from_secret, verify_and_sign_payment,
}
use zkas_signer.Mobile.Same.{request_of, from_secret-same}
use zkas_signer.Suite.{unwrap}
use zkas_signer.Suite.Phone.{net, legacy_text}

-- `ADDR`
abbrev shielded_text : Str
shielded_text =
    codes "zkas:p8a4neush78c56rcqraed3esy280ar2xatee3zucz39hyyxgjz80ph6mfj0430v4r3ek6qgj8dkk0ll"

-- `s.pop()`
abbrev pop : Str → Str
pop [] = []
pop (c ∷ []) = []
pop (c ∷ d ∷ s) = c ∷ pop (d ∷ s)

-- Whether the own words of an error contain "unknown network", "recipient address", "bundle_hex".
abbrev says_unknown_network : SignerError → Bool
says_unknown_network (signer_refused (unknown_network n)) = true
says_unknown_network (signer_refused (network_not_pinned n)) = true
says_unknown_network _ = false

abbrev says_recipient_address : SignerError → Bool
says_recipient_address (signer_refused (invalid_recipient m)) = true
says_recipient_address _ = false

abbrev says_bundle_hex : SignerError → Bool
says_bundle_hex (signer_refused bundle_not_hex) = true
says_bundle_hex (signer_refused (bundle_undecodable m)) = true
says_bundle_hex _ = false

abbrev refusal : Result Str SignerError → (SignerError → Bool) → Bool
refusal (ok out) expect = false
refusal (err e) expect = expect e

abbrev order : Str → Str → Order
order network to = record {
  network = network;
  to_address = to;
  amount_sompi = 1000;
  max_fee_sompi = 10000;
}

abbrev prepared : Str → Str → Str → Prepared
prepared bundle disclosure alphas = record {
  bundle_hex = bundle;
  disclosure_json = disclosure;
  alphas_json = alphas;
}

module _ (hex : Hex) (phrase : Phrase) (chain : Chain) (sdk : Sdk) (json : PaymentJson) where
  -- The signer is made first: a test whose signer is not made does not pass.
  abbrev authorize_attempt : Str → Str → Str → Str → Str → (Result Str SignerError → Bool) → Bool
  authorize_attempt network to bundle disclosure alphas k =
      unwrap (from_secret hex phrase chain legacy_text net) λ signer. k (
        verify_and_sign_payment hex phrase chain sdk json signer (order network to)
          (prepared bundle disclosure alphas))

  unfoldable an_unknown_network_is_refused_rather_than_signed_against_the_wrong_chain : Bool
  an_unknown_network_is_refused_rather_than_signed_against_the_wrong_chain =
      authorize_attempt (codes "testnet") shielded_text (codes "00") (codes "[]") (codes "[]")
        (λ r. refusal r says_unknown_network)
      && authorize_attempt [] shielded_text (codes "00") (codes "[]") (codes "[]")
          (λ r. refusal r says_unknown_network)
      && authorize_attempt (codes "bitcoin") shielded_text (codes "00") (codes "[]") (codes "[]")
          (λ r. refusal r says_unknown_network)

  unfoldable a_recipient_that_is_not_a_shielded_address_is_refused : Bool
  a_recipient_that_is_not_a_shielded_address_is_refused =
      authorize_attempt net (codes "not-an-address") (codes "00") (codes "[]") (codes "[]")
        (λ r. refusal r says_recipient_address)
      && authorize_attempt net [] (codes "00") (codes "[]") (codes "[]")
          (λ r. refusal r says_recipient_address)
      && authorize_attempt net (pop shielded_text ++ codes "q") (codes "00") (codes "[]")
          (codes "[]") (λ r. refusal r says_recipient_address)

  unfoldable a_malformed_bundle_is_refused : Bool
  a_malformed_bundle_is_refused =
      authorize_attempt net shielded_text (codes "zz") (codes "[]") (codes "[]")
        (λ r. refusal r says_bundle_hex)
      && authorize_attempt net shielded_text (codes "00ff") (codes "[]") (codes "[]")
          (λ r. refusal r says_bundle_hex)
      && authorize_attempt net shielded_text [] (codes "[]") (codes "[]")
          (λ r. refusal r says_bundle_hex)

  unfoldable nothing_here_ever_returns_a_signature : Bool
  nothing_here_ever_returns_a_signature =
      authorize_attempt (codes "testnet") shielded_text (codes "00") (codes "[]") (codes "[]")
        (λ r. not (is_ok r))
      && authorize_attempt net (codes "nope") (codes "00") (codes "[]") (codes "[]")
          (λ r. not (is_ok r))
      && authorize_attempt net shielded_text (codes "zz") (codes "[]") (codes "[]")
          (λ r. not (is_ok r))
      && authorize_attempt net shielded_text (codes "00") (codes "x") (codes "[]")
          (λ r. not (is_ok r))

  -- What the crates say of a text: it is no address; it is not hex, or the bytes are no bundle.
  abbrev IsNoAddress : Str → Type 0
  IsNoAddress s = (m : Str) × (chain.address_try_from s ≡ err m)

  data IsNoBundle (s : Str) : Type 0 where
    not_hex_ : (m : Str) → hex.decode s ≡ err m → IsNoBundle s
    not_bundle_ :
        (b : Bytes) (m : Str) → hex.decode s ≡ ok b → sdk.bundle_from_bytes b ≡ err m → IsNoBundle s
