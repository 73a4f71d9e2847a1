-- ===== src/Suite/Authorization/Passes.antt =====
-- Why the tests of refusals pass: what the crates say of their texts.
use zkas_signer.Prelude.{
  ◌≡◌, ◌≢◌, refl, Bool, true, false, not, [], ◌++◌, codes, ◌==s◌, ==s_refl, some, Result, ok, err,
  is_ok, ◌∙◌,
}
use zkas_signer.Text.{Str, Bytes, join, trim, str_len, len_utf8, is_ascii_hexdigit, is_whitespace}
use zkas_signer.Crates.Hex.{Hex, HexLaws}
use zkas_signer.Crates.Phrase.{Phrase, PhraseLaws}
use zkas_signer.Crates.Chain.{Chain}
use zkas_signer.Crates.Payment.{Sdk}
use zkas_signer.Signer.Error.{
  Error, network_not_pinned, invalid_recipient, bundle_not_hex, bundle_undecodable,
}
use zkas_signer.Signer.Secret.{is_legacy, parse_seed, resolve_secret}
use zkas_signer.Signer.Secret.Legacy.{resolve_secret-legacy}
use zkas_signer.Signer.Payment.{PaymentJson, Prepared, read_request, read_prepared, pinned_genesis}
use zkas_signer.Signer.Payment as Payments
use zkas_signer.Signer.Payment.Authorized.{verify_and_sign_payment-network}
use zkas_signer.Mobile.{SignerError, signer_refused, SignerObject, from_secret}
use zkas_signer.Mobile.Same.{request_of, from_secret-same}
use zkas_signer.Suite.Phone.{net, legacy_text}
use zkas_signer.Suite.Authorization.{
  authorize_attempt, shielded_text, pop, says_bundle_hex, refusal, order, prepared, IsNoAddress,
  IsNoBundle, not_hex_, not_bundle_,
  an_unknown_network_is_refused_rather_than_signed_against_the_wrong_chain,
  a_recipient_that_is_not_a_shielded_address_is_refused, a_malformed_bundle_is_refused,
  nothing_here_ever_returns_a_signature,
}

module _ (hex : Hex) (phrase : Phrase) (chain : Chain) (sdk : Sdk) (json : PaymentJson) where
  -- What is not read from the daemon is the error, once the user's side is read.
  unread_refused :
      (secret text : Str) (key to : Bytes) (addr : chain.Address) (p : Prepared) (e : Error)
      → resolve_secret hex phrase secret ≡ ok key
      → chain.address_try_from (trim text) ≡ ok addr
      → chain.orchard_recipient_bytes addr ≡ some to
      → read_prepared hex sdk json p ≡ err e
      → Payments.verify_and_sign_payment hex phrase chain sdk json
          (request_of secret (order net text))
          p
        ≡ err e
  unfolding Payments.verify_and_sign_payment read_request parse_seed pinned_genesis ◌==s◌
  unread_refused secret text key to addr p e h1 h2 h3 h4 = rw (h1, h2, h3, h4) refl

  unread_bundle :
      (bundle disclosure alphas : Str)
      → trim bundle ≡ bundle
      → IsNoBundle hex phrase chain sdk json bundle
      → (e : Error) × (read_prepared hex sdk json (prepared bundle disclosure alphas) ≡ err e)
        × (says_bundle_hex (signer_refused e) ≡ true)
  unfolding read_prepared
  unread_bundle bundle disclosure alphas bare (not_hex_ m h) =
      (bundle_not_hex, rw (bare, h) refl, refl)
  unread_bundle bundle disclosure alphas bare (not_bundle_ b m h h') =
      (bundle_undecodable m, rw (bare, h, h') refl, refl)

  module _ (laws : HexLaws hex) (plaws : PhraseLaws phrase) (signer : SignerObject)
      (made : from_secret hex phrase chain legacy_text net ≡ ok signer) where
    -- An attempt ends as the money signer does on the key.
    attempted :
        (network to bundle disclosure alphas : Str) (k : Result Str SignerError → Bool) (e : Error)
        → ((key : Bytes)
            → resolve_secret hex phrase legacy_text ≡ ok key
            → Payments.verify_and_sign_payment hex phrase chain sdk json
                (request_of legacy_text (order network to))
                (prepared bundle disclosure alphas)
              ≡ err e)
        → authorize_attempt hex phrase chain sdk json network to bundle disclosure alphas k
          ≡ k (err (signer_refused e))
    unfolding is_legacy str_len len_utf8 is_ascii_hexdigit trim is_whitespace join
    attempted network to bundle disclosure alphas k e ends =
        let (key, resolved, decoded, n, bytes, lowered) =
          resolve_secret-legacy hex phrase laws legacy_text refl in
        let (a, addresses, viewing, signing, paying) =
          from_secret-same hex phrase chain laws plaws sdk json legacy_text net signer refl made in
        rw (made, paying (order network to) (prepared bundle disclosure alphas), ends key resolved)
          refl

    no_recipient :
        (to bundle disclosure alphas : Str) (k : Result Str SignerError → Bool)
        → trim to ≡ to
        → (h : IsNoAddress hex phrase chain sdk json to)
        → authorize_attempt hex phrase chain sdk json net to bundle disclosure alphas k
          ≡ k (err (signer_refused (invalid_recipient h.0)))
    unfolding Payments.verify_and_sign_payment read_request parse_seed
    no_recipient to bundle disclosure alphas k bare (m, h) =
        attempted net to bundle disclosure alphas k (invalid_recipient m)
          (λ key resolved. rw (resolved, bare, h) refl)

    -- The test passes where its three texts are no addresses.
    a_recipient_that_is_not_a_shielded_address_is_refused_lem :
        IsNoAddress hex phrase chain sdk json (codes "not-an-address")
        → IsNoAddress hex phrase chain sdk json []
        → IsNoAddress hex phrase chain sdk json (pop shielded_text ++ codes "q")
        → a_recipient_that_is_not_a_shielded_address_is_refused hex phrase chain sdk json ≡ true
    unfolding a_recipient_that_is_not_a_shielded_address_is_refused trim is_whitespace
    a_recipient_that_is_not_a_shielded_address_is_refused_lem h1 h2 h3 =
        rw
          (
            no_recipient (codes "not-an-address") (codes "00") (codes "[]") (codes "[]") _ refl h1,
            no_recipient [] (codes "00") (codes "[]") (codes "[]") _ refl h2,
            no_recipient (pop shielded_text ++ codes "q") (codes "00") (codes "[]") (codes "[]") _
                refl h3,
          )
          refl

    module _ (addr : chain.Address) (to : Bytes)
        (read : chain.address_try_from shielded_text ≡ ok addr)
        (shielded : chain.orchard_recipient_bytes addr ≡ some to) where
      other_network :
          (network : Str) (k : Result Str SignerError → Bool)
          → (network ==s net) ≡ false
          → authorize_attempt hex phrase chain sdk json network shielded_text
              (codes "00")
              (codes "[]")
              (codes "[]")
              k
            ≡ k (err (signer_refused (network_not_pinned network)))
      unfolding trim is_whitespace
      other_network network k other =
          let apart : network ≢ net = λ same. let whole = ==s_refl net in cc in
          attempted network shielded_text _ _ _ k (network_not_pinned network) (λ key resolved.
            (verify_and_sign_payment-network hex phrase chain sdk json
                (request_of legacy_text (order network shielded_text))
                (prepared (codes "00") (codes "[]") (codes "[]")) apart).1
              key addr to resolved read shielded)

      no_bundle :
          (bundle disclosure : Str) (k : Result Str SignerError → Bool)
          → trim bundle ≡ bundle
          → IsNoBundle hex phrase chain sdk json bundle
          → (e : Error) × (says_bundle_hex (signer_refused e) ≡ true)
            × (authorize_attempt hex phrase chain sdk json net shielded_text bundle disclosure
                  (codes "[]")
                  k
                ≡ k (err (signer_refused e)))
      unfolding trim is_whitespace
      no_bundle bundle disclosure k bare h =
          let (e, unread, says) = unread_bundle bundle disclosure (codes "[]") bare h in
          (
            e,
            says,
            attempted net shielded_text bundle disclosure (codes "[]") k e (λ key resolved.
                unread_refused legacy_text shielded_text key to addr _ e resolved read shielded
                  unread),
          )

      -- The test passes, under the laws of hex and of phrases, if the key has an address and the
      -- recipient's text is a shielded address.
      an_unknown_network_is_refused_rather_than_signed_against_the_wrong_chain_lem :
          an_unknown_network_is_refused_rather_than_signed_against_the_wrong_chain hex phrase chain
            sdk json
          ≡ true
      unfolding an_unknown_network_is_refused_rather_than_signed_against_the_wrong_chain ◌==s◌
      an_unknown_network_is_refused_rather_than_signed_against_the_wrong_chain_lem =
          rw
            (
              other_network (codes "testnet") _ refl,
              other_network [] _ refl,
              other_network (codes "bitcoin") _ refl,
            )
            refl

      -- Where an attempt fails on the bundle, the refusal is for that reason, and is no signature.
      bundle_refused :
          (bundle : Str)
          → trim bundle ≡ bundle
          → IsNoBundle hex phrase chain sdk json bundle
          → authorize_attempt hex phrase chain sdk json net shielded_text bundle
              (codes "[]")
              (codes "[]")
              (λ r. refusal r says_bundle_hex)
            ≡ true
      bundle_refused bundle bare h =
          let (e, says, ends) =
            no_bundle bundle (codes "[]") (λ r. refusal r says_bundle_hex) bare h in
          ends ∙ says

      -- The test passes where the crates say so of its three texts.
      a_malformed_bundle_is_refused_lem :
          IsNoBundle hex phrase chain sdk json (codes "zz")
          → IsNoBundle hex phrase chain sdk json (codes "00ff")
          → IsNoBundle hex phrase chain sdk json []
          → a_malformed_bundle_is_refused hex phrase chain sdk json ≡ true
      unfolding a_malformed_bundle_is_refused trim is_whitespace
      a_malformed_bundle_is_refused_lem h1 h2 h3 =
          rw
            (
              bundle_refused (codes "zz") refl h1,
              bundle_refused (codes "00ff") refl h2,
              bundle_refused [] refl h3,
            )
            refl

      -- The test passes where `nope` is no address, and neither `zz` nor `00` is a bundle.
      nothing_here_ever_returns_a_signature_lem :
          IsNoAddress hex phrase chain sdk json (codes "nope")
          → IsNoBundle hex phrase chain sdk json (codes "zz")
          → IsNoBundle hex phrase chain sdk json (codes "00")
          → nothing_here_ever_returns_a_signature hex phrase chain sdk json ≡ true
      unfolding nothing_here_ever_returns_a_signature trim is_whitespace ◌==s◌
      nothing_here_ever_returns_a_signature_lem h1 h2 h3 =
          rw
            (
              other_network (codes "testnet") (λ r. not (is_ok r)) refl,
              no_recipient (codes "nope") (codes "00") (codes "[]") (codes "[]")
                  (λ r. not (is_ok r)) refl h1,
              (no_bundle (codes "zz") (codes "[]") (λ r. not (is_ok r)) refl h2).2,
              (no_bundle (codes "00") (codes "x") (λ r. not (is_ok r)) refl h3).2,
            )
            refl
