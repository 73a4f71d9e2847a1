-- ===== src/Signer/Payment/Authorized.antt =====
-- Exactly when `verify_and_sign_payment` authorizes a payment, and what it hands to the SDK.
use zkas_signer.Prelude.{
  ◌≡◌, ◌≢◌, ◌↔◌, refl, List, map, ==s-false, ok, err, unwrap_or, collect, codes, some, >>=-then,
}
use zkas_signer.Prelude.Int.{to_u64}
use zkas_signer.Text.{Str, Bytes, trim}
use zkas_signer.Crates.Hex.{Hex}
use zkas_signer.Crates.Phrase.{Phrase}
use zkas_signer.Crates.Chain.{Chain}
use zkas_signer.Crates.Payment.{ActionDisclosure, SpendAuthRequest, SpendAuthSignature, Sdk}
use zkas_signer.Signer.Error.{network_not_pinned}
use zkas_signer.Signer.Secret.{parse_seed, resolve_secret}
use zkas_signer.Signer.Payment.{
  Disc, AlphaReq, PaymentJson, Request, Prepared, mainnet_genesis, payment_tx_context,
  to_disclosure, to_request, to_sig_out, pinned_genesis, intent_of, prepared_of, read_request,
  read_prepared, authorize, verify_and_sign_payment,
}
use zkas_signer.Signer.Payment.Stages.{
  pinned_genesis-mainnet, read_request-eq-ok, read_prepared-eq-ok, authorize-eq-ok,
}

module _ (hex : Hex) (phrase : Phrase) (chain : Chain) (sdk : Sdk) (json : PaymentJson) where
  -- A payment that was authorized: everything that was read, and the SDK's consent to it.
  pub record Authorized (r : Request) (p : Prepared) (out : Str) : Type 0 where
    pub seed : Bytes
    pub to_addr : chain.Address
    pub to : Bytes
    pub bundle_bytes : Bytes
    pub bundle : sdk.Bundle
    pub discs : List Disc
    pub disclosure : List ActionDisclosure
    pub reqs : List AlphaReq
    pub spend_auth : List SpendAuthRequest
    pub signer : sdk.SoftwareSigner
    pub signatures : List SpendAuthSignature
    pub own_seed : resolve_secret hex phrase r.seed_hex ≡ ok seed
    pub typed_address : chain.address_try_from (trim r.to_address) ≡ ok to_addr
    pub shielded : chain.orchard_recipient_bytes to_addr ≡ some to
    pub on_mainnet : r.network ≡ codes "mainnet"
    pub bundle_hexed : hex.decode (trim p.bundle_hex) ≡ ok bundle_bytes
    pub bundle_decoded : sdk.bundle_from_bytes bundle_bytes ≡ ok bundle
    pub discs_read : json.read_discs p.disclosure_json ≡ ok discs
    pub disclosed : collect (to_disclosure hex) discs ≡ ok disclosure
    pub reqs_read : json.read_alphas p.alphas_json ≡ ok reqs
    pub requested : collect (to_request hex) reqs ≡ ok spend_auth
    pub unlocked : sdk.signer_new seed ≡ ok signer
    pub consented :
        sdk.verify_and_sign signer mainnet_genesis
          (record { recipient = to; amount = r.amount_sompi; max_fee = r.max_fee_sompi })
          (record {
            version = sdk.version;
            network_domain = mainnet_genesis;
            tx_context = payment_tx_context;
            bundle = bundle;
            disclosure = disclosure;
            spend_auth = spend_auth;
            claimed = record {
              recipient = to;
              amount = r.amount_sompi;
              fee = unwrap_or 0 (to_u64 (sdk.value_balance bundle));
            };
          })
        ≡ ok signatures
    pub written : json.write_sigs (map (to_sig_out hex) signatures) ≡ ok out

  module _ (r : Request) (p : Prepared) where
    -- the steps of a run that succeeds
    steps_of :
        (out : Str)
        → verify_and_sign_payment hex phrase chain sdk json r p ≡ ok out
        → Authorized r p out
    unfolding verify_and_sign_payment intent_of prepared_of
    steps_of out e = >>=-then (read_request hex phrase chain r) _ e λ t h1 e1.
        >>=-then (read_prepared hex sdk json p) _ e1 λ u h2 e2.
          let (addr, own, typed, shielded, mainnet, g) =
            read_request-eq-ok hex phrase chain sdk json r p t h1 in
          let (bytes, discs, reqs, k1, k2, k3, k4, k5, k6) =
            read_prepared-eq-ok hex phrase chain sdk json r p u h2 in
          let (signer, signatures, unlocked, consent, text) =
            authorize-eq-ok hex phrase chain sdk json r p out t u g e2 in
          record {
            seed = t.0;
            to_addr = addr;
            to = t.1;
            bundle_bytes = bytes;
            bundle = u.0;
            discs = discs;
            disclosure = u.1;
            reqs = reqs;
            spend_auth = u.2;
            signer = signer;
            signatures = signatures;
            own_seed = own;
            typed_address = typed;
            shielded = shielded;
            on_mainnet = mainnet;
            bundle_hexed = k1;
            bundle_decoded = k2;
            discs_read = k3;
            disclosed = k4;
            reqs_read = k5;
            requested = k6;
            unlocked = unlocked;
            consented = consent;
            written = text;
          }

    authorizes :
        (out : Str)
        → Authorized r p out
        → verify_and_sign_payment hex phrase chain sdk json r p ≡ ok out
    unfolding verify_and_sign_payment read_request read_prepared authorize parse_seed intent_of
        prepared_of
    authorizes out a =
        rw
          (
            a.own_seed,
            a.typed_address,
            a.shielded,
            pinned_genesis-mainnet r.network a.on_mainnet,
            a.bundle_hexed,
            a.bundle_decoded,
            a.discs_read,
            a.disclosed,
            a.reqs_read,
            a.requested,
            a.unlocked,
            a.consented,
            a.written,
          )
          refl

    -- A payment is authorized exactly when the user's secret and address are read, the network is
    -- mainnet, what the daemon returned is read, and the SDK signs it under the pinned genesis for
    -- the user's recipient, amount and fee ceiling, the claimed fee being what the bundle pays; the
    -- result is then the text of the SDK's signatures.
    pub verify_and_sign_payment-eq-ok :
        (out : Str)
        → (verify_and_sign_payment hex phrase chain sdk json r p ≡ ok out) ↔ Authorized r p out
    verify_and_sign_payment-eq-ok out = (steps_of out, authorizes out)

    -- On any network but mainnet nothing is signed, whatever the daemon returned; and if the secret
    -- and the address are in order the error is that of the network.
    pub verify_and_sign_payment-network :
        r.network ≢ codes "mainnet"
        → ((out : Str) → verify_and_sign_payment hex phrase chain sdk json r p ≢ ok out)
          × ((seed : Bytes) (addr : chain.Address) (to : Bytes)
              → resolve_secret hex phrase r.seed_hex ≡ ok seed
              → chain.address_try_from (trim r.to_address) ≡ ok addr
              → chain.orchard_recipient_bytes addr ≡ some to
              → verify_and_sign_payment hex phrase chain sdk json r p
                ≡ err (network_not_pinned r.network))
    unfolding verify_and_sign_payment read_request parse_seed pinned_genesis
    verify_and_sign_payment-network other = (
      λ out e. other (steps_of out e).on_mainnet,
      λ seed addr to h1 h2 h3. rw (h1, h2, h3, ==s-false r.network (codes "mainnet") other) refl,
    )
