-- ===== src/Signer/Payment/Stages.antt =====
-- What each stage of `verify_and_sign_payment` says when it succeeds.
use zkas_signer.Prelude.{
  ◌≡◌, refl, sym, List, map, true, false, Bool, ◌==s◌, ==s_refl, ==s_sound, ok, err, map_err, ok_or,
  collect, if◌then◌else◌, codes, some, >>=-then, map_err-eq-ok, ok_or-eq-ok, ok-injective,
}
use mathlib.Core.Path.{subst}
use zkas_signer.Text.{Str, Bytes, trim}
use zkas_signer.Crates.Hex.{Hex}
use zkas_signer.Crates.Phrase.{Phrase}
use zkas_signer.Crates.Chain.{Chain}
use zkas_signer.Crates.Payment.{ActionDisclosure, SpendAuthRequest, SpendAuthSignature, Sdk}
use zkas_signer.Signer.Error.{
  Error, invalid_recipient, recipient_not_shielded, network_not_pinned, bundle_not_hex,
  bundle_undecodable, bad_disclosure, bad_spend_auth, refused,
}
use zkas_signer.Signer.Secret.{parse_seed, resolve_secret}
use zkas_signer.Signer.Payment.{
  Disc, AlphaReq, PaymentJson, Request, Prepared, mainnet_genesis, to_disclosure, to_request,
  to_sig_out, pinned_genesis, intent_of, prepared_of, read_request, read_prepared, authorize,
}

chosen :
    (b : Bool) (e : Error) (v w : Bytes) → (if b then ok v else err e) ≡ ok w → (b ≡ true) × (w ≡ v)
chosen true e v w h = (refl, ok-injective (sym h))
chosen false e v w h = cc

pinned_genesis-eq-ok :
    (network : Str) (g : Bytes)
    → pinned_genesis network ≡ ok g
    → (network ≡ codes "mainnet") × (g ≡ mainnet_genesis)
unfolding pinned_genesis
pinned_genesis-eq-ok network g h =
    let (same, genesis) =
      chosen (network ==s codes "mainnet") (network_not_pinned network) mainnet_genesis g h in
    (==s_sound network (codes "mainnet") same, genesis)

pub pinned_genesis-mainnet :
    (network : Str) → network ≡ codes "mainnet" → pinned_genesis network ≡ ok mainnet_genesis
unfolding pinned_genesis
pinned_genesis-mainnet network h = rw (h, ==s_refl (codes "mainnet")) refl

module _ (hex : Hex) (phrase : Phrase) (chain : Chain) (sdk : Sdk) (json : PaymentJson)
    (r : Request) (p : Prepared) where
  -- what reading the user's side says
  pub read_request-eq-ok :
      (t : Bytes × Bytes × Bytes)
      → read_request hex phrase chain r ≡ ok t
      → (addr : chain.Address) × (resolve_secret hex phrase r.seed_hex ≡ ok t.0)
        × (chain.address_try_from (trim r.to_address) ≡ ok addr)
        × (chain.orchard_recipient_bytes addr ≡ some t.1)
        × (r.network ≡ codes "mainnet")
        × (t.2 ≡ mainnet_genesis)
  unfolding read_request parse_seed
  read_request-eq-ok t e = >>=-then (parse_seed hex phrase r.seed_hex) _ e λ seed h1 e1.
      >>=-then (map_err invalid_recipient (chain.address_try_from (trim r.to_address))) _ e1
        λ addr h2 e2.
          >>=-then (ok_or recipient_not_shielded (chain.orchard_recipient_bytes addr)) _ e2
            λ to h3 e3. >>=-then (pinned_genesis r.network) _ e3 λ genesis h4 e4.
              let (mainnet, is_genesis) = pinned_genesis-eq-ok r.network genesis h4 in
              rw (← ok-injective e4)
                (addr, h1, map_err-eq-ok _ _ h2, ok_or-eq-ok _ _ h3, mainnet, is_genesis)

  -- what reading the daemon's side says
  pub read_prepared-eq-ok :
      (t : sdk.Bundle × List ActionDisclosure × List SpendAuthRequest)
      → read_prepared hex sdk json p ≡ ok t
      → (bytes : Bytes) × (discs : List Disc) × (reqs : List AlphaReq) × (hex.decode
            (trim p.bundle_hex)
          ≡ ok bytes)
        × (sdk.bundle_from_bytes bytes ≡ ok t.0)
        × (json.read_discs p.disclosure_json ≡ ok discs)
        × (collect (to_disclosure hex) discs ≡ ok t.1)
        × (json.read_alphas p.alphas_json ≡ ok reqs)
        × (collect (to_request hex) reqs ≡ ok t.2)
  unfolding read_prepared
  read_prepared-eq-ok t e =
      >>=-then (map_err (λ (x : Str). bundle_not_hex) (hex.decode (trim p.bundle_hex))) _ e
        λ bytes h1 e1.
          >>=-then (map_err bundle_undecodable (sdk.bundle_from_bytes bytes)) _ e1 λ bundle h2 e2.
            >>=-then (map_err bad_disclosure (json.read_discs p.disclosure_json)) _ e2
              λ discs h3 e3. >>=-then (collect (to_disclosure hex) discs) _ e3 λ ds h4 e4.
                >>=-then (map_err bad_spend_auth (json.read_alphas p.alphas_json)) _ e4
                  λ reqs h5 e5. >>=-then (collect (to_request hex) reqs) _ e5 λ qs h6 e6.
                    rw (← ok-injective e6) (
                      bytes,
                      discs,
                      reqs,
                      map_err-eq-ok _ _ h1,
                      map_err-eq-ok _ _ h2,
                      map_err-eq-ok _ _ h3,
                      h4,
                      map_err-eq-ok _ _ h5,
                      h6,
                    )

  -- what the SDK's consent says, under the genesis of mainnet
  pub authorize-eq-ok :
      (out : Str) (t : Bytes × Bytes × Bytes)
      (u : sdk.Bundle × List ActionDisclosure × List SpendAuthRequest)
      → t.2 ≡ mainnet_genesis
      → authorize hex sdk json r t u ≡ ok out
      → (signer : sdk.SoftwareSigner) × (signatures : List SpendAuthSignature) × (sdk.signer_new t.0
          ≡ ok signer)
        × (sdk.verify_and_sign signer mainnet_genesis
              (intent_of t.1 r)
              (prepared_of sdk mainnet_genesis t.1 r.amount_sompi u.0 u.1 u.2)
            ≡ ok signatures)
        × (json.write_sigs (map (to_sig_out hex) signatures) ≡ ok out)
  unfolding authorize
  authorize-eq-ok out t u g e = >>=-then (map_err refused (sdk.signer_new t.0)) _ e λ signer h1 e1.
      >>=-then
        (map_err refused (
          sdk.verify_and_sign signer t.2 (intent_of t.1 r)
            (prepared_of sdk t.2 t.1 r.amount_sompi u.0 u.1 u.2)))
        _ e1
        λ signatures h2 e2. (
          signer,
          signatures,
          map_err-eq-ok _ _ h1,
          subst
              (λ genesis.
                sdk.verify_and_sign signer genesis (intent_of t.1 r)
                  (prepared_of sdk genesis t.1 r.amount_sompi u.0 u.1 u.2)
                ≡ ok signatures)
              g (map_err-eq-ok refused _ h2),
          map_err-eq-ok _ _ e2,
        )
