-- ===== src/Signer/Payment/Endings/Daemon.antt =====
-- How the reading of what the daemon returned ends.
use zkas_signer.Prelude.{
  ◌≡◌, List, ◌∷◌, ◌++◌, All, Result, ok, err, map_err, collect, >>=-by, map_err-eq-err,
  map_err-eq-ok, collect-eq-err,
}
use zkas_signer.Text.{Str, Bytes, trim}
use zkas_signer.Crates.Hex.{Hex}
use zkas_signer.Crates.Payment.{ActionDisclosure, SpendAuthRequest, Sdk}
use zkas_signer.Signer.Error.{
  Error, bundle_not_hex, bundle_undecodable, bad_disclosure, bad_spend_auth,
}
use zkas_signer.Signer.Payment.{
  Disc, AlphaReq, PaymentJson, Prepared, to_disclosure, to_request, read_prepared,
}

module _ (hex : Hex) (sdk : Sdk) (json : PaymentJson) (p : Prepared) where
  -- The bundle is read.
  abbrev pub HasBundle : sdk.Bundle → Type 0
  HasBundle bundle =
      (b : Bytes) × (hex.decode (trim p.bundle_hex) ≡ ok b) × (sdk.bundle_from_bytes b ≡ ok bundle)

  abbrev pub Parts : Type 0
  Parts = sdk.Bundle × List ActionDisclosure × List SpendAuthRequest

  -- The daemon's side: the bundle, the disclosures, the signatures that are asked for. A list is
  -- read up to its first bad element.
  pub data Given : Result Parts Error → Type 0 where
    no_hex : (m : Str) → hex.decode (trim p.bundle_hex) ≡ err m → Given (err bundle_not_hex)
    no_bundle :
        (b : Bytes) (m : Str)
        → hex.decode (trim p.bundle_hex) ≡ ok b
        → sdk.bundle_from_bytes b ≡ err m
        → Given (err (bundle_undecodable m))
    no_discs :
        (bundle : sdk.Bundle) (m : Str)
        → HasBundle bundle
        → json.read_discs p.disclosure_json ≡ err m
        → Given (err (bad_disclosure m))
    bad_disc :
        (bundle : sdk.Bundle) (good : List Disc) (d : Disc) (rest : List Disc) (e : Error)
        → HasBundle bundle
        → json.read_discs p.disclosure_json ≡ ok (good ++ d ∷ rest)
        → All (λ d. (a : ActionDisclosure) × (to_disclosure hex d ≡ ok a)) good
        → to_disclosure hex d ≡ err e
        → Given (err e)
    no_alphas :
        (bundle : sdk.Bundle) (discs : List Disc) (disclosure : List ActionDisclosure) (m : Str)
        → HasBundle bundle
        → json.read_discs p.disclosure_json ≡ ok discs
        → collect (to_disclosure hex) discs ≡ ok disclosure
        → json.read_alphas p.alphas_json ≡ err m
        → Given (err (bad_spend_auth m))
    bad_alpha :
        (bundle : sdk.Bundle) (discs : List Disc) (disclosure : List ActionDisclosure)
        (good : List AlphaReq) (a : AlphaReq) (rest : List AlphaReq) (e : Error)
        → HasBundle bundle
        → json.read_discs p.disclosure_json ≡ ok discs
        → collect (to_disclosure hex) discs ≡ ok disclosure
        → json.read_alphas p.alphas_json ≡ ok (good ++ a ∷ rest)
        → All (λ a. (q : SpendAuthRequest) × (to_request hex a ≡ ok q)) good
        → to_request hex a ≡ err e
        → Given (err e)
    given :
        (bundle : sdk.Bundle) (discs : List Disc) (disclosure : List ActionDisclosure)
        (reqs : List AlphaReq) (spend_auth : List SpendAuthRequest)
        → HasBundle bundle
        → json.read_discs p.disclosure_json ≡ ok discs
        → collect (to_disclosure hex) discs ≡ ok disclosure
        → json.read_alphas p.alphas_json ≡ ok reqs
        → collect (to_request hex) reqs ≡ ok spend_auth
        → Given (ok (bundle, disclosure, spend_auth))

  pub read_prepared-Given : Given (read_prepared hex sdk json p)
  unfolding read_prepared
  read_prepared-Given =
      >>=-by Given (map_err (λ (m : Str). bundle_not_hex) (hex.decode (trim p.bundle_hex))) _
        (λ e h. let (m, bad, is) = map_err-eq-err _ _ h in rw is (no_hex m bad))
        λ b h1.
          let bytes = map_err-eq-ok _ _ h1 in
          >>=-by Given (map_err bundle_undecodable (sdk.bundle_from_bytes b)) _
            (λ e h. let (m, bad, is) = map_err-eq-err _ _ h in rw is (no_bundle b m bytes bad))
            λ bundle h2.
              let had : HasBundle bundle = (b, bytes, map_err-eq-ok _ _ h2) in
              >>=-by Given (map_err bad_disclosure (json.read_discs p.disclosure_json)) _
                (λ e h.
                  let (m, bad, is) = map_err-eq-err _ _ h in rw is (no_discs bundle m had bad))
                λ discs h3.
                  let listed = map_err-eq-ok _ _ h3 in
                  >>=-by Given (collect (to_disclosure hex) discs) _
                    (λ e h.
                      let (good, d, rest, parts, fine, bad) = collect-eq-err _ discs e h in
                      bad_disc bundle good d rest e had (rw (← parts) listed) fine bad)
                    λ disclosure h4.
                      >>=-by Given (map_err bad_spend_auth (json.read_alphas p.alphas_json)) _
                        (λ e h.
                          let (m, bad, is) = map_err-eq-err _ _ h in
                          rw is (no_alphas bundle discs disclosure m had listed h4 bad))
                        λ reqs h5.
                          let wanted = map_err-eq-ok _ _ h5 in
                          >>=-by Given (collect (to_request hex) reqs) _
                            (λ e h.
                              let (good, a, rest, parts, fine, bad) = collect-eq-err _ reqs e h in
                              bad_alpha bundle discs disclosure good a rest e had listed h4
                                (rw (← parts) wanted) fine bad)
                            λ spend_auth h6.
                              given bundle discs disclosure reqs spend_auth had listed h4 wanted h6
