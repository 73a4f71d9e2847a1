-- ===== src/Signer/Payment/Endings/User.antt =====
-- How the reading of what the user gave ends.
use zkas_signer.Prelude.{
  ◌≡◌, ◌≢◌, refl, Bool, true, false, none, some, ◌==s◌, ==s_refl, ==s_sound, if◌then◌else◌, codes,
  Result, ok, err, ◌>>=◌, map_err, ok_or, >>=-by, map_err-eq-err, map_err-eq-ok, ok_or-eq-err,
  ok_or-eq-ok,
}
use zkas_signer.Text.{Str, Bytes, trim}
use zkas_signer.Crates.Hex.{Hex}
use zkas_signer.Crates.Phrase.{Phrase}
use zkas_signer.Crates.Chain.{Chain}
use zkas_signer.Signer.Error.{Error, invalid_recipient, recipient_not_shielded, network_not_pinned}
use zkas_signer.Signer.Secret.{parse_seed, resolve_secret}
use zkas_signer.Signer.Payment.{Request, mainnet_genesis, pinned_genesis, read_request}

module _ (hex : Hex) (phrase : Phrase) (chain : Chain) (r : Request) where
  -- The user's side: the secret, the address that was typed, the network.
  pub data Asked : Result (Bytes × Bytes × Bytes) Error → Type 0 where
    bad_secret : (e : Error) → resolve_secret hex phrase r.seed_hex ≡ err e → Asked (err e)
    no_address :
        (seed : Bytes) (m : Str)
        → resolve_secret hex phrase r.seed_hex ≡ ok seed
        → chain.address_try_from (trim r.to_address) ≡ err m
        → Asked (err (invalid_recipient m))
    unshielded :
        (seed : Bytes) (addr : chain.Address)
        → resolve_secret hex phrase r.seed_hex ≡ ok seed
        → chain.address_try_from (trim r.to_address) ≡ ok addr
        → chain.orchard_recipient_bytes addr ≡ none
        → Asked (err recipient_not_shielded)
    other_network :
        (seed : Bytes) (addr : chain.Address) (to : Bytes)
        → resolve_secret hex phrase r.seed_hex ≡ ok seed
        → chain.address_try_from (trim r.to_address) ≡ ok addr
        → chain.orchard_recipient_bytes addr ≡ some to
        → r.network ≢ codes "mainnet"
        → Asked (err (network_not_pinned r.network))
    asked :
        (seed : Bytes) (addr : chain.Address) (to : Bytes)
        → resolve_secret hex phrase r.seed_hex ≡ ok seed
        → chain.address_try_from (trim r.to_address) ≡ ok addr
        → chain.orchard_recipient_bytes addr ≡ some to
        → r.network ≡ codes "mainnet"
        → Asked (ok (seed, to, mainnet_genesis))

  pinned :
      (seed : Bytes) (addr : chain.Address) (to : Bytes) (same : Bool)
      → (r.network ==s codes "mainnet") ≡ same
      → resolve_secret hex phrase r.seed_hex ≡ ok seed
      → chain.address_try_from (trim r.to_address) ≡ ok addr
      → chain.orchard_recipient_bytes addr ≡ some to
      → Asked (do
        genesis ← if same then ok mainnet_genesis else err (network_not_pinned r.network)
        ok (seed, to, genesis))
  pinned seed addr to true e h1 h2 h3 = asked seed addr to h1 h2 h3 (==s_sound _ _ e)
  pinned seed addr to false e h1 h2 h3 =
      other_network seed addr to h1 h2 h3 (λ is. let whole = ==s_refl (codes "mainnet") in cc)

  pub read_request-Asked : Asked (read_request hex phrase chain r)
  unfolding read_request parse_seed pinned_genesis
  read_request-Asked = >>=-by Asked (resolve_secret hex phrase r.seed_hex) _ bad_secret λ seed h1.
      >>=-by Asked (map_err invalid_recipient (chain.address_try_from (trim r.to_address))) _
        (λ e h. let (m, bad, is) = map_err-eq-err _ _ h in rw is (no_address seed m h1 bad))
        λ addr h2.
          let read = map_err-eq-ok _ _ h2 in
          >>=-by Asked (ok_or recipient_not_shielded (chain.orchard_recipient_bytes addr)) _
            (λ e h.
              let (gone, is) =
                ok_or-eq-err recipient_not_shielded (chain.orchard_recipient_bytes addr) h in
              rw is (unshielded seed addr h1 read gone))
            λ to h3.
              pinned seed addr to _ refl h1 read
                (ok_or-eq-ok recipient_not_shielded (chain.orchard_recipient_bytes addr) h3)
