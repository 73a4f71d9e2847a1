-- ===== src/Suite/Money.antt =====
-- src/lib.rs: its tests of wallets, of legacy seeds and of signed messages.
use zkas_signer.Prelude.{
  ◌&&◌, ◌≡◌, ◌∙◌, refl, sym, ap, Bool, true, List, replicate, codes, ◌==s◌, ==s_refl, some, Result,
  ok, ok_or, All, arith, >>=-then, ok-injective,
}
use zkas_signer.Text.{Str, Bytes, to_ascii_lowercase}
use zkas_signer.Crates.Hex.{Hex, HexLaws}
use zkas_signer.Crates.Phrase.{Phrase}
use zkas_signer.Crates.Chain.{Chain, AddressLaws, MessageLaws}
use zkas_signer.Signer.Error.{seed_invalid}
use zkas_signer.Signer.Secret.{prefix_from, resolve_secret, parse_seed}
use zkas_signer.Signer.Wallet.{Wallet, address_string, new_wallet, address_from_seed}
use zkas_signer.Signer.Wallet.RoundTrip.{
  IsDraw, resolve_secret-encode, address_from_seed-ok, new_wallet-restores,
}
use zkas_signer.Signer.Message.{Signature, sign, verify}
use zkas_signer.Signer.Message.RoundTrip.{verify-sign}
use zkas_signer.Suite.{unwrap, finished, starts_with, refused}

abbrev pub mainnet : Str
mainnet = codes "mainnet"

module _ (hex : Hex) (phrase : Phrase) (chain : Chain) (draws : List (Result Bytes Str)) where
  unfoldable new_wallet_roundtrips_address : Bool
  new_wallet_roundtrips_address = finished (new_wallet hex chain mainnet draws) λ w.
      starts_with (codes "zkas:") w.address
      && unwrap (address_from_seed hex phrase chain w.seed_hex mainnet) λ again. w.address ==s again

  unfoldable sign_then_verify_succeeds : chain.Rng → Bool
  sign_then_verify_succeeds rng = finished (new_wallet hex chain mainnet draws) λ w.
      unwrap (sign hex phrase chain w.seed_hex mainnet (codes "i control this address") rng) λ sig.
        (sig.address ==s w.address)
        && unwrap (verify hex chain w.address (codes "i control this address") sig.signature_hex)
            λ b. b

  unfoldable unknown_network_is_error : Bool
  unknown_network_is_error = refused (new_wallet hex chain (codes "bitcoin") draws)

  -- The test passes for any crates and draws.
  unknown_network_is_error_lem : unknown_network_is_error ≡ true
  unfolding unknown_network_is_error new_wallet prefix_from to_ascii_lowercase ◌==s◌
  unknown_network_is_error_lem = refl

  unfoldable legacy_hex_seed_derivation_is_unchanged : Bool
  legacy_hex_seed_derivation_is_unchanged =
      let seed = replicate 32 7 in
      let seed_hex = hex.encode seed in
      unwrap (ok_or seed_invalid (chain.address_bytes_from_seed seed)) λ raw.
        unwrap (address_from_seed hex phrase chain seed_hex mainnet) λ a.
          (a ==s address_string chain chain.mainnet raw)
          && unwrap (resolve_secret hex phrase seed_hex) λ b. b ==s seed

  pub prefix_from-mainnet : prefix_from chain mainnet ≡ ok chain.mainnet
  unfolding prefix_from to_ascii_lowercase ◌==s◌
  prefix_from-mainnet = refl

  -- An address that is derived on a network is that network's.
  pub address_from_seed-string :
      (network secret a : Str) (prefix : chain.Prefix)
      → prefix_from chain network ≡ ok prefix
      → address_from_seed hex phrase chain secret network ≡ ok a
      → (raw : Bytes) × (a ≡ address_string chain prefix raw)
  unfolding address_from_seed
  address_from_seed-string network secret a prefix on e =
      >>=-then (prefix_from chain network) _ e λ own p e1.
        >>=-then (parse_seed hex phrase secret) _ e1 λ seed s e2.
          >>=-then (ok_or seed_invalid (chain.address_bytes_from_seed seed)) _ e2 λ raw r e3.
            let same : own ≡ prefix = ok-injective (sym p ∙ on) in
            (raw, sym (ok-injective e3) ∙ ap (λ p. address_string chain p raw) same)

  module _ (laws : HexLaws hex) where
    -- The test passes if the seed has an address.
    legacy_hex_seed_derivation_is_unchanged_lem :
        (raw : Bytes)
        → chain.address_bytes_from_seed (replicate 32 7) ≡ some raw
        → legacy_hex_seed_derivation_is_unchanged ≡ true
    unfolding legacy_hex_seed_derivation_is_unchanged
    legacy_hex_seed_derivation_is_unchanged_lem raw e =
        let resolved =
          resolve_secret-encode hex phrase laws (replicate 32 7) (refl, ground arith) in
        rw
          (
            e,
            address_from_seed-ok hex phrase chain (hex.encode (replicate 32 7)) mainnet
                chain.mainnet (replicate 32 7) raw prefix_from-mainnet resolved e,
            resolved,
            ==s_refl (address_string chain chain.mainnet raw),
          )
          (==s_refl (replicate 32 7))

    -- The test passes if the draws give a wallet, on a chain whose addresses on the main network
    -- begin with `zkas:`.
    new_wallet_roundtrips_address_lem :
        (w : Wallet)
        → All IsDraw draws
        → new_wallet hex chain mainnet draws ≡ some (ok w)
        → ((raw : Bytes)
            → starts_with (codes "zkas:") (address_string chain chain.mainnet raw) ≡ true)
        → new_wallet_roundtrips_address ≡ true
    unfolding new_wallet_roundtrips_address
    new_wallet_roundtrips_address_lem w hs e named =
        let again = new_wallet-restores hex phrase chain laws mainnet draws w hs e in
        let (raw, is) =
          address_from_seed-string mainnet w.seed_hex w.address chain.mainnet prefix_from-mainnet
            again in
        let begins : starts_with (codes "zkas:") w.address ≡ true = rw is (named raw) in
        rw (e, again, begins) (==s_refl w.address)

    -- The test passes if the draws give a wallet and the message is signed.
    sign_then_verify_succeeds_lem :
        (alaws : AddressLaws chain)
        → (mlaws : MessageLaws chain) → (rng : chain.Rng) (w : Wallet) (s : Signature)
        → All IsDraw draws
        → new_wallet hex chain mainnet draws ≡ some (ok w)
        → sign hex phrase chain w.seed_hex mainnet (codes "i control this address") rng ≡ ok s
        → sign_then_verify_succeeds rng ≡ true
    unfolding sign_then_verify_succeeds
    sign_then_verify_succeeds_lem alaws mlaws rng w s hs e es =
        let again = new_wallet-restores hex phrase chain laws mainnet draws w hs e in
        let (accepted, owner) =
          verify-sign hex phrase chain laws alaws mlaws w.seed_hex mainnet
            (codes "i control this address") rng s es in
        let own : s.address ≡ w.address = ok-injective (sym owner ∙ again) in
        rw (e, es, own, ==s_refl w.address, rw own at accepted) refl

  unfoldable testnet_address_prefix : Bool
  testnet_address_prefix =
      finished (new_wallet hex chain (codes "testnet") draws)
        λ w. starts_with (codes "zkastest:") w.address

  prefix_from-testnet : prefix_from chain (codes "testnet") ≡ ok chain.testnet
  unfolding prefix_from to_ascii_lowercase ◌==s◌
  prefix_from-testnet = refl

  -- The test passes if the draws give a wallet, on a chain whose addresses on the test network begin
  -- with `zkastest:`.
  testnet_address_prefix_lem :
      (laws : HexLaws hex)
      → (w : Wallet) → All IsDraw draws
      → new_wallet hex chain (codes "testnet") draws ≡ some (ok w)
      → ((raw : Bytes)
          → starts_with (codes "zkastest:") (address_string chain chain.testnet raw) ≡ true)
      → testnet_address_prefix ≡ true
  unfolding testnet_address_prefix
  testnet_address_prefix_lem laws w hs e named =
      let again = new_wallet-restores hex phrase chain laws (codes "testnet") draws w hs e in
      let (raw, is) =
        address_from_seed-string (codes "testnet") w.seed_hex w.address chain.testnet
          prefix_from-testnet again in
      rw (e, is) (named raw)
