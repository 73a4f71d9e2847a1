-- ===== src/Suite/Mnemonic.antt =====
-- src/lib.rs and mobile/src/lib.rs: their tests of wallets that are made from a phrase.
use zkas_signer.Prelude.{
  ◌&&◌, ◌≡◌, ◌∙◌, refl, sym, Bool, true, not, [], codes, ◌==◌, ==_iff, ◌==s◌, ==s_refl, Result, ok,
  err, is_ok, length, map_err, ok_or, >>=-then, map_err-eq-ok, ok-injective,
}
use zkas_signer.Text.{Str, Bytes, split_whitespace}
use zkas_signer.Crates.Hex.{Hex, HexLaws}
use zkas_signer.Crates.Phrase.{Phrase, PhraseLaws}
use zkas_signer.Crates.Chain.{Chain, AddressLaws, MessageLaws}
use zkas_signer.Signer.Error.{invalid_phrase, csprng_failed, derived_invalid, unbuildable_phrase}
use zkas_signer.Signer.Secret.{cleaned, prefix_from, secret_from_phrase, is_valid_mnemonic}
use zkas_signer.Signer.Wallet.{MnemonicWallet, new_wallet_mnemonic, address_from_seed, fvk_hex}
use zkas_signer.Signer.Wallet.Phrases.{new_wallet_mnemonic-restores}
use zkas_signer.Signer.Message.{Signature, sign, verify}
use zkas_signer.Signer.Message.RoundTrip.{verify-sign}
use zkas_signer.Mobile.{GeneratedWallet, generate_wallet}
use zkas_signer.Mobile as Mobile
use zkas_signer.Mobile.Restored.{generated}
use zkas_signer.Suite.{unwrap, starts_with}

abbrev net : Str
net = codes "mainnet"

-- The phrase of no entropy, and the same with its last word changed.
abbrev valid : Str
valid =
    codes
      "abandon abandon abandon abandon abandon abandon abandon abandon abandon abandon abandon about"

abbrev broken : Str
broken =
    codes
      "abandon abandon abandon abandon abandon abandon abandon abandon abandon abandon abandon abandon"

module _ (phrase : Phrase) (chain : Chain) (drawn : Result Bytes Str) where
  -- The phrase of a new wallet is a valid one.
  pub new_wallet_mnemonic-is_valid :
      (network : Str) (w : MnemonicWallet)
      → new_wallet_mnemonic phrase chain network drawn ≡ ok w
      → is_valid_mnemonic phrase w.mnemonic ≡ true
  unfolding new_wallet_mnemonic secret_from_phrase is_valid_mnemonic
  new_wallet_mnemonic-is_valid network w e = >>=-then (prefix_from chain network) _ e λ prefix p e1.
      >>=-then (map_err csprng_failed drawn) _ e1 λ entropy random e2.
        >>=-then (map_err unbuildable_phrase (phrase.from_entropy entropy)) _ e2 λ m built e3.
          let text = phrase.mnemonic_to_string m in
          >>=-then (secret_from_phrase phrase text []) _ e3 λ key derived e4.
            >>=-then (map_err invalid_phrase (phrase.parse_normalized (cleaned phrase text))) _
              derived
              λ parsed h e5.
                >>=-then (ok_or derived_invalid (chain.address_bytes_from_seed key)) _ e4
                  λ raw good e6. rw (← ok-injective e6, map_err-eq-ok invalid_phrase _ h) refl

  unfoldable mnemonic_validation_checks_the_checksum : Bool
  mnemonic_validation_checks_the_checksum =
      Mobile.is_valid_mnemonic phrase valid
      && not (Mobile.is_valid_mnemonic phrase broken)
      && not (Mobile.is_valid_mnemonic phrase (codes "hello world"))
      && unwrap (generate_wallet phrase chain net drawn)
          (λ w. Mobile.is_valid_mnemonic phrase w.mnemonic)

  -- The test passes if a wallet is generated, where the crate of phrases knows the first text and
  -- neither of the others.
  mnemonic_validation_checks_the_checksum_lem :
      (w : GeneratedWallet)
      → generate_wallet phrase chain net drawn ≡ ok w
      → ((m : phrase.Mnemonic) × (phrase.parse_normalized (cleaned phrase valid) ≡ ok m))
      → ((e : Str) × (phrase.parse_normalized (cleaned phrase broken) ≡ err e))
      → ((e : Str) × (phrase.parse_normalized (cleaned phrase (codes "hello world")) ≡ err e))
      → mnemonic_validation_checks_the_checksum ≡ true
  unfolding mnemonic_validation_checks_the_checksum Mobile.is_valid_mnemonic is_valid_mnemonic
  mnemonic_validation_checks_the_checksum_lem w h (m, known) (e1, unknown1) (e2, unknown2) =
      let (made, new, mnemonic_is, address_is) = generated phrase chain net drawn w h in
      let good : is_valid_mnemonic phrase w.mnemonic ≡ true =
        rw (← mnemonic_is) (new_wallet_mnemonic-is_valid net made new) in
      rw (known, unknown1, unknown2, h) good

module _ (hex : Hex) (phrase : Phrase) (chain : Chain) (drawn : Result Bytes Str) where
  unfoldable mnemonic_wallet_roundtrips_and_is_deterministic : chain.Rng → Bool
  mnemonic_wallet_roundtrips_and_is_deterministic rng =
      unwrap (new_wallet_mnemonic phrase chain net drawn) λ w.
        (length (split_whitespace w.mnemonic) == 12)
        && starts_with (codes "zkas:") w.address
        && unwrap (address_from_seed hex phrase chain w.mnemonic net) (λ a. a ==s w.address)
        && unwrap (sign hex phrase chain w.mnemonic net (codes "hello") rng) λ sig.
          (sig.address ==s w.address)
          && unwrap (verify hex chain w.address (codes "hello") sig.signature_hex) (λ b. b)
          && is_ok (fvk_hex hex phrase chain w.mnemonic)

  -- The test passes, under the laws, if a wallet of 12 words and an address of the main network is
  -- made, its message is signed and its viewing key is derived.
  mnemonic_wallet_roundtrips_and_is_deterministic_lem :
      (laws : HexLaws hex)
      → (plaws : PhraseLaws phrase) → (alaws : AddressLaws chain) → (mlaws : MessageLaws chain)
      → (rng : chain.Rng) (w : MnemonicWallet) (s : Signature) (fvk : Str)
      → new_wallet_mnemonic phrase chain net drawn ≡ ok w
      → length (split_whitespace w.mnemonic) ≡ 12
      → starts_with (codes "zkas:") w.address ≡ true
      → sign hex phrase chain w.mnemonic net (codes "hello") rng ≡ ok s
      → fvk_hex hex phrase chain w.mnemonic ≡ ok fvk
      → mnemonic_wallet_roundtrips_and_is_deterministic rng ≡ true
  unfolding mnemonic_wallet_roundtrips_and_is_deterministic
  mnemonic_wallet_roundtrips_and_is_deterministic_lem laws plaws alaws mlaws rng w s fvk e n p es
        v =
      let (as_secret, as_account) =
        new_wallet_mnemonic-restores hex phrase chain plaws net drawn w e in
      let (accepted, owner) =
        verify-sign hex phrase chain laws alaws mlaws w.mnemonic net (codes "hello") rng s es in
      let own : s.address ≡ w.address = ok-injective (sym owner ∙ as_secret) in
      let twelve : length (split_whitespace w.mnemonic) == 12 ≡ true = (==_iff _ 12).1 n in
      rw (e, twelve, p, as_secret, ==s_refl w.address, es, own, rw own at accepted, v)
        (rw (==s_refl w.address) refl)
