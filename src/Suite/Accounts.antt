-- ===== src/Suite/Accounts.antt =====
-- src/lib.rs and mobile/src/lib.rs: their tests of the accounts of one phrase.
use zkas_signer.Prelude.{
  ℕ, ◌&&◌, ◌≡◌, ◌≢◌, refl, Bool, true, false, not, replicate, ◌==◌, ==_iff, ◌==s◌, ==s_refl,
  ==s_sound, Result, ok, is_ok, arith, >>=-eq-ok, ok-injective, Bool-cases, inl, inr,
}
use zkas_signer.Text.{Str, Bytes, str_len}
use zkas_signer.Crates.Hex.{Hex, HexLaws}
use zkas_signer.Crates.Phrase.{Phrase, PhraseLaws}
use zkas_signer.Crates.Chain.{Chain}
use zkas_signer.Signer.Secret.{account_secret, resolve_secret, is_valid_mnemonic}
use zkas_signer.Signer.Secret.Legacy.{str_len-hexdigit}
use zkas_signer.Signer.Wallet.{
  MnemonicWallet, new_wallet_mnemonic, account_address, account_seed_hex, address_from_seed,
  fvk_hex,
}
use zkas_signer.Signer.Wallet.Phrases.{
  account_secret-IsSeed, account_seed_hex-restores, new_wallet_mnemonic-restores,
}
use zkas_signer.Mobile.{SignerError, GeneratedWallet, generate_wallet}
use zkas_signer.Mobile as Mobile
use zkas_signer.Suite.{unwrap}
use zkas_signer.Suite.Phone.{net}
use zkas_signer.Suite.Mnemonic.{new_wallet_mnemonic-is_valid}

pub differ : (s t : Str) → s ≢ t → (s ==s t) ≡ false
differ s t h = elim (Bool-cases (s ==s t)) [
  | inl same ↦ absurd (h (==s_sound s t same))
  | inr other ↦ other
]

module _ (hex : Hex) (phrase : Phrase) (chain : Chain) (drawn : Result Bytes Str) where
  unfoldable accounts_derive_distinct_wallets_from_one_phrase : Bool
  accounts_derive_distinct_wallets_from_one_phrase =
      unwrap (new_wallet_mnemonic phrase chain net drawn) λ w.
        unwrap (account_address phrase chain w.mnemonic net 0) λ a0.
          unwrap (account_address phrase chain w.mnemonic net 1) λ a1.
            unwrap (account_address phrase chain w.mnemonic net 2) λ a2.
              (a0 ==s w.address)
              && not (a0 ==s a1)
              && not (a1 ==s a2)
              && unwrap (account_address phrase chain w.mnemonic net 1) (λ a. a ==s a1)
              && unwrap (account_seed_hex hex phrase w.mnemonic 1) λ seed1.
                (str_len seed1 == 64)
                && unwrap (address_from_seed hex phrase chain seed1 net) (λ a. a ==s a1)
                && is_ok (fvk_hex hex phrase chain seed1)

  unfoldable accounts_are_different_wallets : Bool
  accounts_are_different_wallets = unwrap (generate_wallet phrase chain net drawn) λ w.
      unwrap (Mobile.account_address phrase chain w.mnemonic net 0)
        λ a0. unwrap (Mobile.account_address phrase chain w.mnemonic net 1) λ a1. not (a0 ==s a1)

  unfoldable phrase_and_hex_paths_are_distinct : Bool
  phrase_and_hex_paths_are_distinct = unwrap (new_wallet_mnemonic phrase chain net drawn) λ w.
      unwrap (resolve_secret hex phrase w.mnemonic)
        λ derived. not (derived ==s replicate 32 0) && is_valid_mnemonic phrase w.mnemonic

  -- The test passes if a wallet is generated and its first two accounts have two addresses.
  accounts_are_different_wallets_lem :
      (w : GeneratedWallet) (a0 a1 : Str)
      → generate_wallet phrase chain net drawn ≡ ok w
      → Mobile.account_address phrase chain w.mnemonic net 0 ≡ ok a0
      → Mobile.account_address phrase chain w.mnemonic net 1 ≡ ok a1
      → a0 ≢ a1
      → accounts_are_different_wallets ≡ true
  unfolding accounts_are_different_wallets
  accounts_are_different_wallets_lem w a0 a1 e h0 h1 apart = rw (e, h0, h1, differ a0 a1 apart) refl

  -- The test passes if a wallet is made and its key is not zero.
  phrase_and_hex_paths_are_distinct_lem :
      (w : MnemonicWallet) (key : Bytes)
      → new_wallet_mnemonic phrase chain net drawn ≡ ok w
      → resolve_secret hex phrase w.mnemonic ≡ ok key
      → key ≢ replicate 32 0
      → phrase_and_hex_paths_are_distinct ≡ true
  unfolding phrase_and_hex_paths_are_distinct
  phrase_and_hex_paths_are_distinct_lem w key e h apart =
      rw
        (
          e,
          h,
          differ key (replicate 32 0) apart,
          new_wallet_mnemonic-is_valid phrase chain drawn net w e,
        )
        refl

  module _ (laws : HexLaws hex) (plaws : PhraseLaws phrase) where
    -- The hex key of an account is 64 bytes long.
    str_len-account_seed_hex :
        (mnemonic k : Str) (account : ℕ)
        → account_seed_hex hex phrase mnemonic account ≡ ok k
        → str_len k ≡ 64
    unfolding account_seed_hex
    str_len-account_seed_hex mnemonic k account e =
        let (key, derived, e1) = >>=-eq-ok (account_secret phrase mnemonic account) _ e in
        let (n, bytes) =
          account_secret-IsSeed hex phrase chain laws plaws mnemonic account key derived in
        let digits = str_len-hexdigit (hex.encode key) (laws.encode-hexdigit key bytes) in
        let size = laws.length-encode key bytes in
        rw (← ok-injective e1) (omega (arith, n, digits, size))

    -- The test passes, under the laws of hex and of phrases, if a wallet is made, its first three
    -- accounts have addresses, each other than the one before, and the second has a viewing key.
    accounts_derive_distinct_wallets_from_one_phrase_lem :
        (w : MnemonicWallet) (a1 a2 k fvk : Str)
        → new_wallet_mnemonic phrase chain net drawn ≡ ok w
        → account_address phrase chain w.mnemonic net 1 ≡ ok a1
        → account_address phrase chain w.mnemonic net 2 ≡ ok a2
        → w.address ≢ a1
        → a1 ≢ a2
        → account_seed_hex hex phrase w.mnemonic 1 ≡ ok k
        → fvk_hex hex phrase chain k ≡ ok fvk
        → accounts_derive_distinct_wallets_from_one_phrase ≡ true
    unfolding accounts_derive_distinct_wallets_from_one_phrase
    accounts_derive_distinct_wallets_from_one_phrase_lem w a1 a2 k fvk e h1 h2 apart apart' found
          viewed =
        let (as_secret, as_account) =
          new_wallet_mnemonic-restores hex phrase chain plaws net drawn w e in
        let restored =
          account_seed_hex-restores hex phrase chain laws plaws w.mnemonic net k a1 1 found h1 in
        let size = (==_iff (str_len k) 64).1 (str_len-account_seed_hex w.mnemonic k 1 found) in
        rw
          (
            e,
            as_account,
            h1,
            h2,
            ==s_refl w.address,
            differ w.address a1 apart,
            differ a1 a2 apart',
            ==s_refl a1,
            found,
            size,
            restored,
            viewed,
          )
          (rw (==s_refl a1) refl)
