-- ===== src/Signer/Wallet/Phrases.antt =====
-- A phrase and its accounts: the same wallet by every way to its key.
use zkas_signer.Prelude.{
  ℕ, ◌≤◌, ◌≡◌, ◌∙◌, refl, [], length, some, >>=-eq-ok, >>=-then, ok-injective, ok_or-eq-ok, sym,
  Result, ok, map_err, ok_or,
}
use mathlib.Core.Path.{subst}
use zkas_signer.Text.{Str, Bytes, split_whitespace}
use zkas_signer.Text.Words.{split_whitespace-join}
use zkas_signer.Crates.Hex.{Hex, HexLaws}
use zkas_signer.Crates.Phrase.{Phrase, PhraseLaws}
use zkas_signer.Crates.Chain.{Chain}
use zkas_signer.Signer.Error.{
  csprng_failed, invalid_phrase, account_out_of_range, underivable_account, derived_invalid,
  unbuildable_phrase,
}
use zkas_signer.Signer.Secret.{
  zkas_coin_type, cleaned, prefix_from, secret_from_phrase, account_secret,
}
use zkas_signer.Signer.Secret.Wording.{resolve_secret-phrase}
use zkas_signer.Signer.Secret.Account.{account_zero_lem}
use zkas_signer.Signer.Wallet.{
  MnemonicWallet, address_string, new_wallet_mnemonic, account_address, account_seed_hex,
  address_from_seed,
}
use zkas_signer.Signer.Wallet.RoundTrip.{IsSeed, resolve_secret-encode, address_from_seed-ok}

module _ (hex : Hex) (phrase : Phrase) (chain : Chain) (laws : HexLaws hex)
    (plaws : PhraseLaws phrase) where
  pub account_secret-IsSeed :
      (s : Str) (account : ℕ) (k : Bytes) → account_secret phrase s account ≡ ok k → IsSeed k
  unfolding account_secret
  account_secret-IsSeed s account k e =
      let (m, parsed, e1) =
        >>=-eq-ok (map_err invalid_phrase (phrase.parse_normalized (cleaned phrase s))) _ e in
      let (id, found, e2) =
        >>=-eq-ok (ok_or (account_out_of_range account) (phrase.account_try_from account)) _ e1 in
      let (sk, derived, e3) =
        >>=-eq-ok
          (map_err (underivable_account account)
            (phrase.from_zip32_seed (phrase.to_seed_normalized m []) zkas_coin_type id))
          _ e2 in
      subst IsSeed (ok-injective e3) (plaws.to_bytes-seed sk)

  -- The hex key of an account is a secret of its own, for the address of that account.
  pub account_seed_hex-restores :
      (mnemonic network seed_hex address : Str) (account : ℕ)
      → account_seed_hex hex phrase mnemonic account ≡ ok seed_hex
      → account_address phrase chain mnemonic network account ≡ ok address
      → address_from_seed hex phrase chain seed_hex network ≡ ok address
  unfolding account_seed_hex account_address
  account_seed_hex-restores mnemonic network seed_hex address account k a =
      let (prefix, p, a1) = >>=-eq-ok (prefix_from chain network) _ a in
      let (key, derived, a2) = >>=-eq-ok (account_secret phrase mnemonic account) _ a1 in
      let (raw, good, a3) =
        >>=-eq-ok (ok_or derived_invalid (chain.address_bytes_from_seed key)) _ a2 in
      let (key', derived', k1) = >>=-eq-ok (account_secret phrase mnemonic account) _ k in
      let same : key' ≡ key = ok-injective (sym derived' ∙ derived) in
      let secret : hex.encode key ≡ seed_hex = ok-injective (rw same at k1) in
      rw (← secret, ← ok-injective a3)
        (address_from_seed-ok hex phrase chain (hex.encode key) network prefix key raw p
          (resolve_secret-encode hex phrase laws key
            (account_secret-IsSeed mnemonic account key derived))
          (ok_or-eq-ok derived_invalid (chain.address_bytes_from_seed key) good))

module _ (hex : Hex) (phrase : Phrase) (chain : Chain) (laws : PhraseLaws phrase) where
  words_of_phrase :
      (m : phrase.Mnemonic) → 2 ≤ length (split_whitespace (phrase.mnemonic_to_string m))
  words_of_phrase m =
      let (ws, text, words, two) = laws.words_of_mnemonic m in
      rw (text, split_whitespace-join ws words) two

  account_address-ok :
      (text network : Str) (prefix : chain.Prefix) (account : ℕ) (key raw : Bytes)
      → prefix_from chain network ≡ ok prefix
      → account_secret phrase text account ≡ ok key
      → chain.address_bytes_from_seed key ≡ some raw
      → account_address phrase chain text network account ≡ ok (address_string chain prefix raw)
  unfolding account_address
  account_address-ok text network prefix account key raw p k a = rw (p, k, a) refl

  -- The phrase of a new wallet derives the wallet's address again, both as a secret and as its
  -- account 0.
  pub new_wallet_mnemonic-restores :
      (network : Str) (drawn : Result Bytes Str) (w : MnemonicWallet)
      → new_wallet_mnemonic phrase chain network drawn ≡ ok w
      → (address_from_seed hex phrase chain w.mnemonic network ≡ ok w.address)
        × (account_address phrase chain w.mnemonic network 0 ≡ ok w.address)
  unfolding new_wallet_mnemonic
  new_wallet_mnemonic-restores network drawn w e =
      let (prefix, p, e1) = >>=-eq-ok (prefix_from chain network) _ e in
      let (entropy, random, e2) = >>=-eq-ok (map_err csprng_failed drawn) _ e1 in
      let (m, built, e3) =
        >>=-eq-ok (map_err unbuildable_phrase (phrase.from_entropy entropy)) _ e2 in
      let text = phrase.mnemonic_to_string m in
      let (key, derived, e4) = >>=-eq-ok (secret_from_phrase phrase text []) _ e3 in
      let (raw, good, e5) =
        >>=-eq-ok (ok_or derived_invalid (chain.address_bytes_from_seed key)) _ e4 in
      let found = ok_or-eq-ok derived_invalid (chain.address_bytes_from_seed key) good in
      let two = words_of_phrase m in
      let resolved = resolve_secret-phrase hex phrase text two ∙ derived in
      rw (← ok-injective e5) (
        address_from_seed-ok hex phrase chain text network prefix key raw p resolved found,
        account_address-ok text network prefix 0 key raw p
            ((account_zero_lem hex phrase laws text key two).1 resolved) found,
      )

  -- The phrase of a new wallet has two words or more.
  pub new_wallet_mnemonic-words :
      (network : Str) (drawn : Result Bytes Str) (w : MnemonicWallet)
      → new_wallet_mnemonic phrase chain network drawn ≡ ok w
      → 2 ≤ length (split_whitespace w.mnemonic)
  unfolding new_wallet_mnemonic
  new_wallet_mnemonic-words network drawn w e =
      >>=-then (prefix_from chain network) _ e λ prefix p e1.
        >>=-then (map_err csprng_failed drawn) _ e1 λ entropy random e2.
          >>=-then (map_err unbuildable_phrase (phrase.from_entropy entropy)) _ e2 λ m built e3.
            let text = phrase.mnemonic_to_string m in
            >>=-then (secret_from_phrase phrase text []) _ e3 λ key derived e4.
              >>=-then (ok_or derived_invalid (chain.address_bytes_from_seed key)) _ e4
                λ raw good e5. rw (← ok-injective e5) (words_of_phrase m)
