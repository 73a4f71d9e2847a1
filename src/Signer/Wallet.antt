-- ===== src/Signer/Wallet.antt =====
-- src/lib.rs: making wallets, and the addresses of secrets and accounts.
pub mod RoundTrip
pub mod Phrases
pub mod Normal
use zkas_signer.Prelude.{
  ℕ, List, [], ◌∷◌, Option, none, some, Result, ok, err, ◌>>=◌, map_err, ok_or,
}
use zkas_signer.Text.{Str, Bytes}
use zkas_signer.Crates.Hex.{Hex}
use zkas_signer.Crates.Phrase.{Phrase}
use zkas_signer.Crates.Chain.{Chain}
use zkas_signer.Signer.Error.{
  Error, csprng_failed, unbuildable_phrase, derived_invalid, seed_invalid,
}
use zkas_signer.Signer.Secret.{prefix_from, secret_from_phrase, account_secret, parse_seed}

pub record Wallet : Type 0 where
  pub seed_hex : Str
  pub address : Str

pub record MnemonicWallet : Type 0 where
  pub mnemonic : Str
  pub address : Str

module _ (chain : Chain) where
  unfoldable pub address_string : chain.Prefix → Bytes → Str
  address_string prefix raw = chain.address_to_string (chain.address_new prefix raw)

module _ (hex : Hex) (chain : Chain) where
  -- The `loop` of `new_wallet`: each round takes the next outcome of `getrandom::fill` for a seed.
  -- `none` means that the outcomes given are used up and the loop goes on.
  unfoldable pub try_seeds : chain.Prefix → List (Result Bytes Str) → Option (Result Wallet Error)
  try_seeds prefix [] = none
  try_seeds prefix (err e ∷ draws) = some (err (csprng_failed e))
  try_seeds prefix (ok seed ∷ draws) =
      let again = try_seeds prefix draws in
      elim (chain.address_bytes_from_seed seed) [
        | some raw ↦
            some (
              ok (record { seed_hex = hex.encode seed; address = address_string chain prefix raw }))
        | none ↦ again
      ]

  unfoldable pub new_wallet : Str → List (Result Bytes Str) → Option (Result Wallet Error)
  new_wallet network draws = elim (prefix_from chain network) [
    | err e ↦ some (err e)
    | ok prefix ↦ try_seeds prefix draws
  ]

module _ (phrase : Phrase) (chain : Chain) where
  -- `drawn` is the outcome of `getrandom::fill` for the entropy.
  unfoldable pub new_wallet_mnemonic : Str → Result Bytes Str → Result MnemonicWallet Error
  new_wallet_mnemonic network drawn = do
    prefix ← prefix_from chain network
    entropy ← map_err csprng_failed drawn
    mnemonic ← map_err unbuildable_phrase (phrase.from_entropy entropy)
    let text = phrase.mnemonic_to_string mnemonic
    secret ← secret_from_phrase phrase text []
    raw ← ok_or derived_invalid (chain.address_bytes_from_seed secret)
    ok (record { mnemonic = text; address = address_string chain prefix raw })

  unfoldable pub account_address : Str → Str → ℕ → Result Str Error
  account_address mnemonic network account = do
    prefix ← prefix_from chain network
    secret ← account_secret phrase mnemonic account
    raw ← ok_or derived_invalid (chain.address_bytes_from_seed secret)
    ok (address_string chain prefix raw)

module _ (hex : Hex) (phrase : Phrase) where
  unfoldable pub account_seed_hex : Str → ℕ → Result Str Error
  account_seed_hex mnemonic account = do
    secret ← account_secret phrase mnemonic account
    ok (hex.encode secret)

module _ (hex : Hex) (phrase : Phrase) (chain : Chain) where
  unfoldable pub address_from_seed : Str → Str → Result Str Error
  address_from_seed seed_hex network = do
    prefix ← prefix_from chain network
    seed ← parse_seed hex phrase seed_hex
    raw ← ok_or seed_invalid (chain.address_bytes_from_seed seed)
    ok (address_string chain prefix raw)

  -- `chain.fvk_bytes_from_seed` is the viewing key of a seed.
  unfoldable pub fvk_hex : Str → Result Str Error
  fvk_hex seed_hex = do
    seed ← parse_seed hex phrase seed_hex
    fvk ← ok_or seed_invalid (chain.fvk_bytes_from_seed seed)
    ok (hex.encode fvk)
