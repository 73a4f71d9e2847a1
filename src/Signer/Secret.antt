-- ===== src/Signer/Secret.antt =====
-- src/lib.rs: networks, secrets and the fixed-size hex fields.
pub mod Legacy
pub mod Wording
pub mod Account
pub mod Resolution
use zkas_signer.Prelude.{
  ℕ, Bool, ◌&&◌, List, [], Option, none, some, ◌==◌, ◌==s◌, if◌then◌else◌, codes, length, all,
  Result, ok, err, ◌>>=◌, map_err, ok_or, is_ok,
}
use zkas_signer.Text.{
  Str, Bytes, str_len, is_empty, is_ascii_hexdigit, to_ascii_lowercase, trim, split_whitespace,
  join,
}
use zkas_signer.Crates.Hex.{Hex}
use zkas_signer.Crates.Phrase.{Phrase}
use zkas_signer.Crates.Chain.{Chain}
use zkas_signer.Signer.Error.{
  Error, unknown_network, seed_not_hex, seed_not_32, enter_phrase, invalid_phrase,
  underivable_phrase, not_hex, not_32, account_out_of_range, underivable_account, not_valid_hex,
  not_43,
}

abbrev pub zkas_coin_type : ℕ
zkas_coin_type = 111111

-- `<[u8; n]>::try_from(bytes)`
unfoldable pub to_array : ℕ → Bytes → Option Bytes
to_array n b = if length b == n then some b else none

module _ (chain : Chain) where
  unfoldable pub prefix_from : Str → Result chain.Prefix Error
  prefix_from network =
      let other = to_ascii_lowercase network in
      if other ==s codes "mainnet"
      then ok chain.mainnet
      else if other ==s codes "testnet"
      then ok chain.testnet
      else if other ==s codes "devnet"
      then ok chain.devnet
      else if other ==s codes "simnet"
      then ok chain.simnet
      else err (unknown_network other)

module _ (phrase : Phrase) where
  -- `phrase.split_whitespace().collect::<Vec<_>>().join(" ").to_lowercase()`
  unfoldable pub cleaned : Str → Str
  cleaned s = phrase.to_lowercase (join (codes " ") (split_whitespace s))

  unfoldable pub secret_from_phrase : Str → Str → Result Bytes Error
  secret_from_phrase s passphrase = do
    mnemonic ← map_err invalid_phrase (phrase.parse_normalized (cleaned s))
    let seed = phrase.to_seed_normalized mnemonic passphrase
    sk ← map_err underivable_phrase (phrase.from_zip32_seed seed zkas_coin_type phrase.account_zero)
    ok (phrase.to_bytes sk)

  unfoldable pub account_secret : Str → ℕ → Result Bytes Error
  account_secret s account = do
    parsed ← map_err invalid_phrase (phrase.parse_normalized (cleaned s))
    let seed = phrase.to_seed_normalized parsed []
    id ← ok_or (account_out_of_range account) (phrase.account_try_from account)
    sk ← map_err (underivable_account account) (phrase.from_zip32_seed seed zkas_coin_type id)
    ok (phrase.to_bytes sk)

  unfoldable pub is_valid_mnemonic : Str → Bool
  is_valid_mnemonic s = is_ok (phrase.parse_normalized (cleaned s))

-- The test for a legacy secret: `s.len() == 64 && s.chars().all(|c| c.is_ascii_hexdigit())`.
unfoldable pub is_legacy : Str → Bool
is_legacy s = str_len s == 64 && all is_ascii_hexdigit s

module _ (hex : Hex) (phrase : Phrase) where
  unfoldable pub resolve_secret : Str → Result Bytes Error
  resolve_secret secret =
      let s = trim secret in
      if is_legacy s
      then (do bytes ← map_err seed_not_hex (hex.decode s); ok_or seed_not_32 (to_array 32 bytes))
      else if is_empty s
      then err enter_phrase
      else secret_from_phrase phrase s []

  unfoldable pub parse_seed : Str → Result Bytes Error
  parse_seed seed_hex = resolve_secret seed_hex

module _ (hex : Hex) where
  unfoldable pub parse32 : Str → Str → Result Bytes Error
  parse32 hex_str what = do
    bytes ← map_err (not_hex what) (hex.decode (trim hex_str))
    ok_or (not_32 what) (to_array 32 bytes)

  unfoldable pub parse43 : Str → Str → Result Bytes Error
  parse43 hex_str name = do
    b ← map_err (λ e. not_valid_hex name) (hex.decode (trim hex_str))
    ok_or (not_43 name) (to_array 43 b)
