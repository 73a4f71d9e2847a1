-- ===== src/Crates/Phrase.antt =====
-- Recovery phrases and shielded key derivation (`bip39`, `zip32`, `orchard::keys`), with the part
-- of Rust's `str` that rests on Unicode's tables of letter case.
use zkas_signer.Prelude.{ℕ, ◌≤◌, ◌≡◌, Option, some, List, map, Result, All, length, codes}
use zkas_signer.Text.{Str, Bytes, IsByte, lower_char, join}
use zkas_signer.Text.Utf8.{IsAscii}
use zkas_signer.Text.Words.{IsWord}

pub record Phrase : Type 1 where
  pub to_lowercase : Str → Str
  pub Mnemonic : Type 0
  pub parse_normalized : Str → Result Mnemonic Str
  pub from_entropy : Bytes → Result Mnemonic Str
  pub mnemonic_to_string : Mnemonic → Str
  pub to_seed_normalized : Mnemonic → Str → Bytes
  pub AccountId : Type 0
  pub account_zero : AccountId
  pub account_try_from : ℕ → Option AccountId
  pub SpendingKey : Type 0
  pub from_zip32_seed : Bytes → ℕ → AccountId → Result SpendingKey Str
  pub to_bytes : SpendingKey → Bytes

pub record PhraseLaws (phrase : Phrase) : Type 0 where
  -- lower case of ASCII text is by character
  pub to_lowercase-ascii : (s : Str) → All IsAscii s → phrase.to_lowercase s ≡ map lower_char s
  -- a phrase is printed as at least two words with a space between each two
  pub words_of_mnemonic :
      (m : phrase.Mnemonic)
      → (ws : List Str) × (phrase.mnemonic_to_string m ≡ join (codes " ") ws)
        × All IsWord ws
        × (2 ≤ length ws)
  -- the account with index 0 is `AccountId::ZERO`
  pub account_try_from-zero : phrase.account_try_from 0 ≡ some phrase.account_zero
  -- a spending key is 32 bytes
  pub to_bytes-seed :
      (k : phrase.SpendingKey) → (length (phrase.to_bytes k) ≡ 32) × All IsByte (phrase.to_bytes k)
