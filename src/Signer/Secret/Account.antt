-- ===== src/Signer/Secret/Account.antt =====
-- Account 0 of a phrase is the wallet that the phrase itself opens.
use zkas_signer.Prelude.{◌≤◌, ◌≡◌, ◌↔◌, [], length, arith, ok}
use zkas_signer.Text.{Str, Bytes, split_whitespace}
use zkas_signer.Crates.Hex.{Hex}
use zkas_signer.Crates.Phrase.{Phrase, PhraseLaws}
use zkas_signer.Signer.Secret.{secret_from_phrase, account_secret, resolve_secret}
use zkas_signer.Signer.Secret.Wording.{resolve_secret-phrase}

module _ (hex : Hex) (phrase : Phrase) (laws : PhraseLaws phrase) where
  pub account_secret-zero :
      (s : Str) (k : Bytes)
      → (account_secret phrase s 0 ≡ ok k) ↔ (secret_from_phrase phrase s [] ≡ ok k)
  unfolding account_secret secret_from_phrase
  account_secret-zero s k = rw laws.account_try_from-zero (ground arith)

  -- For a text of two words or more, the key of its account 0 and the key that it resolves to as a
  -- secret are the same, and the one is derived exactly when the other is.
  pub account_zero_lem :
      (s : Str) (k : Bytes)
      → 2 ≤ length (split_whitespace s)
      → (account_secret phrase s 0 ≡ ok k) ↔ (resolve_secret hex phrase s ≡ ok k)
  account_zero_lem s k two = rw (resolve_secret-phrase hex phrase s two) (account_secret-zero s k)
