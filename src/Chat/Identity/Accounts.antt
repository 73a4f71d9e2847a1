-- ===== src/Chat/Identity/Accounts.antt =====
-- Which accounts and which secrets are one identity.
use zkas_signer.Prelude.{
  ℕ, ◌^◌, ◌%◌, ◌↔◌, ◌≤◌, ◌<◌, ◌≡◌, ◌∙◌, refl, ap, sym, arith, codes, All, length,
}
use zkas_signer.Text.{Str, trim, split_whitespace, join}
use zkas_signer.Text.Utf8.{IsAscii}
use zkas_signer.Crates.Hex.{Hex}
use zkas_signer.Crates.Phrase.{Phrase, PhraseLaws}
use zkas_signer.Crates.Curve.{Curve}
use zkas_signer.Crates.Bech.{Bech}
use zkas_signer.Signer.Secret.{cleaned}
use zkas_signer.Signer.Secret.Wording.{
  lower_words, cleaned-ascii, count_words, cleaned-trim, words-is_legacy, words-is_empty,
}
use zkas_signer.Chat.Identity.Path.{hardened_bytes, path_identity, chat_identity-path_identity}
use zkas_signer.Chat.Identity.{
  or_hardened, phrase_seed, to_be_bytes, derive_nip06, secret_seed, chat_identity,
}

or_hardened-mod :
    (account : ℕ) → account < 2 ^ 32 → or_hardened account ≡ or_hardened (account % 2 ^ 31)
unfolding or_hardened
or_hardened-mod account h = ground arith

or_hardened-bound : (account : ℕ) → account < 2 ^ 32 → or_hardened account < 2 ^ 32
unfolding or_hardened
or_hardened-bound account h = ground arith

or_hardened-low : (account : ℕ) → account < 2 ^ 32 → or_hardened account % 2 ^ 31 ≡ account % 2 ^ 31
unfolding or_hardened
or_hardened-low account h = ground arith

-- The bytes of an index determine it.
to_be_bytes-injective : (m n : ℕ) → m < 2 ^ 32 → n < 2 ^ 32 → to_be_bytes m ≡ to_be_bytes n → m ≡ n
unfolding to_be_bytes
to_be_bytes-injective m n hm hn same = ground arith

-- The index of an account is the hardened one, whichever half of the `u32`s the account is in.
or_hardened-bytes :
    (account : ℕ)
    → account < 2 ^ 32
    → to_be_bytes (or_hardened account) ≡ hardened_bytes (account % 2 ^ 31)
unfolding to_be_bytes or_hardened
or_hardened-bytes account h = ground arith

module _ (hex : Hex) (phrase : Phrase) (curve : Curve) (bech : Bech) where
  chat_identity-mod :
      (a : ℕ)
      → a < 2 ^ 32
      → (secret : Str)
      → chat_identity hex phrase curve bech secret a
        ≡ chat_identity hex phrase curve bech secret (a % 2 ^ 31)
  unfolding chat_identity derive_nip06
  chat_identity-mod a ha secret = rw (or_hardened-mod a ha) refl

  -- For accounts that are `u32`s, on every secret: the identity of an account, or its error, is that
  -- at m/44'/1237'/i'/0/0, `i` being the account modulo 2 ^ 31, each step written out as BIP-32 has
  -- it, with the bytes of `i'` under the MAC of the account's step. These bytes are the same for two
  -- accounts exactly when the accounts are equal modulo 2 ^ 31. So accounts below 2 ^ 31 are at paths
  -- of their own, and an account of 2 ^ 31 or more has the identity, or the error, of the account
  -- that is 2 ^ 31 below.
  pub chat_identity-or_hardened :
      (a b : ℕ)
      → a < 2 ^ 32
      → b < 2 ^ 32
      → ((secret : Str)
          → (chat_identity hex phrase curve bech secret a
              ≡ path_identity hex phrase curve bech secret (a % 2 ^ 31))
            × (chat_identity hex phrase curve bech secret a
                ≡ chat_identity hex phrase curve bech secret (a % 2 ^ 31)))
        × (to_be_bytes (or_hardened a) ≡ hardened_bytes (a % 2 ^ 31))
        × ((hardened_bytes (a % 2 ^ 31) ≡ hardened_bytes (b % 2 ^ 31)) ↔ (a % 2 ^ 31 ≡ b % 2 ^ 31))
  chat_identity-or_hardened a b ha hb = (
    λ secret.
        let low = chat_identity-mod a ha secret in
        let path =
          chat_identity-path_identity hex phrase curve bech secret (a % 2 ^ 31) (omega arith) in
        (low ∙ path, low),
    or_hardened-bytes a ha,
    (
      λ same.
          let index =
            to_be_bytes-injective (or_hardened a) (or_hardened b) (or_hardened-bound a ha)
              (or_hardened-bound b hb)
              (or_hardened-bytes a ha ∙ same ∙ sym (or_hardened-bytes b hb)) in
          sym (or_hardened-low a ha) ∙ ap (λ (i : ℕ). i % 2 ^ 31) index ∙ or_hardened-low b hb,
      ap hardened_bytes,
    ),
  )

  secret_seed-cleaned :
      (s t : Str)
      → 2 ≤ length (split_whitespace s)
      → 2 ≤ length (split_whitespace t)
      → cleaned phrase s ≡ cleaned phrase t
      → secret_seed hex phrase curve bech (trim s) ≡ secret_seed hex phrase curve bech (trim t)
  unfolding secret_seed phrase_seed
  secret_seed-cleaned s t hs ht same =
      rw
        (
          words-is_legacy s hs,
          words-is_legacy t ht,
          cleaned-trim phrase s,
          cleaned-trim phrase t,
          same,
        )
        refl

  -- Two ASCII phrases of two words or more with the same words in lower case give the same chat
  -- identity, or the same error, on every account.
  pub chat_identity-same_words :
      (laws : PhraseLaws phrase)
      → (s t : Str) (account : ℕ) → All IsAscii s
      → All IsAscii t
      → 2 ≤ length (split_whitespace s)
      → lower_words s ≡ lower_words t
      → chat_identity hex phrase curve bech s account
        ≡ chat_identity hex phrase curve bech t account
  unfolding chat_identity
  chat_identity-same_words laws s t account hs ht two h =
      let same : cleaned phrase s ≡ cleaned phrase t =
        cleaned-ascii hex phrase laws s hs
        ∙ ap (join (codes " ")) h
        ∙ sym (cleaned-ascii hex phrase laws t ht) in
      let two' : 2 ≤ length (split_whitespace t) =
        omega (arith, count_words s, count_words t, ap length h) in
      rw (words-is_empty s two, words-is_empty t two', secret_seed-cleaned s t two two' same) refl
