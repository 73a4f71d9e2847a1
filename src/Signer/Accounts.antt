-- ===== src/Signer/Accounts.antt =====
-- One wallet, whichever way its key is written.
use zkas_signer.Prelude.{
  ℕ, ◌≤◌, ◌≡◌, ◌↔◌, ◌∙◌, refl, sym, length, ok, >>=-eq-ok, ok-injective, ok_or, ok_or-eq-ok,
}
use zkas_signer.Text.{Str, Bytes, split_whitespace}
use zkas_signer.Crates.Hex.{Hex, HexLaws}
use zkas_signer.Crates.Phrase.{Phrase, PhraseLaws}
use zkas_signer.Crates.Chain.{Chain}
use zkas_signer.Crates.Payment.{Sdk}
use zkas_signer.Signer.Error.{seed_invalid}
use zkas_signer.Signer.Secret.{prefix_from, resolve_secret, parse_seed, account_secret}
use zkas_signer.Text.Utf8.{IsAscii}
use zkas_signer.Signer.Secret.{is_valid_mnemonic}
use zkas_signer.Signer.Secret.Wording.{lower_words, same_words}
use zkas_signer.Signer.Wallet.RoundTrip.{IsSeed}
use zkas_signer.Signer.Wallet.Normal.{resolve_secret-IsSeed}
use zkas_signer.Prelude.{All}
use zkas_signer.Signer.Secret.Account.{account_zero_lem}
use zkas_signer.Signer.Wallet.{account_seed_hex, account_address, address_from_seed, fvk_hex}
use zkas_signer.Signer.Wallet.RoundTrip.{resolve_secret-encode}
use zkas_signer.Signer.Wallet.Phrases.{account_secret-IsSeed, account_seed_hex-restores}
use zkas_signer.Signer.Message.{sign, sign_spend_auth}
use zkas_signer.Signer.Payment.{
  PaymentJson, Request, Prepared, read_request, authorize, intent_of, verify_and_sign_payment,
}

module _ (hex : Hex) (phrase : Phrase) (chain : Chain) (sdk : Sdk) (json : PaymentJson) where
  -- Two texts are one secret for every operation that takes a secret: addresses, the viewing key,
  -- signatures, spend authorizations, payments.
  abbrev pub IsOneSecret : Str → Str → Type 0
  IsOneSecret s t =
      ((network : Str)
        → address_from_seed hex phrase chain s network
          ≡ address_from_seed hex phrase chain t network)
      × (fvk_hex hex phrase chain s ≡ fvk_hex hex phrase chain t)
      × ((network message : Str) (rng : chain.Rng)
          → sign hex phrase chain s network message rng
            ≡ sign hex phrase chain t network message rng)
      × ((alpha_hex sighash_hex : Str)
          → sign_spend_auth hex phrase chain s alpha_hex sighash_hex
            ≡ sign_spend_auth hex phrase chain t alpha_hex sighash_hex)
      × ((r : Request) (p : Prepared)
          → verify_and_sign_payment hex phrase chain sdk json (record r { seed_hex = s }) p
            ≡ verify_and_sign_payment hex phrase chain sdk json (record r { seed_hex = t }) p)

  -- Two texts that resolve to one key, or fail alike, are one secret.
  pub resolve_secret-IsOneSecret :
      (s t : Str) → resolve_secret hex phrase s ≡ resolve_secret hex phrase t → IsOneSecret s t
  unfolding address_from_seed fvk_hex sign sign_spend_auth verify_and_sign_payment parse_seed
      read_request authorize intent_of
  resolve_secret-IsOneSecret s t h = (
    λ network. rw h refl,
    rw h refl,
    λ network message rng. rw h refl,
    λ alpha_hex sighash_hex. rw h refl,
    λ r p. rw h refl,
  )

  module _ (laws : HexLaws hex) (plaws : PhraseLaws phrase) where
    -- The hex key of an account resolves to the key of the account.
    pub resolve_secret-account :
        (mnemonic seed_hex : Str) (account : ℕ)
        → account_seed_hex hex phrase mnemonic account ≡ ok seed_hex
        → (key : Bytes) × (account_secret phrase mnemonic account ≡ ok key)
          × (resolve_secret hex phrase seed_hex ≡ ok key)
    unfolding account_seed_hex
    resolve_secret-account mnemonic seed_hex account e =
        let (key, derived, e1) = >>=-eq-ok (account_secret phrase mnemonic account) _ e in
        let seed = account_secret-IsSeed hex phrase chain laws plaws mnemonic account key derived in
        (key, derived, rw (← ok-injective e1) (resolve_secret-encode hex phrase laws key seed))

    -- Under the laws of hex and of phrases, a phrase of two words or more and the hex key of its
    -- account 0 are one secret: the same addresses on every network, the same viewing key, the same
    -- signatures, spend authorizations and payments, and the same errors; and what the phrase has as
    -- the address of its account 0 is the address of that key, and the other way round.
    pub account_seed_hex-IsOneSecret :
        (mnemonic seed_hex : Str)
        → 2 ≤ length (split_whitespace mnemonic)
        → account_seed_hex hex phrase mnemonic 0 ≡ ok seed_hex
        → IsOneSecret mnemonic seed_hex
          × ((network a : Str)
              → (account_address phrase chain mnemonic network 0 ≡ ok a)
                ↔ (address_from_seed hex phrase chain seed_hex network ≡ ok a))
    unfolding address_from_seed parse_seed account_address
    account_seed_hex-IsOneSecret mnemonic seed_hex two e =
        let (key, derived, resolved) = resolve_secret-account mnemonic seed_hex 0 e in
        let own = (account_zero_lem hex phrase plaws mnemonic key two).0 derived in
        (
          resolve_secret-IsOneSecret mnemonic seed_hex (own ∙ sym resolved),
          λ network a. (
            account_seed_hex-restores hex phrase chain laws plaws mnemonic network seed_hex a 0 e,
            λ h.
                let (prefix, p, h1) = >>=-eq-ok (prefix_from chain network) _ h in
                let (raw, good, h2) =
                  >>=-eq-ok (ok_or seed_invalid (chain.address_bytes_from_seed key)) _
                    (rw resolved at h1) in
                rw (p, derived, ok_or-eq-ok seed_invalid (chain.address_bytes_from_seed key) good)
                  h2,
          ),
        )

    -- Under the laws of hex and of phrases, whatever a secret resolves to, by either route, is 32
    -- bytes, and their hex digits are one secret with the text: the same for addresses, the viewing
    -- key, signatures, spend authorizations and payments, and the same errors.
    pub resolve_secret-normal :
        (secret : Str) (b : Bytes)
        → resolve_secret hex phrase secret ≡ ok b
        → IsSeed b × IsOneSecret (hex.encode b) secret
    resolve_secret-normal secret b e =
        let (seed, back, addresses, viewing) =
          resolve_secret-IsSeed hex phrase laws plaws chain secret b e in
        (seed, resolve_secret-IsOneSecret (hex.encode b) secret (back ∙ sym e))

  -- Two ASCII texts of two words or more, which have the same words in lower case, are one secret,
  -- for addresses, the viewing key, signatures, spend authorizations and payments; they have the
  -- same address and the same hex key on every account, or the same error, and are both valid
  -- phrases or both not.
  pub same_words-IsOneSecret :
      (plaws : PhraseLaws phrase)
      → (s t : Str) → All IsAscii s
      → All IsAscii t
      → 2 ≤ length (split_whitespace s)
      → lower_words s ≡ lower_words t
      → IsOneSecret s t
        × ((network : Str) (account : ℕ)
            → account_address phrase chain s network account
              ≡ account_address phrase chain t network account)
        × ((account : ℕ)
            → account_seed_hex hex phrase s account ≡ account_seed_hex hex phrase t account)
        × (is_valid_mnemonic phrase s ≡ is_valid_mnemonic phrase t)
  unfolding account_address account_seed_hex
  same_words-IsOneSecret plaws s t hs ht two h =
      let (same, accounts, valid) = same_words hex phrase plaws s t hs ht two h in
      (
        resolve_secret-IsOneSecret s t same,
        λ network account. rw (accounts account) refl,
        λ account. rw (accounts account) refl,
        valid,
      )
