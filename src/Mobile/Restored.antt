-- ===== src/Mobile/Restored.antt =====
-- A wallet that the phone makes, restored on a phone from its phrase.
use zkas_signer.Prelude.{
  ℕ, ◌≡◌, ◌∙◌, ◌≤◌, ◌++◌, refl, sym, ap, true, Result, ok, err, map_err, map_ok, length, >>=-eq-ok,
  map_err-eq-ok, ok-injective, ◌⊎◌, inl, inr, Option-cases,
}
use zkas_signer.Text.{Str, Bytes, trim, split_whitespace, as_bytes}
use zkas_signer.Crates.Hex.{Hex, HexLaws}
use zkas_signer.Crates.Phrase.{Phrase, PhraseLaws}
use zkas_signer.Crates.Chain.{Chain, AddressLaws, MessageLaws}
use zkas_signer.Signer.Secret.{prefix_from, account_secret, parse_seed}
use zkas_signer.Signer.Secret.Wording.{cleaned-trim, words-is_legacy}
use zkas_signer.Signer.Wallet.{
  MnemonicWallet, new_wallet_mnemonic, account_address, account_seed_hex, address_from_seed,
}
use zkas_signer.Signer.Wallet.Phrases.{
  account_seed_hex-restores, new_wallet_mnemonic-restores, new_wallet_mnemonic-words,
}
use zkas_signer.Signer.Message.{Signature, sign}
use zkas_signer.Signer.Error.{seed_invalid}
use zkas_signer.Signer.Message.RoundTrip.{verify-sign}
use zkas_signer.Mobile.{
  signer_refused, GeneratedWallet, SignerObject, account_key, address, from_secret, sign_message,
  generate_wallet, verify_message,
}

-- The object for a phrase.
abbrev pub holder : Str → SignerObject
holder mnemonic = record { secret = trim mnemonic }

map_ok-eq-ok {ℓ κ μ} :
    {A : Type ℓ} {B : Type κ} {E : Type μ} (f : A → B) (r : Result A E) {b : B}
    → map_ok f r ≡ ok b
    → (a : A) × (r ≡ ok a) × (f a ≡ b)
map_ok-eq-ok f (ok a) h = (a, refl, cc)
map_ok-eq-ok f (err e) h = cc

-- The money signer's wallet that a generated wallet is.
pub generated :
    (phrase : Phrase) (chain : Chain) (network : Str) (drawn : Result Bytes Str)
    (w : GeneratedWallet)
    → generate_wallet phrase chain network drawn ≡ ok w
    → (m : MnemonicWallet) × (new_wallet_mnemonic phrase chain network drawn ≡ ok m)
      × (m.mnemonic ≡ w.mnemonic)
      × (m.address ≡ w.address)
unfolding generate_wallet
generated phrase chain network drawn w e =
    let (m, h, e1) =
      >>=-eq-ok (map_err signer_refused (new_wallet_mnemonic phrase chain network drawn)) _ e in
    let same = ok-injective e1 in
    (
      m,
      map_err-eq-ok signer_refused _ h,
      ap (λ (x : GeneratedWallet). x.mnemonic) same,
      ap (λ (x : GeneratedWallet). x.address) same,
    )

module _ (hex : Hex) (phrase : Phrase) (chain : Chain) (laws : HexLaws hex)
    (plaws : PhraseLaws phrase) where
  account_seed_hex-trim :
      (s : Str) (account : ℕ)
      → account_seed_hex hex phrase (trim s) account ≡ account_seed_hex hex phrase s account
  unfolding account_seed_hex account_secret
  account_seed_hex-trim s account = rw (cleaned-trim phrase s) refl

  pub account_key-phrase :
      (s : Str)
      → 2 ≤ length (split_whitespace s)
      → account_key hex phrase (holder s) ≡ map_err signer_refused (account_seed_hex hex phrase s 0)
  unfolding account_key
  account_key-phrase s two = rw (words-is_legacy s two, account_seed_hex-trim s 0) refl

  -- An account with an address has a hex key.
  pub keyed :
      (mnemonic network a : Str) (account : ℕ)
      → account_address phrase chain mnemonic network account ≡ ok a
      → (k : Str) × (account_seed_hex hex phrase mnemonic account ≡ ok k)
  unfolding account_address account_seed_hex
  keyed mnemonic network a account e =
      let (prefix, p, e1) = >>=-eq-ok (prefix_from chain network) _ e in
      let (key, derived, e2) = >>=-eq-ok (account_secret phrase mnemonic account) _ e1 in
      (hex.encode key, rw derived refl)

  pub holder-address :
      (network : Str) (drawn : Result Bytes Str) (w : MnemonicWallet)
      → new_wallet_mnemonic phrase chain network drawn ≡ ok w
      → address hex phrase chain (holder w.mnemonic) network ≡ ok w.address
  unfolding address
  holder-address network drawn w e =
      let (as_secret, as_account) =
        new_wallet_mnemonic-restores hex phrase chain plaws network drawn w e in
      let two = new_wallet_mnemonic-words hex phrase chain plaws network drawn w e in
      let (k, found) = keyed w.mnemonic network w.address 0 as_account in
      rw
        (
          account_key-phrase w.mnemonic two,
          found,
          account_seed_hex-restores hex phrase chain laws plaws w.mnemonic network k w.address 0
              found as_account,
        )
        refl

  module _ (alaws : AddressLaws chain) (mlaws : MessageLaws chain) where
    -- What the object signs verifies for the object's address.
    pub verify_message-sign_message :
        (self : SignerObject) (network message a sig : Str) (rng : chain.Rng)
        → address hex phrase chain self network ≡ ok a
        → sign_message hex phrase chain self network message rng ≡ ok sig
        → verify_message hex chain a message sig ≡ ok true
    unfolding address sign_message verify_message
    verify_message-sign_message self network message a sig rng ea es =
        let (k, hk, e1) = >>=-eq-ok (account_key hex phrase self) _ es in
        let (k', hk', e2) = >>=-eq-ok (account_key hex phrase self) _ ea in
        let same : k' ≡ k = ok-injective (sym hk' ∙ hk) in
        let (s, signed, text) =
          map_ok-eq-ok (λ (s : Signature). s.signature_hex) _ (map_err-eq-ok signer_refused _ e1) in
        let (accepted, owner) =
          verify-sign hex phrase chain laws alaws mlaws k network message rng s signed in
        let own : s.address ≡ a =
          ok-injective (sym owner ∙ map_err-eq-ok signer_refused _ (rw same at e2)) in
        rw (← own, ← text, accepted) refl

    -- An object with an address signs, or its key is none to the scheme.
    sign_message-cases :
        (self : SignerObject) (network message a : Str) (rng : chain.Rng)
        → address hex phrase chain self network ≡ ok a
        → ((sig : Str) × (sign_message hex phrase chain self network message rng ≡ ok sig))
          ⊎ (sign_message hex phrase chain self network message rng
              ≡ err (signer_refused seed_invalid))
    unfolding address sign_message address_from_seed sign
    sign_message-cases self network message a rng ea =
        let (k, hk, e1) = >>=-eq-ok (account_key hex phrase self) _ ea in
        let (prefix, p, e2) =
          >>=-eq-ok (prefix_from chain network) _ (map_err-eq-ok signer_refused _ e1) in
        let (seed, s, e3) = >>=-eq-ok (parse_seed hex phrase k) _ e2 in
        let tag = as_bytes (chain.prefix_to_string prefix) in
        elim (Option-cases (chain.sign_message seed tag (as_bytes message) rng)) [
          | inl none_ ↦ inr (rw (hk, p, s, none_) refl)
          | inr (signed, made) ↦
              inl (hex.encode (signed.fvk ++ signed.sig), rw (hk, p, s, made) refl)
        ]

    pub generate_wallet-from_secret :
        (network : Str) (drawn : Result Bytes Str) (w : GeneratedWallet)
        → generate_wallet phrase chain network drawn ≡ ok w
        → (from_secret hex phrase chain w.mnemonic network ≡ ok (holder w.mnemonic))
          × (address hex phrase chain (holder w.mnemonic) network ≡ ok w.address)
          × ((message : Str) (rng : chain.Rng)
              → ((sig : Str) × (sign_message hex phrase chain
                      (holder w.mnemonic)
                      network
                      message
                      rng
                    ≡ ok sig)
                  × (verify_message hex chain w.address message sig ≡ ok true))
                ⊎ (sign_message hex phrase chain (holder w.mnemonic) network message rng
                    ≡ err (signer_refused seed_invalid)))
    unfolding from_secret
    generate_wallet-from_secret network drawn w e =
        let (made, h, phrase_is, address_is) = generated phrase chain network drawn w e in
        let own : address hex phrase chain (holder w.mnemonic) network ≡ ok w.address =
          rw (← phrase_is, ← address_is) (holder-address network drawn made h) in
        (
          rw own refl,
          own,
          λ message rng.
              elim (sign_message-cases (holder w.mnemonic) network message w.address rng own) [
                | inl (sig, es) ↦ inl (
                  sig,
                  es,
                  verify_message-sign_message (holder w.mnemonic) network message w.address sig rng
                      own es,
                )
                | inr none_ ↦ inr none_
              ],
        )
