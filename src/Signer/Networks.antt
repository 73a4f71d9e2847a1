-- ===== src/Signer/Networks.antt =====
-- A network may be written in any case where an address or a message signature is made, and in one
-- only where a payment is authorized.
use zkas_signer.Prelude.{ℕ, ◌≡◌, ◌↔◌, refl, sym, List, Result, ok, codes}
use mathlib.Core.Path.{subst}
use zkas_signer.Text.{Str, Bytes, to_ascii_lowercase}
use zkas_signer.Crates.Hex.{Hex}
use zkas_signer.Crates.Phrase.{Phrase}
use zkas_signer.Crates.Chain.{Chain}
use zkas_signer.Signer.Secret.{prefix_from}
use zkas_signer.Signer.Wallet.{new_wallet, new_wallet_mnemonic, account_address, address_from_seed}
use zkas_signer.Signer.Message.{sign}
use zkas_signer.Signer.Payment.{PaymentJson, Request, Prepared, verify_and_sign_payment}
use zkas_signer.Signer.Payment.Authorized.{verify_and_sign_payment-eq-ok}
use zkas_signer.Crates.Payment.{Sdk}

module _ (chain : Chain) where
  prefix_from-lower :
      (s t : Str)
      → to_ascii_lowercase s ≡ to_ascii_lowercase t
      → prefix_from chain s ≡ prefix_from chain t
  unfolding prefix_from
  prefix_from-lower s t h = rw h refl

module _ (hex : Hex) (phrase : Phrase) (chain : Chain) (sdk : Sdk) (json : PaymentJson) where
  -- A payment is authorized under a name only if the name is `mainnet` to the letter.
  payment-exact :
      (s : Str) (r : Request) (p : Prepared) (out : Str)
      → (verify_and_sign_payment hex phrase chain sdk json (record r { network = s }) p ≡ ok out)
        ↔ ((s ≡ codes "mainnet")
            × (verify_and_sign_payment hex phrase chain sdk json
                  (record r { network = codes "mainnet" })
                  p
                ≡ ok out))
  payment-exact s r p out = (
    λ e.
        let exact =
          ((verify_and_sign_payment-eq-ok hex phrase chain sdk json (record r { network = s }) p
              out).0
            e).on_mainnet in
        (
          exact,
          subst
              (λ (n : Str).
                verify_and_sign_payment hex phrase chain sdk json (record r { network = n }) p
                ≡ ok out)
              exact e,
        ),
    λ t.
        subst
          (λ (n : Str).
            verify_and_sign_payment hex phrase chain sdk json (record r { network = n }) p ≡ ok out)
          (sym t.0) t.1,
  )

  -- Two network names that differ only in the case of ASCII letters are one network, or the same
  -- error, for new_wallet, new_wallet_mnemonic, account_address, address_from_seed and sign. It is
  -- not so for a payment: it is authorized under a name exactly when the name is `mainnet` in
  -- this case of its letters and the payment is authorized under that name.
  pub same_network :
      (s t : Str)
      → to_ascii_lowercase s ≡ to_ascii_lowercase t
      → ((draws : List (Result Bytes Str))
          → new_wallet hex chain s draws ≡ new_wallet hex chain t draws)
        × ((drawn : Result Bytes Str)
            → new_wallet_mnemonic phrase chain s drawn ≡ new_wallet_mnemonic phrase chain t drawn)
        × ((mnemonic : Str) (account : ℕ)
            → account_address phrase chain mnemonic s account
              ≡ account_address phrase chain mnemonic t account)
        × ((secret : Str)
            → address_from_seed hex phrase chain secret s
              ≡ address_from_seed hex phrase chain secret t)
        × ((secret message : Str) (rng : chain.Rng)
            → sign hex phrase chain secret s message rng
              ≡ sign hex phrase chain secret t message rng)
        × ((r : Request) (p : Prepared) (out : Str)
            → (verify_and_sign_payment hex phrase chain sdk json (record r { network = s }) p
                ≡ ok out)
              ↔ ((s ≡ codes "mainnet")
                  × (verify_and_sign_payment hex phrase chain sdk json
                        (record r { network = codes "mainnet" })
                        p
                      ≡ ok out)))
  unfolding new_wallet new_wallet_mnemonic account_address address_from_seed sign
  same_network s t h =
      let same = prefix_from-lower chain s t h in
      (
        λ draws. rw (same, new_wallet) refl,
        λ drawn. rw same refl,
        λ mnemonic account. rw same refl,
        λ secret. rw same refl,
        λ secret message rng. rw same refl,
        payment-exact s,
      )
