-- ===== src/Mobile.antt =====
-- mobile/src/lib.rs: the signer of the phone apps, an object that holds a secret and calls the money
-- signer.
pub mod Same
pub mod Restored
use zkas_signer.Prelude.{ℕ, Bool, List, Result, ok, err, ◌>>=◌, map_err, map_ok, if◌then◌else◌}
use zkas_signer.Text.{Str, Bytes, trim}
use zkas_signer.Crates.Hex.{Hex}
use zkas_signer.Crates.Phrase.{Phrase}
use zkas_signer.Crates.Chain.{Chain}
use zkas_signer.Crates.Payment.{Sdk}
use zkas_signer.Signer.Error.{Error}
use zkas_signer.Signer.Secret.{is_legacy}
use zkas_signer.Signer.Secret as Secret
use zkas_signer.Signer.Wallet.{
  MnemonicWallet, new_wallet_mnemonic, account_seed_hex, address_from_seed, fvk_hex,
}
use zkas_signer.Signer.Wallet as Wallets
use zkas_signer.Signer.Message.{Signature, sign, verify}
use zkas_signer.Signer.Payment.{PaymentJson, Request, Prepared}
use zkas_signer.Signer.Payment as Payments

-- The one variant holds the reason as the money signer gives it.
pub data SignerError : Type 0 where
  signer_refused : Error → SignerError

pub record GeneratedWallet : Type 0 where
  pub mnemonic : Str
  pub address : Str

-- The object `Signer`.
pub record SignerObject : Type 0 where
  pub secret : Str

-- What the user asks for, the secret being the object's.
pub record Order : Type 0 where
  pub network : Str
  pub to_address : Str
  pub amount_sompi : ℕ
  pub max_fee_sompi : ℕ

module _ (hex : Hex) (phrase : Phrase) where
  unfoldable pub account_key : SignerObject → Result Str SignerError
  account_key self =
      if is_legacy self.secret
      then ok self.secret
      else map_err signer_refused (account_seed_hex hex phrase self.secret 0)

  module _ (chain : Chain) where
    unfoldable pub address : SignerObject → Str → Result Str SignerError
    address self network = do
      key ← account_key self
      map_err signer_refused (address_from_seed hex phrase chain key network)

    unfoldable pub from_secret : Str → Str → Result SignerObject SignerError
    from_secret secret network = do
      let signer : SignerObject = record { secret = trim secret }
      checked ← address signer network
      ok signer

    unfoldable pub viewing_key : SignerObject → Result Str SignerError
    viewing_key self = do
      key ← account_key self
      map_err signer_refused (fvk_hex hex phrase chain key)

    unfoldable pub sign_message : SignerObject → Str → Str → chain.Rng → Result Str SignerError
    sign_message self network message rng = do
      key ← account_key self
      map_err signer_refused (
          map_ok (λ (s : Signature). s.signature_hex)
            (sign hex phrase chain key network message rng))

    unfoldable pub verify_and_sign_payment :
        (sdk : Sdk) → PaymentJson → SignerObject → Order → Prepared → Result Str SignerError
    verify_and_sign_payment sdk json self o p = do
      key ← account_key self
      map_err signer_refused (
          Payments.verify_and_sign_payment hex phrase chain sdk json
            (record {
              seed_hex = key;
              network = o.network;
              to_address = o.to_address;
              amount_sompi = o.amount_sompi;
              max_fee_sompi = o.max_fee_sompi;
            })
            p)

module _ (phrase : Phrase) where
  unfoldable pub is_valid_mnemonic : Str → Bool
  is_valid_mnemonic s = Secret.is_valid_mnemonic phrase s

  module _ (chain : Chain) where
    unfoldable pub generate_wallet : Str → Result Bytes Str → Result GeneratedWallet SignerError
    generate_wallet network drawn = do
      w ← map_err signer_refused (new_wallet_mnemonic phrase chain network drawn)
      ok (record { mnemonic = w.mnemonic; address = w.address })

    unfoldable pub account_address : Str → Str → ℕ → Result Str SignerError
    account_address s network account =
        map_err signer_refused (Wallets.account_address phrase chain s network account)

module _ (hex : Hex) (chain : Chain) where
  unfoldable pub verify_message : Str → Str → Str → Result Bool SignerError
  verify_message address message signature_hex =
      map_err signer_refused (verify hex chain address message signature_hex)
