-- ===== src/Crates/Chain.antt =====
-- Addresses (`kaspa_addresses`) and the shielded core (`kaspa_shielded_core`).
use zkas_signer.Prelude.{ℕ, ◌≡◌, Bool, true, Option, some, Result, ok, All, length}
use zkas_signer.Text.{Str, Bytes, IsByte}
use zkas_signer.Text.Trim.{HasNoSpace}

-- `SignedMessage`: the address, the full viewing key and the signature.
pub record SignedMessage : Type 0 where
  pub address : Bytes
  pub fvk : Bytes
  pub sig : Bytes

abbrev pub fvk_len : ℕ
fvk_len = 96

abbrev pub sig_len : ℕ
sig_len = 64

pub record Chain : Type 1 where
  pub Prefix : Type 0
  pub mainnet : Prefix
  pub testnet : Prefix
  pub devnet : Prefix
  pub simnet : Prefix
  pub prefix_to_string : Prefix → Str
  -- `Address::new(prefix, Version::ShieldedOrchard, raw)`, `String::from`, `Address::try_from`
  pub Address : Type 0
  pub address_new : Prefix → Bytes → Address
  pub address_to_string : Address → Str
  pub address_try_from : Str → Result Address Str
  pub address_prefix : Address → Prefix
  pub orchard_recipient_bytes : Address → Option Bytes
  pub address_bytes_from_seed : Bytes → Option Bytes
  pub fvk_bytes_from_seed : Bytes → Option Bytes
  -- the random bits that a signature consumes
  pub Rng : Type 0
  pub sign_message : Bytes → Bytes → Bytes → Rng → Option SignedMessage
  -- `verify_message(…).is_ok()`
  pub verify_message : Bytes → Bytes → Bytes → Bytes → Bytes → Bool
  pub sign_spend_auth_from_seed : Bytes → Bytes → Bytes → Option Bytes

-- The text of a shielded address holds no whitespace and is read back as that address.
pub record AddressLaws (chain : Chain) : Type 0 where
  pub address_to_string-HasNoSpace : (a : chain.Address) → HasNoSpace (chain.address_to_string a)
  pub address_try_from-to_string :
      (p : chain.Prefix) (raw : Bytes)
      → chain.address_try_from (chain.address_to_string (chain.address_new p raw))
        ≡ ok (chain.address_new p raw)
  pub address_prefix-new :
      (p : chain.Prefix) (raw : Bytes) → chain.address_prefix (chain.address_new p raw) ≡ p
  pub orchard_recipient_bytes-new :
      (p : chain.Prefix) (raw : Bytes)
      → chain.orchard_recipient_bytes (chain.address_new p raw) ≡ some raw

-- What a signature is: its parts have their fixed lengths, it is over the address of the seed, and
-- the scheme accepts it for the message and tag that were signed.
pub record MessageLaws (chain : Chain) : Type 0 where
  pub parts :
      (seed tag message : Bytes) (rng : chain.Rng) (s : SignedMessage)
      → chain.sign_message seed tag message rng ≡ some s
      → (length s.fvk ≡ 96) × (length s.sig ≡ 64) × All IsByte s.fvk × All IsByte s.sig
  pub owner :
      (seed tag message : Bytes) (rng : chain.Rng) (s : SignedMessage)
      → chain.sign_message seed tag message rng ≡ some s
      → chain.address_bytes_from_seed seed ≡ some s.address
  pub accepted :
      (seed tag message : Bytes) (rng : chain.Rng) (s : SignedMessage)
      → chain.sign_message seed tag message rng ≡ some s
      → chain.verify_message s.address tag message s.fvk s.sig ≡ true
