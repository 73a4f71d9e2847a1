-- ===== src/Signer/Message.antt =====
-- src/lib.rs: messages signed to prove control of an address, and spend authorization signatures.
pub mod RoundTrip
pub mod Verify
pub mod SpendAuth
use zkas_signer.Prelude.{
  ℕ, ◌+◌, Bool, true, false, ◌++◌, ◌==◌, Result, ok, err, ◌>>=◌, map_err, ok_or, length, take, drop,
  if◌then◌else◌, codes, not,
}
use zkas_signer.Text.{Str, Bytes, as_bytes, trim}
use zkas_signer.Crates.Hex.{Hex}
use zkas_signer.Crates.Phrase.{Phrase}
use zkas_signer.Crates.Chain.{Chain, fvk_len, sig_len}
use zkas_signer.Signer.Error.{
  Error, seed_invalid, invalid_address, not_shielded, signature_not_hex, signature_length,
  invalid_seed_or_alpha,
}
use zkas_signer.Signer.Secret.{prefix_from, parse_seed, parse32}
use zkas_signer.Signer.Wallet.{address_string}

pub record Signature : Type 0 where
  pub address : Str
  pub signature_hex : Str

module _ (hex : Hex) (phrase : Phrase) (chain : Chain) where
  -- `rng` is the generator that `rand::rng()` returns.
  unfoldable pub sign : Str → Str → Str → chain.Rng → Result Signature Error
  sign seed_hex network message rng = do
    prefix ← prefix_from chain network
    seed ← parse_seed hex phrase seed_hex
    let tag = chain.prefix_to_string prefix
    signed ← ok_or seed_invalid (chain.sign_message seed (as_bytes tag) (as_bytes message) rng)
    let blob = signed.fvk ++ signed.sig
    ok (record {
      address = address_string chain prefix signed.address;
      signature_hex = hex.encode blob;
    })

  unfoldable pub sign_spend_auth : Str → Str → Str → Result Str Error
  sign_spend_auth seed_hex alpha_hex sighash_hex = do
    seed ← parse_seed hex phrase seed_hex
    alpha ← parse32 hex alpha_hex (codes "alpha")
    sighash ← parse32 hex sighash_hex (codes "sighash")
    sig ← ok_or invalid_seed_or_alpha (chain.sign_spend_auth_from_seed seed alpha sighash)
    ok (hex.encode sig)

module _ (hex : Hex) (chain : Chain) where
  -- `expect("checked length")` does not fail: the length has been compared.
  unfoldable pub verify : Str → Str → Str → Result Bool Error
  verify address message signature_hex = do
    addr ← map_err invalid_address (chain.address_try_from (trim address))
    let tag = chain.prefix_to_string (chain.address_prefix addr)
    raw ← ok_or not_shielded (chain.orchard_recipient_bytes addr)
    blob ← map_err signature_not_hex (hex.decode (trim signature_hex))
    let fvk = take fvk_len blob
    let sig = drop fvk_len blob
    if not (length blob == fvk_len + sig_len)
        then err (signature_length (fvk_len + sig_len) (length blob))
        else ok (chain.verify_message raw (as_bytes tag) (as_bytes message) fvk sig)
