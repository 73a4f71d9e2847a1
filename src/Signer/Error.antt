-- ===== src/Signer/Error.antt =====
-- src/lib.rs: the errors, which the source returns as texts: one constructor for each format.
use zkas_signer.Prelude.{ℕ}
use zkas_signer.Text.{Str}

pub data Error : Type 0 where
  -- "unknown network: {other}"
  unknown_network : Str → Error
  -- "seed is not hex: {e}", "seed must be exactly 32 bytes (64 hex chars)"
  seed_not_hex : Str → Error
  seed_not_32 : Error
  -- "enter your recovery phrase"
  enter_phrase : Error
  -- "that is not a valid recovery phrase: {e}"
  invalid_phrase : Str → Error
  -- "could not derive a key from that phrase: {e:?}"
  underivable_phrase : Str → Error
  -- "{what} is not hex: {e}", "{what} must be exactly 32 bytes"
  not_hex : Str → Str → Error
  not_32 : Str → Error
  -- "CSPRNG failed: {e}"
  csprng_failed : Str → Error
  -- "could not build a recovery phrase: {e}"
  unbuildable_phrase : Str → Error
  -- "derived key is not a valid Orchard spending key"
  derived_invalid : Error
  -- "account index {account} is out of range", "could not derive account {account}: {e:?}"
  account_out_of_range : ℕ → Error
  underivable_account : ℕ → Str → Error
  -- "seed is not a valid Orchard spending key"
  seed_invalid : Error
  -- "invalid address: {e}", "address is not a shielded Orchard address"
  invalid_address : Str → Error
  not_shielded : Error
  -- "signature is not hex: {e}", "signature must be {} bytes (fvk||sig); got {}"
  signature_not_hex : Str → Error
  signature_length : ℕ → ℕ → Error
  -- "invalid seed or alpha"
  invalid_seed_or_alpha : Error
  -- "{name} is not valid hex", "{name} must be 43 bytes"
  not_valid_hex : Str → Error
  not_43 : Str → Error
  -- "invalid recipient address: {e}", "recipient is not a shielded Orchard address"
  invalid_recipient : Str → Error
  recipient_not_shielded : Error
  -- "unknown network {other}; only mainnet is pinned for on-device verification"
  network_not_pinned : Str → Error
  -- "bundle_hex is not valid hex", "bundle_hex does not decode: {e:?}"
  bundle_not_hex : Error
  bundle_undecodable : Str → Error
  -- "bad disclosure json: {e}", "bad spend_auth json: {e}"
  bad_disclosure : Str → Error
  bad_spend_auth : Str → Error
  -- the text of the SDK signer's error
  refused : Str → Error
  -- "serialize sigs: {e}"
  unserializable : Str → Error
