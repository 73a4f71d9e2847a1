-- ===== src/Chat/Keys.antt =====
-- chat-identity/src/event.rs: NIP-19 texts of keys, and the public key of an imported secret.
pub mod Nip19
pub mod Readings
use zkas_signer.Prelude.{
  ℕ, Bool, true, false, not, Option, ◌==s◌, if◌then◌else◌, codes, Result, ok, err, ◌>>=◌, map_err,
  ok_or,
}
use zkas_signer.Text.{Str, Bytes, trim}
use zkas_signer.Crates.Hex.{Hex}
use zkas_signer.Crates.Curve.{Curve}
use zkas_signer.Crates.Bech.{Bech, Variant, bech32, bech32m}
use zkas_signer.Signer.Secret.{to_array}
use zkas_signer.Chat.Error.{
  ChatError, key_not_hex, invalid_key, not_bech32, wrong_prefix, wrong_variant, bad_payload,
  payload_not_32, invalid_secret_key, not_hex, not_32, encode_failed,
}

abbrev pub is_bech32 : Variant → Bool
is_bech32 bech32 = true
is_bech32 bech32m = false

module _ (bech : Bech) where
  unfoldable pub decode_nip19 : Str → Str → Result Bytes ChatError
  decode_nip19 expect_hrp s = do
    parts ← map_err not_bech32 (bech.decode (trim s))
    let (hrp, data_, variant) = parts
    if not (hrp ==s expect_hrp)
        then err (wrong_prefix expect_hrp hrp)
        else if not (is_bech32 variant)
        then err wrong_variant
        else (do
          bytes ← map_err bad_payload (bech.from_base32 data_)
          ok_or payload_not_32 (to_array 32 bytes))

module _ (hex : Hex) (bech : Bech) where
  unfoldable pub npub_to_hex : Str → Result Str ChatError
  npub_to_hex npub = do b ← decode_nip19 bech (codes "npub") npub; ok (hex.encode b)

  unfoldable pub hex_to_npub : Str → Result Str ChatError
  hex_to_npub pubkey_hex = do
    bytes ← map_err not_hex (hex.decode (trim pubkey_hex))
    b ← ok_or not_32 (to_array 32 bytes)
    map_err encode_failed (bech.encode (codes "npub") (bech.to_base32 b) bech32)

module _ (hex : Hex) (curve : Curve) (bech : Bech) where
  unfoldable pub nsec_to_hex : Str → Result Str ChatError
  nsec_to_hex nsec = do
    b ← decode_nip19 bech (codes "nsec") nsec
    checked ← map_err invalid_secret_key (curve.signing_from_bytes b)
    ok (hex.encode b)

module _ (hex : Hex) (curve : Curve) where
  unfoldable pub pubkey_for_key : Str → Result Str ChatError
  pubkey_for_key privkey_hex = do
    b ← map_err key_not_hex (hex.decode (trim privkey_hex))
    sk ← map_err invalid_key (curve.signing_from_bytes b)
    ok (hex.encode (curve.verifying_to_bytes (curve.verifying_key sk)))
