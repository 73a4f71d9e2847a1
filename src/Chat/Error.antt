-- ===== src/Chat/Error.antt =====
-- chat-identity/src/lib.rs and chat-identity/src/event.rs: the errors, which the source returns as
-- texts: one constructor for each format.
use zkas_signer.Text.{Str}
use zkas_signer.Event.Mine.{MineError}

pub data ChatError : Type 0 where
  -- "enter your recovery phrase"
  enter_phrase : ChatError
  -- "seed is not hex: {e}", "seed must be exactly 32 bytes (64 hex chars)"
  seed_not_hex : Str → ChatError
  seed_not_32 : ChatError
  -- "that is not a valid recovery phrase: {e}"
  invalid_phrase : Str → ChatError
  -- "hmac key"
  hmac_key : ChatError
  -- "invalid master key from seed", "derived scalar out of range", "derived key is zero"
  invalid_master : ChatError
  scalar_out_of_range : ChatError
  key_is_zero : ChatError
  -- a panic of `expect("static hrp is valid")`
  bad_hrp : ChatError
  -- "key is not hex: {e}", "not a valid key: {e}", "could not sign: {e}"
  key_not_hex : Str → ChatError
  invalid_key : Str → ChatError
  not_signed : Str → ChatError
  -- the failure of `mine`
  not_mined : MineError → ChatError
  -- "not JSON: {e}", "missing field: {k}", "missing created_at", "missing kind", "missing tags"
  not_json : Str → ChatError
  missing_field : Str → ChatError
  missing_created_at : ChatError
  missing_kind : ChatError
  missing_tags : ChatError
  -- "tag is not an array", "tag item is not a string"
  tag_not_array : ChatError
  item_not_string : ChatError
  -- "pubkey not hex: {e}", "sig not hex: {e}"
  pubkey_not_hex : Str → ChatError
  sig_not_hex : Str → ChatError
  -- "tags are not a JSON array of string arrays: {e}"
  tags_not_json : Str → ChatError
  -- "id is not hex: {e}", "id must be 32 bytes"
  id_not_hex : Str → ChatError
  id_not_32 : ChatError
  -- "not bech32: {e}", "expected a {expect_hrp}… string, got {hrp}…", "wrong bech32 variant …",
  -- "bad bech32 payload: {e}", "must decode to exactly 32 bytes"
  not_bech32 : Str → ChatError
  wrong_prefix : Str → Str → ChatError
  wrong_variant : ChatError
  bad_payload : Str → ChatError
  payload_not_32 : ChatError
  -- "not a valid secret key: {e}", "not hex: {e}", "must be 32 bytes", "encode failed: {e}"
  invalid_secret_key : Str → ChatError
  not_hex : Str → ChatError
  not_32 : ChatError
  encode_failed : Str → ChatError
