-- ===== src/Event/Verify.antt =====
-- chat-identity/src/event.rs: verifying an event that was received as JSON.
pub mod Verdict
pub mod Tamper
pub mod Errors
use zkas_signer.Prelude.{
  ℕ, ◌%◌, ◌^◌, Bool, true, false, not, List, Option, none, some, ◌==s◌, if◌then◌else◌, codes,
  Result, ok, err, ◌>>=◌, map_err, ok_or, collect,
}
use zkas_signer.Text.{Str, Bytes, trim}
use zkas_signer.Crates.Hex.{Hex}
use zkas_signer.Crates.Curve.{Curve}
use zkas_signer.Crates.Json.{Json}
use zkas_signer.Signer.Secret.{to_array}
use zkas_signer.Chat.Error.{
  ChatError, not_json, missing_field, missing_created_at, missing_kind, missing_tags, tag_not_array,
  item_not_string, pubkey_not_hex, sig_not_hex, id_not_hex, id_not_32,
}
use zkas_signer.Event.Canonical.{Tag}
use zkas_signer.Event.Id.{event_id}
use zkas_signer.Event.Difficulty.{leading_zero_bits}

-- `o.and_then(f)`
abbrev pub and_then {ℓ κ} : {A : Type ℓ} {B : Type κ} → (A → Option B) → Option A → Option B
and_then f none = none
and_then f (some a) = f a

module _ (json : Json) where
  unfoldable pub get_str : json.Value → Str → Result Str ChatError
  get_str v k = ok_or (missing_field k) (and_then json.as_str (json.get v k))

  unfoldable pub get_u64 : json.Value → Str → ChatError → Result ℕ ChatError
  get_u64 v k e = ok_or e (and_then json.as_u64 (json.get v k))

  unfoldable pub read_item : json.Value → Result Str ChatError
  read_item item = ok_or item_not_string (json.as_str item)

  unfoldable pub read_row : json.Value → Result Tag ChatError
  read_row t = do row ← ok_or tag_not_array (json.as_array t); collect read_item row

  unfoldable pub read_tags : json.Value → Result (List Tag) ChatError
  read_tags v = do
    rows ← ok_or missing_tags (and_then json.as_array (json.get v (codes "tags")))
    collect read_row rows

-- `match r { Ok(a) => a, Err(_) => return Ok(false) }`
abbrev pub or_false {ℓ} :
    {A : Type ℓ} → Option A → (A → Result Bool ChatError) → Result Bool ChatError
or_false none k = ok false
or_false (some a) k = k a

module _ (hex : Hex) (curve : Curve) where
  -- The second half: the key and the signature are read, and the signature is checked.
  unfoldable pub check_signature : Str → Str → Bytes → Result Bool ChatError
  check_signature pubkey sig_hex recomputed = do
    pk_bytes ← map_err pubkey_not_hex (hex.decode pubkey)
    or_false (curve.verifying_from_bytes pk_bytes) λ vk. (do
      sig_bytes ← map_err sig_not_hex (hex.decode sig_hex)
      or_false (curve.signature_try_from sig_bytes)
          λ sig. ok (curve.verify_prehash vk recomputed sig))

module _ (sha256 : Bytes → Bytes) (hex : Hex) (curve : Curve) (json : Json) where
  -- `as u32` keeps the low 32 bits.
  unfoldable pub verify_event_json : Str → Result Bool ChatError
  verify_event_json text = do
    v ← map_err not_json (json.from_str text)
    pubkey ← get_str json v (codes "pubkey")
    id_hex ← get_str json v (codes "id")
    sig_hex ← get_str json v (codes "sig")
    content ← get_str json v (codes "content")
    created_at ← get_u64 json v (codes "created_at") missing_created_at
    wide ← get_u64 json v (codes "kind") missing_kind
    let kind = wide % 2 ^ 32
    tags ← read_tags json v
    let recomputed = event_id sha256 pubkey created_at kind tags content
    if not (hex.encode recomputed ==s id_hex)
        then ok false
        else check_signature hex curve pubkey sig_hex recomputed

  unfoldable pub verify_chat_event : Str → Result Bool ChatError
  verify_chat_event text = verify_event_json text

module _ (hex : Hex) where
  unfoldable pub event_difficulty : Str → Result ℕ ChatError
  event_difficulty id_hex = do
    b ← map_err id_not_hex (hex.decode (trim id_hex))
    id ← ok_or id_not_32 (to_array 32 b)
    ok (leading_zero_bits id)
