-- ===== src/Event/Sign.antt =====
-- chat-identity/src/event.rs: signing an event, with a key or with the user's secret.
pub mod Verifies
pub mod Owner
pub mod Wire
pub mod Surface
pub mod Altered
use zkas_signer.Prelude.{
  ℕ, Bool, ◌==◌, List, [], ◌∷◌, Option, none, some, if◌then◌else◌, codes, Result, ok, err, ◌>>=◌,
  map_err,
}
use zkas_signer.Text.{Str, Bytes, trim, is_empty}
use zkas_signer.Crates.Hex.{Hex}
use zkas_signer.Crates.Phrase.{Phrase}
use zkas_signer.Crates.Curve.{Curve}
use zkas_signer.Crates.Bech.{Bech}
use zkas_signer.Crates.Json.{Json, Member, text, number, rows}
use zkas_signer.Chat.Error.{
  ChatError, key_not_hex, invalid_key, not_signed, not_mined, tags_not_json,
}
use zkas_signer.Chat.Identity.{chat_identity}
use zkas_signer.Event.Canonical.{Tag}
use zkas_signer.Event.Id.{event_id}
use zkas_signer.Event.Mine.{mine}

pub record SignedEvent : Type 0 where
  pub id : Str
  pub pubkey : Str
  pub created_at : ℕ
  pub kind : ℕ
  pub tags : List Tag
  pub content : Str
  pub sig : Str

module _ (json : Json) where
  unfoldable pub to_json : SignedEvent → Str
  to_json e = json.object_to_string (
      (codes "id", text e.id)
      ∷ (codes "pubkey", text e.pubkey)
      ∷ (codes "created_at", number e.created_at)
      ∷ (codes "kind", number e.kind)
      ∷ (codes "tags", rows e.tags)
      ∷ (codes "content", text e.content)
      ∷ (codes "sig", text e.sig)
      ∷ [])

  unfoldable pub parse_tags : Str → Result (List Tag) ChatError
  parse_tags tags_json =
      if is_empty (trim tags_json)
      then ok []
      else map_err tags_not_json (json.tags_from_str tags_json)

-- What is given to be signed, with the work that is asked for.
pub record Draft : Type 0 where
  pub kind : ℕ
  pub tags : List Tag
  pub content : Str
  pub created_at : ℕ
  pub difficulty : ℕ
  pub max_ms : ℕ

module _ (hex : Hex) (curve : Curve) where
  unfoldable pub sign_id :
      curve.SigningKey → Str → Draft → List Tag → Bytes → Result SignedEvent ChatError
  sign_id signing pubkey d tags id = do
    sig ← map_err not_signed (curve.sign_prehash signing id)
    ok (record {
      id = hex.encode id;
      pubkey = pubkey;
      created_at = d.created_at;
      kind = d.kind;
      tags = tags;
      content = d.content;
      sig = hex.encode (curve.signature_to_bytes sig);
    })

  unfoldable pub signing_key : Str → Result curve.SigningKey ChatError
  signing_key privkey_hex = do
    sk_bytes ← map_err key_not_hex (hex.decode (trim privkey_hex))
    map_err invalid_key (curve.signing_from_bytes sk_bytes)

module _ (sha256 : Bytes → Bytes) (fuel : ℕ) (clock : ℕ → ℕ) where
  -- The tags and the id that are signed: those of the draft, or what mining makes of them.
  unfoldable pub tags_and_id : Str → Draft → Option (Result (List Tag × Bytes) ChatError)
  tags_and_id pubkey d =
      if d.difficulty == 0
      then some (ok (d.tags, event_id sha256 pubkey d.created_at d.kind d.tags d.content))
      else elim (mine sha256 fuel pubkey d.created_at d.kind d.tags d.content d.difficulty d.max_ms
          clock) [ none ↦ none | some r ↦ some (map_err not_mined r) ]

  module _ (hex : Hex) (curve : Curve) where
    -- `none` is mining that still runs.
    unfoldable pub sign_event_with_key : Str → Draft → Option (Result SignedEvent ChatError)
    sign_event_with_key privkey_hex d = elim (signing_key hex curve privkey_hex) [
      | err e ↦ some (err e)
      | ok signing ↦
          let pubkey = hex.encode (curve.verifying_to_bytes (curve.verifying_key signing)) in
          elim (tags_and_id pubkey d) [
            | none ↦ none
            | some r ↦ some (r >>= λ t. sign_id hex curve signing pubkey d t.0 t.1)
          ]
    ]

    unfoldable pub sign_chat_event_with_key :
        Json → Str → Str → Draft → Option (Result Str ChatError)
    sign_chat_event_with_key json privkey_hex tags_json d = elim (parse_tags json tags_json) [
      | err e ↦ some (err e)
      | ok parsed ↦ elim (sign_event_with_key privkey_hex (record d { tags = parsed })) [
        | none ↦ none
        | some r ↦ some (r >>= λ e. ok (to_json json e))
      ]
    ]

    module _ (phrase : Phrase) (bech : Bech) where
      unfoldable pub sign_event : Str → ℕ → Draft → Option (Result SignedEvent ChatError)
      sign_event secret account d = elim (chat_identity hex phrase curve bech secret account) [
        | err e ↦ some (err e)
        | ok identity ↦ sign_event_with_key identity.privkey_hex d
      ]

      unfoldable pub sign_chat_event : Json → Str → ℕ → Str → Draft → Option (Result Str ChatError)
      sign_chat_event json secret account tags_json d = elim (parse_tags json tags_json) [
        | err e ↦ some (err e)
        | ok parsed ↦ elim (sign_event secret account (record d { tags = parsed })) [
          | none ↦ none
          | some r ↦ some (r >>= λ e. ok (to_json json e))
        ]
      ]
