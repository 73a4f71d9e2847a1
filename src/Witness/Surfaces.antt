-- ===== src/Witness/Surfaces.antt =====
-- The app's calls for events, from a secret to a verified text.
use zkas_signer.Prelude.{
  ℕ, ◌*◌, ◌%◌, ◌≡◌, refl, List, [], ◌∷◌, ok, replicate, codes, arith, All, length, ◌==s◌,
}
use zkas_signer.Text.{
  Str, Bytes, IsByte, is_whitespace, is_ascii_hexdigit, trim, str_len, len_utf8, join,
  split_whitespace, lower_char,
}
use zkas_signer.Signer.Secret.{cleaned, is_legacy}
use zkas_signer.Chat.Identity.{
  ChatIdentity, chat_identity, secret_seed, phrase_seed, derive_nip06, encode_identity, master,
  split, walk, ckd_priv, child_data, or_hardened, to_be_bytes,
}
use zkas_signer.Event.Canonical.{Tag}
use zkas_signer.Event.Id.{event_id}
use zkas_signer.Event.Sign.{
  SignedEvent, Draft, to_json, parse_tags, sign_chat_event, sign_event, sign_event_with_key,
  signing_key, sign_id, tags_and_id,
}
use zkas_signer.Event.Sign.Owner.{sign_event-pubkey}
use zkas_signer.Chat.Keys.{npub_to_hex}
use zkas_signer.Event.Sign.Surface.{Verifies, verify_chat_event-sign_chat_event}
use zkas_signer.Witness.Toys.{
  toy_phrase, toy_curve-KeyLaws, toy_bech, toy_bech-BechLaws, toy_hex, toy_hex-HexLaws, toy_curve,
  toy_curve-SchnorrLaws, wire_json, wire_json-JsonLaws, total,
}

abbrev sha : Bytes → Bytes
sha b = (total b * 37 % 256) ∷ replicate 31 0

wide : (b : Bytes) → (length (sha b) ≡ 32) × All IsByte (sha b)
wide b = (omega arith, (ground arith, ground arith))

abbrev clock : ℕ → ℕ
clock i = i

abbrev public_hex : Str
public_hex = toy_hex.encode (replicate 32 1)

abbrev draft : Draft
draft = record {
  kind = 1;
  tags = [];
  content = codes "gm";
  created_at = 5;
  difficulty = 0;
  max_ms = 1000;
}

abbrev event_bytes : Bytes
event_bytes = event_id sha public_hex 5 1 [] (codes "gm")

abbrev event : SignedEvent
event = record {
  id = toy_hex.encode event_bytes;
  pubkey = public_hex;
  created_at = 5;
  kind = 1;
  tags = [];
  content = codes "gm";
  sig = toy_hex.encode (replicate (total event_bytes % 8) 1);
}

verify_chat_event-sign_chat_event_example :
    (i : ChatIdentity) × (e : SignedEvent) × (chat_identity toy_hex toy_phrase toy_curve toy_bech
        (codes "legal winner")
        0
      ≡ ok i)
    × (e.pubkey ≡ i.pubkey_hex)
    × ((tags : List Tag) × (parse_tags wire_json (codes " ") ≡ ok tags)
        × Verifies toy_hex toy_curve wire_json sha
            (record draft { tags = tags })
            e
            (to_json wire_json event))
unfolding sign_chat_event parse_tags sign_event chat_identity secret_seed phrase_seed derive_nip06
    encode_identity cleaned sign_event_with_key signing_key sign_id tags_and_id trim is_whitespace
    is_ascii_hexdigit is_legacy str_len len_utf8 ◌==s◌ join split_whitespace lower_char master split
    walk ckd_priv child_data or_hardened to_be_bytes
verify_chat_event-sign_chat_event_example =
    verify_chat_event-sign_chat_event toy_hex toy_hex-HexLaws toy_curve toy_curve-SchnorrLaws
      wire_json wire_json-JsonLaws sha wide 0 clock (omega arith) toy_curve-KeyLaws toy_phrase
      toy_bech toy_bech-BechLaws (codes "legal winner") 0 (codes " ") draft
      (to_json wire_json event) refl (omega arith) (omega arith)

sign_event-pubkey_example :
    (i : ChatIdentity) × (chat_identity toy_hex toy_phrase toy_curve toy_bech
        (codes "legal winner")
        0
      ≡ ok i)
    × (event.pubkey ≡ i.pubkey_hex)
    × (npub_to_hex toy_hex toy_bech i.npub ≡ ok event.pubkey)
unfolding sign_event chat_identity secret_seed phrase_seed derive_nip06 encode_identity cleaned
    sign_event_with_key signing_key sign_id tags_and_id trim is_whitespace is_ascii_hexdigit
    is_legacy str_len len_utf8 ◌==s◌ join split_whitespace lower_char master split walk ckd_priv
    child_data or_hardened to_be_bytes
sign_event-pubkey_example =
    sign_event-pubkey toy_hex toy_phrase toy_curve toy_bech sha 0 clock toy_hex-HexLaws
      toy_curve-KeyLaws toy_bech-BechLaws (codes "legal winner") 0 draft event (omega arith) refl
