-- ===== src/Witness/Wires.antt =====
-- Signing and verifying an event at concrete inputs.
use zkas_signer.Prelude.{
  false, ℕ, ◌*◌, ◌%◌, true, ◌≤◌, ◌≡◌, ◌⊎◌, ◌↔◌, refl, List, [], ◌∷◌, ok, replicate, codes, arith,
  All, ◌==s◌, collect,
}
use zkas_signer.Text.{Str, Bytes, IsByte, is_whitespace, is_ascii_hexdigit, trim}
use zkas_signer.Crates.Json.{Json, Member, text, number, rows}
use zkas_signer.Event.Difficulty.{leading_zero_bits}
use zkas_signer.Event.Id.{event_id, Collision, IsEvent}
use zkas_signer.Event.Sign.{
  to_json, SignedEvent, Draft, sign_event_with_key, signing_key, sign_id, tags_and_id,
}
use zkas_signer.Event.Sign.Verifies.{verify_event_json-sign_event_with_key}
use zkas_signer.Event.Verify.{verify_event_json, get_str, get_u64, read_tags, read_row, read_item}
use zkas_signer.Event.Verify.Verdict.{Carries, IsSigned, id_of, verify_event_json-eq-true}
use zkas_signer.Event.Verify.Tamper.{verify_event_json-kind}
use zkas_signer.Event.Sign.Altered.{IsSameEvent, verify_event_json-altered}
use zkas_signer.Event.Sign.Wire.{to_json-IsWire}
use zkas_signer.Witness.Toys.{
  toy_hex, toy_hex-HexLaws, toy_curve, toy_curve-SchnorrLaws, toy_json_of, total, wire_json,
  wire_json-JsonLaws,
}

abbrev sha : Bytes → Bytes
sha b = (total b * 37 % 256) ∷ replicate 31 0

abbrev no_clock : ℕ → ℕ
no_clock i = i

abbrev secret_hex : Str
secret_hex = toy_hex.encode (replicate 32 5)

abbrev public_hex : Str
public_hex = toy_hex.encode (replicate 32 1)

abbrev draft : Draft
draft = record {
  kind = 1;
  tags = (codes "t" ∷ codes "zkas" ∷ []) ∷ [];
  content = codes "gm";
  created_at = 1700000000;
  difficulty = 0;
  max_ms = 1000;
}

abbrev event_bytes : Bytes
event_bytes = event_id sha public_hex draft.created_at draft.kind draft.tags draft.content

abbrev event : SignedEvent
event = record {
  id = toy_hex.encode event_bytes;
  pubkey = public_hex;
  created_at = draft.created_at;
  kind = draft.kind;
  tags = draft.tags;
  content = draft.content;
  sig = toy_hex.encode (replicate (total event_bytes % 8) 1);
}

-- The members of the event's object, the kind being given.
abbrev members : ℕ → List (Str × Member)
members kind =
    (codes "id", text event.id)
    ∷ (codes "pubkey", text event.pubkey)
    ∷ (codes "created_at", number event.created_at)
    ∷ (codes "kind", number kind)
    ∷ (codes "tags", rows event.tags)
    ∷ (codes "content", text event.content)
    ∷ (codes "sig", text event.sig)
    ∷ []

-- The second text has the kind 2 ^ 32 + 1 in the place of 1.
abbrev json : Json
json = toy_json_of (members 1) (members 4294967297)

first : Carries json (codes "first")
unfolding get_str get_u64 read_tags read_row read_item collect ◌==s◌
first = record {
  value = _;
  pubkey = event.pubkey;
  id_hex = event.id;
  sig_hex = event.sig;
  content = event.content;
  created_at = event.created_at;
  wide = 1;
  tags = event.tags;
  parsed = refl;
  has_pubkey = refl;
  has_id = refl;
  has_sig = refl;
  has_content = refl;
  has_created_at = refl;
  has_kind = refl;
  has_tags = refl;
}

second : Carries json (codes "second")
unfolding get_str get_u64 read_tags read_row read_item collect ◌==s◌
second = record {
  value = _;
  pubkey = event.pubkey;
  id_hex = event.id;
  sig_hex = event.sig;
  content = event.content;
  created_at = event.created_at;
  wide = 4294967297;
  tags = event.tags;
  parsed = refl;
  has_pubkey = refl;
  has_id = refl;
  has_sig = refl;
  has_content = refl;
  has_created_at = refl;
  has_kind = refl;
  has_tags = refl;
}

verify_event_json-sign_event_with_key_example :
    (verify_event_json sha toy_hex toy_curve json (codes "first") ≡ ok true)
    × ((id : Bytes) × (event.id ≡ toy_hex.encode id) × (0 ≤ leading_zero_bits id))
unfolding sign_event_with_key signing_key sign_id tags_and_id trim is_whitespace is_ascii_hexdigit
    first
verify_event_json-sign_event_with_key_example =
    verify_event_json-sign_event_with_key sha 0 no_clock toy_hex toy_curve toy_hex-HexLaws
      toy_curve-SchnorrLaws json secret_hex draft event (codes "first") (omega arith) refl
      (omega arith) (first, refl, refl, refl, refl, refl, refl, refl)

verify_event_json-eq-true_example :
    (verify_event_json sha toy_hex toy_curve json (codes "first") ≡ ok true) ↔ (
      (c : Carries json (codes "first")) × (toy_hex.encode
          (id_of sha toy_hex toy_curve json (codes "first") c)
        ≡ c.id_hex)
      × IsSigned toy_hex toy_curve c.pubkey c.sig_hex
          (id_of sha toy_hex toy_curve json (codes "first") c))
verify_event_json-eq-true_example =
    verify_event_json-eq-true sha toy_hex toy_curve json (codes "first")

verify_event_json-kind_example :
    verify_event_json sha toy_hex toy_curve json (codes "first")
    ≡ verify_event_json sha toy_hex toy_curve json (codes "second")
unfolding first second
verify_event_json-kind_example =
    verify_event_json-kind sha toy_hex toy_curve json (codes "first") (codes "second") first second
      refl refl refl refl refl refl (omega arith)

hashed : (b : Bytes) → All IsByte (sha b)
hashed b = (ground arith, (ground arith))

in_range : IsEvent event.pubkey event.tags event.content
in_range = record {
  pubkey_bare = ground arith;
  pubkey_chars = ground arith;
  tags_chars = ground arith;
  content_chars = ground arith;
}

-- The same event with another content.
abbrev altered : SignedEvent
altered = record event { content = codes "no" }

altered_in_range : IsEvent altered.pubkey altered.tags altered.content
altered_in_range = record {
  pubkey_bare = ground arith;
  pubkey_chars = ground arith;
  tags_chars = ground arith;
  content_chars = ground arith;
}

verify_event_json-altered_example :
    IsSameEvent event altered
    ⊎ ((verify_event_json sha toy_hex toy_curve wire_json (to_json wire_json altered) ≡ ok false)
        ⊎ Collision sha)
unfolding sign_event_with_key signing_key sign_id tags_and_id trim is_whitespace is_ascii_hexdigit
verify_event_json-altered_example =
    verify_event_json-altered sha toy_hex toy_curve wire_json toy_hex-HexLaws hashed 0 no_clock
      secret_hex draft event altered (to_json wire_json altered) (omega arith) refl (omega arith)
      (to_json-IsWire wire_json wire_json-JsonLaws altered (omega arith) (omega arith)) refl
      in_range altered_in_range
