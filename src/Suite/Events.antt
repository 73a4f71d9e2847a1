-- ===== src/Suite/Events.antt =====
-- chat-identity/src/event.rs: its tests of escaping, of the canonical form, of the measure of work,
-- and of signing and verifying.
use zkas_signer.Prelude.{
  ℕ, ◌^◌, ◌≤◌, ◌&&◌, ◌≡◌, refl, Bool, true, not, List, [], ◌∷◌, replicate, codes, ◌==◌, ◌==s◌,
  ==s_refl, Option, some, Result, ok, all, All, length, arith,
}
use zkas_signer.Text.{Str, Bytes, IsByte, join, to_string}
use zkas_signer.Crates.Hex.{Hex, HexLaws}
use zkas_signer.Crates.Phrase.{Phrase}
use zkas_signer.Crates.Curve.{Curve, SchnorrLaws}
use zkas_signer.Crates.Bech.{Bech}
use zkas_signer.Crates.Json.{Json, JsonLaws}
use zkas_signer.Chat.Error.{ChatError}
use zkas_signer.Chat.Identity.{ChatIdentity, chat_identity}
use zkas_signer.Event.Canonical.{escape, canonical, serialize_tags}
use zkas_signer.Event.Difficulty.{leading_zero_bits}
use zkas_signer.Event.Sign.{SignedEvent, Draft, to_json, sign_event, sign_event_with_key}
use zkas_signer.Event.Sign.Verifies.{began_ok}
use zkas_signer.Event.Sign.Surface.{to_json-Verifies}
use zkas_signer.Event.Verify.{verify_event_json, verify_chat_event}
use zkas_signer.Suite.{phrase_text, unwrap, finished, starts_with, ends_with, contains}

unfoldable nip01_escaping_is_exact : Bool
nip01_escaping_is_exact =
    (escape (codes "a\nb") ==s codes "a\\nb")
    && (escape (codes "a\"b") ==s codes "a\\\"b")
    && (escape (codes "a\\b") ==s codes "a\\\\b")
    && (escape (codes "a\rb") ==s codes "a\\rb")
    && (escape (codes "a\tb") ==s codes "a\\tb")
    && (escape (0x61 ∷ 0x08 ∷ 0x62 ∷ []) ==s codes "a\\bb")
    && (escape (0x61 ∷ 0x0C ∷ 0x62 ∷ []) ==s codes "a\\fb")
    && (escape (0x61 ∷ 0x01 ∷ 0x62 ∷ []) ==s (0x61 ∷ 0x01 ∷ 0x62 ∷ []))
    && (escape (codes "héllo 日本 🚀") ==s codes "héllo 日本 🚀")

nip01_escaping_is_exact_lem : nip01_escaping_is_exact ≡ true
unfolding nip01_escaping_is_exact escape ◌==s◌
nip01_escaping_is_exact_lem = refl

unfoldable canonical_form_has_no_whitespace : Bool
canonical_form_has_no_whitespace =
    let pubkey = join [] (replicate 32 (codes "ab")) in
    let c = canonical pubkey 1700000000 1 ((codes "t" ∷ codes "zkas" ∷ []) ∷ []) (codes "hi") in
    starts_with (codes "[0,\"") c
    && not (contains (codes " ") c)
    && ends_with (codes ",\"hi\"]") c
    && contains (codes "[[\"t\",\"zkas\"]]") c

canonical_form_has_no_whitespace_lem : canonical_form_has_no_whitespace ≡ true
unfolding canonical_form_has_no_whitespace canonical escape serialize_tags to_string join
    starts_with contains ends_with
canonical_form_has_no_whitespace_lem = refl

unfoldable leading_zero_bits_is_correct : Bool
leading_zero_bits_is_correct =
    (leading_zero_bits (replicate 32 0) == 256)
    && (leading_zero_bits (0x80 ∷ replicate 31 0) == 0)
    && (leading_zero_bits (0x01 ∷ replicate 31 0) == 7)
    && (leading_zero_bits (0x00 ∷ 0x0F ∷ replicate 30 0) == 12)

leading_zero_bits_is_correct_lem : leading_zero_bits_is_correct ≡ true
unfolding leading_zero_bits_is_correct leading_zero_bits
leading_zero_bits_is_correct_lem = refl

-- `sign_event(PHRASE, 0, 1, &[], content, 1700000000, 0, 5000, clock())`
abbrev pub plain : Str → Draft
plain content = record {
  kind = 1;
  tags = [];
  content = content;
  created_at = 1700000000;
  difficulty = 0;
  max_ms = 5000;
}

abbrev contents : List Str
contents =
    codes "héllo 日本 🚀"
    ∷ codes "line\nbreak"
    ∷ codes "quote \" and \\ slash"
    ∷ codes "tab\tпривет"
    ∷ (0x08 ∷ 0x0C ∷ 0x01 ∷ [])
    ∷ []

module _ (hex : Hex) (curve : Curve) (json : Json) (sha256 : Bytes → Bytes) (fuel : ℕ)
    (clock : ℕ → ℕ) (phrase : Phrase) (bech : Bech) where
  -- What these tests sign.
  abbrev signs : Str → Option (Result SignedEvent ChatError)
  signs content = sign_event sha256 fuel clock hex curve phrase bech phrase_text 0 (plain content)

  abbrev verifies : SignedEvent → Bool
  verifies ev = unwrap (verify_event_json sha256 hex curve json (to_json json ev)) (λ b. b)

  unfoldable sign_then_verify : Bool
  sign_then_verify = finished (signs (codes "gm from the global room")) verifies

  unfoldable awkward_content_round_trips : Bool
  awkward_content_round_trips = all (λ content. finished (signs content) verifies) contents

  unfoldable imported_key_signs_and_matches_seed_path : Bool
  imported_key_signs_and_matches_seed_path = finished (signs (codes "hello")) λ from_seed.
      unwrap (chat_identity hex phrase curve bech phrase_text 0) λ id.
        finished
          (sign_event_with_key sha256 fuel clock hex curve id.privkey_hex (plain (codes "hello")))
          λ from_key.
            verifies from_key
            && (from_seed.pubkey ==s from_key.pubkey)
            && (from_seed.id ==s from_key.id)

  module _ (laws : HexLaws hex) (slaws : SchnorrLaws curve) (jlaws : JsonLaws json)
      (wide : (b : Bytes) → (length (sha256 b) ≡ 32) × All IsByte (sha256 b))
      (bound : fuel ≤ 2 ^ 64) where
    with_key :
        (key content : Str) (ev : SignedEvent)
        → sign_event_with_key sha256 fuel clock hex curve key (plain content) ≡ some (ok ev)
        → verifies ev ≡ true
    unfolding verify_chat_event
    with_key key content ev h =
        let verified : verify_event_json sha256 hex curve json (to_json json ev) ≡ ok true =
          (to_json-Verifies hex laws curve slaws json jlaws sha256 wide fuel clock bound key
            (plain content) ev h (omega arith) (omega arith)).0 in
        rw verified refl

    -- Signing with the secret is signing with the key of its identity.
    signed_by :
        (content : Str) (ev : SignedEvent)
        → signs content ≡ some (ok ev)
        → (i : ChatIdentity) × (chat_identity hex phrase curve bech phrase_text 0 ≡ ok i)
          × (sign_event_with_key sha256 fuel clock hex curve i.privkey_hex (plain content)
              ≡ some (ok ev))
    unfolding sign_event
    signed_by content ev h = began_ok (chat_identity hex phrase curve bech phrase_text 0) _ ev h

    passes :
        (content : Str)
        → ((ev : SignedEvent) × (signs content ≡ some (ok ev)))
        → finished (signs content) verifies ≡ true
    passes content (ev, h) =
        let (i, found, made) = signed_by content ev h in
        rw h (with_key i.privkey_hex content ev made)

    -- The test passes if the event is signed.
    sign_then_verify_lem :
        ((ev : SignedEvent) × (signs (codes "gm from the global room") ≡ some (ok ev)))
        → sign_then_verify ≡ true
    unfolding sign_then_verify
    sign_then_verify_lem h = passes (codes "gm from the global room") h

    all_pass :
        (cs : List Str)
        → All (λ content. (ev : SignedEvent) × (signs content ≡ some (ok ev))) cs
        → all (λ content. finished (signs content) verifies) cs ≡ true
    all_pass [] h = refl
    all_pass (content ∷ cs) (h, hs) = rw (passes content h, all_pass cs hs) refl

    -- The test passes if each of its events is signed.
    awkward_content_round_trips_lem :
        All (λ content. (ev : SignedEvent) × (signs content ≡ some (ok ev))) contents
        → awkward_content_round_trips ≡ true
    unfolding awkward_content_round_trips
    awkward_content_round_trips_lem hs = all_pass contents hs

    -- The test passes if the event of the seed path is signed.
    imported_key_signs_and_matches_seed_path_lem :
        (ev : SignedEvent)
        → signs (codes "hello") ≡ some (ok ev)
        → imported_key_signs_and_matches_seed_path ≡ true
    unfolding imported_key_signs_and_matches_seed_path
    imported_key_signs_and_matches_seed_path_lem ev h =
        let (i, found, made) = signed_by (codes "hello") ev h in
        rw
          (
            h,
            found,
            made,
            with_key i.privkey_hex (codes "hello") ev made,
            ==s_refl ev.pubkey,
            ==s_refl ev.id,
          )
          refl
