-- ===== src/Event/Sign/Surface.antt =====
-- From a secret to a text that verifies: signing and verifying as the app calls them.
use mathlib.Core.Path.{subst}
use zkas_signer.Prelude.{
  ℕ, ◌^◌, ◌≤◌, ◌<◌, ◌≡◌, refl, true, List, some, ok, ok-injective, length, All, arith,
}
use zkas_signer.Text.{Str, Bytes, IsByte}
use zkas_signer.Crates.Hex.{Hex, HexLaws}
use zkas_signer.Crates.Phrase.{Phrase}
use zkas_signer.Crates.Curve.{Curve, SchnorrLaws, KeyLaws}
use zkas_signer.Crates.Bech.{Bech, BechLaws}
use zkas_signer.Crates.Json.{Json, JsonLaws}
use zkas_signer.Signer.Secret.Legacy.{trim-hexdigit, to_array-length}
use zkas_signer.Chat.Identity.{ChatIdentity, chat_identity}
use zkas_signer.Event.Canonical.{Tag}
use zkas_signer.Event.Id.{event_id}
use zkas_signer.Event.Difficulty.{leading_zero_bits}
use zkas_signer.Event.Sign.{
  SignedEvent, Draft, to_json, parse_tags, sign_event_with_key, sign_event, sign_chat_event,
}
use zkas_signer.Event.Sign.Owner.{sign_event-pubkey}
use zkas_signer.Event.Sign.Verifies.{
  IsTagged, IsWire, made, ran_ok, began_ok, verify_event_json-sign_event_with_key,
}
use zkas_signer.Event.Sign.Wire.{to_json-IsWire}
use zkas_signer.Event.Verify.{verify_chat_event, event_difficulty}

-- What is said of the text of an event that is signed from a draft.
abbrev pub Verifies :
    (hex : Hex) (curve : Curve) (json : Json) → (Bytes → Bytes) → Draft → SignedEvent → Str → Type 0
Verifies hex curve json sha256 d e text =
    (verify_chat_event sha256 hex curve json text ≡ ok true)
    × IsWire json text e
    × IsTagged d e.tags
    × (e.content ≡ d.content)
    × (e.created_at ≡ d.created_at)
    × (e.kind ≡ d.kind)
    × ((n : ℕ) × (event_difficulty hex e.id ≡ ok n) × (d.difficulty ≤ n))

module _ (hex : Hex) (laws : HexLaws hex) where
  -- The hex of 32 bytes is measured by their leading zeros.
  event_difficulty-encode :
      (id : Bytes)
      → length id ≡ 32
      → All IsByte id
      → event_difficulty hex (hex.encode id) ≡ ok (leading_zero_bits id)
  unfolding event_difficulty
  event_difficulty-encode id n h =
      rw
        (
          trim-hexdigit (hex.encode id) (laws.encode-hexdigit id h),
          laws.decode-encode id h,
          to_array-length 32 id n,
        )
        refl

  module _ (curve : Curve) (slaws : SchnorrLaws curve) (json : Json) (jlaws : JsonLaws json)
      (sha256 : Bytes → Bytes)
      (wide : (b : Bytes) → (length (sha256 b) ≡ 32) × All IsByte (sha256 b)) (fuel : ℕ)
      (clock : ℕ → ℕ) (bound : fuel ≤ 2 ^ 64) where
    pub to_json-Verifies :
        (key : Str) (d : Draft) (e : SignedEvent)
        → sign_event_with_key sha256 fuel clock hex curve key d ≡ some (ok e)
        → d.created_at < 2 ^ 64
        → d.kind < 2 ^ 32
        → Verifies hex curve json sha256 d e (to_json json e)
    unfolding verify_chat_event event_id
    to_json-Verifies key d e h ht hk =
        let m = made sha256 fuel clock hex curve key d e bound h in
        let ht' : e.created_at < 2 ^ 64 = rw m.created_at_is ht in
        let hk' : e.kind < 2 ^ 32 = rw m.kind_is hk in
        let wire = to_json-IsWire json jlaws e ht' (omega (arith, hk')) in
        let (verified, worked) =
          verify_event_json-sign_event_with_key sha256 fuel clock hex curve laws slaws json key d e
            (to_json json e) bound h hk' wire in
        let (n, bytes) = wide _ in
        (
          verified,
          wire,
          m.tagged,
          m.content_is,
          m.created_at_is,
          m.kind_is,
          (
            leading_zero_bits m.id,
            rw m.id_is (event_difficulty-encode m.id (rw m.hashed n) (rw m.hashed bytes)),
            m.worked,
          ),
        )

    module _ (klaws : KeyLaws curve) (phrase : Phrase) (bech : Bech) (blaws : BechLaws bech) where
      -- Under the laws of hex, the signature scheme, JSON, the keys and bech32, with a hash of 32
      -- bytes and fuel for at most 2 ^ 64 nonces: the text that `sign_chat_event` gives for a
      -- secret, an account, tags and a draft with a time of 64 bits and a kind of 32 is verified
      -- by `verify_chat_event`. It carries an event with the draft's content, time and kind, with
      -- the tags that are read from the text of the tags, followed by a nonce's tag that names the
      -- difficulty if one is asked for; by the public key of the chat identity of that secret and
      -- account; and with at least that difficulty, as `event_difficulty` measures it.
      pub verify_chat_event-sign_chat_event :
          (secret : Str) (account : ℕ) (tags_json : Str) (d : Draft) (text : Str)
          → sign_chat_event sha256 fuel clock hex curve phrase bech json secret account tags_json d
            ≡ some (ok text)
          → d.created_at < 2 ^ 64
          → d.kind < 2 ^ 32
          → (i : ChatIdentity) × (e : SignedEvent) × (chat_identity hex phrase curve bech secret
                account
              ≡ ok i)
            × (e.pubkey ≡ i.pubkey_hex)
            × ((tags : List Tag) × (parse_tags json tags_json ≡ ok tags)
                × Verifies hex curve json sha256 (record d { tags = tags }) e text)
      unfolding sign_chat_event sign_event
      verify_chat_event-sign_chat_event secret account tags_json d text h ht hk =
          let (parsed, tags_read, h1) = began_ok (parse_tags json tags_json) _ text h in
          let d' : Draft = record d { tags = parsed } in
          let (e, signed, h2) =
            ran_ok (sign_event sha256 fuel clock hex curve phrase bech secret account d') _ text
              h1 in
          let (i, found, own, npub) =
            sign_event-pubkey hex phrase curve bech sha256 fuel clock laws klaws blaws secret
              account d' e bound signed in
          let (i', found', h3) =
            began_ok (chat_identity hex phrase curve bech secret account) _ e signed in
          (
            i,
            e,
            found,
            own,
            (
              parsed,
              tags_read,
              subst (Verifies hex curve json sha256 d' e) (ok-injective h2)
                  (to_json-Verifies i'.privkey_hex d' e h3 ht hk),
            ),
          )
