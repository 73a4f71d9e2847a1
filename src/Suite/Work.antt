-- ===== src/Suite/Work.antt =====
-- chat-identity/src/event.rs: its test that a mined event has the work that it claims.
use zkas_signer.Prelude.{
  ℕ, ◌^◌, ◌≤◌, ◌&&◌, ◌≡◌, refl, inl, inr, Bool, true, false, List, [], ◌∷◌, codes, ◌==s◌, leb,
  Option, some, Result, ok, ok_or, All, length, arith, if◌then◌else◌,
}
use zkas_signer.Text.{Bytes, IsByte, to_string}
use zkas_signer.Crates.Hex.{Hex, HexLaws}
use zkas_signer.Crates.Phrase.{Phrase}
use zkas_signer.Crates.Curve.{Curve, SchnorrLaws}
use zkas_signer.Crates.Bech.{Bech}
use zkas_signer.Crates.Json.{Json, JsonLaws}
use zkas_signer.Signer.Secret.{to_array}
use zkas_signer.Signer.Secret.Legacy.{to_array-length}
use zkas_signer.Chat.Error.{ChatError}
use zkas_signer.Chat.Identity.{chat_identity}
use zkas_signer.Event.Canonical.{Tag}
use zkas_signer.Event.Id.{event_id}
use zkas_signer.Event.Difficulty.{leading_zero_bits}
use zkas_signer.Event.Mine.{nonce_tag}
use zkas_signer.Event.Sign.{SignedEvent, Draft, to_json, sign_event}
use zkas_signer.Event.Sign.Verifies.{IsTagged, made, began_ok}
use zkas_signer.Event.Sign.Surface.{to_json-Verifies}
use zkas_signer.Event.Verify.{verify_event_json, verify_chat_event}
use zkas_signer.Suite.{phrase_text, unwrap, finished}

-- `tags.iter().find(|t| t[0] == "nonce").expect(…)`: an empty tag before it is a panic.
abbrev with_nonce : List Tag → (Tag → Bool) → Bool
with_nonce [] k = false
with_nonce ([] ∷ ts) k = false
with_nonce ((name ∷ rest) ∷ ts) k =
    let later = with_nonce ts k in if name ==s codes "nonce" then k (name ∷ rest) else later

-- `nonce[2] == d.to_string()`
abbrev commits : ℕ → Tag → Bool
commits d (name ∷ nonce ∷ target ∷ rest) = target ==s to_string d
commits d _ = false

abbrev mined : Draft
mined = record {
  kind = 1;
  tags = [];
  content = codes "mined";
  created_at = 1700000000;
  difficulty = 12;
  max_ms = 30000;
}

module _ (hex : Hex) (curve : Curve) (json : Json) (sha256 : Bytes → Bytes) (fuel : ℕ)
    (clock : ℕ → ℕ) (phrase : Phrase) (bech : Bech) where
  abbrev signs : Option (Result SignedEvent ChatError)
  signs = sign_event sha256 fuel clock hex curve phrase bech phrase_text 0 mined

  unfoldable pow_reaches_target : Bool
  pow_reaches_target = finished signs λ ev. unwrap (hex.decode ev.id) λ b.
      unwrap (ok_or (codes "TryFromSliceError") (to_array 32 b)) λ id.
        leb 12 (leading_zero_bits id)
        && with_nonce ev.tags (commits 12)
        && unwrap (verify_event_json sha256 hex curve json (to_json json ev)) (λ v. v)

  committed : (ts : List Tag) → IsTagged mined ts → with_nonce ts (commits 12) ≡ true
  unfolding nonce_tag ◌==s◌ to_string
  committed ts (inl (easy, same)) = absurd (omega (arith, easy))
  committed ts (inr (nonce, same)) = rw same refl

  -- The test passes, under the laws of hex, the signature scheme and JSON and with a hash of 32
  -- bytes, if mining ends with an event.
  pow_reaches_target_lem :
      (laws : HexLaws hex)
      → (slaws : SchnorrLaws curve) → (jlaws : JsonLaws json)
      → (wide : (b : Bytes) → (length (sha256 b) ≡ 32) × All IsByte (sha256 b)) → fuel ≤ 2 ^ 64
      → (ev : SignedEvent) → signs ≡ some (ok ev)
      → pow_reaches_target ≡ true
  unfolding pow_reaches_target sign_event verify_chat_event event_id
  pow_reaches_target_lem laws slaws jlaws wide bound ev h =
      let (i, found, h1) = began_ok (chat_identity hex phrase curve bech phrase_text 0) _ ev h in
      let m = made sha256 fuel clock hex curve i.privkey_hex mined ev bound h1 in
      let (n, bytes) = wide _ in
      let size : length m.id ≡ 32 = rw m.hashed n in
      let read : hex.decode ev.id ≡ ok m.id =
        rw m.id_is (laws.decode-encode m.id (rw m.hashed bytes)) in
      let enough : leb 12 (leading_zero_bits m.id) ≡ true = let w = m.worked in ground arith in
      let verified : verify_event_json sha256 hex curve json (to_json json ev) ≡ ok true =
        (to_json-Verifies hex laws curve slaws json jlaws sha256 wide fuel clock bound i.privkey_hex
          mined ev h1 (omega arith) (omega arith)).0 in
      rw (h, read, to_array-length 32 m.id size, enough, committed ev.tags m.tagged, verified) refl
