-- ===== src/Event/Verify/Tamper.antt =====
-- What an event's id and its 32-bit kind mean for the events that verify.
use zkas_signer.Prelude.{
  ◌%◌, ◌^◌, ◌≡◌, ◌∙◌, ◌⊎◌, sym, ap, true, ok, ==s_sound, All, ok-injective, refl,
}
use zkas_signer.Text.{Str, Bytes, IsByte}
use zkas_signer.Crates.Hex.{Hex, HexLaws}
use zkas_signer.Crates.Curve.{Curve}
use zkas_signer.Crates.Json.{Json}
use zkas_signer.Event.Id.{Collision, IsEvent, event_id, event_id-binding}
use zkas_signer.Event.Verify.{verify_event_json}
use zkas_signer.Event.Verify.Verdict.{Carries, id_guard, id_of, verify_event_json-Carries}

module _ (hex : Hex) (laws : HexLaws hex) where
  pub encode-injective :
      (a b : Bytes) → All IsByte a → All IsByte b → hex.encode a ≡ hex.encode b → a ≡ b
  encode-injective a b ha hb same =
      ok-injective (sym (laws.decode-encode a ha) ∙ (ap hex.decode same ∙ laws.decode-encode b hb))

module _ (sha256 : Bytes → Bytes) (hex : Hex) (curve : Curve) (json : Json) (text : Str) where
  -- the id that an event bears, for any reading of its fields
  matches :
      (c : Carries json text)
      → verify_event_json sha256 hex curve json text ≡ ok true
      → hex.encode (id_of sha256 hex curve json text c) ≡ c.id_hex
  matches c e =
      let (same, signed) =
        id_guard _ _ (sym (verify_event_json-Carries sha256 hex curve json text c) ∙ e) in
      ==s_sound _ _ same

module _ (sha256 : Bytes → Bytes) (hex : Hex) (curve : Curve) (json : Json) (text text' : Str) where
  -- Under the laws of hex and with a hash of bytes, two events that verify and bear the same id,
  -- whose texts are characters and whose public keys hold no quote, agree in every field that the
  -- id covers, the kinds modulo 2 ^ 32, or else they exhibit two different byte strings with the
  -- same hash.
  pub verify_event_json-binding :
      (laws : HexLaws hex)
      → (hashed : (b : Bytes) → All IsByte (sha256 b)) → (c : Carries json text)
      → (c' : Carries json text') → IsEvent c.pubkey c.tags c.content
      → IsEvent c'.pubkey c'.tags c'.content
      → verify_event_json sha256 hex curve json text ≡ ok true
      → verify_event_json sha256 hex curve json text' ≡ ok true
      → c.id_hex ≡ c'.id_hex
      → ((c.pubkey ≡ c'.pubkey)
          × (c.created_at ≡ c'.created_at)
          × (c.wide % 2 ^ 32 ≡ c'.wide % 2 ^ 32)
          × (c.tags ≡ c'.tags)
          × (c.content ≡ c'.content))
        ⊎ Collision sha256
  unfolding event_id
  verify_event_json-binding laws hashed c c' e e' v v' same =
      let id = id_of sha256 hex curve json text c in
      let id' = id_of sha256 hex curve json text' c' in
      event_id-binding sha256 c.pubkey c'.pubkey c.created_at c'.created_at (c.wide % 2 ^ 32)
        (c'.wide % 2 ^ 32) c.tags c'.tags c.content c'.content e e'
        (encode-injective hex laws id id' (hashed _) (hashed _) (
          matches sha256 hex curve json text c v
          ∙ (same ∙ sym (matches sha256 hex curve json text' c' v'))))

  -- The verdict does not see the bits of a kind above the lowest 32: two texts that carry the same
  -- fields but for such bits verify alike.
  pub verify_event_json-kind :
      (c : Carries json text)
      → (c' : Carries json text') → (c.pubkey ≡ c'.pubkey)
      → (c.id_hex ≡ c'.id_hex)
      → (c.sig_hex ≡ c'.sig_hex)
      → (c.content ≡ c'.content)
      → (c.created_at ≡ c'.created_at)
      → (c.tags ≡ c'.tags)
      → c.wide % 2 ^ 32 ≡ c'.wide % 2 ^ 32
      → verify_event_json sha256 hex curve json text ≡ verify_event_json sha256 hex curve json text'
  verify_event_json-kind c c' h1 h2 h3 h4 h5 h6 h7 =
      verify_event_json-Carries sha256 hex curve json text c
      ∙ (rw (h1, h2, h3, h4, h5, h6, h7) refl
          ∙ sym (verify_event_json-Carries sha256 hex curve json text' c'))
