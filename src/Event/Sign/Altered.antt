-- ===== src/Event/Sign/Altered.antt =====
-- A signed event that is altered under its id.
use zkas_signer.Prelude.{
  ℕ, ◌%◌, ◌^◌, ◌≤◌, ◌<◌, ◌≡◌, ◌∙◌, ◌⊎◌, inl, inr, refl, sym, ap, false, not, ◌==s◌, ==s_sound, some,
  ok, All, Bool-cases, if◌then◌else◌, arith,
}
use zkas_signer.Text.{Str, Bytes, IsByte}
use zkas_signer.Crates.Hex.{Hex, HexLaws}
use zkas_signer.Crates.Curve.{Curve}
use zkas_signer.Crates.Json.{Json}
use zkas_signer.Event.Id.{Collision, IsEvent, event_id, event_id-binding}
use zkas_signer.Event.Sign.{SignedEvent, Draft, sign_event_with_key}
use zkas_signer.Event.Sign.Verifies.{IsWire, made}
use zkas_signer.Event.Verify.{check_signature, verify_event_json}
use zkas_signer.Event.Verify.Verdict.{id_of, verify_event_json-Carries}
use zkas_signer.Event.Verify.Tamper.{encode-injective}

-- The fields that the id covers.
abbrev pub IsSameEvent : SignedEvent → SignedEvent → Type 0
IsSameEvent e f =
    (e.pubkey ≡ f.pubkey)
    × (e.created_at ≡ f.created_at)
    × (e.kind ≡ f.kind)
    × (e.tags ≡ f.tags)
    × (e.content ≡ f.content)

-- The id of an event's fields.
abbrev pub own_id : (Bytes → Bytes) → SignedEvent → Bytes
own_id sha256 e = event_id sha256 e.pubkey e.created_at e.kind e.tags e.content

module _ (sha256 : Bytes → Bytes) (hex : Hex) (curve : Curve) (json : Json) where
  module _ (f : SignedEvent) (text : Str) (small : f.kind < 2 ^ 32)
      (wire : IsWire json text f) where
    -- What the verification of a text that carries an event comes to.
    pub verify_event_json-IsWire : verify_event_json sha256 hex curve json text ≡ (
        if not (hex.encode (own_id sha256 f) ==s f.id)
        then ok false
        else check_signature hex curve f.pubkey f.sig (own_id sha256 f))
    verify_event_json-IsWire =
        let (c, h1, h2, h3, h4, h5, h6, h7) = wire in
        let whole : f.kind % 2 ^ 32 ≡ f.kind = omega (arith, small) in
        let hashed : id_of sha256 hex curve json text c ≡ own_id sha256 f =
          rw (h1, h4, h5, h6, h7, whole) refl in
        let run = verify_event_json-Carries sha256 hex curve json text c in
        rw (hashed, h1, h2, h3) at run

    -- An event under another id than its own is false.
    pub own_id_decides :
        (hex.encode (own_id sha256 f) ≡ f.id)
        ⊎ (verify_event_json sha256 hex curve json text ≡ ok false)
    own_id_decides = elim (Bool-cases (hex.encode (own_id sha256 f) ==s f.id)) [
      | inl same ↦ inl (==s_sound _ _ same)
      | inr other ↦ inr (rw (verify_event_json-IsWire, other) refl)
    ]

  -- An event that was signed with a key, with fuel for at most 2 ^ 64 nonces, and any event under
  -- the same id, with a kind of 32 bits, in a text that carries it: either they agree in every field
  -- that the id covers, or the verdict on the text is false and no error, whatever its signature,
  -- or they exhibit two different byte strings with the same hash. This is under the laws of hex and
  -- with a hash of bytes, for events whose texts are characters and whose public keys hold no quote.
  pub verify_event_json-altered :
      (laws : HexLaws hex)
      → (hashed : (b : Bytes) → All IsByte (sha256 b)) (fuel : ℕ) (clock : ℕ → ℕ) (key : Str)
        (d : Draft) (e f : SignedEvent) (text : Str)
      → fuel ≤ 2 ^ 64
      → sign_event_with_key sha256 fuel clock hex curve key d ≡ some (ok e)
      → f.kind < 2 ^ 32
      → IsWire json text f
      → f.id ≡ e.id
      → IsEvent e.pubkey e.tags e.content
      → IsEvent f.pubkey f.tags f.content
      → IsSameEvent e f
        ⊎ ((verify_event_json sha256 hex curve json text ≡ ok false) ⊎ Collision sha256)
  unfolding event_id
  verify_event_json-altered laws hashed fuel clock key d e f text bound h small wire kept he hf =
      elim (own_id_decides f text small wire) [
        | inr refused ↦ inr (inl refused)
        | inl own ↦
            let m = made sha256 fuel clock hex curve key d e bound h in
            let one : own_id sha256 e ≡ own_id sha256 f =
              encode-injective hex laws (own_id sha256 e) (own_id sha256 f) (hashed _) (hashed _)
                (sym (m.id_is ∙ ap hex.encode m.hashed) ∙ (sym kept ∙ sym own)) in
            elim (event_id-binding sha256 e.pubkey f.pubkey e.created_at f.created_at e.kind f.kind
              e.tags f.tags e.content f.content he hf one) [
                | inl same ↦ inl same
                | inr collision ↦ inr (inr collision)
              ]
      ]
