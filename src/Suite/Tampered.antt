-- ===== src/Suite/Tampered.antt =====
-- chat-identity/src/event.rs: its test that an event that was tampered with is refused.
use zkas_signer.Prelude.{
  ℕ, zero, suc, ◌-◌, ◌^◌, ◌≤◌, ◌<◌, ◌&&◌, ◌≡◌, ◌≢◌, ◌∙◌, refl, sym, ap, Bool, true, false, not, [],
  ◌∷◌, ◌++◌, codes, ◌==s◌, ==s_refl, Option, some, Result, ok, All, length, arith, if◌then◌else◌,
  inl, inr, ok-injective,
}
use zkas_signer.Text.{Str, Bytes, IsByte}
use zkas_signer.Crates.Hex.{Hex, HexLaws}
use zkas_signer.Crates.Phrase.{Phrase}
use zkas_signer.Crates.Curve.{Curve, SchnorrLaws}
use zkas_signer.Crates.Bech.{Bech}
use zkas_signer.Crates.Json.{Json, JsonLaws}
use zkas_signer.Chat.Error.{ChatError}
use zkas_signer.Chat.Identity.{chat_identity}
use zkas_signer.Event.Id.{event_id}
use zkas_signer.Event.Sign.{SignedEvent, to_json, sign_event, sign_event_with_key}
use zkas_signer.Event.Sign.Verifies.{Made, made, began_ok}
use zkas_signer.Event.Sign.Wire.{to_json-IsWire}
use zkas_signer.Event.Sign.Surface.{to_json-Verifies}
use zkas_signer.Event.Verify.{check_signature, verify_event_json, verify_chat_event}
use zkas_signer.Event.Verify.Tamper.{encode-injective}
use zkas_signer.Event.Sign.Altered.{own_id, verify_event_json-IsWire, own_id_decides}
use zkas_signer.Suite.{phrase_text, unwrap, finished, starts_with}
use zkas_signer.Suite.Events.{plain}

-- `s.replace(from, to)`: `skip` characters of a match that was found are still to be passed.
abbrev replace_at : Str → Str → ℕ → Str → Str
replace_at from to skip [] = []
replace_at from to (suc skip) (c ∷ s) = replace_at from to skip s
replace_at from to zero (c ∷ s) =
    let matched = replace_at from to (length from - 1) s in
    let other = replace_at from to zero s in
    if starts_with from (c ∷ s) then to ++ matched else c ∷ other

abbrev replace : Str → Str → Str → Str
replace from to s = replace_at from to 0 s

abbrev asked : Str
asked = codes "pay me 10"

abbrev forged_text : Str
forged_text = codes "pay me 99"

module _ (hex : Hex) (curve : Curve) (json : Json) (sha256 : Bytes → Bytes) where
  abbrev says : Str → (Bool → Bool) → Bool
  says text k = unwrap (verify_event_json sha256 hex curve json text) k

  module _ (jlaws : JsonLaws json) (e : SignedEvent) (early : e.created_at < 2 ^ 64)
      (small : e.kind < 2 ^ 32) where
    -- What the verification of an event's own text comes to.
    verify-to_json : verify_event_json sha256 hex curve json (to_json json e) ≡ (
        if not (hex.encode (own_id sha256 e) ==s e.id)
        then ok false
        else check_signature hex curve e.pubkey e.sig (own_id sha256 e))
    verify-to_json =
        verify_event_json-IsWire sha256 hex curve json e (to_json json e) small
          (to_json-IsWire json jlaws e early (omega (arith, small)))

    -- An event under another id than its own is refused.
    other_id : hex.encode (own_id sha256 e) ≢ e.id → says (to_json json e) not ≡ true
    other_id apart =
        elim (own_id_decides sha256 hex curve json e (to_json json e) small
          (to_json-IsWire json jlaws e early (omega (arith, small)))) [
            | inl same ↦ absurd (apart same)
            | inr refused_ ↦ rw refused_ refl
          ]

    -- A signature that is not good for the id of the event is refused.
    other_signature :
        (laws : HexLaws hex)
        → (slaws : SchnorrLaws curve) (vk : curve.VerifyingKey) (sig : curve.SchnorrSignature)
        → hex.encode (own_id sha256 e) ≡ e.id
        → e.pubkey ≡ hex.encode (curve.verifying_to_bytes vk)
        → e.sig ≡ hex.encode (curve.signature_to_bytes sig)
        → curve.verify_prehash vk (own_id sha256 e) sig ≡ false
        → says (to_json json e) not ≡ true
    unfolding check_signature
    other_signature laws slaws vk sig own is_key is_sig bad =
        let same : (hex.encode (own_id sha256 e) ==s e.id) ≡ true = rw own (==s_refl e.id) in
        let key_read : hex.decode e.pubkey ≡ ok (curve.verifying_to_bytes vk) =
          rw is_key (laws.decode-encode _ (slaws.key_bytes vk)) in
        let sig_read : hex.decode e.sig ≡ ok (curve.signature_to_bytes sig) =
          rw is_sig (laws.decode-encode _ (slaws.signature_bytes sig)) in
        rw
          (
            verify-to_json,
            same,
            key_read,
            slaws.key_read vk,
            sig_read,
            slaws.signature_read sig,
            bad,
          )
          refl

  module _ (fuel : ℕ) (clock : ℕ → ℕ) (phrase : Phrase) (bech : Bech) where
    abbrev signs : ℕ → Str → Option (Result SignedEvent ChatError)
    signs account content =
        sign_event sha256 fuel clock hex curve phrase bech phrase_text account (plain content)

    unfoldable tampering_is_rejected : Bool
    tampering_is_rejected = finished (signs 0 asked) λ ev.
        let good = to_json json ev in
        says good (λ b. b)
        && says (replace asked forged_text good) not
        && finished (signs 0 forged_text)
            (λ forged. says (to_json json (record forged { sig = ev.sig })) not)
        && finished (signs 1 asked)
            (λ other. says (to_json json (record ev { pubkey = other.pubkey })) not)

    module _ (laws : HexLaws hex) (slaws : SchnorrLaws curve) (jlaws : JsonLaws json)
        (wide : (b : Bytes) → (length (sha256 b) ≡ 32) × All IsByte (sha256 b))
        (bound : fuel ≤ 2 ^ 64) where
      -- An event that is signed is made with the key of the identity of its account.
      Made-signs :
          (account : ℕ) (content : Str) (e : SignedEvent)
          → signs account content ≡ some (ok e)
          → (k : Str) × ((f : SignedEvent) (c : Str)
              → signs account c ≡ some (ok f)
              → Made sha256 fuel clock hex curve k (plain c) f)
            × (sign_event_with_key sha256 fuel clock hex curve k (plain content) ≡ some (ok e))
      unfolding sign_event
      Made-signs account content e h =
          let identity = chat_identity hex phrase curve bech phrase_text account in
          let (i, found, h1) = began_ok identity _ e h in
          (
            i.privkey_hex,
            λ f c hf.
                let (i', found', h2) = began_ok identity _ f hf in
                let same : i' ≡ i = ok-injective (sym found' ∙ found) in
                rw (← same) (made sha256 fuel clock hex curve i'.privkey_hex (plain c) f bound h2),
            h1,
          )

      -- A change under the id of a signed event is refused.
      altered :
          (e f : SignedEvent)
          → e.id ≡ hex.encode (own_id sha256 e)
          → f.id ≡ e.id
          → f.created_at < 2 ^ 64
          → f.kind < 2 ^ 32
          → own_id sha256 e ≢ own_id sha256 f
          → says (to_json json f) not ≡ true
      unfolding event_id
      altered e f own kept early small apart = other_id jlaws f early small λ same. apart (
          encode-injective hex laws (own_id sha256 e) (own_id sha256 f) (wide _).1 (wide _).1
            (sym (same ∙ kept ∙ own)))

      -- The test passes if its three events are signed, where replacing the content in the text is
      -- replacing it in the event, the hash tells the three ids apart, and no signature of the
      -- first id is good for that of the other content.
      tampering_is_rejected_lem :
          (e f o : SignedEvent)
          → signs 0 asked ≡ some (ok e)
          → signs 0 forged_text ≡ some (ok f)
          → signs 1 asked ≡ some (ok o)
          → replace asked forged_text (to_json json e)
            ≡ to_json json (record e { content = forged_text })
          → own_id sha256 e ≢ own_id sha256 (record e { content = forged_text })
          → own_id sha256 e ≢ own_id sha256 (record e { pubkey = o.pubkey })
          → ((vk : curve.VerifyingKey) (sig : curve.SchnorrSignature)
              → curve.verify_prehash vk (own_id sha256 e) sig ≡ true
              → curve.verify_prehash vk (own_id sha256 f) sig ≡ false)
          → tampering_is_rejected ≡ true
      unfolding tampering_is_rejected verify_chat_event
      tampering_is_rejected_lem e f o he hf ho replaced apart apart' unlike =
          let (k, by_key, h1) = Made-signs 0 asked e he in
          let me = by_key e asked he in
          let mf = by_key f forged_text hf in
          let one : mf.signing ≡ me.signing = ok-injective (sym mf.keyed ∙ me.keyed) in
          let own : e.id ≡ hex.encode (own_id sha256 e) = me.id_is ∙ ap hex.encode me.hashed in
          let own' : hex.encode (own_id sha256 f) ≡ f.id =
            sym (mf.id_is ∙ ap hex.encode mf.hashed) in
          let early : e.created_at < 2 ^ 64 = omega (arith, me.created_at_is) in
          let small : e.kind < 2 ^ 32 = omega (arith, me.kind_is) in
          let verified : verify_event_json sha256 hex curve json (to_json json e) ≡ ok true =
            (to_json-Verifies hex laws curve slaws json jlaws sha256 wide fuel clock bound k
              (plain asked) e h1 (omega arith) (omega arith)).0 in
          let content_refused =
            altered e (record e { content = forged_text }) own refl early small apart in
          let pubkey_refused =
            altered e (record e { pubkey = o.pubkey }) own refl early small apart' in
          let vk = curve.verifying_key me.signing in
          let accepted : curve.verify_prehash vk (own_id sha256 e) me.sig ≡ true =
            rw (← me.hashed) (slaws.accepted me.signing me.id me.sig me.signed) in
          let sig_refused =
            other_signature jlaws (record f { sig = e.sig }) (omega (arith, mf.created_at_is))
              (omega (arith, mf.kind_is)) laws slaws vk me.sig own' (rw (← one) mf.pubkey_is)
              me.sig_is (unlike vk me.sig accepted) in
          rw (he, verified, replaced, content_refused, hf, sig_refused, ho, pubkey_refused) refl
