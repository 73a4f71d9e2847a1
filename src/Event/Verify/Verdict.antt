-- ===== src/Event/Verify/Verdict.antt =====
-- When an event that was received verifies, and what two such events with one id have in common.
use zkas_signer.Prelude.{
  ℕ, ◌%◌, ◌^◌, ◌≡◌, ◌↔◌, ◌∙◌, refl, sym, Bool, true, false, not, List, ◌==s◌, ==s_refl, ==s_sound,
  if◌then◌else◌, codes, Option, some, none, Result, ok, map_err, >>=-then, map_err-eq-ok,
  ok-injective,
}
use zkas_signer.Text.{Str, Bytes}
use zkas_signer.Crates.Hex.{Hex}
use zkas_signer.Crates.Curve.{Curve}
use zkas_signer.Crates.Json.{Json}
use zkas_signer.Chat.Error.{
  ChatError, not_json, missing_created_at, missing_kind, pubkey_not_hex, sig_not_hex,
}
use zkas_signer.Event.Canonical.{Tag}
use zkas_signer.Event.Id.{event_id}
use zkas_signer.Event.Verify.{
  or_false, get_str, get_u64, read_tags, check_signature, verify_event_json,
}

-- The fields that are read from the text of an event.
pub record Carries (json : Json) (text : Str) : Type 0 where
  pub value : json.Value
  pub pubkey : Str
  pub id_hex : Str
  pub sig_hex : Str
  pub content : Str
  pub created_at : ℕ
  pub wide : ℕ
  pub tags : List Tag
  pub parsed : json.from_str text ≡ ok value
  pub has_pubkey : get_str json value (codes "pubkey") ≡ ok pubkey
  pub has_id : get_str json value (codes "id") ≡ ok id_hex
  pub has_sig : get_str json value (codes "sig") ≡ ok sig_hex
  pub has_content : get_str json value (codes "content") ≡ ok content
  pub has_created_at : get_u64 json value (codes "created_at") missing_created_at ≡ ok created_at
  pub has_kind : get_u64 json value (codes "kind") missing_kind ≡ ok wide
  pub has_tags : read_tags json value ≡ ok tags

module _ (hex : Hex) (curve : Curve) where
  -- A key and a signature that are read from their hex, the signature being good for the id.
  pub record IsSigned (pubkey sig_hex : Str) (id : Bytes) : Type 0 where
    pub pk_bytes : Bytes
    pub vk : curve.VerifyingKey
    pub sig_bytes : Bytes
    pub sig : curve.SchnorrSignature
    pub key_hexed : hex.decode pubkey ≡ ok pk_bytes
    pub key_read : curve.verifying_from_bytes pk_bytes ≡ some vk
    pub sig_hexed : hex.decode sig_hex ≡ ok sig_bytes
    pub sig_read : curve.signature_try_from sig_bytes ≡ some sig
    pub accepted : curve.verify_prehash vk id sig ≡ true

or_false-eq-true {ℓ} :
    {A : Type ℓ} (o : Option A) (k : A → Result Bool ChatError)
    → or_false o k ≡ ok true
    → (a : A) × (o ≡ some a) × (k a ≡ ok true)
or_false-eq-true none k h = cc
or_false-eq-true (some a) k h = (a, refl, h)

pub id_guard :
    (b : Bool) (r : Result Bool ChatError)
    → (if not b then ok false else r) ≡ ok true
    → (b ≡ true) × (r ≡ ok true)
id_guard true r h = (refl, h)
id_guard false r h = cc

module _ (hex : Hex) (curve : Curve) (pubkey sig_hex : Str) (id : Bytes) where
  check_signature-eq-true :
      check_signature hex curve pubkey sig_hex id ≡ ok true → IsSigned hex curve pubkey sig_hex id
  unfolding check_signature
  check_signature-eq-true e =
      >>=-then (map_err pubkey_not_hex (hex.decode pubkey)) _ e λ pk_bytes h1 e1.
        let (vk, h2, e2) = or_false-eq-true (curve.verifying_from_bytes pk_bytes) _ e1 in
        >>=-then (map_err sig_not_hex (hex.decode sig_hex)) _ e2 λ sig_bytes h3 e3.
          let (sig, h4, e4) = or_false-eq-true (curve.signature_try_from sig_bytes) _ e3 in
          record {
            pk_bytes = pk_bytes;
            vk = vk;
            sig_bytes = sig_bytes;
            sig = sig;
            key_hexed = map_err-eq-ok _ _ h1;
            key_read = h2;
            sig_hexed = map_err-eq-ok _ _ h3;
            sig_read = h4;
            accepted = ok-injective e4;
          }

  check_signature-IsSigned :
      IsSigned hex curve pubkey sig_hex id → check_signature hex curve pubkey sig_hex id ≡ ok true
  unfolding check_signature
  check_signature-IsSigned s =
      rw (s.key_hexed, s.key_read, s.sig_hexed, s.sig_read, s.accepted) refl

module _ (sha256 : Bytes → Bytes) (hex : Hex) (curve : Curve) (json : Json) (text : Str) where
  -- The id of the event that is read.
  abbrev pub id_of : Carries json text → Bytes
  id_of c = event_id sha256 c.pubkey c.created_at (c.wide % 2 ^ 32) c.tags c.content

  pub verify_event_json-Carries :
      (c : Carries json text)
      → verify_event_json sha256 hex curve json text ≡ (
          if not (hex.encode (id_of c) ==s c.id_hex)
          then ok false
          else check_signature hex curve c.pubkey c.sig_hex (id_of c))
  unfolding verify_event_json
  verify_event_json-Carries c =
      rw
        (
          c.parsed, c.has_pubkey, c.has_id, c.has_sig, c.has_content, c.has_created_at, c.has_kind,
          c.has_tags,
        )
        refl

  carried : verify_event_json sha256 hex curve json text ≡ ok true → Carries json text
  unfolding verify_event_json
  carried e = >>=-then (map_err not_json (json.from_str text)) _ e λ v h e1.
      >>=-then (get_str json v (codes "pubkey")) _ e1 λ pubkey h1 e2.
        >>=-then (get_str json v (codes "id")) _ e2 λ id_hex h2 e3.
          >>=-then (get_str json v (codes "sig")) _ e3 λ sig_hex h3 e4.
            >>=-then (get_str json v (codes "content")) _ e4 λ content h4 e5.
              >>=-then (get_u64 json v (codes "created_at") missing_created_at) _ e5
                λ created_at h5 e6.
                  >>=-then (get_u64 json v (codes "kind") missing_kind) _ e6 λ wide h6 e7.
                    >>=-then (read_tags json v) _ e7 λ tags h7 e8. record {
                      value = v;
                      pubkey = pubkey;
                      id_hex = id_hex;
                      sig_hex = sig_hex;
                      content = content;
                      created_at = created_at;
                      wide = wide;
                      tags = tags;
                      parsed = map_err-eq-ok _ _ h;
                      has_pubkey = h1;
                      has_id = h2;
                      has_sig = h3;
                      has_content = h4;
                      has_created_at = h5;
                      has_kind = h6;
                      has_tags = h7;
                    }

  -- An event verifies exactly when all its fields are there, its id is the hex of the hash of its
  -- canonical form, the kind being taken modulo 2 ^ 32, and its key and signature are read from
  -- their hex with the signature good for that id.
  pub verify_event_json-eq-true : (verify_event_json sha256 hex curve json text ≡ ok true) ↔ (
      (c : Carries json text) × (hex.encode (id_of c) ≡ c.id_hex)
      × IsSigned hex curve c.pubkey c.sig_hex (id_of c))
  verify_event_json-eq-true = (
    λ e.
        let c = carried e in
        let (same, signed) = id_guard _ _ (sym (verify_event_json-Carries c) ∙ e) in
        (c, ==s_sound _ _ same, check_signature-eq-true hex curve _ _ _ signed),
    λ t.
        let (c, same, signed) = t in
        verify_event_json-Carries c
        ∙ rw (same, ==s_refl c.id_hex) (check_signature-IsSigned hex curve _ _ _ signed),
  )
