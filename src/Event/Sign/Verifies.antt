-- ===== src/Event/Sign/Verifies.antt =====
-- An event that is signed verifies, with and without proof of work.
use zkas_signer.Prelude.{
  ℕ, ◌%◌, ◌^◌, ◌≤◌, ◌<◌, ◌==◌, ◌≡◌, ◌∙◌, ◌⊎◌, inl, inr, refl, sym, ap, Bool, true, false, List, [],
  ◌∷◌, ◌++◌, Option, none, some, Result, ok, err, ◌>>=◌, map_err, arith, if◌then◌else◌, >>=-then,
  map_err-eq-ok, ok-injective, ==_iff,
}
use zkas_signer.Text.{Str, Bytes}
use zkas_signer.Crates.Hex.{Hex, HexLaws}
use zkas_signer.Crates.Curve.{Curve, SchnorrLaws}
use zkas_signer.Crates.Json.{Json}
use zkas_signer.Chat.Error.{ChatError, not_signed, not_mined}
use zkas_signer.Event.Canonical.{Tag}
use zkas_signer.Event.Id.{event_id}
use zkas_signer.Event.Difficulty.{leading_zero_bits}
use zkas_signer.Event.Mine.{MineError, nonce_tag}
use zkas_signer.Event.Mine.Outcome.{mine-Mined}
use zkas_signer.Event.Sign.{
  SignedEvent, Draft, tags_and_id, sign_id, signing_key, sign_event_with_key,
}
use zkas_signer.Event.Verify.{verify_event_json}
use zkas_signer.Event.Verify.Verdict.{Carries, IsSigned, id_of, verify_event_json-eq-true}

-- The text carries the fields of the event.
abbrev pub IsWire : (json : Json) → Str → SignedEvent → Type 0
IsWire json text e =
    (c : Carries json text) × (c.pubkey ≡ e.pubkey)
    × (c.id_hex ≡ e.id)
    × (c.sig_hex ≡ e.sig)
    × (c.content ≡ e.content)
    × (c.created_at ≡ e.created_at)
    × (c.wide ≡ e.kind)
    × (c.tags ≡ e.tags)

-- The tags that are signed: those of the draft, with the nonce's tag after them if work is done.
abbrev pub IsTagged : Draft → List Tag → Type 0
IsTagged d tags =
    ((d.difficulty ≡ 0) × (tags ≡ d.tags))
    ⊎ ((nonce : ℕ) × (tags ≡ d.tags ++ nonce_tag nonce d.difficulty ∷ []))

mined_ok :
    (o : Option (Result (List Tag × Bytes) MineError)) (t : List Tag × Bytes)
    → ◌≡◌ {A = Option (Result (List Tag × Bytes) ChatError)}
        (elim o [ none ↦ none | some r ↦ some (map_err not_mined r) ])
        (some (ok t))
    → o ≡ some (ok t)
mined_ok none t h = cc
mined_ok (some (ok x)) t h = cc
mined_ok (some (err x)) t h = cc

-- An optional first step of a run that succeeds, and one that is no result.
pub ran_ok {ℓ κ μ} :
    {A : Type ℓ} {B : Type κ} {E : Type μ} (o : Option (Result A E)) (k : A → Result B E) (b : B)
    → ◌≡◌ {A = Option (Result B E)} (elim o [ none ↦ none | some r ↦ some (r >>= k) ]) (some (ok b))
    → (a : A) × (o ≡ some (ok a)) × (k a ≡ ok b)
ran_ok none k b h = cc
ran_ok (some (ok a)) k b h = (a, refl, cc)
ran_ok (some (err e)) k b h = cc

pub began_ok {ℓ κ μ} :
    {A : Type ℓ} {B : Type κ} {E : Type μ} (r : Result A E) (k : A → Option (Result B E)) (b : B)
    → ◌≡◌ {A = Option (Result B E)} (elim r [ err e ↦ some (err e) | ok a ↦ k a ]) (some (ok b))
    → (a : A) × (r ≡ ok a) × (k a ≡ some (ok b))
began_ok (ok a) k b h = (a, refl, h)
began_ok (err e) k b h = cc

chosen_work :
    (b : Bool) (x : List Tag × Bytes) (o : Option (Result (List Tag × Bytes) ChatError))
    (t : List Tag × Bytes)
    → ◌≡◌ {A = Option (Result (List Tag × Bytes) ChatError)}
        (if b then some (ok x) else o)
        (some (ok t))
    → ((b ≡ true) × (x ≡ t)) ⊎ (o ≡ some (ok t))
chosen_work true x o t h = inl (refl, cc)
chosen_work false x o t h = inr h

module _ (sha256 : Bytes → Bytes) (fuel : ℕ) (clock : ℕ → ℕ) where
  -- What is signed is the id of the event with the tags that go with it, and it has the work that
  -- was asked for.
  tags_and_id_lem :
      (pubkey : Str) (d : Draft) (t : List Tag × Bytes)
      → fuel ≤ 2 ^ 64
      → tags_and_id sha256 fuel clock pubkey d ≡ some (ok t)
      → (t.1 ≡ event_id sha256 pubkey d.created_at d.kind t.0 d.content)
        × (d.difficulty ≤ leading_zero_bits t.1)
        × IsTagged d t.0
  unfolding tags_and_id
  tags_and_id_lem pubkey d t bound h =
      let x : List Tag × Bytes =
        (d.tags, event_id sha256 pubkey d.created_at d.kind d.tags d.content) in
      elim (chosen_work (d.difficulty == 0) x _ t h) [
        | inl (easy, same) ↦
            let zero_ = (==_iff d.difficulty 0).0 easy in
            (rw (← same) refl, omega arith, inl (zero_, rw (← same) refl))
        | inr mining ↦
            let (nonce, tagged, hashed, meets, first) =
              mine-Mined sha256 fuel pubkey d.created_at d.kind d.tags d.content d.difficulty
                d.max_ms clock t.0 t.1 bound (mined_ok _ t mining) in
            (hashed, meets, inr (nonce, tagged))
      ]

  module _ (hex : Hex) (curve : Curve) where
    -- The parts of a signed event.
    pub record Made (privkey_hex : Str) (d : Draft) (e : SignedEvent) : Type 0 where
      pub signing : curve.SigningKey
      pub id : Bytes
      pub sig : curve.SchnorrSignature
      pub keyed : signing_key hex curve privkey_hex ≡ ok signing
      pub hashed : id ≡ event_id sha256 e.pubkey e.created_at e.kind e.tags e.content
      pub worked : d.difficulty ≤ leading_zero_bits id
      pub signed : curve.sign_prehash signing id ≡ ok sig
      pub tagged : IsTagged d e.tags
      pub kind_is : e.kind ≡ d.kind
      pub created_at_is : e.created_at ≡ d.created_at
      pub content_is : e.content ≡ d.content
      pub id_is : e.id ≡ hex.encode id
      pub pubkey_is : e.pubkey ≡ hex.encode (curve.verifying_to_bytes (curve.verifying_key signing))
      pub sig_is : e.sig ≡ hex.encode (curve.signature_to_bytes sig)

    pub made :
        (privkey_hex : Str) (d : Draft) (e : SignedEvent)
        → fuel ≤ 2 ^ 64
        → sign_event_with_key sha256 fuel clock hex curve privkey_hex d ≡ some (ok e)
        → Made privkey_hex d e
    unfolding sign_event_with_key sign_id
    made privkey_hex d e bound h =
        let (signing, keyed, h1) = began_ok (signing_key hex curve privkey_hex) _ e h in
        let pubkey = hex.encode (curve.verifying_to_bytes (curve.verifying_key signing)) in
        let (t, found, h2) = ran_ok (tags_and_id sha256 fuel clock pubkey d) _ e h1 in
        let (hashed, worked, tagged) = tags_and_id_lem pubkey d t bound found in
        >>=-then (map_err not_signed (curve.sign_prehash signing t.1)) _ h2 λ sig signed h3.
          let same = ok-injective h3 in
          record {
            signing = signing;
            id = t.1;
            sig = sig;
            keyed = keyed;
            hashed = rw (← same) hashed;
            worked = worked;
            signed = map_err-eq-ok _ _ signed;
            tagged = rw (← same) tagged;
            kind_is = rw (← same) refl;
            created_at_is = rw (← same) refl;
            content_is = rw (← same) refl;
            id_is = rw (← same) refl;
            pubkey_is = rw (← same) refl;
            sig_is = rw (← same) refl;
          }

    -- Under the laws of hex and of the signature scheme, an event that is signed with a key, with
    -- fuel for at most 2 ^ 64 nonces, verifies in any JSON text that carries its fields, if its
    -- kind is one of 32 bits; and its id has the work that was asked for.
    pub verify_event_json-sign_event_with_key :
        (laws : HexLaws hex)
        → (slaws : SchnorrLaws curve)
        → (json : Json) (privkey_hex : Str) (d : Draft) (e : SignedEvent) (text : Str)
        → fuel ≤ 2 ^ 64
        → sign_event_with_key sha256 fuel clock hex curve privkey_hex d ≡ some (ok e)
        → e.kind < 2 ^ 32
        → IsWire json text e
        → (verify_event_json sha256 hex curve json text ≡ ok true)
          × ((id : Bytes) × (e.id ≡ hex.encode id) × (d.difficulty ≤ leading_zero_bits id))
    verify_event_json-sign_event_with_key laws slaws json privkey_hex d e text bound h small w =
        let m = made privkey_hex d e bound h in
        let (c, h1, h2, h3, h4, h5, h6, h7) = w in
        let whole : e.kind % 2 ^ 32 ≡ e.kind = omega (arith, small) in
        let hashed : id_of sha256 hex curve json text c ≡ m.id =
          rw (h1, h4, h5, h6, h7, whole) (sym m.hashed) in
        let signed : IsSigned hex curve c.pubkey c.sig_hex (id_of sha256 hex curve json text c) =
          record {
            pk_bytes = curve.verifying_to_bytes (curve.verifying_key m.signing);
            vk = curve.verifying_key m.signing;
            sig_bytes = curve.signature_to_bytes m.sig;
            sig = m.sig;
            key_hexed = rw (h1, m.pubkey_is) (laws.decode-encode _ (slaws.key_bytes _));
            key_read = slaws.key_read _;
            sig_hexed = rw (h3, m.sig_is) (laws.decode-encode _ (slaws.signature_bytes _));
            sig_read = slaws.signature_read _;
            accepted = rw hashed (slaws.accepted m.signing m.id m.sig m.signed);
          } in
        (
          (verify_event_json-eq-true sha256 hex curve json text).1
              (c, ap hex.encode hashed ∙ (sym m.id_is ∙ sym h2), signed),
          (m.id, m.id_is, m.worked),
        )
