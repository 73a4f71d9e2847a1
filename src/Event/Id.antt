-- ===== src/Event/Id.antt =====
-- chat-identity/src/event.rs: the id of an event, and what it commits to. The SHA-256 of the `sha2`
-- crate is the parameter `sha256`.
use zkas_signer.Prelude.{
  ℕ, ◌≡◌, ◌≢◌, refl, ◌⊎◌, inl, inr, List, [], ◌∷◌, ◌++◌, map, codes, arith, All, All-append,
}
use native.Mathlib.Decide.{ℕ_discrete}
use zkas_signer.Text.{Str, Bytes, as_bytes, join, to_string}
use zkas_signer.Text.Utf8.{IsChar, as_bytes-injective}
use zkas_signer.Text.Words.{join-All}
use zkas_signer.Text.Decimal.{IsDigit, to_string-IsDigit}
use zkas_signer.Event.Canonical.{
  Tag, escape_char, escape, quoted, bracketed, serialize_tag, serialize_tags, canonical,
}
use zkas_signer.Event.Canonical.Injective.{IsBare, canonical-injective}

unfoldable pub event_id : (Bytes → Bytes) → Str → ℕ → ℕ → List Tag → Str → Bytes
event_id sha256 pubkey_hex created_at kind tags content =
    sha256 (as_bytes (canonical pubkey_hex created_at kind tags content))

Bytes-discrete : Discrete Bytes
Bytes-discrete = hlevel ℕ_discrete

-- Two different byte strings with one hash.
abbrev pub Collision : (Bytes → Bytes) → Type 0
Collision sha256 = (x : Bytes) × (y : Bytes) × (x ≢ y) × (sha256 x ≡ sha256 y)

escape_char-IsChar : (c : ℕ) → IsChar c → All IsChar (escape_char c)
unfolding escape_char
escape_char-IsChar c h = ground arith

escape-IsChar : (s : Str) → All IsChar s → All IsChar (escape s)
unfolding escape
escape-IsChar [] h = tt
escape-IsChar (c ∷ s) (hc, hs) =
    All-append IsChar (escape_char c) (escape s) (escape_char-IsChar c hc) (escape-IsChar s hs)

quoted-IsChar : (s : Str) → All IsChar s → All IsChar (quoted s)
unfolding quoted
quoted-IsChar s h = (refl, All-append IsChar (escape s) (b'"' ∷ []) (escape-IsChar s h) (refl, tt))

bracketed-IsChar : (items : List Str) → All (All IsChar) items → All IsChar (bracketed items)
unfolding bracketed
bracketed-IsChar items h = (
  refl,
  All-append IsChar (join (codes ",") items) (b']' ∷ [])
      (join-All IsChar (codes ",") items (refl, tt) h) (refl, tt),
)

quoted_texts-IsChar : (t : Tag) → All (All IsChar) t → All (All IsChar) (map quoted t)
quoted_texts-IsChar [] h = tt
quoted_texts-IsChar (v ∷ t) (hv, h) = (quoted-IsChar v hv, quoted_texts-IsChar t h)

tags_texts-IsChar :
    (tags : List Tag) → All (All (All IsChar)) tags → All (All IsChar) (map serialize_tag tags)
unfolding serialize_tag
tags_texts-IsChar [] h = tt
tags_texts-IsChar (t ∷ tags) (ht, h) =
    (bracketed-IsChar (map quoted t) (quoted_texts-IsChar t ht), tags_texts-IsChar tags h)

to_string-IsChar : (n : ℕ) → All IsChar (to_string n)
to_string-IsChar n = digits-IsChar (to_string n) (to_string-IsDigit n)
  where
    digits-IsChar : (s : Str) → All IsDigit s → All IsChar s
    digits-IsChar [] h = tt
    digits-IsChar (c ∷ s) (hc, h) = (ground arith, digits-IsChar s h)

-- The fields of an event, in the range of their types.
pub record IsEvent (pubkey : Str) (tags : List Tag) (content : Str) : Type 0 where
  pub pubkey_bare : All IsBare pubkey
  pub pubkey_chars : All IsChar pubkey
  pub tags_chars : All (All (All IsChar)) tags
  pub content_chars : All IsChar content

canonical-IsChar :
    (pubkey : Str) (created_at kind : ℕ) (tags : List Tag) (content : Str)
    → IsEvent pubkey tags content
    → All IsChar (canonical pubkey created_at kind tags content)
unfolding canonical serialize_tags
canonical-IsChar p a k ts c e =
    let h1 =
      All-append IsChar (escape c) (codes "\"]") (escape-IsChar c e.content_chars) (ground arith) in
    let h2 : All IsChar (codes ",\"" ++ (escape c ++ codes "\"]")) = (refl, (refl, h1)) in
    let h3 =
      All-append IsChar (serialize_tags ts) (codes ",\"" ++ (escape c ++ codes "\"]"))
        (bracketed-IsChar _ (tags_texts-IsChar ts e.tags_chars)) h2 in
    let h4 = All-append IsChar (to_string k) _ (to_string-IsChar k) (refl, h3) in
    let h5 = All-append IsChar (to_string a) _ (to_string-IsChar a) (refl, h4) in
    (refl, (refl, (refl, (refl, All-append IsChar p _ e.pubkey_chars (refl, (refl, h5))))))

module _ (sha256 : Bytes → Bytes) (pubkey pubkey' : Str) (created_at created_at' kind kind' : ℕ)
    (tags tags' : List Tag) (content content' : Str) where
  -- Two events, whose texts are characters and whose public keys hold no quote, and that have the
  -- same id, agree in every field, or else they exhibit two different byte strings with the same
  -- hash.
  pub event_id-binding :
      IsEvent pubkey tags content
      → IsEvent pubkey' tags' content'
      → event_id sha256 pubkey created_at kind tags content
        ≡ event_id sha256 pubkey' created_at' kind' tags' content'
      → ((pubkey ≡ pubkey')
          × (created_at ≡ created_at')
          × (kind ≡ kind')
          × (tags ≡ tags')
          × (content ≡ content'))
        ⊎ Collision sha256
  unfolding event_id
  event_id-binding e e' h =
      let x = canonical pubkey created_at kind tags content in
      let y = canonical pubkey' created_at' kind' tags' content' in
      elim (Bytes-discrete (as_bytes x) (as_bytes y)) [
        | yes same ↦ inl (
            canonical-injective pubkey pubkey' created_at created_at' kind kind' tags tags' content
              content' e.pubkey_bare e'.pubkey_bare
              (as_bytes-injective x y (canonical-IsChar _ _ _ _ _ e) (canonical-IsChar _ _ _ _ _ e')
                same))
        | no differ ↦ inr (as_bytes x, as_bytes y, differ, h)
      ]
