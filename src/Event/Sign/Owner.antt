-- ===== src/Event/Sign/Owner.antt =====
-- Whose event it is that a secret signs.
use zkas_signer.Prelude.{
  ℕ, ◌^◌, ◌≤◌, ◌≡◌, ◌∙◌, refl, sym, ap, Bool, true, false, some, Result, ok, err, map_err,
  if◌then◌else◌, >>=-then, >>=-eq-ok, map_err-eq-ok, ok-injective,
}
use zkas_signer.Text.{Str, Bytes, trim, is_empty}
use zkas_signer.Crates.Hex.{Hex, HexLaws}
use zkas_signer.Crates.Phrase.{Phrase}
use zkas_signer.Crates.Curve.{Curve, KeyLaws}
use zkas_signer.Crates.Bech.{Bech, BechLaws}
use zkas_signer.Chat.Error.{ChatError, enter_phrase, key_not_hex, invalid_key}
use zkas_signer.Chat.Identity.{
  ChatIdentity, secret_seed, derive_nip06, encode_identity, chat_identity,
}
use zkas_signer.Chat.Keys.{npub_to_hex, pubkey_for_key}
use zkas_signer.Chat.Keys.Nip19.{encode_identity_lem}
use zkas_signer.Event.Sign.{SignedEvent, Draft, signing_key, sign_event}
use zkas_signer.Event.Sign.Verifies.{made, began_ok}

module _ (hex : Hex) (curve : Curve) where
  pubkey_for_key-signing_key :
      (k : Str) (sk : curve.SigningKey)
      → signing_key hex curve k ≡ ok sk
      → pubkey_for_key hex curve k
        ≡ ok (hex.encode (curve.verifying_to_bytes (curve.verifying_key sk)))
  unfolding signing_key pubkey_for_key
  pubkey_for_key-signing_key k sk e =
      >>=-then (map_err key_not_hex (hex.decode (trim k))) _ e
        λ b h e1. rw (map_err-eq-ok _ _ h, map_err-eq-ok invalid_key _ e1) refl

not_blank :
    (b : Bool) (r : Result ChatIdentity ChatError) (i : ChatIdentity)
    → (if b then err enter_phrase else r) ≡ ok i
    → r ≡ ok i
not_blank true r i h = cc
not_blank false r i h = h

module _ (hex : Hex) (phrase : Phrase) (curve : Curve) (bech : Bech) where
  -- An identity is encoded from some secret key.
  pub chat_identity-encode_identity :
      (secret : Str) (account : ℕ) (i : ChatIdentity)
      → chat_identity hex phrase curve bech secret account ≡ ok i
      → (sk : curve.NonZeroScalar) × (nip06 : Bool) × (encode_identity hex curve bech sk nip06
          ≡ ok i)
  unfolding chat_identity
  chat_identity-encode_identity secret account i e =
      let e1 = not_blank (is_empty (trim secret)) _ i e in
      let (found, h1, e2) = >>=-eq-ok (secret_seed hex phrase curve bech (trim secret)) _ e1 in
      let (sk, h2, e3) = >>=-eq-ok (derive_nip06 curve found.0 account) _ e2 in (sk, found.1, e3)

  module _ (sha256 : Bytes → Bytes) (fuel : ℕ) (clock : ℕ → ℕ) (laws : HexLaws hex)
      (klaws : KeyLaws curve) (blaws : BechLaws bech) where
    -- Under the laws of hex, of the keys and of bech32, an event that is signed with a secret and
    -- an account, with fuel for at most 2 ^ 64 nonces, is by the chat identity of these: its
    -- public key is the identity's, and the identity's npub is read as that key.
    pub sign_event-pubkey :
        (secret : Str) (account : ℕ) (d : Draft) (e : SignedEvent)
        → fuel ≤ 2 ^ 64
        → sign_event sha256 fuel clock hex curve phrase bech secret account d ≡ some (ok e)
        → (i : ChatIdentity) × (chat_identity hex phrase curve bech secret account ≡ ok i)
          × (e.pubkey ≡ i.pubkey_hex)
          × (npub_to_hex hex bech i.npub ≡ ok e.pubkey)
    unfolding sign_event
    sign_event-pubkey secret account d e bound h =
        let (i, found, h1) = began_ok (chat_identity hex phrase curve bech secret account) _ e h in
        let (sk, nip06, encoded) = chat_identity-encode_identity secret account i found in
        let (npub, back, nsec, public) =
          encode_identity_lem hex curve bech laws klaws blaws sk nip06 i encoded in
        let m = made sha256 fuel clock hex curve i.privkey_hex d e bound h1 in
        let own = pubkey_for_key-signing_key hex curve i.privkey_hex m.signing m.keyed in
        let same : e.pubkey ≡ i.pubkey_hex = m.pubkey_is ∙ ok-injective (sym own ∙ public) in
        (i, found, same, npub ∙ ap ok (sym same))
