-- ===== src/Chat/Keys/Nip19.antt =====
-- The four texts of a chat identity name one key, and they are read back as each other.
use zkas_signer.Prelude.{
  ◌≡◌, ◌∙◌, ◌⊎◌, inl, inr, refl, sym, Bool, ==s_refl, codes, length, take, drop, All, ok, map_err,
  >>=-eq-ok, map_err-eq-ok, ok-injective,
}
use zkas_signer.Text.{Str, Bytes, IsByte, trim}
use zkas_signer.Text.Trim.{trim-HasNoSpace}
use zkas_signer.Crates.Hex.{Hex, HexLaws}
use zkas_signer.Crates.Curve.{Curve, KeyLaws}
use zkas_signer.Crates.Bech.{Bech, BechLaws, bech32}
use zkas_signer.Signer.Secret.Legacy.{trim-hexdigit, to_array-length}
use zkas_signer.Chat.Error.{bad_hrp}
use zkas_signer.Chat.Identity.{ChatIdentity, encode_identity}
use zkas_signer.Chat.Keys.{decode_nip19, npub_to_hex, nsec_to_hex, hex_to_npub, pubkey_for_key}

module _ (bech : Bech) (blaws : BechLaws bech) where
  -- 32 bytes under one of the two prefixes, encoded and decoded again
  pub decode_nip19-encode :
      (hrp s : Str) (b : Bytes)
      → (hrp ≡ codes "npub") ⊎ (hrp ≡ codes "nsec")
      → length b ≡ 32
      → All IsByte b
      → bech.encode hrp (bech.to_base32 b) bech32 ≡ ok s
      → decode_nip19 bech hrp s ≡ ok b
  unfolding decode_nip19
  decode_nip19-encode hrp s b known n h e =
      let (t, made, bare, read) = blaws.decode-encode hrp b bech32 h known in
      let same : t ≡ s = ok-injective (sym made ∙ e) in
      let whole : trim s ≡ s = rw (← same) (trim-HasNoSpace t bare) in
      let decoded : bech.decode s ≡ ok (hrp, bech.to_base32 b, bech32) = rw (← same) read in
      rw (whole, decoded, ==s_refl hrp, blaws.from_base32-to_base32 b h, to_array-length 32 b n)
        refl

module _ (hex : Hex) (laws : HexLaws hex) where
  decode-trim : (b : Bytes) → All IsByte b → hex.decode (trim (hex.encode b)) ≡ ok b
  decode-trim b h =
      rw (trim-hexdigit (hex.encode b) (laws.encode-hexdigit b h)) (laws.decode-encode b h)

module _ (hex : Hex) (curve : Curve) (bech : Bech) (laws : HexLaws hex) (klaws : KeyLaws curve)
    (blaws : BechLaws bech) where
  -- Under the laws of hex, of the keys and of bech32, every text of an identity that is made from
  -- a secret key leads to the others: its npub and its hex public key are read as each other, its
  -- nsec as its hex secret key, and the public key that is computed from the secret key is its
  -- own.
  pub encode_identity_lem :
      (sk : curve.NonZeroScalar) (nip06 : Bool) (i : ChatIdentity)
      → encode_identity hex curve bech sk nip06 ≡ ok i
      → (npub_to_hex hex bech i.npub ≡ ok i.pubkey_hex)
        × (hex_to_npub hex bech i.pubkey_hex ≡ ok i.npub)
        × (nsec_to_hex hex curve bech i.nsec ≡ ok i.privkey_hex)
        × (pubkey_for_key hex curve i.privkey_hex ≡ ok i.pubkey_hex)
  unfolding encode_identity npub_to_hex hex_to_npub nsec_to_hex pubkey_for_key
  encode_identity_lem sk nip06 i e =
      let secret = curve.secret_to_bytes sk in
      let x = take 32 (drop 1 (curve.encoded_point sk)) in
      let (ns, hs) = klaws.secret_bytes sk in
      let (nx, hx) = klaws.x_bytes sk in
      let (signing, keyed, x_is) = klaws.signing_read sk in
      let (nsec, e1, e2) =
        >>=-eq-ok
          (map_err (λ (w : Str). bad_hrp)
            (bech.encode (codes "nsec") (bech.to_base32 secret) bech32))
          _ e in
      let (npub, e3, e4) =
        >>=-eq-ok
          (map_err (λ (w : Str). bad_hrp) (bech.encode (codes "npub") (bech.to_base32 x) bech32)) _
          e2 in
      let nsec_made = map_err-eq-ok _ _ e1 in
      let npub_made = map_err-eq-ok _ _ e3 in
      rw (← ok-injective e4) (
        rw (decode_nip19-encode bech blaws (codes "npub") npub x (inl refl) nx hx npub_made) refl,
        rw (decode-trim hex laws x hx, to_array-length 32 x nx, npub_made) refl,
        rw
            (
              decode_nip19-encode bech blaws (codes "nsec") nsec secret (inr refl) ns hs nsec_made,
              keyed,
            )
            refl,
        rw (decode-trim hex laws secret hs, keyed, x_is) refl,
      )
