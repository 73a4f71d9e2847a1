-- ===== src/Suite/Legacy.antt =====
-- chat-identity/src/lib.rs: its test that a legacy seed has an identity, and is flagged.
use zkas_signer.Prelude.{
  ℕ, ◌&&◌, ◌≡◌, ◌≢◌, refl, sym, ap, Bool, true, false, not, List, codes, ◌==◌, ==_iff, ◌==s◌,
  ==s_refl, ok, map_err, take, drop, arith, >>=-then, map_err-eq-ok, ok-injective,
}
use zkas_signer.Text.{Str, Bytes, trim, join, str_len, len_utf8, is_ascii_hexdigit, is_whitespace}
use zkas_signer.Crates.Hex.{Hex, HexLaws}
use zkas_signer.Crates.Phrase.{Phrase}
use zkas_signer.Crates.Curve.{Curve, KeyLaws}
use zkas_signer.Crates.Bech.{Bech, bech32}
use zkas_signer.Signer.Secret.{is_legacy}
use zkas_signer.Signer.Secret.Legacy.{str_len-hexdigit}
use zkas_signer.Chat.Error.{bad_hrp, seed_not_hex}
use zkas_signer.Chat.Identity.{
  ChatIdentity, chat_identity, secret_seed, legacy_seed, derive_nip06, encode_identity,
}
use zkas_signer.Suite.{unwrap, starts_with}
use zkas_signer.Suite.Phone.{legacy_text}
use zkas_signer.Suite.Accounts.{differ}

module _ (hex : Hex) (phrase : Phrase) (curve : Curve) (bech : Bech) where
  unfoldable legacy_seed_is_supported_and_flagged : Bool
  legacy_seed_is_supported_and_flagged =
      unwrap (chat_identity hex phrase curve bech legacy_text 0) λ id.
        not id.nip06
        && (str_len id.privkey_hex == 64)
        && starts_with (codes "npub1") id.npub
        && unwrap (chat_identity hex phrase curve bech legacy_text 0)
            (λ again. id.npub ==s again.npub)
        && unwrap (chat_identity hex phrase curve bech legacy_text 1)
            (λ other. not (id.npub ==s other.npub))

  -- The seed of a legacy text is not that of a phrase.
  secret_seed-legacy :
      (t : Bytes × Bool) → secret_seed hex phrase curve bech legacy_text ≡ ok t → t.1 ≡ false
  unfolding secret_seed is_legacy str_len len_utf8 is_ascii_hexdigit join
  secret_seed-legacy t e = >>=-then (map_err seed_not_hex (hex.decode legacy_text)) _ e λ raw h e1.
      >>=-then (legacy_seed curve raw) _ e1
        λ expanded h1 e2. ap (λ (t : Bytes × Bool). t.1) (sym (ok-injective e2))

  -- The identity of a legacy seed is encoded from some key and is not one of NIP-06.
  legacy-encode_identity :
      (account : ℕ) (i : ChatIdentity)
      → chat_identity hex phrase curve bech legacy_text account ≡ ok i
      → (sk : curve.NonZeroScalar) × (encode_identity hex curve bech sk false ≡ ok i)
  unfolding chat_identity trim is_whitespace join
  legacy-encode_identity account i e =
      >>=-then (secret_seed hex phrase curve bech legacy_text) _ e λ found h e1.
        >>=-then (derive_nip06 curve found.0 account) _ e1
          λ sk h1 e2. (sk, rw (← secret_seed-legacy found h) e2)

  -- The texts of an identity are those of its key.
  encode_identity-parts :
      (sk : curve.NonZeroScalar) (nip06 : Bool) (i : ChatIdentity)
      → encode_identity hex curve bech sk nip06 ≡ ok i
      → (i.nip06 ≡ nip06)
        × (i.privkey_hex ≡ hex.encode (curve.secret_to_bytes sk))
        × (bech.encode
              (codes "npub")
              (bech.to_base32 (take 32 (drop 1 (curve.encoded_point sk))))
              bech32
            ≡ ok i.npub)
  unfolding encode_identity
  encode_identity-parts sk nip06 i e =
      >>=-then
        (map_err (λ (w : Str). bad_hrp)
          (bech.encode (codes "nsec") (bech.to_base32 (curve.secret_to_bytes sk)) bech32))
        _ e
        λ nsec h e1.
          >>=-then
            (map_err (λ (w : Str). bad_hrp)
              (bech.encode (codes "npub")
                (bech.to_base32 (take 32 (drop 1 (curve.encoded_point sk)))) bech32))
            _ e1 λ npub h1 e2. rw (← ok-injective e2) (refl, refl, map_err-eq-ok _ _ h1)

  -- The test passes, under the laws of hex and of keys, if the seed has two identities with two
  -- npubs, where a text of bech32 under `npub` begins with `npub1`.
  legacy_seed_is_supported_and_flagged_lem :
      (laws : HexLaws hex)
      → (klaws : KeyLaws curve) → (i j : ChatIdentity)
      → chat_identity hex phrase curve bech legacy_text 0 ≡ ok i
      → chat_identity hex phrase curve bech legacy_text 1 ≡ ok j
      → i.npub ≢ j.npub
      → ((payload : List ℕ) (s : Str)
          → bech.encode (codes "npub") payload bech32 ≡ ok s
          → starts_with (codes "npub1") s ≡ true)
      → legacy_seed_is_supported_and_flagged ≡ true
  unfolding legacy_seed_is_supported_and_flagged
  legacy_seed_is_supported_and_flagged_lem laws klaws i j hi hj apart named =
      let (sk, encoded) = legacy-encode_identity 0 i hi in
      let (flag, secret, npub) = encode_identity-parts sk false i encoded in
      let (n, bytes) = klaws.secret_bytes sk in
      let digits =
        str_len-hexdigit (hex.encode (curve.secret_to_bytes sk)) (laws.encode-hexdigit _ bytes) in
      let size = laws.length-encode (curve.secret_to_bytes sk) bytes in
      let wide : str_len i.privkey_hex ≡ 64 = rw secret (omega (arith, n, digits, size)) in
      let other : (i.npub ==s j.npub) ≡ false = differ i.npub j.npub apart in
      rw
        (
          hi,
          flag,
          (==_iff (str_len i.privkey_hex) 64).1 wide,
          named _ i.npub npub,
          ==s_refl i.npub,
          hj,
          other,
        )
        refl
