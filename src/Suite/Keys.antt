-- ===== src/Suite/Keys.antt =====
-- chat-identity/src/event.rs: its test that a NIP-19 text is refused where it is not sure.
use zkas_signer.Prelude.{
  ℕ, ◌&&◌, ◌≡◌, refl, inl, inr, Bool, true, not, List, [], replicate, codes, ◌==s◌, ok, err, is_ok,
  arith,
}
use zkas_signer.Text.{Str, trim, is_whitespace}
use zkas_signer.Text.Trim.{trim-HasNoSpace}
use zkas_signer.Crates.Hex.{Hex}
use zkas_signer.Crates.Curve.{Curve}
use zkas_signer.Crates.Bech.{Bech, BechLaws, Variant, bech32, bech32m}
use zkas_signer.Chat.Keys.{decode_nip19, npub_to_hex, nsec_to_hex}
use zkas_signer.Chat.Keys.Nip19.{decode_nip19-encode}
use zkas_signer.Suite.{unwrap}

abbrev npub_text : Str
npub_text = codes "npub1zutzeysacnf9rru6zqwmxd54mud0k44tst6l70ja5mhv8jjumytsd2x7nu"

abbrev nsec_text : Str
nsec_text = codes "nsec10allq0gjx7fddtzef0ax00mdps9t2kmtrldkyjfs8l5xruwvh2dq0lhhkp"

-- The public key's text with its last character changed.
abbrev bad_text : Str
bad_text = codes "npub1zutzeysacnf9rru6zqwmxd54mud0k44tst6l70ja5mhv8jjumytsd2x7nq"

module _ (hex : Hex) (curve : Curve) (bech : Bech) where
  unfoldable nip19_rejects_bad_input : Bool
  nip19_rejects_bad_input =
      not (is_ok (npub_to_hex hex bech nsec_text))
      && not (is_ok (nsec_to_hex hex curve bech npub_text))
      && not (is_ok (npub_to_hex hex bech bad_text))
      && not (is_ok (npub_to_hex hex bech []))
      && not (is_ok (npub_to_hex hex bech (codes "not bech32 at all")))
      && unwrap (bech.encode (codes "nsec") (bech.to_base32 (replicate 32 0)) bech32)
          (λ s. not (is_ok (nsec_to_hex hex curve bech s)))
      && unwrap (bech.encode (codes "npub") (bech.to_base32 (replicate 32 7)) bech32m)
          (λ m. not (is_ok (npub_to_hex hex bech m)))

  -- What the crates answer to the texts of the test: the prefixes of the two keys, that the other
  -- three are no bech32, and that zero is no secret key.
  record Answers : Type 0 where
    nsec_payload : List ℕ
    nsec_variant : Variant
    nsec_read : bech.decode nsec_text ≡ ok (codes "nsec", nsec_payload, nsec_variant)
    npub_payload : List ℕ
    npub_variant : Variant
    npub_read : bech.decode npub_text ≡ ok (codes "npub", npub_payload, npub_variant)
    bad_sum : Str
    bad_refused : bech.decode bad_text ≡ err bad_sum
    no_text : Str
    empty_refused : bech.decode [] ≡ err no_text
    no_words : Str
    words_refused : bech.decode (codes "not bech32 at all") ≡ err no_words
    no_key : Str
    zero_refused : curve.signing_from_bytes (replicate 32 0) ≡ err no_key

  refuses_nsec :
      (s no_key : Str)
      → decode_nip19 bech (codes "nsec") s ≡ ok (replicate 32 0)
      → curve.signing_from_bytes (replicate 32 0) ≡ err no_key
      → is_ok (nsec_to_hex hex curve bech s) ≡ not true
  unfolding nsec_to_hex
  refuses_nsec s no_key h z = rw (h, z) refl

  refuses_bech32m :
      (s : Str) (payload : List ℕ)
      → trim s ≡ s
      → bech.decode s ≡ ok (codes "npub", payload, bech32m)
      → is_ok (npub_to_hex hex bech s) ≡ not true
  unfolding npub_to_hex decode_nip19 ◌==s◌
  refuses_bech32m s payload bare h = rw (bare, h) refl

  -- The test passes, under the laws of bech32, where the crates answer so.
  nip19_rejects_bad_input_lem : (blaws : BechLaws bech) → Answers → nip19_rejects_bad_input ≡ true
  unfolding nip19_rejects_bad_input npub_to_hex nsec_to_hex decode_nip19 trim is_whitespace ◌==s◌
  nip19_rejects_bad_input_lem blaws a =
      let (s, made, bare, read) =
        blaws.decode-encode (codes "nsec") (replicate 32 0) bech32 (ground arith) (inr refl) in
      let (m, made', bare', read') =
        blaws.decode-encode (codes "npub") (replicate 32 7) bech32m (ground arith) (inl refl) in
      let zero_key =
        refuses_nsec s a.no_key
          (decode_nip19-encode bech blaws (codes "nsec") s (replicate 32 0) (inr refl) refl
            (ground arith) made)
          a.zero_refused in
      let modern = refuses_bech32m m _ (trim-HasNoSpace m bare') read' in
      rw
        (
          a.nsec_read, a.npub_read, a.bad_refused, a.empty_refused, a.words_refused, made, zero_key,
          made', modern,
        )
        refl
