-- ===== src/Signer/Message/RoundTrip.antt =====
-- A signature verifies for the address and the message that it was made for.
use zkas_signer.Prelude.{
  ◌≡◌, true, ◌++◌, ok, ok_or, length, length-append, take_append, drop_append, All, All-append,
  arith, >>=-eq-ok, ok_or-eq-ok, ok-injective,
}
use zkas_signer.Text.{Str, IsByte, as_bytes}
use zkas_signer.Text.Trim.{trim-HasNoSpace}
use zkas_signer.Crates.Hex.{Hex, HexLaws}
use zkas_signer.Crates.Phrase.{Phrase}
use zkas_signer.Crates.Chain.{Chain, SignedMessage, AddressLaws, MessageLaws}
use zkas_signer.Signer.Error.{seed_invalid}
use zkas_signer.Signer.Secret.{prefix_from, parse_seed}
use zkas_signer.Signer.Secret.Legacy.{trim-hexdigit}
use zkas_signer.Signer.Wallet.{address_string, address_from_seed}
use zkas_signer.Signer.Wallet.RoundTrip.{address_from_seed-ok}
use zkas_signer.Signer.Message.{Signature, sign, verify}
use zkas_signer.Signer.Message.Verify.{Reads, verify-eq-ok}

module _ (hex : Hex) (phrase : Phrase) (chain : Chain) (hlaws : HexLaws hex)
    (alaws : AddressLaws chain) (mlaws : MessageLaws chain) where
  -- the two parts of a signature, read back from its hex
  signed-Reads :
      (prefix : chain.Prefix) (s : SignedMessage)
      → length s.fvk ≡ 96
      → length s.sig ≡ 64
      → All IsByte s.fvk
      → All IsByte s.sig
      → Reads hex chain (address_string chain prefix s.address) (hex.encode (s.fvk ++ s.sig))
  unfolding address_string
  signed-Reads prefix s nf ns hf hs =
      let blob = s.fvk ++ s.sig in
      let bytes = All-append IsByte s.fvk s.sig hf hs in
      let text = chain.address_to_string (chain.address_new prefix s.address) in
      record {
        addr = chain.address_new prefix s.address;
        raw = s.address;
        blob = blob;
        parsed =
            rw (trim-HasNoSpace text (alaws.address_to_string-HasNoSpace _))
              (alaws.address_try_from-to_string prefix s.address);
        shielded = alaws.orchard_recipient_bytes-new prefix s.address;
        decoded =
            rw (trim-hexdigit (hex.encode blob) (hlaws.encode-hexdigit blob bytes))
              (hlaws.decode-encode blob bytes);
        sized = omega (arith, length-append s.fvk s.sig);
      }

  -- Under the laws of hex, of addresses and of message signatures, a signature that `sign` makes
  -- is accepted by `verify` for its own address and its message, and that address is the one that
  -- the secret derives on the network.
  pub verify-sign :
      (secret network message : Str) (rng : chain.Rng) (s : Signature)
      → sign hex phrase chain secret network message rng ≡ ok s
      → (verify hex chain s.address message s.signature_hex ≡ ok true)
        × (address_from_seed hex phrase chain secret network ≡ ok s.address)
  unfolding sign parse_seed signed-Reads
  verify-sign secret network message rng s e =
      let (prefix, p, e1) = >>=-eq-ok (prefix_from chain network) _ e in
      let (seed, resolved, e2) = >>=-eq-ok (parse_seed hex phrase secret) _ e1 in
      let tag = as_bytes (chain.prefix_to_string prefix) in
      let (m, found, e3) =
        >>=-eq-ok (ok_or seed_invalid (chain.sign_message seed tag (as_bytes message) rng)) _ e2 in
      let made = ok_or-eq-ok _ _ found in
      let (nf, ns, hf, hs) = mlaws.parts seed tag (as_bytes message) rng m made in
      let r = signed-Reads prefix m nf ns hf hs in
      let accepted = mlaws.accepted seed tag (as_bytes message) rng m made in
      rw (← ok-injective e3) (
        (verify-eq-ok hex chain (address_string chain prefix m.address) message
              (hex.encode (m.fvk ++ m.sig)) true).1
            (
              r,
              rw
                  (
                    alaws.address_prefix-new,
                    take_append 96 m.fvk m.sig nf,
                    drop_append 96 m.fvk m.sig nf,
                  )
                  accepted,
            ),
        address_from_seed-ok hex phrase chain secret network prefix seed m.address p resolved
            (mlaws.owner seed tag (as_bytes message) rng m made),
      )
