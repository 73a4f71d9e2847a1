-- ===== src/Signer/Message/Verify.antt =====
-- What `verify` accepts, and what it refuses before it looks at the signature.
use zkas_signer.Prelude.{
  ◌+◌, ◌≡◌, ◌↔◌, refl, ap, Bool, true, false, ◌==◌, ok, err, map_err, ok_or, length, take, drop,
  if◌then◌else◌, not, some, arith, ==_iff, >>=-eq-ok, map_err-eq-ok, ok_or-eq-ok, ok-injective,
}
use zkas_signer.Text.{Str, Bytes, as_bytes, trim}
use zkas_signer.Crates.Hex.{Hex}
use zkas_signer.Crates.Chain.{Chain, fvk_len, sig_len}
use zkas_signer.Signer.Error.{
  Error, invalid_address, not_shielded, signature_not_hex, signature_length,
}
use zkas_signer.Signer.Message.{verify}

guard_passed :
    (b : Bool) (e : Error) (v w : Bool)
    → (if not b then err e else ok v) ≡ ok w
    → (b ≡ true) × (v ≡ w)
guard_passed true e v w h = (refl, ok-injective h)
guard_passed false e v w h = cc

module _ (hex : Hex) (chain : Chain) where
  -- An address, its recipient bytes and a signature of the full length, read from the inputs.
  pub record Reads (address signature_hex : Str) : Type 0 where
    pub addr : chain.Address
    pub raw : Bytes
    pub blob : Bytes
    pub parsed : chain.address_try_from (trim address) ≡ ok addr
    pub shielded : chain.orchard_recipient_bytes addr ≡ some raw
    pub decoded : hex.decode (trim signature_hex) ≡ ok blob
    pub sized : length blob ≡ 160

  module _ (address message signature_hex : Str) where
    verify-Reads :
        (r : Reads address signature_hex)
        → verify hex chain address message signature_hex
          ≡ ok (
              chain.verify_message r.raw
                (as_bytes (chain.prefix_to_string (chain.address_prefix r.addr)))
                (as_bytes message)
                (take 96 r.blob)
                (drop 96 r.blob))
    unfolding verify
    verify-Reads r =
        let size : (length r.blob == fvk_len + sig_len) ≡ true = ground arith in
        rw (r.parsed, r.shielded, r.decoded, size) refl

    -- `verify` gives a verdict exactly when the address is a shielded one and the signature is the
    -- hex of 160 bytes; the verdict is then the scheme's, for the recipient and the network of the
    -- address, on the first 96 bytes as viewing key and the other 64 as signature.
    pub verify-eq-ok :
        (verdict : Bool)
        → (verify hex chain address message signature_hex ≡ ok verdict) ↔ (
            (r : Reads address signature_hex) × (chain.verify_message r.raw
                (as_bytes (chain.prefix_to_string (chain.address_prefix r.addr)))
                (as_bytes message)
                (take 96 r.blob)
                (drop 96 r.blob)
              ≡ verdict))
    unfolding verify
    verify-eq-ok verdict = (
      λ e.
          let (addr, e0, e1) =
            >>=-eq-ok (map_err invalid_address (chain.address_try_from (trim address))) _ e in
          let (raw, e2, e3) =
            >>=-eq-ok (ok_or not_shielded (chain.orchard_recipient_bytes addr)) _ e1 in
          let (blob, e4, e5) =
            >>=-eq-ok (map_err signature_not_hex (hex.decode (trim signature_hex))) _ e3 in
          let (size, agreed) =
            guard_passed (length blob == fvk_len + sig_len)
              (signature_length (fvk_len + sig_len) (length blob)) _ verdict e5 in
          (
            record {
              addr = addr;
              raw = raw;
              blob = blob;
              parsed = map_err-eq-ok _ _ e0;
              shielded = ok_or-eq-ok _ _ e2;
              decoded = map_err-eq-ok _ _ e4;
              sized = (==_iff _ _).0 size;
            },
            agreed,
          ),
      λ t. rw (verify-Reads t.0) (ap ok t.1),
    )
