-- ===== src/Suite/Forged.antt =====
-- src/lib.rs and mobile/src/lib.rs: their tests that a signature is for one message and one address.
use zkas_signer.Prelude.{
  ◌≡◌, ◌≢◌, ◌∙◌, refl, sym, ap, Bool, true, false, not, List, codes, some, Result, ok, All,
  unwrap_or, ok-injective,
}
use zkas_signer.Text.{Str, Bytes, as_bytes, trim}
use zkas_signer.Text.Trim.{trim-HasNoSpace}
use zkas_signer.Crates.Hex.{Hex, HexLaws}
use zkas_signer.Crates.Phrase.{Phrase}
use zkas_signer.Crates.Chain.{Chain, AddressLaws, MessageLaws}
use zkas_signer.Signer.Wallet.{Wallet, address_string, new_wallet}
use zkas_signer.Signer.Wallet.RoundTrip.{IsDraw, new_wallet-restores}
use zkas_signer.Signer.Message.{Signature, sign, verify}
use zkas_signer.Signer.Message.RoundTrip.{verify-sign}
use zkas_signer.Signer.Message.Verify.{verify-eq-ok}
use zkas_signer.Suite.{unwrap, finished}
use zkas_signer.Suite.Money.{mainnet, prefix_from-mainnet, address_from_seed-string}

module _ (hex : Hex) (chain : Chain) where
  -- The scheme accepts no signature of one message for another, nor for another recipient.
  abbrev pub IsForMessage : Str → Str → Type 0
  IsForMessage m n =
      (raw tag fvk sig : Bytes)
      → chain.verify_message raw tag (as_bytes m) fvk sig ≡ true
      → chain.verify_message raw tag (as_bytes n) fvk sig ≡ false

  abbrev IsForRecipient : Type 0
  IsForRecipient =
      (raw raw' tag m fvk sig : Bytes)
      → raw ≢ raw'
      → chain.verify_message raw tag m fvk sig ≡ true
      → chain.verify_message raw' tag m fvk sig ≡ false

  -- A signature that is accepted for one message is refused for another.
  pub other_message :
      (address m n signature_hex : Str)
      → IsForMessage m n
      → verify hex chain address m signature_hex ≡ ok true
      → verify hex chain address n signature_hex ≡ ok false
  other_message address m n signature_hex apart e =
      let (r, accepted) = (verify-eq-ok hex chain address m signature_hex true).0 e in
      (verify-eq-ok hex chain address n signature_hex false).1 (r, apart r.raw _ _ _ accepted)

  -- A signature that is accepted for one address is refused for another on the same network.
  module _ (alaws : AddressLaws chain) (prefix : chain.Prefix) where
    reads_address :
        (raw : Bytes)
        → chain.address_try_from (trim (address_string chain prefix raw))
          ≡ ok (chain.address_new prefix raw)
    unfolding address_string
    reads_address raw =
        rw (trim-HasNoSpace _ (alaws.address_to_string-HasNoSpace (chain.address_new prefix raw)))
          (alaws.address_try_from-to_string prefix raw)

    other_address :
        (raw raw' : Bytes) (m signature_hex : Str)
        → IsForRecipient
        → raw ≢ raw'
        → verify hex chain (address_string chain prefix raw) m signature_hex ≡ ok true
        → verify hex chain (address_string chain prefix raw') m signature_hex ≡ ok false
    other_address raw raw' m signature_hex own apart e =
        let first = address_string chain prefix raw in
        let (r, accepted) = (verify-eq-ok hex chain first m signature_hex true).0 e in
        let is : r.addr ≡ chain.address_new prefix raw =
          ok-injective (sym r.parsed ∙ reads_address raw) in
        let found : chain.orchard_recipient_bytes r.addr ≡ some raw =
          rw is (alaws.orchard_recipient_bytes-new prefix raw) in
        let raw_is : r.raw ≡ raw = ap (unwrap_or raw) (sym r.shielded ∙ found) in
        let tag_is : chain.address_prefix r.addr ≡ prefix =
          rw is (alaws.address_prefix-new prefix raw) in
        (verify-eq-ok hex chain (address_string chain prefix raw') m signature_hex false).1 (
          record {
            addr = chain.address_new prefix raw';
            raw = raw';
            blob = r.blob;
            parsed = reads_address raw';
            shielded = alaws.orchard_recipient_bytes-new prefix raw';
            decoded = r.decoded;
            sized = r.sized;
          },
          own raw raw' _ _ _ _ apart
              (rw (alaws.address_prefix-new prefix raw') (rw (raw_is, tag_is) at accepted)),
        )

module _ (hex : Hex) (phrase : Phrase) (chain : Chain) (draws : List (Result Bytes Str)) where
  unfoldable wrong_message_fails_verify : chain.Rng → Bool
  wrong_message_fails_verify rng = finished (new_wallet hex chain mainnet draws) λ w.
      unwrap (sign hex phrase chain w.seed_hex mainnet (codes "message A") rng)
        λ sig. unwrap (verify hex chain w.address (codes "message B") sig.signature_hex) not

  -- The second wallet goes on with other draws.
  unfoldable other_seed_cannot_forge : List (Result Bytes Str) → chain.Rng → Bool
  other_seed_cannot_forge draws' rng = finished (new_wallet hex chain mainnet draws) λ victim.
      finished (new_wallet hex chain mainnet draws') λ attacker.
        unwrap (sign hex phrase chain attacker.seed_hex mainnet (codes "pay me") rng) λ atk_sig.
          unwrap (verify hex chain victim.address (codes "pay me") atk_sig.signature_hex) not

  module _ (laws : HexLaws hex) (alaws : AddressLaws chain) (mlaws : MessageLaws chain) where
    -- What a new wallet signs is by its address and is accepted.
    signs :
        (m : Str) (others : List (Result Bytes Str)) (rng : chain.Rng) (w : Wallet) (s : Signature)
        → All IsDraw others
        → new_wallet hex chain mainnet others ≡ some (ok w)
        → sign hex phrase chain w.seed_hex mainnet m rng ≡ ok s
        → verify hex chain w.address m s.signature_hex ≡ ok true
    signs m others rng w s hs e es =
        let again = new_wallet-restores hex phrase chain laws mainnet others w hs e in
        let (accepted, owner) =
          verify-sign hex phrase chain laws alaws mlaws w.seed_hex mainnet m rng s es in
        let own : s.address ≡ w.address = ok-injective (sym owner ∙ again) in rw (← own) accepted

    -- The test passes if the draws give a wallet and the message is signed, under a scheme whose
    -- signatures of the one message are not accepted for the other.
    wrong_message_fails_verify_lem :
        (rng : chain.Rng) (w : Wallet) (s : Signature)
        → All IsDraw draws
        → new_wallet hex chain mainnet draws ≡ some (ok w)
        → sign hex phrase chain w.seed_hex mainnet (codes "message A") rng ≡ ok s
        → IsForMessage hex chain (codes "message A") (codes "message B")
        → wrong_message_fails_verify rng ≡ true
    unfolding wrong_message_fails_verify
    wrong_message_fails_verify_lem rng w s hs e es apart =
        let accepted = signs (codes "message A") draws rng w s hs e es in
        rw
          (
            e,
            es,
            other_message hex chain w.address (codes "message A") (codes "message B")
                s.signature_hex apart accepted,
          )
          refl

    -- The test passes if the draws give two wallets with two addresses and the message is signed,
    -- under a scheme whose signatures for one recipient are not accepted for another.
    other_seed_cannot_forge_lem :
        (draws' : List (Result Bytes Str)) (rng : chain.Rng) (victim attacker : Wallet)
        (s : Signature)
        → All IsDraw draws
        → All IsDraw draws'
        → new_wallet hex chain mainnet draws ≡ some (ok victim)
        → new_wallet hex chain mainnet draws' ≡ some (ok attacker)
        → attacker.address ≢ victim.address
        → sign hex phrase chain attacker.seed_hex mainnet (codes "pay me") rng ≡ ok s
        → IsForRecipient hex chain
        → other_seed_cannot_forge draws' rng ≡ true
    unfolding other_seed_cannot_forge
    other_seed_cannot_forge_lem draws' rng victim attacker s hs hs' e e' two es own =
        let (raw, is) =
          address_from_seed-string hex phrase chain draws mainnet attacker.seed_hex attacker.address
            chain.mainnet (prefix_from-mainnet hex phrase chain draws)
            (new_wallet-restores hex phrase chain laws mainnet draws' attacker hs' e') in
        let (raw', is') =
          address_from_seed-string hex phrase chain draws mainnet victim.seed_hex victim.address
            chain.mainnet (prefix_from-mainnet hex phrase chain draws)
            (new_wallet-restores hex phrase chain laws mainnet draws victim hs e) in
        let apart : raw ≢ raw' =
          λ same. two (is ∙ ap (address_string chain chain.mainnet) same ∙ sym is') in
        let accepted = signs (codes "pay me") draws' rng attacker s hs' e' es in
        let refused =
          other_address hex chain alaws chain.mainnet raw raw' (codes "pay me") s.signature_hex own
            apart (rw (← is) accepted) in
        rw (e, e', es, is', refused) refl
