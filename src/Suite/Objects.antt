-- ===== src/Suite/Objects.antt =====
-- mobile/src/lib.rs: its tests of what an object signs, and of its viewing key.
use zkas_signer.Prelude.{
  ◌*◌, ◌&&◌, ◌≡◌, refl, Bool, true, false, not, codes, ◌==◌, ==_iff, some, Result, ok, is_ok, ok_or,
  all, All, length, arith, >>=-then, map_err-eq-ok, ok_or-eq-ok, ok-injective, Bool-cases, inl, inr,
}
use zkas_signer.Text.{Str, Bytes, IsByte, str_len, is_ascii_hexdigit}
use zkas_signer.Crates.Hex.{Hex, HexLaws}
use zkas_signer.Crates.Phrase.{Phrase, PhraseLaws}
use zkas_signer.Crates.Chain.{Chain, AddressLaws, MessageLaws}
use zkas_signer.Signer.Error.{seed_invalid}
use zkas_signer.Signer.Secret.{is_legacy, parse_seed}
use zkas_signer.Signer.Secret.Legacy.{is_legacy-parts, str_len-hexdigit, trim-hexdigit}
use zkas_signer.Signer.Wallet.{fvk_hex}
use zkas_signer.Mobile.{
  signer_refused, GeneratedWallet, generate_wallet, from_secret, account_key, address, viewing_key,
  sign_message, verify_message,
}
use zkas_signer.Mobile.Restored.{holder, verify_message-sign_message, generate_wallet-from_secret}
use zkas_signer.Suite.{unwrap}
use zkas_signer.Suite.Phone.{net}
use zkas_signer.Suite.Refused.{IsUnknown, no_object}
use zkas_signer.Suite.Forged.{IsForMessage, other_message}

module _ (hex : Hex) (phrase : Phrase) (chain : Chain) (drawn : Result Bytes Str) where
  unfoldable a_signed_message_verifies_against_the_address : chain.Rng → Bool
  a_signed_message_verifies_against_the_address rng =
      unwrap (generate_wallet phrase chain net drawn) λ w.
        unwrap (from_secret hex phrase chain w.mnemonic net) λ signer.
          unwrap (address hex phrase chain signer net) λ a.
            unwrap (sign_message hex phrase chain signer net (codes "hello") rng) λ sig.
              unwrap (verify_message hex chain a (codes "hello") sig) (λ b. b)
              && unwrap (verify_message hex chain a (codes "hell0") sig) not

  -- What the object refuses is refused for the other message too.
  other_message-verify_message :
      (a m n sig : Str)
      → IsForMessage hex chain m n
      → verify_message hex chain a m sig ≡ ok true
      → verify_message hex chain a n sig ≡ ok false
  unfolding verify_message
  other_message-verify_message a m n sig apart e =
      rw (other_message hex chain a m n sig apart (map_err-eq-ok signer_refused _ e)) refl

  -- The test passes if a wallet is generated and the message is signed, under a scheme whose
  -- signatures of the one message are not accepted for the other.
  a_signed_message_verifies_against_the_address_lem :
      (laws : HexLaws hex)
      → (plaws : PhraseLaws phrase) → (alaws : AddressLaws chain) → (mlaws : MessageLaws chain)
      → (rng : chain.Rng) (w : GeneratedWallet) (sig : Str)
      → generate_wallet phrase chain net drawn ≡ ok w
      → sign_message hex phrase chain (holder w.mnemonic) net (codes "hello") rng ≡ ok sig
      → IsForMessage hex chain (codes "hello") (codes "hell0")
      → a_signed_message_verifies_against_the_address rng ≡ true
  unfolding a_signed_message_verifies_against_the_address
  a_signed_message_verifies_against_the_address_lem laws plaws alaws mlaws rng w sig e es apart =
      let (held, own, signing) =
        generate_wallet-from_secret hex phrase chain laws plaws alaws mlaws net drawn w e in
      let accepted : verify_message hex chain w.address (codes "hello") sig ≡ ok true =
        verify_message-sign_message hex phrase chain laws plaws alaws mlaws (holder w.mnemonic) net
          (codes "hello") w.address sig rng own es in
      let other =
        other_message-verify_message w.address (codes "hello") (codes "hell0") sig apart accepted in
      rw (e, held, own, es, accepted, other) refl

  unfoldable the_viewing_key_is_96_bytes_and_carries_no_spending_power : Bool
  the_viewing_key_is_96_bytes_and_carries_no_spending_power =
      unwrap (generate_wallet phrase chain net drawn) λ w.
        unwrap (from_secret hex phrase chain w.mnemonic net) λ signer.
          unwrap (viewing_key hex phrase chain signer) λ fvk.
            (str_len fvk == 192)
            && all is_ascii_hexdigit fvk
            && not (is_ok (from_secret hex phrase chain fvk net))

  -- A viewing key is 96 bytes.
  abbrev IsFvk : Bytes → Type 0
  IsFvk b = (length b ≡ 96) × All IsByte b

  viewing_key-encode :
      (secret fvk : Str)
      → viewing_key hex phrase chain (holder secret) ≡ ok fvk
      → (seed b : Bytes) × (chain.fvk_bytes_from_seed seed ≡ some b) × (hex.encode b ≡ fvk)
  unfolding viewing_key fvk_hex
  viewing_key-encode secret fvk e =
      >>=-then (account_key hex phrase (holder secret)) _ e λ k keyed e1.
        >>=-then (parse_seed hex phrase k) _ (map_err-eq-ok signer_refused _ e1) λ seed read e2.
          >>=-then (ok_or seed_invalid (chain.fvk_bytes_from_seed seed)) _ e2 λ b found e3. (
            seed,
            b,
            ok_or-eq-ok seed_invalid (chain.fvk_bytes_from_seed seed) found,
            ok-injective e3,
          )

  -- 192 hex digits are no legacy secret.
  long-is_legacy : (s : Str) → str_len s ≡ 192 → is_legacy s ≡ false
  long-is_legacy s n = elim (Bool-cases (is_legacy s)) [
    | inr other ↦ other
    | inl legacy ↦ absurd (omega (arith, n, (is_legacy-parts s legacy).0))
  ]

  -- The test passes if a wallet is generated and has a viewing key, where a viewing key is 96 bytes
  -- and its hex text is no phrase.
  the_viewing_key_is_96_bytes_and_carries_no_spending_power_lem :
      (laws : HexLaws hex)
      → (w : GeneratedWallet) (fvk : Str) → generate_wallet phrase chain net drawn ≡ ok w
      → from_secret hex phrase chain w.mnemonic net ≡ ok (holder w.mnemonic)
      → viewing_key hex phrase chain (holder w.mnemonic) ≡ ok fvk
      → ((seed b : Bytes) → chain.fvk_bytes_from_seed seed ≡ some b → IsFvk b)
      → IsUnknown hex phrase fvk
      → the_viewing_key_is_96_bytes_and_carries_no_spending_power ≡ true
  unfolding the_viewing_key_is_96_bytes_and_carries_no_spending_power
  the_viewing_key_is_96_bytes_and_carries_no_spending_power_lem laws w fvk e held seen sized
        unknown =
      let (seed, b, found, is) = viewing_key-encode w.mnemonic fvk seen in
      let (n, bytes) = sized seed b found in
      let digits : all is_ascii_hexdigit fvk ≡ true = rw (← is) (laws.encode-hexdigit b bytes) in
      let wide : length fvk ≡ 2 * length b = rw (← is) (laws.length-encode b bytes) in
      let size : str_len fvk ≡ 192 = omega (arith, str_len-hexdigit fvk digits) in
      let bare = trim-hexdigit fvk digits in
      let no_secret = no_object hex phrase chain fvk (rw bare (long-is_legacy fvk size)) unknown in
      rw (e, held, seen, (==_iff (str_len fvk) 192).1 size, digits, no_secret) refl
