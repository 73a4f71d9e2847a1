-- ===== src/Suite/Refused.antt =====
-- src/lib.rs, mobile/src/lib.rs and chat-identity/src/lib.rs: their tests that a bad secret is
-- refused at once.
use zkas_signer.Prelude.{
  ◌&&◌, ◌≡◌, refl, Bool, true, false, not, [], replicate, codes, ◌==s◌, err, is_ok, Bool-cases, inl,
  inr,
}
use zkas_signer.Text.{
  Str, trim, is_whitespace, is_empty, is_ascii_hexdigit, str_len, len_utf8, join,
  to_ascii_lowercase,
}
use zkas_signer.Crates.Hex.{Hex}
use zkas_signer.Crates.Phrase.{Phrase}
use zkas_signer.Crates.Chain.{Chain}
use zkas_signer.Crates.Curve.{Curve}
use zkas_signer.Crates.Bech.{Bech}
use zkas_signer.Signer.Error.{Error, invalid_phrase}
use zkas_signer.Signer.Secret.{
  is_legacy, resolve_secret, parse_seed, secret_from_phrase, account_secret, cleaned,
  is_valid_mnemonic, prefix_from,
}
use zkas_signer.Signer.Secret.Wording.{cleaned-trim}
use zkas_signer.Signer.Wallet.{address_from_seed, account_seed_hex}
use zkas_signer.Signer.Message.{sign}
use zkas_signer.Mobile.{from_secret, address, account_key}
use zkas_signer.Chat.Identity.{chat_identity, secret_seed, phrase_seed}

abbrev net : Str
net = codes "mainnet"

abbrev bad_checksum : Str
bad_checksum =
    codes
      "abandon abandon abandon abandon abandon abandon abandon abandon abandon abandon abandon abandon"

module _ (hex : Hex) (phrase : Phrase) where
  -- The crate of phrases knows no such phrase.
  abbrev pub IsUnknown : Str → Type 0
  IsUnknown s = (m : Str) × (phrase.parse_normalized (cleaned phrase s) ≡ err m)

  module _ (chain : Chain) where
    unfoldable invalid_phrases_are_refused_not_silently_accepted : Bool
    invalid_phrases_are_refused_not_silently_accepted =
        not (is_valid_mnemonic phrase bad_checksum)
        && not (is_ok (address_from_seed hex phrase chain bad_checksum net))
        && not (is_valid_mnemonic phrase (codes "not actually words at all"))
        && not (is_ok (address_from_seed hex phrase chain [] net))

    unfoldable bad_seed_length_is_error : chain.Rng → Bool
    bad_seed_length_is_error rng =
        not (is_ok (address_from_seed hex phrase chain (codes "abcd") net))
        && not (is_ok (sign hex phrase chain (codes "abcd") net (codes "x") rng))

    unfoldable a_bad_secret_fails_at_construction_not_at_spend_time : Bool
    a_bad_secret_fails_at_construction_not_at_spend_time =
        not (is_ok (from_secret hex phrase chain (codes "not a phrase at all") net))
        && not (is_ok (from_secret hex phrase chain [] net))
        && not (is_ok (from_secret hex phrase chain (replicate 63 b'a') net))

    -- A text that is not 64 hex digits, not blank and no phrase is no secret.
    no_secret :
        (s : Str)
        → is_legacy (trim s) ≡ false
        → is_empty (trim s) ≡ false
        → IsUnknown s
        → (e : Error) × (resolve_secret hex phrase s ≡ err e)
    unfolding resolve_secret secret_from_phrase
    no_secret s other some_ (m, unknown) =
        (invalid_phrase m, rw (other, some_, cleaned-trim phrase s, unknown) refl)

    no_address :
        (s : Str)
        → ((e : Error) × (resolve_secret hex phrase s ≡ err e))
        → is_ok (address_from_seed hex phrase chain s net) ≡ false
    unfolding address_from_seed parse_seed prefix_from to_ascii_lowercase ◌==s◌
    no_address s (e, h) = rw h refl

    no_signature :
        (s : Str) (rng : chain.Rng)
        → ((e : Error) × (resolve_secret hex phrase s ≡ err e))
        → is_ok (sign hex phrase chain s net (codes "x") rng) ≡ false
    unfolding sign parse_seed prefix_from to_ascii_lowercase ◌==s◌
    no_signature s rng (e, h) = rw h refl

    pub no_object :
        (s : Str)
        → is_legacy (trim s) ≡ false
        → IsUnknown s
        → is_ok (from_secret hex phrase chain s net) ≡ false
    unfolding from_secret address account_key account_seed_hex account_secret
    no_object s other (m, unknown) = rw (other, cleaned-trim phrase s, unknown) refl

    -- The test passes where the words are unknown.
    invalid_phrases_are_refused_not_silently_accepted_lem :
        IsUnknown bad_checksum
        → IsUnknown (codes "not actually words at all")
        → invalid_phrases_are_refused_not_silently_accepted ≡ true
    unfolding invalid_phrases_are_refused_not_silently_accepted is_valid_mnemonic resolve_secret
        is_legacy trim is_whitespace str_len len_utf8 is_ascii_hexdigit
    invalid_phrases_are_refused_not_silently_accepted_lem u1 u2 =
        rw
          (
            u1.1,
            u2.1,
            no_address bad_checksum (no_secret bad_checksum refl refl u1),
            no_address [] (_, refl),
          )
          refl

    -- The test passes where `abcd` is no phrase.
    bad_seed_length_is_error_lem :
        (rng : chain.Rng) → IsUnknown (codes "abcd") → bad_seed_length_is_error rng ≡ true
    unfolding bad_seed_length_is_error is_legacy trim is_whitespace str_len len_utf8
        is_ascii_hexdigit
    bad_seed_length_is_error_lem rng u =
        let none_ = no_secret (codes "abcd") refl refl u in
        rw (no_address (codes "abcd") none_, no_signature (codes "abcd") rng none_) refl

    -- The test passes where the three texts are no phrases.
    a_bad_secret_fails_at_construction_not_at_spend_time_lem :
        IsUnknown (codes "not a phrase at all")
        → IsUnknown []
        → IsUnknown (replicate 63 b'a')
        → a_bad_secret_fails_at_construction_not_at_spend_time ≡ true
    unfolding a_bad_secret_fails_at_construction_not_at_spend_time is_legacy trim is_whitespace
        str_len len_utf8 is_ascii_hexdigit
    a_bad_secret_fails_at_construction_not_at_spend_time_lem u1 u2 u3 =
        rw
          (
            no_object (codes "not a phrase at all") refl u1,
            no_object [] refl u2,
            no_object (replicate 63 b'a') refl u3,
          )
          refl

  module _ (curve : Curve) (bech : Bech) where
    unfoldable rejects_garbage : Bool
    rejects_garbage =
        not (is_ok (chat_identity hex phrase curve bech [] 0))
        && not (is_ok (chat_identity hex phrase curve bech (codes "not a real phrase at all") 0))
        && not (is_ok (chat_identity hex phrase curve bech (replicate 64 b'z') 0))
        && not (is_ok (chat_identity hex phrase curve bech (join [] (replicate 16 (codes "ab"))) 0))

    no_identity :
        (s : Str)
        → is_legacy (trim s) ≡ false
        → IsUnknown s
        → is_ok (chat_identity hex phrase curve bech s 0) ≡ false
    unfolding chat_identity secret_seed phrase_seed
    no_identity s other (m, unknown) = elim (Bool-cases (is_empty (trim s))) [
      | inl blank ↦ rw blank refl
      | inr some_ ↦ rw (some_, other, cleaned-trim phrase s, unknown) refl
    ]

    -- The test passes where the texts are no phrases.
    rejects_garbage_lem :
        IsUnknown []
        → IsUnknown (codes "not a real phrase at all")
        → IsUnknown (replicate 64 b'z')
        → IsUnknown (join [] (replicate 16 (codes "ab")))
        → rejects_garbage ≡ true
    unfolding rejects_garbage is_legacy trim is_whitespace str_len len_utf8 is_ascii_hexdigit join
    rejects_garbage_lem u1 u2 u3 u4 =
        rw
          (
            no_identity [] refl u1,
            no_identity (codes "not a real phrase at all") refl u2,
            no_identity (replicate 64 b'z') refl u3,
            no_identity (join [] (replicate 16 (codes "ab"))) refl u4,
          )
          refl
