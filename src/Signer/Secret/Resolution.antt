-- ===== src/Signer/Secret/Resolution.antt =====
-- The ways in which the reading of a secret ends.
use zkas_signer.Prelude.{
  ◌≡◌, true, false, [], length, All, Result, ok, err, map_err, >>=-by, map_err-eq-err,
  map_err-eq-ok, Bool-cases, inl, inr,
}
use zkas_signer.Text.{Str, Bytes, IsByte, is_empty, trim}
use zkas_signer.Crates.Hex.{Hex, HexLaws}
use zkas_signer.Crates.Phrase.{Phrase, PhraseLaws}
use zkas_signer.Signer.Error.{Error, enter_phrase, invalid_phrase, underivable_phrase}
use zkas_signer.Signer.Secret.{
  zkas_coin_type, cleaned, is_legacy, secret_from_phrase, resolve_secret,
}
use zkas_signer.Signer.Secret.Legacy.{resolve_secret-legacy}
use zkas_signer.Signer.Secret.Wording.{cleaned-trim}

module _ (hex : Hex) (phrase : Phrase) where
  -- The ways that the reading of a text as a secret ends.
  pub data Resolution (secret : Str) : Result Bytes Error → Type 0 where
    digits :
        (b : Bytes)
        → is_legacy (trim secret) ≡ true
        → hex.decode (trim secret) ≡ ok b
        → length b ≡ 32
        → All IsByte b
        → Resolution secret (ok b)
    blank :
        is_legacy (trim secret) ≡ false
        → is_empty (trim secret) ≡ true
        → Resolution secret (err enter_phrase)
    no_phrase :
        (m : Str)
        → is_legacy (trim secret) ≡ false
        → is_empty (trim secret) ≡ false
        → phrase.parse_normalized (cleaned phrase secret) ≡ err m
        → Resolution secret (err (invalid_phrase m))
    no_key :
        (mnemonic : phrase.Mnemonic) (m : Str)
        → is_legacy (trim secret) ≡ false
        → is_empty (trim secret) ≡ false
        → phrase.parse_normalized (cleaned phrase secret) ≡ ok mnemonic
        → phrase.from_zip32_seed
            (phrase.to_seed_normalized mnemonic [])
            zkas_coin_type
            phrase.account_zero
          ≡ err m
        → Resolution secret (err (underivable_phrase m))
    derived :
        (mnemonic : phrase.Mnemonic) (sk : phrase.SpendingKey)
        → is_legacy (trim secret) ≡ false
        → is_empty (trim secret) ≡ false
        → phrase.parse_normalized (cleaned phrase secret) ≡ ok mnemonic
        → phrase.from_zip32_seed
            (phrase.to_seed_normalized mnemonic [])
            zkas_coin_type
            phrase.account_zero
          ≡ ok sk
        → length (phrase.to_bytes sk) ≡ 32
        → All IsByte (phrase.to_bytes sk)
        → Resolution secret (ok (phrase.to_bytes sk))

  module _ (laws : HexLaws hex) (plaws : PhraseLaws phrase) (secret : Str) where
    from_phrase-Resolution :
        is_legacy (trim secret) ≡ false
        → is_empty (trim secret) ≡ false
        → Resolution secret (secret_from_phrase phrase (trim secret) [])
    unfolding secret_from_phrase
    from_phrase-Resolution other some_ = rw (cleaned-trim phrase secret) (
        >>=-by (Resolution secret)
          (map_err invalid_phrase (phrase.parse_normalized (cleaned phrase secret))) _
          (λ e h. let (m, bad, is) = map_err-eq-err _ _ h in rw is (no_phrase m other some_ bad))
          λ mnemonic h1.
            let parsed = map_err-eq-ok _ _ h1 in
            >>=-by (Resolution secret)
              (map_err underivable_phrase (
                phrase.from_zip32_seed (phrase.to_seed_normalized mnemonic []) zkas_coin_type
                  phrase.account_zero))
              _
              (λ e h.
                let (m, bad, is) = map_err-eq-err _ _ h in
                rw is (no_key mnemonic m other some_ parsed bad))
              λ sk h2.
                let (size, bytes) = plaws.to_bytes-seed sk in
                derived mnemonic sk other some_ parsed (map_err-eq-ok _ _ h2) size bytes)

    as_phrase :
        is_legacy (trim secret) ≡ false → Resolution secret (resolve_secret hex phrase secret)
    unfolding resolve_secret
    as_phrase other = elim (Bool-cases (is_empty (trim secret))) [
      | inl empty ↦ rw (other, empty) (blank other empty)
      | inr some_ ↦ rw (other, some_) (from_phrase-Resolution other some_)
    ]

    -- Under the laws of hex and of phrases, the reading of a text as a secret ends in one of these
    -- ways, with the result that is given there: 64 hex digits are always the 32 bytes that they
    -- spell, and none of the errors on hex is ever seen; any other text that is not blank is read
    -- as a phrase, its words in lower case with a space between each two, and its account 0 without
    -- a passphrase is the secret, again of 32 bytes; and the error says which step failed first.
    pub resolve_secret-Resolution : Resolution secret (resolve_secret hex phrase secret)
    resolve_secret-Resolution = elim (Bool-cases (is_legacy (trim secret))) [
      | inl legacy ↦
          let (b, resolved, decoded, n, bytes, lowered) =
            resolve_secret-legacy hex phrase laws secret legacy in
          rw resolved (digits b legacy decoded n bytes)
      | inr other ↦ as_phrase other
    ]
