-- ===== src/Suite/Phone.antt =====
-- mobile/src/lib.rs: its tests of which key a secret signs with.
use zkas_signer.Prelude.{
  ◌&&◌, ◌≡◌, ◌∙◌, sym, ok-injective, refl, Bool, true, [], replicate, codes, ◌==s◌, ==s_refl,
  Result, ok, map_err, >>=-eq-ok, arith, ap,
}
use zkas_signer.Text.{
  Str, Bytes, join, trim, str_len, len_utf8, is_ascii_hexdigit, is_whitespace, to_ascii_lowercase,
}
use zkas_signer.Crates.Hex.{Hex, HexLaws}
use zkas_signer.Crates.Phrase.{Phrase, PhraseLaws}
use zkas_signer.Crates.Chain.{Chain}
use zkas_signer.Crates.Payment.{Sdk}
use zkas_signer.Signer.Secret.{is_legacy, parse_seed, resolve_secret}
use zkas_signer.Signer.Secret.Legacy.{resolve_secret-legacy}
use zkas_signer.Signer.Wallet.{account_seed_hex, address_from_seed, fvk_hex}
use zkas_signer.Signer.Accounts.{account_seed_hex-IsOneSecret}
use zkas_signer.Signer.Secret.{account_secret}
use zkas_signer.Signer.Secret.Legacy.{trim-hexdigit, to_legacy}
use zkas_signer.Signer.Wallet.Phrases.{
  account_secret-IsSeed, new_wallet_mnemonic-words, account_seed_hex-restores,
  new_wallet_mnemonic-restores,
}
use zkas_signer.Signer.Payment.{PaymentJson}
use zkas_signer.Mobile.{
  signer_refused, GeneratedWallet, account_key, viewing_key, address, from_secret, generate_wallet,
  account_address,
}
use zkas_signer.Mobile.Restored.{keyed, generated, holder-address, holder, account_key-phrase}
use zkas_signer.Suite.{unwrap}

abbrev pub net : Str
net = codes "mainnet"

module _ (hex : Hex) (phrase : Phrase) (chain : Chain) (drawn : Result Bytes Str) where
  unfoldable a_phrase_signs_with_account_zero_exactly_as_the_wallet_does : Bool
  a_phrase_signs_with_account_zero_exactly_as_the_wallet_does =
      unwrap (generate_wallet phrase chain net drawn) λ w.
        unwrap (from_secret hex phrase chain w.mnemonic net) λ signer.
          unwrap (account_seed_hex hex phrase w.mnemonic 0) λ wallet_key.
            unwrap (address_from_seed hex phrase chain wallet_key net) λ wallet_address.
              unwrap (address hex phrase chain signer net) (λ a. a ==s wallet_address)
              && (w.address ==s wallet_address)
              && unwrap (account_address phrase chain w.mnemonic net 0) (λ a. a ==s wallet_address)

  -- The test passes, under the laws of hex and of phrases, if a wallet is generated.
  a_phrase_signs_with_account_zero_exactly_as_the_wallet_does_lem :
      (laws : HexLaws hex)
      → (plaws : PhraseLaws phrase) → (w : GeneratedWallet)
      → generate_wallet phrase chain net drawn ≡ ok w
      → a_phrase_signs_with_account_zero_exactly_as_the_wallet_does ≡ true
  unfolding a_phrase_signs_with_account_zero_exactly_as_the_wallet_does from_secret account_address
  a_phrase_signs_with_account_zero_exactly_as_the_wallet_does_lem laws plaws w e =
      let (m, made, mnemonic_is, address_is) = generated phrase chain net drawn w e in
      let (as_secret, as_account) =
        new_wallet_mnemonic-restores hex phrase chain plaws net drawn m made in
      let own = holder-address hex phrase chain laws plaws net drawn m made in
      let (k, found) = keyed hex phrase chain laws plaws m.mnemonic net m.address 0 as_account in
      let restored =
        account_seed_hex-restores hex phrase chain laws plaws m.mnemonic net k m.address 0 found
          as_account in
      rw (e, ← mnemonic_is, ← address_is, own, found, restored, own, as_account, ==s_refl m.address)
        refl

account_key-legacy :
    (hex : Hex) (phrase : Phrase) (k : Str)
    → is_legacy k ≡ true
    → account_key hex phrase (record { secret = k }) ≡ ok k
unfolding account_key
account_key-legacy hex phrase k legacy = rw legacy refl

-- An object whose key has an address and a viewing key is made, and has them.
opened :
    (hex : Hex) (phrase : Phrase) (chain : Chain) (s k a fvk : Str)
    → account_key hex phrase (holder s) ≡ ok k
    → address_from_seed hex phrase chain k net ≡ ok a
    → fvk_hex hex phrase chain k ≡ ok fvk
    → (from_secret hex phrase chain s net ≡ ok (holder s))
      × (address hex phrase chain (holder s) net ≡ ok a)
      × (viewing_key hex phrase chain (holder s) ≡ ok fvk)
unfolding from_secret address viewing_key
opened hex phrase chain s k a fvk keyed_ own seen =
    (rw (keyed_, own) refl, rw (keyed_, own) refl, rw (keyed_, seen) refl)

-- The hex key of an account is a legacy secret as it is.
derived_key :
    (hex : Hex) (phrase : Phrase) (chain : Chain) (laws : HexLaws hex) (plaws : PhraseLaws phrase)
    (mnemonic k : Str)
    → account_seed_hex hex phrase mnemonic 0 ≡ ok k
    → (trim k ≡ k) × (is_legacy k ≡ true)
unfolding account_seed_hex
derived_key hex phrase chain laws plaws mnemonic k e =
    let (key, derived, e1) = >>=-eq-ok (account_secret phrase mnemonic 0) _ e in
    let (n, bytes) = account_secret-IsSeed hex phrase chain laws plaws mnemonic 0 key derived in
    let digits = laws.encode-hexdigit key bytes in
    let size = laws.length-encode key bytes in
    rw (← ok-injective e1)
      (trim-hexdigit (hex.encode key) digits, to_legacy (hex.encode key) (omega arith) digits)

module _ (hex : Hex) (phrase : Phrase) (chain : Chain) (drawn : Result Bytes Str) where
  unfoldable a_phrase_and_its_derived_key_are_the_same_wallet : Bool
  a_phrase_and_its_derived_key_are_the_same_wallet =
      unwrap (generate_wallet phrase chain net drawn) λ w.
        unwrap (account_seed_hex hex phrase w.mnemonic 0) λ derived.
          unwrap (from_secret hex phrase chain w.mnemonic net) λ from_phrase.
            unwrap (from_secret hex phrase chain derived net) λ from_key.
              unwrap (address hex phrase chain from_phrase net)
                (λ a. unwrap (address hex phrase chain from_key net) (λ b. a ==s b))
              && unwrap (viewing_key hex phrase chain from_phrase)
                  (λ a. unwrap (viewing_key hex phrase chain from_key) (λ b. a ==s b))

  -- The test passes, under the laws of hex and of phrases, if a wallet is generated and its key has
  -- a viewing key.
  a_phrase_and_its_derived_key_are_the_same_wallet_lem :
      (laws : HexLaws hex)
      → (plaws : PhraseLaws phrase)
      → (sdk : Sdk) (json : PaymentJson) (w : GeneratedWallet) (fvk : Str)
      → generate_wallet phrase chain net drawn ≡ ok w
      → fvk_hex hex phrase chain w.mnemonic ≡ ok fvk
      → a_phrase_and_its_derived_key_are_the_same_wallet ≡ true
  unfolding a_phrase_and_its_derived_key_are_the_same_wallet
  a_phrase_and_its_derived_key_are_the_same_wallet_lem laws plaws sdk json w fvk e viewed =
      let (m, made, mnemonic_is, address_is) = generated phrase chain net drawn w e in
      let (as_secret, as_account) =
        new_wallet_mnemonic-restores hex phrase chain plaws net drawn m made in
      let two = new_wallet_mnemonic-words hex phrase chain plaws net drawn m made in
      let (k, found) = keyed hex phrase chain laws plaws m.mnemonic net m.address 0 as_account in
      let ((addresses, viewing, signing, spending, paying), either_way) =
        account_seed_hex-IsOneSecret hex phrase chain sdk json laws plaws m.mnemonic k two found in
      let (bare, legacy) = derived_key hex phrase chain laws plaws m.mnemonic k found in
      let as_phrase : account_key hex phrase (holder m.mnemonic) ≡ ok k =
        account_key-phrase hex phrase chain laws plaws m.mnemonic two
        ∙ ap (map_err signer_refused) found in
      let own : address_from_seed hex phrase chain k net ≡ ok m.address =
        sym (addresses net) ∙ as_secret in
      let seen : fvk_hex hex phrase chain k ≡ ok fvk = sym viewing ∙ rw mnemonic_is viewed in
      let as_key : account_key hex phrase (holder k) ≡ ok k =
        rw bare (account_key-legacy hex phrase k legacy) in
      let (held, first, first_view) =
        opened hex phrase chain m.mnemonic k m.address fvk as_phrase own seen in
      let (held', second, second_view) =
        opened hex phrase chain k k m.address fvk as_key own seen in
      rw
        (
          e,
          ← mnemonic_is,
          found,
          held,
          held',
          first,
          second,
          first_view,
          second_view,
          ==s_refl m.address,
        )
        (==s_refl fvk)

-- `"ab".repeat(32)`, and the same in upper case.
abbrev pub legacy_text : Str
legacy_text = join [] (replicate 32 (codes "ab"))

abbrev upper_text : Str
upper_text = join [] (replicate 32 (codes "AB"))

module _ (hex : Hex) (phrase : Phrase) (chain : Chain) where
  unfoldable a_legacy_hex_key_is_used_as_is_and_never_derived_from : Bool
  a_legacy_hex_key_is_used_as_is_and_never_derived_from =
      unwrap (from_secret hex phrase chain legacy_text net) λ signer.
        unwrap (address hex phrase chain signer net) λ own.
          unwrap (address_from_seed hex phrase chain legacy_text net) (λ a. own ==s a)
          && unwrap (from_secret hex phrase chain upper_text net)
              λ upper. unwrap (address hex phrase chain upper net) (λ a. a ==s own)

  -- Two texts of one key have one address.
  one_key :
      (s t : Str) (b : Bytes)
      → resolve_secret hex phrase s ≡ ok b
      → resolve_secret hex phrase t ≡ ok b
      → address_from_seed hex phrase chain s net ≡ address_from_seed hex phrase chain t net
  unfolding address_from_seed parse_seed
  one_key s t b hs ht = rw (hs, ht) refl

  -- A legacy key is held, and its address is that of the money signer.
  legacy-address :
      (s a : Str)
      → is_legacy s ≡ true
      → trim s ≡ s
      → address_from_seed hex phrase chain s net ≡ ok a
      → (address hex phrase chain (record { secret = s }) net ≡ ok a)
        × (from_secret hex phrase chain s net ≡ ok (record { secret = s }))
  unfolding from_secret address account_key
  legacy-address s a legacy bare e = (rw (legacy, e) refl, rw (bare, legacy, e) refl)

  -- The test passes, under the laws of hex, if the key has an address.
  a_legacy_hex_key_is_used_as_is_and_never_derived_from_lem :
      (laws : HexLaws hex)
      → (a : Str) → address_from_seed hex phrase chain legacy_text net ≡ ok a
      → a_legacy_hex_key_is_used_as_is_and_never_derived_from ≡ true
  unfolding a_legacy_hex_key_is_used_as_is_and_never_derived_from is_legacy str_len len_utf8
      is_ascii_hexdigit trim is_whitespace join to_ascii_lowercase
  a_legacy_hex_key_is_used_as_is_and_never_derived_from_lem laws a e =
      let (key, resolved, decoded, n, bytes, lowered) =
        resolve_secret-legacy hex phrase laws legacy_text refl in
      let (key', resolved', decoded', n', bytes', lowered') =
        resolve_secret-legacy hex phrase laws upper_text refl in
      let same : key' ≡ key = ok-injective (sym lowered' ∙ resolved) in
      let e' : address_from_seed hex phrase chain upper_text net ≡ ok a =
        one_key upper_text legacy_text key (rw (← same) resolved') resolved ∙ e in
      let (own, held) = legacy-address legacy_text a refl refl e in
      let (own', held') = legacy-address upper_text a refl refl e' in
      rw (held, own, e, held', own', ==s_refl a) refl
