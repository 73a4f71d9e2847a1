-- ===== src/Signer/Wallet/Normal.antt =====
-- Every secret has a normal form: the 64 hex digits of the key that it resolves to.
use mathlib.Core.Path.{subst}
use zkas_signer.Prelude.{
  ◌≡◌, ◌∙◌, refl, sym, Bool, true, false, [], Result, ok, err, map_err, if◌then◌else◌, >>=-then,
  ok-injective, Bool-cases, inl, inr,
}
use zkas_signer.Text.{Str, Bytes, trim, is_empty}
use zkas_signer.Crates.Hex.{Hex, HexLaws}
use zkas_signer.Crates.Phrase.{Phrase, PhraseLaws}
use zkas_signer.Crates.Chain.{Chain}
use zkas_signer.Signer.Error.{Error, enter_phrase, invalid_phrase, underivable_phrase}
use zkas_signer.Signer.Secret.{
  zkas_coin_type, cleaned, is_legacy, secret_from_phrase, resolve_secret, parse_seed,
}
use zkas_signer.Signer.Secret.Legacy.{resolve_secret-legacy}
use zkas_signer.Signer.Wallet.{address_from_seed, fvk_hex}
use zkas_signer.Signer.Wallet.RoundTrip.{IsSeed, resolve_secret-encode}

not_blank :
    (e : Bool) (r : Result Bytes Error) (b : Bytes)
    → (if e then err enter_phrase else r) ≡ ok b
    → r ≡ ok b
not_blank true r b h = cc
not_blank false r b h = h

module _ (hex : Hex) (phrase : Phrase) (laws : HexLaws hex) (plaws : PhraseLaws phrase) where
  secret_from_phrase-IsSeed :
      (s passphrase : Str) (b : Bytes) → secret_from_phrase phrase s passphrase ≡ ok b → IsSeed b
  unfolding secret_from_phrase
  secret_from_phrase-IsSeed s passphrase b e =
      >>=-then (map_err invalid_phrase (phrase.parse_normalized (cleaned phrase s))) _ e λ m h1 e1.
        >>=-then
          (map_err underivable_phrase (
            phrase.from_zip32_seed (phrase.to_seed_normalized m passphrase) zkas_coin_type
              phrase.account_zero))
          _ e1 λ sk h2 e2. subst IsSeed (ok-injective e2) (plaws.to_bytes-seed sk)

  IsSeed-resolve_secret :
      (secret : Str) (b : Bytes) → resolve_secret hex phrase secret ≡ ok b → IsSeed b
  unfolding resolve_secret
  IsSeed-resolve_secret secret b e = elim (Bool-cases (is_legacy (trim secret))) [
    | inl legacy ↦
        let (own, resolved, decoded, n, bytes, lowered) =
          resolve_secret-legacy hex phrase laws secret legacy in
        subst IsSeed (ok-injective (sym resolved ∙ e)) (n, bytes)
    | inr other ↦
        secret_from_phrase-IsSeed (trim secret) [] b
          (not_blank (is_empty (trim secret)) _ b (rw other at e))
  ]

  module _ (chain : Chain) where
    -- Under the laws of hex and of phrases, whatever a secret resolves to, by either route, is 32
    -- bytes; their hex digits are a secret that resolves to them again, and it has the address of
    -- the first secret on every network, or its error, and its viewing key.
    pub resolve_secret-IsSeed :
        (secret : Str) (b : Bytes)
        → resolve_secret hex phrase secret ≡ ok b
        → IsSeed b
          × (resolve_secret hex phrase (hex.encode b) ≡ ok b)
          × ((network : Str)
              → address_from_seed hex phrase chain (hex.encode b) network
                ≡ address_from_seed hex phrase chain secret network)
          × (fvk_hex hex phrase chain (hex.encode b) ≡ fvk_hex hex phrase chain secret)
    unfolding address_from_seed fvk_hex parse_seed
    resolve_secret-IsSeed secret b e =
        let seed = IsSeed-resolve_secret secret b e in
        let back = resolve_secret-encode hex phrase laws b seed in
        (seed, back, λ network. rw (back, e) refl, rw (back, e) refl)
