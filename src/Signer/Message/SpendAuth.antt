-- ===== src/Signer/Message/SpendAuth.antt =====
-- The ways in which a spend authorization signature ends.
use zkas_signer.Prelude.{
  ◌≡◌, ◌≢◌, refl, Bool, true, false, none, some, length, ◌==◌, ==_iff, if◌then◌else◌, codes, Result,
  ok, err, map_err, ok_or, >>=-by, map_err-eq-err, map_err-eq-ok, ok_or-eq-err, ok_or-eq-ok,
}
use mathlib.Core.Path.{subst}
use zkas_signer.Text.{Str, Bytes, trim}
use zkas_signer.Crates.Hex.{Hex, HexLaws}
use zkas_signer.Crates.Phrase.{Phrase, PhraseLaws}
use zkas_signer.Crates.Chain.{Chain}
use zkas_signer.Signer.Error.{Error, not_hex, not_32, invalid_seed_or_alpha}
use zkas_signer.Signer.Secret.{to_array, parse32, parse_seed, resolve_secret}
use zkas_signer.Signer.Secret.Resolution.{Resolution, resolve_secret-Resolution}
use zkas_signer.Signer.Message.{sign_spend_auth}

module _ (hex : Hex) (what s : Str) where
  -- The ways that the reading of a field of 32 bytes ends.
  pub data Field : Result Bytes Error → Type 0 where
    no_hex : (m : Str) → hex.decode (trim s) ≡ err m → Field (err (not_hex what m))
    other_size :
        (b : Bytes) → hex.decode (trim s) ≡ ok b → length b ≢ 32 → Field (err (not_32 what))
    read : (b : Bytes) → hex.decode (trim s) ≡ ok b → length b ≡ 32 → Field (ok b)

  sized :
      (b : Bytes) (same : Bool)
      → length b == 32 ≡ same
      → hex.decode (trim s) ≡ ok b
      → Field (ok_or (not_32 what) (if same then some b else none))
  sized b true e d = read b d ((==_iff (length b) 32).0 e)
  sized b false e d = other_size b d (λ n. let yes = (==_iff (length b) 32).1 n in cc)

  parse32-Field : Field (parse32 hex s what)
  unfolding parse32 to_array
  parse32-Field =
      >>=-by Field (map_err (not_hex what) (hex.decode (trim s))) _
        (λ e h. let (m, bad, is) = map_err-eq-err _ _ h in rw is (no_hex m bad))
        λ b h. sized b _ refl (map_err-eq-ok _ _ h)

module _ (hex : Hex) (phrase : Phrase) (chain : Chain) (seed_hex alpha_hex sighash_hex : Str) where
  -- The ways that a call ends.
  pub data Spend : Result Str Error → Type 0 where
    bad_secret : (e : Error) → Resolution hex phrase seed_hex (err e) → Spend (err e)
    bad_alpha :
        (seed : Bytes) (e : Error)
        → Resolution hex phrase seed_hex (ok seed)
        → Field hex (codes "alpha") alpha_hex (err e)
        → Spend (err e)
    bad_sighash :
        (seed alpha : Bytes) (e : Error)
        → Resolution hex phrase seed_hex (ok seed)
        → Field hex (codes "alpha") alpha_hex (ok alpha)
        → Field hex (codes "sighash") sighash_hex (err e)
        → Spend (err e)
    unusable :
        (seed alpha sighash : Bytes)
        → Resolution hex phrase seed_hex (ok seed)
        → Field hex (codes "alpha") alpha_hex (ok alpha)
        → Field hex (codes "sighash") sighash_hex (ok sighash)
        → chain.sign_spend_auth_from_seed seed alpha sighash ≡ none
        → Spend (err invalid_seed_or_alpha)
    signed :
        (seed alpha sighash sig : Bytes)
        → Resolution hex phrase seed_hex (ok seed)
        → Field hex (codes "alpha") alpha_hex (ok alpha)
        → Field hex (codes "sighash") sighash_hex (ok sighash)
        → chain.sign_spend_auth_from_seed seed alpha sighash ≡ some sig
        → Spend (ok (hex.encode sig))

  module _ (laws : HexLaws hex) (plaws : PhraseLaws phrase) where
    -- Under the laws of hex and of phrases, a spend authorization ends in one of these ways, with
    -- the result that is given there: the secret is read first, then the randomizer, then the
    -- hash, each field being the hex of exactly 32 bytes whatever space is around it, and the
    -- first that fails is the error, under the name of its field; then the chain signs the hash
    -- with the seed and the randomizer, in this order, or refuses them.
    pub sign_spend_auth-Spend :
        Spend (sign_spend_auth hex phrase chain seed_hex alpha_hex sighash_hex)
    unfolding sign_spend_auth parse_seed
    sign_spend_auth-Spend =
        let secret = resolve_secret-Resolution hex phrase laws plaws seed_hex in
        let first = parse32-Field hex (codes "alpha") alpha_hex in
        let second = parse32-Field hex (codes "sighash") sighash_hex in
        >>=-by Spend (resolve_secret hex phrase seed_hex) _
          (λ e h. bad_secret e (subst (Resolution hex phrase seed_hex) h secret))
          λ seed h1.
            let own = subst (Resolution hex phrase seed_hex) h1 secret in
            >>=-by Spend (parse32 hex alpha_hex (codes "alpha")) _
              (λ e h. bad_alpha seed e own (subst (Field hex (codes "alpha") alpha_hex) h first))
              λ alpha h2.
                let a = subst (Field hex (codes "alpha") alpha_hex) h2 first in
                >>=-by Spend (parse32 hex sighash_hex (codes "sighash")) _
                  (λ e h.
                    bad_sighash seed alpha e own a
                      (subst (Field hex (codes "sighash") sighash_hex) h second))
                  λ sighash h3.
                    let z = subst (Field hex (codes "sighash") sighash_hex) h3 second in
                    let made = chain.sign_spend_auth_from_seed seed alpha sighash in
                    >>=-by Spend (ok_or invalid_seed_or_alpha made) _
                      (λ e h.
                        let (gone, is) = ok_or-eq-err invalid_seed_or_alpha made h in
                        rw is (unusable seed alpha sighash own a z gone))
                      λ sig h4.
                        signed seed alpha sighash sig own a z
                          (ok_or-eq-ok invalid_seed_or_alpha made h4)
