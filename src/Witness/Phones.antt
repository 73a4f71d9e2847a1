-- ===== src/Witness/Phones.antt =====
-- The phone's signer at concrete inputs.
use zkas_signer.Prelude.{◌≡◌, refl, ◌∷◌, ◌++◌, ok, map_err, map_ok, replicate, codes, ◌==s◌}
use zkas_signer.Text.{Str, trim, str_len, len_utf8, is_ascii_hexdigit, to_ascii_lowercase}
use zkas_signer.Signer.Secret.{is_legacy, prefix_from, parse_seed, resolve_secret, to_array}
use zkas_signer.Signer.Wallet.{address_from_seed, fvk_hex}
use zkas_signer.Signer.Message.{Signature, sign}
use zkas_signer.Signer.Payment.{Prepared}
use zkas_signer.Signer.Payment as Payments
use zkas_signer.Mobile.{
  SignerError, signer_refused, GeneratedWallet, SignerObject, Order, from_secret, address,
  viewing_key, sign_message, account_key,
}
use zkas_signer.Mobile as Mobile
use zkas_signer.Mobile.Same.{request_of, from_secret-same}
use zkas_signer.Witness.Toys.{
  toy_hex, toy_hex-HexLaws, toy_phrase, toy_phrase-PhraseLaws, toy_chain, toy_sdk, toy_json,
}

abbrev secret : Str
secret = codes " " ++ (toy_hex.encode (171 ∷ replicate 31 1) ++ codes "\n")

abbrev held : SignerObject
held = record { secret = toy_hex.encode (171 ∷ replicate 31 1) }

from_secret-same_example :
    ((a : Str) × (address_from_seed toy_hex toy_phrase toy_chain secret (codes "mainnet") ≡ ok a))
    × ((other : Str)
        → address toy_hex toy_phrase toy_chain held other
          ≡ map_err signer_refused (address_from_seed toy_hex toy_phrase toy_chain secret other))
    × (viewing_key toy_hex toy_phrase toy_chain held
        ≡ map_err signer_refused (fvk_hex toy_hex toy_phrase toy_chain secret))
    × ((other message : Str) (rng : toy_chain.Rng)
        → sign_message toy_hex toy_phrase toy_chain held other message rng
          ≡ map_err signer_refused (
              map_ok
                (λ (s : Signature). s.signature_hex)
                (sign toy_hex toy_phrase toy_chain secret other message rng)))
    × ((o : Order) (p : Prepared)
        → Mobile.verify_and_sign_payment toy_hex toy_phrase toy_chain toy_sdk toy_json held o p
          ≡ map_err signer_refused (
              Payments.verify_and_sign_payment toy_hex toy_phrase toy_chain toy_sdk toy_json
                (request_of secret o)
                p))
unfolding from_secret address account_key address_from_seed parse_seed resolve_secret is_legacy trim
    to_array str_len len_utf8 is_ascii_hexdigit prefix_from to_ascii_lowercase ◌==s◌
from_secret-same_example =
    from_secret-same toy_hex toy_phrase toy_chain toy_hex-HexLaws toy_phrase-PhraseLaws toy_sdk
      toy_json secret (codes "mainnet") held refl refl

abbrev mainnet : Str
mainnet = codes "mainnet"

abbrev generated : GeneratedWallet
generated = record {
  mnemonic = codes "legal winner";
  address =
      toy_chain.address_to_string (toy_chain.address_new toy_chain.mainnet (7 ∷ replicate 32 8));
}
