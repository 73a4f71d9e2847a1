-- ===== src/Witness/Signers.antt =====
-- The properties of the money signer at concrete inputs.
use zkas_signer.Prelude.{
  ℕ, ◌+◌, ◌≡◌, ◌↔◌, refl, true, List, [], ◌∷◌, ◌++◌, Result, ok, replicate, codes, arith, ◌==s◌,
  take, drop,
}
use zkas_signer.Text.{
  Str, Bytes, as_bytes, utf8_char, str_len, len_utf8, is_ascii_hexdigit, to_ascii_lowercase,
  lower_char, trim, split_whitespace, join,
}
use zkas_signer.Signer.Secret.{
  is_legacy, to_array, resolve_secret, parse_seed, secret_from_phrase, account_secret,
  is_valid_mnemonic, cleaned, prefix_from,
}
use zkas_signer.Signer.Wallet.{
  Wallet, try_seeds, new_wallet, new_wallet_mnemonic, account_address, account_seed_hex,
  address_from_seed, address_string,
}
use zkas_signer.Signer.Wallet.RoundTrip.{IsSeed, new_wallet-restores}
use zkas_signer.Signer.Message.{Signature, sign, verify, sign_spend_auth}
use zkas_signer.Signer.Message.Verify.{Reads, verify-eq-ok}
use zkas_signer.Signer.Message.RoundTrip.{verify-sign}
use zkas_signer.Signer.Payment.{Request, Prepared, verify_and_sign_payment}
use zkas_signer.Signer.Networks.{same_network}
use zkas_signer.Signer.Secret.Resolution.{Resolution, resolve_secret-Resolution}
use zkas_signer.Signer.Message.SpendAuth.{Spend, sign_spend_auth-Spend}
use zkas_signer.Signer.Accounts.{
  IsOneSecret, account_seed_hex-IsOneSecret, resolve_secret-normal, same_words-IsOneSecret,
}
use zkas_signer.Witness.Toys.{
  toy_sdk, toy_json, toy_hex, toy_hex-HexLaws, toy_phrase, toy_phrase-PhraseLaws, toy_chain,
  toy_chain-AddressLaws, toy_chain-MessageLaws,
}

abbrev mainnet : Str
mainnet = codes "Mainnet"

abbrev pub seed : Bytes
seed = 171 ∷ replicate 31 1

abbrev pub seed_text : Str
seed_text = toy_hex.encode seed

-- A phrase typed across two lines, with capitals.
abbrev typed : Str
typed = codes "  Legal\n  WINNER "

abbrev phrase_text : Str
phrase_text = codes "legal winner"

-- The first draw is no valid key.
abbrev draws : List (Result Bytes Str)
draws = ok (replicate 32 0) ∷ ok seed ∷ []

abbrev pub wallet : Wallet
wallet = record {
  seed_hex = seed_text;
  address = toy_chain.address_to_string (toy_chain.address_new toy_chain.mainnet (7 ∷ seed));
}

new_wallet-restores_example :
    address_from_seed toy_hex toy_phrase toy_chain wallet.seed_hex mainnet ≡ ok wallet.address
unfolding new_wallet try_seeds prefix_from address_string to_ascii_lowercase ◌==s◌
new_wallet-restores_example =
    new_wallet-restores toy_hex toy_phrase toy_chain toy_hex-HexLaws mainnet draws wallet
      (ground arith) refl

-- The address of an account of that phrase.
abbrev phrase_address : ℕ → Str
phrase_address account =
    toy_chain.address_to_string
      (toy_chain.address_new toy_chain.mainnet (7 ∷ replicate 32 (8 + account)))

abbrev message : Str
message = codes "gm"

-- The signature of the message under the seed above.
abbrev signature : Signature
signature = record {
  address = wallet.address;
  signature_hex = toy_hex.encode (replicate 96 1 ++ replicate 64 184);
}

verify-sign_example :
    (verify toy_hex toy_chain signature.address message signature.signature_hex ≡ ok true)
    × (address_from_seed toy_hex toy_phrase toy_chain seed_text mainnet ≡ ok signature.address)
unfolding sign prefix_from parse_seed resolve_secret is_legacy trim to_array str_len len_utf8
    is_ascii_hexdigit address_string to_ascii_lowercase lower_char as_bytes utf8_char ◌==s◌
verify-sign_example =
    verify-sign toy_hex toy_phrase toy_chain toy_hex-HexLaws toy_chain-AddressLaws
      toy_chain-MessageLaws seed_text mainnet message tt signature refl

verify-eq-ok_example :
    (verify toy_hex toy_chain signature.address message signature.signature_hex ≡ ok true) ↔ (
      (r : Reads toy_hex toy_chain signature.address signature.signature_hex)
      × (toy_chain.verify_message r.raw
            (as_bytes (toy_chain.prefix_to_string (toy_chain.address_prefix r.addr)))
            (as_bytes message)
            (take 96 r.blob)
            (drop 96 r.blob)
          ≡ true))
verify-eq-ok_example =
    verify-eq-ok toy_hex toy_chain signature.address message signature.signature_hex true

same_network_example :
    ((drawn : List (Result Bytes Str))
      → new_wallet toy_hex toy_chain mainnet drawn
        ≡ new_wallet toy_hex toy_chain (codes "mainNET") drawn)
    × ((drawn : Result Bytes Str)
        → new_wallet_mnemonic toy_phrase toy_chain mainnet drawn
          ≡ new_wallet_mnemonic toy_phrase toy_chain (codes "mainNET") drawn)
    × ((mnemonic : Str) (account : ℕ)
        → account_address toy_phrase toy_chain mnemonic mainnet account
          ≡ account_address toy_phrase toy_chain mnemonic (codes "mainNET") account)
    × ((secret : Str)
        → address_from_seed toy_hex toy_phrase toy_chain secret mainnet
          ≡ address_from_seed toy_hex toy_phrase toy_chain secret (codes "mainNET"))
    × ((secret text : Str) (rng : toy_chain.Rng)
        → sign toy_hex toy_phrase toy_chain secret mainnet text rng
          ≡ sign toy_hex toy_phrase toy_chain secret (codes "mainNET") text rng)
    × ((r : Request) (p : Prepared) (out : Str)
        → (verify_and_sign_payment toy_hex toy_phrase toy_chain toy_sdk toy_json
              (record r { network = mainnet })
              p
            ≡ ok out)
          ↔ ((mainnet ≡ codes "mainnet")
              × (verify_and_sign_payment toy_hex toy_phrase toy_chain toy_sdk toy_json
                    (record r { network = codes "mainnet" })
                    p
                  ≡ ok out)))
unfolding to_ascii_lowercase
same_network_example =
    same_network toy_hex toy_phrase toy_chain toy_sdk toy_json mainnet (codes "mainNET") refl

resolve_secret-Resolution_example :
    Resolution toy_hex toy_phrase typed (resolve_secret toy_hex toy_phrase typed)
resolve_secret-Resolution_example =
    resolve_secret-Resolution toy_hex toy_phrase toy_hex-HexLaws toy_phrase-PhraseLaws typed

sign_spend_auth-Spend_example :
    Spend toy_hex toy_phrase toy_chain seed_text
      (codes " " ++ seed_text)
      seed_text
      (sign_spend_auth toy_hex toy_phrase toy_chain seed_text (codes " " ++ seed_text) seed_text)
sign_spend_auth-Spend_example =
    sign_spend_auth-Spend toy_hex toy_phrase toy_chain seed_text (codes " " ++ seed_text) seed_text
      toy_hex-HexLaws toy_phrase-PhraseLaws

abbrev account_text : Str
account_text = toy_hex.encode (replicate 32 8)

account_seed_hex-IsOneSecret_example :
    IsOneSecret toy_hex toy_phrase toy_chain toy_sdk toy_json phrase_text account_text
    × ((network a : Str)
        → (account_address toy_phrase toy_chain phrase_text network 0 ≡ ok a)
          ↔ (address_from_seed toy_hex toy_phrase toy_chain account_text network ≡ ok a))
unfolding account_seed_hex account_secret cleaned split_whitespace ◌==s◌ join lower_char
account_seed_hex-IsOneSecret_example =
    account_seed_hex-IsOneSecret toy_hex toy_phrase toy_chain toy_sdk toy_json toy_hex-HexLaws
      toy_phrase-PhraseLaws phrase_text account_text (omega arith) refl

resolve_secret-normal_example :
    IsSeed (replicate 32 8)
    × IsOneSecret toy_hex toy_phrase toy_chain toy_sdk toy_json account_text phrase_text
unfolding resolve_secret secret_from_phrase cleaned is_legacy trim split_whitespace lower_char join
    str_len len_utf8 is_ascii_hexdigit ◌==s◌
resolve_secret-normal_example =
    resolve_secret-normal toy_hex toy_phrase toy_chain toy_sdk toy_json toy_hex-HexLaws
      toy_phrase-PhraseLaws phrase_text (replicate 32 8) refl

same_words-IsOneSecret_example :
    IsOneSecret toy_hex toy_phrase toy_chain toy_sdk toy_json typed phrase_text
    × ((network : Str) (account : ℕ)
        → account_address toy_phrase toy_chain typed network account
          ≡ account_address toy_phrase toy_chain phrase_text network account)
    × ((account : ℕ)
        → account_seed_hex toy_hex toy_phrase typed account
          ≡ account_seed_hex toy_hex toy_phrase phrase_text account)
    × (is_valid_mnemonic toy_phrase typed ≡ is_valid_mnemonic toy_phrase phrase_text)
unfolding split_whitespace lower_char
same_words-IsOneSecret_example =
    same_words-IsOneSecret toy_hex toy_phrase toy_chain toy_sdk toy_json toy_phrase-PhraseLaws typed
      phrase_text (ground arith) (ground arith) (omega arith) refl
