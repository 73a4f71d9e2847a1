-- ===== src/Witness/Payments.antt =====
-- The properties of payment authorization at concrete inputs.
use zkas_signer.Prelude.{◌≡◌, ◌↔◌, refl, ok, err, codes, ◌==s◌, collect}
use zkas_signer.Prelude.Int.{to_u64}
use zkas_signer.Text.{Str, str_len, len_utf8, is_ascii_hexdigit, trim}
use zkas_signer.Signer.Error.{network_not_pinned}
use zkas_signer.Signer.Secret.{is_legacy, to_array, resolve_secret, parse_seed, parse32, parse43}
use zkas_signer.Signer.Payment.{read_request, read_prepared, authorize}
use zkas_signer.Signer.Payment.{
  Request, Prepared, verify_and_sign_payment, pinned_genesis, to_disclosure, to_request, intent_of,
  prepared_of,
}
use zkas_signer.Signer.Payment.Disclosed.{Handed, verify_and_sign_payment-IsDisclosed}
use zkas_signer.Signer.Payment.Authorized.{Authorized, verify_and_sign_payment-eq-ok}
use zkas_signer.Signer.Payment.Endings.{Ending, verify_and_sign_payment-Ending}
use zkas_signer.Witness.Toys.{toy_hex, toy_phrase, toy_chain, toy_sdk, toy_json}
use zkas_signer.Witness.Signers.{seed_text, wallet}

abbrev request : Str → Request
request network = record {
  seed_hex = seed_text;
  network = network;
  to_address = wallet.address;
  amount_sompi = 4;
  max_fee_sompi = 5;
}

abbrev prepared : Prepared
prepared = record {
  bundle_hex = codes "00ff";
  disclosure_json = codes "[1]";
  alphas_json = codes "[2]";
}

verify_and_sign_payment-eq-ok_example :
    (verify_and_sign_payment toy_hex toy_phrase toy_chain toy_sdk toy_json
        (request (codes "mainnet"))
        prepared
      ≡ ok (codes "[]"))
    ↔ Authorized toy_hex toy_phrase toy_chain toy_sdk toy_json
        (request (codes "mainnet"))
        prepared
        (codes "[]")
verify_and_sign_payment-eq-ok_example =
    verify_and_sign_payment-eq-ok toy_hex toy_phrase toy_chain toy_sdk toy_json
      (request (codes "mainnet")) prepared (codes "[]")

-- The run of that payment.
verify_and_sign_payment_test :
    verify_and_sign_payment toy_hex toy_phrase toy_chain toy_sdk toy_json
      (request (codes "mainnet"))
      prepared
    ≡ ok (codes "[]")
unfolding verify_and_sign_payment read_request read_prepared authorize pinned_genesis to_disclosure
    to_request intent_of prepared_of to_u64 parse_seed resolve_secret parse32 parse43 is_legacy trim
    to_array str_len len_utf8 is_ascii_hexdigit ◌==s◌ collect
verify_and_sign_payment_test = refl

verify_and_sign_payment-Ending_example :
    Ending toy_hex toy_phrase toy_chain toy_sdk toy_json
      (request (codes "testnet"))
      prepared
      (err (network_not_pinned (codes "testnet")))
unfolding verify_and_sign_payment read_request pinned_genesis parse_seed resolve_secret is_legacy
    trim to_array str_len len_utf8 is_ascii_hexdigit ◌==s◌
verify_and_sign_payment-Ending_example =
    verify_and_sign_payment-Ending toy_hex toy_phrase toy_chain toy_sdk toy_json
      (request (codes "testnet")) prepared

verify_and_sign_payment-IsDisclosed_example :
    Handed toy_hex toy_phrase toy_chain toy_sdk toy_json
      (request (codes "mainnet"))
      prepared
      (codes "[]")
verify_and_sign_payment-IsDisclosed_example =
    verify_and_sign_payment-IsDisclosed toy_hex toy_phrase toy_chain toy_sdk toy_json
      (request (codes "mainnet")) prepared (codes "[]") verify_and_sign_payment_test
