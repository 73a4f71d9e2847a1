-- ===== src/Witness/Toys/SdkToy.antt =====
-- A payment SDK that refuses a fee above the ceiling, and JSON texts of one fixed content.
use zkas_signer.Prelude.{List, [], ◌∷◌, Result, ok, err, replicate, leb, if◌then◌else◌, codes}
use zkas_signer.Prelude.Int.{pos}
use zkas_signer.Text.{Str, Bytes}
use zkas_signer.Crates.Payment.{SpendAuthSignature, Sdk}
use zkas_signer.Signer.Payment.{Disc, AlphaReq, PaymentJson}
use zkas_signer.Witness.Toys.HexToy.{toy_hex}

abbrev bundle_of : Bytes → Result Bytes Str
bundle_of [] = err (codes "empty")
bundle_of (b ∷ bs) = ok (b ∷ bs)

abbrev pub toy_signatures : List SpendAuthSignature
toy_signatures = record { action_index = 0; signature = 1 ∷ 2 ∷ [] } ∷ []

abbrev pub toy_sdk : Sdk
toy_sdk = record {
  Bundle = Bytes;
  bundle_from_bytes = bundle_of;
  value_balance = λ b. pos 5;
  version = 1;
  SoftwareSigner = Bytes;
  signer_new = ok;
  verify_and_sign = λ signer genesis intent prepared.
      if leb prepared.claimed.fee intent.max_fee
      then ok toy_signatures
      else err (codes "the fee is above the ceiling");
}

abbrev pub toy_disc : Disc
toy_disc = record {
  spend_value = 9;
  out_value = 4;
  out_recipient = toy_hex.encode (replicate 43 1);
  out_rseed = toy_hex.encode (replicate 32 2);
  rcv = toy_hex.encode (replicate 32 3);
}

abbrev pub toy_alpha : AlphaReq
toy_alpha = record { index = 0; alpha = toy_hex.encode (replicate 32 4) }

abbrev pub toy_json : PaymentJson
toy_json = record {
  read_discs = λ s. ok (toy_disc ∷ []);
  read_alphas = λ s. ok (toy_alpha ∷ []);
  write_sigs = λ sigs. ok (codes "[]");
}
