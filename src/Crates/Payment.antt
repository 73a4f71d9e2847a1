-- ===== src/Crates/Payment.antt =====
-- The payment SDK (`zkas_signer`), the bundle decoder of the shielded core, and the JSON texts of a
-- payment (`serde_json`).
use zkas_signer.Prelude.{ℕ, List, Result}
use zkas_signer.Prelude.Int.{ℤ}
use zkas_signer.Text.{Str, Bytes}

pub record ActionDisclosure : Type 0 where
  pub spend_value : ℕ
  pub out_value : ℕ
  pub out_recipient : Bytes
  pub out_rseed : Bytes
  pub rcv : Bytes

pub record SpendAuthRequest : Type 0 where
  pub action_index : ℕ
  pub alpha : Bytes

pub record SpendAuthSignature : Type 0 where
  pub action_index : ℕ
  pub signature : Bytes

pub record ClaimedIntent : Type 0 where
  pub recipient : Bytes
  pub amount : ℕ
  pub fee : ℕ

pub record PaymentIntent : Type 0 where
  pub recipient : Bytes
  pub amount : ℕ
  pub max_fee : ℕ

pub record PreparedPayment (Bundle : Type 0) : Type 0 where
  pub version : ℕ
  pub network_domain : Bytes
  pub tx_context : Bytes
  pub bundle : Bundle
  pub disclosure : List ActionDisclosure
  pub spend_auth : List SpendAuthRequest
  pub claimed : ClaimedIntent

pub record Sdk : Type 1 where
  pub Bundle : Type 0
  pub bundle_from_bytes : Bytes → Result Bundle Str
  pub value_balance : Bundle → ℤ
  pub version : ℕ
  pub SoftwareSigner : Type 0
  pub signer_new : Bytes → Result SoftwareSigner Str
  pub verify_and_sign :
      SoftwareSigner
      → Bytes
      → PaymentIntent
      → PreparedPayment Bundle
      → Result (List SpendAuthSignature) Str
