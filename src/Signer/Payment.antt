-- ===== src/Signer/Payment.antt =====
-- src/lib.rs: `verify_and_sign_payment`, which authorizes what a daemon has prepared.
pub mod Stages
pub mod Authorized
pub mod Endings
pub mod Disclosed
use zkas_signer.Prelude.{
  ℕ, List, [], ◌∷◌, map, ◌==s◌, Result, ok, err, ◌>>=◌, map_err, ok_or, unwrap_or, collect,
  if◌then◌else◌, codes,
}
use zkas_signer.Prelude.Int.{to_u64}
use zkas_signer.Text.{Str, Bytes, trim}
use zkas_signer.Crates.Hex.{Hex}
use zkas_signer.Crates.Phrase.{Phrase}
use zkas_signer.Crates.Chain.{Chain}
use zkas_signer.Crates.Payment.{
  ActionDisclosure, SpendAuthRequest, SpendAuthSignature, PaymentIntent, PreparedPayment, Sdk,
}
use zkas_signer.Signer.Error.{
  Error, invalid_recipient, recipient_not_shielded, network_not_pinned, bundle_not_hex,
  bundle_undecodable, bad_disclosure, bad_spend_auth, refused, unserializable,
}
use zkas_signer.Signer.Secret.{parse_seed, parse32, parse43}

abbrev pub mainnet_genesis : Bytes
mainnet_genesis =
    0xb6 ∷ 0x3f ∷ 0x7f ∷ 0xe8 ∷ 0xe5 ∷ 0x04 ∷ 0x02 ∷ 0xaf ∷ 0x34 ∷ 0x79 ∷ 0x02 ∷ 0x65 ∷ 0xe2 ∷ 0x99
    ∷ 0xbb ∷ 0x1b ∷ 0xa6 ∷ 0x3e ∷ 0x94 ∷ 0x3b ∷ 0x91 ∷ 0xa5 ∷ 0x9a ∷ 0x67 ∷ 0x0e ∷ 0x59 ∷ 0x71
    ∷ 0xb7 ∷ 0xa9 ∷ 0xe8 ∷ 0x4e ∷ 0x6f ∷ []

abbrev pub payment_tx_context : Bytes
payment_tx_context =
    0x02 ∷ 0x00 ∷ 0x00 ∷ 0x00 ∷ 0x00 ∷ 0x00 ∷ 0x00 ∷ 0x00 ∷ 0x00 ∷ 0x00 ∷ 0x00 ∷ 0x00 ∷ 0x00 ∷ 0x00
    ∷ 0x00 ∷ 0x00 ∷ 0x00 ∷ 0x00 ∷ 0x00 ∷ 0x00 ∷ 0x00 ∷ 0x00 ∷ 0x00 ∷ 0x00 ∷ 0x00 ∷ 0x00 ∷ 0x00
    ∷ 0x00 ∷ 0x00 ∷ 0x00 ∷ 0x00 ∷ 0x00 ∷ 0x00 ∷ 0x00 ∷ 0x00 ∷ 0x00 ∷ 0x00 ∷ 0x00 ∷ []

-- The structs that the JSON texts are read into and written from.
pub record Disc : Type 0 where
  pub spend_value : ℕ
  pub out_value : ℕ
  pub out_recipient : Str
  pub out_rseed : Str
  pub rcv : Str

pub record AlphaReq : Type 0 where
  pub index : ℕ
  pub alpha : Str

pub record SigOut : Type 0 where
  pub index : ℕ
  pub sig : Str

-- `serde_json::from_str` and `to_string` at these structs, whose code is derived.
pub record PaymentJson : Type 0 where
  pub read_discs : Str → Result (List Disc) Str
  pub read_alphas : Str → Result (List AlphaReq) Str
  pub write_sigs : List SigOut → Result Str Str

-- What the user asks for.
pub record Request : Type 0 where
  pub seed_hex : Str
  pub network : Str
  pub to_address : Str
  pub amount_sompi : ℕ
  pub max_fee_sompi : ℕ

-- What the daemon returns.
pub record Prepared : Type 0 where
  pub bundle_hex : Str
  pub disclosure_json : Str
  pub alphas_json : Str

module _ (hex : Hex) where
  unfoldable pub to_disclosure : Disc → Result ActionDisclosure Error
  to_disclosure d = do
    out_recipient ← parse43 hex d.out_recipient (codes "out_recipient")
    out_rseed ← parse32 hex d.out_rseed (codes "out_rseed")
    rcv ← parse32 hex d.rcv (codes "rcv")
    ok (record {
      spend_value = d.spend_value;
      out_value = d.out_value;
      out_recipient = out_recipient;
      out_rseed = out_rseed;
      rcv = rcv;
    })

  unfoldable pub to_request : AlphaReq → Result SpendAuthRequest Error
  to_request r = do
    alpha ← parse32 hex r.alpha (codes "alpha")
    ok (record { action_index = r.index; alpha = alpha })

  unfoldable pub to_sig_out : SpendAuthSignature → SigOut
  to_sig_out s = record { index = s.action_index; sig = hex.encode s.signature }

-- `match network`: only mainnet is pinned.
unfoldable pub pinned_genesis : Str → Result Bytes Error
pinned_genesis network =
    if network ==s codes "mainnet" then ok mainnet_genesis else err (network_not_pinned network)

-- The intent that is checked: the user's recipient, amount and ceiling.
unfoldable pub intent_of : Bytes → Request → PaymentIntent
intent_of to r = record { recipient = to; amount = r.amount_sompi; max_fee = r.max_fee_sompi }

module _ (sdk : Sdk) where
  -- The payment that is checked: the claims are the user's own, and the fee is what the bundle pays.
  unfoldable pub prepared_of :
      Bytes
      → Bytes
      → ℕ
      → sdk.Bundle
      → List ActionDisclosure
      → List SpendAuthRequest
      → PreparedPayment sdk.Bundle
  prepared_of genesis to amount bundle disclosure spend_auth = record {
    version = sdk.version;
    network_domain = genesis;
    tx_context = payment_tx_context;
    bundle = bundle;
    disclosure = disclosure;
    spend_auth = spend_auth;
    claimed = record {
      recipient = to;
      amount = amount;
      fee = unwrap_or 0 (to_u64 (sdk.value_balance bundle));
    };
  }

module _ (hex : Hex) (phrase : Phrase) (chain : Chain) where
  -- The user's side: the seed, the recipient's bytes and the pinned genesis.
  unfoldable pub read_request : Request → Result (Bytes × Bytes × Bytes) Error
  read_request r = do
    seed ← parse_seed hex phrase r.seed_hex
    to_addr ← map_err invalid_recipient (chain.address_try_from (trim r.to_address))
    to ← ok_or recipient_not_shielded (chain.orchard_recipient_bytes to_addr)
    genesis ← pinned_genesis r.network
    ok (seed, to, genesis)

module _ (hex : Hex) (sdk : Sdk) (json : PaymentJson) where
  -- The daemon's side: the bundle, its disclosures and the signatures that are asked for.
  unfoldable pub read_prepared :
      Prepared → Result (sdk.Bundle × List ActionDisclosure × List SpendAuthRequest) Error
  read_prepared p = do
    bundle_bytes ← map_err (λ e. bundle_not_hex) (hex.decode (trim p.bundle_hex))
    bundle ← map_err bundle_undecodable (sdk.bundle_from_bytes bundle_bytes)
    discs ← map_err bad_disclosure (json.read_discs p.disclosure_json)
    disclosure ← collect (to_disclosure hex) discs
    reqs ← map_err bad_spend_auth (json.read_alphas p.alphas_json)
    spend_auth ← collect (to_request hex) reqs
    ok (bundle, disclosure, spend_auth)

  -- The SDK's check and its signatures, as text.
  unfoldable pub authorize :
      Request
      → Bytes × Bytes × Bytes
      → sdk.Bundle × List ActionDisclosure × List SpendAuthRequest
      → Result Str Error
  authorize r (seed, to, genesis) (bundle, disclosure, spend_auth) = do
    signer ← map_err refused (sdk.signer_new seed)
    signatures ← map_err refused (
        sdk.verify_and_sign signer genesis (intent_of to r)
          (prepared_of sdk genesis to r.amount_sompi bundle disclosure spend_auth))
    map_err unserializable (json.write_sigs (map (to_sig_out hex) signatures))

module _ (hex : Hex) (phrase : Phrase) (chain : Chain) (sdk : Sdk) (json : PaymentJson) where
  unfoldable pub verify_and_sign_payment : Request → Prepared → Result Str Error
  verify_and_sign_payment r p = do
    asked ← read_request hex phrase chain r
    given ← read_prepared hex sdk json p
    authorize hex sdk json r asked given
