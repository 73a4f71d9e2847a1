-- ===== src/Signer/Payment/Disclosed.antt =====
-- What the daemon disclosed, as it is handed to the SDK: nothing is dropped, nothing is resized.
use zkas_signer.Prelude.{
  ℕ, ◌≡◌, ◌∙◌, refl, sym, ap, List, [], ◌∷◌, map, length, some, Result, ok, map_err, collect, codes,
  >>=-eq-ok, map_err-eq-ok, ok_or-eq-ok, ok-injective, arith,
}
use mathlib.Core.Path.{subst}
use zkas_signer.Text.{Str, Bytes, trim}
use zkas_signer.Crates.Hex.{Hex}
use zkas_signer.Crates.Phrase.{Phrase}
use zkas_signer.Crates.Chain.{Chain}
use zkas_signer.Crates.Payment.{
  ActionDisclosure, SpendAuthRequest, SpendAuthSignature, PaymentIntent, PreparedPayment, Sdk,
}
use zkas_signer.Signer.Error.{not_hex, not_valid_hex}
use zkas_signer.Signer.Secret.{to_array, parse32, parse43, resolve_secret}
use zkas_signer.Signer.Payment.{
  Disc, AlphaReq, SigOut, PaymentJson, Request, Prepared, mainnet_genesis, to_disclosure,
  to_request, to_sig_out, verify_and_sign_payment,
}
use zkas_signer.Signer.Payment.Authorized.{verify_and_sign_payment-eq-ok}

-- Two lists whose items correspond in their order.
pub data Pairs {ℓ κ} {A : Type ℓ} {B : Type κ} (R : A → B → Type 0)
    : List A → List B → Type (ℓ ⊔ κ) where
  none_left : Pairs R [] []
  pair :
      {x : A} {y : B} {xs : List A} {ys : List B}
      → R x y
      → Pairs R xs ys
      → Pairs R (x ∷ xs) (y ∷ ys)

collect-Pairs {ℓ κ} :
    {A : Type ℓ} {B : Type κ} {E : Type 0} (R : A → B → Type 0) (f : A → Result B E)
    → ((x : A) (y : B) → f x ≡ ok y → R x y)
    → (xs : List A) (ys : List B) → collect f xs ≡ ok ys
    → Pairs R xs ys
unfolding collect
collect-Pairs R f each [] ys h = subst (Pairs R []) (ok-injective h) none_left
collect-Pairs R f each (x ∷ xs) ys h =
    let (y, first, h1) = >>=-eq-ok (f x) _ h in
    let (zs, rest, h2) = >>=-eq-ok (collect f xs) _ h1 in
    subst (Pairs R (x ∷ xs)) (ok-injective h2)
      (pair (each x y first) (collect-Pairs R f each xs zs rest))

to_array-eq-some : (n : ℕ) (b c : Bytes) → to_array n b ≡ some c → (c ≡ b) × (length c ≡ n)
unfolding to_array
to_array-eq-some n b c h = ground arith

module _ (hex : Hex) where
  -- A hex field of a fixed length and its bytes.
  abbrev pub IsField : ℕ → Str → Bytes → Type 0
  IsField n s b = (hex.decode (trim s) ≡ ok b) × (length b ≡ n)

  parse32-IsField : (s what : Str) (b : Bytes) → parse32 hex s what ≡ ok b → IsField 32 s b
  unfolding parse32
  parse32-IsField s what b h =
      let (bytes, decoded, h1) = >>=-eq-ok (map_err (not_hex what) (hex.decode (trim s))) _ h in
      let (same, size) = to_array-eq-some 32 bytes b (ok_or-eq-ok _ _ h1) in
      (map_err-eq-ok _ _ decoded ∙ ap ok (sym same), size)

  parse43-IsField : (s name : Str) (b : Bytes) → parse43 hex s name ≡ ok b → IsField 43 s b
  unfolding parse43
  parse43-IsField s name b h =
      let (bytes, decoded, h1) =
        >>=-eq-ok (map_err (λ (e : Str). not_valid_hex name) (hex.decode (trim s))) _ h in
      let (same, size) = to_array-eq-some 43 bytes b (ok_or-eq-ok _ _ h1) in
      (map_err-eq-ok _ _ decoded ∙ ap ok (sym same), size)

  -- A disclosed action, and a request for a signature, as they were sent.
  abbrev IsDisclosed : Disc → ActionDisclosure → Type 0
  IsDisclosed d a =
      (a.spend_value ≡ d.spend_value)
      × (a.out_value ≡ d.out_value)
      × IsField 43 d.out_recipient a.out_recipient
      × IsField 32 d.out_rseed a.out_rseed
      × IsField 32 d.rcv a.rcv

  abbrev IsRequested : AlphaReq → SpendAuthRequest → Type 0
  IsRequested r q = (q.action_index ≡ r.index) × IsField 32 r.alpha q.alpha

  -- A signature as it is written.
  abbrev IsAnswered : SpendAuthSignature → SigOut → Type 0
  IsAnswered s o = (o.index ≡ s.action_index) × (o.sig ≡ hex.encode s.signature)

  to_sig_out-IsAnswered :
      (ss : List SpendAuthSignature) → Pairs IsAnswered ss (map (to_sig_out hex) ss)
  unfolding to_sig_out
  to_sig_out-IsAnswered [] = none_left
  to_sig_out-IsAnswered (s ∷ ss) = pair (refl, refl) (to_sig_out-IsAnswered ss)

  to_disclosure-IsDisclosed :
      (d : Disc) (a : ActionDisclosure) → to_disclosure hex d ≡ ok a → IsDisclosed d a
  unfolding to_disclosure
  to_disclosure-IsDisclosed d a h =
      let (to, h1, e1) = >>=-eq-ok (parse43 hex d.out_recipient (codes "out_recipient")) _ h in
      let (rseed, h2, e2) = >>=-eq-ok (parse32 hex d.out_rseed (codes "out_rseed")) _ e1 in
      let (rcv, h3, e3) = >>=-eq-ok (parse32 hex d.rcv (codes "rcv")) _ e2 in
      rw (← ok-injective e3) (
        refl,
        refl,
        parse43-IsField _ _ to h1,
        parse32-IsField _ _ rseed h2,
        parse32-IsField _ _ rcv h3,
      )

  to_request-IsRequested :
      (r : AlphaReq) (q : SpendAuthRequest) → to_request hex r ≡ ok q → IsRequested r q
  unfolding to_request
  to_request-IsRequested r q h =
      let (alpha, h1, e1) = >>=-eq-ok (parse32 hex r.alpha (codes "alpha")) _ h in
      rw (← ok-injective e1) (refl, parse32-IsField _ _ alpha h1)

  -- The disclosures and the requests that are converted are handed on one for one and in their order,
  -- with the numbers as sent and each hex field decoded at exactly its length: 43 bytes for a
  -- recipient and 32 for the others.
  collect-IsDisclosed :
      (discs : List Disc) (disclosure : List ActionDisclosure) (reqs : List AlphaReq)
      (spend_auth : List SpendAuthRequest)
      → collect (to_disclosure hex) discs ≡ ok disclosure
      → collect (to_request hex) reqs ≡ ok spend_auth
      → Pairs IsDisclosed discs disclosure × Pairs IsRequested reqs spend_auth
  collect-IsDisclosed discs disclosure reqs spend_auth h k = (
    collect-Pairs IsDisclosed (to_disclosure hex) to_disclosure-IsDisclosed discs disclosure h,
    collect-Pairs IsRequested (to_request hex) to_request-IsRequested reqs spend_auth k,
  )

module _ (hex : Hex) (phrase : Phrase) (chain : Chain) (sdk : Sdk) (json : PaymentJson) where
  -- The items of the daemon's texts, the payment that the SDK is asked to sign, and its answer.
  pub record Handed (r : Request) (p : Prepared) (out : Str) : Type 0 where
    pub discs : List Disc
    pub reqs : List AlphaReq
    pub bundle_bytes : Bytes
    pub seed : Bytes
    pub signer : sdk.SoftwareSigner
    pub intent : PaymentIntent
    pub payment : PreparedPayment sdk.Bundle
    pub signatures : List SpendAuthSignature
    pub outs : List SigOut
    pub discs_read : json.read_discs p.disclosure_json ≡ ok discs
    pub reqs_read : json.read_alphas p.alphas_json ≡ ok reqs
    pub bundle_read :
        (hex.decode (trim p.bundle_hex) ≡ ok bundle_bytes)
        × (sdk.bundle_from_bytes bundle_bytes ≡ ok payment.bundle)
    pub unlocked :
        (resolve_secret hex phrase r.seed_hex ≡ ok seed) × (sdk.signer_new seed ≡ ok signer)
    pub own_intent : (intent.amount ≡ r.amount_sompi) × (intent.max_fee ≡ r.max_fee_sompi)
    pub consented : sdk.verify_and_sign signer mainnet_genesis intent payment ≡ ok signatures
    pub all_disclosed : Pairs (IsDisclosed hex) discs payment.disclosure
    pub all_requested : Pairs (IsRequested hex) reqs payment.spend_auth
    pub all_answered : Pairs (IsAnswered hex) signatures outs
    pub written : json.write_sigs outs ≡ ok out

  -- If a payment is authorized, the SDK has signed, with a signer of the user's secret and for the
  -- user's amount and fee ceiling, a payment that has the bundle of the daemon's hex and the
  -- disclosures and the requests of its two texts, one for one and in their order, with the numbers
  -- as sent and each hex field decoded at exactly its length, 43 bytes for a recipient and 32 for the
  -- others; and the result is the text of the SDK's signatures, one for one and in their order, each
  -- with its index and the hex of its bytes.
  pub verify_and_sign_payment-IsDisclosed :
      (r : Request) (p : Prepared) (out : Str)
      → verify_and_sign_payment hex phrase chain sdk json r p ≡ ok out
      → Handed r p out
  verify_and_sign_payment-IsDisclosed r p out e =
      let a = (verify_and_sign_payment-eq-ok hex phrase chain sdk json r p out).0 e in
      let (disclosed, requested) =
        collect-IsDisclosed hex a.discs a.disclosure a.reqs a.spend_auth a.disclosed a.requested in
      record {
        discs = a.discs;
        reqs = a.reqs;
        bundle_bytes = a.bundle_bytes;
        seed = a.seed;
        signer = a.signer;
        intent = _;
        payment = _;
        signatures = a.signatures;
        outs = map (to_sig_out hex) a.signatures;
        discs_read = a.discs_read;
        reqs_read = a.reqs_read;
        bundle_read = (a.bundle_hexed, a.bundle_decoded);
        unlocked = (a.own_seed, a.unlocked);
        own_intent = (refl, refl);
        consented = a.consented;
        all_disclosed = disclosed;
        all_requested = requested;
        all_answered = to_sig_out-IsAnswered hex a.signatures;
        written = a.written;
      }
