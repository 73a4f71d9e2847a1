-- ===== src/Chat/Identity/Path.antt =====
-- The path of a chat identity, m/44'/1237'/account'/0/0 of NIP-06, written out as BIP-32 has it.
use zkas_signer.Prelude.{
  ℕ, ◌+◌, ◌/◌, ◌%◌, ◌^◌, ◌<◌, ◌≡◌, refl, ap, true, false, [], ◌∷◌, leb, if◌then◌else◌, Result, ok,
  err, ◌>>=◌, ok_or, take, drop, arith,
}
use zkas_signer.Text.{Str, Bytes, trim, is_empty}
use zkas_signer.Crates.Hex.{Hex}
use zkas_signer.Crates.Phrase.{Phrase}
use zkas_signer.Crates.Curve.{Curve}
use zkas_signer.Crates.Bech.{Bech}
use zkas_signer.Chat.Error.{ChatError, enter_phrase, hmac_key, scalar_out_of_range, key_is_zero}
use zkas_signer.Chat.Identity.{
  ChatIdentity, or_hardened, to_be_bytes, Node, master, child_data, ckd_priv, walk, derive_nip06,
  secret_seed, encode_identity, chat_identity,
}

-- The big-endian bytes of the hardened index `i'`, for `i` below 2 ^ 31.
abbrev pub hardened_bytes : ℕ → Bytes
hardened_bytes i = (128 + i / 2 ^ 24) ∷ i / 2 ^ 16 % 256 ∷ i / 2 ^ 8 % 256 ∷ i % 256 ∷ []

-- Two chains with equal first steps and equal continuations.
>>=-same {ℓ κ} :
    {A : Type ℓ} {B : Type κ} (r r' : Result A ChatError) (k k' : A → Result B ChatError)
    → r ≡ r'
    → ((x : A) → k x ≡ k' x)
    → (r >>= k) ≡ (r' >>= k')
>>=-same (ok x) r' k k' p h = rw (← p) (h x)
>>=-same (err e) r' k k' p h = rw (← p) refl

module _ (curve : Curve) where
  -- The child that the output of the MAC gives: its scalar is added to the parent's.
  abbrev child_of : Node curve → Bytes → Result (Node curve × Bytes) ChatError
  child_of parent i = do
    il ← ok_or scalar_out_of_range (curve.from_repr_vartime (take 32 i))
    child ←
        ok_or key_is_zero (curve.non_zero_new (curve.scalar_add il (curve.non_zero_as_ref parent)))
    ok (child, take 32 (drop 32 i))

  -- The child `i'`: the MAC, under the chain code, is over a zero, the secret key and the index.
  abbrev hardened_child : ℕ → Node curve × Bytes → Result (Node curve × Bytes) ChatError
  hardened_child i (parent, chain) = do
    mac ← ok_or hmac_key (curve.mac_new chain)
    child_of parent (
        curve.mac_finalize (
          curve.mac_update
            (curve.mac_update (curve.mac_update mac (0 ∷ [])) (curve.secret_to_bytes parent))
            (hardened_bytes i)))

  -- The child `0`: the MAC is over the public key and the index.
  abbrev first_child : Node curve × Bytes → Result (Node curve × Bytes) ChatError
  first_child (parent, chain) = do
    mac ← ok_or hmac_key (curve.mac_new chain)
    child_of parent (
        curve.mac_finalize (
          curve.mac_update (curve.mac_update mac (curve.encoded_point parent))
            (0 ∷ 0 ∷ 0 ∷ 0 ∷ [])))

  -- The key at m/44'/1237'/account'/0/0.
  abbrev path_key : Bytes → ℕ → Result (Node curve) ChatError
  path_key seed account = do
    root ← master curve seed
    purpose ← hardened_child 44 root
    coin ← hardened_child 1237 purpose
    own ← hardened_child account coin
    change ← first_child own
    leaf ← first_child change
    ok leaf.0

  ckd_priv-hardened_child :
      (i : ℕ) (n : Node curve × Bytes)
      → i < 2 ^ 31
      → ckd_priv curve n.0 n.1 (or_hardened i) ≡ hardened_child i n
  unfolding ckd_priv child_data or_hardened
  ckd_priv-hardened_child i n h =
      let low : leb (2 ^ 31) i ≡ false = ground arith in
      let high : leb (2 ^ 31) (i + 2 ^ 31) ≡ true = ground arith in
      let bytes : to_be_bytes (i + 2 ^ 31) ≡ hardened_bytes i =
        unfold to_be_bytes in ground arith in
      rw (low, high, bytes) refl

  ckd_priv-first_child : (n : Node curve × Bytes) → ckd_priv curve n.0 n.1 0 ≡ first_child n
  unfolding ckd_priv child_data to_be_bytes
  ckd_priv-first_child n = refl

  derive_nip06-path_key :
      (seed : Bytes) (account : ℕ)
      → account < 2 ^ 31
      → derive_nip06 curve seed account ≡ path_key seed account
  unfolding derive_nip06 walk
  derive_nip06-path_key seed account h = >>=-same (master curve seed) _ _ _ refl λ root.
      >>=-same (ckd_priv curve root.0 root.1 (or_hardened 44)) _ _ _
        (ckd_priv-hardened_child 44 root (omega arith))
        λ purpose.
          >>=-same (ckd_priv curve purpose.0 purpose.1 (or_hardened 1237)) _ _ _
            (ckd_priv-hardened_child 1237 purpose (omega arith))
            λ coin.
              >>=-same (ckd_priv curve coin.0 coin.1 (or_hardened account)) _ _ _
                (ckd_priv-hardened_child account coin h)
                λ own.
                  >>=-same (ckd_priv curve own.0 own.1 0) _ _ _ (ckd_priv-first_child own) λ change.
                    >>=-same (ckd_priv curve change.0 change.1 0) _ _ _
                      (ckd_priv-first_child change) λ leaf. refl

module _ (hex : Hex) (phrase : Phrase) (curve : Curve) (bech : Bech) where
  -- The identity of a secret at m/44'/1237'/account'/0/0.
  abbrev pub path_identity : Str → ℕ → Result ChatIdentity ChatError
  path_identity secret account =
      let s = trim secret in
      if is_empty s then err enter_phrase else (do
        found ← secret_seed hex phrase curve bech s
        sk ← path_key curve found.0 account
        encode_identity hex curve bech sk found.1)

  pub chat_identity-path_identity :
      (secret : Str) (account : ℕ)
      → account < 2 ^ 31
      → chat_identity hex phrase curve bech secret account ≡ path_identity secret account
  unfolding chat_identity
  chat_identity-path_identity secret account h =
      ap
        (λ (r : Result ChatIdentity ChatError).
          if is_empty (trim secret) then err enter_phrase else r)
        (>>=-same (secret_seed hex phrase curve bech (trim secret)) _ _ _ refl λ found.
          >>=-same (derive_nip06 curve found.0 account) _ _ _
            (derive_nip06-path_key curve found.0 account h) λ sk. refl)
