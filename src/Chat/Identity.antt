-- ===== src/Chat/Identity.antt =====
-- chat-identity/src/lib.rs: from the user's secret to a Nostr key, by BIP-32.
pub mod Path
pub mod Accounts
use zkas_signer.Prelude.{
  ℕ, ◌+◌, ◌-◌, ◌/◌, ◌%◌, ◌^◌, Bool, true, false, List, [], ◌∷◌, ◌++◌, Option, none, some, length,
  take, drop, leb, ◌==◌, not, if◌then◌else◌, codes, Result, ok, err, ◌>>=◌, map_err, ok_or,
}
use zkas_signer.Text.{Str, Bytes, is_empty, trim, as_bytes}
use zkas_signer.Crates.Hex.{Hex}
use zkas_signer.Crates.Phrase.{Phrase}
use zkas_signer.Crates.Curve.{Curve}
use zkas_signer.Crates.Bech.{Bech, bech32}
use zkas_signer.Signer.Secret.{is_legacy, cleaned}
use zkas_signer.Chat.Error.{
  ChatError, enter_phrase, seed_not_hex, seed_not_32, invalid_phrase, hmac_key, invalid_master,
  scalar_out_of_range, key_is_zero, bad_hrp,
}

abbrev pub hardened : ℕ
hardened = 2 ^ 31

abbrev pub nostr_coin_type : ℕ
nostr_coin_type = 1237

abbrev pub legacy_domain : Bytes
legacy_domain = codes "zkas-chat-identity-v1"

-- `index | HARDENED` on a `u32`: the top bit is set.
unfoldable pub or_hardened : ℕ → ℕ
or_hardened index = if leb hardened index then index else index + hardened

-- `u32::to_be_bytes`
unfoldable pub to_be_bytes : ℕ → Bytes
to_be_bytes n = n / 2 ^ 24 % 256 ∷ n / 2 ^ 16 % 256 ∷ n / 2 ^ 8 % 256 ∷ n % 256 ∷ []

pub record ChatIdentity : Type 0 where
  pub privkey_hex : Str
  pub pubkey_hex : Str
  pub nsec : Str
  pub npub : Str
  pub nip06 : Bool

module _ (phrase : Phrase) where
  unfoldable pub phrase_seed : Str → Result Bytes ChatError
  phrase_seed s = do
    mnemonic ← map_err invalid_phrase (phrase.parse_normalized (cleaned phrase s))
    ok (phrase.to_seed_normalized mnemonic [])

module _ (curve : Curve) where
  unfoldable pub legacy_seed : Bytes → Result Bytes ChatError
  legacy_seed raw = if not (length raw == 32) then err seed_not_32 else (do
    mac ← ok_or hmac_key (curve.mac_new legacy_domain)
    ok (curve.mac_finalize (curve.mac_update mac raw)))

  -- A `Node` is its scalar.
  abbrev pub Node : Type 0
  Node = curve.NonZeroScalar

  unfoldable pub split : Bytes → Option (Node × Bytes)
  split i = elim (curve.from_repr_vartime (take 32 i)) [
    | none ↦ none
    | some scalar ↦ elim (curve.non_zero_new scalar) [
      | none ↦ none
      | some nz ↦ some (nz, take 32 (drop 32 i))
    ]
  ]

  unfoldable pub master : Bytes → Result (Node × Bytes) ChatError
  master seed = do
    mac ← ok_or hmac_key (curve.mac_new (codes "Bitcoin seed"))
    ok_or invalid_master (split (curve.mac_finalize (curve.mac_update mac seed)))

  -- What the MAC of a child is over, before the index.
  unfoldable pub child_data : curve.Mac → Node → ℕ → curve.Mac
  child_data mac parent index =
      if leb hardened index
      then curve.mac_update (curve.mac_update mac (0 ∷ [])) (curve.secret_to_bytes parent)
      else curve.mac_update mac (curve.encoded_point parent)

  unfoldable pub ckd_priv : Node → Bytes → ℕ → Result (Node × Bytes) ChatError
  ckd_priv parent chain index = do
    mac ← ok_or hmac_key (curve.mac_new chain)
    let i = curve.mac_finalize (curve.mac_update (child_data mac parent index) (to_be_bytes index))
    il ← ok_or scalar_out_of_range (curve.from_repr_vartime (take 32 i))
    child ←
        ok_or key_is_zero (curve.non_zero_new (curve.scalar_add il (curve.non_zero_as_ref parent)))
    ok (child, take 32 (drop 32 i))

  -- The loop over the path.
  unfoldable pub walk : Node → Bytes → List ℕ → Result Node ChatError
  walk key chain [] = ok key
  walk key chain (index ∷ path) = do step ← ckd_priv key chain index; walk step.0 step.1 path

  abbrev pub nip06_path : ℕ → List ℕ
  nip06_path account =
      or_hardened 44 ∷ or_hardened nostr_coin_type ∷ or_hardened account ∷ 0 ∷ 0 ∷ []

  unfoldable pub derive_nip06 : Bytes → ℕ → Result Node ChatError
  derive_nip06 seed account = do root ← master seed; walk root.0 root.1 (nip06_path account)

module _ (hex : Hex) (curve : Curve) (bech : Bech) where
  -- `expect("static hrp is valid")` panics if the encoder fails.
  unfoldable pub encode_identity : curve.NonZeroScalar → Bool → Result ChatIdentity ChatError
  encode_identity sk nip06 = do
    let priv_bytes = curve.secret_to_bytes sk
    let pub_bytes = take 32 (drop 1 (curve.encoded_point sk))
    nsec ← map_err (λ e. bad_hrp) (bech.encode (codes "nsec") (bech.to_base32 priv_bytes) bech32)
    npub ← map_err (λ e. bad_hrp) (bech.encode (codes "npub") (bech.to_base32 pub_bytes) bech32)
    ok (record {
      privkey_hex = hex.encode priv_bytes;
      pubkey_hex = hex.encode pub_bytes;
      nsec = nsec;
      npub = npub;
      nip06 = nip06;
    })

module _ (hex : Hex) (phrase : Phrase) (curve : Curve) (bech : Bech) where
  -- The seed of a secret, and whether it is that of a phrase.
  unfoldable pub secret_seed : Str → Result (Bytes × Bool) ChatError
  secret_seed s =
      if is_legacy s
      then (do
        raw ← map_err seed_not_hex (hex.decode s)
        expanded ← legacy_seed curve raw
        ok (expanded, false))
      else (do seed ← phrase_seed phrase s; ok (seed, true))

  unfoldable pub chat_identity : Str → ℕ → Result ChatIdentity ChatError
  chat_identity secret account =
      let s = trim secret in
      if is_empty s then err enter_phrase else (do
        found ← secret_seed s
        sk ← derive_nip06 curve found.0 account
        encode_identity hex curve bech sk found.1)
