-- ===== src/Signer/Wallet/RoundTrip.antt =====
-- A wallet is restored from its secret: the address it was made with is derived again.
use zkas_signer.Prelude.{
  ◌≡◌, ◌∙◌, refl, List, [], ◌∷◌, ◌++◌, length, All, arith, none, some, Option-cases, Result-cases,
  inl, inr, Result, ok, err,
}
use zkas_signer.Text.{Str, Bytes, IsByte, trim}
use zkas_signer.Crates.Hex.{Hex, HexLaws}
use zkas_signer.Crates.Phrase.{Phrase}
use zkas_signer.Crates.Chain.{Chain}
use zkas_signer.Signer.Error.{Error, csprng_failed}
use zkas_signer.Signer.Secret.{prefix_from, resolve_secret, parse_seed}
use zkas_signer.Signer.Secret.Legacy.{resolve_secret-decode, to_legacy, trim-hexdigit}
use zkas_signer.Signer.Wallet.{Wallet, address_string, try_seeds, new_wallet, address_from_seed}

-- A seed: 32 bytes.
abbrev pub IsSeed : Bytes → Type 0
IsSeed b = (length b ≡ 32) × All IsByte b

-- What `getrandom::fill` writes is a seed, if it does not fail.
abbrev pub IsDraw : Result Bytes Str → Type 0
IsDraw (ok b) = IsSeed b
IsDraw (err e) = Unit

module _ (hex : Hex) (phrase : Phrase) (laws : HexLaws hex) where
  -- The hex form of a seed resolves to the seed.
  pub resolve_secret-encode :
      (b : Bytes) → IsSeed b → resolve_secret hex phrase (hex.encode b) ≡ ok b
  resolve_secret-encode b (n, h) =
      let s = hex.encode b in
      let digits = laws.encode-hexdigit b h in
      let size = laws.length-encode b h in
      let whole : trim s ≡ s = trim-hexdigit s digits in
      resolve_secret-decode hex phrase s b (rw whole (to_legacy s (omega arith) digits))
        (rw whole (laws.decode-encode b h)) n

-- A draw that is no valid spending key: the loop goes on.
abbrev pub IsRejected : Chain → Result Bytes Str → Type 0
IsRejected chain (ok seed) = chain.address_bytes_from_seed seed ≡ none
IsRejected chain (err e) = ⊥

module _ (hex : Hex) (chain : Chain) where
  try_seeds-bad :
      (prefix : chain.Prefix) (seed : Bytes) (draws : List (Result Bytes Str))
      → chain.address_bytes_from_seed seed ≡ none
      → try_seeds hex chain prefix (ok seed ∷ draws) ≡ try_seeds hex chain prefix draws
  unfolding try_seeds
  try_seeds-bad prefix seed draws h = rw (h, try_seeds) refl

  try_seeds-good :
      (prefix : chain.Prefix) (seed raw : Bytes) (draws : List (Result Bytes Str))
      → chain.address_bytes_from_seed seed ≡ some raw
      → try_seeds hex chain prefix (ok seed ∷ draws)
        ≡ some
            (ok (record { seed_hex = hex.encode seed; address = address_string chain prefix raw }))
  unfolding try_seeds
  try_seeds-good prefix seed raw draws h = rw (h, try_seeds) refl

  try_seeds-nil : (prefix : chain.Prefix) → try_seeds hex chain prefix [] ≡ none
  unfolding try_seeds
  try_seeds-nil prefix = refl

  try_seeds-err :
      (prefix : chain.Prefix) (e : Str) (draws : List (Result Bytes Str))
      → try_seeds hex chain prefix (err e ∷ draws) ≡ some (err (csprng_failed e))
  unfolding try_seeds
  try_seeds-err prefix e draws = refl

  -- The seed behind a wallet.
  abbrev MadeFrom : chain.Prefix → Wallet → Type 0
  MadeFrom prefix w =
      (seed : Bytes) × (raw : Bytes) × IsSeed seed
      × (chain.address_bytes_from_seed seed ≡ some raw)
      × (w.seed_hex ≡ hex.encode seed)
      × (w.address ≡ address_string chain prefix raw)

  try_seeds-made :
      (prefix : chain.Prefix) (draws : List (Result Bytes Str)) (w : Wallet)
      → All IsDraw draws
      → try_seeds hex chain prefix draws ≡ some (ok w)
      → MadeFrom prefix w
  try_seeds-made prefix [] w hs e = absurd (cc (try_seeds-nil prefix))
  try_seeds-made prefix (err x ∷ draws) w hs e = absurd (cc (try_seeds-err prefix x draws))
  try_seeds-made prefix (ok seed ∷ draws) w (h, hs) e =
      elim (Option-cases (chain.address_bytes_from_seed seed)) [
        | inl bad ↦ try_seeds-made prefix draws w hs (rw (try_seeds-bad prefix seed draws bad) at e)
        | inr (raw, good) ↦
            let step = try_seeds-good prefix seed raw draws good in
            (seed, raw, h, good, ground (arith, step), ground (arith, step))
      ]

  try_seeds-skip :
      (prefix : chain.Prefix) (skipped rest : List (Result Bytes Str))
      → All (IsRejected chain) skipped
      → try_seeds hex chain prefix (skipped ++ rest) ≡ try_seeds hex chain prefix rest
  try_seeds-skip prefix [] rest h = refl
  try_seeds-skip prefix (err x ∷ skipped) rest (h, hs) = absurd h
  try_seeds-skip prefix (ok seed ∷ skipped) rest (h, hs) =
      try_seeds-bad prefix seed (skipped ++ rest) h ∙ try_seeds-skip prefix skipped rest hs

  try_seeds-none :
      (prefix : chain.Prefix) (draws : List (Result Bytes Str))
      → try_seeds hex chain prefix draws ≡ none
      → All (IsRejected chain) draws
  try_seeds-none prefix [] e = tt
  try_seeds-none prefix (err x ∷ draws) e = absurd (cc (try_seeds-err prefix x draws))
  try_seeds-none prefix (ok seed ∷ draws) e =
      elim (Option-cases (chain.address_bytes_from_seed seed)) [
        | inl bad ↦
            (bad, try_seeds-none prefix draws (rw (try_seeds-bad prefix seed draws bad) at e))
        | inr (raw, good) ↦ absurd (cc (try_seeds-good prefix seed raw draws good))
      ]

  new_wallet-ok :
      (network : Str) (prefix : chain.Prefix) (draws : List (Result Bytes Str))
      → prefix_from chain network ≡ ok prefix
      → new_wallet hex chain network draws ≡ try_seeds hex chain prefix draws
  unfolding new_wallet
  new_wallet-ok network prefix draws h = rw (h, new_wallet) refl

  new_wallet-err :
      (network : Str) (x : Error) (draws : List (Result Bytes Str))
      → prefix_from chain network ≡ err x
      → new_wallet hex chain network draws ≡ some (err x)
  unfolding new_wallet
  new_wallet-err network x draws h = rw (h, new_wallet) refl

  -- Draws that are no valid key change nothing: the outcome is that of the draws after them. And
  -- the loop goes on past all draws only if every one of them is no valid key.
  pub new_wallet-retries :
      (network : Str) (skipped rest : List (Result Bytes Str))
      → All (IsRejected chain) skipped
      → (new_wallet hex chain network (skipped ++ rest) ≡ new_wallet hex chain network rest)
        × (new_wallet hex chain network rest ≡ none → All (IsRejected chain) rest)
  new_wallet-retries network skipped rest h = elim (Result-cases (prefix_from chain network)) [
    | inl (prefix, p) ↦ (
      rw (new_wallet-ok network prefix (skipped ++ rest) p, new_wallet-ok network prefix rest p)
          (try_seeds-skip prefix skipped rest h),
      λ e. try_seeds-none prefix rest (rw (new_wallet-ok network prefix rest p) at e),
    )
    | inr (x, p) ↦ (
      rw (new_wallet-err network x (skipped ++ rest) p, new_wallet-err network x rest p) refl,
      λ e. absurd (cc (new_wallet-err network x rest p)),
    )
  ]

module _ (hex : Hex) (phrase : Phrase) (chain : Chain) where
  pub address_from_seed-ok :
      (secret network : Str) (prefix : chain.Prefix) (key raw : Bytes)
      → prefix_from chain network ≡ ok prefix
      → resolve_secret hex phrase secret ≡ ok key
      → chain.address_bytes_from_seed key ≡ some raw
      → address_from_seed hex phrase chain secret network ≡ ok (address_string chain prefix raw)
  unfolding address_from_seed parse_seed
  address_from_seed-ok secret network prefix key raw p k a = rw (p, k, a) refl

module _ (hex : Hex) (phrase : Phrase) (chain : Chain) (laws : HexLaws hex) where
  -- The seed of a new wallet derives the address of the wallet, on the same network.
  pub new_wallet-restores :
      (network : Str) (draws : List (Result Bytes Str)) (w : Wallet)
      → All IsDraw draws
      → new_wallet hex chain network draws ≡ some (ok w)
      → address_from_seed hex phrase chain w.seed_hex network ≡ ok w.address
  new_wallet-restores network draws w h e = elim (Result-cases (prefix_from chain network)) [
    | inr (x, p) ↦ absurd (cc (new_wallet-err hex chain network x draws p))
    | inl (prefix, p) ↦
        let (seed, raw, is_seed, good, secret, address) =
          try_seeds-made hex chain prefix draws w h
            (rw (new_wallet-ok hex chain network prefix draws p) at e) in
        rw (secret, address)
          (address_from_seed-ok hex phrase chain (hex.encode seed) network prefix seed raw p
            (resolve_secret-encode hex phrase laws seed is_seed) good)
  ]
