-- ===== src/Event/Mine/Unreachable.antt =====
-- A difficulty that no id can have: only the clock ends mining.
use zkas_signer.Prelude.{
  none, refl, ℕ, ◌+◌, ◌-◌, ◌*◌, ◌^◌, ◌≤◌, ◌<◌, ◌≡◌, ◌≢◌, List, some, err, length, arith, inl, inr,
  Result, ok, Result-cases, Option-cases,
}
use zkas_signer.Text.{Str, Bytes}
use zkas_signer.Event.Canonical.{Tag}
use zkas_signer.Event.Difficulty.Bits.{leading_zero_bits-le}
use zkas_signer.Event.Id.{event_id}
use zkas_signer.Event.Clock.{now_ms}
use zkas_signer.Event.Mine.{gave_up, mine}
use zkas_signer.Event.Mine.Outcome.{mine-Mined, mine-late, mine-ends}

module _ (sha256 : Bytes → Bytes) (fuel : ℕ) (pubkey : Str) (created_at kind : ℕ) (tags : List Tag)
    (content : Str) (difficulty max_ms : ℕ) where
  -- No id that is mined has more than 256 zeros.
  never_mined :
      (clock : ℕ → ℕ) (found : List Tag × Bytes)
      → ((b : Bytes) → length (sha256 b) ≡ 32)
      → 256 < difficulty
      → fuel ≤ 2 ^ 64
      → mine sha256 fuel pubkey created_at kind tags content difficulty max_ms clock
        ≢ some (ok found)
  never_mined clock found wide hard bound e =
      let (nonce, tagged, hashed, meets, first) =
        mine-Mined sha256 fuel pubkey created_at kind tags content difficulty max_ms clock found.0
          found.1 bound e in
      let short = leading_zero_bits-le found.1 in
      let size : length found.1 ≡ 32 = rw hashed (unfold event_id in wide _) in
      omega (arith, short, size, meets, hard)

  -- With a hash of 32 bytes and a difficulty of more than 256, mining, with fuel for more than
  -- `8192 * k` and at most 2 ^ 64 nonces, gives up with the error of its time limit, if the
  -- reading `k + 1` of the clock is more than `max_ms` after the first: it neither succeeds, nor
  -- runs on, nor panics.
  pub mine-unreachable :
      (clock : ℕ → ℕ) (k : ℕ)
      → ((b : Bytes) → length (sha256 b) ≡ 32)
      → 256 < difficulty
      → max_ms < clock (k + 1) - clock 0
      → 8192 * k < fuel
      → fuel ≤ 2 ^ 64
      → mine sha256 fuel pubkey created_at kind tags content difficulty max_ms clock
        ≡ some (err (gave_up max_ms difficulty))
  mine-unreachable clock k wide hard late enough bound =
      let run = mine sha256 fuel pubkey created_at kind tags content difficulty max_ms clock in
      elim (Option-cases run) [
        | inl stuck ↦ absurd (
            mine-ends sha256 fuel pubkey created_at kind tags content difficulty max_ms clock k late
              enough bound stuck)
        | inr (r, e) ↦ elim (Result-cases r) [
          | inl (found, e1) ↦ absurd (never_mined clock found wide hard bound (cc))
          | inr (refused, e1) ↦
              let (same, slow) =
                mine-late sha256 fuel pubkey created_at kind tags content difficulty max_ms clock
                  refused bound (cc) in
              cc
        ]
      ]

  -- With a hash of 32 bytes and a difficulty of more than 256, mining by the clock `now_ms` on a
  -- system whose every reading of the time is before the epoch is still grinding after any number
  -- of nonces up to 2 ^ 64: the time limit never ends it.
  pub mine-before_epoch :
      (times : ℕ → Result ℕ Str)
      → ((b : Bytes) → length (sha256 b) ≡ 32)
      → 256 < difficulty
      → ((i : ℕ) → (e : Str) × (times i ≡ err e))
      → fuel ≤ 2 ^ 64
      → mine sha256 fuel pubkey created_at kind tags content difficulty max_ms
          (λ i. now_ms (times i))
        ≡ none
  mine-before_epoch times wide hard early bound =
      let clock : ℕ → ℕ = λ i. now_ms (times i) in
      let run = mine sha256 fuel pubkey created_at kind tags content difficulty max_ms clock in
      elim (Option-cases run) [
        | inl grinding ↦ grinding
        | inr (r, e) ↦ elim (Result-cases r) [
          | inl (found, e1) ↦ absurd (never_mined clock found wide hard bound (cc))
          | inr (refused, e1) ↦
              let (same, (i, later, slow)) =
                mine-late sha256 fuel pubkey created_at kind tags content difficulty max_ms clock
                  refused bound (cc) in
              let stopped : now_ms (times i) ≡ 0 = rw (early i).1 (unfold now_ms in refl) in
              absurd (omega (arith, slow, stopped))
        ]
      ]
