-- ===== src/Walletd/Engine/Kept.antt =====
-- What logging, the lock, a panic and `stop` keep: the counts of the servers and the ring's bound.
use zkas_signer.Prelude.{
  ℕ, ◌+◌, ◌≤◌, ◌≡◌, refl, ap, Bool, true, false, List, [], ◌∷◌, Option, none, some, length,
  if◌then◌else◌, ltb, arith,
}
use zkas_signer.Text.{Str}
use zkas_signer.Walletd.Log.{Level, Record, Logging, format_line, ring_log, log_record}
use zkas_signer.Walletd.Log.Ring.{length-push_line}
use zkas_signer.Walletd.Engine.{
  Running, Effect, served, shutdown_sent, runtime_shut, memory_released, Engine, log_line,
  engine_lock, panic, log_resident, stop_at, stop,
}

-- Servers that were spawned, and those that were told to shut down.
abbrev pub count_served : List Effect → ℕ
count_served [] = 0
count_served (served c ∷ es) = 1 + count_served es
count_served (shutdown_sent ∷ es) = count_served es
count_served (runtime_shut n ∷ es) = count_served es
count_served (memory_released ∷ es) = count_served es

abbrev pub count_shut : List Effect → ℕ
count_shut [] = 0
count_shut (served c ∷ es) = count_shut es
count_shut (shutdown_sent ∷ es) = 1 + count_shut es
count_shut (runtime_shut n ∷ es) = count_shut es
count_shut (memory_released ∷ es) = count_shut es

abbrev pub is_running : Option Running → ℕ
is_running none = 0
is_running (some r) = 1

pub either {ℓ κ} :
    {A : Type ℓ} (P : A → Type κ) (b : Bool) (x y : A) → P x → P y → P (if b then x else y)
either P true x y px py = px
either P false x y px py = py

pub either_by {ℓ κ} :
    {A : Type ℓ} (P : A → Type κ) (b : Bool) (x y : A)
    → (b ≡ true → P x)
    → (b ≡ false → P y)
    → P (if b then x else y)
either_by P true x y px py = px refl
either_by P false x y px py = py refl

-- As many servers were spawned as were told to shut down, and one more if the engine runs; and the
-- ring is within its capacity.
abbrev pub IsSound : Engine → Type 0
IsSound s =
    (count_served s.effects ≡ count_shut s.effects + is_running s.engine)
    × (length s.logging.ring ≤ 3000)

module _ (clock : ℕ → ℕ) where
  -- Logging touches the logging alone, and keeps the ring within its capacity.
  pub log_record-ring :
      (r : Record) (s : Logging) → length s.ring ≤ 3000 → length (log_record clock r s).ring ≤ 3000
  unfolding log_record ring_log
  log_record-ring r s h =
      let kept = length-push_line s.ring (format_line (clock s.reads) r) in ground (arith, kept)

  pub log_line-IsSound :
      (l : Level) (args : Str) (s : Engine) → IsSound s → IsSound (log_line clock l args s)
  unfolding log_line
  log_line-IsSound l args s (h, k) = (h, log_record-ring _ s.logging k)

  pub engine_lock-IsSound : (s : Engine) → IsSound s → IsSound (engine_lock clock s)
  unfolding engine_lock
  engine_lock-IsSound s h = either IsSound s.poisoned _ s (log_line-IsSound _ _ s h) h

  -- Taking the lock changes neither the engine nor the world.
  pub engine_lock-engine :
      (s : Engine)
      → ((engine_lock clock s).engine ≡ s.engine)
        × ((engine_lock clock s).effects ≡ s.effects)
        × ((engine_lock clock s).mem_budget_mb ≡ s.mem_budget_mb)
  unfolding engine_lock log_line
  engine_lock-engine s =
      either
        (λ t. (t.engine ≡ s.engine) × (t.effects ≡ s.effects) × (t.mem_budget_mb ≡ s.mem_budget_mb))
        s.poisoned _ s (refl, refl, refl) (refl, refl, refl)

  pub log_resident-IsSound : (s : Engine) → IsSound s → IsSound (log_resident clock s)
  unfolding log_resident
  log_resident-IsSound s h = either IsSound (ltb 0 s.mem_budget_mb) _ s (log_line-IsSound _ _ s h) h

  pub log_resident-engine :
      (s : Engine)
      → ((log_resident clock s).engine ≡ s.engine) × ((log_resident clock s).effects ≡ s.effects)
  unfolding log_resident log_line
  log_resident-engine s =
      either (λ t. (t.engine ≡ s.engine) × (t.effects ≡ s.effects)) (ltb 0 s.mem_budget_mb) _ s
        (refl, refl) (refl, refl)

  pub panic-IsSound :
      (holding : Bool) (where_ what : Str) (s : Engine)
      → IsSound s
      → IsSound (panic clock holding where_ what s)
  unfolding panic
  panic-IsSound holding where_ what s h =
      let told = either IsSound s.hooked _ s (log_line-IsSound _ _ s h) h in
      either IsSound holding _ _ told told

  stop_at-IsSound :
      (o : Option Running) (s : Engine) → s.engine ≡ o → IsSound s → IsSound (stop_at clock o s)
  unfolding stop_at
  stop_at-IsSound none s e h = h
  stop_at-IsSound (some r) s e (sound, fits) = (omega (arith, sound, ap is_running e), fits)

  pub stop-IsSound : (s : Engine) → IsSound s → IsSound (stop clock s)
  unfolding stop
  stop-IsSound s h = stop_at-IsSound _ (engine_lock clock s) refl (engine_lock-IsSound s h)

  stop_at-engine :
      (o : Option Running) (s : Engine) → s.engine ≡ o → (stop_at clock o s).engine ≡ none
  unfolding stop_at
  stop_at-engine none s e = e
  stop_at-engine (some r) s e = refl

  pub stop-engine : (s : Engine) → (stop clock s).engine ≡ none
  unfolding stop
  stop-engine s = stop_at-engine _ (engine_lock clock s) refl
