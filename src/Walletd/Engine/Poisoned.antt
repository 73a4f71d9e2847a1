-- ===== src/Walletd/Engine/Poisoned.antt =====
-- What polling does to the log once the engine's lock is poisoned.
use zkas_signer.Prelude.{
  ℕ, zero, suc, ◌+◌, ◌≤◌, ◌≡◌, ◌∙◌, refl, ap, true, false, List, [], ◌∷◌, ◌++◌, length,
  length-append, drop, leb, if◌then◌else◌, arith, All, codes,
}
use zkas_signer.Text.{Str}
use zkas_signer.Walletd.Log.{Level, error_, rank, Record, format_line, log_record}
use zkas_signer.Walletd.Log.Ring.{last, log_all, shown, log_all-last, length-drop}
use zkas_signer.Walletd.Engine.{Engine, own_target, engine_lock, log_line, port}

abbrev pub poison_record : Record
poison_record = record {
  level = error_;
  target = own_target;
  args = codes "engine lock was poisoned by an earlier panic; recovering it";
}

abbrev repeated : ℕ → List Record
repeated zero = []
repeated (suc n) = poison_record ∷ repeated n

All-drop {ℓ κ} :
    {A : Type ℓ} (P : A → Type κ) (k : ℕ) (xs ys : List A)
    → length xs ≤ k
    → All P ys
    → All P (drop k (xs ++ ys))
All-drop P zero [] ys h a = a
All-drop P zero (x ∷ xs) ys h a = absurd (omega arith)
All-drop P (suc k) [] [] h a = tt
All-drop P (suc k) [] (y ∷ ys) h (b, a) = All-drop P k [] ys (omega arith) a
All-drop P (suc k) (x ∷ xs) ys h a = All-drop P k xs ys (omega arith) a

module _ (clock : ℕ → ℕ) where
  -- `n` polls of `port`.
  abbrev pub polls : ℕ → Engine → Engine
  polls zero s = s
  polls (suc n) s = polls n (port clock s).0

  port-poisoned :
      (s : Engine)
      → s.poisoned ≡ true
      → (port clock s).0 ≡ record s { logging = log_record clock poison_record s.logging }
  unfolding port engine_lock log_line
  port-poisoned s h = ap (λ b. if b then log_line clock error_ poison_record.args s else s) h

  polls-logging :
      (n : ℕ) (s : Engine)
      → s.poisoned ≡ true
      → (polls n s).logging ≡ log_all clock (repeated n) s.logging
  polls-logging zero s h = refl
  polls-logging (suc n) s h =
      ap (λ t. (polls n t).logging) (port-poisoned s h)
      ∙ polls-logging n (record s { logging = log_record clock poison_record s.logging }) h

  -- A line that says that the lock was poisoned.
  abbrev pub IsPoisonLine : Str → Type 0
  IsPoisonLine line = (secs : ℕ) × (line ≡ format_line secs poison_record)

  shown-repeated :
      (n reads : ℕ) (level : Level)
      → 1 ≤ rank level
      → (length (shown clock reads level (repeated n)) ≡ n)
        × All IsPoisonLine (shown clock reads level (repeated n))
  shown-repeated zero reads level h = (refl, tt)
  shown-repeated (suc n) reads level h =
      let on : leb 1 (rank level) ≡ true = ground (arith, h) in
      let (size, lines) = shown-repeated n (reads + 1) level h in
      rw on (ap suc size, ((clock reads, refl), lines))

  -- After the lock has been poisoned, each poll of `port` logs a line again: once 3000 polls have
  -- been made, the ring holds nothing but those lines, if it held at most 3000 lines, its logger
  -- is installed, its own lock is not poisoned, and the level lets errors through.
  pub polls-flood :
      (n : ℕ) (s : Engine)
      → s.poisoned ≡ true
      → s.logging.installed ≡ true
      → s.logging.ring_poisoned ≡ false
      → 1 ≤ rank s.logging.max_level
      → length s.logging.ring ≤ 3000
      → 3000 ≤ n
      → (length (polls n s).logging.ring ≡ 3000) × All IsPoisonLine (polls n s).logging.ring
  polls-flood n s h i p l fits many =
      let new = shown clock s.logging.reads s.logging.max_level (repeated n) in
      let (size, lines) = shown-repeated n s.logging.reads s.logging.max_level l in
      let ring : (polls n s).logging.ring ≡ last 3000 (s.logging.ring ++ new) =
        ap (λ t. t.ring) (polls-logging n s h)
        ∙ log_all-last clock (repeated n) s.logging i p fits in
      let total = length-append s.logging.ring new in
      rw ring (
        length-drop _ (s.logging.ring ++ new) ∙ omega (arith, total, size),
        All-drop IsPoisonLine _ s.logging.ring new (omega (arith, total, size)) lines,
      )
