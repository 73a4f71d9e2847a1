-- ===== src/Walletd/Engine/Reported.antt =====
-- A panic in the engine is told in the log.
use zkas_signer.Prelude.{
  ℕ, ◌+◌, ◌-◌, ◌≤◌, ◌<◌, ◌≡◌, ◌∙◌, refl, ap, Bool, true, false, not, ◌&&◌, List, [], ◌∷◌, ◌++◌,
  length, length-append, drop, leb, arith, codes,
}
use zkas_signer.Text.{Str, join}
use zkas_signer.Walletd.Log.{
  error_, rank, Record, Logging, format_line, log_record, ring_log, enabled, logs,
}
use zkas_signer.Walletd.Log.Ring.{last, log_all, shown, log_all-last, drop_append_le}
use zkas_signer.Walletd.Engine.{Engine, own_target, log_line, panic}
use zkas_signer.Walletd.Engine.Kept.{either}

-- The record of a panic.
abbrev pub panic_record : Str → Str → Record
panic_record where_ what = record {
  level = error_;
  target = own_target;
  args = codes "ENGINE PANIC at " ++ (where_ ++ (codes ": " ++ what));
}

-- The last lines of a text with more lines after it are the last of the first lines, and those.
last-append {ℓ} :
    {A : Type ℓ} (n : ℕ) (xs ys : List A)
    → length ys ≤ n
    → last n (xs ++ ys) ≡ last (n - length ys) xs ++ ys
last-append n xs ys h =
    ap (λ k. drop (k - n) (xs ++ ys)) (length-append xs ys)
    ∙ drop_append_le (length xs + length ys - n) xs ys (omega (arith, h))
    ∙ ap (λ k. drop k xs ++ ys) (omega (arith, h))

module _ (clock : ℕ → ℕ) where
  panic-logging :
      (holding : Bool) (where_ what : Str) (s : Engine)
      → s.hooked ≡ true
      → (panic clock holding where_ what s).logging
        ≡ log_record clock (panic_record where_ what) s.logging
  unfolding panic log_line
  panic-logging holding where_ what s h = rw h (
      either (λ (t : Engine). t.logging ≡ log_record clock (panic_record where_ what) s.logging)
        holding _ _ refl refl)

  -- No record poisons the lock of the ring.
  log_all-ring_poisoned :
      (rs : List Record) (s : Logging) → (log_all clock rs s).ring_poisoned ≡ s.ring_poisoned
  unfolding log_record ring_log
  log_all-ring_poisoned [] s = refl
  log_all-ring_poisoned (r ∷ rs) s =
      log_all-ring_poisoned rs (log_record clock r s)
      ∙ either (λ (t : Logging). t.ring_poisoned ≡ s.ring_poisoned)
          (s.installed && enabled s r.level) _ s
          (either (λ (t : Logging). t.ring_poisoned ≡ s.ring_poisoned) (not (enabled s r.level)) s _
            refl refl)
          refl

  -- A panic in a thread of the engine, whether or not it holds the lock, is told by `logs` until
  -- 3000 lines have been let through after it: if the hook and the logger are installed, the ring's
  -- lock is not poisoned, the level lets errors through and the ring holds at most 3000 lines, then
  -- after any records of which fewer than 3000 are let through, `logs` gives the last of the older
  -- lines, as many as make 3000 at most with the others, the line of the panic with its place and
  -- message, and the lines of these records.
  pub logs-panic :
      (holding : Bool) (where_ what : Str) (rs : List Record) (s : Engine)
      → s.hooked ≡ true
      → s.logging.installed ≡ true
      → s.logging.ring_poisoned ≡ false
      → 1 ≤ rank s.logging.max_level
      → length s.logging.ring ≤ 3000
      → length (shown clock (s.logging.reads + 1) s.logging.max_level rs) < 3000
      → logs (log_all clock rs (panic clock holding where_ what s).logging)
        ≡ join (codes "\n") (
            last
              (2999 - length (shown clock (s.logging.reads + 1) s.logging.max_level rs))
              s.logging.ring
            ++ (format_line (clock s.logging.reads) (panic_record where_ what)
                ∷ shown clock (s.logging.reads + 1) s.logging.max_level rs))
  unfolding logs
  logs-panic holding where_ what rs s h i p l fits few =
      let line = format_line (clock s.logging.reads) (panic_record where_ what) in
      let new = shown clock (s.logging.reads + 1) s.logging.max_level rs in
      let on : leb 1 (rank s.logging.max_level) ≡ true = ground (arith, l) in
      let all_ = panic_record where_ what ∷ rs in
      let told : shown clock s.logging.reads s.logging.max_level all_ ≡ line ∷ new = rw on refl in
      let ring = log_all-last clock all_ s.logging i p fits in
      let lock = log_all-ring_poisoned all_ s.logging ∙ p in
      let room : 3000 - length (line ∷ new) ≡ 2999 - length new = omega arith in
      let kept : last 3000 (s.logging.ring ++ line ∷ new)
          ≡ last (2999 - length new) s.logging.ring ++ line ∷ new =
        last-append 3000 s.logging.ring (line ∷ new) (omega (arith, few))
        ∙ ap (λ n. last n s.logging.ring ++ line ∷ new) room in
      ap (λ t. logs (log_all clock rs t)) (panic-logging holding where_ what s h)
      ∙ rw (lock, ring, told) (ap (join (codes "\n")) kept)
