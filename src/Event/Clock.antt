-- ===== src/Event/Clock.antt =====
-- chat-identity/src/event.rs: `now_ms`, the clock of signing, outside the browser.
use zkas_signer.Prelude.{ℕ, ◌/◌, ◌%◌, ◌^◌, Result, ok, err}
use zkas_signer.Text.{Str}

-- `SystemTime::now().duration_since(UNIX_EPOCH)` is the argument: a number of nanoseconds, or an
-- error if the time is before the epoch. `as u64` keeps the low 64 bits of the milliseconds.
unfoldable pub now_ms : Result ℕ Str → ℕ
now_ms (ok nanos) = nanos / 10 ^ 6 % 2 ^ 64
now_ms (err e) = 0
