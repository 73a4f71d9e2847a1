-- ===== src/Witness/Engines.antt =====
-- The wallet engine on the phone at concrete inputs.
use zkas_signer.Prelude.{
  ℕ, ◌+◌, ◌*◌, ◌≤◌, ◌<◌, ◌≡◌, ◌⊎◌, true, false, refl, List, [], ◌∷◌, ◌++◌, some, none, codes, arith,
  All, length,
}
use zkas_signer.Text.{join, to_string}
use zkas_signer.Walletd.Log.{info, debug, error_, Record, Logging, format_line, logs}
use zkas_signer.Walletd.Log.Ring.{last, log_all, shown, log_all-last}
use zkas_signer.Walletd.Config.{ResourceLimits, StartArgs, resident_wallets}
use zkas_signer.Walletd.Config.Residency.{resident_wallets-fits}
use zkas_signer.Walletd.Engine.{Engine, Answers, start, stop, release_memory, panic}
use zkas_signer.Walletd.Engine.Kept.{IsSound}
use zkas_signer.Walletd.Engine.Runs.{Reach, started, stopped, released, here, then_, Reach-IsSound}
use zkas_signer.Walletd.Engine.Trace.{IsTraced, quiet, Reach-IsTraced}
use zkas_signer.Walletd.Engine.Reported.{panic_record, logs-panic}
use zkas_signer.Walletd.Engine.Poisoned.{polls, IsPoisonLine, polls-flood}
use zkas_signer.Walletd.Engine.Refines.{
  Call, starts, stops, polls_port, panics, releases, spec_call, run, view, engine_call,
  run-spec_call,
}

resident_wallets-fits_example :
    (1 ≤ resident_wallets 1024)
    × (0 < 1024
        → ((resident_wallets 1024 ≡ 1) ⊎ (192 * resident_wallets 1024 * 2 ≤ 1024))
          × (1024 < 192 * (resident_wallets 1024 + 1) * 2))
resident_wallets-fits_example = resident_wallets-fits 1024

abbrev clock : ℕ → ℕ
clock i = 1700000000 + i

abbrev logging : Logging
logging = record {
  ring = codes "first" ∷ [];
  ring_poisoned = false;
  logger_set = true;
  installed = true;
  max_level = info;
  reads = 0;
}

abbrev records : List Record
records =
    record { level = debug; target = codes "sync"; args = codes "page 1" }
    ∷ record { level = error_; target = codes "sync"; args = codes "no route" }
    ∷ []

log_all-last_example :
    (log_all clock records logging).ring
    ≡ last 3000 ((codes "first" ∷ []) ++ shown clock 0 info records)
log_all-last_example = log_all-last clock records logging refl refl (omega arith)

abbrev engine : Engine
engine = record {
  engine = none;
  poisoned = false;
  mem_budget_mb = 512;
  hooked = false;
  logging = logging;
  effects = [];
}

abbrev limits : ResourceLimits
limits = record {
  page_decode_threads = 8;
  sync_wallets = 4;
  load_wallets = 4;
  max_resident_wallets = 4;
  warm_wallets = 4;
  prefetch_depth = 1;
  page_cache_ttl_secs = 20;
  page_cache_entries = 256;
  max_full_scan_blocks = none;
}

abbrev args : StartArgs
args = record { node_addr = codes "node:1"; wallet_dir = codes "w"; secret = none; socks = none }

abbrev answers : Answers
answers = record {
  logger_free = true;
  bound = some (some 40123);
  cores = some 8;
  runtime_built = true;
}

abbrev after_start : Engine
after_start = (start clock limits args answers engine).0

Reach-IsSound_example : IsSound (stop clock (start clock limits args answers engine).0)
Reach-IsSound_example =
    Reach-IsSound clock limits engine (stop clock (start clock limits args answers engine).0)
      (then_ (start clock limits args answers engine).0 _
        (then_ engine _ here (started args answers engine))
        (stopped (start clock limits args answers engine).0))
      (omega arith, omega arith)

-- The app starts the engine, drops its cache, stops it and starts it again.
abbrev after_release : Engine
after_release = (release_memory 3 after_start).0

abbrev after_stop : Engine
after_stop = stop clock after_release

abbrev after_restart : Engine
after_restart = (start clock limits args answers after_stop).0

restarted : Reach clock limits engine after_restart
restarted =
    then_ after_stop _
      (then_ after_release _
        (then_ after_start _ (then_ engine _ here (started args answers engine))
          (released 3 after_start))
        (stopped after_release))
      (started args answers after_stop)

Reach-IsTraced_example : IsTraced limits after_restart
Reach-IsTraced_example = Reach-IsTraced limits clock engine after_restart restarted quiet

-- A panic after the hook and the logger are installed, and a record after it.
abbrev later : List Record
later = record { level = info; target = codes "sync"; args = codes "page 2" } ∷ []

abbrev hooked : Engine
hooked = record engine { hooked = true }

logs-panic_example :
    logs (log_all clock later (panic clock true (codes "a.rs:1") (codes "boom") hooked).logging)
    ≡ join (codes "\n") (
        codes "first"
        ∷ format_line 1700000000 (panic_record (codes "a.rs:1") (codes "boom"))
        ∷ codes "1700000001 [INFO] sync: page 2"
        ∷ [])
unfolding format_line to_string
logs-panic_example =
    logs-panic clock true (codes "a.rs:1") (codes "boom") later hooked refl refl refl (omega arith)
      (omega arith) (omega arith)

abbrev poisoned : Engine
poisoned = record engine { poisoned = true }

polls-flood_example :
    (length (polls clock 5000 poisoned).logging.ring ≡ 3000)
    × All (IsPoisonLine clock) (polls clock 5000 poisoned).logging.ring
polls-flood_example =
    polls-flood clock 5000 poisoned refl refl refl (omega arith) (omega arith) (omega arith)

-- A run with a second call of `start`, a panic that poisons the lock, and polls.
abbrev calls : List Call
calls =
    starts args answers
    ∷ starts args (record answers { bound = some (some 7) })
    ∷ panics true (codes "a.rs:1") (codes "boom")
    ∷ polls_port
    ∷ releases 5
    ∷ stops
    ∷ polls_port
    ∷ []

run-spec_call_example :
    (view (run (engine_call clock limits) calls engine).0 ≡ none)
    × ((run (engine_call clock limits) calls engine).1
        ≡ some 40123 ∷ some 40123 ∷ none ∷ some 40123 ∷ some 5 ∷ none ∷ some 0 ∷ [])
unfolding run spec_call
run-spec_call_example = run-spec_call clock limits calls engine
