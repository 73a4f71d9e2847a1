-- ===== src/Walletd/Engine.antt =====
-- walletd-mobile/src/lib.rs: starting and stopping the engine, the lock around it, and its port.
pub mod Kept
pub mod Runs
pub mod Poisoned
pub mod Refines
pub mod Trace
pub mod Reported
use zkas_signer.Prelude.{
  ℕ, ◌%◌, ◌^◌, Bool, true, false, List, [], ◌∷◌, ◌++◌, Option, none, some, unwrap_or, if◌then◌else◌,
  ltb, codes,
}
use zkas_signer.Text.{Str, to_string}
use zkas_signer.Walletd.Log.{Level, error_, info, Record, Logging, install_logger, log_record}
use zkas_signer.Walletd.Config.{
  ResourceLimits, Config, StartArgs, resident_wallets, resources, config, max,
}

-- A running engine; its shutdown channel and its runtime are seen in the effects.
pub record Running : Type 0 where
  pub port : ℕ
  pub worker_threads : ℕ

-- What is done to the world outside: a server is spawned, the running one is told to shut down and
-- its runtime is given a number of seconds, the daemon is asked to drop its cache.
pub data Effect : Type 0 where
  served : Config → Effect
  shutdown_sent : Effect
  runtime_shut : ℕ → Effect
  memory_released : Effect

-- The statics `ENGINE` with the poison flag of its lock, `MEM_BUDGET_MB`, and whether the panic
-- hook is set; `effects` is the newest first.
pub record Engine : Type 0 where
  pub engine : Option Running
  pub poisoned : Bool
  pub mem_budget_mb : ℕ
  pub hooked : Bool
  pub logging : Logging
  pub effects : List Effect

-- What the system answers during a call of `start`: whether the logger's place is free, the bind
-- (`none` is its failure) with the port that `local_addr` reads (`none` likewise), the number of
-- cores if it is known, and whether the runtime is built.
pub record Answers : Type 0 where
  pub logger_free : Bool
  pub bound : Option (Option ℕ)
  pub cores : Option ℕ
  pub runtime_built : Bool

-- `.map(|r| r.port).unwrap_or(0)`
abbrev pub port_of : Option Running → ℕ
port_of none = 0
port_of (some r) = r.port

abbrev pub own_target : Str
own_target = codes "zkas_walletd_mobile"

unfoldable pub install_panic_hook : Engine → Engine
install_panic_hook s = record s { hooked = true }

-- `zkas_walletd::release_memory() as u64`: `dropped` is the number that the daemon's crate returns.
-- It does not take the lock.
unfoldable pub release_memory : ℕ → Engine → Engine × ℕ
release_memory dropped s = (record s { effects = memory_released ∷ s.effects }, dropped % 2 ^ 64)

module _ (clock : ℕ → ℕ) where
  unfoldable pub log_line : Level → Str → Engine → Engine
  log_line level args s = record s {
    logging =
        log_record clock (record { level = level; target = own_target; args = args }) s.logging;
  }

  -- The lock stays poisoned: `into_inner` gives the guard and clears nothing.
  unfoldable pub engine_lock : Engine → Engine
  engine_lock s =
      if s.poisoned
      then log_line error_ (codes "engine lock was poisoned by an earlier panic; recovering it") s
      else s

  -- A panic in a thread of the engine, seen by the hook. `holding` says that the thread holds the
  -- engine's lock.
  unfoldable pub panic : Bool → Str → Str → Engine → Engine
  panic holding where_ what s =
      let t =
        if s.hooked
        then log_line error_ (codes "ENGINE PANIC at " ++ (where_ ++ (codes ": " ++ what))) s
        else s in
      if holding then record t { poisoned = true } else t

  unfoldable pub set_memory_budget_mb : ℕ → Engine → Engine
  set_memory_budget_mb mb s =
      log_line info (codes "memory budget for this app: " ++ (to_string mb ++ codes " MB"))
        (record s { mem_budget_mb = mb })

  -- The line that is logged where a budget was reported.
  unfoldable pub log_resident : Engine → Engine
  log_resident s =
      if ltb 0 s.mem_budget_mb
      then log_line info
          (codes "resident wallet cap "
            ++ (to_string (resident_wallets s.mem_budget_mb)
                ++ (codes " (from a "
                    ++ (to_string s.mem_budget_mb
                        ++ codes " MB app budget, not device free memory)"))))
          s
      else s

  module _ (defaults : ResourceLimits) where
    -- The rest of `start` once there is a port and a runtime.
    unfoldable pub launch : StartArgs → ℕ → ℕ → Engine → Engine
    launch a port cores s =
        let t = log_resident s in
        record t {
          engine = some (record { port = port; worker_threads = max cores 2 });
          effects = served (config a port (resources defaults cores s.mem_budget_mb)) ∷ t.effects;
        }

    -- From the bind on: what the bind and `local_addr` gave.
    unfoldable pub start_bound : Option (Option ℕ) → StartArgs → Answers → Engine → Engine × ℕ
    start_bound none a w s = (s, 0)
    start_bound (some none) a w s = (s, 0)
    start_bound (some (some port)) a w s =
        if w.runtime_built then (launch a port (unwrap_or 2 w.cores) s, port) else (s, 0)

    -- What the guard holds: `if let Some(r) = guard.as_ref() { return r.port; }`
    unfoldable pub start_at : Option Running → StartArgs → Answers → Engine → Engine × ℕ
    start_at none a w s = start_bound w.bound a w s
    start_at (some r) a w s = (s, r.port)

    unfoldable pub start : StartArgs → Answers → Engine → Engine × ℕ
    start a w s =
        let t =
          engine_lock
            (install_panic_hook (record s { logging = install_logger w.logger_free s.logging })) in
        start_at t.engine a w t

  -- What `take` of the guard gave.
  unfoldable pub stop_at : Option Running → Engine → Engine
  stop_at none s = s
  stop_at (some r) s = record s {
    engine = none;
    effects = runtime_shut 15 ∷ shutdown_sent ∷ s.effects;
  }

  unfoldable pub stop : Engine → Engine
  stop s = let t = engine_lock s in stop_at t.engine t

  unfoldable pub port : Engine → Engine × ℕ
  port s = let t = engine_lock s in (t, port_of t.engine)
