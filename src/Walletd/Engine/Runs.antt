-- ===== src/Walletd/Engine/Runs.antt =====
-- Every run of the app against the engine: at most one server, and the port that is told.
use zkas_signer.Prelude.{
  ℕ, ◌≤◌, ◌≡◌, ◌∙◌, refl, sym, ap, Bool, true, false, ◌∷◌, Option, none, some, unwrap_or, length,
  arith,
}
use zkas_signer.Text.{Str}
use zkas_signer.Walletd.Log.{Record, Logging, install_logger, set_debug_logs, log_record}
use zkas_signer.Walletd.Config.{ResourceLimits, StartArgs, resources, config, max}
use zkas_signer.Walletd.Engine.{
  Running, served, Engine, Answers, install_panic_hook, engine_lock, panic, set_memory_budget_mb,
  release_memory, launch, start_bound, start_at, start, stop, port, port_of,
}
use zkas_signer.Walletd.Engine.Kept.{
  is_running, either, either_by, IsSound, log_record-ring, log_line-IsSound, engine_lock-IsSound,
  engine_lock-engine, log_resident-IsSound, log_resident-engine, panic-IsSound, stop-IsSound,
  stop-engine,
}

module _ (clock : ℕ → ℕ) where
  module _ (defaults : ResourceLimits) (a : StartArgs) (w : Answers) where
    -- what `start` does before it looks at the engine
    abbrev entered : Engine → Engine
    entered s =
        engine_lock clock
          (install_panic_hook (record s { logging = install_logger w.logger_free s.logging }))

    entered-engine :
        (s : Engine)
        → ((entered s).engine ≡ s.engine)
          × ((entered s).effects ≡ s.effects)
          × ((entered s).mem_budget_mb ≡ s.mem_budget_mb)
    unfolding install_panic_hook
    entered-engine s =
        engine_lock-engine clock
          (install_panic_hook (record s { logging = install_logger w.logger_free s.logging }))

    entered-IsSound : (s : Engine) → IsSound s → IsSound (entered s)
    unfolding install_panic_hook install_logger
    entered-IsSound s (h, k) =
        engine_lock-IsSound clock _
          (h, either (λ (t : Logging). length t.ring ≤ 3000) s.logging.logger_set _ _ k k)

    -- The ways a call of `start` ends on a state and a result.
    pub data Outcome (s : Engine) : Engine → ℕ → Type 0 where
      -- the engine runs: its port is told
      live :
          (t : Engine) (r : Running)
          → s.engine ≡ some r
          → t.engine ≡ some r
          → t.effects ≡ s.effects
          → Outcome s t r.port
      -- the system refuses: nothing is started
      failed :
          (t : Engine)
          → s.engine ≡ none
          → t.engine ≡ none
          → t.effects ≡ s.effects
          → ((p : ℕ) → (w.bound ≡ some (some p)) → w.runtime_built ≡ false)
          → Outcome s t 0
      -- a server is spawned on the port
      launched :
          (t : Engine) (p : ℕ)
          → s.engine ≡ none
          → w.bound ≡ some (some p)
          → w.runtime_built ≡ true
          → t.engine ≡ some (record { port = p; worker_threads = max (unwrap_or 2 w.cores) 2 })
          → t.effects
            ≡ served (config a p (resources defaults (unwrap_or 2 w.cores) s.mem_budget_mb))
              ∷ s.effects
          → Outcome s t p

    abbrev Ends : Engine → Engine × ℕ → Type 0
    Ends s t = Outcome s t.0 t.1

    start_bound-Ends :
        (s u : Engine) (o : Option (Option ℕ))
        → w.bound ≡ o
        → s.engine ≡ none
        → u.engine ≡ none
        → u.effects ≡ s.effects
        → u.mem_budget_mb ≡ s.mem_budget_mb
        → Ends s (start_bound clock defaults o a w u)
    unfolding start_bound launch
    start_bound-Ends s u none b h1 h2 h3 h4 = failed u h1 h2 h3 (λ p e. cc)
    start_bound-Ends s u (some none) b h1 h2 h3 h4 = failed u h1 h2 h3 (λ p e. cc)
    start_bound-Ends s u (some (some p)) b h1 h2 h3 h4 =
        either_by (Ends s) w.runtime_built _ (u, 0)
          (λ up. launched _ p h1 b up refl (rw ((log_resident-engine clock u).1, h3, h4) refl))
          (λ down. failed u h1 h2 h3 (λ q e. down))

    start_at-Ends :
        (s u : Engine) (o : Option Running)
        → u.engine ≡ o
        → u.engine ≡ s.engine
        → u.effects ≡ s.effects
        → u.mem_budget_mb ≡ s.mem_budget_mb
        → Ends s (start_at clock defaults o a w u)
    unfolding start_at
    start_at-Ends s u none e h1 h2 h3 = start_bound-Ends s u w.bound refl (sym h1 ∙ e) e h2 h3
    start_at-Ends s u (some r) e h1 h2 h3 = live u r (sym h1 ∙ e) e h2

    -- A call of `start` tells the port of an engine that runs, and leaves the engine and the world
    -- outside as they are; or no engine runs, and either the system refuses a port or a runtime,
    -- the result is 0 and nothing is started, or one server is spawned with the configuration for
    -- the port that is told.
    pub start-Outcome :
        (s : Engine) → Outcome s (start clock defaults a w s).0 (start clock defaults a w s).1
    unfolding start
    start-Outcome s =
        let (h1, h2, h3) = entered-engine s in
        start_at-Ends s (entered s) (entered s).engine refl h1 h2 h3

    start_bound-IsSound :
        (u : Engine) (o : Option (Option ℕ))
        → u.engine ≡ none
        → IsSound u
        → IsSound (start_bound clock defaults o a w u).0
    unfolding start_bound launch
    start_bound-IsSound u none e h = h
    start_bound-IsSound u (some none) e h = h
    start_bound-IsSound u (some (some p)) e h =
        let (sound, fits) = log_resident-IsSound clock u h in
        let (same, world) = log_resident-engine clock u in
        either (λ (t : Engine × ℕ). IsSound t.0) w.runtime_built _ (u, 0)
          (omega (arith, sound, ap is_running (same ∙ e)), fits) h

    start_at-IsSound :
        (u : Engine) (o : Option Running)
        → u.engine ≡ o
        → IsSound u
        → IsSound (start_at clock defaults o a w u).0
    unfolding start_at
    start_at-IsSound u none e h = start_bound-IsSound u w.bound e h
    start_at-IsSound u (some r) e h = h

    start-IsSound : (s : Engine) → IsSound s → IsSound (start clock defaults a w s).0
    unfolding start
    start-IsSound s h = start_at-IsSound (entered s) _ refl (entered-IsSound s h)

  pub port-engine : (s : Engine) → (port clock s).1 ≡ port_of s.engine
  unfolding port
  port-engine s = ap port_of (engine_lock-engine clock s).0

  module _ (defaults : ResourceLimits) where
    -- Whatever happens in `start`, a poll of `port` right after it tells the number that it
    -- returned; and after `stop` it tells 0.
    pub port-start :
        (a : StartArgs) (w : Answers) (s : Engine)
        → ((port clock (start clock defaults a w s).0).1 ≡ (start clock defaults a w s).1)
          × ((port clock (stop clock s)).1 ≡ 0)
    port-start a w s = (
      port-engine _ ∙ told _ _ (start-Outcome defaults a w s),
      port-engine _ ∙ ap port_of (stop-engine clock s),
    )
      where
        told : (t : Engine) (n : ℕ) → Outcome defaults a w s t n → port_of t.engine ≡ n
        told _ _ (live t r h1 h2 h3) = ap port_of h2
        told _ _ (failed t h1 h2 h3 h4) = ap port_of h2
        told _ _ (launched t p h1 h2 h3 h4 h5) = ap port_of h4

    -- The calls of the app and what the engine's threads do to the statics.
    pub data Step : Engine → Engine → Type 0 where
      started : (a : StartArgs) (w : Answers) (s : Engine) → Step s (start clock defaults a w s).0
      stopped : (s : Engine) → Step s (stop clock s)
      polled : (s : Engine) → Step s (port clock s).0
      budgeted : (mb : ℕ) (s : Engine) → Step s (set_memory_budget_mb clock mb s)
      released : (dropped : ℕ) (s : Engine) → Step s (release_memory dropped s).0
      leveled :
          (on : Bool) (s : Engine) → Step s (record s { logging = set_debug_logs on s.logging })
      wrote :
          (r : Record) (s : Engine) → Step s (record s { logging = log_record clock r s.logging })
      panicked :
          (holding : Bool) (where_ what : Str) (s : Engine)
          → Step s (panic clock holding where_ what s)

    pub data Reach (s : Engine) : Engine → Type 0 where
      here : Reach s s
      then_ : (t u : Engine) → Reach s t → Step t u → Reach s u

    Step-IsSound : (s t : Engine) → Step s t → IsSound s → IsSound t
    unfolding set_memory_budget_mb port set_debug_logs release_memory
    Step-IsSound _ _ (started a w s) h = start-IsSound defaults a w s h
    Step-IsSound _ _ (stopped s) h = stop-IsSound clock s h
    Step-IsSound _ _ (polled s) h = engine_lock-IsSound clock s h
    Step-IsSound _ _ (budgeted mb s) h =
        log_line-IsSound clock _ _ (record s { mem_budget_mb = mb }) h
    Step-IsSound _ _ (released dropped s) h = h
    Step-IsSound _ _ (leveled on s) h = h
    Step-IsSound _ _ (wrote r s) (h, k) = (h, log_record-ring clock r s.logging k)
    Step-IsSound _ _ (panicked holding where_ what s) h =
        panic-IsSound clock holding where_ what s h

    -- From a sound state, such as the one at the app's start, every state that is reached by calls
    -- of the app, log lines and panics in any order is sound: one server at most is spawned and not
    -- told to shut down, exactly when the engine is recorded as running, and the ring is bounded.
    pub Reach-IsSound : (s t : Engine) → Reach s t → IsSound s → IsSound t
    Reach-IsSound s _ here h = h
    Reach-IsSound s _ (then_ t u r step) h = Step-IsSound t u step (Reach-IsSound s t r h)
