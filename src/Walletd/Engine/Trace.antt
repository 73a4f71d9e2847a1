-- ===== src/Walletd/Engine/Trace.antt =====
-- What a run of the app leaves outside the process: servers that follow one another.
use zkas_signer.Prelude.{ℕ, ◌≡◌, ◌∙◌, refl, sym, Bool, List, [], ◌∷◌, Option, none, some, unwrap_or}
use zkas_signer.Text.{Str}
use zkas_signer.Walletd.Config.{ResourceLimits, StartArgs, resources, config, max}
use zkas_signer.Walletd.Engine.{
  Running, Effect, served, shutdown_sent, runtime_shut, memory_released, Engine, Answers,
  engine_lock, log_line, panic, set_memory_budget_mb, release_memory, stop_at, stop, port,
}
use zkas_signer.Walletd.Engine.Kept.{either, engine_lock-engine}
use zkas_signer.Walletd.Engine.Runs.{
  Outcome, live, failed, launched, start-Outcome, Step, started, stopped, polled, budgeted,
  released, leveled, wrote, panicked, Reach, here, then_,
}

module _ (defaults : ResourceLimits) where
  -- The effects, the newest first, that end with what the engine is recorded as.
  pub data Trace : Option Running → List Effect → Type 0 where
    quiet : Trace none []
    spawned :
        (a : StartArgs) (port_ cores mb : ℕ) (es : List Effect)
        → Trace none es
        → Trace
            (some (record { port = port_; worker_threads = max cores 2 }))
            (served (config a port_ (resources defaults cores mb)) ∷ es)
    ended :
        (r : Running) (es : List Effect)
        → Trace (some r) es
        → Trace none (runtime_shut 15 ∷ shutdown_sent ∷ es)
    freed : (o : Option Running) (es : List Effect) → Trace o es → Trace o (memory_released ∷ es)

  abbrev pub IsTraced : Engine → Type 0
  IsTraced s = Trace s.engine s.effects

  -- A state with the same engine and effects is traced too.
  same-IsTraced :
      (s t : Engine) → t.engine ≡ s.engine → t.effects ≡ s.effects → IsTraced s → IsTraced t
  same-IsTraced s t h1 h2 h = rw (h1, h2) h

  module _ (clock : ℕ → ℕ) where
    engine_lock-IsTraced : (s : Engine) → IsTraced s → IsTraced (engine_lock clock s)
    engine_lock-IsTraced s =
        let (h1, h2, h3) = engine_lock-engine clock s in same-IsTraced s (engine_lock clock s) h1 h2

    Outcome-IsTraced :
        (a : StartArgs) (w : Answers) (s t : Engine) (n : ℕ)
        → Outcome clock defaults a w s t n
        → IsTraced s
        → IsTraced t
    Outcome-IsTraced a w s _ _ (live t r h1 h2 h3) h = same-IsTraced s t (h2 ∙ sym h1) h3 h
    Outcome-IsTraced a w s _ _ (failed t h1 h2 h3 h4) h = same-IsTraced s t (h2 ∙ sym h1) h3 h
    Outcome-IsTraced a w s _ _ (launched t p h1 h2 h3 h4 h5) h =
        rw (h4, h5) (spawned a p (unwrap_or 2 w.cores) s.mem_budget_mb s.effects (rw h1 at h))

    stop_at-IsTraced :
        (o : Option Running) (s : Engine) → s.engine ≡ o → IsTraced s → IsTraced (stop_at clock o s)
    unfolding stop_at
    stop_at-IsTraced none s e h = h
    stop_at-IsTraced (some r) s e h = ended r s.effects (rw e at h)

    panic-IsTraced :
        (holding : Bool) (where_ what : Str) (s : Engine)
        → IsTraced s
        → IsTraced (panic clock holding where_ what s)
    unfolding panic log_line
    panic-IsTraced holding where_ what s h =
        let hook = either IsTraced s.hooked _ s h h in either IsTraced holding _ _ hook hook

    Step-IsTraced : (s t : Engine) → Step clock defaults s t → IsTraced s → IsTraced t
    unfolding stop port set_memory_budget_mb release_memory log_line
    Step-IsTraced _ _ (started a w s) h =
        Outcome-IsTraced a w s _ _ (start-Outcome clock defaults a w s) h
    Step-IsTraced _ _ (stopped s) h = stop_at-IsTraced _ _ refl (engine_lock-IsTraced s h)
    Step-IsTraced _ _ (polled s) h = engine_lock-IsTraced s h
    Step-IsTraced _ _ (budgeted mb s) h = h
    Step-IsTraced _ _ (released dropped s) h = freed s.engine s.effects h
    Step-IsTraced _ _ (leveled on s) h = h
    Step-IsTraced _ _ (wrote r s) h = h
    Step-IsTraced _ _ (panicked holding where_ what s) h = panic-IsTraced holding where_ what s h

    -- What was done outside has this form in every state that is reached, by calls of the app, log
    -- lines and panics in any order, from a state where it has it, such as the app's start, where
    -- nothing was done: servers are spawned one after the other, each told to shut down and its
    -- runtime given 15 seconds, in this order, before the next, and caches are dropped at any time;
    -- the engine is recorded as running exactly while the last server has not been told so, with
    -- that server's port and its runtime's threads, which are at least two and otherwise the number
    -- of cores that the server is configured for.
    pub Reach-IsTraced : (s t : Engine) → Reach clock defaults s t → IsTraced s → IsTraced t
    Reach-IsTraced s _ here h = h
    Reach-IsTraced s _ (then_ t u r step) h = Step-IsTraced t u step (Reach-IsTraced s t r h)
