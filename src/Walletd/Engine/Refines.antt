-- ===== src/Walletd/Engine/Refines.antt =====
-- The engine's statics refine a switch: what the app sees of them is a port that is on or off.
use zkas_signer.Prelude.{
  ℕ, ◌%◌, ◌^◌, ◌≡◌, ◌∙◌, refl, ap, Bool, true, false, List, [], ◌∷◌, Option, none, some, unwrap_or,
}
use zkas_signer.Text.{Str}
use zkas_signer.Walletd.Log.{Record, set_debug_logs, log_record}
use zkas_signer.Walletd.Config.{ResourceLimits, StartArgs}
use zkas_signer.Walletd.Engine.{
  Running, Engine, Answers, log_line, panic, set_memory_budget_mb, release_memory, start, stop,
  port, port_of,
}
use zkas_signer.Walletd.Engine.Kept.{either, engine_lock-engine, stop-engine}
use zkas_signer.Walletd.Engine.Runs.{Outcome, live, failed, launched, start-Outcome, port-engine}

-- What happens to the engine: the calls of the app, with what the system answers them, and the log
-- lines and panics of the engine's threads.
pub data Call : Type 0 where
  starts : StartArgs → Answers → Call
  stops polls_port : Call
  budgets : ℕ → Call
  levels : Bool → Call
  releases : ℕ → Call
  writes : Record → Call
  panics : Bool → Str → Str → Call

-- The specification. Its state is the port that is live, if one is.
abbrev pub Switch : Type 0
Switch = Option ℕ

-- The port that the system grants to a call of `start`.
abbrev if_built : Bool → ℕ → Option ℕ
if_built true p = some p
if_built false p = none

abbrev granted_by : Option (Option ℕ) → Bool → Option ℕ
granted_by none built = none
granted_by (some none) built = none
granted_by (some (some p)) built = if_built built p

abbrev pub granted : Answers → Option ℕ
granted w = granted_by w.bound w.runtime_built

abbrev turned_on : Switch → Answers → Switch
turned_on none w = granted w
turned_on (some p) w = some p

-- The state after a call, and the number that it returns.
unfoldable pub spec_call : Call → Switch → Switch × Option ℕ
spec_call (starts a w) o = (turned_on o w, some (unwrap_or 0 (turned_on o w)))
spec_call stops o = (none, none)
spec_call polls_port o = (o, some (unwrap_or 0 o))
spec_call (budgets mb) o = (o, none)
spec_call (levels on) o = (o, none)
spec_call (releases n) o = (o, some (n % 2 ^ 64))
spec_call (writes r) o = (o, none)
spec_call (panics holding where_ what) o = (o, none)

-- A run, and the numbers that its calls return, in their order.
unfoldable pub run {ℓ} :
    {S : Type ℓ} → (Call → S → S × Option ℕ) → List Call → S → S × List (Option ℕ)
run f [] s = (s, [])
run f (c ∷ cs) s = let (t, told) = f c s in let (u, rest) = run f cs t in (u, told ∷ rest)

-- The state of the specification that a state of the engine stands for.
abbrev live_port : Option Running → Switch
live_port none = none
live_port (some r) = some r.port

abbrev pub view : Engine → Switch
view s = live_port s.engine

port_of-live_port : (o : Option Running) → port_of o ≡ unwrap_or 0 (live_port o)
port_of-live_port none = refl
port_of-live_port (some r) = refl

refused :
    (o : Option (Option ℕ)) (built : Bool)
    → ((p : ℕ) → o ≡ some (some p) → built ≡ false)
    → granted_by o built ≡ none
refused none built h = refl
refused (some none) built h = refl
refused (some (some p)) built h = rw (h p refl) refl

module _ (clock : ℕ → ℕ) (defaults : ResourceLimits) where
  -- The same for the engine: each call is the code's.
  unfoldable pub engine_call : Call → Engine → Engine × Option ℕ
  engine_call (starts a w) s = let (t, told) = start clock defaults a w s in (t, some told)
  engine_call stops s = (stop clock s, none)
  engine_call polls_port s = let (t, told) = port clock s in (t, some told)
  engine_call (budgets mb) s = (set_memory_budget_mb clock mb s, none)
  engine_call (levels on) s = (record s { logging = set_debug_logs on s.logging }, none)
  engine_call (releases n) s = let (t, told) = release_memory n s in (t, some told)
  engine_call (writes r) s = (record s { logging = log_record clock r s.logging }, none)
  engine_call (panics holding where_ what) s = (panic clock holding where_ what s, none)

  start-spec_call :
      (a : StartArgs) (w : Answers) (s : Engine)
      → (view (start clock defaults a w s).0 ≡ turned_on (view s) w)
        × ((start clock defaults a w s).1 ≡ unwrap_or 0 (turned_on (view s) w))
  start-spec_call a w s = ends _ _ (start-Outcome clock defaults a w s)
    where
      ends :
          (t : Engine) (n : ℕ)
          → Outcome clock defaults a w s t n
          → (view t ≡ turned_on (view s) w) × (n ≡ unwrap_or 0 (turned_on (view s) w))
      ends _ _ (live t r h1 h2 h3) = (rw (h1, h2) refl, rw h1 refl)
      ends _ _ (failed t h1 h2 h3 h4) =
          let none_ = refused w.bound w.runtime_built h4 in
          (rw (h1, h2, none_) refl, rw (h1, none_) refl)
      ends _ _ (launched t p h1 h2 h3 h4 h5) = (rw (h1, h2, h3, h4) refl, rw (h1, h2, h3) refl)

  panic-engine :
      (holding : Bool) (where_ what : Str) (s : Engine)
      → (panic clock holding where_ what s).engine ≡ s.engine
  unfolding panic log_line
  panic-engine holding where_ what s =
      let hook = either (λ (t : Engine). t.engine ≡ s.engine) s.hooked _ s refl refl in
      either (λ (t : Engine). t.engine ≡ s.engine) holding _ _ hook hook

  -- One call of the engine is one call of the specification.
  engine_call-spec_call :
      (c : Call) (s : Engine)
      → (view (engine_call c s).0 ≡ (spec_call c (view s)).0)
        × ((engine_call c s).1 ≡ (spec_call c (view s)).1)
  unfolding engine_call spec_call port set_memory_budget_mb release_memory set_debug_logs log_line
  engine_call-spec_call (starts a w) s =
      let (seen, told) = start-spec_call a w s in (seen, ap some told)
  engine_call-spec_call stops s = (ap live_port (stop-engine clock s), refl)
  engine_call-spec_call polls_port s = (
    ap live_port (engine_lock-engine clock s).0,
    ap some (port-engine clock s ∙ port_of-live_port s.engine),
  )
  engine_call-spec_call (budgets mb) s = (refl, refl)
  engine_call-spec_call (levels on) s = (refl, refl)
  engine_call-spec_call (releases n) s = (refl, refl)
  engine_call-spec_call (writes r) s = (refl, refl)
  engine_call-spec_call (panics holding where_ what) s =
      (ap live_port (panic-engine holding where_ what s), refl)

  -- For every sequence of calls of the app, with any answers of the system, and of log lines and
  -- panics of the engine's threads between them, from any state of the statics: each call returns
  -- the number that it returns in the specification, which is a port that `start` turns on if it
  -- is off and the system grants one, that `stop` turns off, and that nothing else changes; and
  -- the engine recorded at the end is the specification's.
  pub run-spec_call :
      (cs : List Call) (s : Engine)
      → (view (run engine_call cs s).0 ≡ (run spec_call cs (view s)).0)
        × ((run engine_call cs s).1 ≡ (run spec_call cs (view s)).1)
  unfolding run
  run-spec_call [] s = (refl, refl)
  run-spec_call (c ∷ cs) s =
      let (seen, told) = engine_call-spec_call c s in
      let (end, rest) = run-spec_call cs (engine_call c s).0 in
      (rw (← seen) end, rw (← seen, told, rest) refl)
