-- ===== src/Orchestrator/Waiting.antt =====
-- The health wait of gateway/orchestrator.py ends: its time limit comes before the model's fuel is used up.
use dmr.Prelude.{
  ℕ, zero, suc, ◌+◌, ◌-◌, ◌≤◌, ◌<◌, String, ◌≡◌, refl, ◌≢◌, Bool, true, false, if◌then◌else◌, List,
  [], ◌∷◌, arith, ltb,
}
use dmr.Config.{ModelDefinition, is_exec}
use dmr.Orchestrator.Exec.{
  St, ContainerState, ready, timed_out, out_of_fuel, Result, ok, err, Exec, pure, raise, gets, ask,
  continue, modify, ◌>>=◌, ◌>>◌, for_each,
}
use dmr.Orchestrator.Exec.Preserves.{Preserves, preserve_rules}
use dmr.Orchestrator.Outside.{World, Workload}
use dmr.Orchestrator.Outside
use dmr.Orchestrator.Settings.{Settings, set_state}
use dmr.Orchestrator.Swap.{probe, is_running, wait_round, wait_ready, wait_all_ready}

-- The clock does not run backwards, a sleep takes its time, and the backend's errors are its own.
pub record IsSteady (e : World) : Type 0 where
  pub sleeps : (n : ℕ) (w : e.State) → e.clock w + n ≤ e.clock (e.sleep n w)
  pub checks :
      (n : String) (port : ℕ) (w : e.State) → e.clock w ≤ e.clock (e.check_health n port w).1
  pub looks : (n : String) (w : e.State) → e.clock w ≤ e.clock (e.get_workload n w).1
  pub answers : (n : String) (w : e.State) → (e.get_workload n w).0 ≢ err out_of_fuel

-- Started in `P`, `run` does not run out of fuel.
record Ends {W A : Type 0} (P : St W → Type 0) (run : Exec W A) : Type 0 where
  ends : (s : St W) → P s → (run s).0 ≢ err out_of_fuel

Ends-bind :
    {W A B : Type 0} {P : St W → Type 0} (m : Exec W A) (f : A → Exec W B)
    → Ends P m
    → Preserves P m
    → ((a : A) → Ends P (f a))
    → Ends P (m >>= f)
unfolding ◌>>=◌
Ends-bind {W = W} {A = A} {P = P} m f em pm ef = record {
  ends = λ s h. go (m s).0 (m s).1 (em.ends s h) (pm.outcome s h);
}
  where
    go :
        (r : Result A) (s : St W)
        → r ≢ err out_of_fuel
        → P s
        → (continue f (r, s)).0 ≢ err out_of_fuel
    go (ok a) s n h = (ef a).ends s h
    go (err x) s n h = λ q. n (cc q)

module _ (e : World) (c : Settings) (steady : IsSteady e) where
  abbrev Late : ℕ → St e.State → Type 0
  Late t s = t ≤ e.clock s.world

  check-Late : (t : ℕ) (n : String) (port : ℕ) → Preserves (Late t) (Outside.check_health e n port)
  unfolding Outside.check_health ask
  check-Late t n port = record { outcome = λ s h. omega (arith, steady.checks n port s.world) }

  look-Late : (t : ℕ) (n : String) → Preserves (Late t) (Outside.get_workload e n)
  unfolding Outside.get_workload ask
  look-Late t n = record { outcome = λ s h. omega (arith, steady.looks n s.world) }

  sleep-Late : (t n : ℕ) → Preserves (Late t) (Outside.sleep e n)
  unfolding Outside.sleep ask
  sleep-Late t n = record { outcome = λ s h. omega (arith, steady.sleeps n s.world) }

  set_state-Late : (t : ℕ) (n : String) (v : ContainerState) → Preserves (Late t) (set_state n v)
  unfolding set_state modify
  set_state-Late t n v = record { outcome = λ s h. h }

  probe-Late : (t : ℕ) (m : ModelDefinition) → Preserves (Late t) (probe e c m)
  unfolding probe
  probe-Late t m = search (preserve_rules, check-Late, look-Late) depth 9

  check-Ends : (t : ℕ) (n : String) (port : ℕ) → Ends (Late t) (Outside.check_health e n port)
  unfolding Outside.check_health ask
  check-Ends t n port = record { ends = λ s h q. cc q }

  look-Ends : (t : ℕ) (n : String) → Ends (Late t) (Outside.get_workload e n)
  unfolding Outside.get_workload ask
  look-Ends t n = record { ends = λ s h q. steady.answers n s.world q }

  probe-Ends : (t : ℕ) (m : ModelDefinition) → Ends (Late t) (probe e c m)
  unfolding probe pure
  probe-Ends t m =
      elim (is_exec m.engine)
        as (λ b. Ends (Late t) (
          if b
          then Outside.check_health e m.container_name m.port
          else (Outside.get_workload e m.container_name >>= λ w.
              if is_running e c w
              then Outside.check_health e m.container_name m.port
              else pure false))) [
                | true ↦ check-Ends t m.container_name m.port
                | false ↦
                    Ends-bind _ _ (look-Ends t m.container_name) (look-Late t m.container_name) λ w.
                      elim (is_running e c w)
                        as (λ b. Ends (Late t) (
                          if b
                          then Outside.check_health e m.container_name m.port
                          else pure false)) [
                            | true ↦ check-Ends t m.container_name m.port
                            | false ↦ record { ends = λ s h q. cc q }
                          ]
              ]

  -- A second later the rest of the loop may need it.
  retry-Ends :
      (t : ℕ) (m : ModelDefinition) (again : Exec e.State (Unit {0}))
      → Ends (Late (t + 1)) again
      → Ends (Late t) (
          probe e c m >>= λ healthy.
          if healthy then set_state m.container_name ready else (Outside.sleep e 1 >> again))
  unfolding set_state modify Outside.sleep ask ◌>>=◌
  retry-Ends t m again h = Ends-bind _ _ (probe-Ends t m) (probe-Late t m) (λ healthy. step healthy)
    where
      step :
          (b : Bool)
          → Ends
              (Late t)
              (if b then set_state m.container_name ready else (Outside.sleep e 1 >> again))
      step true = record { ends = λ s g q. cc q }
      step false = record { ends = λ s g. h.ends _ (omega (arith, steady.sleeps 1 s.world)) }

  round-Ends :
      (again : Exec e.State (Unit {0})) (start : ℕ) (m : ModelDefinition) (s : St e.State)
      → (ltb c.swap_timeout (e.clock s.world - start) ≡ false
          → Ends (Late (e.clock s.world + 1)) again)
      → (wait_round e c again start m s).0 ≢ err out_of_fuel
  unfolding wait_round gets raise ◌>>=◌
  round-Ends again start m s h = pick (ltb c.swap_timeout (e.clock s.world - start)) h
    where
      pick :
          (b : Bool)
          → (b ≡ false → Ends (Late (e.clock s.world + 1)) again)
          → ((if b
                then raise timed_out
                else (probe e c m >>= λ healthy.
                    if healthy
                    then set_state m.container_name ready
                    else (Outside.sleep e 1 >> again)))
              s).0
            ≢ err out_of_fuel
      pick true g = λ q. cc q
      pick false g = (retry-Ends (e.clock s.world) m again (g refl)).ends s (omega arith)

  wait_ready-Ends :
      (fuel start : ℕ) (m : ModelDefinition) (t : ℕ)
      → c.swap_timeout + 2 + start ≤ fuel + t
      → 0 < fuel
      → (s : St e.State) → t ≤ e.clock s.world
      → (wait_ready e c fuel start m s).0 ≢ err out_of_fuel
  unfolding wait_ready
  wait_ready-Ends zero start m t h k s g = absurd (omega arith)
  wait_ready-Ends (suc fuel) start m t h k s g = round-Ends _ start m s λ f. record {
    ends = wait_ready-Ends fuel start m (e.clock s.world + 1) (omega arith) (ground arith);
  }

  wait_round-Late :
      (again : Exec e.State (Unit {0})) (t start : ℕ) (m : ModelDefinition)
      → Preserves (Late t) again
      → Preserves (Late t) (wait_round e c again start m)
  unfolding wait_round
  wait_round-Late again t start m h =
      search (preserve_rules, probe-Late, set_state-Late, sleep-Late) depth 12

  wait_ready-Late :
      (t fuel start : ℕ) (m : ModelDefinition) → Preserves (Late t) (wait_ready e c fuel start m)
  unfolding wait_ready
  wait_ready-Late t zero start m = search preserve_rules
  wait_ready-Late t (suc fuel) start m =
      wait_round-Late _ t start m (wait_ready-Late t fuel start m)

  each-Ends :
      (start : ℕ) (ms : List ModelDefinition)
      → Ends (Late start) (for_each ms (wait_ready e c (c.swap_timeout + 2) start))
  unfolding for_each
  each-Ends start [] = record { ends = λ s h q. cc q }
  each-Ends start (m ∷ ms) = record {
    ends = λ s h.
        (Ends-bind _ _
            (record {
              ends = wait_ready-Ends (c.swap_timeout + 2) start m start (omega arith) (omega arith);
            })
            (wait_ready-Late start (c.swap_timeout + 2) start m) (λ _. each-Ends start ms)).ends
          s h;
  }

  -- With a clock that does not run backwards, sleeps that take their time and a backend whose errors
  -- are its own, the health wait never uses up its fuel, whatever the models and the state.
  pub wait_all_ready_ends :
      (ms : List ModelDefinition) (s : St e.State) → (wait_all_ready e c ms s).0 ≢ err out_of_fuel
  unfolding wait_all_ready gets ◌>>=◌
  wait_all_ready_ends ms s = (each-Ends (e.clock s.world) ms).ends s (omega arith)
