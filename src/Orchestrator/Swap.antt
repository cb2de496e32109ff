-- ===== src/Orchestrator/Swap.antt =====
-- Waiting for health and switching profiles in gateway/orchestrator.py. The swap mutex is held for
-- the whole of `switch_profile`, so swaps are run one after the other; what does not take
-- the mutex, a watchdog pass or an admin handler, has no step between those of a switch here.
use dmr.Prelude.{
  ℕ, zero, suc, ◌+◌, ◌-◌, String, Bool, true, false, ◌&&◌, not, Option, none, some, List, [], ◌∷◌,
  str_eq, ltb, leb, if◌then◌else◌,
}
use dmr.Config.{
  ModelDefinition, VramProfile, SwapStrategy, stop_start, is_exec, all_models_of, get_swap_strategy,
}
use dmr.Orchestrator.Exec.{
  ContainerState, starting, ready, St, Exec, Result, ok, Error, timed_out, out_of_fuel, pure, raise,
  gets, catch, modify, ◌>>=◌, ◌>>◌, for_each,
}
use dmr.Orchestrator.Outside.{World, Workload}
use dmr.Orchestrator.Outside
use dmr.Orchestrator.Settings.{Settings, state_of, set_state}
use dmr.Orchestrator.Lifecycle.{teardown_current, ensure_container_running}

unfoldable pub container_names : List ModelDefinition → List String
container_names [] = []
container_names (m ∷ ms) = m.container_name ∷ container_names ms

unfoldable pub model_names : List ModelDefinition → List String
model_names [] = []
model_names (m ∷ ms) = m.name ∷ model_names ms

unfoldable pub is_starting : Option ContainerState → Bool
is_starting (some starting) = true
is_starting _ = false

-- The strategy of a swap: no pause on a backend that cannot.
unfoldable pub effective : Bool → SwapStrategy → SwapStrategy
effective true strategy = strategy
effective false strategy = stop_start

module _ (e : World) (c : Settings) where
  open e use {State}

  unfoldable pub is_running : Option Workload → Bool
  is_running none = false
  is_running (some w) = str_eq w.status "running"

  unfoldable pub probe : ModelDefinition → Exec State Bool
  probe m = if is_exec m.engine then Outside.check_health e m.container_name m.port else (do
    w ← Outside.get_workload e m.container_name
    if is_running w then Outside.check_health e m.container_name m.port else pure false)

  -- A round of the `while True` of _wait_all_ready for one model; `again` is the rest of the loop.
  unfoldable pub wait_round : Exec State (Unit {0}) → ℕ → ModelDefinition → Exec State (Unit {0})
  wait_round again start m = do
    now ← gets (λ s. e.clock s.world)
    if ltb c.swap_timeout (now - start) then raise timed_out else (do
      healthy ← probe m
      if healthy then set_state m.container_name ready else (Outside.sleep e 1 >> again))

  unfoldable pub wait_ready : ℕ → ℕ → ModelDefinition → Exec State (Unit {0})
  wait_ready zero start m = raise out_of_fuel
  wait_ready (suc fuel) start m = wait_round (wait_ready fuel start m) start m

  -- _wait_all_ready: one round is made for each second that may pass.
  unfoldable pub wait_all_ready : List ModelDefinition → Exec State (Unit {0})
  wait_all_ready models = do
    start ← gets (λ s. e.clock s.world)
    for_each models (wait_ready (c.swap_timeout + 2) start)

  unfoldable pub has_enough_vram : ℕ → ℕ → Bool
  has_enough_vram needed free = leb (needed + c.safety_margin_mb) free

  -- A round of the polling loop of _ensure_vram_available.
  unfoldable pub vram_round : Exec State (Unit {0}) → ℕ → Exec State (Unit {0})
  vram_round again needed = do
    Outside.sleep e 1
    free ← Outside.query_gpus e
    if has_enough_vram needed free then pure tt else again

  unfoldable pub wait_vram : ℕ → ℕ → Exec State (Unit {0})
  wait_vram zero needed = pure tt
  wait_vram (suc n) needed = vram_round (wait_vram n needed) needed

  -- _ensure_vram_available
  unfoldable pub ensure_vram_available : ℕ → List String → List String → Exec State (Unit {0})
  ensure_vram_available needed preserve preserve_models = do
    free ← Outside.query_gpus e
    if has_enough_vram needed free
        then pure tt
        else (teardown_current e c stop_start preserve preserve_models >> wait_vram 15 needed)

  -- After a timeout a model that is still starting is promoted.
  unfoldable pub promote_starting : ModelDefinition → Exec State (Unit {0})
  promote_starting m = do
    state ← gets (λ s. state_of m.container_name s.container_states)
    if is_starting state then set_state m.container_name ready else pure tt

  unfoldable pub on_timeout : List ModelDefinition → Error → Exec State (Unit {0})
  on_timeout models timed_out = for_each models promote_starting
  on_timeout models x = raise x

  -- The body of the `try` in switch_profile: steps 1 to 4, then step 5.
  unfoldable pub bring_profile_up : VramProfile → Exec State (Unit {0})
  bring_profile_up p =
      let models = all_models_of p in
      let names = container_names models in
      let strategy = effective e.supports_pause (get_swap_strategy c.ram_gb) in
      do
        teardown_current e c strategy names (model_names models)
        if p.skip_vram_check
            then pure tt
            else ensure_vram_available p.total_vram_required_mb names (model_names models)
        for_each models (ensure_container_running e c strategy)
        catch (wait_all_ready models) (on_timeout models)

  unfoldable pub claim : String → Exec State Bool
  claim key = do
    modify (λ s. record s { active_profile = some key })
    Outside.persist e key
    pure true

  unfoldable pub swap_body : String → VramProfile → Exec State Bool
  swap_body key p = do bring_profile_up p; claim key

  unfoldable pub finish : Result Bool × St State → Result Bool × St State
  finish (r, s) = (r, record s { swap_in_progress = false })

  unfoldable pub is_active : String → Option String → Bool
  is_active key none = false
  is_active key (some k) = str_eq k key

  -- switch_profile, for the registered profile `p` under `key`, once the mutex is held.
  unfoldable pub switch_profile : String → VramProfile → Bool → Exec State Bool
  switch_profile key p force s =
      if is_active key s.active_profile && not force
      then (ok true, s)
      else finish (catch (swap_body key p) (λ _. pure false) (record s { swap_in_progress = true }))
