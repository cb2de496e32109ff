-- ===== src/Watchdog.antt =====
-- gateway/app.py, _ray_watchdog_tick: one pass over the Ray clusters and the loaded models.
pub mod Passes
pub mod Degrades
pub mod Marks
mod Tests
use dmr.Prelude.{
  ℕ, String, Bool, true, false, ◌&&◌, ◌||◌, not, Option, none, some, List, [], ◌∷◌, ◌++◌, str_eq,
  if◌then◌else◌,
}
use dmr.Config.{ModelDefinition, VramProfile, is_ray, is_exec, all_models_of}
use dmr.Orchestrator.Exec.{
  ContainerState, ready, error, St, Exec, pure, gets, ◌>>=◌, ◌>>◌, for_each,
}
use dmr.Orchestrator.Outside.{World}
use dmr.Orchestrator.Outside
use dmr.Orchestrator.Settings.{Settings, state_of, set_state}
use dmr.Orchestrator.Ray.{find_ray_head}
use dmr.Orchestrator.RayStatus.{
  ClusterStatus, RayStatus, active_vram_profile, check_ray_requirement, no_head,
}

unfoldable pub mem_text : String → List String → Bool
mem_text n [] = false
mem_text n (s ∷ ss) = if str_eq s n then true else mem_text n ss

-- The names of the models on clusters that are not healthy.
unfoldable pub degraded_in : List ClusterStatus → List String
degraded_in [] = []
degraded_in (s ∷ ss) = if s.healthy then degraded_in ss else s.models ++ degraded_in ss

unfoldable pub ray_degraded : Option RayStatus → List String
unfolding degraded_in
ray_degraded none = []
ray_degraded (some r) = if r.healthy then [] else degraded_in r.clusters

unfoldable pub is_ready : Option ContainerState → Bool
is_ready (some ready) = true
is_ready _ = false

unfoldable pub loaded : Option VramProfile → List ModelDefinition
loaded none = []
loaded (some p) = all_models_of p

module _ {W : Type 0} where
  -- A model that is ready is marked ERROR.
  unfoldable pub mark_if_ready : ModelDefinition → Exec W (Unit {0})
  unfolding is_ready
  mark_if_ready m = do
    ok_now ← gets (λ s. is_ready (state_of m.container_name s.container_states))
    if ok_now then set_state m.container_name error else pure tt

  unfoldable pub mark_ray : ModelDefinition → Exec W (Unit {0})
  mark_ray m = if is_ray m.engine then set_state m.container_name error else pure tt

module _ (e : World) (c : Settings) where
  open e use {State}

  unfoldable pub probe_model : ModelDefinition → Exec State (Unit {0})
  probe_model m = do
    healthy ← Outside.check_health e m.container_name m.port
    if healthy then pure tt else mark_if_ready m

  unfoldable pub check_model : Option String → List String → ModelDefinition → Exec State (Unit {0})
  check_model head degraded m =
      if mem_text m.name degraded
      then mark_if_ready m
      else (if is_exec m.engine && not (is_ray m.engine && no_head head)
          then probe_model m
          else pure tt)

  unfoldable pub mark_headless : Option String → Exec State (Unit {0})
  mark_headless none = for_each c.all_models mark_ray
  mark_headless (some h) = pure tt

  unfoldable pub check_models : Option String → Exec State (Unit {0})
  unfolding active_vram_profile ray_degraded loaded
  check_models head = do
    status ← check_ray_requirement e c
    profile ← gets (active_vram_profile c)
    for_each (loaded profile) (check_model head (ray_degraded status))

  -- The pass, once the Ray head is looked for.
  unfoldable pub tick_with : Option String → Exec State (Unit {0})
  unfolding check_models
  tick_with head = do mark_headless head; check_models head

  unfoldable pub ray_watchdog_tick : Exec State (Unit {0})
  unfolding tick_with
  ray_watchdog_tick = do head ← find_ray_head e; tick_with head
