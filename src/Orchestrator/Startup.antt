-- ===== src/Orchestrator/Startup.antt =====
-- What gateway/orchestrator.py does when the process starts: it cleans up, or adopts what runs.
pub mod Safety
pub mod Adoption
use dmr.Prelude.{
  ℕ, String, Bool, true, false, ◌&&◌, ◌||◌, not, Option, none, some, List, [], ◌∷◌, str_eq,
  if◌then◌else◌,
}
use dmr.Config.{ModelDefinition, VramProfile, Registry, is_exec, is_spark, is_ray, all_models_of}
use dmr.Orchestrator.Exec.{
  ContainerState, starting, ready, stopped, St, Exec, pure, gets, modify, ◌>>=◌, ◌>>◌, for_each,
}
use dmr.Orchestrator.Outside.{World, Workload}
use dmr.Orchestrator.Outside
use dmr.Orchestrator.Settings.{Settings, set_state, model_of_container}
use dmr.Orchestrator.Ray.{kill_all_ray_vllm}
use dmr.Orchestrator.Spark.{stop_spark_serve, stop_exec_model}
use dmr.Orchestrator.Lifecycle.{contains}

-- The dictionary `running`, name to status: an assignment keeps a key's place.
unfoldable pub put_running : String → String → List (String × String) → List (String × String)
put_running n v [] = (n, v) ∷ []
put_running n v ((k, w) ∷ kvs) = if str_eq k n then (k, v) ∷ kvs else (k, w) ∷ put_running n v kvs

unfoldable pub status_of : String → List (String × String) → Option String
status_of n [] = none
status_of n ((k, v) ∷ kvs) = if str_eq k n then some v else status_of n kvs

-- What the first loop of detect_and_adopt_running_profile collects.
pub record Found : Type 0 where
  pub running : List (String × String)
  pub exec_managed : List String
  pub healthy_exec_models : List String

unfoldable pub is_valid : String → Bool
is_valid v = str_eq v "running" || str_eq v "created" || str_eq v "restarting" || str_eq v "pending"

unfoldable pub has_valid : Option String → Bool
has_valid none = false
has_valid (some v) = is_valid v

-- Every container of these models runs with a valid status.
unfoldable pub all_present : Found → List ModelDefinition → Bool
all_present f [] = true
all_present f (m ∷ ms) = has_valid (status_of m.container_name f.running) && all_present f ms

-- exec_ok: the exec models among these answered themselves.
unfoldable pub exec_ok : Found → List ModelDefinition → Bool
exec_ok f [] = true
exec_ok f (m ∷ ms) =
    (not (is_exec m.engine) || contains m.name f.healthy_exec_models) && exec_ok f ms

unfoldable pub has_models : List ModelDefinition → Bool
has_models [] = false
has_models (m ∷ ms) = true

-- The profile that is adopted: the first that is complete. With nothing running none is, so that the
-- early return of the source needs no test.
unfoldable pub complete_profile : Found → Registry → Option (String × VramProfile)
complete_profile f [] = none
complete_profile f ((key, p) ∷ ps) =
    if has_models (all_models_of p)
      && exec_ok f (all_models_of p)
      && all_present f (all_models_of p)
    then some (key, p)
    else complete_profile f ps

unfoldable pub state_for : Option String → ContainerState
state_for none = starting
state_for (some v) = if str_eq v "running" then ready else starting

unfoldable pub names_of : List (String × String) → List String
names_of [] = []
names_of ((k, v) ∷ kvs) = k ∷ names_of kvs

unfoldable pub requires : String → List ModelDefinition → Bool
requires n [] = false
requires n (m ∷ ms) = str_eq m.container_name n || requires n ms

module _ (e : World) (c : Settings) where
  open e use {State}

  unfoldable pub remove_found : ModelDefinition → Option Workload → Exec State (Unit {0})
  remove_found m none = pure tt
  remove_found m (some w) = Outside.remove_workload e m.container_name

  -- The loop of cleanup_orphaned_containers; `cleaned` is ray_cleaned.
  unfoldable pub cleanup_models : Bool → List ModelDefinition → Exec State (Unit {0})
  cleanup_models cleaned [] = pure tt
  cleanup_models cleaned (m ∷ ms) =
      let rest = cleanup_models cleaned ms in
      let rest_cleaned = cleanup_models true ms in
      if is_spark m.engine
      then (stop_spark_serve e c m >> rest)
      else (if is_ray m.engine
          then (if cleaned then rest else (kill_all_ray_vllm e >> rest_cleaned))
          else (Outside.get_workload e m.container_name >>= λ w. remove_found m w >> rest))

  -- cleanup_orphaned_containers
  unfoldable pub cleanup_orphaned_containers : Exec State (Unit {0})
  cleanup_orphaned_containers = cleanup_models false c.all_models

  unfoldable pub add_exec : ModelDefinition → Bool → Found → Found
  add_exec m healthy f =
      let g : Found = record f { exec_managed = m.container_name ∷ f.exec_managed } in
      if healthy
      then record g {
        running = put_running m.container_name "running" g.running;
        healthy_exec_models = m.name ∷ g.healthy_exec_models;
      }
      else g

  unfoldable pub add_workload : ModelDefinition → Option Workload → Found → Found
  add_workload m none f = f
  add_workload m (some w) f = record f { running = put_running m.container_name w.status f.running }

  -- The first loop of detect_and_adopt_running_profile.
  unfoldable pub detect : List ModelDefinition → Found → Exec State Found
  detect [] f = pure f
  detect (m ∷ ms) f =
      if is_exec m.engine
      then (Outside.check_health e m.container_name m.port >>= λ healthy.
          detect ms (add_exec m healthy f))
      else (Outside.get_workload e m.container_name >>= λ w. detect ms (add_workload m w f))

  unfoldable pub adopt_state : Found → ModelDefinition → Exec State (Unit {0})
  adopt_state f m = set_state m.container_name (state_for (status_of m.container_name f.running))

  unfoldable pub stop_orphan_model : Option ModelDefinition → Exec State (Unit {0})
  stop_orphan_model none = pure tt
  stop_orphan_model (some m) = stop_exec_model e c m

  -- One name of `running`, if it is in `orphans`. The order of that set is open; here it is that of `running`.
  unfoldable pub remove_orphan : Found → List ModelDefinition → String → Exec State (Unit {0})
  remove_orphan f models n =
      if requires n models
      then pure tt
      else (if contains n f.exec_managed
          then stop_orphan_model (model_of_container n c.all_models)
          else Outside.remove_workload e n)

  unfoldable pub adopt : Found → Option (String × VramProfile) → Exec State (Option String)
  adopt f none = pure none
  adopt f (some (key, p)) = do
    modify (λ s. record s { active_profile = some key })
    for_each (all_models_of p) (adopt_state f)
    for_each (names_of f.running) (remove_orphan f (all_models_of p))
    Outside.persist e key
    pure (some key)

  -- detect_and_adopt_running_profile
  unfoldable pub detect_and_adopt_running_profile : Exec State (Option String)
  detect_and_adopt_running_profile = do
    f ← detect c.all_models (record { running = []; exec_managed = []; healthy_exec_models = [] })
    adopt f (complete_profile f c.registry)

  -- stop_container
  unfoldable pub stop_container : String → Exec State (Unit {0})
  stop_container n = Outside.stop_workload e n >> set_state n stopped
