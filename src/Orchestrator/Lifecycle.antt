-- ===== src/Orchestrator/Lifecycle.antt =====
-- Starting, stopping and tearing down one workload in gateway/orchestrator.py.
use Prim.Native.String.{◌++◌ as str_append}
use dmr.Prelude.{
  String, Bool, true, false, ◌&&◌, ◌||◌, not, Option, none, some, List, [], ◌∷◌, ◌++◌, str_eq, leb,
  if◌then◌else◌,
}
use dmr.Config.{
  ModelDefinition, Volume, SwapStrategy, pause_unpause, stop_start, is_exec, is_spark, is_ray,
  all_models_of, get_profile,
}
use dmr.Orchestrator.Exec.{
  ContainerState, starting, ready, stopping, stopped, paused, error, Exec, no_ray_workers, pure,
  raise, gets, catch, ◌>>=◌, ◌>>◌, for_each,
}
use dmr.Orchestrator.Outside.{World, Workload}
use dmr.Orchestrator.Outside
use dmr.Orchestrator.Settings.{Settings, set_state, model_of_container}
use dmr.Orchestrator.Command.{build_cmd, build_env}
use dmr.Orchestrator.Ray.{verify_ray_cluster_ready, start_ray_vllm}
use dmr.Orchestrator.Spark.{verify_spark_cluster_ready, start_spark_serve, stop_exec_model}

unfoldable pub contains : String → List String → Bool
contains n [] = false
contains n (k ∷ ks) = str_eq k n || contains n ks

-- The volumes of _create_and_start; `models_path` is MODELS_PATH.
unfoldable pub volumes_of : String → ModelDefinition → List Volume
volumes_of models_path m =
    if str_eq m.hf_model_id ""
    then m.extra_volumes
      ++ record {
        host_path = str_append models_path (str_append "/" m.model_path);
        bind = "/models";
        mode = "ro";
      }
        ∷ []
    else m.extra_volumes

unfoldable pub is_live : ContainerState → Bool
is_live ready = true
is_live starting = true
is_live _ = false

unfoldable pub is_pause : SwapStrategy → Bool
is_pause pause_unpause = true
is_pause stop_start = false

module _ (e : World) (c : Settings) where
  open e use {State}

  -- _create_and_start
  unfoldable pub create_and_start : ModelDefinition → Exec State (Unit {0})
  unfolding volumes_of
  create_and_start m =
      catch
        (Outside.create_workload e (record {
          name = m.container_name;
          image = m.container_image;
          command = build_cmd m;
          environment = build_env m;
          volumes = volumes_of c.models_path m;
          port = m.port;
          entrypoint = m.container_entrypoint;
        }))
        (λ x. set_state m.container_name error >> raise x)

  unfoldable pub recreate : ModelDefinition → Exec State (Unit {0})
  recreate m = do Outside.remove_workload e m.container_name; create_and_start m

  -- The branches on the status of a workload of the Gateway's own.
  unfoldable pub bring_up : ModelDefinition → SwapStrategy → Option Workload → Exec State (Unit {0})
  unfolding is_pause
  bring_up m strategy none = create_and_start m
  bring_up m strategy (some w) =
      if str_eq w.status "paused" && is_pause strategy
      then Outside.unpause_workload e m.container_name
      else (if str_eq w.status "exited" || str_eq w.status "created" || str_eq w.status "dead"
          then recreate m
          else (if str_eq w.status "running"
              then Outside.ensure_network e m.container_name
              else recreate m))

  unfoldable pub ray_ready : ModelDefinition → Exec State (Unit {0})
  ray_ready m =
      if leb 2 m.tensor_parallel_size
      then (do
        up ← verify_ray_cluster_ready e 2
        if up then pure tt else (set_state m.container_name error >> raise no_ray_workers))
      else pure tt

  unfoldable pub start_spark : ModelDefinition → Exec State (Unit {0})
  start_spark m = do
    verify_spark_cluster_ready e c m
    start_spark_serve e c m
    set_state m.container_name starting

  unfoldable pub start_ray : ModelDefinition → Exec State (Unit {0})
  start_ray m = do ray_ready m; start_ray_vllm e m; set_state m.container_name starting

  unfoldable pub start_workload : ModelDefinition → SwapStrategy → Exec State (Unit {0})
  start_workload m strategy = do
    w ← Outside.get_workload e m.container_name
    bring_up m strategy w
    set_state m.container_name starting

  -- _ensure_container_running
  unfoldable pub ensure_container_running : SwapStrategy → ModelDefinition → Exec State (Unit {0})
  ensure_container_running strategy m = do
    set_state m.container_name starting
    if is_spark m.engine
        then start_spark m
        else (if is_ray m.engine then start_ray m else start_workload m strategy)

  -- One model of the outgoing profile, in _teardown_current's first loop.
  unfoldable pub stop_outgoing : List String → ModelDefinition → Exec State (Unit {0})
  stop_outgoing preserve_models m =
      if not (is_exec m.engine) || contains m.name preserve_models
      then pure tt
      else (stop_exec_model e c m >> set_state m.container_name stopped)

  unfoldable pub stop_other : SwapStrategy → String → Exec State (Unit {0})
  stop_other strategy name =
      catch
        (if is_pause strategy && e.supports_pause
          then (Outside.pause_workload e name >> set_state name paused)
          else (Outside.stop_workload e name >> set_state name stopped))
        (λ _. pure tt)

  unfoldable pub stop_named : SwapStrategy → String → Option ModelDefinition → Exec State (Unit {0})
  stop_named strategy name none = stop_other strategy name
  stop_named strategy name (some m) =
      if is_exec m.engine
      then (stop_exec_model e c m >> set_state name stopped)
      else stop_other strategy name

  -- One item of the second loop, over a copy of _container_states.
  unfoldable pub stop_listed :
      SwapStrategy → List String → String × ContainerState → Exec State (Unit {0})
  unfolding is_live
  stop_listed strategy preserve (name, state) =
      if contains name preserve || not (is_live state)
      then pure tt
      else (set_state name stopping
          >> stop_named strategy name (model_of_container name c.all_models))

  unfoldable pub current_models : Option String → List ModelDefinition
  current_models none = []
  current_models (some key) = elim (get_profile key c.registry) [
    | some p ↦ all_models_of p
    | none ↦ []
  ]

  -- _teardown_current
  unfoldable pub teardown_current : SwapStrategy → List String → List String → Exec State (Unit {0})
  teardown_current strategy preserve preserve_models = do
    active ← gets (λ s. s.active_profile)
    for_each (current_models active) (stop_outgoing preserve_models)
    states ← gets (λ s. s.container_states)
    for_each states (stop_listed strategy preserve)
