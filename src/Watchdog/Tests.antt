-- ===== src/Watchdog/Tests.antt =====
-- A pass over a cluster whose models died, and one over a head that is gone.
use dmr.Prelude.{
  ℕ, ◌≡◌, ◌+◌, ◌≢◌, refl, inl, true, false, none, some, [], ◌∷◌, is_infix, has_prefix,
}
use dmr.Config.{ModelDefinition, is_exec, is_ray, ray_vllm, get_profile, required_ray_nodes}
use dmr.Config.Catalog.{deepseek_v4_flash, profile_deepseek, profiles}
use dmr.Orchestrator.Exec.{
  ready, error, starting, St, Result, ok, ask, catch, modify, gets, pure, for_each, ◌>>=◌,
}
use dmr.Orchestrator.Outside.{World}
use dmr.Orchestrator.Settings.{Settings, state_of, set_state, put_state}
use dmr.Orchestrator.Ray.{find_ray_head, first_head, count_ray_nodes}
use dmr.Orchestrator.RayStatus.{
  active_vram_profile, profile_named, check_ray_requirement, check_loaded, check_ray_models,
  check_clusters, check_cluster, grouped, add_to_group, ray_container, uses_ray, any_ray, max_nodes,
  no_head, all_healthy,
}
use dmr.Orchestrator.Swap.{model_names}
use dmr.Orchestrator.Outside
use dmr.Watchdog.{
  ray_watchdog_tick, tick_with, check_models, check_model, probe_model, mark_headless, mark_ray,
  mark_if_ready, mem_text, is_ready, ray_degraded, degraded_in, loaded,
}
use dmr.Watchdog.Degrades.{KeptOrError, ray_watchdog_tick-KeptOrError}
use dmr.Watchdog.Marks.{ray_watchdog_tick-NotReady}

-- Nothing answers a health check, and there is no Ray head; the world is the time.
abbrev dead : World
dead = record {
  State = ℕ;
  supports_pause = true;
  get_workload = λ n t. (ok none, t);
  remove_workload = λ n t. (ok tt, t);
  pause_workload = λ n t. (ok tt, t);
  unpause_workload = λ n t. (ok tt, t);
  stop_workload = λ n t. (ok tt, t);
  ensure_network = λ n t. (ok tt, t);
  create_and_start = λ c t. (ok tt, t);
  exec_in_workload = λ n c t. (ok 0, t);
  run_on_worker = λ h c t. (ok true, t);
  list_workloads = λ l t. (ok [], t);
  check_health = λ n p t. (false, t + 1);
  query_gpus = λ t. (ok 0, t);
  sleep = λ n t. t + n;
  persist = λ k t. t;
  clock = λ t. t;
}

-- A model of the Ray engine.
abbrev on_ray : ModelDefinition
on_ray = record deepseek_v4_flash { engine = ray_vllm; container_name = "ray-model" }

abbrev with_ray : Settings
with_ray = record {
  registry = profiles;
  all_models = deepseek_v4_flash ∷ on_ray ∷ [];
  worker_hosts = [];
  cluster_container = "vllm_node";
  models_path = "/models";
  head_host = "spark-1";
  master_port = 29500;
  ram_gb = 128;
  safety_margin_mb = 4096;
  swap_timeout = 900;
}

abbrev both_ready : St ℕ
both_ready = record {
  container_states = ("vllm_node", ready) ∷ ("ray-model", ready) ∷ ("other", starting) ∷ [];
  active_profile = some "deepseek";
  swap_in_progress = false;
  world = 0;
  calls = [];
}

tick_states :
    (◌≡◌ {A = Result (Unit {0})} (ray_watchdog_tick dead with_ray both_ready).0 (ok tt))
    × ((ray_watchdog_tick dead with_ray both_ready).1.container_states
        ≡ ("vllm_node", error) ∷ ("ray-model", error) ∷ ("other", starting) ∷ [])
unfolding ray_watchdog_tick tick_with check_models check_model probe_model mark_headless mark_ray
    mark_if_ready mem_text is_ready ray_degraded degraded_in loaded find_ray_head first_head
    count_ray_nodes check_ray_requirement check_loaded check_ray_models check_clusters check_cluster
    grouped add_to_group ray_container uses_ray any_ray max_nodes no_head all_healthy model_names
    profile_named active_vram_profile get_profile required_ray_nodes is_ray is_exec
    Outside.list_workloads Outside.check_health Outside.exec_in_workload ask catch modify gets pure
    for_each ◌>>=◌ set_state put_state state_of is_infix has_prefix
tick_states = (refl, refl)

ray_watchdog_tick-KeptOrError_example :
    let after = (ray_watchdog_tick dead with_ray both_ready).1 in
    KeptOrError "other" (state_of "other" both_ready.container_states) after.container_states
    × (after.active_profile ≡ both_ready.active_profile)
ray_watchdog_tick-KeptOrError_example =
    ray_watchdog_tick-KeptOrError dead with_ray both_ready "other"

ray_watchdog_tick-NotReady_example :
    state_of "vllm_node" (ray_watchdog_tick dead with_ray both_ready).1.container_states
    ≢ some ready
unfolding active_vram_profile profile_named get_profile is_exec is_ray
ray_watchdog_tick-NotReady_example =
    ray_watchdog_tick-NotReady dead with_ray both_ready deepseek_v4_flash profile_deepseek refl
      (inl refl) refl refl (λ w. refl) tick_states.0
