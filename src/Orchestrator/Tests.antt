-- ===== src/Orchestrator/Tests.antt =====
-- Switches over the catalog of gateway/config.py, and instances of the orchestrator's theorems.
use dmr.Orchestrator.Startup.{
  Found, complete_profile, has_models, exec_ok, all_present, has_valid, is_valid, status_of,
}
use dmr.Config.Catalog.{profile_qwen38}
use dmr.Orchestrator.Waiting.{IsSteady, wait_all_ready_ends}
use dmr.Orchestrator.Exec.{err, out_of_fuel}
use dmr.Prelude.{◌≢◌, arith, ◌≡◌, refl, All, ℕ, ◌+◌, refl, true, false, some, [], ◌∷◌, ◌&&◌, not}
use dmr.Config.{is_exec}
use dmr.Config.Catalog.{profiles, all_models, profile_deepseek, deepseek_v4_flash}
use dmr.Orchestrator.Exec.{St, ready, ok}
use dmr.Orchestrator.Outside
use dmr.Config.{get_profile, get_swap_strategy, is_spark}
use dmr.Orchestrator.Exec.{pure, raise, gets, ask, catch, modify, ◌>>=◌, for_each}
use dmr.Orchestrator.Settings.{set_state, put_state, state_of, model_of_container}
use dmr.Orchestrator.Command.{hf_or, build_cmd}
use dmr.Orchestrator.Spark.{
  ranks_from, ranks_down, take_hosts, container_of, on_host, exec_shell_script, stop_spark_serve,
  start_spark_serve, require_running, require_worker, check_worker, check_ray,
  verify_spark_cluster_ready, stop_exec_model,
}
use dmr.Orchestrator.Lifecycle.{
  contains, is_live, is_pause, start_spark, ensure_container_running, stop_outgoing, stop_named,
  stop_listed, current_models, teardown_current,
}
use dmr.Orchestrator.Swap.{
  container_names, model_names, effective, probe, wait_round, wait_ready, wait_all_ready,
  bring_profile_up, claim, swap_body, finish, is_active, switch_profile,
}
use dmr.Orchestrator.Outside.{World}
use dmr.Orchestrator.Readiness.Switch.{switch_profile-IsReady}
use dmr.Orchestrator.Settings.{state_of, Settings, model_of_container}
use dmr.Orchestrator.Swap.{switch_profile, is_active}
use dmr.Orchestrator.Outcome.{Settled, switch_profile-Settled}
use dmr.Orchestrator.Ownership.{IsExternal, IsUntouched}
use dmr.Orchestrator.Ownership.Switch.{switch_profile-IsUntouched}

-- Everything is up and healthy; the world is the time.
abbrev pub healthy : World
healthy = record {
  State = ℕ;
  supports_pause = true;
  get_workload = λ n t. (ok (some (record { name = n; status = "running" })), t);
  remove_workload = λ n t. (ok tt, t);
  pause_workload = λ n t. (ok tt, t);
  unpause_workload = λ n t. (ok tt, t);
  stop_workload = λ n t. (ok tt, t);
  ensure_network = λ n t. (ok tt, t);
  create_and_start = λ c t. (ok tt, t);
  exec_in_workload = λ n c t. (ok 2, t);
  run_on_worker = λ h c t. (ok true, t);
  list_workloads = λ l t. (ok [], t);
  check_health = λ n p t. (true, t + 1);
  query_gpus = λ t. (ok 0, t);
  sleep = λ n t. t + n;
  persist = λ k t. t;
  clock = λ t. t;
}

abbrev pub settings : Settings
settings = record {
  registry = profiles;
  all_models = all_models;
  worker_hosts = "spark-2" ∷ [];
  cluster_container = "vllm_node";
  models_path = "/models";
  head_host = "spark-1";
  master_port = 29500;
  ram_gb = 128;
  safety_margin_mb = 4096;
  swap_timeout = 900;
}

abbrev pub on_qwen38 : St ℕ
on_qwen38 = record {
  container_states = ("vllm_node", ready) ∷ [];
  active_profile = some "qwen38";
  swap_in_progress = false;
  world = 1000;
  calls = [];
}

switch_profile-Settled_example :
    Settled "deepseek" on_qwen38
      (is_active healthy settings "deepseek" on_qwen38.active_profile && not false)
      (switch_profile healthy settings "deepseek" profile_deepseek false on_qwen38)
switch_profile-Settled_example =
    switch_profile-Settled healthy settings "deepseek" profile_deepseek false on_qwen38

vllm_node-IsExternal : IsExternal settings "vllm_node"
unfolding IsExternal model_of_container is_exec
vllm_node-IsExternal = (deepseek_v4_flash, (refl, refl))

on_qwen38-IsUntouched : IsUntouched settings on_qwen38
on_qwen38-IsUntouched = record { quiet = tt; live = ((λ _. vllm_node-IsExternal), tt) }

switch_profile-IsUntouched_example :
    IsUntouched settings
      (switch_profile healthy settings "deepseek" profile_deepseek false on_qwen38).1
unfolding is_exec
switch_profile-IsUntouched_example =
    switch_profile-IsUntouched healthy settings "deepseek" profile_deepseek false (refl, tt)
      (vllm_node-IsExternal, tt) on_qwen38 on_qwen38-IsUntouched

switched : (switch_profile healthy settings "deepseek" profile_deepseek false on_qwen38).0 ≡ ok true
unfolding pure raise gets ask catch modify ◌>>=◌ for_each set_state put_state state_of
    model_of_container hf_or build_cmd ranks_from ranks_down take_hosts container_of on_host
    exec_shell_script stop_spark_serve start_spark_serve require_running require_worker check_worker
    check_ray verify_spark_cluster_ready stop_exec_model contains is_live is_pause start_spark
    ensure_container_running stop_outgoing stop_named stop_listed current_models teardown_current
    container_names model_names effective probe wait_round wait_ready wait_all_ready
    bring_profile_up claim swap_body finish is_active switch_profile is_exec is_spark get_profile
    get_swap_strategy Outside.get_workload Outside.exec_in_workload Outside.run_on_worker
    Outside.check_health Outside.persist
switched = refl

switch_profile-IsReady_example :
    All
      (λ m.
        state_of m.container_name
          (switch_profile healthy settings "deepseek" profile_deepseek false
            on_qwen38).1.container_states
        ≡ some ready)
      (deepseek_v4_flash ∷ [])
unfolding is_active
switch_profile-IsReady_example =
    switch_profile-IsReady healthy settings "deepseek" profile_deepseek false on_qwen38 refl
      switched

-- Only Qwen 3.8 answers, in the container that all models share.
abbrev qwen38_answers : Found
qwen38_answers = record {
  running = ("vllm_node", "running") ∷ [];
  exec_managed = "vllm_node" ∷ "vllm_node" ∷ "vllm_node" ∷ [];
  healthy_exec_models = "qwen3.8-flash-next" ∷ [];
}

finds_qwen38 : complete_profile qwen38_answers profiles ≡ some ("qwen38", profile_qwen38)
unfolding complete_profile has_models exec_ok all_present has_valid is_valid status_of contains
    is_exec
finds_qwen38 = refl

healthy-IsSteady : IsSteady healthy
healthy-IsSteady = record {
  sleeps = λ n w. omega arith;
  checks = λ n p w. omega arith;
  looks = λ n w. omega arith;
  answers = λ n w q. cc q;
}

wait_all_ready_ends_example :
    (wait_all_ready healthy settings (deepseek_v4_flash ∷ []) on_qwen38).0 ≢ err out_of_fuel
wait_all_ready_ends_example =
    wait_all_ready_ends healthy settings healthy-IsSteady (deepseek_v4_flash ∷ []) on_qwen38
