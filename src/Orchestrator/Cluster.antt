-- ===== src/Orchestrator/Cluster.antt =====
-- What the Ray and Spark methods of gateway/orchestrator.py keep: they make no lifecycle call.
use dmr.Prelude.{ℕ, zero, suc, ◌≡◌, refl, String, Bool, true, false, Option, none, some, get_elem?}
use dmr.Config.{ModelDefinition}
use dmr.Orchestrator.Exec.{
  St, Call, Result, Script, ask, remove_workload, pause_workload, unpause_workload, stop_workload,
  ensure_network, create_and_start,
}
use dmr.Orchestrator.Exec.Preserves.{Preserves, preserve_rules}
use dmr.Orchestrator.Outside.{World, Workload}
use dmr.Orchestrator.Outside
use dmr.Orchestrator.Settings.{Settings}
use dmr.Orchestrator.Ray.{
  kill_in, kill_all_ray_vllm, find_ray_head, enough_nodes, stop_in, start_in, count_ray_nodes,
  verify_ray_cluster_ready, cleanup_ray_placement_groups, stop_ray_vllm, start_ray_vllm,
}
use dmr.Orchestrator.Spark.{
  on_host, require_running, require_worker, check_worker, check_ray, exec_shell_script,
  stop_spark_serve, start_spark_serve, verify_spark_cluster_ready, stop_exec_model,
}

-- The calls that change a container's lifecycle.
unfoldable pub is_lifecycle : Call → Bool
is_lifecycle (remove_workload n) = true
is_lifecycle (pause_workload n) = true
is_lifecycle (unpause_workload n) = true
is_lifecycle (stop_workload n) = true
is_lifecycle (ensure_network n) = true
is_lifecycle (create_and_start c) = true
is_lifecycle _ = false

-- `P` is not touched by the other calls.
pub record IsFrame {W : Type 0} (P : St W → Type 0) : Type 1 where
  pub asks :
      {A : Type 0} (k : Call) (f : W → Result A × W)
      → is_lifecycle k ≡ false
      → Preserves P (ask k f)

module _ (e : World) {P : St e.State → Type 0} (p : IsFrame P) where
  pub get_workload-Preserves : (n : _) → Preserves P (Outside.get_workload e n)
  unfolding Outside.get_workload is_lifecycle
  get_workload-Preserves n = p.asks _ _ refl

  pub exec_in_workload-Preserves :
      (n : _) (s : Script) → Preserves P (Outside.exec_in_workload e n s)
  unfolding Outside.exec_in_workload is_lifecycle
  exec_in_workload-Preserves n s = p.asks _ _ refl

  pub run_on_worker-Preserves : (n : _) (s : Script) → Preserves P (Outside.run_on_worker e n s)
  unfolding Outside.run_on_worker is_lifecycle
  run_on_worker-Preserves n s = p.asks _ _ refl

  pub list_workloads-Preserves : (n : _) → Preserves P (Outside.list_workloads e n)
  unfolding Outside.list_workloads is_lifecycle
  list_workloads-Preserves n = p.asks _ _ refl

  pub check_health-Preserves : (n : _) (port : ℕ) → Preserves P (Outside.check_health e n port)
  unfolding Outside.check_health is_lifecycle
  check_health-Preserves n port = p.asks _ _ refl

  pub query_gpus-Preserves : Preserves P (Outside.query_gpus e)
  unfolding Outside.query_gpus is_lifecycle
  query_gpus-Preserves = p.asks _ _ refl

  pub sleep-Preserves : (n : ℕ) → Preserves P (Outside.sleep e n)
  unfolding Outside.sleep is_lifecycle
  sleep-Preserves n = p.asks _ _ refl

  pub persist-Preserves : (k : _) → Preserves P (Outside.persist e k)
  unfolding Outside.persist is_lifecycle
  persist-Preserves k = p.asks _ _ refl

  pub find_ray_head-Preserves : Preserves P (find_ray_head e)
  unfolding find_ray_head
  find_ray_head-Preserves = search (preserve_rules, list_workloads-Preserves)

  pub count_ray_nodes-Preserves : (n : _) → Preserves P (count_ray_nodes e n)
  unfolding count_ray_nodes
  count_ray_nodes-Preserves n = search (preserve_rules, exec_in_workload-Preserves)

  enough_nodes-Preserves : (n : ℕ) (h : Option String) → Preserves P (enough_nodes e n h)
  unfolding enough_nodes
  enough_nodes-Preserves n none = search preserve_rules
  enough_nodes-Preserves n (some h) = search (preserve_rules, count_ray_nodes-Preserves)

  pub verify_ray_cluster_ready-Preserves : (n : ℕ) → Preserves P (verify_ray_cluster_ready e n)
  unfolding verify_ray_cluster_ready
  verify_ray_cluster_ready-Preserves n =
      search (preserve_rules, find_ray_head-Preserves, enough_nodes-Preserves)

  cleanup_ray_placement_groups-Preserves : (n : _) → Preserves P (cleanup_ray_placement_groups e n)
  unfolding cleanup_ray_placement_groups
  cleanup_ray_placement_groups-Preserves n = search (preserve_rules, exec_in_workload-Preserves)

  stop_in-Preserves : (m : ModelDefinition) (h : Option String) → Preserves P (stop_in e m h)
  unfolding stop_in
  stop_in-Preserves m none = search preserve_rules
  stop_in-Preserves m (some h) =
      search (preserve_rules, exec_in_workload-Preserves, cleanup_ray_placement_groups-Preserves)

  stop_ray_vllm-Preserves : (m : ModelDefinition) → Preserves P (stop_ray_vllm e m)
  unfolding stop_ray_vllm
  stop_ray_vllm-Preserves m = search (preserve_rules, find_ray_head-Preserves, stop_in-Preserves)

  start_in-Preserves : (m : ModelDefinition) (h : Option String) → Preserves P (start_in e m h)
  unfolding start_in
  start_in-Preserves m none = search preserve_rules
  start_in-Preserves m (some h) =
      search (preserve_rules, exec_in_workload-Preserves, stop_ray_vllm-Preserves)

  pub start_ray_vllm-Preserves : (m : ModelDefinition) → Preserves P (start_ray_vllm e m)
  unfolding start_ray_vllm
  start_ray_vllm-Preserves m = search (preserve_rules, find_ray_head-Preserves, start_in-Preserves)

  kill_in-Preserves : (h : Option String) → Preserves P (kill_in e h)
  unfolding kill_in
  kill_in-Preserves none = search preserve_rules
  kill_in-Preserves (some h) =
      search (preserve_rules, exec_in_workload-Preserves, cleanup_ray_placement_groups-Preserves)

  pub kill_all_ray_vllm-Preserves : Preserves P (kill_all_ray_vllm e)
  unfolding kill_all_ray_vllm
  kill_all_ray_vllm-Preserves = search (preserve_rules, find_ray_head-Preserves, kill_in-Preserves)

module _ (e : World) (c : Settings) {P : St e.State → Type 0} (p : IsFrame P) where
  on_host-Preserves :
      (m : ModelDefinition) (s : Script) (h : Option String) → Preserves P (on_host e c m s h)
  unfolding on_host
  on_host-Preserves m s none = search preserve_rules
  on_host-Preserves m s (some h) = search (preserve_rules, run_on_worker-Preserves e p)

  exec_shell_script-Preserves :
      (m : ModelDefinition) (s : Script) (r : ℕ) → Preserves P (exec_shell_script e c m s r)
  unfolding exec_shell_script
  exec_shell_script-Preserves m s zero = search (preserve_rules, exec_in_workload-Preserves e p)
  exec_shell_script-Preserves m s (suc r) = on_host-Preserves m s (get_elem? c.worker_hosts r)

  pub stop_spark_serve-Preserves : (m : ModelDefinition) → Preserves P (stop_spark_serve e c m)
  unfolding stop_spark_serve
  stop_spark_serve-Preserves m = search (preserve_rules, exec_shell_script-Preserves)

  pub start_spark_serve-Preserves : (m : ModelDefinition) → Preserves P (start_spark_serve e c m)
  unfolding start_spark_serve
  start_spark_serve-Preserves m =
      search (preserve_rules, exec_shell_script-Preserves, stop_spark_serve-Preserves)

  require_running-Preserves : (w : Option Workload) → Preserves P (require_running e c w)
  unfolding require_running
  require_running-Preserves none = search preserve_rules
  require_running-Preserves (some w) = search preserve_rules

  require_worker-Preserves : (b : Bool) → Preserves P (require_worker e c b)
  unfolding require_worker
  require_worker-Preserves true = search preserve_rules
  require_worker-Preserves false = search preserve_rules

  check_worker-Preserves : (h : _) → Preserves P (check_worker e c h)
  unfolding check_worker
  check_worker-Preserves h =
      search (preserve_rules, run_on_worker-Preserves e p, require_worker-Preserves)

  check_ray-Preserves : (m : ModelDefinition) → Preserves P (check_ray e c m)
  unfolding check_ray
  check_ray-Preserves m = search (preserve_rules, count_ray_nodes-Preserves e p)

  pub verify_spark_cluster_ready-Preserves :
      (m : ModelDefinition) → Preserves P (verify_spark_cluster_ready e c m)
  unfolding verify_spark_cluster_ready
  verify_spark_cluster_ready-Preserves m =
      search
        (
          preserve_rules,
          get_workload-Preserves e p,
          require_running-Preserves,
          check_worker-Preserves,
          check_ray-Preserves,
        )
        depth 9

  pub stop_exec_model-Preserves : (m : ModelDefinition) → Preserves P (stop_exec_model e c m)
  unfolding stop_exec_model
  stop_exec_model-Preserves m =
      search (preserve_rules, stop_spark_serve-Preserves, stop_ray_vllm-Preserves e p)
