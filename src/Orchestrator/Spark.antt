-- ===== src/Orchestrator/Spark.antt =====
-- The Spark cluster part of gateway/orchestrator.py: one `vllm serve` process on each node, rank 0 on
-- this host and the others over ssh.
use dmr.Prelude.{
  ℕ, zero, suc, ◌+◌, ◌-◌, String, Bool, true, false, Option, none, some, List, [], ◌∷◌, ◌++◌,
  str_eq, ltb, length, get_elem?, if◌then◌else◌,
}
use dmr.Config.{ModelDefinition, is_spark}
use dmr.Orchestrator.Exec.{
  Exec, too_few_nodes, container_down, worker_unreachable, worker_down, ray_too_small,
  backend_error, Arg, word, decimal, Script, kill_serve, launch, inspect_running, pure, raise,
  catch, ◌>>=◌, ◌>>◌, for_each,
}
use dmr.Orchestrator.Outside.{World, Workload}
use dmr.Orchestrator.Outside
use dmr.Orchestrator.Settings.{Settings}
use dmr.Orchestrator.Command.{build_cmd, hf_or}
use dmr.Orchestrator.Ray.{count_ray_nodes, list_or_nil, stop_ray_vllm}

-- 0, …, n - 1 and n - 1, …, 0.
unfoldable pub ranks_from : ℕ → ℕ → List ℕ
ranks_from zero i = []
ranks_from (suc n) i = i ∷ ranks_from n (i + 1)

unfoldable pub ranks_down : ℕ → List ℕ
ranks_down zero = []
ranks_down (suc n) = n ∷ ranks_down n

unfoldable pub take_hosts : ℕ → List String → List String
take_hosts zero hs = []
take_hosts (suc n) [] = []
take_hosts (suc n) (h ∷ hs) = h ∷ take_hosts n hs

-- The command of one rank: native multi-node arguments only for more than one node.
unfoldable pub rank_command : Settings → ModelDefinition → ℕ → List Arg
unfolding list_or_nil
rank_command c m rank =
    let base = word "vllm" ∷ word "serve" ∷ list_or_nil (build_cmd m) in
    let native =
      base
      ++ (word "--nnodes"
          ∷ decimal m.cluster_nodes
          ∷ word "--node-rank"
          ∷ decimal rank
          ∷ word "--master-addr"
          ∷ word c.head_host
          ∷ word "--master-port"
          ∷ decimal c.master_port
          ∷ []) in
    if ltb 1 m.cluster_nodes
    then (if ltb 0 rank then native ++ word "--headless" ∷ [] else native)
    else base

-- model.exec_container or SPARK_CLUSTER_CONTAINER
unfoldable pub container_of : Settings → ModelDefinition → String
container_of c m = if str_eq m.exec_container "" then c.cluster_container else m.exec_container

module _ (e : World) (c : Settings) where
  open e use {State}

  unfoldable pub on_host : ModelDefinition → Script → Option String → Exec State (Unit {0})
  on_host m script none = raise (backend_error "IndexError")
  on_host m script (some host) = do Outside.run_on_worker e host script; pure tt

  -- _exec_shell_script
  unfoldable pub exec_shell_script : ModelDefinition → Script → ℕ → Exec State (Unit {0})
  exec_shell_script m script zero = do Outside.exec_in_workload e (container_of c m) script; pure tt
  exec_shell_script m script (suc r) = on_host m script (get_elem? c.worker_hosts r)

  -- _stop_spark_serve: an unreachable node does not abort the teardown of the others.
  unfoldable pub stop_spark_serve : ModelDefinition → Exec State (Unit {0})
  unfolding ranks_from
  stop_spark_serve m =
      for_each (ranks_from m.cluster_nodes 0)
        λ rank. catch (exec_shell_script m (kill_serve (hf_or m.name m)) rank) (λ _. pure tt)

  -- _start_spark_serve: workers first.
  unfoldable pub start_spark_serve : ModelDefinition → Exec State (Unit {0})
  unfolding ranks_down
  start_spark_serve m = do
    stop_spark_serve m
    for_each (ranks_down m.cluster_nodes)
        λ rank. exec_shell_script m (launch m.name rank m.extra_env (rank_command c m rank)) rank

  unfoldable pub require_running : Option Workload → Exec State (Unit {0})
  require_running none = raise container_down
  require_running (some w) = if str_eq w.status "running" then pure tt else raise container_down

  unfoldable pub require_worker : Bool → Exec State (Unit {0})
  require_worker true = pure tt
  require_worker false = raise worker_down

  unfoldable pub check_worker : String → Exec State (Unit {0})
  check_worker host = do
    up ← catch (Outside.run_on_worker e host inspect_running) (λ _. raise worker_unreachable)
    require_worker up

  unfoldable pub check_ray : ModelDefinition → Exec State (Unit {0})
  check_ray m =
      if m.requires_ray_cluster
      then (do
        nodes ← count_ray_nodes e (container_of c m)
        if ltb nodes m.tensor_parallel_size then raise ray_too_small else pure tt)
      else pure tt

  -- _verify_spark_cluster_ready
  unfoldable pub verify_spark_cluster_ready : ModelDefinition → Exec State (Unit {0})
  verify_spark_cluster_ready m =
      if ltb (length c.worker_hosts) (m.cluster_nodes - 1) then raise too_few_nodes else do
        w ← Outside.get_workload e (container_of c m)
        require_running w
        for_each (take_hosts (m.cluster_nodes - 1) c.worker_hosts) check_worker
        check_ray m

  -- _stop_exec_model
  unfoldable pub stop_exec_model : ModelDefinition → Exec State (Unit {0})
  stop_exec_model m = if is_spark m.engine then stop_spark_serve m else stop_ray_vllm e m
