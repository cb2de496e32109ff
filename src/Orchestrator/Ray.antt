-- ===== src/Orchestrator/Ray.antt =====
-- The Ray part of gateway/orchestrator.py: the head workload, its node count and its serve processes.
use dmr.Prelude.{
  ℕ, String, Bool, false, ◌||◌, Option, none, some, List, [], ◌∷◌, str_eq, leb, codes, is_infix,
  if◌then◌else◌,
}
use dmr.Config.{ModelDefinition}
use dmr.Orchestrator.Exec.{
  Exec, no_ray_head, Arg, word, pure, raise, catch, ◌>>=◌, ◌>>◌, count_nodes, kill_ray_serve,
  kill_all_ray, launch_ray, clean_placement_groups,
}
use dmr.Orchestrator.Outside.{World, Workload}
use dmr.Orchestrator.Outside
use dmr.Orchestrator.Command.{build_cmd}

abbrev pub ray_head_name : String
ray_head_name = "ray-node-head"

-- The first workload whose name is RAY_HEAD_NAME or contains it.
unfoldable pub first_head : List Workload → Option String
unfolding is_infix
first_head [] = none
first_head (w ∷ ws) =
    if str_eq w.name ray_head_name || is_infix (codes ray_head_name) (codes w.name)
    then some w.name
    else first_head ws

unfoldable pub list_or_nil : Option (List Arg) → List Arg
list_or_nil none = []
list_or_nil (some args) = args

-- `["vllm", "serve"] + cmd`, unless the model brings a prefix.
unfoldable pub ray_command : ModelDefinition → List Arg
unfolding list_or_nil
ray_command m = elim m.cmd_prefix [
  | [] ↦ word "vllm" ∷ word "serve" ∷ list_or_nil (build_cmd m)
  | p ∷ ps ↦ list_or_nil (build_cmd m)
]

module _ (e : World) where
  open e use {State}

  -- _find_ray_head
  unfoldable pub find_ray_head : Exec State (Option String)
  find_ray_head = do ws ← Outside.list_workloads e ray_head_name; pure (first_head ws)

  -- _count_ray_nodes: what cannot be read counts as no node.
  unfoldable pub count_ray_nodes : String → Exec State ℕ
  count_ray_nodes container = catch (Outside.exec_in_workload e container count_nodes) (λ _. pure 0)

  unfoldable pub enough_nodes : ℕ → Option String → Exec State Bool
  enough_nodes required none = pure false
  enough_nodes required (some head) = do n ← count_ray_nodes head; pure (leb required n)

  -- _verify_ray_cluster_ready
  unfoldable pub verify_ray_cluster_ready : ℕ → Exec State Bool
  verify_ray_cluster_ready required = do head ← find_ray_head; enough_nodes required head

  -- _cleanup_ray_placement_groups
  unfoldable pub cleanup_ray_placement_groups : String → Exec State (Unit {0})
  cleanup_ray_placement_groups head =
      catch (do Outside.exec_in_workload e head clean_placement_groups; pure tt) (λ _. pure tt)

  unfoldable pub stop_in : ModelDefinition → Option String → Exec State (Unit {0})
  stop_in m none = pure tt
  stop_in m (some head) = do
    Outside.exec_in_workload e head (kill_ray_serve m.container_name m.port)
    cleanup_ray_placement_groups head

  -- _stop_ray_vllm
  unfoldable pub stop_ray_vllm : ModelDefinition → Exec State (Unit {0})
  stop_ray_vllm m = do head ← find_ray_head; stop_in m head

  unfoldable pub start_in : ModelDefinition → Option String → Exec State (Unit {0})
  start_in m none = raise no_ray_head
  start_in m (some head) = do
    stop_ray_vllm m
    Outside.exec_in_workload e head (launch_ray m.container_name (ray_command m))
    pure tt

  -- _start_ray_vllm
  unfoldable pub start_ray_vllm : ModelDefinition → Exec State (Unit {0})
  start_ray_vllm m = do head ← find_ray_head; start_in m head

  unfoldable pub kill_in : Option String → Exec State (Unit {0})
  kill_in none = pure tt
  kill_in (some head) = do
    Outside.exec_in_workload e head kill_all_ray
    cleanup_ray_placement_groups head

  -- _kill_all_ray_vllm
  unfoldable pub kill_all_ray_vllm : Exec State (Unit {0})
  kill_all_ray_vllm = do head ← find_ray_head; kill_in head
