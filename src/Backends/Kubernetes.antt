-- ===== src/Backends/Kubernetes.antt =====
-- gateway/backends/kubernetes_backend.py, class KubernetesBackend. The Kubernetes API is the parameter
-- `k : Api`; the Deployment and the Service that the backend makes are in Deployment.
pub mod Deployment
pub mod Replicas
pub mod Refinement
mod Tests
use dmr.Prelude.{
  ℕ, String, Bool, true, false, Option, none, some, List, [], ◌∷◌, str_eq, if◌then◌else◌,
}
use Prim.Native.String.{◌++◌ as str_append}
use dmr.Config.{Engine, is_ray}
use dmr.Orchestrator.Outside.{Workload}
use dmr.Backends.{Failure, text_of, Method, pure, catch, ◌>>=◌, ◌>>◌, ExecResult, Creation}
use dmr.Backends.Kubernetes.Deployment.{V1Deployment, V1Service, build_deployment, build_service}

-- The phases that the API documents for a pod.
pub data Phase : Type 0 where
  pending running succeeded failed unknown : Phase

-- pod.status; a condition is its type and status.
pub record PodStatus : Type 0 where
  pub phase : Option Phase
  pub conditions : Option (List (String × String))

pub record Pod : Type 0 where
  pub name : String
  pub status : Option PodStatus

-- CoreV1Api and AppsV1Api in one namespace.
pub record Api : Type 1 where
  pub State : Type 0
  -- list_namespaced_pod, with the label selector and whether only status.phase=Running is asked for.
  pub list_pods : String → Bool → Method State (List Pod)
  pub patch_scale : String → ℕ → Method State (Unit {0})
  pub create_deployment : V1Deployment → Method State (Unit {0})
  pub create_service : V1Service → Method State (Unit {0})
  -- The stream of connect_get_namespaced_pod_exec.
  pub exec_stream : String → List String → Method State (Option String)

-- f"app={name}"
unfoldable pub app_label : String → String
app_label n = str_append "app=" n

unfoldable pub is_ready : List (String × String) → Bool
is_ready [] = false
is_ready ((t, v) ∷ cs) =
    if str_eq t "Ready" then (if str_eq v "True" then true else is_ready cs) else is_ready cs

-- The status of a running pod: both ends of the loop over its conditions say the same.
unfoldable pub running_status : Option (List (String × String)) → String
unfolding is_ready
running_status none = "running"
running_status (some cs) = if is_ready cs then "running" else "running"

-- _pod_status
unfoldable pub phase_status : Option Phase → Option (List (String × String)) → String
unfolding running_status
phase_status none cs = "unknown"
phase_status (some running) cs = running_status cs
phase_status (some pending) cs = "created"
phase_status (some succeeded) cs = "exited"
phase_status (some failed) cs = "dead"
phase_status (some unknown) cs = "unknown"

unfoldable pub pod_status : Option PodStatus → String
unfolding phase_status
pod_status none = "unknown"
pod_status (some p) = phase_status p.phase p.conditions

unfoldable pub info_of : Pod → Workload
unfolding pod_status
info_of p = record { name = p.name; status = pod_status p.status }

unfoldable pub infos_of : List Pod → List Workload
unfolding info_of
infos_of [] = []
infos_of (p ∷ ps) = info_of p ∷ infos_of ps

unfoldable pub first_info : List Pod → Option Workload
unfolding info_of
first_info [] = none
first_info (p ∷ ps) = some (info_of p)

unfoldable pub first_name : List Pod → Option String
first_name [] = none
first_name (p ∷ ps) = some p.name

unfoldable pub or_empty : Option String → String
or_empty none = ""
or_empty (some t) = t

-- The label selector of list_workloads.
unfoldable pub selector_of : Option String → String
unfolding app_label
selector_of none = ""
selector_of (some l) = if str_eq l "" then "" else app_label l

-- resolve_hostname, for RAY_HEAD_HOST.
unfoldable pub resolve_hostname : String → String → Engine → String
unfolding is_ray
resolve_hostname head name g = if is_ray g then head else name

unfoldable pub exec_failed : Failure → ExecResult
unfolding text_of
exec_failed x = record { exit_code = 1; output = text_of x }

module _ (k : Api) where
  open k use {State}

  unfoldable pub get_workload : String → Method State (Option Workload)
  unfolding app_label first_info
  get_workload n =
      catch (do ps ← k.list_pods (app_label n) false; pure (first_info ps)) (λ _. pure none)

  -- stop_workload, whose timeout is not used.
  unfoldable pub stop_workload : String → Method State (Unit {0})
  stop_workload n = catch (k.patch_scale n 0) (λ _. pure tt)

  unfoldable pub remove_workload : String → Method State (Unit {0})
  unfolding stop_workload
  remove_workload n = stop_workload n

  unfoldable pub pause_workload : String → Method State (Unit {0})
  unfolding stop_workload
  pause_workload n = stop_workload n

  unfoldable pub unpause_workload : String → Method State (Unit {0})
  unpause_workload n = catch (k.patch_scale n 1) (λ _. pure tt)

  -- _resolve_pod_name
  unfoldable pub resolve_pod_name : String → Method State (Option String)
  unfolding app_label first_name
  resolve_pod_name n =
      catch (do ps ← k.list_pods (app_label n) true; pure (first_name ps)) (λ _. pure none)

  unfoldable pub exec_in_pod : String → List String → Option String → Method State ExecResult
  unfolding or_empty exec_failed
  exec_in_pod n command none = pure (record {
    exit_code = 1;
    output = str_append "No running pod found for '" (str_append n "'");
  })
  exec_in_pod n command (some pod) =
      catch
        (do out ← k.exec_stream pod command; pure (record { exit_code = 0; output = or_empty out }))
        (λ x. pure (exec_failed x))

  unfoldable pub exec_in_workload : String → List String → Method State ExecResult
  unfolding exec_in_pod resolve_pod_name
  exec_in_workload n command = do pod ← resolve_pod_name n; exec_in_pod n command pod

  unfoldable pub list_workloads : Option String → Method State (List Workload)
  unfolding selector_of infos_of
  list_workloads l =
      catch (do ps ← k.list_pods (selector_of l) true; pure (infos_of ps)) (λ _. pure [])

  unfoldable pub ensure_network : String → Method State (Unit {0})
  ensure_network n = pure tt

-- `namespace` is K8S_NAMESPACE.
module _ (namespace : String) (k : Api) where
  open k use {State}

  -- _create_deployment; that the Service cannot be made is not an error.
  unfoldable pub create_deployment : Creation → Method State (Unit {0})
  unfolding build_deployment build_service
  create_deployment c = do
    k.create_deployment (build_deployment namespace c)
    catch (k.create_service (build_service namespace c)) (λ _. pure tt)

  -- create_and_start, which does not look at the entrypoint.
  unfoldable pub create_and_start : Creation → Method State (Unit {0})
  unfolding create_deployment
  create_and_start c = catch (k.patch_scale c.name 1) (λ _. create_deployment c)
