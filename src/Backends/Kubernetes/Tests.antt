-- ===== src/Backends/Kubernetes/Tests.antt =====
-- A small Kubernetes API, and instances of the theorems on gateway/backends/kubernetes_backend.py.
use dmr.Prelude.{ℕ, String, Option, none, some, [], refl, ap}
use dmr.Config.{stop_start, is_exec}
use dmr.Orchestrator.Lifecycle.{ensure_container_running}
use dmr.Backends.{other, Answer, value, raised}
use dmr.Backends.Tests.{some_model, nothing_there, idle, settings, own_model, fresh}
use dmr.Backends.Kubernetes.{Api}
use dmr.Backends.Kubernetes.Deployment.{build_deployment, build_service}
use dmr.Backends.Kubernetes.Deployment.Wiring.{IsWired, build_deployment-IsWired}
use dmr.Backends.Kubernetes.Replicas.{Replicas, update, IsCluster}
use dmr.Backends.Worlds.{kubernetes_world}
use dmr.Backends.Worlds.OnKubernetes.{IsRefused, ensure_container_running-IsRefused}

-- A cluster whose state is the replicas that each Deployment is to have; nothing is running in it.
abbrev scale_to : String → ℕ → Replicas → Option ℕ → Answer (Unit {0}) × Replicas
scale_to n r s none = (raised (other n), s)
scale_to n r s (some v) = (value tt, update n (some r) s)

abbrev deployed : String → ℕ → Replicas → Option ℕ → Answer (Unit {0}) × Replicas
deployed n r s none = (value tt, update n (some r) s)
deployed n r s (some v) = (raised (other n), s)

abbrev small_cluster : Api
small_cluster = record {
  State = Replicas;
  list_pods = λ l b s. (value [], s);
  patch_scale = λ n r s. scale_to n r s (s n);
  create_deployment = λ d s. deployed d.name d.replicas s (s d.name);
  create_service = λ v s. (raised (other v.name), s);
  exec_stream = λ n l s. (value none, s);
}

small_cluster-IsCluster : IsCluster small_cluster
small_cluster-IsCluster = record {
  replicas = λ s. s;
  patch_there = λ n r s v h. (_, (ap (scale_to n r s) h, λ m. refl));
  patch_missing = λ n r s h. (other n, ap (scale_to n r s) h);
  create_missing = λ d s h. (_, (ap (deployed d.name d.replicas s) h, λ m. refl));
  service_apart = λ v s m. refl;
}

build_deployment-IsWired_example :
    IsWired some_model (build_deployment "dmr" some_model) (build_service "dmr" some_model)
build_deployment-IsWired_example = build_deployment-IsWired "dmr" some_model

ensure_container_running-IsRefused_example : IsRefused "qwen" (
    ensure_container_running
      (kubernetes_world small_cluster idle)
      settings
      stop_start
      own_model
      (fresh nothing_there))
unfolding is_exec
ensure_container_running-IsRefused_example =
    ensure_container_running-IsRefused small_cluster idle settings own_model stop_start
      (fresh nothing_there) [] nothing_there refl refl refl
