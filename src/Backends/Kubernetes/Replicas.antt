-- ===== src/Backends/Kubernetes/Replicas.antt =====
-- What KubernetesBackend does to the replicas of the Deployments, with an API that keeps its documented
-- behaviour and refuses no well-formed call: a scale is patched just where the Deployment is there, one is created just where it is not,
-- and the making of a Service changes no Deployment.
use dmr.Prelude.{ℕ, String, Option, none, some, str_eq, if◌then◌else◌, ◌≡◌}
use dmr.Backends.{Failure, Answer, value, raised, Method, Creation}
use dmr.Backends.Kubernetes.Deployment.{V1Deployment, V1Service}
use dmr.Backends.Kubernetes.{
  Api, stop_workload, remove_workload, pause_workload, unpause_workload, create_and_start,
}

-- The replicas that a Deployment is to have, if there is one of this name.
abbrev pub Replicas : Type 0
Replicas = String → Option ℕ

abbrev pub update : String → Option ℕ → Replicas → Replicas
update n v f m = if str_eq n m then v else f m

pub record IsCluster (k : Api) : Type 0 where
  pub replicas : k.State → Replicas
  pub patch_there :
      (n : String) (r : ℕ) (s : k.State) (v : ℕ)
      → replicas s n ≡ some v
      → (s' : k.State) × ((k.patch_scale n r s ≡ (value tt, s'))
          × ((m : String) → replicas s' m ≡ update n (some r) (replicas s) m))
  pub patch_missing :
      (n : String) (r : ℕ) (s : k.State)
      → replicas s n ≡ none
      → (x : Failure) × (k.patch_scale n r s ≡ (raised x, s))
  pub create_missing :
      (d : V1Deployment) (s : k.State)
      → replicas s d.name ≡ none
      → (s' : k.State) × ((k.create_deployment d s ≡ (value tt, s'))
          × ((m : String) → replicas s' m ≡ update d.name (some d.replicas) (replicas s) m))
  pub service_apart :
      (v : V1Service) (s : k.State) (m : String)
      → replicas (k.create_service v s).1 m ≡ replicas s m

pub data Op : Type 0 where
  stop remove pause unpause : String → Op
  create : Creation → Op

abbrev pub target : Op → String
target (stop n) = n
target (remove n) = n
target (pause n) = n
target (unpause n) = n
target (create c) = c.name

abbrev pub scaled : ℕ → Option ℕ → Option ℕ
scaled r none = none
scaled r (some v) = some r

-- The replicas of the operation's Deployment afterwards: nothing but its creation makes one.
abbrev pub next_replicas : Op → Option ℕ → Option ℕ
next_replicas (stop n) v = scaled 0 v
next_replicas (remove n) v = scaled 0 v
next_replicas (pause n) v = scaled 0 v
next_replicas (unpause n) v = scaled 1 v
next_replicas (create c) v = some 1

abbrev pub spec : Op → Replicas → Replicas
spec op f = update (target op) (next_replicas op (f (target op))) f

abbrev pub perform : (namespace : String) (k : Api) → Op → Method k.State (Unit {0})
perform namespace k (stop n) = stop_workload k n
perform namespace k (remove n) = remove_workload k n
perform namespace k (pause n) = pause_workload k n
perform namespace k (unpause n) = unpause_workload k n
perform namespace k (create c) = create_and_start namespace k c

-- No operation raises, and the replicas are then as `spec` says.
pub record Meets (k : Api) (w : IsCluster k) (op : Op) (s : k.State)
    (r : Answer (Unit {0}) × k.State) : Type 0 where
  pub answered : r.0 ≡ value tt
  pub moved : (m : String) → w.replicas r.1 m ≡ spec op (w.replicas s) m
