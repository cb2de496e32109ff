-- ===== src/Backends/Kubernetes/Refinement.antt =====
-- Each operation of KubernetesBackend, and each sequence of them, does to the replicas what `spec` says.
use dmr.Prelude.{String, List, [], ◌∷◌}
use dmr.Backends.Kubernetes.{Api}
use dmr.Backends.Kubernetes.Replicas.{Replicas, Op, spec, perform}

-- A sequence of operations, in order.
abbrev pub perform_all : (namespace : String) (k : Api) → List Op → k.State → k.State
perform_all namespace k [] s = s
perform_all namespace k (op ∷ ops) s = perform_all namespace k ops (perform namespace k op s).1

abbrev pub spec_all : List Op → Replicas → Replicas
spec_all [] f = f
spec_all (op ∷ ops) f = spec_all ops (spec op f)
