-- ===== src/Backends/Kubernetes/Deployment/Wiring.antt =====
-- The parts of a Deployment that the Gateway makes refer to each other as Kubernetes wants it.
use dmr.Prelude.{
  ℕ, suc, ◌<◌, ◌≡◌, ◌≢◌, refl, ap, String, Option, none, some, List, [], ◌∷◌, ◌++◌, All, arith,
  length,
}
use mathlib.Core.List.{map}
use dmr.Orchestrator.Exec.{Arg, word}
use dmr.Backends.{Command, no_command, shell_line, words, MountInfo, Creation}
use dmr.Backends.Kubernetes.Deployment.{
  VolumeName, dshm, vol, V1Volume, V1VolumeMount, V1Deployment, V1Service, host_volumes,
  host_mounts, volumes_of, mounts_of, cmd_of, args_of, container_of, app_labels, build_deployment,
  build_service,
}

abbrev pub or_nil : Option (List Arg) → List Arg
or_nil none = []
or_nil (some a) = a

-- What the container is to run.
abbrev pub line_of : Command → List Arg
line_of no_command = []
line_of (shell_line t) = word "/bin/bash" ∷ word "-c" ∷ t ∷ []
line_of (words ws) = ws

abbrev pub Distinct : List VolumeName → Type 0
Distinct [] = Unit
Distinct (n ∷ ns) = All (λ m. n ≢ m) ns × Distinct ns

abbrev volume_names : List V1Volume → List VolumeName
volume_names = map (λ v. v.name)

abbrev mount_names : List V1VolumeMount → List VolumeName
mount_names = map (λ v. v.name)

-- Each mount is of one volume of the pod, in their order, and each volume has a name of its own; command and args are the
-- command line; the selectors of the Deployment and of the Service are the labels of its pods, and their ports agree.
pub record IsWired (c : Creation) (d : V1Deployment) (v : V1Service) : Type 0 where
  pub mounted : mount_names d.container.volume_mounts ≡ volume_names d.volumes
  pub distinct : Distinct (volume_names d.volumes)
  pub complete : length d.volumes ≡ suc (length c.volumes)
  pub line : or_nil d.container.command ++ or_nil d.container.args ≡ line_of c.command
  pub owned : d.match_labels ≡ d.template_labels
  pub served : v.selector ≡ d.template_labels
  pub reached : v.target_port ≡ d.container.container_port
  pub probed : d.container.readiness_probe.port ≡ d.container.container_port

mount_names-host :
    (i : ℕ) (vs : List (String × MountInfo))
    → mount_names (host_mounts i vs) ≡ volume_names (host_volumes i vs)
unfolding host_mounts host_volumes
mount_names-host i [] = refl
mount_names-host i (v ∷ vs) = ap (vol i ∷◌) (mount_names-host (suc i) vs)

vol_lt : (i j : ℕ) → i < j → vol i ≢ vol j
vol_lt i j h e = omega (arith, h, ap number e)
  where
    number : VolumeName → ℕ
    number dshm = 0
    number (vol k) = k

host_volumes-above :
    (i j : ℕ) (vs : List (String × MountInfo))
    → i < j
    → All (λ m. vol i ≢ m) (volume_names (host_volumes j vs))
unfolding host_volumes
host_volumes-above i j [] h = tt
host_volumes-above i j (v ∷ vs) h = (vol_lt i j h, host_volumes-above i (suc j) vs (omega arith))

host_volumes-named :
    (j : ℕ) (vs : List (String × MountInfo))
    → All (λ m. dshm ≢ m) (volume_names (host_volumes j vs))
unfolding host_volumes
host_volumes-named j [] = tt
host_volumes-named j (v ∷ vs) = ((λ e. cc e), host_volumes-named (suc j) vs)

host_volumes-Distinct :
    (i : ℕ) (vs : List (String × MountInfo)) → Distinct (volume_names (host_volumes i vs))
unfolding host_volumes
host_volumes-Distinct i [] = tt
host_volumes-Distinct i (v ∷ vs) =
    (host_volumes-above i (suc i) vs (omega arith), host_volumes-Distinct (suc i) vs)

length-host_volumes :
    (i : ℕ) (vs : List (String × MountInfo)) → length (host_volumes i vs) ≡ length vs
unfolding host_volumes
length-host_volumes i [] = refl
length-host_volumes i (v ∷ vs) = ap suc (length-host_volumes (suc i) vs)

line_of-split : (c : Command) → or_nil (cmd_of c) ++ or_nil (args_of c) ≡ line_of c
unfolding cmd_of args_of
line_of-split no_command = refl
line_of-split (shell_line t) = refl
line_of-split (words []) = refl
line_of-split (words (a ∷ [])) = refl
line_of-split (words (a ∷ b ∷ rest)) = refl

-- Whatever a model's workload is created from, each mount of the Deployment is of one of the pod's volumes, in their order; these
-- have distinct names, one for the shared memory and one for each volume of the model; command and args make up the
-- command line; and the selectors of the Deployment and of the Service and their ports are those of the pods.
pub build_deployment-IsWired :
    (namespace : String) (c : Creation)
    → IsWired c (build_deployment namespace c) (build_service namespace c)
unfolding build_deployment build_service container_of volumes_of mounts_of
    dmr.Backends.Kubernetes.Deployment.probe
build_deployment-IsWired namespace c = record {
  mounted = ap (dshm ∷◌) (mount_names-host 0 c.volumes);
  distinct = (host_volumes-named 0 c.volumes, host_volumes-Distinct 0 c.volumes);
  complete = ap suc (length-host_volumes 0 c.volumes);
  line = line_of-split c.command;
  owned = refl;
  served = refl;
  reached = refl;
  probed = refl;
}
