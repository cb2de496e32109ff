-- ===== src/Backends/Kubernetes/Deployment.antt =====
-- The Deployment and the Service of KubernetesBackend._create_deployment, in gateway/backends/kubernetes_backend.py.
pub mod Wiring
use dmr.Prelude.{
  ℕ, suc, ◌==◌, String, Bool, true, false, Option, none, some, List, [], ◌∷◌, str_eq, if◌then◌else◌,
}
use Prim.Native.Char.{code}
use Prim.Native.String.{◌++◌ as str_append}
use dmr.Orchestrator.Exec.{Arg, word}
use dmr.Backends.{Command, no_command, shell_line, words, MountInfo, options, opaque, Creation}

-- A volume's name: "dshm", or f"vol-{idx}".
pub data VolumeName : Type 0 where
  dshm : VolumeName
  vol : ℕ → VolumeName

pub data VolumeSource : Type 0 where
  -- V1EmptyDirVolumeSource: medium and size_limit.
  empty_dir : String → String → VolumeSource
  -- V1HostPathVolumeSource: path and type.
  host_path : String → String → VolumeSource

pub record V1Volume : Type 0 where
  pub name : VolumeName
  pub source : VolumeSource

pub record V1VolumeMount : Type 0 where
  pub name : VolumeName
  pub mount_path : String
  pub read_only : Bool

-- V1Probe with its V1HTTPGetAction; what is not given is `none`.
pub record V1Probe : Type 0 where
  pub path : String
  pub port : ℕ
  pub initial_delay_seconds : Option ℕ
  pub period_seconds : ℕ
  pub timeout_seconds : ℕ
  pub failure_threshold : ℕ

pub record V1Container : Type 0 where
  pub name : String
  pub image : String
  pub command : Option (List Arg)
  pub args : Option (List Arg)
  pub env : List (String × Arg)
  pub container_port : ℕ
  pub volume_mounts : List V1VolumeMount
  pub limits : List (String × String)
  pub startup_probe : V1Probe
  pub readiness_probe : V1Probe
  pub liveness_probe : V1Probe

-- V1Deployment, with the metadata and the pod spec of its template.
pub record V1Deployment : Type 0 where
  pub name : String
  pub namespace : String
  pub labels : List (String × String)
  pub replicas : ℕ
  pub match_labels : List (String × String)
  pub template_labels : List (String × String)
  pub container : V1Container
  pub volumes : List V1Volume

pub record V1Service : Type 0 where
  pub name : String
  pub namespace : String
  pub selector : List (String × String)
  pub port : ℕ
  pub target_port : ℕ
  pub kind : String

-- shm_size.replace("g", "Gi")
unfoldable pub to_gi : String → String
to_gi String.[] = ""
to_gi (String.◌∷◌ c s) =
    let rest = to_gi s in if code c == 103 then str_append "Gi" rest else String.◌∷◌ c rest

unfoldable pub or_default : String → Option String → String
or_default d none = d
or_default d (some t) = t

-- mount_info.get("bind", host_path) if isinstance(mount_info, dict) else host_path
unfoldable pub bind_path : String → MountInfo → String
unfolding or_default
bind_path host (options b m) = or_default host b
bind_path host opaque = host

-- mount_info.get("mode", "rw") == "ro" if isinstance(mount_info, dict) else False
unfoldable pub is_read_only : MountInfo → Bool
unfolding or_default
is_read_only (options b m) = str_eq (or_default "rw" m) "ro"
is_read_only opaque = false

-- The loop over the volumes, from `idx`: the volumes and their mounts.
unfoldable pub host_volumes : ℕ → List (String × MountInfo) → List V1Volume
host_volumes idx [] = []
host_volumes idx ((h, i) ∷ vs) =
    record { name = vol idx; source = host_path h "Directory" } ∷ host_volumes (suc idx) vs

unfoldable pub host_mounts : ℕ → List (String × MountInfo) → List V1VolumeMount
unfolding bind_path is_read_only
host_mounts idx [] = []
host_mounts idx ((h, i) ∷ vs) =
    record { name = vol idx; mount_path = bind_path h i; read_only = is_read_only i }
    ∷ host_mounts (suc idx) vs

unfoldable pub volumes_of : Creation → List V1Volume
unfolding host_volumes to_gi
volumes_of c =
    record { name = dshm; source = empty_dir "Memory" (to_gi c.shm_size) }
    ∷ host_volumes 0 c.volumes

unfoldable pub mounts_of : Creation → List V1VolumeMount
unfolding host_mounts
mounts_of c =
    record { name = dshm; mount_path = "/dev/shm"; read_only = false } ∷ host_mounts 0 c.volumes

-- `cmd` and `args`.
unfoldable pub cmd_of : Command → Option (List Arg)
cmd_of no_command = none
cmd_of (shell_line t) = some (word "/bin/bash" ∷ word "-c" ∷ [])
cmd_of (words []) = none
cmd_of (words (a ∷ rest)) = some (a ∷ [])

unfoldable pub args_of : Command → Option (List Arg)
args_of no_command = none
args_of (shell_line t) = some (t ∷ [])
args_of (words []) = none
args_of (words (a ∷ [])) = none
args_of (words (a ∷ b ∷ rest)) = some (b ∷ rest)

unfoldable pub probe : ℕ → Option ℕ → ℕ → ℕ → ℕ → V1Probe
probe port delay period timeout failures = record {
  path = "/health";
  port = port;
  initial_delay_seconds = delay;
  period_seconds = period;
  timeout_seconds = timeout;
  failure_threshold = failures;
}

unfoldable pub container_of : Creation → V1Container
unfolding cmd_of args_of mounts_of probe
container_of c = record {
  name = c.name;
  image = c.image;
  command = cmd_of c.command;
  args = args_of c.command;
  env = c.environment;
  container_port = c.port;
  volume_mounts = mounts_of c;
  limits = ("nvidia.com/gpu", "1") ∷ [];
  startup_probe = probe c.port (some 30) 10 5 30;
  readiness_probe = probe c.port none 30 10 3;
  liveness_probe = probe c.port (some 300) 30 10 3;
}

unfoldable pub app_labels : String → List (String × String)
app_labels n = ("app", n) ∷ []

unfoldable pub build_deployment : String → Creation → V1Deployment
unfolding container_of volumes_of app_labels
build_deployment namespace c = record {
  name = c.name;
  namespace = namespace;
  labels = app_labels c.name;
  replicas = 1;
  match_labels = app_labels c.name;
  template_labels = app_labels c.name;
  container = container_of c;
  volumes = volumes_of c;
}

unfoldable pub build_service : String → Creation → V1Service
unfolding app_labels
build_service namespace c = record {
  name = c.name;
  namespace = namespace;
  selector = app_labels c.name;
  port = c.port;
  target_port = c.port;
  kind = "ClusterIP";
}
