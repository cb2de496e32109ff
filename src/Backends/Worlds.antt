-- ===== src/Backends/Worlds.antt =====
-- gateway/orchestrator.py on the backends of gateway/backends: the world that its model runs in, made of a
-- backend and of `Rest`, what the orchestrator asks of others.
pub mod Effects
pub mod OnDocker
pub mod OnKubernetes
use dmr.Prelude.{ℕ, String, Bool, true, false, Option, none, some, List, [], ◌∷◌}
use dmr.Config.{Volume}
use dmr.Orchestrator.Exec.{Result, ok, err, backend_error, Arg, Script}
use dmr.Orchestrator.Exec
use dmr.Orchestrator.Outside.{World}
use dmr.Backends.{
  Answer, value, raised, text_of, ExecResult, Command, no_command, words, MountInfo, options,
  Creation,
}
use dmr.Backends.Docker
use dmr.Backends.Docker.{Client}
use dmr.Backends.Kubernetes
use dmr.Backends.Kubernetes.{Api}

-- ssh, the health endpoints, the VRAM monitor, the clock and the state file; the command line of a script,
-- and the number that the callers parse out of an output.
pub record Rest (S : Type 0) : Type 0 where
  pub run_on_worker : String → Script → S → Result Bool × S
  pub check_health : String → ℕ → S → Bool × S
  pub query_gpus : S → Result ℕ × S
  pub sleep : ℕ → S → S
  pub persist : String → S → S
  pub clock : S → ℕ
  pub command_line : Script → List String
  pub parse : ExecResult → ℕ

-- What a backend raises reaches the orchestrator as an error of its callee.
abbrev pub outcome_of : {A S : Type 0} → Answer A × S → Result A × S
outcome_of (value a, s) = (ok a, s)
outcome_of (raised x, s) = (err (backend_error (text_of x)), s)

abbrev pub parsed : {S : Type 0} → (ExecResult → ℕ) → Answer ExecResult × S → Result ℕ × S
parsed f (value r, s) = (ok (f r), s)
parsed f (raised x, s) = (err (backend_error (text_of x)), s)

unfoldable pub command_of : Option (List Arg) → Command
command_of none = no_command
command_of (some ws) = words ws

unfoldable pub mounts_of : List Volume → List (String × MountInfo)
mounts_of [] = []
mounts_of (v ∷ vs) = (v.host_path, options (some v.bind) (some v.mode)) ∷ mounts_of vs

-- The arguments of _create_and_start's call.
unfoldable pub creation_of : Exec.Creation → Creation
unfolding command_of mounts_of
creation_of c = record {
  name = c.name;
  image = c.image;
  command = command_of c.command;
  environment = c.environment;
  volumes = mounts_of c.volumes;
  port = c.port;
  shm_size = "16g";
  entrypoint = c.entrypoint;
}

abbrev pub docker_world : (network : String) (d : Client) → Rest d.State → World
docker_world network d r = record {
  State = d.State;
  supports_pause = true;
  get_workload = λ n s. outcome_of (Docker.get_workload d n s);
  remove_workload = λ n s. outcome_of (Docker.remove_workload d n s);
  pause_workload = λ n s. outcome_of (Docker.pause_workload d n s);
  unpause_workload = λ n s. outcome_of (Docker.unpause_workload d n s);
  stop_workload = λ n s. outcome_of (Docker.stop_workload d n 10 s);
  ensure_network = λ n s. outcome_of (Docker.ensure_network network d n s);
  create_and_start = λ c s. outcome_of (Docker.create_and_start network d (creation_of c) s);
  exec_in_workload = λ n c s. parsed r.parse (Docker.exec_in_workload d n (r.command_line c) s);
  run_on_worker = r.run_on_worker;
  list_workloads = λ l s. outcome_of (Docker.list_workloads d (some l) s);
  check_health = r.check_health;
  query_gpus = r.query_gpus;
  sleep = r.sleep;
  persist = r.persist;
  clock = r.clock;
}

-- Python refuses a call with a keyword that the method does not have, before the method runs.
abbrev pub no_entrypoint : String
no_entrypoint =
    "KubernetesBackend.create_and_start() got an unexpected keyword argument 'entrypoint'"

abbrev pub kubernetes_world : (k : Api) → Rest k.State → World
kubernetes_world k r = record {
  State = k.State;
  supports_pause = false;
  get_workload = λ n s. outcome_of (Kubernetes.get_workload k n s);
  remove_workload = λ n s. outcome_of (Kubernetes.remove_workload k n s);
  pause_workload = λ n s. outcome_of (Kubernetes.pause_workload k n s);
  unpause_workload = λ n s. outcome_of (Kubernetes.unpause_workload k n s);
  stop_workload = λ n s. outcome_of (Kubernetes.stop_workload k n s);
  ensure_network = λ n s. outcome_of (Kubernetes.ensure_network k n s);
  create_and_start = λ c s. (err (backend_error no_entrypoint), s);
  exec_in_workload = λ n c s. parsed r.parse (Kubernetes.exec_in_workload k n (r.command_line c) s);
  run_on_worker = r.run_on_worker;
  list_workloads = λ l s. outcome_of (Kubernetes.list_workloads k (some l) s);
  check_health = r.check_health;
  query_gpus = r.query_gpus;
  sleep = r.sleep;
  persist = r.persist;
  clock = r.clock;
}
