-- ===== src/Backends/Docker.antt =====
-- gateway/backends/docker_backend.py, class DockerBackend. The Docker SDK is the parameter `d : Client`.
pub mod Phases
pub mod Refinement
pub mod Errors
pub mod Networks
use dmr.Prelude.{
  ℕ, String, Bool, true, false, ◌&&◌, not, Option, none, some, List, [], ◌∷◌, str_eq, if◌then◌else◌,
}
use Prim.Native.String.{◌++◌ as str_append}
use dmr.Config.{Engine, is_exec}
use dmr.Orchestrator.Exec.{Arg}
use dmr.Orchestrator.Outside.{Workload}
use dmr.Backends.{
  Failure, not_found, api_error, other, text_of, Answer, Method, pure, throw, catch, ◌>>=◌,
  ExecResult, Command, MountInfo, Creation,
}

-- A container object of the SDK: its networks are the keys of NetworkSettings.Networks, if it has them.
pub record Container : Type 0 where
  pub name : String
  pub status : String
  pub networks : Option (List String)

-- docker.types.Healthcheck; the times are in nanoseconds.
pub record Healthcheck : Type 0 where
  pub url_port : ℕ
  pub interval : ℕ
  pub timeout : ℕ
  pub start_period : ℕ
  pub retries : ℕ

-- The arguments of containers.run.
pub record RunArgs : Type 0 where
  pub image : String
  pub name : String
  pub command : Command
  pub environment : List (String × Arg)
  pub volumes : List (String × MountInfo)
  pub tcp_port : ℕ × ℕ
  pub network : String
  pub detach : Bool
  pub dns : List String
  pub all_gpus : Bool
  pub restart_policy : String
  pub shm_size : String
  pub healthcheck : Healthcheck
  pub entrypoint : Option (List String)

-- What exec_run answers: its exit code, and its output as it is decoded.
pub record ExecRun : Type 0 where
  pub exit_code : Option ℕ
  pub output : Option String

-- docker.DockerClient
pub record Client : Type 1 where
  pub State : Type 0
  pub get : String → Method State Container
  pub run : RunArgs → Method State (Unit {0})
  pub stop : Container → ℕ → Method State (Unit {0})
  -- force=True
  pub remove : Container → Method State (Unit {0})
  pub pause : Container → Method State (Unit {0})
  pub unpause : Container → Method State (Unit {0})
  pub exec_run : Container → List String → Method State ExecRun
  -- filters={"status": "running"}
  pub list_running : Method State (List Container)
  pub get_network : String → Method State String
  pub connect : String → Container → Method State (Unit {0})
  -- label in name
  pub name_contains : String → String → Bool

unfoldable pub info_of : Container → Workload
info_of c = record { name = c.name; status = c.status }

unfoldable pub run_args : String → Creation → RunArgs
run_args network c = record {
  image = c.image;
  name = c.name;
  command = c.command;
  environment = c.environment;
  volumes = c.volumes;
  tcp_port = (c.port, c.port);
  network = network;
  detach = true;
  dns = "8.8.8.8" ∷ "8.8.4.4" ∷ [];
  all_gpus = true;
  restart_policy = "unless-stopped";
  shm_size = c.shm_size;
  healthcheck = record {
    url_port = c.port;
    interval = 30000000000;
    timeout = 10000000000;
    start_period = 300000000000;
    retries = 3;
  };
  entrypoint = c.entrypoint;
}

unfoldable pub member : String → List String → Bool
member n [] = false
member n (k ∷ ks) = if str_eq k n then true else member n ks

unfoldable pub or_none : Option (List String) → List String
or_none none = []
or_none (some ks) = ks

unfoldable pub or_zero : Option ℕ → ℕ
or_zero none = 0
or_zero (some n) = n

unfoldable pub or_empty : Option String → String
or_empty none = ""
or_empty (some t) = t

-- `if label_filter and label_filter not in c.name: continue`
unfoldable pub is_skipped : (String → String → Bool) → Option String → Container → Bool
is_skipped has none c = false
is_skipped has (some l) c = not (str_eq l "") && not (has l c.name)

unfoldable pub selected : (String → String → Bool) → Option String → List Container → List Workload
unfolding is_skipped info_of
selected has l [] = []
selected has l (c ∷ cs) =
    if is_skipped has l c then selected has l cs else info_of c ∷ selected has l cs

-- resolve_hostname, for RAY_HEAD_HOST.
unfoldable pub resolve_hostname : String → String → Engine → String
unfolding is_exec
resolve_hostname head name g = if is_exec g then head else name

module _ {S A : Type 0} where
  -- except (NotFound, APIError): a
  unfoldable pub or_else : A → Failure → Method S A
  or_else a (not_found t) = pure a
  or_else a (api_error t) = pure a
  or_else a (other t) = throw (other t)

module _ {S : Type 0} where
  unfoldable pub exec_failed : String → Failure → Method S ExecResult
  exec_failed n (not_found t) =
      pure
        (record { exit_code = 1; output = str_append "Container '" (str_append n "' not found") })
  exec_failed n (api_error t) = pure (record { exit_code = 1; output = t })
  exec_failed n (other t) = throw (other t)

module _ (d : Client) where
  open d use {State}

  unfoldable pub get_workload : String → Method State (Option Workload)
  unfolding info_of
  get_workload n = catch (do c ← d.get n; pure (some (info_of c))) (or_else none)

  unfoldable pub stop_workload : String → ℕ → Method State (Unit {0})
  stop_workload n timeout = catch (do c ← d.get n; d.stop c timeout) (or_else tt)

  unfoldable pub remove_workload : String → Method State (Unit {0})
  remove_workload n = catch (do c ← d.get n; d.remove c) (or_else tt)

  unfoldable pub pause_if_running : Container → Method State (Unit {0})
  pause_if_running c = if str_eq c.status "running" then d.pause c else pure tt

  unfoldable pub pause_workload : String → Method State (Unit {0})
  pause_workload n = catch (do c ← d.get n; pause_if_running c) (or_else tt)

  unfoldable pub unpause_workload : String → Method State (Unit {0})
  unpause_workload n = catch (do c ← d.get n; d.unpause c) (or_else tt)

  unfoldable pub exec_in_workload : String → List String → Method State ExecResult
  unfolding or_zero or_empty
  exec_in_workload n command =
      catch
        (do
          c ← d.get n
          r ← d.exec_run c command
          pure (record { exit_code = or_zero r.exit_code; output = or_empty r.output }))
        (exec_failed n)

  unfoldable pub list_workloads : Option String → Method State (List Workload)
  unfolding selected
  list_workloads l =
      catch (do cs ← d.list_running; pure (selected d.name_contains l cs)) (λ _. pure [])

-- `network` is DOCKER_NETWORK.
module _ (network : String) (d : Client) where
  open d use {State}

  -- create_and_start: an APIError is logged and raised again.
  unfoldable pub create_and_start : Creation → Method State (Unit {0})
  unfolding run_args
  create_and_start c = catch (d.run (run_args network c)) throw

  unfoldable pub join_network : Container → Method State (Unit {0})
  unfolding member or_none
  join_network c =
      if member network (or_none c.networks)
      then pure tt
      else (do net ← d.get_network network; d.connect net c)

  unfoldable pub ensure_network : String → Method State (Unit {0})
  ensure_network n = catch (do c ← d.get n; join_network c) (or_else tt)
