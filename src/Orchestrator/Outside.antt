-- ===== src/Orchestrator/Outside.antt =====
-- What gateway/orchestrator.py calls: gateway/backends, ssh, the health endpoints, the VRAM monitor
-- and the clock. None of it is modelled: it is the parameter `e : World` of the model.
use dmr.Prelude.{ℕ, String, Bool, Option, List}
use dmr.Orchestrator.Exec.{Result, ok, Script, Creation, Call, Exec, ask}

-- backends.base.WorkloadInfo, as far as it is read.
pub record Workload : Type 0 where
  pub name : String
  pub status : String

pub record World : Type 1 where
  pub State : Type 0
  pub supports_pause : Bool
  pub get_workload : String → State → Result (Option Workload) × State
  pub remove_workload : String → State → Result (Unit {0}) × State
  pub pause_workload : String → State → Result (Unit {0}) × State
  pub unpause_workload : String → State → Result (Unit {0}) × State
  pub stop_workload : String → State → Result (Unit {0}) × State
  pub ensure_network : String → State → Result (Unit {0}) × State
  pub create_and_start : Creation → State → Result (Unit {0}) × State
  -- The output, as the number that the callers parse out of it (0 if it is none).
  pub exec_in_workload : String → Script → State → Result ℕ × State
  -- Whether the output is "true".
  pub run_on_worker : String → Script → State → Result Bool × State
  pub list_workloads : String → State → Result (List Workload) × State
  pub check_health : String → ℕ → State → Bool × State
  -- The total of free VRAM.
  pub query_gpus : State → Result ℕ × State
  pub sleep : ℕ → State → State
  pub persist : String → State → State
  pub clock : State → ℕ

module _ (e : World) where
  open e use {State}

  unfoldable pub get_workload : String → Exec State (Option Workload)
  unfolding ask
  get_workload n = ask (Call.get_workload n) (e.get_workload n)

  unfoldable pub remove_workload : String → Exec State (Unit {0})
  unfolding ask
  remove_workload n = ask (Call.remove_workload n) (e.remove_workload n)

  unfoldable pub pause_workload : String → Exec State (Unit {0})
  unfolding ask
  pause_workload n = ask (Call.pause_workload n) (e.pause_workload n)

  unfoldable pub unpause_workload : String → Exec State (Unit {0})
  unfolding ask
  unpause_workload n = ask (Call.unpause_workload n) (e.unpause_workload n)

  unfoldable pub stop_workload : String → Exec State (Unit {0})
  unfolding ask
  stop_workload n = ask (Call.stop_workload n) (e.stop_workload n)

  unfoldable pub ensure_network : String → Exec State (Unit {0})
  unfolding ask
  ensure_network n = ask (Call.ensure_network n) (e.ensure_network n)

  unfoldable pub create_workload : Creation → Exec State (Unit {0})
  unfolding ask
  create_workload c = ask (Call.create_and_start c) (e.create_and_start c)

  unfoldable pub exec_in_workload : String → Script → Exec State ℕ
  unfolding ask
  exec_in_workload n c = ask (Call.exec_in_workload n c) (e.exec_in_workload n c)

  unfoldable pub run_on_worker : String → Script → Exec State Bool
  unfolding ask
  run_on_worker h c = ask (Call.run_on_worker h c) (e.run_on_worker h c)

  unfoldable pub list_workloads : String → Exec State (List Workload)
  unfolding ask
  list_workloads l = ask (Call.list_workloads l) (e.list_workloads l)

  abbrev total : {A : Type 0} → A × State → Result A × State
  total (a, w) = (ok a, w)

  -- _check_vllm_health: an error of the probe is an unhealthy answer.
  unfoldable pub check_health : String → ℕ → Exec State Bool
  unfolding ask
  check_health n port = ask (Call.check_health n port) (λ w. total (e.check_health n port w))

  unfoldable pub query_gpus : Exec State ℕ
  unfolding ask
  query_gpus = ask Call.query_gpus e.query_gpus

  unfoldable pub sleep : ℕ → Exec State (Unit {0})
  unfolding ask
  sleep n = ask (Call.sleep n) (λ w. (ok tt, e.sleep n w))

  -- The file write of _persist_state, whose errors are only logged.
  unfoldable pub persist : String → Exec State (Unit {0})
  unfolding ask
  persist k = ask (Call.persist k) (λ w. (ok tt, e.persist k w))
