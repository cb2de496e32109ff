-- ===== src/Orchestrator/Exec.antt =====
-- The methods of gateway/orchestrator.py as actions: they mutate the orchestrator, call the outside
-- world and may raise. What was done before a raise stays done.
pub mod Preserves
use dmr.Prelude.{ℕ, String, Bool, true, false, Option, none, some, List, [], ◌∷◌, Text}
use dmr.Config.{ModelDefinition, Volume}

-- schemas.ContainerState
pub data ContainerState : Type 0 where
  starting ready stopping stopped paused error : ContainerState

-- What is raised: a timeout, a RuntimeError of the orchestrator's own, an error of a callee.
pub data Error : Type 0 where
  timed_out : Error
  too_few_nodes container_down worker_unreachable worker_down ray_too_small no_ray_workers
        no_ray_head :
      Error
  backend_error : String → Error
  -- The model's own: a loop ran out of fuel.
  out_of_fuel : Error

pub data Result {ℓ} (A : Type ℓ) : Type ℓ where
  ok : A → Result A
  err : Error → Result A

-- One argument of a `vllm serve` command; `decimal n` is `str(n)`, `letters t` a computed text.
pub data Arg : Type 0 where
  word : String → Arg
  decimal : ℕ → Arg
  letters : Text → Arg

-- The shell scripts, by what they are made from; their quoting is not modelled.
pub data Script : Type 0 where
  kill_serve : String → Script
  launch : String → ℕ → List (String × String) → List Arg → Script
  kill_ray_serve : String → ℕ → Script
  kill_all_ray : Script
  launch_ray : String → List Arg → Script
  clean_placement_groups count_nodes inspect_running : Script

-- backend.create_and_start's arguments.
pub record Creation : Type 0 where
  pub name : String
  pub image : String
  pub command : Option (List Arg)
  pub environment : List (String × Arg)
  pub volumes : List Volume
  pub port : ℕ
  pub entrypoint : Option (List String)

-- What the orchestrator asks of the outside, in order.
pub data Call : Type 0 where
  get_workload remove_workload pause_workload unpause_workload stop_workload ensure_network :
      String → Call
  create_and_start : Creation → Call
  exec_in_workload : String → Script → Call
  run_on_worker : String → Script → Call
  list_workloads : String → Call
  check_health : String → ℕ → Call
  query_gpus : Call
  sleep : ℕ → Call
  persist : String → Call

-- The fields of ContainerOrchestrator that its methods use, the world, and the calls so far, last
-- call first. No method reads `calls`.
pub record St (W : Type 0) : Type 0 where
  pub container_states : List (String × ContainerState)
  pub active_profile : Option String
  pub swap_in_progress : Bool
  pub world : W
  pub calls : List Call

abbrev pub Exec : Type 0 → Type 0 → Type 0
Exec W A = St W → Result A × St W

module _ {W A : Type 0} where
  unfoldable pub pure : A → Exec W A
  pure a s = (ok a, s)

  unfoldable pub raise : Error → Exec W A
  raise e s = (err e, s)

  unfoldable pub gets : (St W → A) → Exec W A
  gets f s = (ok (f s), s)

  -- A call of the outside, with what it does to the world.
  unfoldable pub ask : Call → (W → Result A × W) → Exec W A
  ask c f s = let (r, w) = f s.world in (r, record s { world = w; calls = c ∷ s.calls })

  -- try: m; except Exception as e: h e
  abbrev pub handle : (Error → Exec W A) → Result A × St W → Result A × St W
  handle h (ok a, s) = (ok a, s)
  handle h (err e, s) = h e s

  unfoldable pub catch : Exec W A → (Error → Exec W A) → Exec W A
  catch m h s = handle h (m s)

unfoldable pub modify : {W : Type 0} → (St W → St W) → Exec W (Unit {0})
modify f s = (ok tt, f s)

module _ {W A B : Type 0} where
  abbrev pub continue : (A → Exec W B) → Result A × St W → Result B × St W
  continue f (ok a, s) = f a s
  continue f (err e, s) = (err e, s)

  infixl 10 ◌>>=◌ ◌>>◌
  unfoldable pub ◌>>=◌ : Exec W A → (A → Exec W B) → Exec W B
  ◌>>=◌ m f s = continue f (m s)

  abbrev pub ◌>>◌ : Exec W A → Exec W B → Exec W B
  m >> n = m >>= λ _. n

-- for a in as: body a
unfoldable pub for_each : {W A : Type 0} → List A → (A → Exec W (Unit {0})) → Exec W (Unit {0})
unfolding ◌>>=◌
for_each [] body s = (ok tt, s)
for_each (a ∷ rest) body s = (body a >> for_each rest body) s
