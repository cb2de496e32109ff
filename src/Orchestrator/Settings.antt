-- ===== src/Orchestrator/Settings.antt =====
-- The values of gateway/config.py that gateway/orchestrator.py reads, and its state's dictionary.
use dmr.Prelude.{ℕ, String, Option, none, some, List, [], ◌∷◌, str_eq, if◌then◌else◌}
use dmr.Config.{ModelDefinition, Registry}
use dmr.Orchestrator.Exec.{ContainerState, Exec, modify}

pub record Settings : Type 0 where
  pub registry : Registry
  pub all_models : List ModelDefinition
  pub worker_hosts : List String
  pub cluster_container : String
  pub models_path : String
  pub head_host : String
  pub master_port : ℕ
  pub ram_gb : ℕ
  pub safety_margin_mb : ℕ
  pub swap_timeout : ℕ

-- _container_states.get(name)
unfoldable pub state_of : String → List (String × ContainerState) → Option ContainerState
state_of n [] = none
state_of n ((k, v) ∷ kvs) = if str_eq k n then some v else state_of n kvs

-- _container_states[name] = v
unfoldable pub put_state :
    String → ContainerState → List (String × ContainerState) → List (String × ContainerState)
put_state n v [] = (n, v) ∷ []
put_state n v ((k, w) ∷ kvs) = if str_eq k n then (n, v) ∷ kvs else (k, w) ∷ put_state n v kvs

unfoldable pub set_state : {W : Type 0} → String → ContainerState → Exec W (Unit {0})
unfolding modify put_state
set_state n v = modify (λ s. record s { container_states = put_state n v s.container_states })

-- next((m for m in ALL_MODELS if m.container_name == name), None)
unfoldable pub model_of_container : String → List ModelDefinition → Option ModelDefinition
model_of_container n [] = none
model_of_container n (m ∷ ms) =
    if str_eq m.container_name n then some m else model_of_container n ms
