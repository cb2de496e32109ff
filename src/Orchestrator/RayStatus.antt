-- ===== src/Orchestrator/RayStatus.antt =====
-- check_ray_requirement of gateway/orchestrator.py: the Ray clusters that the loaded models depend on.
-- The text of `detail`, which is for the log, is left out.
use dmr.Prelude.{
  ℕ, String, Bool, true, false, ◌&&◌, ◌||◌, Option, none, some, List, [], ◌∷◌, ◌++◌, str_eq, leb,
  ltb, if◌then◌else◌,
}
use dmr.Config.{
  ModelDefinition, VramProfile, is_ray, required_ray_nodes, all_models_of, get_profile,
}
use dmr.Orchestrator.Exec.{St, Exec, pure, gets, ◌>>=◌}
use dmr.Orchestrator.Outside.{World}
use dmr.Orchestrator.Settings.{Settings}
use dmr.Orchestrator.Ray.{ray_head_name, find_ray_head, count_ray_nodes}
use dmr.Orchestrator.Swap.{model_names}

-- schemas.RayClusterStatus
pub record ClusterStatus : Type 0 where
  pub container : String
  pub nodes_active : ℕ
  pub nodes_required : ℕ
  pub models : List String
  pub healthy : Bool

-- schemas.RayStatus
pub record RayStatus : Type 0 where
  pub healthy : Bool
  pub clusters : List ClusterStatus

abbrev pub Groups : Type 0
Groups = List (String × List ModelDefinition)

-- The registry's entry for a key; an empty key counts as none.
unfoldable pub profile_named : Settings → Option String → Option VramProfile
unfolding get_profile
profile_named c none = none
profile_named c (some k) = if str_eq k "" then none else get_profile k c.registry

-- active_vram_profile
unfoldable pub active_vram_profile : {W : Type 0} → Settings → St W → Option VramProfile
unfolding profile_named
active_vram_profile c s = profile_named c s.active_profile

unfoldable pub uses_ray : List ModelDefinition → List ModelDefinition
unfolding required_ray_nodes
uses_ray [] = []
uses_ray (m ∷ ms) = if ltb 0 (required_ray_nodes m) then m ∷ uses_ray ms else uses_ray ms

unfoldable pub any_ray : List ModelDefinition → Bool
unfolding is_ray
any_ray [] = false
any_ray (m ∷ ms) = is_ray m.engine || any_ray ms

-- The container whose `ray status` describes the model's cluster.
unfoldable pub ray_container : Option String → ModelDefinition → String
unfolding is_ray
ray_container head m = elim head [
  | none ↦ if is_ray m.engine then ray_head_name else m.container_name
  | some h ↦ if is_ray m.engine then h else m.container_name
]

-- grouped.setdefault(container, []).append(model)
unfoldable pub add_to_group : String → ModelDefinition → Groups → Groups
add_to_group n m [] = (n, m ∷ []) ∷ []
add_to_group n m ((k, ms) ∷ gs) =
    if str_eq k n then (k, ms ++ m ∷ []) ∷ gs else (k, ms) ∷ add_to_group n m gs

unfoldable pub grouped : Option String → List ModelDefinition → Groups → Groups
unfolding add_to_group ray_container
grouped head [] gs = gs
grouped head (m ∷ ms) gs = grouped head ms (add_to_group (ray_container head m) m gs)

unfoldable pub max_nodes : List ModelDefinition → ℕ
unfolding required_ray_nodes
max_nodes [] = 0
max_nodes (m ∷ ms) =
    if leb (required_ray_nodes m) (max_nodes ms) then max_nodes ms else required_ray_nodes m

unfoldable pub no_head : Option String → Bool
no_head none = true
no_head (some h) = false

unfoldable pub all_healthy : List ClusterStatus → Bool
all_healthy [] = true
all_healthy (s ∷ ss) = s.healthy && all_healthy ss

module _ (e : World) (c : Settings) where
  open e use {State}

  unfoldable pub check_cluster :
      Option String → String × List ModelDefinition → Exec State ClusterStatus
  check_cluster head g = do
    active ← if no_head head && any_ray g.1 then pure 0 else count_ray_nodes e g.0
    pure (record {
      container = g.0;
      nodes_active = active;
      nodes_required = max_nodes g.1;
      models = model_names g.1;
      healthy = leb (max_nodes g.1) active;
    })

  unfoldable pub check_clusters : Option String → Groups → Exec State (List ClusterStatus)
  unfolding check_cluster
  check_clusters head [] = pure []
  check_clusters head (g ∷ gs) = do
    s ← check_cluster head g
    ss ← check_clusters head gs
    pure (s ∷ ss)

  -- The models that use Ray are not none.
  unfoldable pub check_ray_models : List ModelDefinition → Exec State (Option RayStatus)
  unfolding grouped check_clusters
  check_ray_models [] = pure none
  check_ray_models (m ∷ ms) = do
    head ← if any_ray (m ∷ ms) then find_ray_head e else pure none
    clusters ← check_clusters head (grouped head (m ∷ ms) [])
    pure (some (record { healthy = all_healthy clusters; clusters = clusters }))

  unfoldable pub check_loaded : Option VramProfile → Exec State (Option RayStatus)
  unfolding uses_ray check_ray_models
  check_loaded none = pure none
  check_loaded (some p) = check_ray_models (uses_ray (all_models_of p))

  unfoldable pub check_ray_requirement : Exec State (Option RayStatus)
  unfolding active_vram_profile check_loaded
  check_ray_requirement = do profile ← gets (active_vram_profile c); check_loaded profile
