-- ===== src/Config.antt =====
-- gateway/config.py: models, profiles and the registry of profiles. The catalog itself is
-- Config/Catalog; what the environment can override stands with its default.
pub mod Catalog
use native.Mathlib.Decide.{ℕ_discrete}
use dmr.Prelude.{
  ℕ, ◌+◌, String, Bool, true, false, ◌||◌, Option, none, some, List, [], ◌∷◌, ◌++◌, str_eq, eq_iff,
  ◌≡◌, refl, leb, if◌then◌else◌,
}

-- The engines of the comment on `ModelDefinition.engine`.
pub data Engine : Type 0 where
  vllm ray_vllm spark_cluster comfyui diffusers : Engine

-- `engine in EXEC_ENGINES`
unfoldable pub is_exec : Engine → Bool
is_exec ray_vllm = true
is_exec spark_cluster = true
is_exec _ = false

unfoldable pub is_spark : Engine → Bool
is_spark spark_cluster = true
is_spark _ = false

unfoldable pub is_ray : Engine → Bool
is_ray ray_vllm = true
is_ray _ = false

-- `int | str`
pub data MaxModelLen : Type 0 where
  tokens : ℕ → MaxModelLen
  derived : String → MaxModelLen

-- A value of `extra_args`.
pub data ArgValue : Type 0 where
  text : String → ArgValue
  number : ℕ → ArgValue
  flag : Bool → ArgValue

-- {host_path: {"bind": bind, "mode": mode}}
pub record Volume : Type 0 where
  pub host_path : String
  pub bind : String
  pub mode : String

pub record ModelDefinition : Type 0 where
  pub name : String
  pub container_image : String
  pub container_name : String
  pub vram_required_mb : ℕ
  pub port : ℕ
  pub quantization : String
  pub tensor_parallel_size : ℕ
  pub max_model_len : MaxModelLen
  pub kv_cache_dtype : String
  pub model_path : String
  pub hf_model_id : String
  pub engine : Engine
  pub exec_container : String
  pub cluster_nodes : ℕ
  pub requires_ray_cluster : Bool
  pub extra_args : List (String × ArgValue)
  pub cmd_prefix : List String
  pub extra_volumes : List Volume
  pub extra_env : List (String × String)
  pub container_entrypoint : Option (List String)

-- ModelDefinition.required_ray_nodes
unfoldable pub required_ray_nodes : ModelDefinition → ℕ
unfolding is_ray
required_ray_nodes m =
    if is_ray m.engine || m.requires_ray_cluster
    then (if leb m.tensor_parallel_size 1 then 1 else m.tensor_parallel_size)
    else 0

pub data ProfileMode : Type 0 where
  focus creative : ProfileMode

pub data SwapStrategy : Type 0 where
  pause_unpause stop_start : SwapStrategy

pub record VramProfile : Type 0 where
  pub mode : ProfileMode
  pub description : String
  pub primary_models : List ModelDefinition
  pub secondary_models : List ModelDefinition
  pub labels : List (String × ModelDefinition)
  pub total_vram_required_mb : ℕ
  pub skip_vram_check : Bool

-- profile.primary_models + profile.secondary_models
abbrev pub all_models_of : VramProfile → List ModelDefinition
all_models_of p = p.primary_models ++ p.secondary_models

abbrev pub total_vram : List ModelDefinition → ℕ
total_vram [] = 0
total_vram (m ∷ ms) = m.vram_required_mb + total_vram ms

-- VRAMProfile.__post_init__
abbrev pub post_init : VramProfile → VramProfile
post_init p = record p { total_vram_required_mb = total_vram (all_models_of p) }

-- PROFILES, in the order of its keys.
abbrev pub Registry : Type 0
Registry = List (String × VramProfile)

-- PROFILES.get(key)
unfoldable pub get_profile : String → Registry → Option VramProfile
get_profile k [] = none
get_profile k ((j, p) ∷ ps) = if str_eq j k then some p else get_profile k ps

-- get_swap_strategy, for SYSTEM_RAM_GB.
unfoldable pub get_swap_strategy : ℕ → SwapStrategy
get_swap_strategy ram_gb = if leb 512 ram_gb then pause_unpause else stop_start

pub string_discrete : Discrete String
string_discrete a b = decide (str_eq a b) refl
  where
    decide : (t : Bool) → str_eq a b ≡ t → Dec (a ≡ b)
    decide true e = yes ((eq_iff a b).0 e)
    decide false e = no (λ p. cc (e, (eq_iff a b).1 p))

-- The dataclass's `==`: field by field.
pub ModelDefinition-discrete : Discrete ModelDefinition
ModelDefinition-discrete = hlevel (string_discrete, ℕ_discrete)
