-- ===== src/App/Views.antt =====
-- gateway/app.py, the handlers that only report: profiles, models, health and swap status. A handler's answer is its
-- response's content; what the web framework makes of it is left out.
pub mod Agreement
mod Tests
use Prim.Native.Nat.{Ordering}
use Prim.Native.String.{compare, ◌++◌ as str_append}
use dmr.Prelude.{
  ℕ, ◌+◌, ◌-◌, String, Bool, true, false, ◌&&◌, Option, none, some, List, [], ◌∷◌, ◌++◌, str_eq,
  leb, if◌then◌else◌,
}
use dmr.Config.{
  Engine, MaxModelLen, ModelDefinition, ProfileMode, focus, VramProfile, Registry, get_profile,
  all_models_of,
}
use dmr.Orchestrator.Exec.{ContainerState, stopped, St}
use dmr.Orchestrator.Settings.{Settings, state_of}
use dmr.Orchestrator.RayStatus.{RayStatus, active_vram_profile}
use dmr.Vram.{VramReport}

-- schemas.ModelSlot
pub record ModelSlot : Type 0 where
  pub name : String
  pub label : String
  pub container_name : String
  pub vram_allocated_mb : ℕ
  pub state : ContainerState
  pub port : ℕ
  pub quantization : String
  pub tensor_parallel_size : ℕ
  pub max_model_len : MaxModelLen
  pub kv_cache_dtype : String

-- ModelDefinition.to_slot
unfoldable pub to_slot : ModelDefinition → ContainerState → ModelSlot
to_slot m s = record {
  name = m.name;
  label = "";
  container_name = m.container_name;
  vram_allocated_mb = m.vram_required_mb;
  state = s;
  port = m.port;
  quantization = m.quantization;
  tensor_parallel_size = m.tensor_parallel_size;
  max_model_len = m.max_model_len;
  kv_cache_dtype = m.kv_cache_dtype;
}

-- labels_by_model.setdefault(n, []).append(l)
unfoldable pub add_label :
    String → String → List (String × List String) → List (String × List String)
add_label n l [] = (n, l ∷ []) ∷ []
add_label n l ((k, ls) ∷ ds) =
    if str_eq k n then (k, ls ++ l ∷ []) ∷ ds else (k, ls) ∷ add_label n l ds

-- The loop over profile.labels.items().
unfoldable pub labels_by_model :
    List (String × ModelDefinition) → List (String × List String) → List (String × List String)
unfolding add_label
labels_by_model [] ds = ds
labels_by_model ((l, m) ∷ ls) ds = labels_by_model ls (add_label m.name l ds)

-- labels_by_model.get(n, [])
unfoldable pub labels_of : String → List (String × List String) → List String
labels_of n [] = []
labels_of n ((k, ls) ∷ ds) = if str_eq k n then ls else labels_of n ds

unfoldable pub insert : String → List String → List String
insert t [] = t ∷ []
insert t (u ∷ us) = elim (compare t u) [ Ordering.gt ↦ u ∷ insert t us | _ ↦ t ∷ u ∷ us ]

-- sorted
unfoldable pub sorted : List String → List String
unfolding insert
sorted [] = []
sorted (t ∷ ts) = insert t (sorted ts)

-- ", ".join
unfoldable pub join : List String → String
join [] = ""
join (t ∷ []) = t
join (t ∷ u ∷ us) = str_append t (str_append ", " (join (u ∷ us)))

-- schemas.ProfileDetail
pub record ProfileDetail : Type 0 where
  pub key : String
  pub mode : ProfileMode
  pub description : String
  pub total_vram_required_mb : ℕ
  pub is_active : Bool
  pub models : List ModelSlot

unfoldable pub or_stopped : Option ContainerState → ContainerState
or_stopped none = stopped
or_stopped (some s) = s

-- The state of a slot, for the orchestrator's container_states.
unfoldable pub slot_state : List (String × ContainerState) → Bool → ModelDefinition → ContainerState
unfolding or_stopped state_of
slot_state states false m = stopped
slot_state states true m = or_stopped (state_of m.container_name states)

unfoldable pub slots :
    List (String × ContainerState)
    → List (String × List String)
    → Bool
    → List ModelDefinition
    → List ModelSlot
unfolding slot_state to_slot labels_of
slots states ds active [] = []
slots states ds active (m ∷ ms) =
    record (to_slot m (slot_state states active m)) { label = join (sorted (labels_of m.name ds)) }
    ∷ slots states ds active ms

-- _build_profile_detail
unfoldable pub build_profile_detail :
    List (String × ContainerState) → String → VramProfile → Bool → ProfileDetail
unfolding slots labels_by_model
build_profile_detail states key p active = record {
  key = key;
  mode = p.mode;
  description = p.description;
  total_vram_required_mb = p.total_vram_required_mb;
  is_active = active;
  models = slots states (labels_by_model p.labels []) active (all_models_of p);
}

-- key == active_key
unfoldable pub is_key : String → Option String → Bool
is_key k none = false
is_key k (some a) = str_eq k a

-- The details of list_profiles.
unfoldable pub details_of :
    List (String × ContainerState) → Option String → Registry → List ProfileDetail
unfolding build_profile_detail is_key
details_of states active [] = []
details_of states active ((k, p) ∷ ps) =
    build_profile_detail states k p (is_key k active) ∷ details_of states active ps

-- An HTTPException with its status code, or a response.
pub data Reply (A : Type 0) : Type 0 where
  http_error : ℕ → Reply A
  response : A → Reply A

-- schemas.HealthResponse, without the version and the times.
pub record Health : Type 0 where
  pub status_ok : Bool
  pub active_profile : Option ProfileMode
  pub vram : VramReport
  pub containers : List (String × ContainerState)
  pub ray : Option RayStatus

unfoldable pub mode_of : Option VramProfile → Option ProfileMode
mode_of none = none
mode_of (some p) = some p.mode

unfoldable pub ray_healthy : Option RayStatus → Bool
ray_healthy none = true
ray_healthy (some r) = r.healthy

unfoldable pub models_of :
    List (String × ContainerState) → Option String → Option VramProfile → List ModelSlot
unfolding build_profile_detail
models_of states (some key) (some p) = (build_profile_detail states key p true).models
models_of states _ _ = []

unfoldable pub mode_or_focus : Option VramProfile → ProfileMode
mode_or_focus none = focus
mode_or_focus (some p) = p.mode

unfoldable pub detail_or_404 :
    List (String × ContainerState) → String → Option VramProfile → Reply ProfileDetail
unfolding build_profile_detail
detail_or_404 states key none = http_error 404
detail_or_404 states key (some p) = response (build_profile_detail states key p true)

-- An item of /v1/models.
pub record ModelItem : Type 0 where
  pub id : String
  pub engine : Engine
  pub vram_mb : ℕ
  pub quantization : String
  pub alias_for : Option String

unfoldable pub item_of : String → Option String → ModelDefinition → ModelItem
item_of id alias m = record {
  id = id;
  engine = m.engine;
  vram_mb = m.vram_required_mb;
  quantization = m.quantization;
  alias_for = alias;
}

unfoldable pub model_items : List ModelDefinition → List ModelItem
unfolding item_of
model_items [] = []
model_items (m ∷ ms) = item_of m.name none m ∷ model_items ms

unfoldable pub alias_items : List (String × ModelDefinition) → List ModelItem
unfolding item_of
alias_items [] = []
alias_items ((l, m) ∷ ls) = item_of l (some m.name) m ∷ alias_items ls

unfoldable pub labels_in : Option VramProfile → List (String × ModelDefinition)
labels_in none = []
labels_in (some p) = p.labels

module _ {W : Type 0} (c : Settings) where
  -- GET /v1/profiles: the active key and the details.
  unfoldable pub list_profiles : St W → Option String × List ProfileDetail
  unfolding details_of
  list_profiles s = (s.active_profile, details_of s.container_states s.active_profile c.registry)

  unfoldable pub active_detail : St W → Option String → Reply ProfileDetail
  unfolding detail_or_404 get_profile
  active_detail s none = http_error 404
  active_detail s (some key) =
      if str_eq key ""
      then http_error 404
      else detail_or_404 s.container_states key (get_profile key c.registry)

  -- GET /v1/profiles/active
  unfoldable pub active_profile : St W → Reply ProfileDetail
  unfolding active_detail
  active_profile s = active_detail s s.active_profile

  -- GET /status/profile: the mode and the models; the VRAM report is passed on.
  unfoldable pub profile_status : St W → ProfileMode × List ModelSlot
  unfolding active_vram_profile models_of mode_or_focus
  profile_status s = (
    mode_or_focus (active_vram_profile c s),
    models_of s.container_states s.active_profile (active_vram_profile c s),
  )

  -- GET /health
  unfoldable pub health : VramReport → Option RayStatus → St W → Health
  unfolding active_vram_profile mode_of ray_healthy
  health report ray s = record {
    status_ok = report.healthy && ray_healthy ray;
    active_profile = mode_of (active_vram_profile c s);
    vram = report;
    containers = s.container_states;
    ray = ray;
  }

  -- GET /v1/models
  unfoldable pub list_models : St W → List ModelItem
  unfolding model_items alias_items labels_in active_vram_profile
  list_models s = model_items c.all_models ++ alias_items (labels_in (active_vram_profile c s))
