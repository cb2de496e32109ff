-- ===== src/App.antt =====
-- gateway/app.py: the swap tasks that chat requests wait for, and what a request comes to.
pub mod Joining
pub mod Requests
pub mod Leases
pub mod Draining
pub mod Views
pub mod Admin
pub mod Lifespan
mod Tests
use dmr.Prelude.{
  ℕ, suc, ◌+◌, String, Bool, true, false, ◌&&◌, ◌||◌, not, Option, none, some, List, [], ◌∷◌, ◌++◌,
  ◌==◌, str_eq, if◌then◌else◌,
}

-- An asyncio.Task of _execute_swap_and_drain, with its result once it is done.
pub record Task : Type 0 where
  pub number : ℕ
  pub target : String
  pub forced : Bool
  pub result : Option Bool

-- What switch_profile came to.
pub data Swapped : Type 0 where
  success : Bool → Swapped
  swap_error : String → Swapped

pub data Effect : Type 0 where
  forget_names start_drain reject_failed : Effect
  reject_error : String → Effect

-- _active_swap_task and _active_swap_target, with all tasks ever created, the newest first.
pub record Swaps : Type 0 where
  pub active_swap_task : Option ℕ
  pub active_swap_target : Option String
  pub tasks : List Task
  pub created : ℕ
  pub effects : List Effect

abbrev pub no_swaps : Swaps
no_swaps = record {
  active_swap_task = none;
  active_swap_target = none;
  tasks = [];
  created = 0;
  effects = [];
}

unfoldable pub is_some : {A : Type 0} → Option A → Bool
is_some none = false
is_some (some a) = true

-- task.done()
unfoldable pub is_done : ℕ → List Task → Bool
unfolding is_some
is_done i [] = true
is_done i (t ∷ ts) = if t.number == i then is_some t.result else is_done i ts

unfoldable pub is_target : String → Option String → Bool
is_target k none = false
is_target k (some t) = str_eq t k

-- asyncio.create_task(_execute_swap_and_drain(profile, force))
unfoldable pub create : String → Bool → Swaps → ℕ × Swaps
create key force s = (
  s.created,
  record s {
    active_swap_target = some key;
    active_swap_task = some s.created;
    created = suc s.created;
    tasks = record { number = s.created; target = key; forced = force; result = none } ∷ s.tasks;
  },
)

unfoldable pub reuse_or_create : String → Bool → Option ℕ → Swaps → ℕ × Swaps
unfolding is_done is_target create
reuse_or_create key force none s = create key force s
reuse_or_create key force (some i) s =
    if not (is_done i s.tasks) && is_target key s.active_swap_target
    then (i, s)
    else create key force s

-- _get_or_create_swap_task
unfoldable pub get_or_create_swap_task : String → Bool → Swaps → ℕ × Swaps
unfolding reuse_or_create
get_or_create_swap_task key force s = reuse_or_create key force s.active_swap_task s

unfoldable pub set_result : ℕ → Bool → List Task → List Task
set_result i b [] = []
set_result i b (t ∷ ts) =
    if t.number == i then record t { result = some b } ∷ ts else t ∷ set_result i b ts

unfoldable pub is_success : Swapped → Bool
is_success (success b) = b
is_success (swap_error x) = false

-- What follows the swap: the buffer is drained or rejected.
unfoldable pub effects_of : Swapped → List Effect
effects_of (success true) = forget_names ∷ start_drain ∷ []
effects_of (success false) = reject_failed ∷ []
effects_of (swap_error x) = reject_error x ∷ []

unfoldable pub is_task : ℕ → Option ℕ → Bool
is_task i none = false
is_task i (some j) = j == i

-- The finally clause: the tracking is cleared only if it is this task's.
unfoldable pub untrack : ℕ → Swaps → Swaps
unfolding is_task
untrack i s =
    if is_task i s.active_swap_task
    then record s { active_swap_task = none; active_swap_target = none }
    else s

-- The end of _execute_swap_and_drain of the task i.
unfoldable pub execute_swap_and_drain : ℕ → Swapped → Swaps → Swaps
unfolding untrack set_result is_success effects_of
execute_swap_and_drain i o s =
    untrack i (record s {
      tasks = set_result i (is_success o) s.tasks;
      effects = s.effects ++ effects_of o;
    })

-- A request for a swap, or the end of a task that is not done.
pub data Step : Type 0 where
  request : String → Bool → Step
  ends : ℕ → Swapped → Step

unfoldable pub step : Step → Swaps → Swaps
unfolding get_or_create_swap_task execute_swap_and_drain is_done
step (request key force) s = (get_or_create_swap_task key force s).1
step (ends i o) s = if is_done i s.tasks then s else execute_swap_and_drain i o s

-- Steps, the last first.
unfoldable pub run : List Step → Swaps
unfolding step
run [] = no_swaps
run (x ∷ xs) = step x (run xs)
