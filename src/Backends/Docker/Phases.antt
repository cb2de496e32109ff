-- ===== src/Backends/Docker/Phases.antt =====
-- What DockerBackend does to the status of containers, with a Docker daemon that keeps its documented behaviour and has no
-- internal error: get finds just what there is; a container that is being removed is not removed again, one of a name that
-- is taken is not created, and one that is not paused is not unpaused; containers.run may fail for reasons of its own,
-- before the container is created (no such image) or after that, at its start (a port that is taken).
use dmr.Prelude.{
  ℕ, String, Bool, true, false, Option, none, some, str_eq, eq_iff, if◌then◌else◌, ◌≡◌, refl, sym,
  ap, List, [], ◌∷◌, ◌⊎◌,
}
use dmr.Backends.{Failure, other, not_found, api_error, Answer, value, raised, Method, Creation}
use dmr.Backends.Docker.{
  Container, Client, run_args, stop_workload, remove_workload, pause_workload, unpause_workload,
  create_and_start,
}

abbrev pub Statuses : Type 0
Statuses = String → Option String

abbrev pub update : String → Option String → Statuses → Statuses
update n v f m = if str_eq n m then v else f m

-- The status after a stop: what runs, restarts or is paused exits.
abbrev pub stopped : String → String
stopped v =
    if str_eq v "running"
    then "exited"
    else (if str_eq v "paused" then "exited" else (if str_eq v "restarting" then "exited" else v))

-- What the SDK raises: NotFound, with ImageNotFound, or another APIError.
abbrev pub IsApiError : Failure → Type 0
IsApiError (other t) = ⊥
IsApiError _ = Unit {0}

-- The container of this name after containers.run, by what that came to.
abbrev pub IsLaunched : Answer (Unit {0}) → Option String → Type 0
IsLaunched (value x) v = v ≡ some "running"
IsLaunched (raised x) v = IsApiError x × ((v ≡ none) ⊎ (v ≡ some "created"))

-- `some "running"` where a container of this name is running, `none` where there is none.
pub record IsDaemon (d : Client) : Type 0 where
  pub status : d.State → Statuses
  pub get_found :
      (n : String) (s : d.State) (v : String)
      → status s n ≡ some v
      → (c : Container) × ((d.get n s ≡ (value c, s)) × ((c.name ≡ n) × (c.status ≡ v)))
  pub get_missing :
      (n : String) (s : d.State)
      → status s n ≡ none
      → (t : String) × (d.get n s ≡ (raised (not_found t), s))
  pub stop_moves :
      (n : String) (c : Container) (k : ℕ) (s : d.State) (v : String)
      → c.name ≡ n
      → status s n ≡ some v
      → (s' : d.State) × ((d.stop c k s ≡ (value tt, s'))
          × ((m : String) → status s' m ≡ update n (some (stopped v)) (status s) m))
  pub remove_moves :
      (n : String) (c : Container) (s : d.State) (v : String)
      → c.name ≡ n
      → status s n ≡ some v
      → str_eq v "removing" ≡ false
      → (s' : d.State) × ((d.remove c s ≡ (value tt, s'))
          × ((m : String) → status s' m ≡ update n none (status s) m))
  pub remove_refused :
      (n : String) (c : Container) (s : d.State)
      → c.name ≡ n
      → status s n ≡ some "removing"
      → (t : String) × (d.remove c s ≡ (raised (api_error t), s))
  pub pause_moves :
      (n : String) (c : Container) (s : d.State)
      → c.name ≡ n
      → status s n ≡ some "running"
      → (s' : d.State) × ((d.pause c s ≡ (value tt, s'))
          × ((m : String) → status s' m ≡ update n (some "paused") (status s) m))
  pub unpause_moves :
      (n : String) (c : Container) (s : d.State)
      → c.name ≡ n
      → status s n ≡ some "paused"
      → (s' : d.State) × ((d.unpause c s ≡ (value tt, s'))
          × ((m : String) → status s' m ≡ update n (some "running") (status s) m))
  pub unpause_refused :
      (n : String) (c : Container) (s : d.State) (v : String)
      → c.name ≡ n
      → status s n ≡ some v
      → str_eq v "paused" ≡ false
      → (t : String) × (d.unpause c s ≡ (raised (api_error t), s))
  pub run_moves :
      (network : String) (c : Creation) (s : d.State)
      → status s c.name ≡ none
      → (a : Answer (Unit {0})) × ((s' : d.State) × ((v : Option String) × ((d.run
                  (run_args network c)
                  s
                ≡ (a, s'))
              × (IsLaunched a v × ((m : String) → status s' m ≡ update c.name v (status s) m)))))
  pub run_refused :
      (network : String) (c : Creation) (s : d.State) (v : String)
      → status s c.name ≡ some v
      → (t : String) × (d.run (run_args network c) s ≡ (raised (api_error t), s))

pub data Op : Type 0 where
  stop : String → ℕ → Op
  remove pause unpause : String → Op
  create : Creation → Op

abbrev pub target : Op → String
target (stop n k) = n
target (remove n) = n
target (pause n) = n
target (unpause n) = n
target (create c) = c.name

-- The status of the container of an operation afterwards, but for a creation.
abbrev pub next_status : Op → Option String → Option String
next_status op none = none
next_status (stop n k) (some v) = some (stopped v)
next_status (remove n) (some v) = if str_eq v "removing" then some v else none
next_status (pause n) (some v) = if str_eq v "running" then some "paused" else some v
next_status (unpause n) (some v) = if str_eq v "paused" then some "running" else some v
next_status (create c) (some v) = some v

abbrev pub is_raised : Answer (Unit {0}) → Bool
is_raised (value x) = false
is_raised (raised x) = true

-- What an operation may answer, and the status that its container then has, for the status before. Only a creation raises: if
-- the name is taken, or if containers.run fails, which leaves no container or one that was not started.
abbrev pub Allows : Op → Option String → Answer (Unit {0}) → Option String → Type 0
Allows (create c) none a v = IsLaunched a v
Allows (create c) (some u) a v = (is_raised a ≡ true) × (v ≡ some u)
Allows (stop n k) u a v = (a ≡ value tt) × (v ≡ next_status (stop n k) u)
Allows (remove n) u a v = (a ≡ value tt) × (v ≡ next_status (remove n) u)
Allows (pause n) u a v = (a ≡ value tt) × (v ≡ next_status (pause n) u)
Allows (unpause n) u a v = (a ≡ value tt) × (v ≡ next_status (unpause n) u)

pub update-same : (n : String) (f : Statuses) (m : String) → f m ≡ update n (f n) f m
update-same n f m =
    elim (str_eq n m) as (λ b. (b ≡ true → n ≡ m) → f m ≡ (if b then f n else f m)) [
      | true ↦ λ h. ap f (sym (h refl))
      | false ↦ λ h. refl
    ]
      (eq_iff n m).0

module _ (network : String) (d : Client) where
  abbrev pub perform : Op → Method d.State (Unit {0})
  perform (stop n k) = stop_workload d n k
  perform (remove n) = remove_workload d n
  perform (pause n) = pause_workload d n
  perform (unpause n) = unpause_workload d n
  perform (create c) = create_and_start network d c

-- An operation takes the statuses to others with an answer: no container but its own has changed.
pub record Step (op : Op) (f : Statuses) (a : Answer (Unit {0})) (g : Statuses) : Type 0 where
  pub after : Option String
  pub allowed : Allows op (f (target op)) a after
  pub moved : (m : String) → g m ≡ update (target op) after f m

-- The operations take the statuses to others, with an answer of each.
abbrev pub Trace : List Op → Statuses → List (Answer (Unit {0})) → Statuses → Type 0
Trace [] f [] g = f ≡ g
Trace [] f (a ∷ rest) g = ⊥
Trace (op ∷ ops) f [] g = ⊥
Trace (op ∷ ops) f (a ∷ rest) g = (e : Statuses) × (Step op f a e × Trace ops e rest g)

module _ (network : String) (d : Client) (w : IsDaemon d) where
  open w use {status}

  -- What an operation answers and leaves.
  pub record Meets (op : Op) (s : d.State) : Type 0 where
    pub answer : Answer (Unit {0})
    pub final : d.State
    pub outcome : perform network d op s ≡ (answer, final)
    pub step : Step op (status s) answer (status final)
