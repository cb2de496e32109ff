-- ===== src/Backends/Tests.antt =====
-- A small Docker daemon, and instances of the theorems on gateway/backends/docker_backend.py.
use mathlib.Core.Path.{subst}
use dmr.Prelude.{
  String, Bool, true, false, List, inl, Option, none, some, [], ◌∷◌, str_eq, if◌then◌else◌, ◌≡◌,
  refl, sym, ◌∙◌, ap,
}
use dmr.Config.{ModelDefinition, vllm, stop_start, is_exec}
use dmr.Config.Catalog.{profiles, all_models, deepseek_v4_flash}
use dmr.Orchestrator.Exec.{St, ok}
use dmr.Orchestrator.Settings.{Settings}
use dmr.Orchestrator.Lifecycle.{ensure_container_running}
use dmr.Backends.Worlds.{Rest, docker_world}
use dmr.Backends.Worlds.Effects.{Ends}
use dmr.Backends.Worlds.OnDocker.Trials.{IsTried}
use dmr.Backends.Worlds.OnDocker.{ensure_container_running-Ends}
use dmr.Backends.Docker.Networks.{HasNetworks}
use dmr.Backends.Docker.Errors.{IsSafe, operations-IsSafe}
use dmr.Backends.{not_found, api_error, Answer, value, raised, Creation, words, options, opaque}
use dmr.Orchestrator.Exec.{word}
use dmr.Backends.Docker.{Client, run_args}
use dmr.Backends.Docker.Phases.{
  Statuses, update, update-same, stopped, IsLaunched, IsDaemon, Op, stop, remove, pause, create,
  Trace,
}
use dmr.Backends.Docker.Refinement.{perform_all, perform_all-refines}

-- A daemon whose state is what it says of each container.
abbrev answer_of : {A : Type 0} → (String → A) → String → Option String → Answer A
answer_of f n none = raised (not_found n)
answer_of f n (some v) = value (f v)

abbrev move :
    String → (String → Option String) → Statuses → Option String → Answer (Unit {0}) × Statuses
move n next s none = (raised (not_found n), s)
move n next s (some v) = (value tt, update n (next v) s)

abbrev unpaused : String → Statuses → Option String → Answer (Unit {0}) × Statuses
unpaused n s none = (raised (not_found n), s)
unpaused n s (some v) =
    if str_eq v "paused" then (value tt, update n (some "running") s) else (raised (api_error n), s)

abbrev removed : String → Statuses → Option String → Answer (Unit {0}) × Statuses
removed n s none = (raised (not_found n), s)
removed n s (some v) =
    if str_eq v "removing" then (raised (api_error n), s) else (value tt, update n none s)

-- There is no image "missing".
abbrev started : Bool → String → Statuses → Option String → Answer (Unit {0}) × Statuses
started true n s none = (raised (not_found n), s)
started false n s none = (value tt, update n (some "running") s)
started b n s (some v) = (raised (api_error n), s)

abbrev small_daemon : Client
small_daemon = record {
  State = Statuses;
  get = λ n s.
      (answer_of (λ v. record { name = n; status = v; networks = some ("dmr" ∷ []) }) n (s n), s);
  run = λ a s. started (str_eq a.image "missing") a.name s (s a.name);
  stop = λ c k s. move c.name (λ v. some (stopped v)) s (s c.name);
  remove = λ c s. removed c.name s (s c.name);
  pause = λ c s. move c.name (λ v. some "paused") s (s c.name);
  unpause = λ c s. unpaused c.name s (s c.name);
  exec_run = λ c l s. (value (record { exit_code = some 0; output = none }), s);
  list_running = λ s. (value [], s);
  get_network = λ n s. (value n, s);
  connect = λ n c s. (value tt, s);
  name_contains = str_eq;
}

-- A container of another name moves the same way.
move_there :
    (n k v : String) (next : String → Option String) (s : Statuses)
    → k ≡ n
    → s n ≡ some v
    → move k next s (s k) ≡ (value tt, update n (next v) s)
move_there n k v next s e h =
    subst (λ x. move x next s (s x) ≡ (value tt, update n (next v) s)) (sym e)
      (ap (move n next s) h)

launched :
    (n : String) (s : Statuses) (b : Bool)
    → s n ≡ none
    → (a : Answer (Unit {0})) × ((t : Statuses) × ((v : Option String) × ((started b n s (s n)
              ≡ (a, t))
            × (IsLaunched a v × ((m : String) → t m ≡ update n v s m)))))
launched n s true h = (
  raised (not_found n),
  (
    s,
    (
      none,
      (
        ap (started true n s) h,
        ((tt, inl refl), λ m. update-same n s m ∙ ap (λ v. update n v s m) h),
      ),
    ),
  ),
)
launched n s false h = (
  value tt,
  (update n (some "running") s, (some "running", (ap (started false n s) h, (refl, λ m. refl)))),
)

refused :
    (b : Bool) (n : String) (s : Statuses) (v : String)
    → started b n s (some v) ≡ (raised (api_error n), s)
refused true n s v = refl
refused false n s v = refl

small_daemon-IsDaemon : IsDaemon small_daemon
unfolding run_args
small_daemon-IsDaemon = record {
  status = λ s. s;
  get_found = λ n s v h. (
    record { name = n; status = v; networks = some ("dmr" ∷ []) },
    (
      ap
          (λ o.
            (answer_of (λ u. record { name = n; status = u; networks = some ("dmr" ∷ []) }) n o, s))
          h,
      (refl, refl),
    ),
  );
  get_missing = λ n s h. (
    n,
    ap
        (λ o.
          (answer_of (λ u. record { name = n; status = u; networks = some ("dmr" ∷ []) }) n o, s))
        h,
  );
  stop_moves =
      λ n c k s v e h. (_, (move_there n c.name v (λ u. some (stopped u)) s e h, λ m. refl));
  remove_moves = λ n c s v e h q. (
    _,
    (
      subst (λ x. removed x s (s x) ≡ (value tt, update n none s)) (sym e)
          (ap (removed n s) h
            ∙ ap (λ b. if b then (raised (api_error n), s) else (value tt, update n none s)) q),
      λ m. refl,
    ),
  );
  remove_refused = λ n c s e h.
      (n, subst (λ x. removed x s (s x) ≡ (raised (api_error n), s)) (sym e) (ap (removed n s) h));
  pause_moves =
      λ n c s e h. (_, (move_there n c.name "running" (λ u. some "paused") s e h, λ m. refl));
  unpause_moves = λ n c s e h. (
    _,
    (
      subst (λ x. unpaused x s (s x) ≡ (value tt, update n (some "running") s)) (sym e)
          (ap (unpaused n s) h),
      λ m. refl,
    ),
  );
  unpause_refused = λ n c s v e h q. (
    n,
    subst (λ x. unpaused x s (s x) ≡ (raised (api_error n), s)) (sym e)
        (ap (unpaused n s) h
          ∙ ap
              (λ b.
                if b then (value tt, update n (some "running") s) else (raised (api_error n), s))
              q),
  );
  run_moves = λ network c s h. launched c.name s (str_eq c.image "missing") h;
  run_refused = λ network c s v h. (
    c.name,
    ap (started (str_eq c.image "missing") c.name s) h
        ∙ refused (str_eq c.image "missing") c.name s v,
  );
}

abbrev pub some_model : Creation
some_model = record {
  name = "qwen";
  image = "vllm";
  command = words (word "serve" ∷ word "qwen" ∷ []);
  environment = ("HF_TOKEN", word "x") ∷ [];
  volumes = ("/models", options (some "/m") (some "ro")) ∷ ("/cache", opaque) ∷ [];
  port = 8000;
  shm_size = "16g";
  entrypoint = none;
}

abbrev pub nothing_there : {A : Type 0} → String → Option A
nothing_there n = none

abbrev five_ops : List Op
five_ops =
    create some_model
    ∷ pause "qwen"
    ∷ create some_model
    ∷ stop "qwen" 10
    ∷ remove "qwen"
    ∷ create (record some_model { image = "missing" })
    ∷ []

perform_all-refines_example :
    Trace five_ops nothing_there
      (perform_all "dmr" small_daemon five_ops nothing_there).0
      (perform_all "dmr" small_daemon five_ops nothing_there).1
unfolding small_daemon-IsDaemon
perform_all-refines_example =
    perform_all-refines "dmr" small_daemon small_daemon-IsDaemon five_ops nothing_there

restarting_exits : stopped "restarting" ≡ "exited"
restarting_exits = refl

operations-IsSafe_example : IsSafe "dmr" small_daemon nothing_there
operations-IsSafe_example = operations-IsSafe "dmr" small_daemon nothing_there

small_daemon-HasNetworks : HasNetworks small_daemon small_daemon-IsDaemon
small_daemon-HasNetworks = record {
  get_network_apart = λ t s. (value t, (refl, tt));
  connect_apart = λ t c s. (value tt, (s, (refl, (tt, refl))));
}

-- Nothing else answers.
abbrev pub idle : {S : Type 0} → Rest S
idle = record {
  run_on_worker = λ h c s. (ok false, s);
  check_health = λ n p s. (false, s);
  query_gpus = λ s. (ok 0, s);
  sleep = λ n s. s;
  persist = λ k s. s;
  clock = λ s. 0;
  command_line = λ c. [];
  parse = λ r. 0;
}

abbrev pub settings : Settings
settings = record {
  registry = profiles;
  all_models = all_models;
  worker_hosts = [];
  cluster_container = "vllm_node";
  models_path = "/models";
  head_host = "spark-1";
  master_port = 29500;
  ram_gb = 128;
  safety_margin_mb = 4096;
  swap_timeout = 900;
}

-- A model that has a container of its own.
abbrev pub own_model : ModelDefinition
own_model = record deepseek_v4_flash { engine = vllm; container_name = "qwen" }

abbrev pub fresh : {S : Type 0} → S → St S
fresh s = record {
  container_states = [];
  active_profile = none;
  swap_in_progress = false;
  world = s;
  calls = [];
}

abbrev exited : Statuses
exited n = if str_eq n "qwen" then some "exited" else none

ensure_container_running-Ends_example :
    Ends
      (IsTried "dmr" small_daemon (λ s. s) "qwen" exited)
      (ensure_container_running
        (docker_world "dmr" small_daemon idle)
        settings
        stop_start
        own_model)
      (fresh exited)
unfolding is_exec small_daemon-IsDaemon
ensure_container_running-Ends_example =
    ensure_container_running-Ends "dmr" small_daemon small_daemon-IsDaemon small_daemon-HasNetworks
      idle settings stop_start own_model (fresh exited) refl
