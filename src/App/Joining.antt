-- ===== src/App/Joining.antt =====
-- gateway/app.py: which swap task a request joins.
use dmr.Prelude.{
  ℕ, ◌≡◌, refl, ◌⊎◌, inl, inr, String, Bool, true, false, ◌&&◌, not, Option, none, some, List, [],
  ◌∷◌, ◌++◌, ◌==◌, str_eq, eq_iff, arith, if◌then◌else◌,
}
use dmr.App.{
  Effect, Task, Swapped, Swaps, is_some, is_done, is_target, create, reuse_or_create,
  get_or_create_swap_task, set_result, is_success, effects_of, is_task, untrack,
  execute_swap_and_drain, Step, request, ends, step, run,
}

-- The newest task is tracked while it is not done, and nothing else is.
abbrev pub IsTracked : Option ℕ → Option String → List Task → Type 0
IsTracked task target [] = (task ≡ none) × (target ≡ none)
IsTracked task target (t ∷ ts) =
    ((task ≡ none) × (target ≡ none) × (is_some t.result ≡ true))
    ⊎ ((task ≡ some t.number) × (target ≡ some t.target) × (is_some t.result ≡ false))

abbrev pub Tracked : Swaps → Type 0
Tracked s = IsTracked s.active_swap_task s.active_swap_target s.tasks

create-Tracked : (key : String) (force : Bool) (s : Swaps) → Tracked (create key force s).1
unfolding create is_some
create-Tracked key force s = inr (refl, refl, refl)

request-Tracked :
    (key : String) (force : Bool) (s : Swaps) (o : Option ℕ)
    → Tracked s
    → Tracked (reuse_or_create key force o s).1
unfolding reuse_or_create
request-Tracked key force s none h = create-Tracked key force s
request-Tracked key force s (some i) h =
    pick (not (is_done i s.tasks) && is_target key s.active_swap_target)
  where
    pick : (b : Bool) → Tracked (if b then (i, s) else create key force s).1
    pick true = h
    pick false = create-Tracked key force s

-- The end of a task, by whether it is the newest.
untracked :
    (i : ℕ) (b : Bool) (task : Option ℕ) (target : Option String) (ts : List Task)
    → IsTracked task target ts
    → (let c = is_task i task in
        IsTracked (if c then none else task) (if c then none else target) (set_result i b ts))
unfolding is_task set_result is_some
untracked i b task target [] (h, k) = rw (h, k) (refl, refl)
untracked i b task target (t ∷ ts) (inl (h, k, d)) = rw (h, k) (pick (t.number == i))
  where
    pick :
        (c : Bool)
        → IsTracked none none
            (if c then record t { result = some b } ∷ ts else t ∷ set_result i b ts)
    pick true = inl (refl, refl, refl)
    pick false = inl (refl, refl, d)
untracked i b task target (t ∷ ts) (inr (h, k, d)) = rw (h, k) (pick (t.number == i))
  where
    pick :
        (c : Bool)
        → IsTracked
            (if c then none else some t.number)
            (if c then none else some t.target)
            (if c then record t { result = some b } ∷ ts else t ∷ set_result i b ts)
    pick true = inl (refl, refl, refl)
    pick false = inr (refl, refl, d)

ends-Tracked :
    (i : ℕ) (o : Swapped) (s : Swaps) → Tracked s → Tracked (execute_swap_and_drain i o s)
unfolding execute_swap_and_drain untrack
ends-Tracked i o s h =
    pick (is_task i s.active_swap_task)
      (untracked i (is_success o) s.active_swap_task s.active_swap_target s.tasks h)
  where
    pick :
        (c : Bool)
        → IsTracked
            (if c then none else s.active_swap_task)
            (if c then none else s.active_swap_target)
            (set_result i (is_success o) s.tasks)
        → (let r = record s {
          tasks = set_result i (is_success o) s.tasks;
          effects = s.effects ++ effects_of o;
        } in
            Tracked
              (if c then record r { active_swap_task = none; active_swap_target = none } else r))
    pick true k = k
    pick false k = k

-- After any requests and ends of tasks, the newest task is tracked, with its target, while it is not done; once it is, none is.
pub run-Tracked : (xs : List Step) → Tracked (run xs)
unfolding run step get_or_create_swap_task
run-Tracked [] = (refl, refl)
run-Tracked (request key force ∷ xs) =
    request-Tracked key force (run xs) (run xs).active_swap_task (run-Tracked xs)
run-Tracked (ends i o ∷ xs) = pick (is_done i (run xs).tasks) (run-Tracked xs)
  where
    pick :
        (c : Bool)
        → Tracked (run xs)
        → Tracked (if c then run xs else execute_swap_and_drain i o (run xs))
    pick true h = h
    pick false h = ends-Tracked i o (run xs) h

-- The newest task has this number, is not done and is for this profile.
abbrev pub Leads : ℕ → String → List Task → Type 0
Leads i key [] = ⊥
Leads i key (t ∷ ts) = (t.number ≡ i) × (t.target ≡ key) × (is_some t.result ≡ false)

-- The task is joined, if the newest one is not done and for the same profile; else a new one is created.
abbrev pub joins : String → List Task → Bool
joins key [] = false
joins key (t ∷ ts) = not (is_some t.result) && str_eq t.target key

-- The answer r to a request: its task leads, and a task was created just if none could be joined.
abbrev pub IsJoined : String → Bool → Swaps → ℕ × Swaps → Type 0
IsJoined key force s r =
    Leads r.0 key r.1.tasks × (r.1 ≡ (if joins key s.tasks then s else (create key force s).1))

create-Leads :
    (key : String) (force : Bool) (s : Swaps)
    → (let r = create key force s in Leads r.0 key r.1.tasks)
unfolding create is_some
create-Leads key force s = (refl, refl, refl)

create-IsJoined :
    (key : String) (force : Bool) (s : Swaps)
    → joins key s.tasks ≡ false
    → IsJoined key force s (create key force s)
unfolding create is_some
create-IsJoined key force s h = rw h ((refl, refl, refl), refl)

abbrev state : Option ℕ → Option String → List Task → ℕ → List Effect → Swaps
state task target ts n fx = record {
  active_swap_task = task;
  active_swap_target = target;
  tasks = ts;
  created = n;
  effects = fx;
}

reuse-IsJoined :
    (key : String) (force : Bool) (task : Option ℕ) (target : Option String) (ts : List Task)
    (n : ℕ) (fx : List Effect)
    → IsTracked task target ts
    → IsJoined key force
        (state task target ts n fx)
        (reuse_or_create key force task (state task target ts n fx))
unfolding reuse_or_create is_some is_done is_target
reuse-IsJoined key force task target [] n fx (h, k) =
    rw h (create-IsJoined key force (state none target [] n fx) refl)
reuse-IsJoined key force task target (t ∷ ts) n fx (inl (h, k, d)) =
    rw h (create-IsJoined key force (state none target (t ∷ ts) n fx) (rw d refl))
reuse-IsJoined key force task target (t ∷ ts) n fx (inr (h, k, d)) =
    rw (h, k) (itself (t.number == t.number) (ground arith))
  where
    s : Swaps
    s = state (some t.number) (some t.target) (t ∷ ts) n fx

    pick :
        (b : Bool)
        → (b ≡ true → str_eq t.target key ≡ true)
        → (let r = if b then (t.number, s) else create key force s in
            Leads r.0 key r.1.tasks × (r.1 ≡ (if b then s else (create key force s).1)))
    pick true q = ((refl, (eq_iff t.target key).0 (q refl), d), refl)
    pick false q = (create-Leads key force s, refl)

    both : (x y : Bool) → (x && y) ≡ true → y ≡ true
    both true y q = q
    both false y q = absurd (cc q)

    itself :
        (b : Bool)
        → b ≡ true
        → IsJoined key force s (
            if not (if b then is_some t.result else is_done t.number ts) && str_eq t.target key
            then (t.number, s)
            else create key force s)
    itself true q =
        pick (not (is_some t.result) && str_eq t.target key)
          (both (not (is_some t.result)) (str_eq t.target key))
    itself false q = absurd (cc q)

-- A request for a profile gets the newest task, which is not done and for that profile; it was created for this request
-- just if the newest task before was done or for another profile.
pub get_or_create_swap_task-IsJoined :
    (xs : List Step) (key : String) (force : Bool)
    → IsJoined key force (run xs) (get_or_create_swap_task key force (run xs))
unfolding get_or_create_swap_task
get_or_create_swap_task-IsJoined xs key force =
    let s = run xs in
    reuse-IsJoined key force s.active_swap_task s.active_swap_target s.tasks s.created s.effects
      (run-Tracked xs)
