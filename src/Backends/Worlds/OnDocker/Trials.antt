-- ===== src/Backends/Worlds/OnDocker/Trials.antt =====
-- What the creation, the removal and the unpause of a container by gateway/orchestrator.py come to, with the backend of
-- docker_backend.py.
use dmr.Prelude.{
  String, Bool, true, false, Option, none, some, ◌∷◌, str_eq, eq_iff, if◌then◌else◌, ◌≡◌, refl, sym,
  ◌∙◌, ap, ◌⊎◌, inl, inr,
}
use mathlib.Core.Path.{subst}
use dmr.Config.{ModelDefinition}
use dmr.Orchestrator.Exec.{St, error, Creation, Result, ok, err, Call, ask, raise, modify, ◌>>=◌}
use dmr.Orchestrator.Outside.{World, Workload}
use dmr.Orchestrator.Outside
use dmr.Orchestrator.Readiness.{put_state_self}
use dmr.Orchestrator.Settings.{Settings, set_state, put_state, state_of}
use dmr.Orchestrator.Lifecycle.{create_and_start, recreate}
use dmr.Backends
use dmr.Backends.{Answer, value, raised, throw, catch, on_failure}
use dmr.Backends.Docker
use dmr.Backends.Docker.{Client, info_of, run_args}
use dmr.Backends.Docker.Phases.{
  Statuses, update, IsDaemon, Op, create, remove, unpause, target, is_raised, next_status, Allows,
  perform,
}
use dmr.Backends.Docker.Refinement.{perform-Meets}
use dmr.Backends.Worlds.Effects.{Ends, Ends-map, Ends-bind, Ends-catch, update-twice}
use dmr.Backends.Worlds.{Rest, outcome_of, docker_world, creation_of}

-- A container that was not started: there is none, it was created only, or it is being removed.
abbrev pub IsDown : Option String → Type 0
IsDown v = (v ≡ none) ⊎ ((v ≡ some "created") ⊎ (v ≡ some "removing"))

-- Why a start may raise: its container is being removed, or a call of containers.run fails for a name that is free.
abbrev pub IsExcused :
    (network : String) (d : Client) (status : d.State → Statuses) → String → Option String → Type 0
IsExcused network d status n v =
    (v ≡ some "removing")
    ⊎ ((c : Backends.Creation) × ((s : d.State) × ((c.name ≡ n)
            × ((status s n ≡ none) × (is_raised (d.run (run_args network c) s).0 ≡ true)))))

-- A container's status by what its start came to, for the status before.
abbrev pub Fits :
    (network : String) (d : Client) (status : d.State → Statuses)
    → String
    → Option String
    → Result (Unit {0})
    → Option String
    → Type 0
Fits network d status n u (ok x) v = v ≡ some "running"
Fits network d status n u (err x) v = IsDown v × IsExcused network d status n u

-- The container of this name, if its start raised, is marked ERROR.
abbrev pub IsMarked : {W : Type 0} → String → Result (Unit {0}) → St W → Type 0
IsMarked n (ok x) s = Unit {0}
IsMarked n (err x) s = state_of n s.container_states ≡ some error

-- Of the containers with the statuses `f` only the one of this name has changed, as the result says.
pub record IsStarted (network : String) (d : Client) (status : d.State → Statuses) (n : String)
    (f : Statuses) (r : Result (Unit {0})) (s : St d.State) : Type 0 where
  pub now : Option String
  pub left : status s.world ≡ update n now f
  pub fits : Fits network d status n (f n) r now

-- The same, and a start that raised is marked.
abbrev pub IsTried :
    (network : String) (d : Client) (status : d.State → Statuses)
    → String
    → Statuses
    → Result (Unit {0})
    → St d.State
    → Type 0
IsTried network d status n f r s = IsStarted network d status n f r s × IsMarked n r s

-- The action returned, with these statuses.
abbrev pub Leaves : {W A : Type 0} → (W → Statuses) → Statuses → Result A → St W → Type 0
Leaves status f (ok a) s = status s.world ≡ f
Leaves status f (err x) s = ⊥

module _ (network : String) (d : Client) (w : IsDaemon d) (r : Rest d.State) where
  raised_run :
      (c : Backends.Creation) (s : d.State)
      → is_raised (Docker.create_and_start network d c s).0 ≡ true
      → is_raised (d.run (run_args network c) s).0 ≡ true
  unfolding Docker.create_and_start catch
  raised_run c s h = pick (d.run (run_args network c) s) h
    where
      pick :
          (p : Answer (Unit {0}) × d.State)
          → is_raised (on_failure throw p).0 ≡ true
          → is_raised p.0 ≡ true
      pick (value x, t) e = e
      pick (raised x, t) e = refl

  -- A start whose name is free, or is held by a container that is being removed.
  create_workload-Ends :
      (c : Creation) (s : St d.State) (f : Statuses)
      → w.status s.world ≡ f
      → (f c.name ≡ none) ⊎ (f c.name ≡ some "removing")
      → Ends
          (IsStarted network d w.status c.name f)
          (Outside.create_workload (docker_world network d r) c)
          s
  unfolding Outside.create_workload creation_of ask
  create_workload-Ends c s f h q =
      let k = perform-Meets network d w (create (creation_of c)) s.world in
      pick k.answer k.final k.outcome k.step.after
        (subst (λ g. Allows (create (creation_of c)) (g c.name) k.answer k.step.after) h
          k.step.allowed)
        ((λ i m. k.step.moved m i) ∙ ap (update c.name k.step.after) h) q
    where
      cause :
          (x : Backends.Failure) (t : d.State)
          → perform network d (create (creation_of c)) s.world ≡ (raised x, t)
          → f c.name ≡ none
          → IsExcused network d w.status c.name none
      cause x t e z = inr (
        creation_of c,
        (
          s.world,
          (
            refl,
            (
              ap (λ g. g c.name) h ∙ z,
              raised_run (creation_of c) s.world (ap (λ p. is_raised p.0) e),
            ),
          ),
        ),
      )

      world_of : (a : Answer (Unit {0})) (t : d.State) → (outcome_of (a, t)).1 ≡ t
      world_of (value x) t = refl
      world_of (raised x) t = refl

      fits :
          (a : Answer (Unit {0})) (t : d.State) (v u : Option String)
          → f c.name ≡ u
          → perform network d (create (creation_of c)) s.world ≡ (a, t)
          → (u ≡ none) ⊎ (u ≡ some "removing")
          → Allows (create (creation_of c)) u a v
          → Fits network d w.status c.name u (outcome_of (a, t)).0 v
      fits (value x) t v none y e z l = l
      fits (raised x) t v none y e z (l, b) = (down b, cause x t e y)
        where
          down : (v ≡ none) ⊎ (v ≡ some "created") → IsDown v
          down (inl k) = inl k
          down (inr k) = inr (inl k)
      fits (value x) t v (some u) y e z (b, l) = absurd (cc b)
      fits (raised x) t v (some u) y e (inl z) (b, l) = absurd (cc z)
      fits (raised x) t v (some u) y e (inr z) (b, l) = (inr (inr (l ∙ z)), inl z)

      pick :
          (a : Answer (Unit {0})) (t : d.State)
          → perform network d (create (creation_of c)) s.world ≡ (a, t)
          → (v : Option String) → Allows (create (creation_of c)) (f c.name) a v
          → w.status t ≡ update c.name v f
          → (f c.name ≡ none) ⊎ (f c.name ≡ some "removing")
          → Ends
              (IsStarted network d w.status c.name f)
              (Outside.create_workload (docker_world network d r) c)
              s
      pick a t e v l g z = record {
        result = (outcome_of (a, t)).0;
        final = record s { world = t; calls = Call.create_and_start c ∷ s.calls };
        ran =
            ap
              (λ p.
                let o = outcome_of p in
                (o.0, record s { world = o.1; calls = Call.create_and_start c ∷ s.calls }))
              e
            ∙ ap
                (λ x. (
                  (outcome_of (a, t)).0,
                  record s { world = x; calls = Call.create_and_start c ∷ s.calls },
                ))
                (world_of a t);
        holds = record { now = v; left = g; fits = fits a t v (f c.name) refl e z l };
      }

  pub create_and_start-Ends :
      (c : Settings) (m : ModelDefinition) (s : St d.State) (f : Statuses)
      → w.status s.world ≡ f
      → (f m.container_name ≡ none) ⊎ (f m.container_name ≡ some "removing")
      → Ends
          (IsTried network d w.status m.container_name f)
          (create_and_start (docker_world network d r) c m)
          s
  unfolding create_and_start set_state modify raise ◌>>=◌
  create_and_start-Ends c m s f h q =
      Ends-catch _ _ s (create_workload-Ends _ s f h q) (λ a u k. (k, tt))
        λ x u k. record {
          result = err x;
          final = record u {
            container_states = put_state m.container_name error u.container_states;
          };
          ran = refl;
          holds = (
            record { now = k.now; left = k.left; fits = k.fits },
            put_state_self m.container_name error u.container_states,
          );
        }

  -- An operation that never raises.
  quiet-Ends :
      (k : Call) (op : Op) (s : St d.State) (f : Statuses)
      → w.status s.world ≡ f
      → ((a : Answer (Unit {0})) (u : Option String)
          → Allows op (f (target op)) a u
          → (a ≡ value tt) × (u ≡ next_status op (f (target op))))
      → Ends
          (Leaves w.status (update (target op) (next_status op (f (target op))) f))
          (ask k (λ x. outcome_of (perform network d op x)))
          s
  unfolding ask
  quiet-Ends k op s f h q =
      let p = perform-Meets network d w op s.world in
      let (a, b) =
        q p.answer p.step.after
          (subst (λ g. Allows op (g (target op)) p.answer p.step.after) h p.step.allowed) in
      record {
        result = ok tt;
        final = record s { world = p.final; calls = k ∷ s.calls };
        ran =
            ap (λ x. let o = outcome_of x in (o.0, record s { world = o.1; calls = k ∷ s.calls }))
              (p.outcome ∙ ap (λ y. (y, p.final)) a);
        holds =
            (λ i m. p.step.moved m i)
            ∙ (ap (update (target op) p.step.after) h ∙ ap (λ v. update (target op) v f) b);
      }

  after_remove :
      (n : String) (v : Option String)
      → (next_status (remove n) v ≡ none) ⊎ (next_status (remove n) v ≡ some "removing")
  after_remove n none = inl refl
  after_remove n (some v) = pick (str_eq v "removing") (eq_iff v "removing").0
    where
      pick :
          (b : Bool)
          → (b ≡ true → v ≡ "removing")
          → ((if b then some v else none) ≡ none) ⊎ ((if b then some v else none) ≡ some "removing")
      pick true h = inr (ap some (h refl))
      pick false h = inl refl

  removing_before :
      (n : String) (v : Option String)
      → next_status (remove n) v ≡ some "removing"
      → v ≡ some "removing"
  removing_before n none h = absurd (cc h)
  removing_before n (some v) h = pick (str_eq v "removing") h
    where
      pick : (b : Bool) → (if b then some v else none) ≡ some "removing" → some v ≡ some "removing"
      pick true h = h
      pick false h = absurd (cc h)

  -- What held after the removal holds of the status before it.
  fits_before :
      (n : String) (u : Option String) (y : Result (Unit {0})) (v : Option String)
      → Fits network d w.status n (next_status (remove n) u) y v
      → Fits network d w.status n u y v
  fits_before n u (ok x) v h = h
  fits_before n u (err x) v (h, inl z) = (h, inl (removing_before n u z))
  fits_before n u (err x) v (h, inr z) = (h, inr z)

  pub recreate-Ends :
      (c : Settings) (m : ModelDefinition) (s : St d.State) (f : Statuses)
      → w.status s.world ≡ f
      → Ends
          (IsTried network d w.status m.container_name f)
          (recreate (docker_world network d r) c m)
          s
  unfolding recreate Outside.remove_workload
  recreate-Ends c m s f h =
      let n = m.container_name in
      let v = next_status (remove n) (f n) in
      Ends-bind _ _ s (quiet-Ends _ (remove n) s f h (λ a u l. l))
        (λ a u k.
          let here : update n v f n ≡ v = rw ((eq_iff n n).1 refl) refl in
          Ends-map _ u
            (create_and_start-Ends c m u (update n v f) k
              (subst (λ x. (x ≡ none) ⊎ (x ≡ some "removing")) (sym here) (after_remove n (f n))))
            λ y t z. (
              record {
                now = z.0.now;
                left = z.0.left ∙ update-twice n z.0.now v f;
                fits =
                    fits_before n (f n) y z.0.now
                      (subst (λ x. Fits network d w.status n x y z.0.now) here z.0.fits);
              },
              z.1,
            ))
        (λ x u k. absurd k)

  Leaves-IsTried :
      (n : String) (f : Statuses) (y : Result (Unit {0})) (u : St d.State)
      → Leaves w.status (update n (some "running") f) y u
      → IsTried network d w.status n f y u
  Leaves-IsTried n f (ok x) u h = (record { now = some "running"; left = h; fits = refl }, tt)
  Leaves-IsTried n f (err x) u h = absurd h

  pub unpause-Ends :
      (n : String) (s : St d.State) (f : Statuses)
      → w.status s.world ≡ f
      → f n ≡ some "paused"
      → Ends
          (IsTried network d w.status n f)
          (Outside.unpause_workload (docker_world network d r) n)
          s
  unfolding Outside.unpause_workload
  unpause-Ends n s f h q =
      Ends-map _ s (quiet-Ends (Call.unpause_workload n) (unpause n) s f h (λ a u l. l)) λ y u k.
        Leaves-IsTried n f y u
          (subst (λ v. Leaves w.status (update n (next_status (unpause n) v) f) y u) q k)
