-- ===== src/Backends/Worlds/OnDocker.antt =====
-- Starting a model's container in gateway/orchestrator.py, with the backend of docker_backend.py.
pub mod Trials
use dmr.Prelude.{
  String, Bool, true, false, ◌&&◌, ◌||◌, Option, none, some, ◌∷◌, str_eq, eq_iff, if◌then◌else◌,
  ◌≡◌, refl, sym, ◌∙◌, ap, ◌⊎◌, inl, inr,
}
use mathlib.Core.Path.{subst}
use dmr.Config.{ModelDefinition, SwapStrategy, is_exec}
use dmr.Orchestrator.Exec.{
  St, starting, error, Creation, Result, ok, err, Exec, Call, ask, raise, modify, ◌>>=◌,
}
use dmr.Orchestrator.Outside.{World, Workload}
use dmr.Orchestrator.Outside
use dmr.Orchestrator.Readiness.{put_state_self}
use dmr.Orchestrator.Settings.{Settings, set_state, put_state, state_of}
use dmr.Orchestrator.Lifecycle.{
  create_and_start, recreate, bring_up, is_pause, start_workload, ensure_container_running,
}
use dmr.Backends
use dmr.Backends.{Answer, value, raised, throw, catch, on_failure}
use dmr.Backends.Docker
use dmr.Backends.Docker.{Client, info_of, run_args}
use dmr.Backends.Docker.Phases.{
  Statuses, update, IsDaemon, Op, create, remove, unpause, target, is_raised, next_status, Allows,
  perform,
}
use dmr.Backends.Docker.Refinement.{perform-Meets}
use dmr.Backends.Worlds.Effects.{
  Ends, Ends-map, Ends-got, Ends-bind, Ends-catch, Ends-if, own_engine, update-twice, update-there,
}
use dmr.Backends.Docker.Networks.{
  HasNetworks, ensure_network-quiet, get_workload-found, get_workload-missing,
}
use dmr.Backends.Worlds.{Rest, outcome_of, docker_world, creation_of}
use dmr.Backends.Worlds.OnDocker.Trials.{
  IsTried, create_and_start-Ends, recreate-Ends, unpause-Ends,
}

module _ (network : String) (d : Client) (w : IsDaemon d) (r : Rest d.State) (x : HasNetworks d w)
    (c : Settings) (m : ModelDefinition) where
  ensure_network-Ends :
      (n : String) (s : St d.State) (f : Statuses)
      → w.status s.world ≡ f
      → f n ≡ some "running"
      → Ends
          (IsTried network d w.status n f)
          (Outside.ensure_network (docker_world network d r) n)
          s
  unfolding Outside.ensure_network ask
  ensure_network-Ends n s f h q =
      let (s', (e, same)) =
        ensure_network-quiet network d w x n s.world "running" (ap (λ g. g n) h ∙ q) in
      record {
        result = ok tt;
        final = record s { world = s'; calls = Call.ensure_network n ∷ s.calls };
        ran = rw e refl;
        holds = (
          record {
            now = some "running";
            left = same ∙ (h ∙ update-there n (some "running") f q);
            fits = refl;
          },
          tt,
        );
      }

  bring_up-Ends :
      (g : SwapStrategy) (wl : Workload) (s : St d.State) (f : Statuses)
      → w.status s.world ≡ f
      → f m.container_name ≡ some wl.status
      → Ends
          (IsTried network d w.status m.container_name f)
          (bring_up (docker_world network d r) c m g (some wl))
          s
  unfolding bring_up
  bring_up-Ends g wl s f h q =
      let again = recreate-Ends network d w r c m s f h in
      let running = λ (b : str_eq wl.status "running" ≡ true).
        ensure_network-Ends m.container_name s f h
          (q ∙ ap some ((eq_iff wl.status "running").0 b)) in
      Ends-if (str_eq wl.status "paused" && is_pause g) _ _ s
        (λ b.
          unpause-Ends network d w r m.container_name s f h
            (q ∙ ap some ((eq_iff wl.status "paused").0 (and-left _ (is_pause g) b))))
        λ _.
          Ends-if
            (str_eq wl.status "exited" || str_eq wl.status "created" || str_eq wl.status "dead") _ _
            s (λ _. again) λ _. Ends-if (str_eq wl.status "running") _ _ s running λ _. again
    where
      and-left : (a b : Bool) → a && b ≡ true → a ≡ true
      and-left true b e = refl
      and-left false b e = cc

  -- The mark that follows a start.
  marked-Ends :
      (k : Exec d.State (Unit {0})) (s : St d.State) (f : Statuses)
      → Ends (IsTried network d w.status m.container_name f) k s
      → Ends
          (IsTried network d w.status m.container_name f)
          (k >>= λ _. set_state m.container_name starting)
          s
  unfolding set_state modify
  marked-Ends k s f e =
      Ends-bind k _ s e
        (λ a u t. record {
          result = ok tt;
          final = _;
          ran = refl;
          holds = (record { now = t.0.now; left = t.0.left; fits = t.0.fits }, tt);
        })
        λ y u t. t

  start_workload-Ends :
      (g : SwapStrategy) (s : St d.State) (f : Statuses)
      → w.status s.world ≡ f
      → Ends
          (IsTried network d w.status m.container_name f)
          (start_workload (docker_world network d r) c m g)
          s
  unfolding start_workload Outside.get_workload ask info_of bring_up
  start_workload-Ends g s f h =
      let asked = record s { calls = Call.get_workload m.container_name ∷ s.calls } in
      let at : w.status s.world m.container_name ≡ f m.container_name =
        ap (λ k. k m.container_name) h in
      elim (f m.container_name)
          as (λ v.
            f m.container_name ≡ v
            → Ends (IsTried network d w.status m.container_name f)
                (start_workload (docker_world network d r) c m g) s) [
                  | none ↦ λ q.
                      Ends-got _ _ s asked none
                        (rw (get_workload-missing d w m.container_name s.world (at ∙ q)) refl)
                        (marked-Ends _ asked f
                          (create_and_start-Ends network d w r c m asked f h (inl q)))
                  | some v ↦ λ q.
                      let (c1, (e1, same)) =
                        get_workload-found d w m.container_name s.world v (at ∙ q) in
                      Ends-got _ _ s asked (some (info_of c1)) (rw e1 refl) (
                        marked-Ends _ asked f
                          (bring_up-Ends g (info_of c1) asked f h (q ∙ ap some (sym same))))
                ]
        refl

-- With a Docker daemon that keeps its documented behaviour and has no internal error, whatever status the container of a model of
-- the Gateway's own has, or if there is none, _ensure_container_running leaves every other container its status. It
-- returns with the container running, or raises with the model marked ERROR and no container, one that was created
-- only or one that is being removed; and it raises only where the container is being removed before, or a call of
-- containers.run fails for its name when that is free.
pub ensure_container_running-Ends :
    (network : String) (d : Client) (w : IsDaemon d) (x : HasNetworks d w) (r : Rest d.State)
    (c : Settings) (g : SwapStrategy) (m : ModelDefinition) (s : St d.State)
    → is_exec m.engine ≡ false
    → Ends
        (IsTried network d w.status m.container_name (w.status s.world))
        (ensure_container_running (docker_world network d r) c g m)
        s
unfolding ensure_container_running set_state modify
ensure_container_running-Ends network d w x r c g m s q =
    let (a, b) = own_engine m.engine q in
    Ends-got (set_state m.container_name starting) _ s _ tt refl
      (rw (a, b) (start_workload-Ends network d w r x c m g _ (w.status s.world) refl))
