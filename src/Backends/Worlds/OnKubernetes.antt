-- ===== src/Backends/Worlds/OnKubernetes.antt =====
-- Starting a model's workload in gateway/orchestrator.py, with the backend of kubernetes_backend.py.
use dmr.Prelude.{String, Bool, true, false, Option, none, some, List, [], ◌∷◌, ◌≡◌, refl, ap}
use dmr.Config.{ModelDefinition, SwapStrategy, is_exec}
use dmr.Orchestrator.Exec.{
  St, starting, error, backend_error, Result, ok, err, Call, Exec, ask, raise, catch, modify,
  continue, ◌>>=◌,
}
use dmr.Orchestrator.Outside.{World, Workload}
use dmr.Orchestrator.Outside
use dmr.Orchestrator.Settings.{Settings, set_state, put_state, state_of}
use dmr.Orchestrator.Readiness.{put_state_self}
use dmr.Orchestrator.Lifecycle.{
  create_and_start, recreate, bring_up, start_workload, ensure_container_running,
}
use dmr.Backends.{Answer, value, raised, pure, on_failure}
use dmr.Backends
use dmr.Backends.Kubernetes.{
  Api, Pod, PodStatus, Phase, pending, running, succeeded, failed, unknown, stop_workload,
  remove_workload, get_workload, app_label, first_info, info_of, pod_status, phase_status,
}
use dmr.Backends.Worlds.Effects.{own_engine}
use dmr.Backends.Worlds.{Rest, outcome_of, kubernetes_world, no_entrypoint}

-- The start of the model in container `n` raised, and marked the container.
pub record IsRefused {W : Type 0} (n : String) (r : Result (Unit {0}) × St W) : Type 0 where
  pub raises : r.0 ≡ err (backend_error no_entrypoint)
  pub marked : state_of n r.1.container_states ≡ some error

-- Is the first pod of the workload not running.
abbrev pub is_down : List Pod → Bool
is_down [] = true
is_down (p ∷ ps) = down p.status
  where
    down : Option PodStatus → Bool
    down none = true
    down (some t) = down_in t.phase
      where
        down_in : Option Phase → Bool
        down_in (some running) = false
        down_in _ = true

-- What follows a refused start does not run.
raised-stays :
    {W : Type 0} (n : String) (k : Unit {0} → Exec W (Unit {0})) (r : Result (Unit {0}) × St W)
    → IsRefused n r
    → IsRefused n (continue k r)
raised-stays n k (ok a, s) h = absurd (cc h.raises)
raised-stays n k (err x, s) h = record { raises = h.raises; marked = h.marked }

module _ (k : Api) (r : Rest k.State) (c : Settings) (m : ModelDefinition) where
  create_and_start-IsRefused :
      (s : St k.State) → IsRefused m.container_name (create_and_start (kubernetes_world k r) c m s)
  unfolding create_and_start Outside.create_workload ask catch set_state modify raise ◌>>=◌
  create_and_start-IsRefused s = record {
    raises = refl;
    marked = put_state_self m.container_name error s.container_states;
  }

  -- remove_workload returns, whatever the API says.
  removed :
      (s : St k.State)
      → (u : St k.State) × (Outside.remove_workload (kubernetes_world k r) m.container_name s
          ≡ (ok tt, u))
  unfolding Outside.remove_workload ask remove_workload stop_workload Backends.catch pure
  removed s = (_, ap noted (tried (k.patch_scale m.container_name 0 s.world)))
    where
      noted : Result (Unit {0}) × k.State → Result (Unit {0}) × St k.State
      noted o =
          (o.0, record s { world = o.1; calls = Call.remove_workload m.container_name ∷ s.calls })

      tried :
          (p : Answer (Unit {0}) × k.State)
          → ◌≡◌ {A = Result (Unit {0}) × k.State}
              (outcome_of (on_failure (λ _ t. (value tt, t)) p))
              (ok tt, p.1)
      tried (value x, t) = refl
      tried (raised x, t) = refl

  recreate-IsRefused :
      (s : St k.State) → IsRefused m.container_name (recreate (kubernetes_world k r) c m s)
  unfolding recreate ◌>>=◌
  recreate-IsRefused s =
      let (u, e) = removed s in
      let q = create_and_start-IsRefused u in
      record { raises = rw e q.raises; marked = rw e q.marked }

  -- The statuses of a workload that is down, which are not "running" or "paused".
  bring_up-IsRefused :
      (g : SwapStrategy) (ps : List Pod) (s : St k.State)
      → is_down ps ≡ true
      → IsRefused m.container_name (bring_up (kubernetes_world k r) c m g (first_info ps) s)
  unfolding bring_up first_info info_of pod_status phase_status
  bring_up-IsRefused g [] s h = create_and_start-IsRefused s
  bring_up-IsRefused g (p ∷ ps) s h = by_status p.status h
    where
      by_status :
          (t : Option PodStatus)
          → is_down (record { name = p.name; status = t } ∷ ps) ≡ true
          → IsRefused m.container_name (
              bring_up
                (kubernetes_world k r)
                c
                m
                g
                (some (record { name = p.name; status = pod_status t }))
                s)
      by_status none q = recreate-IsRefused s
      by_status (some t) q = by_phase t.phase q
        where
          by_phase :
              (f : Option Phase)
              → is_down (
                  record {
                    name = p.name;
                    status = some (record { phase = f; conditions = t.conditions });
                  }
                  ∷ ps)
                ≡ true
              → IsRefused m.container_name (
                  bring_up
                    (kubernetes_world k r)
                    c
                    m
                    g
                    (some (record { name = p.name; status = phase_status f t.conditions }))
                    s)
          by_phase none q = recreate-IsRefused s
          by_phase (some running) q = cc
          by_phase (some pending) q = recreate-IsRefused s
          by_phase (some succeeded) q = recreate-IsRefused s
          by_phase (some failed) q = recreate-IsRefused s
          by_phase (some unknown) q = recreate-IsRefused s

  start_workload-IsRefused :
      (g : SwapStrategy) (s : St k.State) (ps : List Pod) (t : k.State)
      → k.list_pods (app_label m.container_name) false s.world ≡ (value ps, t)
      → is_down ps ≡ true
      → IsRefused m.container_name (start_workload (kubernetes_world k r) c m g s)
  unfolding start_workload Outside.get_workload ask get_workload Backends.catch Backends.◌>>=◌ pure
      ◌>>=◌
  start_workload-IsRefused g s ps t e h =
      let u = record s { world = t; calls = Call.get_workload m.container_name ∷ s.calls } in
      let q = bring_up-IsRefused g ps u h in rw e (raised-stays m.container_name _ _ q)

-- On Kubernetes, where the API lists the pods of a model of the Gateway's own and the first of them, if there is one, is not running,
-- _ensure_container_running raises a TypeError for the keyword `entrypoint`, and the model is left in the state ERROR.
pub ensure_container_running-IsRefused :
    (k : Api) (r : Rest k.State) (c : Settings) (m : ModelDefinition) (g : SwapStrategy)
    (s : St k.State) (ps : List Pod) (t : k.State)
    → is_exec m.engine ≡ false
    → k.list_pods (app_label m.container_name) false s.world ≡ (value ps, t)
    → is_down ps ≡ true
    → IsRefused m.container_name (ensure_container_running (kubernetes_world k r) c g m s)
unfolding ensure_container_running set_state modify ◌>>=◌
ensure_container_running-IsRefused k r c m g s ps t q e h =
    let (a, b) = own_engine m.engine q in
    rw (a, b)
      (start_workload-IsRefused k r c m g
        (record s { container_states = put_state m.container_name starting s.container_states }) ps
        t e h)
