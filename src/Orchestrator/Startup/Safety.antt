-- ===== src/Orchestrator/Startup/Safety.antt =====
-- gateway/orchestrator.py at startup: the cleanup leaves external containers alone, and only a
-- profile that is really there is adopted.
use mathlib.Core.Path.{subst}
use mathlib.Core.Option.{some-injective}
use dmr.Prelude.{
  String, ◌≡◌, refl, inl, inr, Bool, true, false, ◌&&◌, ◌||◌, not, Bool-cases, if◌then◌else◌, some,
  List, [], ◌∷◌, All, Elem,
}
use dmr.Config.{ModelDefinition, VramProfile, Registry, is_exec, is_spark, is_ray, all_models_of}
use dmr.Orchestrator.Exec.{St, Exec, ◌>>=◌, ◌>>◌}
use dmr.Orchestrator.Exec.Preserves.{Preserves, Preserves-bind, Preserves-if, Preserves-pure}
use dmr.Orchestrator.Outside.{World}
use dmr.Orchestrator.Outside
use dmr.Orchestrator.Settings.{Settings}
use dmr.Orchestrator.Ray.{kill_all_ray_vllm}
use dmr.Orchestrator.Spark.{stop_spark_serve}
use dmr.Orchestrator.Lifecycle.{contains}
use dmr.Orchestrator.Cluster.{stop_spark_serve-Preserves, kill_all_ray_vllm-Preserves}
use dmr.Orchestrator.Ownership.{IsUntouched, untouched, not_other}
use dmr.Orchestrator.Startup.{
  Found, cleanup_models, cleanup_orphaned_containers, remove_found, status_of, has_valid,
  all_present, exec_ok, has_models, complete_profile,
}

module _ (e : World) (c : Settings) where
  cleanup_models-Preserves :
      (cleaned : Bool) (ms : List ModelDefinition)
      → All (λ m. is_exec m.engine ≡ true) ms
      → Preserves (IsUntouched c) (cleanup_models e c cleaned ms)
  unfolding cleanup_models
  cleanup_models-Preserves cleaned [] q = Preserves-pure tt
  cleanup_models-Preserves cleaned (m ∷ ms) q =
      let rest = cleanup_models e c cleaned ms in
      let rest_cleaned = cleanup_models e c true ms in
      let ray : Exec e.State (Unit {0}) =
        if cleaned then rest else (kill_all_ray_vllm e >> rest_cleaned) in
      let other = Outside.get_workload e m.container_name >>= λ w. remove_found e c m w >> rest in
      Preserves-if (is_spark m.engine) (stop_spark_serve e c m >> rest)
        (if is_ray m.engine then ray else other)
        (λ _.
          Preserves-bind _ _ (stop_spark_serve-Preserves e c (untouched c) m)
            λ _. cleanup_models-Preserves cleaned ms q.1)
        (λ s.
          Preserves-if (is_ray m.engine) ray other
            (λ _.
              Preserves-if cleaned rest (kill_all_ray_vllm e >> rest_cleaned)
                (λ _. cleanup_models-Preserves cleaned ms q.1)
                (λ _.
                  Preserves-bind _ _ (kill_all_ray_vllm-Preserves e (untouched c))
                    λ _. cleanup_models-Preserves true ms q.1))
            (λ r. absurd (not_other m.engine q.0 s r)))

  -- Where every model of the catalog runs on an exec engine, no container was created, removed, paused,
  -- unpaused or stopped so far, and only external containers are starting or ready, all this holds
  -- after the cleanup at startup too, whatever the outside does.
  pub cleanup-IsUntouched :
      All (λ m. is_exec m.engine ≡ true) c.all_models
      → (s : St e.State) → IsUntouched c s
      → IsUntouched c (cleanup_orphaned_containers e c s).1
  unfolding cleanup_orphaned_containers
  cleanup-IsUntouched q s h = (cleanup_models-Preserves false c.all_models q).outcome s h

-- A model is there: its container has a valid status, and an exec model answered itself.
unfoldable pub IsThere : Found → ModelDefinition → Type 0
IsThere f m =
    (has_valid (status_of m.container_name f.running) ≡ true)
    × (is_exec m.engine ≡ true → contains m.name f.healthy_exec_models ≡ true)

and_true : (a b : Bool) → a && b ≡ true → (a ≡ true) × (b ≡ true)
and_true true true h = (refl, refl)
and_true true false h = cc
and_true false b h = cc

all-IsThere :
    (f : Found) (ms : List ModelDefinition)
    → exec_ok f ms ≡ true
    → all_present f ms ≡ true
    → All (IsThere f) ms
unfolding IsThere exec_ok all_present
all-IsThere f [] h k = tt
all-IsThere f (m ∷ ms) h k =
    let (a, b) = and_true _ _ h in
    let (d, g) = and_true _ _ k in ((d, λ x. unless _ _ x a), all-IsThere f ms b g)
  where
    unless : (x y : Bool) → x ≡ true → not x || y ≡ true → y ≡ true
    unless true y p q = q
    unless false y p q = cc

-- The profile that is adopted is a registered one with at least one model, and all its models are there.
pub complete_profile-IsThere :
    (f : Found) (reg : Registry) (key : String) (p : VramProfile)
    → complete_profile f reg ≡ some (key, p)
    → Elem (key, p) reg
      × ((has_models (all_models_of p) ≡ true) × All (IsThere f) (all_models_of p))
unfolding complete_profile
complete_profile-IsThere f [] key p h = cc
complete_profile-IsThere f ((k, r) ∷ reg) key p h = elim (Bool-cases test) [
  | inl t ↦
      let (b, d) =
        and_true (has_models (all_models_of r) && exec_ok f (all_models_of r))
          (all_present f (all_models_of r)) t in
      let (a, g) = and_true (has_models (all_models_of r)) (exec_ok f (all_models_of r)) b in
      subst
        (λ (x : String × VramProfile).
          Elem x ((k, r) ∷ reg)
          × ((has_models (all_models_of x.1) ≡ true) × All (IsThere f) (all_models_of x.1)))
        (some-injective _ _ (rw (t, complete_profile) at h))
        (inl refl, (a, all-IsThere f (all_models_of r) g d))
  | inr n ↦
      let (i, there) = complete_profile-IsThere f reg key p (rw (n, complete_profile) at h) in
      (inr i, there)
]
  where
    test : Bool
    test =
        has_models (all_models_of r)
        && exec_ok f (all_models_of r)
        && all_present f (all_models_of r)
